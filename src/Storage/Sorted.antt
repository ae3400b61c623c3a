-- ===== src/Storage/Sorted.antt =====
-- The file operations keep the list of sealed files in order, so that the search stays right.
use spacex_storage.Prelude.{
  ℕ, Bool, false, ◌&&◌, Option, none, some, List, [], ◌∷◌, ◌≡◌, refl, ℤ, pos, ◌-ℤ◌, Text, ◌==◌,
  text_eq, text_eq_lem, if◌then◌else◌, inl, inr, Option-cases, arith,
}
use spacex_storage.Status.{SpacexStatus, success, unexpected_error, is_success, pending}
use spacex_storage.Files.Defs.{SealedFile, is_file_dup, modify_at, IsSorted}
use spacex_storage.Files.Order.{find, del_file-IsSorted}
use spacex_storage.Files.Place.{
  missing, present, lookup, find-modify_at, find-del_file_at, find-add_file_at, add-del_file_at,
}
use spacex_storage.Workload.Defs.{
  Workload, PendingFile, persist_set, delete_ipfs_file, ipfs_del_all, call, set_file_spec,
  add_to_deleted_file_buffer,
}
use spacex_storage.Storage.Pending.{find_pending, update_pending, erase_pending}
use spacex_storage.Storage.Defs.{
  sealed_entry, dup_status, check_seal_file_dup, pending_entry, storage_seal_file_start,
  drop_pending, end_cleanup, SealEnd, put_sealed, finish_seal, storage_seal_file_end, mark_deleted,
  storage_delete_file,
}
use spacex_storage.Storage.Seal.Defs.{SealBlock, plain_data, seal_block, storage_seal_file}

-- What `check_seal_file_dup` decides, by `find` alone.
abbrev pub dup_answer : Option SealedFile → SpacexStatus
dup_answer none = success
dup_answer (some file) = dup_status file.status

-- `check_seal_file_dup` on a sorted list answers by the status of the file with that content id alone; when it says success the file list has exactly the pending entry for it, otherwise it is as before; the list stays sorted.
pub check_seal_file_dup-find :
    (c cid : Text) (files : List SealedFile)
    → IsSorted files
    → ((check_seal_file_dup cid files).1 ≡ dup_answer (find cid files))
      × (find c (check_seal_file_dup cid files).0 ≡ (
          if is_success (dup_answer (find cid files)) && text_eq c cid
          then some (pending_entry cid)
          else find c files))
      × IsSorted (check_seal_file_dup cid files).0
unfolding check_seal_file_dup
check_seal_file_dup-find c cid files s = elim (lookup cid files s) [
  | missing dup e ↦
      rw (dup, e)
        (ground (arith, find-add_file_at c (pending_entry cid) files s dup, text_eq_lem c cid))
  | present file dup got e lt ↦
      rw (dup, got, e)
        (ground (
          arith,
          find-modify_at cid (λ _. pending_entry cid) (λ file e. refl) c files s dup,
          add-del_file_at (pending_entry cid) (is_file_dup cid files).1 files lt,
          e,
          text_eq_lem c cid,
        ))
]

set_file_spec-files :
    (status : ℕ) (change : ℤ) (w : Workload)
    → (set_file_spec status change w).sealed_files ≡ w.sealed_files
unfolding set_file_spec
set_file_spec-files status change w = ground arith

-- What the deferred blocks leave: the file with this content id goes exactly when it is pending.
abbrev pub is_pending : Option SealedFile → Bool
is_pending none = false
is_pending (some file) = file.status.current == pending

pub drop_pending-find :
    (c root : Text) (w : Workload)
    → IsSorted w.sealed_files
    → (find c (drop_pending root w).sealed_files ≡ (
        if is_pending (find root w.sealed_files) && text_eq c root
        then none
        else find c w.sealed_files))
      × IsSorted (drop_pending root w).sealed_files
unfolding drop_pending set_file_spec call
drop_pending-find c root w s = elim (lookup root w.sealed_files s) [
  | missing dup e ↦ rw (dup, e) (ground arith)
  | present file dup got e lt ↦
      rw (dup, got, e) (ground (arith, find-del_file_at c root w.sealed_files s dup))
]

pub put_sealed-find :
    (c : Text) (entry : SealedFile) (w : Workload)
    → IsSorted w.sealed_files
    → (find c (put_sealed entry w).sealed_files
        ≡ (if text_eq c entry.cid then some entry else find c w.sealed_files))
      × IsSorted (put_sealed entry w).sealed_files
unfolding put_sealed
put_sealed-find c entry w s = elim (lookup entry.cid w.sealed_files s) [
  | missing dup e ↦ rw dup (ground (arith, find-add_file_at c entry w.sealed_files s dup))
  | present file dup got e lt ↦
      rw (dup, got)
        (ground (
          arith,
          find-modify_at entry.cid (λ _. entry) (λ file e. refl) c w.sealed_files s dup,
          e,
          text_eq_lem c entry.cid,
        ))
]

storage_seal_file_start-IsSorted :
    (root root_b58 : Text) (w : Workload)
    → IsSorted w.sealed_files
    → IsSorted (storage_seal_file_start root root_b58 w).0.sealed_files
unfolding storage_seal_file_start set_file_spec call
storage_seal_file_start-IsSorted root b58 w s =
    let checked = (check_seal_file_dup-find root root w.sealed_files s).2 in
    ground (
      arith,
      s,
      checked,
      del_file-IsSorted root (check_seal_file_dup root w.sealed_files).0 checked,
    )

end_cleanup-IsSorted :
    (root : Text) (status : SpacexStatus) (w : Workload)
    → IsSorted w.sealed_files
    → IsSorted (end_cleanup root status w).sealed_files
unfolding end_cleanup call
end_cleanup-IsSorted root status w s =
    let w1 : Workload = if is_success status then w else call (delete_ipfs_file root) w in
    let w2 : Workload = record w1 { pending_files = erase_pending root w1.pending_files } in
    (drop_pending-find root root w2 (ground arith)).1

-- The requests on files.
pub data StorageOp : Type 0 where
  start : Text → Text → StorageOp
  block : Text → List ℕ → Bool → SealBlock → StorageOp
  finish remove : Text → SealEnd → StorageOp

module _ (sha256 : List ℕ → List ℕ) (wide : ℕ → ℕ → ℕ) where
  finish_seal-IsSorted :
      (root : Text) (o : SealEnd) (p : PendingFile) (w : Workload)
      → IsSorted w.sealed_files
      → IsSorted (finish_seal sha256 root o p w).0.sealed_files
  unfolding finish_seal set_file_spec call
  finish_seal-IsSorted root o p w s = ground (
    arith,
    put_sealed-find root (sealed_entry sha256 root o p) (call (persist_set root p.hash) w) s,
  )

  storage_seal_file_end-IsSorted :
      (root : Text) (o : SealEnd) (w : Workload)
      → IsSorted w.sealed_files
      → IsSorted (storage_seal_file_end sha256 root o w).0.sealed_files
  unfolding storage_seal_file_end
  storage_seal_file_end-IsSorted root o w s =
      elim (Option-cases (find_pending root w.pending_files)) [
        | inl e ↦ rw (e, IsSorted) s
        | inr (p, e) ↦
            rw (e, IsSorted)
              (end_cleanup-IsSorted root (finish_seal sha256 root o p w).2
                (finish_seal sha256 root o p w).0 (finish_seal-IsSorted root o p w s))
      ]

  storage_delete_file-IsSorted :
      (cid : Text) (o : SealEnd) (w : Workload)
      → IsSorted w.sealed_files
      → IsSorted (storage_delete_file sha256 cid o w).0.sealed_files
  unfolding storage_delete_file call add_to_deleted_file_buffer
  storage_delete_file-IsSorted cid o w s = elim (lookup cid w.sealed_files s) [
    | missing dup e ↦ rw (dup, IsSorted) s
    | present file dup got e lt ↦
        let marked : Workload = record w {
          sealed_files = modify_at (is_file_dup cid w.sealed_files).1 mark_deleted w.sealed_files;
        } in
        let w2 : Workload =
          set_file_spec file.status.current (pos 0 -ℤ file.size)
            (call (ipfs_del_all file.cid) (add_to_deleted_file_buffer cid marked)) in
        let sorted = (find-modify_at cid mark_deleted (λ file e. e) cid w.sealed_files s dup).1 in
        let sorted2 : IsSorted w2.sealed_files =
          rw
            (
              set_file_spec-files file.status.current (pos 0 -ℤ file.size)
                  (call (ipfs_del_all file.cid) (add_to_deleted_file_buffer cid marked)),
              IsSorted,
            )
            sorted in
        rw (dup, got, IsSorted)
          (ground (arith, s, sorted2, storage_seal_file_end-IsSorted cid o w2 sorted2))
  ]

  cleaned-IsSorted :
      (root : Text) (kept : SpacexStatus) (w : Workload)
      → IsSorted w.sealed_files
      → IsSorted (if is_success kept then w else end_cleanup root kept w).sealed_files
  cleaned-IsSorted root kept w s = ground (arith, s, end_cleanup-IsSorted root kept w s)

  storage_seal_file-IsSorted :
      (root : Text) (bytes : List ℕ) (is_link : Bool) (o : SealBlock) (w : Workload)
      → IsSorted w.sealed_files
      → IsSorted (storage_seal_file sha256 wide root bytes is_link o w).0.sealed_files
  unfolding storage_seal_file
  storage_seal_file-IsSorted root bytes is_link o w s =
      elim (Option-cases (find_pending root w.pending_files)) [
        | inl e ↦
            rw (e, IsSorted) (ground (arith, s, end_cleanup-IsSorted root unexpected_error w s))
        | inr (p, e) ↦
            let answer = plain_data o bytes is_link in
            let block_answer = seal_block sha256 wide o answer.2 p in
            let w2 : Workload = record w {
              pending_files = update_pending root (λ _. block_answer.0) w.pending_files;
            } in
            rw (e, IsSorted)
              (ground (
                arith,
                s,
                end_cleanup-IsSorted root unexpected_error w s,
                cleaned-IsSorted root answer.1 w s,
                cleaned-IsSorted root block_answer.2 w2 s,
              ))
      ]

  unfoldable pub storage_step : StorageOp → Workload → Workload
  storage_step (start root root_b58) w = (storage_seal_file_start root root_b58 w).0
  storage_step (block root bytes is_link o) w =
      (storage_seal_file sha256 wide root bytes is_link o w).0
  storage_step (finish root o) w = (storage_seal_file_end sha256 root o w).0
  storage_step (remove cid o) w = (storage_delete_file sha256 cid o w).0

  unfoldable pub storage_run : List StorageOp → Workload → Workload
  storage_run [] w = w
  storage_run (op ∷ ops) w = storage_run ops (storage_step op w)

  storage_step-IsSorted :
      (op : StorageOp) (w : Workload)
      → IsSorted w.sealed_files
      → IsSorted (storage_step op w).sealed_files
  unfolding storage_step
  storage_step-IsSorted (start root root_b58) w s =
      storage_seal_file_start-IsSorted root root_b58 w s
  storage_step-IsSorted (block root bytes is_link o) w s =
      storage_seal_file-IsSorted root bytes is_link o w s
  storage_step-IsSorted (finish root o) w s = storage_seal_file_end-IsSorted root o w s
  storage_step-IsSorted (remove cid o) w s = storage_delete_file-IsSorted cid o w s

  -- Whatever files are started, ended and deleted and whatever blocks come in, in whatever order and with whatever outcome of the outside steps, a sorted list of sealed files stays sorted, without duplicates.
  pub storage_run-IsSorted :
      (ops : List StorageOp) (w : Workload)
      → IsSorted w.sealed_files
      → IsSorted (storage_run ops w).sealed_files
  unfolding storage_run
  storage_run-IsSorted [] w s = s
  storage_run-IsSorted (op ∷ ops) w s =
      storage_run-IsSorted ops (storage_step op w) (storage_step-IsSorted op w s)
