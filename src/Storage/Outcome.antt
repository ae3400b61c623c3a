-- ===== src/Storage/Outcome.antt =====
-- What the file operations achieve: which file a content id finds afterwards, and what stays awaited.
use spacex_storage.Prelude.{
  ℕ, ◌<◌, ◌≤◌, ◌≡◌, ap, ◌∙◌, true, false, ◌&&◌, none, some, List, pos, ◌-ℤ◌, Text, length,
  get_elem?, ◌==◌, text_eq, text_eq_lem, text_eq_refl, if◌then◌else◌, arith,
}
use spacex_storage.Status.{
  valid, unverified, SpacexStatus, success, is_success, none_yet, deleted, pending,
}
use spacex_storage.Files.Defs.{SealedFile, is_file_dup, modify_at, IsSorted}
use spacex_storage.Files.Order.{find}
use spacex_storage.Files.Place.{map_file, find-modify_at, missing, present, lookup}
use spacex_storage.Workload.Cids.{has_cid, has_cid-insert_cid}
use spacex_storage.Workload.Defs.{
  Workload, PendingFile, call, persist_set, ipfs_del_all, delete_ipfs_file, set_file_spec,
  add_to_deleted_file_buffer,
}
use spacex_storage.Storage.Pending.{
  find_pending, erase_pending, all_sealed, add_block, or_no_blocks, find-update_pending,
  find-erase_pending,
}
use spacex_storage.Storage.Defs.{
  pending_entry, storage_seal_file_start, drop_pending, end_cleanup, SealEnd, sealed_entry,
  chain_block_of, finish_seal, storage_seal_file_end, mark_deleted, storage_delete_file,
  file_number_limit, pending_limit,
}
use spacex_storage.Storage.Sorted.{
  dup_answer, check_seal_file_dup-find, is_pending, drop_pending-find, put_sealed-find,
}

-- `storage_seal_file_start` succeeds only when no upgrade runs, there is room for the file and for a pending one, and no file in the way; then the content id finds the pending entry, its root block is awaited once more, and every other file is as before.
pub storage_seal_file_start_success :
    (c root root_b58 : Text) (w : Workload)
    → IsSorted w.sealed_files
    → (storage_seal_file_start root root_b58 w).1 ≡ success
    → (w.upgrade_status ≡ none_yet)
      × (length w.sealed_files < file_number_limit)
      × (length w.pending_files ≤ pending_limit)
      × (dup_answer (find root w.sealed_files) ≡ success)
      × (find c (storage_seal_file_start root root_b58 w).0.sealed_files
          ≡ (if text_eq c root then some (pending_entry root) else find c w.sealed_files))
      × (find_pending root (storage_seal_file_start root root_b58 w).0.pending_files
          ≡ some (add_block root_b58 (pos 1) (or_no_blocks (find_pending root w.pending_files))))
unfolding storage_seal_file_start set_file_spec call
storage_seal_file_start_success c root b58 w s e = ground (
  arith,
  e,
  check_seal_file_dup-find c root w.sealed_files s,
  find-update_pending root root (add_block b58 (pos 1)) w.pending_files,
  text_eq_refl root,
)

drop_pending-pending_files :
    (root : Text) (w : Workload) → (drop_pending root w).pending_files ≡ w.pending_files
unfolding drop_pending set_file_spec call
drop_pending-pending_files root w = ground arith

-- The workload that the deferred block of `storage_seal_file_end` hands to `drop_pending`.
abbrev cleaned : Text → SpacexStatus → Workload → Workload
cleaned root status w =
    let w1 : Workload = if is_success status then w else call (delete_ipfs_file root) w in
    record w1 { pending_files = erase_pending root w1.pending_files }

cleaned-files :
    (root : Text) (status : SpacexStatus) (w : Workload)
    → ((cleaned root status w).sealed_files ≡ w.sealed_files)
      × ((cleaned root status w).pending_files ≡ erase_pending root w.pending_files)
unfolding call
cleaned-files root status w = ground arith

end_cleanup-find :
    (c root : Text) (status : SpacexStatus) (w : Workload)
    → IsSorted w.sealed_files
    → (find c (end_cleanup root status w).sealed_files ≡ (
        if is_pending (find root w.sealed_files) && text_eq c root
        then none
        else find c w.sealed_files))
      × (find_pending root (end_cleanup root status w).pending_files ≡ none)
unfolding end_cleanup
end_cleanup-find c root status w s =
    let same = (cleaned-files root status w).0 in
    let sorted : IsSorted (cleaned root status w).sealed_files = rw (same, IsSorted) s in
    ground (
      arith,
      cleaned-files root status w,
      drop_pending-find c root (cleaned root status w) sorted,
      drop_pending-pending_files root (cleaned root status w),
      find-erase_pending root root w.pending_files,
      text_eq_refl root,
    )

module _ (sha256 : List ℕ → List ℕ) where
  finish_seal-find :
      (c root : Text) (o : SealEnd) (p : PendingFile) (w : Workload)
      → IsSorted w.sealed_files
      → w.upgrade_status ≡ none_yet
      → all_sealed p.blocks ≡ true
      → o.allocated ≡ true
      → o.persisted ≡ success
      → ((finish_seal sha256 root o p w).1 ≡ success)
        × ((finish_seal sha256 root o p w).2 ≡ success)
        × (find c (finish_seal sha256 root o p w).0.sealed_files ≡ (
            if text_eq c root then some (sealed_entry sha256 root o p) else find c w.sealed_files))
        × IsSorted (finish_seal sha256 root o p w).0.sealed_files
  unfolding finish_seal set_file_spec call
  finish_seal-find c root o p w s none_e sealed allocated persisted = ground (
    arith,
    none_e,
    persisted,
    put_sealed-find c (sealed_entry sha256 root o p) (call (persist_set root p.hash) w) s,
  )

  -- When no upgrade runs, every block of a file that is being sealed has come in, and the outside steps succeed, `storage_seal_file_end` succeeds: the content id finds the valid entry made of what was recorded about its blocks, every other file is as before, and it is awaited no more.
  pub storage_seal_file_end_success :
      (c root : Text) (o : SealEnd) (p : PendingFile) (w : Workload)
      → IsSorted w.sealed_files
      → find_pending root w.pending_files ≡ some p
      → w.upgrade_status ≡ none_yet
      → all_sealed p.blocks ≡ true
      → o.allocated ≡ true
      → o.persisted ≡ success
      → ((storage_seal_file_end sha256 root o w).1 ≡ success)
        × (find c (storage_seal_file_end sha256 root o w).0.sealed_files ≡ (
            if text_eq c root
            then some (record {
              cid = root;
              status = record { current = valid; waiting = unverified; origin = unverified };
              hash = sha256 p.hash;
              size = p.size;
              sealed_size = p.sealed_size;
              block_num = p.block_num;
              chain_block_num = chain_block_of o;
              lost_index = pos 0;
            })
            else find c w.sealed_files))
        × (find_pending root (storage_seal_file_end sha256 root o w).0.pending_files ≡ none)
  unfolding storage_seal_file_end
  storage_seal_file_end_success c root o p w s e none_e sealed allocated persisted =
      let got = finish_seal-find c root o p w s none_e sealed allocated persisted in
      let here = finish_seal-find root root o p w s none_e sealed allocated persisted in
      let w1 : Workload = (finish_seal sha256 root o p w).0 in
      rw (e, find)
        (ground (
          arith,
          got,
          here,
          end_cleanup-find c root (finish_seal sha256 root o p w).2 w1 (got.3),
          text_eq_refl root,
        ))

  finish_seal_failure :
      (root : Text) (o : SealEnd) (p : PendingFile) (w : Workload)
      → is_success (finish_seal sha256 root o p w).1 ≡ false
      → (finish_seal sha256 root o p w).0.sealed_files ≡ w.sealed_files
  unfolding finish_seal call
  finish_seal_failure root o p w h = ground arith

  -- When `storage_seal_file_end` fails for a file that was awaited, for whatever reason, the content id is awaited no more, its entry is gone if it was still pending, and every other file is as before.
  pub storage_seal_file_end_failure :
      (c root : Text) (o : SealEnd) (p : PendingFile) (w : Workload)
      → IsSorted w.sealed_files
      → find_pending root w.pending_files ≡ some p
      → is_success (storage_seal_file_end sha256 root o w).1 ≡ false
      → (find c (storage_seal_file_end sha256 root o w).0.sealed_files ≡ (
          if is_pending (find root w.sealed_files) && text_eq c root
          then none
          else find c w.sealed_files))
        × (find_pending root (storage_seal_file_end sha256 root o w).0.pending_files ≡ none)
  unfolding storage_seal_file_end
  storage_seal_file_end_failure c root o p w s e h =
      let failed : is_success (finish_seal sha256 root o p w).1 ≡ false = ground (arith, e, h) in
      let same = finish_seal_failure root o p w failed in
      let w1 : Workload = (finish_seal sha256 root o p w).0 in
      let sorted : IsSorted w1.sealed_files = rw (same, IsSorted) s in
      rw (e, find)
        (ground (arith, same, end_cleanup-find c root (finish_seal sha256 root o p w).2 w1 sorted))

  -- The workload of `storage_delete_file` before it ends a sealing.
  marked_workload : Text → SealedFile → Workload → Workload
  marked_workload cid file w = set_file_spec file.status.current (pos 0 -ℤ file.size) (
      call (ipfs_del_all file.cid) (
        add_to_deleted_file_buffer cid (record w {
          sealed_files = modify_at (is_file_dup cid w.sealed_files).1 mark_deleted w.sealed_files;
        })))

  marked_workload-find :
      (c cid : Text) (file : SealedFile) (w : Workload)
      → IsSorted w.sealed_files
      → (is_file_dup cid w.sealed_files).0 ≡ true
      → (find c (marked_workload cid file w).sealed_files ≡ (
          if text_eq c cid
          then map_file mark_deleted (find c w.sealed_files)
          else find c w.sealed_files))
        × IsSorted (marked_workload cid file w).sealed_files
        × ((marked_workload cid file w).pending_files ≡ w.pending_files)
        × ((marked_workload cid file w).upgrade_status ≡ w.upgrade_status)
        × (has_cid cid (marked_workload cid file w).deleted_cids ≡ true)
  unfolding marked_workload set_file_spec call add_to_deleted_file_buffer
  marked_workload-find c cid file w s dup = ground (
    arith,
    find-modify_at cid mark_deleted (λ file e. e) c w.sealed_files s dup,
    has_cid-insert_cid cid cid w.deleted_cids,
    text_eq_refl cid,
  )

  delete_step :
      (cid : Text) (o : SealEnd) (file : SealedFile) (w : Workload)
      → (is_file_dup cid w.sealed_files).0 ≡ true
      → get_elem? w.sealed_files (is_file_dup cid w.sealed_files).1 ≡ some file
      → (file.status.current == deleted) ≡ false
      → storage_delete_file sha256 cid o w ≡ (
        (if file.status.current == pending
            then (storage_seal_file_end sha256 cid o (marked_workload cid file w)).0
            else marked_workload cid file w),
        success,
      )
  unfolding storage_delete_file marked_workload
  delete_step cid o file w dup got live = rw (dup, got, live) (ground arith)

  -- The deletion of a file that is sealed says success, leaves its entry with the current status deleted and the rest of it as it was, and every other file as before, and buffers the content id for the validator.
  pub storage_delete_file_sealed :
      (c cid : Text) (o : SealEnd) (file : SealedFile) (w : Workload)
      → IsSorted w.sealed_files
      → find cid w.sealed_files ≡ some file
      → (file.status.current == deleted) ≡ false
      → (file.status.current == pending) ≡ false
      → ((storage_delete_file sha256 cid o w).1 ≡ success)
        × (find c (storage_delete_file sha256 cid o w).0.sealed_files ≡ (
            if text_eq c cid
            then some (record file { status = record (file.status) { current = deleted } })
            else find c w.sealed_files))
        × (has_cid cid (storage_delete_file sha256 cid o w).0.deleted_cids ≡ true)
  storage_delete_file_sealed c cid o file w s e live settled = elim (lookup cid w.sealed_files s) [
    | missing dup e' ↦ ground (arith, e)
    | present file' dup got e' lt ↦
        let same : file' ≡ file = ground (arith, e, e') in
        let step = delete_step cid o file w dup (got ∙ ap some same) live in
        rw (step, settled, find)
          (ground (arith, e, marked_workload-find c cid file w s dup, text_eq_lem c cid))
  ]

  -- A file that is still being sealed when it is deleted does come back: when every block has come in, no upgrade runs and the outside steps succeed, `storage_delete_file` says success and the content id finds a valid file.
  pub storage_delete_file_resurrects :
      (cid : Text) (o : SealEnd) (file : SealedFile) (p : PendingFile) (w : Workload)
      → IsSorted w.sealed_files
      → find cid w.sealed_files ≡ some file
      → (file.status.current == pending) ≡ true
      → (file.status.current == deleted) ≡ false
      → find_pending cid w.pending_files ≡ some p
      → w.upgrade_status ≡ none_yet
      → all_sealed p.blocks ≡ true
      → o.allocated ≡ true
      → o.persisted ≡ success
      → ((storage_delete_file sha256 cid o w).1 ≡ success)
        × (find cid (storage_delete_file sha256 cid o w).0.sealed_files
            ≡ some (sealed_entry sha256 cid o p))
  storage_delete_file_resurrects cid o file p w s e awaited live pe none_e sealed allocated
        persisted =
      elim (lookup cid w.sealed_files s) [
        | missing dup e' ↦ ground (arith, e)
        | present file' dup got e' lt ↦
            let same : file' ≡ file = ground (arith, e, e') in
            let step = delete_step cid o file w dup (got ∙ ap some same) live in
            let marked = marked_workload-find cid cid file w s dup in
            rw (step, awaited, find)
              (ground (
                arith,
                text_eq_refl cid,
                storage_seal_file_end_success cid cid o p (marked_workload cid file w) marked.1
                    (ap (find_pending cid) marked.2 ∙ pe) (marked.3 ∙ none_e) sealed allocated
                    persisted,
              ))
      ]
