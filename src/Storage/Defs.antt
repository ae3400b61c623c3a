-- ===== src/Storage/Defs.antt =====
-- `storage_seal_file_start`, `storage_seal_file_end`, `storage_delete_file`, `check_seal_file_dup`
-- (enclave/storage/Storage.cpp). Each runs as a whole: the locks it takes are not modelled.
use spacex_storage.Prelude.{
  ℕ, Bool, not, ◌||◌, Option, none, some, List, [], ℤ, pos, negsuc, ◌-ℤ◌, Text, length, get_elem?,
  ltb, leb, ◌==◌, if◌then◌else◌,
}
use spacex_storage.Status.{
  SpacexStatus, success, upgrade_is_upgrading, file_number_exceed, storage_file_dup,
  storage_file_sealing, storage_file_deleting, storage_new_file_notfound, storage_incomplete_block,
  malloc_failed, unexpected_error, is_success, is_upgrade_none, FileStatus, unverified, valid,
  deleted, pending,
}
use spacex_storage.Files.Defs.{
  SealedFile, is_file_dup, add_file_at, del_file_at, del_file, modify_at,
}
use spacex_storage.Workload.Cids.{erase_cid}
use spacex_storage.Workload.Defs.{
  Workload, PendingFile, store_file_info, delete_file_info, delete_ipfs_file, ipfs_del_all,
  persist_set, call, set_file_spec, add_to_deleted_file_buffer,
}
use spacex_storage.Storage.Pending.{
  find_pending, update_pending, erase_pending, add_block, all_sealed,
}

-- `FILE_NUMBER_UPPER_LIMIT` and `FILE_PENDING_LIMIT`
abbrev pub file_number_limit : ℕ
file_number_limit = 400000

abbrev pub pending_limit : ℕ
pending_limit = 500

-- The entry of a file that is being sealed.
abbrev pub pending_entry : Text → SealedFile
pending_entry cid = record {
  cid = cid;
  status = record { current = pending; waiting = unverified; origin = unverified };
  hash = [];
  size = pos 0;
  sealed_size = pos 0;
  block_num = pos 0;
  chain_block_num = pos 0;
  lost_index = pos 0;
}

-- What a file that is already there means for a new one: the status, and whether its old entry goes.
unfoldable pub dup_status : FileStatus → SpacexStatus
dup_status s =
    if s.current == pending
    then storage_file_sealing
    else if s.current == deleted
    then (if s.origin == deleted || s.origin == unverified then success else storage_file_deleting)
    else storage_file_dup

-- `check_seal_file_dup`
unfoldable pub check_seal_file_dup : Text → List SealedFile → List SealedFile × SpacexStatus
unfolding dup_status
check_seal_file_dup cid files =
    let (dup, at) = is_file_dup cid files in
    if dup
    then elim (get_elem? files at) [
      | none ↦ (files, storage_file_dup)
      | some file ↦
          let status = dup_status file.status in
          if is_success status
          then (add_file_at (pending_entry cid) at (del_file_at at files), status)
          else (files, status)
    ]
    else (add_file_at (pending_entry cid) at files, success)

-- `storage_seal_file_start`
unfoldable pub storage_seal_file_start : Text → Text → Workload → Workload × SpacexStatus
storage_seal_file_start root root_b58 w =
    if not (is_upgrade_none w.upgrade_status)
    then (w, upgrade_is_upgrading)
    else if leb file_number_limit (length w.sealed_files)
    then (w, file_number_exceed)
    else (let (files, status) = check_seal_file_dup root w.sealed_files in
        if not (is_success status)
        then (record w { sealed_files = files }, status)
        else if ltb pending_limit (length w.pending_files)
        then (record w { sealed_files = del_file root files }, file_number_exceed)
        else (
          call (store_file_info root pending) (
              set_file_spec pending (pos 1) (record w {
                sealed_files = files;
                pending_files = update_pending root (add_block root_b58 (pos 1)) w.pending_files;
              })),
          success,
        ))

-- What the deferred blocks of `storage_seal_file_end` and `storage_seal_file` do to the file list: a
-- file that is still pending goes.
unfoldable pub drop_pending : Text → Workload → Workload
drop_pending root w =
    let (dup, at) = is_file_dup root w.sealed_files in
    if dup
    then elim (get_elem? w.sealed_files at) [
      | none ↦ w
      | some file ↦
          if file.status.current == pending
          then set_file_spec pending (negsuc 0) (
              call (delete_file_info root pending)
                (record w { sealed_files = del_file_at at w.sealed_files }))
          else w
    ]
    else w

-- The deferred block of `storage_seal_file_end`.
unfoldable pub end_cleanup : Text → SpacexStatus → Workload → Workload
unfolding drop_pending
end_cleanup root status w =
    let w1 = if is_success status then w else call (delete_ipfs_file root) w in
    drop_pending root (record w1 { pending_files = erase_pending root w1.pending_files })

-- How the steps outside the enclave go: the allocation, the chain's block number (none when the app
-- has no block information), and the storing of the tree.
pub record SealEnd : Type 0 where
  pub allocated : Bool
  pub chain_block : Option ℤ
  pub persisted : SpacexStatus

-- `INT_MAX`
abbrev pub int_max : ℤ
int_max = pos 2147483647

abbrev pub chain_block_of : SealEnd → ℤ
chain_block_of o = elim (o.chain_block) [ none ↦ int_max | some n ↦ n ]

-- The sealed file that goes into the list; `sha256` is `sgx_sha256_msg`.
abbrev pub sealed_entry : (List ℕ → List ℕ) → Text → SealEnd → PendingFile → SealedFile
sealed_entry sha256 root o p = record {
  cid = root;
  status = record { current = valid; waiting = unverified; origin = unverified };
  hash = sha256 p.hash;
  size = p.size;
  sealed_size = p.sealed_size;
  block_num = p.block_num;
  chain_block_num = chain_block_of o;
  lost_index = pos 0;
}

-- The new entry replaces one with the same content id, or goes in at the place the search gives.
unfoldable pub put_sealed : SealedFile → Workload → Workload
put_sealed entry w =
    let (dup, at) = is_file_dup entry.cid w.sealed_files in
    if dup
    then elim (get_elem? w.sealed_files at) [
      | none ↦ w
      | some file ↦
          let w' =
            if file.status.current == deleted
            then record w { deleted_cids = erase_cid entry.cid w.deleted_cids }
            else w in
          record w' { sealed_files = modify_at at (λ _. entry) w.sealed_files }
    ]
    else record w { sealed_files = add_file_at entry at w.sealed_files }

-- `storage_seal_file_end` between the check of the pending file and the deferred block: the workload,
-- the status that is returned, and the variable `spacex_status` that the deferred block reads.
unfoldable pub finish_seal :
    (List ℕ → List ℕ)
    → Text
    → SealEnd
    → PendingFile
    → Workload
    → Workload × SpacexStatus × SpacexStatus
unfolding put_sealed
finish_seal sha256 root o p w =
    if not (is_upgrade_none w.upgrade_status)
    then (w, upgrade_is_upgrading, unexpected_error)
    else if not (all_sealed p.blocks)
    then (w, storage_incomplete_block, unexpected_error)
    else if not o.allocated
    then (w, malloc_failed, unexpected_error)
    else (let w1 = call (persist_set root p.hash) w in
        if not (is_success o.persisted) then (w1, o.persisted, o.persisted) else (
          call (store_file_info root valid) (
              set_file_spec valid p.size
                (set_file_spec pending (negsuc 0) (put_sealed (sealed_entry sha256 root o p) w1))),
          success,
          success,
        ))

-- `storage_seal_file_end`
unfoldable pub storage_seal_file_end :
    (List ℕ → List ℕ) → Text → SealEnd → Workload → Workload × SpacexStatus
storage_seal_file_end sha256 root o w = elim (find_pending root w.pending_files) [
  | none ↦ (w, storage_new_file_notfound)
  | some p ↦
      let (w', status, kept) = finish_seal sha256 root o p w in (end_cleanup root kept w', status)
]

-- `set_char(CURRENT_STATUS, FILE_STATUS_DELETED)`
abbrev pub mark_deleted : SealedFile → SealedFile
mark_deleted file = record file { status = record (file.status) { current = deleted } }

-- `storage_delete_file`; `o` is for the sealing that it ends when the file was pending.
unfoldable pub storage_delete_file :
    (List ℕ → List ℕ) → Text → SealEnd → Workload → Workload × SpacexStatus
storage_delete_file sha256 cid o w =
    let (dup, at) = is_file_dup cid w.sealed_files in
    if not dup then (w, storage_new_file_notfound) else elim (get_elem? w.sealed_files at) [
      | none ↦ (w, storage_new_file_notfound)
      | some file ↦
          if file.status.current == deleted
          then (w, success)
          else (let w1 =
                add_to_deleted_file_buffer cid
                  (record w { sealed_files = modify_at at mark_deleted w.sealed_files }) in
              let w2 =
                set_file_spec file.status.current (pos 0 -ℤ file.size)
                  (call (ipfs_del_all file.cid) w1) in
              if file.status.current == pending
              then ((storage_seal_file_end sha256 cid o w2).0, success)
              else (w2, success))
    ]
