-- ===== src/Workload/Restore.antt =====
-- `serialize_file`, `restore_file`, `restore_file_info`, `clean_file`, `clean_all`
-- (enclave/workload/Workload.cpp): the files as they are stored and read back.
use spacex_storage.Prelude.{
  ℕ, Bool, true, false, Option, none, some, List, [], ◌∷◌, ◌++◌, map, pos, Text, ◌==◌,
  if◌then◌else◌,
}
use spacex_storage.Status.{SpacexStatus, success, bad_seal_data, FileStatus, pending, valid, lost}
use spacex_storage.SrdMeta.Defs.{clean_srd}
use spacex_storage.Files.Defs.{SealedFile}
use spacex_storage.Workload.Defs.{
  Workload, Spec, FileInfo, file_info_all, delete_ipfs_file, persist_del, call, set_file_spec,
  unset_key_pair, unset_upgrade,
}

-- An element of the stored array: all keys, or the content id and the status only.
pub data Stored : Type 0 where
  whole : SealedFile → Stored
  stub : Text → FileStatus → Stored

-- A key that is missing reads as 0, and as no hash.
abbrev pub read_stored : Stored → SealedFile
read_stored (whole file) = file
read_stored (stub cid status) = record {
  cid = cid;
  status = status;
  hash = [];
  size = pos 0;
  sealed_size = pos 0;
  block_num = pos 0;
  chain_block_num = pos 0;
  lost_index = pos 0;
}

abbrev pub is_file_pending : SealedFile → Bool
is_file_pending file = file.status.current == pending

unfoldable pub serialize_entry : SealedFile → Stored
serialize_entry file = if is_file_pending file then stub file.cid file.status else whole file

-- `serialize_file`
unfoldable pub serialize_file : Workload → List Stored
serialize_file w = map serialize_entry w.sealed_files

abbrev pub info_of : ℕ → SealedFile → FileInfo
info_of status file = record {
  file_type = status;
  cid = file.cid;
  size = file.size;
  sealed_size = file.sealed_size;
  chain_block_num = file.chain_block_num;
}

-- The inner loop of `restore_file_info`.
unfoldable pub infos_of : ℕ → List SealedFile → List FileInfo
infos_of status [] = []
infos_of status (file ∷ files) =
    if file.status.current == status
    then info_of status file ∷ infos_of status files
    else infos_of status files

-- `restore_file_info`: whether the text can be built is outside. The keys of `g_file_spec_status` come
-- in the order of their characters.
unfoldable pub restore_file_info : Bool → Workload → Workload
unfolding infos_of
restore_file_info false w = w
restore_file_info true w =
    call
      (file_info_all (
        infos_of valid w.sealed_files
        ++ (infos_of lost w.sealed_files ++ infos_of pending w.sealed_files)))
      w

-- A round of the loop of `restore_file`.
unfoldable pub restore_item : SealedFile → Workload → Workload
restore_item file w =
    if is_file_pending file
    then call (persist_del file.cid) (call (delete_ipfs_file file.cid) w)
    else set_file_spec file.status.current file.size
        (record w { sealed_files = w.sealed_files ++ file ∷ [] })

unfoldable pub restore_file_loop : List Stored → Workload → Workload
unfolding restore_item
restore_file_loop [] w = w
restore_file_loop (item ∷ items) w = restore_file_loop items (restore_item (read_stored item) w)

-- `restore_file`; no list stands for a JSON value that is not an array.
unfoldable pub restore_file : Bool → Option (List Stored) → Workload → Workload × SpacexStatus
unfolding restore_file_info restore_file_loop
restore_file dumped none w = (w, bad_seal_data)
restore_file dumped (some []) w = (w, success)
restore_file dumped (some (item ∷ items)) w = (
  restore_file_info dumped (restore_file_loop (item ∷ items) (record w { sealed_files = [] })),
  success,
)

abbrev no_files_spec : Spec
no_files_spec = record { num = pos 0; total = pos 0 }

-- `clean_file`
unfoldable pub clean_file : Workload → Workload
clean_file w = call (file_info_all []) (record w {
  sealed_files = [];
  pending_spec = no_files_spec;
  valid_spec = no_files_spec;
  lost_spec = no_files_spec;
})

-- `clean_all`
unfoldable pub clean_all : Workload → Workload
unfolding clean_file
clean_all w = unset_upgrade (unset_key_pair (clean_file (record w { srd = clean_srd w.srd })))

-- The files that are not pending, in their order.
unfoldable pub settled : List SealedFile → List SealedFile
settled [] = []
settled (file ∷ files) = if is_file_pending file then settled files else file ∷ settled files
