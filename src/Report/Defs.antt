-- ===== src/Report/Defs.antt =====
-- `gen_work_report`, `gen_and_upload_work_report` (enclave/report/Report.cpp) and
-- `handle_report_result` (enclave/workload/Workload.cpp). The library functions that hash, sign and
-- print are parameters.
use spacex_storage.Prelude.{
  ℕ, ◌+◌, Bool, true, false, ◌&&◌, ◌||◌, List, [], ◌∷◌, ◌++◌, ℤ, pos, ◌+ℤ◌, ◌-ℤ◌, Text, ltb, ◌==◌,
  if◌then◌else◌,
}
use spacex_storage.Status.{FileStatus, valid, lost, deleted, unverified}
use spacex_storage.Files.Defs.{SealedFile, is_file_dup, modify_at}
use spacex_storage.Workload.Cids.{insert_cid}
use spacex_storage.Workload.Defs.{Workload, store_metadata, call}

-- An element of `added_files` and `deleted_files`.
pub record Entry : Type 0 where
  pub cid : Text
  pub size : ℤ
  pub chain_block_num : ℤ

-- The variables of the loop over `sealed_files`.
pub record Collected : Type 0 where
  pub valid_idx : List ℕ
  pub files_size : ℤ
  pub added : List Entry
  pub removed : List Entry
  pub reported_acc : ℕ
  pub reported : List Text

-- `WORKREPORT_FILE_LIMIT`
abbrev pub file_limit : ℕ
file_limit = 300

-- The four changes of status that a report tells of.
abbrev pub is_reportable : FileStatus → Bool
is_reportable s =
    s.current == valid && s.origin == unverified
    || (s.current == lost && s.origin == valid)
    || (s.current == valid && s.origin == lost)
    || (s.current == deleted && s.origin == valid)

abbrev pub write_waiting : SealedFile → SealedFile
write_waiting file = record file { status = record (file.status) { waiting = file.status.current } }

abbrev pub entry_of : SealedFile → Entry
entry_of file = record { cid = file.cid; size = file.size; chain_block_num = file.chain_block_num }

-- The branch for a file that is reported.
unfoldable pub report_file : SealedFile → Collected → Collected
report_file file c =
    let cur = file.status.current in
    let told : Collected = record c {
      reported = insert_cid file.cid c.reported;
      reported_acc = c.reported_acc + 1;
    } in
    if cur == deleted || cur == lost
    then record told {
      removed = c.removed ++ entry_of file ∷ [];
      files_size = c.files_size -ℤ file.size;
    }
    else if cur == valid
    then record told {
      added = c.added ++ entry_of file ∷ [];
      files_size = c.files_size +ℤ file.size;
    }
    else told

-- The body of the loop, at index `i`.
unfoldable pub collect_file : Bool → ℕ → SealedFile → Collected → SealedFile × Collected
collect_file true i file c = (
  file,
  if file.status.current == valid && file.status.origin == valid
      then record c { valid_idx = c.valid_idx ++ i ∷ []; files_size = c.files_size +ℤ file.size }
      else c,
)
collect_file false i file c =
    let counted : Collected = record c {
      valid_idx = if file.status.current == valid then c.valid_idx ++ i ∷ [] else c.valid_idx;
      files_size = if file.status.origin == valid then c.files_size +ℤ file.size else c.files_size;
    } in
    (
      write_waiting file,
      if ltb c.reported_acc file_limit && is_reportable file.status
          then report_file file counted
          else counted,
    )

unfoldable pub collect : Bool → ℕ → List SealedFile → Collected → List SealedFile × Collected
collect upgrading i [] c = ([], c)
collect upgrading i (file ∷ files) c =
    let (file', c') = collect_file upgrading i file c in
    let (files', c'') = collect upgrading (i + 1) files c' in (file' ∷ files', c'')

abbrev pub nothing_collected : Collected
nothing_collected = record {
  valid_idx = [];
  files_size = pos 0;
  added = [];
  removed = [];
  reported_acc = 0;
  reported = [];
}

-- `status->set_char(ORIGIN_STATUS, status->get_char(WAITING_STATUS))`
abbrev pub confirm : SealedFile → SealedFile
confirm file = record file { status = record (file.status) { origin = file.status.waiting } }

-- The loop of `handle_report_result`, and whether it has changed a file.
unfoldable pub handle_reported : List Text → List SealedFile → List SealedFile × Bool
handle_reported [] files = (files, false)
handle_reported (cid ∷ cids) files =
    let (dup, at) = is_file_dup cid files in
    let (files', handled) =
      handle_reported cids (if dup then modify_at at confirm files else files) in
    (files', dup || handled)

-- `handle_report_result`
unfoldable pub handle_report_result : Workload → Workload
handle_report_result w =
    let (files, handled) = handle_reported w.reported_files_idx w.sealed_files in
    let w' : Workload = record w { sealed_files = files; reported_files_idx = [] } in
    if handled then call store_metadata w' else w'
