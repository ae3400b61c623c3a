-- ===== src/Workload/Info.antt =====
-- `gen_workload_info`, `get_upgrade_srd_info`, `get_upgrade_file_info` (enclave/workload/Workload.cpp):
-- the two root hashes that stand for the sealed space and the files.
use spacex_storage.Prelude.{
  ℕ, ◌*◌, ◌%◌, Bool, not, List, [], ◌∷◌, ◌++◌, Text, length, is_empty, take, if◌then◌else◌,
}
use spacex_storage.Status.{SpacexStatus, success, malloc_failed, is_success}
use spacex_storage.SrdMeta.Defs.{serialize_srd}
use spacex_storage.Files.Defs.{SealedFile}
use spacex_storage.Workload.Defs.{Workload, size_mod}
use spacex_storage.Workload.Restore.{is_file_pending, settled}
use spacex_storage.Report.Generate.{zero_hash, srd_bytes}

-- Whether memory is there for the entries of sealed space, and for the hashes of the files, and what
-- stands in the local variable of the files' root before the root is put there.
pub record Memory : Type 0 where
  pub srd_buffer : Bool
  pub files_buffer : Bool
  pub unset : List ℕ

-- The JSON object of `gen_workload_info`; a key that is missing reads as 0 and as no hash.
pub record WorkloadInfo : Type 0 where
  pub srd_space : ℕ
  pub srd_root : List ℕ
  pub file_root : List ℕ

-- `HASH_LENGTH` bytes of the hash of each file that is not pending.
unfoldable pub settled_hashes : List SealedFile → List ℕ
settled_hashes [] = []
settled_hashes (file ∷ files) =
    if is_file_pending file then settled_hashes files else take 32 file.hash ++ settled_hashes files

module _ (sha256 : List ℕ → List ℕ) where
  -- The root hash of the sealed space, with the status of its buffer.
  unfoldable pub srd_root_hash : Memory → List (List ℕ) → SpacexStatus × List ℕ
  srd_root_hash memory [] = (success, zero_hash)
  srd_root_hash memory (item ∷ items) =
      if memory.srd_buffer
      then (success, sha256 (srd_bytes (item ∷ items)))
      else (malloc_failed, [])

  -- The root hash of the files, with the status of its buffer, which only grows for a file that is not
  -- pending. When all files are pending the buffer is a null pointer, which `sgx_sha256_msg` refuses;
  -- its result is not looked at, and the variable keeps what it holds.
  unfoldable pub file_root_hash : Memory → List SealedFile → SpacexStatus × List ℕ
  unfolding settled_hashes
  file_root_hash memory [] = (success, zero_hash)
  file_root_hash memory (file ∷ files) =
      if is_empty (settled (file ∷ files))
      then (success, memory.unset)
      else if memory.files_buffer
      then (success, sha256 (settled_hashes (file ∷ files)))
      else (malloc_failed, [])

  -- `gen_workload_info`
  unfoldable pub gen_workload_info : Memory → Workload → SpacexStatus × WorkloadInfo
  unfolding srd_root_hash file_root_hash
  gen_workload_info memory w =
      let (srd_status, srd_root) = srd_root_hash memory w.srd.hashs in
      if not (is_success srd_status)
      then (srd_status, record { srd_space = 0; srd_root = []; file_root = [] })
      else (let (status, file_root) = file_root_hash memory w.sealed_files in
          (
            status,
            record {
              srd_space = length w.srd.hashs * 1024 * 1024 * 1024 % size_mod;
              srd_root = srd_root;
              file_root = file_root;
            },
          ))

  -- `get_upgrade_srd_info`: the root hash and the entries.
  unfoldable pub get_upgrade_srd_info : Memory → Workload → SpacexStatus × List ℕ × List Text
  unfolding srd_root_hash
  get_upgrade_srd_info memory w =
      let (status, srd_root) = srd_root_hash memory w.srd.hashs in
      (status, srd_root, if is_success status then serialize_srd w.srd else [])

  -- `get_upgrade_file_info`: the root hash and the files.
  unfoldable pub get_upgrade_file_info : Memory → Workload → SpacexStatus × List ℕ × List SealedFile
  unfolding file_root_hash
  get_upgrade_file_info memory w =
      let (status, file_root) = file_root_hash memory w.sealed_files in
      (status, file_root, if is_success status then settled w.sealed_files else [])
