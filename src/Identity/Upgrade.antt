-- ===== src/Identity/Upgrade.antt =====
-- `id_gen_upgrade_data` and `id_restore_from_upgrade` (enclave/identity/Identity.cpp): an enclave
-- hands its workload to its successor, which checks it by the two root hashes and a signature.
use spacex_storage.Prelude.{
  ℕ, zero, suc, ◌+◌, ◌%◌, Bool, true, false, not, Option, none, some, List, ◌++◌, map, pos, Text,
  text_eq, ltb, leb, take, if◌then◌else◌,
}
use spacex_storage.Status.{
  SpacexStatus, success, unexpected_error, block_height_expired, sgx_sign_failed,
  sgx_verify_sig_failed, upgrade_wait_for_next_era, upgrade_get_block_hash_failed,
  upgrade_gen_workreport_failed, upgrade_restore_srd_failed, upgrade_restore_file_failed,
  upgrade_bad_srd, upgrade_bad_file, is_success, done,
}
use spacex_storage.Hex.{hexstring, hex_string_to_bytes}
use spacex_storage.SrdMeta.Defs.{restore_srd}
use spacex_storage.Files.Defs.{SealedFile}
use spacex_storage.Workload.Defs.{
  Workload, report_slot, size_mod, set_upgrade, set_upgrade_status, report_add_validated_srd_proof,
  report_add_validated_file_proof,
}
use spacex_storage.Workload.Restore.{Stored, whole, restore_file}
use spacex_storage.Workload.Info.{
  Memory, WorkloadInfo, gen_workload_info, get_upgrade_srd_info, get_upgrade_file_info,
}
use spacex_storage.Report.Generate.{Library, Outside, gen_and_upload_work_report}
use spacex_storage.Identity.Metadata.{pub_key_size}

-- The JSON object that is handed over. No list stands for a value that is no array.
pub record UpgradeData : Type 0 where
  pub public_key : Text
  pub block_height : Text
  pub block_hash : Text
  pub srd : Option (List Text)
  pub files : Option (List Stored)
  pub srd_root : Text
  pub file_root : Text
  pub sig : Text

-- How the steps outside go for the old enclave: the block's hash, the report, the opening of the
-- signature's context, memory, the text of the object, and its storing.
pub record ExportSteps : Type 0 where
  pub hash_status : SpacexStatus
  pub block_hash : Text
  pub report : Outside
  pub context : Bool
  pub memory : Memory
  pub dumped : SpacexStatus
  pub stored : SpacexStatus

-- The same for the new enclave: `verify` is `sgx_ecdsa_verify`, `to_number` is `std::atoi`, and
-- `network` the status of `ocall_entry_network`.
pub record ImportSteps : Type 0 where
  pub told : Bool
  pub memory : Memory
  pub context : Bool
  pub verify : List ℕ → List ℕ → List ℕ → Bool
  pub network : SpacexStatus
  pub to_number : Text → ℕ
  pub report : Outside

-- The loop that looks for the slot of the block.
unfoldable pub slot_height : ℕ → ℕ → ℕ → Option ℕ
slot_height zero block_height h = none
slot_height (suc fuel) block_height h =
    if ltb ((report_slot + h) % size_mod) block_height
    then slot_height fuel block_height ((h + report_slot) % size_mod)
    else some h

-- The bytes that are signed.
unfoldable pub upgrade_buffer : List ℕ → Text → Text → List ℕ → List ℕ → List ℕ
upgrade_buffer pub_key height hash srd_root file_root =
    pub_key ++ (height ++ (hash ++ (take 32 srd_root ++ take 32 file_root)))

module _ (lib : Library) where
  -- The signature, the object and its storing, for the root hashes, the entries and the files.
  unfoldable pub export_signed :
      ExportSteps
      → ℕ
      → Workload
      → List ℕ × List Text
      → List ℕ × List SealedFile
      → Workload × SpacexStatus × Option UpgradeData
  unfolding upgrade_buffer
  export_signed steps height w (srd_root, srd) (file_root, files) =
      let height_text = lib.to_text (pos height) in
      let hash = take 64 steps.block_hash in
      let pub_key = take pub_key_size w.key_pair in
      elim (lib.sign (upgrade_buffer pub_key height_text hash srd_root file_root)) [
        | none ↦ (w, sgx_sign_failed, none)
        | some sig ↦
            if not (is_success steps.dumped)
            then (w, steps.dumped, none)
            else if not (is_success steps.stored)
            then (w, steps.stored, none)
            else (
              set_upgrade_status done w,
              success,
              some (record {
                public_key = hexstring pub_key;
                block_height = height_text;
                block_hash = hash;
                srd = some srd;
                files = some (map whole files);
                srd_root = hexstring srd_root;
                file_root = hexstring file_root;
                sig = hexstring sig;
              }),
            )
      ]

  -- `id_gen_upgrade_data` after the report.
  unfoldable pub export_workload :
      ExportSteps → ℕ → Workload → Workload × SpacexStatus × Option UpgradeData
  unfolding export_signed
  export_workload steps height w =
      let (srd_status, srd_root, srd) = get_upgrade_srd_info lib.sha256 steps.memory w in
      let (file_status, file_root, files) = get_upgrade_file_info lib.sha256 steps.memory w in
      if not steps.context
      then (w, sgx_sign_failed, none)
      else if not (is_success srd_status)
      then (w, srd_status, none)
      else if not (is_success file_status)
      then (w, file_status, none)
      else export_signed steps height w (srd_root, srd) (file_root, files)

  -- `id_gen_upgrade_data`, with the object that is stored.
  unfoldable pub id_gen_upgrade_data :
      ExportSteps → ℕ → Workload → Workload × SpacexStatus × Option UpgradeData
  unfolding export_workload slot_height
  id_gen_upgrade_data steps block_height w =
      if leb block_height w.report_height
      then (w, block_height_expired, none)
      else if ltb block_height ((report_slot + w.report_height) % size_mod)
      then (w, upgrade_wait_for_next_era, none)
      else elim (slot_height (suc block_height) block_height w.report_height) [
        | none ↦ (w, unexpected_error, none)
        | some height ↦
            if not (is_success steps.hash_status)
            then (w, upgrade_get_block_hash_failed, none)
            else (let (w', status) =
                  gen_and_upload_work_report lib steps.report steps.block_hash height false w in
                if not (is_success status)
                then (w', upgrade_gen_workreport_failed, none)
                else export_workload steps height w')
      ]

  -- The check of the signature and of the root hashes.
  unfoldable pub check_info : ImportSteps → UpgradeData → List ℕ → WorkloadInfo → SpacexStatus
  unfolding upgrade_buffer
  check_info steps d pub_key info =
      if not steps.context then sgx_sign_failed else elim (hex_string_to_bytes d.sig) [
        | none ↦ unexpected_error
        | some sig ↦
            if not (
              steps.verify pub_key
                (upgrade_buffer pub_key d.block_height d.block_hash info.srd_root info.file_root)
                (take pub_key_size sig))
            then sgx_verify_sig_failed
            else if not (text_eq (hexstring info.srd_root) d.srd_root)
            then upgrade_bad_srd
            else if not (text_eq (hexstring info.file_root) d.file_root)
            then upgrade_bad_file
            else success
      ]

  -- The same over the restored workload.
  unfoldable pub check_workload : ImportSteps → UpgradeData → List ℕ → Workload → SpacexStatus
  unfolding check_info
  check_workload steps d pub_key w =
      let (status, info) = gen_workload_info lib.sha256 steps.memory w in
      if not (is_success status) then status else check_info steps d pub_key info

  -- The restoring and the check, for a public key of the right size.
  unfoldable pub import_workload :
      ImportSteps → UpgradeData → List ℕ → Workload → Workload × SpacexStatus
  unfolding check_workload
  import_workload steps d pub_key w =
      let (srd, srd_status) = restore_srd d.srd w.srd in
      let w1 : Workload = record w { srd = srd } in
      let (w2, file_status) = restore_file steps.told d.files w1 in
      if not (is_success srd_status)
      then (w1, upgrade_restore_srd_failed)
      else if not (is_success file_status)
      then (w2, upgrade_restore_file_failed)
      else (w2, check_workload steps d pub_key w2)

  -- `id_restore_from_upgrade` for data that are a JSON object.
  unfoldable pub id_restore_from_upgrade :
      ImportSteps → UpgradeData → Workload → Workload × SpacexStatus
  unfolding import_workload
  id_restore_from_upgrade steps d w = elim (hex_string_to_bytes d.public_key) [
    | none ↦ (w, unexpected_error)
    | some key ↦
        let pub_key = take pub_key_size key in
        let (w1, status) = import_workload steps d pub_key w in
        if not (is_success status)
        then (w1, status)
        else (let w2 = set_upgrade pub_key w1 in
            if not (is_success steps.network)
            then (w2, steps.network)
            else gen_and_upload_work_report lib steps.report d.block_hash
                (steps.to_number d.block_height) true
                (report_add_validated_file_proof (report_add_validated_srd_proof w2)))
  ]
