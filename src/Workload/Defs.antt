-- ===== src/Workload/Defs.antt =====
-- The members of class `Workload` that the modelled functions use, and the small functions on them.
use spacex_storage.Prelude.{
  ℕ, ◌+◌, ◌%◌, ◌^◌, Bool, true, false, not, ◌&&◌, ◌||◌, List, [], ◌∷◌, ◌++◌, ℤ, pos, negsuc, ◌+ℤ◌,
  ◌-ℤ◌, ltb_ℤ, leb_ℤ, Text, ltb, ◌==◌, if◌then◌else◌,
}
use spacex_storage.Status.{
  SpacexStatus, success, upgrade_block_expire, upgrade_no_validate, upgrade_restart, UpgradeStatus,
  pending, valid, lost,
}
use spacex_storage.Files.Defs.{SealedFile}
use spacex_storage.SrdMeta.Defs.{Srd}
use spacex_storage.Workload.Cids.{insert_cid}

-- `wl_file_spec[name]`
pub record Spec : Type 0 where
  pub num : ℤ
  pub total : ℤ

-- An entry of `pending_files_um`: the number of times that each block is still awaited
-- (`FILE_BLOCKS`), and what is known of the sealed blocks (`FILE_META`).
pub record PendingFile : Type 0 where
  pub blocks : List (Text × ℤ)
  pub hash : List ℕ
  pub size : ℤ
  pub sealed_size : ℤ
  pub block_num : ℤ

-- What the app is told of a file; the status stands for the name of the type.
pub record FileInfo : Type 0 where
  pub file_type : ℕ
  pub cid : Text
  pub size : ℤ
  pub sealed_size : ℤ
  pub chain_block_num : ℤ

-- What the enclave asks of the app and of the store about a file.
pub data Ocall : Type 0 where
  store_file_info delete_file_info : Text → ℕ → Ocall
  change_file_type : Text → ℕ → ℕ → Ocall
  delete_ipfs_file ipfs_del_all persist_del : Text → Ocall
  persist_set : Text → List ℕ → Ocall
  store_metadata : Ocall
  file_info_all : List FileInfo → Ocall

-- `srd` has the members about the sealed space. `calls` has the calls out of the enclave, the last
-- one at the end; the statuses in `store_file_info` and its kin stand for the names of the types.
pub record Workload : Type 0 where
  pub srd : Srd
  pub sealed_files : List SealedFile
  pub reported_files_idx : List Text
  pub pending_files : List (Text × PendingFile)
  pub deleted_cids : List Text
  pub pending_spec : Spec
  pub valid_spec : Spec
  pub lost_spec : Spec
  pub report_height : ℕ
  pub restart_flag : ℤ
  pub validated_srd_proof : ℤ
  pub validated_file_proof : ℤ
  pub report_files : Bool
  pub upgrade : Bool
  pub upgrade_status : UpgradeStatus
  pub key_pair : List ℕ
  pub is_set_key_pair : Bool
  pub pre_pub_key : List ℕ
  pub account_id : Text
  pub calls : List Ocall

unfoldable pub call : Ocall → Workload → Workload
call c w = record w { calls = w.calls ++ c ∷ [] }

-- `VALIDATE_PROOF_MAX_NUM`
abbrev pub max_proofs : ℤ
max_proofs = pos 2

-- `REPORT_SLOT` and `REPORT_INTERVAL_BLCOK_NUMBER_LOWER_LIMIT`
abbrev pub report_slot : ℕ
report_slot = 1200

abbrev pub interval_lower_limit : ℕ
interval_lower_limit = 10

-- `size_t` has 64 bits.
abbrev pub size_mod : ℕ
size_mod = 2 ^ 64

add_proof : ℤ → ℤ
add_proof n = if leb_ℤ max_proofs n then max_proofs else n +ℤ pos 1

unfoldable pub report_add_validated_srd_proof : Workload → Workload
unfolding add_proof
report_add_validated_srd_proof w = record w {
  validated_srd_proof = add_proof w.validated_srd_proof;
}

unfoldable pub report_add_validated_file_proof : Workload → Workload
unfolding add_proof
report_add_validated_file_proof w = record w {
  validated_file_proof = add_proof w.validated_file_proof;
}

unfoldable pub report_reset_validated_proof : Workload → Workload
report_reset_validated_proof w = record w {
  validated_srd_proof = pos 0;
  validated_file_proof = pos 0;
}

unfoldable pub report_has_validated_proof : Workload → Bool
report_has_validated_proof w =
    ltb_ℤ (pos 0) w.validated_srd_proof && ltb_ℤ (pos 0) w.validated_file_proof

unfoldable pub set_restart_flag : Workload → Workload
set_restart_flag w = record w { restart_flag = pos 1 }

unfoldable pub reduce_restart_flag : Workload → Workload
reduce_restart_flag w =
    let flag = w.restart_flag -ℤ pos 1 in
    record w { restart_flag = if ltb_ℤ flag (pos 0) then pos 0 else flag }

unfoldable pub get_restart_flag : Workload → Bool
get_restart_flag w = ltb_ℤ (pos 0) w.restart_flag

unfoldable pub set_report_file_flag : Bool → Workload → Workload
set_report_file_flag flag w = record w { report_files = flag }

unfoldable pub set_report_height : ℕ → Workload → Workload
set_report_height height w = record w { report_height = height }

unfoldable pub set_upgrade : List ℕ → Workload → Workload
set_upgrade pub_key w = record w { upgrade = true; pre_pub_key = pub_key }

unfoldable pub unset_upgrade : Workload → Workload
unset_upgrade w = record w { upgrade = false }

unfoldable pub set_upgrade_status : UpgradeStatus → Workload → Workload
set_upgrade_status status w = record w { upgrade_status = status }

unfoldable pub set_key_pair : List ℕ → Workload → Workload
set_key_pair key_pair w = record w { key_pair = key_pair; is_set_key_pair = true }

unfoldable pub unset_key_pair : Workload → Workload
unset_key_pair w = record w { is_set_key_pair = false }

unfoldable pub set_account_id : Text → Workload → Workload
set_account_id account_id w = record w { account_id = account_id }

-- `can_report_work`; the sum wraps as `size_t` does.
unfoldable pub can_report_work : ℕ → Workload → SpacexStatus
can_report_work block_height w =
    if block_height == 0
      || ltb block_height ((report_slot + w.report_height + interval_lower_limit) % size_mod)
    then upgrade_block_expire
    else if not (report_has_validated_proof w)
    then upgrade_no_validate
    else if get_restart_flag w
    then upgrade_restart
    else success

add_spec : ℤ → Spec → Spec
add_spec change spec = record {
  num = spec.num +ℤ (if ltb_ℤ (pos 0) change then pos 1 else negsuc 0);
  total = spec.total +ℤ change;
}

-- `set_file_spec`: a status that `g_file_spec_status` lacks changes nothing.
unfoldable pub set_file_spec : ℕ → ℤ → Workload → Workload
unfolding add_spec
set_file_spec status change w =
    if status == pending
    then record w { pending_spec = add_spec change w.pending_spec }
    else if status == valid
    then record w { valid_spec = add_spec change w.valid_spec }
    else if status == lost
    then record w { lost_spec = add_spec change w.lost_spec }
    else w

-- `add_to_deleted_file_buffer`, without the answer whether it is new, which no caller reads.
unfoldable pub add_to_deleted_file_buffer : Text → Workload → Workload
add_to_deleted_file_buffer cid w = record w { deleted_cids = insert_cid cid w.deleted_cids }
