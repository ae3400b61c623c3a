-- ===== src/Status.antt =====
-- The codes that the enclave exchanges: the result codes of enclave/include/CrustStatus.h, the
-- upgrade states and the file status characters of enclave/include/Parameter.h.
use spacex_storage.Prelude.{ℕ, Bool, true, false}

-- `spacex_status_t`, the codes that the modelled functions return; each keeps its source's words.
pub data SpacexStatus : Type 0 where
  success : SpacexStatus
  block_height_expired first_work_report_after_report work_report_not_validated : SpacexStatus
  service_unavailable : SpacexStatus
  malloc_failed seal_data_failed unseal_data_failed bad_seal_data sgx_failed not_equal :
      SpacexStatus
  sgx_sign_failed sgx_verify_sig_failed unexpected_error invalid_merkletree : SpacexStatus
  malware_data_block open_file_failed write_file_failed delete_file_failed : SpacexStatus
  rename_file_failed mkdir_failed access_file_failed invalid_meta_data : SpacexStatus
  init_quote_failed srd_number_exceed file_number_exceed device_error : SpacexStatus
  ocall_no_enough_buffer : SpacexStatus
  storage_new_file_notfound storage_file_dup storage_file_sealing : SpacexStatus
  storage_file_deleting storage_incomplete_block : SpacexStatus
  validate_high_priority : SpacexStatus
  upgrade_restore_srd_failed upgrade_restore_file_failed upgrade_get_block_hash_failed :
      SpacexStatus
  upgrade_gen_workreport_failed upgrade_wait_for_next_era upgrade_bad_srd : SpacexStatus
  upgrade_bad_file upgrade_no_file upgrade_send_workreport_failed : SpacexStatus
  persist_get_failed storage_no_enough_space : SpacexStatus
  upgrade_is_upgrading upgrade_block_expire upgrade_no_validate upgrade_restart : SpacexStatus

abbrev pub is_success : SpacexStatus → Bool
is_success success = true
is_success _ = false

abbrev pub is_srd_number_exceed : SpacexStatus → Bool
is_srd_number_exceed srd_number_exceed = true
is_srd_number_exceed _ = false

-- `enc_upgrade_status_t`
pub data UpgradeStatus : Type 0 where
  none_yet process done : UpgradeStatus

abbrev pub is_upgrade_none : UpgradeStatus → Bool
is_upgrade_none none_yet = true
is_upgrade_none _ = false

abbrev pub is_upgrade_success : UpgradeStatus → Bool
is_upgrade_success done = true
is_upgrade_success _ = false

-- The characters `FILE_STATUS_…` of a status string.
abbrev pub unverified : ℕ
unverified = b'0'

abbrev pub valid : ℕ
valid = b'1'

abbrev pub lost : ℕ
lost = b'2'

abbrev pub deleted : ℕ
deleted = b'3'

abbrev pub pending : ℕ
pending = b'4'

-- The status string of a file, read at `CURRENT_STATUS`, `WAITING_STATUS` and `ORIGIN_STATUS`.
pub record FileStatus : Type 0 where
  pub current : ℕ
  pub waiting : ℕ
  pub origin : ℕ
