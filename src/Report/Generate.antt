-- ===== src/Report/Generate.antt =====
-- `gen_work_report` and `gen_and_upload_work_report` (enclave/report/Report.cpp).
use spacex_storage.Prelude.{
  ℕ, ◌+◌, ◌*◌, ◌%◌, Bool, true, not, ◌&&◌, ◌||◌, Option, none, some, List, [], ◌∷◌, ◌++◌, ℤ, pos,
  Text, length, is_empty, get_elem?, ltb, ◌==◌, take, if◌then◌else◌,
}
use spacex_storage.Status.{
  SpacexStatus, block_height_expired, first_work_report_after_report, service_unavailable,
  work_report_not_validated, malloc_failed, unexpected_error, sgx_sign_failed, is_success,
}
use spacex_storage.Hex.{hex_string_to_bytes}
use spacex_storage.Files.Defs.{SealedFile}
use spacex_storage.Workload.Defs.{
  Workload, report_slot, size_mod, report_has_validated_proof, report_reset_validated_proof,
  reduce_restart_flag, get_restart_flag, set_report_file_flag, set_report_height,
}
use spacex_storage.Report.Defs.{Entry, collect, nothing_collected, handle_report_result}

-- What the source takes from libraries: `sgx_sha256_msg`, `sgx_ecdsa_sign` with the enclave's key (no
-- result for a failure), `std::to_string` and the text of a JSON array.
pub record Library : Type 0 where
  pub sha256 : List ℕ → List ℕ
  pub sign : List ℕ → Option (List ℕ)
  pub to_text : ℤ → Text
  pub dump : List Entry → List ℕ

-- How the steps outside the enclave's logic go: the two allocations, the text of the
-- report, its storing, and the upload.
pub record Outside : Type 0 where
  pub srd_buffer : Bool
  pub files_buffer : Bool
  pub dumped : SpacexStatus
  pub stored : SpacexStatus
  pub uploaded : SpacexStatus

-- The fields of the JSON report `wr_json`, without the two keys.
pub record WorkReport : Type 0 where
  pub block_height : ℕ
  pub block_hash : Text
  pub reserved : ℕ
  pub files_size : ℤ
  pub reserved_root : List ℕ
  pub files_root : List ℕ
  pub added_files : List Entry
  pub deleted_files : List Entry
  pub sig : List ℕ

-- A hash of zeros.
abbrev pub zero_hash : List ℕ
zero_hash =
    0 ∷ 0 ∷ 0 ∷ 0 ∷ 0 ∷ 0 ∷ 0 ∷ 0 ∷ 0 ∷ 0 ∷ 0 ∷ 0 ∷ 0 ∷ 0 ∷ 0 ∷ 0 ∷ 0 ∷ 0 ∷ 0 ∷ 0 ∷ 0 ∷ 0 ∷ 0 ∷ 0
    ∷ 0 ∷ 0 ∷ 0 ∷ 0 ∷ 0 ∷ 0 ∷ 0 ∷ 0 ∷ []

-- `SRD_LENGTH` bytes of each entry, one after the other.
unfoldable pub srd_bytes : List (List ℕ) → List ℕ
srd_bytes [] = []
srd_bytes (item ∷ items) = take 42 item ++ srd_bytes items

-- The deferred block, which runs however the function is left after the check of the height.
unfoldable pub closing : ℕ → Workload → Workload
closing block_height w =
    report_reset_validated_proof
      (reduce_restart_flag (set_report_file_flag true (set_report_height block_height w)))

module _ (lib : Library) where
  -- The hashes of the files at the indexes, one after the other.
  unfoldable pub file_hashes : List ℕ → List SealedFile → List ℕ
  file_hashes [] files = []
  file_hashes (i ∷ is) files = elim (get_elem? files i) [
    | none ↦ file_hashes is files
    | some file ↦ lib.sha256 (file.cid ++ lib.to_text file.size) ++ file_hashes is files
  ]

  -- The bytes that are signed, the public key of the pair first.
  unfoldable pub sig_buffer : Workload → List ℕ → WorkReport → List ℕ
  sig_buffer w hash r =
      take 64 w.key_pair
      ++ ((if w.upgrade then w.pre_pub_key else [])
          ++ (lib.to_text (pos r.block_height)
              ++ (hash
                  ++ (lib.to_text (pos r.reserved)
                      ++ (lib.to_text r.files_size
                          ++ (r.reserved_root
                              ++ (r.files_root
                                  ++ (lib.dump r.added_files ++ lib.dump r.deleted_files))))))))

  -- From the signature on, over the unsigned report.
  unfoldable pub sign_and_store : Outside → Workload → WorkReport → SpacexStatus × Option WorkReport
  unfolding sig_buffer
  sign_and_store out w r = elim (hex_string_to_bytes (take 64 r.block_hash)) [
    | none ↦ (unexpected_error, none)
    | some hash ↦ elim (lib.sign (sig_buffer w hash r)) [
      | none ↦ (sgx_sign_failed, none)
      | some sig ↦
          if is_success out.dumped
          then (out.stored, if is_success out.stored then some (record r { sig = sig }) else none)
          else (out.dumped, none)
    ]
  ]

  -- After the checks: the sealed space, the files, and the report of both.
  unfoldable pub make_report :
      Outside → Text → ℕ → Bool → Workload → Workload × SpacexStatus × Option WorkReport
  unfolding srd_bytes file_hashes sign_and_store
  make_report out block_hash block_height upgrading w =
      let hashs = w.srd.hashs in
      if not (is_empty hashs) && not out.srd_buffer
      then (w, malloc_failed, none)
      else (let (files, got) = collect upgrading 0 w.sealed_files nothing_collected in
          let w' : Workload = record w {
            sealed_files = files;
            reported_files_idx = got.reported;
          } in
          if not (is_empty got.valid_idx) && not out.files_buffer
          then (w', malloc_failed, none)
          else (let r : WorkReport = record {
            block_height = block_height;
            block_hash = take 64 block_hash;
            reserved = length hashs * 1024 * 1024 * 1024 % size_mod;
            files_size = got.files_size;
            reserved_root = if is_empty hashs then zero_hash else lib.sha256 (srd_bytes hashs);
            files_root =
                if is_empty got.valid_idx
                then zero_hash
                else lib.sha256 (file_hashes got.valid_idx files);
            added_files = got.added;
            deleted_files = got.removed;
            sig = [];
          } in
              let (status, report) = sign_and_store out w' r in (w', status, report)))

  -- `gen_work_report`: the workload, the status, and the report that was stored.
  unfoldable pub gen_work_report :
      Outside → Text → ℕ → Bool → Workload → Workload × SpacexStatus × Option WorkReport
  unfolding make_report closing
  gen_work_report out block_hash block_height upgrading w =
      if block_height == 0 || ltb block_height ((w.report_height + report_slot) % size_mod)
      then (w, block_height_expired, none)
      else if get_restart_flag w
      then (closing block_height w, first_work_report_after_report, none)
      else if not w.report_files
      then (closing block_height w, service_unavailable, none)
      else if not (report_has_validated_proof w)
      then (closing block_height w, work_report_not_validated, none)
      else (let (w', status, report) = make_report out block_hash block_height upgrading w in
          (closing block_height w', status, report))

  -- `gen_and_upload_work_report`, after its wait.
  unfoldable pub gen_and_upload_work_report :
      Outside → Text → ℕ → Bool → Workload → Workload × SpacexStatus
  gen_and_upload_work_report out block_hash block_height upgrading w =
      let (w', status, report) = gen_work_report out block_hash block_height upgrading w in
      if not (is_success status)
      then (w', status)
      else if is_success out.uploaded
      then (handle_report_result w', out.uploaded)
      else (w', out.uploaded)
