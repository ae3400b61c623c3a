-- ===== src/Identity/Refuse.antt =====
-- The new enclave refuses the data of an old one all of whose files are pending, and the last report
-- of the old one fails at the very end of its slot.
use spacex_storage.Prelude.{
  ℕ, ◌+◌, ◌*◌, ◌%◌, ◌^◌, ◌<◌, ltb, ◌≡◌, ◌≢◌, sym, ap, ap₂, ◌∙◌, true, false, none, some, List, [],
  text_eq, take, All, arith,
}
use spacex_storage.Status.{success, upgrade_gen_workreport_failed, block_height_expired}
use spacex_storage.Hex.{hexstring}
use spacex_storage.SrdMeta.Defs.{restore_srd}
use spacex_storage.SrdMeta.Restore.{IsItem}
use spacex_storage.Workload.Defs.{Workload, report_slot, size_mod}
use spacex_storage.Workload.Restore.{settled, restore_file}
use spacex_storage.Workload.Info.{WorkloadInfo, file_root_hash, gen_workload_info}
use spacex_storage.Report.Generate.{Library, zero_hash, gen_and_upload_work_report, gen_work_report}
use spacex_storage.Identity.Metadata.{pub_key_size}
use spacex_storage.Identity.MetadataRoundTrip.{IsFresh, restored_hashs}
use spacex_storage.Identity.Upgrade.{
  UpgradeData, ExportSteps, ImportSteps, slot_height, export_workload, check_info, check_workload,
  import_workload, id_gen_upgrade_data,
}
use spacex_storage.Identity.HandOver.{file_root_pending, handed_over, export_workload_success}
use spacex_storage.Identity.Accept.{import_workload_end, restored_files}

module _ (lib : Library) where
  check_info_files :
      (steps : ImportSteps) (d : UpgradeData) (pub_key : List ℕ) (info : WorkloadInfo)
      → check_info lib steps d pub_key info ≡ success
      → text_eq (hexstring info.file_root) d.file_root ≡ true
  unfolding check_info
  check_info_files steps d pub_key info e = ground (arith, e)

  check_workload_files :
      (steps : ImportSteps) (d : UpgradeData) (pub_key : List ℕ) (t : Workload)
      → check_workload lib steps d pub_key t ≡ success
      → ((gen_workload_info lib.sha256 steps.memory t).0 ≡ success)
        × (text_eq (hexstring (gen_workload_info lib.sha256 steps.memory t).1.file_root) d.file_root
            ≡ true)
  unfolding check_workload
  check_workload_files steps d pub_key t e =
      let r = gen_workload_info lib.sha256 steps.memory t in
      (ground (arith, e), check_info_files steps d pub_key r.1 (ground (arith, e)))

  file_root_none :
      (steps : ImportSteps) (t : Workload)
      → t.sealed_files ≡ []
      → (gen_workload_info lib.sha256 steps.memory t).0 ≡ success
      → (gen_workload_info lib.sha256 steps.memory t).1.file_root ≡ zero_hash
  unfolding gen_workload_info file_root_hash
  file_root_none steps t e ok =
      let files : file_root_hash lib.sha256 steps.memory t.sealed_files ≡ (success, zero_hash) =
        ap (file_root_hash lib.sha256 steps.memory) e in
      ground (arith, ok, files)

  -- When all files of the old enclave are pending and there are some, the new one that has just started refuses what the old one has exported with success, whatever the signature: the root that the old one gives for the files is what its variable holds before a root is put there, the new one takes the root for no files, all zeros. This is for entries of their right size and a variable that holds something else than zeros.
  pub import_workload_only_pending :
      (steps : ExportSteps) (taken : ImportSteps) (height : ℕ) (w w' t : Workload) (d : UpgradeData)
      → export_workload lib steps height w ≡ (w', success, some d)
      → All IsItem w.srd.hashs
      → IsFresh t
      → w.sealed_files ≢ []
      → settled w.sealed_files ≡ []
      → text_eq (hexstring zero_hash) (hexstring steps.memory.unset) ≡ false
      → (import_workload lib taken d (take pub_key_size w.key_pair) t).1 ≢ success
  import_workload_only_pending steps taken height w w' t d e items fresh some_file all other ok =
      let (srd_ok, file_ok, sig, signed, made) =
        export_workload_success lib steps height w w' d e in
      let h = handed_over lib steps height w sig in
      let pub_key = take pub_key_size w.key_pair in
      let w1 : Workload = record t { srd = (restore_srd h.srd t.srd).0 } in
      let w2 = (restore_file taken.told h.files w1).0 in
      let srd = restored_hashs w.srd t.srd items fresh.no_srd in
      let files = restored_files lib taken.told w w1 fresh.no_files in
      let end = import_workload_end lib taken h pub_key t srd.0 files.0 in
      let ok' : check_workload lib taken h pub_key w2 ≡ success =
        sym (ap (λ r. r.1) end)
        ∙ (ap (λ x. (import_workload lib taken x pub_key t).1) (sym made) ∙ ok) in
      let (told, same) = check_workload_files taken h pub_key w2 ok' in
      let zero = file_root_none taken w2 (files.1 ∙ all) told in
      let root = file_root_pending lib.sha256 steps.memory w.sealed_files some_file all in
      let equal : text_eq (hexstring zero_hash) (hexstring steps.memory.unset) ≡ true =
        ap₂ (λ a b. text_eq (hexstring a) (hexstring b)) (sym zero) (sym root) ∙ same in
      ground (arith, equal, other)

  report_refused :
      (steps : ExportSteps) (w : Workload)
      → w.report_height + report_slot < 2 ^ 64
      → gen_and_upload_work_report lib steps.report steps.block_hash w.report_height false w
        ≡ (w, block_height_expired)
  unfolding gen_and_upload_work_report gen_work_report
  report_refused steps w fits =
      let sum : (w.report_height + report_slot) % size_mod ≡ w.report_height + report_slot =
        omega (arith, fits) in
      let early : ltb w.report_height ((w.report_height + report_slot) % size_mod) ≡ true =
        rw sum (ground arith) in
      ground (arith, early)

  -- Exactly one slot after the last report, which the check of the height lets pass, no upgrade data are made and the workload stays as it is: the loop gives the height of the last report, for which no report is made again. This is for heights far from the end of 64 bits and when the block's hash can be got.
  pub id_gen_upgrade_data_at_slot :
      (steps : ExportSteps) (w : Workload)
      → w.report_height + 2 * report_slot < 2 ^ 64
      → steps.hash_status ≡ success
      → id_gen_upgrade_data lib steps (w.report_height + report_slot) w
        ≡ (w, upgrade_gen_workreport_failed, none)
  unfolding id_gen_upgrade_data slot_height
  id_gen_upgrade_data_at_slot steps w fits got =
      let refused = report_refused steps w (omega (arith, fits)) in
      let sum : (report_slot + w.report_height) % size_mod ≡ w.report_height + report_slot =
        omega (arith, fits) in
      ground (arith, refused, sum, got)
