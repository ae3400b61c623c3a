-- ===== src/Server/Exporter.antt =====
-- `id_gen_upgrade_data` is a generation of upgrade data as the application's loop expects it.
use mathlib.Core.Option
use spacex_storage.Prelude.{
  ℕ, suc, ◌≡◌, refl, Bool, false, Option, List, Text, if◌then◌else◌, inl, inr, Option-cases, arith,
}
use spacex_storage.Status.{SpacexStatus, is_success, done}
use spacex_storage.Workload.Defs.{
  Workload, call, report_reset_validated_proof, reduce_restart_flag, set_report_file_flag,
  set_report_height, set_upgrade_status,
}
use spacex_storage.Files.Defs.{SealedFile}
use spacex_storage.Workload.Info.{get_upgrade_srd_info, get_upgrade_file_info}
use spacex_storage.Report.Defs.{handle_report_result}
use spacex_storage.Report.Generate.{
  Library, Outside, closing, make_report, gen_work_report, gen_and_upload_work_report,
}
use spacex_storage.Identity.Upgrade.{
  UpgradeData, ExportSteps, export_signed, export_workload, id_gen_upgrade_data, slot_height,
}
use spacex_storage.Server.Agree.{IsExporter}

closing-status : (h : ℕ) (w : Workload) → (closing h w).upgrade_status ≡ w.upgrade_status
unfolding closing report_reset_validated_proof reduce_restart_flag set_report_file_flag
    set_report_height
closing-status h w = refl

handle_report_result-status :
    (w : Workload) → (handle_report_result w).upgrade_status ≡ w.upgrade_status
unfolding handle_report_result call
handle_report_result-status w = ground arith

module _ (lib : Library) where
  make_report-status :
      (out : Outside) (hash : Text) (h : ℕ) (upgrading : Bool) (w : Workload)
      → (make_report lib out hash h upgrading w).0.upgrade_status ≡ w.upgrade_status
  unfolding make_report
  make_report-status out hash h upgrading w = ground arith

  gen_work_report-status :
      (out : Outside) (hash : Text) (h : ℕ) (upgrading : Bool) (w : Workload)
      → (gen_work_report lib out hash h upgrading w).0.upgrade_status ≡ w.upgrade_status
  unfolding gen_work_report
  gen_work_report-status out hash h upgrading w = ground (
    arith,
    closing-status h w,
    closing-status h (make_report lib out hash h upgrading w).0,
    make_report-status out hash h upgrading w,
  )

  gen_and_upload_work_report-status :
      (out : Outside) (hash : Text) (h : ℕ) (upgrading : Bool) (w : Workload)
      → (gen_and_upload_work_report lib out hash h upgrading w).0.upgrade_status ≡ w.upgrade_status
  unfolding gen_and_upload_work_report
  gen_and_upload_work_report-status out hash h upgrading w =
      let w' = (gen_work_report lib out hash h upgrading w).0 in
      ground (arith, gen_work_report-status out hash h upgrading w, handle_report_result-status w')

  -- What a function that may finish the upgrade does to the enclave's status.
  abbrev Finishes : Workload → Workload × SpacexStatus × Option UpgradeData → Type 0
  Finishes w r = r.0.upgrade_status ≡ (if is_success r.1 then done else w.upgrade_status)

  export_signed-Finishes :
      (steps : ExportSteps) (h : ℕ) (w : Workload) (srd : List ℕ × List Text)
      (files : List ℕ × List SealedFile)
      → Finishes w (export_signed lib steps h w srd files)
  unfolding export_signed set_upgrade_status
  export_signed-Finishes steps h w srd files = ground arith

  export_workload-Finishes :
      (steps : ExportSteps) (h : ℕ) (w : Workload) → Finishes w (export_workload lib steps h w)
  unfolding export_workload
  export_workload-Finishes steps h w =
      let srd = get_upgrade_srd_info lib.sha256 steps.memory w in
      let files = get_upgrade_file_info lib.sha256 steps.memory w in
      ground (arith, export_signed-Finishes steps h w (srd.1, srd.2) (files.1, files.2))

  id_gen_upgrade_data-Finishes :
      (steps : ExportSteps) (h : ℕ) (w : Workload) → Finishes w (id_gen_upgrade_data lib steps h w)
  unfolding id_gen_upgrade_data
  id_gen_upgrade_data-Finishes steps h w =
      elim (Option-cases (slot_height (suc h) h w.report_height)) [
        | inl far ↦ ground (arith, far)
        | inr (height, near) ↦
            let r = gen_and_upload_work_report lib steps.report steps.block_hash height false w in
            let told =
              gen_and_upload_work_report-status steps.report steps.block_hash height false w in
            ground (arith, near, told, export_workload-Finishes steps height r.0)
      ]

  -- `ecall_gen_upgrade_data`, with the text of the data that it stores outside; `print` prints an object.
  unfoldable pub ecall_gen_upgrade_data :
      (UpgradeData → Text) → ExportSteps → ℕ → Workload → Workload × SpacexStatus × Option Text
  ecall_gen_upgrade_data print steps block_height w =
      let (w', status, made) = id_gen_upgrade_data lib steps block_height w in
      (w', status, Option.map print made)

  -- The generation of upgrade data that succeeds gives the enclave the status of a finished upgrade; one
  -- that fails leaves the status as it was.
  pub ecall_gen_upgrade_data-IsExporter :
      (print : UpgradeData → Text) (steps : ExportSteps)
      → IsExporter (ecall_gen_upgrade_data print steps)
  unfolding ecall_gen_upgrade_data
  ecall_gen_upgrade_data-IsExporter print steps h w = id_gen_upgrade_data-Finishes steps h w
