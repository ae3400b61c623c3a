-- ===== src/Report/Once.antt =====
-- How an attempt at a work report leaves the workload, and when the next attempt can be made.
use spacex_storage.Prelude.{
  ℕ, ◌+◌, ◌%◌, ◌<◌, ◌≤◌, ◌≡◌, ◌≢◌, refl, Bool, true, pos, ◌≤ℤ◌, Text, arith,
}
use spacex_storage.Status.{success, block_height_expired}
use spacex_storage.Workload.Defs.{
  Workload, call, report_slot, size_mod, report_has_validated_proof, report_reset_validated_proof,
  reduce_restart_flag, get_restart_flag, set_report_file_flag, set_report_height,
}
use spacex_storage.Report.Defs.{handle_report_result}
use spacex_storage.Report.Generate.{
  Library, Outside, make_report, gen_work_report, gen_and_upload_work_report, closing,
}

-- The height that an attempt must reach.
abbrev pub next_height : Workload → ℕ
next_height w = (w.report_height + report_slot) % size_mod

-- What an attempt at a height leaves behind, whatever its outcome.
pub record IsClosed (height : ℕ) (w : Workload) : Type 0 where
  pub reported_at : w.report_height ≡ height
  pub srd_proof : w.validated_srd_proof ≡ pos 0
  pub file_proof : w.validated_file_proof ≡ pos 0
  pub report_files : w.report_files ≡ true

closing-IsClosed : (height : ℕ) (w : Workload) → IsClosed height (closing height w)
unfolding closing report_reset_validated_proof reduce_restart_flag set_report_file_flag
    set_report_height
closing-IsClosed height w = record {
  reported_at = refl;
  srd_proof = refl;
  file_proof = refl;
  report_files = refl;
}

handle_report_result-IsClosed :
    (height : ℕ) (w : Workload) → IsClosed height w → IsClosed height (handle_report_result w)
unfolding handle_report_result call
handle_report_result-IsClosed height w closed = ground arith

too_low :
    (height height' : ℕ) (w : Workload)
    → w.report_height ≡ height
    → height + report_slot < size_mod
    → height' < height + report_slot
    → height' < next_height w
too_low height height' w eq fits lt = ground arith

module _ (lib : Library) where
  gen_work_report-IsClosed :
      (out : Outside) (hash : Text) (height : ℕ) (upgrading : Bool) (w : Workload)
      → height ≢ 0
      → next_height w ≤ height
      → IsClosed height ((gen_work_report lib out hash height upgrading w).0)
  unfolding gen_work_report
  gen_work_report-IsClosed out hash height upgrading w h le = ground (
    arith,
    closing-IsClosed height w,
    closing-IsClosed height (make_report lib out hash height upgrading w).0,
  )

  -- An attempt at a work report at a height that is not 0 and a slot behind the last one leaves that height as the last one, no proofs, and the file flag up, whether it fails, is not uploaded, or succeeds.
  pub gen_and_upload-IsClosed :
      (out : Outside) (hash : Text) (height : ℕ) (upgrading : Bool) (w : Workload)
      → height ≢ 0
      → next_height w ≤ height
      → IsClosed height ((gen_and_upload_work_report lib out hash height upgrading w).0)
  unfolding gen_and_upload_work_report
  gen_and_upload-IsClosed out hash height upgrading w h le =
      let closed = gen_work_report-IsClosed out hash height upgrading w h le in
      ground (
        arith,
        closed,
        handle_report_result-IsClosed height (gen_work_report lib out hash height upgrading w).0
            closed,
      )

  gen_expired :
      (out : Outside) (hash : Text) (height : ℕ) (upgrading : Bool) (w : Workload)
      → height < next_height w
      → gen_and_upload_work_report lib out hash height upgrading w ≡ (w, block_height_expired)
  unfolding gen_and_upload_work_report gen_work_report
  gen_expired out hash height upgrading w lt = ground arith

  -- After an attempt at a height that is not 0, passes the check and is less than 2^64 with a slot added, the next attempt at any height less than a slot later is refused and changes nothing, whatever block, upload or upgrade it comes with.
  pub one_report_per_slot :
      (out out' : Outside) (hash hash' : Text) (height height' : ℕ) (up up' : Bool) (w : Workload)
      → height ≢ 0
      → next_height w ≤ height
      → height + report_slot < size_mod
      → height' < height + report_slot
      → gen_and_upload_work_report lib out' hash' height' up'
          ((gen_and_upload_work_report lib out hash height up w).0)
        ≡ ((gen_and_upload_work_report lib out hash height up w).0, block_height_expired)
  one_report_per_slot out out' hash hash' height height' up up' w h le fits lt =
      let closed = gen_and_upload-IsClosed out hash height up w h le in
      let after : Workload = (gen_and_upload_work_report lib out hash height up w).0 in
      gen_expired out' hash' height' up' after
        (too_low height height' after closed.reported_at fits lt)

  -- A work report that is generated has a restart flag that was down, a proof of both kinds of storage and the file flag up, and its height is not 0 and at least a slot behind the last one.
  pub gen_work_report_success :
      (out : Outside) (hash : Text) (height : ℕ) (upgrading : Bool) (w : Workload)
      → (gen_work_report lib out hash height upgrading w).1 ≡ success
      → (height ≢ 0)
        × (next_height w ≤ height)
        × (w.restart_flag ≤ℤ pos 0)
        × (w.report_files ≡ true)
        × (pos 1 ≤ℤ w.validated_srd_proof)
        × (pos 1 ≤ℤ w.validated_file_proof)
  unfolding gen_work_report get_restart_flag report_has_validated_proof
  gen_work_report_success out hash height upgrading w eq = ground arith
