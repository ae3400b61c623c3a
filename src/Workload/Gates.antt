-- ===== src/Workload/Gates.antt =====
-- The counters that decide whether a work report may be made.
use spacex_storage.Prelude.{ℕ, ◌+◌, ◌≤◌, ◌<◌, ◌≡◌, ◌↔◌, List, [], ◌∷◌, pos, ◌+ℤ◌, ◌-ℤ◌, ◌≤ℤ◌, arith}
use spacex_storage.Status.{success}
use spacex_storage.Workload.Defs.{
  Workload, max_proofs, report_slot, interval_lower_limit, size_mod, report_add_validated_srd_proof,
  report_add_validated_file_proof, report_reset_validated_proof, report_has_validated_proof,
  set_restart_flag, reduce_restart_flag, get_restart_flag, can_report_work,
}

-- The proof counters stay between 0 and `VALIDATE_PROOF_MAX_NUM`, the restart flag between 0 and 1.
pub record AreGatesValid (w : Workload) : Type 0 where
  pub srd_low : pos 0 ≤ℤ w.validated_srd_proof
  pub srd_high : w.validated_srd_proof ≤ℤ max_proofs
  pub file_low : pos 0 ≤ℤ w.validated_file_proof
  pub file_high : w.validated_file_proof ≤ℤ max_proofs
  pub flag_low : pos 0 ≤ℤ w.restart_flag
  pub flag_high : w.restart_flag ≤ℤ pos 1

-- `can_report_work` allows a report exactly at a block that lies a whole slot and ten blocks behind the last one, when both kinds of storage have a proof and the restart flag is down.
pub can_report_work_iff :
    (height : ℕ) (w : Workload)
    → report_slot + w.report_height + interval_lower_limit < size_mod
    → (can_report_work height w ≡ success) ↔ (
        (report_slot + w.report_height + interval_lower_limit ≤ height)
        × (pos 1 ≤ℤ w.validated_srd_proof)
        × (pos 1 ≤ℤ w.validated_file_proof)
        × (w.restart_flag ≤ℤ pos 0))
unfolding can_report_work report_has_validated_proof get_restart_flag
can_report_work_iff height w h = ground arith

-- The functions that move the counters.
pub data GateOp : Type 0 where
  add_srd_proof add_file_proof reset_proof raise_flag lower_flag : GateOp

unfoldable pub gate_step : GateOp → Workload → Workload
gate_step add_srd_proof w = report_add_validated_srd_proof w
gate_step add_file_proof w = report_add_validated_file_proof w
gate_step reset_proof w = report_reset_validated_proof w
gate_step raise_flag w = set_restart_flag w
gate_step lower_flag w = reduce_restart_flag w

unfoldable pub gate_run : List GateOp → Workload → Workload
gate_run [] w = w
gate_run (op ∷ ops) w = gate_run ops (gate_step op w)

gate_step-AreGatesValid :
    (op : GateOp) (w : Workload) → AreGatesValid w → AreGatesValid (gate_step op w)
unfolding gate_step report_add_validated_srd_proof report_add_validated_file_proof
    report_reset_validated_proof set_restart_flag reduce_restart_flag ◌+ℤ◌ ◌-ℤ◌
gate_step-AreGatesValid add_srd_proof w v = ground arith
gate_step-AreGatesValid add_file_proof w v = ground arith
gate_step-AreGatesValid reset_proof w v = ground arith
gate_step-AreGatesValid raise_flag w v = ground arith
gate_step-AreGatesValid lower_flag w v = ground arith

-- Whatever validations, reports and restarts happen, in whatever order, the proof counters stay between 0 and their maximum and the restart flag between 0 and 1.
pub gate_run-AreGatesValid :
    (ops : List GateOp) (w : Workload) → AreGatesValid w → AreGatesValid (gate_run ops w)
unfolding gate_run
gate_run-AreGatesValid [] w v = v
gate_run-AreGatesValid (op ∷ ops) w v =
    gate_run-AreGatesValid ops (gate_step op w) (gate_step-AreGatesValid op w v)
