-- ===== src/Tests/Schedules.antt =====
-- The loop of the work reports at concrete inputs.
use spacex_storage.Prelude.{
  ℕ, ◌+◌, ◌≤◌, ◌≡◌, refl, true, false, Bool, some, List, [], ◌∷◌, pos, is_empty, ◌⊎◌, arith,
}
use spacex_storage.Schedule.Defs.{
  Loop, Round, cut_wait_time, wait_time, start, first_target, work_report_loop,
}
use spacex_storage.Schedule.Wait.{wait_time-bounds}
use spacex_storage.Schedule.Heights.{AreInTurn, work_report_loop-AreInTurn}
use spacex_storage.Schedule.PutOff.{IsDue, work_report_loop_asks}
use spacex_storage.Tests.Data.{sample}
use spacex_storage.Tests.Hand.{lib, report_steps}

wait_time-bounds_example :
    let wait = wait_time 100 3700 in
    let from_start = cut_wait_time 3700 + wait in
    (10 ≤ wait) × (wait ≤ 1197) × (27 ≤ from_start) × ((from_start ≤ 1197) ⊎ (wait ≡ 10))
wait_time-bounds_example = wait_time-bounds 100 3700

abbrev round : ℕ → Bool → Round
round number stopped = record {
  exits = false;
  header = some number;
  stopped = stopped;
  exits_waiting = false;
  hash = some (7 ∷ []);
  worked = true;
  out = report_steps;
  exits_after = false;
}

-- Two slots.
abbrev rounds : List Round
rounds = round 3700 false ∷ round 3701 false ∷ round 4805 true ∷ round 4806 false ∷ []

work_report_loop-AreInTurn_example :
    AreInTurn (first_target (some 2500)) (work_report_loop lib rounds (start (some 2500) sample)).1
unfolding first_target
work_report_loop-AreInTurn_example =
    work_report_loop-AreInTurn lib rounds (some 2500) sample (omega arith)

-- One more round can be put off.
abbrev stopped_loop : Loop
stopped_loop = record { target_block_height = 3600; stop_tryout = pos 1; enclave = sample }

abbrev two_rounds : List Round
two_rounds = round 3700 true ∷ round 3701 true ∷ []

due : (number : ℕ) → 3600 ≤ number → IsDue 3600 (round number true)
due number reached = record {
  runs = refl;
  number = number;
  header = refl;
  reached = reached;
  waits = refl;
  known = 7 ∷ [];
  hash = refl;
  stays = refl;
}

work_report_loop_asks_example : is_empty (work_report_loop lib two_rounds stopped_loop).1 ≡ false
work_report_loop_asks_example =
    work_report_loop_asks lib 1 two_rounds stopped_loop refl refl
      (due 3700 (omega arith), (due 3701 (omega arith), tt))
