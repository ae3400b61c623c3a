-- ===== src/Tests/Queues.antt =====
-- The queue at concrete inputs.
use spacex_storage.Prelude.{◌≡◌, refl, List, [], ◌∷◌}
use spacex_storage.Queue.Defs.{priority, place, main_loop, srd_increase}
use spacex_storage.Queue.Threads.{Thread, Move, arrive, move, system_run, idle_system, at_loop}
use spacex_storage.Queue.Tally.{IsConsistent}
use spacex_storage.Queue.Limits.{system_run-IsConsistent}

abbrev moves : List Move
moves = arrive main_loop ∷ move 0 ∷ move 0 ∷ arrive srd_increase ∷ move 0 ∷ move 1 ∷ move 0 ∷ []

system_run-IsConsistent_example : IsConsistent (system_run moves idle_system)
system_run-IsConsistent_example = system_run-IsConsistent moves

abbrev asking : Thread
asking = record { task = main_loop; phase = at_loop; timeout = 0 }

top : priority asking.task ≡ 0
unfolding priority place
top = refl
