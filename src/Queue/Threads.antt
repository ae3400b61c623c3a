-- ===== src/Queue/Threads.antt =====
-- `try_get_enclave` and `free_enclave` as threads run them side by side: a thread moves from one
-- locked section to the next, and a schedule says which thread moves.
use spacex_storage.Prelude.{
  ℕ, ◌+◌, none, some, List, [], ◌∷◌, pos, ◌+ℤ◌, ◌-ℤ◌, get_elem?, set, ltb, leb, if◌then◌else◌,
}
use spacex_storage.Queue.Defs.{
  Task, priority, Queue, timeout_threshold, task_timeout, increase_waiting_queue,
  decrease_waiting_queue, increase_running_queue, decrease_running_queue, is_blocked, is_refused,
}

-- Where a thread stands: at the head of the loop; past the check of the blocking tasks; counted in
-- `running_task_num`; in the running queue too; in the enclave; past the first half of
-- `free_enclave`; out of time; at the end.
pub data Phase : Type 0 where
  at_loop unblocked entered counted inside leaving gave_up gone : Phase

pub record Thread : Type 0 where
  pub task : Task
  pub phase : Phase
  pub timeout : ℕ

-- The part of the loop behind the label `loop`.
unfoldable pub back_off : Thread → Thread
back_off th =
    if ltb timeout_threshold (priority th.task)
    then (if leb task_timeout (th.timeout + 1)
        then record th { timeout = th.timeout + 1; phase = gave_up }
        else record th { timeout = th.timeout + 1; phase = at_loop })
    else record th { phase = at_loop }

-- What a thread does next, from its phase on.
unfoldable pub act : Phase → Thread → Queue → Thread × Queue
unfolding back_off
act at_loop th q =
    (if is_blocked th.task q then back_off th else record th { phase = unblocked }, q)
act unblocked th q = if is_refused th.task q then (back_off th, q) else (
  record th { phase = entered },
  record q { running_task_num = q.running_task_num +ℤ pos 1 },
)
act entered th q = (record th { phase = counted }, increase_running_queue th.task q)
act counted th q = (record th { phase = inside }, decrease_waiting_queue th.task q)
act inside th q =
    (record th { phase = leaving }, record q { running_task_num = q.running_task_num -ℤ pos 1 })
act leaving th q = (record th { phase = gone }, decrease_running_queue th.task q)
act gave_up th q = (record th { phase = gone }, decrease_waiting_queue th.task q)
act gone th q = (th, q)

pub record System : Type 0 where
  pub queue : Queue
  pub threads : List Thread

-- A thread arrives with a task, or the thread at a place moves.
pub data Move : Type 0 where
  arrive : Task → Move
  move : ℕ → Move

unfoldable pub system_step : Move → System → System
unfolding act
system_step (arrive t) s = record {
  queue = increase_waiting_queue t s.queue;
  threads = record { task = t; phase = at_loop; timeout = 0 } ∷ s.threads;
}
system_step (move i) s = elim (get_elem? s.threads i) [
  | none ↦ s
  | some th ↦
      let (th', q) = act th.phase th s.queue in record { queue = q; threads = set s.threads i th' }
]

unfoldable pub system_run : List Move → System → System
system_run [] s = s
system_run (m ∷ ms) s = system_run ms (system_step m s)

abbrev pub idle_system : System
idle_system = record {
  queue = record {
    running_task_num = pos 0;
    waiting_num = λ p. pos 0;
    waiting_task = λ p t. pos 0;
    running = λ t. pos 0;
  };
  threads = [];
}
