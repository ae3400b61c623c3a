-- ===== src/Queue/Limits.antt =====
-- However the threads of the queue are interleaved, its counters count them, and the enclave is never
-- full beyond its limits.
use spacex_storage.Prelude.{
  ℕ, suc, ◌-◌, ◌<◌, ◌≡◌, refl, ap, ◌∙◌, false, some, List, [], ◌∷◌, pos, ◌-ℤ◌, -ℤ_parts, get_elem?,
  set, inl, inr, Option-cases, arith,
}
use spacex_storage.Queue.Defs.{
  Task, priority, max_threads, increase_waiting_queue, decrease_waiting_queue,
  increase_running_queue, decrease_running_queue, is_refused, get_higher_prio_waiting_task_num,
  higher_waiting,
}
use spacex_storage.Queue.Threads.{
  Phase, at_loop, unblocked, entered, counted, inside, leaving, gave_up, gone, Thread, back_off,
  act, System, Move, arrive, move, system_step, system_run, idle_system,
}
use spacex_storage.Queue.Tally.{
  holds, holds_low, runs, waits, tally, IsConsistent, tally-set, one_more, one_less, task_eq_refl,
  low_le,
}

arrive-IsConsistent :
    (t : Task) (s : System) → IsConsistent s → IsConsistent (system_step (arrive t) s)
unfolding system_step increase_waiting_queue tally
arrive-IsConsistent t s c = record {
  num = c.num ∙ ap pos (omega arith);
  running = λ u. c.running u ∙ ap pos (omega arith);
  waiting = λ p. ground (
    arith,
    c.waiting p,
    one_more (s.queue.waiting_num p) (tally (waits p) s.threads) (suc (tally (waits p) s.threads))
        (c.waiting p),
  );
  limit = omega (arith, c.limit);
  reserve = omega (arith, c.reserve);
}

-- What a phase does to the counters, with the thread at its place changed accordingly.
act-IsConsistent :
    (i : ℕ) (ph : Phase) (th : Thread) (s : System)
    → th.phase ≡ ph
    → get_elem? s.threads i ≡ some th
    → IsConsistent s
    → IsConsistent
        (record { queue = (act ph th s.queue).1; threads = set s.threads i (act ph th s.queue).0 })
unfolding act back_off is_refused increase_running_queue decrease_running_queue
    decrease_waiting_queue
act-IsConsistent i at_loop th s e got c =
    let th' : Thread = (act at_loop th s.queue).0 in
    record {
      num = c.num ∙ ap pos (ground (arith, tally-set holds s.threads i th th' got));
      running =
          λ t. c.running t ∙ ap pos (ground (arith, tally-set (runs t) s.threads i th th' got));
      waiting =
          λ p. c.waiting p ∙ ap pos (ground (arith, tally-set (waits p) s.threads i th th' got));
      limit = ground (arith, c.limit, tally-set holds s.threads i th th' got);
      reserve = ground (arith, c.reserve, tally-set holds_low s.threads i th th' got);
    }
act-IsConsistent i unblocked th s e got c =
    let th' : Thread = (act unblocked th s.queue).0 in
    let set_holds = tally-set holds s.threads i th th' got in
    record {
      num = ground (
        arith,
        e,
        c.num,
        set_holds,
        one_more s.queue.running_task_num (tally holds s.threads) (suc (tally holds s.threads))
            c.num,
      );
      running = λ t. ground (arith, e, c.running t, tally-set (runs t) s.threads i th th' got);
      waiting = λ p. ground (arith, e, c.waiting p, tally-set (waits p) s.threads i th th' got);
      limit = ground (arith, e, c.num, c.limit, set_holds);
      reserve = ground (
        arith,
        e,
        c.num,
        c.reserve,
        low_le s.threads,
        tally-set holds_low s.threads i th th' got,
        -ℤ_parts max_threads s.queue.running_task_num,
      );
    }
act-IsConsistent i entered th s e got c =
    let th' : Thread = (act entered th s.queue).0 in
    let set_holds = tally-set holds s.threads i th th' got in
    record {
      num = c.num ∙ ap pos (ground (arith, e, set_holds));
      running = λ t. ground (
        arith,
        e,
        c.running t,
        tally-set (runs t) s.threads i th th' got,
        one_more (s.queue.running t) (tally (runs t) s.threads) (suc (tally (runs t) s.threads))
            (c.running t),
      );
      waiting =
          λ p. c.waiting p ∙ ap pos (ground (arith, e, tally-set (waits p) s.threads i th th' got));
      limit = ground (arith, e, c.limit, set_holds);
      reserve = ground (arith, e, c.reserve, tally-set holds_low s.threads i th th' got);
    }
act-IsConsistent i counted th s e got c =
    let th' : Thread = (act counted th s.queue).0 in
    let set_holds = tally-set holds s.threads i th th' got in
    record {
      num = ground (arith, e, c.num, set_holds);
      running = λ t. ground (arith, e, c.running t, tally-set (runs t) s.threads i th th' got);
      waiting = λ p. ground (
        arith,
        e,
        c.waiting p,
        c.waiting (priority th.task),
        tally-set (waits p) s.threads i th th' got,
        tally-set (waits (priority th.task)) s.threads i th th' got,
        one_less (s.queue.waiting_num p) (tally (waits p) s.threads) (tally (waits p) s.threads - 1)
            (c.waiting p),
      );
      limit = ground (arith, e, c.limit, set_holds);
      reserve = ground (arith, e, c.reserve, tally-set holds_low s.threads i th th' got);
    }
act-IsConsistent i inside th s e got c =
    let th' : Thread = (act inside th s.queue).0 in
    let set_holds = tally-set holds s.threads i th th' got in
    record {
      num = ground (
        arith,
        e,
        c.num,
        set_holds,
        one_less s.queue.running_task_num (tally holds s.threads) (tally holds s.threads - 1) c.num,
      );
      running =
          λ t. c.running t ∙ ap pos (ground (arith, e, tally-set (runs t) s.threads i th th' got));
      waiting =
          λ p. c.waiting p ∙ ap pos (ground (arith, e, tally-set (waits p) s.threads i th th' got));
      limit = ground (arith, e, c.limit, set_holds);
      reserve = ground (arith, e, c.reserve, tally-set holds_low s.threads i th th' got);
    }
act-IsConsistent i leaving th s e got c =
    let th' : Thread = (act leaving th s.queue).0 in
    let set_holds = tally-set holds s.threads i th th' got in
    record {
      num = ground (arith, e, c.num, set_holds);
      running = λ t. ground (
        arith,
        e,
        task_eq_refl th.task,
        c.running t,
        c.running th.task,
        tally-set (runs t) s.threads i th th' got,
        tally-set (runs th.task) s.threads i th th' got,
        one_less (s.queue.running t) (tally (runs t) s.threads) (tally (runs t) s.threads - 1)
            (c.running t),
      );
      waiting = λ p. ground (arith, e, c.waiting p, tally-set (waits p) s.threads i th th' got);
      limit = ground (arith, e, c.limit, set_holds);
      reserve = ground (arith, e, c.reserve, tally-set holds_low s.threads i th th' got);
    }
act-IsConsistent i gave_up th s e got c =
    let th' : Thread = (act gave_up th s.queue).0 in
    let set_holds = tally-set holds s.threads i th th' got in
    record {
      num = ground (arith, e, c.num, set_holds);
      running = λ t. ground (arith, e, c.running t, tally-set (runs t) s.threads i th th' got);
      waiting = λ p. ground (
        arith,
        e,
        c.waiting p,
        c.waiting (priority th.task),
        tally-set (waits p) s.threads i th th' got,
        tally-set (waits (priority th.task)) s.threads i th th' got,
        one_less (s.queue.waiting_num p) (tally (waits p) s.threads) (tally (waits p) s.threads - 1)
            (c.waiting p),
      );
      limit = ground (arith, e, c.limit, set_holds);
      reserve = ground (arith, e, c.reserve, tally-set holds_low s.threads i th th' got);
    }
act-IsConsistent i gone th s e got c =
    let th' : Thread = (act gone th s.queue).0 in
    let set_holds = tally-set holds s.threads i th th' got in
    record {
      num = c.num ∙ ap pos (ground (arith, e, set_holds));
      running =
          λ t. c.running t ∙ ap pos (ground (arith, e, tally-set (runs t) s.threads i th th' got));
      waiting =
          λ p. c.waiting p ∙ ap pos (ground (arith, e, tally-set (waits p) s.threads i th th' got));
      limit = ground (arith, e, c.limit, set_holds);
      reserve = ground (arith, e, c.reserve, tally-set holds_low s.threads i th th' got);
    }

system_step-IsConsistent : (m : Move) (s : System) → IsConsistent s → IsConsistent (system_step m s)
unfolding system_step
system_step-IsConsistent (arrive t) s c = arrive-IsConsistent t s c
system_step-IsConsistent (move i) s c = elim (Option-cases (get_elem? s.threads i)) [
  | inl e ↦ rw (e, system_step) c
  | inr (th, e) ↦ rw (e, system_step) (act-IsConsistent i th.phase th s refl e c)
]

idle-IsConsistent : IsConsistent idle_system
unfolding tally
idle-IsConsistent = record {
  num = refl;
  running = λ t. refl;
  waiting = λ p. refl;
  limit = omega arith;
  reserve = omega arith;
}

run-IsConsistent : (ms : List Move) (s : System) → IsConsistent s → IsConsistent (system_run ms s)
unfolding system_run
run-IsConsistent [] s c = c
run-IsConsistent (m ∷ ms) s c =
    run-IsConsistent ms (system_step m s) (system_step-IsConsistent m s c)

-- From the idle queue on, whatever tasks arrive and however the threads are interleaved, the counters count exactly the threads in the enclave, in the running queue under each name and in the waiting queue at each priority; at most 32 threads hold the enclave and at most 31 of them have a task of less than the highest priority.
pub system_run-IsConsistent : (ms : List Move) → IsConsistent (system_run ms idle_system)
system_run-IsConsistent ms = run-IsConsistent ms idle_system idle-IsConsistent

-- A thread that asks for the enclave with a task of the highest priority is let in whenever fewer than 32 threads hold it.
pub highest_enters :
    (th : Thread) (s : System)
    → IsConsistent s
    → priority th.task ≡ 0
    → tally holds s.threads < 32
    → is_refused th.task s.queue ≡ false
unfolding is_refused get_higher_prio_waiting_task_num higher_waiting ◌-ℤ◌
highest_enters th s c top free =
    rw (top, is_refused, get_higher_prio_waiting_task_num) (ground (arith, c.num))
