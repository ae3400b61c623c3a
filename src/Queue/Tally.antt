-- ===== src/Queue/Tally.antt =====
-- The threads of the queue counted, and the counters that agree with them.
use spacex_storage.Prelude.{
  ℕ, zero, suc, ◌+◌, ◌≤◌, ◌≡◌, Bool, true, false, ◌&&◌, some, List, [], ◌∷◌, ℤ, pos, ◌+ℤ◌, ◌-ℤ◌,
  get_elem?, set, ltb, ◌==◌, arith,
}
use spacex_storage.Queue.Defs.{Task, priority, task_eq}
use spacex_storage.Queue.Threads.{Phase, entered, counted, inside, leaving, gone, Thread, System}

-- The phases between the two changes of `running_task_num`, of the running queue, and of the waiting
-- queue.
abbrev pub in_enclave : Phase → Bool
in_enclave entered = true
in_enclave counted = true
in_enclave inside = true
in_enclave _ = false

abbrev pub in_running_queue : Phase → Bool
in_running_queue counted = true
in_running_queue inside = true
in_running_queue leaving = true
in_running_queue _ = false

abbrev pub in_waiting_queue : Phase → Bool
in_waiting_queue inside = false
in_waiting_queue leaving = false
in_waiting_queue gone = false
in_waiting_queue _ = true

abbrev pub holds : Thread → Bool
holds th = in_enclave th.phase

abbrev pub holds_low : Thread → Bool
holds_low th = in_enclave th.phase && ltb 0 (priority th.task)

abbrev pub runs : Task → Thread → Bool
runs t th = in_running_queue th.phase && task_eq t th.task

abbrev pub waits : ℕ → Thread → Bool
waits p th = in_waiting_queue th.phase && p == priority th.task

abbrev pub bit : Bool → ℕ
bit true = 1
bit false = 0

unfoldable pub tally : (Thread → Bool) → List Thread → ℕ
tally p [] = 0
tally p (th ∷ ths) = bit (p th) + tally p ths

pub tally-set :
    (p : Thread → Bool) (ths : List Thread) (i : ℕ) (th th' : Thread)
    → get_elem? ths i ≡ some th
    → tally p (set ths i th') + bit (p th) ≡ tally p ths + bit (p th')
unfolding tally
tally-set p [] i th th' e = cc
tally-set p (x ∷ xs) zero th th' e = ground (arith, e)
tally-set p (x ∷ xs) (suc i) th th' e = omega (arith, tally-set p xs i th th' e)

-- The counters count the threads, at most 32 of them hold the enclave, and at most 31 of those have a
-- task of less than the highest priority.
pub record IsConsistent (s : System) : Type 0 where
  pub num : s.queue.running_task_num ≡ pos (tally holds s.threads)
  pub running : (t : Task) → s.queue.running t ≡ pos (tally (runs t) s.threads)
  pub waiting : (p : ℕ) → s.queue.waiting_num p ≡ pos (tally (waits p) s.threads)
  pub limit : tally holds s.threads ≤ 32
  pub reserve : tally holds_low s.threads ≤ 31

-- One more or one fewer, as the counters have it.
pub one_more : (n : ℤ) (a b : ℕ) → n ≡ pos a → b ≡ a + 1 → n +ℤ pos 1 ≡ pos b
unfolding ◌+ℤ◌
one_more n a b e h = ground arith

pub one_less : (n : ℤ) (a b : ℕ) → n ≡ pos a → a ≡ b + 1 → n -ℤ pos 1 ≡ pos b
unfolding ◌-ℤ◌
one_less n a b e h = ground arith

pub task_eq_refl : (t : Task) → task_eq t t ≡ true
unfolding task_eq
task_eq_refl t = ground arith

pub low_le : (ths : List Thread) → tally holds_low ths ≤ tally holds ths
unfolding tally
low_le [] = omega arith
low_le (th ∷ ths) = ground (arith, low_le ths)
