-- ===== src/Queue/Defs.antt =====
-- `EnclaveQueue` (app/ecalls/EnclaveQueue.h and EnclaveQueue.cpp): the maps of the class and the
-- functions that change and read them, each under its mutex.
use spacex_storage.Prelude.{
  ℕ, zero, suc, Bool, ◌&&◌, ◌||◌, ℤ, pos, ◌+ℤ◌, ◌-ℤ◌, ltb_ℤ, leb_ℤ, eq_ℤ, ltb, ◌==◌, if◌then◌else◌,
}

-- The names in `task_priority_um`.
pub data Task : Type 0 where
  restore_metadata gen_key_pair cmp_chain_account_id get_quote_report : Task
  verify_and_upload_identity gen_sgx_measurement main_loop stop_all : Task
  gen_and_upload_work_report gen_upgrade_data restore_from_upgrade enable_upgrade : Task
  disable_upgrade : Task
  recover_illegal_file delete_file validate_file validate_srd seal_file_start seal_file : Task
  seal_file_end unseal_file srd_decrease srd_remove_space change_srd_task : Task
  srd_increase id_get_info : Task

-- The place of a task in the map, which tells two of them apart.
unfoldable pub place : Task → ℕ
place restore_metadata = 0
place gen_key_pair = 1
place cmp_chain_account_id = 2
place get_quote_report = 3
place verify_and_upload_identity = 4
place gen_sgx_measurement = 5
place main_loop = 6
place stop_all = 7
place gen_and_upload_work_report = 8
place gen_upgrade_data = 9
place restore_from_upgrade = 10
place enable_upgrade = 11
place disable_upgrade = 12
place recover_illegal_file = 13
place delete_file = 14
place validate_file = 15
place validate_srd = 16
place seal_file_start = 17
place seal_file = 18
place seal_file_end = 19
place unseal_file = 20
place srd_decrease = 21
place srd_remove_space = 22
place change_srd_task = 23
place srd_increase = 24
place id_get_info = 25

-- `task_priority_um`: 0 is the highest.
unfoldable pub priority : Task → ℕ
unfolding place
priority t = if ltb (place t) 13 then 0 else if ltb (place t) 24 then 1 else 2

unfoldable pub task_eq : Task → Task → Bool
unfolding place
task_eq a b = place a == place b

-- The members that change. A missing key of a map reads as 0.
pub record Queue : Type 0 where
  pub running_task_num : ℤ
  pub waiting_num : ℕ → ℤ
  pub waiting_task : ℕ → Task → ℤ
  pub running : Task → ℤ

-- `ENC_MAX_THREAD_NUM`, `ENC_RESERVED_THREAD_NUM`, `ENC_PERMANENT_TASK_NUM`,
-- `ENC_PRIO_TIMEOUT_THRESHOLD` and `ENC_TASK_TIMEOUT`
abbrev pub max_threads : ℤ
max_threads = pos 32

abbrev pub reserved_threads : ℤ
reserved_threads = pos 1

abbrev pub permanent_tasks : ℤ
permanent_tasks = pos 1

abbrev pub timeout_threshold : ℕ
timeout_threshold = 1

abbrev pub task_timeout : ℕ
task_timeout = 30

-- A map with `n` added at one key.
abbrev pub add_at_prio : ℕ → ℤ → (ℕ → ℤ) → ℕ → ℤ
add_at_prio p n f = λ q. if q == p then f q +ℤ n else f q

abbrev pub sub_at_prio : ℕ → ℤ → (ℕ → ℤ) → ℕ → ℤ
sub_at_prio p n f = λ q. if q == p then f q -ℤ n else f q

abbrev pub add_at_task : Task → ℤ → (Task → ℤ) → Task → ℤ
add_at_task t n f = λ u. if task_eq u t then f u +ℤ n else f u

abbrev pub sub_at_task : Task → ℤ → (Task → ℤ) → Task → ℤ
sub_at_task t n f = λ u. if task_eq u t then f u -ℤ n else f u

unfoldable pub increase_waiting_queue : Task → Queue → Queue
increase_waiting_queue t q = record q {
  waiting_num = add_at_prio (priority t) (pos 1) q.waiting_num;
  waiting_task =
      λ p. if p == priority t then add_at_task t (pos 1) (q.waiting_task p) else q.waiting_task p;
}

unfoldable pub decrease_waiting_queue : Task → Queue → Queue
decrease_waiting_queue t q = if eq_ℤ (q.waiting_num (priority t)) (pos 0) then q else record q {
  waiting_num = sub_at_prio (priority t) (pos 1) q.waiting_num;
  waiting_task =
      λ p. if p == priority t then sub_at_task t (pos 1) (q.waiting_task p) else q.waiting_task p;
}

unfoldable pub increase_running_queue : Task → Queue → Queue
increase_running_queue t q = record q { running = add_at_task t (pos 1) q.running }

unfoldable pub decrease_running_queue : Task → Queue → Queue
decrease_running_queue t q =
    if eq_ℤ (q.running t) (pos 0) then q else record q { running = sub_at_task t (pos 1) q.running }

-- What `low_ignore_high_um` takes off at one priority.
abbrev pub ignored : Task → ℕ → Queue → ℤ
ignored t p q = if task_eq t srd_increase then q.waiting_task p unseal_file else pos 0

-- The loop of `get_higher_prio_waiting_task_num`, from the priority below its argument on.
unfoldable pub higher_waiting : Task → ℕ → Queue → ℤ
higher_waiting t zero q = pos 0
higher_waiting t (suc p) q = (q.waiting_num p -ℤ ignored t p q) +ℤ higher_waiting t p q

unfoldable pub get_higher_prio_waiting_task_num : Task → Queue → ℤ
unfolding higher_waiting
get_higher_prio_waiting_task_num t q = higher_waiting t (priority t) q

-- Whether a task of `block_tasks_um` runs.
unfoldable pub is_blocked : Task → Queue → Bool
is_blocked t q =
    task_eq t srd_increase
    && (ltb_ℤ (pos 0) (q.running seal_file_start)
        || (ltb_ℤ (pos 0) (q.running seal_file) || ltb_ℤ (pos 0) (q.running seal_file_end)))

-- The three situations in which `try_get_enclave` does not let a task in.
unfoldable pub is_refused : Task → Queue → Bool
is_refused t q =
    leb_ℤ max_threads q.running_task_num
    || ((ltb 0 (priority t) && leb_ℤ (max_threads -ℤ q.running_task_num) reserved_threads)
        || ltb_ℤ (pos 0) (get_higher_prio_waiting_task_num t q -ℤ permanent_tasks))

-- The tasks of `upgrade_blocked_task_us` that run.
unfoldable pub get_upgrade_ecalls_num : Queue → ℤ
get_upgrade_ecalls_num q =
    q.running seal_file_start
    +ℤ (q.running seal_file
        +ℤ (q.running seal_file_end
            +ℤ (q.running unseal_file
                +ℤ (q.running srd_decrease
                    +ℤ (q.running srd_increase
                        +ℤ (q.running delete_file +ℤ q.running srd_remove_space))))))

unfoldable pub has_stopping_block_task : Queue → Bool
has_stopping_block_task q =
    ltb_ℤ (pos 0) (q.running gen_and_upload_work_report) || ltb_ℤ (pos 0) (q.running main_loop)
