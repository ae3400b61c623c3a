-- ===== src/Disks/Change.antt =====
-- `srd_change` of the application (app/process/Srd.cpp): the tasks of a turn, and what is given back to
-- the enclave when some of them fail; and the decrease of the figure of running tasks. That `srd_change`
-- sets this figure is left out, since it is only shown and nothing here reads it.
use spacex_storage.Prelude.{
  ℕ, zero, suc, ◌-◌, Bool, true, false, Option, none, some, List, [], ◌∷◌, ◌++◌, ℤ, pos, negsuc,
  Text, length, ltb, ◌==◌, if◌then◌else◌,
}
use spacex_storage.Status.{SpacexStatus, success, sgx_failed, srd_number_exceed, is_success}
use spacex_storage.AppData.Defs.{AppData}
use spacex_storage.Disks.Defs.{Place, Disk, get_increase_srd_info}

abbrev pub use_less : Disk → Disk
use_less disk = record disk { used = disk.used - 1 }

-- The inner loop: the disks' names that are pushed as tasks, and the disks.
unfoldable pub task_round : List Disk → List Text × List Disk
task_round [] = ([], [])
task_round (disk ∷ disks) =
    let (tasks, disks') = task_round disks in
    if ltb 0 disk.used then (disk.uuid ∷ tasks, use_less disk ∷ disks') else (tasks, disk ∷ disks')

-- The outer loop; `task` may stop at 0, since it is only compared with 0.
unfoldable pub task_rounds : ℕ → ℕ → List Disk → List Text
unfolding task_round
task_rounds zero task disks = []
task_rounds (suc fuel) task disks =
    let (tasks, disks') = task_round disks in
    elim (ltb 0 task) [
      | false ↦ []
      | true ↦ elim (length tasks == 0) [
        | true ↦ tasks
        | false ↦ tasks ++ task_rounds fuel (task - length tasks) disks'
      ]
    ]

-- What comes of a task: nothing if it throws, else whether SGX worked and the status.
abbrev pub Answer : Type 0
Answer = Option (Bool × SpacexStatus)

-- The status that a task returns.
abbrev pub task_status : Bool → SpacexStatus → SpacexStatus
task_status worked status =
    if worked then status else if is_success status then sgx_failed else status

-- `srd_success_num`, over the tasks from the `i`-th on.
unfoldable pub count_successes : (ℕ → Answer) → ℕ → List Text → ℕ
count_successes answer i [] = 0
count_successes answer i (uuid ∷ tasks) =
    let rest = count_successes answer (suc i) tasks in
    elim (answer i) [
      | none ↦ rest
      | some (worked, status) ↦ if is_success (task_status worked status) then suc rest else rest
    ]

-- `E` is the enclave, with `Ecall_change_srd_task` and `Ecall_srd_decrease`, whose results are only
-- logged.
module _ {E : Type 0} (change_task : ℤ → E → E) (decrease : ℕ → E → E) where
  -- `srd_change`: the uuids of the tasks stand beside the new states and the status.
  unfoldable pub srd_change :
      (Text → Place)
      → List Text
      → (ℕ → Answer)
      → ℤ
      → AppData
      → E
      → AppData × E × List Text × SpacexStatus
  unfolding task_rounds count_successes
  srd_change at paths answer (pos change) d e =
      let (d', disks, left) = get_increase_srd_info at paths change d in
      let increase = change - left in
      let tasks = task_rounds increase increase disks in
      let num = count_successes answer 0 tasks in
      if change == 0
      then (d, e, [], success)
      else if increase == 0
      then (d', e, [], srd_number_exceed)
      else (
        d',
        if ltb num increase then change_task (pos (increase - num)) e else e,
        tasks,
        if ltb 0 left then srd_number_exceed else success,
      )
  srd_change at paths answer (negsuc n) d e = (d, decrease (suc n) e, [], success)

-- `decrease_running_srd_task` on `g_running_srd_task`, which has no sign.
unfoldable pub decrease_running_srd_task : ℕ → ℕ
decrease_running_srd_task running = if ltb 0 running then running - 1 else running
