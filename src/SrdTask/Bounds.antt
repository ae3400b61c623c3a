-- ===== src/SrdTask/Bounds.antt =====
-- The task of sealing space stays within the limit, and each turn takes a bounded share of it.
use spacex_storage.Prelude.{
  ◌≡◌, ◌≢◌, ◌↔◌, refl, sym, ◌⊎◌, Bool, true, false, none, some, ℤ, pos, ◌+ℤ◌, ◌-ℤ◌, ◌≤ℤ◌, eq_ℤ,
  length, if◌then◌else◌, eq_of_parts, arith,
}
use spacex_storage.Status.{
  SpacexStatus, success, srd_number_exceed, is_srd_number_exceed, UpgradeStatus, none_yet,
}
use spacex_storage.SrdMeta.Defs.{show_info, set_srd_remaining_task}
use spacex_storage.SrdTask.Defs.{
  SrdState, srd_limit, max_inc, min_dec, store_task, take_turn, srd_change, allowed_change,
  change_srd_task,
}

allowed_change_bounds :
    (total change : ℤ)
    → let (real, status) = allowed_change total change in
      (((change ≤ℤ pos 0) × (real ≡ change)) ⊎ ((pos 0 ≤ℤ real) × (real ≤ℤ change)))
      × ((real ≤ℤ pos 0) ⊎ (total +ℤ real ≤ℤ srd_limit))
      × ((status ≡ success) ↔ (real ≡ change))
unfolding allowed_change ◌+ℤ◌ ◌-ℤ◌
allowed_change_bounds total change = (ground arith, ground arith, ground arith)

-- `change_srd_task` never raises the sum of the sealed space and the task to a figure above the limit; a decrease is accepted whole, an increase at most whole and never turned into a decrease; the status says whether anything was cut off; and the task that is shown is the new one.
pub change_srd_task-bounds :
    (change : ℤ) (persisted : SpacexStatus) (st : SrdState)
    → let total = pos (length st.srd.hashs) +ℤ st.task in
      let (st', real, status) = change_srd_task change persisted st in
      (st'.task ≡ st.task +ℤ real)
      × (st'.srd.hashs ≡ st.srd.hashs)
      × (st'.srd.shown.remaining ≡ st'.task)
      × (((change ≤ℤ pos 0) × (real ≡ change)) ⊎ ((pos 0 ≤ℤ real) × (real ≤ℤ change)))
      × ((real ≤ℤ pos 0) ⊎ (total +ℤ real ≤ℤ srd_limit))
      × ((status ≡ success) ↔ (real ≡ change))
unfolding change_srd_task store_task show_info set_srd_remaining_task
change_srd_task-bounds change persisted st =
    let (between, limited, told) =
      allowed_change_bounds (pos (length st.srd.hashs) +ℤ st.task) change in
    (refl, refl, refl, between, limited, told)

-- A turn's share has at most the two turn limits, has the sign of the task, and together with what is left makes up the task.
take_turn_bounds :
    (task : ℤ)
    → let (share, left) = take_turn task in
      (min_dec ≤ℤ share) × (share ≤ℤ max_inc) × (left +ℤ share ≡ task)
unfolding take_turn ◌+ℤ◌ ◌-ℤ◌
take_turn_bounds task = ground arith

abbrev quiet : SrdState → SrdState
quiet st = st

-- The sign of the share.
take_turn_sign :
    (task : ℤ)
    → task ≢ pos 0
    → let (share, left) = take_turn task in
      (share ≢ pos 0)
      × (((pos 0 ≤ℤ share) × (share ≤ℤ task)) ⊎ ((share ≤ℤ pos 0) × (task ≤ℤ share)))
unfolding take_turn ◌-ℤ◌
take_turn_sign task h = ((λ e. ground arith), ground arith)

-- The task after a turn in which no other thread interferes.
task_after : (ℤ → SpacexStatus) → ℤ → ℤ
task_after ocall task =
    let (share, left) = take_turn task in if is_srd_number_exceed (ocall share) then pos 0 else left

exceed_iff :
    (status : SpacexStatus) → (is_srd_number_exceed status ≡ true) ↔ (status ≡ srd_number_exceed)
exceed_iff status = ground arith

eq_ℤ_ne : (a b : ℤ) → a ≢ b → eq_ℤ a b ≡ false
eq_ℤ_ne a b h = ground (arith, eq_of_parts a b)

srd_change_runs :
    (ocall : ℤ → SpacexStatus) (persisted : SpacexStatus) (st : SrdState)
    → st.task ≢ pos 0
    → srd_change none_yet true ocall quiet quiet persisted st ≡ (
      store_task persisted (record st { task = task_after ocall st.task }),
      some (take_turn st.task).0,
    )
unfolding srd_change task_after
srd_change_runs ocall persisted st h = ground (
  arith,
  eq_ℤ_ne (pos 0) st.task (λ e. h (sym e)),
  eq_ℤ_ne (pos 0) (take_turn st.task).0 (λ e. (take_turn_sign st.task h).0 (sym e)),
)

-- While no other thread changes the task, a turn of `srd_change` with work to do asks the app for a share that is not zero, has the sign of the task and stays within the two turn limits; afterwards the task is what is left of it, or zero if the app answered that the space is used up, and this figure is shown.
pub srd_change_turn :
    (ocall : ℤ → SpacexStatus) (persisted : SpacexStatus) (st : SrdState)
    → st.task ≢ pos 0
    → let (st', asked) = srd_change none_yet true ocall quiet quiet persisted st in
      (share : ℤ) × (asked ≡ some share)
      × (share ≢ pos 0)
      × (min_dec ≤ℤ share)
      × (share ≤ℤ max_inc)
      × (((pos 0 ≤ℤ share) × (share ≤ℤ st.task)) ⊎ ((share ≤ℤ pos 0) × (st.task ≤ℤ share)))
      × (((ocall share ≡ srd_number_exceed) × (st'.task ≡ pos 0))
          ⊎ ((ocall share ≢ srd_number_exceed) × (st'.task +ℤ share ≡ st.task)))
      × (st'.srd.shown.remaining ≡ st'.task)
unfolding store_task show_info set_srd_remaining_task task_after
srd_change_turn ocall persisted st h =
    let (low, high, whole) = take_turn_bounds st.task in
    let (some_share, sign) = take_turn_sign st.task h in
    let share : ℤ = (take_turn st.task).0 in
    rw (srd_change_runs ocall persisted st h) (
      share,
      refl,
      some_share,
      low,
      high,
      sign,
      ground (arith, exceed_iff (ocall share), whole),
      refl,
    )

-- `srd_change` does nothing at all during an upgrade, before both kinds of storage are validated, or when there is no task.
pub srd_change_idle :
    (upgrade : UpgradeStatus) (proved : Bool) (ocall : ℤ → SpacexStatus)
    (during between : SrdState → SrdState) (persisted : SpacexStatus) (st : SrdState)
    → ((upgrade ≢ none_yet) ⊎ ((proved ≡ false) ⊎ (st.task ≡ pos 0)))
    → srd_change upgrade proved ocall during between persisted st ≡ (st, none)
unfolding srd_change
srd_change_idle upgrade proved ocall during between persisted st h = ground arith
