-- ===== src/Schedule/Wait.antt =====
-- How long the application waits before it asks for a work report.
use spacex_storage.Prelude.{
  ℕ, ◌+◌, ◌-◌, ◌≤◌, ◌≡◌, ltb, leb, inl, inr, Bool-cases, if◌then◌else◌, ◌⊎◌, arith,
}
use spacex_storage.Workload.Defs.{interval_lower_limit}
use spacex_storage.Schedule.Defs.{get_random_wait_time, cut_wait_time, wait_time, max}

-- The wait for a random time, of which some is gone.
wait_within :
    (random cut : ℕ)
    → 27 ≤ random
    → random ≤ 1197
    → let wait = max (if leb random cut then 0 else random - cut) interval_lower_limit in
      (10 ≤ wait) × (wait ≤ 1197) × (27 ≤ cut + wait) × ((cut + wait ≤ 1197) ⊎ (wait ≡ 10))
wait_within random cut low high = elim (Bool-cases (leb random cut)) [
  | inl late ↦ rw late (ground arith)
  | inr early ↦ elim (Bool-cases (ltb (random - cut) 10)) [
    | inl little ↦ rw (early, little) (ground arith)
    | inr enough ↦ rw (early, enough) (ground arith)
  ]
]

-- The wait before a report is 10 to 1197 seconds. Counted from the start of the slot, of which the block
-- tells how much has gone by, the report comes 27 seconds after it at the earliest, and 1197 at the
-- latest, that is within 399 blocks; only a loop that is late waits 10 seconds and then reports.
pub wait_time-bounds :
    (rand number : ℕ)
    → let wait = wait_time rand number in
      let from_start = cut_wait_time number + wait in
      (10 ≤ wait) × (wait ≤ 1197) × (27 ≤ from_start) × ((from_start ≤ 1197) ⊎ (wait ≡ 10))
unfolding wait_time
wait_time-bounds rand number =
    wait_within (get_random_wait_time rand) (cut_wait_time number) (omega arith) (omega arith)
