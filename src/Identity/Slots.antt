-- ===== src/Identity/Slots.antt =====
-- The slot that `id_gen_upgrade_data` reports for.
use spacex_storage.Prelude.{
  ltb, ℕ, zero, suc, ◌+◌, ◌-◌, ◌%◌, ◌^◌, ◌≤◌, ◌<◌, ◌≡◌, refl, some, inl, inr, Bool-cases, arith,
}
use spacex_storage.Workload.Defs.{report_slot, size_mod}
use spacex_storage.Identity.Upgrade.{slot_height}

slot_height_loop :
    (fuel block h : ℕ)
    → block + report_slot < 2 ^ 64
    → block < h + fuel
    → h < block
    → (r : ℕ) × (slot_height fuel block h ≡ some r)
      × (block ≤ r + report_slot)
      × (r < block)
      × (h ≤ r)
      × ((r - h) % report_slot ≡ 0)
unfolding slot_height
slot_height_loop zero block h big fuel lt = absurd (omega arith)
slot_height_loop (suc fuel) block h big enough lt =
    let sum : (report_slot + h) % size_mod ≡ h + report_slot = omega (arith, big, lt) in
    let sum' : (h + report_slot) % size_mod ≡ h + report_slot = omega (arith, big, lt) in
    elim (Bool-cases (ltb (h + report_slot) block)) [
      | inl e ↦
          let (r, found, near, before, after, slots) =
            slot_height_loop fuel block (h + report_slot) big (omega (arith, enough))
              (ground (arith, e)) in
          rw (sum, e, sum', slot_height)
            (r, found, near, before, omega (arith, after), omega (arith, after, slots))
      | inr e ↦ rw (sum, e, slot_height) (h, refl, ground (arith, e), lt, omega arith, omega arith)
    ]

-- The loop of `id_gen_upgrade_data` ends, with the last height before the block's that is a whole number of slots after the last report's, when the block is a slot after that or later and its height is less than 2^64 with a slot added.
pub slot_height_ends :
    (block h : ℕ)
    → block + report_slot < 2 ^ 64
    → h + report_slot ≤ block
    → (r : ℕ) × (slot_height (suc block) block h ≡ some r)
      × (block ≤ r + report_slot)
      × (r < block)
      × (h ≤ r)
      × ((r - h) % report_slot ≡ 0)
slot_height_ends block h big le =
    slot_height_loop (suc block) block h big (omega arith) (omega (arith, le))
