-- ===== src/Disks/Fair.antt =====
-- The space of a change is spread over the disks evenly.
use spacex_storage.Prelude.{
  ℕ, zero, suc, ◌+◌, ◌-◌, ◌≤◌, ◌<◌, ◌≡◌, refl, sym, ap, ◌∙◌, min, Bool, true, false, List, [], ◌∷◌,
  map, All, ltb, ◌==◌, ◌⊎◌, inl, inr, Bool-cases, Text, arith,
}
use spacex_storage.AppData.Defs.{AppData}
use spacex_storage.Disks.Defs.{
  Disk, Place, use_round, use_rounds, check_or_init_disk, disk_infos, get_increase_srd_info_r,
}

abbrev pub total_used : List Disk → ℕ
total_used [] = 0
total_used (disk ∷ disks) = disk.used + total_used disks

-- The space of all disks that sealed space can take.
abbrev pub capacity : List Disk → ℕ
capacity [] = 0
capacity (disk ∷ disks) = disk.available_for_srd + capacity disks

-- The disk but for its use.
abbrev pub unused : Disk → Disk
unused disk = record disk { used = 0 }

-- `level` rounds have gone over the disk, which takes as many parts at most as it has space for.
abbrev pub IsLevel : ℕ → Disk → Type 0
IsLevel level disk = disk.used ≡ min level disk.available_for_srd

-- The disk has had `level` rounds, or one more.
abbrev pub IsNearLevel : ℕ → Disk → Type 0
IsNearLevel level disk = IsLevel level disk ⊎ IsLevel (suc level) disk

abbrev RoundResult : ℕ → List Disk → ℕ → List Disk × ℕ × Bool → Type 0
RoundResult level disks change r =
    (map unused r.0 ≡ map unused disks)
    × (total_used r.0 + r.1 ≡ total_used disks + change)
    × All (IsNearLevel level) r.0
    × (r.1 ≤ change)

All-IsNearLevel :
    (level : ℕ) (disks : List Disk) → All (IsLevel level) disks → All (IsNearLevel level) disks
All-IsNearLevel level [] h = tt
All-IsNearLevel level (disk ∷ disks) h = (inl h.0, All-IsNearLevel level disks h.1)

use_round-RoundResult :
    (level : ℕ) (disks : List Disk) (change : ℕ)
    → All (IsLevel level) disks
    → RoundResult level disks change (use_round disks change)
unfolding use_round
use_round-RoundResult level [] change h = (refl, omega arith, tt, omega arith)
use_round-RoundResult level (disk ∷ disks) zero h =
    (refl, refl, All-IsNearLevel level (disk ∷ disks) h, omega arith)
use_round-RoundResult level (disk ∷ disks) (suc change) h =
    elim (Bool-cases (ltb disk.used disk.available_for_srd)) [
      | inl free ↦
          let r = use_round-RoundResult level disks change h.1 in
          rw free (
            ap (◌∷◌ (unused disk)) r.0,
            omega (arith, r.1),
            (inr (ground (arith, h.0)), r.2),
            omega (arith, r.3),
          )
      | inr full ↦
          let r = use_round-RoundResult level disks (suc change) h.1 in
          rw full
            (ap (◌∷◌ (unused disk)) r.0, omega (arith, r.1), (inl h.0, r.2), omega (arith, r.3))
    ]

-- When something of the change is left, the round has gone over all disks.
use_round_whole :
    (level : ℕ) (disks : List Disk) (change : ℕ)
    → All (IsLevel level) disks
    → 0 < (use_round disks change).1
    → All (IsLevel (suc level)) (use_round disks change).0
      × ((use_round disks change).2 ≡ true → (use_round disks change).1 < change)
      × ((use_round disks change).2 ≡ false
          → total_used (use_round disks change).0 ≡ capacity disks)
unfolding use_round
use_round_whole level [] change h p = (tt, λ e. cc, λ e. refl)
use_round_whole level (disk ∷ disks) zero h p = absurd (omega arith)
use_round_whole level (disk ∷ disks) (suc change) h p =
    elim (Bool-cases (ltb disk.used disk.available_for_srd)) [
      | inl free ↦
          let left = (use_round-RoundResult level disks change h.1).3 in
          let r = use_round_whole level disks change h.1 (rw free at p) in
          rw free ((ground (arith, h.0), r.0), (λ e. omega (arith, left)), λ e. cc)
      | inr full ↦
          let r = use_round_whole level disks (suc change) h.1 (rw full at p) in
          rw full ((ground (arith, h.0), r.0), r.1, λ e. ground (arith, h.0, r.2 e))
    ]

capacity-unused : (disks : List Disk) → capacity (map unused disks) ≡ capacity disks
capacity-unused [] = refl
capacity-unused (disk ∷ disks) = omega (arith, capacity-unused disks)

total_used-le :
    (level : ℕ) (disks : List Disk)
    → All (IsNearLevel level) disks
    → total_used disks ≤ capacity disks
total_used-le level [] h = omega arith
total_used-le level (disk ∷ disks) h = ground (arith, h.0, total_used-le level disks h.1)

-- How the rounds end: every disk has had as many of them, or one more, and what is left of the change
-- is what goes beyond the space.
abbrev pub IsSpread : List Disk → ℕ → List Disk × ℕ → Type 0
IsSpread disks change r =
    (map unused r.0 ≡ map unused disks)
    × (total_used r.0 + r.1 ≡ total_used disks + change)
    × ((r.1 ≡ 0) ⊎ (total_used r.0 ≡ capacity disks))
    × (level : ℕ) × All (IsNearLevel level) r.0

round_ends :
    (level : ℕ) (disks : List Disk) (change : ℕ)
    → All (IsLevel level) disks
    → ((use_round disks change).1 ≡ 0) ⊎ (total_used (use_round disks change).0 ≡ capacity disks)
    → IsSpread disks change ((use_round disks change).0, (use_round disks change).1)
round_ends level disks change h e =
    let r = use_round-RoundResult level disks change h in (r.0, r.1, e, level, r.2)

rounds_done : (fuel : ℕ) (disks : List Disk) → use_rounds fuel disks 0 ≡ (disks, 0)
unfolding use_rounds
rounds_done zero disks = refl
rounds_done (suc fuel) disks = refl

rounds_end :
    (fuel : ℕ) (disks : List Disk) (change : ℕ)
    → 0 < change
    → (use_round disks change).2 ≡ false
    → use_rounds (suc fuel) disks change ≡ ((use_round disks change).0, (use_round disks change).1)
unfolding use_rounds
rounds_end fuel disks change p e =
    let more : (change == 0) ≡ false = ground arith in rw (more, e, use_rounds) refl

rounds_more :
    (fuel : ℕ) (disks : List Disk) (change : ℕ)
    → 0 < change
    → (use_round disks change).2 ≡ true
    → use_rounds (suc fuel) disks change
      ≡ use_rounds fuel (use_round disks change).0 (use_round disks change).1
unfolding use_rounds
rounds_more fuel disks change p e =
    let more : (change == 0) ≡ false = ground arith in rw (more, e, use_rounds) refl

capacity_same :
    (disks disks' : List Disk)
    → map unused disks' ≡ map unused disks
    → capacity disks' ≡ capacity disks
capacity_same disks disks' e =
    omega (arith, capacity-unused disks, capacity-unused disks', ap capacity e)

IsSpread-trans :
    (disks middle : List Disk) (change left : ℕ) (r : List Disk × ℕ)
    → map unused middle ≡ map unused disks
    → total_used middle + left ≡ total_used disks + change
    → IsSpread middle left r
    → IsSpread disks change r
IsSpread-trans disks middle change left r same sum h =
    let full = capacity_same disks middle same in
    (h.0 ∙ same, h.1 ∙ sum, ground (arith, full, h.2), h.3, h.4)

use_rounds-IsSpread :
    (fuel level : ℕ) (disks : List Disk) (change : ℕ)
    → change < fuel
    → All (IsLevel level) disks
    → IsSpread disks change (use_rounds fuel disks change)
use_rounds-IsSpread zero level disks change f h = absurd (omega arith)
use_rounds-IsSpread (suc fuel) level disks zero f h =
    rw (rounds_done (suc fuel) disks) (refl, refl, inl refl, level, All-IsNearLevel level disks h)
use_rounds-IsSpread (suc fuel) level disks (suc change) f h =
    let r = use_round-RoundResult level disks (suc change) h in
    let whole = use_round_whole level disks (suc change) h in
    let round = (use_round disks (suc change)).0 in
    let left = (use_round disks (suc change)).1 in
    let avail = (use_round disks (suc change)).2 in
    elim (Bool-cases (ltb 0 left)) [
      | inr used_up ↦
          let gone : left ≡ 0 = ground arith in
          let spread = round_ends level disks (suc change) h (inl gone) in
          let idle : use_rounds fuel round left ≡ (round, left) =
            ap (use_rounds fuel round) gone
            ∙ (rounds_done fuel round ∙ ap (λ k. (round, k)) (sym gone)) in
          elim (Bool-cases avail) [
            | inl again ↦ rw (rounds_more fuel disks (suc change) (omega arith) again, idle) spread
            | inr full ↦ rw (rounds_end fuel disks (suc change) (omega arith) full) spread
          ]
      | inl rest ↦
          let w = whole (ground arith) in
          elim (Bool-cases avail) [
            | inl again ↦
                let later =
                  use_rounds-IsSpread fuel (suc level) round left (omega (arith, w.1 again)) w.0 in
                rw (rounds_more fuel disks (suc change) (omega arith) again) (
                  IsSpread-trans disks round (suc change) left (use_rounds fuel round left) r.0 r.1
                    later)
            | inr full ↦
                rw (rounds_end fuel disks (suc change) (omega arith) full)
                  (round_ends level disks (suc change) h (inr (w.2 full)))
          ]
    ]

new_disks :
    (at : Text → Place) (paths : List Text) (d : AppData)
    → All (IsLevel 0) (disk_infos at paths d).1
unfolding disk_infos
new_disks at [] d = tt
new_disks at (path ∷ paths) d =
    let r = check_or_init_disk (at path) path d in
    let later = new_disks at paths r.0 in
    elim (Bool-cases r.1) [ inl e ↦ rw e (ground arith, later) | inr e ↦ rw e later ]

total_new : (disks : List Disk) → All (IsLevel 0) disks → total_used disks ≡ 0
total_new [] h = refl
total_new (disk ∷ disks) h = ground (arith, h.0, total_new disks h.1)

-- The space that is asked for is spread over the disks: the disks are those found usable; each has had
-- the same number of parts, or one more, save that a disk is never given more than the space that it has
-- free; and what is left of the change is exactly what the space of all disks does not hold.
pub get_increase_srd_info_r_spread :
    (at : Text → Place) (paths : List Text) (change : ℕ) (d : AppData)
    → let found = (disk_infos at paths d).1 in
      let (d', disks, left) = get_increase_srd_info_r at paths change d in
      (map unused disks ≡ map unused found)
      × (left ≡ change - capacity found)
      × (total_used disks ≡ min change (capacity found))
      × (level : ℕ) × All (IsNearLevel level) disks
unfolding get_increase_srd_info_r
get_increase_srd_info_r_spread at paths change d =
    let found = (disk_infos at paths d).1 in
    let new = new_disks at paths d in
    let none_used = total_new found new in
    let spread = use_rounds-IsSpread (suc change) 0 found change (omega arith) new in
    let r = use_rounds (suc change) found change in
    let same = capacity_same found r.0 spread.0 in
    let most = total_used-le spread.3 r.0 spread.4 in
    (
      spread.0,
      ground (arith, none_used, same, most, spread.1, spread.2),
      ground (arith, none_used, same, most, spread.1, spread.2),
      spread.3,
      spread.4,
    )
