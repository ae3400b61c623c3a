-- ===== src/Disks/Tasks.antt =====
-- The tasks of a turn are the parts of space that the disks have been given.
use spacex_storage.Prelude.{
  ℕ, zero, suc, ◌+◌, ◌-◌, ◌≤◌, ◌<◌, ◌≡◌, refl, ◌∙◌, min, true, false, List, [], ◌∷◌, ◌++◌, ℤ, pos,
  Text, text_eq, length, length-append, ltb, ◌==◌, if◌then◌else◌, inl, inr, Bool-cases, ==_iff,
  arith,
}
use spacex_storage.Status.{success, srd_number_exceed}
use spacex_storage.AppData.Defs.{AppData}
use spacex_storage.Disks.Defs.{
  Disk, Place, disk_infos, get_increase_srd_info_r, get_increase_srd_info, in_use,
}
use spacex_storage.Disks.Fair.{total_used, capacity, get_increase_srd_info_r_spread}
use spacex_storage.Disks.Change.{Answer, task_round, task_rounds, count_successes, srd_change}

-- How often a name stands in the list.
abbrev pub count : Text → List Text → ℕ
count u [] = 0
count u (x ∷ xs) = if text_eq u x then suc (count u xs) else count u xs

-- The space that the disks with this name have been given.
abbrev pub given : Text → List Disk → ℕ
given u [] = 0
given u (disk ∷ disks) = if text_eq u disk.uuid then disk.used + given u disks else given u disks

count-append : (u : Text) (xs ys : List Text) → count u (xs ++ ys) ≡ count u xs + count u ys
count-append u [] ys = omega arith
count-append u (x ∷ xs) ys = ground (arith, count-append u xs ys)

task_round-count :
    (u : Text) (disks : List Disk)
    → count u (task_round disks).0 + given u (task_round disks).1 ≡ given u disks
unfolding task_round
task_round-count u [] = refl
task_round-count u (disk ∷ disks) = ground (arith, task_round-count u disks)

task_round-total :
    (disks : List Disk)
    → (length (task_round disks).0 + total_used (task_round disks).1 ≡ total_used disks)
      × (length (task_round disks).0 ≡ 0 → total_used disks ≡ 0)
unfolding task_round
task_round-total [] = (refl, λ e. refl)
task_round-total (disk ∷ disks) =
    let r = task_round-total disks in
    elim (Bool-cases (ltb 0 disk.used)) [
      | inl more ↦ rw more (ground (arith, r.0), λ e. omega arith)
      | inr done ↦ rw done (ground (arith, r.0), λ e. ground (arith, r.1 e))
    ]

given-le : (u : Text) (disks : List Disk) → given u disks ≤ total_used disks
given-le u [] = omega arith
given-le u (disk ∷ disks) = ground (arith, given-le u disks)

rounds_end :
    (fuel task : ℕ) (disks : List Disk) → ltb 0 task ≡ false → task_rounds fuel task disks ≡ []
unfolding task_rounds
rounds_end zero task disks e = refl
rounds_end (suc fuel) task disks e = rw (e, task_rounds) refl

rounds_more :
    (fuel task : ℕ) (disks : List Disk)
    → ltb 0 task ≡ true
    → (length (task_round disks).0 == 0) ≡ false
    → task_rounds (suc fuel) task disks
      ≡ (task_round disks).0
        ++ task_rounds fuel (task - length (task_round disks).0) (task_round disks).1
unfolding task_rounds
rounds_more fuel task disks e f = rw (e, f, task_rounds) refl

-- Every part that a disk has been given becomes a task.
task_rounds_all :
    (fuel : ℕ) (disks : List Disk) (u : Text)
    → total_used disks ≤ fuel
    → (count u (task_rounds fuel (total_used disks) disks) ≡ given u disks)
      × (length (task_rounds fuel (total_used disks) disks) ≡ total_used disks)
task_rounds_all zero disks u h =
    rw (rounds_end zero (total_used disks) disks (ground arith))
      (omega (arith, given-le u disks), omega arith)
task_rounds_all (suc fuel) disks u h = elim (Bool-cases (ltb 0 (total_used disks))) [
  | inr done ↦
      rw (rounds_end (suc fuel) (total_used disks) disks done)
        (ground (arith, given-le u disks), ground arith)
  | inl more ↦
      let tasks = (task_round disks).0 in
      let disks' = (task_round disks).1 in
      let t = task_round-total disks in
      let some_task : (length tasks == 0) ≡ false = ground (arith, t.1) in
      let left : total_used disks - length tasks ≡ total_used disks' = omega (arith, t.0) in
      let later = task_rounds_all fuel disks' u (ground (arith, t.0)) in
      let rest = task_rounds fuel (total_used disks') disks' in
      rw (rounds_more fuel (total_used disks) disks more some_task, left)
        (
          omega (arith, count-append u tasks rest, task_round-count u disks, later.0),
          omega (arith, length-append tasks rest, t.0, later.1),
        )
]

in_use-total : (disks : List Disk) → total_used (in_use disks) ≡ total_used disks
unfolding in_use
in_use-total [] = refl
in_use-total (disk ∷ disks) = ground (arith, in_use-total disks)

in_use-given : (u : Text) (disks : List Disk) → given u (in_use disks) ≡ given u disks
unfolding in_use
in_use-given u [] = refl
in_use-given u (disk ∷ disks) = ground (arith, in_use-given u disks)

module _ {E : Type 0} (change_task : ℤ → E → E) (decrease : ℕ → E → E) where
  -- The space that a turn can do is done in tasks: every disk gets as many as it has been given parts,
  -- together as many as are asked for and the disks hold. The status says whether the disks hold all
  -- that is asked for. What the tasks that do not succeed leave goes back to the enclave as a task; when
  -- none fails, the enclave is as before. The change is positive.
  pub srd_change_tasks :
      (at : Text → Place) (paths : List Text) (answer : ℕ → Answer) (change : ℕ) (d : AppData)
      (e : E)
      → 0 < change
      → let space = capacity (disk_infos at paths d).1 in
        let disks = (get_increase_srd_info_r at paths change d).1 in
        let (d', e', tasks, status) =
          srd_change change_task decrease at paths answer (pos change) d e in
        let num = count_successes answer 0 tasks in
        ((u : Text) → count u tasks ≡ given u disks)
        × (length tasks ≡ min change space)
        × (status ≡ (if ltb space change then srd_number_exceed else success))
        × (e' ≡ (if ltb num (length tasks) then change_task (pos (length tasks - num)) e else e))
  unfolding srd_change get_increase_srd_info
  srd_change_tasks at paths answer change d e p =
      let space = capacity (disk_infos at paths d).1 in
      let disks = (get_increase_srd_info_r at paths change d).1 in
      let left = (get_increase_srd_info_r at paths change d).2 in
      let spread = get_increase_srd_info_r_spread at paths change d in
      let more : (change == 0) ≡ false = ground arith in
      let increase : change - left ≡ total_used (in_use disks) =
        omega (arith, in_use-total disks, spread.1, spread.2) in
      let all =
        λ (u : Text). task_rounds_all (total_used (in_use disks)) (in_use disks) u (omega arith) in
      elim (Bool-cases (total_used (in_use disks) == 0)) [
        | inl idle ↦
            let full : ltb space change ≡ true = ground (arith, spread.2, in_use-total disks) in
            rw (more, increase, idle, full, srd_change)
              (
                (λ u. omega (
                  arith,
                  given-le u disks,
                  in_use-total disks,
                  (==_iff (total_used (in_use disks)) 0).0 idle,
                )),
                ground (arith, spread.2, in_use-total disks),
                refl,
                refl,
              )
        | inr busy ↦
            rw (more, increase, busy, srd_change)
              (
                (λ u. (all u).0 ∙ in_use-given u disks),
                omega (arith, (all []).1, in_use-total disks, spread.2),
                ground (arith, spread.1),
                rw ((all []).1) refl,
              )
      ]
