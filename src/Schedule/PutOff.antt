-- ===== src/Schedule/PutOff.antt =====
-- The loop puts a work report off for an upgrade only so long.
use spacex_storage.Prelude.{
  ℕ, zero, suc, ◌≤◌, ◌≡◌, refl, ap, Bool, true, false, Option, none, some, List, [], ◌∷◌, pos, ◌-ℤ◌,
  Text, All, length, ltb, is_empty, inl, inr, Bool-cases, arith, int_laws, -ℤ_parts, eq_of_parts,
  pos_part, neg_part,
}
use spacex_storage.Report.Generate.{Library}
use spacex_storage.Schedule.Defs.{
  Loop, Round, Ask, put_off, ask_report, loop_round, and_later, work_report_loop,
}

-- A round in which nothing but a stop for an upgrade keeps the loop from asking.
pub record IsDue (target : ℕ) (r : Round) : Type 0 where
  pub runs : r.exits ≡ false
  pub number : ℕ
  pub header : r.header ≡ some number
  pub reached : target ≤ number
  pub waits : r.exits_waiting ≡ false
  pub known : Text
  pub hash : r.hash ≡ some known
  pub stays : r.exits_after ≡ false

put_off_zero : (stopped : Bool) (l : Loop) → l.stop_tryout ≡ pos 0 → (put_off stopped l).1 ≡ false
unfolding put_off
put_off_zero stopped l z = ground (arith, z, -ℤ_parts l.stop_tryout (pos 1))

put_off_later :
    (stopped : Bool) (l : Loop) (n : ℕ)
    → l.stop_tryout ≡ pos (suc n)
    → (put_off stopped l).1 ≡ true
    → ((put_off stopped l).0.stop_tryout ≡ pos n)
      × ((put_off stopped l).0.target_block_height ≡ l.target_block_height)
unfolding put_off
put_off_later stopped l n z e =
    let left : l.stop_tryout -ℤ pos 1 ≡ pos n =
      eq_of_parts (l.stop_tryout -ℤ pos 1) (pos n)
        (omega (int_laws, ap pos_part z, ap neg_part z)) in
    ground (arith, left)

asked_first :
    (asked : Option Ask) (later : List Ask)
    → is_empty (and_later asked []) ≡ false
    → is_empty (and_later asked later) ≡ false
asked_first none later e = cc
asked_first (some ask) later e = refl

module _ (lib : Library) where
  -- A round that is due asks, or is put off.
  due_now :
      (r : Round) (l : Loop)
      → IsDue l.target_block_height r
      → (put_off r.stopped l).1 ≡ false
      → is_empty (and_later (loop_round lib r l).1 []) ≡ false
  unfolding loop_round ask_report
  due_now r l d now =
      let due : ltb d.number l.target_block_height ≡ false = ground (arith, d.reached) in
      rw (d.runs, d.header, due, now, d.waits, d.hash, loop_round) refl

  due_later :
      (r : Round) (l : Loop)
      → IsDue l.target_block_height r
      → (put_off r.stopped l).1 ≡ true
      → loop_round lib r l ≡ ((put_off r.stopped l).0, none, true)
  unfolding loop_round
  due_later r l d later =
      let due : ltb d.number l.target_block_height ≡ false = ground (arith, d.reached) in
      rw (d.runs, d.header, due, later, d.stays, loop_round) refl

  asks_now :
      (r : Round) (rs : List Round) (l : Loop)
      → IsDue l.target_block_height r
      → (put_off r.stopped l).1 ≡ false
      → is_empty (work_report_loop lib (r ∷ rs) l).1 ≡ false
  unfolding work_report_loop
  asks_now r rs l d now =
      let (l', asked, goes_on) = loop_round lib r l in
      let first = due_now r l d now in
      elim (Bool-cases goes_on) [
        | inl more ↦ rw more (asked_first asked (work_report_loop lib rs l').1 first)
        | inr last ↦ rw last first
      ]

  -- A loop that is due asks for a report in as many rounds as its tryout says and one, however long the
  -- reports are stopped for an upgrade. In each of these rounds the chain gives a block that has
  -- reached the target and the hash of its slot's first block, and the process does not exit.
  pub work_report_loop_asks :
      (n : ℕ) (rs : List Round) (l : Loop)
      → length rs ≡ suc n
      → l.stop_tryout ≡ pos n
      → All (IsDue l.target_block_height) rs
      → is_empty (work_report_loop lib rs l).1 ≡ false
  unfolding work_report_loop
  work_report_loop_asks n [] l e z d = absurd (omega arith)
  work_report_loop_asks zero (r ∷ rs) l e z d = asks_now r rs l d.0 (put_off_zero r.stopped l z)
  work_report_loop_asks (suc n) (r ∷ rs) l e z d = elim (Bool-cases (put_off r.stopped l).1) [
    | inr now ↦ asks_now r rs l d.0 now
    | inl later ↦
        let l' = (put_off r.stopped l).0 in
        let kept = put_off_later r.stopped l n z later in
        rw (due_later r l d.0 later)
          (work_report_loop_asks n rs l' (omega (arith, e)) kept.0 (rw (kept.1) d.1))
  ]
