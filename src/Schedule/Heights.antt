-- ===== src/Schedule/Heights.antt =====
-- The heights at which the loop asks for work reports.
use spacex_storage.Prelude.{
  ℕ, ◌+◌, ◌*◌, ◌%◌, ◌/◌, ◌≤◌, ◌≡◌, refl, Bool, false, Option, none, some, List, [], ◌∷◌, Text, ltb,
  inl, inr, Bool-cases, Option-cases, arith,
}
use spacex_storage.Status.{is_upgrade_none}
use spacex_storage.Workload.Defs.{Workload, report_slot}
use spacex_storage.Report.Generate.{Library, Outside}
use spacex_storage.Report.Once.{next_height, gen_and_upload-IsClosed}
use spacex_storage.Server.Defs.{unless_upgrading}
use spacex_storage.Schedule.Defs.{
  Loop, Round, Ask, first_target, start, slot_start, put_off, ecall_gen_and_upload_work_report,
  ask_report, loop_round, and_later, work_report_loop,
}

-- Each call is for the start of a slot that is not before the target, which a call moves a slot on, and
-- at a height that the enclave does not refuse as expired.
abbrev pub AreInTurn : ℕ → List Ask → Type 0
AreInTurn target [] = Unit
AreInTurn target (ask ∷ asked) =
    (target ≤ ask.height)
    × (ask.height % report_slot ≡ 0)
    × (next_height ask.enclave ≤ ask.height)
    × AreInTurn (ask.height + report_slot) asked

-- The target is the start of a slot, a slot behind the last report at least.
pub record IsReady (l : Loop) : Type 0 where
  pub whole : l.target_block_height % report_slot ≡ 0
  pub behind : l.enclave.report_height + report_slot ≤ l.target_block_height

put_off-same :
    (stopped : Bool) (l : Loop)
    → ((put_off stopped l).0.target_block_height ≡ l.target_block_height)
      × ((put_off stopped l).0.enclave ≡ l.enclave)
unfolding put_off
put_off-same stopped l = ground arith

put_off-IsReady : (stopped : Bool) (l : Loop) → IsReady l → IsReady (put_off stopped l).0
put_off-IsReady stopped l h =
    let same = put_off-same stopped l in
    record { whole = rw same.0 h.whole; behind = rw (same.0, same.1) h.behind }

slot_start-le :
    (number target : ℕ) → target % report_slot ≡ 0 → target ≤ number → target ≤ slot_start number
slot_start-le number target e h = omega arith

slot_start-whole : (number : ℕ) → slot_start number % report_slot ≡ 0
slot_start-whole number = omega arith

next_height-le :
    (w : Workload) (height : ℕ) → w.report_height + report_slot ≤ height → next_height w ≤ height
next_height-le w height h = omega arith

module _ (lib : Library) where
  report_height-le :
      (out : Outside) (hash : Text) (height : ℕ) (w : Workload)
      → w.report_height + report_slot ≤ height
      → (ecall_gen_and_upload_work_report lib out hash height w).0.report_height ≤ height
  unfolding ecall_gen_and_upload_work_report unless_upgrading
  report_height-le out hash height w h = elim (Bool-cases (is_upgrade_none w.upgrade_status)) [
    | inr closed ↦ rw closed (omega arith)
    | inl open_for_work ↦
        let at =
          gen_and_upload-IsClosed lib out hash height false w (λ e. omega arith)
            (next_height-le w height h) in
        rw (open_for_work, at.reported_at) (omega arith)
  ]

  -- The call of a round, and the loop after it.
  abbrev GoesOn : Loop → Loop → Option Ask → Type 0
  GoesOn l l' none = IsReady l' × (l.target_block_height ≤ l'.target_block_height)
  GoesOn l l' (some ask) =
      IsReady l'
      × (l'.target_block_height ≡ ask.height + report_slot)
      × (l.target_block_height ≤ ask.height)
      × (ask.height % report_slot ≡ 0)
      × (next_height ask.enclave ≤ ask.height)

  asked_GoesOn :
      (r : Round) (hash : Text) (height : ℕ) (l : Loop)
      → IsReady l
      → l.target_block_height ≤ height
      → height % report_slot ≡ 0
      → r.hash ≡ some hash
      → GoesOn l (ask_report lib r height l).0 (ask_report lib r height l).1
  unfolding ask_report
  asked_GoesOn r hash height l h le whole there =
      let passes = next_height-le l.enclave height (omega (arith, h.behind)) in
      let low = report_height-le r.out hash height l.enclave (omega (arith, h.behind)) in
      let next : height + report_slot ≡ (height / report_slot + 1) * report_slot = omega arith in
      elim (Bool-cases (r.worked)) [
        | inl called ↦
            rw (there, called, ask_report)
              (record { whole = omega arith; behind = omega (arith, low) }, refl, le, whole, passes)
        | inr failed ↦
            rw (there, failed, ask_report)
              (
                record { whole = omega arith; behind = omega (arith, h.behind) },
                refl,
                le,
                whole,
                passes,
              )
      ]

  ask_report-GoesOn :
      (r : Round) (number : ℕ) (l : Loop)
      → IsReady l
      → l.target_block_height ≤ number
      → GoesOn l
          (ask_report lib r (slot_start number) l).0
          (ask_report lib r (slot_start number) l).1
  unfolding ask_report
  ask_report-GoesOn r number l h le = elim (Option-cases (r.hash)) [
    | inl unknown ↦ rw (unknown, ask_report) (h, omega arith)
    | inr (hash, there) ↦
        asked_GoesOn r hash (slot_start number) l h
          (slot_start-le number l.target_block_height h.whole le) (slot_start-whole number) there
  ]

  GoesOn-from :
      (l m l' : Loop) (asked : Option Ask)
      → m.target_block_height ≡ l.target_block_height
      → GoesOn m l' asked
      → GoesOn l l' asked
  GoesOn-from l m l' none e h = (h.0, omega (arith, e, h.1))
  GoesOn-from l m l' (some ask) e h = (h.0, h.1, omega (arith, e, h.2), h.3, h.4)

  loop_round-GoesOn :
      (r : Round) (l : Loop) → IsReady l → GoesOn l (loop_round lib r l).0 (loop_round lib r l).1
  unfolding loop_round ask_report
  loop_round-GoesOn r l h = elim (Bool-cases (r.exits)) [
    | inl ends ↦ rw (ends, loop_round) (h, omega arith)
    | inr runs ↦ elim (Option-cases (r.header)) [
      | inl unknown ↦ rw (runs, unknown, loop_round) (h, omega arith)
      | inr (number, there) ↦ elim (Bool-cases (ltb number l.target_block_height)) [
        | inl early ↦ rw (runs, there, early, loop_round) (h, omega arith)
        | inr due ↦
            let m = (put_off r.stopped l).0 in
            let same = put_off-same r.stopped l in
            let ready = put_off-IsReady r.stopped l h in
            let asked = ask_report-GoesOn r number m ready (ground (arith, same.0)) in
            elim (Bool-cases (put_off r.stopped l).1) [
              | inl later ↦ rw (runs, there, due, later, loop_round) (ready, omega (arith, same.0))
              | inr now ↦ elim (Bool-cases (r.exits_waiting)) [
                | inl ends ↦
                    rw (runs, there, due, now, ends, loop_round) (ready, omega (arith, same.0))
                | inr waits ↦
                    rw (runs, there, due, now, waits, loop_round)
                      (GoesOn-from l m (ask_report lib r (slot_start number) m).0
                        (ask_report lib r (slot_start number) m).1 same.0 asked)
              ]
            ]
      ]
    ]
  ]

  AreInTurn-from :
      (target target' : ℕ) (asked : List Ask)
      → target ≤ target'
      → AreInTurn target' asked
      → AreInTurn target asked
  AreInTurn-from target target' [] le h = tt
  AreInTurn-from target target' (ask ∷ asked) le h = (omega (arith, h.0), h.1, h.2, h.3)

  -- The call of a round comes before those in turn after it.
  and_later-AreInTurn :
      (l l' : Loop) (asked : Option Ask) (later : List Ask)
      → GoesOn l l' asked
      → AreInTurn l'.target_block_height later
      → AreInTurn l.target_block_height (and_later asked later)
  and_later-AreInTurn l l' none later h t =
      AreInTurn-from l.target_block_height l'.target_block_height later h.1 t
  and_later-AreInTurn l l' (some ask) later h t = (h.2, h.3, h.4, rw⁻¹ (h.1) t)

  GoesOn-IsReady : (l l' : Loop) (asked : Option Ask) → GoesOn l l' asked → IsReady l'
  GoesOn-IsReady l l' none h = h.0
  GoesOn-IsReady l l' (some ask) h = h.0

  loop-AreInTurn :
      (rs : List Round) (l : Loop)
      → IsReady l
      → AreInTurn l.target_block_height (work_report_loop lib rs l).1
  unfolding work_report_loop
  loop-AreInTurn [] l h = tt
  loop-AreInTurn (r ∷ rs) l h =
      let (l', asked, goes_on) = loop_round lib r l in
      let round = loop_round-GoesOn r l h in
      let rest = loop-AreInTurn rs l' (GoesOn-IsReady l l' asked round) in
      elim (Bool-cases goes_on) [
        | inl more ↦
            rw more (and_later-AreInTurn l l' asked (work_report_loop lib rs l').1 round rest)
        | inr last ↦ rw last (and_later-AreInTurn l l' asked [] round tt)
      ]

first_target-IsReady :
    (header : Option ℕ) (w : Workload)
    → w.report_height + report_slot ≤ first_target header
    → IsReady (start header w)
unfolding first_target
first_target-IsReady none w h = record { whole = refl; behind = h }
first_target-IsReady (some number) w h = record { whole = omega arith; behind = h }

-- Over any rounds of the loop the enclave is asked for a report at the start of a slot, at each slot once at
-- most and in their order, from the slot on that follows the block known at the start; and at each call the
-- height is one that the enclave does not refuse as expired, whatever the calls before it have come
-- to. The enclave's last report is a slot behind the first target at least.
pub work_report_loop-AreInTurn :
    (lib : Library) (rs : List Round) (header : Option ℕ) (w : Workload)
    → w.report_height + report_slot ≤ first_target header
    → AreInTurn (first_target header) (work_report_loop lib rs (start header w)).1
work_report_loop-AreInTurn lib rs header w h =
    loop-AreInTurn lib rs (start header w) (first_target-IsReady header w h)
