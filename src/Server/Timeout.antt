-- ===== src/Server/Timeout.antt =====
-- An upgrade that does not come to its end is given up; the count of the turns that are left for it is
-- renewed only then.
use spacex_storage.Prelude.{
  ℕ, zero, suc, ◌≡◌, refl, sym, ap, ◌∙◌, Bool, true, false, ◌&&◌, Option, some, List, [], ◌∷◌, ◌++◌,
  pos, ◌-ℤ◌, ltb_ℤ, eq_ℤ, eq_of_parts, -ℤ_parts, pos_part, neg_part, length, inl, inr, Bool-cases,
  Option-cases, arith, int_laws,
}
use spacex_storage.Status.{is_success}
use spacex_storage.AppData.Defs.{AppUpgrade, no_upgrade, end, complete, is_no_upgrade}
use spacex_storage.Server.Defs.{
  System, Request, ask_start, ask_complete, Turn, is_end, is_in_process, is_exit, handle, serve,
  upgrade_start, upgrade_complete, stop, check_turn, end_calls, gen_data, count_down, set_status,
  status_of, full_tryout, store_data,
}
use spacex_storage.Server.Agree.{Event, request, turn, run, set_status-status, store_data-status}

set_status-tryout :
    (disables : Bool) (status : AppUpgrade) (s : System)
    → (set_status disables status s).tryout ≡ s.tryout
unfolding set_status
set_status-tryout disables status s = refl

-- A part of a turn that leaves the count alone and gives no upgrade up.
abbrev KeepsOn : System → System → Type 0
KeepsOn s s' = (s'.tryout ≡ s.tryout) × (is_no_upgrade (status_of s') ≡ is_no_upgrade (status_of s))

end_calls-KeepsOn : (t : Turn) (s : System) → KeepsOn s (end_calls t s)
unfolding end_calls
end_calls-KeepsOn t s =
    elim (Bool-cases (is_in_process (status_of s) && eq_ℤ t.ecalls_num (pos 0))) [
      | inr waiting ↦ rw waiting (refl, refl)
      | inl over ↦
          let running : is_no_upgrade (status_of s) ≡ false = ground arith in
          rw over (
            set_status-tryout true end s,
            ap is_no_upgrade (set_status-status true end s) ∙ sym running,
          )
    ]

gen_data-KeepsOn : (t : Turn) (s : System) → KeepsOn s (gen_data t s)
unfolding gen_data
gen_data-KeepsOn t s = elim (Bool-cases (is_end (status_of s))) [
  | inr other ↦ rw other (refl, refl)
  | inl ended ↦ elim (Option-cases t.header) [
    | inl none_there ↦ rw (ended, none_there, gen_data) (refl, refl)
    | inr (height, there) ↦ elim (Bool-cases t.worked) [
      | inr failed ↦ rw (ended, there, failed, gen_data) (refl, refl)
      | inl called ↦
          let r = t.gen height s.enclave in
          let s' : System = record s { app = store_data r.2 s.app; enclave = r.0 } in
          let running : is_no_upgrade (status_of s) ≡ false = ground arith in
          elim (Bool-cases (is_success r.1)) [
            | inl good ↦
                rw (ended, there, called, good, gen_data)
                  (
                    set_status-tryout true complete s',
                    ap is_no_upgrade (set_status-status true complete s') ∙ sym running,
                  )
            | inr bad ↦
                rw (ended, there, called, bad, gen_data)
                  (refl, ap is_no_upgrade (store_data-status r.2 s.app))
          ]
    ]
  ]
]

count_down_idle :
    (disables : Bool) (s : System) → is_no_upgrade (status_of s) ≡ true → count_down disables s ≡ s
unfolding count_down
count_down_idle disables s e = rw e refl

count_down_late :
    (disables : Bool) (s : System)
    → is_no_upgrade (status_of s) ≡ false
    → s.tryout ≡ pos 0
    → (status_of (count_down disables s) ≡ no_upgrade)
      × ((count_down disables s).tryout ≡ full_tryout)
unfolding count_down
count_down_late disables s e z =
    let late : ltb_ℤ (s.tryout -ℤ pos 1) (pos 0) ≡ true =
      ground (arith, z, -ℤ_parts s.tryout (pos 1)) in
    rw (e, late, count_down)
      (set_status-status disables no_upgrade (record s { tryout = s.tryout -ℤ pos 1 }), refl)

count_down_more :
    (disables : Bool) (s : System) (n : ℕ)
    → is_no_upgrade (status_of s) ≡ false
    → s.tryout ≡ pos (suc n)
    → (status_of (count_down disables s) ≡ status_of s) × ((count_down disables s).tryout ≡ pos n)
unfolding count_down
count_down_more disables s n e z =
    let time : ltb_ℤ (s.tryout -ℤ pos 1) (pos 0) ≡ false =
      ground (arith, z, -ℤ_parts s.tryout (pos 1)) in
    let left : s.tryout -ℤ pos 1 ≡ pos n =
      eq_of_parts (s.tryout -ℤ pos 1) (pos n) (omega (int_laws, ap pos_part z, ap neg_part z)) in
    rw (e, time, count_down) (refl, left)

-- The turns alone, one after the other.
abbrev pub turns : List Turn → List Event
turns [] = []
turns (t ∷ ts) = turn t ∷ turns ts

before_count-KeepsOn : (t : Turn) (s : System) → KeepsOn s (gen_data t (end_calls t s))
before_count-KeepsOn t s =
    let a = end_calls-KeepsOn t s in
    let b = gen_data-KeepsOn t (end_calls t s) in (b.0 ∙ a.0, b.1 ∙ a.1)

-- An upgrade that no request completes or gives up is given up by the loop: after as many turns as are
-- left and one, whatever happens in them, the application has no upgrade and the count is full again.
pub upgrade_times_out :
    (n : ℕ) (ts : List Turn) (s : System)
    → length ts ≡ suc n
    → is_no_upgrade (status_of s) ≡ false
    → s.tryout ≡ pos n
    → (status_of (run (turns ts) s) ≡ no_upgrade) × ((run (turns ts) s).tryout ≡ full_tryout)
unfolding check_turn
upgrade_times_out n [] s e r z = absurd (omega arith)
upgrade_times_out zero (t ∷ []) s e r z =
    let k = before_count-KeepsOn t s in
    count_down_late t.disables (gen_data t (end_calls t s)) (k.1 ∙ r) (k.0 ∙ z)
upgrade_times_out zero (t ∷ t' ∷ ts) s e r z = absurd (omega arith)
upgrade_times_out (suc n) (t ∷ ts) s e r z =
    let k = before_count-KeepsOn t s in
    let c = count_down_more t.disables (gen_data t (end_calls t s)) n (k.1 ∙ r) (k.0 ∙ z) in
    upgrade_times_out n ts (check_turn t s) (omega arith) (ap is_no_upgrade c.0 ∙ (k.1 ∙ r)) c.1

handle-tryout : (q : Request) (s : System) → (handle q s).0.tryout ≡ s.tryout
unfolding handle serve upgrade_start upgrade_complete stop set_status
handle-tryout q s = ground arith

idle_turn : (t : Turn) (s : System) → is_no_upgrade (status_of s) ≡ true → check_turn t s ≡ s
unfolding check_turn end_calls gen_data
idle_turn t s e =
    let waiting : (is_in_process (status_of s) && eq_ℤ t.ecalls_num (pos 0)) ≡ false =
      ground arith in
    let early : is_end (status_of s) ≡ false = ground arith in
    let calls : end_calls t s ≡ s = rw (waiting, end_calls) refl in
    let data' : gen_data t s ≡ s = rw (early, gen_data) refl in
    ap (λ x. count_down t.disables (gen_data t x)) calls
    ∙ (ap (count_down t.disables) data' ∙ count_down_idle t.disables s e)

run_idle :
    (ts : List Turn) (es : List Event) (s : System)
    → is_no_upgrade (status_of s) ≡ true
    → run (turns ts ++ es) s ≡ run es s
run_idle [] es s e = refl
run_idle (t ∷ ts) es s e = ap (run (turns ts ++ es)) (idle_turn t s e) ∙ run_idle ts es s e

given_up :
    (disables : Bool) (s : System)
    → is_exit (status_of s) ≡ false
    → status_of (handle (ask_complete (some false) disables) s).0 ≡ no_upgrade
unfolding handle serve upgrade_complete
given_up disables s e = rw e (set_status-status disables no_upgrade s)

-- The next upgrade has only the turns that the one before it has left: when the new version reports that
-- its upgrade has failed, the count of turns is not renewed, however many turns go by without an
-- upgrade before the next request to start one. The application is not to exit.
pub next_upgrade-tryout :
    (disables : Bool) (s : System) (ts : List Turn) (header : Option ℕ) (worked : Bool)
    → is_exit (status_of s) ≡ false
    → (run
        (request (ask_complete (some false) disables)
          ∷ (turns ts ++ request (ask_start header worked) ∷ []))
        s).tryout
      ≡ s.tryout
next_upgrade-tryout disables s ts header worked e =
    let failed = (handle (ask_complete (some false) disables) s).0 in
    let start = request (ask_start header worked) ∷ [] in
    ap (λ x. x.tryout) (run_idle ts start failed (ap is_no_upgrade (given_up disables s e)))
    ∙ (handle-tryout (ask_start header worked) failed
        ∙ handle-tryout (ask_complete (some false) disables) s)
