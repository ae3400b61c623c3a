-- ===== src/Server/Guarded.antt =====
-- What is left of the agreement on the upgrade (Server/Agree) when a call that tells the enclave of an
-- upgrade that is given up fails: `EnclaveData::set_upgrade_status` does not look at its result.
use spacex_storage.Prelude.{
  ◌≡◌, refl, ap, Bool, true, false, not, ◌&&◌, ◌||◌, Option, none, some, List, [], ◌∷◌, ℕ, pos,
  ◌-ℤ◌, ltb_ℤ, All, ◌⊎◌, inl, inr, Bool-cases, Option-cases, arith,
}
use spacex_storage.Status.{is_success}
use spacex_storage.Workload.Defs.{set_upgrade_status}
use spacex_storage.AppData.Defs.{
  AppUpgrade, no_upgrade, stop_workreport, in_process, exit, is_no_upgrade,
}
use spacex_storage.Server.Defs.{
  System, is_stop_workreport, is_exit, is_complete, is_end, is_in_process, Request, ask_start,
  ask_metadata, ask_complete, ask_stop, Turn, handle, check_turn, end_calls, gen_data, count_down,
  set_status, status_of, ecall_enable_upgrade, ecall_stop_all, upgrade_start, upgrade_complete,
  stop, serve,
}
use spacex_storage.Server.Agree.{
  Agrees, IsExporter, Event, request, turn, after, run, Works, run-Agrees, set_status-status,
  set_status-Agrees, enable-process, upgrade_complete-Agrees, end_calls-Agrees, gen_data-Agrees,
}

-- No upgrade goes on, or it has only stopped the reports so far.
abbrev pub is_idle : AppUpgrade → Bool
is_idle status = is_no_upgrade status || is_stop_workreport status

abbrev Guarded : System → Type 0
Guarded s = Agrees s ⊎ (is_idle (status_of s) ≡ true)

upgrade_start-Guarded :
    (header : Option ℕ) (worked : Bool) (s : System)
    → Guarded s
    → Guarded (upgrade_start header worked s).0
unfolding upgrade_start
upgrade_start-Guarded header worked s h =
    elim (Bool-cases
      (not (is_no_upgrade (status_of s)) && not (is_stop_workreport (status_of s)))) [
        | inl busy ↦ rw (busy, upgrade_start) h
        | inr free ↦
            let s' = set_status true stop_workreport s in
            let idle : is_idle (status_of s') ≡ true =
              ap is_idle (set_status-status true stop_workreport s) in
            elim (Option-cases header) [
              | inl none_there ↦ rw (free, none_there, upgrade_start) (inr idle)
              | inr (height, there) ↦ elim (Bool-cases worked) [
                | inr failed ↦ rw (free, there, failed, upgrade_start) (inr idle)
                | inl called ↦
                    let e = ecall_enable_upgrade height s'.enclave in
                    elim (Bool-cases (is_success e.1)) [
                      | inl good ↦
                          rw (free, there, called, good, upgrade_start)
                            (inl (
                              set_status-Agrees in_process (record s' { enclave = e.0 }) refl
                                (enable-process height s'.enclave good)))
                      | inr bad ↦ rw (free, there, called, bad, upgrade_start) (inr idle)
                    ]
              ]
            ]
      ]

upgrade_complete-Guarded :
    (result : Option Bool) (disables : Bool) (s : System)
    → Guarded s
    → Guarded (upgrade_complete result disables s).0
unfolding upgrade_complete
upgrade_complete-Guarded none disables s h = h
upgrade_complete-Guarded (some false) disables s h =
    inr (ap is_idle (set_status-status disables no_upgrade s))
upgrade_complete-Guarded (some true) disables s (inl h) =
    inl (upgrade_complete-Agrees (some true) s h)
upgrade_complete-Guarded (some true) disables s (inr idle) =
    let early : is_complete (status_of s) ≡ false = ground arith in rw early (inr idle)

stop-Guarded : (worked : Bool) (s : System) → Guarded s → Guarded (stop worked s).0
unfolding stop ecall_stop_all set_upgrade_status
stop-Guarded false s h = h
stop-Guarded true s h =
    inl (set_status-Agrees exit (record s { enclave = ecall_stop_all s.enclave }) refl refl)

serve-Guarded : (q : Request) (s : System) → Guarded s → Guarded (serve q s).0
unfolding serve
serve-Guarded (ask_start header worked) s h = upgrade_start-Guarded header worked s h
serve-Guarded ask_metadata s h = h
serve-Guarded (ask_complete result disables) s h = upgrade_complete-Guarded result disables s h
serve-Guarded (ask_stop worked) s h = stop-Guarded worked s h

handle-Guarded : (q : Request) (s : System) → Guarded s → Guarded (handle q s).0
unfolding handle
handle-Guarded q s h = elim (Bool-cases (is_exit (status_of s))) [
  | inl leaving ↦ rw leaving h
  | inr serving ↦ rw serving (serve-Guarded q s h)
]

end_calls-Guarded : (t : Turn) (s : System) → Guarded s → Guarded (end_calls t s)
unfolding end_calls
end_calls-Guarded t s (inl h) = inl (end_calls-Agrees t s h)
end_calls-Guarded t s (inr idle) =
    let other : is_in_process (status_of s) ≡ false = ground arith in rw other (inr idle)

gen_data-Guarded : (t : Turn) (s : System) → IsExporter t.gen → Guarded s → Guarded (gen_data t s)
unfolding gen_data
gen_data-Guarded t s g (inl h) = inl (gen_data-Agrees t s g h)
gen_data-Guarded t s g (inr idle) =
    let other : is_end (status_of s) ≡ false = ground arith in rw other (inr idle)

count_down-Guarded : (disables : Bool) (s : System) → Guarded s → Guarded (count_down disables s)
unfolding count_down
count_down-Guarded disables s h = elim (Bool-cases (is_no_upgrade (status_of s))) [
  | inl over ↦ rw over h
  | inr running ↦ elim (Bool-cases (ltb_ℤ (s.tryout -ℤ pos 1) (pos 0))) [
    | inl late ↦
        rw (running, late, count_down)
          (inr (
            ap is_idle
              (set_status-status disables no_upgrade (record s { tryout = s.tryout -ℤ pos 1 }))))
    | inr time ↦ rw (running, time, count_down) h
  ]
]

-- The enclave's part of a turn is an exporter.
abbrev pub Exports : Event → Type 0
Exports (request q) = Unit
Exports (turn t) = IsExporter t.gen

after-Guarded : (e : Event) (s : System) → Exports e → Guarded s → Guarded (after e s)
unfolding check_turn
after-Guarded (request q) s g h = handle-Guarded q s h
after-Guarded (turn t) s g h =
    count_down-Guarded t.disables (gen_data t (end_calls t s))
      (gen_data-Guarded t (end_calls t s) g (end_calls-Guarded t s h))

run-Guarded : (es : List Event) (s : System) → All Exports es → Guarded s → Guarded (run es s)
run-Guarded [] s g h = h
run-Guarded (e ∷ es) s g h = run-Guarded es (after e s) g.1 (after-Guarded e s g.0 h)

-- Whether the call that gives an upgrade up would fail in an event.
unfoldable pub fails_to_disable : Event → Bool
fails_to_disable (request (ask_complete result disables)) = not disables
fails_to_disable (request _) = false
fails_to_disable (turn t) = not t.disables

unfoldable pub some_fail : List Event → Bool
some_fail [] = false
some_fail (e ∷ es) = fails_to_disable e || some_fail es

works : (e : Event) → Exports e → fails_to_disable e ≡ false → Works e
unfolding fails_to_disable
works (request (ask_start header worked)) g h = tt
works (request ask_metadata) g h = tt
works (request (ask_complete result disables)) g h = ground arith
works (request (ask_stop worked)) g h = tt
works (turn t) g h = (g, ground arith)

when_none_fails : (es : List Event) → All Exports es → some_fail es ≡ false → All Works es
unfolding some_fail
when_none_fails [] g h = tt
when_none_fails (e ∷ es) g h = (works e g.0 (ground arith), when_none_fails es g.1 (ground arith))

-- Over any requests and turns that begin where the application and the enclave agree on where the upgrade
-- stands, they agree again: the enclave is open for work exactly while the application has no upgrade or
-- has only stopped the work reports, it is closed while the application waits for its calls to end, and it
-- has finished exactly when the upgrade data are ready or the application is to exit. The one
-- exception is that the application has no upgrade or has only stopped the work reports, and
-- that a call of SGX which tells the enclave of an upgrade that is given up fails in one of the requests or turns. In each turn
-- the enclave's status is changed by a generation that succeeds only.
pub run-Agrees_or_idle :
    (es : List Event) (s : System)
    → All Exports es
    → Agrees s
    → Agrees (run es s) ⊎ ((is_idle (status_of (run es s)) ≡ true) × (some_fail es ≡ true))
run-Agrees_or_idle es s g h = elim (Bool-cases (some_fail es)) [
  | inr fine ↦ inl (run-Agrees es s (when_none_fails es g fine) h)
  | inl failed ↦ elim (run-Guarded es s g (inl h)) [
    | inl agree ↦ inl agree
    | inr idle ↦ inr (idle, failed)
  ]
]
