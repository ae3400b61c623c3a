-- ===== src/Server/Agree.antt =====
-- Where the application and the enclave stand in an upgrade, over the requests of app/http/ApiHandler.h
-- and the turns of app/process/Process.cpp.
use spacex_storage.Prelude.{
  ℕ, ◌≡◌, refl, sym, ap, ◌∙◌, Bool, true, false, not, ◌&&◌, Option, none, some, List, [], ◌∷◌, pos,
  ◌-ℤ◌, ltb_ℤ, eq_ℤ, Text, All, if◌then◌else◌, inl, inr, Bool-cases, Option-cases, arith,
}
use spacex_storage.Status.{SpacexStatus, is_success, UpgradeStatus, none_yet, process, done}
use spacex_storage.Workload.Defs.{Workload, set_upgrade_status}
use spacex_storage.AppData.Defs.{
  AppData, AppUpgrade, no_upgrade, stop_workreport, in_process, end, complete, exit, is_no_upgrade,
  same_upgrade, set_upgrade_state, set_upgrade_data,
}
use spacex_storage.Server.Defs.{
  System, is_stop_workreport, is_exit, is_complete, is_end, is_in_process, Request, ask_start,
  ask_metadata, ask_complete, ask_stop, Turn, handle, check_turn, end_calls, gen_data, count_down,
  set_status, status_of, ecall_enable_upgrade, ecall_disable_upgrade, ecall_stop_all, upgrade_start,
  upgrade_complete, stop, serve, store_data,
}

-- The status of the enclave that goes with one of the application.
abbrev pub enclave_status : AppUpgrade → UpgradeStatus
enclave_status no_upgrade = none_yet
enclave_status stop_workreport = none_yet
enclave_status in_process = process
enclave_status end = process
enclave_status complete = done
enclave_status exit = done

abbrev pub Agrees : System → Type 0
Agrees s = s.enclave.upgrade_status ≡ enclave_status (status_of s)

-- What is used of `Ecall_gen_upgrade_data`: the enclave's status is changed by a success only.
abbrev pub IsExporter : (ℕ → Workload → Workload × SpacexStatus × Option Text) → Type 0
IsExporter gen =
    (h : ℕ) (w : Workload)
    → (gen h w).0.upgrade_status ≡ (if is_success (gen h w).1 then done else w.upgrade_status)

same_upgrade-eq : (a b : AppUpgrade) → same_upgrade a b ≡ true → a ≡ b
same_upgrade-eq a b e = ground arith

pub set_status-status :
    (disables : Bool) (status : AppUpgrade) (s : System)
    → status_of (set_status disables status s) ≡ status
unfolding set_status set_upgrade_state
set_status-status disables status s = elim (Bool-cases (same_upgrade (status_of s) status)) [
  | inl same ↦ rw same (same_upgrade-eq (status_of s) status same)
  | inr other ↦ rw other refl
]

-- A status other than `no_upgrade` is no business of the enclave.
set_status-enclave :
    (status : AppUpgrade) (s : System)
    → is_no_upgrade status ≡ false
    → (set_status true status s).enclave ≡ s.enclave
unfolding set_status
set_status-enclave status s e = elim (Bool-cases (same_upgrade (status_of s) status)) [
  | inl same ↦ rw same refl
  | inr other ↦ rw (other, e) refl
]

pub set_status-Agrees :
    (status : AppUpgrade) (s : System)
    → is_no_upgrade status ≡ false
    → s.enclave.upgrade_status ≡ enclave_status status
    → Agrees (set_status true status s)
set_status-Agrees status s e h =
    rw (set_status-enclave status s e, set_status-status true status s) h

no_upgrade-Agrees : (s : System) → Agrees s → Agrees (set_status true no_upgrade s)
unfolding set_status set_upgrade_state ecall_disable_upgrade set_upgrade_status
no_upgrade-Agrees s h = elim (Bool-cases (same_upgrade (status_of s) no_upgrade)) [
  | inl same ↦ rw same h
  | inr other ↦ rw other refl
]

not_upgrading :
    (status : AppUpgrade)
    → (not (is_no_upgrade status) && not (is_stop_workreport status)) ≡ false
    → enclave_status status ≡ none_yet
not_upgrading status e = ground arith

pub enable-process :
    (h : ℕ) (w : Workload)
    → is_success (ecall_enable_upgrade h w).1 ≡ true
    → (ecall_enable_upgrade h w).0.upgrade_status ≡ process
unfolding ecall_enable_upgrade set_upgrade_status
enable-process h w e = rw (e, ecall_enable_upgrade) refl

enable-same :
    (h : ℕ) (w : Workload)
    → is_success (ecall_enable_upgrade h w).1 ≡ false
    → (ecall_enable_upgrade h w).0.upgrade_status ≡ w.upgrade_status
unfolding ecall_enable_upgrade
enable-same h w e = rw (e, ecall_enable_upgrade) refl

upgrade_start-Agrees :
    (header : Option ℕ) (worked : Bool) (s : System)
    → Agrees s
    → Agrees (upgrade_start header worked s).0
unfolding upgrade_start
upgrade_start-Agrees header worked s h =
    elim (Bool-cases
      (not (is_no_upgrade (status_of s)) && not (is_stop_workreport (status_of s)))) [
        | inl busy ↦ rw (busy, upgrade_start) h
        | inr free ↦
            let s' = set_status true stop_workreport s in
            let a =
              set_status-Agrees stop_workreport s refl (h ∙ not_upgrading (status_of s) free) in
            elim (Option-cases header) [
              | inl none_there ↦ rw (free, none_there, upgrade_start) a
              | inr (height, there) ↦ elim (Bool-cases worked) [
                | inr failed ↦ rw (free, there, failed, upgrade_start) a
                | inl called ↦
                    let e = ecall_enable_upgrade height s'.enclave in
                    elim (Bool-cases (is_success e.1)) [
                      | inl good ↦
                          rw (free, there, called, good, upgrade_start)
                            (set_status-Agrees in_process (record s' { enclave = e.0 }) refl
                              (enable-process height s'.enclave good))
                      | inr bad ↦
                          rw (free, there, called, bad, upgrade_start)
                            (enable-same height s'.enclave bad ∙ a)
                    ]
              ]
            ]
      ]

pub upgrade_complete-Agrees :
    (result : Option Bool) (s : System) → Agrees s → Agrees (upgrade_complete result true s).0
unfolding upgrade_complete
upgrade_complete-Agrees none s h = h
upgrade_complete-Agrees (some false) s h = no_upgrade-Agrees s h
upgrade_complete-Agrees (some true) s h = elim (Bool-cases (is_complete (status_of s))) [
  | inl ready ↦
      let status : enclave_status (status_of s) ≡ done = ground arith in
      rw ready (set_status-Agrees exit s refl (h ∙ status))
  | inr early ↦ rw early h
]

stop-Agrees : (worked : Bool) (s : System) → Agrees s → Agrees (stop worked s).0
unfolding stop ecall_stop_all set_upgrade_status
stop-Agrees false s h = h
stop-Agrees true s h =
    set_status-Agrees exit (record s { enclave = ecall_stop_all s.enclave }) refl refl

-- A call of the enclave that gives an upgrade up works.
abbrev pub Disables : Request → Type 0
Disables (ask_complete result disables) = disables ≡ true
Disables _ = Unit

serve-Agrees :
    (request : Request) (s : System) → Disables request → Agrees s → Agrees (serve request s).0
unfolding serve
serve-Agrees (ask_start header worked) s d h = upgrade_start-Agrees header worked s h
serve-Agrees ask_metadata s d h = h
serve-Agrees (ask_complete result disables) s d h = rw d (upgrade_complete-Agrees result s h)
serve-Agrees (ask_stop worked) s d h = stop-Agrees worked s h

handle-Agrees :
    (request : Request) (s : System) → Disables request → Agrees s → Agrees (handle request s).0
unfolding handle
handle-Agrees request s d h = elim (Bool-cases (is_exit (status_of s))) [
  | inl leaving ↦ rw leaving h
  | inr serving ↦ rw serving (serve-Agrees request s d h)
]

pub end_calls-Agrees : (turn : Turn) (s : System) → Agrees s → Agrees (end_calls turn s)
unfolding end_calls
end_calls-Agrees turn s h =
    elim (Bool-cases (is_in_process (status_of s) && eq_ℤ turn.ecalls_num (pos 0))) [
      | inl over ↦
          let status : enclave_status (status_of s) ≡ process = ground arith in
          rw over (set_status-Agrees end s refl (h ∙ status))
      | inr waiting ↦ rw waiting h
    ]

pub store_data-status :
    (made : Option Text) (d : AppData) → (store_data made d).upgrade_status ≡ d.upgrade_status
unfolding store_data set_upgrade_data
store_data-status none d = refl
store_data-status (some text) d = refl

pub gen_data-Agrees :
    (turn : Turn) (s : System) → IsExporter turn.gen → Agrees s → Agrees (gen_data turn s)
unfolding gen_data
gen_data-Agrees turn s g h = elim (Bool-cases (is_end (status_of s))) [
  | inr other ↦ rw other h
  | inl ended ↦ elim (Option-cases turn.header) [
    | inl none_there ↦ rw (ended, none_there, gen_data) h
    | inr (height, there) ↦ elim (Bool-cases turn.worked) [
      | inr failed ↦ rw (ended, there, failed, gen_data) h
      | inl called ↦
          let r = turn.gen height s.enclave in
          let s' : System = record s { app = store_data r.2 s.app; enclave = r.0 } in
          let left = g height s.enclave in
          elim (Bool-cases (is_success r.1)) [
            | inl good ↦
                rw (ended, there, called, good, gen_data)
                  (set_status-Agrees complete s' refl
                    (left ∙ ap (λ b. if b then done else s.enclave.upgrade_status) good))
            | inr bad ↦
                rw (ended, there, called, bad, gen_data)
                  (left
                    ∙ (ap (λ b. if b then done else s.enclave.upgrade_status) bad
                        ∙ (h ∙ ap enclave_status (sym (store_data-status r.2 s.app)))))
          ]
    ]
  ]
]

count_down-Agrees :
    (disables : Bool) (s : System) → disables ≡ true → Agrees s → Agrees (count_down disables s)
unfolding count_down
count_down-Agrees disables s d h = elim (Bool-cases (is_no_upgrade (status_of s))) [
  | inl idle ↦ rw idle h
  | inr running ↦ elim (Bool-cases (ltb_ℤ (s.tryout -ℤ pos 1) (pos 0))) [
    | inl late ↦
        rw (d, running, late, count_down)
          (no_upgrade-Agrees (record s { tryout = s.tryout -ℤ pos 1 }) h)
    | inr time ↦ rw (running, time, count_down) h
  ]
]

check_turn-Agrees :
    (turn : Turn) (s : System)
    → IsExporter turn.gen
    → turn.disables ≡ true
    → Agrees s
    → Agrees (check_turn turn s)
unfolding check_turn
check_turn-Agrees turn s g d h =
    count_down-Agrees turn.disables (gen_data turn (end_calls turn s)) d
      (gen_data-Agrees turn (end_calls turn s) g (end_calls-Agrees turn s h))

-- What happens to the application: a request, or a turn of the loop.
pub data Event : Type 0 where
  request : Request → Event
  turn : Turn → Event

abbrev pub after : Event → System → System
after (request q) s = (handle q s).0
after (turn t) s = check_turn t s

abbrev pub run : List Event → System → System
run [] s = s
run (e ∷ es) s = run es (after e s)

-- The enclave's part of a turn is an exporter, and the calls that give an upgrade up work.
abbrev pub Works : Event → Type 0
Works (request q) = Disables q
Works (turn t) = IsExporter t.gen × (t.disables ≡ true)

after-Agrees : (e : Event) (s : System) → Works e → Agrees s → Agrees (after e s)
after-Agrees (request q) s g h = handle-Agrees q s g h
after-Agrees (turn t) s g h = check_turn-Agrees t s g.0 g.1 h

-- When all of these work, the application and the enclave go on agreeing.
pub run-Agrees : (es : List Event) (s : System) → All Works es → Agrees s → Agrees (run es s)
run-Agrees [] s g h = h
run-Agrees (e ∷ es) s g h = run-Agrees es (after e s) g.1 (after-Agrees e s g.0 h)
