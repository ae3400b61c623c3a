-- ===== src/Server/Gate.antt =====
-- What the requests promise: they are let through as the enclave takes them, they ask for no more than
-- there is, and a file that is deleted is forgotten.
use mathlib.Core.Path.{subst}
use spacex_storage.Prelude.{
  false, max_ℤ, Option-cases, ℕ, ◌≡◌, ◌≢◌, refl, sym, ap, ◌∙◌, Bool, true, Option, none, some, List,
  [], ◌∷◌, ℤ, pos, ◌+ℤ◌, ◌-ℤ◌, ◌≤ℤ◌, ltb_ℤ, leb_ℤ, eq_ℤ, min_ℤ, +ℤ_parts, -ℤ_parts, eq_of_parts,
  Text, text_eq_refl, if◌then◌else◌, ◌⊎◌, inl, inr, Bool-cases, arith,
}
use spacex_storage.Status.{SpacexStatus, success, is_upgrade_none, upgrade_is_upgrading}
use spacex_storage.Workload.Defs.{Workload}
use spacex_storage.SrdTask.Defs.{SrdState, change_srd_task}
use spacex_storage.Storage.Defs.{SealEnd, storage_delete_file, storage_seal_file_start}
use spacex_storage.AppData.Maps.{lookup_key, erase_key, lookup-erase_key}
use spacex_storage.AppData.Defs.{
  AppData, erase_everywhere, find_type, find_file_type, del_file_info, del_pending_file_size,
}
use spacex_storage.Server.Defs.{System, status_of, unless_upgrading}
use spacex_storage.Server.Agree.{Agrees, enclave_status}
use spacex_storage.Server.Requests.{
  Route, srd_change, storage_delete, storage_seal_start, refusal, ecall_change_srd_task,
  ecall_seal_file_start, srd_change_request, srd_change_code, Figures, within, change_asked,
  delete_code, ecall_delete_file, storage_delete_request,
}

-- While the application and the enclave agree on the upgrade, `/srd/change`, `/storage/delete` and
-- `/storage/seal_start` are let through exactly when the enclave takes the calls behind them: either all
-- three are let through and `ecall_change_srd_task`, `ecall_delete_file` and `ecall_seal_file_start` do
-- their work, or all three are refused with the code 501, and the calls would change nothing
-- and say that an upgrade goes on.
pub refusal-entries :
    (sha256 : List ℕ → List ℕ) (s : System) (change : ℤ) (persisted : SpacexStatus) (st : SrdState)
    (cid root root_b58 : Text) (o : SealEnd)
    → Agrees s
    → let refused = λ (route : Route). refusal route (status_of s) in
      let w = s.enclave in
      let changed = ecall_change_srd_task change persisted w st in
      let removed = ecall_delete_file sha256 cid o w in
      let started = ecall_seal_file_start root root_b58 w in
      ((refused srd_change ≡ none)
        × (refused storage_delete ≡ none)
        × (refused storage_seal_start ≡ none)
        × (changed ≡ change_srd_task change persisted st)
        × (removed ≡ storage_delete_file sha256 cid o w)
        × (started ≡ storage_seal_file_start root root_b58 w))
      ⊎ ((refused srd_change ≡ some 501)
          × (refused storage_delete ≡ some 501)
          × (refused storage_seal_start ≡ some 501)
          × (changed ≡ (st, pos 0, upgrade_is_upgrading))
          × (removed ≡ (w, upgrade_is_upgrading))
          × (started ≡ (w, upgrade_is_upgrading)))
unfolding unless_upgrading refusal ecall_change_srd_task ecall_delete_file ecall_seal_file_start
refusal-entries sha256 s change persisted st cid root root_b58 o a =
    elim (Bool-cases (is_upgrade_none (enclave_status (status_of s)))) [
      | inl open_for_work ↦
          let here : is_upgrade_none s.enclave.upgrade_status ≡ true =
            ap is_upgrade_none a ∙ open_for_work in
          inl (ground arith, ground arith, ground arith, rw here refl, rw here refl, rw here refl)
      | inr closed ↦
          let here : is_upgrade_none s.enclave.upgrade_status ≡ false =
            ap is_upgrade_none a ∙ closed in
          inr (ground arith, ground arith, ground arith, rw here refl, rw here refl, rw here refl)
    ]

-- A change of the sealed space that is asked for `change`: it has its sign, goes no further than that and
-- than the space that is left or there, and as far as these let it.
abbrev pub IsWithin : ℤ → ℤ → ℤ → ℤ → Type 0
IsWithin change left there asked =
    ((pos 1 ≤ℤ asked) × (asked ≤ℤ change) × (asked ≤ℤ left) × ((asked ≡ change) ⊎ (asked ≡ left)))
    ⊎ ((asked +ℤ pos 1 ≤ℤ pos 0)
        × (change ≤ℤ asked)
        × (pos 0 ≤ℤ asked +ℤ there)
        × ((asked ≡ change) ⊎ (asked +ℤ there ≡ pos 0)))

-- There is nothing to change.
abbrev pub IsIdle : ℤ → ℤ → ℤ → Type 0
IsIdle change left there =
    (change ≡ pos 0)
    ⊎ (((pos 1 ≤ℤ change) × (left ≤ℤ pos 0)) ⊎ ((change +ℤ pos 1 ≤ℤ pos 0) × (there ≤ℤ pos 0)))

abbrev Asks : ℤ → ℤ → ℤ → Option ℤ → Type 0
Asks change left there none = IsIdle change left there
Asks change left there (some asked) = IsWithin change left there asked

increase-Asks :
    (change left there : ℤ)
    → pos 1 ≤ℤ change
    → Asks change left there
        (if leb_ℤ (min_ℤ change left) (pos 0) then none else some (min_ℤ change left))
increase-Asks change left there more = elim (Bool-cases (ltb_ℤ left change)) [
  | inl over ↦ elim (Bool-cases (leb_ℤ left (pos 0))) [
    | inl full ↦ rw (over, full) (inr (inl (more, ground arith)))
    | inr room ↦ rw (over, room) (inl (ground arith, ground arith, ground arith, inr refl))
  ]
  | inr fits ↦
      let some_change : leb_ℤ change (pos 0) ≡ false = ground arith in
      rw (fits, some_change) (inl (more, ground arith, ground arith, inl refl))
]

decrease-Asks :
    (change left there : ℤ)
    → change +ℤ pos 1 ≤ℤ pos 0
    → Asks change left there (
        if leb_ℤ (min_ℤ (pos 0 -ℤ change) there) (pos 0)
        then none
        else some (pos 0 -ℤ min_ℤ (pos 0 -ℤ change) there))
decrease-Asks change left there less =
    let back = -ℤ_parts (pos 0) change in
    elim (Bool-cases (ltb_ℤ there (pos 0 -ℤ change))) [
      | inl over ↦ elim (Bool-cases (leb_ℤ there (pos 0))) [
        | inl nothing ↦ rw (over, nothing) (inr (inr (less, ground arith)))
        | inr space ↦
            let asked = pos 0 -ℤ there in
            let parts = -ℤ_parts (pos 0) there in
            let sum = +ℤ_parts asked there in
            rw (over, space)
              (inr (
                ground (arith, parts, +ℤ_parts asked (pos 1)),
                ground (arith, back, parts),
                ground (arith, parts, sum),
                inr (eq_of_parts (asked +ℤ there) (pos 0) (ground (arith, parts, sum))),
              ))
      ]
      | inr fits ↦
          let asked = pos 0 -ℤ (pos 0 -ℤ change) in
          let parts = -ℤ_parts (pos 0) (pos 0 -ℤ change) in
          let one = +ℤ_parts change (pos 1) in
          let some_change : leb_ℤ (pos 0 -ℤ change) (pos 0) ≡ false =
            ground (arith, back, one, less) in
          rw (fits, some_change)
            (inr (
              ground (arith, parts, back, one, less, +ℤ_parts asked (pos 1)),
              ground (arith, back, parts),
              ground (arith, back, parts, fits, +ℤ_parts asked there),
              inl (eq_of_parts asked change (ground (arith, back, parts))),
            ))
    ]

within-Asks : (change left there : ℤ) → Asks change left there (within change left there)
unfolding within
within-Asks change left there = elim (Bool-cases (eq_ℤ change (pos 0))) [
  | inl zero_change ↦ rw zero_change (inl (eq_of_parts change (pos 0) (ground arith)))
  | inr other ↦ elim (Bool-cases (ltb_ℤ (pos 0) change)) [
    | inl more ↦ rw (other, more) (increase-Asks change left there (ground arith))
    | inr less ↦
        rw (other, less)
          (decrease-Asks change left there
            (ground (arith, other, less, +ℤ_parts change (pos 1), eq_of_parts change (pos 0))))
  ]
]

request_idle :
    {E : Type 0} (change_task : ℤ → E → E × ℤ × SpacexStatus) (f : Figures) (change : ℤ)
    (worked : Bool) (e : E)
    → change_asked f change ≡ none
    → srd_change_request change_task f (some change) worked e ≡ (e, 400)
unfolding srd_change_request
request_idle change_task f change worked e nothing = rw (nothing, srd_change_request) refl

request_asked :
    {E : Type 0} (change_task : ℤ → E → E × ℤ × SpacexStatus) (f : Figures) (change asked : ℤ)
    (worked : Bool) (e : E)
    → change_asked f change ≡ some asked
    → srd_change_request change_task f (some change) worked e ≡ (
      if worked then (change_task asked e).0 else e,
      if worked then srd_change_code (change_task asked e).2 else 500,
    )
unfolding srd_change_request
request_asked change_task f change asked worked e more = elim (Bool-cases worked) [
  | inl called ↦ rw (more, called, srd_change_request) refl
  | inr failed ↦ rw (more, failed, srd_change_request) refl
]

-- A request to change the sealed space asks the enclave once for a change, or is answered with the code
-- 400 and changes nothing, when the user asks for no change or for one that has no space. The change
-- asked for has the sign of the user's and is the user's own, unless there is less space: more space
-- goes up to the free space of the disks beyond the task that runs, less the task that remains; less
-- space goes down by all that is complete, remains as a task and runs. The code is that of the enclave's status, or 500
-- for a call of SGX that fails.
pub srd_change_request-IsWithin :
    {E : Type 0} (change_task : ℤ → E → E × ℤ × SpacexStatus) (f : Figures) (change : ℤ)
    (worked : Bool) (e : E)
    → let left =
        max_ℤ (f.disk_avail_for_srd -ℤ f.running_srd_task) (pos 0) -ℤ f.srd_remaining_task in
      let there = f.srd_complete +ℤ f.srd_remaining_task +ℤ f.running_srd_task in
      let (e', code) = srd_change_request change_task f (some change) worked e in
      ((e' ≡ e) × (code ≡ 400) × IsIdle change left there)
      ⊎ ((asked : ℤ) × IsWithin change left there asked
          × (e' ≡ (if worked then (change_task asked e).0 else e))
          × (code ≡ (if worked then srd_change_code (change_task asked e).2 else 500)))
unfolding change_asked
srd_change_request-IsWithin change_task f change worked e =
    let left = max_ℤ (f.disk_avail_for_srd -ℤ f.running_srd_task) (pos 0) -ℤ f.srd_remaining_task in
    let there = f.srd_complete +ℤ f.srd_remaining_task +ℤ f.running_srd_task in
    let asks : Asks change left there (change_asked f change) = within-Asks change left there in
    elim (Option-cases (change_asked f change)) [
      | inl nothing ↦
          let same = request_idle change_task f change worked e nothing in
          let idle = subst (Asks change left there) nothing asks in
          inl (ap (λ r. r.0) same, ap (λ r. r.1) same, idle)
      | inr (asked, more) ↦
          let same = request_asked change_task f change asked worked e more in
          let fits = subst (Asks change left there) more asks in
          inr (asked, fits, ap (λ r. r.0) same, ap (λ r. r.1) same)
    ]

find_type-erase_everywhere :
    (cid : Text) (m : List (Text × List (Text × Text)))
    → find_type cid (erase_everywhere cid m) ≡ none
unfolding find_type erase_everywhere
find_type-erase_everywhere cid [] = refl
find_type-erase_everywhere cid ((type, files) ∷ rest) =
    let gone : lookup_key cid (erase_key cid files) ≡ none =
      lookup-erase_key cid cid files ∙ ground (arith, text_eq_refl cid) in
    rw gone (find_type-erase_everywhere cid rest)

forgotten : (cid : Text) (d : AppData) → find_file_type cid (del_file_info cid d) ≡ none
unfolding find_file_type del_file_info del_pending_file_size
forgotten cid d = ground (arith, find_type-erase_everywhere cid d.sealed_file)

delete_code_iff : (status : SpacexStatus) → delete_code status ≡ 200 → status ≡ success
delete_code_iff status e = ground arith

upgrading_fails : upgrade_is_upgrading ≢ success
upgrading_fails e = cc

deleted_open :
    (sha256 : List ℕ → List ℕ) (cid : Text) (o : SealEnd) (w : Workload)
    → (ecall_delete_file sha256 cid o w).1 ≡ success
    → is_upgrade_none w.upgrade_status ≡ true
unfolding ecall_delete_file unless_upgrading
deleted_open sha256 cid o w e = elim (Bool-cases (is_upgrade_none w.upgrade_status)) [
  | inl open_for_work ↦ open_for_work
  | inr closed ↦ absurd (
      upgrading_fails (
        sym (
          ap (λ b. (if b then storage_delete_file sha256 cid o w else (w, upgrade_is_upgrading)).1)
            closed)
        ∙ e))
]

-- A file that a request has deleted, with the code 200, is in none of the application's types
-- afterwards; the enclave was open for work and its deletion has succeeded.
pub storage_delete_forgets :
    (sha256 : List ℕ → List ℕ) (o : SealEnd) (cid : Text) (worked : Bool) (s : System)
    → (storage_delete_request sha256 o (some cid) worked s).1 ≡ 200
    → (find_file_type cid (storage_delete_request sha256 o (some cid) worked s).0.app ≡ none)
      × (ecall_delete_file sha256 cid o s.enclave
          ≡ ((storage_delete_request sha256 o (some cid) worked s).0.enclave, success))
      × (is_upgrade_none s.enclave.upgrade_status ≡ true)
unfolding storage_delete_request
storage_delete_forgets sha256 o cid worked s e = elim (Bool-cases worked) [
  | inr failed ↦ ground (arith, failed)
  | inl called ↦
      let r = ecall_delete_file sha256 cid o s.enclave in
      let good : r.1 ≡ success = delete_code_iff r.1 (rw called at e) in
      rw (called, good, storage_delete_request)
        (forgotten cid s.app, refl, deleted_open sha256 cid o s.enclave good)
]
