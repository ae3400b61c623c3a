-- ===== src/Server/Requests.antt =====
-- The requests of `http_handler` (app/http/ApiHandler.h) that change the sealed space and the files. A
-- request has its parameters, missing where the JSON value has not the right type; the messages of the
-- responses are left out.
use spacex_storage.Prelude.{
  ℕ, zero, suc, ◌==◌, leb, length, ◌||◌, Bool, true, false, not, ◌&&◌, Option, none, some, List, [],
  ◌∷◌, ℤ, pos, ◌+ℤ◌, ◌-ℤ◌, ltb_ℤ, leb_ℤ, eq_ℤ, min_ℤ, max_ℤ, Text, text_eq, if◌then◌else◌,
}
use spacex_storage.Status.{
  SpacexStatus, success, is_success, srd_number_exceed, upgrade_is_upgrading,
  storage_new_file_notfound, storage_file_dup, storage_file_sealing, storage_file_deleting,
  unseal_data_failed, file_number_exceed,
}
use spacex_storage.Workload.Defs.{Workload}
use spacex_storage.SrdTask.Defs.{SrdState, change_srd_task}
use spacex_storage.Workload.Recover.{Commit, CidList, no_key, no_array, recover_illegal_file}
use spacex_storage.Storage.Defs.{
  SealEnd, storage_delete_file, storage_seal_file_start, storage_seal_file_end,
}
use spacex_storage.AppData.Defs.{
  AppData, AppUpgrade, is_no_upgrade, del_file_info, find_file_type, type_pending,
}
use spacex_storage.Server.Defs.{System, is_stop_workreport, is_exit, unless_upgrading}

-- The paths of `upgrade_block_s`, and the others.
pub data Route : Type 0 where
  srd_change storage_delete storage_seal_start : Route
  other_route : Route

abbrev pub is_upgrade_block : Route → Bool
is_upgrade_block other_route = false
is_upgrade_block _ = true

-- The choice of service by the status of the upgrade: the code of a refusal.
unfoldable pub refusal : Route → AppUpgrade → Option ℕ
refusal route status =
    if is_exit status
    then some 501
    else if not (is_no_upgrade status)
        && (not (is_stop_workreport status) && is_upgrade_block route)
    then some 501
    else none

-- The figures of `gen_workload` and the running task, from which `/srd/change` takes the change that it
-- asks the enclave for; none if there is nothing to change.
pub record Figures : Type 0 where
  pub srd_complete : ℤ
  pub srd_remaining_task : ℤ
  pub disk_avail_for_srd : ℤ
  pub running_srd_task : ℤ

-- The space that can still be taken, and the space that can be given back.
abbrev pub space_left : Figures → ℤ
space_left f = max_ℤ (f.disk_avail_for_srd -ℤ f.running_srd_task) (pos 0) -ℤ f.srd_remaining_task

abbrev pub space_there : Figures → ℤ
space_there f = f.srd_complete +ℤ f.srd_remaining_task +ℤ f.running_srd_task

unfoldable pub within : ℤ → ℤ → ℤ → Option ℤ
within change left there =
    let increase = min_ℤ change left in
    let decrease = min_ℤ (pos 0 -ℤ change) there in
    if eq_ℤ change (pos 0)
    then none
    else if ltb_ℤ (pos 0) change
    then (if leb_ℤ increase (pos 0) then none else some increase)
    else if leb_ℤ decrease (pos 0)
    then none
    else some (pos 0 -ℤ decrease)

unfoldable pub change_asked : Figures → ℤ → Option ℤ
unfolding within
change_asked f change = within change (space_left f) (space_there f)

abbrev pub srd_change_code : SpacexStatus → ℕ
srd_change_code success = 200
srd_change_code srd_number_exceed = 200
srd_change_code upgrade_is_upgrading = 503
srd_change_code _ = 500

-- `/srd/change`; `E` is the enclave with `Ecall_change_srd_task`.
module _ {E : Type 0} (change_task : ℤ → E → E × ℤ × SpacexStatus) where
  unfoldable pub srd_change_request : Figures → Option ℤ → Bool → E → E × ℕ
  unfolding change_asked
  srd_change_request f none worked e = (e, 400)
  srd_change_request f (some change) worked e = elim (change_asked f change) [
    | none ↦ (e, 400)
    | some asked ↦
        let (e', real, status) = change_task asked e in
        if worked then (e', srd_change_code status) else (e, 500)
  ]

-- `ecall_change_srd_task`; a refusal leaves `*real_change`, which the callers have set to 0.
unfoldable pub ecall_change_srd_task :
    ℤ → SpacexStatus → Workload → SrdState → SrdState × ℤ × SpacexStatus
ecall_change_srd_task change persisted w st =
    unless_upgrading (st, pos 0, upgrade_is_upgrading) (λ _. change_srd_task change persisted st) w

abbrev pub delete_code : SpacexStatus → ℕ
delete_code success = 200
delete_code storage_new_file_notfound = 404
delete_code upgrade_is_upgrading = 503
delete_code _ = 500

-- `ecall_delete_file`
unfoldable pub ecall_delete_file :
    (List ℕ → List ℕ) → Text → SealEnd → Workload → Workload × SpacexStatus
ecall_delete_file sha256 cid o w =
    unless_upgrading (w, upgrade_is_upgrading) (storage_delete_file sha256 cid o) w

-- `/storage/delete`
unfoldable pub storage_delete_request :
    (List ℕ → List ℕ) → SealEnd → Option Text → Bool → System → System × ℕ
storage_delete_request sha256 o none worked s = (s, 400)
storage_delete_request sha256 o (some cid) worked s =
    let (w, status) = ecall_delete_file sha256 cid o s.enclave in
    if not worked then (s, 500) else (
      record s { enclave = w; app = if is_success status then del_file_info cid s.app else s.app },
      delete_code status,
    )

abbrev pub seal_start_code : SpacexStatus → ℕ
seal_start_code success = 200
seal_start_code file_number_exceed = 500
seal_start_code upgrade_is_upgrading = 503
seal_start_code storage_file_dup = 200
seal_start_code storage_file_sealing = 200
seal_start_code storage_file_deleting = 400
seal_start_code _ = 500

-- `ecall_seal_file_start`
unfoldable pub ecall_seal_file_start : Text → Text → Workload → Workload × SpacexStatus
ecall_seal_file_start root root_b58 w =
    unless_upgrading (w, upgrade_is_upgrading) (storage_seal_file_start root root_b58) w

-- `/storage/seal_start`
unfoldable pub seal_start_request : Option (Text × Text) → Bool → System → System × ℕ
seal_start_request none worked s = (s, 400)
seal_start_request (some (cid, cid_b58)) worked s =
    let (w, status) = ecall_seal_file_start cid cid_b58 s.enclave in
    if worked then (record s { enclave = w }, seal_start_code status) else (s, 500)

abbrev pub seal_end_code : SpacexStatus → ℕ
seal_end_code success = 200
seal_end_code upgrade_is_upgrading = 503
seal_end_code storage_new_file_notfound = 404
seal_end_code _ = 500

-- `/storage/seal_end`
unfoldable pub seal_end_request :
    (List ℕ → List ℕ) → SealEnd → Option Text → Bool → System → System × ℕ
seal_end_request sha256 o none worked s = (s, 400)
seal_end_request sha256 o (some cid) worked s =
    let (w, status) = storage_seal_file_end sha256 cid o s.enclave in
    if worked then (record s { enclave = w }, seal_end_code status) else (s, 500)

-- `/file/recover_illegal`
abbrev pub is_list : CidList → Bool
is_list no_array = false
is_list _ = true

abbrev pub has_list : CidList → Bool
has_list no_key = false
has_list _ = true

unfoldable pub recover_illegal_request : Commit → Bool → System → System × ℕ
recover_illegal_request commit worked s =
    if not (is_success commit.parsed)
    then (s, 400)
    else if not (has_list commit.added) && not (has_list commit.removed)
    then (s, 400)
    else if not (is_list commit.added && is_list commit.removed)
    then (s, 400)
    else if not worked
    then (s, 500)
    else (let (w, status) = recover_illegal_file commit s.enclave in
        (record s { enclave = w }, if is_success status then 200 else 500))

abbrev pub has_char : ℕ → Text → Bool
has_char c [] = false
has_char c (x ∷ xs) = (x == c) || has_char c xs

-- `substr(0, find_last_of(c))`: the text before the last `c`, all of it if there is none.
unfoldable pub before_last : ℕ → Text → Text
before_last c [] = []
before_last c (x ∷ xs) = if (x == c) && not (has_char c xs) then [] else x ∷ before_last c xs

abbrev skip : ℕ → Text → Text
skip zero xs = xs
skip (suc n) [] = []
skip (suc n) (x ∷ xs) = skip n xs

-- `EMPTY_BLOCK_FLAG`
abbrev pub empty_block_flag : Text
empty_block_flag = b'e' ∷ b'm' ∷ b'p' ∷ b't' ∷ b'y' ∷ []

-- The code for a block that is not on the disk: the content id stands in its path behind the disk's
-- name, and before the last slash.
unfoldable pub lost_code : Text → AppData → ℕ
unfolding before_last
lost_code path d =
    let header = before_last b'/' path in
    if leb (length header) 16 then 404 else elim (find_file_type (skip 16 header) d) [
      | none ↦ 404
      | some type ↦ if text_eq type type_pending then 404 else 410
    ]

abbrev pub unseal_code : SpacexStatus → ℕ
unseal_code success = 200
unseal_code unseal_data_failed = 400
unseal_code upgrade_is_upgrading = 503
unseal_code _ = 404

-- `/storage/unseal`: the code and the data. `there` is whether the block is on the disk, `unsealed` what
-- `Ecall_unseal_file` gives.
unfoldable pub unseal_request :
    Option Text → Bool → Bool → SpacexStatus × List ℕ → AppData → ℕ × List ℕ
unfolding lost_code
unseal_request none there worked unsealed d = (400, [])
unseal_request (some path) there worked (status, bytes) d =
    if text_eq path empty_block_flag
    then (200, [])
    else if not there
    then (lost_code path d, [])
    else if not worked
    then (500, [])
    else (unseal_code status, if is_success status then bytes else [])
