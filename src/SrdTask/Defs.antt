-- ===== src/SrdTask/Defs.antt =====
-- `srd_change`, `change_srd_task`, `srd_increase`, `srd_decrease` and `srd_remove_space` of
-- enclave/srd/Srd.cpp. What the calls out of the enclave answer is an argument.
use mathlib.Core.List.{reverse}
use spacex_storage.Prelude.{
  ℕ, zero, suc, ◌+◌, ◌-◌, min, Bool, true, false, not, Option, none, some, List, [], ◌∷◌, ◌++◌, ℤ,
  pos, negsuc, ◌+ℤ◌, ◌-ℤ◌, ltb_ℤ, leb_ℤ, eq_ℤ, Text, text_eq, length, is_empty, get_elem?, take,
  ◌==◌, if◌then◌else◌,
}
use spacex_storage.Status.{
  SpacexStatus, success, srd_number_exceed, is_success, is_srd_number_exceed, UpgradeStatus,
  is_upgrade_none,
}
use spacex_storage.Hex.{hexstring}
use spacex_storage.SrdMeta.Defs.{
  Srd, uuid_of, show_info, set_srd_remaining_task, delete_srd_meta, deal_deleted_srd,
  add_srd_to_deleted_buffer,
}

-- `g_srd_task`, the copy of it that is stored outside, and the sealed space.
pub record SrdState : Type 0 where
  pub srd : Srd
  pub task : ℤ
  pub stored : ℤ

-- `SRD_NUMBER_UPPER_LIMIT`, `SRD_MAX_INC_PER_TURN` and `-SRD_MAX_DEC_PER_TURN`
abbrev pub srd_limit : ℤ
srd_limit = pos 512000

abbrev pub max_inc : ℤ
max_inc = pos 64

abbrev pub min_dec : ℤ
min_dec = negsuc 4999

-- The end of both functions that change the task, under `g_srd_task_mutex`: the task is stored, if
-- `persist_set_unsafe` succeeds, and shown.
unfoldable pub store_task : SpacexStatus → SrdState → SrdState
store_task persisted st = record st {
  stored = if is_success persisted then st.task else st.stored;
  srd = show_info (set_srd_remaining_task st.task st.srd);
}

-- The first critical section of `srd_change`: the share of this turn, and what is left.
unfoldable pub take_turn : ℤ → ℤ × ℤ
take_turn task =
    if ltb_ℤ max_inc task
    then (max_inc, task -ℤ max_inc)
    else if ltb_ℤ (pos 0) task
    then (task, pos 0)
    else if ltb_ℤ task (pos 0)
    then (let share = if ltb_ℤ task min_dec then min_dec else task in (share, task -ℤ share))
    else (pos 0, task)

-- `srd_change`. `ocall` answers `ocall_srd_change`; `during` and `between` are what other threads do
-- while the lock of the task is free: around that call, and before the task is stored. The result
-- also has the number that the call was made with, if it was made.
unfoldable pub srd_change :
    UpgradeStatus
    → Bool
    → (ℤ → SpacexStatus)
    → (SrdState → SrdState)
    → (SrdState → SrdState)
    → SpacexStatus
    → SrdState
    → SrdState × Option ℤ
unfolding take_turn
srd_change upgrade proved ocall during between persisted st =
    if not (is_upgrade_none upgrade)
    then (st, none)
    else if not proved
    then (st, none)
    else if eq_ℤ (pos 0) st.task
    then (st, none)
    else (let (share, left) = take_turn st.task in
        let st' = during (record st { task = left }) in
        if eq_ℤ share (pos 0)
        then (store_task persisted (between st'), none)
        else (let st'' =
              if is_srd_number_exceed (ocall share) then record st' { task = pos 0 } else st' in
            (store_task persisted (between st''), some share)))

-- The change that `change_srd_task` allows, and its status.
unfoldable pub allowed_change : ℤ → ℤ → ℤ × SpacexStatus
allowed_change srd_num change =
    if ltb_ℤ (pos 0) change
    then (if leb_ℤ srd_limit srd_num
        then (pos 0, srd_number_exceed)
        else if ltb_ℤ srd_limit (srd_num +ℤ change)
        then (srd_limit -ℤ srd_num, srd_number_exceed)
        else (change, success))
    else (change, success)

-- `change_srd_task`: the new state, `*real_change` and the status.
unfoldable pub change_srd_task : ℤ → SpacexStatus → SrdState → SrdState × ℤ × SpacexStatus
unfolding allowed_change
change_srd_task change persisted st =
    let (real, status) = allowed_change (pos (length st.srd.hashs) +ℤ st.task) change in
    (store_task persisted (record st { task = st.task +ℤ real }), real, status)

-- The indexes that the loop of `srd_decrease` collects: `size - i` for the rounds from `i` on.
unfoldable pub last_indexes : ℕ → ℕ → ℕ → List ℕ
last_indexes size zero i = []
last_indexes size (suc rounds) i = (size - i) ∷ last_indexes size rounds (i + 1)

-- The folders of the entries at these indexes.
unfoldable pub folders : List ℕ → List (List ℕ) → List Text
folders [] hashs = []
folders (i ∷ is) hashs = elim (get_elem? hashs i) [
  | none ↦ folders is hashs
  | some item ↦ hexstring (take 42 item) ∷ folders is hashs
]

-- `srd_decrease`: the new state, the folders that are deleted outside, and the returned number.
unfoldable pub srd_decrease : ℕ → Srd → Srd × List Text × ℕ
srd_decrease change s =
    let s' = deal_deleted_srd s in
    let size = length s'.hashs in
    let num = min change size in
    if num == 0
    then (s', [], 0)
    else (let indexes = last_indexes size num 1 in
        (show_info (delete_srd_meta (reverse indexes) s').0, folders indexes s'.hashs, num))

-- How the loop of `srd_remove_space` ends: it may read outside the vector.
pub data Removal : Type 0 where
  finished : Srd → List Text → Removal
  out_of_bounds : Removal

-- A change of the wish of one disk, `del_json[uuid].AddNum(-1)`.
abbrev pub grant : (Text → ℤ) → Text → Text → ℤ
grant want uuid u = if text_eq u uuid then want u -ℤ pos 1 else want u

-- What the loop of `srd_remove_space` carries: the wishes left, their number, the sealed space, and
-- the folders to delete.
pub record Removing : Type 0 where
  pub want : Text → ℤ
  pub change : ℤ
  pub srd : Srd
  pub paths : List Text

-- The body of the loop, at an entry.
unfoldable pub remove_body : ℕ → List ℕ → Removing → Removing
remove_body i item r =
    if ltb_ℤ (pos 0) (r.want (uuid_of item))
    then record {
      want = grant r.want (uuid_of item);
      change = r.change -ℤ pos 1;
      srd = (add_srd_to_deleted_buffer i r.srd).0;
      paths = r.paths ++ hexstring (take 42 item) ∷ [];
    }
    else r

-- The loop `for (size_t i = size - 1; i >= 0 && change > 0; i--)`. The index is unsigned, so `i >= 0`
-- always holds; after 0 comes the largest index, at which the vector is read outside its range.
unfoldable pub remove_loop : ℕ → Removing → Removal
unfolding remove_body
remove_loop zero r =
    if ltb_ℤ (pos 0) r.change
    then elim (get_elem? r.srd.hashs zero) [
      | none ↦ out_of_bounds
      | some item ↦
          let r' = remove_body zero item r in
          if ltb_ℤ (pos 0) r'.change then out_of_bounds else finished r'.srd r'.paths
    ]
    else finished r.srd r.paths
remove_loop (suc i) r = elim (ltb_ℤ (pos 0) r.change) [
  | true ↦ elim (get_elem? r.srd.hashs (suc i)) [
    | none ↦ out_of_bounds
    | some item ↦ remove_loop i (remove_body (suc i) item r)
  ]
  | false ↦ finished r.srd r.paths
]

unfoldable pub shown_after : Removal → Removal
shown_after (finished s paths) = finished (show_info s) paths
shown_after out_of_bounds = out_of_bounds

-- The total of the wishes, `change`, and the wish of one disk, `del_json[uuid].ToInt()`.
abbrev pub total_wish : List (Text × ℤ) → ℤ
total_wish [] = pos 0
total_wish ((uuid, n) ∷ wishes) = n +ℤ total_wish wishes

abbrev pub wish : List (Text × ℤ) → Text → ℤ
wish [] u = pos 0
wish ((uuid, n) ∷ wishes) u = if text_eq u uuid then n else wish wishes u

-- `srd_remove_space`; no list stands for a JSON value that is not an object. The keys of an object
-- are distinct.
unfoldable pub srd_remove_space : Option (List (Text × ℤ)) → Srd → Removal
unfolding remove_loop shown_after
srd_remove_space none s = finished s []
srd_remove_space (some wishes) s = shown_after (
    if is_empty s.hashs
    then finished s []
    else remove_loop (length s.hashs - 1)
        (record { want = wish wishes; change = total_wish wishes; srd = s; paths = [] }))
