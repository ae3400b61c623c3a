-- ===== src/SrdMeta/Defs.antt =====
-- The space that the enclave has sealed ("srd"): `Workload::srd_hashs`, the figures shown of it and
-- the buffer of entries to delete (enclave/workload/Workload.cpp and Workload.h).
use mathlib.Core.List.{reverse}
use spacex_storage.Prelude.{
  ℕ, ◌+◌, Bool, true, false, Option, none, some, List, [], ◌∷◌, ◌++◌, map, ℤ, pos, negsuc, ◌+ℤ◌,
  leb_ℤ, Text, text_eq, length, is_empty, get_elem?, erase_at, take, ltb, ◌==◌, if◌then◌else◌,
}
use spacex_storage.Status.{SpacexStatus, success, bad_seal_data, unexpected_error}
use spacex_storage.Hex.{hexstring, hex_string_to_bytes}

-- `srd_info_json`: a key that is missing reads as 0.
pub record SrdInfo : Type 0 where
  pub complete : ℤ
  pub detail : Text → ℤ
  pub remaining : ℤ

-- `shown` is what `ocall_set_srd_info` last told the app. `deleted_idx` is `srd_del_idx_s`, a set in
-- ascending order. Locks are left out: each function below runs under the locks that it takes.
pub record Srd : Type 0 where
  pub hashs : List (List ℕ)
  pub info : SrdInfo
  pub shown : SrdInfo
  pub deleted_idx : List ℕ

abbrev pub no_info : SrdInfo
no_info = record { complete = pos 0; detail = λ _. pos 0; remaining = pos 0 }

-- `UUID_LENGTH` bytes of an entry name its disk; `SRD_LENGTH` is 8 + 2 + 32.
abbrev pub uuid_of : List ℕ → Text
uuid_of item = hexstring (take 8 item)

-- `AddNum` on `[WL_SRD_DETAIL][uuid]`
abbrev pub add_detail : (Text → ℤ) → Text → ℤ → Text → ℤ
add_detail detail uuid change u = if text_eq u uuid then detail u +ℤ change else detail u

-- `set_srd_info`: the total stops at 0.
unfoldable pub set_srd_info : Text → ℤ → SrdInfo → SrdInfo
set_srd_info uuid change info = record info {
  complete = let total = info.complete +ℤ change in if leb_ℤ total (pos 0) then pos 0 else total;
  detail = add_detail info.detail uuid change;
}

-- `get_srd_info` and the call that tells the app.
unfoldable pub show_info : Srd → Srd
show_info s = record s { shown = s.info }

-- `set_srd_remaining_task`
unfoldable pub set_srd_remaining_task : ℤ → Srd → Srd
set_srd_remaining_task num s = record s { info = record (s.info) { remaining = num } }

-- `clean_srd`
unfoldable pub clean_srd : Srd → Srd
clean_srd s = record s { hashs = []; info = no_info; shown = no_info }

-- One round of the loop of `delete_srd_meta`, for an index in range.
unfoldable pub delete_one : ℕ → List ℕ → Srd → Srd
delete_one index hash s = record s {
  hashs = erase_at index s.hashs;
  info = set_srd_info (uuid_of hash) (negsuc 0) s.info;
}

-- The loop, over the indexes in the order in which it visits them. No entry is a null pointer.
unfoldable pub delete_loop : List ℕ → Srd → Srd × ℕ
unfolding delete_one
delete_loop [] s = (s, 0)
delete_loop (index ∷ indexes) s = elim (get_elem? s.hashs index) [
  | none ↦ delete_loop indexes s
  | some hash ↦
      let (s', del_num) = delete_loop indexes (delete_one index hash s) in (s', del_num + 1)
]

-- `delete_srd_meta`, from the last index to the first, and the number of deleted entries.
unfoldable pub delete_srd_meta : List ℕ → Srd → Srd × ℕ
delete_srd_meta indexes s =
    if is_empty indexes
    then (s, 0)
    else let (s', del_num) = delete_loop (reverse indexes) s in (show_info s', del_num)

-- `std::set<uint32_t>::insert`
unfoldable pub insert_idx : ℕ → List ℕ → List ℕ
insert_idx i [] = i ∷ []
insert_idx i (j ∷ js) =
    if ltb i j then i ∷ j ∷ js else if i == j then j ∷ js else j ∷ insert_idx i js

-- `std::set<uint32_t>::find`
unfoldable pub has_idx : ℕ → List ℕ → Bool
has_idx i [] = false
has_idx i (j ∷ js) = if i == j then true else has_idx i js

-- `add_srd_to_deleted_buffer`: whether the index is new.
unfoldable pub add_srd_to_deleted_buffer : ℕ → Srd → Srd × Bool
add_srd_to_deleted_buffer index s = (
  record s { deleted_idx = insert_idx index s.deleted_idx },
  if has_idx index s.deleted_idx then false else true,
)

-- `is_srd_in_deleted_buffer`
unfoldable pub is_srd_in_deleted_buffer : ℕ → Srd → Bool
is_srd_in_deleted_buffer index s = has_idx index s.deleted_idx

-- `_deal_deleted_srd`
unfoldable pub deal_deleted_srd : Srd → Srd
deal_deleted_srd s = (delete_srd_meta s.deleted_idx (record s { deleted_idx = [] })).0

-- `srd_hashs.push_back`, then `set_srd_info(uuid, 1)`, as at the end of `srd_increase`.
unfoldable pub push_srd : Text → List ℕ → Srd → Srd
push_srd uuid item s =
    show_info (record s { hashs = s.hashs ++ item ∷ []; info = set_srd_info uuid (pos 1) s.info })

-- `serialize_srd`: `SRD_LENGTH` bytes of each entry.
unfoldable pub serialize_srd : Srd → List Text
serialize_srd s = map (λ item. hexstring (take 42 item)) s.hashs

-- The loop of `restore_srd`; no result for a text that is no byte array.
unfoldable pub restore_loop : List Text → Srd → Option Srd
restore_loop [] s = some s
restore_loop (hex ∷ items) s = elim (hex_string_to_bytes hex) [
  | none ↦ none
  | some item ↦ restore_loop items (record s {
    hashs = s.hashs ++ item ∷ [];
    info = record (s.info) { detail = add_detail s.info.detail (take 16 hex) (pos 1) };
  })
]

restored : Srd → Option Srd → Srd × SpacexStatus
restored s none = (clean_srd s, unexpected_error)
restored s (some s') = (
  show_info (record s' { info = record (s'.info) { complete = pos (length s'.hashs) } }),
  success,
)

-- `restore_srd`; no list stands for a JSON value that is not an array.
unfoldable pub restore_srd : Option (List Text) → Srd → Srd × SpacexStatus
unfolding restored
restore_srd none s = (s, bad_seal_data)
restore_srd (some []) s = (s, success)
restore_srd (some (hex ∷ items)) s = restored s (restore_loop (hex ∷ items) (clean_srd s))
