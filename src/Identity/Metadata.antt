-- ===== src/Identity/Metadata.antt =====
-- `id_store_metadata` and `id_restore_metadata` (enclave/identity/Identity.cpp).
use spacex_storage.Prelude.{
  ℕ, Bool, not, ◌&&◌, Option, none, some, List, Text, text_eq, take, if◌then◌else◌,
}
use spacex_storage.Status.{
  SpacexStatus, success, unexpected_error, invalid_meta_data, is_success, is_upgrade_success,
}
use spacex_storage.Hex.{hexstring, hex_string_to_bytes}
use spacex_storage.SrdMeta.Defs.{serialize_srd, restore_srd}
use spacex_storage.Workload.Defs.{
  Workload, set_key_pair, set_report_height, set_upgrade, set_account_id, set_restart_flag,
}
use spacex_storage.Workload.Restore.{Stored, serialize_file, restore_file, clean_all}

-- A JSON value that is a number or a string.
pub data JsonValue : Type 0 where
  number : ℕ → JsonValue
  string : Text → JsonValue

-- `JSON::ToInt`: 0 for what is no number.
unfoldable pub to_int : JsonValue → ℕ
to_int (number n) = n
to_int (string t) = 0

-- The stored object. No list stands for a value that is no array.
pub record Metadata : Type 0 where
  pub id_key_pair : Text
  pub report_height : JsonValue
  pub account_id : Text
  pub srd : Option (List Text)
  pub files : Option (List Stored)
  pub pre_pub_key : Option Text

-- How building the text of the object, copying it behind the tag and storing it go.
pub record StoreSteps : Type 0 where
  pub dumped : SpacexStatus
  pub inserted : SpacexStatus
  pub persisted : SpacexStatus

-- The object that is stored; `to_text` is `std::to_string`.
unfoldable pub metadata_of : (ℕ → Text) → Workload → Metadata
metadata_of to_text w = record {
  id_key_pair = hexstring w.key_pair;
  report_height = string (to_text w.report_height);
  account_id = w.account_id;
  srd = some (serialize_srd w.srd);
  files = some (serialize_file w);
  pre_pub_key = if w.upgrade then some (hexstring w.pre_pub_key) else none;
}

-- `id_store_metadata`: the status, and what it hands to the store if it comes so far.
unfoldable pub id_store_metadata :
    (ℕ → Text) → StoreSteps → Workload → SpacexStatus × Option Metadata
unfolding metadata_of
id_store_metadata to_text steps w =
    if is_upgrade_success w.upgrade_status
    then (success, none)
    else if not (is_success steps.dumped)
    then (steps.dumped, none)
    else if not (is_success steps.inserted)
    then (steps.inserted, none)
    else (steps.persisted, some (metadata_of to_text w))

-- What the store has: nothing that can be got, a text that is no JSON, an empty object, or the object.
pub data Got : Type 0 where
  not_got : Got
  unreadable : SpacexStatus → Got
  no_members : Got
  members : Metadata → Got

-- The sizes of `ecc_key_pair` and of `sgx_ec256_public_t`. A shorter text would be read beyond its end.
abbrev pub key_pair_size : ℕ
key_pair_size = 96

abbrev pub pub_key_size : ℕ
pub_key_size = 64

-- `restore_pre_pub_key` (enclave/workload/Workload.cpp)
unfoldable pub restore_pre_pub_key : Option Text → Workload → Workload × SpacexStatus
restore_pre_pub_key none w = (w, success)
restore_pre_pub_key (some text) w = elim (hex_string_to_bytes text) [
  | none ↦ (w, unexpected_error)
  | some key ↦ (set_upgrade (take pub_key_size key) w, success)
]

-- From the restoring of the sealed space on; a failure cleans everything.
unfoldable pub restore_members : Bool → List ℕ → Metadata → Workload → Workload × SpacexStatus
unfolding restore_pre_pub_key
restore_members dumped id_key m w =
    let (srd, srd_status) = restore_srd m.srd w.srd in
    let w1 : Workload = record w { srd = srd } in
    if not (is_success srd_status)
    then (clean_all w1, srd_status)
    else (let (w2, file_status) = restore_file dumped m.files w1 in
        if not (is_success file_status)
        then (clean_all w2, file_status)
        else (let w3 =
              set_report_height (to_int m.report_height)
                (set_key_pair (take key_pair_size id_key) w2) in
            let (w4, key_status) = restore_pre_pub_key m.pre_pub_key w3 in
            if not (is_success key_status)
            then (clean_all w4, key_status)
            else (set_restart_flag (set_account_id m.account_id w4), success)))

-- `id_restore_metadata`; `dumped` tells whether the app can be told of the files.
unfoldable pub id_restore_metadata : Bool → Got → Workload → Workload × SpacexStatus
unfolding restore_members
id_restore_metadata dumped not_got w = (w, unexpected_error)
id_restore_metadata dumped (unreadable status) w = (w, status)
id_restore_metadata dumped no_members w = (w, invalid_meta_data)
id_restore_metadata dumped (members m) w = elim (hex_string_to_bytes m.id_key_pair) [
  | none ↦ (w, invalid_meta_data)
  | some id_key ↦
      if w.is_set_key_pair && not (text_eq (take key_pair_size id_key) w.key_pair)
      then (w, invalid_meta_data)
      else restore_members dumped id_key m w
]
