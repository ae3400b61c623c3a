-- ===== src/AppData/Defs.antt =====
-- The members of class `EnclaveData` and the functions on them (app/process/EnclaveData.cpp). Each
-- function takes its lock for its whole run.
use spacex_storage.Prelude.{
  ℕ, suc, Bool, true, false, Option, none, some, List, [], ◌∷◌, ℤ, pos, ◌+ℤ◌, Text, text_eq, length,
  take, leb, if◌then◌else◌,
}
use spacex_storage.AppData.Maps.{lookup_key, set_key, erase_key}

-- `upgrade_status_t`
pub data AppUpgrade : Type 0 where
  no_upgrade stop_workreport in_process end complete exit : AppUpgrade

abbrev pub is_no_upgrade : AppUpgrade → Bool
is_no_upgrade no_upgrade = true
is_no_upgrade _ = false

-- The equality of two states.
abbrev pub same_upgrade : AppUpgrade → AppUpgrade → Bool
same_upgrade no_upgrade no_upgrade = true
same_upgrade stop_workreport stop_workreport = true
same_upgrade in_process in_process = true
same_upgrade end end = true
same_upgrade complete complete = true
same_upgrade exit exit = true
same_upgrade _ _ = false

-- `FILE_TYPE_PENDING`, `FILE_TYPE_VALID`
abbrev pub type_pending : Text
type_pending = b'p' ∷ b'e' ∷ b'n' ∷ b'd' ∷ b'i' ∷ b'n' ∷ b'g' ∷ []

abbrev pub type_valid : Text
type_valid = b'v' ∷ b'a' ∷ b'l' ∷ b'i' ∷ b'd' ∷ []

-- `disabled` counts the calls of `Ecall_disable_upgrade`.
pub record AppData : Type 0 where
  pub sealed_file : List (Text × List (Text × Text))
  pub pending_size : List (Text × ℤ)
  pub upgrade_data : Text
  pub upgrade_status : AppUpgrade
  pub disabled : ℕ
  pub uuid_to_path : List (Text × Text)
  pub path_to_uuid : List (Text × Text)

-- `sealed_file[type]`, which is empty for a type that is not there.
abbrev pub or_no_map : Option (List (Text × Text)) → List (Text × Text)
or_no_map none = []
or_no_map (some m) = m

unfoldable pub of_type : Text → AppData → List (Text × Text)
of_type type d = or_no_map (lookup_key type d.sealed_file)

-- `sealed_file[type]` is replaced.
unfoldable pub put_type : Text → List (Text × Text) → AppData → AppData
put_type type m d = record d { sealed_file = set_key type m d.sealed_file }

abbrev pub or_zero : Option ℤ → ℤ
or_zero none = pos 0
or_zero (some n) = n

-- `add_pending_file_size`, `get_pending_file_size`, `del_pending_file_size`
unfoldable pub get_pending_file_size : Text → AppData → ℤ
get_pending_file_size cid d = or_zero (lookup_key cid d.pending_size)

unfoldable pub add_pending_file_size : Text → ℤ → AppData → AppData
unfolding get_pending_file_size
add_pending_file_size cid size d = record d {
  pending_size = set_key cid (get_pending_file_size cid d +ℤ size) d.pending_size;
}

unfoldable pub del_pending_file_size : Text → AppData → AppData
del_pending_file_size cid d = record d { pending_size = erase_key cid d.pending_size }

-- `add_file_info`; `started` is the text with the current time.
unfoldable pub add_file_info : Text → Text → Text → Text → AppData → AppData
unfolding of_type put_type del_pending_file_size
add_file_info started cid type info d =
    let info' = if text_eq type type_pending then started else info in
    let d' : AppData =
      if text_eq type type_valid
      then del_pending_file_size cid
          (put_type type_pending (erase_key cid (of_type type_pending d)) d)
      else d in
    put_type type (set_key cid info' (of_type type d')) d'

-- `change_file_type`
unfoldable pub change_file_type : Text → Text → Text → AppData → AppData
unfolding of_type put_type
change_file_type cid old_type new_type d = elim (lookup_key cid (of_type old_type d)) [
  | none ↦ d
  | some info ↦
      let d' = put_type new_type (set_key cid info (of_type new_type d)) d in
      put_type old_type (erase_key cid (of_type old_type d')) d'
]

-- The loop of `del_file_info(cid)`.
unfoldable pub erase_everywhere :
    Text → List (Text × List (Text × Text)) → List (Text × List (Text × Text))
erase_everywhere cid [] = []
erase_everywhere cid ((type, m) ∷ rest) = (type, erase_key cid m) ∷ erase_everywhere cid rest

abbrev pub is_found : Option Text → Bool
is_found none = false
is_found (some info) = true

-- `del_file_info(cid)`
unfoldable pub del_file_info : Text → AppData → AppData
unfolding of_type del_pending_file_size erase_everywhere
del_file_info cid d =
    let d' : AppData = record d { sealed_file = erase_everywhere cid d.sealed_file } in
    if is_found (lookup_key cid (of_type type_pending d)) then del_pending_file_size cid d' else d'

-- `del_file_info(cid, type)`
unfoldable pub del_file_info_of : Text → Text → AppData → AppData
unfolding of_type put_type del_pending_file_size
del_file_info_of cid type d =
    let d' = put_type type (erase_key cid (of_type type d)) d in
    if text_eq type type_pending then del_pending_file_size cid d' else d'

-- `find_file_type`: the first type that has the file.
unfoldable pub find_type : Text → List (Text × List (Text × Text)) → Option Text
find_type cid [] = none
find_type cid ((type, m) ∷ rest) =
    let later = find_type cid rest in if is_found (lookup_key cid m) then some type else later

unfoldable pub find_file_type : Text → AppData → Option Text
unfolding find_type
find_file_type cid d = find_type cid d.sealed_file

-- `get_pending_files_size_all`, over the pending files.
unfoldable pub sum_sizes : List (Text × Text) → AppData → ℤ
sum_sizes [] d = pos 0
sum_sizes ((cid, info) ∷ rest) d = sum_sizes rest d +ℤ get_pending_file_size cid d

unfoldable pub get_pending_files_size_all : AppData → ℤ
unfolding of_type sum_sizes
get_pending_files_size_all d = sum_sizes (of_type type_pending d) d

unfoldable pub set_upgrade_data : Text → AppData → AppData
set_upgrade_data data_text d = record d { upgrade_data = data_text }

-- `set_upgrade_status`: a change to no upgrade tells the enclave.
unfoldable pub set_upgrade_state : AppUpgrade → AppData → AppData
set_upgrade_state status d = if same_upgrade d.upgrade_status status then d else record d {
  upgrade_status = status;
  disabled = if is_no_upgrade status then suc d.disabled else d.disabled;
}

-- `set_uuid_disk_path_map`: 16 characters of the disk's name.
unfoldable pub set_uuid_disk_path_map : Text → Text → AppData → AppData
set_uuid_disk_path_map uuid path d =
    if leb 16 (length uuid)
    then record d {
      uuid_to_path = set_key (take 16 uuid) path d.uuid_to_path;
      path_to_uuid = set_key path (take 16 uuid) d.path_to_uuid;
    }
    else d

abbrev pub or_no_text : Option Text → Text
or_no_text none = []
or_no_text (some t) = t

unfoldable pub get_uuid : Text → AppData → Text
get_uuid path d = or_no_text (lookup_key path d.path_to_uuid)

unfoldable pub get_disk_path : Text → AppData → Text
get_disk_path uuid d = or_no_text (lookup_key uuid d.uuid_to_path)

unfoldable pub is_disk_exist : Text → AppData → Bool
is_disk_exist path d = is_found (lookup_key path d.path_to_uuid)

unfoldable pub is_uuid_exist : Text → AppData → Bool
is_uuid_exist uuid d = is_found (lookup_key uuid d.uuid_to_path)
