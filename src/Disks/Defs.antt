-- ===== src/Disks/Defs.antt =====
-- `check_or_init_disk`, `get_increase_srd_info_r` and `get_increase_srd_info` (app/process/Srd.cpp).
-- Spaces are counted in gigabytes, which fit a `long`; the change is not negative in any call.
use spacex_storage.Prelude.{
  ℕ, zero, suc, ◌-◌, Bool, true, false, not, Option, none, some, List, [], ◌∷◌, Text, ltb, leb,
  ◌==◌, if◌then◌else◌,
}
use spacex_storage.Hex.{hexstring}
use spacex_storage.AppData.Defs.{AppData, set_uuid_disk_path_map, get_uuid, is_disk_exist}

-- What is found at a path: whether it is no system disk (`is_valid_or_normal_disk`), whether its uuid
-- file is there and what it holds, the random bytes of a new name, whether the uuid file can be saved,
-- and whether the folder of the sealed space can be made; and the free and the whole space.
pub record Place : Type 0 where
  pub is_valid : Bool
  pub has_file : Bool
  pub content : Option Text
  pub rand : List ℕ
  pub saved : Bool
  pub created : Bool
  pub avail : ℕ
  pub total : ℕ

-- `check_or_init_disk`
unfoldable pub check_or_init_disk : Place → Text → AppData → AppData × Bool
check_or_init_disk at path d =
    if not at.is_valid
    then (d, false)
    else if at.has_file
    then (if is_disk_exist path d then (d, true) else elim (at.content) [
      | none ↦ (d, false)
      | some uuid ↦ (set_uuid_disk_path_map uuid path d, at.created)
    ])
    else if not at.saved
    then (d, false)
    else if is_disk_exist path d
    then (d, at.created)
    else (set_uuid_disk_path_map (hexstring at.rand) path d, at.created)

-- An entry of `disk_info_json`; `used` is 0 as long as the key is missing.
pub record Disk : Type 0 where
  pub uuid : Text
  pub path : Text
  pub available : ℕ
  pub volume : ℕ
  pub available_for_srd : ℕ
  pub used : ℕ

-- `DEFAULT_SRD_RESERVED`, as `get_reserved_space` gives it
abbrev pub reserved_space : ℕ
reserved_space = 50

abbrev pub disk_of : Place → Text → AppData → Disk
disk_of at path d = record {
  uuid = get_uuid path d;
  path = path;
  available = at.avail;
  volume = at.total;
  available_for_srd = if leb at.avail reserved_space then 0 else at.avail - reserved_space;
  used = 0;
}

-- The loop over the paths.
unfoldable pub disk_infos : (Text → Place) → List Text → AppData → AppData × List Disk
unfolding check_or_init_disk
disk_infos at [] d = (d, [])
disk_infos at (path ∷ paths) d =
    let (d', usable) = check_or_init_disk (at path) path d in
    let (d'', disks) = disk_infos at paths d' in
    (d'', if usable then disk_of (at path) path d' ∷ disks else disks)

abbrev pub use_more : Disk → Disk
use_more disk = record disk { used = suc disk.used }

-- The inner loop: the disks, what is left of the change, and `avail`.
unfoldable pub use_round : List Disk → ℕ → List Disk × ℕ × Bool
use_round [] change = ([], change, false)
use_round (disk ∷ disks) zero = (disk ∷ disks, 0, false)
use_round (disk ∷ disks) (suc change) =
    let free = ltb disk.used disk.available_for_srd in
    let (disks', left, avail) = use_round disks (if free then change else suc change) in
    if free then (use_more disk ∷ disks', left, true) else (disk ∷ disks', left, avail)

-- The outer loop, while there is something left to change and a disk has had space.
unfoldable pub use_rounds : ℕ → List Disk → ℕ → List Disk × ℕ
unfolding use_round
use_rounds zero disks change = (disks, change)
use_rounds (suc fuel) disks change =
    let (disks', left, avail) = use_round disks change in
    elim (change == 0) [
      | true ↦ (disks, change)
      | false ↦ elim avail [ true ↦ use_rounds fuel disks' left | false ↦ (disks', left) ]
    ]

-- `get_increase_srd_info_r`: the disks, and `change` afterwards. A round that goes on makes the change
-- smaller, so the change and one are rounds enough.
unfoldable pub get_increase_srd_info_r :
    (Text → Place) → List Text → ℕ → AppData → AppData × List Disk × ℕ
unfolding disk_infos use_rounds
get_increase_srd_info_r at paths change d =
    let (d', disks) = disk_infos at paths d in
    let (disks', left) = use_rounds (suc change) disks change in (d', disks', left)

-- The loop of `get_increase_srd_info`
unfoldable pub in_use : List Disk → List Disk
in_use [] = []
in_use (disk ∷ disks) = if ltb 0 disk.used then disk ∷ in_use disks else in_use disks

-- `get_increase_srd_info`
unfoldable pub get_increase_srd_info :
    (Text → Place) → List Text → ℕ → AppData → AppData × List Disk × ℕ
unfolding get_increase_srd_info_r in_use
get_increase_srd_info at paths change d =
    let (d', disks, left) = get_increase_srd_info_r at paths change d in (d', in_use disks, left)

-- `get_disk_info`
unfoldable pub get_disk_info : (Text → Place) → List Text → AppData → AppData × List Disk
unfolding get_increase_srd_info_r
get_disk_info at paths d =
    let (d', disks, left) = get_increase_srd_info_r at paths 0 d in (d', disks)
