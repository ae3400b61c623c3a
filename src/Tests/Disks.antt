-- ===== src/Tests/Disks.antt =====
-- The disks of the application at concrete inputs.
use spacex_storage.Prelude.{
  ℕ, zero, suc, ◌-◌, ◌<◌, min, ◌≡◌, refl, true, Bool, none, some, List, [], ◌∷◌, map, All, ℤ, pos,
  ◌+ℤ◌, Text, length, take, get_elem?, ltb, if◌then◌else◌, ◌⊎◌, arith,
}
use spacex_storage.Status.{success, srd_number_exceed, malloc_failed, storage_no_enough_space}
use spacex_storage.AppData.Defs.{AppData, no_upgrade, get_uuid, add_pending_file_size}
use spacex_storage.SrdMeta.Defs.{Srd, uuid_of}
use spacex_storage.SrdTask.Defs.{finished}
use spacex_storage.Disks.Defs.{Place, Disk, disk_infos, get_increase_srd_info_r}
use spacex_storage.Disks.Fair.{
  total_used, capacity, unused, IsNearLevel, get_increase_srd_info_r_spread,
}
use spacex_storage.Disks.Change.{Answer, count_successes, srd_change}
use spacex_storage.Disks.Tasks.{count, given, srd_change_tasks}
use spacex_storage.Disks.Reserved.{check_reserved}
use spacex_storage.Disks.Granted.{check_reserved_in_range}
use spacex_storage.Disks.Blocks.{ocall_save_ipfs_block}
use spacex_storage.Disks.BlockChoice.{CanTake, chosen_index, ocall_save_ipfs_block_choice}
use spacex_storage.Tests.Data.{cid_a, cid_b}
use spacex_storage.Tests.Space.{item, one_item, one_item-IsCounted}

-- A disk with its name in its file and space for three entries.
abbrev place : Text → Place
place path = record {
  is_valid = true;
  has_file = true;
  content = some path;
  rand = [];
  saved = true;
  created = true;
  avail = 53;
  total = 100;
}

abbrev paths : List Text
paths = cid_a ∷ cid_b ∷ []

abbrev no_disks : AppData
no_disks = record {
  sealed_file = [];
  pending_size = [];
  upgrade_data = [];
  upgrade_status = no_upgrade;
  disabled = 0;
  uuid_to_path = [];
  path_to_uuid = [];
}

get_increase_srd_info_r_spread_example :
    let found = (disk_infos place paths no_disks).1 in
    let (d', disks, left) = get_increase_srd_info_r place paths 5 no_disks in
    (map unused disks ≡ map unused found)
    × (left ≡ 5 - capacity found)
    × (total_used disks ≡ min 5 (capacity found))
    × (level : ℕ) × All (IsNearLevel level) disks
get_increase_srd_info_r_spread_example = get_increase_srd_info_r_spread place paths 5 no_disks

-- The second task fails.
abbrev answer : ℕ → Answer
answer zero = some (true, success)
answer (suc zero) = some (true, malloc_failed)
answer (suc (suc i)) = some (true, success)

abbrev give_back : ℤ → ℤ → ℤ
give_back change task = task +ℤ change

abbrev no_decrease : ℕ → ℤ → ℤ
no_decrease change task = task

srd_change_tasks_example :
    let space = capacity (disk_infos place paths no_disks).1 in
    let disks = (get_increase_srd_info_r place paths 8 no_disks).1 in
    let (d', e', tasks, status) =
      srd_change give_back no_decrease place paths answer (pos 8) no_disks (pos 0) in
    let num = count_successes answer 0 tasks in
    ((u : Text) → count u tasks ≡ given u disks)
    × (length tasks ≡ min 8 space)
    × (status ≡ (if ltb space 8 then srd_number_exceed else success))
    × (e'
        ≡ (if ltb num (length tasks) then give_back (pos (length tasks - num)) (pos 0) else pos 0))
srd_change_tasks_example =
    srd_change_tasks give_back no_decrease place paths answer 8 no_disks (pos 0) (omega arith)

-- The disk of the entry has run short of space.
abbrev short : Text → ℕ
short path = 40

abbrev disk_name : Text → Text
disk_name path = uuid_of item

check_reserved_in_range_example :
    (s' : Srd) × (deleted : List Text) × (check_reserved short disk_name one_item.info.detail
        (cid_a ∷ [])
        one_item
      ≡ finished s' deleted)
check_reserved_in_range_example =
    check_reserved_in_range short disk_name (cid_a ∷ []) one_item one_item-IsCounted (refl, tt)

abbrev long_path : ℕ → Text
long_path zero = b'/' ∷ []
long_path (suc n) = b'Q' ∷ long_path n

abbrev named : AppData
named = record no_disks { path_to_uuid = (cid_a, take 16 (long_path 16)) ∷ [] }

abbrev disks : List Disk
disks =
    record {
      uuid = take 16 (long_path 16);
      path = cid_a;
      available = 10;
      volume = 100;
      available_for_srd = 0;
      used = 0;
    }
    ∷ []

abbrev saves : Text → Bool
saves path = true

ocall_save_ipfs_block_choice_example :
    let r = ocall_save_ipfs_block saves 3 disks (long_path 46) 46 1000 named in
    let at = λ (k : ℕ). get_elem? disks (chosen_index (long_path 46) 46 (length disks) k) in
    ((disk : Disk) × CanTake saves 1000 named disk
      × ((k : ℕ) × (k < 40) × (at k ≡ some disk))
      × (r ≡ (
        add_pending_file_size (take 46 (long_path 46)) (pos 1000) named,
        some (get_uuid disk.path named),
        success,
      )))
    ⊎ ((r ≡ (named, none, storage_no_enough_space))
        × ((k : ℕ) (disk : Disk) → k < 40 → at k ≡ some disk → ¬ (CanTake saves 1000 named disk)))
ocall_save_ipfs_block_choice_example =
    ocall_save_ipfs_block_choice saves 3 disks (long_path 46) 46 1000 named refl (omega arith)
