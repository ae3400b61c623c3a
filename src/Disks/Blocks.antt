-- ===== src/Disks/Blocks.antt =====
-- `ocall_save_ipfs_block` (app/ocalls/IpfsOCalls.cpp): the disk for a block of a file is chosen by the
-- characters of its content id.
use spacex_storage.Prelude.{
  ℕ, zero, suc, ◌+◌, ◌-◌, ◌*◌, ◌%◌, ◌/◌, Bool, ◌&&◌, ◌||◌, Option, none, some, List, pos, Text,
  length, get_elem?, take, ltb, leb, ◌==◌, is_empty, if◌then◌else◌,
}
use spacex_storage.Status.{SpacexStatus, success, unexpected_error, storage_no_enough_space}
use spacex_storage.AppData.Defs.{AppData, get_uuid, add_pending_file_size}
use spacex_storage.Workload.Defs.{size_mod}
use spacex_storage.Transfer.Defs.{drop}
use spacex_storage.Disks.Defs.{Disk}

-- `choose_len` and `FILE_DISK_LIMIT`
abbrev pub choose_len : ℕ
choose_len = 40

abbrev pub file_disk_limit : ℕ
file_disk_limit = 8

-- `size_t`
abbrev gigabyte : ℕ
gigabyte = 1024 * 1024 * 1024

abbrev pub or_zero_char : Option ℕ → ℕ
or_zero_char none = 0
or_zero_char (some c) = c

-- The characters that choose: 40 before the last slash, at `cid_len`, or the first 40.
unfoldable pub for_choose : Text → ℕ → Text
for_choose path cid_len =
    if ltb choose_len cid_len
    then take choose_len (drop (cid_len - choose_len) path)
    else take choose_len path

-- The disk of an index, `di`.
unfoldable pub disk_index : Text → ℕ → ℕ → ℕ
disk_index chars size ii =
    let char = λ (k : ℕ). or_zero_char (get_elem? chars (k % choose_len)) in
    (char ii + char (ii + 1) + char (ii + 2) + char (ii + 3)) % size

-- Whether a disk has the space, as numbers of 64 bits, and a name; `saved` tells whether the file can be saved on it.
unfoldable pub takes_block : (Text → Bool) → ℕ → AppData → Disk → Bool
takes_block saved size d disk =
    ltb (size * 4 % size_mod) (disk.available * gigabyte % size_mod)
    && (length (get_uuid disk.path d) == 16 && saved disk.path)

-- The loop `for (size_t i = 0; i < choose_len / FILE_DISK_LIMIT;)`, whose index `ci` goes round and
-- moves `i` on when it is back at its start. The disk that takes the block is the result.
unfoldable pub choose_loop :
    (Text → Bool) → ℕ → AppData → List Disk → Text → ℕ → ℕ → ℕ → ℕ → Option Disk
unfolding disk_index takes_block
choose_loop saved size d disks chars start zero ci i = none
choose_loop saved size d disks chars start (suc fuel) ci i =
    let ci' = (ci + 1) % file_disk_limit in
    let later =
      choose_loop saved size d disks chars start fuel ci' (if ci' == start then suc i else i) in
    if leb (choose_len / file_disk_limit) i
    then none
    else elim (get_elem? disks (disk_index chars (length disks) (ci + i * file_disk_limit))) [
      | none ↦ later
      | some disk ↦ if takes_block saved size d disk then some disk else later
    ]

-- `ocall_save_ipfs_block`; `cid_len` is `find_last_of('/')`, `start` the random start. The disk's name is
-- given back with the status. The loop makes 40 rounds at most.
unfoldable pub ocall_save_ipfs_block :
    (Text → Bool) → ℕ → List Disk → Text → ℕ → ℕ → AppData → AppData × Option Text × SpacexStatus
ocall_save_ipfs_block saved start disks path cid_len size d =
    if is_empty disks || leb (length path) choose_len
    then (d, none, unexpected_error)
    else elim (choose_loop saved size d disks (for_choose path cid_len) (start % file_disk_limit) 41
        (start % file_disk_limit) 0) [
          | none ↦ (d, none, storage_no_enough_space)
          | some disk ↦ (
            add_pending_file_size (take cid_len path) (pos size) d,
            some (get_uuid disk.path d),
            success,
          )
        ]
