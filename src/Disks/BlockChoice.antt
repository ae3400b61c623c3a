-- ===== src/Disks/BlockChoice.antt =====
-- The choice of a disk for a block tries every place of the characters.
use mathlib.Core.Path.{subst}
use spacex_storage.Transfer.Defs.{drop}
use spacex_storage.Prelude.{
  ℕ, zero, suc, ◌+◌, ◌-◌, ◌*◌, ◌%◌, ◌/◌, ◌≤◌, ◌<◌, ◌≡◌, ◌↔◌, refl, ap, sym, ◌∙◌, ◌^◌, [], ◌∷◌,
  ==_iff, ap₂, Bool, true, false, Option, none, some, List, pos, Text, length, get_elem?, take, ltb,
  leb, ◌==◌, ◌||◌, is_empty, if◌then◌else◌, ◌⊎◌, inl, inr, Bool-cases, Option-cases, arith,
}
use spacex_storage.Status.{success, storage_no_enough_space}
use spacex_storage.AppData.Defs.{AppData, get_uuid, add_pending_file_size}
use spacex_storage.Disks.Defs.{Disk}
use spacex_storage.Disks.Blocks.{
  or_zero_char, choose_len, file_disk_limit, for_choose, disk_index, takes_block, choose_loop,
  ocall_save_ipfs_block,
}

module _ (saved : Text → Bool) (size : ℕ) (d : AppData) (disks : List Disk) (chars : Text) where
  -- The disk at a place of the characters does not take the block.
  abbrev pub IsRefused : ℕ → Type 0
  IsRefused k =
      (disk : Disk)
      → get_elem? disks (disk_index chars (length disks) k) ≡ some disk
      → takes_block saved size d disk ≡ false

  -- The place that the loop tries in a round.
  abbrev place_of : ℕ → ℕ → ℕ
  place_of start round = (start + round) % 8 + round / 8 * 8

  -- No place from the round on takes the block, or the disk that is found does.
  abbrev Chooses : ℕ → ℕ → Option Disk → Type 0
  Chooses start round none = (r : ℕ) → round ≤ r → r < 40 → IsRefused (place_of start r)
  Chooses start round (some disk) =
      (takes_block saved size d disk ≡ true)
      × (k : ℕ) × (k < 40)
      × (get_elem? disks (disk_index chars (length disks) k) ≡ some disk)

  next_place :
      (start round : ℕ) → ((start + round) % 8 + 1) % file_disk_limit ≡ (start + suc round) % 8
  next_place start round = omega arith

  next_row :
      (start round : ℕ)
      → start < 8
      → (if ((start + round) % 8 + 1) % file_disk_limit == start
          then suc (round / 8)
          else round / 8)
        ≡ suc round / 8
  next_row start round h = ground arith

  abbrev looked : ℕ → ℕ → ℕ → Option Disk
  looked start fuel round =
      choose_loop saved size d disks chars start fuel ((start + round) % 8) (round / 8)

  loop_next :
      (start fuel round : ℕ)
      → start < 8
      → round < 40
      → IsRefused (place_of start round)
      → looked start (suc fuel) round ≡ looked start fuel (suc round)
  unfolding choose_loop
  loop_next start fuel round h lt refused =
      let more : leb (choose_len / file_disk_limit) (round / 8) ≡ false = ground arith in
      let place = next_place start round in
      let row = next_row start round h in
      let later = ap₂ (λ c i. choose_loop saved size d disks chars start fuel c i) place row in
      elim (Option-cases
        (get_elem? disks (disk_index chars (length disks) (place_of start round)))) [
          | inl e ↦ rw (more, e, choose_loop) later
          | inr (disk, e) ↦ rw (more, e, refused disk e, choose_loop) later
        ]

  Chooses-next :
      (start round : ℕ) (o : Option Disk)
      → IsRefused (place_of start round)
      → Chooses start (suc round) o
      → Chooses start round o
  Chooses-next start round none refused h = λ r le lt. elim (Bool-cases (r == round)) [
    | inl same ↦ let e : r ≡ round = ground arith in rw e refused
    | inr other ↦ h r (ground arith) lt
  ]
  Chooses-next start round (some disk) refused h = h

  looked-Chooses :
      (start fuel round : ℕ)
      → start < 8
      → 41 ≤ fuel + round
      → round ≤ 40
      → Chooses start round (looked start fuel round)
  unfolding choose_loop
  looked-Chooses start zero round h f l = absurd (omega arith)
  looked-Chooses start (suc fuel) round h f l = elim (Bool-cases (ltb round 40)) [
    | inr over ↦
        let end : leb (choose_len / file_disk_limit) (round / 8) ≡ true = ground arith in
        rw (end, choose_loop) (λ r le lt. absurd (ground arith))
    | inl more ↦
        let row : leb (choose_len / file_disk_limit) (round / 8) ≡ false = ground arith in
        let index = disk_index chars (length disks) (place_of start round) in
        let skipped : IsRefused (place_of start round)
            → Chooses start round (looked start (suc fuel) round) =
          λ refused. rw (loop_next start fuel round h (ground arith) refused) (
            Chooses-next start round (looked start fuel (suc round)) refused
              (looked-Chooses start fuel (suc round) h (omega arith) (ground arith))) in
        elim (Option-cases (get_elem? disks index)) [
          | inl none_there ↦ skipped (λ disk e. ground (arith, e, none_there))
          | inr (disk, there) ↦ elim (Bool-cases (takes_block saved size d disk)) [
            | inl takes ↦
                rw (row, there, takes, choose_loop)
                  (takes, place_of start round, ground (arith, row), there)
            | inr refuses ↦ skipped (λ disk' e. ground (arith, e, there, refuses))
          ]
        ]
  ]

  every_place :
      (start k : ℕ) (h : start < 8)
      → k < 40
      → place_of start (k / 8 * 8 + (k % 8 + 8 - start) % 8) ≡ k
  every_place start k h lt = omega (arith, h, lt)

  choose_loop-Chooses :
      (start : ℕ)
      → start < 8
      → Chooses start 0 (choose_loop saved size d disks chars start 41 start 0)
  choose_loop-Chooses start h =
      let origin : (start + 0) % 8 ≡ start = omega arith in
      subst (λ c. Chooses start 0 (choose_loop saved size d disks chars start 41 c 0)) (origin)
        (looked-Chooses start 41 0 h (omega arith) (omega arith))

long_enough :
    (disks : List Disk) (path : Text)
    → is_empty disks ≡ false
    → choose_len < length path
    → (is_empty disks || leb (length path) choose_len) ≡ false
long_enough disks path e h = ground arith

-- A character of the path, from the 40 that end where the content id does, or from the first 40.
abbrev pub character : Text → ℕ → ℕ → ℕ
character path cid_len j = or_zero_char (get_elem? path (cid_len - 40 + j % 40))

-- The disk that four characters in a row stand for.
abbrev pub chosen_index : Text → ℕ → ℕ → ℕ → ℕ
chosen_index path cid_len count k =
    (character path cid_len k
      + character path cid_len (k + 1)
      + character path cid_len (k + 2)
      + character path cid_len (k + 3))
    % count

-- Four times the size of the block is free on the disk, both as numbers of 64 bits, the disk has a name
-- of 16 characters, and the block can be saved there.
abbrev pub CanTake : (Text → Bool) → ℕ → AppData → Disk → Type 0
CanTake saved size d disk =
    (4 * size % 2 ^ 64 < 1024 * 1024 * 1024 * disk.available % 2 ^ 64)
    × (length (get_uuid disk.path d) ≡ 16)
    × (saved disk.path ≡ true)

takes_block-CanTake :
    (saved : Text → Bool) (size : ℕ) (d : AppData) (disk : Disk)
    → (takes_block saved size d disk ≡ true) ↔ CanTake saved size d disk
unfolding takes_block
takes_block-CanTake saved size d disk = ground (arith, ==_iff (length (get_uuid disk.path d)) 16)

get_elem?-drop : (n : ℕ) (xs : List ℕ) (k : ℕ) → get_elem? (drop n xs) k ≡ get_elem? xs (n + k)
get_elem?-drop zero xs k = let at : k ≡ 0 + k = omega arith in ap (get_elem? xs) at
get_elem?-drop (suc n) [] k = refl
get_elem?-drop (suc n) (x ∷ xs) k =
    let at : suc (n + k) ≡ suc n + k = omega arith in
    get_elem?-drop n xs k ∙ ap (get_elem? (x ∷ xs)) at

get_elem?-take : (n : ℕ) (xs : List ℕ) (k : ℕ) → k < n → get_elem? (take n xs) k ≡ get_elem? xs k
get_elem?-take zero xs k h = absurd (omega arith)
get_elem?-take (suc n) [] k h = refl
get_elem?-take (suc n) (x ∷ xs) zero h = refl
get_elem?-take (suc n) (x ∷ xs) (suc k) h = get_elem?-take n xs k (omega arith)

for_choose-character :
    (path : Text) (cid_len k : ℕ)
    → k < 40
    → get_elem? (for_choose path cid_len) k ≡ get_elem? path (cid_len - 40 + k)
unfolding for_choose
for_choose-character path cid_len k h = elim (Bool-cases (ltb choose_len cid_len)) [
  | inl long ↦
      rw long
        (get_elem?-take 40 (drop (cid_len - 40) path) k h ∙ get_elem?-drop (cid_len - 40) path k)
  | inr short ↦
      let at : cid_len - 40 + k ≡ k = ground arith in rw (short, at) (get_elem?-take 40 path k h)
]

disk_index-chosen_index :
    (path : Text) (cid_len count k : ℕ)
    → disk_index (for_choose path cid_len) count k ≡ chosen_index path cid_len count k
unfolding disk_index
disk_index-chosen_index path cid_len count k =
    let at = λ (j : ℕ). for_choose-character path cid_len (j % 40) (omega arith) in
    rw (at k, at (k + 1), at (k + 2), at (k + 3)) refl

-- A block is saved on a disk that one of 40 places stands for, at each of which four characters of the
-- content id, or of the path's front if that is short, choose a disk by their sum. The disk has four
-- times the block's size free, as numbers of 64 bits, it has a name of 16 characters, and the block
-- can be saved there; the disk's name is the result, and the size is added to that of the pending file.
-- When no such disk is found, the status is that there is not enough space, and the disk of every one of
-- the 40 places lacks one of these, whatever the random start. There is a disk, and the path has
-- more than 40 characters.
pub ocall_save_ipfs_block_choice :
    (saved : Text → Bool) (start : ℕ) (disks : List Disk) (path : Text) (cid_len size : ℕ)
    (d : AppData)
    → is_empty disks ≡ false
    → 40 < length path
    → let r = ocall_save_ipfs_block saved start disks path cid_len size d in
      let at = λ (k : ℕ). get_elem? disks (chosen_index path cid_len (length disks) k) in
      ((disk : Disk) × CanTake saved size d disk
        × ((k : ℕ) × (k < 40) × (at k ≡ some disk))
        × (r ≡ (
          add_pending_file_size (take cid_len path) (pos size) d,
          some (get_uuid disk.path d),
          success,
        )))
      ⊎ ((r ≡ (d, none, storage_no_enough_space))
          × ((k : ℕ) (disk : Disk) → k < 40 → at k ≡ some disk → ¬ (CanTake saved size d disk)))
unfolding ocall_save_ipfs_block
ocall_save_ipfs_block_choice saved start disks path cid_len size d some_disk long =
    let chars = for_choose path cid_len in
    let first = start % 8 in
    let chosen = choose_loop-Chooses saved size d disks chars first (omega arith) in
    let tests = long_enough disks path some_disk long in
    let same =
      λ (k : ℕ). ap (get_elem? disks) (disk_index-chosen_index path cid_len (length disks) k) in
    elim (Option-cases (choose_loop saved size d disks chars first 41 first 0)) [
      | inl none_found ↦
          let refused = subst (Chooses saved size d disks chars first 0) (none_found) chosen in
          inr (
            rw (tests, none_found, ocall_save_ipfs_block) refl,
            λ k disk lt there can.
                let here =
                  subst (IsRefused saved size d disks chars)
                    (every_place saved size d disks chars first k (omega arith) lt)
                    (refused (k / 8 * 8 + (k % 8 + 8 - first) % 8) (omega arith)
                      (omega (arith, lt))) in
                let no = here disk (same k ∙ there) in
                let yes = (takes_block-CanTake saved size d disk).1 can in ground (arith, no, yes),
          )
      | inr (disk, there) ↦
          let taken = subst (Chooses saved size d disks chars first 0) (there) chosen in
          inl (
            disk,
            (takes_block-CanTake saved size d disk).0 taken.0,
            (taken.1, taken.2, sym (same taken.1) ∙ taken.3),
            rw (tests, there, ocall_save_ipfs_block) refl,
          )
    ]
