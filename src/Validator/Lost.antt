-- ===== src/Validator/Lost.antt =====
-- What a round of the validator does to the files.
use spacex_storage.Prelude.{
  ℕ, ◌≡◌, refl, ap, ◌∙◌, Bool, true, false, not, ◌&&◌, ◌||◌, Option, none, some, List, [], ◌∷◌, ℤ,
  negsuc, eq_ℤ, Text, text_eq, text_eq_refl, get_elem?, ◌==◌, if◌then◌else◌, ◌⊎◌, inl, inr,
  Bool-cases, Option-cases, arith,
}
use spacex_storage.Status.{valid, lost, deleted, pending}
use spacex_storage.Files.Defs.{SealedFile, is_file_dup, modify_at, IsSorted}
use spacex_storage.Files.Order.{find}
use spacex_storage.Files.Place.{missing, present, lookup, map_file, find-modify_at}
use spacex_storage.Workload.Defs.{Workload, set_file_spec, call}
use spacex_storage.Validator.Files.{
  FileCheck, not_called, block_indexes, item_hash, is_block_good, check_block, check_blocks,
  check_file, file_turn, turned, apply_change, apply_changes,
}

-- What is recorded: a file that has been valid is lost at the index that its check has left, a lost
-- one is valid with the index -1.
abbrev pub turned_over : SealedFile → SealedFile → SealedFile
turned_over file cur =
    if file.status.current == valid
    then record cur {
      status = record (cur.status) { current = lost };
      lost_index = file.lost_index;
    }
    else record cur { status = record (cur.status) { current = valid }; lost_index = negsuc 0 }

turned-turned_over : (file cur : SealedFile) → turned file cur ≡ turned_over file cur
turned-turned_over file cur = ground arith

-- A change is recorded: the file there is the one that was checked, and it is valid or lost.
abbrev pub is_recorded : SealedFile → Option SealedFile → Bool
is_recorded file none = false
is_recorded file (some cur) =
    eq_ℤ cur.chain_block_num file.chain_block_num
    && (file.status.current == valid || file.status.current == lost)

set_file_spec-files :
    (status : ℕ) (change : ℤ) (w : Workload)
    → (set_file_spec status change w).sealed_files ≡ w.sealed_files
unfolding set_file_spec
set_file_spec-files status change w = ground arith

apply_change_recorded :
    (file cur : SealedFile) (w : Workload)
    → (is_file_dup file.cid w.sealed_files).0 ≡ true
    → get_elem? w.sealed_files (is_file_dup file.cid w.sealed_files).1 ≡ some cur
    → is_recorded file (some cur) ≡ true
    → (apply_change file w).sealed_files
      ≡ modify_at (is_file_dup file.cid w.sealed_files).1 (turned file) w.sealed_files
unfolding apply_change call
apply_change_recorded file cur w dup got e =
    rw (dup, got, e, apply_change) (set_file_spec-files _ _ _ ∙ set_file_spec-files _ _ _)

apply_change_passed :
    (file cur : SealedFile) (w : Workload)
    → (is_file_dup file.cid w.sealed_files).0 ≡ true
    → get_elem? w.sealed_files (is_file_dup file.cid w.sealed_files).1 ≡ some cur
    → is_recorded file (some cur) ≡ false
    → apply_change file w ≡ w
unfolding apply_change
apply_change_passed file cur w dup got e = rw (dup, got, e, apply_change) refl

-- Recording a change turns the one file with this content id over, valid to lost with the index of the lost block and lost to valid, when it is still the one that was checked, by the number of its block on the chain; otherwise nothing changes. The vector stays sorted.
pub apply_change-find :
    (c : Text) (file : SealedFile) (w : Workload)
    → IsSorted w.sealed_files
    → (find c (apply_change file w).sealed_files ≡ (
        if text_eq c file.cid && is_recorded file (find file.cid w.sealed_files)
        then map_file (turned_over file) (find c w.sealed_files)
        else find c w.sealed_files))
      × IsSorted (apply_change file w).sealed_files
unfolding apply_change
apply_change-find c file w s = elim (lookup file.cid w.sealed_files s) [
  | missing dup e ↦ rw (dup, e, apply_change) (ground (arith, s))
  | present cur dup got e lt ↦ elim (Bool-cases (is_recorded file (some cur))) [
    | inl r ↦
        let same = apply_change_recorded file cur w dup got r in
        let changed = find-modify_at file.cid (turned file) (λ f h. h) c w.sealed_files s dup in
        let recorded : is_recorded file (find file.cid w.sealed_files) ≡ true =
          ap (is_recorded file) e ∙ r in
        rw (same, recorded, IsSorted) (ground (arith, changed))
    | inr r ↦
        let same = apply_change_passed file cur w dup got r in
        let passed : is_recorded file (find file.cid w.sealed_files) ≡ false =
          ap (is_recorded file) e ∙ r in
        rw (same, passed, IsSorted) (ground (arith, s))
  ]
]

or_not : (a b c : Bool) → ((a || not b) || not c) ≡ (a || not (b && c))
or_not true b c = refl
or_not false true c = refl
or_not false false c = refl

module _ (sha256 : List ℕ → List ℕ) where
  -- All these blocks are there with their hashes.
  unfoldable pub are_blocks_good : List ℕ → FileCheck → List ℕ → Bool
  are_blocks_good tree c [] = true
  are_blocks_good tree c (index ∷ indexes) =
      is_block_good sha256 tree c index && are_blocks_good tree c indexes

  check_block-lost :
      (tree : List ℕ) (c : FileCheck) (index : ℕ) (file : SealedFile) (is_lost : Bool)
      → (check_block sha256 false tree c index (file, is_lost)).1
        ≡ (is_lost || not (is_block_good sha256 tree c index))
  unfolding check_block is_block_good
  check_block-lost tree c index file is_lost = elim (Option-cases (c.block index)) [
    | inl e ↦ rw (e, check_block, is_block_good) (ground arith)
    | inr (bytes, e) ↦ elim (Bool-cases (text_eq (item_hash tree index) (sha256 bytes))) [
      | inl g ↦ rw (e, g, check_block, is_block_good) (ground arith)
      | inr g ↦ rw (e, g, check_block, is_block_good) (ground arith)
    ]
  ]

  check_blocks-lost :
      (tree : List ℕ) (c : FileCheck) (indexes : List ℕ) (file : SealedFile) (is_lost : Bool)
      → (check_blocks sha256 false tree c indexes (file, is_lost)).1
        ≡ (is_lost || not (are_blocks_good tree c indexes))
  unfolding check_blocks are_blocks_good
  check_blocks-lost tree c [] file is_lost = ground arith
  check_blocks-lost tree c (index ∷ indexes) file is_lost =
      let r = check_block sha256 false tree c index (file, is_lost) in
      let one = check_block-lost tree c index file is_lost in
      let rest = check_blocks-lost tree c indexes r.0 r.1 in
      rest
      ∙ (ap (λ b. b || not (are_blocks_good tree c indexes)) one
          ∙ or_not is_lost (is_block_good sha256 tree c index) (are_blocks_good tree c indexes))

  -- The check of a file whose tree fits and that is valid or lost, and not in the buffer of deleted files: nothing is deleted, and the file is to be changed exactly when it is valid and one of the checked blocks is missing or has another hash, or when it is lost and all of them are there with their hashes.
  pub check_file-changed :
      (c : FileCheck) (tree : List ℕ) (file : SealedFile)
      → c.tree ≡ some tree
      → text_eq file.hash (sha256 tree) ≡ true
      → (file.status.current ≡ valid) ⊎ (file.status.current ≡ lost)
      → let good = are_blocks_good tree c (block_indexes file c.rand) in
        let (file', changed, gone) = check_file sha256 false c file in
        (changed ≡ (if file.status.current == valid then not good else good)) × (gone ≡ false)
  unfolding check_file
  check_file-changed c tree file e fits kind =
      let all = check_blocks-lost tree c (block_indexes file c.rand) file false in
      let to_check : (file.status.current == pending || file.status.current == deleted) ≡ false =
        ground (arith, kind) in
      rw (to_check, e, fits, check_file) (ground (arith, all, kind), refl)

  -- When the call of a thread fails for a lost file that is still the one in the vector, the file becomes valid again, though nothing of it has been checked.
  pub lost_file_not_called :
      (file : SealedFile) (w : Workload)
      → IsSorted w.sealed_files
      → find file.cid w.sealed_files ≡ some file
      → file.status.current ≡ lost
      → find file.cid (apply_changes (file_turn sha256 file not_called w).1 w).sealed_files
        ≡ some (record file {
          status = record (file.status) { current = valid };
          lost_index = negsuc 0;
        })
  unfolding apply_changes file_turn
  lost_file_not_called file w s e k =
      let after = (apply_change-find file.cid file w s).0 in
      let same = text_eq_refl file.cid in
      let known : eq_ℤ file.chain_block_num file.chain_block_num ≡ true = ground arith in
      let recorded : is_recorded file (find file.cid w.sealed_files) ≡ true =
        ap (is_recorded file) e ∙ ground (arith, known, k) in
      let turns : turned_over file file ≡ record file {
        status = record (file.status) { current = valid };
        lost_index = negsuc 0;
      } =
        ground (arith, k) in
      after ∙ (rw (same, recorded, e) (ap some turns))
