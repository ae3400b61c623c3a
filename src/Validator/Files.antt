-- ===== src/Validator/Files.antt =====
-- `validate_meaningful_file` and `validate_meaningful_file_real`: the check of sealed files.
use spacex_storage.Prelude.{
  ℕ, ◌+◌, ◌*◌, ◌%◌, Bool, true, false, not, ◌&&◌, ◌||◌, Option, none, some, List, [], ◌∷◌, ◌++◌, ℤ,
  pos, negsuc, ◌-ℤ◌, eq_ℤ, ltb_ℤ, text_eq, length, is_empty, get_elem?, leb, ltb, ◌==◌,
  if◌then◌else◌,
}
use spacex_storage.Status.{is_upgrade_success, valid, lost, deleted, pending}
use spacex_storage.SrdMeta.Defs.{insert_idx}
use spacex_storage.Files.Defs.{SealedFile, is_file_dup, modify_at}
use spacex_storage.Workload.Defs.{
  Workload, change_file_type, call, set_file_spec, set_report_file_flag,
  report_add_validated_file_proof,
}
use spacex_storage.Workload.Deleted.{is_in_deleted_file_buffer, deal_deleted_file}
use spacex_storage.Storage.Block.Defs.{slice}
use spacex_storage.Storage.Defs.{SealEnd, storage_delete_file}
use spacex_storage.Validator.Choice.{choose}

-- What the store and the disk give for a file: its tree, a random number, the sealed blocks by index,
-- and the steps of a deletion.
pub record FileCheck : Type 0 where
  pub tree : Option (List ℕ)
  pub rand : ℕ
  pub block : ℕ → Option (List ℕ)
  pub removal : SealEnd

-- As for sealed space.
pub data FileTurn : Type 0 where
  not_called : FileTurn
  in_time late : FileCheck → FileTurn

-- An index below the number of blocks; a JSON number is an integer.
abbrev pub nat_of : ℤ → ℕ
nat_of (pos n) = n
nat_of (negsuc n) = 0

-- The indexes of the blocks to check: a random one, and the one that was lost. A number of blocks that
-- is negative would be a huge one in the source.
unfoldable pub block_indexes : SealedFile → ℕ → List ℕ
block_indexes file rand =
    let num = nat_of file.block_num in
    let drawn : List ℕ = if ltb 0 num then rand % num ∷ [] else [] in
    if file.status.current == lost
      && (ltb_ℤ (pos 0) file.lost_index && ltb_ℤ file.lost_index file.block_num)
    then insert_idx (nat_of file.lost_index) drawn
    else drawn

-- The hash in the item of a block in the tree, which has 8 bytes of a disk's name before it.
abbrev pub item_hash : List ℕ → ℕ → List ℕ
item_hash tree index = elim (slice tree (index * 40 + 8) 32) [ none ↦ [] | some hash ↦ hash ]

-- The next state of a file by what was found: valid or lost; others are passed over.
abbrev pub is_changed : SealedFile → Bool → Bool
is_changed file is_lost =
    (not is_lost && file.status.current == lost) || (is_lost && file.status.current == valid)

module _ (sha256 : List ℕ → List ℕ) where
  -- The block is there with its hash.
  unfoldable pub is_block_good : List ℕ → FileCheck → ℕ → Bool
  is_block_good tree c index = elim (c.block index) [
    | none ↦ false
    | some bytes ↦ text_eq (item_hash tree index) (sha256 bytes)
  ]

  -- One round of the loop over the blocks: the file with its lost index, and whether a block is lost.
  -- A block that cannot be got of a file in the buffer is passed over.
  unfoldable pub check_block : Bool → List ℕ → FileCheck → ℕ → SealedFile × Bool → SealedFile × Bool
  unfolding is_block_good
  check_block in_buffer tree c index (file, is_lost) =
      let failed : SealedFile × Bool = (
        (if file.status.current == valid then record file { lost_index = pos index } else file),
        true,
      ) in
      elim (c.block index) [
        | none ↦ if in_buffer then (file, is_lost) else failed
        | some bytes ↦ if is_block_good tree c index then (file, is_lost) else failed
      ]

  unfoldable pub check_blocks :
      Bool → List ℕ → FileCheck → List ℕ → SealedFile × Bool → SealedFile × Bool
  unfolding check_block
  check_blocks in_buffer tree c [] r = r
  check_blocks in_buffer tree c (index ∷ indexes) r =
      check_blocks in_buffer tree c indexes (check_block in_buffer tree c index r)

  -- `validate_meaningful_file_real` without its deferred block: the file with its lost index, whether
  -- it has changed, and whether it is to be deleted. A tree that does not fit changes nothing.
  unfoldable pub check_file : Bool → FileCheck → SealedFile → SealedFile × Bool × Bool
  unfolding check_blocks block_indexes
  check_file in_buffer c file =
      if file.status.current == pending || file.status.current == deleted
      then (file, false, false)
      else elim (c.tree) [
        | none ↦ (file, false, not in_buffer)
        | some tree ↦
            if not (text_eq file.hash (sha256 tree))
            then (file, false, false)
            else (let (file', is_lost) =
                  check_blocks in_buffer tree c (block_indexes file c.rand) (file, false) in
                (file', is_changed file is_lost, false))
      ]

  -- One file of the round: the workload, the files to change, and whether it counts as validated.
  unfoldable pub file_turn : SealedFile → FileTurn → Workload → Workload × List SealedFile × Bool
  unfolding check_file
  file_turn file not_called w = (w, file ∷ [], true)
  file_turn file (in_time c) w =
      let (file', changed, gone) = check_file (is_in_deleted_file_buffer file.cid w) c file in
      let w' = if gone then (storage_delete_file sha256 file.cid c.removal w).0 else w in
      (w', (if changed then file' ∷ [] else []), true)
  file_turn file (late c) w = (w, [], false)

  -- The round, over the chosen files, with the number of validated ones.
  unfoldable pub file_round :
      (ℕ → FileTurn) → List SealedFile → List ℕ → Workload → Workload × List SealedFile × ℕ
  unfolding file_turn
  file_round turn files [] w = (w, [], 0)
  file_round turn files (index ∷ indexes) w = elim (get_elem? files index) [
    | none ↦ file_round turn files indexes w
    | some file ↦
        let (w', changed, counted) = file_turn file (turn index) w in
        let (w'', more, n) = file_round turn files indexes w' in
        (w'', changed ++ more, if counted then n + 1 else n)
  ]

-- The status that a change leads to.
abbrev pub other_status : ℕ → ℕ
other_status status = if status == valid then lost else valid

-- The new status and lost index of a file whose change is recorded.
abbrev pub turned : SealedFile → SealedFile → SealedFile
turned file cur = record cur {
  status = record (cur.status) { current = other_status file.status.current };
  lost_index = if file.status.current == valid then file.lost_index else negsuc 0;
}

-- One round of the loop that records the changes. The file is passed over if it has been sealed anew
-- since, or is neither valid nor lost.
unfoldable pub apply_change : SealedFile → Workload → Workload
apply_change file w =
    let (dup, at) = is_file_dup file.cid w.sealed_files in
    let old = file.status.current in
    if not dup then w else elim (get_elem? w.sealed_files at) [
      | none ↦ w
      | some cur ↦
          if eq_ℤ cur.chain_block_num file.chain_block_num && (old == valid || old == lost)
          then call (change_file_type file.cid old (other_status old)) (
              set_file_spec old (pos 0 -ℤ file.size) (
                set_file_spec (other_status old) file.size
                  (record w { sealed_files = modify_at at (turned file) w.sealed_files })))
          else w
    ]

unfoldable pub apply_changes : List SealedFile → Workload → Workload
unfolding apply_change
apply_changes [] w = w
apply_changes (file ∷ files) w = apply_changes files (apply_change file w)

-- `validate_meaningful_file`, with the answer whether IPFS is online; the buffer is dealt with however
-- it is left.
unfoldable pub validate_meaningful_file :
    (List ℕ → List ℕ) → Bool → (ℕ → ℕ) → (ℕ → List ℕ) → (ℕ → FileTurn) → Workload → Workload
unfolding file_round apply_changes
validate_meaningful_file sha256 online rate rands turn w =
    if is_upgrade_success w.upgrade_status
    then deal_deleted_file w
    else (let chosen = choose rate rands (length w.sealed_files) in
        let w1 = if not (is_empty chosen) && not online then set_report_file_flag false w else w in
        let (w2, changed, n) = file_round sha256 turn w1.sealed_files chosen w1 in
        let w3 = if leb (length chosen) n then report_add_validated_file_proof w2 else w2 in
        deal_deleted_file (apply_changes changed w3))
