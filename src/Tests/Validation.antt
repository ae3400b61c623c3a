-- ===== src/Tests/Validation.antt =====
-- The validator and the clean-up behind it at concrete inputs.
use spacex_storage.Prelude.{
  ℕ, ◌≡◌, refl, true, not, ◌&&◌, none, some, List, [], ◌∷◌, pos, negsuc, text_eq, compare_text,
  length, if◌then◌else◌,
}
use spacex_storage.Status.{success, is_upgrade_success, valid, lost}
use spacex_storage.SrdMeta.Defs.{has_idx}
use spacex_storage.SrdMeta.Delete.{survivors}
use spacex_storage.Files.Defs.{SealedFile, IsSorted}
use spacex_storage.Files.Order.{find}
use spacex_storage.Files.Place.{map_file}
use spacex_storage.Workload.Defs.{Workload}
use spacex_storage.Workload.Cids.{has_cid}
use spacex_storage.Workload.Deleted.{
  deal_deleted_file, deleted_for_good, IsCidSet, deal_deleted_file-find,
}
use spacex_storage.Workload.Recover.{Commit, cids, no_key}
use spacex_storage.Validator.Choice.{choose}
use spacex_storage.Validator.Space.{SrdTurn, not_called, validate_srd}
use spacex_storage.Validator.Outcome.{index_goes, validate_srd-survivors}
use spacex_storage.Validator.Files.{
  FileCheck, block_indexes, check_file, turned, apply_change, apply_changes, file_turn,
}
use spacex_storage.Validator.Files
use spacex_storage.Validator.Lost.{is_recorded, apply_change-find, lost_file_not_called}
use spacex_storage.Tests.Data.{
  cid_a, cid_b, sample, file_a, sealed_file, two_files-IsSorted, all_well, sum_hash,
}

abbrev with_deleted : Workload
with_deleted = record sample { deleted_cids = cid_a ∷ [] }

deal_deleted_file-find_example :
    let w' = deal_deleted_file with_deleted in
    let goes =
      has_cid cid_a with_deleted.deleted_cids
      && deleted_for_good (find cid_a with_deleted.sealed_files) in
    (find cid_a w'.sealed_files ≡ (if goes then none else find cid_a with_deleted.sealed_files))
    × (has_cid cid_a w'.deleted_cids ≡ (has_cid cid_a with_deleted.deleted_cids && not goes))
    × IsSorted w'.sealed_files
    × IsCidSet w'.deleted_cids
deal_deleted_file-find_example =
    deal_deleted_file-find cid_a with_deleted two_files-IsSorted (tt, tt)

abbrev commit : Commit
commit = record { parsed = success; added = cids (cid_a ∷ cid_b ∷ []); removed = no_key }

abbrev with_srd : Workload
with_srd = record sample { srd = record (sample.srd) { hashs = (1 ∷ 2 ∷ []) ∷ (3 ∷ []) ∷ [] } }

abbrev none_called : ℕ → SrdTurn
none_called index = not_called

abbrev no_rate : ℕ → ℕ
no_rate n = 0

abbrev no_rands : ℕ → List ℕ
no_rands n = []

validate_srd-survivors_example :
    let w' = validate_srd sum_hash no_rate no_rands none_called with_srd in
    let items = with_srd.srd.hashs in
    (w'.srd.deleted_idx ≡ [])
    × (gone : List ℕ) × (w'.srd.hashs ≡ survivors 0 gone items)
    × ((k : ℕ)
        → has_idx k gone ≡ (
            if not (is_upgrade_success with_srd.upgrade_status)
              && (has_idx k (choose no_rate no_rands (length items))
                  && index_goes sum_hash none_called items k)
            then true
            else has_idx k with_srd.srd.deleted_idx))
validate_srd-survivors_example =
    validate_srd-survivors sum_hash no_rate no_rands none_called with_srd tt

abbrev file_lost : SealedFile
file_lost = sealed_file cid_a lost valid (pos 10)

abbrev with_lost : Workload
with_lost = record sample { sealed_files = file_lost ∷ [] }

apply_change-find_example :
    (find cid_a (apply_change file_lost with_lost).sealed_files ≡ (
      if text_eq cid_a file_lost.cid
        && is_recorded file_lost (find file_lost.cid with_lost.sealed_files)
      then map_file (turned file_lost) (find cid_a with_lost.sealed_files)
      else find cid_a with_lost.sealed_files))
    × IsSorted (apply_change file_lost with_lost).sealed_files
apply_change-find_example = apply_change-find cid_a file_lost with_lost (tt, tt)

abbrev check : FileCheck
check = record { tree = some (7 ∷ []); rand = 0; block = λ index. none; removal = all_well }

file_a-fits : text_eq file_a.hash (sum_hash (7 ∷ [])) ≡ true
unfolding compare_text
file_a-fits = refl

found_lost : find file_lost.cid with_lost.sealed_files ≡ some file_lost
unfolding compare_text
found_lost = refl

lost_file_not_called_example :
    find file_lost.cid
      (apply_changes
        (file_turn sum_hash file_lost Files.not_called with_lost).1
        with_lost).sealed_files
    ≡ some (record file_lost {
      status = record (file_lost.status) { current = valid };
      lost_index = negsuc 0;
    })
lost_file_not_called_example =
    lost_file_not_called sum_hash file_lost with_lost (tt, tt) found_lost refl
