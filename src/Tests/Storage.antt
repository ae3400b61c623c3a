-- ===== src/Tests/Storage.antt =====
-- The file operations at concrete inputs.
use spacex_storage.Prelude.{
  true, false, none, some, List, [], ◌∷◌, ◌≡◌, refl, text_eq, compare_text, if◌then◌else◌,
}
use spacex_storage.Status.{success, is_success}
use spacex_storage.Files.Defs.{is_file_dup, search, IsSorted}
use spacex_storage.Files.Order.{find}
use spacex_storage.Storage.Pending.{find_pending, all_sealed}
use spacex_storage.Storage.Defs.{
  SealEnd, sealed_entry, check_seal_file_dup, storage_seal_file_start, storage_seal_file_end,
  storage_delete_file, finish_seal,
}
use spacex_storage.Storage.Sorted.{
  StorageOp, start, finish, remove, storage_run, storage_run-IsSorted,
}
use spacex_storage.Storage.Outcome.{storage_seal_file_end_success, storage_delete_file_resurrects}
use spacex_storage.Tests.Data.{
  cid_a, cid_b, cid_c, file_a, file_b, two_files-IsSorted, whole_file, sample, all_well, sum_hash,
  wide,
}

abbrev ops : List StorageOp
ops = start cid_c cid_c ∷ finish cid_b all_well ∷ remove cid_a all_well ∷ []

storage_run-IsSorted_example : IsSorted (storage_run sum_hash wide ops sample).sealed_files
storage_run-IsSorted_example = storage_run-IsSorted sum_hash wide ops sample two_files-IsSorted

start_says_success : (storage_seal_file_start cid_c cid_c sample).1 ≡ success
unfolding storage_seal_file_start check_seal_file_dup is_file_dup search compare_text
start_says_success = refl

whole_file_pending : find_pending cid_b sample.pending_files ≡ some whole_file
unfolding find_pending compare_text
whole_file_pending = refl

whole_file_sealed : all_sealed whole_file.blocks ≡ true
unfolding all_sealed
whole_file_sealed = refl

storage_seal_file_end_success_example :
    ((storage_seal_file_end sum_hash cid_b all_well sample).1 ≡ success)
    × (find cid_a (storage_seal_file_end sum_hash cid_b all_well sample).0.sealed_files ≡ (
        if text_eq cid_a cid_b
        then some (sealed_entry sum_hash cid_b all_well whole_file)
        else find cid_a sample.sealed_files))
    × (find_pending cid_b (storage_seal_file_end sum_hash cid_b all_well sample).0.pending_files
        ≡ none)
storage_seal_file_end_success_example =
    storage_seal_file_end_success sum_hash cid_a cid_b all_well whole_file sample two_files-IsSorted
      whole_file_pending refl whole_file_sealed refl refl

abbrev no_memory : SealEnd
no_memory = record { allocated = false; chain_block = none; persisted = success }

end_fails : is_success (storage_seal_file_end sum_hash cid_b no_memory sample).1 ≡ false
unfolding storage_seal_file_end find_pending compare_text finish_seal all_sealed
end_fails = refl

finds_a : find cid_a sample.sealed_files ≡ some file_a
unfolding compare_text
finds_a = refl

finds_b : find cid_b sample.sealed_files ≡ some file_b
unfolding compare_text
finds_b = refl

storage_delete_file_resurrects_example :
    ((storage_delete_file sum_hash cid_b all_well sample).1 ≡ success)
    × (find cid_b (storage_delete_file sum_hash cid_b all_well sample).0.sealed_files
        ≡ some (sealed_entry sum_hash cid_b all_well whole_file))
storage_delete_file_resurrects_example =
    storage_delete_file_resurrects sum_hash cid_b all_well file_b whole_file sample
      two_files-IsSorted finds_b refl refl whole_file_pending refl whole_file_sealed refl refl
