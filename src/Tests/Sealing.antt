-- ===== src/Tests/Sealing.antt =====
-- The making of an entry at a concrete input.
use spacex_storage.Prelude.{
  ℕ, zero, suc, ◌%◌, ◌≡◌, refl, true, false, List, [], ◌∷◌, ◌++◌, Text, pos, length, arith,
}
use spacex_storage.Status.{SpacexStatus, success}
use spacex_storage.Hex.{hexstring, hex_string_to_bytes}
use spacex_storage.Workload.Defs.{Workload, report_has_validated_proof}
use spacex_storage.SrdTask.Increase.{Increase, leaf_num, seal_leaves, srd_increase}
use spacex_storage.SrdTask.Sealed.{on_disk, srd_increase-on_disk}
use spacex_storage.Validator.Outcome.{is_refuted}
use spacex_storage.Tests.Data.{sample}

abbrev rest_of_hash : List ℕ
rest_of_hash =
    1 ∷ 2 ∷ 3 ∷ 4 ∷ 5 ∷ 6 ∷ 7 ∷ 8 ∷ 9 ∷ 10 ∷ 11 ∷ 12 ∷ 13 ∷ 14 ∷ 15 ∷ 16 ∷ 17 ∷ 18 ∷ 19 ∷ 20 ∷ 21
    ∷ 22 ∷ 23 ∷ 24 ∷ 25 ∷ 26 ∷ 27 ∷ 28 ∷ 29 ∷ 30 ∷ 31 ∷ []

abbrev size_hash : List ℕ → List ℕ
size_hash bytes = (length bytes % 256) ∷ rest_of_hash

abbrev all_sealed : ℕ → SpacexStatus × List ℕ
all_sealed i = (success, i ∷ [])

abbrev all_saved : ℕ → SpacexStatus
all_saved i = success

abbrev making : Increase
making = record {
  base_room = true;
  name = 7 ∷ 8 ∷ 9 ∷ [];
  created = success;
  hashs_room = true;
  sealed = all_sealed;
  saved = all_saved;
  saved_hashs = success;
  renamed = success;
  item_room = true;
}

abbrev disk_uuid : Text
disk_uuid = hexstring (1 ∷ 2 ∷ 3 ∷ 4 ∷ 5 ∷ 6 ∷ 7 ∷ 8 ∷ [])

abbrev validated : Workload
validated = record sample { validated_srd_proof = pos 1; validated_file_proof = pos 1 }

seal_leaves-making : (n i : ℕ) → (seal_leaves size_hash making n i).0 ≡ success
unfolding seal_leaves
seal_leaves-making zero i = refl
seal_leaves-making (suc n) i = ground (arith, seal_leaves-making n (suc i))

abbrev increased : Workload
increased = (srd_increase size_hash making disk_uuid validated).0

increase_succeeds : srd_increase size_hash making disk_uuid validated ≡ (increased, success)
unfolding srd_increase hexstring hex_string_to_bytes report_has_validated_proof
increase_succeeds = rw (seal_leaves-making leaf_num 0, srd_increase) refl

srd_increase-on_disk_example :
    (item : List ℕ) × (increased.srd.hashs ≡ validated.srd.hashs ++ item ∷ [])
    × (is_refuted size_hash item (on_disk size_hash making 5) ≡ false)
unfolding hexstring
srd_increase-on_disk_example =
    srd_increase-on_disk size_hash (λ bytes. refl) making disk_uuid validated increased 5
      increase_succeeds (omega arith) (omega arith)
