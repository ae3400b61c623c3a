-- ===== src/SrdTask/Increase.antt =====
-- `srd_increase` (enclave/srd/Srd.cpp): one entry of sealed space is made. The directory that is
-- removed after a failure is left out.
use spacex_storage.Prelude.{
  ℕ, zero, suc, Bool, not, none, some, List, [], ◌++◌, Text, take, if◌then◌else◌,
}
use spacex_storage.Status.{
  SpacexStatus, success, unexpected_error, malloc_failed, validate_high_priority, is_success,
}
use spacex_storage.Hex.{hex_string_to_bytes}
use spacex_storage.SrdMeta.Defs.{push_srd}
use spacex_storage.Workload.Defs.{Workload, report_has_validated_proof}

-- How the steps outside go: the room for the random data, the random name of the directory, its
-- creation, the room for the hashes, the sealed leaves and their saving, the saving of the hashes, the
-- directory's last name, and the room for the entry.
pub record Increase : Type 0 where
  pub base_room : Bool
  pub name : List ℕ
  pub created : SpacexStatus
  pub hashs_room : Bool
  pub sealed : ℕ → SpacexStatus × List ℕ
  pub saved : ℕ → SpacexStatus
  pub saved_hashs : SpacexStatus
  pub renamed : SpacexStatus
  pub item_room : Bool

-- `SRD_RAND_DATA_NUM`
abbrev pub leaf_num : ℕ
leaf_num = 1024

module _ (sha256 : List ℕ → List ℕ) where
  -- The loop over the leaves from `i` on: the hashes one after the other.
  unfoldable pub seal_leaves : Increase → ℕ → ℕ → SpacexStatus × List ℕ
  seal_leaves o zero i = (success, [])
  seal_leaves o (suc n) i =
      let (status, data') = o.sealed i in
      let (rest_status, rest) = seal_leaves o n (suc i) in
      if not (is_success status)
      then (status, [])
      else if not (is_success (o.saved i))
      then (o.saved i, [])
      else (rest_status, sha256 data' ++ rest)

  -- The entry: the disk's name, the first bytes of the directory's, and the hash of the hashes.
  abbrev pub new_item : List ℕ → Increase → List ℕ → List ℕ
  new_item uuid_bytes o m_hashs = take 8 uuid_bytes ++ (take 2 o.name ++ sha256 m_hashs)

  -- `srd_increase`
  unfoldable pub srd_increase : Increase → Text → Workload → Workload × SpacexStatus
  unfolding seal_leaves
  srd_increase o uuid w = elim (hex_string_to_bytes (take 16 uuid)) [
    | none ↦ (w, unexpected_error)
    | some uuid_bytes ↦
        let (status, m_hashs) = seal_leaves o leaf_num 0 in
        if not (report_has_validated_proof w)
        then (w, validate_high_priority)
        else if not o.base_room
        then (w, malloc_failed)
        else if not (is_success o.created)
        then (w, o.created)
        else if not o.hashs_room
        then (w, malloc_failed)
        else if not (is_success status)
        then (w, status)
        else if not (is_success o.saved_hashs)
        then (w, o.saved_hashs)
        else if not (is_success o.renamed)
        then (w, o.renamed)
        else if not o.item_room
        then (w, malloc_failed)
        else (record w { srd = push_srd uuid (new_item uuid_bytes o m_hashs) w.srd }, success)
  ]
