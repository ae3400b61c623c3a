-- ===== src/SrdTask/Sealed.antt =====
-- What `srd_increase` seals, the validator does not refute.
use mathlib.Core.List.{append-nil}
use spacex_storage.Prelude.{
  ℕ, zero, suc, ◌+◌, ◌*◌, ◌%◌, ◌≤◌, ◌<◌, ◌≡◌, refl, sym, ap, ◌∙◌, Bool, true, false, not, some,
  List, [], ◌∷◌, ◌++◌, Text, text_eq_refl, length, length-take_le, take, if◌then◌else◌,
  Option-cases, inl, inr, arith,
}
use spacex_storage.Status.{SpacexStatus, success, is_success, validate_high_priority, malloc_failed}
use spacex_storage.Hex.{hex_string_to_bytes, length-hex_string_to_bytes}
use spacex_storage.SrdMeta.Defs.{push_srd, show_info}
use spacex_storage.Workload.Defs.{Workload, report_has_validated_proof}
use spacex_storage.Storage.Block.Defs.{slice}
use spacex_storage.Storage.Block.RoundTrip.{slice-append, slice_front}
use spacex_storage.SrdTask.Increase.{Increase, leaf_num, seal_leaves, new_item, srd_increase}
use spacex_storage.Validator.Space.{SrdCheck, hash_of, leaf_hash}
use spacex_storage.Validator.Outcome.{is_refuted}

module _ (sha256 : List ℕ → List ℕ) where
  -- What the disk gives for the entry afterwards: the hashes and the leaves as they were saved.
  abbrev pub on_disk : Increase → ℕ → SrdCheck
  on_disk o rand = record {
    m_hashs = some (seal_leaves sha256 o leaf_num 0).1;
    room = true;
    rand = rand;
    leaf = some (o.sealed (rand % leaf_num)).1;
  }

module _ (sha256 : List ℕ → List ℕ)
    (hash_length : (bytes : List ℕ) → length (sha256 bytes) ≡ 32) where
  slice_hash : (bytes rest : List ℕ) → slice (sha256 bytes ++ rest) 0 32 ≡ some (sha256 bytes)
  slice_hash bytes rest =
      ap (λ n. slice (sha256 bytes ++ rest) 0 n) (sym (hash_length bytes))
      ∙ slice_front (sha256 bytes) rest

  seal_leaves_step :
      (o : Increase) (n i : ℕ)
      → (seal_leaves sha256 o (suc n) i).0 ≡ success
      → ((seal_leaves sha256 o n (suc i)).0 ≡ success)
        × ((seal_leaves sha256 o (suc n) i).1
            ≡ sha256 (o.sealed i).1 ++ (seal_leaves sha256 o n (suc i)).1)
  unfolding seal_leaves
  seal_leaves_step o n i e = ground (arith, e)

  -- The hash of each leaf stands at its place.
  seal_leaves-slice :
      (o : Increase) (n i k : ℕ)
      → (seal_leaves sha256 o n i).0 ≡ success
      → k < n
      → slice (seal_leaves sha256 o n i).1 (k * 32) 32 ≡ some (sha256 (o.sealed (i + k)).1)
  seal_leaves-slice o zero i k e lt = absurd (omega (arith, lt))
  seal_leaves-slice o (suc n) i zero e lt =
      let step = seal_leaves_step o n i e in
      let same : i + 0 ≡ i = omega arith in
      rw (step.1, same) (slice_hash (o.sealed i).1 (seal_leaves sha256 o n (suc i)).1)
  seal_leaves-slice o (suc n) i (suc k) e lt =
      let step = seal_leaves_step o n i e in
      let rest = seal_leaves-slice o n (suc i) k step.0 (omega (arith, lt)) in
      let hash = sha256 (o.sealed i).1 in
      let place : suc k * 32 ≡ length hash + k * 32 = omega (arith, hash_length (o.sealed i).1) in
      let same : i + suc k ≡ suc i + k = omega arith in
      rw (step.1, place, same)
        (slice-append hash (seal_leaves sha256 o n (suc i)).1 (k * 32) 32 ∙ rest)

  -- The last bytes of the entry are the hash of the hashes.
  hash_of-new_item :
      (o : Increase) (uuid_bytes m_hashs : List ℕ)
      → length (take 8 uuid_bytes) ≡ 8
      → length (take 2 o.name) ≡ 2
      → hash_of (new_item sha256 uuid_bytes o m_hashs) ≡ sha256 m_hashs
  hash_of-new_item o uuid_bytes m_hashs e8 e2 =
      let disk = take 8 uuid_bytes in
      let dir = take 2 o.name in
      let hash = sha256 m_hashs in
      let ten : 10 ≡ length disk + 2 = omega (arith, e8) in
      let two : 2 ≡ length dir + 0 = omega (arith, e2) in
      let found : slice (new_item sha256 uuid_bytes o m_hashs) 10 32 ≡ some hash =
        ap (λ k. slice (disk ++ (dir ++ hash)) k 32) ten
        ∙ (slice-append disk (dir ++ hash) 2 32
            ∙ (ap (λ k. slice (dir ++ hash) k 32) two
                ∙ (slice-append dir hash 0 32
                    ∙ (ap (λ x. slice x 0 32) (sym (append-nil hash)) ∙ slice_hash m_hashs [])))) in
      rw (found, hash_of) refl

  on_disk_passes :
      (o : Increase) (rand : ℕ) (uuid_bytes : List ℕ)
      → length (take 8 uuid_bytes) ≡ 8
      → length (take 2 o.name) ≡ 2
      → (seal_leaves sha256 o leaf_num 0).0 ≡ success
      → is_refuted sha256
          (new_item sha256 uuid_bytes o (seal_leaves sha256 o leaf_num 0).1)
          (on_disk sha256 o rand)
        ≡ false
  on_disk_passes o rand uuid_bytes e8 e2 ok =
      let m_hashs = (seal_leaves sha256 o leaf_num 0).1 in
      let k = rand % leaf_num in
      let same : 0 + k ≡ k = omega arith in
      let leaf = seal_leaves-slice o leaf_num 0 k ok (omega arith) in
      let at : leaf_hash m_hashs rand ≡ sha256 (o.sealed k).1 =
        rw (leaf, leaf_hash) (ap (λ j. sha256 (o.sealed j).1) same) in
      let whole = hash_of-new_item o uuid_bytes m_hashs e8 e2 in
      rw
        (whole, at, text_eq_refl (sha256 m_hashs), text_eq_refl (sha256 (o.sealed k).1), is_refuted)
        refl

  increase_guards :
      {A : Type 0} (valid base hashs item : Bool) (created leaves saved renamed : SpacexStatus)
      (w r w' : A)
      → ◌≡◌ {A = A × SpacexStatus}
          (if not valid
            then (w, validate_high_priority)
            else if not base
            then (w, malloc_failed)
            else if not (is_success created)
            then (w, created)
            else if not hashs
            then (w, malloc_failed)
            else if not (is_success leaves)
            then (w, leaves)
            else if not (is_success saved)
            then (w, saved)
            else if not (is_success renamed)
            then (w, renamed)
            else if not item
            then (w, malloc_failed)
            else (r, success))
          (w', success)
      → (leaves ≡ success) × (w' ≡ r)
  increase_guards valid base hashs item created leaves saved renamed w r w' e =
      ground (arith, ap (λ x. x.1) e, ap (λ x. x.0) e)

  -- An increase that succeeds appends one entry, and a validator that reads the hashes and any leaf
  -- back as they were saved does not refute it. The hash has 32 bytes, the uuid at least 16 characters
  -- and the random name at least two bytes.
  pub srd_increase-on_disk :
      (o : Increase) (uuid : Text) (w w' : Workload) (rand : ℕ)
      → srd_increase sha256 o uuid w ≡ (w', success)
      → 16 ≤ length uuid
      → 2 ≤ length o.name
      → (item : List ℕ) × (w'.srd.hashs ≡ w.srd.hashs ++ item ∷ [])
        × (is_refuted sha256 item (on_disk sha256 o rand) ≡ false)
  unfolding srd_increase push_srd show_info
  srd_increase-on_disk o uuid w w' rand e long name =
      elim (Option-cases (hex_string_to_bytes (take 16 uuid))) [
        | inl n ↦ ground (arith, n, ap (λ x. x.1) e)
        | inr (uuid_bytes, s) ↦
            let m_hashs = (seal_leaves sha256 o leaf_num 0).1 in
            let item = new_item sha256 uuid_bytes o m_hashs in
            let r = push_srd uuid item w.srd in
            let guards =
              increase_guards (report_has_validated_proof w) o.base_room o.hashs_room o.item_room
                o.created (seal_leaves sha256 o leaf_num 0).0 o.saved_hashs o.renamed w
                (record w { srd = r }) w' (sym (rw (s, srd_increase) refl) ∙ e) in
            let eight : length uuid_bytes ≡ 8 = omega (
              arith,
              length-hex_string_to_bytes (take 16 uuid) uuid_bytes s,
              length-take_le 16 uuid long,
            ) in
            let e8 = length-take_le 8 uuid_bytes (omega (arith, eight)) in
            let e2 = length-take_le 2 o.name name in
            (item, ap (λ x. x.srd.hashs) guards.1, on_disk_passes o rand uuid_bytes e8 e2 guards.0)
      ]
