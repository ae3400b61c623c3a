-- ===== src/Workload/Cids.antt =====
-- `std::set<std::string>` of content ids: a list in ascending order.
use spacex_storage.Prelude.{
  Ordering, Bool, true, false, List, [], ◌∷◌, ◌≡◌, refl, Text, compare_text, compare_text-eq,
  text_eq, if◌then◌else◌, arith,
}

unfoldable pub insert_cid : Text → List Text → List Text
insert_cid cid [] = cid ∷ []
insert_cid cid (d ∷ ds) =
    let rest = insert_cid cid ds in
    elim (compare_text cid d) [
      | Ordering.lt ↦ cid ∷ d ∷ ds
      | Ordering.eq ↦ d ∷ ds
      | Ordering.gt ↦ d ∷ rest
    ]

unfoldable pub has_cid : Text → List Text → Bool
has_cid cid [] = false
has_cid cid (d ∷ ds) = if text_eq cid d then true else has_cid cid ds

unfoldable pub erase_cid : Text → List Text → List Text
erase_cid cid [] = []
erase_cid cid (d ∷ ds) = if text_eq cid d then ds else d ∷ erase_cid cid ds

-- An insertion adds the one content id to what the set holds.
pub has_cid-insert_cid :
    (c cid : Text) (ds : List Text)
    → has_cid c (insert_cid cid ds) ≡ (if text_eq c cid then true else has_cid c ds)
unfolding has_cid insert_cid
has_cid-insert_cid c cid [] = refl
has_cid-insert_cid c cid (d ∷ ds) =
    ground (arith, compare_text-eq cid d, compare_text-eq c cid, has_cid-insert_cid c cid ds)
