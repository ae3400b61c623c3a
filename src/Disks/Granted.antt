-- ===== src/Disks/Granted.antt =====
-- A round of `srd_check_reserved` asks no disk for more than it has entries.
use spacex_storage.Prelude.{
  ℕ, ◌≡◌, refl, sym, ap, ◌∙◌, false, ◌||◌, List, [], ◌∷◌, map, ℤ, pos, pos_part, neg_part, ◌+ℤ◌,
  ◌≤ℤ◌, ltb_ℤ, Text, text_eq, text_eq_lem, text_eq_refl, All, is_empty, inl, inr, Bool-cases, arith,
  int_laws,
}
use spacex_storage.AppData.Maps.{lookup_key, set_key, lookup-set_key}
use spacex_storage.AppData.Defs.{or_zero}
use spacex_storage.SrdMeta.Defs.{Srd}
use spacex_storage.SrdMeta.Counts.{count, IsCounted}
use spacex_storage.SrdTask.Defs.{finished, wish}
use spacex_storage.Disks.Reserved.{add_wish, del_space, reserved_wishes, check_reserved}
use spacex_storage.Disks.InRange.{has_name, AreDistinct, names, srd_remove_space_in_range}

wish-lookup_key :
    (u : Text) (wishes : List (Text × ℤ)) → wish wishes u ≡ or_zero (lookup_key u wishes)
unfolding lookup_key
wish-lookup_key u [] = refl
wish-lookup_key u ((k, num) ∷ wishes) = ground (arith, wish-lookup_key u wishes)

wish_new :
    (u : Text) (wishes : List (Text × ℤ))
    → has_name u (names wishes) ≡ false
    → wish wishes u ≡ pos 0
wish_new u [] e = refl
wish_new u ((k, num) ∷ wishes) e = ground (arith, wish_new u wishes)

names-set_key :
    (u k : Text) (num : ℤ) (wishes : List (Text × ℤ))
    → has_name u (names (set_key k num wishes)) ≡ (text_eq u k || has_name u (names wishes))
unfolding set_key
names-set_key u k num [] = ground arith
names-set_key u k num ((j, old) ∷ wishes) =
    ground (arith, names-set_key u k num wishes, text_eq_lem k j)

set_key-AreDistinct :
    (k : Text) (num : ℤ) (wishes : List (Text × ℤ))
    → AreDistinct (names wishes)
    → AreDistinct (names (set_key k num wishes))
unfolding set_key
set_key-AreDistinct k num [] h = (refl, tt)
set_key-AreDistinct k num ((j, old) ∷ wishes) h = elim (Bool-cases (text_eq k j)) [
  | inl same ↦ rw same h
  | inr other ↦ rw other (
    ground (arith, names-set_key j k num wishes, text_eq_lem j k, text_eq_refl k),
    set_key-AreDistinct k num wishes h.1,
  )
]

-- A list of wishes whose names are distinct, with no wish above its cap.
abbrev AreGranted : (Text → ℕ) → List (Text × ℤ) → Type 0
AreGranted cap wishes = AreDistinct (names wishes) × ((u : Text) → wish wishes u ≤ℤ pos (cap u))

add_wish-AreGranted :
    (cap : Text → ℕ) (uuid : Text) (num : ℤ) (wishes : List (Text × ℤ))
    → has_name uuid (names wishes) ≡ false
    → num ≤ℤ pos (cap uuid)
    → AreGranted cap wishes
    → AreGranted cap (add_wish uuid num wishes)
unfolding add_wish
add_wish-AreGranted cap uuid num wishes new le g =
    let total = or_zero (lookup_key uuid wishes) +ℤ num in
    let before : or_zero (lookup_key uuid wishes) ≡ pos 0 =
      sym (wish-lookup_key uuid wishes) ∙ wish_new uuid wishes new in
    let bound : total ≤ℤ pos (cap uuid) =
      omega (int_laws, ap pos_part before, ap neg_part before) in
    (
      set_key-AreDistinct uuid total wishes g.0,
      λ u. ground (
        arith,
        bound,
        wish-lookup_key u (set_key uuid total wishes),
        lookup-set_key u uuid total wishes,
        wish-lookup_key u wishes,
        g.1 u,
        text_eq_lem u uuid,
      ),
    )

-- None of the names is among the wishes.
abbrev AreNew : List Text → List (Text × ℤ) → Type 0
AreNew us wishes = All (λ u. has_name u (names wishes) ≡ false) us

AreNew-add_wish :
    (uuid : Text) (num : ℤ) (us : List Text) (wishes : List (Text × ℤ))
    → has_name uuid us ≡ false
    → AreNew us wishes
    → AreNew us (add_wish uuid num wishes)
unfolding add_wish
AreNew-add_wish uuid num [] wishes e h = tt
AreNew-add_wish uuid num (u ∷ us) wishes e h =
    let total = or_zero (lookup_key uuid wishes) +ℤ num in
    (
      ground (arith, names-set_key u uuid total wishes, h.0, text_eq_lem u uuid, text_eq_refl uuid),
      AreNew-add_wish uuid num us wishes (ground arith) h.1,
    )

reserved_wishes-AreGranted :
    (avail : Text → ℕ) (uuid : Text → Text) (detail : Text → ℤ) (cap : Text → ℕ) (paths : List Text)
    (wishes : List (Text × ℤ))
    → ((u : Text) → detail u ≤ℤ pos (cap u))
    → AreDistinct (map uuid paths)
    → AreNew (map uuid paths) wishes
    → AreGranted cap wishes
    → AreGranted cap (reserved_wishes avail uuid detail paths wishes)
unfolding reserved_wishes
reserved_wishes-AreGranted avail uuid detail cap [] wishes le d new g = g
reserved_wishes-AreGranted avail uuid detail cap (path ∷ paths) wishes le d new g =
    let del = del_space (avail path) (detail (uuid path)) in
    let bound : del ≤ℤ pos (cap (uuid path)) = ground (arith, le (uuid path)) in
    let next = reserved_wishes-AreGranted avail uuid detail cap paths in
    elim (Bool-cases (ltb_ℤ (pos 0) del)) [
      | inl some_space ↦ rw some_space (
          next (add_wish (uuid path) del wishes) le d.1
            (AreNew-add_wish (uuid path) del (map uuid paths) wishes d.0 new.1)
            (add_wish-AreGranted cap (uuid path) del wishes new.0 bound g))
      | inr no_space ↦ rw no_space (next wishes le d.1 new.1 g)
    ]

all_new : (us : List Text) → AreNew us []
all_new [] = tt
all_new (u ∷ us) = (refl, all_new us)

-- A round of the check of the reserved space never reads outside of the entries: it asks no disk for
-- more than it has entries. The enclave's figures agree with its entries, the application sees the
-- same figures of the disks, and its paths have distinct names of disks.
pub check_reserved_in_range :
    (avail : Text → ℕ) (uuid : Text → Text) (paths : List Text) (s : Srd)
    → IsCounted s
    → AreDistinct (map uuid paths)
    → (s' : Srd) × (deleted : List Text) × (check_reserved avail uuid s.info.detail paths s
        ≡ finished s' deleted)
unfolding check_reserved
check_reserved_in_range avail uuid paths s c d =
    let le : (u : Text) → s.info.detail u ≤ℤ pos (count u s.hashs) =
      λ u. omega (arith, ap pos_part (c.each u), ap neg_part (c.each u)) in
    let wishes = reserved_wishes avail uuid s.info.detail paths [] in
    let g =
      reserved_wishes-AreGranted avail uuid s.info.detail (λ u. count u s.hashs) paths [] le d
        (all_new (map uuid paths)) (tt, λ u. omega arith) in
    elim (Bool-cases (is_empty wishes)) [
      | inl nothing ↦ (s, [], rw (nothing, check_reserved) refl)
      | inr more ↦
          let (s', deleted, e) = srd_remove_space_in_range wishes s g.0 g.1 in
          (s', deleted, rw (more, check_reserved) e)
    ]
