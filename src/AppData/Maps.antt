-- ===== src/AppData/Maps.antt =====
-- `std::map` and `std::unordered_map` with strings as keys: lists of keys and values, a key found where
-- it stands first.
use spacex_storage.Prelude.{
  Option, none, some, List, [], ◌∷◌, ◌≡◌, refl, Text, text_eq, text_eq_lem, text_eq_refl,
  if◌then◌else◌, arith,
}

module _ {ℓ} {A : Type ℓ} where
  -- `find(key)`
  unfoldable pub lookup_key : Text → List (Text × A) → Option A
  lookup_key key [] = none
  lookup_key key ((k, a) ∷ rest) = if text_eq key k then some a else lookup_key key rest

  -- `[key] = a`
  unfoldable pub set_key : Text → A → List (Text × A) → List (Text × A)
  set_key key a [] = (key, a) ∷ []
  set_key key a ((k, b) ∷ rest) =
      let rest' = set_key key a rest in if text_eq key k then (k, a) ∷ rest else (k, b) ∷ rest'

  -- `erase(key)`
  unfoldable pub erase_key : Text → List (Text × A) → List (Text × A)
  erase_key key [] = []
  erase_key key ((k, a) ∷ rest) =
      let rest' = erase_key key rest in if text_eq key k then rest' else (k, a) ∷ rest'

  pub lookup-set_key :
      (c key : Text) (a : A) (m : List (Text × A))
      → lookup_key c (set_key key a m) ≡ (if text_eq c key then some a else lookup_key c m)
  unfolding lookup_key set_key
  lookup-set_key c key a [] = refl
  lookup-set_key c key a ((k, b) ∷ rest) = ground (
    arith,
    lookup-set_key c key a rest,
    text_eq_lem c k,
    text_eq_lem key k,
    text_eq_lem c key,
    text_eq_refl c,
  )

  pub lookup-erase_key :
      (c key : Text) (m : List (Text × A))
      → lookup_key c (erase_key key m) ≡ (if text_eq c key then none else lookup_key c m)
  unfolding lookup_key erase_key
  lookup-erase_key c key [] = ground arith
  lookup-erase_key c key ((k, a) ∷ rest) = ground (
    arith,
    lookup-erase_key c key rest,
    text_eq_lem c k,
    text_eq_lem key k,
    text_eq_lem c key,
    text_eq_refl c,
  )
