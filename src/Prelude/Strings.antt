-- ===== src/Prelude/Strings.antt =====
-- `std::string` as its list of bytes, with the order of `std::string::compare`: the first byte that
-- differs decides, and a proper prefix comes first.
use Prim.Native.Nat.{ℕ, compare, Ordering}
use mathlib.Core.Path.{◌≡◌, refl}
use mathlib.Core.Logic.{◌⊎◌, inl, inr}
use mathlib.Core.Bool.{Bool, true, false}
use mathlib.Core.List.{List, [], ◌∷◌}
use native.Mathlib.Omega.{arith}

abbrev pub Text : Type 0
Text = List ℕ

unfoldable pub compare_text : Text → Text → Ordering
compare_text [] [] = Ordering.eq
compare_text [] (y ∷ ys) = Ordering.lt
compare_text (x ∷ xs) [] = Ordering.gt
compare_text (x ∷ xs) (y ∷ ys) = elim (compare x y) [
  | Ordering.lt ↦ Ordering.lt
  | Ordering.gt ↦ Ordering.gt
  | Ordering.eq ↦ compare_text xs ys
]

-- `a` comes strictly before `b`.
abbrev pub Before : Text → Text → Type 0
Before a b = compare_text a b ≡ Ordering.lt

-- `a == b` on strings.
abbrev pub text_eq : Text → Text → Bool
text_eq a b = elim (compare_text a b) [ Ordering.eq ↦ true | _ ↦ false ]

-- To split on a comparison and keep the equation.
pub Ordering-cases : (o : Ordering) → (o ≡ Ordering.lt) ⊎ ((o ≡ Ordering.eq) ⊎ (o ≡ Ordering.gt))
Ordering-cases Ordering.lt = inl refl
Ordering-cases Ordering.eq = inr (inl refl)
Ordering-cases Ordering.gt = inr (inr refl)

pub compare_text_refl : (a : Text) → compare_text a a ≡ Ordering.eq
unfolding compare_text
compare_text_refl [] = refl
compare_text_refl (x ∷ xs) = ground (arith, compare_text_refl xs)

pub compare_text-eq : (a b : Text) → compare_text a b ≡ Ordering.eq → a ≡ b
unfolding compare_text
compare_text-eq [] [] e = refl
compare_text-eq [] (y ∷ ys) e = cc
compare_text-eq (x ∷ xs) [] e = cc
compare_text-eq (x ∷ xs) (y ∷ ys) e = ground (arith, compare_text-eq xs ys)

pub compare_text-flip : (a b : Text) → compare_text a b ≡ Ordering.gt → Before b a
unfolding compare_text
compare_text-flip [] [] e = cc
compare_text-flip [] (y ∷ ys) e = cc
compare_text-flip (x ∷ xs) [] e = refl
compare_text-flip (x ∷ xs) (y ∷ ys) e = ground (arith, compare_text-flip xs ys)

pub Before-flip : (a b : Text) → Before a b → compare_text b a ≡ Ordering.gt
unfolding compare_text
Before-flip [] [] e = cc
Before-flip [] (y ∷ ys) e = refl
Before-flip (x ∷ xs) [] e = cc
Before-flip (x ∷ xs) (y ∷ ys) e = ground (arith, Before-flip xs ys)

pub Before-trans : (a b c : Text) → Before a b → Before b c → Before a c
unfolding compare_text
Before-trans [] [] [] p q = cc
Before-trans [] (y ∷ ys) [] p q = cc
Before-trans [] b (z ∷ zs) p q = refl
Before-trans (x ∷ xs) [] c p q = cc
Before-trans (x ∷ xs) (y ∷ ys) [] p q = cc
Before-trans (x ∷ xs) (y ∷ ys) (z ∷ zs) p q = ground (arith, Before-trans xs ys zs)

pub text_eq_lem : (a b : Text) → text_eq a b ≡ true → a ≡ b
text_eq_lem a b h = ground (arith, compare_text-eq a b)

pub text_eq_refl : (a : Text) → text_eq a a ≡ true
text_eq_refl a = rw (compare_text_refl a, text_eq)
