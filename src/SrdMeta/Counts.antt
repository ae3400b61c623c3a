-- ===== src/SrdMeta/Counts.antt =====
-- The figures shown of the sealed space agree with `srd_hashs`.
use mathlib.Core.List.{reverse}
use spacex_storage.Prelude.{
  ℕ, zero, suc, ◌≡◌, refl, ap, some, List, [], ◌∷◌, ◌++◌, pos, ◌+ℤ◌, Text, text_eq, length,
  is_empty, get_elem?, erase_at, if◌then◌else◌, length-append, Option-cases, inl, inr, arith,
}
use spacex_storage.SrdMeta.Defs.{
  Srd, uuid_of, set_srd_info, clean_srd, show_info, delete_one, delete_loop, delete_srd_meta,
  deal_deleted_srd, push_srd,
}

-- The entries on the disk with the given id.
unfoldable pub count : Text → List (List ℕ) → ℕ
count u [] = 0
count u (x ∷ xs) = if text_eq u (uuid_of x) then suc (count u xs) else count u xs

-- The total and the figure of each disk are the numbers of entries.
pub record IsCounted (s : Srd) : Type 0 where
  pub total : s.info.complete ≡ pos (length s.hashs)
  pub each : (u : Text) → s.info.detail u ≡ pos (count u s.hashs)

length-erase_at :
    (i : ℕ) (x : List ℕ) (xs : List (List ℕ))
    → get_elem? xs i ≡ some x
    → length xs ≡ suc (length (erase_at i xs))
length-erase_at i x [] e = cc
length-erase_at zero x (y ∷ ys) e = refl
length-erase_at (suc i) x (y ∷ ys) e = ap suc (length-erase_at i x ys e)

count-erase_at :
    (u : Text) (i : ℕ) (x : List ℕ) (xs : List (List ℕ))
    → get_elem? xs i ≡ some x
    → count u xs
      ≡ (if text_eq u (uuid_of x) then suc (count u (erase_at i xs)) else count u (erase_at i xs))
unfolding count
count-erase_at u i x [] e = cc
count-erase_at u zero x (y ∷ ys) e = ground arith
count-erase_at u (suc i) x (y ∷ ys) e = ground (arith, count-erase_at u i x ys e)

count-append :
    (u : Text) (xs : List (List ℕ)) (x : List ℕ)
    → count u (xs ++ x ∷ []) ≡ (if text_eq u (uuid_of x) then suc (count u xs) else count u xs)
unfolding count
count-append u [] x = refl
count-append u (y ∷ ys) x = ground (arith, count-append u ys x)

delete_one-IsCounted :
    (i : ℕ) (x : List ℕ) (s : Srd)
    → get_elem? s.hashs i ≡ some x
    → IsCounted s
    → IsCounted (delete_one i x s)
unfolding delete_one set_srd_info ◌+ℤ◌
delete_one-IsCounted i x s e v = record {
  total = ground (arith, length-erase_at i x s.hashs e, v.total);
  each = λ u. ground (arith, count-erase_at u i x s.hashs e, v.each u);
}

delete_loop-IsCounted : (is : List ℕ) (s : Srd) → IsCounted s → IsCounted (delete_loop is s).0
unfolding delete_loop
delete_loop-IsCounted [] s v = v
delete_loop-IsCounted (i ∷ is) s v = elim (Option-cases (get_elem? s.hashs i)) [
  | inl out ↦ rw (out, delete_loop) (delete_loop-IsCounted is s v)
  | inr (hash, hit) ↦
      rw (hit, delete_loop)
        (delete_loop-IsCounted is (delete_one i hash s) (delete_one-IsCounted i hash s hit v))
]

-- Deleting entries, in any order and at any indexes, keeps the figures right, and a call with indexes tells the app of them.
pub delete_srd_meta-IsCounted :
    (is : List ℕ) (s : Srd)
    → IsCounted s
    → IsCounted (delete_srd_meta is s).0
      × ((delete_srd_meta is s).0.shown
          ≡ (if is_empty is then s.shown else (delete_srd_meta is s).0.info))
unfolding delete_srd_meta show_info
delete_srd_meta-IsCounted [] s v = (v, refl)
delete_srd_meta-IsCounted (i ∷ is) s v =
    let w = delete_loop-IsCounted (reverse (i ∷ is)) s v in
    (record { total = w.total; each = w.each }, refl)

pub deal_deleted_srd-IsCounted : (s : Srd) → IsCounted s → IsCounted (deal_deleted_srd s)
unfolding deal_deleted_srd
deal_deleted_srd-IsCounted s v =
    (delete_srd_meta-IsCounted s.deleted_idx (record s { deleted_idx = [] })
      (record { total = v.total; each = v.each })).0

-- An entry that is put at the end under the id of its disk keeps the figures right.
pub push_srd-IsCounted :
    (item : List ℕ) (s : Srd) → IsCounted s → IsCounted (push_srd (uuid_of item) item s)
unfolding push_srd show_info set_srd_info ◌+ℤ◌
push_srd-IsCounted item s v = record {
  total = ground (arith, length-append s.hashs (item ∷ []), v.total);
  each = λ u. ground (arith, count-append u s.hashs item, v.each u);
}

pub clean_srd-IsCounted : (s : Srd) → IsCounted (clean_srd s)
unfolding clean_srd count
clean_srd-IsCounted s = record { total = refl; each = λ u. refl }
