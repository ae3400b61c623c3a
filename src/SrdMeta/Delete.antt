-- ===== src/SrdMeta/Delete.antt =====
-- `delete_srd_meta` erases from the back, so that no index moves before its turn.
use mathlib.Core.List.{reverse, reverse-cons}
use spacex_storage.Prelude.{
  ℕ, zero, suc, ◌+◌, ◌≤◌, ◌<◌, ◌≡◌, refl, sym, ap, ◌∙◌, true, false, List, [], ◌∷◌, ◌++◌, length,
  get_elem?, get_elem?-none, get_elem?_lt, erase_at, ◌==◌, if◌then◌else◌, not, Option-cases, inl,
  inr, arith,
}
use spacex_storage.SrdMeta.Defs.{
  Srd, delete_one, delete_loop, delete_srd_meta, insert_idx, has_idx, show_info,
  add_srd_to_deleted_buffer, deal_deleted_srd,
}

-- A set of indexes in ascending order, all of them from `low` on.
abbrev pub Ascending : ℕ → List ℕ → Type 0
Ascending low [] = Unit
Ascending low (i ∷ is) = (low ≤ i) × Ascending (suc i) is

-- The entries whose position, counted from `k`, is not among the indexes.
unfoldable pub survivors : ℕ → List ℕ → List (List ℕ) → List (List ℕ)
survivors k indexes [] = []
survivors k indexes (x ∷ xs) =
    let rest = survivors (suc k) indexes xs in if has_idx k indexes then rest else x ∷ rest

has_idx_below : (k low : ℕ) (is : List ℕ) → Ascending low is → k < low → has_idx k is ≡ false
unfolding has_idx
has_idx_below k low [] a h = refl
has_idx_below k low (i ∷ is) a h = ground (arith, has_idx_below k (suc i) is a.1)

survivors_passed :
    (k i : ℕ) (is : List ℕ) (xs : List (List ℕ))
    → i < k
    → survivors k (i ∷ is) xs ≡ survivors k is xs
unfolding survivors has_idx
survivors_passed k i is [] h = refl
survivors_passed k i is (x ∷ xs) h = ground (arith, survivors_passed (suc k) i is xs)

survivors_all : (k : ℕ) (xs : List (List ℕ)) → survivors k [] xs ≡ xs
unfolding survivors has_idx
survivors_all k [] = refl
survivors_all k (x ∷ xs) = ap (◌∷◌ x) (survivors_all (suc k) xs)

erase_at-survivors :
    (k i p : ℕ) (is : List ℕ) (xs : List (List ℕ))
    → p ≡ k + i
    → Ascending (suc p) is
    → erase_at i (survivors k is xs) ≡ survivors k (p ∷ is) xs
unfolding survivors has_idx
erase_at-survivors k i p is [] e a = refl
erase_at-survivors k zero p is (x ∷ xs) e a =
    ground (arith, has_idx_below k (suc p) is a, survivors_passed (suc k) p is xs)
erase_at-survivors k (suc i) p is (x ∷ xs) e a = ground (
  arith,
  has_idx_below k (suc p) is a,
  erase_at-survivors (suc k) i p is xs,
  erase_at-survivors (suc k) (suc i) p is xs,
)

-- The erasures alone, the largest index first.
erase_all : List ℕ → List (List ℕ) → List (List ℕ)
erase_all [] xs = xs
erase_all (i ∷ is) xs = erase_at i (erase_all is xs)

erase_all-survivors :
    (low : ℕ) (is : List ℕ) (xs : List (List ℕ))
    → Ascending low is
    → erase_all is xs ≡ survivors 0 is xs
unfolding erase_all
erase_all-survivors low [] xs a = sym (survivors_all 0 xs)
erase_all-survivors low (i ∷ is) xs a =
    ap (erase_at i) (erase_all-survivors (suc i) is xs a.1)
    ∙ erase_at-survivors 0 i i is xs (omega arith) a.1

erase_seq : List ℕ → List (List ℕ) → List (List ℕ)
erase_seq [] xs = xs
erase_seq (i ∷ is) xs = erase_seq is (erase_at i xs)

erase_seq-append :
    (is : List ℕ) (j : ℕ) (xs : List (List ℕ))
    → erase_seq (is ++ j ∷ []) xs ≡ erase_at j (erase_seq is xs)
unfolding erase_seq
erase_seq-append [] j xs = refl
erase_seq-append (i ∷ is) j xs = erase_seq-append is j (erase_at i xs)

erase_seq-reverse : (is : List ℕ) (xs : List (List ℕ)) → erase_seq (reverse is) xs ≡ erase_all is xs
unfolding erase_seq erase_all
erase_seq-reverse [] xs = refl
erase_seq-reverse (i ∷ is) xs =
    ap (λ js. erase_seq js xs) (reverse-cons i is)
    ∙ erase_seq-append (reverse is) i xs
    ∙ ap (erase_at i) (erase_seq-reverse is xs)

erase_at_out : (i : ℕ) (xs : List (List ℕ)) → length xs ≤ i → erase_at i xs ≡ xs
erase_at_out i [] h = refl
erase_at_out zero (x ∷ xs) h = absurd (omega arith)
erase_at_out (suc i) (x ∷ xs) h = ap (◌∷◌ x) (erase_at_out i xs (omega arith))

length-erase_at :
    (i : ℕ) (xs : List (List ℕ)) → i < length xs → length (erase_at i xs) + 1 ≡ length xs
length-erase_at i [] h = absurd (omega arith)
length-erase_at zero (x ∷ xs) h = omega arith
length-erase_at (suc i) (x ∷ xs) h = omega (arith, length-erase_at i xs (omega arith))

-- The loop erases what its indexes name, in its order, and counts the entries that it erased.
delete_loop-hashs :
    (is : List ℕ) (s : Srd)
    → ((delete_loop is s).0.hashs ≡ erase_seq is s.hashs)
      × (length (delete_loop is s).0.hashs + (delete_loop is s).1 ≡ length s.hashs)
unfolding delete_loop erase_seq
delete_loop-hashs [] s = (refl, omega arith)
delete_loop-hashs (i ∷ is) s = elim (Option-cases (get_elem? s.hashs i)) [
  | inl out ↦
      rw (out, delete_loop)
        (
          rw (erase_at_out i s.hashs (get_elem?-none s.hashs i out)) (delete_loop-hashs is s).0,
          (delete_loop-hashs is s).1,
        )
  | inr (hash, hit) ↦
      let ih = delete_loop-hashs is (delete_one i hash s) in
      rw (hit, delete_loop)
        (ih.0, omega (arith, ih.1, length-erase_at i s.hashs (get_elem?_lt s.hashs i hash hit)))
]

delete_loop-deleted_idx : (is : List ℕ) (s : Srd) → (delete_loop is s).0.deleted_idx ≡ s.deleted_idx
unfolding delete_loop
delete_loop-deleted_idx [] s = refl
delete_loop-deleted_idx (i ∷ is) s = elim (Option-cases (get_elem? s.hashs i)) [
  | inl out ↦ rw (out, delete_loop) (delete_loop-deleted_idx is s)
  | inr (hash, hit) ↦ rw (hit, delete_loop) (delete_loop-deleted_idx is (delete_one i hash s))
]

delete_srd_meta-deleted_idx :
    (is : List ℕ) (s : Srd) → (delete_srd_meta is s).0.deleted_idx ≡ s.deleted_idx
unfolding delete_srd_meta show_info
delete_srd_meta-deleted_idx [] s = refl
delete_srd_meta-deleted_idx (i ∷ is) s = delete_loop-deleted_idx (reverse (i ∷ is)) s

-- For a set of indexes `delete_srd_meta` keeps exactly the entries whose index is not in the set, in their order; the number that it returns is that of the entries gone.
pub delete_srd_meta-survivors :
    (is : List ℕ) (s : Srd)
    → Ascending 0 is
    → ((delete_srd_meta is s).0.hashs ≡ survivors 0 is s.hashs)
      × (length (delete_srd_meta is s).0.hashs + (delete_srd_meta is s).1 ≡ length s.hashs)
unfolding delete_srd_meta show_info
delete_srd_meta-survivors [] s a = (sym (survivors_all 0 s.hashs), omega arith)
delete_srd_meta-survivors (i ∷ is) s a =
    let loop = delete_loop-hashs (reverse (i ∷ is)) s in
    (loop.0 ∙ erase_seq-reverse (i ∷ is) s.hashs ∙ erase_all-survivors 0 (i ∷ is) s.hashs a, loop.1)

Ascending-insert_idx :
    (low i : ℕ) (is : List ℕ) → low ≤ i → Ascending low is → Ascending low (insert_idx i is)
unfolding insert_idx
Ascending-insert_idx low i [] h a = (h, tt)
Ascending-insert_idx low i (j ∷ js) h a = ground (arith, Ascending-insert_idx (suc j) i js)

pub has_idx-insert_idx :
    (k i : ℕ) (is : List ℕ) → has_idx k (insert_idx i is) ≡ (if k == i then true else has_idx k is)
unfolding has_idx insert_idx
has_idx-insert_idx k i [] = refl
has_idx-insert_idx k i (j ∷ js) = ground (arith, has_idx-insert_idx k i js)

-- An index put into the buffer is in it from then on, beside what was there, and the buffer stays a set in ascending order.
pub add_srd_to_deleted_buffer-Ascending :
    (i : ℕ) (s : Srd)
    → Ascending 0 s.deleted_idx
    → Ascending 0 (add_srd_to_deleted_buffer i s).0.deleted_idx
      × ((k : ℕ)
          → has_idx k (add_srd_to_deleted_buffer i s).0.deleted_idx
            ≡ (if k == i then true else has_idx k s.deleted_idx))
      × ((add_srd_to_deleted_buffer i s).1 ≡ not (has_idx i s.deleted_idx))
unfolding add_srd_to_deleted_buffer
add_srd_to_deleted_buffer-Ascending i s a = (
  Ascending-insert_idx 0 i s.deleted_idx (omega arith) a,
  (λ k. has_idx-insert_idx k i s.deleted_idx),
  ground arith,
)

-- `deal_deleted_srd` removes exactly the entries that the buffer names, and empties the buffer.
pub deal_deleted_srd-survivors :
    (s : Srd)
    → Ascending 0 s.deleted_idx
    → ((deal_deleted_srd s).hashs ≡ survivors 0 s.deleted_idx s.hashs)
      × ((deal_deleted_srd s).deleted_idx ≡ [])
unfolding deal_deleted_srd
deal_deleted_srd-survivors s a = (
  (delete_srd_meta-survivors s.deleted_idx (record s { deleted_idx = [] }) a).0,
  delete_srd_meta-deleted_idx s.deleted_idx _,
)
