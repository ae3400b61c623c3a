-- ===== src/Files/Search.antt =====
-- The binary search of `is_file_dup_nolock` against the walk from the start.
use spacex_storage.Prelude.{
  ℕ, zero, suc, ◌+◌, ◌-◌, ◌/◌, ◌≤◌, ◌<◌, min, Ordering, Bool, true, false, Option, some, List, [],
  ◌∷◌, ◌≡◌, refl, sym, ap, ◌⊎◌, inl, inr, Text, compare_text, Before, Before-trans, compare_text-eq,
  length, get_elem?, get_elem?_lt, get_elem?-none, ltb, ltb→lt, Bool-cases, Option-cases, arith,
}
use spacex_storage.Files.Defs.{SealedFile, search, is_file_dup, IsSorted, AllAfter, locate}

-- The place never lies behind the end, and that of a file which is there is an index.
pub locate_bounds :
    (cid : Text) (files : List SealedFile)
    → ((locate cid files).1 ≤ length files)
      × ((locate cid files).0 ≡ true → (locate cid files).1 < length files)
unfolding locate
locate_bounds cid [] = ground arith
locate_bounds cid (file ∷ files) = ground (arith, locate_bounds cid files)

AllAfter-at :
    (c : Text) (files : List SealedFile) (i : ℕ) (file : SealedFile)
    → AllAfter c files
    → get_elem? files i ≡ some file
    → Before c file.cid
AllAfter-at c [] i file h e = cc
AllAfter-at c (x ∷ xs) zero file h e = ground (arith, h.0)
AllAfter-at c (x ∷ xs) (suc i) file h e = AllAfter-at c xs i file h.1 e

-- What one comparison in a sorted vector says of the place.
abbrev Compared : Bool × ℕ → ℕ → Ordering → Type 0
Compared place i Ordering.lt = (place.1 ≤ i) × (place.0 ≡ true → place.1 < i)
Compared place i Ordering.gt = i < place.1
Compared place i Ordering.eq = place ≡ (true, i)

locate-Compared :
    (cid : Text) (files : List SealedFile) (i : ℕ) (file : SealedFile)
    → IsSorted files
    → get_elem? files i ≡ some file
    → Compared (locate cid files) i (compare_text cid file.cid)
unfolding locate
locate-Compared cid [] i file s e = cc
locate-Compared cid (x ∷ xs) zero file s e = ground arith
locate-Compared cid (x ∷ xs) (suc i) file s e = ground (
  arith,
  AllAfter-at x.cid xs i file s.0 e,
  Before-trans cid x.cid file.cid,
  compare_text-eq cid x.cid,
  locate-Compared cid xs i file s.1 e,
)

-- What holds of `spos`, `limit` and `pos` before each round.
record SearchInv (cid : Text) (files : List SealedFile) (spos limit pos : ℕ) : Type 0 where
  low : spos ≤ (locate cid files).1
  high : (locate cid files).1 ≤ limit
  inside : (locate cid files).0 ≡ true → (locate cid files).1 < limit
  last : (pos ≡ spos) ⊎ ((pos ≡ limit) × (limit < length files))
  within : limit ≤ length files + 1

ended :
    (cid : Text) (files : List SealedFile) (spos limit pos : ℕ)
    → SearchInv cid files spos limit pos
    → ((limit ≤ spos) ⊎ (length files ≤ (spos + (limit - 1)) / 2))
    → locate cid files ≡ (false, pos)
ended cid files spos limit pos v h = ground (arith, locate_bounds cid files)

-- A round keeps what holds: to the right of the middle, and to its left.
SearchInv-right :
    (cid : Text) (files : List SealedFile) (spos limit pos i : ℕ)
    → SearchInv cid files spos limit pos
    → i < (locate cid files).1
    → SearchInv cid files (i + 1) limit (min (i + 1) (length files))
SearchInv-right cid files spos limit pos i v h = record {
  low = omega arith;
  high = v.high;
  inside = v.inside;
  last = inl (omega (arith, locate_bounds cid files));
  within = v.within;
}

SearchInv-left :
    (cid : Text) (files : List SealedFile) (spos limit pos i : ℕ)
    → SearchInv cid files spos limit pos
    → Compared (locate cid files) i Ordering.lt
    → i < length files
    → SearchInv cid files spos i i
SearchInv-left cid files spos limit pos i v h k = record {
  low = v.low;
  high = h.0;
  inside = h.1;
  last = inr (refl, k);
  within = omega arith;
}

module _ (cid : Text) (files : List SealedFile) (s : IsSorted files) where
  abbrev Finds : ℕ → ℕ → ℕ → ℕ → Type 0
  Finds fuel spos limit pos = search fuel cid files spos limit pos ≡ some (locate cid files)

  probed :
      (fuel spos limit i : ℕ) (o : Ordering)
      → Compared (locate cid files) i o
      → (Compared (locate cid files) i Ordering.gt
          → Finds fuel (i + 1) limit (min (i + 1) (length files)))
      → (Compared (locate cid files) i Ordering.lt → Finds fuel spos i i)
      → ◌≡◌ {A = Option (Bool × ℕ)}
          (elim o [
            | Ordering.gt ↦ search fuel cid files (i + 1) limit (min (i + 1) (length files))
            | Ordering.lt ↦ search fuel cid files spos i i
            | Ordering.eq ↦ some (true, i)
          ])
          (some (locate cid files))
  probed fuel spos limit i Ordering.lt c right left = left c
  probed fuel spos limit i Ordering.eq c right left = ap some (sym c)
  probed fuel spos limit i Ordering.gt c right left = right c

  search-locate :
      (fuel spos limit pos : ℕ)
      → SearchInv cid files spos limit pos
      → limit - spos < fuel
      → Finds fuel spos limit pos
  unfolding search
  search-locate zero spos limit pos v h = absurd (omega arith)
  search-locate (suc fuel) spos limit pos v h = elim (Bool-cases (ltb spos limit)) [
    | inr over ↦
        rw (over, search) (ap some (sym (ended cid files spos limit pos v (inl (ground arith)))))
    | inl more ↦
        let i : ℕ = (spos + (limit - 1)) / 2 in
        let m : spos < limit = ltb→lt spos limit more in
        elim (Option-cases (get_elem? files i)) [
          | inl out ↦
              rw (more, out, search)
                (ap some
                  (sym (ended cid files spos limit pos v (inr (get_elem?-none files i out)))))
          | inr (file, hit) ↦
              rw (more, hit, search)
                (probed fuel spos limit i _ (locate-Compared cid files i file s hit)
                  (λ c.
                    search-locate fuel (i + 1) limit _
                      (SearchInv-right cid files spos limit pos i v c) (omega arith))
                  (λ c.
                    search-locate fuel spos i i
                      (SearchInv-left cid files spos limit pos i v c
                        (get_elem?_lt files i file hit))
                      (omega arith)))
        ]
  ]

search_ends :
    (cid : Text) (files : List SealedFile)
    → IsSorted files
    → search (length files + 2) cid files 0 (length files + 1) 0 ≡ some (locate cid files)
search_ends cid files s =
    search-locate cid files s (length files + 2) 0 (length files + 1) 0
      (record {
        low = omega arith;
        high = ground (arith, locate_bounds cid files);
        inside = ground (arith, locate_bounds cid files);
        last = inl refl;
        within = omega arith;
      })
      (omega arith)

-- On a sorted vector the binary search gives what the walk from the start gives.
pub is_file_dup-locate :
    (cid : Text) (files : List SealedFile)
    → IsSorted files
    → is_file_dup cid files ≡ locate cid files
unfolding is_file_dup
is_file_dup-locate cid files s = rw (search_ends cid files s) refl

-- On a sorted vector the binary search of `is_file_dup_nolock` ends: with two more rounds than there are files it has a result, which is that of the walk from the start, whether the content id is there, and its index or the index at which it belongs; and `is_file_dup` gives this result.
pub is_file_dup_ends :
    (cid : Text) (files : List SealedFile)
    → IsSorted files
    → (search (length files + 2) cid files 0 (length files + 1) 0 ≡ some (locate cid files))
      × (is_file_dup cid files ≡ locate cid files)
is_file_dup_ends cid files s = (search_ends cid files s, is_file_dup-locate cid files s)
