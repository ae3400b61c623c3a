-- ===== src/SrdTask/Removal.antt =====
-- What `srd_decrease` and `srd_remove_space` take away.
use mathlib.Core.List.{reverse, reverse-cons}
use spacex_storage.Prelude.{
  ℕ, zero, suc, ◌+◌, ◌-◌, ◌≤◌, ◌<◌, min, ◌≡◌, refl, sym, ap, ap₂, ◌∙◌, inl, inr, some, List, [],
  ◌∷◌, ◌++◌, ℤ, pos, ◌+ℤ◌, ◌≤ℤ◌, ltb_ℤ, Text, length, take, take_all, get_elem?, ==_iff, ltb, leb,
  ◌&&◌, ◌==◌, Option-cases, Bool-cases, +ℤ_parts, arith, int_laws,
}
use spacex_storage.SrdMeta.Defs.{
  Srd, uuid_of, has_idx, show_info, delete_srd_meta, deal_deleted_srd,
}
use spacex_storage.SrdMeta.Delete.{Ascending, survivors, delete_srd_meta-survivors}
use spacex_storage.SrdMeta.Counts.{IsCounted, delete_srd_meta-IsCounted, deal_deleted_srd-IsCounted}
use spacex_storage.SrdTask.Defs.{
  last_indexes, srd_decrease, out_of_bounds, Removing, remove_body, remove_loop, srd_remove_space,
  total_wish, wish,
}

body_change :
    (i : ℕ) (item : List ℕ) (r : Removing) → r.change ≤ℤ (remove_body i item r).change +ℤ pos 1
unfolding remove_body
body_change i item r = elim (Bool-cases (ltb_ℤ (pos 0) (r.want (uuid_of item)))) [
  | inl wanted ↦ rw (wanted, remove_body) (omega int_laws)
  | inr other ↦ rw (other, remove_body) (omega int_laws)
]

-- The loop can mark one entry in each round: with more asked for than entries up to `i`, it runs on
-- below index 0.
remove_loop-out_of_bounds :
    (i : ℕ) (r : Removing) → pos (suc (suc i)) ≤ℤ r.change → remove_loop i r ≡ out_of_bounds
unfolding remove_loop
remove_loop-out_of_bounds zero r h = elim (Option-cases (get_elem? r.srd.hashs zero)) [
  | inl out ↦ ground arith
  | inr (item, hit) ↦
      ground (arith, body_change zero item r, +ℤ_parts (remove_body zero item r).change (pos 1))
]
remove_loop-out_of_bounds (suc i) r h = elim (Option-cases (get_elem? r.srd.hashs (suc i))) [
  | inl out ↦ ground arith
  | inr (item, hit) ↦ ground (
    arith,
    body_change (suc i) item r,
    +ℤ_parts (remove_body (suc i) item r).change (pos 1),
    remove_loop-out_of_bounds i (remove_body (suc i) item r),
  )
]

-- When there is at least one entry, a request to `srd_remove_space` for more space than there are entries reads the vector outside its range, since the loop's unsigned index passes 0.
pub srd_remove_space_overrun :
    (wishes : List (Text × ℤ)) (s : Srd)
    → 0 < length s.hashs
    → pos (suc (length s.hashs)) ≤ℤ total_wish wishes
    → srd_remove_space (some wishes) s ≡ out_of_bounds
unfolding srd_remove_space
srd_remove_space_overrun wishes s h k = ground (
  arith,
  remove_loop-out_of_bounds (length s.hashs - 1)
      (record { want = wish wishes; change = total_wish wishes; srd = s; paths = [] }),
)

-- The indexes from `low` on, `n` of them.
range : ℕ → ℕ → List ℕ
range low zero = []
range low (suc n) = low ∷ range (suc low) n

has_idx-range : (k low n : ℕ) → has_idx k (range low n) ≡ (leb low k && ltb k (low + n))
unfolding has_idx range
has_idx-range k low zero = ground arith
has_idx-range k low (suc n) = ground (arith, has_idx-range k (suc low) n)

take_none {ℓ} : {A : Type ℓ} (d : ℕ) → take {A = A} d [] ≡ []
take_none zero = refl
take_none (suc d) = refl

-- The last indexes dropped, the front is left.
survivors-range :
    (k low n : ℕ) (xs : List (List ℕ))
    → low + n ≡ k + length xs
    → survivors k (range low n) xs ≡ take (low - k) xs
unfolding survivors
survivors-range k low n [] e = sym (take_none (low - k))
survivors-range k low n (x ∷ xs) e = elim (Bool-cases (leb low k)) [
  | inl past ↦
      let z : low - k ≡ 0 = ground arith in
      let z' : low - suc k ≡ 0 = ground arith in
      rw z (
        ground
          (arith, has_idx-range k low n, survivors-range (suc k) low n xs, ap (λ d. take d xs) z'))
  | inr ahead ↦
      let p : low - k ≡ suc (low - suc k) = ground arith in
      rw p (ground (arith, has_idx-range k low n, survivors-range (suc k) low n xs))
]

Ascending-range : (low n : ℕ) → Ascending low (range low n)
unfolding range
Ascending-range low zero = tt
Ascending-range low (suc n) = (omega arith, Ascending-range (suc low) n)

Ascending-mono : (a b : ℕ) (is : List ℕ) → a ≤ b → Ascending b is → Ascending a is
Ascending-mono a b [] h v = tt
Ascending-mono a b (i ∷ is) h v = (omega arith, v.1)

range-snoc : (low n : ℕ) → range low (suc n) ≡ range low n ++ (low + n) ∷ []
unfolding range
range-snoc low zero = ap (λ i. i ∷ []) (omega arith)
range-snoc low (suc n) =
    let e : suc low + n ≡ low + suc n = omega arith in
    ap (◌∷◌ low) (range-snoc (suc low) n ∙ ap (λ i. range (suc low) n ++ i ∷ []) e)

-- Reversed, the indexes that `srd_decrease` collects are those of the last entries.
reverse-last_indexes :
    (size rounds i low : ℕ)
    → low + i + rounds ≡ size + 1
    → 0 < i
    → reverse (last_indexes size rounds i) ≡ range low rounds
unfolding last_indexes range
reverse-last_indexes size zero i low h p = refl
reverse-last_indexes size (suc n) i low h p =
    let e : size - i ≡ low + n = omega arith in
    reverse-cons (size - i) (last_indexes size n (i + 1))
    ∙ ap₂ (λ is j. is ++ j ∷ [])
        (reverse-last_indexes size n (i + 1) low (omega arith) (omega arith)) e
    ∙ sym (range-snoc low n)

taken :
    (num : ℕ) (s : Srd)
    → num ≤ length s.hashs
    → (delete_srd_meta (reverse (last_indexes (length s.hashs) num 1)) s).0.hashs
      ≡ take (length s.hashs - num) s.hashs
taken num s h =
    let low : ℕ = length s.hashs - num in
    let minus_zero : low - 0 ≡ low = omega arith in
    rw (reverse-last_indexes (length s.hashs) num 1 low (omega arith) (omega arith)) (
      (delete_srd_meta-survivors (range low num) s
        (Ascending-mono 0 low (range low num) (omega arith) (Ascending-range low num))).0
      ∙ survivors-range 0 low num s.hashs (omega arith)
      ∙ ap (λ d. take d s.hashs) minus_zero)

show_info-IsCounted : (s : Srd) → IsCounted s → IsCounted (show_info s)
unfolding show_info
show_info-IsCounted s v = record { total = v.total; each = v.each }

-- `srd_decrease` first drops the entries marked as deleted; of the others it takes the last ones, as many as asked for or all, keeps the rest in their order, returns how many it took, and the figures stay right.
pub srd_decrease-take :
    (change : ℕ) (s : Srd)
    → IsCounted s
    → let left = (deal_deleted_srd s).hashs in
      let (s', paths, num) = srd_decrease change s in
      (num ≡ min change (length left)) × (s'.hashs ≡ take (length left - num) left) × IsCounted s'
unfolding srd_decrease show_info
srd_decrease-take change s v =
    let s' : Srd = deal_deleted_srd s in
    let v' : IsCounted s' = deal_deleted_srd-IsCounted s v in
    let num : ℕ = min change (length s'.hashs) in
    elim (Bool-cases (num == 0)) [
      | inl nothing ↦
          rw (nothing, srd_decrease)
            (
              sym ((==_iff num 0).0 nothing),
              sym (take_all (length s'.hashs - 0) s'.hashs (omega arith)),
              v',
            )
      | inr some_left ↦
          rw (some_left, srd_decrease)
            (
              refl,
              taken num s' (omega arith),
              show_info-IsCounted _ (delete_srd_meta-IsCounted _ s' v').0,
            )
    ]
