-- ===== src/Validator/Choice.antt =====
-- Which entries and files a round of `validate_srd` and `validate_meaningful_file` takes.
use spacex_storage.Prelude.{
  ℕ, zero, suc, ◌+◌, ◌%◌, ◌≤◌, ◌<◌, ◌≡◌, min, List, [], ◌∷◌, take, All, ltb, leb, if◌then◌else◌,
  arith,
}
use spacex_storage.SrdMeta.Defs.{insert_idx}

-- `SRD_VALIDATE_MIN_NUM` and `MEANINGFUL_VALIDATE_MIN_NUM`
abbrev pub validate_min_num : ℕ
validate_min_num = 64

-- The number of draws; `rate` is the product with 0.005, cut to a `size_t`.
unfoldable pub validate_num : (ℕ → ℕ) → ℕ → ℕ
validate_num rate n = min (if ltb (rate n) validate_min_num then validate_min_num else rate n) n

-- The indexes from `i` on, `n` of them.
unfoldable pub indexes_from : ℕ → ℕ → List ℕ
indexes_from i zero = []
indexes_from i (suc n) = i ∷ indexes_from (suc i) n

-- The draws, into a map, for random numbers.
unfoldable pub draw : ℕ → List ℕ → List ℕ → List ℕ
draw n [] chosen = chosen
draw n (r ∷ rs) chosen = draw n rs (insert_idx (r % n) chosen)

-- The indexes that are taken of `n`, in ascending order; `rands` gives the random numbers.
unfoldable pub choose : (ℕ → ℕ) → (ℕ → List ℕ) → ℕ → List ℕ
unfolding validate_num indexes_from draw
choose rate rands n =
    let count = validate_num rate n in
    if leb n count then indexes_from 0 n else draw n (take count (rands count)) []

All-insert_idx :
    (n i : ℕ) (is : List ℕ) → i < n → All (λ j. j < n) is → All (λ j. j < n) (insert_idx i is)
unfolding insert_idx
All-insert_idx n i [] h k = (h, tt)
All-insert_idx n i (j ∷ js) h k = ground (arith, h, k, All-insert_idx n i js h k.1)

draw_lt :
    (n : ℕ) (rs chosen : List ℕ)
    → 0 < n
    → All (λ j. j < n) chosen
    → All (λ j. j < n) (draw n rs chosen)
unfolding draw
draw_lt n [] chosen h k = k
draw_lt n (r ∷ rs) chosen h k =
    draw_lt n rs (insert_idx (r % n) chosen) h
      (All-insert_idx n (r % n) chosen (omega (arith, h)) k)

indexes_lt : (i n m : ℕ) → i + n ≤ m → All (λ j. j < m) (indexes_from i n)
unfolding indexes_from
indexes_lt i zero m h = tt
indexes_lt i (suc n) m h = (omega (arith, h), indexes_lt (suc i) n m (omega (arith, h)))

-- Every index that a round takes is in range.
pub choose_lt : (rate : ℕ → ℕ) (rands : ℕ → List ℕ) (n : ℕ) → All (λ j. j < n) (choose rate rands n)
unfolding choose validate_num
choose_lt rate rands zero = let all = indexes_lt 0 0 0 (omega arith) in ground (arith, all)
choose_lt rate rands (suc n) =
    let all = indexes_lt 0 (suc n) (suc n) (omega arith) in
    let drawn =
      draw_lt (suc n) (take (validate_num rate (suc n)) (rands (validate_num rate (suc n)))) []
        (omega arith) tt in
    ground (arith, all, drawn)

-- A vector of at most 64 is checked as a whole.
pub choose_small :
    (rate : ℕ → ℕ) (rands : ℕ → List ℕ) (n : ℕ)
    → n ≤ validate_min_num
    → choose rate rands n ≡ indexes_from 0 n
unfolding choose validate_num
choose_small rate rands n h = ground (arith, h)
