-- ===== src/Transfer/Buffers.antt =====
-- A buffer that is written part by part.
use mathlib.Core.Path.{fun_ext}
use mathlib.Core.List.{append-nil, append_assoc}
use mathlib.Core.Option
use spacex_storage.Prelude.{
  ℕ, zero, suc, ◌+◌, ◌-◌, ◌<◌, ◌≤◌, ◌≡◌, refl, sym, ap, ◌∙◌, none, some, List, [], ◌∷◌, ◌++◌,
  length, length-take_le, take, arith,
}
use spacex_storage.Transfer.Defs.{drop, zero_bytes, write_at, Pool, set_buffer, erase_buffer}

pub length-zero_bytes : (n : ℕ) → length (zero_bytes n) ≡ n
length-zero_bytes zero = refl
length-zero_bytes (suc n) = ap suc (length-zero_bytes n)

pub take-drop : (n : ℕ) (xs : List ℕ) → take n xs ++ drop n xs ≡ xs
take-drop zero xs = refl
take-drop (suc n) [] = refl
take-drop (suc n) (x ∷ xs) = ap (◌∷◌ x) (take-drop n xs)

pub length-drop : (n : ℕ) (xs : List ℕ) → length (drop n xs) ≡ length xs - n
length-drop zero xs = omega arith
length-drop (suc n) [] = omega arith
length-drop (suc n) (x ∷ xs) = omega (arith, length-drop n xs)

zero_bytes-split : (n m : ℕ) → zero_bytes (n + m) ≡ zero_bytes n ++ zero_bytes m
zero_bytes-split zero m = ap zero_bytes (omega arith)
zero_bytes-split (suc n) m =
    let e : suc n + m ≡ suc (n + m) = omega arith in rw e (ap (◌∷◌ 0) (zero_bytes-split n m))

write_front :
    (bytes old rest : List ℕ)
    → length bytes ≡ length old
    → write_at 0 bytes (old ++ rest) ≡ some (bytes ++ rest)
unfolding write_at
write_front [] [] rest e = refl
write_front [] (c ∷ old) rest e = absurd (omega arith)
write_front (b ∷ bytes) [] rest e = absurd (omega arith)
write_front (b ∷ bytes) (c ∷ old) rest e =
    ap (Option.map (◌∷◌ b)) (write_front bytes old rest (omega arith))

-- Bytes that are written over as many others, behind a part that stays.
write_at-append :
    (front bytes old rest : List ℕ)
    → length bytes ≡ length old
    → write_at (length front) bytes (front ++ (old ++ rest)) ≡ some (front ++ (bytes ++ rest))
unfolding write_at
write_at-append [] bytes old rest e = write_front bytes old rest e
write_at-append (c ∷ front) bytes old rest e =
    ap (Option.map (◌∷◌ c)) (write_at-append front bytes old rest e)

write_zero_out :
    (bytes buffer : List ℕ) → length buffer < length bytes → write_at 0 bytes buffer ≡ none
unfolding write_at
write_zero_out [] buffer h = absurd (omega arith)
write_zero_out (b ∷ bytes) [] h = refl
write_zero_out (b ∷ bytes) (c ∷ buffer) h =
    ap (Option.map (◌∷◌ b)) (write_zero_out bytes buffer (omega arith))

pub write_at_out :
    (k : ℕ) (bytes buffer : List ℕ)
    → 0 < length bytes
    → length buffer < k + length bytes
    → write_at k bytes buffer ≡ none
unfolding write_at
write_at_out zero bytes buffer p h = write_zero_out bytes buffer (omega arith)
write_at_out (suc k) [] buffer p h = absurd (omega arith)
write_at_out (suc k) (b ∷ bytes) [] p h = refl
write_at_out (suc k) (b ∷ bytes) (c ∷ buffer) p h =
    ap (Option.map (◌∷◌ c)) (write_at_out k (b ∷ bytes) buffer p (omega arith))

-- The part that comes next is written behind what has come before.
pub write_part :
    (before rest : List ℕ) (n : ℕ)
    → n ≤ length rest
    → write_at (length before) (take n rest) (before ++ zero_bytes (length rest))
      ≡ some ((before ++ take n rest) ++ zero_bytes (length (drop n rest)))
write_part before rest n h =
    let part = take n rest in
    let left = drop n rest in
    let size : length rest ≡ length part + length left =
      omega (arith, length-take_le n rest h, length-drop n rest) in
    let e = length-zero_bytes (length part) in
    ap (λ k. write_at (length before) part (before ++ zero_bytes k)) size
    ∙ (ap (λ z. write_at (length before) part (before ++ z))
          (zero_bytes-split (length part) (length left))
        ∙ (write_at-append before part (zero_bytes (length part)) (zero_bytes (length left)) (sym e)
            ∙ ap some (sym (append_assoc before part (zero_bytes (length left))))))

pub write_whole :
    (before rest : List ℕ)
    → write_at (length before) rest (before ++ zero_bytes (length rest)) ≡ some (before ++ rest)
write_whole before rest =
    ap (λ z. write_at (length before) rest (before ++ z))
      (sym (append-nil (zero_bytes (length rest))))
    ∙ (write_at-append before rest (zero_bytes (length rest)) []
          (sym (length-zero_bytes (length rest)))
        ∙ ap (λ z. some (before ++ z)) (append-nil rest))

pub erase-set :
    (key : ℕ) (buffer : List ℕ) (pool : Pool)
    → erase_buffer key (set_buffer key buffer pool) ≡ erase_buffer key pool
erase-set key buffer pool = fun_ext λ k. ground arith

pub erase_none : (key : ℕ) (pool : Pool) → pool key ≡ none → erase_buffer key pool ≡ pool
erase_none key pool e = fun_ext λ k. ground (arith, e)
