-- ===== src/Transfer/Whole.antt =====
-- Data that is sent in parts arrives whole.
use mathlib.Core.List.{append_assoc}
use spacex_storage.Prelude.{
  ℕ, zero, suc, ◌+◌, ◌-◌, ◌%◌, ◌<◌, ◌≤◌, ◌≡◌, refl, sym, ap, ◌∙◌, min, Bool, true, false, Option,
  none, some, List, [], ◌++◌, length, length-append, length-take_le, take_all, take, ltb,
  Bool-cases, inl, inr, arith,
}
use spacex_storage.Status.{SpacexStatus, success, is_success}
use spacex_storage.Workload.Defs.{size_mod}
use spacex_storage.Transfer.Defs.{
  drop, zero_bytes, Pool, set_buffer, erase_buffer, or_new, safe_store2, send_loop,
  safe_ecall_store2, safe_ocall_store2,
}
use spacex_storage.Transfer.Buffers.{
  erase-set, erase_none, length-drop, length-zero_bytes, take-drop, write_at_out, write_part,
  write_whole,
}

module _ {S : Type 0} (store : Option (List ℕ) → ℕ → S → S × SpacexStatus) where
  -- A part that is not the last one is kept in the buffer.
  store_part :
      (before rest : List ℕ) (n total key : ℕ) (pool : Pool) (s : S)
      → total ≡ length before + length rest
      → total < size_mod
      → 0 < n
      → n < length rest
      → or_new true total (pool key) ≡ some (before ++ zero_bytes (length rest))
      → safe_store2 store true (take n rest) total (length before) key pool s
        ≡ some (
          set_buffer key ((before ++ take n rest) ++ zero_bytes (length (drop n rest))) pool,
          s,
          success,
        )
  unfolding safe_store2
  store_part before rest n total key pool s e small p lt b =
      let written = write_part before rest n (omega arith) in
      let size = length-take_le n rest (omega arith) in
      let inside : ltb (length before) total ≡ true = ground arith in
      let more : ltb ((length before + length (take n rest)) % size_mod) total ≡ true =
        ground (arith, size) in
      rw (inside, b, written, more, safe_store2) refl

  -- With the last part the whole is handed on.
  store_last :
      (before rest : List ℕ) (total key : ℕ) (pool : Pool) (s : S)
      → total ≡ length before + length rest
      → total < size_mod
      → 0 < length rest
      → or_new true total (pool key) ≡ some (before ++ zero_bytes (length rest))
      → safe_store2 store true rest total (length before) key pool s
        ≡ some (
          erase_buffer key pool,
          (store (some (before ++ rest)) total s).0,
          (store (some (before ++ rest)) total s).1,
        )
  unfolding safe_store2
  store_last before rest total key pool s e small p b =
      let written = write_whole before rest in
      let inside : ltb (length before) total ≡ true = ground arith in
      let done : ltb ((length before + length rest) % size_mod) total ≡ false = ground (arith) in
      let erased = erase-set key (before ++ rest) pool in
      rw (inside, b, written, done, erased, safe_store2) refl

  send_done :
      (threshold : ℕ) (works room : ℕ → Bool) (fuel total key offset : ℕ) (rest : List ℕ)
      (status : SpacexStatus) (pool : Pool) (s : S)
      → ltb offset total ≡ false
      → send_loop store threshold works room fuel total key offset rest status pool s
        ≡ some (pool, s, true, status)
  unfolding send_loop
  send_done threshold works room zero total key offset rest status pool s e = refl
  send_done threshold works room (suc fuel) total key offset rest status pool s e =
      rw (e, send_loop) refl

  send_more :
      (threshold : ℕ) (works room : ℕ → Bool) (fuel total key offset : ℕ) (rest : List ℕ)
      (status : SpacexStatus) (pool pool' : Pool) (s s' : S)
      → works offset ≡ true
      → ltb offset total ≡ true
      → safe_store2 store
          (room offset)
          (take (min (total - offset) threshold) rest)
          total
          offset
          key
          pool
          s
        ≡ some (pool', s', success)
      → send_loop store threshold works room (suc fuel) total key offset rest status pool s
        ≡ send_loop store threshold works room fuel total key
            (offset + min (total - offset) threshold)
            (drop (min (total - offset) threshold) rest)
            success
            pool'
            s'
  unfolding send_loop
  send_more threshold works room fuel total key offset rest status pool pool' s s' w lt e =
      rw (lt, w, e, send_loop) refl

  send_last :
      (threshold : ℕ) (works room : ℕ → Bool) (fuel total key offset : ℕ) (rest : List ℕ)
      (status status' : SpacexStatus) (pool pool' : Pool) (s s' : S)
      → works offset ≡ true
      → ltb offset total ≡ true
      → total ≤ offset + min (total - offset) threshold
      → safe_store2 store
          (room offset)
          (take (min (total - offset) threshold) rest)
          total
          offset
          key
          pool
          s
        ≡ some (pool', s', status')
      → send_loop store threshold works room (suc fuel) total key offset rest status pool s
        ≡ some (pool', s', true, status')
  unfolding send_loop
  send_last threshold works room fuel total key offset rest status status' pool pool' s s' w lt end
        e =
      let part = min (total - offset) threshold in
      let done =
        send_done threshold works room fuel total key (offset + part) (drop part rest) status' pool'
          s' (ground arith) in
      elim (Bool-cases (is_success status')) [
        | inl good ↦ rw (lt, w, e, good, send_loop) done
        | inr bad ↦ rw (lt, w, e, bad, send_loop) refl
      ]

  send_loop_whole :
      (threshold : ℕ) (works room : ℕ → Bool) (fuel total key : ℕ) (before rest : List ℕ)
      (status : SpacexStatus) (pool : Pool) (s : S)
      → 0 < threshold
      → ((o : ℕ) → works o ≡ true)
      → ((o : ℕ) → room o ≡ true)
      → length rest ≤ fuel
      → 0 < length rest
      → total ≡ length before + length rest
      → total < size_mod
      → or_new true total (pool key) ≡ some (before ++ zero_bytes (length rest))
      → send_loop store threshold works room fuel total key (length before) rest status pool s
        ≡ some (
          erase_buffer key pool,
          (store (some (before ++ rest)) total s).0,
          true,
          (store (some (before ++ rest)) total s).1,
        )
  send_loop_whole threshold works room zero total key before rest status pool s t w r f p e small
        b =
      absurd (omega arith)
  send_loop_whole threshold works room (suc fuel) total key before rest status pool s t w r f p e
        small b =
      let offset = length before in
      let n = min (total - offset) threshold in
      let inside : ltb offset total ≡ true = ground arith in
      elim (Bool-cases (ltb n (length rest))) [
        | inl more ↦
            let part = take n rest in
            let left = drop n rest in
            let pool' = set_buffer key ((before ++ part) ++ zero_bytes (length left)) pool in
            let size = length-take_le n rest (ground arith) in
            let place : length (before ++ part) ≡ offset + n =
              omega (arith, length-append before part, size) in
            let size' = length-drop n rest in
            let stored =
              store_part before rest n total key pool s e small (omega arith) (ground arith) b in
            let step =
              send_more threshold works room fuel total key offset rest status pool pool' s s
                (w offset) inside (rw (r offset) stored) in
            let whole = append_assoc before part left ∙ ap (before ++◌) (take-drop n rest) in
            let found : or_new true total (pool' key)
                ≡ some ((before ++ part) ++ zero_bytes (length left)) =
              ground arith in
            let rest_sent =
              send_loop_whole threshold works room fuel total key (before ++ part) left success
                pool' s t w r (ground arith) (ground arith) (ground arith) small found in
            let erased = erase-set key ((before ++ part) ++ zero_bytes (length left)) pool in
            step
            ∙ (ap (λ k. send_loop store threshold works room fuel total key k left success pool' s)
                  (sym place)
                ∙ (rest_sent ∙ rw (whole, erased) refl))
        | inr last ↦
            let all = take_all n rest (ground arith) in
            let stored = store_last before rest total key pool s e small p b in
            send_last threshold works room fuel total key offset rest status
              (store (some (before ++ rest)) total s).1 pool (erase_buffer key pool) s
              (store (some (before ++ rest)) total s).0 (w offset) inside (ground arith)
              (rw (r offset, all) stored)
      ]

  -- Data that is sent from the enclave in parts arrives whole: when the calls of SGX work and the
  -- buffer can be allocated, the function of the table gets once exactly the bytes sent and their
  -- number, its status is the result, and the buffers are as before. The data are not empty and shorter
  -- than 2^64 bytes, the threshold is positive, and the key has no buffer yet.
  pub safe_ocall_store2_whole :
      (threshold : ℕ) (works room : ℕ → Bool) (key : ℕ) (u : List ℕ) (pool : Pool) (s : S)
      → 0 < threshold
      → ((o : ℕ) → works o ≡ true)
      → ((o : ℕ) → room o ≡ true)
      → 0 < length u
      → length u < size_mod
      → pool key ≡ none
      → safe_ocall_store2 store threshold works room key u pool s
        ≡ some (pool, (store (some u) (length u) s).0, (store (some u) (length u) s).1)
  unfolding safe_ocall_store2
  safe_ocall_store2_whole threshold works room key u pool s t w r p small e =
      let new : or_new true (length u) (pool key) ≡ some (zero_bytes (length u)) = rw e refl in
      let sent =
        send_loop_whole threshold works room (length u) (length u) key [] u success pool s t w r
          (omega arith) p (omega arith) small new in
      let erased = erase_none key pool e in rw (sent, erased, safe_ocall_store2) refl

  -- The same for data that is sent into the enclave.
  pub safe_ecall_store2_whole :
      (threshold : ℕ) (works room : ℕ → Bool) (key : ℕ) (u : List ℕ) (pool : Pool) (s : S)
      → 0 < threshold
      → ((o : ℕ) → works o ≡ true)
      → ((o : ℕ) → room o ≡ true)
      → 0 < length u
      → length u < size_mod
      → pool key ≡ none
      → safe_ecall_store2 store threshold works room key u pool s
        ≡ some (pool, (store (some u) (length u) s).0, true, (store (some u) (length u) s).1)
  unfolding safe_ecall_store2
  safe_ecall_store2_whole threshold works room key u pool s t w r p small e =
      let new : or_new true (length u) (pool key) ≡ some (zero_bytes (length u)) = rw e refl in
      let sent =
        send_loop_whole threshold works room (length u) (length u) key [] u success pool s t w r
          (omega arith) p (omega arith) small new in
      let erased = erase_none key pool e in rw (sent, erased, safe_ecall_store2) refl

  -- A part that is longer than the place left for it is written outside of the buffer: its size is not
  -- compared with the total size. The part begins inside, the key has no buffer yet, which can be
  -- allocated.
  pub safe_store2_overrun :
      (bytes : List ℕ) (total offset key : ℕ) (pool : Pool) (s : S)
      → pool key ≡ none
      → offset < total
      → total < offset + length bytes
      → safe_store2 store true bytes total offset key pool s ≡ none
  unfolding safe_store2
  safe_store2_overrun bytes total offset key pool s e h over =
      let new : or_new true total (pool key) ≡ some (zero_bytes total) = rw e refl in
      let inside : ltb offset total ≡ true = ground arith in
      let out =
        write_at_out offset bytes (zero_bytes total) (omega arith)
          (omega (arith, length-zero_bytes total)) in
      rw (inside, new, out, safe_store2) refl

  -- A first part whose offset is not below the total size hands a null pointer and that size to the
  -- function of the table.
  pub safe_store2_null :
      (room : Bool) (bytes : List ℕ) (total offset key : ℕ) (pool : Pool) (s : S)
      → pool key ≡ none
      → total ≤ offset
      → safe_store2 store room bytes total offset key pool s
        ≡ some (pool, (store none total s).0, (store none total s).1)
  unfolding safe_store2
  safe_store2_null room bytes total offset key pool s e h =
      let outside : ltb offset total ≡ false = ground arith in
      let erased = erase_none key pool e in rw (outside, e, erased, safe_store2) refl
