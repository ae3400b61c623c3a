-- ===== src/Transfer/Defs.antt =====
-- `ecall_safe_store2` (enclave/Enclave.cpp), `ocall_safe_store2` (app/ocalls/OCalls.cpp), and the loops
-- that call them, `safe_ecall_store2` (app/utils/Common.cpp) and `safe_ocall_store2`
-- (enclave/utils/EUtils.cpp).
use mathlib.Core.Option
use spacex_storage.Prelude.{
  ℕ, zero, suc, ◌+◌, ◌-◌, ◌*◌, ◌%◌, min, Bool, true, false, Option, none, some, List, [], ◌∷◌,
  length, is_empty, take, ltb, ◌==◌, if◌then◌else◌,
}
use spacex_storage.Status.{SpacexStatus, success, is_success, malloc_failed, sgx_failed}
use spacex_storage.Workload.Defs.{size_mod}

-- `BOUNDARY_SIZE_THRESHOLD`
abbrev pub boundary_size : ℕ
boundary_size = 4 * 1024 * 1024

abbrev pub drop : ℕ → List ℕ → List ℕ
drop zero xs = xs
drop (suc n) [] = []
drop (suc n) (x ∷ xs) = drop n xs

-- `malloc(size)` and `memset(buffer, 0, size)`
abbrev pub zero_bytes : ℕ → List ℕ
zero_bytes zero = []
zero_bytes (suc n) = 0 ∷ zero_bytes n

-- `memcpy(buffer + offset, bytes, size)`; no result if it writes outside of the buffer.
unfoldable pub write_at : ℕ → List ℕ → List ℕ → Option (List ℕ)
write_at zero [] buffer = some buffer
write_at zero (b ∷ bytes) [] = none
write_at zero (b ∷ bytes) (c ∷ buffer) = Option.map (◌∷◌ b) (write_at zero bytes buffer)
write_at (suc k) bytes [] = if is_empty bytes then some [] else none
write_at (suc k) bytes (c ∷ buffer) = Option.map (◌∷◌ c) (write_at k bytes buffer)

-- `g_ecall_buffer_pool`, `g_ocall_buffer_pool`: the buffers by their key.
abbrev pub Pool : Type 0
Pool = ℕ → Option (List ℕ)

abbrev pub set_buffer : ℕ → List ℕ → Pool → Pool
set_buffer key buffer pool k = if k == key then some buffer else pool k

abbrev pub erase_buffer : ℕ → Pool → Pool
erase_buffer key pool k = if k == key then none else pool k

-- The buffer of the key, a new one if it has none; `room` is whether it can be allocated.
abbrev pub or_new : Bool → ℕ → Option (List ℕ) → Option (List ℕ)
or_new room total (some buffer) = some buffer
or_new room total none = if room then some (zero_bytes total) else none

-- The function of the table `g_ecall_store2_func_m` or `g_ocall_store2_func_m` that gets the data:
-- the buffer, which is missing for a null pointer, and the size.
module _ {S : Type 0} (store : Option (List ℕ) → ℕ → S → S × SpacexStatus) where
  abbrev finish_store : Option (List ℕ) → ℕ → ℕ → Pool → S → Option (Pool × S × SpacexStatus)
  finish_store buffer total key pool s =
      let (s', status) = store buffer total s in some (erase_buffer key pool, s', status)

  -- `ecall_safe_store2` and `ocall_safe_store2`, which have the same body; `bytes` are the
  -- `partial_size` bytes of the call. No result stands for a write outside of the buffer.
  unfoldable pub safe_store2 :
      Bool → List ℕ → ℕ → ℕ → ℕ → Pool → S → Option (Pool × S × SpacexStatus)
  safe_store2 room bytes total offset key pool s =
      if ltb offset total
      then elim (or_new room total (pool key)) [
        | none ↦ some (erase_buffer key pool, s, malloc_failed)
        | some buffer ↦ elim (write_at offset bytes buffer) [
          | none ↦ none
          | some buffer' ↦
              let pool' = set_buffer key buffer' pool in
              if ltb ((offset + length bytes) % size_mod) total
              then some (pool', s, success)
              else finish_store (some buffer') total key pool' s
        ]
      ]
      else finish_store (pool key) total key pool s

  -- The loop over the parts from `u + offset` on, which are `rest`. `works` and `room` tell whether the
  -- call of SGX at an offset works and whether its buffer can be allocated; a call that fails does not
  -- run. The results are those of the last calls: whether SGX worked, and the status.
  unfoldable pub send_loop :
      ℕ
      → (works room : ℕ → Bool) → ℕ
      → ℕ
      → ℕ
      → ℕ
      → List ℕ
      → SpacexStatus
      → Pool
      → S
      → Option (Pool × S × Bool × SpacexStatus)
  unfolding safe_store2
  send_loop threshold works room zero total key offset rest status pool s =
      some (pool, s, true, status)
  send_loop threshold works room (suc fuel) total key offset rest status pool s =
      let part = min (total - offset) threshold in
      elim (ltb offset total) [
        | false ↦ some (pool, s, true, status)
        | true ↦ elim (works offset) [
          | false ↦ some (pool, s, false, status)
          | true ↦ elim (safe_store2 (room offset) (take part rest) total offset key pool s) [
            | none ↦ none
            | some (pool', s', status') ↦ elim (is_success status') [
              | false ↦ some (pool', s', true, status')
              | true ↦
                  send_loop threshold works room fuel total key (offset + part) (drop part rest)
                    status' pool' s'
            ]
          ]
        ]
      ]

  -- `safe_ecall_store2`: whether SGX worked, and `*status`, which the caller has set to success. The
  -- threshold is an argument; the code has `boundary_size`.
  unfoldable pub safe_ecall_store2 :
      ℕ → (works room : ℕ → Bool) → ℕ → List ℕ → Pool → S → Option (Pool × S × Bool × SpacexStatus)
  unfolding send_loop
  safe_ecall_store2 threshold works room key u pool s =
      send_loop threshold works room (length u) (length u) key 0 u success pool s

  -- `safe_ocall_store2`
  unfoldable pub safe_ocall_store2 :
      ℕ → (works room : ℕ → Bool) → ℕ → List ℕ → Pool → S → Option (Pool × S × SpacexStatus)
  unfolding send_loop
  safe_ocall_store2 threshold works room key u pool s =
      elim (send_loop threshold works room (length u) (length u) key 0 u success pool s) [
        | none ↦ none
        | some (pool', s', worked, status) ↦ some (pool', s', if worked then status else sgx_failed)
      ]
