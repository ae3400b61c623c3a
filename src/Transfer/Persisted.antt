-- ===== src/Transfer/Persisted.antt =====
-- A value that is stored under a key is read back.
use mathlib.Core.List.{append_assoc}
use spacex_storage.Prelude.{
  ℕ, zero, suc, ◌+◌, ◌-◌, ◌^◌, ◌<◌, ◌≤◌, ◌≡◌, refl, sym, ap, ◌∙◌, min, true, false, Option, none,
  some, List, [], ◌++◌, Text, length, length-append, length-take_le, take_all, take, ltb,
  Bool-cases, inl, inr, arith,
}
use spacex_storage.Status.{SpacexStatus, success, is_success}
use spacex_storage.Transfer.Defs.{drop, zero_bytes, or_new}
use spacex_storage.Transfer.Buffers.{take-drop, length-drop, write_part, write_whole}
use spacex_storage.Transfer.Persist.{
  u32, ocall_persist_set, persist_loop, persist_set_unsafe, persist_set, persist_get,
}

module _ {D : Type 0} (set : Text → List ℕ → D → D × SpacexStatus)
    (get : Text → D → Option (List ℕ)) where
  persist_part :
      (key : Text) (before rest : List ℕ) (n total : ℕ) (buf : Option (List ℕ)) (db : D)
      → total ≡ length before + length rest
      → n < length rest
      → or_new true total buf ≡ some (before ++ zero_bytes (length rest))
      → ocall_persist_set set get key (take n rest) total buf (length before) db
        ≡ some (some ((before ++ take n rest) ++ zero_bytes (length (drop n rest))), db, success)
  unfolding ocall_persist_set
  persist_part key before rest n total buf db e lt b =
      let written = write_part before rest n (omega arith) in
      let size = length-take_le n rest (omega arith) in
      let partly : ltb (length (take n rest)) total ≡ true = ground (arith, size) in
      let more : ltb (length before + length (take n rest)) total ≡ true = ground (arith, size) in
      rw (partly, b, written, more, ocall_persist_set) refl

  persist_last :
      (key : Text) (before rest : List ℕ) (total : ℕ) (buf : Option (List ℕ)) (db : D)
      → total ≡ length before + length rest
      → 0 < length before
      → or_new true total buf ≡ some (before ++ zero_bytes (length rest))
      → ocall_persist_set set get key rest total buf (length before) db
        ≡ some (
          some (before ++ rest),
          (set key (before ++ rest) db).0,
          (set key (before ++ rest) db).1,
        )
  unfolding ocall_persist_set
  persist_last key before rest total buf db e p b =
      let written = write_whole before rest in
      let partly : ltb (length rest) total ≡ true = ground arith in
      let done : ltb (length before + length rest) total ≡ false = ground arith in
      let whole = take_all total (before ++ rest) (omega (arith, length-append before rest)) in
      rw (partly, b, written, done, whole, ocall_persist_set) refl

  persist_done :
      (threshold fuel : ℕ) (key : Text) (total offset : ℕ) (rest : List ℕ) (status : SpacexStatus)
      (buf : Option (List ℕ)) (db : D)
      → ltb offset total ≡ false
      → persist_loop set get threshold fuel key total offset rest status buf db ≡ some (db, status)
  unfolding persist_loop
  persist_done threshold zero key total offset rest status buf db e = refl
  persist_done threshold (suc fuel) key total offset rest status buf db e =
      rw (e, persist_loop) refl

  persist_more :
      (threshold fuel : ℕ) (key : Text) (total offset : ℕ) (rest : List ℕ) (status : SpacexStatus)
      (buf buf' : Option (List ℕ)) (db db' : D)
      → ltb offset total ≡ true
      → ocall_persist_set set get key
          (take (min (u32 (total - offset)) threshold) rest)
          total
          buf
          offset
          db
        ≡ some (buf', db', success)
      → persist_loop set get threshold (suc fuel) key total offset rest status buf db
        ≡ persist_loop set get threshold fuel key total
            (offset + min (u32 (total - offset)) threshold)
            (drop (min (u32 (total - offset)) threshold) rest)
            success
            buf'
            db'
  unfolding persist_loop
  persist_more threshold fuel key total offset rest status buf buf' db db' lt e =
      rw (lt, e, persist_loop) refl

  persist_end :
      (threshold fuel : ℕ) (key : Text) (total offset : ℕ) (rest : List ℕ)
      (status status' : SpacexStatus) (buf buf' : Option (List ℕ)) (db db' : D)
      → ltb offset total ≡ true
      → total ≤ offset + min (u32 (total - offset)) threshold
      → ocall_persist_set set get key
          (take (min (u32 (total - offset)) threshold) rest)
          total
          buf
          offset
          db
        ≡ some (buf', db', status')
      → persist_loop set get threshold (suc fuel) key total offset rest status buf db
        ≡ some (db', status')
  unfolding persist_loop
  persist_end threshold fuel key total offset rest status status' buf buf' db db' lt end e =
      let part = min (u32 (total - offset)) threshold in
      let done =
        persist_done threshold fuel key total (offset + part) (drop part rest) status' buf' db'
          (ground arith) in
      elim (Bool-cases (is_success status')) [
        | inl good ↦ rw (lt, e, good, persist_loop) done
        | inr bad ↦ rw (lt, e, bad, persist_loop) refl
      ]

  -- From a place behind the start on, with at least a byte left, or from the start with more than one part.
  persist_loop_whole :
      (threshold fuel : ℕ) (key : Text) (total : ℕ) (before rest : List ℕ) (status : SpacexStatus)
      (buf : Option (List ℕ)) (db : D)
      → 0 < threshold
      → length rest ≤ fuel
      → 0 < length rest
      → total ≡ length before + length rest
      → total < 2 ^ 32
      → threshold < total
      → or_new true total buf ≡ some (before ++ zero_bytes (length rest))
      → persist_loop set get threshold fuel key total (length before) rest status buf db
        ≡ some ((set key (before ++ rest) db).0, (set key (before ++ rest) db).1)
  persist_loop_whole threshold zero key total before rest status buf db t f p e small big b =
      absurd (omega arith)
  persist_loop_whole threshold (suc fuel) key total before rest status buf db t f p e small big b =
      let offset = length before in
      let n = min (u32 (total - offset)) threshold in
      let inside : ltb offset total ≡ true = ground arith in
      elim (Bool-cases (ltb n (length rest))) [
        | inl more ↦
            let part = take n rest in
            let left = drop n rest in
            let buf' : Option (List ℕ) = some ((before ++ part) ++ zero_bytes (length left)) in
            let size = length-take_le n rest (ground arith) in
            let place : length (before ++ part) ≡ offset + n =
              omega (arith, length-append before part, size) in
            let size' = length-drop n rest in
            let stored = persist_part key before rest n total buf db e (ground arith) b in
            let step =
              persist_more threshold fuel key total offset rest status buf buf' db db inside
                stored in
            let whole = append_assoc before part left ∙ ap (before ++◌) (take-drop n rest) in
            let rest_stored =
              persist_loop_whole threshold fuel key total (before ++ part) left success buf' db t
                (ground arith) (ground arith) (ground arith) small big refl in
            step
            ∙ (ap (λ k. persist_loop set get threshold fuel key total k left success buf' db)
                  (sym place)
                ∙ (rest_stored ∙ rw whole refl))
        | inr last ↦
            let all = take_all n rest (ground arith) in
            let stored = persist_last key before rest total buf db e (ground arith) b in
            persist_end threshold fuel key total offset rest status (set key (before ++ rest) db).1
              buf (some (before ++ rest)) db (set key (before ++ rest) db).0 inside (ground arith)
              (rw all stored)
      ]

  persist_set_unsafe_whole :
      (threshold : ℕ) (key : Text) (value : List ℕ) (db : D)
      → 0 < threshold
      → length value < 2 ^ 32
      → persist_set_unsafe set get threshold key value db
        ≡ some ((set key value db).0, (set key value db).1)
  unfolding persist_set_unsafe ocall_persist_set
  persist_set_unsafe_whole threshold key value db t small =
      elim (Bool-cases (ltb threshold (length value))) [
        | inl more ↦
            let stored =
              persist_loop_whole threshold (length value) key (length value) [] value success none
                db t (omega arith) (ground arith) (omega arith) small (ground arith) refl in
            rw (more, persist_set_unsafe) stored
        | inr one ↦
            let whole : ltb (length value) (length value) ≡ false = ground arith in
            rw (one, whole, persist_set_unsafe) refl
      ]

  module _ (seal : List ℕ → SpacexStatus × List ℕ) (unseal : List ℕ → Option (List ℕ)) where
    -- A value that `persist_set` stores is what `persist_get` gives afterwards, however many parts it
    -- takes. The sealing gives bytes that unseal to the value and are shorter than 2^32, the
    -- database keeps under the key what was set last, the memory can be allocated, and the calls of
    -- SGX that store the parts work.
    pub persist_get-persist_set :
        (threshold : ℕ) (key : Text) (value : List ℕ) (db : D)
        → 0 < threshold
        → (seal value).0 ≡ success
        → length (seal value).1 < 2 ^ 32
        → unseal (seal value).1 ≡ some value
        → ((k : Text) (v : List ℕ) (db : D) → (set k v db).1 ≡ success)
        → ((k : Text) (v : List ℕ) (db : D) → get k (set k v db).0 ≡ some v)
        → (db' : D) × (persist_set set get seal unseal threshold key value db ≡ some (db', success))
          × (persist_get set get seal unseal true true key db' ≡ (success, some value))
    unfolding persist_set persist_get
    persist_get-persist_set threshold key value db t sealed small opens sets gets =
        let v = (seal value).1 in
        let stored = persist_set_unsafe_whole threshold key v db t small in
        let status = sets key v db in
        let found = gets key v db in
        (
          (set key v db).0,
          rw (sealed, stored, status, persist_set) refl,
          rw (found, opens, persist_get) refl,
        )
