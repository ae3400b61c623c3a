-- ===== src/Transfer/Persist.antt =====
-- The storing of values under a key: enclave/persistence/Persistence.cpp with `ocall_persist_set` and
-- `ocall_persist_get` of app/ocalls/PersistOCalls.cpp. The database and the sealing are parameters;
-- the calls of SGX between the two always work here.
use spacex_storage.Prelude.{
  ℕ, zero, suc, ◌+◌, ◌-◌, ◌%◌, ◌^◌, min, Bool, true, false, not, Option, none, some, List, Text,
  length, take, ltb, if◌then◌else◌,
}
use spacex_storage.Status.{
  SpacexStatus, success, is_success, persist_get_failed, unseal_data_failed,
}
use spacex_storage.Transfer.Defs.{drop, write_at, or_new}

-- `uint32_t`
abbrev pub u32 : ℕ → ℕ
u32 n = n % 2 ^ 32

-- `DataBase::set` and `DataBase::get`; no value stands for a status other than success.
module _ {D : Type 0} (set : Text → List ℕ → D → D × SpacexStatus)
    (get : Text → D → Option (List ℕ)) where
  -- `ocall_persist_set`, with the pointer `*total_buf`; no result stands for a write outside of the
  -- buffer. The pointer still points to the buffer when it is freed.
  unfoldable pub ocall_persist_set :
      Text → List ℕ → ℕ → Option (List ℕ) → ℕ → D → Option (Option (List ℕ) × D × SpacexStatus)
  ocall_persist_set key value total total_buf offset db =
      if ltb (length value) total
      then elim (or_new true total total_buf) [
        | none ↦ none
        | some buffer ↦ elim (write_at offset value buffer) [
          | none ↦ none
          | some buffer' ↦
              if ltb (offset + length value) total
              then some (some buffer', db, success)
              else (let (db', status) = set key (take total buffer') db in
                  some (some buffer', db', status))
        ]
      ]
      else (let (db', status) = set key value db in some (total_buf, db', status))

  -- The loop of `persist_set` and of `persist_set_unsafe`, from the bytes `rest` at `offset` on.
  unfoldable pub persist_loop :
      ℕ → ℕ → Text → ℕ → ℕ → List ℕ → SpacexStatus → Option (List ℕ) → D → Option (D × SpacexStatus)
  unfolding ocall_persist_set
  persist_loop threshold zero key total offset rest status store_buf db = some (db, status)
  persist_loop threshold (suc fuel) key total offset rest status store_buf db =
      let part = min (u32 (total - offset)) threshold in
      elim (ltb offset total) [
        | false ↦ some (db, status)
        | true ↦ elim (ocall_persist_set key (take part rest) total store_buf offset db) [
          | none ↦ none
          | some (store_buf', db', status') ↦ elim (is_success status') [
            | false ↦ some (db', status')
            | true ↦
                persist_loop threshold fuel key total (offset + part) (drop part rest) status'
                  store_buf' db'
          ]
        ]
      ]

  -- `persist_set_unsafe`; the threshold is an argument, which is `boundary_size` in the code.
  unfoldable pub persist_set_unsafe : ℕ → Text → List ℕ → D → Option (D × SpacexStatus)
  unfolding persist_loop ocall_persist_set
  persist_set_unsafe threshold key value db =
      if ltb threshold (length value)
      then persist_loop threshold (length value) key (length value) 0 value success none db
      else elim (ocall_persist_set key value (length value) none 0 db) [
        | none ↦ none
        | some (store_buf, db', status) ↦ some (db', status)
      ]

  -- `seal_data_mrenclave`, with its status, and `sgx_unseal_data`.
  module _ (seal : List ℕ → SpacexStatus × List ℕ) (unseal : List ℕ → Option (List ℕ)) where
    -- `persist_set`
    unfoldable pub persist_set : ℕ → Text → List ℕ → D → Option (D × SpacexStatus)
    unfolding persist_set_unsafe
    persist_set threshold key value db =
        let (status, sealed) = seal value in
        if not (is_success status)
        then some (db, status)
        else persist_set_unsafe threshold key sealed db

    -- `persist_get`; `room` tells whether the two buffers can be allocated. The value is missing where
    -- the code leaves `*value` as it was.
    unfoldable pub persist_get : (room room' : Bool) → Text → D → SpacexStatus × Option (List ℕ)
    persist_get room room' key db = elim (get key db) [
      | none ↦ (persist_get_failed, none)
      | some sealed ↦
          if not room
          then (persist_get_failed, none)
          else if not room'
          then (success, none)
          else elim (unseal sealed) [
            | none ↦ (unseal_data_failed, none)
            | some value ↦ (success, some value)
          ]
    ]
