-- ===== src/Tests/Transfers.antt =====
-- Data that crosses the border of the enclave, and stored values, at concrete inputs.
use spacex_storage.Prelude.{
  ℕ, ◌≡◌, refl, ◌∙◌, true, Bool, none, some, Option, List, [], ◌∷◌, ◌++◌, Text, text_eq_refl, arith,
}
use spacex_storage.Status.{SpacexStatus, success}
use spacex_storage.AppData.Maps.{lookup_key, set_key, lookup-set_key}
use spacex_storage.Transfer.Defs.{Pool, safe_store2, safe_ocall_store2}
use spacex_storage.Transfer.Whole.{safe_ocall_store2_whole, safe_store2_overrun}
use spacex_storage.Transfer.Persist.{persist_set, persist_get}
use spacex_storage.Transfer.Persisted.{persist_get-persist_set}
use spacex_storage.Tests.Data.{cid_a}

abbrev three_bytes : List ℕ
three_bytes = 5 ∷ 6 ∷ 7 ∷ []

abbrev or_nothing : Option (List ℕ) → List ℕ
or_nothing none = []
or_nothing (some bytes) = bytes

-- Everything that comes in is kept.
abbrev keep : Option (List ℕ) → ℕ → List ℕ → List ℕ × SpacexStatus
keep buffer size kept = (kept ++ or_nothing buffer, success)

abbrev no_pool : Pool
no_pool key = none

abbrev always : ℕ → Bool
always offset = true

safe_ocall_store2_whole_example :
    safe_ocall_store2 keep 2 always always 1 three_bytes no_pool []
    ≡ some (no_pool, three_bytes, success)
safe_ocall_store2_whole_example =
    safe_ocall_store2_whole keep 2 always always 1 three_bytes no_pool [] (omega arith)
      (λ offset. refl) (λ offset. refl) (omega arith) (omega arith) refl

safe_store2_overrun_example : safe_store2 keep true three_bytes 4 2 1 no_pool [] ≡ none
safe_store2_overrun_example =
    safe_store2_overrun keep three_bytes 4 2 1 no_pool [] refl (omega arith) (omega arith)

-- A database, and a sealing that puts a byte before the value.
abbrev Database : Type 0
Database = List (Text × List ℕ)

abbrev set : Text → List ℕ → Database → Database × SpacexStatus
set key value db = (set_key key value db, success)

abbrev get : Text → Database → Option (List ℕ)
get key db = lookup_key key db

abbrev seal : List ℕ → SpacexStatus × List ℕ
seal value = (success, 9 ∷ value)

abbrev unseal : List ℕ → Option (List ℕ)
unseal [] = none
unseal (x ∷ value) = some value

get-set : (key : Text) (value : List ℕ) (db : Database) → get key (set key value db).0 ≡ some value
get-set key value db = lookup-set_key key key value db ∙ ground (arith, text_eq_refl key)

persist_get-persist_set_example :
    (db' : Database) × (persist_set set get seal unseal 2 cid_a three_bytes []
      ≡ some (db', success))
    × (persist_get set get seal unseal true true cid_a db' ≡ (success, some three_bytes))
persist_get-persist_set_example =
    persist_get-persist_set set get seal unseal 2 cid_a three_bytes [] (omega arith) refl
      (omega arith) refl (λ k v db. refl) get-set
