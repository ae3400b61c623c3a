-- ===== src/Server/Seal.antt =====
-- The request `/storage/seal` of `http_handler` (app/http/ApiHandler.h), whose parameters stand in its
-- URL, and `ecall_seal_file` (enclave/Enclave.cpp).
use spacex_storage.Prelude.{ℕ, Bool, List, [], ◌∷◌, Text, text_eq, if◌then◌else◌}
use spacex_storage.Status.{SpacexStatus, success, upgrade_is_upgrading}
use spacex_storage.Storage.Seal.Defs.{SealBlock, storage_seal_file}
use spacex_storage.AppData.Maps.{lookup_key}
use spacex_storage.AppData.Defs.{or_no_text}
use spacex_storage.Server.Defs.{System}
use spacex_storage.Server.Url.{Params}

-- `params_m[key]`, which is empty for a key that is not there.
unfoldable pub param : Text → Params → Text
param key params = or_no_text (lookup_key key params)

-- The names `cid` and `new_block`, and the text `true`.
abbrev pub cid_name : Text
cid_name = b'c' ∷ b'i' ∷ b'd' ∷ []

abbrev pub new_block_name : Text
new_block_name = b'n' ∷ b'e' ∷ b'w' ∷ b'_' ∷ b'b' ∷ b'l' ∷ b'o' ∷ b'c' ∷ b'k' ∷ []

abbrev pub true_text : Text
true_text = b't' ∷ b'r' ∷ b'u' ∷ b'e' ∷ []

abbrev pub seal_code : SpacexStatus → ℕ
seal_code success = 200
seal_code upgrade_is_upgrading = 503
seal_code _ = 500

-- `/storage/seal`, with the body of the request; the path of the block is left out. `wide` is what the
-- machine makes of a shift that C++ leaves undefined.
unfoldable pub seal_request :
    (List ℕ → List ℕ) → (ℕ → ℕ → ℕ) → SealBlock → Params → List ℕ → Bool → System → System × ℕ
unfolding param
seal_request sha256 wide o params block worked s =
    let root = param cid_name params in
    let is_link = text_eq (param new_block_name params) true_text in
    let (w, status) = storage_seal_file sha256 wide root block is_link o s.enclave in
    if worked then (record s { enclave = w }, seal_code status) else (s, 500)
