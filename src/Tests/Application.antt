-- ===== src/Tests/Application.antt =====
-- The application's table of files at concrete inputs.
use spacex_storage.Prelude.{
  true, List, [], ◌∷◌, ◌≡◌, sym, ◌∙◌, Text, text_eq_lem, arith, ◌⊎◌, inl, inr, Bool-cases,
}
use spacex_storage.AppData.Maps.{lookup_key}
use spacex_storage.AppData.Defs.{AppData, no_upgrade, type_pending, type_valid, of_type, is_found}
use spacex_storage.AppData.Types.{
  info_at, IsSingle, FileCall, changed, gone, file_calls, file_calls-IsSingle,
}
use spacex_storage.Tests.Data.{cid_a}

-- One file, valid.
abbrev one_file : AppData
one_file = record {
  sealed_file = (type_valid, (cid_a, 1 ∷ []) ∷ []) ∷ [];
  pending_size = [];
  upgrade_data = [];
  upgrade_status = no_upgrade;
  disabled = 0;
  uuid_to_path = [];
  path_to_uuid = [];
}

only_valid : (cid t : Text) → is_found (info_at t cid one_file) ≡ true → t ≡ type_valid
unfolding lookup_key of_type
only_valid cid t h = ground (arith, h, text_eq_lem t type_valid)

one_file-IsSingle : IsSingle one_file
unfolding IsSingle
one_file-IsSingle cid t t' = elim (Bool-cases (is_found (info_at t cid one_file))) [
  | inl h ↦ elim (Bool-cases (is_found (info_at t' cid one_file))) [
    | inl h' ↦ inl (only_valid cid t h ∙ sym (only_valid cid t' h'))
    | inr h' ↦ inr (ground (arith, h, h'))
  ]
  | inr h ↦ inr (ground (arith, h))
]

abbrev calls : List FileCall
calls = changed cid_a type_valid type_pending ∷ gone cid_a ∷ []

file_calls-IsSingle_example : IsSingle (file_calls calls one_file)
file_calls-IsSingle_example = file_calls-IsSingle calls one_file one_file-IsSingle

a_is_valid :
    (t : Text)
    → is_found (info_at t cid_a one_file) ≡ true
    → (t ≡ type_valid) ⊎ ((t ≡ type_pending) × (type_valid ≡ type_valid))
a_is_valid t h = inl (only_valid cid_a t h)
