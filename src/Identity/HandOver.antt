-- ===== src/Identity/HandOver.antt =====
-- What the old enclave hands over, the new one accepts.
use spacex_storage.Prelude.{
  is_empty, false, not, ℕ, ◌*◌, ◌%◌, ◌≡◌, ◌≢◌, refl, sym, ap, ap₂, ◌∙◌, Bool, true, Option, none,
  some, List, [], ◌∷◌, map, pos, Text, text_eq_refl, length, take, if◌then◌else◌, inl, inr, ◌⊎◌,
  Option-cases, arith,
}
use spacex_storage.Status.{SpacexStatus, success, is_success, sgx_sign_failed}
use spacex_storage.Hex.{hexstring, hex_string_to_bytes}
use spacex_storage.SrdMeta.Defs.{serialize_srd}
use spacex_storage.Files.Defs.{SealedFile}
use spacex_storage.Workload.Defs.{Workload, size_mod}
use spacex_storage.Workload.Restore.{whole, serialize_entry, settled}
use spacex_storage.Workload.Info.{
  Memory, settled_hashes, WorkloadInfo, srd_root_hash, file_root_hash, gen_workload_info,
  get_upgrade_srd_info, get_upgrade_file_info,
}
use spacex_storage.Report.Generate.{Library}
use spacex_storage.Identity.Metadata.{pub_key_size}
use spacex_storage.Identity.Upgrade.{
  UpgradeData, ExportSteps, ImportSteps, upgrade_buffer, export_workload, export_signed, check_info,
  check_workload,
}

-- A file that is not pending stays as it is, in the text and in the list.
pub settled_twice : (files : List SealedFile) → settled (settled files) ≡ settled files
unfolding settled
settled_twice [] = refl
settled_twice (file ∷ files) = ground (arith, settled_twice files)

pub settled_whole :
    (files : List SealedFile) → map serialize_entry (settled files) ≡ map whole (settled files)
unfolding settled serialize_entry
settled_whole [] = refl
settled_whole (file ∷ files) = ground (arith, settled_whole files)

pub settled_hashes-settled :
    (files : List SealedFile) → settled_hashes (settled files) ≡ settled_hashes files
unfolding settled settled_hashes
settled_hashes-settled [] = refl
settled_hashes-settled (file ∷ files) = ground (arith, settled_hashes-settled files)

settled_none : settled [] ≡ []
unfolding settled
settled_none = refl

not_empty : (files : List SealedFile) → files ≢ [] → is_empty files ≡ false
not_empty [] ne = absurd (ne refl)
not_empty (file ∷ files) ne = refl

module _ (sha256 : List ℕ → List ℕ) where
  file_root_some :
      (memory : Memory) (files : List SealedFile)
      → memory.files_buffer ≡ true
      → settled files ≢ []
      → file_root_hash sha256 memory files ≡ (success, sha256 (settled_hashes files))
  unfolding file_root_hash
  file_root_some memory [] h ne = absurd (ne settled_none)
  file_root_some memory (file ∷ files) h ne =
      rw (not_empty (settled (file ∷ files)) ne, h, file_root_hash) refl

  pub file_root_exported :
      (memory : Memory) (files : List SealedFile)
      → (file_root_hash sha256 memory files).0 ≡ success
      → settled files ≢ []
      → (file_root_hash sha256 memory files).1 ≡ sha256 (settled_hashes files)
  unfolding file_root_hash
  file_root_exported memory [] h ne = absurd (ne (settled_none))
  file_root_exported memory (file ∷ files) h ne =
      let there = not_empty (settled (file ∷ files)) ne in ground (arith, h, there)

  -- The root hash when all files are pending and there are some.
  pub file_root_pending :
      (memory : Memory) (files : List SealedFile)
      → files ≢ []
      → settled files ≡ []
      → (file_root_hash sha256 memory files).1 ≡ memory.unset
  unfolding file_root_hash
  file_root_pending memory [] ne e = absurd (ne refl)
  file_root_pending memory (file ∷ files) ne e = rw (e, file_root_hash) refl

  -- The root hash of the files that are handed over is that of all files.
  pub file_root_settled :
      (m m' : Memory) (files : List SealedFile)
      → (file_root_hash sha256 m files).0 ≡ success
      → m'.files_buffer ≡ true
      → (files ≡ []) ⊎ (settled files ≢ [])
      → file_root_hash sha256 m' (settled files) ≡ file_root_hash sha256 m files
  unfolding file_root_hash settled
  file_root_settled m m' [] ok h some_file = refl
  file_root_settled m m' (file ∷ files) ok h (inl e) = cc
  file_root_settled m m' (file ∷ files) ok h (inr ne) =
      file_root_some m' (settled (file ∷ files)) h
        (λ e. ne (sym (settled_twice (file ∷ files)) ∙ e))
      ∙ (ap (λ r. (success, sha256 r)) (settled_hashes-settled (file ∷ files))
          ∙ ap₂ (λ a b. (a, b)) (sym ok) (sym (file_root_exported m (file ∷ files) ok ne)))

  pub srd_root_same :
      (m m' : Memory) (items : List (List ℕ))
      → (srd_root_hash sha256 m items).0 ≡ success
      → m'.srd_buffer ≡ true
      → srd_root_hash sha256 m' items ≡ srd_root_hash sha256 m items
  unfolding srd_root_hash
  srd_root_same m m' [] ok h = refl
  srd_root_same m m' (item ∷ items) ok h = ground (arith, ok, h)

module _ (lib : Library) where
  -- The object that the old enclave makes, with its signature.
  abbrev pub handed_over : ExportSteps → ℕ → Workload → List ℕ → UpgradeData
  handed_over steps height w sig = record {
    public_key = hexstring (take pub_key_size w.key_pair);
    block_height = lib.to_text (pos height);
    block_hash = take 64 steps.block_hash;
    srd = some (serialize_srd w.srd);
    files = some (map whole (settled w.sealed_files));
    srd_root = hexstring (srd_root_hash lib.sha256 steps.memory w.srd.hashs).1;
    file_root = hexstring (file_root_hash lib.sha256 steps.memory w.sealed_files).1;
    sig = hexstring sig;
  }

  abbrev pub signed_bytes : ExportSteps → ℕ → Workload → List ℕ
  signed_bytes steps height w =
      upgrade_buffer (take pub_key_size w.key_pair) (lib.to_text (pos height))
        (take 64 steps.block_hash) (srd_root_hash lib.sha256 steps.memory w.srd.hashs).1
        (file_root_hash lib.sha256 steps.memory w.sealed_files).1

  export_guards :
      (context : Bool) (a b : SpacexStatus) (w w' : Workload) (d : UpgradeData)
      (r : Workload × SpacexStatus × Option UpgradeData)
      → (if not context
          then (w, sgx_sign_failed, none)
          else if not (is_success a)
          then (w, a, none)
          else if not (is_success b)
          then (w, b, none)
          else r)
        ≡ (w', success, some d)
      → (a ≡ success) × (b ≡ success) × (r ≡ (w', success, some d))
  export_guards context a b w w' d r e =
      let some_d : (if not context
            then none
            else if not (is_success a)
            then none
            else if not (is_success b)
            then none
            else r.2)
          ≡ some d =
        ground (arith, ap (λ x. x.2) e) in
      ground (arith, some_d, e)

  export_signed_success :
      (steps : ExportSteps) (height : ℕ) (w w' : Workload) (d : UpgradeData)
      (srd : List ℕ × List Text) (files : List ℕ × List SealedFile)
      → export_signed lib steps height w srd files ≡ (w', success, some d)
      → (sig : List ℕ) × (lib.sign (
            upgrade_buffer
              (take pub_key_size w.key_pair)
              (lib.to_text (pos height))
              (take 64 steps.block_hash)
              srd.0
              files.0)
          ≡ some sig)
        × (d ≡ record {
          public_key = hexstring (take pub_key_size w.key_pair);
          block_height = lib.to_text (pos height);
          block_hash = take 64 steps.block_hash;
          srd = some srd.1;
          files = some (map whole files.1);
          srd_root = hexstring srd.0;
          file_root = hexstring files.0;
          sig = hexstring sig;
        })
  unfolding export_signed
  export_signed_success steps height w w' d srd files e =
      let answer = ap (λ x. x.2) e in
      elim (Option-cases (
        lib.sign (
          upgrade_buffer (take pub_key_size w.key_pair) (lib.to_text (pos height))
            (take 64 steps.block_hash) srd.0 files.0))) [
              | inl h ↦ ground (arith, answer, h)
              | inr (sig, h) ↦ (sig, h, ground (arith, answer, h))
            ]

  pub export_workload_success :
      (steps : ExportSteps) (height : ℕ) (w w' : Workload) (d : UpgradeData)
      → export_workload lib steps height w ≡ (w', success, some d)
      → ((srd_root_hash lib.sha256 steps.memory w.srd.hashs).0 ≡ success)
        × ((file_root_hash lib.sha256 steps.memory w.sealed_files).0 ≡ success)
        × (sig : List ℕ) × (lib.sign (signed_bytes steps height w) ≡ some sig)
        × (d ≡ handed_over steps height w sig)
  unfolding export_workload get_upgrade_srd_info get_upgrade_file_info
  export_workload_success steps height w w' d e =
      let srd = get_upgrade_srd_info lib.sha256 steps.memory w in
      let files = get_upgrade_file_info lib.sha256 steps.memory w in
      let (srd_ok, file_ok, go) =
        export_guards steps.context srd.0 files.0 w w' d
          (export_signed lib steps height w (srd.1, srd.2) (files.1, files.2)) e in
      let (sig, signed, made) =
        export_signed_success steps height w w' d (srd.1, srd.2) (files.1, files.2) go in
      let entries : srd.2 ≡ serialize_srd w.srd = ground (arith, srd_ok) in
      let all : files.2 ≡ settled w.sealed_files = ground (arith, file_ok) in
      (
        srd_ok,
        file_ok,
        sig,
        signed,
        made
            ∙ ap₂
                (λ ss fs. record (handed_over steps height w sig) {
                  srd = some ss;
                  files = some (map whole fs);
                })
                entries all,
      )

  check_info_success :
      (steps : ImportSteps) (d : UpgradeData) (pub_key sig : List ℕ) (info : WorkloadInfo)
      → steps.context ≡ true
      → hex_string_to_bytes d.sig ≡ some sig
      → steps.verify pub_key
          (upgrade_buffer pub_key d.block_height d.block_hash info.srd_root info.file_root)
          (take pub_key_size sig)
        ≡ true
      → d.srd_root ≡ hexstring info.srd_root
      → d.file_root ≡ hexstring info.file_root
      → check_info lib steps d pub_key info ≡ success
  unfolding check_info
  check_info_success steps d pub_key sig info e1 e2 e3 e4 e5 =
      let same_srd = text_eq_refl (hexstring info.srd_root) in
      let same_files = text_eq_refl (hexstring info.file_root) in
      rw (e1, e2, e3, e4, e5, same_srd, same_files, check_info) refl

  -- The check on a workload with the same root hashes, when the signature is verified.
  pub check_workload_success :
      (steps : ImportSteps) (d : UpgradeData) (pub_key sig srd_root file_root : List ℕ)
      (t : Workload)
      → srd_root_hash lib.sha256 steps.memory t.srd.hashs ≡ (success, srd_root)
      → file_root_hash lib.sha256 steps.memory t.sealed_files ≡ (success, file_root)
      → steps.context ≡ true
      → hex_string_to_bytes d.sig ≡ some sig
      → steps.verify pub_key
          (upgrade_buffer pub_key d.block_height d.block_hash srd_root file_root)
          (take pub_key_size sig)
        ≡ true
      → d.srd_root ≡ hexstring srd_root
      → d.file_root ≡ hexstring file_root
      → check_workload lib steps d pub_key t ≡ success
  unfolding check_workload gen_workload_info
  check_workload_success steps d pub_key sig srd_root file_root t e1 e2 e3 e4 e5 e6 e7 =
      let info : WorkloadInfo = record {
        srd_space = length t.srd.hashs * 1024 * 1024 * 1024 % size_mod;
        srd_root = srd_root;
        file_root = file_root;
      } in
      let told : gen_workload_info lib.sha256 steps.memory t ≡ (success, info) =
        rw (e1, e2, gen_workload_info) refl in
      ap (λ r. if not (is_success r.0) then r.0 else check_info lib steps d pub_key r.1) told
      ∙ check_info_success steps d pub_key sig info e3 e4 e5 e6 e7
