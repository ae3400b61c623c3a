-- ===== src/Identity/Accept.antt =====
-- The new enclave accepts what the old one hands over, unless all its files are pending.
use spacex_storage.Prelude.{
  ℕ, ◌≡◌, ◌≢◌, refl, sym, ap, ◌∙◌, Bool, true, some, List, [], map, length, take, take_all, All,
  ◌⊎◌, arith,
}
use spacex_storage.Status.{success}
use spacex_storage.Hex.{IsBytes}
use spacex_storage.SrdMeta.Defs.{restore_srd}
use spacex_storage.SrdMeta.Restore.{IsItem}
use spacex_storage.Workload.Defs.{Workload}
use spacex_storage.Workload.Restore.{whole, settled, restore_file}
use spacex_storage.Workload.Restored.{restore_file_stored}
use spacex_storage.Workload.Info.{srd_root_hash, file_root_hash}
use spacex_storage.Report.Generate.{Library}
use spacex_storage.Identity.Metadata.{pub_key_size}
use spacex_storage.Identity.MetadataRoundTrip.{IsFresh, restored_hashs, hex_round_trip}
use spacex_storage.Identity.Upgrade.{
  UpgradeData, ExportSteps, ImportSteps, export_workload, check_workload, import_workload,
}
use spacex_storage.Identity.HandOver.{
  settled_twice, settled_whole, file_root_settled, srd_root_same, handed_over, signed_bytes,
  export_workload_success, check_workload_success,
}

module _ (lib : Library) where
  -- The two restorings and the check, when the restorings do not fail.
  pub import_workload_end :
      (steps : ImportSteps) (d : UpgradeData) (pub_key : List ℕ) (t : Workload)
      → let (srd, srd_status) = restore_srd d.srd t.srd in
        let (w2, file_status) = restore_file steps.told d.files (record t { srd = srd }) in
        srd_status ≡ success
        → file_status ≡ success
        → import_workload lib steps d pub_key t ≡ (w2, check_workload lib steps d pub_key w2)
  unfolding import_workload
  import_workload_end steps d pub_key t e1 e2 = ground (arith, e1, e2)

  pub restored_files :
      (told : Bool) (w t : Workload)
      → t.sealed_files ≡ []
      → let (r, status) = restore_file told (some (map whole (settled w.sealed_files))) t in
        (status ≡ success) × (r.sealed_files ≡ settled w.sealed_files) × (r.srd ≡ t.srd)
  restored_files told w t e =
      let back = restore_file_stored told (settled w.sealed_files) t e in
      rw (sym (settled_whole w.sealed_files))
        (back.0, back.1 ∙ settled_twice w.sealed_files, ap (λ o. o.0) back.3)

  module _ (steps : ExportSteps) (taken : ImportSteps) (height : ℕ) (w t : Workload)
      (items : All IsItem w.srd.hashs) (fresh : IsFresh t) where
    import_handed_over :
        (sig : List ℕ)
        → (srd_root_hash lib.sha256 steps.memory w.srd.hashs).0 ≡ success
        → (file_root_hash lib.sha256 steps.memory w.sealed_files).0 ≡ success
        → taken.memory.srd_buffer ≡ true
        → taken.memory.files_buffer ≡ true
        → taken.context ≡ true
        → IsBytes sig
        → length sig ≡ pub_key_size
        → taken.verify (take pub_key_size w.key_pair) (signed_bytes lib steps height w) sig ≡ true
        → (w.sealed_files ≡ []) ⊎ (settled w.sealed_files ≢ [])
        → let (r, status) =
            import_workload lib taken
              (handed_over lib steps height w sig)
              (take pub_key_size w.key_pair)
              t in
          (status ≡ success)
          × (r.srd.hashs ≡ w.srd.hashs)
          × (r.sealed_files ≡ settled w.sealed_files)
    import_handed_over sig srd_ok file_ok m1 m2 context bytes size verified some_file =
        let d = handed_over lib steps height w sig in
        let pub_key = take pub_key_size w.key_pair in
        let w1 : Workload = record t { srd = (restore_srd d.srd t.srd).0 } in
        let w2 = (restore_file taken.told d.files w1).0 in
        let srd = restored_hashs w.srd t.srd items fresh.no_srd in
        let files = restored_files taken.told w w1 fresh.no_files in
        let end = import_workload_end taken d pub_key t srd.0 files.0 in
        let same_items : w2.srd.hashs ≡ w.srd.hashs = ap (λ s. s.hashs) files.2 ∙ srd.1 in
        let srd_root =
          ap (srd_root_hash lib.sha256 taken.memory) same_items
          ∙ (srd_root_same lib.sha256 steps.memory taken.memory w.srd.hashs srd_ok m1
              ∙ ap (λ s. (s, (srd_root_hash lib.sha256 steps.memory w.srd.hashs).1)) srd_ok) in
        let file_root =
          ap (file_root_hash lib.sha256 taken.memory) files.1
          ∙ (file_root_settled lib.sha256 steps.memory taken.memory w.sealed_files file_ok m2
                some_file
              ∙ ap (λ s. (s, (file_root_hash lib.sha256 steps.memory w.sealed_files).1)) file_ok) in
        let sig_back = hex_round_trip 63 sig bytes size in
        let checked =
          check_workload_success lib taken d pub_key sig _ _ w2 srd_root file_root context sig_back
            (ap (taken.verify pub_key (signed_bytes lib steps height w))
                (take_all pub_key_size sig size)
              ∙ verified)
            refl refl in
        rw end (checked, same_items, files.1)

    -- When the old enclave exports its workload with success, the new one that has just started restores it, finds the signature and the root hashes right, and then has the same entries of sealed space and the same files but the pending ones. This is for entries of their right size, for a signature scheme that verifies what it has signed, with memory for both roots, and unless there are files of which all are pending.
    pub import_workload-export_workload :
        (w' : Workload) (d : UpgradeData)
        → export_workload lib steps height w ≡ (w', success, some d)
        → taken.memory.srd_buffer ≡ true
        → taken.memory.files_buffer ≡ true
        → taken.context ≡ true
        → ((bytes sig : List ℕ)
            → lib.sign bytes ≡ some sig
            → IsBytes sig
              × (length sig ≡ pub_key_size)
              × (taken.verify (take pub_key_size w.key_pair) bytes sig ≡ true))
        → (w.sealed_files ≡ []) ⊎ (settled w.sealed_files ≢ [])
        → let (r, status) = import_workload lib taken d (take pub_key_size w.key_pair) t in
          (status ≡ success)
          × (r.srd.hashs ≡ w.srd.hashs)
          × (r.sealed_files ≡ settled w.sealed_files)
    import_workload-export_workload w' d e m1 m2 context scheme some_file =
        let (srd_ok, file_ok, sig, signed, made) =
          export_workload_success lib steps height w w' d e in
        let (bytes, size, verified) = scheme (signed_bytes lib steps height w) sig signed in
        rw made (import_handed_over sig srd_ok file_ok m1 m2 context bytes size verified some_file)
