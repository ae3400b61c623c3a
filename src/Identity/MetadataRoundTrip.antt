-- ===== src/Identity/MetadataRoundTrip.antt =====
-- What `id_store_metadata` stores, `id_restore_metadata` reads back after a start.
use spacex_storage.Prelude.{
  ℕ, suc, ◌≡◌, refl, ap, ◌∙◌, Bool, true, false, none, some, List, [], ◌∷◌, pos, Text, length, take,
  take_all, All, if◌then◌else◌, inl, inr, Bool-cases, arith,
}
use spacex_storage.Status.{success}
use spacex_storage.Hex.{hexstring, hex_string_to_bytes, hex_string_to_bytes-hexstring, IsBytes}
use spacex_storage.SrdMeta.Defs.{Srd, serialize_srd, restore_srd}
use spacex_storage.SrdMeta.Restore.{IsItem, restore_srd-serialize_srd}
use spacex_storage.Workload.Defs.{
  Workload, set_key_pair, set_report_height, set_upgrade, set_account_id, set_restart_flag,
}
use spacex_storage.Workload.Restore.{settled, restore_file}
use spacex_storage.Workload.Restored.{restore_file-serialize_file}
use spacex_storage.Identity.Metadata.{
  Metadata, members, metadata_of, to_int, key_pair_size, pub_key_size, restore_pre_pub_key,
  restore_members, id_restore_metadata,
}

-- A workload that can be stored: its keys and entries have their sizes.
pub record IsStorable (w : Workload) : Type 0 where
  pub key_bytes : IsBytes w.key_pair
  pub key_length : length w.key_pair ≡ key_pair_size
  pub pre_bytes : IsBytes w.pre_pub_key
  pub pre_length : length w.pre_pub_key ≡ pub_key_size
  pub items : All IsItem w.srd.hashs

-- The enclave after its start.
pub record IsFresh (t : Workload) : Type 0 where
  pub no_srd : t.srd.hashs ≡ []
  pub no_files : t.sealed_files ≡ []
  pub no_key : t.is_set_key_pair ≡ false
  pub no_upgrade : t.upgrade ≡ false

pub hex_round_trip :
    (n : ℕ) (bs : List ℕ)
    → IsBytes bs
    → length bs ≡ suc n
    → hex_string_to_bytes (hexstring bs) ≡ some bs
hex_round_trip n bs h e = hex_string_to_bytes-hexstring bs h (λ nil. ground (arith, e, nil))

restored_hashs_by :
    (items : List (List ℕ)) (s t : Srd)
    → s.hashs ≡ items
    → All IsItem s.hashs
    → t.hashs ≡ []
    → let (r, status) = restore_srd (some (serialize_srd s)) t in
      (status ≡ success) × (r.hashs ≡ s.hashs)
unfolding restore_srd serialize_srd
restored_hashs_by [] s t e h empty = rw e (refl, empty)
restored_hashs_by (item ∷ items) s t e h empty =
    let back = restore_srd-serialize_srd s t (λ nil. ground (arith, e, nil)) h in (back.0, back.1)

-- The entries come back, none of them as well.
pub restored_hashs :
    (s t : Srd)
    → All IsItem s.hashs
    → t.hashs ≡ []
    → let (r, status) = restore_srd (some (serialize_srd s)) t in
      (status ≡ success) × (r.hashs ≡ s.hashs)
restored_hashs s t h e = restored_hashs_by s.hashs s t refl h e

restored_pre_pub_key :
    (w t : Workload)
    → IsStorable w
    → t.upgrade ≡ false
    → let (r, status) =
        restore_pre_pub_key (if w.upgrade then some (hexstring w.pre_pub_key) else none) t in
      (status ≡ success)
      × (r ≡ record t {
        upgrade = w.upgrade;
        pre_pub_key = if w.upgrade then w.pre_pub_key else t.pre_pub_key;
      })
unfolding restore_pre_pub_key set_upgrade
restored_pre_pub_key w t s e = elim (Bool-cases (w.upgrade)) [
  | inl u ↦
      rw (u, restore_pre_pub_key)
        (rw (hex_round_trip 63 w.pre_pub_key s.pre_bytes s.pre_length, restore_pre_pub_key)
          (refl, ap (λ key. set_upgrade key t) (take_all pub_key_size w.pre_pub_key s.pre_length)))
  | inr u ↦ rw (u, restore_pre_pub_key) (refl, ap (λ b. record t { upgrade = b }) e)
]

-- The restoring when none of its parts fails.
restore_members_end :
    (dumped : Bool) (id_key : List ℕ) (m : Metadata) (t : Workload)
    → let (srd, srd_status) = restore_srd m.srd t.srd in
      let (w2, file_status) = restore_file dumped m.files (record t { srd = srd }) in
      let w3 =
        set_report_height (to_int m.report_height) (set_key_pair (take key_pair_size id_key) w2) in
      let (w4, key_status) = restore_pre_pub_key m.pre_pub_key w3 in
      srd_status ≡ success
      → file_status ≡ success
      → key_status ≡ success
      → restore_members dumped id_key m t
        ≡ (set_restart_flag (set_account_id m.account_id w4), success)
unfolding restore_members
restore_members_end dumped id_key m t e1 e2 e3 = ground (arith, e1, e2, e3)

id_restore_metadata_end :
    (dumped : Bool) (id_key : List ℕ) (m : Metadata) (t : Workload)
    → hex_string_to_bytes m.id_key_pair ≡ some id_key
    → t.is_set_key_pair ≡ false
    → id_restore_metadata dumped (members m) t ≡ restore_members dumped id_key m t
unfolding id_restore_metadata
id_restore_metadata_end dumped id_key m t e1 e2 = ground (arith, e1, e2)

-- What is stored of a workload whose keys and entries have their sizes comes back in an enclave that has just started: its key pair, its account, its entries of sealed space, its files that are not pending and the previous public key. The report height comes back as 0, since it is stored as a string and read as a number; the restart flag is set.
pub id_restore_metadata-metadata_of :
    (to_text : ℕ → Text) (dumped : Bool) (w t : Workload)
    → IsStorable w
    → IsFresh t
    → let (r, status) = id_restore_metadata dumped (members (metadata_of to_text w)) t in
      (status ≡ success)
      × (r.key_pair ≡ w.key_pair)
      × (r.is_set_key_pair ≡ true)
      × (r.account_id ≡ w.account_id)
      × (r.srd.hashs ≡ w.srd.hashs)
      × (r.sealed_files ≡ settled w.sealed_files)
      × (r.upgrade ≡ w.upgrade)
      × (r.pre_pub_key ≡ (if w.upgrade then w.pre_pub_key else t.pre_pub_key))
      × (r.report_height ≡ 0)
      × (r.restart_flag ≡ pos 1)
unfolding metadata_of to_int set_restart_flag set_account_id set_key_pair set_report_height
id_restore_metadata-metadata_of to_text dumped w t s f =
    let m = metadata_of to_text w in
    let w1 : Workload = record t { srd = (restore_srd m.srd t.srd).0 } in
    let w2 = (restore_file dumped m.files w1).0 in
    let w3 =
      set_report_height (to_int m.report_height)
        (set_key_pair (take key_pair_size w.key_pair) w2) in
    let srd = restored_hashs w.srd t.srd s.items f.no_srd in
    let files = restore_file-serialize_file dumped w w1 f.no_files in
    let key = restored_pre_pub_key w w3 s (ap (λ o. o.1) (files.3) ∙ f.no_upgrade) in
    let hex = hex_round_trip 95 w.key_pair s.key_bytes s.key_length in
    let end = restore_members_end dumped w.key_pair m t srd.0 files.0 key.0 in
    let whole = id_restore_metadata_end dumped w.key_pair m t hex f.no_key ∙ end in
    let kept = ap (λ o. o.0.hashs) files.3 in
    rw (whole, key.1)
      (
        refl,
        take_all key_pair_size w.key_pair s.key_length,
        refl,
        refl,
        kept ∙ srd.1,
        files.1,
        refl,
        ap (λ k. if w.upgrade then w.pre_pub_key else k) (ap (λ o. o.2) files.3),
        refl,
        refl,
      )
