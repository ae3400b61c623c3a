-- ===== src/Workload/Restored.antt =====
-- What the files that are stored and read back leave behind.
use mathlib.Core.List.{append-nil, append_assoc}
use spacex_storage.Prelude.{
  ℕ, Bool, true, false, some, List, [], ◌∷◌, ◌++◌, map, ◌≡◌, refl, sym, ap, ◌∙◌, ℤ, if◌then◌else◌,
  ◌⊎◌, inl, inr, Bool-cases, arith,
}
use spacex_storage.Status.{success}
use spacex_storage.SrdMeta.Defs.{Srd}
use spacex_storage.Files.Defs.{SealedFile}
use spacex_storage.Workload.Defs.{
  Workload, FileInfo, Ocall, file_info_all, delete_ipfs_file, persist_del, call, set_file_spec,
}
use spacex_storage.Workload.Restore.{
  read_stored, stub, is_file_pending, serialize_entry, serialize_file, restore_file_info,
  restore_item, restore_file_loop, restore_file, settled,
}

-- The calls for the pending files.
unfoldable pub drop_calls : List SealedFile → List Ocall
drop_calls [] = []
drop_calls (file ∷ files) =
    if is_file_pending file
    then delete_ipfs_file file.cid ∷ persist_del file.cid ∷ drop_calls files
    else drop_calls files

-- What the restoring of files leaves alone.
abbrev pub others : Workload → Srd × Bool × List ℕ
others w = (w.srd, w.upgrade, w.pre_pub_key)

set_file_spec-keeps :
    (status : ℕ) (change : ℤ) (w : Workload)
    → ((set_file_spec status change w).sealed_files ≡ w.sealed_files)
      × ((set_file_spec status change w).calls ≡ w.calls)
      × (others (set_file_spec status change w) ≡ others w)
unfolding set_file_spec
set_file_spec-keeps status change w = ground arith

restore_item_pending :
    (file : SealedFile) (w : Workload)
    → is_file_pending file ≡ true
    → restore_item file w ≡ call (persist_del file.cid) (call (delete_ipfs_file file.cid) w)
unfolding restore_item
restore_item_pending file w e = rw (e, restore_item) refl

restore-serialize_entry :
    (file : SealedFile) (w : Workload)
    → restore_item (read_stored (serialize_entry file)) w ≡ restore_item file w
unfolding serialize_entry
restore-serialize_entry file w = elim (Bool-cases (is_file_pending file)) [
  | inl e ↦
      rw (e, serialize_entry)
        (restore_item_pending (read_stored (stub file.cid file.status)) w e
          ∙ sym (restore_item_pending file w e))
  | inr e ↦ rw (e, serialize_entry) refl
]

restore_item-keeps :
    (file : SealedFile) (w : Workload)
    → ((restore_item file w).sealed_files
        ≡ w.sealed_files ++ (if is_file_pending file then [] else file ∷ []))
      × ((restore_item file w).calls
          ≡ w.calls
            ++ (if is_file_pending file
                then delete_ipfs_file file.cid ∷ persist_del file.cid ∷ []
                else []))
      × (others (restore_item file w) ≡ others w)
unfolding restore_item call
restore_item-keeps file w = elim (Bool-cases (is_file_pending file)) [
  | inl e ↦
      rw (e, restore_item)
        (
          sym (append-nil w.sealed_files),
          append_assoc w.calls (delete_ipfs_file file.cid ∷ []) (persist_del file.cid ∷ []),
          refl,
        )
  | inr e ↦
      let kept =
        set_file_spec-keeps file.status.current file.size
          (record w { sealed_files = w.sealed_files ++ file ∷ [] }) in
      rw (e, restore_item) (kept.0, kept.1 ∙ sym (append-nil w.calls), kept.2)
]

settled_cons :
    (file : SealedFile) (files : List SealedFile)
    → settled (file ∷ files) ≡ (if is_file_pending file then [] else file ∷ []) ++ settled files
unfolding settled
settled_cons file files = ground arith

drop_calls_cons :
    (file : SealedFile) (files : List SealedFile)
    → drop_calls (file ∷ files)
      ≡ (if is_file_pending file then delete_ipfs_file file.cid ∷ persist_del file.cid ∷ [] else [])
        ++ drop_calls files
unfolding drop_calls
drop_calls_cons file files = ground arith

settled_none : settled [] ≡ []
unfolding settled
settled_none = refl

drop_calls_none : drop_calls [] ≡ []
unfolding drop_calls
drop_calls_none = refl

-- What stored files leave behind: those that are not pending come behind the ones that are there, and each pending one is dropped by two calls.
restore_loop-serialize :
    (files : List SealedFile) (w : Workload)
    → let w' = restore_file_loop (map serialize_entry files) w in
      (w'.sealed_files ≡ w.sealed_files ++ settled files)
      × (w'.calls ≡ w.calls ++ drop_calls files)
      × (others w' ≡ others w)
unfolding restore_file_loop
restore_loop-serialize [] w = (
  sym (ap (λ r. w.sealed_files ++ r) settled_none ∙ append-nil w.sealed_files),
  sym (ap (λ r. w.calls ++ r) drop_calls_none ∙ append-nil w.calls),
  refl,
)
restore_loop-serialize (file ∷ files) w =
    let w1 = restore_item file w in
    let one = restore_item-keeps file w in
    let rest = restore_loop-serialize files w1 in
    rw (restore-serialize_entry file w, restore_file_loop)
      (
        rest.0
            ∙ ap (λ r. r ++ settled files) one.0
            ∙ append_assoc w.sealed_files (if is_file_pending file then [] else file ∷ [])
                (settled files)
            ∙ ap (λ r. w.sealed_files ++ r) (sym (settled_cons file files)),
        rest.1
            ∙ ap (λ r. r ++ drop_calls files) one.1
            ∙ append_assoc w.calls _ (drop_calls files)
            ∙ ap (λ r. w.calls ++ r) (sym (drop_calls_cons file files)),
        rest.2 ∙ one.2,
      )

restore_file_info-calls :
    (dumped : Bool) (w : Workload)
    → let r = restore_file_info dumped w in
      (r.sealed_files ≡ w.sealed_files)
      × ((r.calls ≡ w.calls)
          ⊎ (infos : List FileInfo) × (r.calls ≡ w.calls ++ file_info_all infos ∷ []))
      × (others r ≡ others w)
unfolding restore_file_info call
restore_file_info-calls false w = (refl, inl refl, refl)
restore_file_info-calls true w = (refl, inr (_, refl), refl)

-- The same in an emptied enclave, for the whole of `restore_file`.
pub restore_file_stored :
    (dumped : Bool) (files : List SealedFile) (t : Workload)
    → t.sealed_files ≡ []
    → let (r, status) = restore_file dumped (some (map serialize_entry files)) t in
      (status ≡ success)
      × (r.sealed_files ≡ settled files)
      × ((r.calls ≡ t.calls ++ drop_calls files)
          ⊎ (infos : List FileInfo) × (r.calls
              ≡ (t.calls ++ drop_calls files) ++ file_info_all infos ∷ []))
      × (others r ≡ others t)
unfolding restore_file
restore_file_stored dumped [] t e = (
  refl,
  e ∙ sym settled_none,
  inl (sym (ap (λ r. t.calls ++ r) drop_calls_none ∙ append-nil t.calls)),
  refl,
)
restore_file_stored dumped (file ∷ files) t e =
    let empty : Workload = record t { sealed_files = [] } in
    let loop = restore_loop-serialize (file ∷ files) empty in
    let told =
      restore_file_info-calls dumped
        (restore_file_loop (map serialize_entry (file ∷ files)) empty) in
    (
      refl,
      told.0 ∙ loop.0,
      elim (told.1) [
        | inl h ↦ inl (h ∙ loop.1)
        | inr (infos, h) ↦ inr (infos, h ∙ ap (λ r. r ++ file_info_all infos ∷ []) loop.1)
      ],
      told.2 ∙ loop.2,
    )

-- Storing the files and reading them back into an emptied enclave gives, in the same order, the files that are not pending, with all their keys, and calls the app and the store to drop each pending one; the app is told of the files last, unless their text cannot be built. The sealed space and the previous public key stay.
pub restore_file-serialize_file :
    (dumped : Bool) (w t : Workload)
    → t.sealed_files ≡ []
    → let (r, status) = restore_file dumped (some (serialize_file w)) t in
      (status ≡ success)
      × (r.sealed_files ≡ settled w.sealed_files)
      × ((r.calls ≡ t.calls ++ drop_calls w.sealed_files)
          ⊎ (infos : List FileInfo) × (r.calls
              ≡ (t.calls ++ drop_calls w.sealed_files) ++ file_info_all infos ∷ []))
      × (others r ≡ others t)
unfolding serialize_file
restore_file-serialize_file dumped w t e = restore_file_stored dumped w.sealed_files t e
