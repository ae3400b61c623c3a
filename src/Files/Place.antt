-- ===== src/Files/Place.antt =====
-- What happens to the sorted file list at the place that the search gives: an entry is put there,
-- changed or removed, as the storage operations do.
use spacex_storage.Prelude.{
  ℕ, zero, suc, ◌≤◌, ◌<◌, true, false, Option, none, some, List, [], ◌∷◌, ◌≡◌, refl, sym, ap, ◌∙◌,
  Text, compare_text, compare_text_refl, compare_text-eq, Before, text_eq, text_eq_refl, length,
  get_elem?, insert_at, erase_at, if◌then◌else◌, Ordering-cases, Option-cases, get_elem?_lt, inl,
  inr, arith,
}
use spacex_storage.Files.Defs.{
  SealedFile, is_file_dup, add_file_at, del_file_at, modify_at, IsSorted, AllAfter, locate,
}
use spacex_storage.Files.Search.{is_file_dup-locate, locate_bounds}
use spacex_storage.Files.Order.{
  find, find-locate, erase_at-IsSorted, is_some, is_file_dup-find, find-insert_at, find-erase_at,
  insert_at-IsSorted, locate_nil, locate_lt, locate_eq, locate_gt,
}

-- What the search gives, as a result of `find`.
pub find-is_file_dup :
    (cid : Text) (files : List SealedFile)
    → IsSorted files
    → find cid files
      ≡ (if (is_file_dup cid files).0 then get_elem? files (is_file_dup cid files).1 else none)
find-is_file_dup cid files s = rw (is_file_dup-locate cid files s) (find-locate cid files s)

abbrev pub map_file : (SealedFile → SealedFile) → Option SealedFile → Option SealedFile
map_file f none = none
map_file f (some file) = some (f file)

AllAfter-find :
    (c cid : Text) (files : List SealedFile) (file : SealedFile)
    → AllAfter c files
    → find cid files ≡ some file
    → Before c file.cid
AllAfter-find c cid [] file k e = cc
AllAfter-find c cid (x ∷ xs) file k e = ground (arith, AllAfter-find c cid xs file k.1)

module _ (key : Text) (f : SealedFile → SealedFile)
    (keeps : (file : SealedFile) → file.cid ≡ key → (f file).cid ≡ key) where
  AllAfter-modify :
      (c : Text) (files : List SealedFile)
      → IsSorted files
      → AllAfter c files
      → (locate key files).0 ≡ true
      → AllAfter c (modify_at (locate key files).1 f files)
  unfolding modify_at
  AllAfter-modify c [] s k h = tt
  AllAfter-modify c (x ∷ xs) s k h = elim (Ordering-cases (compare_text key x.cid)) [
    | inl e ↦ ground (arith, locate_lt key x xs e)
    | inr (inl e) ↦ rw (locate_eq key x xs e) (
        rw (keeps x (sym (compare_text-eq key x.cid e)))
          (ground (arith, compare_text-eq key x.cid e)))
    | inr (inr e) ↦
        rw (locate_gt key x xs e)
          (k.0, AllAfter-modify c xs s.1 k.1 (ground (arith, locate_gt key x xs e)))
  ]

  modify-IsSorted :
      (files : List SealedFile)
      → IsSorted files
      → (locate key files).0 ≡ true
      → IsSorted (modify_at (locate key files).1 f files)
  unfolding modify_at
  modify-IsSorted [] s h = tt
  modify-IsSorted (x ∷ xs) s h = elim (Ordering-cases (compare_text key x.cid)) [
    | inl e ↦ ground (arith, locate_lt key x xs e)
    | inr (inl e) ↦
        rw (locate_eq key x xs e)
          (rw (keeps x (sym (compare_text-eq key x.cid e)), compare_text-eq key x.cid e) s.0, s.1)
    | inr (inr e) ↦ rw (locate_gt key x xs e) (
        let h' : (locate key xs).0 ≡ true = ground (arith, locate_gt key x xs e) in
        (AllAfter-modify x.cid xs s.1 s.0 h', modify-IsSorted xs s.1 h'))
  ]

  find-modify :
      (cid : Text) (files : List SealedFile)
      → IsSorted files
      → (locate key files).0 ≡ true
      → find cid (modify_at (locate key files).1 f files)
        ≡ (if text_eq cid key then map_file f (find cid files) else find cid files)
  unfolding modify_at
  find-modify cid [] s h = ground (arith, locate_nil key)
  find-modify cid (x ∷ xs) s h = elim (Ordering-cases (compare_text key x.cid)) [
    | inl e ↦ ground (arith, locate_lt key x xs e)
    | inr (inl e) ↦
        rw (locate_eq key x xs e)
          (ground (arith, keeps x, compare_text-eq key x.cid e, text_eq_refl key))
    | inr (inr e) ↦ rw (locate_gt key x xs e) (
        ground (
          arith,
          locate_gt key x xs e,
          compare_text-eq cid x.cid,
          compare_text-eq cid key,
          compare_text_refl key,
          find-modify cid xs s.1,
        ))
  ]

-- An entry is changed where the search finds it, its content id kept.
pub find-modify_at :
    (key : Text) (f : SealedFile → SealedFile)
    → ((file : SealedFile) → file.cid ≡ key → (f file).cid ≡ key)
    → (cid : Text) (files : List SealedFile) → IsSorted files
    → (is_file_dup key files).0 ≡ true
    → (find cid (modify_at (is_file_dup key files).1 f files)
        ≡ (if text_eq cid key then map_file f (find cid files) else find cid files))
      × IsSorted (modify_at (is_file_dup key files).1 f files)
find-modify_at key f keeps cid files s h =
    let e = is_file_dup-locate key files s in
    let h' : (locate key files).0 ≡ true = ap (λ r. r.0) (sym e) ∙ h in
    rw e (find-modify key f keeps cid files s h', modify-IsSorted key f keeps files s h')

-- An entry is removed where the search finds it.
pub find-del_file_at :
    (cid key : Text) (files : List SealedFile)
    → IsSorted files
    → (is_file_dup key files).0 ≡ true
    → (find cid (del_file_at (is_file_dup key files).1 files)
        ≡ (if text_eq cid key then none else find cid files))
      × IsSorted (del_file_at (is_file_dup key files).1 files)
unfolding del_file_at
find-del_file_at cid key files s h =
    let e = is_file_dup-locate key files s in
    ground (
      arith,
      e,
      locate_bounds key files,
      find-erase_at cid key files s,
      erase_at-IsSorted (locate key files).1 files s,
    )

-- An entry is put where the search says that a new one belongs.
pub find-add_file_at :
    (cid : Text) (file : SealedFile) (files : List SealedFile)
    → IsSorted files
    → (is_file_dup file.cid files).0 ≡ false
    → (find cid (add_file_at file (is_file_dup file.cid files).1 files)
        ≡ (if text_eq cid file.cid then some file else find cid files))
      × IsSorted (add_file_at file (is_file_dup file.cid files).1 files)
unfolding add_file_at
find-add_file_at cid file files s h =
    let e = is_file_dup-locate file.cid files s in
    ground (
      arith,
      e,
      locate_bounds file.cid files,
      find-insert_at cid file files s,
      insert_at-IsSorted file files s,
    )

erase-insert_at :
    (file : SealedFile) (at : ℕ) (files : List SealedFile)
    → at < length files
    → (insert_at at file (erase_at at files) ≡ modify_at at (λ _. file) files)
      × (at ≤ length (erase_at at files))
unfolding modify_at
erase-insert_at file at [] lt = ground arith
erase-insert_at file zero (x ∷ xs) lt = (refl, omega arith)
erase-insert_at file (suc at) (x ∷ xs) lt =
    let ih = erase-insert_at file at xs (omega arith) in (ap (λ r. x ∷ r) ih.0, omega (arith, ih.1))

-- To remove the entry at a place and put another one there is to replace it.
pub add-del_file_at :
    (file : SealedFile) (at : ℕ) (files : List SealedFile)
    → at < length files
    → add_file_at file at (del_file_at at files) ≡ modify_at at (λ _. file) files
unfolding add_file_at del_file_at modify_at
add-del_file_at file at files lt = ground (arith, erase-insert_at file at files lt)

-- What a search finds: nothing, or the entry at its place.
pub data Lookup (cid : Text) (files : List SealedFile) : Type 0 where
  missing : (is_file_dup cid files).0 ≡ false → find cid files ≡ none → Lookup cid files
  present :
      (file : SealedFile)
      → (is_file_dup cid files).0 ≡ true
      → get_elem? files (is_file_dup cid files).1 ≡ some file
      → find cid files ≡ some file
      → (is_file_dup cid files).1 < length files
      → Lookup cid files

pub lookup : (cid : Text) (files : List SealedFile) → IsSorted files → Lookup cid files
lookup cid files s =
    let e = find-is_file_dup cid files s in
    let e' = is_file_dup-find cid files s in
    elim (Option-cases (find cid files)) [
      | inl h ↦ missing (e' ∙ ap is_some h) h
      | inr (file, h) ↦
          let dup : (is_file_dup cid files).0 ≡ true = e' ∙ ap is_some h in
          let got : get_elem? files (is_file_dup cid files).1 ≡ some file =
            ground (arith, e, dup, h) in
          present file dup got h (get_elem?_lt files (is_file_dup cid files).1 file got)
    ]
