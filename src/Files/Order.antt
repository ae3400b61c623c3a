-- ===== src/Files/Order.antt =====
-- The operations on `sealed_files` keep its order, and what a content id finds afterwards.
use spacex_storage.Prelude.{
  ℕ, zero, suc, Ordering, Bool, true, false, Option, none, some, List, [], ◌∷◌, ◌≡◌, refl, Text,
  compare_text, compare_text_refl, compare_text-eq, compare_text-flip, Before, Before-trans,
  text_eq, text_eq_lem, get_elem?, insert_at, erase_at, if◌then◌else◌, Ordering-cases, inl, inr,
  arith,
}
use spacex_storage.Files.Defs.{
  SealedFile, is_file_dup, add_file, del_file, modify_at, IsSorted, AllAfter, locate,
}
use spacex_storage.Files.Search.{is_file_dup-locate}

-- The entry of a content id, by a walk from the start.
abbrev pub find : Text → List SealedFile → Option SealedFile
find cid [] = none
find cid (file ∷ files) = if text_eq cid file.cid then some file else find cid files

pub AllAfter-mono :
    (b c : Text) (files : List SealedFile) → Before b c → AllAfter c files → AllAfter b files
AllAfter-mono b c [] h k = tt
AllAfter-mono b c (file ∷ files) h k =
    (Before-trans b c file.cid h k.0, AllAfter-mono b c files h k.1)

-- A content id before the whole rest is not in it.
pub find-AllAfter :
    (cid : Text) (files : List SealedFile) → AllAfter cid files → find cid files ≡ none
find-AllAfter cid [] h = refl
find-AllAfter cid (file ∷ files) h =
    ground (arith, text_eq_lem cid file.cid, compare_text_refl cid, find-AllAfter cid files h.1)

-- In a sorted vector the walk finds the entry at the place that `locate` gives.
pub find-locate :
    (cid : Text) (files : List SealedFile)
    → IsSorted files
    → find cid files ≡ (if (locate cid files).0 then get_elem? files (locate cid files).1 else none)
unfolding locate
find-locate cid [] s = refl
find-locate cid (file ∷ files) s =
    ground
      (arith, find-locate cid files s.1, AllAfter-mono cid file.cid files, find-AllAfter cid files)

AllAfter-insert_at :
    (c : Text) (pos : ℕ) (file : SealedFile) (files : List SealedFile)
    → Before c file.cid
    → AllAfter c files
    → AllAfter c (insert_at pos file files)
AllAfter-insert_at c zero file files h k = (h, k)
AllAfter-insert_at c (suc pos) file [] h k = (h, tt)
AllAfter-insert_at c (suc pos) file (x ∷ xs) h k = (k.0, AllAfter-insert_at c pos file xs h k.1)

pub locate_nil : (cid : Text) → locate cid [] ≡ (false, 0)
unfolding locate
locate_nil cid = refl

module _ (cid : Text) (x : SealedFile) (xs : List SealedFile) where
  pub locate_lt : compare_text cid x.cid ≡ Ordering.lt → locate cid (x ∷ xs) ≡ (false, 0)
  unfolding locate
  locate_lt e = rw (e, locate)

  pub locate_eq : compare_text cid x.cid ≡ Ordering.eq → locate cid (x ∷ xs) ≡ (true, 0)
  unfolding locate
  locate_eq e = rw (e, locate)

  pub locate_gt :
      compare_text cid x.cid ≡ Ordering.gt
      → locate cid (x ∷ xs) ≡ ((locate cid xs).0, suc (locate cid xs).1)
  unfolding locate
  locate_gt e = rw (e, locate)

pub insert_at-IsSorted :
    (file : SealedFile) (files : List SealedFile)
    → IsSorted files
    → (locate file.cid files).0 ≡ false
    → IsSorted (insert_at (locate file.cid files).1 file files)
insert_at-IsSorted file [] s h = rw (locate_nil file.cid) (tt, tt)
insert_at-IsSorted file (x ∷ xs) s h = elim (Ordering-cases (compare_text file.cid x.cid)) [
  | inl e ↦ rw (locate_lt file.cid x xs e) ((e, AllAfter-mono file.cid x.cid xs e s.0), s)
  | inr (inl e) ↦ ground (arith, locate_eq file.cid x xs e)
  | inr (inr e) ↦ rw (locate_gt file.cid x xs e) (
    AllAfter-insert_at x.cid _ file xs (compare_text-flip file.cid x.cid e) s.0,
    insert_at-IsSorted file xs s.1 (ground (arith, locate_gt file.cid x xs e)),
  )
]

AllAfter-erase_at :
    (c : Text) (pos : ℕ) (files : List SealedFile)
    → AllAfter c files
    → AllAfter c (erase_at pos files)
AllAfter-erase_at c pos [] k = tt
AllAfter-erase_at c zero (x ∷ xs) k = k.1
AllAfter-erase_at c (suc pos) (x ∷ xs) k = (k.0, AllAfter-erase_at c pos xs k.1)

pub erase_at-IsSorted :
    (pos : ℕ) (files : List SealedFile) → IsSorted files → IsSorted (erase_at pos files)
erase_at-IsSorted pos [] s = tt
erase_at-IsSorted zero (x ∷ xs) s = s.1
erase_at-IsSorted (suc pos) (x ∷ xs) s =
    (AllAfter-erase_at x.cid pos xs s.0, erase_at-IsSorted pos xs s.1)

module _ (f : SealedFile → SealedFile) (keeps : (file : SealedFile) → (f file).cid ≡ file.cid) where
  AllAfter-modify_at :
      (c : Text) (pos : ℕ) (files : List SealedFile)
      → AllAfter c files
      → AllAfter c (modify_at pos f files)
  unfolding modify_at
  AllAfter-modify_at c pos [] k = tt
  AllAfter-modify_at c zero (x ∷ xs) k = (rw (keeps x) k.0, k.1)
  AllAfter-modify_at c (suc pos) (x ∷ xs) k = (k.0, AllAfter-modify_at c pos xs k.1)

  pub modify_at-IsSorted :
      (pos : ℕ) (files : List SealedFile) → IsSorted files → IsSorted (modify_at pos f files)
  unfolding modify_at
  modify_at-IsSorted pos [] s = tt
  modify_at-IsSorted zero (x ∷ xs) s = (rw (keeps x) s.0, s.1)
  modify_at-IsSorted (suc pos) (x ∷ xs) s =
      (AllAfter-modify_at x.cid pos xs s.0, modify_at-IsSorted pos xs s.1)

pub find-insert_at :
    (cid : Text) (file : SealedFile) (files : List SealedFile)
    → IsSorted files
    → (locate file.cid files).0 ≡ false
    → find cid (insert_at (locate file.cid files).1 file files)
      ≡ (if text_eq cid file.cid then some file else find cid files)
find-insert_at cid file [] s h = rw (locate_nil file.cid)
find-insert_at cid file (x ∷ xs) s h = elim (Ordering-cases (compare_text file.cid x.cid)) [
  | inl e ↦ rw (locate_lt file.cid x xs e)
  | inr (inl e) ↦ ground (arith, locate_eq file.cid x xs e)
  | inr (inr e) ↦ rw (locate_gt file.cid x xs e) (
      ground (
        arith,
        locate_gt file.cid x xs e,
        compare_text-eq cid x.cid,
        compare_text-eq cid file.cid,
        compare_text_refl file.cid,
        find-insert_at cid file xs s.1,
      ))
]

pub find-erase_at :
    (cid key : Text) (files : List SealedFile)
    → IsSorted files
    → (locate key files).0 ≡ true
    → find cid (erase_at (locate key files).1 files)
      ≡ (if text_eq cid key then none else find cid files)
find-erase_at cid key [] s h = ground (arith, locate_nil key)
find-erase_at cid key (x ∷ xs) s h = elim (Ordering-cases (compare_text key x.cid)) [
  | inl e ↦ ground (arith, locate_lt key x xs e)
  | inr (inl e) ↦
      rw (locate_eq key x xs e)
        (ground (arith, compare_text-eq key x.cid, find-AllAfter cid xs, compare_text-eq cid key))
  | inr (inr e) ↦ rw (locate_gt key x xs e) (
      ground (
        arith,
        locate_gt key x xs e,
        compare_text-eq cid x.cid,
        compare_text-eq cid key,
        compare_text_refl key,
        find-erase_at cid key xs s.1,
      ))
]

abbrev pub or_else : Option SealedFile → Option SealedFile → Option SealedFile
or_else none b = b
or_else (some a) b = some a

abbrev pub is_some : Option SealedFile → Bool
is_some none = false
is_some (some a) = true

pub locate-find :
    (cid : Text) (files : List SealedFile)
    → IsSorted files
    → (locate cid files).0 ≡ is_some (find cid files)
unfolding locate
locate-find cid [] s = refl
locate-find cid (file ∷ files) s =
    ground
      (arith, locate-find cid files s.1, AllAfter-mono cid file.cid files, find-AllAfter cid files)

-- Whether `is_file_dup_nolock` finds a content id.
pub is_file_dup-find :
    (cid : Text) (files : List SealedFile)
    → IsSorted files
    → (is_file_dup cid files).0 ≡ is_some (find cid files)
is_file_dup-find cid files s = rw (is_file_dup-locate cid files s) (locate-find cid files s)

pub add_file-IsSorted :
    (file : SealedFile) (files : List SealedFile) → IsSorted files → IsSorted (add_file file files)
unfolding add_file
add_file-IsSorted file files s =
    rw (is_file_dup-locate file.cid files s) (ground (arith, insert_at-IsSorted file files s))

-- On a sorted list `add_file_nolock` keeps what every content id finds, and a new file is found under its own.
pub find-add_file :
    (cid : Text) (file : SealedFile) (files : List SealedFile)
    → IsSorted files
    → find cid (add_file file files)
      ≡ or_else (find cid files) (if text_eq cid file.cid then some file else none)
unfolding add_file
find-add_file cid file files s = ground (
  arith,
  is_file_dup-locate file.cid files s,
  locate-find file.cid files s,
  find-insert_at cid file files s,
  compare_text-eq cid file.cid,
)

pub del_file-IsSorted :
    (cid : Text) (files : List SealedFile) → IsSorted files → IsSorted (del_file cid files)
unfolding del_file
del_file-IsSorted cid files s = ground (arith, erase_at-IsSorted (is_file_dup cid files).1 files s)

-- On a sorted list `del_file_nolock` removes the file with the content id, if there is one, and no other.
pub find-del_file :
    (cid key : Text) (files : List SealedFile)
    → IsSorted files
    → find cid (del_file key files) ≡ (if text_eq cid key then none else find cid files)
unfolding del_file
find-del_file cid key files s = ground (
  arith,
  is_file_dup-locate key files s,
  locate-find key files s,
  find-erase_at cid key files s,
  compare_text-eq cid key,
)
