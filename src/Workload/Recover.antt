-- ===== src/Workload/Recover.antt =====
-- `recover_illegal_file` (enclave/workload/Workload.cpp): the chain's view of files is put right by
-- a list of the files that it counts on and one of those that it does not.
use spacex_storage.Prelude.{
  true, Option, none, some, List, [], ◌∷◌, ◌≡◌, refl, ap, ◌∙◌, Text, text_eq, text_eq_lem, inl, inr,
  Bool-cases, ◌==◌, if◌then◌else◌, arith,
}
use spacex_storage.Status.{SpacexStatus, success, is_success, valid, lost, deleted}
use spacex_storage.Files.Defs.{SealedFile, is_file_dup, modify_at, IsSorted}
use spacex_storage.Files.Order.{find}
use spacex_storage.Files.Place.{missing, present, lookup, map_file, find-modify_at}
use spacex_storage.Workload.Cids.{has_cid}
use spacex_storage.Workload.Defs.{Workload}

-- What stands under a key of the given JSON object.
pub data CidList : Type 0 where
  no_key : CidList
  no_array : CidList
  cids : List Text → CidList

-- The data that is given: the status of parsing them, and the two lists.
pub record Commit : Type 0 where
  pub parsed : SpacexStatus
  pub added : CidList
  pub removed : CidList

-- The chain counts on the file.
abbrev pub count_on : SealedFile → SealedFile
count_on file = record file { status = record (file.status) { origin = valid } }

-- The chain does not count on the file.
abbrev pub discount : SealedFile → SealedFile
discount file = record file {
  status = record (file.status) {
    origin = if file.status.current == deleted then deleted else lost;
  };
}

-- The innermost loop, with what it does to a file that is found.
unfoldable pub recover_loop :
    (SealedFile → SealedFile) → List Text → List SealedFile → List SealedFile
recover_loop f [] files = files
recover_loop f (cid ∷ cs) files =
    let (dup, at) = is_file_dup cid files in
    recover_loop f cs (if dup then modify_at at f files else files)

unfoldable pub recover_list :
    (SealedFile → SealedFile) → CidList → List SealedFile → List SealedFile
recover_list f no_key files = files
recover_list f no_array files = files
recover_list f (cids cs) files = recover_loop f cs files

-- `recover_illegal_file`
unfoldable pub recover_illegal_file : Commit → Workload → Workload × SpacexStatus
unfolding recover_loop recover_list
recover_illegal_file commit w =
    if is_success commit.parsed
    then (
      record w {
        sealed_files =
            recover_list discount commit.removed
              (recover_list count_on commit.added w.sealed_files);
      },
      success,
    )
    else (w, commit.parsed)

-- The content ids that a key gives.
abbrev pub names : CidList → List Text
names no_key = []
names no_array = []
names (cids cs) = cs

module _ (f : SealedFile → SealedFile) (keeps : (file : SealedFile) → (f file).cid ≡ file.cid)
    (twice : (file : SealedFile) → f (f file) ≡ f file) where
  map_file_twice : (o : Option SealedFile) → map_file f (map_file f o) ≡ map_file f o
  map_file_twice none = refl
  map_file_twice (some file) = ap some (twice file)

  recover_one-find :
      (c cid : Text) (files : List SealedFile)
      → IsSorted files
      → let files' =
          if (is_file_dup cid files).0
          then modify_at (is_file_dup cid files).1 f files
          else files in
        (find c files' ≡ (if text_eq c cid then map_file f (find c files) else find c files))
        × IsSorted files'
  recover_one-find c cid files s = elim (lookup cid files s) [
    | missing dup e ↦ rw dup (ground (arith, s, e, text_eq_lem c cid))
    | present file dup got e lt ↦
        rw dup (find-modify_at cid f (λ file h. keeps file ∙ h) c files s dup)
  ]

  -- A second visit changes nothing, so it only matters whether a content id is listed.
  recover_loop-find :
      (c : Text) (cs : List Text) (files : List SealedFile)
      → IsSorted files
      → (find c (recover_loop f cs files)
          ≡ (if has_cid c cs then map_file f (find c files) else find c files))
        × IsSorted (recover_loop f cs files)
  unfolding recover_loop has_cid
  recover_loop-find c [] files s = (refl, s)
  recover_loop-find c (cid ∷ cs) files s =
      let files' =
        if (is_file_dup cid files).0 then modify_at (is_file_dup cid files).1 f files else files in
      let one = recover_one-find c cid files s in
      let rest = recover_loop-find c cs files' one.1 in
      let same = map_file_twice (find c files) in ground (arith, one, rest, same)

  recover_list-find :
      (c : Text) (l : CidList) (files : List SealedFile)
      → IsSorted files
      → (find c (recover_list f l files)
          ≡ (if has_cid c (names l) then map_file f (find c files) else find c files))
        × IsSorted (recover_list f l files)
  unfolding recover_list has_cid
  recover_list-find c no_key files s = (refl, s)
  recover_list-find c no_array files s = (refl, s)
  recover_list-find c (cids cs) files s = recover_loop-find c cs files s

discount_twice : (file : SealedFile) → discount (discount file) ≡ discount file
discount_twice file = refl

discount-count_on :
    (o : Option SealedFile) → map_file discount (map_file count_on o) ≡ map_file discount o
discount-count_on none = refl
discount-count_on (some file) = refl

is_success-true : (s : SpacexStatus) → is_success s ≡ true → s ≡ success
is_success-true s e = ground arith

-- `recover_illegal_file` on a sorted vector: when the data can be read, a file that is listed as removed gets `FILE_STATUS_DELETED` as its origin status if it is deleted and `FILE_STATUS_LOST` otherwise, whether it is listed as added or not; one that is only listed as added gets `FILE_STATUS_VALID`; all others stay as they are, and the vector stays sorted. Data that cannot be read change nothing.
pub recover_illegal_file-find :
    (c : Text) (commit : Commit) (w : Workload)
    → IsSorted w.sealed_files
    → let (w', status) = recover_illegal_file commit w in
      let found = find c w.sealed_files in
      (status ≡ commit.parsed)
      × (find c w'.sealed_files ≡ (
          if is_success commit.parsed
          then (if has_cid c (names commit.removed)
              then map_file discount found
              else if has_cid c (names commit.added)
              then map_file count_on found
              else found)
          else found))
      × IsSorted w'.sealed_files
unfolding recover_illegal_file
recover_illegal_file-find c commit w s =
    let first =
      recover_list-find count_on (λ file. refl) (λ file. refl) c commit.added w.sealed_files s in
    let second =
      recover_list-find discount (λ file. refl) discount_twice c commit.removed
        (recover_list count_on commit.added w.sealed_files) first.1 in
    let both = discount-count_on (find c w.sealed_files) in
    elim (Bool-cases (is_success commit.parsed)) [
      | inl e ↦
          let ok = is_success-true commit.parsed e in
          rw (e, ok) (refl, ground (arith, first, second, both), second.1)
      | inr e ↦ rw (e, IsSorted) (refl, refl, s)
    ]
