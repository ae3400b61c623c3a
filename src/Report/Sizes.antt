-- ===== src/Report/Sizes.antt =====
-- The size that a report states against the files themselves.
use spacex_storage.Prelude.{
  ◌&&◌, true, ℕ, ◌+◌, ◌≡◌, refl, sym, ap, ◌∙◌, false, List, [], ◌∷◌, ℤ, pos, ◌+ℤ◌, Text,
  compare_text_refl, compare_text-eq, Before-flip, text_eq, ◌==◌, if◌then◌else◌, +ℤ_assoc, arith,
  int_laws,
}
use spacex_storage.Status.{valid}
use spacex_storage.Files.Defs.{SealedFile, is_file_dup, modify_at, IsSorted, AllAfter, locate}
use spacex_storage.Files.Search.{is_file_dup-locate}
use spacex_storage.Files.Order.{modify_at-IsSorted, AllAfter-mono}
use spacex_storage.Workload.Cids.{has_cid, has_cid-insert_cid}
use spacex_storage.Report.Defs.{
  Collected, report_file, collect_file, collect, nothing_collected, confirm, handle_reported,
}

-- `confirm` at every file with the given content id.
unfoldable pub confirm_cid : Text → List SealedFile → List SealedFile
confirm_cid cid [] = []
confirm_cid cid (file ∷ files) =
    (if text_eq file.cid cid then confirm file else file) ∷ confirm_cid cid files

confirm_cid-AllAfter :
    (cid : Text) (files : List SealedFile) → AllAfter cid files → confirm_cid cid files ≡ files
unfolding confirm_cid
confirm_cid-AllAfter cid [] h = refl
confirm_cid-AllAfter cid (file ∷ files) h =
    ground (arith, Before-flip cid file.cid, confirm_cid-AllAfter cid files h.1)

located_confirm :
    (cid : Text) (files : List SealedFile)
    → IsSorted files
    → (if (locate cid files).0 then modify_at (locate cid files).1 confirm files else files)
      ≡ confirm_cid cid files
unfolding locate modify_at confirm_cid
located_confirm cid [] s = refl
located_confirm cid (file ∷ files) s = ground (
  arith,
  located_confirm cid files s.1,
  AllAfter-mono cid file.cid files,
  confirm_cid-AllAfter cid files,
  compare_text-eq cid file.cid,
  compare_text-eq file.cid cid,
  Before-flip cid file.cid,
  compare_text_refl cid,
)

-- `confirm` at every file whose content id is in the set.
abbrev pub confirm_all : List Text → List SealedFile → List SealedFile
confirm_all cids [] = []
confirm_all cids (file ∷ files) =
    (if has_cid file.cid cids then confirm file else file) ∷ confirm_all cids files

confirm_all-confirm_cid :
    (cid : Text) (cids : List Text) (files : List SealedFile)
    → confirm_all cids (confirm_cid cid files) ≡ confirm_all (cid ∷ cids) files
unfolding confirm_cid has_cid
confirm_all-confirm_cid cid cids [] = refl
confirm_all-confirm_cid cid cids (file ∷ files) =
    ground (arith, confirm_all-confirm_cid cid cids files)

confirm_all_none : (files : List SealedFile) → confirm_all [] files ≡ files
unfolding has_cid
confirm_all_none [] = refl
confirm_all_none (file ∷ files) = ap (◌∷◌ file) (confirm_all_none files)

-- One round of the loop of `handle_report_result`.
abbrev handle_one : Text → List SealedFile → List SealedFile
handle_one cid files =
    if (is_file_dup cid files).0 then modify_at (is_file_dup cid files).1 confirm files else files

handle_one-confirm_cid :
    (cid : Text) (files : List SealedFile)
    → IsSorted files
    → handle_one cid files ≡ confirm_cid cid files
handle_one-confirm_cid cid files s =
    rw (is_file_dup-locate cid files s) (located_confirm cid files s)

handle_one-IsSorted :
    (cid : Text) (files : List SealedFile) → IsSorted files → IsSorted (handle_one cid files)
handle_one-IsSorted cid files s =
    ground (arith, modify_at-IsSorted confirm (λ file. refl) (is_file_dup cid files).1 files s)

-- When a report is confirmed, exactly the files whose content ids it named take their waiting status as the origin status, and all else of the files stays as it is.
pub handle_reported-confirm_all :
    (cids : List Text) (files : List SealedFile)
    → IsSorted files
    → (handle_reported cids files).0 ≡ confirm_all cids files
unfolding handle_reported
handle_reported-confirm_all [] files s = sym (confirm_all_none files)
handle_reported-confirm_all (cid ∷ cids) files s =
    handle_reported-confirm_all cids (handle_one cid files) (handle_one-IsSorted cid files s)
    ∙ ap (confirm_all cids) (handle_one-confirm_cid cid files s)
    ∙ confirm_all-confirm_cid cid cids files

-- The total size of the files whose origin status is valid.
abbrev pub origin_part : SealedFile → ℤ
origin_part file = if file.status.origin == valid then file.size else pos 0

abbrev pub origin_total : List SealedFile → ℤ
origin_total [] = pos 0
origin_total (file ∷ files) = origin_part file +ℤ origin_total files

-- No file of the list is reported so far.
abbrev Fresh : List Text → List SealedFile → Type 0
Fresh cids [] = Unit
Fresh cids (file ∷ files) = (has_cid file.cid cids ≡ false) × Fresh cids files

collect_file-reported :
    (c : Text) (i : ℕ) (file : SealedFile) (got : Collected)
    → text_eq c file.cid ≡ false
    → has_cid c (collect_file false i file got).1.reported ≡ has_cid c got.reported
unfolding collect_file report_file
collect_file-reported c i file got h = ground (arith, has_cid-insert_cid c file.cid got.reported)

collect-reported :
    (c : Text) (i : ℕ) (files : List SealedFile) (got : Collected)
    → AllAfter c files
    → has_cid c (collect false i files got).1.reported ≡ has_cid c got.reported
unfolding collect
collect-reported c i [] got h = refl
collect-reported c i (file ∷ files) got h =
    collect-reported c (i + 1) files (collect_file false i file got).1 h.1
    ∙ collect_file-reported c i file got (ground arith)

Fresh-collect_file :
    (i : ℕ) (file : SealedFile) (files : List SealedFile) (got : Collected)
    → AllAfter file.cid files
    → Fresh got.reported files
    → Fresh (collect_file false i file got).1.reported files
Fresh-collect_file i file [] got h f = tt
Fresh-collect_file i file (x ∷ xs) got h f = (
  collect_file-reported x.cid i file got (ground (arith, Before-flip file.cid x.cid)) ∙ f.0,
  Fresh-collect_file i file xs got h.1 f.1,
)

-- What the report counts of one file is what the file counts once the report is confirmed.
collect_file-origin_part :
    (i : ℕ) (file : SealedFile) (got : Collected)
    → has_cid file.cid got.reported ≡ false
    → let (file', got') = collect_file false i file got in
      got'.files_size
      ≡ got.files_size
        +ℤ origin_part (if has_cid file.cid got'.reported then confirm file' else file')
unfolding collect_file report_file
collect_file-origin_part i file got h =
    grind (int_laws, has_cid-insert_cid file.cid file.cid got.reported, compare_text_refl file.cid)

collect-origin_total :
    (i : ℕ) (files : List SealedFile) (got : Collected)
    → IsSorted files
    → Fresh got.reported files
    → let (files', got') = collect false i files got in
      got'.files_size ≡ got.files_size +ℤ origin_total (confirm_all got'.reported files')
unfolding collect collect_file
collect-origin_total i [] got s f = omega int_laws
collect-origin_total i (file ∷ files) got s f =
    let (file', got') = collect_file false i file got in
    let (files', all) = collect false (i + 1) files got' in
    let same : has_cid file.cid all.reported ≡ has_cid file.cid got'.reported =
      collect-reported file.cid (i + 1) files got' s.0 in
    let one : got'.files_size
        ≡ got.files_size
          +ℤ origin_part (if has_cid file.cid all.reported then confirm file' else file') =
      rw same (collect_file-origin_part i file got f.0) in
    collect-origin_total (i + 1) files got' s.1 (Fresh-collect_file i file files got s.0 f.1)
    ∙ ap (λ n. n +ℤ origin_total (confirm_all all.reported files')) one
    ∙ +ℤ_assoc got.files_size _ _

Fresh-none : (files : List SealedFile) → Fresh [] files
unfolding has_cid
Fresh-none [] = tt
Fresh-none (file ∷ files) = (refl, Fresh-none files)

collect-AllAfter :
    (c : Text) (i : ℕ) (files : List SealedFile) (got : Collected)
    → AllAfter c files
    → AllAfter c (collect false i files got).0
unfolding collect collect_file
collect-AllAfter c i [] got h = tt
collect-AllAfter c i (file ∷ files) got h =
    (h.0, collect-AllAfter c (i + 1) files (collect_file false i file got).1 h.1)

collect-IsSorted :
    (i : ℕ) (files : List SealedFile) (got : Collected)
    → IsSorted files
    → IsSorted (collect false i files got).0
unfolding collect collect_file
collect-IsSorted i [] got s = tt
collect-IsSorted i (file ∷ files) got s = (
  collect-AllAfter file.cid (i + 1) files (collect_file false i file got).1 s.0,
  collect-IsSorted (i + 1) files (collect_file false i file got).1 s.1,
)

files_size-origin_total :
    (files : List SealedFile)
    → IsSorted files
    → let (files', got) = collect false 0 files nothing_collected in
      got.files_size ≡ origin_total (handle_reported got.reported files').0
files_size-origin_total files s =
    let (files', got) = collect false 0 files nothing_collected in
    rw
      (handle_reported-confirm_all got.reported files'
        (collect-IsSorted 0 files nothing_collected s))
      (collect-origin_total 0 files nothing_collected s (Fresh-none files) ∙ omega int_laws)

-- While an upgrade is prepared, a file counts if it is valid and the chain has it as valid.
abbrev settled_part : SealedFile → ℤ
settled_part file =
    if file.status.current == valid && file.status.origin == valid then file.size else pos 0

abbrev pub settled_total : List SealedFile → ℤ
settled_total [] = pos 0
settled_total (file ∷ files) = settled_part file +ℤ settled_total files

collect_file-settled_part :
    (i : ℕ) (file : SealedFile) (got : Collected)
    → (collect_file true i file got).1.files_size ≡ got.files_size +ℤ settled_part file
unfolding collect_file
collect_file-settled_part i file got = grind int_laws

collect-settled_total :
    (i : ℕ) (files : List SealedFile) (got : Collected)
    → let (files', got') = collect true i files got in
      (got'.files_size ≡ got.files_size +ℤ settled_total files) × (files' ≡ files)
unfolding collect collect_file
collect-settled_total i [] got = (omega int_laws, refl)
collect-settled_total i (file ∷ files) got =
    let got' = (collect_file true i file got).1 in
    let rest = collect-settled_total (i + 1) files got' in
    (
      rest.0
          ∙ ap (λ n. n +ℤ settled_total files) (collect_file-settled_part i file got)
          ∙ +ℤ_assoc got.files_size _ _,
      ap (λ fs. file ∷ fs) rest.1,
    )

-- On a sorted vector, the file size that a work report outside of an upgrade states is the total size of the files whose origin status is valid once that report is confirmed, when the files stay the same in between. The file size that a report for an upgrade states is the total size of the files whose current and origin status are both valid, and making it changes no file.
pub files_size-totals :
    (files : List SealedFile)
    → IsSorted files
    → let (files', got) = collect false 0 files nothing_collected in
      let (kept, settled) = collect true 0 files nothing_collected in
      (got.files_size ≡ origin_total (handle_reported got.reported files').0)
      × (settled.files_size ≡ settled_total files)
      × (kept ≡ files)
files_size-totals files s =
    let whole = collect-settled_total 0 files nothing_collected in
    (files_size-origin_total files s, whole.0 ∙ omega int_laws, whole.1)
