-- ===== src/Report/Limits.antt =====
-- How much one work report tells.
use spacex_storage.Prelude.{
  ℕ, ◌+◌, ◌≤◌, ◌≡◌, refl, Bool, true, false, List, [], ◌∷◌, length, length-append, if◌then◌else◌,
  arith,
}
use spacex_storage.Files.Defs.{SealedFile}
use spacex_storage.Report.Defs.{
  Collected, entry_of, file_limit, report_file, collect_file, collect, nothing_collected,
}

-- The counter counts the entries, and stays within the limit.
record IsLimited (got : Collected) : Type 0 where
  counted : length got.added + length got.removed ≡ got.reported_acc
  limited : got.reported_acc ≤ file_limit

collect_file-IsLimited :
    (upgrading : Bool) (i : ℕ) (file : SealedFile) (got : Collected)
    → IsLimited got
    → IsLimited (collect_file upgrading i file got).1
unfolding collect_file report_file
collect_file-IsLimited true i file got v = ground arith
collect_file-IsLimited false i file got v = ground (
  arith,
  length-append got.added (entry_of file ∷ []),
  length-append got.removed (entry_of file ∷ []),
)

collect-IsLimited :
    (upgrading : Bool) (i : ℕ) (files : List SealedFile) (got : Collected)
    → IsLimited got
    → IsLimited (collect upgrading i files got).1
unfolding collect
collect-IsLimited upgrading i [] got v = v
collect-IsLimited upgrading i (file ∷ files) got v =
    collect-IsLimited upgrading (i + 1) files (collect_file upgrading i file got).1
      (collect_file-IsLimited upgrading i file got v)

collect_upgrading :
    (i : ℕ) (files : List SealedFile) (got : Collected)
    → let (files', got') = collect true i files got in
      (files' ≡ files)
      × (got'.added ≡ got.added)
      × (got'.removed ≡ got.removed)
      × (got'.reported ≡ got.reported)
unfolding collect collect_file
collect_upgrading i [] got = (refl, refl, refl, refl)
collect_upgrading i (file ∷ files) got =
    ground (arith, collect_upgrading (i + 1) files (collect_file true i file got).1)

-- A work report lists at most 300 added and deleted files together, and none while upgrading.
pub collect_limit :
    (upgrading : Bool) (files : List SealedFile)
    → length (collect upgrading 0 files nothing_collected).1.added
        + length (collect upgrading 0 files nothing_collected).1.removed
      ≤ (if upgrading then 0 else file_limit)
collect_limit true files = ground (arith, collect_upgrading 0 files nothing_collected)
collect_limit false files =
    let v =
      collect-IsLimited false 0 files nothing_collected
        (record { counted = omega arith; limited = omega arith }) in
    omega (arith, v.counted, v.limited)
