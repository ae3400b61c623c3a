-- ===== src/Tests/Files.antt =====
-- The file list at concrete inputs.
use spacex_storage.Prelude.{◌+◌, some, length, false, ◌≡◌, refl, compare_text}
use spacex_storage.Files.Defs.{is_file_dup, locate, search}
use spacex_storage.Files.Search.{is_file_dup_ends}
use spacex_storage.Tests.Data.{cid_b, cid_c, two_files, two_files-IsSorted}

is_file_dup_ends_example :
    (search (length two_files + 2) cid_b two_files 0 (length two_files + 1) 0
      ≡ some (locate cid_b two_files))
    × (is_file_dup cid_b two_files ≡ locate cid_b two_files)
is_file_dup_ends_example = is_file_dup_ends cid_b two_files two_files-IsSorted

-- A search for a missing file gives the place where it belongs.
place_of_missing : is_file_dup cid_c two_files ≡ (false, 2)
unfolding is_file_dup search compare_text
place_of_missing = refl
