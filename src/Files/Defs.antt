-- ===== src/Files/Defs.antt =====
-- `Workload::sealed_files` and the functions on it (enclave/workload/Workload.cpp). The vector is
-- kept in the order of the content ids, and a binary search finds a file or its place.
use spacex_storage.Prelude.{
  ℕ, zero, suc, ◌+◌, ◌-◌, ◌/◌, min, Ordering, Bool, true, false, Option, none, some, List, [], ◌∷◌,
  ℤ, Text, compare_text, Before, length, get_elem?, insert_at, erase_at, All, ltb, leb,
  if◌then◌else◌,
}
use spacex_storage.Status.{FileStatus}

-- An entry of `sealed_files`, a JSON object. A key that the source has not set reads as 0 through
-- `ToInt` and as an empty hash here. The status string has its three characters.
pub record SealedFile : Type 0 where
  pub cid : Text
  pub status : FileStatus
  pub hash : List ℕ
  pub size : ℤ
  pub sealed_size : ℤ
  pub block_num : ℤ
  pub chain_block_num : ℤ
  pub lost_index : ℤ

-- The loop of `is_file_dup_nolock`. `limit` is `epos + 1`, since `epos` may become -1; `none` means
-- that the fuel ran out. The middle lies outside the vector exactly when `get_elem?` gives `none`.
unfoldable pub search : ℕ → Text → List SealedFile → ℕ → ℕ → ℕ → Option (Bool × ℕ)
search zero cid files spos limit pos = none
search (suc fuel) cid files spos limit pos = elim (ltb spos limit) [
  | false ↦ some (false, pos)
  | true ↦
      let mpos : ℕ = (spos + (limit - 1)) / 2 in
      elim (get_elem? files mpos) [
        | none ↦ some (false, pos)
        | some file ↦ elim (compare_text cid file.cid) [
          | Ordering.gt ↦ search fuel cid files (mpos + 1) limit (min (mpos + 1) (length files))
          | Ordering.lt ↦ search fuel cid files spos mpos mpos
          | Ordering.eq ↦ some (true, mpos)
        ]
      ]
]

abbrev pub or_missing : Option (Bool × ℕ) → Bool × ℕ
or_missing none = (false, 0)
or_missing (some r) = r

-- `is_file_dup_nolock(cid, pos)`: whether the file is there, and `pos`. The interval has
-- `length files + 1` places at first and shrinks in each round, so the fuel is enough.
unfoldable pub is_file_dup : Text → List SealedFile → Bool × ℕ
unfolding search
is_file_dup cid files = or_missing (search (length files + 2) cid files 0 (length files + 1) 0)

-- `add_file_nolock(file, pos)`
unfoldable pub add_file_at : SealedFile → ℕ → List SealedFile → List SealedFile
add_file_at file pos files = if leb pos (length files) then insert_at pos file files else files

-- `add_file_nolock(file)`
unfoldable pub add_file : SealedFile → List SealedFile → List SealedFile
add_file file files =
    let (dup, pos) = is_file_dup file.cid files in if dup then files else insert_at pos file files

-- `del_file_nolock(pos)`
unfoldable pub del_file_at : ℕ → List SealedFile → List SealedFile
del_file_at pos files = if ltb pos (length files) then erase_at pos files else files

-- `del_file_nolock(cid)`
unfoldable pub del_file : Text → List SealedFile → List SealedFile
del_file cid files =
    let (dup, pos) = is_file_dup cid files in if dup then erase_at pos files else files

-- `sealed_files[pos]` is replaced by what `f` makes of it.
unfoldable pub modify_at : ℕ → (SealedFile → SealedFile) → List SealedFile → List SealedFile
modify_at pos f [] = []
modify_at zero f (file ∷ files) = f file ∷ files
modify_at (suc pos) f (file ∷ files) = file ∷ modify_at pos f files

-- The content ids rise strictly along the vector, so none stands there twice.
abbrev pub AllAfter : Text → List SealedFile → Type 0
AllAfter c = All (λ file. Before c file.cid)

abbrev pub IsSorted : List SealedFile → Type 0
IsSorted [] = Unit
IsSorted (file ∷ files) = AllAfter file.cid files × IsSorted files

-- The reference that the binary search is measured by: walk the vector from its start.
unfoldable pub locate : Text → List SealedFile → Bool × ℕ
locate cid [] = (false, 0)
locate cid (file ∷ files) =
    let (dup, pos) = locate cid files in
    elim (compare_text cid file.cid) [
      | Ordering.lt ↦ (false, 0)
      | Ordering.eq ↦ (true, 0)
      | Ordering.gt ↦ (dup, suc pos)
    ]
