-- ===== src/Disks/Reserved.antt =====
-- `srd_check_reserved` (app/process/Srd.cpp): a disk whose free space falls below the reserved space
-- gives sealed space back. The loop sleeps between its rounds; this is one round.
use spacex_storage.Prelude.{
  ℕ, ◌-◌, some, List, [], ◌∷◌, ℤ, pos, ◌+ℤ◌, ltb_ℤ, min_ℤ, Text, ltb, is_empty, if◌then◌else◌,
}
use spacex_storage.AppData.Maps.{lookup_key, set_key}
use spacex_storage.AppData.Defs.{or_zero}
use spacex_storage.SrdMeta.Defs.{Srd}
use spacex_storage.SrdTask.Defs.{Removal, finished, srd_remove_space}
use spacex_storage.Disks.Defs.{reserved_space}

-- `srd_del_json[uuid].AddNum(num)`
unfoldable pub add_wish : Text → ℤ → List (Text × ℤ) → List (Text × ℤ)
add_wish uuid num wishes = set_key uuid (or_zero (lookup_key uuid wishes) +ℤ num) wishes

-- `del_space` of a path: `avail` is its free space, `shown` the figure of its sealed space.
abbrev pub del_space : ℕ → ℤ → ℤ
del_space avail shown =
    if ltb avail reserved_space then min_ℤ (pos (reserved_space - avail)) shown else pos 0

-- The loop over the paths; `uuid` is `get_uuid`, `detail` the figures of `get_srd_info`.
unfoldable pub reserved_wishes :
    (Text → ℕ) → (Text → Text) → (Text → ℤ) → List Text → List (Text × ℤ) → List (Text × ℤ)
unfolding add_wish
reserved_wishes avail uuid detail [] wishes = wishes
reserved_wishes avail uuid detail (path ∷ paths) wishes =
    let del = del_space (avail path) (detail (uuid path)) in
    reserved_wishes avail uuid detail paths
      (if ltb_ℤ (pos 0) del then add_wish (uuid path) del wishes else wishes)

-- A round, with the enclave's sealed space: `Ecall_srd_remove_space` when there is something to delete.
unfoldable pub check_reserved : (Text → ℕ) → (Text → Text) → (Text → ℤ) → List Text → Srd → Removal
unfolding reserved_wishes
check_reserved avail uuid detail paths s =
    let wishes = reserved_wishes avail uuid detail paths [] in
    if is_empty wishes then finished s [] else srd_remove_space (some wishes) s
