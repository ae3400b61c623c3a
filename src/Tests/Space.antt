-- ===== src/Tests/Space.antt =====
-- The sealed space at concrete inputs.
use spacex_storage.Prelude.{
  ◌⊎◌, ℕ, ◌≡◌, ◌↔◌, some, List, [], ◌∷◌, ℤ, pos, ◌+ℤ◌, ◌≤ℤ◌, length, arith,
}
use spacex_storage.Status.{success, SpacexStatus}
use spacex_storage.SrdMeta.Defs.{Srd, no_info, clean_srd, push_srd, uuid_of}
use spacex_storage.SrdMeta.Counts.{IsCounted, clean_srd-IsCounted, push_srd-IsCounted}
use spacex_storage.SrdMeta.Restore.{IsItem}
use spacex_storage.SrdTask.Defs.{
  SrdState, srd_limit, change_srd_task, srd_remove_space, out_of_bounds,
}
use spacex_storage.SrdTask.Bounds.{change_srd_task-bounds}
use spacex_storage.SrdTask.Removal.{srd_remove_space_overrun}
use spacex_storage.Tests.Data.{no_srd}

abbrev pub item : List ℕ
item =
    1 ∷ 2 ∷ 3 ∷ 4 ∷ 5 ∷ 6 ∷ 7 ∷ 8 ∷ 9 ∷ 10 ∷ 11 ∷ 12 ∷ 13 ∷ 14 ∷ 15 ∷ 16 ∷ 17 ∷ 18 ∷ 19 ∷ 20 ∷ 21
    ∷ 22 ∷ 23 ∷ 24 ∷ 25 ∷ 26 ∷ 27 ∷ 28 ∷ 29 ∷ 30 ∷ 31 ∷ 32 ∷ 33 ∷ 34 ∷ 35 ∷ 36 ∷ 37 ∷ 38 ∷ 39 ∷ 40
    ∷ 41 ∷ 42 ∷ []

-- One entry, rightly counted.
abbrev pub one_item : Srd
one_item = push_srd (uuid_of item) item (clean_srd no_srd)

pub one_item-IsCounted : IsCounted one_item
one_item-IsCounted = push_srd-IsCounted item (clean_srd no_srd) (clean_srd-IsCounted no_srd)

abbrev marked : Srd
marked = record { hashs = item ∷ item ∷ []; info = no_info; shown = no_info; deleted_idx = 1 ∷ [] }

abbrev first_index : List ℕ
first_index = 0 ∷ []

item-IsItem : IsItem item
item-IsItem = ground arith

abbrev state : SrdState
state = record { srd = marked; task = pos 5; stored = pos 5 }

change_srd_task-bounds_example :
    let total = pos (length state.srd.hashs) +ℤ state.task in
    let (st', real, status) = change_srd_task (pos 7) success state in
    (st'.task ≡ state.task +ℤ real)
    × (st'.srd.hashs ≡ state.srd.hashs)
    × (st'.srd.shown.remaining ≡ st'.task)
    × (((pos 7 ≤ℤ pos 0) × (real ≡ pos 7)) ⊎ ((pos 0 ≤ℤ real) × (real ≤ℤ pos 7)))
    × ((real ≤ℤ pos 0) ⊎ (total +ℤ real ≤ℤ srd_limit))
    × ((status ≡ success) ↔ (real ≡ pos 7))
change_srd_task-bounds_example = change_srd_task-bounds (pos 7) success state

abbrev accepts : ℤ → SpacexStatus
accepts change = success

abbrev no_other : SrdState → SrdState
no_other st = st

srd_remove_space_overrun_example :
    srd_remove_space (some ((uuid_of item, pos 3) ∷ [])) marked ≡ out_of_bounds
unfolding ◌+ℤ◌
srd_remove_space_overrun_example =
    srd_remove_space_overrun ((uuid_of item, pos 3) ∷ []) marked (omega arith) (omega arith)

abbrev three_bytes : List ℕ
three_bytes = 0 ∷ 255 ∷ 16 ∷ []
