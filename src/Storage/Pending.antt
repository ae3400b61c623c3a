-- ===== src/Storage/Pending.antt =====
-- `pending_files_um`: a map from the content ids of the files that are being sealed. As with the
-- source's JSON objects, a key that is missing reads as an entry without blocks and with numbers 0.
use spacex_storage.Prelude.{
  ◌≡◌, Bool, true, ◌&&◌, Option, none, some, List, [], ◌∷◌, ℤ, pos, ◌+ℤ◌, eq_ℤ, Text, text_eq,
  text_eq_lem, text_eq_refl, if◌then◌else◌, arith,
}
use spacex_storage.Workload.Defs.{PendingFile}

abbrev pub Pendings : Type 0
Pendings = List (Text × PendingFile)

abbrev pub no_blocks : PendingFile
no_blocks = record { blocks = []; hash = []; size = pos 0; sealed_size = pos 0; block_num = pos 0 }

-- `pending_files_um.find(cid)`
unfoldable pub find_pending : Text → Pendings → Option PendingFile
find_pending cid [] = none
find_pending cid ((c, f) ∷ rest) = if text_eq cid c then some f else find_pending cid rest

-- What `f` makes of `pending_files_um[cid]`.
unfoldable pub update_pending : Text → (PendingFile → PendingFile) → Pendings → Pendings
update_pending cid f [] = (cid, f no_blocks) ∷ []
update_pending cid f ((c, p) ∷ rest) =
    if text_eq cid c then (c, f p) ∷ rest else (c, p) ∷ update_pending cid f rest

-- `pending_files_um.erase(cid)`
unfoldable pub erase_pending : Text → Pendings → Pendings
erase_pending cid [] = []
erase_pending cid ((c, p) ∷ rest) =
    if text_eq cid c then erase_pending cid rest else (c, p) ∷ erase_pending cid rest

-- `blocks[cid].AddNum(n)`
unfoldable pub add_num : Text → ℤ → List (Text × ℤ) → List (Text × ℤ)
add_num cid n [] = (cid, n) ∷ []
add_num cid n ((c, k) ∷ rest) =
    if text_eq cid c then (c, k +ℤ n) ∷ rest else (c, k) ∷ add_num cid n rest

-- `pending_files_um[root][FILE_BLOCKS][cid].AddNum(n)`
abbrev pub add_block : Text → ℤ → PendingFile → PendingFile
add_block cid n p = record p { blocks = add_num cid n p.blocks }

-- The blocks are complete: none is awaited.
unfoldable pub all_sealed : List (Text × ℤ) → Bool
all_sealed [] = true
all_sealed ((c, k) ∷ rest) = eq_ℤ k (pos 0) && all_sealed rest

pub find-erase_pending :
    (cid key : Text) (ps : Pendings)
    → find_pending cid (erase_pending key ps)
      ≡ (if text_eq cid key then none else find_pending cid ps)
unfolding find_pending erase_pending
find-erase_pending cid key [] = ground arith
find-erase_pending cid key ((c, p) ∷ rest) = ground (
  arith,
  find-erase_pending cid key rest,
  text_eq_lem cid c,
  text_eq_lem key c,
  text_eq_lem cid key,
)

-- The entry that `pending_files_um[cid]` gives.
abbrev pub or_no_blocks : Option PendingFile → PendingFile
or_no_blocks none = no_blocks
or_no_blocks (some p) = p

pub find-update_pending :
    (cid key : Text) (f : PendingFile → PendingFile) (ps : Pendings)
    → find_pending cid (update_pending key f ps) ≡ (
        if text_eq cid key
        then some (f (or_no_blocks (find_pending key ps)))
        else find_pending cid ps)
unfolding find_pending update_pending
find-update_pending cid key f [] = ground arith
find-update_pending cid key f ((c, p) ∷ rest) = ground (
  arith,
  find-update_pending cid key f rest,
  text_eq_lem cid c,
  text_eq_lem key c,
  text_eq_lem cid key,
  text_eq_refl cid,
)
