-- ===== src/Storage/Seal/Defs.antt =====
-- `storage_seal_file`. It runs as a whole, so a file that is pending when it begins stays so.
use spacex_storage.Prelude.{
  ℕ, Bool, true, false, not, none, some, List, [], ◌∷◌, ◌++◌, pos, negsuc, ◌+ℤ◌, Text, length,
  is_empty, if◌then◌else◌,
}
use spacex_storage.Status.{
  SpacexStatus, success, upgrade_is_upgrading, storage_new_file_notfound, malloc_failed,
  unexpected_error, is_success, is_upgrade_none,
}
use spacex_storage.Hex.{hex_string_to_bytes}
use spacex_storage.Base58.Defs.{hash_to_cid}
use spacex_storage.Workload.Defs.{Workload, PendingFile}
use spacex_storage.Storage.Pending.{find_pending, update_pending, add_block}
use spacex_storage.Storage.Defs.{end_cleanup}
use spacex_storage.Storage.Block.Defs.{hashs_of, no_memory, overrun, stuck, get_hashs_from_block}

-- How the steps outside the enclave's logic go. `opened` is for a link: the status that is returned,
-- the status that the deferred block sees, and the plain data of the block.
pub record SealBlock : Type 0 where
  pub opened : SpacexStatus × SpacexStatus × List ℕ
  pub link_alloc : ℕ → Bool
  pub sealed : SpacexStatus × List ℕ
  pub uuid_alloc : Bool
  pub saved : SpacexStatus × Text

-- `EMPTY_BLOCK_CID`
abbrev pub empty_block_cid : Text
empty_block_cid =
    b'Q' ∷ b'm' ∷ b'd' ∷ b'f' ∷ b'T' ∷ b'b' ∷ b'B' ∷ b'q' ∷ b'B' ∷ b'P' ∷ b'Q' ∷ b'7' ∷ b'V' ∷ b'N'
    ∷ b'x' ∷ b'Z' ∷ b'E' ∷ b'Y' ∷ b'E' ∷ b'j' ∷ b'1' ∷ b'4' ∷ b'V' ∷ b'm' ∷ b'R' ∷ b'u' ∷ b'Z'
    ∷ b'B' ∷ b'k' ∷ b'q' ∷ b'F' ∷ b'b' ∷ b'i' ∷ b'w' ∷ b'R' ∷ b'e' ∷ b'o' ∷ b'g' ∷ b'J' ∷ b'g'
    ∷ b'S' ∷ b'1' ∷ b'z' ∷ b'R' ∷ b'1' ∷ b'n' ∷ []

-- `AddNum(1)` for each child; a content id is there for every hash.
unfoldable pub add_children : List (List ℕ) → PendingFile → PendingFile
add_children [] p = p
add_children (hash ∷ hashs) p = elim (hash_to_cid hash) [
  | none ↦ add_children hashs p
  | some cid ↦ add_children hashs (add_block cid (pos 1) p)
]

-- What is recorded of a sealed block.
unfoldable pub add_meta : List ℕ → List ℕ → List ℕ → List ℕ → PendingFile → PendingFile
add_meta uuid sealed_hash plain sealed p = record p {
  hash = p.hash ++ (uuid ++ sealed_hash);
  size = p.size +ℤ pos (length plain);
  sealed_size = p.sealed_size +ℤ pos (length sealed);
  block_num = p.block_num +ℤ pos 1;
}

-- The plain data of the block, with the two statuses.
unfoldable pub plain_data : SealBlock → List ℕ → Bool → SpacexStatus × SpacexStatus × List ℕ
plain_data o block true = o.opened
plain_data o block false = (success, success, block)

module _ (sha256 : List ℕ → List ℕ) (wide : ℕ → ℕ → ℕ) where
  -- From the sealing of the data on: the pending file, the status that is returned, and the one that
  -- the deferred block sees.
  unfoldable pub seal_plain :
      SealBlock → List ℕ → PendingFile → PendingFile × SpacexStatus × SpacexStatus
  unfolding add_meta
  seal_plain o plain p =
      let (status, sealed) = o.sealed in
      if not (is_success status)
      then (p, status, status)
      else if not o.uuid_alloc
      then (p, malloc_failed, success)
      else (let (saved, uuid) = o.saved in
          if not (is_success saved) then (p, saved, saved) else elim (hex_string_to_bytes uuid) [
            | none ↦ (p, unexpected_error, success)
            | some bytes ↦ (add_meta bytes (sha256 sealed) plain sealed p, success, success)
          ])

  -- The block's own content id is awaited once less, those of its children once more each.
  unfoldable pub seal_block :
      SealBlock → List ℕ → PendingFile → PendingFile × SpacexStatus × SpacexStatus
  unfolding seal_plain add_children
  seal_block o plain p = elim (hash_to_cid (sha256 plain)) [
    | none ↦ (p, unexpected_error, unexpected_error)
    | some cid ↦
        let p' = add_block cid (negsuc 0) p in
        elim (get_hashs_from_block wide o.link_alloc plain) [
          | hashs_of hashs ↦ seal_plain o plain (add_children hashs p')
          | no_memory ↦ (p', malloc_failed, malloc_failed)
          | overrun ↦ (p', unexpected_error, unexpected_error)
          | stuck ↦ (p', unexpected_error, unexpected_error)
        ]
  ]

  -- `storage_seal_file`; an empty block is only counted.
  unfoldable pub storage_seal_file :
      Text → List ℕ → Bool → SealBlock → Workload → Workload × SpacexStatus
  unfolding seal_block plain_data
  storage_seal_file root block is_link o w =
      if is_empty block
      then elim (find_pending root w.pending_files) [
        | none ↦ (w, storage_new_file_notfound)
        | some p ↦ (
          record w {
            pending_files =
                update_pending root (add_block empty_block_cid (negsuc 0)) w.pending_files;
          },
          success,
        )
      ]
      else if not (is_upgrade_none w.upgrade_status)
      then (end_cleanup root unexpected_error w, upgrade_is_upgrading)
      else elim (find_pending root w.pending_files) [
        | none ↦ (end_cleanup root unexpected_error w, storage_new_file_notfound)
        | some p ↦
            let (status, kept, plain) = plain_data o block is_link in
            if not (is_success status)
            then ((if is_success kept then w else end_cleanup root kept w), status)
            else (let (p', status', kept') = seal_block o plain p in
                let w' : Workload = record w {
                  pending_files = update_pending root (λ _. p') w.pending_files;
                } in
                ((if is_success kept' then w' else end_cleanup root kept' w'), status'))
      ]
