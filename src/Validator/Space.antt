-- ===== src/Validator/Space.antt =====
-- `validate_srd` and `validate_srd_real`: the check of entries of sealed space.
use spacex_storage.Prelude.{
  ℕ, ◌+◌, ◌*◌, ◌%◌, Bool, true, false, not, Option, none, some, List, [], ◌∷◌, text_eq, length,
  get_elem?, leb, if◌then◌else◌,
}
use spacex_storage.Status.{is_upgrade_success}
use spacex_storage.SrdMeta.Defs.{Srd, add_srd_to_deleted_buffer, deal_deleted_srd}
use spacex_storage.Storage.Block.Defs.{slice}
use spacex_storage.Workload.Defs.{Workload, report_add_validated_srd_proof}
use spacex_storage.Validator.Choice.{choose}

-- What the disk and the memory give for an entry: the hashes of its leaves, room for a copy of them,
-- a random number, and the leaf that it picks.
pub record SrdCheck : Type 0 where
  pub m_hashs : Option (List ℕ)
  pub room : Bool
  pub rand : ℕ
  pub leaf : Option (List ℕ)

-- What becomes of an entry that a round takes: the call of a thread fails, a thread checks it within
-- the round, or only after the round's random number has changed.
pub data SrdTurn : Type 0 where
  not_called : SrdTurn
  in_time late : SrdCheck → SrdTurn

-- `SRD_RAND_DATA_NUM`
abbrev pub rand_data_num : ℕ
rand_data_num = 1024

-- The last `HASH_LENGTH` bytes of an entry.
abbrev pub hash_of : List ℕ → List ℕ
hash_of item = elim (slice item 10 32) [ none ↦ [] | some hash ↦ hash ]

-- `memcmp` with the hash at the random leaf's place; a place beyond the hashes has none.
abbrev pub leaf_hash : List ℕ → ℕ → List ℕ
leaf_hash m_hashs rand = elim (slice m_hashs (rand % rand_data_num * 32) 32) [
  | none ↦ []
  | some hash ↦ hash
]

module _ (sha256 : List ℕ → List ℕ) where
  -- An entry could not be read: it goes unless another thread has put it into the buffer.
  unfoldable pub unread : ℕ → Srd → Srd × Bool
  unread index s = add_srd_to_deleted_buffer index s

  -- `validate_srd_real` without its deferred block: whether the entry is to be deleted.
  unfoldable pub check_srd : ℕ → List ℕ → SrdCheck → Srd → Srd × Bool
  unfolding unread
  check_srd index item c s = elim (c.m_hashs) [
    | none ↦ unread index s
    | some m_hashs ↦
        if not c.room
        then (s, false)
        else if not (text_eq (hash_of item) (sha256 m_hashs))
        then (s, true)
        else elim (c.leaf) [
          | none ↦ unread index s
          | some leaf ↦ (s, not (text_eq (leaf_hash m_hashs c.rand) (sha256 leaf)))
        ]
  ]

  -- One entry of the round, and whether it counts as validated. The deferred block of a late thread
  -- does nothing.
  unfoldable pub srd_turn : ℕ → List ℕ → SrdTurn → Srd → Srd × Bool
  unfolding check_srd
  srd_turn index item not_called s = ((add_srd_to_deleted_buffer index s).0, true)
  srd_turn index item (in_time c) s =
      let (s', deleted) = check_srd index item c s in
      ((if deleted then (add_srd_to_deleted_buffer index s').0 else s'), true)
  srd_turn index item (late c) s = ((check_srd index item c s).0, false)

  -- The round, over the chosen indexes, and the number of validated entries.
  unfoldable pub srd_round : (ℕ → SrdTurn) → List (List ℕ) → List ℕ → Srd → Srd × ℕ
  unfolding srd_turn
  srd_round turn items [] s = (s, 0)
  srd_round turn items (index ∷ indexes) s = elim (get_elem? items index) [
    | none ↦ srd_round turn items indexes s
    | some item ↦
        let (s', counted) = srd_turn index item (turn index) s in
        let (s'', n) = srd_round turn items indexes s' in (s'', if counted then n + 1 else n)
  ]

  -- `validate_srd`; the buffer is dealt with however it is left.
  unfoldable pub validate_srd : (ℕ → ℕ) → (ℕ → List ℕ) → (ℕ → SrdTurn) → Workload → Workload
  unfolding srd_round
  validate_srd rate rands turn w =
      if is_upgrade_success w.upgrade_status
      then record w { srd = deal_deleted_srd w.srd }
      else (let chosen = choose rate rands (length w.srd.hashs) in
          let (srd, n) = srd_round turn w.srd.hashs chosen w.srd in
          let w1 : Workload = record w { srd = srd } in
          let w2 = if leb (length chosen) n then report_add_validated_srd_proof w1 else w1 in
          record w2 { srd = deal_deleted_srd w2.srd })
