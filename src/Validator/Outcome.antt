-- ===== src/Validator/Outcome.antt =====
-- What a round of the validator does to the sealed space.
use spacex_storage.Prelude.{
  ℕ, ◌≡◌, refl, ap, ◌∙◌, Bool, true, false, not, ◌&&◌, ◌||◌, Option, none, some, List, [], ◌∷◌,
  text_eq, length, get_elem?, leb, ◌==◌, if◌then◌else◌, ◌⊎◌, inl, inr, Bool-cases, Option-cases,
  ==_iff, arith,
}
use spacex_storage.Status.{is_upgrade_success}
use spacex_storage.SrdMeta.Defs.{Srd, has_idx, add_srd_to_deleted_buffer}
use spacex_storage.SrdMeta.Delete.{
  Ascending, survivors, add_srd_to_deleted_buffer-Ascending, deal_deleted_srd-survivors,
}
use spacex_storage.Workload.Defs.{Workload, report_add_validated_srd_proof}
use spacex_storage.Validator.Choice.{choose}
use spacex_storage.Validator.Space.{
  SrdCheck, SrdTurn, not_called, in_time, late, hash_of, leaf_hash, unread, check_srd, srd_turn,
  srd_round, validate_srd,
}

module _ (sha256 : List ℕ → List ℕ) where
  -- The check does not let the entry pass: something cannot be read, or a hash does not fit.
  abbrev pub is_refuted : List ℕ → SrdCheck → Bool
  is_refuted item c = elim (c.m_hashs) [
    | none ↦ true
    | some m_hashs ↦
        c.room
        && (not (text_eq (hash_of item) (sha256 m_hashs)) || elim (c.leaf) [
          | none ↦ true
          | some leaf ↦ not (text_eq (leaf_hash m_hashs c.rand) (sha256 leaf))
        ])
  ]

  -- Something of the entry cannot be read, which a late thread records as well.
  abbrev pub is_unreadable : List ℕ → SrdCheck → Bool
  is_unreadable item c = elim (c.m_hashs) [
    | none ↦ true
    | some m_hashs ↦
        c.room
        && (text_eq (hash_of item) (sha256 m_hashs)
            && elim (c.leaf) [ none ↦ true | some leaf ↦ false ])
  ]

  -- An entry goes in its turn.
  abbrev pub turn_goes : List ℕ → SrdTurn → Bool
  turn_goes item not_called = true
  turn_goes item (in_time c) = is_refuted item c
  turn_goes item (late c) = is_unreadable item c

  -- The entry at an index goes, if there is one.
  abbrev pub index_goes : (ℕ → SrdTurn) → List (List ℕ) → ℕ → Bool
  index_goes turn items k = elim (get_elem? items k) [
    | none ↦ false
    | some item ↦ turn_goes item (turn k)
  ]

  -- What one turn does to the buffer.
  abbrev TurnResult : ℕ → Bool → Srd → Srd → Type 0
  TurnResult index goes s s' =
      (s'.hashs ≡ s.hashs)
      × Ascending 0 s'.deleted_idx
      × ((k : ℕ)
          → has_idx k s'.deleted_idx
            ≡ (if (k == index) && goes then true else has_idx k s.deleted_idx))

  stays : (index : ℕ) (s : Srd) → Ascending 0 s.deleted_idx → TurnResult index false s s
  stays index s a = (refl, a, λ k. ground arith)

  enters :
      (index : ℕ) (s : Srd)
      → Ascending 0 s.deleted_idx
      → TurnResult index true s (add_srd_to_deleted_buffer index s).0
  unfolding add_srd_to_deleted_buffer
  enters index s a =
      let r = add_srd_to_deleted_buffer-Ascending index s a in
      (refl, r.0, λ k. r.1 k ∙ ground arith)

  enters_twice :
      (index : ℕ) (s : Srd)
      → Ascending 0 s.deleted_idx
      → TurnResult index true s (
          if (add_srd_to_deleted_buffer index s).1
          then (add_srd_to_deleted_buffer index (add_srd_to_deleted_buffer index s).0).0
          else (add_srd_to_deleted_buffer index s).0)
  enters_twice index s a =
      let once = enters index s a in
      let twice = enters index (add_srd_to_deleted_buffer index s).0 once.1 in
      elim (Bool-cases ((add_srd_to_deleted_buffer index s).1)) [
        | inl e ↦ rw e (
          twice.0 ∙ once.0,
          twice.1,
          λ k.
              twice.2 k
              ∙ (ap (λ b. if (k == index) && true then true else b) (once.2 k) ∙ ground arith),
        )
        | inr e ↦ rw e once
      ]

  -- The three ways that a check ends.
  CheckEnd : ℕ → List ℕ → SrdCheck → Srd → Type 0
  CheckEnd index item c s =
      ((check_srd sha256 index item c s ≡ (s, false))
        × (is_refuted item c ≡ false)
        × (is_unreadable item c ≡ false))
      ⊎ (((check_srd sha256 index item c s ≡ (s, true))
            × (is_refuted item c ≡ true)
            × (is_unreadable item c ≡ false))
          ⊎ ((check_srd sha256 index item c s ≡ add_srd_to_deleted_buffer index s)
              × (is_refuted item c ≡ true)
              × (is_unreadable item c ≡ true)))

  check_ends_by :
      (index : ℕ) (item : List ℕ) (m : Option (List ℕ)) (room : Bool) (rand : ℕ)
      (leaf : Option (List ℕ)) (s : Srd)
      → CheckEnd index item (record { m_hashs = m; room = room; rand = rand; leaf = leaf }) s
  unfolding check_srd unread CheckEnd
  check_ends_by index item none room rand leaf s = inr (inr (refl, refl, refl))
  check_ends_by index item (some m) false rand leaf s = inl (refl, refl, refl)
  check_ends_by index item (some m) true rand none s =
      elim (Bool-cases (text_eq (hash_of item) (sha256 m))) [
        | inl e ↦ inr (inr (rw e refl, rw e refl, rw e refl))
        | inr e ↦ inr (inl (rw e refl, rw e refl, rw e refl))
      ]
  check_ends_by index item (some m) true rand (some l) s =
      elim (Bool-cases (text_eq (hash_of item) (sha256 m))) [
        | inl e ↦ elim (Bool-cases (text_eq (leaf_hash m rand) (sha256 l))) [
          | inl e' ↦ inl (rw (e, e') refl, rw (e, e') refl, rw e refl)
          | inr e' ↦ inr (inl (rw (e, e') refl, rw (e, e') refl, rw e refl))
        ]
        | inr e ↦ inr (inl (rw e refl, rw e refl, rw e refl))
      ]

  check_ends : (index : ℕ) (item : List ℕ) (c : SrdCheck) (s : Srd) → CheckEnd index item c s
  check_ends index item c s = check_ends_by index item c.m_hashs c.room c.rand c.leaf s

  srd_turn-result :
      (index : ℕ) (item : List ℕ) (t : SrdTurn) (s : Srd)
      → Ascending 0 s.deleted_idx
      → TurnResult index (turn_goes item t) s (srd_turn sha256 index item t s).0
  unfolding srd_turn CheckEnd
  srd_turn-result index item not_called s a = enters index s a
  srd_turn-result index item (in_time c) s a = elim (check_ends index item c s) [
    | inl (e, r, u) ↦ rw (e, r) (stays index s a)
    | inr (inl (e, r, u)) ↦ rw (e, r) (enters index s a)
    | inr (inr (e, r, u)) ↦ rw (e, r) (enters_twice index s a)
  ]
  srd_turn-result index item (late c) s a = elim (check_ends index item c s) [
    | inl (e, r, u) ↦ rw (e, u) (stays index s a)
    | inr (inl (e, r, u)) ↦ rw (e, u) (stays index s a)
    | inr (inr (e, r, u)) ↦ rw (e, u) (enters index s a)
  ]

  one_more :
      (k index : ℕ) (g : ℕ → Bool) (gi inside before middle after : Bool)
      → g index ≡ gi
      → middle ≡ (if (k == index) && gi then true else before)
      → after ≡ (if inside && g k then true else middle)
      → after ≡ (if (if k == index then true else inside) && g k then true else before)
  one_more k index g gi inside before middle after e m a = elim (Bool-cases (k == index)) [
    | inl h ↦ let same : g k ≡ gi = ap g ((==_iff k index).0 h) ∙ e in ground (arith, h, same, m, a)
    | inr h ↦ ground (arith, h, m, a)
  ]

  srd_round-result :
      (turn : ℕ → SrdTurn) (items : List (List ℕ)) (indexes : List ℕ) (s : Srd)
      → Ascending 0 s.deleted_idx
      → let s' = (srd_round sha256 turn items indexes s).0 in
        (s'.hashs ≡ s.hashs)
        × Ascending 0 s'.deleted_idx
        × ((k : ℕ)
            → has_idx k s'.deleted_idx ≡ (
                if has_idx k indexes && index_goes turn items k
                then true
                else has_idx k s.deleted_idx))
  unfolding srd_round has_idx
  srd_round-result turn items [] s a = (refl, a, λ k. refl)
  srd_round-result turn items (index ∷ indexes) s a = elim (Option-cases (get_elem? items index)) [
    | inl e ↦
        let rest = srd_round-result turn items indexes s a in
        let none_goes : index_goes turn items index ≡ false = rw (e, index_goes) refl in
        rw (e, srd_round)
          (
            rest.0,
            rest.1,
            λ k.
                one_more k index (index_goes turn items) false _ _ _ _ none_goes (ground arith)
                  (rest.2 k),
          )
    | inr (item, e) ↦
        let s1 = (srd_turn sha256 index item (turn index) s).0 in
        let one = srd_turn-result index item (turn index) s a in
        let rest = srd_round-result turn items indexes s1 one.1 in
        let goes : index_goes turn items index ≡ turn_goes item (turn index) =
          rw (e, index_goes) refl in
        rw (e, srd_round)
          (
            rest.0 ∙ one.0,
            rest.1,
            λ k.
                one_more k index (index_goes turn items) (turn_goes item (turn index)) _ _ _ _ goes
                  (one.2 k) (rest.2 k),
          )
  ]

  -- `validate_srd` removes exactly the entries that the buffer names already and those that the round takes and refutes, by a failed call, an unreadable or a wrong file; all others stay, in their order, and the buffer is empty afterwards. After an upgrade only the buffer counts.
  pub validate_srd-survivors :
      (rate : ℕ → ℕ) (rands : ℕ → List ℕ) (turn : ℕ → SrdTurn) (w : Workload)
      → Ascending 0 w.srd.deleted_idx
      → let w' = validate_srd sha256 rate rands turn w in
        let items = w.srd.hashs in
        (w'.srd.deleted_idx ≡ [])
        × (gone : List ℕ) × (w'.srd.hashs ≡ survivors 0 gone items)
        × ((k : ℕ)
            → has_idx k gone ≡ (
                if not (is_upgrade_success w.upgrade_status)
                  && (has_idx k (choose rate rands (length items)) && index_goes turn items k)
                then true
                else has_idx k w.srd.deleted_idx))
  unfolding validate_srd report_add_validated_srd_proof
  validate_srd-survivors rate rands turn w a =
      elim (Bool-cases (is_upgrade_success w.upgrade_status)) [
        | inl e ↦
            let dealt = deal_deleted_srd-survivors w.srd a in
            rw (e, validate_srd) (dealt.1, w.srd.deleted_idx, dealt.0, λ k. refl)
        | inr e ↦
            let chosen = choose rate rands (length w.srd.hashs) in
            let s = (srd_round sha256 turn w.srd.hashs chosen w.srd).0 in
            let round = srd_round-result turn w.srd.hashs chosen w.srd a in
            let dealt = deal_deleted_srd-survivors s round.1 in
            let left = dealt.0 ∙ ap (survivors 0 s.deleted_idx) round.0 in
            elim (Bool-cases
              (leb (length chosen) (srd_round sha256 turn w.srd.hashs chosen w.srd).1)) [
                | inl b ↦ rw (e, b, validate_srd) (dealt.1, s.deleted_idx, left, round.2)
                | inr b ↦ rw (e, b, validate_srd) (dealt.1, s.deleted_idx, left, round.2)
              ]
      ]
