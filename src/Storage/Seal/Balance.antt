-- ===== src/Storage/Seal/Balance.antt =====
-- The blocks of a file that are awaited: what is linked is awaited once for each link, and a file can
-- only be ended when every block has come in as often as it is linked.
use spacex_storage.Prelude.{
  ℕ, ◌+◌, ◌≡◌, ◌≢◌, refl, sym, ap, ap₂, ◌∙◌, Bool, true, false, Option, none, some, List, [], ◌∷◌,
  ℤ, pos, negsuc, ◌+ℤ◌, ◌⊎◌, int_laws, eq_of_parts, Text, text_eq, text_eq_lem, text_eq_refl,
  if◌then◌else◌, inl, inr, Option-cases, arith,
}
use spacex_storage.Status.{success, is_success}
use spacex_storage.Base58.Defs.{hash_to_cid}
use spacex_storage.Workload.Defs.{PendingFile}
use spacex_storage.Storage.Pending.{no_blocks, add_num, add_block, all_sealed}
use spacex_storage.Storage.Block.Defs.{
  Hashs, hashs_of, no_memory, overrun, stuck, get_hashs_from_block,
}
use spacex_storage.Storage.Seal.Defs.{SealBlock, add_children, add_meta, seal_plain, seal_block}

-- How often a block is still awaited.
unfoldable pub awaited : Text → List (Text × ℤ) → ℤ
awaited c [] = pos 0
awaited c ((d, n) ∷ rest) = if text_eq c d then n else awaited c rest

abbrev pub one_if : Bool → ℕ
one_if true = 1
one_if false = 0

awaited-add_num :
    (c cid : Text) (n : ℤ) (blocks : List (Text × ℤ))
    → awaited c (add_num cid n blocks)
      ≡ (if text_eq c cid then awaited c blocks +ℤ n else awaited c blocks)
unfolding awaited add_num ◌+ℤ◌
awaited-add_num c cid n [] = ground arith
awaited-add_num c cid n ((d, k) ∷ rest) = ground (
  arith,
  awaited-add_num c cid n rest,
  text_eq_lem c d,
  text_eq_lem cid d,
  text_eq_lem c cid,
  text_eq_refl c,
)

-- Nothing is awaited of a file whose blocks are complete.
awaited-all_sealed :
    (c : Text) (blocks : List (Text × ℤ)) → all_sealed blocks ≡ true → awaited c blocks ≡ pos 0
unfolding awaited all_sealed
awaited-all_sealed c [] h = refl
awaited-all_sealed c ((d, n) ∷ rest) h =
    ground (arith, h, eq_of_parts n (pos 0), awaited-all_sealed c rest)

awaited_nothing : (c : Text) → awaited c [] ≡ pos 0
unfolding awaited
awaited_nothing c = refl

-- The number of hashes with the content id.
unfoldable pub links_to : Text → List (List ℕ) → ℕ
links_to c [] = 0
links_to c (hash ∷ hashs) = elim (hash_to_cid hash) [
  | none ↦ links_to c hashs
  | some cid ↦ one_if (text_eq c cid) + links_to c hashs
]

awaited-add_children :
    (c : Text) (hashs : List (List ℕ)) (p : PendingFile)
    → awaited c (add_children hashs p).blocks ≡ awaited c p.blocks +ℤ pos (links_to c hashs)
unfolding add_children links_to
awaited-add_children c [] p = grind int_laws
awaited-add_children c (hash ∷ hashs) p = elim (Option-cases (hash_to_cid hash)) [
  | inl e ↦ rw (e, add_children, links_to) (awaited-add_children c hashs p)
  | inr (cid, e) ↦
      rw (e, add_children, links_to)
        (grind (
          int_laws,
          awaited-add_children c hashs (add_block cid (pos 1) p),
          awaited-add_num c cid (pos 1) p.blocks,
        ))
]

-- A block that has come in, with what the steps outside gave.
pub record Arrived : Type 0 where
  pub outside : SealBlock
  pub plain : List ℕ

Hashs-cases :
    (r : Hashs)
    → ((hashs : List (List ℕ)) × (r ≡ hashs_of hashs))
      ⊎ ((r ≡ no_memory) ⊎ ((r ≡ overrun) ⊎ (r ≡ stuck)))
Hashs-cases (hashs_of hashs) = inl (hashs, refl)
Hashs-cases no_memory = inr (inl refl)
Hashs-cases overrun = inr (inr (inl refl))
Hashs-cases stuck = inr (inr (inr refl))

-- One block less, and its children more.
exchange :
    (c cid : Text) (hashs : List (List ℕ)) (p : PendingFile)
    → awaited c (add_children hashs (add_block cid (negsuc 0) p)).blocks
        +ℤ pos (one_if (text_eq c cid))
      ≡ awaited c p.blocks +ℤ pos (links_to c hashs)
exchange c cid hashs p = grind (
  int_laws,
  awaited-add_children c hashs (add_block cid (negsuc 0) p),
  awaited-add_num c cid (negsuc 0) p.blocks,
)

module _ (sha256 : List ℕ → List ℕ) (wide : ℕ → ℕ → ℕ) where
  seal_plain-blocks :
      (o : SealBlock) (plain : List ℕ) (p : PendingFile)
      → (seal_plain sha256 wide o plain p).0.blocks ≡ p.blocks
  unfolding seal_plain add_meta
  seal_plain-blocks o plain p = ground arith

  -- The number of times that a block has this content id.
  abbrev pub is_block : Text → List ℕ → ℕ
  is_block c plain = elim (hash_to_cid (sha256 plain)) [
    | none ↦ 0
    | some cid ↦ one_if (text_eq c cid)
  ]

  -- The number of times that a block links to this content id.
  abbrev pub block_links : Text → Arrived → ℕ
  block_links c b = elim (get_hashs_from_block wide b.outside.link_alloc b.plain) [
    | hashs_of hashs ↦ links_to c hashs
    | no_memory ↦ 0
    | overrun ↦ 0
    | stuck ↦ 0
  ]

  seal_block_found :
      (o : SealBlock) (plain : List ℕ) (p : PendingFile) (cid : Text) (hashs : List (List ℕ))
      → hash_to_cid (sha256 plain) ≡ some cid
      → get_hashs_from_block wide o.link_alloc plain ≡ hashs_of hashs
      → seal_block sha256 wide o plain p
        ≡ seal_plain sha256 wide o plain (add_children hashs (add_block cid (negsuc 0) p))
  unfolding seal_block
  seal_block_found o plain p cid hashs e e' = rw (e, e', seal_block) refl

  is_block_of :
      (c : Text) (plain : List ℕ) (cid : Text)
      → hash_to_cid (sha256 plain) ≡ some cid
      → is_block c plain ≡ one_if (text_eq c cid)
  is_block_of c plain cid e = ground (arith, e)

  block_links_of :
      (c : Text) (b : Arrived) (hashs : List (List ℕ))
      → get_hashs_from_block wide b.outside.link_alloc b.plain ≡ hashs_of hashs
      → block_links c b ≡ links_to c hashs
  block_links_of c b hashs e = ground (arith, e)

  seal_block_fails :
      (o : SealBlock) (plain : List ℕ) (p : PendingFile)
      → let r = get_hashs_from_block wide o.link_alloc plain in
        (hash_to_cid (sha256 plain) ≡ none) ⊎ ((r ≡ no_memory) ⊎ ((r ≡ overrun) ⊎ (r ≡ stuck)))
        → (seal_block sha256 wide o plain p).1 ≢ success
  unfolding seal_block
  seal_block_fails o plain p e = ground (arith, e)

  seal_block-awaited :
      (c : Text) (b : Arrived) (p : PendingFile)
      → (seal_block sha256 wide b.outside b.plain p).1 ≡ success
      → awaited c (seal_block sha256 wide b.outside b.plain p).0.blocks +ℤ pos (is_block c b.plain)
        ≡ awaited c p.blocks +ℤ pos (block_links c b)
  seal_block-awaited c b p h = elim (Option-cases (hash_to_cid (sha256 b.plain))) [
    | inl e ↦ absurd (seal_block_fails b.outside b.plain p (inl e) h)
    | inr (cid, e) ↦ elim (Hashs-cases (get_hashs_from_block wide b.outside.link_alloc b.plain)) [
      | inl (hashs, e') ↦
          let step = exchange c cid hashs p in
          let found =
            ap (λ r. awaited c r.0.blocks) (seal_block_found b.outside b.plain p cid hashs e e') in
          let same = ap (awaited c) (
            seal_plain-blocks b.outside b.plain
              (add_children hashs (add_block cid (negsuc 0) p))) in
          ap₂ (λ n k. n +ℤ pos k) (found ∙ same) (is_block_of c b.plain cid e)
          ∙ (step ∙ ap (λ k. awaited c p.blocks +ℤ pos k) (sym (block_links_of c b hashs e')))
      | inr e' ↦ absurd (seal_block_fails b.outside b.plain p (inr e') h)
    ]
  ]

  -- The blocks come in one after the other; nothing if one of them fails.
  unfoldable pub seal_all : List Arrived → PendingFile → Option PendingFile
  seal_all [] p = some p
  seal_all (b ∷ bs) p =
      let (p', status, kept) = seal_block sha256 wide b.outside b.plain p in
      let rest = seal_all bs p' in if is_success status then rest else none

  unfoldable pub arrivals : Text → List Arrived → ℕ
  arrivals c [] = 0
  arrivals c (b ∷ bs) = is_block c b.plain + arrivals c bs

  unfoldable pub links : Text → List Arrived → ℕ
  links c [] = 0
  links c (b ∷ bs) = block_links c b + links c bs

  seal_all-awaited :
      (c : Text) (bs : List Arrived) (p p' : PendingFile)
      → seal_all bs p ≡ some p'
      → awaited c p'.blocks +ℤ pos (arrivals c bs) ≡ awaited c p.blocks +ℤ pos (links c bs)
  unfolding seal_all arrivals links
  seal_all-awaited c [] p p' e = ground (arith, e)
  seal_all-awaited c (b ∷ bs) p p' e =
      let r = seal_block sha256 wide b.outside b.plain p in
      let ok : r.1 ≡ success = ground (arith, e) in
      let go : seal_all bs r.0 ≡ some p' = ground (arith, e) in
      grind (int_laws, seal_block-awaited c b p ok, seal_all-awaited c bs r.0 p' go)

  -- When blocks come in for a file that has just been started and all of them are sealed, the file is complete only if every content id has come in exactly as often as the blocks link to it, the file's own once more.
  pub seal_all_complete :
      (c root : Text) (bs : List Arrived) (p : PendingFile)
      → seal_all bs (add_block root (pos 1) no_blocks) ≡ some p
      → all_sealed p.blocks ≡ true
      → arrivals c bs ≡ links c bs + one_if (text_eq c root)
  seal_all_complete c root bs p e done = grind (
    int_laws,
    seal_all-awaited c bs (add_block root (pos 1) no_blocks) p e,
    awaited-all_sealed c p.blocks done,
    awaited-add_num c root (pos 1) [],
    awaited_nothing c,
  )
