-- ===== src/Storage/Block/Safe.antt =====
-- The parser ends on every block and reads no byte outside of it.
use spacex_storage.Prelude.{
  ℕ, zero, suc, ◌+◌, ◌-◌, ◌*◌, ◌%◌, ◌^◌, ◌≤◌, ◌<◌, ◌≡◌, ◌≢◌, refl, ◌⊎◌, inl, inr, Bool, not, ◌&&◌,
  some, List, [], ◌∷◌, ◌++◌, length, get_elem?, get_elem?-none, ltb, leb, Option-cases, Bool-cases,
  arith,
}
use spacex_storage.Storage.Block.Defs.{
  slice, byte_before, slice_before, int_mod, Size, size_of, bad_size, size_overrun, size_stuck,
  Link, next, no_more, bad_link, link_overrun, link_stuck, overrun, stuck, block_size, add_group,
  read_size, read_hash, read_body, read_link, read_links, get_hashs_from_block,
}

-- A slice that lies within the list is there.
slice_within :
    (block : List ℕ) (at n : ℕ)
    → at + n ≤ length block
    → (hash : List ℕ) × (slice block at n ≡ some hash)
unfolding slice
slice_within block zero zero h = ([], refl)
slice_within [] zero (suc n) h = absurd (omega arith)
slice_within (b ∷ bs) zero (suc n) h =
    let (rest, e) = slice_within bs zero n (omega arith) in (b ∷ rest, rw e refl)
slice_within [] (suc at) n h = absurd (omega arith)
slice_within (b ∷ bs) (suc at) n h = slice_within bs at n (omega arith)

Size-cases :
    (r : Size)
    → ((n : ℕ) × (i : ℕ) × (r ≡ size_of n i))
      ⊎ ((r ≡ bad_size) ⊎ ((r ≡ size_overrun) ⊎ (r ≡ size_stuck)))
Size-cases (size_of n i) = inl (n, i, refl)
Size-cases bad_size = inr (inl refl)
Size-cases size_overrun = inr (inr (inl refl))
Size-cases size_stuck = inr (inr (inr refl))

Link-cases :
    (r : Link)
    → ((hash : List ℕ) × (i : ℕ) × (r ≡ next hash i))
      ⊎ ((r ≡ no_more) ⊎ ((r ≡ bad_link) ⊎ ((r ≡ link_overrun) ⊎ (r ≡ link_stuck))))
Link-cases (next hash i) = inl (hash, i, refl)
Link-cases no_more = inr (inl refl)
Link-cases bad_link = inr (inr (inl refl))
Link-cases link_overrun = inr (inr (inr (inl refl)))
Link-cases link_stuck = inr (inr (inr (inr refl)))

module _ (wide : ℕ → ℕ → ℕ) where
  -- Reading a size stays within the block and its fuel; a size that was read ends behind where it began.
  read_size_within :
      (fuel : ℕ) (block : List ℕ) (index shift size n index' : ℕ)
      → 77 ≤ 7 * fuel + shift
      → 0 < fuel
      → (read_size wide fuel block index shift size ≢ size_overrun)
        × (read_size wide fuel block index shift size ≢ size_stuck)
        × (read_size wide fuel block index shift size ≡ size_of n index'
            → (index < index') × (index' ≤ block_size block))
  unfolding read_size
  read_size_within zero block index shift size n index' h p = absurd (omega arith)
  read_size_within (suc fuel) block index shift size n index' h p =
      elim (Option-cases (get_elem? block index)) [
        | inl e ↦ ground (arith, e, get_elem?-none block index e)
        | inr (b, e) ↦
            let size' = add_group wide size b shift in
            ground (arith, e, read_size_within fuel block (index + 1) (shift + 7) size' n index')
      ]

  -- The second half of a round reads within the block whatever the size is, and goes on where it is told.
  read_hash_within :
      (block : List ℕ) (size index behind : ℕ) (hash : List ℕ) (index' : ℕ)
      → (read_hash wide block size index behind ≢ link_overrun)
        × (read_hash wide block size index behind ≢ link_stuck)
        × (read_hash wide block size index behind ≡ next hash index' → index' ≡ behind)
  unfolding read_hash byte_before slice_before
  read_hash_within block size index behind hash index' =
      let end : ℕ = (index + size) % int_mod in
      elim (Bool-cases (leb 34 end && not (leb (block_size block) end))) [
        | inl inside ↦
            let (got, e) = slice_within block (end - 32) 32 (ground (arith, inside)) in
            ground (arith, e, get_elem?-none block (end - 33), get_elem?-none block (end - 34))
        | inr outside ↦ ground (arith, outside)
      ]

  read_body_within :
      (block : List ℕ) (size index : ℕ) (hash : List ℕ) (index' : ℕ)
      → block_size block < 2 ^ 31
      → index ≤ block_size block
      → (read_body wide block size index ≢ link_overrun)
        × (read_body wide block size index ≢ link_stuck)
        × (read_body wide block size index ≡ next hash index'
            → (index ≤ index') × (index' < block_size block))
  unfolding read_body
  read_body_within block size index hash index' b h =
      let end : ℕ = (index + size) % int_mod in
      elim (Size-cases (read_size wide 11 block (index + 1) 0 0)) [
        | inl (n, i, e) ↦ ground (
          arith,
          e,
          get_elem?-none block index,
          read_size_within 11 block (index + 1) 0 0 n i,
          read_hash_within block n i (index + size) hash index',
        )
        | inr e ↦
            ground
              (arith, e, get_elem?-none block index, read_size_within 11 block (index + 1) 0 0 0 0)
      ]

  read_link_within :
      (block : List ℕ) (index : ℕ) (hash : List ℕ) (index' : ℕ)
      → block_size block < 2 ^ 31
      → index < block_size block
      → (read_link wide block index ≢ link_overrun)
        × (read_link wide block index ≢ link_stuck)
        × (read_link wide block index ≡ next hash index'
            → (index < index') × (index' < block_size block))
  unfolding read_link
  read_link_within block index hash index' b h =
      elim (Size-cases (read_size wide 11 block (index + 1) 0 0)) [
        | inl (n, i, e) ↦ ground (
          arith,
          e,
          get_elem?-none block index,
          read_size_within 11 block (index + 1) 0 0 n i,
          read_body_within block n i hash index',
        )
        | inr e ↦
            ground
              (arith, e, get_elem?-none block index, read_size_within 11 block (index + 1) 0 0 0 0)
      ]

  read_links_within :
      (alloc : ℕ → Bool) (fuel : ℕ) (block : List ℕ) (index : ℕ) (hashs : List (List ℕ))
      → block_size block < 2 ^ 31
      → block_size block < fuel + index
      → index ≤ block_size block
      → (read_links wide alloc fuel block index hashs ≢ overrun)
        × (read_links wide alloc fuel block index hashs ≢ stuck)
  unfolding read_links
  read_links_within alloc zero block index hashs b h k = absurd (omega arith)
  read_links_within alloc (suc fuel) block index hashs b h k =
      elim (Bool-cases (ltb index (block_size block))) [
        | inr e ↦ ground (arith, e)
        | inl e ↦
            let inside : index < block_size block = ground (arith, e) in
            elim (Link-cases (read_link wide block index)) [
              | inl (hash, i, e') ↦
                  let further = (read_link_within block index hash i b inside).2 e' in
                  let rest =
                    read_links_within alloc fuel block i (hashs ++ hash ∷ []) b
                      (omega (arith, further, h)) (omega (arith, further)) in
                  ground (arith, e, e', rest)
              | inr e' ↦
                  let fine = read_link_within block index [] 0 b inside in
                  ground (arith, e, e', fine)
            ]
      ]

  -- `get_hashs_from_block` ends on every block and reads no byte outside of it, whatever the machine makes of a shift that is too wide and whichever allocations fail: its outcome is a list of hashes, or the status for a failed allocation.
  pub get_hashs_from_block_safe :
      (alloc : ℕ → Bool) (block : List ℕ)
      → (get_hashs_from_block wide alloc block ≢ overrun)
        × (get_hashs_from_block wide alloc block ≢ stuck)
  unfolding get_hashs_from_block
  get_hashs_from_block_safe alloc block =
      ground (arith, read_links_within alloc (length block + 1) block 0 [])
