-- ===== src/Storage/Block/RoundTrip.antt =====
-- The parser reads back the hashes of links that are written as IPFS writes them.
use Prim.Native.Nat.{bit_or}
use spacex_storage.Prelude.{
  ℕ, zero, suc, ◌+◌, ◌-◌, ◌%◌, ◌^◌, ◌≤◌, ◌<◌, ◌≡◌, refl, ap, sym, ◌∙◌, Bool, true, false, ◌&&◌,
  some, List, [], ◌∷◌, ◌++◌, map, All, length, length-append, get_elem?, ◌==◌, ==_iff, lt→ltb,
  arith,
}
use mathlib.Core.List.{append_assoc, append-nil}
use spacex_storage.Storage.Block.Defs.{
  slice, byte_before, slice_before, int_mod, is_negative, size_of, next, no_more, hashs_of,
  block_size, add_group, read_size, read_hash, read_body, read_link, read_links,
  get_hashs_from_block,
}

-- A link: the hash, and what stands behind it, such as the link's name.
pub record LinkOf : Type 0 where
  pub hash : List ℕ
  pub rest : List ℕ

-- A link as IPFS writes it, its two sizes in one byte each.
unfoldable pub write_link : LinkOf → List ℕ
write_link l = 0x12 ∷ (36 + length l.rest) ∷ 0x0a ∷ 34 ∷ 0x12 ∷ 0x20 ∷ (l.hash ++ l.rest)

unfoldable pub write_links : List LinkOf → List ℕ → List ℕ
write_links [] body = body
write_links (l ∷ ls) body = write_link l ++ write_links ls body

-- The hash has its length, and the size of the link fits into one byte.
abbrev pub IsLinkOf : LinkOf → Type 0
IsLinkOf l = (length l.hash ≡ 32) × (length l.rest < 92)

get_elem?-append :
    (pre suf : List ℕ) (k : ℕ) → get_elem? (pre ++ suf) (length pre + k) ≡ get_elem? suf k
get_elem?-append [] suf k = let e : 0 + k ≡ k = omega arith in rw e refl
get_elem?-append (x ∷ pre) suf k =
    let e : suc (length pre) + k ≡ suc (length pre + k) = omega arith in
    rw e (get_elem?-append pre suf k)

pub slice-append :
    (pre suf : List ℕ) (k n : ℕ) → slice (pre ++ suf) (length pre + k) n ≡ slice suf k n
unfolding slice
slice-append [] suf k n = let e : 0 + k ≡ k = omega arith in rw e refl
slice-append (x ∷ pre) suf k n =
    let e : suc (length pre) + k ≡ suc (length pre + k) = omega arith in
    rw e (slice-append pre suf k n)

pub slice_front : (hash rest : List ℕ) → slice (hash ++ rest) 0 (length hash) ≡ some hash
unfolding slice
slice_front [] [] = refl
slice_front [] (x ∷ rest) = refl
slice_front (x ∷ hash) rest = rw (slice_front hash rest) refl

hash_front :
    (l : LinkOf) (suf : List ℕ)
    → length l.hash ≡ 32
    → slice ((l.hash ++ l.rest) ++ suf) 0 32 ≡ some l.hash
hash_front l suf h = rw (append_assoc l.hash l.rest suf, ← h) (slice_front l.hash (l.rest ++ suf))

-- A group in the lowest place, by evaluation.
is_own_group : ℕ → Bool
is_own_group zero = true
is_own_group (suc n) = (bit_or 0 n == n) && is_own_group n

own_groups : is_own_group 128 ≡ true
unfolding is_own_group
own_groups = refl

bit_or_zero : (n b : ℕ) → is_own_group n ≡ true → b < n → bit_or 0 b ≡ b
unfolding is_own_group
bit_or_zero zero b h lt = absurd (omega arith)
bit_or_zero (suc n) b h lt = ground (arith, ==_iff (bit_or 0 n) n, bit_or_zero n b)

module _ (wide : ℕ → ℕ → ℕ) where
  add_group_one : (b : ℕ) → b < 128 → add_group wide 0 b 0 ≡ b
  unfolding add_group
  add_group_one b h = ground (arith, bit_or_zero 128 b own_groups h)

  read_size_one :
      (block : List ℕ) (i b : ℕ)
      → get_elem? block i ≡ some b
      → b < 128
      → i < block_size block
      → read_size wide 11 block i 0 0 ≡ size_of b (i + 1)
  unfolding read_size
  read_size_one block i b e h lt = ground (arith, e, add_group_one b h)

  -- One round on a block that has the bytes of a link from `i` on and goes on behind it.
  module _ (block : List ℕ) (i n : ℕ) (hash : List ℕ) (link_byte : get_elem? block i ≡ some 0x12)
      (size_byte : get_elem? block (i + 1) ≡ some n)
      (hash_byte : get_elem? block (i + 2) ≡ some 0x0a)
      (hash_size_byte : get_elem? block (i + 3) ≡ some 34)
      (sha_byte : get_elem? block (i + 4) ≡ some 0x12)
      (length_byte : get_elem? block (i + 5) ≡ some 0x20)
      (hash_bytes : slice block (i + 6) 32 ≡ some hash) (long : 36 ≤ n) (short : n < 128)
      (goes_on : i + 2 + n < length block) (fits : length block < 2 ^ 31) where
    read_hash_found : read_hash wide block 34 (i + 4) (i + 2 + n) ≡ next hash (i + 2 + n)
    unfolding read_hash byte_before slice_before
    read_hash_found =
        let end : (i + 4 + 34) % int_mod ≡ i + 38 = omega (arith, goes_on, fits, long) in
        let e1 : i + 38 - 33 ≡ i + 5 = omega arith in
        let e2 : i + 38 - 34 ≡ i + 4 = omega arith in
        let e3 : i + 38 - 32 ≡ i + 6 = omega arith in
        ground (arith, end, e1, e2, e3, length_byte, sha_byte, hash_bytes, goes_on, fits, long)

    read_body_found : read_body wide block n (i + 2) ≡ next hash (i + 2 + n)
    unfolding read_body
    read_body_found =
        let end : (i + 2 + n) % int_mod ≡ i + 2 + n = omega (arith, goes_on, fits) in
        let e : i + 2 + 1 ≡ i + 3 = omega arith in
        let e' : i + 3 + 1 ≡ i + 4 = omega arith in
        let read =
          read_size_one block (i + 3) 34 hash_size_byte (omega arith)
            (omega (arith, goes_on, fits, long)) in
        ground (arith, end, e, e', read, hash_byte, read_hash_found, goes_on, fits, long, short)

    read_link_found : read_link wide block i ≡ next hash (i + 2 + n)
    unfolding read_link
    read_link_found =
        let e : i + 1 + 1 ≡ i + 2 = omega arith in
        let read = read_size_one block (i + 1) n size_byte short (omega (arith, goes_on, fits)) in
        ground (arith, e, read, link_byte, read_body_found)

  -- One round on a link that is followed by a byte at least.
  read_link-write_link :
      (pre suf : List ℕ) (l : LinkOf)
      → IsLinkOf l
      → 0 < length suf
      → length (pre ++ (write_link l ++ suf)) < 2 ^ 31
      → read_link wide (pre ++ (write_link l ++ suf)) (length pre)
        ≡ next l.hash (length pre + length (write_link l))
  unfolding write_link slice
  read_link-write_link pre suf l (hash_size, rest_size) more fits =
      let block : List ℕ = pre ++ (write_link l ++ suf) in
      let i : ℕ = length pre in
      let size = length-append pre (write_link l ++ suf) in
      let inner = length-append (l.hash ++ l.rest) suf in
      let hash_rest = length-append l.hash l.rest in
      let at = get_elem?-append pre (write_link l ++ suf) in
      let b0 : get_elem? block i ≡ some 0x12 = let e : i ≡ i + 0 = omega arith in rw e (at 0) in
      let b2 : get_elem? block (i + 2) ≡ some 0x0a = at 2 in
      let b4 : get_elem? block (i + 4) ≡ some 0x12 = at 4 in
      let b5 : get_elem? block (i + 5) ≡ some 0x20 = at 5 in
      let cut : slice block (i + 6) 32 ≡ some l.hash =
        slice-append pre (write_link l ++ suf) 6 32 ∙ hash_front l suf hash_size in
      let found =
        read_link_found block i (36 + length l.rest) l.hash b0 (at 1) b2 (at 3) b4 b5 cut
          (omega arith) (omega (arith, rest_size))
          (omega (arith, size, inner, hash_rest, hash_size, more)) fits in
      let e : i + 2 + (36 + length l.rest) ≡ i + length (write_link l) =
        omega (arith, hash_rest, hash_size) in
      found ∙ ap (next l.hash) e

  length-write_link : (l : LinkOf) → length l.hash ≡ 32 → length (write_link l) ≡ 38 + length l.rest
  unfolding write_link
  length-write_link l h = omega (arith, length-append l.hash l.rest, h)

  read_links_next :
      (fuel : ℕ) (block : List ℕ) (i : ℕ) (hashs : List (List ℕ)) (hash : List ℕ) (i' : ℕ)
      → i < block_size block
      → read_link wide block i ≡ next hash i'
      → read_links wide (λ _. true) (suc fuel) block i hashs
        ≡ read_links wide (λ _. true) fuel block i' (hashs ++ hash ∷ [])
  unfolding read_links
  read_links_next fuel block i hashs hash i' lt e = rw (lt→ltb i (block_size block) lt, e) refl

  links_nonempty :
      (ls : List LinkOf) (body : List ℕ) → length ls < length (write_links ls (0x0a ∷ body))
  unfolding write_links write_link
  links_nonempty [] body = omega arith
  links_nonempty (l ∷ ls) body = omega (
    arith,
    length-append (l.hash ++ l.rest) (write_links ls (0x0a ∷ body)),
    links_nonempty ls body,
  )

  end_of_links : (pre body : List ℕ) → read_link wide (pre ++ 0x0a ∷ body) (length pre) ≡ no_more
  unfolding read_link
  end_of_links pre body =
      let e : length pre ≡ length pre + 0 = omega arith in
      let b : get_elem? (pre ++ 0x0a ∷ body) (length pre) ≡ some 0x0a =
        rw e (get_elem?-append pre (0x0a ∷ body) 0) in
      ground (arith, b)

  links_end :
      (fuel : ℕ) (pre body : List ℕ) (hashs : List (List ℕ))
      → length (pre ++ 0x0a ∷ body) < 2 ^ 31
      → read_links wide (λ _. true) (suc fuel) (pre ++ 0x0a ∷ body) (length pre) hashs
        ≡ hashs_of hashs
  unfolding read_links
  links_end fuel pre body hashs fits =
      ground (arith, length-append pre (0x0a ∷ body), end_of_links pre body, fits)

  read_links-write_links :
      (fuel : ℕ) (pre body : List ℕ) (ls : List LinkOf) (hashs : List (List ℕ))
      → All IsLinkOf ls
      → length ls < fuel
      → length (pre ++ write_links ls (0x0a ∷ body)) < 2 ^ 31
      → read_links wide (λ _. true) fuel (pre ++ write_links ls (0x0a ∷ body)) (length pre) hashs
        ≡ hashs_of (hashs ++ map (λ l. l.hash) ls)
  unfolding write_links
  read_links-write_links zero pre body ls hashs ok h fits = absurd (omega arith)
  read_links-write_links (suc fuel) pre body [] hashs ok h fits =
      links_end fuel pre body hashs fits ∙ ap hashs_of (sym (append-nil hashs))
  read_links-write_links (suc fuel) pre body (l ∷ ls) hashs ok h fits =
      let suf : List ℕ = write_links ls (0x0a ∷ body) in
      let found =
        read_link-write_link pre suf l ok.0 (omega (arith, links_nonempty ls body)) fits in
      let size = length-append pre (write_link l ++ suf) in
      let size' = length-append (write_link l) suf in
      let front = length-append pre (write_link l) in
      let one = append_assoc pre (write_link l) suf in
      let ih : read_links wide (λ _. true) fuel (pre ++ (write_link l ++ suf))
            (length pre + length (write_link l)) (hashs ++ l.hash ∷ [])
          ≡ hashs_of ((hashs ++ l.hash ∷ []) ++ map (λ l. l.hash) ls) =
        rw (← one, ← front)
          (read_links-write_links fuel (pre ++ write_link l) body ls (hashs ++ l.hash ∷ []) ok.1
            (omega arith) (rw one fits)) in
      let whole = append_assoc hashs (l.hash ∷ []) (map (λ l. l.hash) ls) in
      read_links_next fuel (pre ++ (write_link l ++ suf)) (length pre) hashs l.hash _
        (omega (arith, size, size', fits, links_nonempty ls body)) found
      ∙ (ih ∙ ap hashs_of whole)

  -- Of a block whose links are written as IPFS writes them, with sizes of one byte, and are followed by data, `get_hashs_from_block` gives the hashes of the links in their order, when the memory suffices and the block has less than 2 GiB.
  pub get_hashs_from_block-write_links :
      (ls : List LinkOf) (body : List ℕ)
      → All IsLinkOf ls
      → length (write_links ls (0x0a ∷ body)) < 2 ^ 31
      → get_hashs_from_block wide (λ _. true) (write_links ls (0x0a ∷ body))
        ≡ hashs_of (map (λ l. l.hash) ls)
  unfolding get_hashs_from_block
  get_hashs_from_block-write_links ls body ok fits =
      let block : List ℕ = write_links ls (0x0a ∷ body) in
      let sign : is_negative (block_size block) ≡ false = ground (arith, fits) in
      rw sign (
        read_links-write_links (length block + 1) [] body ls [] ok
          (omega (arith, links_nonempty ls body)) fits)
