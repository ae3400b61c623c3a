-- ===== src/Storage/Block/Defs.antt =====
-- `get_hashs_from_block`: the hashes of the links at the front of an IPFS block. An `int` is the
-- pattern of its 32 bits, and a read outside the block is an outcome of its own.
use Prim.Native.Nat.{bit_or}
use spacex_storage.Prelude.{
  ℕ, zero, suc, ◌+◌, ◌-◌, ◌*◌, ◌%◌, ◌^◌, Bool, true, false, not, ◌||◌, Option, none, some, List, [],
  ◌∷◌, ◌++◌, length, get_elem?, ltb, leb, ◌==◌, if◌then◌else◌,
}

-- The bytes from a place on, as many as are asked for.
unfoldable pub slice : List ℕ → ℕ → ℕ → Option (List ℕ)
slice block zero zero = some []
slice [] zero (suc n) = none
slice (b ∷ bs) zero (suc n) = elim (slice bs zero n) [ none ↦ none | some rest ↦ some (b ∷ rest) ]
slice [] (suc at) n = none
slice (b ∷ bs) (suc at) n = slice bs at n

abbrev pub int_mod : ℕ
int_mod = 2 ^ 32

-- The sign of an `int`.
abbrev pub is_negative : ℕ → Bool
is_negative n = leb (2 ^ 31) n

-- The byte that stands so many places before an index, and the bytes from there on; none if that is
-- before the block or behind it.
unfoldable pub byte_before : List ℕ → ℕ → ℕ → Option ℕ
byte_before block index back = if ltb index back then none else get_elem? block (index - back)

unfoldable pub slice_before : List ℕ → ℕ → ℕ → ℕ → Option (List ℕ)
unfolding slice
slice_before block index back n = if ltb index back then none else slice block (index - back) n

-- What reading a size gives: the size and the index behind it, an error, or a read out of bounds.
pub data Size : Type 0 where
  size_of : ℕ → ℕ → Size
  bad_size : Size
  size_overrun : Size
  size_stuck : Size

-- What one round of the outer loop gives. With `next` it goes on at an index.
pub data Link : Type 0 where
  next : List ℕ → ℕ → Link
  no_more : Link
  bad_link : Link
  link_overrun : Link
  link_stuck : Link

-- The outcome: the hashes with success, the status for a failed allocation, a read out of bounds, or
-- no end within the fuel.
pub data Hashs : Type 0 where
  hashs_of : List (List ℕ) → Hashs
  no_memory : Hashs
  overrun : Hashs
  stuck : Hashs

-- The block's size as the `int` that the loops compare with.
abbrev pub block_size : List ℕ → ℕ
block_size block = length block % int_mod

-- `wide` gives what the machine makes of a shift by 32 or more, which C++ leaves undefined. `alloc`
-- tells whether the allocation for a link succeeds, by the number of links before it.
module _ (wide : ℕ → ℕ → ℕ) where
  -- `size |= int(b&0x7F) << shift`
  unfoldable pub add_group : ℕ → ℕ → ℕ → ℕ
  add_group size b shift =
      bit_or size ((if ltb shift 32 then b % 128 * 2 ^ shift else wide (b % 128) shift) % int_mod)
      % int_mod

  -- The loops that read a size; the shift reaches 64 in the eleventh round.
  unfoldable pub read_size : ℕ → List ℕ → ℕ → ℕ → ℕ → Size
  read_size zero block index shift size = size_stuck
  read_size (suc fuel) block index shift size =
      if leb 64 shift
      then bad_size
      else if leb (block_size block) index
      then bad_size
      else elim (get_elem? block index) [
        | none ↦ size_overrun
        | some b ↦
            let size' = add_group size b shift in
            elim (ltb b 128) [
              | true ↦ size_of size' (index + 1)
              | false ↦ read_size fuel block (index + 1) (shift + 7) size'
            ]
      ]

  -- The second half of a round, with the size and the index of the hash; `index_header + link_size`
  -- is `behind`.
  unfoldable pub read_hash : List ℕ → ℕ → ℕ → ℕ → Link
  unfolding byte_before slice_before
  read_hash block size index behind =
      let end : ℕ = (index + size) % int_mod in
      if is_negative size || (is_negative end || (ltb end 34 || leb (block_size block) end))
      then bad_link
      else elim (byte_before block end 33) [
        | none ↦ link_overrun
        | some a ↦ elim (byte_before block end 34) [
          | none ↦ link_overrun
          | some b ↦
              if not (a == 0x20) || not (b == 0x12)
              then bad_link
              else elim (slice_before block end 32 32) [
                | none ↦ link_overrun
                | some hash ↦ next hash behind
              ]
        ]
      ]

  -- The first half, with the size of the link and the index behind it.
  unfoldable pub read_body : List ℕ → ℕ → ℕ → Link
  unfolding read_size read_hash
  read_body block size index =
      let end : ℕ = (index + size) % int_mod in
      if is_negative size || (is_negative end || leb (block_size block) end)
      then bad_link
      else elim (get_elem? block index) [
        | none ↦ link_overrun
        | some h ↦ if not (h == 0x0a) then no_more else elim (read_size 11 block (index + 1) 0 0) [
          | size_of hash_size index' ↦ read_hash block hash_size index' (index + size)
          | bad_size ↦ bad_link
          | size_overrun ↦ link_overrun
          | size_stuck ↦ link_stuck
        ]
      ]

  -- One round of the outer loop.
  unfoldable pub read_link : List ℕ → ℕ → Link
  unfolding read_size read_body
  read_link block index = elim (get_elem? block index) [
    | none ↦ link_overrun
    | some b ↦ if not (b == 0x12) then no_more else elim (read_size 11 block (index + 1) 0 0) [
      | size_of size index' ↦ read_body block size index'
      | bad_size ↦ bad_link
      | size_overrun ↦ link_overrun
      | size_stuck ↦ link_stuck
    ]
  ]

  -- The outer loop. An error clears the hashes, and the function still says success.
  unfoldable pub read_links : (ℕ → Bool) → ℕ → List ℕ → ℕ → List (List ℕ) → Hashs
  unfolding read_link
  read_links alloc zero block index hashs = stuck
  read_links alloc (suc fuel) block index hashs =
      if not (ltb index (block_size block)) then hashs_of hashs else elim (read_link block index) [
        | next hash index' ↦ elim (alloc (length hashs)) [
          | true ↦ read_links alloc fuel block index' (hashs ++ hash ∷ [])
          | false ↦ no_memory
        ]
        | no_more ↦ hashs_of hashs
        | bad_link ↦ hashs_of []
        | link_overrun ↦ overrun
        | link_stuck ↦ stuck
      ]

  -- `get_hashs_from_block`; a size that is negative as an `int` ends the loop at once.
  unfoldable pub get_hashs_from_block : (ℕ → Bool) → List ℕ → Hashs
  unfolding read_links
  get_hashs_from_block alloc block =
      if is_negative (block_size block)
      then hashs_of []
      else read_links alloc (length block + 1) block 0 []
