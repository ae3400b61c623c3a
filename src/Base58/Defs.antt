-- ===== src/Base58/Defs.antt =====
-- `base58_encode` and `hash_to_cid` (enclave/utils/EUtils.cpp).
use mathlib.Core.List.{reverse}
use spacex_storage.Prelude.{
  ℕ, zero, suc, ◌+◌, ◌*◌, ◌/◌, ◌%◌, not, ◌&&◌, Option, none, some, List, [], ◌∷◌, Text, length,
  get_elem?, take, ltb, ◌==◌, if◌then◌else◌,
}

-- `BASE58_ALPHABET`
abbrev pub alphabet : Text
alphabet =
    b'1' ∷ b'2' ∷ b'3' ∷ b'4' ∷ b'5' ∷ b'6' ∷ b'7' ∷ b'8' ∷ b'9' ∷ b'A' ∷ b'B' ∷ b'C' ∷ b'D' ∷ b'E'
    ∷ b'F' ∷ b'G' ∷ b'H' ∷ b'J' ∷ b'K' ∷ b'L' ∷ b'M' ∷ b'N' ∷ b'P' ∷ b'Q' ∷ b'R' ∷ b'S' ∷ b'T'
    ∷ b'U' ∷ b'V' ∷ b'W' ∷ b'X' ∷ b'Y' ∷ b'Z' ∷ b'a' ∷ b'b' ∷ b'c' ∷ b'd' ∷ b'e' ∷ b'f' ∷ b'g'
    ∷ b'h' ∷ b'i' ∷ b'j' ∷ b'k' ∷ b'm' ∷ b'n' ∷ b'o' ∷ b'p' ∷ b'q' ∷ b'r' ∷ b's' ∷ b't' ∷ b'u'
    ∷ b'v' ∷ b'w' ∷ b'x' ∷ b'y' ∷ b'z' ∷ []

-- The inner loop: the digits from the last one on, of which `used` are in use; the digits, the carry
-- and the number of rounds. The digits are listed from the last place of the array to the first.
unfoldable pub spread : ℕ → ℕ → ℕ → List ℕ → List ℕ × ℕ × ℕ
spread used carry i [] = ([], carry, i)
spread used carry i (d ∷ ds) =
    let sum : ℕ = carry + 256 * d in
    let (ds', carry', i') = spread used (sum / 58) (i + 1) ds in
    if carry == 0 && not (ltb i used) then (d ∷ ds, carry, i) else (sum % 58 ∷ ds', carry', i')

-- The outer loop over the bytes; nothing when a carry is left, where the source builds a string from a
-- null pointer.
unfoldable pub push_bytes : List ℕ → ℕ → List ℕ → Option (List ℕ × ℕ)
unfolding spread
push_bytes [] used ds = some (ds, used)
push_bytes (b ∷ bs) used ds =
    let (ds', carry, i) = spread used b 0 ds in if carry == 0 then push_bytes bs i ds' else none

-- The leading zeros are left out.
abbrev pub drop_zeros : List ℕ → List ℕ
drop_zeros [] = []
drop_zeros (d ∷ ds) = if d == 0 then drop_zeros ds else d ∷ ds

-- The digits in the alphabet; each is below 58.
abbrev pub letters : List ℕ → Text
letters [] = []
letters (d ∷ ds) = elim (get_elem? alphabet d) [ none ↦ letters ds | some c ↦ c ∷ letters ds ]

unfoldable pub zeros : ℕ → List ℕ
zeros zero = []
zeros (suc n) = 0 ∷ zeros n

-- Both functions from the size of the array on.
unfoldable pub encode_sized : ℕ → List ℕ → Option Text
unfolding push_bytes zeros
encode_sized size bytes = elim (push_bytes bytes 0 (zeros size)) [
  | none ↦ none
  | some (ds, used) ↦ some (letters (drop_zeros (reverse (take used ds))))
]

-- `base58_encode`; `scale` is the product of `base58_ifactor` and a length, cut to an `int`.
unfoldable pub base58_encode : (ℕ → ℕ) → List ℕ → Option Text
unfolding encode_sized
base58_encode scale [] = some []
base58_encode scale (b ∷ bs) = encode_sized (1 + scale (length (b ∷ bs))) (b ∷ bs)

-- The size of the array in `hash_to_cid`, `1 + 34 * base58_ifactor`.
abbrev pub cid_size : ℕ
cid_size = 47

-- `hash_to_cid`, for a hash of 32 bytes.
unfoldable pub hash_to_cid : List ℕ → Option Text
unfolding encode_sized
hash_to_cid hash = encode_sized cid_size (18 ∷ 32 ∷ hash)
