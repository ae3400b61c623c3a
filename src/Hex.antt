-- ===== src/Hex.antt =====
-- Hexadecimal text of byte arrays: `hexstring_safe`, `char_to_int` and `hex_string_to_bytes` of
-- enclave/utils/EUtils.cpp. An array of bytes is the list of its values.
use spacex_storage.Prelude.{
  ℕ, ◌+◌, ◌-◌, ◌*◌, ◌/◌, ◌%◌, ◌<◌, ◌≡◌, ◌≢◌, refl, Option, none, some, List, [], ◌∷◌, ap₂, Text,
  length, All, ltb, leb, ◌==◌, ◌&&◌, if◌then◌else◌, arith,
}

-- `_hextable`
unfoldable pub hex_digit : ℕ → ℕ
hex_digit n = if ltb n 10 then n + b'0' else n - 10 + b'a'

-- `hexstring_safe`, the buffer being allocated: two digits for each byte, the high one first.
unfoldable pub hexstring : List ℕ → Text
unfolding hex_digit
hexstring [] = []
hexstring (b ∷ bs) = hex_digit (b / 16) ∷ hex_digit (b % 16) ∷ hexstring bs

-- `char_to_int`: 0 for what is no digit.
unfoldable pub char_to_int : ℕ → ℕ
char_to_int c =
    if leb b'0' c && leb c b'9'
    then c - b'0'
    else if leb b'A' c && leb c b'F'
    then c - b'A' + 10
    else if leb b'a' c && leb c b'f'
    then c - b'a' + 10
    else 0

byte_pairs : Text → List ℕ
unfolding char_to_int
byte_pairs [] = []
byte_pairs (a ∷ []) = []
byte_pairs (a ∷ b ∷ rest) = (char_to_int a * 16 + char_to_int b) % 256 ∷ byte_pairs rest

-- `hex_string_to_bytes`, the buffer being allocated: no result for an odd or an empty text.
unfoldable pub hex_string_to_bytes : Text → Option (List ℕ)
unfolding byte_pairs
hex_string_to_bytes src =
    if length src % 2 == 0 && ltb 0 (length src) then some (byte_pairs src) else none

abbrev pub IsBytes : List ℕ → Type 0
IsBytes = All (λ b. b < 256)

digit_value : (n : ℕ) → n < 16 → char_to_int (hex_digit n) ≡ n
unfolding char_to_int hex_digit
digit_value n h = ground arith

byte_pairs-hexstring : (bs : List ℕ) → IsBytes bs → byte_pairs (hexstring bs) ≡ bs
unfolding byte_pairs hexstring
byte_pairs-hexstring [] h = refl
byte_pairs-hexstring (b ∷ bs) h =
    rw (digit_value (b / 16) (omega (arith, h.0)), digit_value (b % 16) (omega arith))
      (ap₂ ◌∷◌ (omega (arith, h.0)) (byte_pairs-hexstring bs h.1))

pub length-hexstring : (bs : List ℕ) → length (hexstring bs) ≡ 2 * length bs
unfolding hexstring
length-hexstring [] = refl
length-hexstring (b ∷ bs) = omega (arith, length-hexstring bs)

-- Reading the hexadecimal text of a non-empty byte array gives the array back.
pub hex_string_to_bytes-hexstring :
    (bs : List ℕ) → IsBytes bs → bs ≢ [] → hex_string_to_bytes (hexstring bs) ≡ some bs
unfolding hex_string_to_bytes
hex_string_to_bytes-hexstring [] h ne = absurd (ne refl)
hex_string_to_bytes-hexstring (b ∷ bs) h ne =
    ground (arith, length-hexstring (b ∷ bs), byte_pairs-hexstring (b ∷ bs) h)

length-byte_pairs : (src : Text) → length (byte_pairs src) ≡ length src / 2
unfolding byte_pairs
length-byte_pairs [] = omega arith
length-byte_pairs (a ∷ []) = omega arith
length-byte_pairs (a ∷ b ∷ rest) = omega (arith, length-byte_pairs rest)

-- A byte for every two characters.
pub length-hex_string_to_bytes :
    (src : Text) (bytes : List ℕ)
    → hex_string_to_bytes src ≡ some bytes
    → length bytes ≡ length src / 2
unfolding hex_string_to_bytes
length-hex_string_to_bytes src bytes e = ground (arith, e, length-byte_pairs src)
