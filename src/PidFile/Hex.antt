-- ===== src/PidFile/Hex.antt =====
-- The hexadecimal fields of a pid file: `hex_encode`, `hex_decode`, `hex_nibble`.
pub mod Laws
use Prim.Native.Nat.{bit_and, bit_or}
use nyanpasu_utils.Prelude.{
  ℕ, zero, suc, ◌+◌, ◌-◌, ◌*◌, ◌/◌, ◌%◌, ◌^◌, ◌≡◌, refl, Bool, ◌&&◌, List, [], ◌∷◌, Bytes, codes,
  leb, if◌then◌else◌,
}
use nyanpasu_utils.Io.{Io, ok, err, ◌>>=◌, io_error, ErrorKind}

-- `HEX[n]`, where `n` is below 16.
abbrev pub hex_table : Bytes
hex_table = codes "0123456789abcdef"

abbrev pub index : Bytes → ℕ → ℕ
index [] n = 0
index (c ∷ s) zero = c
index (c ∷ s) (suc n) = index s n

unfoldable pub hex_char : ℕ → ℕ
hex_char n = index hex_table n

unfoldable pub hex_encode : Bytes → Bytes
unfolding hex_char
hex_encode [] = []
hex_encode (byte ∷ bytes) =
    hex_char (byte / 2 ^ 4) ∷ hex_char (bit_and byte 0x0f) ∷ hex_encode bytes

-- `hex_nibble`
unfoldable pub hex_nibble : ℕ → Io ℕ
hex_nibble value =
    if leb b'0' value && leb value b'9'
    then ok (value - b'0')
    else if leb b'a' value && leb value b'f'
    then ok (value - b'a' + 10)
    else err (io_error ErrorKind.invalid_data)

-- `(high << 4) | low` in u8
abbrev pub join_nibbles : ℕ → ℕ → ℕ
join_nibbles high low = bit_or (high * 2 ^ 4 % 2 ^ 8) low

-- `as_chunks::<2>()`
pub as_chunks : Bytes → List (ℕ × ℕ) × Bytes
as_chunks [] = ([], [])
as_chunks (a ∷ []) = ([], a ∷ [])
as_chunks (a ∷ b ∷ s) = let (pairs, remainder) = as_chunks s in ((a, b) ∷ pairs, remainder)

pub decode_pairs : List (ℕ × ℕ) → Io Bytes
unfolding hex_nibble
decode_pairs [] = ok []
decode_pairs ((a, b) ∷ pairs) = do
  high ← hex_nibble a
  low ← hex_nibble b
  rest ← decode_pairs pairs
  ok (join_nibbles high low ∷ rest)

abbrev pub decode_chunks : List (ℕ × ℕ) × Bytes → Io Bytes
decode_chunks (pairs, []) = decode_pairs pairs
decode_chunks (pairs, _ ∷ _) = err (io_error ErrorKind.invalid_data)

-- `hex_decode`: an odd length is refused before any character is read.
unfoldable pub hex_decode : Bytes → Io Bytes
unfolding as_chunks decode_pairs
hex_decode value = decode_chunks (as_chunks value)

hex_runs : hex_encode (codes "kl/") ≡ codes "6b6c2f"
unfolding hex_encode
hex_runs = refl

hex_upper_refused : hex_decode (codes "6B") ≡ err (io_error ErrorKind.invalid_data)
unfolding hex_decode
hex_upper_refused = refl
