-- ===== src/Auth/Hex.antt =====
-- Hexadecimal digits: what `hex.EncodeToString` writes, read by `hex.DecodeString`.
use remote_cli.Common.{
  ℕ, ◌+◌, ◌*◌, ◌/◌, ◌%◌, ◌<◌, ◌≡◌, refl, some, List, [], ◌∷◌, arith, Free, ◌==◌, ap, false,
}
use remote_cli.Common.Sort.{All}
use remote_cli.Auth.{hex_value, hex_digit, with_byte, decode_hex, encode_hex}

abbrev pub IsBytes : List ℕ → Type 0
IsBytes s = All (λ b. b < 256) s

hex_value-hex_digit : (n : ℕ) → n < 16 → hex_value (hex_digit n) ≡ some n
unfolding hex_value hex_digit
hex_value-hex_digit n h = ground arith

hex_digit_colon : (n : ℕ) → (hex_digit n == b':') ≡ false
unfolding hex_digit
hex_digit_colon n = ground arith

pub decode_hex-encode_hex : (s : List ℕ) → IsBytes s → decode_hex (encode_hex s) ≡ some s
unfolding decode_hex encode_hex with_byte
decode_hex-encode_hex [] h = refl
decode_hex-encode_hex (b ∷ s) h =
    rw
      (
        hex_value-hex_digit (b / 16) (omega arith),
        hex_value-hex_digit (b % 16) (omega arith),
        decode_hex-encode_hex s h.1,
      )
      (ap (λ n. some (n ∷ s)) {x = b / 16 * 16 + b % 16} {y = b} (omega arith))

pub encode_hex-Free : (s : List ℕ) → Free b':' (encode_hex s)
unfolding encode_hex
encode_hex-Free [] = tt
encode_hex-Free (b ∷ s) = (hex_digit_colon (b / 16), (hex_digit_colon (b % 16), encode_hex-Free s))
