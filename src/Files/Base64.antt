-- ===== src/Files/Base64.antt =====
-- The package encoding/base64 as fileops.go uses it: `StdEncoding`, with padding. Its decoder passes
-- over line ends.
use remote_cli.Common.{
  ℕ, ◌+◌, ◌-◌, ◌*◌, ◌/◌, ◌%◌, ◌<◌, false, ◌&&◌, ◌||◌, Option, none, some, List, [], ◌∷◌,
  if◌then◌else◌, ◌==◌, leb, ltb, ◌≡◌, refl, ap, ap₂, ◌∙◌, arith,
}
use remote_cli.Common.Sort.{All}

-- The character of a value below 64.
unfoldable pub char_of : ℕ → ℕ
char_of v =
    if ltb v 26
    then 65 + v
    else if ltb v 52
    then 71 + v
    else if ltb v 62
    then v - 4
    else if v == 62
    then b'+'
    else b'/'

unfoldable pub value_of : ℕ → Option ℕ
value_of c =
    if leb 65 c && leb c 90
    then some (c - 65)
    else if leb 97 c && leb c 122
    then some (c - 71)
    else if leb 48 c && leb c 57
    then some (c + 4)
    else if c == b'+'
    then some 62
    else if c == b'/'
    then some 63
    else none

-- `EncodeToString`
unfoldable pub encode : List ℕ → List ℕ
encode [] = []
encode (a ∷ []) = char_of (a / 4) ∷ char_of (a % 4 * 16) ∷ b'=' ∷ b'=' ∷ []
encode (a ∷ b ∷ []) =
    char_of (a / 4) ∷ char_of (a % 4 * 16 + b / 16) ∷ char_of (b % 16 * 4) ∷ b'=' ∷ []
encode (a ∷ b ∷ c ∷ s) =
    char_of (a / 4)
    ∷ char_of (a % 4 * 16 + b / 16)
    ∷ char_of (b % 16 * 4 + c / 64)
    ∷ char_of (c % 64)
    ∷ encode s

unfoldable pub strip_line_ends : List ℕ → List ℕ
strip_line_ends [] = []
strip_line_ends (c ∷ s) =
    let rest = strip_line_ends s in if c == b'\n' || c == b'\r' then rest else c ∷ rest

-- The three bytes of four values, the two of three, the one of two.
unfoldable pub three_bytes :
    Option ℕ → Option ℕ → Option ℕ → Option ℕ → Option (List ℕ) → Option (List ℕ)
three_bytes (some p) (some q) (some r) (some t) (some rest) =
    some ((p * 4 + q / 16) ∷ (q % 16 * 16 + r / 4) ∷ (r % 4 * 64 + t) ∷ rest)
three_bytes _ _ _ _ _ = none

unfoldable pub two_bytes : Option ℕ → Option ℕ → Option ℕ → Option (List ℕ)
two_bytes (some p) (some q) (some r) = some ((p * 4 + q / 16) ∷ (q % 16 * 16 + r / 4) ∷ [])
two_bytes _ _ _ = none

unfoldable pub one_byte : Option ℕ → Option ℕ → Option (List ℕ)
one_byte (some p) (some q) = some ((p * 4 + q / 16) ∷ [])
one_byte _ _ = none

-- The last four characters, which may be padded.
unfoldable pub last_quad : ℕ → ℕ → ℕ → ℕ → Option (List ℕ)
last_quad w x y z =
    if z == b'='
    then (if y == b'='
        then one_byte (value_of w) (value_of x)
        else two_bytes (value_of w) (value_of x) (value_of y))
    else three_bytes (value_of w) (value_of x) (value_of y) (value_of z) (some [])

unfoldable pub decode_quads : List ℕ → Option (List ℕ)
decode_quads [] = some []
decode_quads (w ∷ x ∷ y ∷ z ∷ []) = last_quad w x y z
decode_quads (w ∷ x ∷ y ∷ z ∷ v ∷ s) =
    three_bytes (value_of w) (value_of x) (value_of y) (value_of z) (decode_quads (v ∷ s))
decode_quads _ = none

-- `DecodeString`
unfoldable pub decode : List ℕ → Option (List ℕ)
decode s = decode_quads (strip_line_ends s)

value_of-char_of : (v : ℕ) → v < 64 → value_of (char_of v) ≡ some v
unfolding value_of char_of
value_of-char_of v h = ground arith

char_of-text :
    (v : ℕ)
    → v < 64
    → (char_of v == b'=' ≡ false) × (char_of v == b'\n' || char_of v == b'\r' ≡ false)
unfolding char_of
char_of-text v h = ground arith

-- No character is a line end.
abbrev Plain : List ℕ → Type 0
Plain = All (λ c. (c == b'\n' || c == b'\r') ≡ false)

strip_line_ends-Plain : (s : List ℕ) → Plain s → strip_line_ends s ≡ s
unfolding strip_line_ends
strip_line_ends-Plain [] h = refl
strip_line_ends-Plain (c ∷ s) (h, hs) = rw (h, strip_line_ends-Plain s hs) refl

plain_char : (v : ℕ) → v < 64 → (char_of v == b'\n' || char_of v == b'\r') ≡ false
plain_char v h = (char_of-text v h).1

encode-Plain : (s : List ℕ) → All (λ c. c < 256) s → Plain (encode s)
unfolding encode
encode-Plain [] h = tt
encode-Plain (a ∷ []) (ha, _) =
    (plain_char (a / 4) (omega arith), (plain_char (a % 4 * 16) (omega arith), (refl, (refl, tt))))
encode-Plain (a ∷ b ∷ []) (ha, (hb, _)) = (
  plain_char (a / 4) (omega arith),
  (
    plain_char (a % 4 * 16 + b / 16) (omega arith),
    (plain_char (b % 16 * 4) (omega arith), (refl, tt)),
  ),
)
encode-Plain (a ∷ b ∷ c ∷ s) (ha, (hb, (hc, hs))) = (
  plain_char (a / 4) (omega arith),
  (
    plain_char (a % 4 * 16 + b / 16) (omega arith),
    (
      plain_char (b % 16 * 4 + c / 64) (omega arith),
      (plain_char (c % 64) (omega arith), encode-Plain s hs),
    ),
  ),
)

-- A quad without padding.
full_quad :
    (w x y z : ℕ) (t : List ℕ)
    → (z == b'=') ≡ false
    → decode_quads (w ∷ x ∷ y ∷ z ∷ t)
      ≡ three_bytes (value_of w) (value_of x) (value_of y) (value_of z) (decode_quads t)
unfolding decode_quads last_quad
full_quad w x y z [] h = rw h refl
full_quad w x y z (v ∷ t) h = refl

decode_quads-encode : (s : List ℕ) → All (λ c. c < 256) s → decode_quads (encode s) ≡ some s
unfolding encode decode_quads last_quad one_byte two_bytes three_bytes
decode_quads-encode [] h = refl
decode_quads-encode (a ∷ []) (ha, _) =
    rw (value_of-char_of (a / 4) (omega arith), value_of-char_of (a % 4 * 16) (omega arith))
      (ap (λ (p : ℕ). some (p ∷ [])) (omega arith))
decode_quads-encode (a ∷ b ∷ []) (ha, (hb, _)) =
    rw
      (
        (char_of-text (b % 16 * 4) (omega arith)).0,
        value_of-char_of (a / 4) (omega arith),
        value_of-char_of (a % 4 * 16 + b / 16) (omega arith),
        value_of-char_of (b % 16 * 4) (omega arith),
      )
      (ap₂ (λ (p q : ℕ). some (p ∷ q ∷ [])) (omega arith) (omega arith))
decode_quads-encode (a ∷ b ∷ c ∷ s) (ha, (hb, (hc, hs))) =
    full_quad _ _ _ _ (encode s) (char_of-text (c % 64) (omega arith)).0
    ∙ rw
        (
          value_of-char_of (a / 4) (omega arith),
          value_of-char_of (a % 4 * 16 + b / 16) (omega arith),
          value_of-char_of (b % 16 * 4 + c / 64) (omega arith),
          value_of-char_of (c % 64) (omega arith),
          decode_quads-encode s hs,
        )
        (ap₂ (λ (p q : ℕ). some (p ∷ q ∷ ((b % 16 * 4 + c / 64) % 4 * 64 + c % 64) ∷ s))
            (omega arith) (omega arith)
          ∙ ap (λ (r : ℕ). some (a ∷ b ∷ r ∷ s)) (omega arith))

-- Decoding what was encoded gives the bytes back.
pub decode-encode : (s : List ℕ) → All (λ c. c < 256) s → decode (encode s) ≡ some s
unfolding decode
decode-encode s h =
    rw (strip_line_ends-Plain (encode s) (encode-Plain s h)) (decode_quads-encode s h)
