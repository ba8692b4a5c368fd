-- ===== src/Auth.antt =====
-- auth.go: the check of a bearer token against a plain or a hashed credential. A text is the list of
-- its bytes. SHA-256 and the random salt come from Go's crypto packages and are arguments.
pub mod Hex
pub mod Tokens
use remote_cli.Common.{
  ℕ, ◌+◌, ◌-◌, ◌*◌, ◌/◌, ◌%◌, Bool, true, false, not, ◌&&◌, Option, none, some, List, [], ◌∷◌, ◌++◌,
  length, take, drop, leb, ltb, ◌==◌, if◌then◌else◌, bytes_eq, split, codes,
}

-- One digit of `hex.DecodeString`, which takes both cases.
unfoldable pub hex_value : ℕ → Option ℕ
hex_value c =
    if leb b'0' c && leb c b'9'
    then some (c - 48)
    else if leb b'a' c && leb c b'f'
    then some (c - 87)
    else if leb b'A' c && leb c b'F'
    then some (c - 55)
    else none

unfoldable pub with_byte : Option ℕ → Option ℕ → Option (List ℕ) → Option (List ℕ)
with_byte (some high) (some low) (some s) = some ((high * 16 + low) ∷ s)
with_byte _ _ _ = none

-- `hex.DecodeString`; `none` is an error: an odd length, or a byte that is no digit.
unfoldable pub decode_hex : List ℕ → Option (List ℕ)
decode_hex [] = some []
decode_hex (c ∷ []) = none
decode_hex (c ∷ d ∷ s) = with_byte (hex_value c) (hex_value d) (decode_hex s)

unfoldable pub hex_digit : ℕ → ℕ
hex_digit n = if ltb n 10 then 48 + n else 87 + n

-- `hex.EncodeToString`
unfoldable pub encode_hex : List ℕ → List ℕ
encode_hex [] = []
encode_hex (b ∷ s) = hex_digit (b / 16) ∷ hex_digit (b % 16) ∷ encode_hex s

abbrev pub hash_token_salt_bytes : ℕ
hash_token_salt_bytes = 16

abbrev pub hash_token_min_salt_bytes : ℕ
hash_token_min_salt_bytes = 8

-- `sha256.Size`
abbrev pub sha256_size : ℕ
sha256_size = 32

pub data Parsed : Type 0 where
  parsed : List ℕ → List ℕ → Parsed
  bad_format bad_salt bad_hash : Parsed
  short_salt bad_size : ℕ → Parsed

-- What `parseTokenHash` does with the hash once the salt is there.
unfoldable pub parse_hash : List ℕ → List ℕ → Parsed
parse_hash salt text = elim (decode_hex text) [
  | none ↦ bad_hash
  | some hash ↦ if length hash == sha256_size then parsed salt hash else bad_size (length hash)
]

-- What it does with the second and the third part.
unfoldable pub parse_parts : List ℕ → List ℕ → Parsed
parse_parts salt_text hash_text = elim (decode_hex salt_text) [
  | none ↦ bad_salt
  | some salt ↦
      if ltb (length salt) hash_token_min_salt_bytes
      then short_salt (length salt)
      else parse_hash salt hash_text
]

unfoldable pub parse_split : List (List ℕ) → Parsed
parse_split (tag ∷ salt ∷ hash ∷ []) =
    if bytes_eq tag (codes "sha256") then parse_parts salt hash else bad_format
parse_split _ = bad_format

-- `parseTokenHash`
unfoldable pub parse_token_hash : List ℕ → Parsed
parse_token_hash s = parse_split (split b':' s)

-- `tokenAuth`: what its closure `verify` holds.
pub data TokenAuth : Type 0 where
  plain : List ℕ → TokenAuth
  hashed : List ℕ → List ℕ → TokenAuth

-- `buildTokenAuth`: the verifier, or why there is none.
pub data Built : Type 0 where
  built : TokenAuth → Built
  both_set none_set : Built
  malformed : Parsed → Built

unfoldable pub built_from : Parsed → Built
built_from (parsed salt want) = built (hashed salt want)
built_from failure = malformed failure

unfoldable pub build_token_auth : List ℕ → List ℕ → Built
build_token_auth [] [] = none_set
build_token_auth (c ∷ token) [] = built (plain (c ∷ token))
build_token_auth [] (c ∷ hash) = built_from (parse_token_hash (c ∷ hash))
build_token_auth (c ∷ token) (d ∷ hash) = both_set

-- What `AuthMiddleware` does: one of the two refusals, or the next handler.
pub data Access : Type 0 where
  missing_header invalid_token served : Access

-- `strings.HasPrefix`
unfoldable pub has_prefix : List ℕ → List ℕ → Bool
has_prefix [] s = true
has_prefix (c ∷ p) [] = false
has_prefix (c ∷ p) (d ∷ s) = c == d && has_prefix p s

abbrev pub bearer : List ℕ
bearer = codes "Bearer "

module _ (sha256 : List ℕ → List ℕ) where
  -- `hashToken`
  unfoldable pub hash_token : List ℕ → List ℕ → List ℕ
  hash_token salt token = sha256 (salt ++ token)

  -- `generateTokenHash`, with the salt that it draws.
  unfoldable pub generate_token_hash : List ℕ → List ℕ → List ℕ
  generate_token_hash salt token =
      codes "sha256" ++ b':' ∷ (encode_hex salt ++ b':' ∷ encode_hex (hash_token salt token))

  -- `verify` of `newPlainAuth` and of `newHashAuth`.
  unfoldable pub verify : TokenAuth → List ℕ → Bool
  verify (plain token) provided = bytes_eq provided token
  verify (hashed salt want) provided = bytes_eq (hash_token salt provided) want

  -- `AuthMiddleware`, on the `Authorization` header.
  unfoldable pub auth_middleware : TokenAuth → List ℕ → Access
  auth_middleware auth authz =
      if not (has_prefix bearer authz)
      then missing_header
      else if not (verify auth (drop (length bearer) authz))
      then invalid_token
      else served
