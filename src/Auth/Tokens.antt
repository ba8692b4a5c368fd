-- ===== src/Auth/Tokens.antt =====
-- A generated hash is parsed again, and who is let through with it.
use remote_cli.Common.{
  ℕ, ◌≤◌, ◌≡◌, ◌↔◌, refl, ap, ◌∙◌, true, ◌&&◌, List, [], ◌∷◌, ◌++◌, arith, length, drop, inl, inr,
  Bool-cases, bytes_eq, bytes_eq_iff, split, codes, Free, split-Free, split-append,
}
use remote_cli.Auth.{
  encode_hex, sha256_size, hash_token_min_salt_bytes, parsed, parse_hash, parse_parts, parse_split,
  parse_token_hash, TokenAuth, plain, hashed, built, built_from, build_token_auth, served,
  has_prefix, bearer, hash_token, generate_token_hash, verify, auth_middleware,
}
use remote_cli.Auth.Hex.{IsBytes, decode_hex-encode_hex, encode_hex-Free}

has_prefix_append : (p s : List ℕ) → has_prefix p (p ++ s) ≡ true
unfolding has_prefix
has_prefix_append [] s = refl
has_prefix_append (c ∷ p) s = ground (arith, has_prefix_append p s)

has_prefix_split : (p s : List ℕ) → has_prefix p s ≡ true → s ≡ p ++ drop (length p) s
unfolding has_prefix
has_prefix_split [] s h = refl
has_prefix_split (c ∷ p) [] h = cc
has_prefix_split (c ∷ p) (d ∷ s) h = ground (arith, has_prefix_split p s)

sha256-Free : Free b':' (codes "sha256")
sha256-Free = (refl, (refl, (refl, (refl, (refl, (refl, tt))))))

module _ (sha256 : List ℕ → List ℕ) where
  -- What the environment variable holds is read back as the salt and the digest. The salt has at
  -- least eight bytes, and SHA-256 gives 32 bytes.
  pub parse-generate :
      (salt token : List ℕ)
      → IsBytes salt
      → hash_token_min_salt_bytes ≤ length salt
      → IsBytes (hash_token sha256 salt token)
      → length (hash_token sha256 salt token) ≡ sha256_size
      → parse_token_hash (generate_token_hash sha256 salt token)
        ≡ parsed salt (hash_token sha256 salt token)
  unfolding parse_token_hash generate_token_hash parse_split parse_parts parse_hash
  parse-generate salt token s_bytes long h_bytes size = ap parse_split parts ∙ known
    where
      hash : List ℕ
      hash = hash_token sha256 salt token

      parts :
          split b':' (generate_token_hash sha256 salt token)
          ≡ codes "sha256" ∷ encode_hex salt ∷ encode_hex hash ∷ []
      parts =
          split-append b':' (codes "sha256") (encode_hex salt ++ b':' ∷ encode_hex hash) sha256-Free
          ∙ ap (λ l. codes "sha256" ∷ l)
              (split-append b':' (encode_hex salt) (encode_hex hash) (encode_hex-Free salt)
                ∙ ap (λ l. encode_hex salt ∷ l)
                    (split-Free b':' (encode_hex hash) (encode_hex-Free hash)))

      known :
          parse_split (codes "sha256" ∷ encode_hex salt ∷ encode_hex hash ∷ []) ≡ parsed salt hash
      known = ground (
        arith,
        (bytes_eq_iff (codes "sha256") (codes "sha256")).1 refl,
        decode_hex-encode_hex salt s_bytes,
        decode_hex-encode_hex hash h_bytes,
      )

  parse_parts_sizes :
      (salt_text hash_text salt want : List ℕ)
      → parse_parts salt_text hash_text ≡ parsed salt want
      → (hash_token_min_salt_bytes ≤ length salt) × (length want ≡ sha256_size)
  unfolding parse_parts parse_hash
  parse_parts_sizes salt_text hash_text salt want e = ground arith

  -- Whatever text is configured, a hash that `parseTokenHash` accepts comes with a salt of at least
  -- eight bytes and a digest of 32 bytes.
  pub parse_token_hash_sizes :
      (s salt want : List ℕ)
      → parse_token_hash s ≡ parsed salt want
      → (hash_token_min_salt_bytes ≤ length salt) × (length want ≡ sha256_size)
  unfolding parse_token_hash parse_split
  parse_token_hash_sizes s salt want e = sizes (split b':' s) e
    where
      sizes :
          (parts : List (List ℕ))
          → parse_split parts ≡ parsed salt want
          → (hash_token_min_salt_bytes ≤ length salt) × (length want ≡ sha256_size)
      sizes [] e = cc
      sizes (tag ∷ []) e = cc
      sizes (tag ∷ a ∷ []) e = cc
      sizes (tag ∷ a ∷ b ∷ []) e = elim (Bool-cases (bytes_eq tag (codes "sha256"))) [
        | inl known ↦ parse_parts_sizes a b salt want (ground arith)
        | inr other ↦ absurd (ground arith)
      ]
      sizes (tag ∷ a ∷ b ∷ c ∷ rest) e = cc

  served_lem :
      (auth : TokenAuth) (authz : List ℕ)
      → (auth_middleware sha256 auth authz ≡ served)
        ↔ ((has_prefix bearer authz && verify sha256 auth (drop (length bearer) authz)) ≡ true)
  unfolding auth_middleware
  served_lem auth authz = (λ e. ground arith, λ e. ground arith)

  served-bearer :
      (auth : TokenAuth) (provided : List ℕ)
      → (auth_middleware sha256 auth (bearer ++ provided) ≡ served)
        ↔ (verify sha256 auth provided ≡ true)
  unfolding has_prefix
  served-bearer auth provided = (
    λ e. (served_lem auth (bearer ++ provided)).0 e,
    λ e. (served_lem auth (bearer ++ provided)).1 e,
  )

  -- With a plain credential a request is served exactly if its header is `Bearer ` and the token.
  pub auth_middleware_plain :
      (token authz : List ℕ)
      → (auth_middleware sha256 (plain token) authz ≡ served) ↔ (authz ≡ bearer ++ token)
  unfolding verify
  auth_middleware_plain token authz = (
    λ e. only ((served_lem (plain token) authz).0 e),
    λ e. rw e ((served-bearer (plain token) token).1 ((bytes_eq_iff token token).1 refl)),
  )
    where
      only :
          (has_prefix bearer authz && bytes_eq (drop (length bearer) authz) token) ≡ true
          → authz ≡ bearer ++ token
      only e =
          has_prefix_split bearer authz (ground arith)
          ∙ ap (λ l. bearer ++ l)
              ((bytes_eq_iff (drop (length bearer) authz) token).0 (ground arith))

  -- The hash that `generateTokenHash` makes of a token configures a server that serves exactly the
  -- requests whose token has the same salted digest. The salt is of at least eight bytes, and
  -- SHA-256 gives 32 bytes.
  pub generated_hash_serves :
      (salt token provided : List ℕ)
      → IsBytes salt
      → hash_token_min_salt_bytes ≤ length salt
      → IsBytes (hash_token sha256 salt token)
      → length (hash_token sha256 salt token) ≡ sha256_size
      → (auth : TokenAuth) × (build_token_auth [] (generate_token_hash sha256 salt token)
          ≡ built auth)
        × ((auth_middleware sha256 auth (bearer ++ provided) ≡ served)
            ↔ (hash_token sha256 salt provided ≡ hash_token sha256 salt token))
  unfolding build_token_auth built_from generate_token_hash verify
  generated_hash_serves salt token provided s_bytes long h_bytes size =
      let same = bytes_eq_iff (hash_token sha256 salt provided) (hash_token sha256 salt token) in
      let serve = served-bearer (hashed salt (hash_token sha256 salt token)) provided in
      (
        hashed salt (hash_token sha256 salt token),
        ap built_from (parse-generate salt token s_bytes long h_bytes size),
        (λ e. same.0 (serve.0 e), λ e. serve.1 (same.1 e)),
      )
