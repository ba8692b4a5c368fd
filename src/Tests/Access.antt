-- ===== src/Tests/Access.antt =====
-- auth.go, with a digest that keeps the first 32 bytes in place of SHA-256.
use remote_cli.Common.{
  ℕ, ◌≡◌, ◌↔◌, refl, List, [], ◌∷◌, ◌++◌, arith, length, take, replicate, codes,
}
use remote_cli.Auth.{
  parsed, parse_token_hash, TokenAuth, plain, built, build_token_auth, served, bearer, hash_token,
  generate_token_hash, auth_middleware, encode_hex, hex_digit, sha256_size,
}
use remote_cli.Auth.Hex.{IsBytes}
use remote_cli.Auth.Tokens.{parse-generate, auth_middleware_plain, generated_hash_serves}

abbrev digest : List ℕ → List ℕ
digest s = take 32 (s ++ replicate 32 7)

abbrev salt : List ℕ
salt = 1 ∷ 2 ∷ 3 ∷ 4 ∷ 5 ∷ 6 ∷ 7 ∷ 255 ∷ []

salt_text : encode_hex salt ≡ codes "01020304050607ff"
unfolding encode_hex hex_digit
salt_text = refl

salt-IsBytes : IsBytes salt
salt-IsBytes = (
  omega arith,
  (
    omega arith,
    (omega arith, (omega arith, (omega arith, (omega arith, (omega arith, (omega arith, tt)))))),
  ),
)

digest-IsBytes : IsBytes (hash_token digest salt (codes "ok"))
unfolding hash_token
digest-IsBytes = (
  omega arith,
  (
    omega arith,
    (
      omega arith,
      (
        omega arith,
        (
          omega arith,
          (
            omega arith,
            (
              omega arith,
              (
                omega arith,
                (
                  omega arith,
                  (
                    omega arith,
                    (
                      omega arith,
                      (
                        omega arith,
                        (
                          omega arith,
                          (
                            omega arith,
                            (
                              omega arith,
                              (
                                omega arith,
                                (
                                  omega arith,
                                  (
                                    omega arith,
                                    (
                                      omega arith,
                                      (
                                        omega arith,
                                        (
                                          omega arith,
                                          (
                                            omega arith,
                                            (
                                              omega arith,
                                              (
                                                omega arith,
                                                (
                                                  omega arith,
                                                  (
                                                    omega arith,
                                                    (
                                                      omega arith,
                                                      (
                                                        omega arith,
                                                        (
                                                          omega arith,
                                                          (
                                                            omega arith,
                                                            (omega arith, (omega arith, tt)),
                                                          ),
                                                        ),
                                                      ),
                                                    ),
                                                  ),
                                                ),
                                              ),
                                            ),
                                          ),
                                        ),
                                      ),
                                    ),
                                  ),
                                ),
                              ),
                            ),
                          ),
                        ),
                      ),
                    ),
                  ),
                ),
              ),
            ),
          ),
        ),
      ),
    ),
  ),
)

digest_size : length (hash_token digest salt (codes "ok")) ≡ sha256_size
unfolding hash_token
digest_size = refl

parsed_generated :
    parse_token_hash (generate_token_hash digest salt (codes "ok"))
    ≡ parsed salt (hash_token digest salt (codes "ok"))
parsed_generated =
    parse-generate digest salt (codes "ok") salt-IsBytes (omega arith) digest-IsBytes digest_size

auth_middleware_plain_example :
    (auth_middleware digest (plain (codes "ok")) (codes "Bearer ok") ≡ served)
    ↔ (codes "Bearer ok" ≡ bearer ++ codes "ok")
auth_middleware_plain_example = auth_middleware_plain digest (codes "ok") (codes "Bearer ok")

generated_hash_serves_example :
    (auth : TokenAuth) × (build_token_auth [] (generate_token_hash digest salt (codes "ok"))
      ≡ built auth)
    × ((auth_middleware digest auth (bearer ++ codes "no") ≡ served)
        ↔ (hash_token digest salt (codes "no") ≡ hash_token digest salt (codes "ok")))
generated_hash_serves_example =
    generated_hash_serves digest salt (codes "ok") (codes "no") salt-IsBytes (omega arith)
      digest-IsBytes digest_size
