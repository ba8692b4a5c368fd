-- ===== src/Tests/Addresses.antt =====
-- clientip.go, with addresses of one byte: `1` and `2` are trusted.
use remote_cli.Common.{
  ℕ, ◌≡◌, refl, false, Option, none, some, List, [], ◌∷◌, ◌++◌, ◌==◌, codes, split,
}
use remote_cli.ReadOnly.{trim_space, trim_left, is_space}
use remote_cli.ClientIp.{
  Netip, is_trusted_proxy, peer_client_ip, forwarded_ip, joined_chain, hops, all_hops,
  resolve_client_ip,
}
use remote_cli.ClientIp.Trust.{resolve-spoofed}

abbrev parse_byte : List ℕ → Option ℕ
parse_byte (c ∷ []) = some c
parse_byte _ = none

abbrev net : Netip
net = record {
  Addr = ℕ;
  Prefix = ℕ;
  parse = parse_byte;
  has_zone = λ a. false;
  without_zone = λ a. a;
  unmap = λ a. a;
  text = λ a. a ∷ [];
  contains = λ p a. p == a;
}

abbrev proxies : List ℕ
proxies = b'1' ∷ b'2' ∷ []

-- The client wrote `9`; the outer proxy saw `7`, and the inner one saw the outer one, `2`.
abbrev header : List ℕ
header = codes "9, 7, 2"

the_chain : hops net (all_hops net (header ∷ [])) ≡ some ((b'9' ∷ []) ++ b'7' ∷ (b'2' ∷ []))
unfolding hops all_hops forwarded_ip joined_chain trim_space trim_left is_space split
the_chain = refl

resolve-spoofed_example :
    resolve_client_ip net proxies (codes "1") (header ∷ []) ((codes "5") ∷ []) ≡ b'7' ∷ []
unfolding peer_client_ip is_trusted_proxy
resolve-spoofed_example =
    resolve-spoofed net proxies (codes "1") (codes "1") b'1' b'7' (b'9' ∷ []) (b'2' ∷ []) header []
      (codes "5" ∷ []) refl refl the_chain (refl, tt) refl
