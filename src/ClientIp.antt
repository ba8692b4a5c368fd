-- ===== src/ClientIp.antt =====
-- clientip.go: which address a request counts as coming from. Addresses and prefixes are those of
-- Go's net/netip, with the operations that the code uses of it as arguments; a header value is the
-- list of its bytes.
pub mod Trust
use remote_cli.Common.{
  ℕ, Bool, true, false, not, ◌&&◌, ◌||◌, Option, none, some, List, [], ◌∷◌, ◌++◌, reverse, split,
  if◌then◌else◌, leb, ltb,
}
use remote_cli.ReadOnly.{trim_space}

-- net/netip: `parse` is `ParseAddr`, and `contains` is `Prefix.Contains`.
pub record Netip : Type 1 where
  pub Addr : Type 0
  pub Prefix : Type 0
  pub parse : List ℕ → Option Addr
  pub has_zone : Addr → Bool
  pub without_zone : Addr → Addr
  pub unmap : Addr → Addr
  pub text : Addr → List ℕ
  pub contains : Prefix → Addr → Bool

module _ (net : Netip) where
  -- `isTrustedProxy`
  unfoldable pub is_trusted_proxy : net.Addr → List net.Prefix → Bool
  is_trusted_proxy addr [] = false
  is_trusted_proxy addr (p ∷ prefixes) =
      if net.contains p addr then true else is_trusted_proxy addr prefixes

  -- `peerClientIP`, on the host of the remote address; `none` is an invalid address.
  unfoldable pub peer_client_ip : List ℕ → Option net.Addr × List ℕ
  peer_client_ip host = elim (net.parse host) [
    | none ↦ (none, host)
    | some addr ↦ let addr' = net.unmap (net.without_zone addr) in (some addr', net.text addr')
  ]

  -- `forwardedIP`
  unfoldable pub forwarded_ip : List ℕ → Option net.Addr
  forwarded_ip value = elim (net.parse (trim_space value)) [
    | none ↦ none
    | some addr ↦ if net.has_zone addr then none else some (net.unmap addr)
  ]

  unfoldable pub joined_chain : Option net.Addr → Option (List net.Addr) → Option (List net.Addr)
  joined_chain (some addr) (some chain) = some (addr ∷ chain)
  joined_chain _ _ = none

  -- The inner loop over the hops of one value; `none` is a hop that is no address.
  unfoldable pub hops : List (List ℕ) → Option (List net.Addr)
  hops [] = some []
  hops (hop ∷ rest) = joined_chain (forwarded_ip hop) (hops rest)

  unfoldable pub all_hops : List (List ℕ) → List (List ℕ)
  all_hops [] = []
  all_hops (value ∷ values) = split b',' value ++ all_hops values

  -- The loop from the end of the chain to its start, on the reversed chain.
  unfoldable pub first_untrusted : List net.Prefix → List ℕ → List net.Addr → List ℕ
  first_untrusted trusted peer [] = peer
  first_untrusted trusted peer (addr ∷ []) = net.text addr
  first_untrusted trusted peer (addr ∷ next ∷ chain) =
      if not (is_trusted_proxy addr trusted)
      then net.text addr
      else first_untrusted trusted peer (next ∷ chain)

  -- The part of `resolveClientIP` under `X-Real-IP`.
  unfoldable pub real_ip : List ℕ → List (List ℕ) → List ℕ
  real_ip peer (value ∷ []) = elim (forwarded_ip value) [ none ↦ peer | some addr ↦ net.text addr ]
  real_ip peer _ = peer

  -- What `resolveClientIP` does behind a trusted peer.
  unfoldable pub resolve_behind : List net.Prefix → List ℕ → List (List ℕ) → List (List ℕ) → List ℕ
  resolve_behind trusted peer [] real = real_ip peer real
  resolve_behind trusted peer (value ∷ values) real = elim (hops (all_hops (value ∷ values))) [
    | none ↦ peer
    | some chain ↦ first_untrusted trusted peer (reverse chain)
  ]

  -- `resolveClientIP`: the peer's host, and the values of `X-Forwarded-For` and of `X-Real-IP`.
  unfoldable pub resolve_client_ip :
      List net.Prefix → List ℕ → List (List ℕ) → List (List ℕ) → List ℕ
  resolve_client_ip trusted host forwarded real =
      let (address, peer) = peer_client_ip host in
      elim address [
        | none ↦ peer
        | some addr ↦
            if not (is_trusted_proxy addr trusted)
            then peer
            else resolve_behind trusted peer forwarded real
      ]
