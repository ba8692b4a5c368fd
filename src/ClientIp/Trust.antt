-- ===== src/ClientIp/Trust.antt =====
-- `resolveClientIP`: what a client can and cannot make it answer.
use mathlib.Core.List.{reverse_aux}
use remote_cli.Common.{ℕ, ◌≡◌, refl, ap, ◌∙◌, true, false, some, List, [], ◌∷◌, ◌++◌}
use remote_cli.Common.Sort.{All}
use remote_cli.ClientIp.{
  Netip, is_trusted_proxy, peer_client_ip, hops, all_hops, first_untrusted, resolve_behind,
  resolve_client_ip,
}

module _ (net : Netip) (trusted : List net.Prefix) where
  abbrev Trusted : net.Addr → Type 0
  Trusted addr = is_trusted_proxy net addr trusted ≡ true

  -- Behind trusted addresses, the first other one is the answer.
  first_untrusted-append :
      (peer : List ℕ) (back : List net.Addr) (addr : net.Addr) (front : List net.Addr)
      → All Trusted back
      → is_trusted_proxy net addr trusted ≡ false
      → first_untrusted net trusted peer (back ++ addr ∷ front) ≡ net.text addr
  unfolding first_untrusted
  first_untrusted-append peer [] addr [] h u = refl
  first_untrusted-append peer [] addr (x ∷ front) h u = rw u refl
  first_untrusted-append peer (y ∷ []) addr front h u =
      rw h.0 (first_untrusted-append peer [] addr front tt u)
  first_untrusted-append peer (y ∷ z ∷ back) addr front h u =
      rw h.0 (first_untrusted-append peer (z ∷ back) addr front h.1 u)

  -- Also where the loop has the chain from its end.
  first_untrusted-reverse_aux :
      (peer : List ℕ) (back done : List net.Addr) (addr : net.Addr) (front : List net.Addr)
      → All Trusted back
      → All Trusted done
      → is_trusted_proxy net addr trusted ≡ false
      → first_untrusted net trusted peer (reverse_aux back (done ++ addr ∷ front)) ≡ net.text addr
  first_untrusted-reverse_aux peer [] done addr front h k u =
      first_untrusted-append peer done addr front k u
  first_untrusted-reverse_aux peer (x ∷ back) done addr front h k u =
      first_untrusted-reverse_aux peer back (x ∷ done) addr front h.1 (h.0, k) u

  reverse_aux-append :
      (front : List net.Addr) (addr : net.Addr) (back onto : List net.Addr)
      → reverse_aux (front ++ addr ∷ back) onto ≡ reverse_aux back (addr ∷ reverse_aux front onto)
  reverse_aux-append [] addr back onto = refl
  reverse_aux-append (x ∷ front) addr back onto = reverse_aux-append front addr back (x ∷ onto)

  -- Behind a trusted peer, with an `X-Forwarded-For` chain of which every element is an address, the
  -- answer is the last address of the chain that is no trusted proxy: whatever addresses stand in
  -- front of it, which a client may have written, and whatever `X-Real-IP` says.
  pub resolve-spoofed :
      (host peer : List ℕ) (p addr : net.Addr) (front back : List net.Addr) (value : List ℕ)
      (values real : List (List ℕ))
      → peer_client_ip net host ≡ (some p, peer)
      → is_trusted_proxy net p trusted ≡ true
      → hops net (all_hops net (value ∷ values)) ≡ some (front ++ addr ∷ back)
      → All Trusted back
      → is_trusted_proxy net addr trusted ≡ false
      → resolve_client_ip net trusted host (value ∷ values) real ≡ net.text addr
  unfolding resolve_client_ip resolve_behind
  resolve-spoofed host peer p addr front back value values real e t chain h u =
      rw (e, t, chain, resolve_client_ip, resolve_behind)
        (ap (first_untrusted net trusted (peer_client_ip net host).1)
            (reverse_aux-append front addr back [])
          ∙ first_untrusted-reverse_aux (peer_client_ip net host).1 back [] addr
              (reverse_aux front []) h tt u)

  -- From a peer that is no trusted proxy, no header changes the answer.
  pub resolve-untrusted :
      (host : List ℕ) (p : net.Addr) (peer : List ℕ)
      (forwarded real forwarded' real' : List (List ℕ))
      → peer_client_ip net host ≡ (some p, peer)
      → is_trusted_proxy net p trusted ≡ false
      → resolve_client_ip net trusted host forwarded real
        ≡ resolve_client_ip net trusted host forwarded' real'
  unfolding resolve_client_ip
  resolve-untrusted host p peer forwarded real forwarded' real' e u =
      rw (e, u, resolve_client_ip) refl

  -- Where `X-Forwarded-For` is there, well-formed or not, `X-Real-IP` changes nothing.
  pub resolve-forwarded :
      (host value : List ℕ) (values real real' : List (List ℕ))
      → resolve_client_ip net trusted host (value ∷ values) real
        ≡ resolve_client_ip net trusted host (value ∷ values) real'
  unfolding resolve_client_ip resolve_behind
  resolve-forwarded host value values real real' = refl
