-- ===== src/Output/Ring.antt =====
-- The ring of tail mode: reading a ring from its oldest byte, and what the wrapping copy does to
-- that reading.
use remote_cli.Common.{
  ℕ, zero, suc, ◌+◌, ◌-◌, ◌%◌, ◌≤◌, ◌<◌, ◌≡◌, refl, sym, ap, ◌∙◌, some, List, [], ◌∷◌, ◌++◌,
  append-nil, append_assoc, min, arith, length, take, drop, length-append, length-take, length-drop,
  take-append-drop, drop-append_le, take-append_eq, drop-append_eq, drop-drop, drop_of_length-le,
  take-min,
}
use remote_cli.Output.{copy_at, wrap_copy}
use native.Mathlib.Nat.{mod-eq_of_lt, mod_self, mod-lt}
use native.Mathlib.Decide.{dec_lt}

-- The bytes of a ring from `start` on, round to `start` again.
abbrev pub rotated : ℕ → List ℕ → List ℕ
rotated start buf = drop start buf ++ take start buf

-- One round: `c` bytes overwrite the oldest ones.
module _ (buf p : List ℕ) (start : ℕ) (inside : start < length buf) where
  abbrev count : ℕ
  count = min (length buf - start) (length p)

  length-count : length (take count p) ≡ count
  length-count = length-take count p ∙ omega arith

  copy_at_parts :
      copy_at start p buf ≡ take start buf ++ (take count p ++ drop count (drop start buf))
  unfolding copy_at
  copy_at_parts = rw (drop-drop count start buf) (
      ap (λ t. take start buf ++ (t ++ drop (start + count) buf))
        (sym (take-both (length buf - start) p)))
    where
      take-both : (n : ℕ) (xs : List ℕ) → take (min n (length xs)) xs ≡ take n xs
      take-both n xs = take-min n xs

  pub length-copy_at : length (copy_at start p buf) ≡ length buf
  length-copy_at =
      rw
        (
          copy_at_parts, length-append, length-append, length-count, length-drop, length-drop,
          length-take,
        )
        (omega arith)

  abbrev turned : List ℕ
  turned = (drop count (drop start buf) ++ take start buf) ++ take count p

  drop-rotated : drop count (rotated start buf ++ take count p) ≡ turned
  drop-rotated =
      drop-append_le count (rotated start buf) (take count p)
        (rw (length-append, length-drop, length-take) (omega arith))
      ∙ ap (λ t. t ++ take count p)
          (drop-append_le count (drop start buf) (take start buf) (rw length-drop (omega arith)))

  front : List ℕ
  front = take start buf ++ take count p

  length-front : start + count ≡ length front
  unfolding front
  length-front = rw (length-append, length-count, length-take) (omega arith)

  copy_at-front : copy_at start p buf ≡ front ++ drop count (drop start buf)
  unfolding front
  copy_at-front =
      copy_at_parts
      ∙ sym (append_assoc (take start buf) (take count p) (drop count (drop start buf)))

  rotated_inner : rotated (start + count) (copy_at start p buf) ≡ turned
  unfolding front
  rotated_inner =
      rw
        (
          copy_at-front,
          drop-append_eq _ front (drop count (drop start buf)) length-front,
          take-append_eq _ front (drop count (drop start buf)) length-front,
        )
        (sym (append_assoc (drop count (drop start buf)) (take start buf) (take count p)))

  rotated_end : start + count ≡ length buf → rotated 0 (copy_at start p buf) ≡ turned
  unfolding front
  rotated_end h = append-nil (copy_at start p buf) ∙ copy_at-front ∙ rw gone (append-nil front)
    where
      gone : drop count (drop start buf) ≡ []
      gone = drop-drop count start buf ∙ drop_of_length-le (start + count) buf (omega arith)

  pub rotated-copy_at :
      rotated ((start + count) % length buf) (copy_at start p buf)
      ≡ drop count (rotated start buf ++ take count p)
  rotated-copy_at = elim (dec_lt (start + count) (length buf)) [
    | yes h ↦ rw (mod-eq_of_lt h, drop-rotated) rotated_inner
    | no h ↦
        let e : start + count ≡ length buf = omega arith in
        let z : (start + count) % length buf ≡ 0 = rw e (mod_self (length buf)) in
        rw (z, drop-rotated) (rotated_end e)
  ]

-- What a round leaves to do gives, in the end, what one copy of all of `q` would.
drop_rounds :
    (c : ℕ) (r q : List ℕ)
    → c ≤ length r
    → c ≤ length q
    → drop (length (drop c q)) (drop c (r ++ take c q) ++ drop c q) ≡ drop (length q) (r ++ q)
drop_rounds c r q h k =
    ap (drop (length (drop c q))) (
      sym (drop-append_le c (r ++ take c q) (drop c q) below)
      ∙ ap (drop c)
          (append_assoc r (take c q) (drop c q) ∙ ap (λ t. r ++ t) (take-append-drop c q)))
    ∙ drop-drop (length (drop c q)) c (r ++ q)
    ∙ ap (λ n. drop n (r ++ q)) (rw length-drop (omega arith))
  where
    below : c ≤ length (r ++ take c q)
    below = rw length-append (omega arith)

-- The wrapping copy comes to its end, and reads as the ring followed by `p`, less as many bytes
-- at the old end.
pub wrap_copy_lem :
    (fuel limit : ℕ) (buf p : List ℕ) (start : ℕ)
    → length buf ≡ limit
    → start < limit
    → length p ≤ fuel
    → (buf' : List ℕ) × (start' : ℕ) × (wrap_copy fuel limit buf start p ≡ some (buf', start'))
      × (length buf' ≡ limit)
      × (start' < limit)
      × (rotated start' buf' ≡ drop (length p) (rotated start buf ++ p))
unfolding wrap_copy
wrap_copy_lem fuel limit buf [] start sized inside enough =
    (buf, start, refl, sized, inside, sym (append-nil (rotated start buf)))
wrap_copy_lem zero limit buf (x ∷ p) start sized inside enough = absurd (omega arith)
wrap_copy_lem (suc fuel) limit buf (x ∷ p) start sized inside enough =
    let q : List ℕ = x ∷ p in
    let c : ℕ = count buf q start inside' in
    let (buf', start', run, len, lt, reads) =
      wrap_copy_lem fuel limit (copy_at start q buf) (drop c q) ((start + c) % limit)
        (length-copy_at buf q start inside' ∙ sized) (mod-lt (start + c) (omega arith))
        (rw length-drop (omega arith)) in
    (
      buf',
      start',
      run,
      len,
      lt,
      reads
          ∙ ap (λ t. drop (length (drop c q)) (t ++ drop c q)) (round_lem c refl)
          ∙ drop_rounds c (rotated start buf) q
              (rw (length-append, length-drop, length-take) (omega arith)) (omega arith),
    )
  where
    inside' : start < length buf
    inside' = omega arith

    round_lem :
        (c : ℕ)
        → c ≡ count buf (x ∷ p) start inside'
        → rotated ((start + c) % limit) (copy_at start (x ∷ p) buf)
          ≡ drop c (rotated start buf ++ take c (x ∷ p))
    round_lem c e = rw (← sized, e) (rotated-copy_at buf (x ∷ p) start inside')
