-- ===== src/Output/Refine.antt =====
-- One write of a `CappedBuffer`, branch by branch, against the stream written so far.
use remote_cli.Common.{
  ℕ, ◌+◌, ◌-◌, ◌≤◌, ◌<◌, ◌≡◌, ◌≢◌, refl, sym, ap, ◌∙◌, inl, inr, true, false, some, List, ◌++◌,
  append-nil, append_assoc, arith, length, take, drop, ltb, if◌then◌else◌, length-append,
  length-take, length-drop, take-append-drop, take_of_length-le, drop_of_length-le, drop-append_le,
  drop-append_ge, drop-drop, Bool-cases, take-append, leb, leb→lt, subst, length-replicate, ap₂,
  ltb→le, leb→le,
}
use remote_cli.Output.{CappedBuffer, copy_at, resliced, write_ring, write_tail, write_head}
use remote_cli.Output.Stream.{Stored}
use remote_cli.Output.Ring.{rotated, wrap_copy_lem}

-- Dropping to the last `limit` bytes again after more bytes came.
drop_again :
    (limit : ℕ) (s p : List ℕ)
    → limit ≤ length s
    → drop (length p) (drop (length s - limit) s ++ p) ≡ drop (length (s ++ p) - limit) (s ++ p)
drop_again limit s p h =
    ap (drop (length p)) (sym (drop-append_le (length s - limit) s p (omega arith)))
    ∙ drop-drop (length p) (length s - limit) (s ++ p)
    ∙ ap (λ n. drop n (s ++ p)) (rw length-append (omega arith))

-- The ring after a wrapping copy.
write_ring_lem :
    (b : CappedBuffer) (p : List ℕ)
    → length b.buf ≡ b.limit
    → b.start < b.limit
    → (buf' : List ℕ) × (start' : ℕ) × (write_ring b p
        ≡ some (record b { buf = buf'; start = start' }))
      × (length buf' ≡ b.limit)
      × (start' < b.limit)
      × (rotated start' buf' ≡ drop (length p) (rotated b.start b.buf ++ p))
unfolding write_ring
write_ring_lem b p sized inside =
    let (buf', start', run, len, lt, reads) =
      wrap_copy_lem (length p) b.limit b.buf p b.start sized inside (omega arith) in
    (buf', start', rw (run, write_ring), len, lt, reads)

taken : (room : ℕ) (p : List ℕ) → (if ltb room (length p) then take room p else p) ≡ take room p
taken room p = elim (Bool-cases (ltb room (length p))) [
  | inl more ↦ rw more
  | inr all ↦ rw all (sym (take_of_length-le room p (ltb→le room (length p) all)))
]

pub write_head_lem :
    (b : CappedBuffer) (s p : List ℕ)
    → b.buf ≡ take b.limit s
    → (write_head b p).buf ≡ take b.limit (s ++ p)
unfolding write_head
write_head_lem b s p h =
    chosen ∙ ap (λ t. t ++ take (b.limit - length t) p) h ∙ sym (take-append b.limit s p)
  where
    room : ℕ
    room = b.limit - length b.buf

    chosen : (write_head b p).buf ≡ b.buf ++ take room p
    chosen = elim (Bool-cases (ltb 0 room)) [
      | inl some_room ↦ rw (some_room, taken room p)
      | inr no_room ↦
          let e : room ≡ 0 = omega (arith, ltb→le 0 room no_room) in
          rw no_room (sym (ap (λ n. b.buf ++ take n p) e ∙ append-nil b.buf))
    ]

-- A write of `limit` bytes or more leaves nothing of what was there.
overwritten :
    (limit : ℕ) (buf s p : List ℕ)
    → limit ≤ length p
    → copy_at 0 (drop (length p - limit) p) (resliced limit buf)
      ≡ drop (length (s ++ p) - limit) (s ++ p)
unfolding copy_at resliced
overwritten limit buf s p h =
    ap₂ ◌++◌
      (take_of_length-le (length (resliced limit buf) - 0) last
        (omega (arith, length-last, length-resliced)))
      (drop_of_length-le _ (resliced limit buf) (omega (arith, length-last, length-resliced)))
    ∙ append-nil last
    ∙ ap (λ n. drop n p) (omega (arith, length-append {0} s p))
    ∙ sym (drop-append_ge (length (s ++ p) - limit) s p (omega (arith, length-append {0} s p)))
  where
    last : List ℕ
    last = drop (length p - limit) p

    length-last : length last ≡ limit
    length-last = length-drop (length p - limit) p ∙ omega arith

    length-resliced : length (resliced limit buf) ≡ limit
    length-resliced = rw (length-take, length-append, length-replicate) (omega arith)

-- One write in tail mode, case by case as the code branches.
module _ (b : CappedBuffer) (s p : List ℕ) (some_room : b.limit ≢ 0) where
  abbrev pub Wrote : Type 0
  Wrote =
      (b' : CappedBuffer) × (write_tail b p ≡ some b')
      × (b'.total ≡ b.total)
      × (b'.limit ≡ b.limit)
      × (b'.tail ≡ b.tail)
      × Stored true b'.full b'.limit b'.start b'.buf (s ++ p)

  length-both : length (s ++ p) ≡ length s + length p
  length-both = length-append s p

  -- What the wrapping copy leaves, where the ring reads as the last `limit` bytes of `t`.
  wrapped :
      (c : CappedBuffer) (t q : List ℕ)
      → t ++ q ≡ s ++ p
      → write_tail b p ≡ write_ring c q
      → c.total ≡ b.total
      → c.limit ≡ b.limit
      → c.tail ≡ b.tail
      → c.full ≡ true
      → Stored true true c.limit c.start c.buf t
      → Wrote
  wrapped c t q parts run total limit mode full (inside, sized, long, reads) =
      let (buf', start', ran, len, lt, turned) = write_ring_lem c q sized inside in
      let now : Stored true true c.limit start' buf' (s ++ p) = (
        lt,
        len,
        omega (arith, ap (λ l. length l) parts, length-append {0} t q),
        turned
            ∙ ap (λ r. drop (length q) (r ++ q)) reads
            ∙ drop_again c.limit t q long
            ∙ ap (λ l. drop (length l - c.limit) l) parts,
      ) in
      (
        record c { buf = buf'; start = start' },
        run ∙ ran,
        total,
        limit,
        mode,
        subst (λ f. Stored true f c.limit start' buf' (s ++ p)) (sym full) now,
      )

  pub write_large : b.limit ≤ length p → Wrote
  unfolding write_tail
  write_large h = (
    record b {
      buf = copy_at 0 (drop (length p - b.limit) p) (resliced b.limit b.buf);
      start = 0;
      full = true;
    },
    ground arith,
    refl,
    refl,
    refl,
    (
      omega arith,
      length-overwritten,
      omega (arith, length-both),
      append-nil _ ∙ overwritten b.limit b.buf s p h,
    ),
  )
    where
      length-overwritten :
          length (copy_at 0 (drop (length p - b.limit) p) (resliced b.limit b.buf)) ≡ b.limit
      length-overwritten =
          ap (λ l. length l) (overwritten b.limit b.buf s p h)
          ∙ length-drop (length (s ++ p) - b.limit) (s ++ p)
          ∙ omega (arith, length-both)

  pub write_full :
      length p < b.limit → b.full ≡ true → Stored true true b.limit b.start b.buf s → Wrote
  unfolding write_tail
  write_full h full st = wrapped b s p refl (ground arith) refl refl refl full st

  -- Growing to the full ring: `fill` more bytes complete it, and the rest of `p` wraps.
  write_grow :
      length p < b.limit
      → length s ≤ b.limit
      → b.limit < length s + length p
      → b.full ≡ false
      → b.buf ≡ s
      → Wrote
  unfolding write_tail
  write_grow h below over part held =
      let fill : ℕ = b.limit - length b.buf in
      let sized : length (b.buf ++ take fill p) ≡ b.limit =
        length-append b.buf (take fill p)
        ∙ omega (arith, length-take fill p, ap (λ l. length l) held) in
      wrapped (record b { buf = b.buf ++ take fill p; full = true; start = 0 })
        (b.buf ++ take fill p) (drop fill p)
        (append_assoc b.buf (take fill p) (drop fill p) ∙ ap₂ ◌++◌ held (take-append-drop fill p))
        (ground (arith, ap (λ l. length l) held)) refl refl refl refl
        (
          omega arith,
          sized,
          omega (arith, sized),
          append-nil (b.buf ++ take fill p)
              ∙ ap (λ n. drop n (b.buf ++ take fill p)) {x = 0} (omega (arith, sized)),
        )

  pub write_part :
      length p < b.limit → b.full ≡ false → Stored true false b.limit b.start b.buf s → Wrote
  unfolding write_tail
  write_part h part (origin, held, inr fits) =
      elim (Bool-cases (leb (length b.buf + length p) b.limit)) [
        | inl more ↦ (
          record b { buf = b.buf ++ p },
          ground arith,
          refl,
          refl,
          refl,
          subst (λ f. Stored true f b.limit b.start (b.buf ++ p) (s ++ p)) (sym part)
              (
                origin,
                joined (omega (arith, all, leb→le _ _ more)),
                inr (omega (arith, length-both, all, leb→le _ _ more)),
              ),
        )
        | inr over ↦ write_grow h fits (omega (arith, all, leb→lt _ _ over)) part whole
      ]
    where
      whole : b.buf ≡ s
      whole = held ∙ take_of_length-le b.limit s fits

      all : length b.buf ≡ length s
      all = ap (λ l. length l) whole

      joined : length s + length p ≤ b.limit → b.buf ++ p ≡ take b.limit (s ++ p)
      joined k =
          ap (λ l. l ++ p) whole
          ∙ sym (take_of_length-le b.limit (s ++ p) (omega (arith, length-both)))
  write_part h part (origin, held, inl empty) = absurd (some_room empty)
