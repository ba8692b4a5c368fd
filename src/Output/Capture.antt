-- ===== src/Output/Capture.antt =====
-- output.go: a `CappedBuffer` after any sequence of writes, against the stream that was written.
use remote_cli.Common.{
  ℕ, ◌+◌, ◌-◌, ◌≤◌, ◌≡◌, ◌≢◌, refl, sym, ap, ◌∙◌, inl, inr, Bool, true, false, some, List, [], ◌∷◌,
  ◌++◌, append-nil, append_assoc, arith, length, take, drop, ltb, leb, length-append, length-take,
  Bool-cases, subst, leb→le, leb→lt, take_of_length-le, drop_of_length-le, if◌then◌else◌, ◌==◌,
  ==_iff, take-nil, ap₂, not, ◌||◌, min,
}
use remote_cli.Common.Int.{ℤ, pos, negsuc}
use remote_cli.Output.{
  CappedBuffer, new_capped_buffer, write, write_head, bytes, truncated, write_all,
}
use native.Mathlib.Decide.{ℕ_discrete}
use remote_cli.Output.Ring.{rotated}
use remote_cli.Output.Stream.{kept, Stored, Holds, SameShape, joined}
use remote_cli.Output.Refine.{Wrote, write_head_lem, write_large, write_full, write_part}

-- Tail mode with room: one of the three cases.
tail_cases :
    (b : CappedBuffer) (s p : List ℕ) (some_room : b.limit ≢ 0)
    → Stored true b.full b.limit b.start b.buf s
    → Wrote b s p some_room
tail_cases b s p some_room st = elim (Bool-cases (leb b.limit (length p))) [
  | inl large ↦ write_large b s p some_room (leb→le _ _ large)
  | inr small ↦ elim (Bool-cases b.full) [
    | inl full ↦
        write_full b s p some_room (leb→lt _ _ small) full
          (subst (λ f. Stored true f b.limit b.start b.buf s) full st)
    | inr part ↦
        write_part b s p some_room (leb→lt _ _ small) part
          (subst (λ f. Stored true f b.limit b.start b.buf s) part st)
  ]
]

-- Head mode changes `buf` and nothing else.
head_fields :
    (b : CappedBuffer) (p : List ℕ)
    → ((write_head b p).limit ≡ b.limit)
      × ((write_head b p).tail ≡ b.tail)
      × ((write_head b p).total ≡ b.total)
unfolding write_head
head_fields b p = ground arith

-- At limit 0 nothing is to be kept.
Stored-zero :
    (tail full : Bool) (limit start : ℕ) (buf s p : List ℕ)
    → limit ≡ 0
    → Stored tail full limit start buf s
    → Stored tail full limit start buf (s ++ p)
Stored-zero false full limit start buf s p e h =
    h ∙ ap (λ n. take n s) e ∙ sym (ap (λ n. take n (s ++ p)) e)
Stored-zero true false limit start buf s p e (origin, h, fits) =
    (origin, h ∙ ap (λ n. take n s) e ∙ sym (ap (λ n. take n (s ++ p)) e), inl e)
Stored-zero true true limit start buf s p e (inside, _, _, _) = absurd (omega arith)

-- What a write does to the record of the stream.
abbrev Kept : CappedBuffer → List ℕ → List ℕ → Type 0
Kept b s p = (b' : CappedBuffer) × (write b p ≡ some b') × SameShape b b' × Holds b' (s ++ p)

module _ (b : CappedBuffer) (s p : List ℕ) (h : Holds b s) where
  abbrev counting : CappedBuffer
  counting = record b { total = b.total + length p }

  counted' : b.total + length p ≡ length (s ++ p)
  counted' = omega (arith, h.counted, length-append {0} s p)

  zero_Kept : b.limit ≡ 0 → Kept b s p
  unfolding write
  zero_Kept e = (
    counting,
    ground arith,
    record { limit = refl; tail = refl },
    record {
      counted = counted';
      stored = Stored-zero b.tail b.full b.limit b.start b.buf s p e h.stored;
    },
  )

  head_Kept : b.limit ≢ 0 → b.tail ≡ false → Kept b s p
  unfolding write
  head_Kept some_room mode =
      let (limit, tail, total) = head_fields counting p in
      let b' : CappedBuffer = write_head counting p in
      let held : b.buf ≡ take b.limit s =
        subst (λ m. Stored m b.full b.limit b.start b.buf s) mode h.stored in
      (
        b',
        ground arith,
        record { limit = limit; tail = tail },
        record {
          counted = total ∙ counted';
          stored =
              subst (λ m. Stored m b'.full b'.limit b'.start b'.buf (s ++ p)) (sym (tail ∙ mode))
                (write_head_lem counting s p held ∙ ap (λ n. take n (s ++ p)) (sym limit));
        },
      )

  tail_Kept : b.limit ≢ 0 → b.tail ≡ true → Kept b s p
  unfolding write
  tail_Kept some_room mode =
      let (b', ran, total, limit, tail, now) =
        tail_cases counting s p some_room
          (subst (λ m. Stored m b.full b.limit b.start b.buf s) mode h.stored) in
      (
        b',
        ground (arith, ran),
        record { limit = limit; tail = tail },
        record {
          counted = total ∙ counted';
          stored =
              subst (λ m. Stored m b'.full b'.limit b'.start b'.buf (s ++ p)) (sym (tail ∙ mode))
                now;
        },
      )

  -- Every write succeeds, and what the buffer stands for grows by the bytes written.
  pub write-Holds : Kept b s p
  write-Holds = elim (ℕ_discrete b.limit 0) [
    | yes e ↦ zero_Kept e
    | no some_room ↦ elim (Bool-cases b.tail) [
      | inl mode ↦ tail_Kept some_room mode
      | inr mode ↦ head_Kept some_room mode
    ]
  ]

write_all-Holds :
    (b : CappedBuffer) (s : List ℕ) (ps : List (List ℕ))
    → Holds b s
    → (b' : CappedBuffer) × (write_all b ps ≡ some b') × SameShape b b' × Holds b' (s ++ joined ps)
unfolding write_all
write_all-Holds b s [] h =
    (b, refl, record { limit = refl; tail = refl }, subst (Holds b) (sym (append-nil s)) h)
write_all-Holds b s (p ∷ ps) h =
    let (b1, ran, shape, h1) = write-Holds b s p h in
    let (b2, ran2, shape2, h2) = write_all-Holds b1 (s ++ p) ps h1 in
    (
      b2,
      ran' b1 b2 ran ran2,
      record { limit = shape2.limit ∙ shape.limit; tail = shape2.tail ∙ shape.tail },
      subst (Holds b2) (append_assoc s p (joined ps)) h2,
    )
  where
    ran' :
        (b1 b2 : CappedBuffer)
        → write b p ≡ some b1
        → write_all b1 ps ≡ some b2
        → write_all b (p ∷ ps) ≡ some b2
    ran' b1 b2 e e2 = rw (e, write_all) e2

-- Reading the fields back gives what was to be kept.
reading :
    (tail full : Bool) (limit start : ℕ) (buf s : List ℕ)
    → Stored tail full limit start buf s
    → (if not tail || not full || start == 0 then buf else rotated start buf) ≡ kept tail limit s
reading false full limit start buf s h = h
reading true false limit start buf s (_, h, inl e) =
    h ∙ ap (λ n. take n s) e ∙ sym (drop_of_length-le (length s - limit) s (omega arith))
reading true false limit start buf s (_, h, inr fits) =
    h ∙ take_of_length-le limit s fits ∙ ap (λ n. drop n s) {x = 0} (omega arith)
reading true true limit start buf s (inside, sized, long, h) = elim (Bool-cases (start == 0)) [
  | inl e ↦
      let z : start ≡ 0 = (==_iff start 0).0 e in
      rw e (sym (append-nil buf) ∙ ap (λ n. rotated n buf) (sym z) ∙ h)
  | inr e ↦ rw e h
]

length-Stored :
    (tail full : Bool) (limit start : ℕ) (buf s : List ℕ)
    → Stored tail full limit start buf s
    → length buf ≡ min limit (length s)
length-Stored false full limit start buf s h = ap (λ l. length l) h ∙ length-take limit s
length-Stored true false limit start buf s (_, h, _) = ap (λ l. length l) h ∙ length-take limit s
length-Stored true true limit start buf s (_, sized, long, _) = omega arith

module _ (b : CappedBuffer) (s : List ℕ) (h : Holds b s) where
  pub bytes-kept : bytes b ≡ kept b.tail b.limit s
  unfolding bytes
  bytes-kept = reading b.tail b.full b.limit b.start b.buf s h.stored

  pub truncated_iff : truncated b ≡ ltb b.limit (length s)
  unfolding truncated
  truncated_iff =
      ground (arith, h.counted, length-Stored b.tail b.full b.limit b.start b.buf s h.stored)

  -- Memory stays within the limit.
  pub length-buf : length b.buf ≤ b.limit
  length-buf = omega (arith, length-Stored b.tail b.full b.limit b.start b.buf s h.stored)

-- The natural number that a Go limit stands for.
abbrev pub clamped : ℤ → ℕ
clamped (pos n) = n
clamped (negsuc n) = 0

new-Holds : (limit : ℤ) (tail : Bool) → Holds (new_capped_buffer limit tail) []
unfolding new_capped_buffer
new-Holds (pos n) true = record {
  counted = refl;
  stored = (refl, sym (take-nil n), inr (omega arith));
}
new-Holds (pos n) false = record { counted = refl; stored = sym (take-nil n) }
new-Holds (negsuc n) true = record { counted = refl; stored = (refl, refl, inl refl) }
new-Holds (negsuc n) false = record { counted = refl; stored = refl }

new_fields :
    (limit : ℤ) (tail : Bool)
    → ((new_capped_buffer limit tail).limit ≡ clamped limit)
      × ((new_capped_buffer limit tail).tail ≡ tail)
unfolding new_capped_buffer
new_fields (pos n) tail = (refl, refl)
new_fields (negsuc n) tail = (refl, refl)

-- Whatever a command writes, in pieces of any size, a new buffer takes every write (the wrapping
-- copy always ends), never holds more than its limit, and returns exactly the first `limit` bytes
-- of the whole stream in head mode and the last `limit` bytes in tail mode; it reports truncation
-- exactly if the stream was longer than the limit, and its byte count is the stream's length. A
-- negative limit counts as 0.
pub capture_correct :
    (limit : ℤ) (tail : Bool) (ps : List (List ℕ))
    → (b : CappedBuffer) × (write_all (new_capped_buffer limit tail) ps ≡ some b)
      × (bytes b ≡ kept tail (clamped limit) (joined ps))
      × (truncated b ≡ ltb (clamped limit) (length (joined ps)))
      × (b.total ≡ length (joined ps))
      × (length b.buf ≤ clamped limit)
capture_correct limit tail ps =
    let (b, ran, shape, h) =
      write_all-Holds (new_capped_buffer limit tail) [] ps (new-Holds limit tail) in
    let (lim, mode) = new_fields limit tail in
    let size : b.limit ≡ clamped limit = shape.limit ∙ lim in
    (
      b,
      ran,
      bytes-kept b (joined ps) h ∙ ap₂ (λ m n. kept m n (joined ps)) (shape.tail ∙ mode) size,
      truncated_iff b (joined ps) h ∙ ap (λ n. ltb n (length (joined ps))) size,
      h.counted,
      omega (arith, length-buf b (joined ps) h, size),
    )
