-- ===== src/Reading/Paging.antt =====
-- readops.go: reading a file window by window, by `next_offset`.
use remote_cli.Reading.{
  last_newline, end_on_line, clamp_offset, read_cap, byte_window_at, read_byte_window,
}
use remote_cli.Common.{
  ℕ, zero, suc, ◌+◌, ◌-◌, ◌/◌, ◌<◌, ◌≤◌, min, Bool, true, false, Option, none, some, List, [], ◌++◌,
  length, leb, ltb, take, drop, length-take, length-drop, take-append-drop, drop-drop,
  drop-append_eq, drop_of_length-le, length-append, append_assoc, append-nil, ◌≡◌, refl, sym, ap,
  ◌∙◌, ◌⊎◌, inl, inr, Bool-cases, Option-cases, ltb→lt, ltb→le, arith,
}
use remote_cli.Common.Int.{ℤ, pos, negsuc}

-- A cut to whole lines is a part from the start.
end_on_line_rest : (s : List ℕ) → (rest : List ℕ) × (s ≡ end_on_line s ++ rest)
unfolding end_on_line
end_on_line_rest s = elim (Option-cases (last_newline s)) [
  | inl e ↦ ([], rw (e, end_on_line) (sym (append-nil s)))
  | inr (i, e) ↦ elim (Bool-cases (leb (length s / 2) i)) [
    | inl l ↦ (drop (i + 1) s, rw (e, end_on_line, l) (sym (take-append-drop (i + 1) s)))
    | inr l ↦ ([], rw (e, end_on_line, l) (sym (append-nil s)))
  ]
]

-- It is not empty.
length-end_on_line : (s : List ℕ) → 0 < length s → 0 < length (end_on_line s)
unfolding end_on_line
length-end_on_line s h = elim (Option-cases (last_newline s)) [
  | inl e ↦ rw (e, end_on_line) h
  | inr (i, e) ↦ elim (Bool-cases (leb (length s / 2) i)) [
    | inl l ↦ rw (e, end_on_line, l) (omega (arith, length-take {0} (i + 1) s, h))
    | inr l ↦ rw (e, end_on_line, l) h
  ]
]

pub prefix_rest : (b rest whole : List ℕ) → whole ≡ b ++ rest → b ++ drop (length b) whole ≡ whole
prefix_rest b rest whole e =
    rw e (ap (λ (t : List ℕ). b ++ t) (drop-append_eq (length b) b rest refl))

-- The bytes of a window, and the rest of the file behind its offset.
bytes_rest :
    (content : List ℕ) (offset m : ℕ)
    → (rest : List ℕ) × (drop offset content ≡ (byte_window_at content offset m).bytes ++ rest)
unfolding byte_window_at
bytes_rest content offset m =
    let piece = take m (drop offset content) in
    elim (Bool-cases (ltb (offset + length piece) (length content))) [
      | inr e ↦
          (drop m (drop offset content), rw e (sym (take-append-drop m (drop offset content))))
      | inl e ↦
          let (rest, cut) = end_on_line_rest piece in
          (
            rest ++ drop m (drop offset content),
            rw e (
                sym (take-append-drop m (drop offset content))
                ∙ ap (λ (t : List ℕ). t ++ drop m (drop offset content)) cut
                ∙ append_assoc (end_on_line piece) rest (drop m (drop offset content))),
          )
    ]

-- What a window leaves of the rest of the file.
window_rest :
    (content : List ℕ) (offset m : ℕ)
    → (byte_window_at content offset m).bytes
        ++ drop (offset + length ((byte_window_at content offset m).bytes)) content
      ≡ drop offset content
window_rest content offset m =
    let (rest, e) = bytes_rest content offset m in
    let b = (byte_window_at content offset m).bytes in
    ap (λ (t : List ℕ). b ++ t) (sym (drop-drop (length b) offset content))
    ∙ prefix_rest b rest (drop offset content) e

-- A window that leaves something is not empty; else it reaches the end.
window_ends :
    (content : List ℕ) (offset m : ℕ)
    → 0 < m
    → (((byte_window_at content offset m).more ≡ true)
        × (0 < length ((byte_window_at content offset m).bytes))
        × (offset < length content))
      ⊎ (((byte_window_at content offset m).more ≡ false)
          × (length content ≤ offset + length ((byte_window_at content offset m).bytes)))
unfolding byte_window_at
window_ends content offset m h =
    let piece = take m (drop offset content) in
    let read = length-take {0} m (drop offset content) in
    let left = length-drop {0} offset content in
    elim (Bool-cases (ltb (offset + length piece) (length content))) [
      | inl e ↦
          let behind = ltb→lt _ _ e in
          inl (
            e,
            rw e (length-end_on_line piece (omega (arith, read, left, behind, h))),
            omega (arith, behind),
          )
      | inr e ↦ inr (e, rw e (ltb→le _ _ e))
    ]

unfoldable pub joined : Bool → List ℕ → Option (List ℕ) → Option (List ℕ)
joined false bytes rest = some bytes
joined true bytes (some rest) = some (bytes ++ rest)
joined true bytes none = none

-- A client that asks, from an offset on, for the window at `next_offset` as long as there is one,
-- for at most `calls` calls.
abbrev pub pages : ℕ → List ℕ → ℤ → ℕ → Option (List ℕ)
pages zero content max_bytes offset = none
pages (suc calls) content max_bytes offset =
    let w = read_byte_window content (pos offset) (read_cap max_bytes) in
    let rest = pages calls content max_bytes (w.offset + length (w.bytes)) in
    joined (w.more) (w.bytes) rest

read_byte_window-pos :
    (content : List ℕ) (offset m : ℕ)
    → offset ≤ length content
    → read_byte_window content (pos offset) m ≡ byte_window_at content offset m
unfolding read_byte_window clamp_offset
read_byte_window-pos content offset m h =
    ap (λ (n : ℕ). byte_window_at content n m) {x = min offset (length content)} (omega (arith, h))

read_cap-positive : (n : ℤ) → 0 < read_cap n
unfolding read_cap
read_cap-positive (pos zero) = omega arith
read_cap-positive (pos (suc n)) = omega arith
read_cap-positive (negsuc n) = omega arith

next_inside :
    (content : List ℕ) (offset m : ℕ)
    → offset ≤ length content
    → offset + length ((byte_window_at content offset m).bytes) ≤ length content
next_inside content offset m h =
    let (rest, e) = bytes_rest content offset m in
    omega (
      arith,
      h,
      ap length e,
      length-drop {0} offset content,
      length-append {0} ((byte_window_at content offset m).bytes) rest,
    )

window_offset :
    (content : List ℕ) (offset m : ℕ) → (byte_window_at content offset m).offset ≡ offset
unfolding byte_window_at
window_offset content offset m = refl

pages_from :
    (calls : ℕ) (content : List ℕ) (max_bytes : ℤ) (offset : ℕ)
    → offset ≤ length content
    → length content - offset < calls
    → pages calls content max_bytes offset ≡ some (drop offset content)
unfolding joined
pages_from zero content max_bytes offset h k = absurd (omega arith)
pages_from (suc calls) content max_bytes offset h k =
    let m = read_cap max_bytes in
    rw (read_byte_window-pos content offset m h)
      (elim (window_ends content offset m (read_cap-positive max_bytes)) [
        | inl (e, some_bytes, behind) ↦
            rw
              (
                e,
                window_offset content offset m,
                pages_from calls content max_bytes
                    (offset + length ((byte_window_at content offset m).bytes))
                    (next_inside content offset m h) (omega (arith, some_bytes, behind, k)),
              )
              (ap (λ (t : List ℕ). some t) (window_rest content offset m))
        | inr (e, all) ↦ rw e (
            ap (λ (t : List ℕ). some t)
              (sym (append-nil ((byte_window_at content offset m).bytes))
                ∙ ap (λ (t : List ℕ). (byte_window_at content offset m).bytes ++ t)
                    (sym (drop_of_length-le _ content all))
                ∙ window_rest content offset m))
      ])

-- `readByteWindow` called again at the offset where the window before it ended, as long as it says
-- that there is more, gives every byte of the file once and in order, and ends: one call for each
-- byte and one more are enough, for any max_bytes (none or a negative one is the default). The cut of
-- a window to whole lines loses nothing and never makes it empty. The cut to whole characters that
-- `ReadFileContent` makes afterwards, and its test for binary files, are not part of this.
pub pages_whole :
    (content : List ℕ) (max_bytes : ℤ)
    → pages (suc (length content)) content max_bytes 0 ≡ some content
pages_whole content max_bytes =
    pages_from (suc (length content)) content max_bytes 0 (omega arith) (omega arith)
