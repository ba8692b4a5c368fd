-- ===== src/Encoding/Ascii.antt =====
-- fileops.go: ASCII text, whatever encoding it is taken for.
use remote_cli.Encoding.{
  Coders, is_gb_family, is_ascii, decode_rune, sequences_from, utf8_sequences, valid_utf8,
  head_edge, tail_edge, inside_edges, detect_encoding, decode_line, line_body, line_end,
  decode_lines, decode_text,
}
use remote_cli.Reading.{slices, onto_line}
use remote_cli.Reading.Lines.{joined_lines, joined_lines-slices}
use remote_cli.Reading.Paging.{prefix_rest}
use remote_cli.Common.{
  ℕ, zero, suc, ◌<◌, true, false, not, ◌&&◌, ◌||◌, some, List, [], ◌∷◌, ◌++◌, String, leb, ◌==◌,
  take, drop, append_assoc, take-append-drop, ◌≡◌, refl, sym, ap, ◌∙◌, inl, inr, Bool-cases, leb→lt,
  arith,
}
use remote_cli.Common.Sort.{All}

abbrev pub Ascii : List ℕ → Type 0
Ascii = All (λ c. c < 0x80)

pub is_ascii-Ascii : (s : List ℕ) → is_ascii s ≡ true → Ascii s
unfolding is_ascii
is_ascii-Ascii [] h = tt
is_ascii-Ascii (c ∷ s) h = elim (Bool-cases (leb 0x80 c)) [
  | inl e ↦ let no : false ≡ true = rw e at h in absurd (cc)
  | inr e ↦ (leb→lt _ _ e, is_ascii-Ascii s (rw e at h))
]

pub is_ascii-true : (s : List ℕ) → Ascii s → is_ascii s ≡ true
unfolding is_ascii
is_ascii-true [] h = refl
is_ascii-true (c ∷ s) (h, hs) = ground (arith, is_ascii-true s hs)

-- The body of a line is a part from the start.
line_body-take : (s : List ℕ) → (k : ℕ) × (line_body s ≡ take k s)
unfolding line_body
line_body-take [] = (0, refl)
line_body-take (c ∷ []) = elim (Bool-cases (c == b'\n' || c == b'\r')) [
  | inl e ↦ (0, rw e refl)
  | inr e ↦ (1, rw e refl)
]
line_body-take (c ∷ d ∷ []) = elim (Bool-cases (d == b'\n')) [
  | inl e ↦ elim (Bool-cases (c == b'\r')) [
    | inl y ↦ (0, rw (e, y) refl)
    | inr y ↦ (1, rw (e, y) refl)
  ]
  | inr e ↦ elim (Bool-cases (d == b'\r')) [
    | inl y ↦ (1, rw (e, y) refl)
    | inr y ↦ (2, rw (e, y) refl)
  ]
]
line_body-take (c ∷ d ∷ e ∷ s) =
    let (k, h) = line_body-take (d ∷ e ∷ s) in (suc k, ap (λ (t : List ℕ). c ∷ t) h)

line_body_prefix : (s : List ℕ) → line_body s ++ line_end s ≡ s
unfolding line_end
line_body_prefix s =
    let (k, h) = line_body-take s in
    prefix_rest (line_body s) (drop k s) s
      (sym (take-append-drop k s) ∙ ap (λ (t : List ℕ). t ++ drop k s) (sym h))

Ascii-take : (k : ℕ) (s : List ℕ) → Ascii s → Ascii (take k s)
Ascii-take zero s h = tt
Ascii-take (suc k) [] h = tt
Ascii-take (suc k) (c ∷ s) (h, hs) = (h, Ascii-take k s hs)

line_body-Ascii : (s : List ℕ) → Ascii s → Ascii (line_body s)
line_body-Ascii s h = let (k, e) = line_body-take s in rw e (Ascii-take k s h)

onto_line-Ascii :
    (c : ℕ) (ls : List (List ℕ)) → c < 0x80 → All Ascii ls → All Ascii (onto_line c ls)
unfolding onto_line
onto_line-Ascii c [] h hs = ((h, tt), tt)
onto_line-Ascii c (l ∷ ls) h (hl, hs) = ((h, hl), hs)

slices-Ascii : (s : List ℕ) → Ascii s → All Ascii (slices s)
unfolding slices
slices-Ascii [] h = tt
slices-Ascii (c ∷ s) (h, hs) = elim (Bool-cases (c == b'\n')) [
  | inl e ↦ rw e ((h, tt), slices-Ascii s hs)
  | inr e ↦ rw e (onto_line-Ascii c (slices s) h (slices-Ascii s hs))
]

module _ (coders : Coders) (file_enc : String) where
  decode_line-Ascii : (l : List ℕ) → Ascii l → decode_line coders l file_enc "" ≡ l
  unfolding decode_line
  decode_line-Ascii l h = rw (is_ascii-true l h) refl

  decode_lines-Ascii :
      (ls : List (List ℕ)) → All Ascii ls → decode_lines coders file_enc ls ≡ joined_lines ls
  unfolding decode_lines joined_lines
  decode_lines-Ascii [] h = refl
  decode_lines-Ascii (l ∷ ls) (h, hs) =
      rw (decode_line-Ascii (line_body l) (line_body-Ascii l h), decode_lines-Ascii ls hs)
        (sym (append_assoc (line_body l) (line_end l) (joined_lines ls))
          ∙ ap (λ (t : List ℕ). t ++ joined_lines ls) (line_body_prefix l))

  decode_text-Ascii : (s : List ℕ) → is_ascii s ≡ true → decode_text coders s file_enc "" ≡ some s
  unfolding decode_text
  decode_text-Ascii s h =
      let whole =
        decode_lines-Ascii (slices s) (slices-Ascii s (is_ascii-Ascii s h))
        ∙ joined_lines-slices s in
      elim (Bool-cases (not (is_gb_family file_enc) && valid_utf8 s)) [
        | inl e ↦ rw e refl
        | inr e ↦ rw e (ap (λ (t : List ℕ). some t) whole)
      ]

decode_rune-Ascii : (c : ℕ) (s : List ℕ) → c < 0x80 → decode_rune c s ≡ 1
unfolding decode_rune
decode_rune-Ascii c s h = ground arith

utf8_sequences-Ascii : (s : List ℕ) → Ascii s → (sequences_from 0 s).bad ≡ 0
unfolding sequences_from
utf8_sequences-Ascii [] h = refl
utf8_sequences-Ascii (c ∷ s) (h, hs) =
    rw (decode_rune-Ascii c s h) (omega (arith, utf8_sequences-Ascii s hs))

Ascii-drop : (k : ℕ) (s : List ℕ) → Ascii s → Ascii (drop k s)
Ascii-drop zero s h = h
Ascii-drop (suc k) [] h = tt
Ascii-drop (suc k) (c ∷ s) (h, hs) = Ascii-drop k s hs

detect_encoding-Ascii : (s : List ℕ) → is_ascii s ≡ true → detect_encoding s ≡ "utf-8"
unfolding detect_encoding inside_edges valid_utf8 utf8_sequences
detect_encoding-Ascii s h =
    let a = is_ascii-Ascii s h in
    let start = head_edge 3 s in
    let end = tail_edge 4 s start 1 in
    let t = drop start (take end s) in
    let good : (sequences_from 0 t).bad ≡ 0 =
      utf8_sequences-Ascii t (Ascii-drop start (take end s) (Ascii-take end s a)) in
    rw good refl

-- ASCII bytes are found to be UTF-8, and read as themselves, line ends and all, whatever encoding
-- their file was found to have and whatever the coders do, as long as the caller forces none.
pub ascii_as_is :
    (coders : Coders) (file_enc : String) (s : List ℕ)
    → is_ascii s ≡ true
    → (detect_encoding s ≡ "utf-8") × (decode_text coders s file_enc "" ≡ some s)
ascii_as_is coders file_enc s h = (detect_encoding-Ascii s h, decode_text-Ascii coders file_enc s h)
