-- ===== src/Encoding.antt =====
-- fileops.go: finding the encoding of a file's bytes, and reading them as text. The coders of
-- golang.org/x/text are an interface; unicode/utf8 is written out, as far as it is used.
pub mod Ascii
pub mod TextInfo
use text.Mathlib.Text.{◌==◌ as str_eq}
use remote_cli.Common.{
  ℕ, zero, suc, ◌+◌, ◌-◌, ◌*◌, min, Bool, true, false, not, ◌&&◌, ◌||◌, Option, none, some, List,
  [], ◌∷◌, ◌++◌, String, if◌then◌else◌, length, leb, ltb, ◌==◌, take, drop, get_or,
}
use remote_cli.Reading.{slices, ends_line}
use remote_cli.Truncate.{rune_start}

-- `bytes` is the text, or the coder failed.
pub record Coders : Type 0 where
  pub from_gbk : List ℕ → Option (List ℕ)
  pub from_gb18030 : List ℕ → Option (List ℕ)
  pub to_gbk : List ℕ → Option (List ℕ)
  pub to_gb18030 : List ℕ → Option (List ℕ)

-- A name of an encoding, once its blanks and capitals are gone.
unfoldable pub keeps_bytes : String → Bool
keeps_bytes e = str_eq e "" || str_eq e "utf-8" || str_eq e "utf8" || str_eq e "unknown"

unfoldable pub is_gbk : String → Bool
is_gbk e = str_eq e "gbk" || str_eq e "gb2312"

unfoldable pub is_gb18030 : String → Bool
is_gb18030 e = str_eq e "gb18030"

-- `isGBFamily`
unfoldable pub is_gb_family : String → Bool
is_gb_family e = is_gbk e || is_gb18030 e

-- `decodeToUTF8` and `encodeFromUTF8`
unfoldable pub decode_to_utf8 : Coders → List ℕ → String → Option (List ℕ)
decode_to_utf8 coders s e =
    if keeps_bytes e
    then some s
    else if is_gbk e
    then coders.from_gbk s
    else if is_gb18030 e
    then coders.from_gb18030 s
    else none

unfoldable pub encode_from_utf8 : Coders → List ℕ → String → Option (List ℕ)
encode_from_utf8 coders s e =
    if keeps_bytes e
    then some s
    else if is_gbk e
    then coders.to_gbk s
    else if is_gb18030 e
    then coders.to_gb18030 s
    else none

-- `isASCII`
unfoldable pub is_ascii : List ℕ → Bool
is_ascii [] = true
is_ascii (c ∷ s) = if leb 0x80 c then false else is_ascii s

-- The bytes of a character that starts with `c`, or 1 where none does.
unfoldable pub rune_size : ℕ → ℕ
rune_size c =
    if leb 0xc2 c && leb c 0xdf
    then 2
    else if leb 0xe0 c && leb c 0xef
    then 3
    else if leb 0xf0 c && leb c 0xf4
    then 4
    else 1

unfoldable pub continues : ℕ → Bool
continues c = leb 0x80 c && leb c 0xbf

-- Whether `d` may come second after `c`.
unfoldable pub accepts : ℕ → ℕ → Bool
accepts c d =
    continues d
    && not (c == 0xe0 && ltb d 0xa0)
    && not (c == 0xed && ltb 0x9f d)
    && not (c == 0xf0 && ltb d 0x90)
    && not (c == 0xf4 && ltb 0x8f d)

-- The size that `utf8.DecodeRune` gives, and 0 where it gives `RuneError` and 1.
unfoldable pub decode_rune : ℕ → List ℕ → ℕ
decode_rune c s =
    if ltb c 0x80
    then 1
    else if rune_size c == 2 && leb 1 (length s) && accepts c (get_or s 0 0)
    then 2
    else if rune_size c == 3
        && leb 2 (length s)
        && accepts c (get_or s 0 0)
        && continues (get_or s 1 0)
    then 3
    else if rune_size c == 4
        && leb 3 (length s)
        && accepts c (get_or s 0 0)
        && continues (get_or s 1 0)
        && continues (get_or s 2 0)
    then 4
    else 0

-- `utf8.FullRune`, of `c` and what follows it.
unfoldable pub full_rune : ℕ → List ℕ → Bool
full_rune c s =
    leb (rune_size c) (length s + 1)
    || (leb 1 (length s) && not (accepts c (get_or s 0 0)))
    || (leb 2 (length s) && not (continues (get_or s 1 0)))

-- The counts of characters of several bytes and of invalid bytes.
pub record Counts : Type 0 where
  pub good : ℕ
  pub bad : ℕ

-- `utf8Sequences`; `skip` bytes belong to the last character.
unfoldable pub sequences_from : ℕ → List ℕ → Counts
sequences_from skip [] = record { good = 0; bad = 0 }
sequences_from (suc skip) (c ∷ s) = sequences_from skip s
sequences_from zero (c ∷ s) =
    let size = decode_rune c s in
    let rest = sequences_from (size - 1) s in
    record {
      good = (if ltb 1 size then 1 else 0) + rest.good;
      bad = (if size == 0 then 1 else 0) + rest.bad;
    }

unfoldable pub utf8_sequences : List ℕ → Counts
utf8_sequences s = sequences_from 0 s

-- `utf8.Valid`
unfoldable pub valid_utf8 : List ℕ → Bool
valid_utf8 s = (utf8_sequences s).bad == 0

-- `multiByteRunes`
unfoldable pub multi_byte_runes : List ℕ → ℕ
multi_byte_runes s = (utf8_sequences s).good

-- `gbkPairs`; `skip` is whether the next byte ends a pair.
unfoldable pub is_lead : ℕ → Bool
is_lead b = leb 0x81 b && leb b 0xfe

unfoldable pub is_trail : ℕ → Bool
is_trail t = leb 0x40 t && leb t 0xfe && not (t == 0x7f)

unfoldable pub pairs_from : Bool → List ℕ → Counts
pairs_from skip [] = record { good = 0; bad = 0 }
pairs_from true (b ∷ s) = pairs_from false s
pairs_from false (b ∷ s) =
    let pair = is_lead b && leb 1 (length s) && is_trail (get_or s 0 0) in
    let cut = is_lead b && length s == 0 in
    let rest = pairs_from pair s in
    record {
      good = (if pair then 1 else 0) + rest.good;
      bad = (if leb 0x80 b && not pair && not cut then 1 else 0) + rest.bad;
    }

unfoldable pub gbk_pairs : List ℕ → Counts
gbk_pairs s = pairs_from false s

-- The loops of `utf8Edges`: how many bytes at the start continue a character, at most `left`.
unfoldable pub head_edge : ℕ → List ℕ → ℕ
head_edge zero s = 0
head_edge (suc left) [] = 0
head_edge (suc left) (c ∷ s) = let rest = head_edge left s in if rune_start c then 0 else suc rest

-- The end, from the byte that is `back` bytes before it; `left` bytes are looked at.
unfoldable pub tail_edge : ℕ → List ℕ → ℕ → ℕ → ℕ
tail_edge zero s start back = length s
tail_edge (suc left) s start back =
    let rest = tail_edge left s start (back + 1) in
    let i = length s - back in
    if ltb (length s) (start + back)
    then length s
    else if rune_start (get_or s i 0)
    then (if full_rune (get_or s i 0) (drop (i + 1) s) then length s else i)
    else rest

-- `data[s:e]` for `utf8Edges`
unfoldable pub inside_edges : List ℕ → List ℕ
inside_edges s =
    let start = head_edge 3 s in let end = tail_edge 4 s start 1 in drop start (take end s)

-- `detectEncoding`
unfoldable pub detect_encoding : List ℕ → String
detect_encoding s =
    let t = inside_edges s in
    let u = utf8_sequences t in
    let g = gbk_pairs s in
    if valid_utf8 t
    then "utf-8"
    else if ltb 0 (u.good) && (leb (u.bad * 50) (u.good) || leb (u.bad) (g.bad))
    then "utf-8"
    else if ltb 0 (g.good) && leb (g.bad * 20) (g.good) && ltb (g.bad) (u.bad)
    then "gbk"
    else "unknown"

abbrev pub min_utf8_evidence : ℕ
min_utf8_evidence = 3

unfoldable pub or_bytes : List ℕ → Option (List ℕ) → List ℕ
or_bytes line (some s) = s
or_bytes line none = line

-- `decodeLine`
unfoldable pub decode_line : Coders → List ℕ → String → String → List ℕ
decode_line coders line file_enc forced =
    if not (str_eq forced "")
    then or_bytes line (decode_to_utf8 coders line forced)
    else if is_ascii line
    then line
    else if is_gb_family file_enc
    then (if valid_utf8 line && leb min_utf8_evidence (multi_byte_runes line)
        then line
        else or_bytes line (decode_to_utf8 coders line file_enc))
    else if valid_utf8 line
    then line
    else or_bytes line (decode_to_utf8 coders line (detect_encoding line))

-- A line without its end, and its end: a newline, with a carriage return before it or not.
unfoldable pub line_body : List ℕ → List ℕ
line_body [] = []
line_body (c ∷ []) = if c == b'\n' || c == b'\r' then [] else c ∷ []
line_body (c ∷ d ∷ []) =
    if d == b'\n'
    then (if c == b'\r' then [] else c ∷ [])
    else if d == b'\r'
    then c ∷ []
    else c ∷ d ∷ []
line_body (c ∷ d ∷ e ∷ s) = c ∷ line_body (d ∷ e ∷ s)

unfoldable pub line_end : List ℕ → List ℕ
line_end s = drop (length (line_body s)) s

-- The loop of `decodeText`.
unfoldable pub decode_lines : Coders → String → List (List ℕ) → List ℕ
decode_lines coders file_enc [] = []
decode_lines coders file_enc (l ∷ ls) =
    decode_line coders (line_body l) file_enc "" ++ (line_end l ++ decode_lines coders file_enc ls)

-- `decodeText`
unfoldable pub decode_text : Coders → List ℕ → String → String → Option (List ℕ)
decode_text coders s file_enc forced =
    if not (str_eq forced "")
    then decode_to_utf8 coders s forced
    else if not (is_gb_family file_enc) && valid_utf8 s
    then some s
    else some (decode_lines coders file_enc (slices s))

abbrev pub binary_sniff_len : ℕ
binary_sniff_len = 8000

unfoldable pub has_nul : List ℕ → Bool
has_nul [] = false
has_nul (c ∷ s) = if c == 0 then true else has_nul s

-- `looksBinary`
unfoldable pub looks_binary : List ℕ → Bool
looks_binary s = has_nul (take binary_sniff_len s)
