-- ===== src/Globs.antt =====
-- globs.go: `compileGlobs`, `globSet.match`, `matchAny` and `globRegexp`. The functions of the
-- packages regexp, strings and filepath that the file calls are an interface, `Patterns`.
pub mod Pieces
use remote_cli.Common.{
  ℕ, ◌+◌, zero, suc, Bool, true, false, not, ◌&&◌, ◌||◌, Option, none, some, List, [], ◌∷◌, ◌++◌,
  if◌then◌else◌, length, ◌==◌, codes,
}
use remote_cli.Sandbox.{has_prefix}

-- What the file calls; `R` is `*regexp.Regexp`.
pub record Patterns (R : Type 0) : Type 0 where
  pub compile : List ℕ → Option R
  pub matches : R → List ℕ → Bool
  pub quote_meta : List ℕ → List ℕ
  pub trim_space : List ℕ → List ℕ
  pub to_slash : List ℕ → List ℕ

pub record GlobSet (R : Type 0) : Type 0 where
  pub name : List R
  pub rel : List R
  pub abs : List R

-- What one turn of the loop of `globRegexp` writes, how many bytes after its own it uses up, and
-- the open braces after it.
pub record Written : Type 0 where
  pub text : List ℕ
  pub skip : ℕ
  pub braces : ℕ

unfoldable pub starts_with : ℕ → List ℕ → Bool
starts_with c [] = false
starts_with c (x ∷ s) = x == c

-- `strings.Contains(p, "/")`
unfoldable pub has_slash : List ℕ → Bool
has_slash [] = false
has_slash (c ∷ s) = c == b'/' || has_slash s

-- `strings.TrimPrefix(p, "./")`
unfoldable pub trim_dot : List ℕ → List ℕ
trim_dot (x ∷ y ∷ s) = if x == b'.' && y == b'/' then s else x ∷ y ∷ s
trim_dot s = s

unfoldable pub with_first : ℕ → Option (List ℕ) → Option (List ℕ)
with_first c none = none
with_first c (some s) = some (c ∷ s)

-- The bytes before the first `]`.
unfoldable pub up_to_bracket : List ℕ → Option (List ℕ)
up_to_bracket [] = none
up_to_bracket (c ∷ s) =
    let more = with_first c (up_to_bracket s) in if c == b']' then some [] else more

-- The bytes of a class, of which a `]` may be the first.
unfoldable pub class_bytes : List ℕ → Option (List ℕ)
class_bytes [] = none
class_bytes (c ∷ s) = if c == b']' then with_first c (up_to_bracket s) else up_to_bracket (c ∷ s)

unfoldable pub escaped : List ℕ → List ℕ
escaped [] = []
escaped (c ∷ s) =
    if c == 92 || c == b'[' || c == b']' || c == b'^' then 92 ∷ c ∷ escaped s else c ∷ escaped s

unfoldable pub class_written : List ℕ → ℕ → ℕ → Option (List ℕ) → Option Written
class_written opening used braces none = none
class_written opening used braces (some s) = some (record {
  text = opening ++ escaped s ++ codes "]";
  skip = used + length s + 1;
  braces = braces;
})

unfoldable pub write_class : List ℕ → ℕ → Option Written
write_class [] braces = none
write_class (c ∷ s) braces =
    if c == b'!' || c == b'^'
    then class_written (codes "[^/") 1 braces (class_bytes s)
    else class_written (codes "[") 0 braces (class_bytes (c ∷ s))

unfoldable pub write_star : Bool → List ℕ → ℕ → Written
write_star seg_start [] braces = record { text = codes "[^/]*"; skip = 0; braces = braces }
write_star seg_start (c ∷ s) braces =
    if not (c == b'*')
    then record { text = codes "[^/]*"; skip = 0; braces = braces }
    else if seg_start && starts_with b'/' s
    then record { text = codes "(?:[^/]*/)*"; skip = 2; braces = braces }
    else if seg_start && length s == 0
    then record { text = codes ".*"; skip = 1; braces = braces }
    else record { text = codes "[^/]*"; skip = 1; braces = braces }

unfoldable pub write_close : ℕ → Written
write_close zero = record { text = 92 ∷ codes "}"; skip = 0; braces = 0 }
write_close (suc n) = record { text = codes ")"; skip = 0; braces = n }

unfoldable pub write_comma : ℕ → Written
write_comma zero = record { text = codes ","; skip = 0; braces = 0 }
write_comma (suc n) = record { text = codes "|"; skip = 0; braces = suc n }

unfoldable pub written_before : List ℕ → Option (List ℕ) → Option (List ℕ)
written_before t none = none
written_before t (some s) = some (t ++ s)

unfoldable pub written_after : Option (List ℕ) → Option (List ℕ)
written_after none = none
written_after (some s) = some (s ++ codes "$")

-- An error ends the loop.
unfoldable pub and_then : {A B : Type 0} → Option A → (A → Option B) → Option B
and_then none k = none
and_then (some a) k = k a

module _ {R : Type 0} (patterns : Patterns R) where
  unfoldable pub write_quoted : List ℕ → ℕ → Written
  write_quoted [] braces = record {
    text = patterns.quote_meta (92 ∷ []);
    skip = 0;
    braces = braces;
  }
  write_quoted (c ∷ s) braces = record {
    text = patterns.quote_meta (c ∷ []);
    skip = 1;
    braces = braces;
  }

  -- The switch on the byte `c`, with the bytes after it.
  unfoldable pub write_byte : Bool → ℕ → List ℕ → ℕ → Option Written
  write_byte seg_start c s braces =
      if c == b'*'
      then some (write_star seg_start s braces)
      else if c == b'?'
      then some (record { text = codes "[^/]"; skip = 0; braces = braces })
      else if c == b'['
      then write_class s braces
      else if c == b'{'
      then some (record { text = codes "(?:"; skip = 0; braces = suc braces })
      else if c == b'}'
      then some (write_close braces)
      else if c == b','
      then some (write_comma braces)
      else if c == 92
      then some (write_quoted s braces)
      else some (record { text = patterns.quote_meta (c ∷ []); skip = 0; braces = braces })

  -- The loop, with the number of bytes that it still jumps over.
  unfoldable pub glob_body : ℕ → Bool → ℕ → List ℕ → Option (List ℕ)
  glob_body skip seg_start zero [] = some []
  glob_body skip seg_start (suc n) [] = none
  glob_body (suc k) seg_start braces (c ∷ s) = glob_body k (c == b'/') braces s
  glob_body zero seg_start braces (c ∷ s) =
      and_then (write_byte seg_start c s braces)
        (λ w. written_before (w.text) (glob_body (w.skip) (c == b'/') (w.braces) s))

  -- `globRegexp`
  unfoldable pub glob_text : List ℕ → Bool → Option (List ℕ)
  glob_text p ignore_case =
      written_before (if ignore_case then codes "(?i)^" else codes "^")
        (written_after (glob_body 0 true 0 p))

  -- `strings.TrimPrefix(filepath.ToSlash(strings.TrimSpace(p)), "./")`
  unfoldable pub pattern_of : List ℕ → List ℕ
  pattern_of p = trim_dot (patterns.to_slash (patterns.trim_space p))

  unfoldable pub compiled : Option (List ℕ) → Option R
  compiled none = none
  compiled (some t) = patterns.compile t

  unfoldable pub glob_regexp : List ℕ → Bool → Option R
  glob_regexp p ignore_case = compiled (glob_text p ignore_case)

  unfoldable pub add_glob : GlobSet R → List ℕ → R → GlobSet R
  add_glob g p re =
      if has_prefix (codes "/") p
      then record g { abs = g.abs ++ re ∷ [] }
      else if has_slash p
      then record g { rel = g.rel ++ re ∷ [] }
      else record g { name = g.name ++ re ∷ [] }

  -- The loop of `compileGlobs`.
  unfoldable pub add_globs : GlobSet R → List (List ℕ) → Bool → Option (GlobSet R)
  add_globs g [] ignore_case = some g
  add_globs g (p ∷ ps) ignore_case =
      let rest = add_globs g ps ignore_case in
      let more =
        and_then (glob_regexp (pattern_of p) ignore_case)
          (λ re. add_globs (add_glob g (pattern_of p) re) ps ignore_case) in
      if length (pattern_of p) == 0 then rest else more

  unfoldable pub or_nil : Option (GlobSet R) → Option (Option (GlobSet R))
  or_nil none = none
  or_nil (some g) =
      if length (g.name) + length (g.rel) + length (g.abs) == 0 then some none else some (some g)

  -- `compileGlobs`: `none` is the error, `some none` the nil set.
  unfoldable pub compile_globs : List (List ℕ) → Bool → Option (Option (GlobSet R))
  compile_globs ps ignore_case =
      or_nil (add_globs (record { name = []; rel = []; abs = [] }) ps ignore_case)

  unfoldable pub any_matches : List R → List ℕ → Bool
  any_matches [] s = false
  any_matches (re ∷ res) s = patterns.matches re s || any_matches res s

  -- `globSet.match`
  unfoldable pub match_globs : Option (GlobSet R) → List ℕ → List ℕ → List ℕ → Bool
  match_globs none name rel abs = true
  match_globs (some g) name rel abs =
      any_matches (g.name) name
      || any_matches (g.rel) (patterns.to_slash rel)
      || any_matches (g.abs) (patterns.to_slash abs)

  -- `globSet.matchAny`
  unfoldable pub match_any : Option (GlobSet R) → List ℕ → List ℕ → List ℕ → Bool
  match_any none name rel abs = false
  match_any (some g) name rel abs = match_globs (some g) name rel abs
