-- ===== src/Tests/Matches.antt =====
-- Globs over expressions that are compared as texts.
use remote_cli.Globs.{
  Patterns, GlobSet, glob_text, compile_globs, starts_with, has_slash, trim_dot, with_first,
  up_to_bracket, class_bytes, escaped, class_written, write_class, write_star, write_close,
  write_comma, written_before, written_after, and_then, write_quoted, write_byte, glob_body,
  pattern_of, compiled, glob_regexp, add_glob, add_globs, or_nil,
}
use remote_cli.Globs.Pieces.{Piece, plain, one, many, directories}
use remote_cli.Sandbox.{has_prefix}
use remote_cli.Common.{ℕ, false, some, none, List, [], ◌∷◌, ◌++◌, codes, bytes_eq, ◌≡◌, refl}

abbrev literal : Patterns (List ℕ)
literal = record {
  compile = λ t. some t;
  matches = λ re s. bytes_eq re (codes "^" ++ s ++ codes "$");
  quote_meta = λ s. s;
  trim_space = λ s. s;
  to_slash = λ s. s;
}

globstar :
    glob_text literal (codes "src/**/a[!b-]{h,c?}") false
    ≡ some (codes "^src/(?:[^/]*/)*a[^/b-](?:h|c[^/])$")
unfolding glob_text glob_body write_byte write_star write_class class_written class_bytes
    up_to_bracket with_first escaped write_close write_comma write_quoted written_before
    written_after and_then starts_with
globstar = refl

unclosed : glob_text literal (codes "a{b") false ≡ none
unfolding glob_text glob_body write_byte write_star write_class class_written class_bytes
    up_to_bracket with_first escaped write_close write_comma write_quoted written_before
    written_after and_then starts_with
unclosed = refl

abbrev globs : List (List ℕ)
globs = codes "./conf/a" ∷ [] ∷ codes "b" ∷ []

abbrev set : GlobSet (List ℕ)
set = record { name = codes "^b$" ∷ []; rel = codes "^conf/a$" ∷ []; abs = [] }

set_compiles : compile_globs literal globs false ≡ some (some set)
unfolding compile_globs add_globs add_glob pattern_of trim_dot compiled glob_regexp glob_text
    glob_body write_byte written_before written_after and_then has_prefix has_slash or_nil
set_compiles = refl

-- `src/**/*.c?`
abbrev pieces : List Piece
pieces =
    plain b's'
    ∷ plain b'r'
    ∷ plain b'c'
    ∷ plain b'/'
    ∷ directories
    ∷ many
    ∷ plain b'.'
    ∷ plain b'c'
    ∷ one
    ∷ []
