-- ===== src/Globs/Pieces.antt =====
-- globs.go: globs as lists of pieces, and the expressions that they are translated to.
use remote_cli.Common.{ℕ, Bool, true, false, ◌||◌, List, [], ◌∷◌, ◌++◌, ◌==◌, codes, ◌≡◌}
use remote_cli.Globs.{Patterns, starts_with}

-- A byte that stands for itself, `?`, `*`, `**/` where a name begins, and `**` at the end.
pub data Piece : Type 0 where
  plain : ℕ → Piece
  one many directories everything : Piece

-- The bytes that mean something else in a glob.
unfoldable pub special : ℕ → Bool
special c = c == b'*' || c == b'?' || c == b'[' || c == b'{' || c == b'}' || c == b',' || c == 92

abbrev pub glob_of : List Piece → List ℕ
glob_of [] = []
glob_of (plain c ∷ ps) = c ∷ glob_of ps
glob_of (one ∷ ps) = b'?' ∷ glob_of ps
glob_of (many ∷ ps) = b'*' ∷ glob_of ps
glob_of (directories ∷ ps) = b'*' ∷ b'*' ∷ b'/' ∷ glob_of ps
glob_of (everything ∷ ps) = b'*' ∷ b'*' ∷ glob_of ps

-- Where the pieces may stand; the flag is whether a name begins.
abbrev pub Fits : Bool → List Piece → Type 0
Fits begins [] = Unit
Fits begins (plain c ∷ ps) = (special c ≡ false) × Fits (c == b'/') ps
Fits begins (one ∷ ps) = Fits false ps
Fits begins (many ∷ ps) = (starts_with b'*' (glob_of ps) ≡ false) × Fits false ps
Fits begins (directories ∷ ps) = (begins ≡ true) × Fits true ps
Fits begins (everything ∷ []) = begins ≡ true
Fits begins (everything ∷ p ∷ ps) = ⊥

module _ {R : Type 0} (patterns : Patterns R) where
  abbrev pub expression_of : List Piece → List ℕ
  expression_of [] = []
  expression_of (plain c ∷ ps) = patterns.quote_meta (c ∷ []) ++ expression_of ps
  expression_of (one ∷ ps) = codes "[^/]" ++ expression_of ps
  expression_of (many ∷ ps) = codes "[^/]*" ++ expression_of ps
  expression_of (directories ∷ ps) = codes "(?:[^/]*/)*" ++ expression_of ps
  expression_of (everything ∷ ps) = codes ".*" ++ expression_of ps
