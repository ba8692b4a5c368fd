-- ===== src/Common/Bytes.antt =====
-- Texts as lists of numbers: their bytes, or their code points where the code decodes them.
use Prim.Native.Nat.{ℕ}
use Prim.Native.Char.{code}
use Prim.Native.String.{String}
use mathlib.Core.Path.{◌≡◌, refl}
use mathlib.Core.Logic.{◌↔◌}
use mathlib.Core.Bool.{Bool, true, false, ◌&&◌}
use mathlib.Core.List.{List, [], ◌∷◌}
use native.Mathlib.Omega.{arith}
use mathlib.Core.List.{◌++◌}
use remote_cli.Common.Tests.{◌==◌, if◌then◌else◌}
use remote_cli.Common.Sort.{All}

-- The code points of a text: its bytes, if it is ASCII.
abbrev pub codes : String → List ℕ
codes String.[] = []
codes (String.◌∷◌ c s) = code c ∷ codes s

-- Go's `==` on strings.
unfoldable pub bytes_eq : List ℕ → List ℕ → Bool
bytes_eq [] [] = true
bytes_eq (x ∷ xs) (y ∷ ys) = x == y && bytes_eq xs ys
bytes_eq _ _ = false

pub bytes_eq_sound : (s t : List ℕ) → bytes_eq s t ≡ true → s ≡ t
unfolding bytes_eq
bytes_eq_sound [] [] h = refl
bytes_eq_sound [] (y ∷ ys) h = cc
bytes_eq_sound (x ∷ xs) [] h = cc
bytes_eq_sound (x ∷ xs) (y ∷ ys) h = ground (arith, bytes_eq_sound xs ys)

pub bytes_eq_refl : (s : List ℕ) → bytes_eq s s ≡ true
unfolding bytes_eq
bytes_eq_refl [] = refl
bytes_eq_refl (x ∷ xs) = ground (arith, bytes_eq_refl xs)

pub bytes_eq_iff : (s t : List ℕ) → (bytes_eq s t ≡ true) ↔ (s ≡ t)
bytes_eq_iff s t = (bytes_eq_sound s t, λ e. rw e (bytes_eq_refl t))

-- An element in front of the first part.
unfoldable pub onto_first : ℕ → List (List ℕ) → List (List ℕ)
onto_first c [] = (c ∷ []) ∷ []
onto_first c (part ∷ parts) = (c ∷ part) ∷ parts

-- `strings.Split` at a separator of one byte.
unfoldable pub split : ℕ → List ℕ → List (List ℕ)
unfolding onto_first
split at [] = [] ∷ []
split at (c ∷ s) = let rest = split at s in if c == at then [] ∷ rest else onto_first c rest

-- No element is the separator.
abbrev pub Free : ℕ → List ℕ → Type 0
Free at s = All (λ c. (c == at) ≡ false) s

pub split-Free : (at : ℕ) (s : List ℕ) → Free at s → split at s ≡ s ∷ []
unfolding split onto_first
split-Free at [] f = refl
split-Free at (c ∷ s) f = rw (f.0, split-Free at s f.1) refl

pub split-append : (at : ℕ) (s t : List ℕ) → Free at s → split at (s ++ at ∷ t) ≡ s ∷ split at t
unfolding split onto_first
split-append at [] t f = ground arith
split-append at (c ∷ s) t f = rw (f.0, split-append at s t f.1) refl
