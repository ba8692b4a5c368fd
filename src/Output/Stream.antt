-- ===== src/Output/Stream.antt =====
-- The stream that a `CappedBuffer` has taken: what is to be kept of it, and how the fields stand
-- for it.
use remote_cli.Common.{
  ℕ, ◌-◌, ◌≤◌, ◌<◌, ◌≡◌, ◌⊎◌, Bool, true, false, List, [], ◌∷◌, ◌++◌, length, take, drop,
}
use remote_cli.Output.{CappedBuffer}
use remote_cli.Output.Ring.{rotated}

-- The bytes that a bounded capture of `s` is to keep.
abbrev pub kept : Bool → ℕ → List ℕ → List ℕ
kept true limit s = drop (length s - limit) s
kept false limit s = take limit s

-- How the fields stand for the stream `s` written so far: by mode and by `full`.
abbrev pub Stored : Bool → Bool → ℕ → ℕ → List ℕ → List ℕ → Type 0
Stored false full limit start buf s = buf ≡ take limit s
Stored true false limit start buf s =
    (start ≡ 0) × (buf ≡ take limit s) × ((limit ≡ 0) ⊎ (length s ≤ limit))
Stored true true limit start buf s =
    (start < limit)
    × (length buf ≡ limit)
    × (limit ≤ length s)
    × (rotated start buf ≡ drop (length s - limit) s)

pub record Holds (b : CappedBuffer) (s : List ℕ) : Type 0 where
  pub counted : b.total ≡ length s
  pub stored : Stored b.tail b.full b.limit b.start b.buf s

-- The fields that a write never changes.
pub record SameShape (b b' : CappedBuffer) : Type 0 where
  pub limit : b'.limit ≡ b.limit
  pub tail : b'.tail ≡ b.tail

-- The stream that a list of writes makes.
abbrev pub joined : List (List ℕ) → List ℕ
joined [] = []
joined (p ∷ ps) = p ++ joined ps
