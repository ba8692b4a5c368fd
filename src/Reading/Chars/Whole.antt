-- ===== src/Reading/Chars/Whole.antt =====
-- readops.go: windows of well-formed GBK and GB18030 text, told without the code.
use remote_cli.Reading.Chars.Boundary.{Boundary}
use remote_cli.Common.{ℕ, ◌+◌, ◌-◌, ◌*◌, ◌<◌, ◌≤◌, Bool, true, List, [], ◌∷◌, ◌++◌, ◌≡◌, ◌≢◌, ◌⊎◌}

-- The place of a character of four bytes in their order.
abbrev pub place : ℕ → ℕ → ℕ → ℕ → ℕ
place b t c d = (((b - 0x81) * 10 + (t - 0x30)) * 126 + (c - 0x81)) * 10 + (d - 0x30)

-- The characters of the two encodings, as their standards have them.
pub data GbChar (gb18030 : Bool) : List ℕ → Type 0 where
  ascii : (c : ℕ) → c < 0x80 → GbChar gb18030 (c ∷ [])
  pair :
      (b t : ℕ)
      → (0x81 ≤ b) × (b ≤ 0xfe)
      → (0x40 ≤ t) × (t ≤ 0xfe)
      → t ≢ 0x7f
      → GbChar gb18030 (b ∷ t ∷ [])
  four :
      (b t c d : ℕ)
      → gb18030 ≡ true
      → (0x81 ≤ b) × (b ≤ 0xfe)
      → (0x30 ≤ t) × (t ≤ 0x39)
      → (0x81 ≤ c) × (c ≤ 0xfe)
      → (0x30 ≤ d) × (d ≤ 0x39)
      → (place b t c d < 39420) ⊎ ((189000 ≤ place b t c d) × (place b t c d < 189000 + 0x100000))
      → GbChar gb18030 (b ∷ t ∷ c ∷ d ∷ [])

abbrev pub bytes_of : List (List ℕ) → List ℕ
bytes_of [] = []
bytes_of (c ∷ chars) = c ++ bytes_of chars
