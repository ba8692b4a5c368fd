-- ===== src/Sandbox/Leads.antt =====
-- fileops.go: where the links of the file system lead, told without the code, and what
-- `validatePath` and `validateLinkPath` let through of it.
use remote_cli.Sandbox.{
  Name, FilePath, absolute, Links, evaluated, missing, no_link, target_at, Resolved, resolved,
  max_symlink_hops, is_root, dir, text,
}
use remote_cli.Sandbox.Prefix.{Within}
use remote_cli.Common.{
  ℕ, suc, true, false, List, [], ◌∷◌, ◌≡◌, ◌⊎◌, inl, inr, bytes_eq, bytes_eq_refl, Bool-cases,
}

-- Where a path leads, over at most `hops` dangling links: to what is there; from a dangling link
-- on to its target, also where that is not there yet; and otherwise into the place that the
-- directory of the path leads to.
pub data Leads (fs : Links) : ℕ → FilePath → FilePath → Type 0 where
  there : (hops : ℕ) (p q : FilePath) → fs.eval p ≡ evaluated q → Leads fs hops p q
  dangles :
      (hops : ℕ) (p q : FilePath) (target : List ℕ)
      → fs.eval p ≡ missing
      → fs.link p ≡ target_at target
      → Leads fs hops (absolute (dir p) target) q
      → Leads fs (suc hops) p q
  to_be_made :
      (hops : ℕ) (name : Name) (p q : FilePath)
      → fs.eval (name ∷ p) ≡ missing
      → fs.link (name ∷ p) ≡ no_link
      → Leads fs hops p q
      → Leads fs hops (name ∷ p) (name ∷ q)
  at_top : (hops : ℕ) → fs.eval [] ≡ missing → fs.link [] ≡ no_link → Leads fs hops [] []

-- A root is where it leads to, and itself where it leads nowhere.
abbrev pub RealRoot : Links → FilePath → FilePath → Type 0
RealRoot fs root q =
    Leads fs max_symlink_hops root q
    ⊎ ((q ≡ root) × ((r : FilePath) → Leads fs max_symlink_hops root r → ⊥))

abbrev pub InsideReal : Links → FilePath → List FilePath → Type 0
InsideReal fs p [] = ⊥
InsideReal fs p (root ∷ roots) =
    ((q : FilePath) × RealRoot fs root q × Within p q) ⊎ InsideReal fs p roots

abbrev pub OneOf : FilePath → List FilePath → Type 0
OneOf p [] = ⊥
OneOf p (root ∷ roots) = (p ≡ root) ⊎ OneOf p roots

module _ (fs : Links) where
  -- `follow` gives what the target of a dangling link leads to, for one hop more.
  abbrev Follows : ℕ → (FilePath → Resolved) → Type 0
  Follows hops follow =
      (p q : FilePath) (t : List ℕ)
      → fs.eval p ≡ missing
      → fs.link p ≡ target_at t
      → follow (absolute (dir p) t) ≡ resolved q
      → Leads fs hops p q

pub not_root : (p : FilePath) (roots : List FilePath) → is_root p roots ≡ false → OneOf p roots → ⊥
unfolding is_root
not_root p [] h x = elim x [ ]
not_root p (r ∷ roots) h (inl e) =
    let no : true ≡ false = rw (e, bytes_eq_refl (text r)) at h in absurd (cc)
not_root p (r ∷ roots) h (inr w) = elim (Bool-cases (bytes_eq (text p) (text r))) [
  | inl e ↦ let no : true ≡ false = rw e at h in absurd (cc)
  | inr e ↦ not_root p roots (rw e at h) w
]
