-- ===== src/Sandbox/Names.antt =====
-- fileops.go: the names of the path that `filepath.Abs` and `filepath.Clean` make of a text.
use remote_cli.Sandbox.{Name, FilePath, enter, enter_all, absolute}
use remote_cli.Sandbox.Prefix.{IsName}
use remote_cli.Common.{
  ℕ, true, false, ◌||◌, List, [], ◌∷◌, bytes_eq, codes, split, onto_first, ◌==◌, ◌≡◌, sym, ap, ◌∙◌,
  ◌≢◌, inl, inr, Free, Bool-cases,
}
use remote_cli.Common.Sort.{All}

-- A name that stays in a clean path.
abbrev pub CleanName : Name → Type 0
CleanName n = IsName n × (n ≢ codes ".") × (n ≢ codes "..")

onto_first-All-Free :
    (at c : ℕ) (parts : List (List ℕ))
    → (c == at) ≡ false
    → All (Free at) parts
    → All (Free at) (onto_first c parts)
unfolding onto_first
onto_first-All-Free at c [] e _ = ((e, tt), tt)
onto_first-All-Free at c (part ∷ parts) e (h, hs) = ((e, h), hs)

split-All-Free : (at : ℕ) (s : List ℕ) → All (Free at) (split at s)
unfolding split
split-All-Free at [] = (tt, tt)
split-All-Free at (c ∷ s) = elim (Bool-cases (c == at)) [
  | inl e ↦ rw e (tt, split-All-Free at s)
  | inr e ↦ rw e (onto_first-All-Free at c (split at s) e (split-All-Free at s))
]

parent-CleanName :
    (at : FilePath) → All CleanName at → All CleanName (elim at [ [] ↦ [] | _ ∷ parent ↦ parent ])
parent-CleanName [] h = h
parent-CleanName (n ∷ at) h = h.1

two_ways : true ≡ false → ⊥
two_ways h = cc

no_name : (n : Name) → (bytes_eq n [] || bytes_eq n (codes ".")) ≡ false → n ≢ []
unfolding bytes_eq
no_name n e h = two_ways (sym (ap (λ (m : Name). bytes_eq m [] || bytes_eq m (codes ".")) h) ∙ e)

no_dot : (n : Name) → (bytes_eq n [] || bytes_eq n (codes ".")) ≡ false → n ≢ codes "."
unfolding bytes_eq
no_dot n e h = two_ways (sym (ap (λ (m : Name). bytes_eq m [] || bytes_eq m (codes ".")) h) ∙ e)

no_dots : (n : Name) → bytes_eq n (codes "..") ≡ false → n ≢ codes ".."
unfolding bytes_eq
no_dots n e h = two_ways (sym (ap (λ (m : Name). bytes_eq m (codes "..")) h) ∙ e)

enter-CleanName :
    (at : FilePath) (n : Name) → All CleanName at → Free b'/' n → All CleanName (enter at n)
unfolding enter
enter-CleanName at n h f = elim (Bool-cases (bytes_eq n [] || bytes_eq n (codes "."))) [
  | inl e ↦ rw e h
  | inr e ↦ elim (Bool-cases (bytes_eq n (codes ".."))) [
    | inl d ↦ rw (e, d) (parent-CleanName at h)
    | inr d ↦ rw (e, d) (((no_name n e, f), no_dot n e, no_dots n d), h)
  ]
]

enter_all-CleanName :
    (at : FilePath) (ns : List Name)
    → All CleanName at
    → All (Free b'/') ns
    → All CleanName (enter_all at ns)
unfolding enter_all
enter_all-CleanName at [] h _ = h
enter_all-CleanName at (n ∷ ns) h (f, fs) =
    enter_all-CleanName (enter at n) ns (enter-CleanName at n h f) fs

-- Whatever text a caller gives, its absolute path has no empty name, no `.` and no `..`, and no name
-- with a slash in it, where the working directory has none.
pub absolute-CleanName :
    (cwd : FilePath) (s : List ℕ) → All CleanName cwd → All CleanName (absolute cwd s)
unfolding absolute
absolute-CleanName cwd [] h = h
absolute-CleanName cwd (c ∷ s) h = elim (Bool-cases (c == b'/')) [
  | inl e ↦ rw e (enter_all-CleanName [] (split b'/' s) tt (split-All-Free b'/' s))
  | inr e ↦ rw e (enter_all-CleanName cwd (split b'/' (c ∷ s)) h (split-All-Free b'/' (c ∷ s)))
]
