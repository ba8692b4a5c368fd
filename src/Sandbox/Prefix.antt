-- ===== src/Sandbox/Prefix.antt =====
-- fileops.go: the test of `underRoots` on texts against containment of names.
use remote_cli.Sandbox.{
  Name, FilePath, slashed, text, has_prefix, root_prefix, under_root, under_roots,
}
use remote_cli.Common.{
  ℕ, Bool, true, false, ◌||◌, List, [], ◌∷◌, ◌++◌, reverse, bytes_eq, split, if◌then◌else◌,
  onto_first, ◌≡◌, refl, sym, ap, subst, ◌∙◌, ◌↔◌, ◌⊎◌, ◌≢◌, inl, inr, Free, split-append,
  split-Free, bytes_eq_iff, bytes_eq_refl, Bool-cases, append_assoc, arith,
}
use mathlib.Core.List.{reverse-append, reverse-reverse, reverse-cons}
use remote_cli.Common.Sort.{All}

-- A name of a clean path: it is not empty and has no slash.
abbrev pub IsName : Name → Type 0
IsName n = (n ≢ []) × Free b'/' n

-- The path is the root or lies below it.
abbrev pub Within : FilePath → FilePath → Type 0
Within path root = (rest : FilePath) × (path ≡ rest ++ root)

abbrev pub Inside : FilePath → List FilePath → Type 0
Inside path [] = ⊥
Inside path (root ∷ roots) = Within path root ⊎ Inside path roots

split-slashed_below :
    (r : FilePath) (t : List ℕ)
    → All IsName r
    → split b'/' (slashed r ++ b'/' ∷ t) ≡ [] ∷ (reverse r ++ split b'/' t)
unfolding slashed
split-slashed_below [] t _ = split-append b'/' [] t tt
split-slashed_below (n ∷ r) t (h, hs) =
    rw
      (
        append_assoc,
        split-slashed_below r (n ++ b'/' ∷ t) hs,
        split-append b'/' n t h.1,
        reverse-cons,
        append_assoc,
      )
      refl

split-slashed : (p : FilePath) → All IsName p → split b'/' (slashed p) ≡ [] ∷ reverse p
unfolding slashed split
split-slashed [] _ = refl
split-slashed (n ∷ p) (h, hs) =
    rw (split-slashed_below p n hs, split-Free b'/' n h.1, reverse-cons) refl

drop_first : List Name → List Name
drop_first [] = []
drop_first (_ ∷ l) = l

-- The names can be read off the text.
slashed-injective : (p q : FilePath) → All IsName p → All IsName q → slashed p ≡ slashed q → p ≡ q
unfolding drop_first
slashed-injective p q hp hq e =
    let parts : ◌≡◌ {A = List Name} ([] ∷ reverse p) ([] ∷ reverse q) =
      sym (split-slashed p hp) ∙ ap (split b'/') e ∙ split-slashed q hq in
    sym (reverse-reverse p)
    ∙ ap (λ (l : FilePath). reverse (drop_first l)) parts
    ∙ reverse-reverse q

slash_alone : (n : Name) (p : FilePath) → All IsName (n ∷ p) → text (n ∷ p) ≢ b'/' ∷ []
unfolding text split drop_first onto_first
slash_alone n p h e =
    let parts : [] ∷ reverse (n ∷ p) ≡ [] ∷ [] ∷ [] =
      sym (split-slashed (n ∷ p) h) ∙ ap (split b'/') e in
    let names : n ∷ p ≡ [] ∷ [] =
      sym (reverse-reverse (n ∷ p)) ∙ ap (λ (l : FilePath). reverse (drop_first l)) parts in
    h.0.0 (cc)

pub text-injective : (p q : FilePath) → All IsName p → All IsName q → text p ≡ text q → p ≡ q
unfolding text
text-injective [] [] _ _ e = refl
text-injective [] (n ∷ q) _ hq e = elim (slash_alone n q hq (sym e)) [ ]
text-injective (n ∷ p) [] hp _ e = elim (slash_alone n p hp e) [ ]
text-injective (n ∷ p) (m ∷ q) hp hq e = slashed-injective (n ∷ p) (m ∷ q) hp hq e

has_prefix-append : (p s : List ℕ) → has_prefix p (p ++ s) ≡ true
unfolding has_prefix
has_prefix-append [] s = refl
has_prefix-append (c ∷ p) s = ground (arith, has_prefix-append p s)

has_prefix_longer : (p s t : List ℕ) → has_prefix p s ≡ true → has_prefix p (s ++ t) ≡ true
unfolding has_prefix
has_prefix_longer [] s t h = refl
has_prefix_longer (c ∷ p) [] t h = cc
has_prefix_longer (c ∷ p) (d ∷ s) t h = ground (arith, has_prefix_longer p s t)

has_prefix_rest : (p s : List ℕ) → has_prefix p s ≡ true → (t : List ℕ) × (s ≡ p ++ t)
unfolding has_prefix
has_prefix_rest [] s h = (s, refl)
has_prefix_rest (c ∷ p) [] h = absurd (cc)
has_prefix_rest (c ∷ p) (d ∷ s) h =
    let (t, e) = has_prefix_rest p s (ground arith) in (t, ground (arith))

root_prefix_lem : (r : FilePath) → root_prefix r ≡ slashed r ++ b'/' ∷ []
unfolding root_prefix text slashed
root_prefix_lem [] = refl
root_prefix_lem (n ∷ r) = refl

-- Whoever lies below has the prefix.
has_prefix_below :
    (rest : FilePath) (n : Name) (r : FilePath)
    → has_prefix (slashed r ++ b'/' ∷ []) (slashed (n ∷ rest ++ r)) ≡ true
unfolding slashed
has_prefix_below [] n r =
    rw (sym (append_assoc (slashed r) (b'/' ∷ []) n)) (has_prefix-append (slashed r ++ b'/' ∷ []) n)
has_prefix_below (m ∷ rest) n r =
    has_prefix_longer _ (slashed (m ∷ rest ++ r)) (b'/' ∷ n) (has_prefix_below rest m r)

has_prefix_short :
    (a : List ℕ) (x y c : ℕ) (d : List ℕ) → has_prefix (a ++ x ∷ c ∷ d) (y ∷ []) ≡ false
unfolding has_prefix
has_prefix_short [] x y c d = ground arith
has_prefix_short (z ∷ []) x y c d = ground arith
has_prefix_short (z ∷ w ∷ a) x y c d = ground arith

-- Nothing but `/` is a prefix of `/`.
root_below_none :
    (n : Name) (r : FilePath)
    → IsName n
    → has_prefix (slashed (n ∷ r) ++ b'/' ∷ []) (b'/' ∷ []) ≡ false
unfolding slashed
root_below_none [] r (h, _) = absurd (h refl)
root_below_none (c ∷ n) r _ =
    rw (append_assoc (slashed r) (b'/' ∷ c ∷ n) (b'/' ∷ []))
      (has_prefix_short (slashed r) b'/' b'/' c (n ++ b'/' ∷ []))

or_true : (b : Bool) → (b || true) ≡ true
or_true true = refl
or_true false = refl

from_prefix :
    (p r : FilePath)
    → All IsName p
    → All IsName r
    → has_prefix (root_prefix r) (text p) ≡ true
    → Within p r
unfolding text drop_first root_prefix
from_prefix [] [] _ _ h = ([], refl)
from_prefix [] (n ∷ r) _ hr h =
    let no : has_prefix (slashed (n ∷ r) ++ b'/' ∷ []) (b'/' ∷ []) ≡ false =
      root_below_none n r hr.0 in
    absurd (cc)
from_prefix (n ∷ p) r hp hr h =
    let (t, e) =
      has_prefix_rest _ _
        (subst (λ (l : List ℕ). has_prefix l (slashed (n ∷ p)) ≡ true) (root_prefix_lem r) h) in
    let at : slashed (n ∷ p) ≡ slashed r ++ b'/' ∷ t = e ∙ append_assoc (slashed r) (b'/' ∷ []) t in
    let parts : ◌≡◌ {A = List Name} ([] ∷ reverse (n ∷ p)) ([] ∷ (reverse r ++ split b'/' t)) =
      sym (split-slashed (n ∷ p) hp) ∙ ap (split b'/') at ∙ split-slashed_below r t hr in
    let names : reverse (n ∷ p) ≡ reverse r ++ split b'/' t = ap drop_first parts in
    (
      reverse (split b'/' t),
      sym (reverse-reverse (n ∷ p))
          ∙ ap reverse names
          ∙ reverse-append (reverse r) (split b'/' t)
          ∙ ap (λ (l : FilePath). reverse (split b'/' t) ++ l) (reverse-reverse r),
    )

to_prefix : (p r : FilePath) → Within p r → under_root p r ≡ true
unfolding under_root text
to_prefix p r ([], e) = rw (e, bytes_eq_refl (text r)) refl
to_prefix p r (n ∷ rest, e) =
    rw (e, root_prefix_lem r, has_prefix_below rest n r)
      (or_true (bytes_eq (text (n ∷ (rest ++ r))) (text r)))

-- `underRoots` tests the texts of the paths, and holds of one root exactly when the path is that
-- root or lies below it, name by name: `/srv/data2` is not under `/srv/data`. Both are paths with
-- non-empty names that have no slash.
pub under_root-Within :
    (p r : FilePath) → All IsName p → All IsName r → (under_root p r ≡ true) ↔ Within p r
unfolding under_root
under_root-Within p r hp hr = (
  λ h. elim (Bool-cases (bytes_eq (text p) (text r))) [
    | inl e ↦ ([], text-injective p r hp hr ((bytes_eq_iff (text p) (text r)).0 e))
    | inr e ↦
        from_prefix p r hp hr
          (sym (ap (λ (b : Bool). b || has_prefix (root_prefix r) (text p)) e) ∙ h)
  ],
  to_prefix p r,
)

-- The same for the list of roots.
pub under_roots-Inside :
    (p : FilePath) (roots : List FilePath)
    → All IsName p
    → All (All IsName) roots
    → (under_roots p roots ≡ true) ↔ Inside p roots
unfolding under_roots
under_roots-Inside p [] hp _ = (λ h. absurd (cc), λ h. absurd h)
under_roots-Inside p (r ∷ roots) hp (hr, hs) =
    let one = under_root-Within p r hp hr in
    let more = under_roots-Inside p roots hp hs in
    elim (Bool-cases (under_root p r)) [
      | inl e ↦ (λ _. inl (one.0 e), λ _. rw e refl)
      | inr e ↦ (
        λ h.
            inr
              (more.0 (subst (λ (b : Bool). (if b then true else under_roots p roots) ≡ true) e h)),
        λ h. elim h [ inl w ↦ let yes_under = one.1 w in absurd (cc) | inr i ↦ rw e (more.1 i) ],
      )
    ]
