-- ===== src/Sandbox/Escape.antt =====
-- fileops.go: what `validatePath` and `validateLinkPath` let through.
use remote_cli.Sandbox.{
  Name, FilePath, text, under_roots, absolute, Links, Evaluated, evaluated, missing, eval_failed,
  Link, no_link, unreadable, target_at, Resolved, resolved, unresolved, below, follow_link,
  resolve_with, resolve_path, unless_missing, max_symlink_hops, resolved_or, resolve_roots, valid,
  escapes, leads_outside, check_real, validate_path, is_root, dir, check_parent, validate_link_path,
}
use remote_cli.Sandbox.Prefix.{IsName, Inside, under_roots-Inside, text-injective}
use remote_cli.Sandbox.Names.{CleanName, absolute-CleanName}
use remote_cli.Common.{
  ℕ, zero, suc, Bool, true, false, not, ◌&&◌, List, [], ◌∷◌, bytes_eq, if◌then◌else◌, ◌≡◌, refl,
  sym, ap, ◌∙◌, subst, ◌↔◌, ◌⊎◌, inl, inr, Bool-cases, bytes_eq_iff,
}
use remote_cli.Common.Sort.{All, All-mono}

pub clean_names : (p : FilePath) → All CleanName p → All IsName p
clean_names p h = All-mono CleanName IsName p (λ n c. c.0) h

-- What `filepath.EvalSymlinks` gives is a clean path.
abbrev pub EvalClean : Links → Type 0
EvalClean fs = (p q : FilePath) → fs.eval p ≡ evaluated q → All CleanName q

pub Evaluated-cases :
    (e : Evaluated) → (((q : FilePath) × (e ≡ evaluated q)) ⊎ (e ≡ missing)) ⊎ (e ≡ eval_failed)
Evaluated-cases (evaluated q) = inl (inl (q, refl))
Evaluated-cases missing = inl (inr refl)
Evaluated-cases eval_failed = inr refl

pub resolved-injective : (p q : FilePath) → resolved p ≡ resolved q → p ≡ q
resolved-injective p q e = cc

valid-injective : (p q : FilePath) → valid p ≡ valid q → q ≡ p
valid-injective p q e = cc

dir-Clean : (p : FilePath) → All CleanName p → All CleanName (dir p)
unfolding dir
dir-Clean [] h = h
dir-Clean (n ∷ p) h = h.1

-- The test of `validatePath` on the resolved path.
gate_open :
    (a b : Bool) (abs p : FilePath)
    → (if not a && not b then leads_outside else valid abs) ≡ valid p
    → (p ≡ abs) × ((a ≡ true) ⊎ (b ≡ true))
gate_open true b abs p h = (cc, inl refl)
gate_open false true abs p h = (cc, inr refl)
gate_open false false abs p h = absurd (cc)

gate_pass :
    (a b : Bool) (abs : FilePath)
    → (a ≡ true) ⊎ (b ≡ true)
    → (if not a && not b then leads_outside else valid abs) ≡ valid abs
gate_pass true b abs h = refl
gate_pass false true abs h = refl
gate_pass false false abs (inl h) = absurd (cc)
gate_pass false false abs (inr h) = absurd (cc)

-- The result of resolving, if there is one, is a clean path.
abbrev ResolvedClean : Resolved → Type 0
ResolvedClean (resolved p) = All CleanName p
ResolvedClean unresolved = Unit

module _ (fs : Links) (evals : EvalClean fs) where
  follow_link-Clean :
      (follow : FilePath → Resolved) (parent : FilePath) (l : Link) (up : Resolved)
      → ((p : FilePath) → All CleanName p → ResolvedClean (follow p))
      → All CleanName parent
      → ResolvedClean up
      → ResolvedClean (follow_link fs follow parent l up)
  unfolding follow_link
  follow_link-Clean follow parent no_link up hf hp hu = hu
  follow_link-Clean follow parent unreadable up hf hp hu = tt
  follow_link-Clean follow parent (target_at t) up hf hp hu =
      hf (absolute parent t) (absolute-CleanName parent t hp)

  unless_missing-Clean :
      (p : FilePath) (other : Resolved)
      → ResolvedClean other
      → ResolvedClean (unless_missing (fs.eval p) other)
  unfolding unless_missing
  unless_missing-Clean p other h = elim (Evaluated-cases (fs.eval p)) [
    | inl (inl (q, e)) ↦ rw e (evals p q e)
    | inl (inr e) ↦ rw e h
    | inr e ↦ rw e tt
  ]

  below-Clean :
      (n : Name) (up : Resolved) → CleanName n → ResolvedClean up → ResolvedClean (below n up)
  unfolding below
  below-Clean n (resolved p) hn h = (hn, h)
  below-Clean n unresolved hn h = tt

  resolve_with-Clean :
      (follow : FilePath → Resolved)
      → ((p : FilePath) → All CleanName p → ResolvedClean (follow p))
      → (p : FilePath) → All CleanName p
      → ResolvedClean (resolve_with fs follow p)
  unfolding resolve_with
  resolve_with-Clean follow hf [] hp =
      unless_missing-Clean [] _ (follow_link-Clean follow [] (fs.link []) (resolved []) hf tt tt)
  resolve_with-Clean follow hf (n ∷ p) (hn, hp) = unless_missing-Clean (n ∷ p) _ (
      follow_link-Clean follow p (fs.link (n ∷ p)) (below n (resolve_with fs follow p)) hf hp
        (below-Clean n (resolve_with fs follow p) hn (resolve_with-Clean follow hf p hp)))

  resolve_path-Clean :
      (left : ℕ) (p : FilePath) → All CleanName p → ResolvedClean (resolve_path fs left p)
  unfolding resolve_path
  resolve_path-Clean zero p hp = resolve_with-Clean (λ _. unresolved) (λ _ _. tt) p hp
  resolve_path-Clean (suc left) p hp =
      resolve_with-Clean (resolve_path fs left) (resolve_path-Clean left) p hp

  resolved_or-Clean :
      (p : FilePath) (r : Resolved)
      → All CleanName p
      → ResolvedClean r
      → All CleanName (resolved_or p r)
  unfolding resolved_or
  resolved_or-Clean p (resolved q) hp hr = hr
  resolved_or-Clean p unresolved hp hr = hp

  resolve_roots-Clean :
      (roots : List FilePath)
      → All (All CleanName) roots
      → All (All CleanName) (resolve_roots fs roots)
  unfolding resolve_roots
  resolve_roots-Clean [] h = tt
  resolve_roots-Clean (r ∷ roots) (h, hs) = (
    resolved_or-Clean r (resolve_path fs max_symlink_hops r) h
        (resolve_path-Clean max_symlink_hops r h),
    resolve_roots-Clean roots hs,
  )

pub root_names : (roots : List FilePath) → All (All CleanName) roots → All (All IsName) roots
root_names roots h = All-mono (All CleanName) (All IsName) roots clean_names h

-- A path that passes is handed on in its absolute form.
pub validate_path-absolute :
    (fs : Links) (cwd : FilePath) (s : List ℕ) (roots : List FilePath) (p : FilePath)
    → validate_path fs cwd s roots ≡ valid p
    → p ≡ absolute cwd s
unfolding validate_path check_real
validate_path-absolute fs cwd [] roots p h = absurd (cc)
validate_path-absolute fs cwd (c ∷ s) [] p h = cc
validate_path-absolute fs cwd (c ∷ s) (root ∷ roots) p h =
    elim (Bool-cases (under_roots (absolute cwd (c ∷ s)) (root ∷ roots))) [
      | inr e ↦ let wrong : escapes ≡ valid p = rw e at h in absurd (cc)
      | inl e ↦
          check_real-absolute (absolute cwd (c ∷ s)) (root ∷ roots) p
            (resolve_path fs max_symlink_hops (absolute cwd (c ∷ s))) (rw e at h)
    ]
  where
    check_real-absolute :
        (abs : FilePath) (roots : List FilePath) (p : FilePath) (r : Resolved)
        → check_real fs abs roots r ≡ valid p
        → p ≡ abs
    check_real-absolute abs roots p unresolved h = absurd (cc)
    check_real-absolute abs roots p (resolved real) h = (gate_open _ _ abs p h).0

module _ (fs : Links) (cwd : FilePath) (c : ℕ) (s : List ℕ) (root : FilePath)
    (roots : List FilePath) (evals : EvalClean fs) (cwd_clean : All CleanName cwd)
    (roots_clean : All (All CleanName) (root ∷ roots)) where
  abs_clean : All CleanName (absolute cwd (c ∷ s))
  abs_clean = absolute-CleanName cwd (c ∷ s) cwd_clean

  pub abs_names : All IsName (absolute cwd (c ∷ s))
  abs_names = clean_names _ abs_clean

  real_clean : ResolvedClean (resolve_path fs max_symlink_hops (absolute cwd (c ∷ s)))
  real_clean = resolve_path-Clean fs evals max_symlink_hops _ abs_clean

  under_abs :
      (under_roots (absolute cwd (c ∷ s)) (root ∷ roots) ≡ true)
      ↔ Inside (absolute cwd (c ∷ s)) (root ∷ roots)
  under_abs = under_roots-Inside _ (root ∷ roots) abs_names (root_names (root ∷ roots) roots_clean)

  under_real :
      (p : FilePath)
      → All CleanName p
      → (under_roots p (resolve_roots fs (root ∷ roots)) ≡ true)
        ↔ Inside p (resolve_roots fs (root ∷ roots))
  under_real p hp =
      under_roots-Inside p (resolve_roots fs (root ∷ roots)) (clean_names p hp)
        (root_names _ (resolve_roots-Clean fs evals (root ∷ roots) roots_clean))

  abbrev pub ResolvesInside : FilePath → Resolved → Type 0
  ResolvesInside abs r =
      (real : FilePath) × (r ≡ resolved real)
      × ((real ≡ abs) ⊎ Inside real (resolve_roots fs (root ∷ roots)))

  check_real_sound :
      (abs p : FilePath) (r : Resolved)
      → All CleanName abs
      → ResolvedClean r
      → check_real fs abs (root ∷ roots) r ≡ valid p
      → (p ≡ abs) × ResolvesInside abs r
  unfolding check_real
  check_real_sound abs p unresolved ha hr h = absurd (cc)
  check_real_sound abs p (resolved real) ha hr h =
      let (same, pass) =
        gate_open (bytes_eq (text real) (text abs))
          (under_roots real (resolve_roots fs (root ∷ roots))) abs p h in
      (
        same,
        (
          real,
          refl,
          elim pass [
            | inl e ↦ inl (
                text-injective real abs (clean_names real hr) (clean_names abs ha)
                  ((bytes_eq_iff _ _).0 e))
            | inr u ↦ inr ((under_real real hr).0 u)
          ],
        ),
      )

  check_real_complete :
      (abs : FilePath) (r : Resolved)
      → ResolvedClean r
      → ResolvesInside abs r
      → check_real fs abs (root ∷ roots) r ≡ valid abs
  unfolding check_real
  check_real_complete abs unresolved hr (real, e, w) = absurd (cc)
  check_real_complete abs (resolved q) hr (real, e, inl w) =
      gate_pass _ (under_roots q (resolve_roots fs (root ∷ roots))) abs
        (inl ((bytes_eq_iff (text q) (text abs)).1 (ap text (resolved-injective q real e ∙ w))))
  check_real_complete abs (resolved q) hr (real, e, inr w) =
      gate_pass (bytes_eq (text q) (text abs)) _ abs (
        inr (
          (under_real q hr).1 (
            subst (λ (p : FilePath). Inside p (resolve_roots fs (root ∷ roots)))
              (sym (resolved-injective q real e)) w)))

  -- With what `resolve_path` says of the path and of the roots.
  pub validate_path_resolved :
      (p : FilePath)
      → (validate_path fs cwd (c ∷ s) (root ∷ roots) ≡ valid p) ↔ (
          (p ≡ absolute cwd (c ∷ s))
          × Inside (absolute cwd (c ∷ s)) (root ∷ roots)
          × ResolvesInside
              (absolute cwd (c ∷ s))
              (resolve_path fs max_symlink_hops (absolute cwd (c ∷ s))))
  unfolding validate_path
  validate_path_resolved p = elim (Bool-cases (under_roots (absolute cwd (c ∷ s)) (root ∷ roots))) [
    | inl e ↦ (
      λ h.
          let (same, leads) = check_real_sound _ p _ abs_clean real_clean (rw e at h) in
          (same, under_abs.0 e, leads),
      λ h. rw (e, h.0) (check_real_complete _ _ real_clean h.2),
    )
    | inr e ↦ (
      λ h. let wrong : escapes ≡ valid p = rw e at h in absurd (cc),
      λ h. let within = under_abs.1 h.1 in absurd (cc),
    )
  ]

  abbrev pub ParentResolves : FilePath → Type 0
  ParentResolves abs =
      (parent : FilePath) × (resolve_path fs max_symlink_hops (dir abs) ≡ resolved parent)
      × Inside parent (resolve_roots fs (root ∷ roots))

  check_parent_sound :
      (abs p : FilePath) (r : Resolved)
      → ResolvedClean r
      → check_parent fs abs (root ∷ roots) r ≡ valid p
      → (p ≡ abs)
        × ((parent : FilePath) × (r ≡ resolved parent)
            × Inside parent (resolve_roots fs (root ∷ roots)))
  unfolding check_parent
  check_parent_sound abs p unresolved hr h = absurd (cc)
  check_parent_sound abs p (resolved q) hr h =
      elim (Bool-cases (under_roots q (resolve_roots fs (root ∷ roots)))) [
        | inl e ↦ (valid-injective abs p (rw e at h), (q, refl, (under_real q hr).0 e))
        | inr e ↦ let wrong : leads_outside ≡ valid p = rw e at h in absurd (cc)
      ]

  check_parent_complete :
      (abs : FilePath) (r : Resolved) (q : FilePath)
      → ResolvedClean r
      → r ≡ resolved q
      → Inside q (resolve_roots fs (root ∷ roots))
      → check_parent fs abs (root ∷ roots) r ≡ valid abs
  unfolding check_parent
  check_parent_complete abs unresolved q hr e w = absurd (cc)
  check_parent_complete abs (resolved r) q hr e w =
      let inside = (under_real r hr).1 (
        subst (λ (p : FilePath). Inside p (resolve_roots fs (root ∷ roots)))
          (sym (resolved-injective r q e)) w) in
      rw inside refl

  parent_clean : ResolvedClean (resolve_path fs max_symlink_hops (dir (absolute cwd (c ∷ s))))
  parent_clean = resolve_path-Clean fs evals max_symlink_hops _ (dir-Clean _ abs_clean)

  pub validate_link_path_resolved :
      (p : FilePath)
      → (validate_link_path fs cwd (c ∷ s) (root ∷ roots) ≡ valid p) ↔ (
          (p ≡ absolute cwd (c ∷ s))
          × Inside (absolute cwd (c ∷ s)) (root ∷ roots)
          × ((is_root (absolute cwd (c ∷ s)) (root ∷ roots) ≡ true)
              ⊎ ParentResolves (absolute cwd (c ∷ s))))
  unfolding validate_link_path
  validate_link_path_resolved p =
      elim (Bool-cases (under_roots (absolute cwd (c ∷ s)) (root ∷ roots))) [
        | inr e ↦ (
          λ h. let wrong : escapes ≡ valid p = rw e at h in absurd (cc),
          λ h. let within = under_abs.1 h.1 in absurd (cc),
        )
        | inl e ↦ elim (Bool-cases (is_root (absolute cwd (c ∷ s)) (root ∷ roots))) [
          | inl t ↦ (
            λ h. (valid-injective _ p (rw (e, t) at h), under_abs.0 e, inl t),
            λ h. rw (e, t, h.0) refl,
          )
          | inr t ↦ (
            λ h.
                let (same, leads) = check_parent_sound _ p _ parent_clean (rw (e, t) at h) in
                (same, under_abs.0 e, inr leads),
            λ h. elim h.2 [
              | inl y ↦ absurd (cc)
              | inr (q, leads, w) ↦
                  rw (e, t, h.0) (check_parent_complete _ _ q parent_clean leads w)
            ],
          )
        ]
      ]
