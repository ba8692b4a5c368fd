-- ===== src/Files/Steps.antt =====
-- fileops.go, manageops.go: how an operation on the disk runs past its guards.
use remote_cli.Files.{Outcome, done, failed, FileError, Op, go_on, require, allowed, checked}
use remote_cli.Common.{
  Bool, true, false, none, some, String, if◌then◌else◌, ◌≡◌, refl, ap, ◌⊎◌, inl, inr,
}
use remote_cli.ReadOnly.{Process, guard_read_only}
use remote_cli.Sandbox.{
  FilePath, Validated, valid, empty_path, escapes, cannot_resolve, leads_outside,
}

-- To split on what a call gives and keep the equation.
pub Outcome-cases :
    {A : Type 0} (o : Outcome A) → ((e : FileError) × (o ≡ failed e)) ⊎ ((a : A) × (o ≡ done a))
Outcome-cases (done a) = inr (a, refl)
Outcome-cases (failed e) = inl (e, refl)

pub require_lem : (b : Bool) (e : FileError) (u : Unit) → require b e ≡ done u → b ≡ true
unfolding require
require_lem true e u h = refl
require_lem false e u h = absurd (cc)

pub allowed_lem :
    (p : Process) (op : String) (u : Unit)
    → allowed (guard_read_only p op) ≡ done u
    → p.latch ≡ false
unfolding allowed guard_read_only
allowed_lem p op u h = latch_off (p.latch) op u h
  where
    latch_off :
        (b : Bool) (op : String) (u : Unit)
        → allowed (if b then some op else none) ≡ done u
        → b ≡ false
    latch_off false _ _ _ = refl
    latch_off true _ _ e = absurd (cc)

pub checked_lem : (v : Validated) (p : FilePath) → checked v ≡ done p → v ≡ valid p
unfolding checked
checked_lem (valid q) p h = cc
checked_lem empty_path p h = absurd (cc)
checked_lem escapes p h = absurd (cc)
checked_lem cannot_resolve p h = absurd (cc)
checked_lem leads_outside p h = absurd (cc)

module _ {D : Type 0} where
  pub failed_done :
      {A : Type 0} (e : FileError) (d : D) (a : A) (d' : D)
      → ◌≡◌ {A = Outcome A × D} (failed e, d) (done a, d')
      → ⊥
  failed_done {A} e d a d' h = let no : failed e ≡ done a = ap (λ (o : Outcome A × D). o.0) h in cc

  -- A step that succeeded had its first part succeed.
  pub go_on-done :
      {A B : Type 0} (k : A → Op D B) (out : Outcome A × D) (b : B) (d' : D)
      → go_on k out ≡ (done b, d')
      → (a : A) × (d₁ : D) × (out ≡ (done a, d₁)) × (k a d₁ ≡ (done b, d'))
  unfolding go_on
  go_on-done k (done a, d) b d' h = (a, d, refl, h)
  go_on-done k (failed e, d) b d' h = absurd (failed_done e d b d' h)

  pub look-done :
      {A B : Type 0} (o : Outcome A) (k : A → Op D B) (d : D) (b : B) (d' : D)
      → go_on k (o, d) ≡ (done b, d')
      → (a : A) × (o ≡ done a) × (k a d ≡ (done b, d'))
  unfolding go_on
  look-done (done a) k d b d' h = (a, refl, h)
  look-done (failed e) k d b d' h = absurd (failed_done e d b d' h)
