-- ===== src/Executions/Handoff.antt =====
-- Who reports the outcome of a launched command: the goroutine of `Launch` and the launching call
-- share the execution, and their critical sections interleave in any order with each other and
-- with the registry's `dropOutput`.
use remote_cli.Common.{
  ℕ, ◌≡◌, refl, sym, ◌∙◌, ◌⊎◌, inl, inr, Bool, true, false, Option, none, some, arith, subst,
  Option-cases,
}
use mathlib.Core.Path.{subst₂}
use remote_cli.Executions.{ExecResult, Execution, claim, finish, drop_output, over}

-- `answer` is what `claim` gave the launching call, once it has asked; `late` is what the goroutine
-- read of `handedOff` when it stored the result.
pub record Launched : Type 0 where
  pub ex : Execution
  pub answer : Option (Option ExecResult)
  pub late : Option Bool

pub data Step : Launched → Launched → Type 0 where
  finishes :
      (s : Launched) (r : ExecResult) (now : ℕ)
      → s.late ≡ none
      → Step s (record s { ex = (finish s.ex r now).0; late = some (finish s.ex r now).1 })
  claims :
      (s : Launched)
      → s.answer ≡ none
      → Step s (record s { ex = (claim s.ex).0; answer = some (claim s.ex).1 })
  drops : (s : Launched) → Step s (record s { ex = drop_output s.ex })

pub data Reach (s : Launched) : Launched → Type 0 where
  here : Reach s s
  next : {t u : Launched} → Reach s t → Step t u → Reach s u

-- An execution as `Launch` makes it.
pub record Fresh (s : Launched) : Type 0 where
  pub no_result : s.ex.result ≡ none
  pub not_handed : s.ex.handed_off ≡ false
  pub unanswered : s.answer ≡ none
  pub unfinished : s.late ≡ none

-- By what the two have done so far.
abbrev Agreed : Option (Option ExecResult) → Option Bool → Bool → Bool → Type 0
Agreed none none over handed = (over ≡ false) × (handed ≡ false)
Agreed none (some late) over handed = (over ≡ true) × (late ≡ false) × (handed ≡ false)
Agreed (some none) none over handed = (over ≡ false) × (handed ≡ true)
Agreed (some none) (some late) over handed = (late ≡ true)
Agreed (some (some r)) none over handed = ⊥
Agreed (some (some r)) (some late) over handed = (late ≡ false)

abbrev Inv : Launched → Type 0
Inv s = Agreed s.answer s.late (over s.ex) s.ex.handed_off

finishes-Inv :
    (ex : Execution) (answer : Option (Option ExecResult)) (r : ExecResult) (now : ℕ)
    → Agreed answer none (over ex) ex.handed_off
    → Agreed answer
        (some (finish ex r now).1)
        (over (finish ex r now).0)
        (finish ex r now).0.handed_off
unfolding finish over
finishes-Inv ex none r now h = (refl, h.1, h.1)
finishes-Inv ex (some none) r now h = h.1
finishes-Inv ex (some (some r')) r now h = absurd h

claim-none :
    (ex : Execution)
    → ex.result ≡ none
    → (claim ex ≡ (record ex { handed_off = true }, none)) × (over ex ≡ false)
unfolding claim over
claim-none ex e = (ground arith, ground arith)

claim-some :
    (ex : Execution) (r : ExecResult)
    → ex.result ≡ some r
    → (claim ex ≡ (ex, some r)) × (over ex ≡ true)
unfolding claim over
claim-some ex r e = (ground arith, ground arith)

over_handed : (x : Execution) → over (record x { handed_off = true }) ≡ over x
unfolding over
over_handed x = refl

left_Agreed :
    (late : Option Bool) (o handed o' : Bool)
    → o ≡ false
    → o' ≡ o
    → Agreed none late o handed
    → Agreed (some none) late o' true
left_Agreed none o handed o' e same h = (same ∙ e, refl)
left_Agreed (some l) o handed o' e same h = absurd (cc (h.0, e))

answered_Agreed :
    (late : Option Bool) (r : ExecResult) (o handed : Bool)
    → o ≡ true
    → Agreed none late o handed
    → Agreed (some (some r)) late o handed
answered_Agreed none r o handed e h = absurd (cc (h.0, e))
answered_Agreed (some l) r o handed e h = h.1

claims-Inv :
    (ex : Execution) (late : Option Bool)
    → Agreed none late (over ex) ex.handed_off
    → Agreed (some (claim ex).1) late (over (claim ex).0) (claim ex).0.handed_off
claims-Inv ex late h = elim (Option-cases ex.result) [
  | inl e ↦
      rw (claim-none ex e).0
        (left_Agreed late (over ex) ex.handed_off _ (claim-none ex e).1 (over_handed ex) h)
  | inr (r, e) ↦
      rw (claim-some ex r e).0
        (answered_Agreed late r (over ex) ex.handed_off (claim-some ex r e).1 h)
]

drop_output-same :
    (ex : Execution)
    → (over (drop_output ex) ≡ over ex) × ((drop_output ex).handed_off ≡ ex.handed_off)
unfolding drop_output over
drop_output-same ex = ground arith

Step-Inv : {s t : Launched} → Step s t → Inv s → Inv t
Step-Inv (finishes s r now e) h =
    finishes-Inv s.ex s.answer r now
      (subst (λ l. Agreed s.answer l (over s.ex) s.ex.handed_off) e h)
Step-Inv (claims s e) h =
    claims-Inv s.ex s.late (subst (λ a. Agreed a s.late (over s.ex) s.ex.handed_off) e h)
Step-Inv (drops s) h =
    subst₂ (Agreed s.answer s.late) (sym (drop_output-same s.ex).0) (sym (drop_output-same s.ex).1)
      h

Reach-Inv : {s t : Launched} → Inv s → Reach s t → Inv t
Reach-Inv h here = h
Reach-Inv h (next r st) = Step-Inv st (Reach-Inv h r)

Fresh-Inv : (s : Launched) → Fresh s → Inv s
unfolding over
Fresh-Inv s f =
    subst₂ (λ a l. Agreed a l (over s.ex) s.ex.handed_off) (sym f.unanswered) (sym f.unfinished)
      ((claim-none s.ex f.no_result).1, f.not_handed)

verdict :
    (answer : Option ExecResult) (late o handed : Bool)
    → Agreed (some answer) (some late) o handed
    → ((answer ≡ none) × (late ≡ true)) ⊎ ((r : ExecResult) × (answer ≡ some r) × (late ≡ false))
verdict none late o handed h = inl (refl, h)
verdict (some r) late o handed h = inr (r, refl, h)

-- In every interleaving, once the command has finished and the launching call has made its
-- decision, exactly one of the two reports the outcome: either the call was given no result and
-- the goroutine calls `onLate`, or the call was given a result and the goroutine does not.
pub reported_once :
    (s t : Launched) (answer : Option ExecResult) (late : Bool)
    → Fresh s
    → Reach s t
    → t.answer ≡ some answer
    → t.late ≡ some late
    → ((answer ≡ none) × (late ≡ true)) ⊎ ((r : ExecResult) × (answer ≡ some r) × (late ≡ false))
reported_once s t answer late f reach a l =
    verdict answer late (over t.ex) t.ex.handed_off
      (subst₂ (λ x y. Agreed x y (over t.ex) t.ex.handed_off) a l (Reach-Inv (Fresh-Inv s f) reach))
