-- ===== src/Execute.antt =====
-- executor.go: the limits of a command, and how its end is classified. Times are nanoseconds. The
-- operator's limits are not negative; a request's may be.
pub mod Limits
use remote_cli.Common.{
  ℕ, suc, zero, ◌*◌, Bool, true, false, not, ◌&&◌, ◌||◌, List, [], ◌∷◌, leb, ltb, if◌then◌else◌,
}
use remote_cli.Common.Int.{ℤ, pos, negsuc}

-- The fields of `Config` that `Executor` reads here.
pub record Config : Type 0 where
  pub default_shell : List ℕ
  pub max_timeout : ℕ
  pub max_output : ℕ

-- `resolveShell`
unfoldable pub resolve_shell : Config → List ℕ → List ℕ
resolve_shell c [] = c.default_shell
resolve_shell c (x ∷ shell) = x ∷ shell

-- `timeoutMs` once the default is in place.
unfoldable pub timeout_or_default : ℤ → ℕ
timeout_or_default (negsuc n) = 30000
timeout_or_default (pos zero) = 30000
timeout_or_default (pos (suc n)) = suc n

-- `resolveTimeout`
unfoldable pub resolve_timeout : Config → ℤ → ℕ
resolve_timeout c timeout_ms =
    let ms = timeout_or_default timeout_ms in
    (if ltb (c.max_timeout * 1000) ms then c.max_timeout * 1000 else ms) * 1000000

-- `maxOutput` of `execute`, up to its first `if`.
unfoldable pub output_ceiling : Config → ℤ → ℕ
output_ceiling c (negsuc n) = c.max_output
output_ceiling c (pos zero) = c.max_output
output_ceiling c (pos (suc n)) =
    if ltb 0 c.max_output && ltb c.max_output (suc n) then c.max_output else suc n

-- `maxOutput` of `execute`
unfoldable pub resolve_output : Config → ℤ → ℕ
resolve_output c requested =
    if leb (output_ceiling c requested) 0 then 1 else output_ceiling c requested

-- What `cmd.Wait` returns: nil, `ErrWaitDelay` with the exit code of the shell, an `ExitError`, or
-- another error; and `ctx.Err()`.
pub data WaitError : Type 0 where
  no_error other_error : WaitError
  wait_delay exit_error : ℤ → WaitError

pub data ContextError : Type 0 where
  live deadline_exceeded context_canceled : ContextError

unfoldable pub exit_code_of : WaitError → ℤ
exit_code_of no_error = pos 0
exit_code_of (wait_delay n) = n
exit_code_of (exit_error n) = n
exit_code_of other_error = negsuc 0

-- The test `waitErr == nil || errors.Is(waitErr, exec.ErrWaitDelay)`.
unfoldable pub ended_well : WaitError → Bool
ended_well no_error = true
ended_well (wait_delay n) = true
ended_well _ = false

-- `classifyWait`: the exit code, whether it timed out, and whether there is a note.
unfoldable pub classify_wait : ContextError → WaitError → ℤ × Bool × Bool
classify_wait ctx e = if ended_well e then (exit_code_of e, false, false) else elim ctx [
  | deadline_exceeded ↦ (exit_code_of e, true, false)
  | context_canceled ↦ (exit_code_of e, false, true)
  | live ↦ (exit_code_of e, false, false)
]

unfoldable pub is_canceled : ContextError → Bool
is_canceled context_canceled = true
is_canceled _ = false

-- `cancelled` of `execute`
unfoldable pub cancelled : ContextError → WaitError → Bool
cancelled ctx e = not (classify_wait ctx e).1 && not (ended_well e) && is_canceled ctx
