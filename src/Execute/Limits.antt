-- ===== src/Execute/Limits.antt =====
-- The operator's ceilings.
use remote_cli.Common.{suc, zero, ◌*◌, ◌≤◌, ◌≡◌, ◌⊎◌, inr, arith}
use remote_cli.Common.Int.{ℤ, pos, negsuc}
use remote_cli.Execute.{Config, resolve_timeout, output_ceiling, resolve_output}

output_ceiling-le : (c : Config) (r : ℤ) → (c.max_output ≡ 0) ⊎ (output_ceiling c r ≤ c.max_output)
unfolding output_ceiling
output_ceiling-le c (negsuc n) = inr (omega arith)
output_ceiling-le c (pos zero) = inr (omega arith)
output_ceiling-le c (pos (suc n)) = ground arith

-- Whatever a request asks for, its command runs at most `MaxTimeout` seconds, at least one byte of
-- output is kept, and no more than the operator's ceiling, if there is one.
pub limits_hold :
    (c : Config) (timeout_ms requested : ℤ)
    → (resolve_timeout c timeout_ms ≤ c.max_timeout * 1000000000)
      × (1 ≤ resolve_output c requested)
      × ((c.max_output ≡ 0) ⊎ (resolve_output c requested ≤ c.max_output))
unfolding resolve_timeout resolve_output
limits_hold c timeout_ms requested =
    (ground arith, ground arith, ground (arith, output_ceiling-le c requested))
