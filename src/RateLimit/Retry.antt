-- ===== src/RateLimit/Retry.antt =====
-- What a sweep may give away.
use remote_cli.Common.{ℕ, ◌+◌, ◌-◌, ◌*◌, ◌<◌, ◌≡◌, ap, true, some, String, arith, ltb}
use remote_cli.Common.Dict.{lookup, Unique}
use remote_cli.RateLimit.{minute, bucket_idle_ttl, RateLimiter, sweep}
use remote_cli.RateLimit.Sweep.{swept, lookup-sweep}
use remote_cli.RateLimit.Available.{available}

-- Where the burst is more than two minutes' refill, a sweep is not neutral: a client whose bucket
-- was empty and is dropped after two idle minutes has more tokens available than without the sweep.
pub sweep_refills_early :
    (rl : RateLimiter) (key : String) (seen : ℕ)
    → Unique rl.buckets
    → lookup key rl.buckets ≡ some (record { tokens = 0; last_seen = seen })
    → 2 * rl.per_min < rl.burst
    → rl.per_min < minute
    → (let now = seen + bucket_idle_ttl + 1 in
        available rl (lookup key rl.buckets) now
        < available (sweep rl now) (lookup key (sweep rl now).buckets) now)
unfolding available sweep swept
sweep_refills_early rl key seen u at more slow =
    rw (lookup-sweep (seen + bucket_idle_ttl + 1) key rl.buckets u, at, idle)
      (omega (arith, ap (λ (d : ℕ). d * rl.per_min) since))
  where
    idle : ltb (seen + bucket_idle_ttl) (seen + bucket_idle_ttl + 1) ≡ true
    idle = ground arith

    since : seen + bucket_idle_ttl + 1 - seen ≡ bucket_idle_ttl + 1
    since = omega arith
