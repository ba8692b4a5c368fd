-- ===== src/RateLimit.antt =====
-- middleware.go: the token bucket per client host. Tokens are float64 in the source; here they are
-- counted in parts of 1 / `minute` token, in which the refill of `per_min` tokens a minute is
-- `per_min` parts a nanosecond, exactly: the rounding of the source is left out, so nothing here
-- says on which side of a whole token a bucket falls there. Times are nanoseconds, and `per_min` is not negative.
pub mod Available
pub mod Sweep
pub mod Retry
use remote_cli.Common.{
  ℕ, zero, suc, ◌+◌, ◌-◌, ◌*◌, ◌/◌, Bool, true, false, Option, none, some, List, [], ◌∷◌, String,
  ltb, leb, ◌==◌, if◌then◌else◌,
}
use remote_cli.Common.Int.{ℤ, pos, negsuc}
use remote_cli.Common.Dict

-- `time.Minute`
abbrev pub minute : ℕ
minute = 60000000000

-- `time.Millisecond`
abbrev pub millisecond : ℕ
millisecond = 1000000

pub record Bucket : Type 0 where
  pub tokens : ℕ
  pub last_seen : ℕ

pub record RateLimiter : Type 0 where
  pub buckets : List (String × Bucket)
  pub per_min : ℕ
  pub burst : ℕ

abbrev pub bucket_idle_ttl : ℕ
bucket_idle_ttl = 2 * minute

-- `NewRateLimiter`
unfoldable pub new_rate_limiter : ℕ → ℤ → RateLimiter
new_rate_limiter per_min (pos (suc n)) = record { buckets = []; per_min = per_min; burst = suc n }
new_rate_limiter per_min _ = record { buckets = []; per_min = per_min; burst = per_min }

-- The bucket that `refill` returns, from the one that was there.
unfoldable pub refilled : RateLimiter → Option Bucket → ℕ → Bucket
refilled rl none now = record { tokens = rl.burst * minute; last_seen = now }
refilled rl (some b) now =
    if ltb b.last_seen now
    then (let tokens = b.tokens + (now - b.last_seen) * rl.per_min in
        record {
          tokens = if ltb (rl.burst * minute) tokens then rl.burst * minute else tokens;
          last_seen = now;
        })
    else record { tokens = b.tokens; last_seen = now }

-- `refill`
unfoldable pub refill : RateLimiter → String → ℕ → RateLimiter × Bucket
refill rl key now =
    let b = refilled rl (Dict.lookup key rl.buckets) now in
    (record rl { buckets = Dict.insert key b rl.buckets }, b)

pub record Taken : Type 0 where
  pub ok : Bool
  pub remaining : ℕ
  pub wait : ℕ

-- `take`: the limiter after it, and what it returns.
unfoldable pub take : RateLimiter → String → ℕ → RateLimiter × Taken
take rl key now =
    let (rl', b) = refill rl key now in
    if ltb b.tokens minute
    then (
      rl',
      record {
        ok = false;
        remaining = 0;
        wait = if rl.per_min == 0 then minute else (minute - b.tokens) / rl.per_min;
      },
    )
    else (let b' = record b { tokens = b.tokens - minute } in
        (
          record rl' { buckets = Dict.insert key b' rl'.buckets },
          record { ok = true; remaining = b'.tokens / minute; wait = 0 },
        ))

-- `Allow`
unfoldable pub allow : RateLimiter → String → ℕ → RateLimiter × Bool × ℕ
allow rl key now = let (rl', t) = take rl key now in (rl', t.ok, t.remaining)

-- The loop of `sweep`.
unfoldable pub sweep_buckets : ℕ → List (String × Bucket) → List (String × Bucket)
sweep_buckets now [] = []
sweep_buckets now ((k, b) ∷ m) =
    let rest = sweep_buckets now m in
    if ltb (b.last_seen + bucket_idle_ttl) now then rest else (k, b) ∷ rest

-- `sweep`
unfoldable pub sweep : RateLimiter → ℕ → RateLimiter
sweep rl now = record rl { buckets = sweep_buckets now rl.buckets }

-- What `RateLimitMiddleware` does with a request: hand it on as it is, hand it on with the rate
-- headers, or answer 429 with `Retry-After` in seconds and `retry_after_ms`.
pub data Verdict : Type 0 where
  exempt : Verdict
  passed : ℕ → Verdict
  refused : ℕ → ℕ → Verdict

unfoldable pub rate_limit : Bool → RateLimiter → String → ℕ → RateLimiter × Verdict
rate_limit is_mcp_stream rl client now =
    if is_mcp_stream
    then (rl, exempt)
    else (let (rl', t) = take rl client now in
        let wait_ms = t.wait / millisecond + 1 in
        (rl', if t.ok then passed t.remaining else refused ((wait_ms + 999) / 1000) wait_ms))
