-- ===== src/RateLimit/Available.antt =====
-- What a key's bucket holds at a time, and how the operations change it.
use remote_cli.Common.{
  subst, ℕ, ◌+◌, ◌-◌, ◌*◌, ◌/◌, ◌≤◌, ◌≡◌, ◌≢◌, refl, inl, inr, true, false, Option, none, some,
  List, String, arith, min, ltb, leb, if◌then◌else◌, Bool-cases,
}
use remote_cli.Common.Dict
use remote_cli.Common.Dict.{lookup, lookup-insert, lookup-insert_self, lookup-insert_ne}
use remote_cli.RateLimit.{minute, Bucket, RateLimiter, refilled, refill, take}

-- The parts of tokens that a request at time `t` would find.
unfoldable pub available : RateLimiter → Option Bucket → ℕ → ℕ
available rl none t = rl.burst * minute
available rl (some b) t = min (rl.burst * minute) (b.tokens + (t - b.last_seen) * rl.per_min)

-- A bucket is never fuller than the burst, and was last seen by `t`.
abbrev pub Sound : RateLimiter → ℕ → Option Bucket → Type 0
Sound rl t none = Unit
Sound rl t (some b) = (b.tokens ≤ rl.burst * minute) × (b.last_seen ≤ t)

refilled-available :
    (rl : RateLimiter) (o : Option Bucket) (t : ℕ)
    → Sound rl t o
    → ((refilled rl o t).tokens ≡ available rl o t) × ((refilled rl o t).last_seen ≡ t)
unfolding refilled available
refilled-available rl none t h = (refl, refl)
refilled-available rl (some b) t h = elim (Bool-cases (ltb b.last_seen t)) [
  | inl later ↦ rw later (ground arith, refl)
  | inr same ↦ let e : t - b.last_seen ≡ 0 = ground arith in rw same (rw e (omega arith), refl)
]

-- What `take` does to the limiter, where `have` parts are available.
pub record Took (rl : RateLimiter) (key : String) (t : ℕ) (have : ℕ) : Type 0 where
  pub per_min : (take rl key t).0.per_min ≡ rl.per_min
  pub burst : (take rl key t).0.burst ≡ rl.burst
  pub grants : (take rl key t).1.ok ≡ leb minute have
  pub left :
      lookup key (take rl key t).0.buckets
      ≡ some (record { tokens = if leb minute have then have - minute else have; last_seen = t })
  pub waits :
      leb minute have ≡ false
      → rl.per_min ≢ 0
      → (take rl key t).1.wait ≡ (minute - have) / rl.per_min
  pub others : (j : String) → key ≢ j → lookup j (take rl key t).0.buckets ≡ lookup j rl.buckets

module _ (rl : RateLimiter) (key : String) (t : ℕ) where
  abbrev bucket : Bucket
  bucket = refilled rl (lookup key rl.buckets) t

  refused_Took :
      ltb bucket.tokens minute ≡ true → bucket.last_seen ≡ t → Took rl key t bucket.tokens
  unfolding take refill
  refused_Took few seen = record {
    per_min = ground arith;
    burst = ground arith;
    grants = ground arith;
    left = ground (arith, lookup-insert_self key bucket rl.buckets);
    waits = λ f n. ground arith;
    others = λ j n. ground (arith, lookup-insert_ne key j bucket rl.buckets n);
  }

  granted_Took :
      ltb bucket.tokens minute ≡ false → bucket.last_seen ≡ t → Took rl key t bucket.tokens
  unfolding take refill
  granted_Took enough seen =
      let b' : Bucket = record bucket { tokens = bucket.tokens - minute } in
      let m : List (String × Bucket) = Dict.insert key bucket rl.buckets in
      record {
        per_min = ground arith;
        burst = ground arith;
        grants = ground arith;
        left = ground (arith, lookup-insert_self key b' m);
        waits = λ f n. ground arith;
        others = λ j n.
            ground
              (arith, lookup-insert_ne key j b' m n, lookup-insert_ne key j bucket rl.buckets n);
      }

  -- `take` grants a request exactly if a whole token is available, takes that token, and touches
  -- no other key's bucket.
  pub take-Took :
      Sound rl t (lookup key rl.buckets) → Took rl key t (available rl (lookup key rl.buckets) t)
  take-Took h =
      let (have, seen) = refilled-available rl (lookup key rl.buckets) t h in
      subst (Took rl key t) have (elim (Bool-cases (ltb bucket.tokens minute)) [
        | inl few ↦ refused_Took few seen
        | inr enough ↦ granted_Took enough seen
      ])
