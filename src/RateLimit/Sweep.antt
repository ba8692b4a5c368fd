-- ===== src/RateLimit/Sweep.antt =====
-- `sweep`, and how the refill of a bucket goes on in time.
use remote_cli.Common.{
  ℕ, ◌+◌, ◌-◌, ◌*◌, ◌≤◌, ◌≡◌, refl, ap, inl, inr, Option, none, some, List, [], ◌∷◌, String, arith,
  ltb, if◌then◌else◌, Bool-cases,
}
use remote_cli.Common.Dict.{lookup, Unique}
use remote_cli.RateLimit.{minute, bucket_idle_ttl, Bucket, RateLimiter, sweep_buckets}
use remote_cli.RateLimit.Available.{available, Sound}
use text.Mathlib.TextEquality.{eq_iff}

pub mul_mono : (a b p : ℕ) → a ≤ b → a * p ≤ b * p
mul_mono a b p h = grind arith

-- More becomes available at the refill rate, and no faster.
pub available-later :
    (rl : RateLimiter) (o : Option Bucket) (t0 t : ℕ)
    → Sound rl t0 o
    → t0 ≤ t
    → available rl o t ≤ available rl o t0 + (t - t0) * rl.per_min
unfolding available
available-later rl none t0 t h le = omega arith
available-later rl (some b) t0 t h le = omega (arith, ap (λ (d : ℕ). d * rl.per_min) parts)
  where
    parts : t - b.last_seen ≡ (t - t0) + (t0 - b.last_seen)
    parts = omega arith

-- What `sweep` leaves of an entry.
unfoldable pub swept : ℕ → Option Bucket → Option Bucket
swept now none = none
swept now (some b) = if ltb (b.last_seen + bucket_idle_ttl) now then none else some b

lookup-sweep_none :
    (now : ℕ) (k : String) (m : List (String × Bucket))
    → lookup k m ≡ none
    → lookup k (sweep_buckets now m) ≡ none
unfolding lookup sweep_buckets
lookup-sweep_none now k [] h = refl
lookup-sweep_none now k ((j, b) ∷ m) h = ground (arith, lookup-sweep_none now k m)

pub lookup-sweep :
    (now : ℕ) (k : String) (m : List (String × Bucket))
    → Unique m
    → lookup k (sweep_buckets now m) ≡ swept now (lookup k m)
unfolding lookup sweep_buckets swept
lookup-sweep now k [] u = refl
lookup-sweep now k ((j, b) ∷ m) u = ground (
  arith,
  lookup-sweep now k m u.1,
  lookup-sweep_none now k m,
  eq_iff j k,
  u.0,
  ap (λ i. lookup i m) {x = j} {y = k},
)

pub sweep-Unique : (now : ℕ) (m : List (String × Bucket)) → Unique m → Unique (sweep_buckets now m)
unfolding sweep_buckets
sweep-Unique now [] u = tt
sweep-Unique now ((j, b) ∷ m) u = elim (Bool-cases (ltb (b.last_seen + bucket_idle_ttl) now)) [
  | inl idle ↦ rw idle (sweep-Unique now m u.1)
  | inr busy ↦ rw busy (lookup-sweep_none now j m u.0, sweep-Unique now m u.1)
]

pub swept-Sound :
    (rl : RateLimiter) (now : ℕ) (o : Option Bucket) → Sound rl now o → Sound rl now (swept now o)
unfolding swept
swept-Sound rl now none h = tt
swept-Sound rl now (some b) h = elim (Bool-cases (ltb (b.last_seen + bucket_idle_ttl) now)) [
  | inl idle ↦ rw idle tt
  | inr busy ↦ rw busy h
]

-- A bucket that is swept would have been full.
pub available-swept :
    (rl : RateLimiter) (now t : ℕ) (o : Option Bucket)
    → rl.burst ≤ 2 * rl.per_min
    → now ≤ t
    → available rl (swept now o) t ≡ available rl o t
unfolding swept available
available-swept rl now t none h le = refl
available-swept rl now t (some b) h le =
    elim (Bool-cases (ltb (b.last_seen + bucket_idle_ttl) now)) [
      | inl idle ↦
          rw idle (omega (arith, mul_mono (2 * minute) (t - b.last_seen) rl.per_min (ground arith)))
      | inr busy ↦ rw busy refl
    ]
