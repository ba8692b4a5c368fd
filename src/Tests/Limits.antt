-- ===== src/Tests/Limits.antt =====
-- middleware.go and session.go: a limiter of two requests per minute, and a session of an hour.
use text.Mathlib.Text.{◌==◌ as str_eq}
use remote_cli.Common.{
  String, ◌≢◌, ◌+◌, ◌*◌, ◌<◌, ◌≤◌, ◌≡◌, refl, true, false, none, some, [], ◌∷◌, arith, leb,
  if◌then◌else◌,
}
use remote_cli.Common.Int.{pos}
use remote_cli.Common.Dict.{lookup}
use remote_cli.RateLimit.{bucket_idle_ttl, RateLimiter, sweep}
use remote_cli.RateLimit.Available.{available}
use remote_cli.RateLimit.Retry.{sweep_refills_early}
use remote_cli.Session.{
  second, Session, Sessions, SessionCreateRequest, create, get, touch, cleanup, new_session, ttl_of,
}
use remote_cli.Session.Manager.{create-get, get-cleanup}
use text.Mathlib.TextEquality.{eq_iff}
use remote_cli.Session.Busy.{Busy, at_first, then_step, used, created, cleaned, Alive, Busy-Alive}

-- One client, seen at time 0, with nothing left.
abbrev limiter : RateLimiter
limiter = record {
  per_min = 2;
  burst = 3;
  buckets = ("ann", record { tokens = 0; last_seen = 0 }) ∷ [];
}

abbrev bursty : RateLimiter
bursty = record limiter { burst = 5 }

sweep_refills_early_example :
    available bursty (lookup "ann" bursty.buckets) (0 + bucket_idle_ttl + 1)
    < available
        (sweep bursty (0 + bucket_idle_ttl + 1))
        (lookup "ann" (sweep bursty (0 + bucket_idle_ttl + 1)).buckets)
        (0 + bucket_idle_ttl + 1)
unfolding lookup
sweep_refills_early_example =
    sweep_refills_early bursty "ann" 0 (refl, tt) refl (omega arith) (omega arith)

abbrev session : Session
session = record {
  id = "s";
  environment = [];
  shell = [];
  created_at = 0;
  ttl = 3600 * second;
  working_directory = 47 ∷ [];
  expires_at = 3600 * second;
}

abbrev sessions : Sessions
sessions = ("s", session) ∷ []

abbrev asked : SessionCreateRequest
asked = record { working_directory = 47 ∷ []; shell = []; ttl_seconds = pos 60; environment = [] }

t_not_s : ◌≢◌ {A = String} "t" "s"
t_not_s h = let wrong : false ≡ true = (eq_iff "t" "s").1 h in cc

-- Used after 3000 seconds, cleaned around, and used again after 6000.
abbrev once : Sessions
once = (touch "s" (3000 * second) (3001 * second) sessions).0

abbrev swept : Sessions
swept = cleanup (4000 * second) (create [] "t" (3500 * second) asked once).0

in_use :
    Busy "s"
      (3600 * second)
      sessions
      (3600 * second)
      (touch "s" (6000 * second) (6002 * second) swept).0
      (6002 * second + 3600 * second)
in_use =
    then_step
      (then_step
        (then_step
          (then_step at_first
            (used sessions (3600 * second) (3000 * second) (3001 * second) (omega arith)))
          (created once (3001 * second + 3600 * second) [] "t" (3500 * second) asked t_not_s))
        (cleaned (create [] "t" (3500 * second) asked once).0 (3001 * second + 3600 * second)
          (4000 * second) (omega arith)))
      (used swept (3001 * second + 3600 * second) (6000 * second) (6002 * second) (omega arith))

Busy-Alive_example :
    Alive "s" session
      (touch "s" (6000 * second) (6002 * second) swept).0
      (6002 * second + 3600 * second)
unfolding lookup
Busy-Alive_example = Busy-Alive session refl in_use (47 ∷ [], refl)

get-cleanup_example :
    (get "s" (5000 * second) (cleanup (4000 * second) sessions)).1
    ≡ (get "s" (5000 * second) sessions).1
unfolding lookup
get-cleanup_example =
    get-cleanup "s" (4000 * second) (5000 * second) sessions (refl, tt) (omega arith)

create-get_example :
    ((get "t" 9 (create [] "t" 7 asked sessions).0).1
      ≡ (if leb 9 (7 + ttl_of (pos 60) * second) then some (new_session [] "t" 7 asked) else none))
    × (1 ≤ ttl_of (pos 60))
    × (ttl_of (pos 60) ≤ 86400)
    × (lookup "s" (create [] "t" 7 asked sessions).0
        ≡ (if str_eq "t" "s" then some (new_session [] "t" 7 asked) else lookup "s" sessions))
create-get_example = create-get [] "t" "s" 7 9 asked sessions
