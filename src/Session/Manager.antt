-- ===== src/Session/Manager.antt =====
-- The manager's operations on one session, and what they leave of the others.
use remote_cli.Common.{
  ℕ, zero, suc, ◌+◌, ◌*◌, ◌≤◌, ◌<◌, ◌≡◌, ◌≢◌, refl, sym, ap, ◌∙◌, Option, none, some, List, [], ◌∷◌,
  String, arith, leb, if◌then◌else◌,
}
use remote_cli.Common.Int.{ℤ, pos, negsuc}
use remote_cli.Common.Dict
use remote_cli.Common.Dict.{
  lookup, Unique, lookup-insert, lookup-delete, lookup-insert_self, lookup-insert_ne,
  lookup-delete_self, lookup-delete_ne,
}
use remote_cli.Session.{
  second, Session, Sessions, SessionCreateRequest, renewed, expired, ttl_of, new_session, create,
  get, touch, cleanup,
}
use text.Mathlib.Text.{◌==◌}
use text.Mathlib.TextEquality.{eq_iff}

-- The TTL is from one second to a day.
pub ttl_of_bounds : (t : ℤ) → (1 ≤ ttl_of t) × (ttl_of t ≤ 86400)
unfolding ttl_of
ttl_of_bounds (negsuc n) = omega arith
ttl_of_bounds (pos zero) = omega arith
ttl_of_bounds (pos (suc n)) = ground arith

-- A stored session that has not expired at `now` is what `Get` returns, and `Get` changes nothing;
-- one that has expired, or is not there, is not returned and is not there afterwards; the other
-- sessions stay as they are.
pub get_cases :
    (id : String) (now : ℕ) (m : Sessions)
    → ((s : Session) → lookup id m ≡ some s → now ≤ s.expires_at → get id now m ≡ (m, some s))
      × ((s : Session)
          → lookup id m ≡ some s
          → s.expires_at < now
          → ((get id now m).1 ≡ none) × (lookup id (get id now m).0 ≡ none))
      × (lookup id m ≡ none → get id now m ≡ (m, none))
      × ((j : String) → id ≢ j → lookup j (get id now m).0 ≡ lookup j m)
unfolding get expired
get_cases id now m = (
  λ s at le. ground arith,
  λ s at lt. (ground arith, ground (arith, lookup-delete_self id m)),
  λ absent. ground arith,
  λ j other. ground (arith, lookup-delete_ne id j m other),
)

pub touch_live :
    (id : String) (now later : ℕ) (m : Sessions) (s : Session)
    → lookup id m ≡ some s
    → now ≤ s.expires_at
    → touch id now later m ≡ (Dict.insert id (renewed s later) m, some (renewed s later))
unfolding touch
touch_live id now later m s at le = ground (arith, (get_cases id now m).0 s at le)

-- The part of an entry that is in time.
unfoldable pub kept : ℕ → Option Session → Option Session
kept now none = none
kept now (some s) = if expired s now then none else some s

cleanup-none :
    (now : ℕ) (id : String) (m : Sessions) → lookup id m ≡ none → lookup id (cleanup now m) ≡ none
unfolding lookup cleanup
cleanup-none now id [] h = refl
cleanup-none now id ((k, s) ∷ m) h = ground (arith, cleanup-none now id m)

lookup-cleanup :
    (now : ℕ) (id : String) (m : Sessions)
    → Unique m
    → lookup id (cleanup now m) ≡ kept now (lookup id m)
unfolding lookup cleanup kept
lookup-cleanup now id [] u = refl
lookup-cleanup now id ((k, s) ∷ m) u = ground (
  arith,
  lookup-cleanup now id m u.1,
  cleanup-none now id m,
  eq_iff k id,
  u.0,
  ap (λ i. lookup i m) {x = k} {y = id},
)

pub get_by_lookup :
    (id : String) (now : ℕ) (m : Sessions) → (get id now m).1 ≡ kept now (lookup id m)
unfolding get kept
get_by_lookup id now m = ground arith

kept-kept :
    (early now : ℕ) (o : Option Session) → early ≤ now → kept now (kept early o) ≡ kept now o
unfolding kept expired
kept-kept early now none h = refl
kept-kept early now (some s) h = ground arith

-- A round of the clean-up cannot be observed: a `Get` that does not come before it answers as it
-- would have without it. The ids are distinct, as in a Go map.
pub get-cleanup :
    (id : String) (early now : ℕ) (m : Sessions)
    → Unique m
    → early ≤ now
    → (get id now (cleanup early m)).1 ≡ (get id now m).1
get-cleanup id early now m u h =
    get_by_lookup id now (cleanup early m)
    ∙ ap (kept now) (lookup-cleanup early id m u)
    ∙ kept-kept early now (lookup id m) h
    ∙ sym (get_by_lookup id now m)

-- `Get` answers with the session that is stored under the id, if it has not expired. Afterwards an
-- expired one is gone, and every other session is as it was.
pub get-lookup :
    (id j : String) (now : ℕ) (m : Sessions)
    → ((get id now m).1 ≡ kept now (lookup id m))
      × (lookup j (get id now m).0 ≡ (if id == j then kept now (lookup id m) else lookup j m))
unfolding get kept
get-lookup id j now m = (
  get_by_lookup id now m,
  ground (arith, lookup-delete id j m, eq_iff id j, ap (λ i. lookup i m) {x = id} {y = j}),
)

-- A session that `Create` makes is what `Get` returns under its id until its TTL has passed, and
-- no longer; the TTL is one second to one day, and the other sessions stay.
pub create-get :
    (home : List ℕ) (id j : String) (now t : ℕ) (req : SessionCreateRequest) (m : Sessions)
    → ((get id t (create home id now req m).0).1 ≡ (
        if leb t (now + ttl_of req.ttl_seconds * second)
        then some (new_session home id now req)
        else none))
      × (1 ≤ ttl_of req.ttl_seconds)
      × (ttl_of req.ttl_seconds ≤ 86400)
      × (lookup j (create home id now req m).0
          ≡ (if id == j then some (new_session home id now req) else lookup j m))
unfolding create new_session kept expired
create-get home id j now t req m =
    let s : Session = new_session home id now req in
    (
      get_by_lookup id t (Dict.insert id s m)
          ∙ ap (kept t) (lookup-insert_self id s m)
          ∙ ground arith,
      (ttl_of_bounds req.ttl_seconds).0,
      (ttl_of_bounds req.ttl_seconds).1,
      lookup-insert id j s m,
    )
