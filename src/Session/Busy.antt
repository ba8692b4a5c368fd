-- ===== src/Session/Busy.antt =====
-- What callers and the clean-up do to the sessions while one of them is in use.
use remote_cli.Common.{
  ℕ, ◌+◌, ◌≤◌, ◌≡◌, ◌≢◌, refl, ap, ◌∙◌, some, List, [], ◌∷◌, String, arith, Option-cases, inl, inr,
}
use remote_cli.Common.Dict.{lookup, lookup-insert_self, lookup-insert_ne, lookup-delete_ne}
use remote_cli.Session.{
  Session, Sessions, SessionCreateRequest, renewed, expired, create, get, touch, delete,
  update_working_directory, cleanup,
}
use remote_cli.Session.Manager.{get_cases, touch_live}

-- One event, and the expiry of the session `id` before and after it. What looks at that session,
-- a round of the clean-up among it, comes before the expiry; what is done to others may come at
-- any time.
pub data Step (id : String) (ttl : ℕ) : Sessions → ℕ → Sessions → ℕ → Type 0 where
  used :
      (m : Sessions) (e now later : ℕ)
      → now ≤ e
      → Step id ttl m e (touch id now later m).0 (later + ttl)
  found : (m : Sessions) (e now : ℕ) → now ≤ e → Step id ttl m e (get id now m).0 e
  moved :
      (m : Sessions) (e : ℕ) (cwd : List ℕ) → Step id ttl m e (update_working_directory id cwd m) e
  cleaned : (m : Sessions) (e now : ℕ) → now ≤ e → Step id ttl m e (cleanup now m) e
  created :
      (m : Sessions) (e : ℕ) (home : List ℕ) (j : String) (now : ℕ) (req : SessionCreateRequest)
      → j ≢ id
      → Step id ttl m e (create home j now req m).0 e
  other_used :
      (m : Sessions) (e : ℕ) (j : String) (now later : ℕ)
      → j ≢ id
      → Step id ttl m e (touch j now later m).0 e
  other_found :
      (m : Sessions) (e : ℕ) (j : String) (now : ℕ) → j ≢ id → Step id ttl m e (get j now m).0 e
  other_moved :
      (m : Sessions) (e : ℕ) (j : String) (cwd : List ℕ)
      → j ≢ id
      → Step id ttl m e (update_working_directory j cwd m) e
  other_deleted : (m : Sessions) (e : ℕ) (j : String) → j ≢ id → Step id ttl m e (delete j m).0 e

pub data Busy (id : String) (ttl : ℕ) (m : Sessions) (e : ℕ) : Sessions → ℕ → Type 0 where
  at_first : Busy id ttl m e m e
  then_step :
      {m' m'' : Sessions} {e' e'' : ℕ}
      → Busy id ttl m e m' e'
      → Step id ttl m' e' m'' e''
      → Busy id ttl m e m'' e''

-- The session is there, expires at `e`, and is otherwise `s` but for its working directory.
abbrev pub Alive : String → Session → Sessions → ℕ → Type 0
Alive id s m e =
    (cwd : List ℕ) × (lookup id m ≡ some (record s { expires_at = e; working_directory = cwd }))

cleanup-live :
    (now : ℕ) (id : String) (m : Sessions) (s : Session)
    → lookup id m ≡ some s
    → now ≤ s.expires_at
    → lookup id (cleanup now m) ≡ some s
unfolding lookup cleanup expired
cleanup-live now id [] s at le = absurd (cc)
cleanup-live now id ((k, x) ∷ m) s at le = ground (arith, cleanup-live now id m s)

get_ne : (j id : String) (now : ℕ) (m : Sessions) → j ≢ id → lookup id (get j now m).0 ≡ lookup id m
get_ne j id now m ne = let (live, late, absent, others) = get_cases j now m in others id ne

touch_ne :
    (j id : String) (now later : ℕ) (m : Sessions)
    → j ≢ id
    → lookup id (touch j now later m).0 ≡ lookup id m
unfolding touch
touch_ne j id now later m ne = elim (Option-cases (get j now m).1) [
  | inl e ↦ rw (e, touch) (get_ne j id now m ne)
  | inr (s, e) ↦
      rw (e, touch)
        (lookup-insert_ne j id (renewed s later) (get j now m).0 ne ∙ get_ne j id now m ne)
]

update_ne :
    (j id : String) (cwd : List ℕ) (m : Sessions)
    → j ≢ id
    → lookup id (update_working_directory j cwd m) ≡ lookup id m
unfolding update_working_directory
update_ne j id cwd m ne = elim (Option-cases (lookup j m)) [
  | inl e ↦ rw (e, update_working_directory) refl
  | inr (s, e) ↦
      rw (e, update_working_directory)
        (lookup-insert_ne j id (record s { working_directory = cwd }) m ne)
]

delete_ne : (j id : String) (m : Sessions) → j ≢ id → lookup id (delete j m).0 ≡ lookup id m
unfolding delete
delete_ne j id m ne = elim (Option-cases (lookup j m)) [
  | inl e ↦ rw (e, delete) refl
  | inr (s, e) ↦ rw (e, delete) (lookup-delete_ne j id m ne)
]

Step-Alive :
    {id : String} {ttl : ℕ} {m m' : Sessions} {e e' : ℕ} (s : Session)
    → s.ttl ≡ ttl
    → Step id ttl m e m' e'
    → Alive id s m e
    → Alive id s m' e'
unfolding create update_working_directory renewed
Step-Alive {id} s same (used m e now later le) (cwd, at) = (
  cwd,
  rw (touch_live id now later m _ at le) (
      lookup-insert_self id (renewed (record s { working_directory = cwd; expires_at = e }) later) m
      ∙ ap (λ (t : ℕ). some (record s { working_directory = cwd; expires_at = later + t })) same),
)
Step-Alive {id} s same (found m e now le) (cwd, at) = (cwd, rw ((get_cases id now m).0 _ at le) at)
Step-Alive {id} s same (moved m e new) (cwd, at) =
    (new, rw (at, update_working_directory) (lookup-insert_self id _ m))
Step-Alive {id} s same (cleaned m e now le) (cwd, at) = (cwd, cleanup-live now id m _ at le)
Step-Alive {id} s same (created m e home j now req ne) (cwd, at) =
    (cwd, lookup-insert_ne j id _ m ne ∙ at)
Step-Alive {id} s same (other_used m e j now later ne) (cwd, at) =
    (cwd, touch_ne j id now later m ne ∙ at)
Step-Alive {id} s same (other_found m e j now ne) (cwd, at) = (cwd, get_ne j id now m ne ∙ at)
Step-Alive {id} s same (other_moved m e j new ne) (cwd, at) = (cwd, update_ne j id new m ne ∙ at)
Step-Alive {id} s same (other_deleted m e j ne) (cwd, at) = (cwd, delete_ne j id m ne ∙ at)

-- A session that never goes unused for its TTL never expires, whatever else is done in any order:
-- other sessions created, used, changed or deleted, and rounds of the clean-up. Each event that
-- looks at it comes before its expiry, which every use moves to a TTL later; it keeps its shell,
-- environment and TTL.
pub Busy-Alive :
    {id : String} {ttl : ℕ} {m : Sessions} {e : ℕ} {m' : Sessions} {e' : ℕ} (s : Session)
    → s.ttl ≡ ttl
    → Busy id ttl m e m' e'
    → Alive id s m e
    → Alive id s m' e'
Busy-Alive s same at_first alive = alive
Busy-Alive s same (then_step before step) alive =
    Step-Alive s same step (Busy-Alive s same before alive)
