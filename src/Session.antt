-- ===== src/Session.antt =====
-- session.go: execution contexts with an idle timeout, and their manager. Times are nanoseconds.
-- The map of the manager is an association list; a session is the shared object that it points to,
-- so `touch` and `setCwd` are updates of the map. `uuid` and the clock are arguments.
pub mod Manager
pub mod Busy
pub mod Listing
use remote_cli.Common.{
  ℕ, zero, suc, ◌+◌, ◌*◌, Bool, true, false, not, Option, none, some, List, [], ◌∷◌, ◌++◌, String,
  map, ltb, leb, if◌then◌else◌, length, codes,
}
use remote_cli.Common.Int.{ℤ, pos, negsuc}
use remote_cli.Common.Dict
use remote_cli.Common.Sort.{oldest_first}

-- `time.Second`
abbrev pub second : ℕ
second = 1000000000

pub record Session : Type 0 where
  pub id : String
  pub environment : List (List ℕ)
  pub shell : List ℕ
  pub created_at : ℕ
  pub ttl : ℕ
  pub working_directory : List ℕ
  pub expires_at : ℕ

abbrev pub Sessions : Type 0
Sessions = List (String × Session)

-- `SessionCreateRequest`
pub record SessionCreateRequest : Type 0 where
  pub working_directory : List ℕ
  pub shell : List ℕ
  pub ttl_seconds : ℤ
  pub environment : List (List ℕ × List ℕ)

-- `s.touch(now)`
unfoldable pub renewed : Session → ℕ → Session
renewed s now = record s { expires_at = now + s.ttl }

-- `expired`: `now.After(s.Expiry())`
unfoldable pub expired : Session → ℕ → Bool
expired s now = ltb s.expires_at now

-- The TTL in seconds that `Create` settles on.
unfoldable pub ttl_of : ℤ → ℕ
ttl_of (negsuc n) = 3600
ttl_of (pos zero) = 3600
ttl_of (pos (suc n)) = if ltb 86400 (suc n) then 86400 else suc n

unfoldable pub or_default : List ℕ → List ℕ → List ℕ
or_default [] d = d
or_default (c ∷ s) d = c ∷ s

-- The session that `Create` makes. `home` is `os.UserHomeDir`, and `id` the fresh identifier.
unfoldable pub new_session : List ℕ → String → ℕ → SessionCreateRequest → Session
new_session home id now req = record {
  id = id;
  environment = map (λ (k, v). k ++ b'=' ∷ v) req.environment;
  shell = or_default req.shell (codes "bash");
  created_at = now;
  ttl = ttl_of req.ttl_seconds * second;
  working_directory = or_default req.working_directory home;
  expires_at = now + ttl_of req.ttl_seconds * second;
}

-- `Create`
unfoldable pub create : List ℕ → String → ℕ → SessionCreateRequest → Sessions → Sessions × Session
create home id now req m = let s = new_session home id now req in (Dict.insert id s m, s)

-- `Get`
unfoldable pub get : String → ℕ → Sessions → Sessions × Option Session
get id now m = elim (Dict.lookup id m) [
  | none ↦ (m, none)
  | some s ↦ if expired s now then (Dict.delete id m, none) else (m, some s)
]

-- `Touch`: `now` is the clock in `Get`, `later` the clock at the renewal.
unfoldable pub touch : String → ℕ → ℕ → Sessions → Sessions × Option Session
touch id now later m =
    let (m', found) = get id now m in
    elim found [
      | none ↦ (m', none)
      | some s ↦ (Dict.insert id (renewed s later) m', some (renewed s later))
    ]

-- `Delete`
unfoldable pub delete : String → Sessions → Sessions × Bool
delete id m = elim (Dict.lookup id m) [ none ↦ (m, false) | some s ↦ (Dict.delete id m, true) ]

-- `Count`
unfoldable pub count : Sessions → ℕ
count m = length m

-- The `Range` of `List`.
unfoldable pub live : ℕ → Sessions → List Session
live now [] = []
live now ((id, s) ∷ m) = let rest = live now m in if expired s now then rest else s ∷ rest

-- `List`
unfoldable pub list : ℕ → Sessions → List Session
list now m = oldest_first (λ s. s.created_at) (live now m)

-- `UpdateWorkingDirectory`
unfoldable pub update_working_directory : String → List ℕ → Sessions → Sessions
update_working_directory id dir m = elim (Dict.lookup id m) [
  | none ↦ m
  | some s ↦ Dict.insert id (record s { working_directory = dir }) m
]

-- One round of `cleanupLoop`.
unfoldable pub cleanup : ℕ → Sessions → Sessions
cleanup now [] = []
cleanup now ((id, s) ∷ m) =
    let rest = cleanup now m in if expired s now then rest else (id, s) ∷ rest
