-- ===== src/Login.antt =====
-- apps/gateway/src/auth.ts: passwords, the bootstrap of the administrator, the login and logout
-- routes, the session of a request, and `requireRole`. The hash function, the random bytes and the
-- clock's readings are arguments.
pub mod Passwords
pub mod Outcome
pub mod Journey
mod Tests
use deepseek_harness_gateway.Common.{
  ℕ, ◌+◌, Bool, true, false, not, ◌&&◌, ◌||◌, Option, none, some, List, [], ◌∷◌, ◌++◌, nat_eq,
  if◌then◌else◌,
}
use deepseek_harness_gateway.Common.Text.{Text, text, text_eq, Eq-text}
use deepseek_harness_gateway.Common.Lists.{length, take, any}
use deepseek_harness_gateway.Common.Dict.{Dict, get}
use deepseek_harness_gateway.Common.Split.{split_on, decimal}
use deepseek_harness_gateway.Common.Json.{Json, str, num, stringify}
use deepseek_harness_gateway.Common.Hex.{to_hex, from_hex}
use deepseek_harness_gateway.Store.Domain.{
  User, Role, system_admin, role_eq, AuditResult, ok, denied, AuditEvent, Store,
}
use deepseek_harness_gateway.Store.Memory.{get_user, upsert_user, append_audit}
use deepseek_harness_gateway.Throttle.{
  World, Reason, ip, account, ThrottleCheck, pass, blocked, check, record_failure, record_success,
}
use deepseek_harness_gateway.Session.{Limits, Sessions, create, lookup, destroy}

abbrev pub session_cookie : Text
session_cookie = text "gw_session"

abbrev pub session_cookie_host : Text
session_cookie_host = text "__Host-gw_session"

-- `cookieSecure ?? protocol === 'https'`
abbrev pub is_secure : Text → Option Bool → Bool
is_secure protocol none = text_eq protocol (text "https")
is_secure protocol (some forced) = forced

unfoldable pub session_cookie_name : Text → Option Bool → Text
session_cookie_name protocol cookie_secure =
    if is_secure protocol cookie_secure then session_cookie_host else session_cookie

abbrev or_else : Option Text → Option Text → Option Text
or_else none b = b
or_else (some a) b = some a

unfoldable pub read_session_token : Dict Text Text → Option Text
read_session_token cookies = or_else (get session_cookie_host cookies) (get session_cookie cookies)

-- ---- passwords: `scrypt` is the hash of a password and a salt, 64 bytes long
abbrev pub Scrypt : Type 0
Scrypt = Text → Text → List ℕ

unfoldable pub hash_password : Scrypt → List ℕ → Text → Text
hash_password scrypt random plain =
    let salt = to_hex random in salt ++ 58 ∷ to_hex (scrypt plain salt)

abbrev pub bytes_eq : List ℕ → List ℕ → Bool
unfolding text_eq
bytes_eq a b = text_eq a b

-- `const [salt, hash] = stored.split(':')`, and the tests that both are there
abbrev verify_parts : Scrypt → Text → List Text → Bool
verify_parts scrypt plain ([] ∷ rest) = false
verify_parts scrypt plain ((c ∷ salt) ∷ [] ∷ rest) = false
verify_parts scrypt plain ((c ∷ salt) ∷ (d ∷ hash) ∷ rest) =
    let candidate = scrypt plain (c ∷ salt) in
    let expected = from_hex (d ∷ hash) in
    nat_eq (length candidate) (length expected) && bytes_eq candidate expected
verify_parts scrypt plain _ = false

unfoldable pub verify_password : Scrypt → Text → Text → Bool
unfolding split_on from_hex
verify_password scrypt plain stored = verify_parts scrypt plain (split_on 58 stored)

-- ---- bootstrap
abbrev bootstrap_found : Scrypt → List ℕ → Text → Text → Text → Store → Option User → Store
bootstrap_found scrypt random ts admin_id admin_password s (some u) = s
bootstrap_found scrypt random ts admin_id admin_password s none =
    append_audit
      (record {
        ts = ts;
        actor = text "system";
        machine_id = none;
        action = text "bootstrap_admin";
        result = ok;
        detail = none;
      })
      (upsert_user
        (record {
          id = admin_id;
          role = system_admin;
          auth_hash = hash_password scrypt random admin_password;
        })
        s)

unfoldable pub bootstrap : Scrypt → List ℕ → Text → Text → Text → Store → Store
unfolding get_user upsert_user append_audit hash_password
bootstrap scrypt random ts admin_id admin_password s =
    bootstrap_found scrypt random ts admin_id admin_password s (get_user admin_id s)

-- ---- the routes
pub record Gateway : Type 0 where
  pub world : World
  pub sessions : Sessions

-- a body member that is not a string counts as the empty string
pub record LoginRequest : Type 0 where
  pub id : Option Text
  pub password : Option Text
  pub from : Text
  pub user_agent : Option Text
  pub protocol : Text

-- The clock's readings while one login runs, in the order in which the handler takes them.
pub record Clock : Type 0 where
  pub checked_at : ℕ
  pub failed_at : ℕ
  pub created_at : ℕ
  pub ts : Text

pub data LoginReply : Type 0 where
  bad_request : LoginReply
  too_many : ℕ → LoginReply
  invalid_credentials : LoginReply
  signed_in : User → Text → Text → Bool → LoginReply

abbrev pub login_status : LoginReply → ℕ
login_status bad_request = 400
login_status (too_many retry) = 429
login_status invalid_credentials = 401
login_status (signed_in u name token secure) = 200

abbrev pub or_empty : Option Text → Text
or_empty none = []
or_empty (some s) = s

abbrev agent_of : LoginRequest → Text
agent_of req = take 120 (or_empty req.user_agent)

abbrev reason_text : Reason → Text
reason_text ip = text "ip"
reason_text account = text "account"

unfoldable pub throttled_event : Clock → Text → LoginRequest → ℕ → Reason → AuditEvent
throttled_event clock id req retry reason = record {
  ts = clock.ts;
  actor = id;
  machine_id = none;
  action = text "login_throttled";
  result = denied;
  detail = some (
      stringify (
        (text "ip", str req.from)
        ∷ (text "reason", str (reason_text reason))
        ∷ (text "retryAfterSec", num retry)
        ∷ (text "ua", str (agent_of req))
        ∷ []));
}

unfoldable pub denied_event : Clock → Text → LoginRequest → AuditEvent
denied_event clock id req = record {
  ts = clock.ts;
  actor = id;
  machine_id = none;
  action = text "login";
  result = denied;
  detail = some (stringify ((text "ip", str req.from) ∷ (text "ua", str (agent_of req)) ∷ []));
}

unfoldable pub login_event : Clock → User → AuditEvent
login_event clock u = record {
  ts = clock.ts;
  actor = u.id;
  machine_id = none;
  action = text "login";
  result = ok;
  detail = none;
}

abbrev audited : AuditEvent → World → World
audited e w = record w { store = append_audit e w.store }

module _ (l : Limits) (scrypt : Scrypt) (cookie_secure : Option Bool) where
  abbrev refuse : Clock → Text → LoginRequest → Gateway → World → LoginReply × Gateway
  refuse clock id req g w = (
    invalid_credentials,
    record g {
      world = audited (denied_event clock id req) (record_failure clock.failed_at req.from id w);
    },
  )

  abbrev accept : Clock → Text → Text → LoginRequest → User → Gateway → World → LoginReply × Gateway
  accept clock token id req u g w = (
    signed_in u (session_cookie_name req.protocol cookie_secure) token
        (is_secure req.protocol cookie_secure),
    record {
      world = audited (login_event clock u) (record_success id w);
      sessions = create l token clock.created_at u.id g.sessions;
    },
  )

  -- `DUMMY_STORED`: an unknown user costs the same hash, and is refused whatever it gives
  abbrev login_user :
      Clock
      → Text
      → Text
      → Text
      → LoginRequest
      → Gateway
      → World
      → Option User
      → LoginReply × Gateway
  login_user clock token id password req g w none = refuse clock id req g w
  login_user clock token id password req g w (some u) =
      if verify_password scrypt password u.auth_hash
      then accept clock token id req u g w
      else refuse clock id req g w

  abbrev login_checked :
      Clock
      → Text
      → Text
      → Text
      → LoginRequest
      → Gateway
      → ThrottleCheck × World
      → LoginReply × Gateway
  login_checked clock token id password req g (blocked retry reason, w) =
      (too_many retry, record g { world = audited (throttled_event clock id req retry reason) w })
  login_checked clock token id password req g (pass, w) =
      login_user clock token id password req g w (get_user id w.store)

  abbrev login_with : Clock → Text → Text → Text → LoginRequest → Gateway → LoginReply × Gateway
  login_with clock token [] password req g = (bad_request, g)
  login_with clock token (c ∷ id) [] req g = (bad_request, g)
  login_with clock token (c ∷ id) (d ∷ password) req g =
      login_checked clock token (c ∷ id) (d ∷ password) req g
        (check clock.checked_at req.from (c ∷ id) g.world)

  -- `POST /gw/login`
  unfoldable pub login : Clock → Text → LoginRequest → Gateway → LoginReply × Gateway
  unfolding get_user append_audit session_cookie_name
  login clock token req g = login_with clock token (or_empty req.id) (or_empty req.password) req g

module _ (l : Limits) where
  -- The hook that runs before every handler: the user of the request's session.
  abbrev user_of : Store → Option Text × Sessions → Option User × Sessions
  user_of s (none, m) = (none, m)
  user_of s (some user_id, m) = (get_user user_id s, m)

  abbrev resolve_token : ℕ → Store → Sessions → Option Text → Option User × Sessions
  resolve_token now s m none = (none, m)
  resolve_token now s m (some []) = (none, m)
  resolve_token now s m (some (c ∷ token)) = user_of s (lookup l (c ∷ token) now m)

  unfoldable pub resolve_user : ℕ → Dict Text Text → Gateway → Option User × Gateway
  unfolding get_user read_session_token
  resolve_user now cookies g =
      let (u, m) = resolve_token now g.world.store g.sessions (read_session_token cookies) in
      (u, record g { sessions = m })

  abbrev destroy_token : Option Text → Sessions → Sessions
  destroy_token none m = m
  destroy_token (some []) m = m
  destroy_token (some (c ∷ token)) m = destroy l (c ∷ token) m

  -- `POST /gw/logout`
  unfoldable pub logout : Dict Text Text → Gateway → Gateway
  unfolding read_session_token destroy
  logout cookies g = record g { sessions = destroy_token (read_session_token cookies) g.sessions }

-- The status with which `requireRole` answers, if it does.
abbrev require_listed : List Role → User → Option ℕ
require_listed [] u = none
require_listed (r ∷ roles) u = if any (λ x. role_eq x u.role) (r ∷ roles) then none else some 403

unfoldable pub require_role : List Role → Option User → Option ℕ
require_role roles none = some 401
require_role roles (some u) = require_listed roles u
