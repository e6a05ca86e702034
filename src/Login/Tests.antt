-- ===== src/Login/Tests.antt =====
-- Concrete logins of apps/gateway/src/auth.ts.
use deepseek_harness_gateway.Common.{◌≡◌, ◌≢◌, ◌↔◌, ◌⊎◌, refl, false, none, some, [], ◌∷◌, arith}
use deepseek_harness_gateway.Common.Text.{text, text_eq, Eq-text}
use deepseek_harness_gateway.Common.Dict.{get}
use deepseek_harness_gateway.Common.Split.{split_on}
use deepseek_harness_gateway.Common.Hex.{from_hex}
use deepseek_harness_gateway.Store.Domain.{User, admin, empty_store}
use deepseek_harness_gateway.Store.Memory.{get_user}
use deepseek_harness_gateway.Throttle.{Config, account, check, fresh, blocked}
use deepseek_harness_gateway.Session.{Limits}
use deepseek_harness_gateway.Login.{
  Scrypt, Gateway, LoginRequest, Clock, login, login_status, or_empty, hash_password,
  verify_password, bytes_eq, resolve_user,
}
use deepseek_harness_gateway.Login.Passwords.{verify_password-hash_password}
use deepseek_harness_gateway.Login.Outcome.{Admits, Audited, login-status_iff, login-audits_once}
use deepseek_harness_gateway.Login.Journey.{login_then_request, cookies_of}

-- a hash that keeps the password's code units
abbrev toy_hash : Scrypt
toy_hash plain salt = 7 ∷ plain

verify_password-hash_password_example :
    verify_password toy_hash (text "pw") (hash_password toy_hash (18 ∷ 255 ∷ []) (text "pw"))
    ≡ bytes_eq (7 ∷ text "pw") (7 ∷ text "pw")
verify_password-hash_password_example =
    verify_password-hash_password toy_hash (18 ∷ 255 ∷ []) (text "pw") (text "pw") (omega arith)
      (omega arith, (omega arith, tt)) (omega arith) (omega arith, (omega arith, (omega arith, tt)))

abbrev limits : Limits
limits = record { idle_ttl_ms = 100; absolute_ttl_ms = 300; session_max = 2 }

abbrev config : Config
config = record {
  ip_max = 3;
  ip_window_ms = 50;
  account_max = 2;
  account_window_ms = 50;
  backoff_ms = 60 ∷ [];
}

abbrev root : User
root = record { id = text "root"; role = admin; auth_hash = text "12:077077" }

abbrev start : Gateway
start = record {
  world = record {
    throttle = fresh config false;
    store = record empty_store { users = (text "root", root) ∷ [] };
  };
  sessions = [];
}

abbrev locked : Gateway
locked = record start {
  world = record (start.world) {
    throttle = record (start.world.throttle) {
      accounts = (text "root", record { fails = []; lock_until = 90; lock_count = 1 }) ∷ [];
    };
  };
}

abbrev clock : Clock
clock = record { checked_at = 10; failed_at = 11; created_at = 12; ts = text "t" }

abbrev request : LoginRequest
request = record {
  id = some (text "root");
  password = some (text "pw");
  from = text "::1";
  user_agent = none;
  protocol = text "http";
}

login-status_iff_example :
    (login_status (login limits toy_hash none clock (text "tok") request start).0 ≡ 200)
    ↔ Admits limits toy_hash none clock request start
login-status_iff_example = login-status_iff limits toy_hash none clock (text "tok") request start

login-audits_once_example :
    ((or_empty request.id ≡ []) ⊎ (or_empty request.password ≡ []))
      × (login_status (login limits toy_hash none clock (text "tok") request locked).0 ≡ 400)
      × ((login limits toy_hash none clock (text "tok") request locked).1 ≡ locked)
    ⊎ (or_empty request.id ≢ [])
      × (or_empty request.password ≢ [])
      × Audited limits toy_hash none
          (login limits toy_hash none clock (text "tok") request locked).0
          []
          (login limits toy_hash none clock (text "tok") request locked).1.world.store.audit
login-audits_once_example = login-audits_once limits toy_hash none clock (text "tok") request locked

root_is_locked : (check 10 (text "::1") (text "root") locked.world).0 ≡ blocked 1 account
unfolding check get text_eq
root_is_locked = refl

lets_in : login_status (login limits toy_hash none clock (text "tok") request start).0 ≡ 200
unfolding login check get text_eq verify_password split_on from_hex get_user
lets_in = refl

keyed : (u : User) → get (text "root") start.world.store.users ≡ some u → u.id ≡ text "root"
unfolding get text_eq
keyed u e = ground arith

no_session : get (text "tok") start.sessions ≡ none
unfolding get
no_session = refl

login_then_request_example :
    (resolve_user limits 60
      (cookies_of (login limits toy_hash none clock (text "tok") request start).0)
      (login limits toy_hash none clock (text "tok") request start).1).0
    ≡ get (text "root") start.world.store.users
login_then_request_example =
    login_then_request limits toy_hash none clock 60 (text "tok") request start (omega arith)
      no_session (λ e. cc) tt (omega arith, omega arith, omega arith) keyed lets_in
