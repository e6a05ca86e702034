-- ===== src/Throttle.antt =====
-- apps/gateway/src/login-throttle.ts, with the persistence adapter of `buildAuth` (auth.ts).
-- Times are milliseconds; `now - t < window` is written `now < t + window`, which is the same on
-- integers and needs no negative number. Each method is given the reading of its clock.
pub mod Check
pub mod Keeps
pub mod Lockout
pub mod Attempts
pub mod Events
pub mod Covers
pub mod Volume
pub mod Overlap
pub mod Restart
mod Tests
use deepseek_harness_gateway.Common.{
  ◌++◌, ℕ, ◌+◌, ◌-◌, ◌/◌, max, min, Bool, true, false, not, ◌&&◌, Option, none, some, List, [], ◌∷◌,
  ltb, leb, nat_eq, if◌then◌else◌,
}
use deepseek_harness_gateway.Common.Text.{Text, Eq-text}
use deepseek_harness_gateway.Common.Lists.{length, get_or, filter}
use deepseek_harness_gateway.Common.Dict.{Dict, get, set, delete, keys, values, retain, map_values}
use deepseek_harness_gateway.Store.Domain.{Store, ThrottleAccount, ThrottleIp}
use deepseek_harness_gateway.Store.Memory.{
  list_throttle_accounts, list_throttle_ips, save_throttle_account, save_throttle_ip,
  delete_throttle_account, delete_throttle_ip,
}

-- `backoff_ms` is not empty: the one caller passes three durations.
pub record Config : Type 0 where
  pub ip_max : ℕ
  pub ip_window_ms : ℕ
  pub account_max : ℕ
  pub account_window_ms : ℕ
  pub backoff_ms : List ℕ

pub record AccountState : Type 0 where
  pub fails : List ℕ
  pub lock_until : ℕ
  pub lock_count : ℕ

pub record IpState : Type 0 where
  pub attempts : List ℕ

pub data Reason : Type 0 where
  ip account : Reason

pub data ThrottleCheck : Type 0 where
  pass : ThrottleCheck
  blocked : ℕ → Reason → ThrottleCheck

pub record LoginThrottle : Type 0 where
  pub cfg : Config
  pub accounts : Dict Text AccountState
  pub ips : Dict Text IpState
  pub persist : Bool

-- The throttle beside the store that its persistence adapter writes to.
pub record World : Type 0 where
  pub throttle : LoginThrottle
  pub store : Store

abbrev pub fresh : Config → Bool → LoginThrottle
fresh cfg persist = record { cfg = cfg; accounts = []; ips = []; persist = persist }

abbrev pub within : ℕ → ℕ → ℕ → Bool
within window now t = ltb now (t + window)

-- `Math.max(1, Math.ceil(ms / 1000))`
abbrev pub retry_after_sec : ℕ → ℕ
retry_after_sec ms = max 1 ((ms + 999) / 1000)

-- ---- the persistence adapter
abbrev pub save_account : Text → AccountState → ℕ → Store → Store
save_account name st now s =
    save_throttle_account
      (record {
        account = name;
        lock_until = st.lock_until;
        lock_count = st.lock_count;
        fails = st.fails;
        updated_at = now;
      })
      s

abbrev pub save_ip : Text → List ℕ → ℕ → Store → Store
save_ip addr attempts now s =
    save_throttle_ip (record { ip = addr; attempts = attempts; updated_at = now }) s

abbrev pub delete_accounts : List Text → Store → Store
delete_accounts [] s = s
delete_accounts (a ∷ rest) s = delete_accounts rest (delete_throttle_account a s)

abbrev pub delete_ips : List Text → Store → Store
delete_ips [] s = s
delete_ips (a ∷ rest) s = delete_ips rest (delete_throttle_ip a s)

-- ---- hydrate
pub hydrate_accounts :
    Config → ℕ → List ThrottleAccount → Dict Text AccountState → Dict Text AccountState
hydrate_accounts cfg now [] m = m
hydrate_accounts cfg now (a ∷ rest) m = hydrate_accounts cfg now rest (
    set a.account
      (record {
        fails = filter (within cfg.account_window_ms now) a.fails;
        lock_until = a.lock_until;
        lock_count = a.lock_count;
      })
      m)

pub hydrate_ips : Config → ℕ → List ThrottleIp → Dict Text IpState → Dict Text IpState
hydrate_ips cfg now [] m = m
hydrate_ips cfg now (r ∷ rest) m =
    hydrate_ips cfg now rest
      (set r.ip (record { attempts = filter (within cfg.ip_window_ms now) r.attempts }) m)

pub hydrate : ℕ → World → World
unfolding list_throttle_accounts list_throttle_ips hydrate_accounts hydrate_ips
hydrate now w =
    if w.throttle.persist
    then record w {
      throttle = record (w.throttle) {
        accounts =
            hydrate_accounts w.throttle.cfg now (list_throttle_accounts w.store)
              w.throttle.accounts;
        ips = hydrate_ips w.throttle.cfg now (list_throttle_ips w.store) w.throttle.ips;
      };
    }
    else w

-- ---- check
abbrev pub put_account : Text → AccountState → World → World
put_account name st w = record w {
  throttle = record (w.throttle) { accounts = set name st w.throttle.accounts };
}

abbrev pub put_ip : Text → List ℕ → World → World
put_ip addr attempts w = record w {
  throttle = record (w.throttle) { ips = set addr (record { attempts = attempts }) w.throttle.ips };
}

-- `backoffMs[Math.min(lockCount, backoffMs.length - 1)]`
unfoldable pub backoff_of : Config → ℕ → ℕ
backoff_of cfg lock_count = get_or cfg.backoff_ms (min lock_count (length cfg.backoff_ms - 1)) 0

-- The account is locked out: the failures are forgotten, and the next lockout is longer.
abbrev pub lock_out : ℕ → Text → AccountState → World → ThrottleCheck × World
lock_out now name acc w =
    let backoff = backoff_of w.throttle.cfg acc.lock_count in
    let acc' : AccountState = record {
      fails = [];
      lock_until = now + backoff;
      lock_count = acc.lock_count + 1;
    } in
    let w' = put_account name acc' w in
    (
      blocked (retry_after_sec backoff) account,
      if w.throttle.persist then record w' { store = save_account name acc' now w.store } else w',
    )

abbrev pub check_found : ℕ → Text → World → Option AccountState → ThrottleCheck × World
check_found now name w none = (pass, w)
check_found now name w (some acc) =
    if ltb now acc.lock_until
    then (blocked (retry_after_sec (acc.lock_until - now)) account, w)
    else let fails = filter (within w.throttle.cfg.account_window_ms now) acc.fails in
      if leb w.throttle.cfg.account_max (length fails)
      then lock_out now name acc w
      else (pass, put_account name (record acc { fails = fails }) w)

pub check_account : ℕ → Text → World → ThrottleCheck × World
unfolding backoff_of
check_account now name w = check_found now name w (get name w.throttle.accounts)

abbrev pub check_ip_found : ℕ → Text → Text → World → Option IpState → ThrottleCheck × World
check_ip_found now addr name w none = check_account now name w
check_ip_found now addr name w (some st) =
    let attempts = filter (within w.throttle.cfg.ip_window_ms now) st.attempts in
    let w' = put_ip addr attempts w in
    if leb w.throttle.cfg.ip_max (length attempts)
    then (
      blocked (retry_after_sec (get_or attempts 0 0 + w.throttle.cfg.ip_window_ms - now)) ip,
      w',
    )
    else check_account now name w'

unfoldable pub check : ℕ → Text → Text → World → ThrottleCheck × World
unfolding check_account
check now addr name w = check_ip_found now addr name w (get addr w.throttle.ips)

-- ---- recordFailure
abbrev pub attempts_of : Option IpState → List ℕ
attempts_of none = []
attempts_of (some st) = st.attempts

abbrev pub account_of : Option AccountState → AccountState
account_of none = record { fails = []; lock_until = 0; lock_count = 0 }
account_of (some acc) = acc

unfoldable pub record_failure : ℕ → Text → Text → World → World
record_failure now addr name w =
    let attempts = attempts_of (get addr w.throttle.ips) ++ now ∷ [] in
    let acc = account_of (get name w.throttle.accounts) in
    let acc' : AccountState = record acc { fails = acc.fails ++ now ∷ [] } in
    let w' = put_account name acc' (put_ip addr attempts w) in
    if w.throttle.persist
    then record w' { store = save_account name acc' now (save_ip addr attempts now w.store) }
    else w'

-- ---- recordSuccess
unfoldable pub record_success : Text → World → World
record_success name w =
    let w' : World = record w {
      throttle = record (w.throttle) { accounts = delete name w.throttle.accounts };
    } in
    if w.throttle.persist then record w' { store = delete_throttle_account name w.store } else w'

-- ---- prune
abbrev pub ip_live : ℕ → ℕ → IpState → Bool
ip_live window now st = not (nat_eq (length (filter (within window now) st.attempts)) 0)

abbrev pub account_live : ℕ → ℕ → AccountState → Bool
account_live window now acc =
    not (leb acc.lock_until now && nat_eq (length (filter (within window now) acc.fails)) 0)

abbrev pub trim_ip : ℕ → ℕ → IpState → IpState
trim_ip window now st = record { attempts = filter (within window now) st.attempts }

abbrev pub trim_account : ℕ → ℕ → AccountState → AccountState
trim_account window now acc = record acc { fails = filter (within window now) acc.fails }

unfoldable pub prune : ℕ → World → World
prune now w =
    let ip_window = w.throttle.cfg.ip_window_ms in
    let account_window = w.throttle.cfg.account_window_ms in
    let dropped_ips = keys (retain (λ k st. not (ip_live ip_window now st)) w.throttle.ips) in
    let dropped_accounts =
      keys (retain (λ k acc. not (account_live account_window now acc)) w.throttle.accounts) in
    let w' : World = record w {
      throttle = record (w.throttle) {
        ips =
            map_values (trim_ip ip_window now)
              (retain (λ k st. ip_live ip_window now st) w.throttle.ips);
        accounts =
            map_values (trim_account account_window now)
              (retain (λ k acc. account_live account_window now acc) w.throttle.accounts);
      };
    } in
    if w.throttle.persist
    then record w' { store = delete_accounts dropped_accounts (delete_ips dropped_ips w.store) }
    else w'

-- The calls that the login route and the sweep make, in the order in which they happen.
pub data Op : Type 0 where
  checks : ℕ → Text → Text → Op
  fails : ℕ → Text → Text → Op
  succeeds : Text → Op
  prunes : ℕ → Op

unfoldable pub step : Op → World → World
step (checks now addr name) w = (check now addr name w).1
step (fails now addr name) w = record_failure now addr name w
step (succeeds name) w = record_success name w
step (prunes now) w = prune now w

unfoldable pub run : List Op → World → World
run [] w = w
run (op ∷ ops) w = run ops (step op w)
