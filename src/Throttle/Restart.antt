-- ===== src/Throttle/Restart.antt =====
-- Persistence of apps/gateway/src/login-throttle.ts: a restarted throttle decides as the old one.
pub mod Rows
pub mod Verdict
pub mod Writes
pub mod Calls
pub mod Sweep
pub mod Effects
pub mod Later
use mathlib.Core.Path.{ap₂}
use deepseek_harness_gateway.Common.{
  ℕ, ◌+◌, ◌-◌, ◌≤◌, ◌≡◌, refl, sym, subst, ap, ◌∙◌, Bool, true, false, not, ◌||◌, Option, none,
  some, List, [], ◌∷◌, ◌++◌, arith, ltb, leb, Option-cases, inl, inr, if◌then◌else◌,
}
use deepseek_harness_gateway.Common.Text.{Text, text_eq, text_eq_iff, Eq-text}
use deepseek_harness_gateway.Common.Lists.{length, any, get_or, filter, filter-filter}
use deepseek_harness_gateway.Common.Dict.{
  Dict, keys, retain, map_values, get-retain, get-map_values, retain-IsMap, map_values-IsMap, get,
  set, values, get-set, get-delete, has, has-get, IsMap, set-IsMap, delete-IsMap, delete,
}
use deepseek_harness_gateway.Store.Domain.{Store, ThrottleAccount, ThrottleIp}
use deepseek_harness_gateway.Store.Memory.{
  list_throttle_accounts, list_throttle_ips, save_throttle_account, save_throttle_ip,
  delete_throttle_account, delete_throttle_ip,
}
use deepseek_harness_gateway.Throttle.{
  ThrottleCheck, pass, blocked, ip, account, retry_after_sec, backoff_of, save_account, save_ip,
  check_account, check_found, check_ip_found, lock_out, record_failure, record_success, prune,
  attempts_of, account_of, put_ip, trim_account, trim_ip, ip_live, account_live, delete_accounts,
  delete_ips, Config, AccountState, IpState, World, Op, checks, fails, succeeds, prunes, within,
  fresh, hydrate, hydrate_accounts, hydrate_ips, check, step, run,
}
use deepseek_harness_gateway.Throttle.Restart.Rows.{
  load_account?, load_ip?, AccountKeys, IpKeys, or_else, hydrate_accounts-get, hydrate_ips-get,
  trim_account?, trim_ip?, filter_later, trim_account_later, load_account_later, trim_ip_later,
  load_ip_later,
}
use deepseek_harness_gateway.Throttle.Restart.Verdict.{
  restart, restart-cfg, restart-accounts, restart-ips, or_else-none,
}
use deepseek_harness_gateway.Throttle.Restart.Writes.{
  delete-AccountKeys, delete-IpKeys, Own, write_account, write_ip, trim_one_account, trim_one_ip,
  Own-persistent, Own-later,
}
use deepseek_harness_gateway.Throttle.Restart.Calls.{
  if_persist, check-Own, failure-Own, success-Own,
}
use deepseek_harness_gateway.Throttle.Restart.Sweep.{prune-Own}
use deepseek_harness_gateway.Throttle.Restart.Later.{
  Same, Same-later, check-decision, check-Same, failure-Same, success-Same, prune-Same,
}

-- The clock never runs backwards between two calls.
abbrev pub Ordered : ℕ → List Op → Type 0
Ordered now [] = Unit
Ordered now (checks t addr name ∷ rest) = (now ≤ t) × Ordered t rest
Ordered now (fails t addr name ∷ rest) = (now ≤ t) × Ordered t rest
Ordered now (succeeds name ∷ rest) = Ordered now rest
Ordered now (prunes t ∷ rest) = (now ≤ t) × Ordered t rest

abbrev pub last_time : ℕ → List Op → ℕ
last_time now [] = now
last_time now (checks t addr name ∷ rest) = last_time t rest
last_time now (fails t addr name ∷ rest) = last_time t rest
last_time now (succeeds name ∷ rest) = last_time now rest
last_time now (prunes t ∷ rest) = last_time t rest

run-Own :
    (now : ℕ) (ops : List Op) (w : World)
    → Ordered now ops
    → Own now w
    → Own (last_time now ops) (run ops w)
unfolding run step
run-Own now [] w o s = s
run-Own now (checks t addr name ∷ rest) w o s =
    run-Own t rest (check t addr name w).1 o.1 (check-Own t now addr name w o.0 s)
run-Own now (fails t addr name ∷ rest) w o s =
    run-Own t rest (record_failure t addr name w) o.1 (failure-Own t now addr name w o.0 s)
run-Own now (succeeds name ∷ rest) w o s =
    run-Own now rest (record_success name w) o (success-Own now name w s)
run-Own now (prunes t ∷ rest) w o s = run-Own t rest (prune t w) o.1 (prune-Own t now w o.0 s)

abbrev pub start : Config → Store → World
start cfg s = record {
  throttle = fresh cfg true;
  store = record s { throttle_accounts = []; throttle_ips = [] };
}

start-Own : (cfg : Config) (s : Store) → Own 0 (start cfg s)
unfolding Own get
start-Own cfg s = record {
  on_accounts = λ k. refl;
  on_ips = λ k. refl;
  config = refl;
  persistent = refl;
  accounts_map = tt;
  ips_map = tt;
  account_rows = (tt, tt);
  ip_rows = (tt, tt);
}

-- ---- the restarted throttle
hydrate_accounts-IsMap :
    (cfg : Config) (now : ℕ) (rows : List ThrottleAccount) (m : Dict Text AccountState)
    → IsMap m
    → IsMap (hydrate_accounts cfg now rows m)
unfolding hydrate_accounts
hydrate_accounts-IsMap cfg now [] m u = u
hydrate_accounts-IsMap cfg now (a ∷ rows) m u =
    hydrate_accounts-IsMap cfg now rows _ (set-IsMap a.account _ m u)

hydrate_ips-IsMap :
    (cfg : Config) (now : ℕ) (rows : List ThrottleIp) (m : Dict Text IpState)
    → IsMap m
    → IsMap (hydrate_ips cfg now rows m)
unfolding hydrate_ips
hydrate_ips-IsMap cfg now [] m u = u
hydrate_ips-IsMap cfg now (a ∷ rows) m u = hydrate_ips-IsMap cfg now rows _ (set-IsMap a.ip _ m u)

restart-Own : (now : ℕ) (w : World) → Own now w → Own now (restart now w)
unfolding Own hydrate list_throttle_accounts list_throttle_ips get
restart-Own now w s =
    let cfg = w.throttle.cfg in
    rw s.persistent (record {
      on_accounts = λ k.
          ap (trim_account? cfg now) (
            hydrate_accounts-get cfg now k w.store.throttle_accounts [] s.account_rows.0
              s.account_rows.1
            ∙ or_else-none _)
          ∙ load_account_later cfg now now (get k w.store.throttle_accounts) (omega arith);
      on_ips = λ k.
          ap (trim_ip? cfg now) (
            hydrate_ips-get cfg now k w.store.throttle_ips [] s.ip_rows.0 s.ip_rows.1
            ∙ or_else-none _)
          ∙ load_ip_later cfg now now (get k w.store.throttle_ips) (omega arith);
      config = refl;
      persistent = refl;
      accounts_map = hydrate_accounts-IsMap cfg now (values w.store.throttle_accounts) [] tt;
      ips_map = hydrate_ips-IsMap cfg now (values w.store.throttle_ips) [] tt;
      account_rows = s.account_rows;
      ip_rows = s.ip_rows;
    })

restart-Same : (now : ℕ) (w : World) → Own now w → Same w.throttle.cfg now (restart now w) w
unfolding Own
restart-Same now w s =
    let cfg = w.throttle.cfg in
    record {
      cfg_left = restart-cfg now w;
      cfg_right = refl;
      on_accounts = λ k.
          ap (trim_account? cfg now) (restart-accounts now k w s.persistent s.account_rows)
          ∙ load_account_later cfg now now (get k w.store.throttle_accounts) (omega arith)
          ∙ sym (s.on_accounts k);
      on_ips = λ k.
          ap (trim_ip? cfg now) (restart-ips now k w s.persistent s.ip_rows)
          ∙ load_ip_later cfg now now (get k w.store.throttle_ips) (omega arith)
          ∙ sym (s.on_ips k);
    }

Own-maps : (now : ℕ) (w : World) → Own now w → IsMap w.throttle.accounts × IsMap w.throttle.ips
unfolding Own
Own-maps now w s = (s.accounts_map, s.ips_map)

-- The decisions on the attempts among some calls.
abbrev pub verdicts : List Op → World → List ThrottleCheck
verdicts [] w = []
verdicts (checks t addr name ∷ rest) w =
    (check t addr name w).0 ∷ verdicts rest (check t addr name w).1
verdicts (fails t addr name ∷ rest) w = verdicts rest (record_failure t addr name w)
verdicts (succeeds name ∷ rest) w = verdicts rest (record_success name w)
verdicts (prunes t ∷ rest) w = verdicts rest (prune t w)

verdicts_agree :
    (cfg : Config) (now : ℕ) (ops : List Op) (w v : World)
    → Ordered now ops
    → Own now w
    → Own now v
    → Same cfg now w v
    → verdicts ops w ≡ verdicts ops v
verdicts_agree cfg now [] w v o ow ov s = refl
verdicts_agree cfg now (checks t addr name ∷ rest) w v o ow ov s =
    let s' = Same-later cfg t now w v o.0 s in
    ap₂ (λ d ds. d ∷ ds) (check-decision cfg t w v s' addr name)
      (verdicts_agree cfg t rest (check t addr name w).1 (check t addr name v).1 o.1
        (check-Own t now addr name w o.0 ow) (check-Own t now addr name v o.0 ov)
        (check-Same cfg t w v s' addr name))
verdicts_agree cfg now (fails t addr name ∷ rest) w v o ow ov s =
    verdicts_agree cfg t rest (record_failure t addr name w) (record_failure t addr name v) o.1
      (failure-Own t now addr name w o.0 ow) (failure-Own t now addr name v o.0 ov)
      (failure-Same cfg t w v (Same-later cfg t now w v o.0 s) addr name)
verdicts_agree cfg now (succeeds name ∷ rest) w v o ow ov s =
    verdicts_agree cfg now rest (record_success name w) (record_success name v) o
      (success-Own now name w ow) (success-Own now name v ov) (success-Same cfg now w v s name)
verdicts_agree cfg now (prunes t ∷ rest) w v o ow ov s =
    verdicts_agree cfg t rest (prune t w) (prune t v) o.1 (prune-Own t now w o.0 ow)
      (prune-Own t now v o.0 ov)
      (prune-Same cfg t w v (Same-later cfg t now w v o.0 s) (Own-maps now w ow)
        (Own-maps now v ov))

-- Lockouts and windows survive a restart: after any calls, a throttle that is made anew and hydrated
-- from the store decides on every later attempt exactly as the throttle that was running would have,
-- whatever checks, failures, successes and sweeps come after the restart. (The clock never runs
-- backwards, and the throttle has begun empty.)
pub restart-verdicts_same :
    (cfg : Config) (s : Store) (before : List Op) (now : ℕ) (later : List Op)
    → Ordered 0 before
    → last_time 0 before ≤ now
    → Ordered now later
    → verdicts later (restart now (run before (start cfg s)))
      ≡ verdicts later (run before (start cfg s))
restart-verdicts_same cfg s before now later o h o' =
    let w = run before (start cfg s) in
    let own =
      Own-later now (last_time 0 before) w h (run-Own 0 before (start cfg s) o (start-Own cfg s)) in
    verdicts_agree w.throttle.cfg now later (restart now w) w o' (restart-Own now w own) own
      (restart-Same now w own)
