-- ===== src/Throttle/Restart/Verdict.antt =====
-- The decision of `check` (apps/gateway/src/login-throttle.ts) as a function of what is in the windows, and
-- the decision of a throttle that was read back.
use deepseek_harness_gateway.Common.{
  ℕ, ◌+◌, ◌-◌, ◌≤◌, ◌≡◌, refl, sym, ap, ◌∙◌, true, Option, none, some, [], arith, ltb, leb,
  Option-cases, inl, inr, if◌then◌else◌,
}
use deepseek_harness_gateway.Common.Text.{Text, Eq-text}
use deepseek_harness_gateway.Common.Lists.{length, get_or, filter}
use deepseek_harness_gateway.Common.Dict.{get, IsMap}
use deepseek_harness_gateway.Store.Domain.{ThrottleAccount, ThrottleIp}
use deepseek_harness_gateway.Store.Memory.{list_throttle_accounts, list_throttle_ips}
use deepseek_harness_gateway.Throttle.{
  ThrottleCheck, pass, blocked, ip, account, retry_after_sec, backoff_of, check_account, put_ip,
  Config, AccountState, IpState, World, within, fresh, hydrate, check,
}
use deepseek_harness_gateway.Throttle.Restart.Rows.{
  load_account?, load_ip?, AccountKeys, IpKeys, or_else, hydrate_accounts-get, hydrate_ips-get,
  trim_account?, trim_ip?, trim_account_later, load_account_later, trim_ip_later, load_ip_later,
}

-- The decision, as a function of what is in the window.
abbrev account_verdict : Config → ℕ → Option AccountState → ThrottleCheck
account_verdict cfg now none = pass
account_verdict cfg now (some acc) =
    if ltb now acc.lock_until
    then blocked (retry_after_sec (acc.lock_until - now)) account
    else if leb cfg.account_max (length acc.fails)
    then blocked (retry_after_sec (backoff_of cfg acc.lock_count)) account
    else pass

abbrev pub verdict : Config → ℕ → Option IpState → Option AccountState → ThrottleCheck
verdict cfg now none acc = account_verdict cfg now acc
verdict cfg now (some st) acc =
    if leb cfg.ip_max (length st.attempts)
    then blocked (retry_after_sec (get_or st.attempts 0 0 + cfg.ip_window_ms - now)) ip
    else account_verdict cfg now acc

check_account-verdict :
    (now : ℕ) (name : Text) (w : World)
    → (check_account now name w).0
      ≡ account_verdict w.throttle.cfg now
          (trim_account? w.throttle.cfg now (get name w.throttle.accounts))
unfolding check_account
check_account-verdict now name w = elim (Option-cases (get name w.throttle.accounts)) [
  | inl z ↦ rw (z, check_account)
  | inr (acc, z) ↦ rw (z, check_account) (ground arith)
]

pub check-verdict :
    (now : ℕ) (addr name : Text) (w : World)
    → (check now addr name w).0
      ≡ verdict w.throttle.cfg now
          (trim_ip? w.throttle.cfg now (get addr w.throttle.ips))
          (trim_account? w.throttle.cfg now (get name w.throttle.accounts))
unfolding check
check-verdict now addr name w = elim (Option-cases (get addr w.throttle.ips)) [
  | inl z ↦ rw (z, check) (check_account-verdict now name w)
  | inr (st, z) ↦
      rw (z, check)
        (ground (
          arith,
          check_account-verdict now name
              (put_ip addr (filter (within w.throttle.cfg.ip_window_ms now) st.attempts) w),
        ))
]

-- The rows hold, for every key, what the throttle holds, up to what has left the window by `now`.
pub record Synced (cfg : Config) (now : ℕ) (w : World) : Type 0 where
  pub on_accounts :
      (k : Text)
      → trim_account? cfg now (get k w.throttle.accounts)
        ≡ load_account? cfg now (get k w.store.throttle_accounts)
  pub on_ips :
      (k : Text)
      → trim_ip? cfg now (get k w.throttle.ips) ≡ load_ip? cfg now (get k w.store.throttle_ips)
  pub config : w.throttle.cfg ≡ cfg
  pub persistent : w.throttle.persist ≡ true
  pub accounts_map : IsMap w.throttle.accounts
  pub ips_map : IsMap w.throttle.ips
  pub account_rows : IsMap w.store.throttle_accounts × AccountKeys w.store.throttle_accounts
  pub ip_rows : IsMap w.store.throttle_ips × IpKeys w.store.throttle_ips

pub account_later :
    (cfg : Config) (now later : ℕ) (o : Option AccountState) (r : Option ThrottleAccount)
    → now ≤ later
    → trim_account? cfg now o ≡ load_account? cfg now r
    → trim_account? cfg later o ≡ load_account? cfg later r
account_later cfg now later o r h e =
    sym (trim_account_later cfg now later o h)
    ∙ ap (trim_account? cfg later) e
    ∙ load_account_later cfg now later r h

pub ip_later :
    (cfg : Config) (now later : ℕ) (o : Option IpState) (r : Option ThrottleIp)
    → now ≤ later
    → trim_ip? cfg now o ≡ load_ip? cfg now r
    → trim_ip? cfg later o ≡ load_ip? cfg later r
ip_later cfg now later o r h e =
    sym (trim_ip_later cfg now later o h)
    ∙ ap (trim_ip? cfg later) e
    ∙ load_ip_later cfg now later r h

-- What a new process starts from: an empty throttle over the same store, hydrated.
abbrev pub restart : ℕ → World → World
restart now w = hydrate now (record w { throttle = fresh w.throttle.cfg w.throttle.persist })

pub or_else-none {ℓ} : {A : Type ℓ} (o : Option A) → or_else o none ≡ o
or_else-none none = refl
or_else-none (some a) = refl

pub restart-cfg : (now : ℕ) (w : World) → (restart now w).throttle.cfg ≡ w.throttle.cfg
unfolding hydrate
restart-cfg now w = ground arith

pub restart-accounts :
    (now : ℕ) (k : Text) (w : World)
    → w.throttle.persist ≡ true
    → IsMap w.store.throttle_accounts × AccountKeys w.store.throttle_accounts
    → get k (restart now w).throttle.accounts
      ≡ load_account? w.throttle.cfg now (get k w.store.throttle_accounts)
unfolding hydrate list_throttle_accounts get
restart-accounts now k w p rows = simp p (
    hydrate_accounts-get w.throttle.cfg now k w.store.throttle_accounts [] rows.0 rows.1
    ∙ or_else-none _)

pub restart-ips :
    (now : ℕ) (k : Text) (w : World)
    → w.throttle.persist ≡ true
    → IsMap w.store.throttle_ips × IpKeys w.store.throttle_ips
    → get k (restart now w).throttle.ips ≡ load_ip? w.throttle.cfg now (get k w.store.throttle_ips)
unfolding hydrate list_throttle_ips get
restart-ips now k w p rows =
    simp p
      (hydrate_ips-get w.throttle.cfg now k w.store.throttle_ips [] rows.0 rows.1 ∙ or_else-none _)
