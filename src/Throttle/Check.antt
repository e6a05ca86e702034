-- ===== src/Throttle/Check.antt =====
-- `check` of apps/gateway/src/login-throttle.ts: when an attempt passes.
use deepseek_harness_gateway.Common.{
  ℕ, ◌≡◌, ◌↔◌, Bool, true, ◌&&◌, Option, none, some, List, arith, ltb, leb, Option-cases, inl, inr,
}
use deepseek_harness_gateway.Common.Text.{Text, Eq-text}
use deepseek_harness_gateway.Common.Lists.{filter, count, length-filter}
use deepseek_harness_gateway.Common.Dict.{get}
use deepseek_harness_gateway.Throttle.{
  Config, AccountState, IpState, World, pass, within, check, check_account, put_ip,
}

-- fewer attempts in the window than the limit
abbrev pub ip_open : ℕ → Config → Option IpState → Bool
ip_open now cfg none = true
ip_open now cfg (some st) = ltb (count (within cfg.ip_window_ms now) st.attempts) cfg.ip_max

-- no lockout, and fewer failures in the window than the limit
abbrev pub account_open : ℕ → Config → Option AccountState → Bool
account_open now cfg none = true
account_open now cfg (some acc) =
    leb acc.lock_until now
    && ltb (count (within cfg.account_window_ms now) acc.fails) cfg.account_max

pub check_account_passes :
    (now : ℕ) (name : Text) (w : World)
    → ((check_account now name w).0 ≡ pass)
      ↔ (account_open now w.throttle.cfg (get name w.throttle.accounts) ≡ true)
unfolding check_account
check_account_passes now name w = elim (Option-cases (get name w.throttle.accounts)) [
  | inl e ↦ rw (e, check_account) (ground arith)
  | inr (acc, e) ↦
      rw (e, check_account)
        (ground (arith, length-filter (within w.throttle.cfg.account_window_ms now) acc.fails))
]

-- An attempt passes exactly when its address has fewer attempts in the window than the limit, and
-- its account is not locked out and has fewer failures in the window than its limit.
pub check-pass_iff :
    (now : ℕ) (addr name : Text) (w : World)
    → ((check now addr name w).0 ≡ pass) ↔ (
        (ip_open now w.throttle.cfg (get addr w.throttle.ips)
          && account_open now w.throttle.cfg (get name w.throttle.accounts))
        ≡ true)
unfolding check
check-pass_iff now addr name w = elim (Option-cases (get addr w.throttle.ips)) [
  | inl e ↦ rw (e, check) (check_account_passes now name w)
  | inr (st, e) ↦
      let kept : List ℕ = filter (within w.throttle.cfg.ip_window_ms now) st.attempts in
      rw (e, check)
        (ground (
          arith,
          length-filter (within w.throttle.cfg.ip_window_ms now) st.attempts,
          check_account_passes now name (put_ip addr kept w),
        ))
]
