-- ===== src/Throttle/Lockout.antt =====
-- Account lockouts of apps/gateway/src/login-throttle.ts: how long they last.
use deepseek_harness_gateway.Common.{
  ℕ, ◌+◌, ◌≤◌, ◌<◌, ◌≡◌, ◌≢◌, true, Option, none, some, List, [], ◌∷◌, ◌++◌, arith, Option-cases,
  inl, inr,
}
use deepseek_harness_gateway.Common.Text.{Text, text_eq_iff, Eq-text}
use deepseek_harness_gateway.Common.Lists.{All, filter, count, length-filter}
use deepseek_harness_gateway.Common.Dict.{
  get, get-set, get-set_self, get-delete, get-retain_hit, get-map_values, retain,
}
use deepseek_harness_gateway.Throttle.Check.{ip_open, check-pass_iff}
use deepseek_harness_gateway.Throttle.{
  within, backoff_of, account_of, put_ip, trim_account, account_live, AccountState, World, Op,
  checks, fails, succeeds, prunes, pass, check, check_account, record_failure, record_success,
  prune, step, run,
}

-- the end of an account's lockout, if the account is known
abbrev pub lock_of : Option AccountState → Option ℕ
lock_of none = none
lock_of (some acc) = some acc.lock_until

abbrev pub LockedUntil : ℕ → Text → World → Type 0
LockedUntil u name w = lock_of (get name w.throttle.accounts) ≡ some u

-- Calls that happen during a lockout that ends at `u` and that are no success of the account.
abbrev pub During : ℕ → Text → Op → Type 0
During u name (checks now addr other) = now < u
During u name (fails now addr other) = Unit
During u name (succeeds other) = other ≢ name
During u name (prunes now) = now < u

check_account-LockedUntil :
    (u now : ℕ) (name other : Text) (w : World)
    → now < u
    → LockedUntil u name w
    → LockedUntil u name (check_account now other w).1
unfolding check_account
check_account-LockedUntil u now name other w h l =
    elim (Option-cases (get other w.throttle.accounts)) [
      | inl z ↦ rw (z, check_account) l
      | inr (o, z) ↦
          rw (z, check_account)
            (ground (
              arith,
              text_eq_iff other name,
              get-set other name
                  (record {
                    fails = [];
                    lock_until = now + backoff_of w.throttle.cfg o.lock_count;
                    lock_count = o.lock_count + 1;
                  })
                  w.throttle.accounts,
              get-set other name
                  (record o {
                    fails = filter (within w.throttle.cfg.account_window_ms now) o.fails;
                  })
                  w.throttle.accounts,
            ))
    ]

check-LockedUntil :
    (u now : ℕ) (name addr other : Text) (w : World)
    → now < u
    → LockedUntil u name w
    → LockedUntil u name (check now addr other w).1
unfolding check
check-LockedUntil u now name addr other w h l = elim (Option-cases (get addr w.throttle.ips)) [
  | inl z ↦ rw (z, check) (check_account-LockedUntil u now name other w h l)
  | inr (st, z) ↦
      rw (z, check)
        (ground (
          arith,
          check_account-LockedUntil u now name other
              (put_ip addr (filter (within w.throttle.cfg.ip_window_ms now) st.attempts) w) h l,
        ))
]

fails-LockedUntil :
    (u now : ℕ) (name addr other : Text) (w : World)
    → LockedUntil u name w
    → LockedUntil u name (record_failure now addr other w)
unfolding record_failure
fails-LockedUntil u now name addr other w l = ground (
  arith,
  text_eq_iff other name,
  get-set other name
      (record (account_of (get other w.throttle.accounts)) {
        fails = (account_of (get other w.throttle.accounts)).fails ++ now ∷ [];
      })
      w.throttle.accounts,
)

succeeds-LockedUntil :
    (u : ℕ) (name other : Text) (w : World)
    → other ≢ name
    → LockedUntil u name w
    → LockedUntil u name (record_success other w)
unfolding record_success
succeeds-LockedUntil u name other w h l =
    ground (arith, text_eq_iff other name, get-delete other name w.throttle.accounts)

prunes-LockedUntil :
    (u now : ℕ) (name : Text) (w : World)
    → now < u
    → LockedUntil u name w
    → LockedUntil u name (prune now w)
unfolding prune
prunes-LockedUntil u now name w h l = elim (Option-cases (get name w.throttle.accounts)) [
  | inl z ↦ ground arith
  | inr (acc, z) ↦
      let window = w.throttle.cfg.account_window_ms in
      ground (
        arith,
        get-map_values name (trim_account window now)
            (retain (λ k st. account_live window now st) w.throttle.accounts),
        get-retain_hit (λ k st. account_live window now st) name acc w.throttle.accounts z,
      )
]

step-LockedUntil :
    (u : ℕ) (name : Text) (op : Op) (w : World)
    → During u name op
    → LockedUntil u name w
    → LockedUntil u name (step op w)
unfolding step
step-LockedUntil u name (checks now addr other) w d l =
    check-LockedUntil u now name addr other w d l
step-LockedUntil u name (fails now addr other) w d l = fails-LockedUntil u now name addr other w l
step-LockedUntil u name (succeeds other) w d l = succeeds-LockedUntil u name other w d l
step-LockedUntil u name (prunes now) w d l = prunes-LockedUntil u now name w d l

run-LockedUntil :
    (u : ℕ) (name : Text) (ops : List Op) (w : World)
    → All (During u name) ops
    → LockedUntil u name w
    → LockedUntil u name (run ops w)
unfolding run
run-LockedUntil u name [] w d l = l
run-LockedUntil u name (op ∷ ops) w d l =
    run-LockedUntil u name ops (step op w) d.1 (step-LockedUntil u name op w d.0 l)

locked_out :
    (u now : ℕ) (name addr : Text) (w : World)
    → now < u
    → LockedUntil u name w
    → (check now addr name w).0 ≢ pass
locked_out u now name addr w h l passed = ground (arith, (check-pass_iff now addr name w).0 passed)

-- While an account is locked out no attempt on it passes, from whatever address and whatever calls
-- were made since, so long as none of them was a success of the account and the lockout has not
-- run out.
pub lockout_holds :
    (u now : ℕ) (name addr : Text) (ops : List Op) (w : World)
    → LockedUntil u name w
    → All (During u name) ops
    → now < u
    → (check now addr name (run ops w)).0 ≢ pass
lockout_holds u now name addr ops w l d h =
    locked_out u now name addr (run ops w) h (run-LockedUntil u name ops w d l)

lock_starts :
    (now : ℕ) (name : Text) (w : World) (acc : AccountState)
    → get name w.throttle.accounts ≡ some acc
    → acc.lock_until ≤ now
    → w.throttle.cfg.account_max ≤ count (within w.throttle.cfg.account_window_ms now) acc.fails
    → LockedUntil (now + backoff_of w.throttle.cfg acc.lock_count) name (check_account now name w).1
unfolding check_account
lock_starts now name w acc e free full =
    rw (e, check_account)
      (ground (
        arith,
        length-filter (within w.throttle.cfg.account_window_ms now) acc.fails,
        get-set_self name
            (record {
              fails = [];
              lock_until = now + backoff_of w.throttle.cfg acc.lock_count;
              lock_count = acc.lock_count + 1;
            })
            w.throttle.accounts,
      ))

check_starts :
    (now : ℕ) (addr name : Text) (w : World) (acc : AccountState)
    → ip_open now w.throttle.cfg (get addr w.throttle.ips) ≡ true
    → get name w.throttle.accounts ≡ some acc
    → acc.lock_until ≤ now
    → w.throttle.cfg.account_max ≤ count (within w.throttle.cfg.account_window_ms now) acc.fails
    → LockedUntil (now + backoff_of w.throttle.cfg acc.lock_count) name (check now addr name w).1
unfolding check
check_starts now addr name w acc op e free full = elim (Option-cases (get addr w.throttle.ips)) [
  | inl z ↦ rw (z, check) (lock_starts now name w acc e free full)
  | inr (st, z) ↦
      rw (z, check)
        (ground (
          arith,
          z,
          length-filter (within w.throttle.cfg.ip_window_ms now) st.attempts,
          lock_starts now name
              (put_ip addr (filter (within w.throttle.cfg.ip_window_ms now) st.attempts) w) acc e
              free full,
        ))
]

-- An account that has reached its limit of failures is locked out by the next check that its
-- address does not stop: from then on, for as long as the backoff for the number of lockouts it
-- has served, no attempt on it passes, from any address and after any calls but a success of it.
pub failures_lock_out :
    (now later : ℕ) (addr from name : Text) (ops : List Op) (w : World) (acc : AccountState)
    → ip_open now w.throttle.cfg (get addr w.throttle.ips) ≡ true
    → get name w.throttle.accounts ≡ some acc
    → acc.lock_until ≤ now
    → w.throttle.cfg.account_max ≤ count (within w.throttle.cfg.account_window_ms now) acc.fails
    → All (During (now + backoff_of w.throttle.cfg acc.lock_count) name) ops
    → later < now + backoff_of w.throttle.cfg acc.lock_count
    → (check later from name (run ops (check now addr name w).1)).0 ≢ pass
failures_lock_out now later addr from name ops w acc op e free full d h =
    lockout_holds (now + backoff_of w.throttle.cfg acc.lock_count) later name from ops
      (check now addr name w).1 (check_starts now addr name w acc op e free full) d h
