-- ===== src/Throttle/Restart/Calls.antt =====
-- `check`, `recordFailure` and `recordSuccess` (apps/gateway/src/login-throttle.ts) keep the rows in step.
use deepseek_harness_gateway.Common.{
  ℕ, ◌+◌, ◌≤◌, ◌≡◌, refl, Bool, true, false, Option, none, some, [], ◌∷◌, ◌++◌, arith, ltb, leb,
  if◌then◌else◌,
}
use deepseek_harness_gateway.Common.Text.{Text, Eq-text}
use deepseek_harness_gateway.Common.Lists.{length, filter}
use deepseek_harness_gateway.Common.Dict.{get, set, get-delete, delete-IsMap}
use deepseek_harness_gateway.Store.Memory.{delete_throttle_account}
use deepseek_harness_gateway.Throttle.{
  ThrottleCheck, backoff_of, save_ip, check_account, check_found, check_ip_found, lock_out,
  record_failure, record_success, attempts_of, account_of, put_ip, AccountState, IpState, World,
  within, check,
}
use deepseek_harness_gateway.Throttle.Restart.Writes.{
  delete-AccountKeys, Own, write_account, write_ip, trim_one_account, trim_one_ip, Own-persistent,
  Own-later,
}

pub if_persist :
    (P : World → Type 0) (b : Bool) (x y : World) → b ≡ true → P x → P (if b then x else y)
if_persist P true x y e h = h
if_persist P false x y e h = cc

if_after :
    (P : World → Type 0) (b : Bool) (x y : ThrottleCheck × World)
    → (b ≡ true → P x.1)
    → (b ≡ false → P y.1)
    → P (if b then x else y).1
if_after P true x y hx hy = hx refl
if_after P false x y hx hy = hy refl

check_found-Own :
    (t now : ℕ) (name : Text) (w : World) (o : Option AccountState)
    → now ≤ t
    → get name w.throttle.accounts ≡ o
    → Own now w
    → Own t (check_found t name w o).1
check_found-Own t now name w none h e s = Own-later t now w h s
check_found-Own t now name w (some acc) h e s =
    if_after (Own t) (ltb t acc.lock_until) _ _ (λ _. Own-later t now w h s)
      (λ _.
        if_after (Own t)
          (leb w.throttle.cfg.account_max
            (length (filter (within w.throttle.cfg.account_window_ms t) acc.fails)))
          _ _ (λ _. locked) (λ _. trim_one_account t name acc now w h e s))
  where
    locked : Own t (lock_out t name acc w).1
    locked = if_persist (Own t) w.throttle.persist _ _ (Own-persistent now w s) (
        write_account t name
          (record {
            fails = [];
            lock_until = t + backoff_of w.throttle.cfg acc.lock_count;
            lock_count = acc.lock_count + 1;
          })
          now w h s)

check_account-Own :
    (t now : ℕ) (name : Text) (w : World) → now ≤ t → Own now w → Own t (check_account t name w).1
unfolding check_account
check_account-Own t now name w h s =
    check_found-Own t now name w (get name w.throttle.accounts) h refl s

check_ip_found-Own :
    (t now : ℕ) (addr name : Text) (w : World) (o : Option IpState)
    → now ≤ t
    → get addr w.throttle.ips ≡ o
    → Own now w
    → Own t (check_ip_found t addr name w o).1
check_ip_found-Own t now addr name w none h e s = check_account-Own t now name w h s
check_ip_found-Own t now addr name w (some st) h e s =
    let trimmed = trim_one_ip t addr st now w h e s in
    if_after (Own t)
      (leb w.throttle.cfg.ip_max
        (length (filter (within w.throttle.cfg.ip_window_ms t) st.attempts)))
      _ _ (λ _. trimmed)
      (λ _.
        check_account-Own t t name
          (put_ip addr (filter (within w.throttle.cfg.ip_window_ms t) st.attempts) w) (omega arith)
          trimmed)

pub check-Own :
    (t now : ℕ) (addr name : Text) (w : World) → now ≤ t → Own now w → Own t (check t addr name w).1
unfolding check
check-Own t now addr name w h s =
    check_ip_found-Own t now addr name w (get addr w.throttle.ips) h refl s

pub failure-Own :
    (t now : ℕ) (addr name : Text) (w : World)
    → now ≤ t
    → Own now w
    → Own t (record_failure t addr name w)
unfolding record_failure
failure-Own t now addr name w h s =
    let attempts = attempts_of (get addr w.throttle.ips) ++ t ∷ [] in
    let w' : World = record w {
      throttle = record (w.throttle) {
        ips = set addr (record { attempts = attempts }) w.throttle.ips;
      };
      store = save_ip addr attempts t w.store;
    } in
    let acc = account_of (get name w.throttle.accounts) in
    if_persist (Own t) w.throttle.persist _ _ (Own-persistent now w s) (
      write_account t name (record acc { fails = acc.fails ++ t ∷ [] }) t w' (omega arith)
        (write_ip t addr attempts now w h s))

pub success-Own : (now : ℕ) (name : Text) (w : World) → Own now w → Own now (record_success name w)
unfolding record_success delete_throttle_account Own
success-Own now name w s = if_persist (Own now) w.throttle.persist _ _ s.persistent (record {
  on_ips = s.on_ips;
  on_accounts = λ k. ground (
    arith,
    get-delete name k w.throttle.accounts,
    get-delete name k w.store.throttle_accounts,
    s.on_accounts k,
  );
  config = refl;
  persistent = s.persistent;
  accounts_map = delete-IsMap name w.throttle.accounts s.accounts_map;
  ips_map = s.ips_map;
  account_rows = (
    delete-IsMap name w.store.throttle_accounts s.account_rows.0,
    delete-AccountKeys name w.store.throttle_accounts s.account_rows.1,
  );
  ip_rows = s.ip_rows;
})
