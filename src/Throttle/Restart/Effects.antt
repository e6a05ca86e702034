-- ===== src/Throttle/Restart/Effects.antt =====
-- What each call of apps/gateway/src/login-throttle.ts leaves in the windows, as a function of what was
-- in them.
use deepseek_harness_gateway.Common.{
  ℕ, ◌+◌, ◌≡◌, refl, ap, Bool, false, Option, none, some, [], ◌∷◌, ◌++◌, arith, ltb, leb,
  Option-cases, inl, inr, if◌then◌else◌,
}
use deepseek_harness_gateway.Common.Text.{Text, text_eq, text_eq_iff, Eq-text}
use deepseek_harness_gateway.Common.Lists.{length, filter, filter-append}
use deepseek_harness_gateway.Common.Dict.{
  get, get-set, get-delete, get-retain, get-map_values, retain, IsMap,
}
use deepseek_harness_gateway.Throttle.{
  backoff_of, check, check_account, check_found, put_ip, record_failure, record_success, prune,
  attempts_of, account_of, trim_account, trim_ip, ip_live, account_live, Config, AccountState,
  IpState, World, within,
}
use deepseek_harness_gateway.Throttle.Restart.Rows.{trim_account?, trim_ip?, filter_later}

-- What is left of the account's state after a check that comes as far as the account.
abbrev pub checked : Config → ℕ → Option AccountState → Option AccountState
checked cfg t none = none
checked cfg t (some acc) =
    if ltb t acc.lock_until
    then some acc
    else if leb cfg.account_max (length acc.fails)
    then some (record {
      fails = [];
      lock_until = t + backoff_of cfg acc.lock_count;
      lock_count = acc.lock_count + 1;
    })
    else some acc

-- Whether the attempts of an address stop a check.
abbrev pub stops : Config → Option IpState → Bool
stops cfg none = false
stops cfg (some st) = leb cfg.ip_max (length st.attempts)

-- A failure more.
abbrev pub failed : Config → ℕ → Option AccountState → AccountState
failed cfg t o = record (account_of o) {
  fails = (account_of o).fails ++ filter (within cfg.account_window_ms t) (t ∷ []);
}

abbrev pub attempted : Config → ℕ → Option IpState → IpState
attempted cfg t o = record {
  attempts = attempts_of o ++ filter (within cfg.ip_window_ms t) (t ∷ []);
}

abbrev pub swept_account : Config → ℕ → Option AccountState → Option AccountState
swept_account cfg t none = none
swept_account cfg t (some acc) = if account_live cfg.account_window_ms t acc then some acc else none

abbrev pub swept_ip : Config → ℕ → Option IpState → Option IpState
swept_ip cfg t none = none
swept_ip cfg t (some st) = if ip_live cfg.ip_window_ms t st then some st else none

module _ (t : ℕ) (w : World) where
  abbrev account_at : Text → Option AccountState
  account_at k = trim_account? w.throttle.cfg t (get k w.throttle.accounts)

  abbrev ip_at : Text → Option IpState
  ip_at k = trim_ip? w.throttle.cfg t (get k w.throttle.ips)

  check_found-account :
      (name k : Text) (o : Option AccountState)
      → get name w.throttle.accounts ≡ o
      → trim_account? w.throttle.cfg t (get k (check_found t name w o).1.throttle.accounts) ≡ (
          if text_eq name k
          then checked w.throttle.cfg t (trim_account? w.throttle.cfg t o)
          else account_at k)
  unfolding filter
  check_found-account name k none e = ground (arith, text_eq_iff name k, e)
  check_found-account name k (some acc) e =
      let window = w.throttle.cfg.account_window_ms in
      ground (
        arith,
        e,
        text_eq_iff name k,
        filter_later window t t acc.fails,
        get-set name k (record acc { fails = filter (within window t) acc.fails })
            w.throttle.accounts,
        get-set name k
            (record {
              fails = [];
              lock_until = t + backoff_of w.throttle.cfg acc.lock_count;
              lock_count = acc.lock_count + 1;
            })
            w.throttle.accounts,
      )

  check_account-account :
      (name k : Text)
      → trim_account? w.throttle.cfg t (get k (check_account t name w).1.throttle.accounts)
        ≡ (if text_eq name k then checked w.throttle.cfg t (account_at name) else account_at k)
  unfolding check_account
  check_account-account name k = check_found-account name k (get name w.throttle.accounts) refl

  check_account-ips : (name : Text) → (check_account t name w).1.throttle.ips ≡ w.throttle.ips
  unfolding check_account
  check_account-ips name = elim (Option-cases (get name w.throttle.accounts)) [
    | inl z ↦ rw (z, check_account)
    | inr (acc, z) ↦ rw (z, check_account) (ground arith)
  ]

  pub failure-account :
      (addr name k : Text)
      → trim_account? w.throttle.cfg t (get k (record_failure t addr name w).throttle.accounts) ≡ (
          if text_eq name k then some (failed w.throttle.cfg t (account_at name)) else account_at k)
  unfolding record_failure
  failure-account addr name k =
      let window = w.throttle.cfg.account_window_ms in
      elim (Option-cases (get name w.throttle.accounts)) [
        | inl z ↦ ground (
          arith,
          z,
          get-set name k (record { fails = t ∷ []; lock_until = 0; lock_count = 0 })
              w.throttle.accounts,
        )
        | inr (acc, z) ↦ ground (
          arith,
          z,
          get-set name k (record acc { fails = acc.fails ++ t ∷ [] }) w.throttle.accounts,
          filter-append (within window t) acc.fails (t ∷ []),
        )
      ]

  pub failure-ip :
      (addr name k : Text)
      → trim_ip? w.throttle.cfg t (get k (record_failure t addr name w).throttle.ips)
        ≡ (if text_eq addr k then some (attempted w.throttle.cfg t (ip_at addr)) else ip_at k)
  unfolding record_failure
  failure-ip addr name k =
      let window = w.throttle.cfg.ip_window_ms in
      elim (Option-cases (get addr w.throttle.ips)) [
        | inl z ↦ ground (arith, z, get-set addr k (record { attempts = t ∷ [] }) w.throttle.ips)
        | inr (st, z) ↦ ground (
          arith,
          z,
          get-set addr k (record { attempts = st.attempts ++ t ∷ [] }) w.throttle.ips,
          filter-append (within window t) st.attempts (t ∷ []),
        )
      ]

  pub success-account :
      (name k : Text)
      → trim_account? w.throttle.cfg t (get k (record_success name w).throttle.accounts)
        ≡ (if text_eq name k then none else account_at k)
  unfolding record_success
  success-account name k = ground (arith, get-delete name k w.throttle.accounts)

  pub success-ips : (name : Text) → (record_success name w).throttle.ips ≡ w.throttle.ips
  unfolding record_success
  success-ips name = ground arith

  pub prune-account :
      (k : Text)
      → IsMap w.throttle.accounts
      → trim_account? w.throttle.cfg t (get k (prune t w).throttle.accounts)
        ≡ swept_account w.throttle.cfg t (account_at k)
  unfolding prune
  prune-account k u =
      let window = w.throttle.cfg.account_window_ms in
      let live : Text → AccountState → Bool = λ j acc. account_live window t acc in
      elim (Option-cases (get k w.throttle.accounts)) [
        | inl z ↦ ground (
          arith,
          z,
          get-retain live k w.throttle.accounts u,
          get-map_values k (trim_account window t) (retain live w.throttle.accounts),
        )
        | inr (acc, z) ↦ ground (
          arith,
          z,
          get-retain live k w.throttle.accounts u,
          get-map_values k (trim_account window t) (retain live w.throttle.accounts),
          filter_later window t t acc.fails,
        )
      ]

  pub prune-ip :
      (k : Text)
      → IsMap w.throttle.ips
      → trim_ip? w.throttle.cfg t (get k (prune t w).throttle.ips)
        ≡ swept_ip w.throttle.cfg t (ip_at k)
  unfolding prune
  prune-ip k u =
      let window = w.throttle.cfg.ip_window_ms in
      let live : Text → IpState → Bool = λ j st. ip_live window t st in
      elim (Option-cases (get k w.throttle.ips)) [
        | inl z ↦ ground (
          arith,
          z,
          get-retain live k w.throttle.ips u,
          get-map_values k (trim_ip window t) (retain live w.throttle.ips),
        )
        | inr (st, z) ↦ ground (
          arith,
          z,
          get-retain live k w.throttle.ips u,
          get-map_values k (trim_ip window t) (retain live w.throttle.ips),
          filter_later window t t st.attempts,
        )
      ]

module _ (t : ℕ) (w : World) (addr name k : Text) where
  pub check-account :
      trim_account? w.throttle.cfg t (get k (check t addr name w).1.throttle.accounts) ≡ (
        if stops w.throttle.cfg (ip_at t w addr)
        then account_at t w k
        else if text_eq name k
        then checked w.throttle.cfg t (account_at t w name)
        else account_at t w k)
  unfolding check
  check-account = elim (Option-cases (get addr w.throttle.ips)) [
    | inl z ↦ rw (z, check) (check_account-account t w name k)
    | inr (st, z) ↦
        let trimmed = put_ip addr (filter (within w.throttle.cfg.ip_window_ms t) st.attempts) w in
        rw (z, check) (ground (arith, check_account-account t trimmed name k))
  ]

  pub check-ip :
      trim_ip? w.throttle.cfg t (get k (check t addr name w).1.throttle.ips) ≡ ip_at t w k
  unfolding check
  check-ip = elim (Option-cases (get addr w.throttle.ips)) [
    | inl z ↦
        rw (z, check) (ap (λ m. trim_ip? w.throttle.cfg t (get k m)) (check_account-ips t w name))
    | inr (st, z) ↦
        let window = w.throttle.cfg.ip_window_ms in
        let trimmed = put_ip addr (filter (within window t) st.attempts) w in
        rw (z, check)
          (ground (
            arith,
            z,
            check_account-ips t trimmed name,
            text_eq_iff addr k,
            filter_later window t t st.attempts,
            get-set addr k (record { attempts = filter (within window t) st.attempts })
                w.throttle.ips,
          ))
  ]
