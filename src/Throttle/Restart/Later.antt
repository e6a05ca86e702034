-- ===== src/Throttle/Restart/Later.antt =====
-- Two throttles of apps/gateway/src/login-throttle.ts that hold the same windows and lockouts go on to
-- hold the same.
use mathlib.Core.Path.{ap₂}
use deepseek_harness_gateway.Common.{
  ℕ, ◌≤◌, ◌≡◌, sym, subst, ap, ◌∙◌, none, some, arith, Option-cases, inl, inr, if◌then◌else◌,
}
use deepseek_harness_gateway.Common.Text.{Text, text_eq, Eq-text}
use deepseek_harness_gateway.Common.Lists.{filter}
use deepseek_harness_gateway.Common.Dict.{get, IsMap}
use deepseek_harness_gateway.Throttle.{
  check, check_account, put_ip, record_failure, record_success, prune, Config, World, within,
}
use deepseek_harness_gateway.Throttle.Restart.Verdict.{verdict, check-verdict}
use deepseek_harness_gateway.Throttle.Restart.Rows.{
  trim_account?, trim_ip?, trim_account_later, trim_ip_later,
}
use deepseek_harness_gateway.Throttle.Restart.Effects.{
  checked, stops, failed, attempted, swept_account, swept_ip, failure-account, failure-ip,
  success-account, success-ips, prune-account, prune-ip, check-account, check-ip,
}

-- Two throttles hold the same for every key, up to what has left the window by `now`.
pub record Same (cfg : Config) (now : ℕ) (w v : World) : Type 0 where
  pub cfg_left : w.throttle.cfg ≡ cfg
  pub cfg_right : v.throttle.cfg ≡ cfg
  pub on_accounts :
      (k : Text)
      → trim_account? cfg now (get k w.throttle.accounts)
        ≡ trim_account? cfg now (get k v.throttle.accounts)
  pub on_ips :
      (k : Text) → trim_ip? cfg now (get k w.throttle.ips) ≡ trim_ip? cfg now (get k v.throttle.ips)

pub Same-later :
    (cfg : Config) (t now : ℕ) (w v : World) → now ≤ t → Same cfg now w v → Same cfg t w v
Same-later cfg t now w v h s = record {
  cfg_left = s.cfg_left;
  cfg_right = s.cfg_right;
  on_accounts = λ k.
      sym (trim_account_later cfg now t (get k w.throttle.accounts) h)
      ∙ ap (trim_account? cfg t) (s.on_accounts k)
      ∙ trim_account_later cfg now t (get k v.throttle.accounts) h;
  on_ips = λ k.
      sym (trim_ip_later cfg now t (get k w.throttle.ips) h)
      ∙ ap (trim_ip? cfg t) (s.on_ips k)
      ∙ trim_ip_later cfg now t (get k v.throttle.ips) h;
}

check-cfg :
    (t : ℕ) (addr name : Text) (w : World) → (check t addr name w).1.throttle.cfg ≡ w.throttle.cfg
unfolding check check_account
check-cfg t addr name w = elim (Option-cases (get addr w.throttle.ips)) [
  | inl z ↦ rw (z, check) (account-cfg w)
  | inr (st, z) ↦
      rw (z, check)
        (ground (
          arith,
          account-cfg (put_ip addr (filter (within w.throttle.cfg.ip_window_ms t) st.attempts) w),
        ))
]
  where
    account-cfg : (x : World) → (check_account t name x).1.throttle.cfg ≡ x.throttle.cfg
    account-cfg x = elim (Option-cases (get name x.throttle.accounts)) [
      | inl z ↦ rw (z, check_account)
      | inr (acc, z) ↦ rw (z, check_account) (ground arith)
    ]

failure-cfg :
    (t : ℕ) (addr name : Text) (w : World)
    → (record_failure t addr name w).throttle.cfg ≡ w.throttle.cfg
unfolding record_failure
failure-cfg t addr name w = ground arith

success-cfg : (name : Text) (w : World) → (record_success name w).throttle.cfg ≡ w.throttle.cfg
unfolding record_success
success-cfg name w = ground arith

prune-cfg : (t : ℕ) (w : World) → (prune t w).throttle.cfg ≡ w.throttle.cfg
unfolding prune
prune-cfg t w = ground arith

module _ (cfg : Config) (t : ℕ) (w v : World) (s : Same cfg t w v) where
  pub check-decision : (addr name : Text) → (check t addr name w).0 ≡ (check t addr name v).0
  check-decision addr name =
      subst (decided w) s.cfg_left (check-verdict t addr name w)
      ∙ ap₂ (verdict cfg t) (s.on_ips addr) (s.on_accounts name)
      ∙ sym (subst (decided v) s.cfg_right (check-verdict t addr name v))
    where
      decided : World → Config → Type 0
      decided x c =
          (check t addr name x).0
          ≡ verdict c t (trim_ip? c t (get addr x.throttle.ips))
              (trim_account? c t (get name x.throttle.accounts))

  pub check-Same : (addr name : Text) → Same cfg t (check t addr name w).1 (check t addr name v).1
  check-Same addr name = record {
    cfg_left = check-cfg t addr name w ∙ s.cfg_left;
    cfg_right = check-cfg t addr name v ∙ s.cfg_right;
    on_accounts = λ k.
        subst (of_accounts w k) s.cfg_left (check-account t w addr name k)
        ∙ ground (arith, s.on_ips addr, s.on_accounts name, s.on_accounts k)
        ∙ sym (subst (of_accounts v k) s.cfg_right (check-account t v addr name k));
    on_ips = λ k.
        subst (of_ips w k) s.cfg_left (check-ip t w addr name k)
        ∙ s.on_ips k
        ∙ sym (subst (of_ips v k) s.cfg_right (check-ip t v addr name k));
  }
    where
      of_accounts : World → Text → Config → Type 0
      of_accounts x k c = trim_account? c t (get k (check t addr name x).1.throttle.accounts) ≡ (
          if stops c (trim_ip? c t (get addr x.throttle.ips))
          then trim_account? c t (get k x.throttle.accounts)
          else if text_eq name k
          then checked c t (trim_account? c t (get name x.throttle.accounts))
          else trim_account? c t (get k x.throttle.accounts))

      of_ips : World → Text → Config → Type 0
      of_ips x k c =
          trim_ip? c t (get k (check t addr name x).1.throttle.ips)
          ≡ trim_ip? c t (get k x.throttle.ips)

  pub failure-Same :
      (addr name : Text) → Same cfg t (record_failure t addr name w) (record_failure t addr name v)
  failure-Same addr name = record {
    cfg_left = failure-cfg t addr name w ∙ s.cfg_left;
    cfg_right = failure-cfg t addr name v ∙ s.cfg_right;
    on_accounts = λ k.
        subst (of_accounts w k) s.cfg_left (failure-account t w addr name k)
        ∙ ap₂ (λ a b. if text_eq name k then some (failed cfg t a) else b) (s.on_accounts name)
            (s.on_accounts k)
        ∙ sym (subst (of_accounts v k) s.cfg_right (failure-account t v addr name k));
    on_ips = λ k.
        subst (of_ips w k) s.cfg_left (failure-ip t w addr name k)
        ∙ ap₂ (λ a b. if text_eq addr k then some (attempted cfg t a) else b) (s.on_ips addr)
            (s.on_ips k)
        ∙ sym (subst (of_ips v k) s.cfg_right (failure-ip t v addr name k));
  }
    where
      of_accounts : World → Text → Config → Type 0
      of_accounts x k c =
          trim_account? c t (get k (record_failure t addr name x).throttle.accounts) ≡ (
            if text_eq name k
            then some (failed c t (trim_account? c t (get name x.throttle.accounts)))
            else trim_account? c t (get k x.throttle.accounts))

      of_ips : World → Text → Config → Type 0
      of_ips x k c = trim_ip? c t (get k (record_failure t addr name x).throttle.ips) ≡ (
          if text_eq addr k
          then some (attempted c t (trim_ip? c t (get addr x.throttle.ips)))
          else trim_ip? c t (get k x.throttle.ips))

  pub success-Same : (name : Text) → Same cfg t (record_success name w) (record_success name v)
  success-Same name = record {
    cfg_left = success-cfg name w ∙ s.cfg_left;
    cfg_right = success-cfg name v ∙ s.cfg_right;
    on_accounts = λ k.
        subst (of_accounts w k) s.cfg_left (success-account t w name k)
        ∙ ap (λ b. if text_eq name k then none else b) (s.on_accounts k)
        ∙ sym (subst (of_accounts v k) s.cfg_right (success-account t v name k));
    on_ips = λ k.
        ap (λ m. trim_ip? cfg t (get k m)) (success-ips t w name)
        ∙ s.on_ips k
        ∙ sym (ap (λ m. trim_ip? cfg t (get k m)) (success-ips t v name));
  }
    where
      of_accounts : World → Text → Config → Type 0
      of_accounts x k c =
          trim_account? c t (get k (record_success name x).throttle.accounts)
          ≡ (if text_eq name k then none else trim_account? c t (get k x.throttle.accounts))

  pub prune-Same :
      IsMap w.throttle.accounts × IsMap w.throttle.ips
      → IsMap v.throttle.accounts × IsMap v.throttle.ips
      → Same cfg t (prune t w) (prune t v)
  prune-Same mw mv = record {
    cfg_left = prune-cfg t w ∙ s.cfg_left;
    cfg_right = prune-cfg t v ∙ s.cfg_right;
    on_accounts = λ k.
        subst (of_accounts w k) s.cfg_left (prune-account t w k mw.0)
        ∙ ap (swept_account cfg t) (s.on_accounts k)
        ∙ sym (subst (of_accounts v k) s.cfg_right (prune-account t v k mv.0));
    on_ips = λ k.
        subst (of_ips w k) s.cfg_left (prune-ip t w k mw.1)
        ∙ ap (swept_ip cfg t) (s.on_ips k)
        ∙ sym (subst (of_ips v k) s.cfg_right (prune-ip t v k mv.1));
  }
    where
      of_accounts : World → Text → Config → Type 0
      of_accounts x k c =
          trim_account? c t (get k (prune t x).throttle.accounts)
          ≡ swept_account c t (trim_account? c t (get k x.throttle.accounts))

      of_ips : World → Text → Config → Type 0
      of_ips x k c =
          trim_ip? c t (get k (prune t x).throttle.ips)
          ≡ swept_ip c t (trim_ip? c t (get k x.throttle.ips))
