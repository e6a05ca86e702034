-- ===== src/Throttle/Attempts.antt =====
-- What each call of apps/gateway/src/login-throttle.ts leaves of the attempts of an address.
use deepseek_harness_gateway.Common.{
  ℕ, ◌≡◌, refl, sym, subst, true, List, [], ◌∷◌, ◌++◌, arith, nat_eq, Option-cases, inl, inr,
  if◌then◌else◌,
}
use deepseek_harness_gateway.Common.Text.{Text, text_eq, text_eq_iff, Eq-text}
use deepseek_harness_gateway.Common.Lists.{length, filter}
use deepseek_harness_gateway.Common.Dict.{
  get, get-set, get-map_values, get-retain, IsMap, set-IsMap, retain, map_values,
}
use deepseek_harness_gateway.Throttle.{
  World, within, attempts_of, check, check_account, record_failure, prune, put_ip, trim_ip, ip_live,
}

unfoldable pub attempts_at : Text → World → List ℕ
attempts_at addr w = attempts_of (get addr w.throttle.ips)

-- what `prune` and `check` leave of the attempts of an address
ips-check_account :
    (now : ℕ) (name : Text) (w : World)
    → ((check_account now name w).1.throttle.ips ≡ w.throttle.ips)
      × ((check_account now name w).1.throttle.cfg ≡ w.throttle.cfg)
unfolding check_account
ips-check_account now name w = ground arith

pub cfg-check :
    (now : ℕ) (addr name : Text) (w : World)
    → (check now addr name w).1.throttle.cfg ≡ w.throttle.cfg
unfolding check
cfg-check now addr name w = elim (Option-cases (get addr w.throttle.ips)) [
  | inl z ↦ rw (z, check) (ips-check_account now name w).1
  | inr (st, z) ↦
      rw (z, check)
        (ground (
          arith,
          ips-check_account now name
              (put_ip addr (filter (within w.throttle.cfg.ip_window_ms now) st.attempts) w),
        ))
]

pub IsMap-check :
    (now : ℕ) (addr name : Text) (w : World)
    → IsMap w.throttle.ips
    → IsMap (check now addr name w).1.throttle.ips
unfolding check
IsMap-check now addr name w m = elim (Option-cases (get addr w.throttle.ips)) [
  | inl z ↦ rw (z, check) (subst IsMap (sym (ips-check_account now name w).0) m)
  | inr (st, z) ↦
      let w' = put_ip addr (filter (within w.throttle.cfg.ip_window_ms now) st.attempts) w in
      let m' =
        set-IsMap addr
          (record { attempts = filter (within w.throttle.cfg.ip_window_ms now) st.attempts })
          w.throttle.ips m in
      rw (z, check) (ground (arith, m', subst IsMap (sym (ips-check_account now name w').0) m'))
]

pub attempts-check :
    (now : ℕ) (addr from name : Text) (w : World)
    → attempts_at addr (check now from name w).1 ≡ (
        if text_eq from addr
        then filter (within w.throttle.cfg.ip_window_ms now) (attempts_at addr w)
        else attempts_at addr w)
unfolding check attempts_at filter
attempts-check now addr from name w = elim (Option-cases (get from w.throttle.ips)) [
  | inl z ↦ rw (z, check) (ground (arith, z, text_eq_iff from addr, ips-check_account now name w))
  | inr (st, z) ↦
      let kept : List ℕ = filter (within w.throttle.cfg.ip_window_ms now) st.attempts in
      rw (z, check)
        (ground (
          arith,
          z,
          text_eq_iff from addr,
          get-set from addr (record { attempts = kept }) w.throttle.ips,
          ips-check_account now name (put_ip from kept w),
        ))
]

pub attempts-record_failure :
    (now : ℕ) (addr from name : Text) (w : World)
    → attempts_at addr (record_failure now from name w)
      ≡ (if text_eq from addr then attempts_at addr w ++ now ∷ [] else attempts_at addr w)
unfolding record_failure attempts_at
attempts-record_failure now addr from name w = ground (
  arith,
  text_eq_iff from addr,
  get-set from addr (record { attempts = attempts_of (get from w.throttle.ips) ++ now ∷ [] })
      w.throttle.ips,
)

no_length : (xs : List ℕ) → nat_eq (length xs) 0 ≡ true → xs ≡ []
no_length [] h = refl
no_length (x ∷ xs) h = ground arith

pub ips-prune :
    (now : ℕ) (w : World)
    → (prune now w).throttle.ips
      ≡ map_values
          (trim_ip w.throttle.cfg.ip_window_ms now)
          (retain (λ k st. ip_live w.throttle.cfg.ip_window_ms now st) w.throttle.ips)
unfolding prune
ips-prune now w = ground arith

pub attempts-prune :
    (now : ℕ) (addr : Text) (w : World)
    → IsMap w.throttle.ips
    → attempts_at addr (prune now w)
      ≡ filter (within w.throttle.cfg.ip_window_ms now) (attempts_at addr w)
unfolding attempts_at filter
attempts-prune now addr w m =
    let window = w.throttle.cfg.ip_window_ms in
    rw
      (
        ips-prune now w,
        get-map_values addr (trim_ip window now)
            (retain (λ k st. ip_live window now st) w.throttle.ips),
        get-retain (λ k st. ip_live window now st) addr w.throttle.ips m,
      )
      (elim (Option-cases (get addr w.throttle.ips)) [
        | inl z ↦ rw z
        | inr (st, z) ↦ rw z (ground (arith, no_length (filter (within window now) st.attempts)))
      ])
