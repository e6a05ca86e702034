-- ===== src/Login/Outcome.antt =====
-- What `POST /gw/login` of apps/gateway/src/auth.ts does, branch by branch.
use deepseek_harness_gateway.Common.{
  ℕ, ◌≡◌, ◌≢◌, ◌↔◌, refl, sym, ap, subst, ◌∙◌, Bool, true, Option, none, some, List, [], ◌∷◌, ◌++◌,
  arith, Bool-cases, ◌⊎◌, inl, inr,
}
use deepseek_harness_gateway.Common.Text.{Text, Eq-text}
use deepseek_harness_gateway.Common.Dict.{get}
use deepseek_harness_gateway.Store.Domain.{User, Store, AuditEvent, ok}
use deepseek_harness_gateway.Store.Memory.{get_user, append_audit}
use deepseek_harness_gateway.Throttle.{World, Reason, ThrottleCheck, pass, blocked, check}
use deepseek_harness_gateway.Throttle.Keeps.{
  check-Keeps, record_failure-Keeps, record_success-Keeps,
}
use deepseek_harness_gateway.Session.{Limits}
use deepseek_harness_gateway.Login.{
  Scrypt, Gateway, LoginRequest, Clock, LoginReply, login_status, login, login_user, login_checked,
  login_with, or_empty, verify_password, throttled_event, denied_event, login_event,
}

module _ (l : Limits) (scrypt : Scrypt) (cookie_secure : Option Bool) where
  -- What a login needs: both members, a check that passes, a user, and the user's password.
  abbrev pub Admits : Clock → LoginRequest → Gateway → Type 0
  Admits clock req g =
      (or_empty req.id ≢ [])
      × (or_empty req.password ≢ [])
      × ((check clock.checked_at req.from (or_empty req.id) g.world).0 ≡ pass)
      × ((u : User) × (get (or_empty req.id) g.world.store.users ≡ some u)
          × (verify_password scrypt (or_empty req.password) u.auth_hash ≡ true))

  -- The reply of a login that comes as far as the user's record.
  user_status :
      (clock : Clock) (token id password : Text) (req : LoginRequest) (g : Gateway) (w : World)
      (r : Option User)
      → (login_status (login_user l scrypt cookie_secure clock token id password req g w r).0 ≡ 200)
        ↔ ((u : User) × (r ≡ some u) × (verify_password scrypt password u.auth_hash ≡ true))
  user_status clock token id password req g w none = (λ h. absurd (omega arith), λ (u, e, v). cc)
  user_status clock token id password req g w (some u) =
      elim (Bool-cases (verify_password scrypt password u.auth_hash)) [
        | inl good ↦ rw good (λ h. (u, refl, good), λ h. refl)
        | inr bad ↦ rw bad (λ h. absurd (omega arith), λ (v, e, holds). cc)
      ]

  checked_status :
      (clock : Clock) (token id password : Text) (req : LoginRequest) (g : Gateway)
      (r : ThrottleCheck) (w : World)
      → (login_status (login_checked l scrypt cookie_secure clock token id password req g (r, w)).0
          ≡ 200)
        ↔ ((r ≡ pass)
            × ((u : User) × (get id w.store.users ≡ some u)
                × (verify_password scrypt password u.auth_hash ≡ true)))
  unfolding get_user
  checked_status clock token id password req g (blocked n why) w =
      (λ h. absurd (omega arith), λ (e, f). cc)
  checked_status clock token id password req g pass w =
      let found = user_status clock token id password req g w (get id w.store.users) in
      (λ h. (refl, found.0 h), λ (e, f). found.1 f)

  -- `Admits`, for a member that was given and a result of the check
  status_with :
      (clock : Clock) (token id password : Text) (req : LoginRequest) (g : Gateway)
      → (login_status (login_with l scrypt cookie_secure clock token id password req g).0 ≡ 200) ↔ (
          (id ≢ [])
          × (password ≢ [])
          × ((check clock.checked_at req.from id g.world).0 ≡ pass)
          × ((u : User) × (get id g.world.store.users ≡ some u)
              × (verify_password scrypt password u.auth_hash ≡ true)))
  status_with clock token [] password req g =
      (λ h. absurd (omega arith), λ (n, m, e, f). absurd (n refl))
  status_with clock token (c ∷ id) [] req g =
      (λ h. absurd (omega arith), λ (n, m, e, f). absurd (m refl))
  status_with clock token (c ∷ id) (d ∷ password) req g =
      let w = check clock.checked_at req.from (c ∷ id) g.world in
      let found = checked_status clock token (c ∷ id) (d ∷ password) req g w.0 w.1 in
      let kept = (check-Keeps clock.checked_at req.from (c ∷ id) g.world).0 in
      (
        λ h. (
          λ e. cc,
          λ e. cc,
          (found.0 h).0,
          subst
              (λ us.
                (u : User) × (get (c ∷ id) us ≡ some u)
                × (verify_password scrypt (d ∷ password) u.auth_hash ≡ true))
              kept (found.0 h).1,
        ),
        λ (n, m, e, f). found.1 (
          e,
          subst
              (λ us.
                (u : User) × (get (c ∷ id) us ≡ some u)
                × (verify_password scrypt (d ∷ password) u.auth_hash ≡ true))
              (sym kept) f,
        ),
      )

  -- A login is answered with 200 exactly when it names an account and gives a password, the throttle
  -- lets it through, and the password is that of a user of that name.
  pub login-status_iff :
      (clock : Clock) (token : Text) (req : LoginRequest) (g : Gateway)
      → (login_status (login l scrypt cookie_secure clock token req g).0 ≡ 200) ↔ Admits clock req g
  unfolding login
  login-status_iff clock token req g =
      status_with clock token (or_empty req.id) (or_empty req.password) req g

  -- The trace that a login leaves in the audit log.
  abbrev pub Audited : LoginReply → List AuditEvent → List AuditEvent → Type 0
  Audited r before after =
      (e : AuditEvent) × (after ≡ before ++ e ∷ []) × ((e.result ≡ ok) ↔ (login_status r ≡ 200))

  user-Audited :
      (clock : Clock) (token id password : Text) (req : LoginRequest) (g : Gateway) (w : World)
      (before : Store) (r : Option User)
      → w.store.audit ≡ before.audit
      → (let out = login_user l scrypt cookie_secure clock token id password req g w r in
          Audited out.0 before.audit out.1.world.store.audit)
  unfolding login_event denied_event append_audit
  user-Audited clock token id password req g w before none h = (
    denied_event clock id req,
    ap (λ z. z ++ denied_event clock id req ∷ [])
        ((record_failure-Keeps clock.failed_at req.from id w).1 ∙ h),
    (λ p. cc, λ p. absurd (omega arith)),
  )
  user-Audited clock token id password req g w before (some u) h =
      elim (Bool-cases (verify_password scrypt password u.auth_hash)) [
        | inl good ↦ rw good (
          login_event clock u,
          ap (λ z. z ++ login_event clock u ∷ []) ((record_success-Keeps id w).1 ∙ h),
          (λ p. refl, λ p. refl),
        )
        | inr bad ↦ rw bad (
          denied_event clock id req,
          ap (λ z. z ++ denied_event clock id req ∷ [])
              ((record_failure-Keeps clock.failed_at req.from id w).1 ∙ h),
          (λ p. cc, λ p. absurd (omega arith)),
        )
      ]

  with-Audited :
      (clock : Clock) (token id password : Text) (req : LoginRequest) (g : Gateway)
      → (let out = login_with l scrypt cookie_secure clock token id password req g in
          ((id ≡ []) ⊎ (password ≡ [])) × (login_status out.0 ≡ 400) × (out.1 ≡ g)
          ⊎ (id ≢ []) × (password ≢ []) × Audited out.0 g.world.store.audit out.1.world.store.audit)
  unfolding throttled_event append_audit get_user
  with-Audited clock token [] password req g = inl (inl refl, refl, refl)
  with-Audited clock token (c ∷ id) [] req g = inl (inr refl, refl, refl)
  with-Audited clock token (c ∷ id) (d ∷ password) req g = inr (
    λ e. cc,
    λ e. cc,
    after_check (check clock.checked_at req.from (c ∷ id) g.world)
        (check-Keeps clock.checked_at req.from (c ∷ id) g.world).1,
  )
    where
      after_check :
          (r : ThrottleCheck × World)
          → r.1.store.audit ≡ g.world.store.audit
          → Audited
              (login_checked l scrypt cookie_secure clock token (c ∷ id) (d ∷ password) req g r).0
              g.world.store.audit
              (login_checked l scrypt cookie_secure clock token
                (c ∷ id)
                (d ∷ password)
                req
                g
                r).1.world.store.audit
      after_check (blocked n why, w) h = (
        throttled_event clock (c ∷ id) req n why,
        ap (λ z. z ++ throttled_event clock (c ∷ id) req n why ∷ []) h,
        (λ p. cc, λ p. absurd (omega arith)),
      )
      after_check (pass, w) h =
          user-Audited clock token (c ∷ id) (d ∷ password) req g w g.world.store
            (get (c ∷ id) w.store.users) h

  -- A login without an account name or without a password is answered with 400 and changes nothing;
  -- every other login, let in, refused or throttled, appends exactly one event to the audit log, whose
  -- result is `ok` exactly when the login is let in.
  pub login-audits_once :
      (clock : Clock) (token : Text) (req : LoginRequest) (g : Gateway)
      → (let out = login l scrypt cookie_secure clock token req g in
          ((or_empty req.id ≡ []) ⊎ (or_empty req.password ≡ []))
            × (login_status out.0 ≡ 400)
            × (out.1 ≡ g)
          ⊎ (or_empty req.id ≢ [])
            × (or_empty req.password ≢ [])
            × Audited out.0 g.world.store.audit out.1.world.store.audit)
  unfolding login
  login-audits_once clock token req g =
      with-Audited clock token (or_empty req.id) (or_empty req.password) req g

  -- Once the throttle blocks an attempt, the password makes no difference: neither to the reply nor to
  -- anything the gateway stores.
  pub blocked_login_ignores_password :
      (clock : Clock) (token : Text) (req : LoginRequest) (g : Gateway) (retry : ℕ) (why : Reason)
      (p q : Text)
      → (check clock.checked_at req.from (or_empty req.id) g.world).0 ≡ blocked retry why
      → p ≢ []
      → q ≢ []
      → login l scrypt cookie_secure clock token (record req { password = some p }) g
        ≡ login l scrypt cookie_secure clock token (record req { password = some q }) g
  unfolding login throttled_event
  blocked_login_ignores_password clock token req g retry why p q stopped np nq =
      same_login (or_empty req.id) p q stopped np nq
    where
      same_login :
          (id p q : Text)
          → (check clock.checked_at req.from id g.world).0 ≡ blocked retry why
          → p ≢ []
          → q ≢ []
          → login_with l scrypt cookie_secure clock token id p (record req { password = some p }) g
            ≡ login_with l scrypt cookie_secure clock token id q
                (record req { password = some q })
                g
      same_login [] p q h np nq = refl
      same_login (c ∷ id) [] q h np nq = absurd (np refl)
      same_login (c ∷ id) (d ∷ p) [] h np nq = absurd (nq refl)
      same_login (c ∷ id) (d ∷ p) (d' ∷ q) h np nq = rw h refl
