-- ===== src/Login/Journey.antt =====
-- A login of apps/gateway/src/auth.ts, the requests that follow it, and the logout.
use deepseek_harness_gateway.Common.{
  beq_self, ℕ, ◌+◌, ◌≤◌, ◌<◌, ◌≡◌, ◌≢◌, refl, sym, ap, ◌∙◌, Bool, Option, none, some, [], ◌∷◌,
  arith, Bool-cases, inl, inr,
}
use deepseek_harness_gateway.Common.Text.{Text, text_eq, Eq-text}
use deepseek_harness_gateway.Common.Dict.{Dict, get, get-delete}
use deepseek_harness_gateway.Store.Domain.{User}
use deepseek_harness_gateway.Store.Memory.{get_user, append_audit}
use deepseek_harness_gateway.Throttle.{World, ThrottleCheck, pass, blocked, check}
use deepseek_harness_gateway.Throttle.Keeps.{check-Keeps, record_success-Keeps}
use deepseek_harness_gateway.Session.{Limits, Sessions, create, lookup, destroy}
use deepseek_harness_gateway.Session.Live.{IssuedBy, created_session_is_good}
use deepseek_harness_gateway.Login.{
  Scrypt, Gateway, LoginRequest, Clock, LoginReply, login_status, signed_in, login, login_with,
  login_checked, login_user, login_event, or_empty, verify_password, resolve_user, logout,
  read_session_token, session_cookie_name, is_secure,
}

-- The cookie that a reply sets.
abbrev pub cookies_of : LoginReply → Dict Text Text
cookies_of (signed_in u name token secure) = (name, token) ∷ []
cookies_of _ = []

-- Whoever the store holds under the name of a user.
token-named :
    (protocol : Text) (cookie_secure : Option Bool) (token : Text)
    → read_session_token ((session_cookie_name protocol cookie_secure, token) ∷ []) ≡ some token
unfolding read_session_token session_cookie_name get text_eq
token-named protocol cookie_secure token = elim (Bool-cases (is_secure protocol cookie_secure)) [
  | inl e ↦ rw e refl
  | inr e ↦ rw e refl
]

module _ (l : Limits) (scrypt : Scrypt) (cookie_secure : Option Bool) where
  resolve-accepted :
      (later : ℕ) (cookies : Dict Text Text) (token user_id : Text) (now : ℕ) (w : World)
      (m : Sessions) (u : User)
      → read_session_token cookies ≡ some token
      → token ≢ []
      → (lookup l token later (create l token now user_id m)).0 ≡ some user_id
      → get user_id w.store.users ≡ some u
      → (resolve_user l later cookies
          (record { world = w; sessions = create l token now user_id m })).0
        ≡ some u
  unfolding resolve_user get_user
  resolve-accepted later cookies [] user_id now w m u named nonempty good found =
      absurd (nonempty refl)
  resolve-accepted later cookies (c ∷ token) user_id now w m u named nonempty good found =
      rw named (rw good found)

  -- The time of a request lies within both limits of a session that was issued at the other time.
  abbrev pub InTime : ℕ → ℕ → Type 0
  InTime now later =
      (now ≤ later) × (later ≤ now + l.idle_ttl_ms) × (later ≤ now + l.absolute_ttl_ms)

  user_journey :
      (clock : Clock) (later : ℕ) (token id password : Text) (req : LoginRequest) (g : Gateway)
      (w : World) (r : Option User)
      → 0 < l.session_max
      → get token g.sessions ≡ none
      → token ≢ []
      → IssuedBy clock.created_at g.sessions
      → InTime clock.created_at later
      → get id w.store.users ≡ r
      → ((u : User) → r ≡ some u → u.id ≡ id)
      → (let out = login_user l scrypt cookie_secure clock token id password req g w r in
          login_status out.0 ≡ 200 → (resolve_user l later (cookies_of out.0) out.1).0 ≡ r)
  unfolding login_event append_audit
  user_journey clock later token id password req g w none room fresh nonempty issued (a, b, c) found
        keyed =
      λ h. absurd (omega arith)
  user_journey clock later token id password req g w (some u) room fresh nonempty issued (a, b, c)
        found keyed =
      elim (Bool-cases (verify_password scrypt password u.auth_hash)) [
        | inl good ↦ rw good (λ h.
            resolve-accepted later ((session_cookie_name req.protocol cookie_secure, token) ∷ [])
              token u.id clock.created_at _ g.sessions u
              (token-named req.protocol cookie_secure token) nonempty
              (created_session_is_good l token clock.created_at later u.id g.sessions room fresh
                issued a b c)
              (ap (get u.id) (record_success-Keeps id w).0
                ∙ ap (λ z. get z w.store.users) (keyed u refl)
                ∙ found))
        | inr bad ↦ rw bad (λ h. absurd (omega arith))
      ]

  with_journey :
      (clock : Clock) (later : ℕ) (token id password : Text) (req : LoginRequest) (g : Gateway)
      → 0 < l.session_max
      → get token g.sessions ≡ none
      → token ≢ []
      → IssuedBy clock.created_at g.sessions
      → InTime clock.created_at later
      → ((u : User) → get id g.world.store.users ≡ some u → u.id ≡ id)
      → (let out = login_with l scrypt cookie_secure clock token id password req g in
          login_status out.0 ≡ 200
          → (resolve_user l later (cookies_of out.0) out.1).0 ≡ get id g.world.store.users)
  unfolding get_user
  with_journey clock later token [] password req g room fresh nonempty issued times keyed =
      λ h. absurd (omega arith)
  with_journey clock later token (c ∷ id) [] req g room fresh nonempty issued times keyed =
      λ h. absurd (omega arith)
  with_journey clock later token (c ∷ id) (d ∷ password) req g room fresh nonempty issued times
        keyed =
      after_check (check clock.checked_at req.from (c ∷ id) g.world)
        (check-Keeps clock.checked_at req.from (c ∷ id) g.world).0
    where
      after_check :
          (r : ThrottleCheck × World)
          → r.1.store.users ≡ g.world.store.users
          → (let out =
                login_checked l scrypt cookie_secure clock token (c ∷ id) (d ∷ password) req g r in
              login_status out.0 ≡ 200
              → (resolve_user l later (cookies_of out.0) out.1).0
                ≡ get (c ∷ id) g.world.store.users)
      after_check (blocked n why, w) kept = λ h. absurd (omega arith)
      after_check (pass, w) kept =
          let same : get (c ∷ id) w.store.users ≡ get (c ∷ id) g.world.store.users =
            ap (get (c ∷ id)) kept in
          λ h.
            user_journey clock later token (c ∷ id) (d ∷ password) req g w
              (get (c ∷ id) w.store.users) room fresh nonempty issued times refl
              (λ u e. keyed u (sym same ∙ e)) h
            ∙ same

  -- After a login that is let in, at any time within the idle and the absolute limit of its session, a
  -- request that carries the cookie of the reply is a request of the user who logged in. The session id
  -- is new, no session was issued later, at least one session is allowed, and the store holds the user
  -- under the user's own name.
  pub login_then_request :
      (clock : Clock) (later : ℕ) (token : Text) (req : LoginRequest) (g : Gateway)
      → 0 < l.session_max
      → get token g.sessions ≡ none
      → token ≢ []
      → IssuedBy clock.created_at g.sessions
      → InTime clock.created_at later
      → ((u : User) → get (or_empty req.id) g.world.store.users ≡ some u → u.id ≡ or_empty req.id)
      → login_status (login l scrypt cookie_secure clock token req g).0 ≡ 200
      → (let out = login l scrypt cookie_secure clock token req g in
          (resolve_user l later (cookies_of out.0) out.1).0
          ≡ get (or_empty req.id) g.world.store.users)
  unfolding login
  login_then_request clock later token req g =
      with_journey clock later token (or_empty req.id) (or_empty req.password) req g

module _ (l : Limits) where
  gone :
      (token : Text) (later : ℕ) (m : Sessions)
      → (lookup l token later (destroy l token m)).0 ≡ none
  unfolding lookup destroy
  gone token later m = rw (get-delete token token m) (rw (beq_self token) refl)

  -- After a logout, the cookies that it was made with stand for nobody, at any time.
  pub logout_then_request :
      (later : ℕ) (cookies : Dict Text Text) (g : Gateway)
      → (resolve_user l later cookies (logout l cookies g)).0 ≡ none
  unfolding resolve_user logout
  logout_then_request later cookies g = named (read_session_token cookies) refl
    where
      named :
          (r : Option Text)
          → read_session_token cookies ≡ r
          → (resolve_user l later cookies (logout l cookies g)).0 ≡ none
      named none e = rw e refl
      named (some []) e = rw e refl
      named (some (c ∷ token)) e = rw e (rw (gone (c ∷ token) later g.sessions) refl)
