-- ===== src/Router/Guards.antt =====
-- The guards of apps/gateway/src/router.ts.
use deepseek_harness_gateway.Common.{
  ℕ, ◌≤◌, ◌≡◌, ◌≢◌, ◌⊎◌, refl, sym, ap, subst, true, false, Option, none, some, [], ◌∷◌, arith,
  Bool-cases, inl, inr,
}
use deepseek_harness_gateway.Common.Text.{Text, text_eq, text_eq_iff, Eq-text}
use deepseek_harness_gateway.Common.Dict.{Dict}
use deepseek_harness_gateway.Store.Domain.{User, Store, Machine}
use deepseek_harness_gateway.Store.Memory.{get_machine}
use deepseek_harness_gateway.Session.{Limits, Sessions}
use deepseek_harness_gateway.Authz.{authorize_console}
use deepseek_harness_gateway.Nodes.State.{Nodes}
use deepseek_harness_gateway.Router.{
  Decision, relays, replies, console_request, passthrough_request, passthrough_target,
  passthrough_guard, passthrough_handler, guard_target, relay_target, handle_passed,
}

-- A relay goes to a machine that the user may use; any other reply is an error.
abbrev pub Guarded : Store → Option User → Decision → Type 0
Guarded s u (relays mid) = (authorize_console s u mid).allowed ≡ true
Guarded s u (replies status) = 400 ≤ status

refused_status :
    (s : Store) (u : Option User) (id : Text)
    → (authorize_console s u id).allowed ≡ false
    → 400 ≤ (authorize_console s u id).status
unfolding authorize_console
refused_status s none id h = omega arith
refused_status s (some u) id h = by_machine (get_machine id s) refl
  where
    by_machine :
        (r : Option Machine) → get_machine id s ≡ r → 400 ≤ (authorize_console s (some u) id).status
    by_machine r e = ground (arith, h, e)

target-Guarded :
    (l : Limits) (u : Option User) (g : Nodes) (t : Option Text)
    → guard_target l u g t ≡ none
    → Guarded g.store u (relay_target l t)
target-Guarded l u g none h = omega arith
target-Guarded l u g (some []) h = omega arith
target-Guarded l u g (some (c ∷ mid)) h =
    elim (Bool-cases (authorize_console g.store u (c ∷ mid)).allowed) [
      | inl good ↦ good
      | inr bad ↦ none_some (sym (rw bad at h))
    ]
  where
    none_some : {n : ℕ} → none ≡ some n → Guarded g.store u (relays (c ∷ mid))
    none_some e = cc

refusal_status :
    (l : Limits) (u : Option User) (g : Nodes) (t : Option Text) (status : ℕ)
    → guard_target l u g t ≡ some status
    → 400 ≤ status
refusal_status l u g none status h = ground (arith, h)
refusal_status l u g (some []) status h = ground (arith, h)
refusal_status l u g (some (c ∷ mid)) status h =
    elim (Bool-cases (authorize_console g.store u (c ∷ mid)).allowed) [
      | inl good ↦ ground (arith, h, good)
      | inr bad ↦ ground (arith, h, bad, refused_status g.store u (c ∷ mid) bad)
    ]

same_target : (a b : Option Text) → (a ≡ b) ⊎ (a ≢ b)
same_target none none = inl refl
same_target none (some t) = inr (λ e. cc)
same_target (some s) none = inr (λ e. cc)
same_target (some s) (some t) = elim (Bool-cases (text_eq s t)) [
  | inl same ↦ inl (ap some ((text_eq_iff s t).0 same))
  | inr other ↦
      inr (λ e. cut ((text_eq_iff s t).1 (ap (λ o. elim o [ none ↦ s | some x ↦ x ]) e)) other)
]
  where
    cut : text_eq s t ≡ true → text_eq s t ≡ false → ⊥
    cut p q = cc

module _ (l : Limits) (meanwhile : Nodes → Sessions → Nodes × Sessions) (now later : ℕ)
    (cookies : Dict Text Text) (u : Option User) where
  -- The targets that the guard and, after it, the handler of the passthrough read.
  abbrev pub guarded_target : Nodes → Sessions → Option Text
  guarded_target g m = (passthrough_target l now cookies g m).0

  abbrev pub handled_target : Nodes → Sessions → Option Text
  handled_target g m =
      let (g', m') = meanwhile g (passthrough_target l now cookies g m).1 in
      (passthrough_target l later cookies g' m').0

  passed-Guarded :
      (g : Nodes) (m : Sessions) (refusal : Option ℕ)
      → guard_target l u g (guarded_target g m) ≡ refusal
      → Guarded g.store u
          (handle_passed l meanwhile later cookies g refusal
            (passthrough_target l now cookies g m).1).0
        ⊎ (guarded_target g m ≢ handled_target g m)
  unfolding passthrough_handler
  passed-Guarded g m (some status) h = inl (refusal_status l u g (guarded_target g m) status h)
  passed-Guarded g m none h = elim (same_target (guarded_target g m) (handled_target g m)) [
    | inr other ↦ inr other
    | inl same ↦ inl (
        subst (λ t. Guarded g.store u (relay_target l t)) same
          (target-Guarded l u g (guarded_target g m) h))
  ]

  -- A request is relayed only to a machine that `authorizeConsole` allows its user, and is answered
  -- with an error otherwise: by a machine's own path always, and by the passthrough whatever happens
  -- between its guard and its handler, unless the machine that the handler reads is then another than
  -- the one that the guard has read.
  pub relays-Guarded :
      (machine_id : Text) (g : Nodes) (m : Sessions)
      → Guarded g.store u (console_request l now cookies u machine_id g m).0
        × (Guarded g.store u (passthrough_request l meanwhile now later cookies u g m).0
            ⊎ (guarded_target g m ≢ handled_target g m))
  unfolding console_request passthrough_request passthrough_guard
  relays-Guarded machine_id g m = (
    elim (Bool-cases (authorize_console g.store u machine_id).allowed) [
      | inl good ↦ rw good good
      | inr bad ↦ rw bad (refused_status g.store u machine_id bad)
    ],
    passed-Guarded g m (guard_target l u g (guarded_target g m)) refl,
  )
