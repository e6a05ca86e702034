-- ===== src/Session/Expiry.antt =====
-- When a session of apps/gateway/src/auth.ts ends.
use deepseek_harness_gateway.Common.{
  ℕ, ◌+◌, ◌-◌, ◌≤◌, ◌≡◌, ◌≢◌, refl, not, Option, none, some, List, [], ◌∷◌, arith, Option-cases,
  inl, inr, ◌⊎◌,
}
use deepseek_harness_gateway.Common.Text.{Text, Eq-text, text_eq_iff}
use deepseek_harness_gateway.Common.Lists.{length, take, All}
use deepseek_harness_gateway.Common.Sort.{sort}
use deepseek_harness_gateway.Common.Dict.{
  get, set, delete, IsMap, get-set, get-set_self, get-delete, get-retain, set-IsMap,
}
use deepseek_harness_gateway.Session.Unique.{step-IsMap, create-IsMap}
use deepseek_harness_gateway.Session.{
  Limits, SessionRecord, Sessions, Op, creates, looks_up, binds, asks_machine, destroys, sweeps,
  expired, issued_before, delete_all, drop_oldest, sweep, evict, create, lookup, bind_machine,
  machine_of, destroy, step, run,
}

-- A session under the id, if there is one, was issued at `t` to the user `u`.
abbrev Born : ℕ → Text → Option SessionRecord → Type 0
Born t u none = Unit
Born t u (some s) = (s.issued_at ≡ t) × (s.user_id ≡ u)

delete_all-Born :
    (l : Limits) (t : ℕ) (u id : Text) (xs : List (Text × SessionRecord)) (m : Sessions)
    → Born t u (get id m)
    → Born t u (get id (delete_all l xs m))
unfolding delete_all
delete_all-Born l t u id [] m h = h
delete_all-Born l t u id ((i, s) ∷ xs) m h =
    delete_all-Born l t u id xs (delete i m) (ground (arith, get-delete i id m, text_eq_iff i id))

module _ (l : Limits) (t : ℕ) (u id : Text) where
  set-Born :
      (i : Text) (s : SessionRecord) (m : Sessions)
      → (i ≡ id → Born t u (some s))
      → Born t u (get id m)
      → Born t u (get id (set i s m))
  set-Born i s m hit h = ground (arith, get-set i id s m, text_eq_iff i id, hit)

  delete-Born : (i : Text) (m : Sessions) → Born t u (get id m) → Born t u (get id (delete i m))
  delete-Born i m h = ground (arith, get-delete i id m)

  sweep-Born :
      (now : ℕ) (m : Sessions) → IsMap m → Born t u (get id m) → Born t u (get id (sweep l now m))
  unfolding sweep
  sweep-Born now m v h = ground (arith, get-retain (λ i s. not (expired l s now)) id m v)

  evict-Born :
      (now : ℕ) (m : Sessions) → IsMap m → Born t u (get id m) → Born t u (get id (evict l now m))
  unfolding evict drop_oldest
  evict-Born now m v h =
      let swept = sweep-Born now m v h in
      let m' = sweep l now m in
      ground (
        arith,
        swept,
        delete_all-Born l t u id (take (length m' - l.session_max) (sort (issued_before l) m')) m'
            swept,
      )

  create-Born :
      (i : Text) (now : ℕ) (user : Text) (m : Sessions)
      → (i ≡ id → (now ≡ t) × (user ≡ u))
      → IsMap m
      → Born t u (get id m)
      → Born t u (get id (create l i now user m))
  unfolding create
  create-Born i now user m hit v h =
      let s : SessionRecord = record {
        user_id = user;
        issued_at = now;
        expires_at = now + l.idle_ttl_ms;
        machine_id = none;
      } in
      evict-Born now (set i s m) (set-IsMap i s m v) (set-Born i s m hit h)

  lookup-Born :
      (i : Text) (now : ℕ) (m : Sessions)
      → Born t u (get id m)
      → Born t u (get id (lookup l i now m).1)
  unfolding lookup
  lookup-Born i now m h = elim (Option-cases (get i m)) [
    | inl z ↦ rw (z, lookup) h
    | inr (s, z) ↦
        rw (z, lookup)
          (ground (
            arith,
            z,
            h,
            delete-Born i m h,
            text_eq_iff i id,
            get-set i id (record s { expires_at = now + l.idle_ttl_ms }) m,
          ))
  ]

  machine_of-Born :
      (i : Text) (now : ℕ) (m : Sessions)
      → Born t u (get id m)
      → Born t u (get id (machine_of l i now m).1)
  unfolding machine_of
  machine_of-Born i now m h = elim (Option-cases (get i m)) [
    | inl z ↦ rw (z, machine_of) h
    | inr (s, z) ↦ rw (z, machine_of) (ground (arith, h, delete-Born i m h))
  ]

  bind_machine-Born :
      (i machine_id : Text) (now : ℕ) (m : Sessions)
      → Born t u (get id m)
      → Born t u (get id (bind_machine l i machine_id now m))
  unfolding bind_machine
  bind_machine-Born i machine_id now m h = elim (Option-cases (get i m)) [
    | inl z ↦ rw (z, bind_machine) h
    | inr (s, z) ↦
        rw (z, bind_machine)
          (ground (
            arith,
            z,
            h,
            text_eq_iff i id,
            get-set i id
                (record s { machine_id = some machine_id; expires_at = now + l.idle_ttl_ms }) m,
          ))
  ]

-- The call does not issue the id again.
abbrev pub NotAgain : Text → Op → Type 0
NotAgain id (creates other now user_id) = other ≢ id
NotAgain id (looks_up other now) = Unit
NotAgain id (binds other machine_id now) = Unit
NotAgain id (asks_machine other now) = Unit
NotAgain id (destroys other) = Unit
NotAgain id (sweeps now) = Unit

module _ (l : Limits) (t : ℕ) (u id : Text) where
  step-Born :
      (op : Op) (m : Sessions)
      → NotAgain id op
      → IsMap m
      → Born t u (get id m)
      → Born t u (get id (step l op m))
  unfolding step destroy
  step-Born (creates other now user_id) m n v h =
      create-Born l t u id other now user_id m (λ e. absurd (n e)) v h
  step-Born (looks_up other now) m n v h = lookup-Born l t u id other now m h
  step-Born (binds other machine_id now) m n v h =
      bind_machine-Born l t u id other machine_id now m h
  step-Born (asks_machine other now) m n v h = machine_of-Born l t u id other now m h
  step-Born (destroys other) m n v h = delete-Born l t u id other m h
  step-Born (sweeps now) m n v h = sweep-Born l t u id now m v h

  run-Born :
      (ops : List Op) (m : Sessions)
      → All (NotAgain id) ops
      → IsMap m
      → Born t u (get id m)
      → Born t u (get id (run l ops m))
  unfolding run
  run-Born [] m n v h = h
  run-Born (op ∷ ops) m n v h =
      run-Born ops (step l op m) n.1 (step-IsMap l op m v) (step-Born op m n.0 v h)

-- What a session id stands for: nothing, or the user it was issued to, and that no longer than the
-- absolute limit after it was issued.
abbrev pub Stands : ℕ → Text → ℕ → Option Text → Type 0
Stands deadline user now r = (r ≡ none) ⊎ ((r ≡ some user) × (now ≤ deadline))

lookup-Stands :
    (l : Limits) (t later : ℕ) (id u : Text) (m : Sessions)
    → Born t u (get id m)
    → Stands (t + l.absolute_ttl_ms) u later (lookup l id later m).0
unfolding lookup expired
lookup-Stands l t later id u m h = elim (Option-cases (get id m)) [
  | inl z ↦ rw (z, lookup) (inl refl)
  | inr (s, z) ↦ rw (z, lookup) (ground (arith, z, h))
]

created-Born :
    (l : Limits) (now : ℕ) (id user : Text) (m : Sessions)
    → IsMap m
    → Born now user (get id (create l id now user m))
unfolding create
created-Born l now id user m v =
    let s : SessionRecord = record {
      user_id = user;
      issued_at = now;
      expires_at = now + l.idle_ttl_ms;
      machine_id = none;
    } in
    evict-Born l now user id now (set id s m) (set-IsMap id s m v)
      (rw (get-set_self id s m) (refl, refl))

-- Whatever is done with a session after it was issued (renewals, bindings, sweeps, evictions), its id
-- stands for the user it was issued to or for nobody, and for nobody once the absolute limit has
-- passed, so long as the id is not issued again.
pub session_lifetime :
    (l : Limits) (issued later : ℕ) (id user : Text) (ops : List Op) (m : Sessions)
    → IsMap m
    → All (NotAgain id) ops
    → Stands
        (issued + l.absolute_ttl_ms)
        user
        later
        (lookup l id later (run l ops (create l id issued user m))).0
session_lifetime l issued later id user ops m v n =
    lookup-Stands l issued later id user (run l ops (create l id issued user m)) (
      run-Born l issued user id ops (create l id issued user m) n
        (create-IsMap l id issued user m v) (created-Born l issued id user m v))
