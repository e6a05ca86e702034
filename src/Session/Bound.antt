-- ===== src/Session/Bound.antt =====
-- The size of the session map of apps/gateway/src/auth.ts.
use deepseek_harness_gateway.Common.{
  ℕ, ◌+◌, ◌≤◌, ◌≡◌, not, none, some, List, [], ◌∷◌, arith, Option-cases, inl, inr,
}
use deepseek_harness_gateway.Common.Text.{Text, Eq-text}
use deepseek_harness_gateway.Common.Lists.{length}
use deepseek_harness_gateway.Common.Dict.{
  get, set, delete, IsMap, set-IsMap, delete-IsMap, retain-IsMap, size-retain-le, size-set_hit,
  size-delete-le,
}
use deepseek_harness_gateway.Session.{
  Limits, SessionRecord, Sessions, Op, creates, looks_up, binds, asks_machine, destroys, sweeps,
  expired, sweep, create, lookup, bind_machine, machine_of, destroy, step, run,
}
use deepseek_harness_gateway.Session.Evict.{evict-size, evict-IsMap}

-- Unique ids, and no more sessions than the limit.
pub record Fits (l : Limits) (m : Sessions) : Type 0 where
  pub unique : IsMap m
  pub bounded : length m ≤ l.session_max

module _ (l : Limits) where
  set-Fits :
      (id : Text) (s r : SessionRecord) (m : Sessions)
      → get id m ≡ some r
      → Fits l m
      → Fits l (set id s m)
  set-Fits id s r m e f = record {
    unique = set-IsMap id s m f.unique;
    bounded = rw (size-set_hit id s r m e) f.bounded;
  }

  delete-Fits : (id : Text) (m : Sessions) → Fits l m → Fits l (delete id m)
  delete-Fits id m f = record {
    unique = delete-IsMap id m f.unique;
    bounded = omega (arith, size-delete-le id m, f.bounded);
  }

  lookup-Fits : (id : Text) (now : ℕ) (m : Sessions) → Fits l m → Fits l (lookup l id now m).1
  unfolding lookup
  lookup-Fits id now m f = elim (Option-cases (get id m)) [
    | inl z ↦ rw (z, lookup) f
    | inr (s, z) ↦
        rw (z, lookup)
          (ground (
            arith,
            z,
            delete-Fits id m f,
            set-Fits id (record s { expires_at = now + l.idle_ttl_ms }) s m z f,
          ))
  ]

  machine_of-Fits :
      (id : Text) (now : ℕ) (m : Sessions) → Fits l m → Fits l (machine_of l id now m).1
  unfolding machine_of
  machine_of-Fits id now m f = elim (Option-cases (get id m)) [
    | inl z ↦ rw (z, machine_of) f
    | inr (s, z) ↦ rw (z, machine_of) (ground (arith, f, delete-Fits id m f))
  ]

  bind_machine-Fits :
      (id machine_id : Text) (now : ℕ) (m : Sessions)
      → Fits l m
      → Fits l (bind_machine l id machine_id now m)
  unfolding bind_machine
  bind_machine-Fits id machine_id now m f = elim (Option-cases (get id m)) [
    | inl z ↦ rw (z, bind_machine) f
    | inr (s, z) ↦ rw (z, bind_machine) (set-Fits id _ s m z f)
  ]

  sweep-Fits : (now : ℕ) (m : Sessions) → Fits l m → Fits l (sweep l now m)
  unfolding sweep
  sweep-Fits now m f = record {
    unique = retain-IsMap _ m f.unique;
    bounded = omega (arith, size-retain-le (λ id s. not (expired l s now)) m, f.bounded);
  }

  pub step-Fits : (op : Op) (m : Sessions) → Fits l m → Fits l (step l op m)
  unfolding step create destroy
  step-Fits (creates id now user_id) m f =
      let m' =
        set-IsMap id
          (record {
            user_id = user_id;
            issued_at = now;
            expires_at = now + l.idle_ttl_ms;
            machine_id = none;
          })
          m f.unique in
      record { unique = evict-IsMap l now _ m'; bounded = evict-size l now _ m' }
  step-Fits (looks_up id now) m f = lookup-Fits id now m f
  step-Fits (binds id machine_id now) m f = bind_machine-Fits id machine_id now m f
  step-Fits (asks_machine id now) m f = machine_of-Fits id now m f
  step-Fits (destroys id) m f = delete-Fits id m f
  step-Fits (sweeps now) m f = sweep-Fits now m f

  run-Fits : (ops : List Op) (m : Sessions) → Fits l m → Fits l (run l ops m)
  unfolding run
  run-Fits [] m f = f
  run-Fits (op ∷ ops) m f = run-Fits ops (step l op m) (step-Fits op m f)

-- Whatever calls are made, in whatever order, the map never holds more sessions than the limit, and
-- no session id stands in it twice.
pub sessions_bounded :
    (l : Limits) (ops : List Op) → (length (run l ops []) ≤ l.session_max) × IsMap (run l ops [])
sessions_bounded l ops =
    let start : Fits l [] = record { unique = tt; bounded = omega arith } in
    let after = run-Fits l ops [] start in (after.bounded, after.unique)
