-- ===== src/Session/Unique.antt =====
-- The session ids of apps/gateway/src/auth.ts as keys: no call makes two sessions with one id.
use deepseek_harness_gateway.Common.{ℕ, ◌+◌, arith, Option-cases, inl, inr}
use deepseek_harness_gateway.Common.Text.{Text, Eq-text}
use deepseek_harness_gateway.Common.Dict.{get, IsMap, set-IsMap, delete-IsMap, retain-IsMap}
use deepseek_harness_gateway.Session.{
  Limits, Sessions, Op, creates, looks_up, binds, asks_machine, destroys, sweeps, sweep, create,
  lookup, bind_machine, machine_of, destroy, step,
}
use deepseek_harness_gateway.Session.Evict.{evict-IsMap}

module _ (l : Limits) where
  pub create-IsMap :
      (id : Text) (now : ℕ) (user : Text) (m : Sessions) → IsMap m → IsMap (create l id now user m)
  unfolding create
  create-IsMap id now user m v = evict-IsMap l now _ (set-IsMap id _ m v)

  lookup-IsMap : (id : Text) (now : ℕ) (m : Sessions) → IsMap m → IsMap (lookup l id now m).1
  unfolding lookup
  lookup-IsMap id now m v = elim (Option-cases (get id m)) [
    | inl z ↦ rw (z, lookup) v
    | inr (s, z) ↦
        rw (z, lookup)
          (ground (
            arith,
            v,
            delete-IsMap id m v,
            set-IsMap id (record s { expires_at = now + l.idle_ttl_ms }) m v,
          ))
  ]

  bind_machine-IsMap :
      (id machine_id : Text) (now : ℕ) (m : Sessions)
      → IsMap m
      → IsMap (bind_machine l id machine_id now m)
  unfolding bind_machine
  bind_machine-IsMap id machine_id now m v = elim (Option-cases (get id m)) [
    | inl z ↦ rw (z, bind_machine) v
    | inr (s, z) ↦ rw (z, bind_machine) (set-IsMap id _ m v)
  ]

  machine_of-IsMap :
      (id : Text) (now : ℕ) (m : Sessions) → IsMap m → IsMap (machine_of l id now m).1
  unfolding machine_of
  machine_of-IsMap id now m v = elim (Option-cases (get id m)) [
    | inl z ↦ rw (z, machine_of) v
    | inr (s, z) ↦ rw (z, machine_of) (ground (arith, v, delete-IsMap id m v))
  ]

  pub step-IsMap : (op : Op) (m : Sessions) → IsMap m → IsMap (step l op m)
  unfolding step destroy sweep
  step-IsMap (creates id now user_id) m v = create-IsMap id now user_id m v
  step-IsMap (looks_up id now) m v = lookup-IsMap id now m v
  step-IsMap (binds id machine_id now) m v = bind_machine-IsMap id machine_id now m v
  step-IsMap (asks_machine id now) m v = machine_of-IsMap id now m v
  step-IsMap (destroys id) m v = delete-IsMap id m v
  step-IsMap (sweeps now) m v = retain-IsMap _ m v
