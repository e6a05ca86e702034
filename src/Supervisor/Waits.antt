-- ===== src/Supervisor/Waits.antt =====
-- The readiness wait of plugins/dsh-gateway-agent/src/daemon.js as the owner of the state `starting`.
use deepseek_harness_gateway.Common.{
  ℕ, zero, suc, ◌≡◌, ◌⊎◌, refl, ap, Bool, true, false, not, ◌&&◌, ◌||◌, none, some, arith, nat_eq,
  Bool-cases, inl, inr,
}
use deepseek_harness_gateway.Supervisor.State.{
  running, exited, DaemonConfig, Task, waits_ready, waits_probe, Supervisor, is_empty, tell, await,
  vars, running_child, is_child_running, has_probe, probes,
}
use deepseek_harness_gateway.Supervisor.Commands.{expand_command}
use deepseek_harness_gateway.Supervisor.Start.{
  arm_readiness, ready_again, ready_woken, ready_probed, not_ready_text, probe_running,
}
use deepseek_harness_gateway.Supervisor.Owners.{
  not-not, absurd, Timely, Loose, Owned, owner, is_stop, settle-Owned, add-Owned, own-Owned,
  drop-Loose, drop-Owned,
}

module _ {config : DaemonConfig} where
  pub arm_readiness-Owned :
      (token : ℕ) (s : Supervisor)
      → Loose config s
      → Timely config token s ⊎ Owned config s
      → Owned config (arm_readiness token s)
  unfolding arm_readiness is_child_running
  arm_readiness-Owned token s l o = elim (Bool-cases (has_probe s.config)) [
    | inl z ↦ rw z (armed o)
    | inr z ↦ rw z (elim (Bool-cases (is_empty s.config.child_command || is_child_running s)) [
      | inl y ↦
          rw (not-not (is_empty s.config.child_command), y) (settle-Owned running none s refl l)
      | inr y ↦ rw (not-not (is_empty s.config.child_command), y) (unarmed o y)
    ])
  ]
    where
      same : is_empty s.config.child_command ≡ is_empty config.child_command
      same = ap (λ c. is_empty c.child_command) l.config_same

      armed :
          Timely config token s ⊎ Owned config s
          → Owned config (await (waits_ready token (not (is_empty s.config.child_command)) 119) s)
      armed (inl t) =
          own-Owned (waits_ready token (not (is_empty s.config.child_command)) 119) s l
            (ground (arith, t, same))
      armed (inr o) = add-Owned (waits_ready token (not (is_empty s.config.child_command)) 119) s o

      unarmed :
          Timely config token s ⊎ Owned config s
          → (is_empty s.config.child_command || is_child_running s) ≡ false
          → Owned config s
      unarmed (inl t) y = absurd (ground (arith, t, same, y))
      unarmed (inr o) y = o

  -- A task is an owner, or the others have one.
  pub owner-cases :
      (t : Task) (s : Supervisor)
      → is_stop t ≡ false
      → Owned config (await t s)
      → (owner config s.start_token (running_child s.child) t ≡ true) ⊎ Owned config s
  owner-cases t s n o = elim (Bool-cases (owner config s.start_token (running_child s.child) t)) [
    | inl z ↦ inl z
    | inr z ↦ inr (drop-Owned t s n z o)
  ]

  pub ready_again-Owned :
      (token : ℕ) (child_mode : Bool) (left : ℕ) (s : Supervisor)
      → Loose config s
      → ((nat_eq token s.start_token && (not child_mode || running_child s.child)) ≡ true)
        ⊎ Owned config s
      → Owned config (ready_again token child_mode left s)
  ready_again-Owned token child_mode zero s l o = elim (Bool-cases (nat_eq token s.start_token)) [
    | inl z ↦ rw z (settle-Owned exited (some not_ready_text) s refl l)
    | inr z ↦ rw z (stale o z)
  ]
    where
      stale :
          ((nat_eq token s.start_token && (not child_mode || running_child s.child)) ≡ true)
            ⊎ Owned config s
          → nat_eq token s.start_token ≡ false
          → Owned config s
      stale (inl t) z = absurd (ground (arith, t, z))
      stale (inr o) z = o
  ready_again-Owned token child_mode (suc left) s l (inl t) =
      own-Owned (waits_ready token child_mode left) s l t
  ready_again-Owned token child_mode (suc left) s l (inr o) =
      add-Owned (waits_ready token child_mode left) s o

  pub probe-Owned :
      (t : Task) (s : Supervisor)
      → Loose config s
      → owner config s.start_token (running_child s.child) t ≡ true
      → Owned config (probe_running t s)
  probe-Owned t s l h =
      own-Owned t (tell (probes (expand_command s.config.status_script (vars s))) s)
        (record { config_same = l.config_same; host_same = l.host_same; stop_owned = l.stop_owned })
        h

  pub ready_woken-Owned :
      (token : ℕ) (child_mode : Bool) (left : ℕ) (s : Supervisor)
      → Owned config (await (waits_ready token child_mode left) s)
      → Owned config (ready_woken token child_mode left s)
  unfolding ready_woken is_child_running
  ready_woken-Owned token child_mode left s o = elim (Bool-cases (nat_eq token s.start_token)) [
    | inr z ↦ rw z (drop-Owned t s refl (ground (arith, z)) o)
    | inl z ↦ rw z (elim (Bool-cases (child_mode && not (running_child s.child))) [
      | inl y ↦ rw y (drop-Owned t s refl (ground (arith, y)) o)
      | inr y ↦ rw y (elim (Bool-cases (has_probe s.config)) [
        | inl x ↦ rw x (probe-Owned (waits_probe token child_mode left) s l (ground (arith, z, y)))
        | inr x ↦ rw x (ready_again-Owned token child_mode left s l (inl (ground (arith, z, y))))
      ])
    ])
  ]
    where
      t : Task
      t = waits_ready token child_mode left

      l : Loose config s
      l = drop-Loose (waits_ready token child_mode left) s refl o.loose

  pub ready_probed-Owned :
      (token : ℕ) (child_mode : Bool) (left : ℕ) (up : Bool) (s : Supervisor)
      → Owned config (await (waits_probe token child_mode left) s)
      → Owned config (ready_probed token child_mode left up s)
  unfolding ready_probed
  ready_probed-Owned token child_mode left true s o =
      settle-Owned running none s refl
        (drop-Loose (waits_probe token child_mode left) s refl o.loose)
  ready_probed-Owned token child_mode left false s o =
      ready_again-Owned token child_mode left s
        (drop-Loose (waits_probe token child_mode left) s refl o.loose)
        (owner-cases (waits_probe token child_mode left) s refl o)
