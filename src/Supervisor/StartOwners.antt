-- ===== src/Supervisor/StartOwners.antt =====
-- A start of plugins/dsh-gateway-agent/src/daemon.js leaves an owner of the state `starting`.
use deepseek_harness_gateway.Common.{
  ℕ, suc, ◌≡◌, ◌⊎◌, refl, sym, ap, subst, ◌∙◌, Bool, true, false, not, ◌&&◌, none, some, List, [],
  ◌∷◌, arith, nat_eq, Bool-cases, inl, inr,
}
use deepseek_harness_gateway.Common.Text.{Text}
use deepseek_harness_gateway.Supervisor.State.{
  starting, running, stopped, exited, DaemonConfig, Caller, boots, controls, restarts,
  starts_probing, starts_script, ScriptResult, is_zero, Supervisor, is_blank, is_empty, tell, await,
  reload_config, vars, set_state, running_child, is_child_running, has_probe, spawns, runs_start,
}
use deepseek_harness_gateway.Supervisor.Commands.{expand_command, split_command}
use deepseek_harness_gateway.Supervisor.Start.{
  spawn_child, run_start, begin_start, launch, start_ran, start_dsh, start_probed, disabled_text,
  start_failed_text,
}
use deepseek_harness_gateway.Supervisor.{stop_done, after_stop}
use deepseek_harness_gateway.Supervisor.Owners.{
  CanStart, some_args, Timely, absurd, Loose, Owned, set_state-Loose, set_state-token, settle-Owned,
  add-Owned, own-Owned, drop-Loose, logged, succeed-Owned, fail-Owned,
}
use deepseek_harness_gateway.Supervisor.Waits.{arm_readiness-Owned, owner-cases}

module _ {config : DaemonConfig} (can : CanStart config) where
  spawn_child-Owned :
      (caller : Caller) (token : ℕ) (argv : List Text) (s : Supervisor)
      → Loose config s
      → nat_eq token s.start_token ≡ true
      → some_args argv ≡ true
      → Owned config (spawn_child caller token argv s)
  spawn_child-Owned caller token [] s l t h = absurd (sym h)
  spawn_child-Owned caller token (file ∷ args) s l t h =
      let new : Supervisor = record s {
        child = some (record { pid = s.next_pid; killed = false });
        next_pid = suc s.next_pid;
        started_at = some s.host.now;
      } in
      succeed-Owned caller _ (
        arm_readiness-Owned token (tell (spawns (file ∷ args)) new)
          (record {
            config_same = l.config_same;
            host_same = l.host_same;
            stop_owned = l.stop_owned;
          })
          (inl (ground (arith, t))))

  run_start-Owned :
      (caller : Caller) (token : ℕ) (script : Text) (s : Supervisor)
      → Loose config s
      → nat_eq token s.start_token ≡ true
      → is_empty config.child_command ≡ true
      → is_blank script ≡ false
      → Owned config (run_start caller token script s)
  run_start-Owned caller token script s l t e b = rw b (
      own-Owned (starts_script caller token) (tell (runs_start script) s)
        (record { config_same = l.config_same; host_same = l.host_same; stop_owned = l.stop_owned })
        (ground (arith, t, e)))

  begin_start-Owned :
      (caller : Caller) (token : ℕ) (s : Supervisor)
      → Loose config s
      → nat_eq token s.start_token ≡ true
      → Owned config (begin_start caller token s)
  begin_start-Owned caller token s l t =
      let ready = subst CanStart (sym l.config_same) can (vars s) in
      elim (Bool-cases (is_empty s.config.child_command)) [
        | inl z ↦ rw z (
            run_start-Owned caller token (expand_command s.config.start_script (vars s)) s l t
              (ap (λ c. is_empty c.child_command) (sym l.config_same) ∙ z)
              (ground (arith, z, ready)))
        | inr z ↦ rw z (
            spawn_child-Owned caller token
              (split_command (expand_command s.config.child_command (vars s))) s l t
              (ground (arith, z, ready)))
      ]

  pub launch-Owned :
      (caller : Caller) (s : Supervisor) → Loose config s → Owned config (launch caller s)
  unfolding launch
  launch-Owned caller s l =
      let bumped : Supervisor = record s { start_token = suc s.start_token } in
      begin_start-Owned caller (suc s.start_token) (set_state starting none bumped)
        (set_state-Loose starting none bumped (record {
          config_same = l.config_same;
          host_same = l.host_same;
          stop_owned = l.stop_owned;
        }))
        (ground (arith, set_state-token starting none bumped))

  pub start_ran-Owned :
      (caller : Caller) (token : ℕ) (res : ScriptResult) (s : Supervisor)
      → Owned config (await (starts_script caller token) s)
      → Owned config (start_ran caller token res s)
  unfolding start_ran
  start_ran-Owned caller token res s o = elim (Bool-cases (is_zero res.code)) [
    | inl z ↦ rw z (
        succeed-Owned caller _ (
          arm_readiness-Owned token (record s { started_at = some s.host.now }) (started l)
            (timely (owner-cases (starts_script caller token) s refl o))))
    | inr z ↦ rw z (
        fail-Owned caller (start_failed_text res) _
          (settle-Owned exited (some (start_failed_text res)) s refl l))
  ]
    where
      l : Loose config s
      l = drop-Loose (starts_script caller token) s refl o.loose

      started : Loose config s → Loose config (record s { started_at = some s.host.now })
      started k = record {
        config_same = k.config_same;
        host_same = k.host_same;
        stop_owned = k.stop_owned;
      }

      timely :
          ((is_empty config.child_command && nat_eq token s.start_token) ≡ true) ⊎ Owned config s
          → Timely config token (record s { started_at = some s.host.now })
            ⊎ Owned config (record s { started_at = some s.host.now })
      timely (inl t) = inl (ground (arith, t))
      timely (inr o) = inr (record { loose = started o.loose; start_owned = o.start_owned })

  pub start_dsh-Owned :
      (caller : Caller) (s : Supervisor) → Owned config s → Owned config (start_dsh caller s)
  unfolding start_dsh reload_config is_child_running
  start_dsh-Owned caller s o = elim (Bool-cases (not s.host.daemon.enabled)) [
    | inl z ↦ rw z (fail-Owned caller disabled_text s' fresh)
    | inr z ↦ rw z (elim (Bool-cases (running_child s.child)) [
      | inl y ↦ rw y (succeed-Owned caller s' fresh)
      | inr y ↦ rw y (elim (Bool-cases (has_probe s.host.daemon)) [
        | inl x ↦ rw x (add-Owned (starts_probing caller) _ (logged fresh))
        | inr x ↦ rw x (launch-Owned caller s' fresh.loose)
      ])
    ])
  ]
    where
      s' : Supervisor
      s' = record (reload_config s) { stop_requested = false }

      fresh : Owned config s'
      fresh = record {
        loose = record {
          config_same = o.loose.host_same;
          host_same = o.loose.host_same;
          stop_owned = λ q. absurd (sym q);
        };
        start_owned = o.start_owned;
      }

  pub start_probed-Owned :
      (caller : Caller) (up : Bool) (s : Supervisor)
      → Owned config s
      → Owned config (start_probed caller up s)
  unfolding start_probed
  start_probed-Owned caller true s o =
      succeed-Owned caller _ (settle-Owned running none s refl o.loose)
  start_probed-Owned caller false s o = launch-Owned caller s o.loose

  after_stop-Owned :
      (caller : Caller) (s : Supervisor) → Owned config s → Owned config (after_stop caller s)
  after_stop-Owned boots s o = o
  after_stop-Owned (controls req) s o = succeed-Owned (controls req) s o
  after_stop-Owned (restarts req) s o = start_dsh-Owned (controls req) s o

  pub stop_done-Owned :
      (caller : Caller) (s : Supervisor)
      → s.config ≡ config
      → s.host.daemon ≡ config
      → Owned config (stop_done caller s)
  unfolding stop_done
  stop_done-Owned caller s c h = after_stop-Owned caller _ (
      settle-Owned stopped none (record s { started_at = none; stop_requested = false }) refl
        (record { config_same = c; host_same = h; stop_owned = λ q. absurd (sym q) }))
