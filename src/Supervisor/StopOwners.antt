-- ===== src/Supervisor/StopOwners.antt =====
-- What of plugins/dsh-gateway-agent/src/daemon.js is not a start leaves an owner of the state
-- `starting` as well.
use deepseek_harness_gateway.Common.{
  ℕ, suc, ◌≡◌, refl, ap, arith, Bool, true, false, not, ◌&&◌, Option, none, some, if◌then◌else◌,
  Bool-cases, inl, inr,
}
use deepseek_harness_gateway.Common.Text.{Text}
use deepseek_harness_gateway.Common.Lists.{any}
use deepseek_harness_gateway.Supervisor.State.{
  starting, running, exited, unknown, is_starting, is_running, DaemonConfig, Child, Signal, sigterm,
  sigkill, Caller, boots, Task, stops_gracefully, stops_killed, stops_script, refreshes,
  boots_probing, Supervisor, is_blank, is_empty, tell, await, reload_config, persist_state,
  set_state, running_child, is_child_running, has_probe, runs_stop, signals,
}
use deepseek_harness_gateway.Supervisor.{
  run_stop, stop_child, stop_dsh, stop_raced, kill, kill_child, on_child_exit, refresh_state,
  refreshed, bootstrap, boot_probed, no_stop_text, not_stopped_text, no_longer_text, unowned_text,
}
use deepseek_harness_gateway.Supervisor.Owners.{
  CanStart, is_stop, rests, Loose, Owned, set_state-Loose, settle-Owned, add-Owned, own-Owned,
  logged, fail-Owned, stop-owner, stop-owner_one, if-Owned,
}
use deepseek_harness_gateway.Supervisor.StartOwners.{start_dsh-Owned, stop_done-Owned}

module _ {config : DaemonConfig} (can : CanStart config) where
  run_stop-Owned :
      (caller : Caller) (script : Text) (s : Supervisor)
      → Loose config s
      → Owned config (run_stop caller script s)
  run_stop-Owned caller script s l = elim (Bool-cases (is_blank script)) [
    | inr z ↦ rw z (
        own-Owned (stops_script caller) (tell (runs_stop script) s)
          (record {
            config_same = l.config_same;
            host_same = l.host_same;
            stop_owned = l.stop_owned;
          })
          refl)
    | inl z ↦ rw z (elim (Bool-cases (is_running s.state)) [
      | inl y ↦
          rw y (
            fail-Owned caller no_stop_text _
              (settle-Owned running (some not_stopped_text) s refl l))
      | inr y ↦ rw y (stop_done-Owned can caller s l.config_same l.host_same)
    ])
  ]

  stop-Owned :
      (t : Task) (s : Supervisor)
      → is_stop t ≡ true
      → s.config ≡ config
      → s.host.daemon ≡ config
      → Owned config (await t s)
  unfolding any
  stop-Owned t s n c h = record {
    loose = record { config_same = c; host_same = h; stop_owned = λ q. rw n refl };
    start_owned = λ q. rw (stop-owner_one config s.start_token (running_child s.child) t n) refl;
  }

  kill-Owned :
      (t : Task) (signal : Signal) (pid : ℕ) (s : Supervisor)
      → is_stop t ≡ true
      → s.config ≡ config
      → s.host.daemon ≡ config
      → Owned config (await t (kill signal pid s))
  kill-Owned t signal pid s n c h = sent s.host.kill_works
    where
      sent :
          (b : Bool)
          → Owned config (
              await t (
                if b
                then tell (signals signal pid) (record s { child = kill_child pid s.child })
                else s))
      sent true =
          stop-Owned t (tell (signals signal pid) (record s { child = kill_child pid s.child })) n c
            h
      sent false = stop-Owned t s n c h

  stop_child-Owned :
      (caller : Caller) (c : Option Child) (s : Supervisor)
      → Loose config s
      → Owned config (stop_child caller c s)
  stop_child-Owned caller none s l = run_stop-Owned caller _ s l
  stop_child-Owned caller (some c) s l = elim (Bool-cases c.killed) [
    | inl z ↦ rw z (run_stop-Owned caller _ s l)
    | inr z ↦ rw z (
        kill-Owned (stops_gracefully caller c.pid) sigterm c.pid
          (record s { stop_requested = true }) refl l.config_same l.host_same)
  ]

  pub stop_dsh-Owned :
      (caller : Caller) (s : Supervisor) → Owned config s → Owned config (stop_dsh caller s)
  unfolding stop_dsh reload_config
  stop_dsh-Owned caller s o =
      let bumped : Supervisor = record (reload_config s) { start_token = suc s.start_token } in
      stop_child-Owned caller _ (set_state starting none bumped) (
        set_state-Loose starting none bumped (record {
          config_same = o.loose.host_same;
          host_same = o.loose.host_same;
          stop_owned = o.loose.stop_owned;
        }))

  pub stop_raced-Owned :
      (caller : Caller) (pid : ℕ) (graceful : Bool) (s : Supervisor)
      → s.config ≡ config
      → s.host.daemon ≡ config
      → Owned config (stop_raced caller pid graceful s)
  unfolding stop_raced
  stop_raced-Owned caller pid true s c h = stop_done-Owned can caller s c h
  stop_raced-Owned caller pid false s c h = kill-Owned (stops_killed caller) sigkill pid s refl c h

  pub on_child_exit-Owned :
      (detail : Text) (s : Supervisor) → Owned config s → Owned config (on_child_exit detail s)
  unfolding on_child_exit persist_state
  on_child_exit-Owned detail s o =
      if-Owned s.stop_requested _ _
        (λ z. record {
          loose = left;
          start_owned = λ q. stop-owner config s.start_token false s.tasks (o.loose.stop_owned z);
        })
        (λ z.
          settle-Owned exited (some detail) (persist_state (record s { child = none })) refl left)
    where
      left : Loose config (persist_state (record s { child = none }))
      left = record {
        config_same = o.loose.config_same;
        host_same = o.loose.host_same;
        stop_owned = o.loose.stop_owned;
      }

  pub refresh_state-Owned : (s : Supervisor) → Owned config s → Owned config (refresh_state s)
  unfolding refresh_state is_child_running
  refresh_state-Owned s o = elim (Bool-cases (is_starting s.state)) [
    | inl z ↦ rw z o
    | inr z ↦ rw z (elim (Bool-cases (running_child s.child)) [
      | inl y ↦ rw y (elim (Bool-cases (is_running s.state)) [
        | inl x ↦ rw x o
        | inr x ↦ rw x (settle-Owned running none s refl o.loose)
      ])
      | inr y ↦ rw y (elim (Bool-cases (has_probe s.config)) [
        | inl x ↦ rw x (add-Owned refreshes _ (logged o))
        | inr x ↦ rw x o
      ])
    ])
  ]

  pub refreshed-Owned :
      (up : Bool) (s : Supervisor) → Owned config s → Owned config (refreshed up s)
  unfolding refreshed
  refreshed-Owned true s o = elim (Bool-cases (is_running s.state)) [
    | inl z ↦ rw z o
    | inr z ↦ rw z (settle-Owned running none s refl o.loose)
  ]
  refreshed-Owned false s o = elim (Bool-cases (is_running s.state)) [
    | inl z ↦ rw z (settle-Owned exited (some no_longer_text) s refl o.loose)
    | inr z ↦ rw z o
  ]

  pub reload-Owned : (s : Supervisor) → Owned config s → Owned config (reload_config s)
  unfolding reload_config
  reload-Owned s o = record {
    loose = record {
      config_same = o.loose.host_same;
      host_same = o.loose.host_same;
      stop_owned = o.loose.stop_owned;
    };
    start_owned = o.start_owned;
  }

  pub bootstrap-Owned :
      (was_running : Bool) (s : Supervisor)
      → Owned config s
      → Owned config (bootstrap was_running s)
  unfolding bootstrap reload_config
  bootstrap-Owned was_running s o =
      let fresh = reload-Owned s o in
      elim (Bool-cases (not s.host.daemon.enabled)) [
        | inl z ↦ rw z (settle-Owned unknown none (reload_config s) (off z) fresh.loose)
        | inr z ↦ rw z (elim (Bool-cases (has_probe s.host.daemon)) [
          | inl y ↦ rw y (add-Owned boots_probing _ (logged fresh))
          | inr y ↦
              rw y (elim (Bool-cases (was_running && not (is_empty s.host.daemon.child_command))) [
                | inl x ↦
                    rw x
                      (settle-Owned exited (some unowned_text) (reload_config s) refl fresh.loose)
                | inr x ↦ rw x (start_dsh-Owned can boots (reload_config s) fresh)
              ])
        ])
      ]
    where
      off : not s.host.daemon.enabled ≡ true → rests config s.start_token unknown ≡ true
      off z = ground (arith, z, ap (λ c. not c.enabled) o.loose.host_same)

  pub boot_probed-Owned :
      (up : Bool) (s : Supervisor) → Owned config s → Owned config (boot_probed up s)
  unfolding boot_probed
  boot_probed-Owned true s o = settle-Owned running none s refl o.loose
  boot_probed-Owned false s o = start_dsh-Owned can boots s o
