-- ===== src/Supervisor/Spending.antt =====
-- A start of plugins/dsh-gateway-agent/src/daemon.js keeps to a budget.
use deepseek_harness_gateway.Common.{
  ℕ, zero, suc, ◌+◌, ◌≤◌, ◌≡◌, refl, ◌∙◌, subst, Bool, false, not, Option, none, some, List, [],
  ◌∷◌, arith,
}
use deepseek_harness_gateway.Common.Text.{Text, text}
use deepseek_harness_gateway.Supervisor.State.{
  DaemonState, starting, running, exited, Request, Reply, reply, Caller, boots, controls, restarts,
  starts_probing, starts_script, waits_ready, waits_probe, ScriptResult, Supervisor, tell,
  reload_config, vars, is_empty, persist_state, heartbeat_now, set_state, spawns, failed,
}
use deepseek_harness_gateway.Supervisor.Commands.{expand_command, split_command}
use deepseek_harness_gateway.Supervisor.Start.{
  succeed, fail, arm_readiness, ready_again, ready_woken, ready_probed, spawn_child, run_start,
  begin_start, launch, start_ran, start_dsh, start_probed, not_ready_text, no_start_text,
  disabled_text, start_failed_text,
}
use deepseek_harness_gateway.Supervisor.Budget.{Budget, measure}

module _ (b : Budget) where
  pub set_state-measure :
      (state : DaemonState) (error : Option Text) (s : Supervisor)
      → measure b (set_state state error s) ≡ measure b s
  unfolding set_state persist_state heartbeat_now reload_config
  set_state-measure state error s =
      ground
        (arith, b.persists_free state error, b.beats_free state s.last_action s.host.daemon.enabled)

  pub reply-measure :
      (req : Request) (r : Reply) (s : Supervisor) → measure b (reply req r s) ≡ measure b s
  reply-measure req r s = ground (arith, b.replies_free req.id r)

  pub succeed-measure :
      (caller : Caller) (s : Supervisor) → measure b (succeed caller s) ≡ measure b s
  succeed-measure boots s = refl
  succeed-measure (controls req) s =
      reply-measure req _ (set_state s.state none s) ∙ set_state-measure s.state none s
  succeed-measure (restarts req) s =
      reply-measure req _ (set_state s.state none s) ∙ set_state-measure s.state none s

  pub fail-measure :
      (caller : Caller) (message : Text) (s : Supervisor)
      → measure b (fail caller message s) ≡ measure b s
  unfolding persist_state
  fail-measure boots message s = refl
  fail-measure (controls req) message s = ground (
    arith,
    reply-measure req (failed message s.state)
        (persist_state (record s { last_error = some message })),
    b.persists_free s.state (some message),
  )
  fail-measure (restarts req) message s = ground (
    arith,
    reply-measure req (failed message s.state)
        (persist_state (record s { last_error = some message })),
    b.persists_free s.state (some message),
  )

  arm_readiness-measure :
      (token : ℕ) (s : Supervisor) → measure b (arm_readiness token s) ≤ measure b s + b.readying
  unfolding arm_readiness
  arm_readiness-measure token s = ground (
    arith,
    set_state-measure running none s,
    b.readied token (not (is_empty s.config.child_command)),
  )

  ready_again-measure :
      (token : ℕ) (child_mode : Bool) (left : ℕ) (s : Supervisor)
      → b.tick + measure b (ready_again token child_mode left s)
        ≤ measure b s + b.task (waits_probe token child_mode left)
  ready_again-measure token child_mode zero s =
      ground
        (arith, set_state-measure exited (some not_ready_text) s, b.tried_last token child_mode)
  ready_again-measure token child_mode (suc left) s = ground (arith, b.tried token child_mode left)

  pub ready_woken-measure :
      (token : ℕ) (child_mode : Bool) (left : ℕ) (s : Supervisor)
      → b.tick + measure b (ready_woken token child_mode left s)
        ≤ measure b s + b.task (waits_ready token child_mode left)
  unfolding ready_woken
  ready_woken-measure token child_mode left s = ground (
    arith,
    b.waited token child_mode left,
    b.probes_free (expand_command s.config.status_script (vars s)),
    ready_again-measure token child_mode left s,
  )

  pub ready_probed-measure :
      (token : ℕ) (child_mode : Bool) (left : ℕ) (up : Bool) (s : Supervisor)
      → b.tick + measure b (ready_probed token child_mode left up s)
        ≤ measure b s + b.task (waits_probe token child_mode left)
  unfolding ready_probed
  ready_probed-measure token child_mode left up s = ground (
    arith,
    set_state-measure running none s,
    ready_again-measure token child_mode left s,
    ready_least left,
  )
    where
      ready_least : (n : ℕ) → b.tick ≤ b.task (waits_probe token child_mode n)
      ready_least zero = b.tried_last token child_mode
      ready_least (suc n) = ground (arith, b.tried token child_mode n)

  spawn_child-measure :
      (caller : Caller) (token : ℕ) (argv : List Text) (s : Supervisor)
      → measure b (spawn_child caller token argv s) ≤ measure b s + b.launching
  spawn_child-measure caller token [] s =
      ground (arith, fail-measure caller (text "child command is empty") s)
  spawn_child-measure caller token (file ∷ args) s =
      let new : Supervisor = record s {
        child = some (record { pid = s.next_pid; killed = false });
        next_pid = suc s.next_pid;
        started_at = some s.host.now;
      } in
      let s' = tell (spawns (file ∷ args)) new in
      ground (
        arith,
        succeed-measure caller (arm_readiness token s'),
        arm_readiness-measure token s',
        b.spawned (file ∷ args),
      )

  run_start-measure :
      (caller : Caller) (token : ℕ) (script : Text) (s : Supervisor)
      → measure b (run_start caller token script s) ≤ measure b s + b.launching
  run_start-measure caller token script s =
      ground (arith, fail-measure caller no_start_text s, b.script_run script caller token)

  begin_start-measure :
      (caller : Caller) (token : ℕ) (s : Supervisor)
      → measure b (begin_start caller token s) ≤ measure b s + b.launching
  begin_start-measure caller token s = ground (
    arith,
    run_start-measure caller token (expand_command s.config.start_script (vars s)) s,
    spawn_child-measure caller token
        (split_command (expand_command s.config.child_command (vars s))) s,
  )

  launch-measure :
      (caller : Caller) (s : Supervisor) → measure b (launch caller s) ≤ measure b s + b.launching
  unfolding launch
  launch-measure caller s =
      let bumped : Supervisor = record s { start_token = suc s.start_token } in
      subst (λ n. measure b (launch caller s) ≤ n + b.launching)
        (set_state-measure starting none bumped)
        (begin_start-measure caller (suc s.start_token) (set_state starting none bumped))

  pub start_ran-measure :
      (caller : Caller) (token : ℕ) (res : ScriptResult) (s : Supervisor)
      → b.tick + measure b (start_ran caller token res s)
        ≤ measure b s + b.task (starts_script caller token)
  unfolding start_ran
  start_ran-measure caller token res s =
      let s' = arm_readiness token (record s { started_at = some s.host.now }) in
      let message = start_failed_text res in
      ground (
        arith,
        b.script_done caller token,
        succeed-measure caller s',
        arm_readiness-measure token (record s { started_at = some s.host.now }),
        fail-measure caller message (set_state exited (some message) s),
        set_state-measure exited (some message) s,
      )

  pub start_dsh-measure :
      (caller : Caller) (s : Supervisor)
      → measure b (start_dsh caller s) ≤ measure b s + b.starting_up
  unfolding start_dsh reload_config
  start_dsh-measure caller s =
      let s' = record (reload_config s) { stop_requested = false } in
      ground (
        arith,
        fail-measure caller disabled_text s',
        succeed-measure caller s',
        launch-measure caller s',
        b.start_launches,
        b.start_probes caller,
        b.probes_free (expand_command s'.config.status_script (vars s')),
      )

  pub start_probed-measure :
      (caller : Caller) (up : Bool) (s : Supervisor)
      → b.tick + measure b (start_probed caller up s) ≤ measure b s + b.task (starts_probing caller)
  unfolding start_probed
  start_probed-measure caller up s = ground (
    arith,
    b.launch_probed caller,
    succeed-measure caller (set_state running none s),
    set_state-measure running none s,
    launch-measure caller s,
  )
