-- ===== src/Supervisor/Costs.antt =====
-- What a run of plugins/dsh-gateway-agent/src/daemon.js uses up of a budget.
use deepseek_harness_gateway.Common.{
  ℕ, suc, ◌+◌, ◌≤◌, ◌≡◌, subst, Bool, true, false, Option, none, some, List, [], ◌∷◌, ◌++◌, arith,
  Option-cases, inl, inr,
}
use deepseek_harness_gateway.Common.Text.{Text, text}
use deepseek_harness_gateway.Supervisor.State.{
  starting, running, stopped, exited, unknown, DaemonAction, Child, Signal, sigterm, sigkill,
  Request, Caller, boots, controls, restarts, Task, stops_gracefully, Supervisor, reload_config,
  vars, persist_state, heartbeat_now, set_state, unsupported,
}
use deepseek_harness_gateway.Supervisor.Commands.{expand_command}
use deepseek_harness_gateway.Supervisor.{
  stop_done, after_stop, run_stop, stop_child, stop_dsh, stop_raced, kill, on_child_exit,
  refresh_state, refreshed, bootstrap, boot_probed, action_of, handle_action, handle_control,
  no_stop_text, not_stopped_text, no_longer_text, unowned_text,
}
use deepseek_harness_gateway.Supervisor.Picks.{step-Resumed}
use deepseek_harness_gateway.Supervisor.Resumption.{
  Resumption, probed_start, ran_start, woken_ready, probed_ready, raced_stop, killed_stop, ran_stop,
  probed_refresh, probed_boot,
}
use deepseek_harness_gateway.Supervisor.Budget.{on_first, Budget, measure}
use deepseek_harness_gateway.Supervisor.Run.{
  Event, resumes, exits, ticks, requests, begins, registers, closes, changes, step, run, and_then,
  from_some,
}
use deepseek_harness_gateway.Supervisor.Spending.{
  set_state-measure, succeed-measure, reply-measure, fail-measure, start_dsh-measure,
  ready_woken-measure, ready_probed-measure, start_ran-measure, start_probed-measure,
}

module _ (b : Budget) where
  after_stop-measure :
      (caller : Caller) (s : Supervisor)
      → measure b (after_stop caller s) ≤ measure b s + b.going_on caller
  after_stop-measure boots s = omega arith
  after_stop-measure (controls req) s = ground (arith, succeed-measure b (controls req) s)
  after_stop-measure (restarts req) s =
      ground (arith, start_dsh-measure b (controls req) s, b.restarted req)

  pub stop_done-measure :
      (caller : Caller) (s : Supervisor)
      → measure b (stop_done caller s) ≤ measure b s + b.going_on caller
  unfolding stop_done
  stop_done-measure caller s =
      let off : Supervisor = record s { started_at = none; stop_requested = false } in
      ground (
        arith,
        after_stop-measure caller (set_state stopped none off),
        set_state-measure b stopped none off,
      )

  run_stop-measure :
      (caller : Caller) (script : Text) (s : Supervisor)
      → measure b (run_stop caller script s) ≤ measure b s + b.stopping caller
  run_stop-measure caller script s = ground (
    arith,
    b.runs_stop_free script,
    b.stop_runs caller,
    b.stop_goes_on caller,
    fail-measure b caller no_stop_text (set_state running (some not_stopped_text) s),
    set_state-measure b running (some not_stopped_text) s,
    stop_done-measure caller s,
  )

  kill-measure :
      (signal : Signal) (pid : ℕ) (s : Supervisor) → measure b (kill signal pid s) ≡ measure b s
  kill-measure signal pid s = ground (arith, b.signals_free signal pid)

  stop_child-measure :
      (caller : Caller) (c : Option Child) (s : Supervisor)
      → measure b (stop_child caller c s) ≤ measure b s + b.stopping caller
  stop_child-measure caller none s =
      run_stop-measure caller (expand_command s.config.stop_script (vars s)) s
  stop_child-measure caller (some c) s = ground (
    arith,
    b.stop_races caller c.pid,
    run_stop-measure caller (expand_command s.config.stop_script (vars s)) s,
    kill-measure sigterm c.pid (record s { stop_requested = true }),
  )

  stop_dsh-measure :
      (caller : Caller) (s : Supervisor)
      → measure b (stop_dsh caller s) ≤ measure b s + b.stopping caller
  unfolding stop_dsh reload_config
  stop_dsh-measure caller s =
      let bumped : Supervisor = record (reload_config s) { start_token = suc s.start_token } in
      let s' = set_state starting none bumped in
      subst (λ n. measure b (stop_dsh caller s) ≤ n + b.stopping caller)
        (set_state-measure b starting none bumped) (stop_child-measure caller s'.child s')

  pub stop_raced-measure :
      (caller : Caller) (pid : ℕ) (graceful : Bool) (s : Supervisor)
      → b.tick + measure b (stop_raced caller pid graceful s)
        ≤ measure b s + b.task (stops_gracefully caller pid)
  unfolding stop_raced
  stop_raced-measure caller pid graceful s = ground (
    arith,
    b.raced_on caller pid,
    b.killed_on caller,
    stop_done-measure caller s,
    kill-measure sigkill pid s,
  )

  pub on_child_exit-measure :
      (detail : Text) (s : Supervisor) → measure b (on_child_exit detail s) ≡ measure b s
  unfolding on_child_exit persist_state
  on_child_exit-measure detail s = ground (
    arith,
    b.persists_free s.state s.last_error,
    set_state-measure b exited (some detail) (persist_state (record s { child = none })),
  )

  pub refresh_state-measure :
      (s : Supervisor) → measure b (refresh_state s) ≤ measure b s + b.looking
  unfolding refresh_state
  refresh_state-measure s = ground (
    arith,
    b.look_probes,
    b.probes_free (expand_command s.config.status_script (vars s)),
    set_state-measure b running none s,
  )

  refreshed-measure : (up : Bool) (s : Supervisor) → measure b (refreshed up s) ≡ measure b s
  unfolding refreshed
  refreshed-measure up s = ground (
    arith,
    set_state-measure b running none s,
    set_state-measure b exited (some no_longer_text) s,
  )

  pub bootstrap-measure :
      (was_running : Bool) (s : Supervisor)
      → measure b (bootstrap was_running s) ≤ measure b s + b.booting
  unfolding bootstrap reload_config
  bootstrap-measure was_running s = ground (
    arith,
    b.boot_probes,
    b.boot_starts,
    b.probes_free (expand_command s.host.daemon.status_script (vars (reload_config s))),
    set_state-measure b unknown none (reload_config s),
    set_state-measure b exited (some unowned_text) (reload_config s),
    start_dsh-measure b boots (reload_config s),
  )

  boot_probed-measure :
      (up : Bool) (s : Supervisor) → measure b (boot_probed up s) ≤ measure b s + b.starting_up
  unfolding boot_probed
  boot_probed-measure up s =
      ground (arith, set_state-measure b running none s, start_dsh-measure b boots s)

  -- What a control request may use up.
  abbrev pub allowed : Option DaemonAction → Text → ℕ
  allowed none id = 0
  allowed (some DaemonAction.start) id = b.starting_up
  allowed (some DaemonAction.stop) id = b.stopping (controls (on_first id))
  allowed (some DaemonAction.restart) id = b.stopping (restarts (on_first id))

  pub handle_action-measure :
      (a : Option DaemonAction) (req : Request) (action : Text) (s : Supervisor)
      → measure b (handle_action a req action s) ≤ measure b s + allowed a req.id
  handle_action-measure none req action s =
      ground (arith, reply-measure b req (unsupported (text "unsupported action " ++ action)) s)
  handle_action-measure (some DaemonAction.start) req action s =
      start_dsh-measure b (controls req)
        (record s { last_action = action; last_action_at = s.host.now })
  handle_action-measure (some DaemonAction.stop) req action s = ground (
    arith,
    stop_dsh-measure (controls req)
        (record s { last_action = action; last_action_at = s.host.now }),
    b.controls_alike req,
  )
  handle_action-measure (some DaemonAction.restart) req action s = ground (
    arith,
    stop_dsh-measure (restarts req)
        (record s { last_action = action; last_action_at = s.host.now }),
    b.restarts_alike req,
  )

  pub heartbeat_now-measure : (s : Supervisor) → measure b (heartbeat_now s) ≡ measure b s
  unfolding heartbeat_now reload_config
  heartbeat_now-measure s = ground (arith, b.beats_free s.state s.last_action s.host.daemon.enabled)

  pub Resumption-measure :
      {t : Task} {s after : Supervisor}
      → Resumption t s after
      → b.tick + measure b after ≤ measure b s + b.task t
  Resumption-measure (probed_start caller up s) = start_probed-measure b caller up s
  Resumption-measure (ran_start caller token res s) = start_ran-measure b caller token res s
  Resumption-measure (woken_ready token child_mode left s) =
      ready_woken-measure b token child_mode left s
  Resumption-measure (probed_ready token child_mode left up s) =
      ready_probed-measure b token child_mode left up s
  Resumption-measure (raced_stop caller pid graceful s) = stop_raced-measure caller pid graceful s
  Resumption-measure (killed_stop caller s) =
      ground (arith, b.killed_on caller, stop_done-measure caller s)
  Resumption-measure (ran_stop caller s) =
      ground (arith, b.ran_on caller, stop_done-measure caller s)
  Resumption-measure (probed_refresh up s) = ground (arith, b.looked, refreshed-measure up s)
  Resumption-measure (probed_boot up s) = ground (arith, b.boot_probed, boot_probed-measure up s)

  -- What an event may use up, and what it must when a task goes on.
  abbrev pub cost : Event → ℕ
  cost (requests id action) = allowed (action_of action) id
  cost (begins was_running) = b.booting
  cost ticks = b.looking
  cost _ = 0

  abbrev pub toll : Event → ℕ
  toll (resumes k a) = b.tick
  toll _ = 0

  abbrev pub summed : (Event → ℕ) → List Event → ℕ
  summed f [] = 0
  summed f (e ∷ es) = f e + summed f es

  abbrev Kept : Event → Supervisor → Supervisor → Type 0
  Kept e s after = toll e + measure b after ≤ measure b s + cost e

  step-Kept : (e : Event) (s after : Supervisor) → step e s ≡ some after → Kept e s after
  unfolding step handle_control
  step-Kept (resumes k a) s after h =
      let r = step-Resumed k a s after h in
      ground (arith, r.picked.total_same b.task, Resumption-measure r.went_on)
  step-Kept (exits detail) s after h =
      from_some (Kept (exits detail) s) _ after h (ground (arith, on_child_exit-measure detail s))
  step-Kept ticks s after h =
      from_some (Kept ticks s) _ after h (ground (arith, refresh_state-measure s))
  step-Kept (requests id action) s after h = from_some (Kept (requests id action) s) _ after h (
      ground (
        arith,
        handle_action-measure (action_of action) (record { socket = s.socket; id = id }) action s,
      ))
  step-Kept (begins was_running) s after h =
      from_some (Kept (begins was_running) s) _ after h
        (ground (arith, bootstrap-measure was_running s))
  step-Kept registers s after h =
      from_some (Kept registers s) _ after h
        (ground (arith, heartbeat_now-measure (record s { beating = true })))
  step-Kept closes s after h =
      from_some (Kept closes s) (record s { beating = false; socket = suc s.socket }) after h
        (omega arith)
  step-Kept (changes host) s after h =
      from_some (Kept (changes host) s) (record s { host = host }) after h (omega arith)

  pub run-measure :
      (es : List Event) (s after : Supervisor)
      → run es s ≡ some after
      → summed toll es + measure b after ≤ measure b s + summed cost es
  unfolding run
  run-measure [] s after h =
      from_some (λ x. 0 + measure b x ≤ measure b s + 0) s after h (omega arith)
  run-measure (e ∷ es) s after h = elim (Option-cases (step e s)) [
    | inl z ↦ none_some (subst (λ o. and_then o (run es) ≡ some after) z h)
    | inr (mid, z) ↦ ground (
      arith,
      step-Kept e s mid z,
      run-measure es mid after (subst (λ o. and_then o (run es) ≡ some after) z h),
    )
  ]
    where
      none_some :
          none ≡ some after
          → summed toll (e ∷ es) + measure b after ≤ measure b s + summed cost (e ∷ es)
      none_some q = cc
