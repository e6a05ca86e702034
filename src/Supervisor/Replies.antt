-- ===== src/Supervisor/Replies.antt =====
-- Each control request to plugins/dsh-gateway-agent/src/daemon.js is answered once.
use deepseek_harness_gateway.Common.{
  ℕ, ◌+◌, ◌≡◌, subst, Bool, true, Option, none, some, List, [], ◌∷◌, arith, Option-cases, inl, inr,
}
use deepseek_harness_gateway.Common.Text.{Text}
use deepseek_harness_gateway.Common.Lists.{All}
use deepseek_harness_gateway.Supervisor.State.{
  running, exited, unknown, DaemonAction, Request, boots, controls, restarts, Task, Supervisor,
  reload_config, persist_state, heartbeat_now,
}
use deepseek_harness_gateway.Supervisor.{
  on_child_exit, refresh_state, refreshed, bootstrap, boot_probed, action_of, handle_action,
  handle_control, no_longer_text, unowned_text,
}
use deepseek_harness_gateway.Supervisor.Run.{
  Event, resumes, exits, ticks, requests, begins, registers, closes, changes, step, run, from_some,
}
use deepseek_harness_gateway.Supervisor.Picks.{step-Resumed}
use deepseek_harness_gateway.Supervisor.Resumption.{
  Resumption, probed_start, ran_start, woken_ready, probed_ready, raced_stop, killed_stop, ran_stop,
  probed_refresh, probed_boot,
}
use deepseek_harness_gateway.Common.Text.{text_eq}
use deepseek_harness_gateway.Supervisor.Run.{and_then}
use deepseek_harness_gateway.Supervisor.Debts.{
  one_if, is_asked, reply-due, owes, answered, owed, due, set_state-due, ready_woken-due,
  ready_probed-due, start_ran-due, start_dsh-due, start_probed-due, stop_done-due, stop_dsh-due,
  stop_raced-due,
}

abbrev pub asks : Text → Event → ℕ
asks id (requests asked action) = one_if (text_eq asked id)
asks id _ = 0

-- The socket does not close.
abbrev pub StaysOpen : Event → Type 0
StaysOpen closes = ⊥
StaysOpen _ = Unit

-- The requests of an id.
abbrev pub asked : Text → List Event → ℕ
asked id [] = 0
asked id (e ∷ es) = asks id e + asked id es

module _ (id : Text) where
  on_child_exit-due : (detail : Text) (s : Supervisor) → due id (on_child_exit detail s) ≡ due id s
  unfolding on_child_exit persist_state
  on_child_exit-due detail s =
      ground
        (arith, set_state-due id exited (some detail) (persist_state (record s { child = none })))

  refresh_state-due : (s : Supervisor) → due id (refresh_state s) ≡ due id s
  unfolding refresh_state
  refresh_state-due s = ground (arith, set_state-due id running none s)

  refreshed-due : (up : Bool) (s : Supervisor) → due id (refreshed up s) ≡ due id s
  unfolding refreshed
  refreshed-due up s =
      ground
        (arith, set_state-due id running none s, set_state-due id exited (some no_longer_text) s)

  bootstrap-due :
      (was_running : Bool) (s : Supervisor) → due id (bootstrap was_running s) ≡ due id s
  unfolding bootstrap reload_config
  bootstrap-due was_running s = ground (
    arith,
    set_state-due id unknown none (reload_config s),
    set_state-due id exited (some unowned_text) (reload_config s),
    start_dsh-due id boots (reload_config s),
  )

  boot_probed-due : (up : Bool) (s : Supervisor) → due id (boot_probed up s) ≡ due id s
  unfolding boot_probed
  boot_probed-due up s = ground (arith, set_state-due id running none s, start_dsh-due id boots s)

  handle_action-due :
      (a : Option DaemonAction) (req : Request) (action : Text) (s : Supervisor)
      → due id (handle_action a req action s) ≡ due id s + one_if (is_asked id s.socket req)
  handle_action-due none req action s = reply-due id req _ s
  handle_action-due (some DaemonAction.start) req action s = start_dsh-due id (controls req) _
  handle_action-due (some DaemonAction.stop) req action s = stop_dsh-due id (controls req) _
  handle_action-due (some DaemonAction.restart) req action s = stop_dsh-due id (restarts req) _

  heartbeat_now-due : (s : Supervisor) → due id (heartbeat_now s) ≡ due id s
  unfolding heartbeat_now reload_config
  heartbeat_now-due s = ground arith

  Resumption-due :
      {t : Task} {s after : Supervisor}
      → Resumption t s after
      → due id after ≡ due id s + owes id s.socket t
  Resumption-due (probed_start caller up s) = start_probed-due id caller up s
  Resumption-due (ran_start caller token res s) = start_ran-due id caller token res s
  Resumption-due (woken_ready token child_mode left s) =
      ground (arith, ready_woken-due id token child_mode left s)
  Resumption-due (probed_ready token child_mode left up s) =
      ground (arith, ready_probed-due id token child_mode left up s)
  Resumption-due (raced_stop caller pid graceful s) = stop_raced-due id caller pid graceful s
  Resumption-due (killed_stop caller s) = stop_done-due id caller s
  Resumption-due (ran_stop caller s) = stop_done-due id caller s
  Resumption-due (probed_refresh up s) = ground (arith, refreshed-due up s)
  Resumption-due (probed_boot up s) = ground (arith, boot_probed-due up s)

  abbrev Settled : Event → Supervisor → Supervisor → Type 0
  Settled e s after = due id after ≡ due id s + asks id e

  step-due :
      (e : Event) (s after : Supervisor) → StaysOpen e → step e s ≡ some after → Settled e s after
  unfolding step handle_control
  step-due (resumes k a) s after still h =
      let r = step-Resumed k a s after h in
      ground (arith, r.picked.total_same (owes id s.socket), Resumption-due r.went_on)
  step-due (exits detail) s after still h =
      from_some (Settled (exits detail) s) _ after h (ground (arith, on_child_exit-due detail s))
  step-due ticks s after still h =
      from_some (Settled ticks s) _ after h (ground (arith, refresh_state-due s))
  step-due (requests name action) s after still h =
      from_some (Settled (requests name action) s) _ after h (
        ground (
          arith,
          handle_action-due (action_of action) (record { socket = s.socket; id = name }) action s,
        ))
  step-due (begins was_running) s after still h =
      from_some (Settled (begins was_running) s) _ after h
        (ground (arith, bootstrap-due was_running s))
  step-due registers s after still h =
      from_some (Settled registers s) _ after h
        (ground (arith, heartbeat_now-due (record s { beating = true })))
  step-due closes s after still h = absurd still
  step-due (changes host) s after still h =
      from_some (Settled (changes host) s) (record s { host = host }) after h (omega arith)

  run-due :
      (es : List Event) (s after : Supervisor)
      → All StaysOpen es
      → run es s ≡ some after
      → due id after ≡ due id s + asked id es
  unfolding run
  run-due [] s after still h = from_some (λ x. due id x ≡ due id s + 0) s after h (omega arith)
  run-due (e ∷ es) s after still h = elim (Option-cases (step e s)) [
    | inl z ↦ none_some (subst (λ o. and_then o (run es) ≡ some after) z h)
    | inr (mid, z) ↦ ground (
      arith,
      step-due e s mid still.0 z,
      run-due es mid after still.1 (subst (λ o. and_then o (run es) ≡ some after) z h),
    )
  ]
    where
      none_some : none ≡ some after → due id after ≡ due id s + asked id (e ∷ es)
      none_some q = cc

-- From any state and for as long as the socket stays open, each control request is answered exactly
-- once, however requests, exits, probes and heartbeats overlap: what has been sent to an id and what a
-- start or a stop still owes it on this socket grow together by one for each request of the id.
pub replies_once :
    (id : Text) (es : List Event) (s after : Supervisor)
    → All StaysOpen es
    → run es s ≡ some after
    → answered id after.effects + owed id after.socket after.tasks
      ≡ answered id s.effects + owed id s.socket s.tasks + asked id es
replies_once id es s after still h = run-due id es s after still h
