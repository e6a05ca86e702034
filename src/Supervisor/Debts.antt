-- ===== src/Supervisor/Debts.antt =====
-- The replies that plugins/dsh-gateway-agent/src/daemon.js owes to control requests.
use deepseek_harness_gateway.Common.{
  ℕ, zero, suc, ◌+◌, ◌≡◌, ap, ◌∙◌, ◌&&◌, nat_eq, Bool, true, false, Option, none, some, List, [],
  ◌∷◌, arith,
}
use deepseek_harness_gateway.Common.Text.{Text, text}
use deepseek_harness_gateway.Supervisor.State.{
  DaemonState, starting, running, stopped, exited, Child, Signal, sigterm, sigkill, Request, Reply,
  reply, done, Caller, boots, controls, restarts, Task, starts_probing, starts_script,
  stops_gracefully, stops_killed, stops_script, ScriptResult, Supervisor, tell, Effect,
  reload_config, vars, persist_state, heartbeat_now, set_state, spawns, replies,
}
use deepseek_harness_gateway.Supervisor.Commands.{expand_command, split_command}
use deepseek_harness_gateway.Supervisor.Start.{
  finish, succeed, fail, arm_readiness, ready_again, ready_woken, ready_probed, spawn_child,
  run_start, begin_start, launch, start_ran, start_dsh, start_probed, not_ready_text, no_start_text,
  disabled_text, start_failed_text,
}
use deepseek_harness_gateway.Supervisor.{
  stop_done, after_stop, run_stop, stop_child, stop_dsh, stop_raced, kill, no_stop_text,
  not_stopped_text,
}
use deepseek_harness_gateway.Supervisor.Picks.{total}
use deepseek_harness_gateway.Common.Text.{text_eq}

abbrev pub one_if : Bool → ℕ
one_if true = 1
one_if false = 0

-- A request of this id that came on this socket.
abbrev pub is_asked : Text → ℕ → Request → Bool
is_asked id socket req = text_eq req.id id && nat_eq req.socket socket

abbrev pub caller_owes : Text → ℕ → Caller → ℕ
caller_owes id socket boots = 0
caller_owes id socket (controls req) = one_if (is_asked id socket req)
caller_owes id socket (restarts req) = one_if (is_asked id socket req)

abbrev pub owes : Text → ℕ → Task → ℕ
owes id socket (starts_probing caller) = caller_owes id socket caller
owes id socket (starts_script caller token) = caller_owes id socket caller
owes id socket (stops_gracefully caller pid) = caller_owes id socket caller
owes id socket (stops_killed caller) = caller_owes id socket caller
owes id socket (stops_script caller) = caller_owes id socket caller
owes id socket _ = 0

abbrev pub answers : Text → Effect → ℕ
answers id (replies asked reply) = one_if (text_eq asked id)
answers id _ = 0

-- The replies sent to requests of an id, and those of a socket that are still awaited.
abbrev pub answered : Text → List Effect → ℕ
answered id [] = 0
answered id (e ∷ es) = answers id e + answered id es

abbrev pub owed : Text → ℕ → List Task → ℕ
owed id socket ts = total (owes id socket) ts

abbrev pub due : Text → Supervisor → ℕ
due id s = answered id s.effects + owed id s.socket s.tasks

module _ (id : Text) where
  pub set_state-due :
      (state : DaemonState) (error : Option Text) (s : Supervisor)
      → due id (set_state state error s) ≡ due id s
  unfolding set_state persist_state heartbeat_now reload_config
  set_state-due state error s = ground arith

  set_state-socket :
      (state : DaemonState) (error : Option Text) (s : Supervisor)
      → (set_state state error s).socket ≡ s.socket
  unfolding set_state persist_state heartbeat_now reload_config
  set_state-socket state error s = ground arith

  arm_readiness-socket : (token : ℕ) (s : Supervisor) → (arm_readiness token s).socket ≡ s.socket
  unfolding arm_readiness
  arm_readiness-socket token s = ground (arith, set_state-socket running none s)

  -- A reply that is owed is sent, and one on a socket that has closed is not owed.
  pub reply-due :
      (req : Request) (r : Reply) (s : Supervisor)
      → due id (reply req r s) ≡ due id s + one_if (is_asked id s.socket req)
  reply-due req r s = ground arith

  -- After a change of state that owes nothing.
  after_state :
      (caller : Caller) (state : DaemonState) (error : Option Text) (s after : Supervisor)
      → due id after
        ≡ due id (set_state state error s) + caller_owes id (set_state state error s).socket caller
      → due id after ≡ due id s + caller_owes id s.socket caller
  after_state caller state error s after h =
      h
      ∙ ap (λ n. due id (set_state state error s) + caller_owes id n caller)
          (set_state-socket state error s)
      ∙ ap (λ n. n + caller_owes id s.socket caller) (set_state-due state error s)

  finish-due :
      (req : Request) (s : Supervisor)
      → due id (finish req (set_state s.state none s))
        ≡ due id s + one_if (is_asked id s.socket req)
  finish-due req s =
      after_state (controls req) s.state none s (finish req (set_state s.state none s))
        (reply-due req (done (set_state s.state none s).state) (set_state s.state none s))

  succeed-due :
      (caller : Caller) (s : Supervisor)
      → due id (succeed caller s) ≡ due id s + caller_owes id s.socket caller
  succeed-due boots s = omega arith
  succeed-due (controls req) s = finish-due req s
  succeed-due (restarts req) s = finish-due req s

  fail-due :
      (caller : Caller) (message : Text) (s : Supervisor)
      → due id (fail caller message s) ≡ due id s + caller_owes id s.socket caller
  unfolding persist_state
  fail-due boots message s = omega arith
  fail-due (controls req) message s = ground arith
  fail-due (restarts req) message s = ground arith

  arm_readiness-due : (token : ℕ) (s : Supervisor) → due id (arm_readiness token s) ≡ due id s
  unfolding arm_readiness
  arm_readiness-due token s = ground (arith, set_state-due running none s)

  ready_again-due :
      (token : ℕ) (child_mode : Bool) (left : ℕ) (s : Supervisor)
      → due id (ready_again token child_mode left s) ≡ due id s
  ready_again-due token child_mode zero s =
      ground (arith, set_state-due exited (some not_ready_text) s)
  ready_again-due token child_mode (suc left) s = omega arith

  pub ready_woken-due :
      (token : ℕ) (child_mode : Bool) (left : ℕ) (s : Supervisor)
      → due id (ready_woken token child_mode left s) ≡ due id s
  unfolding ready_woken
  ready_woken-due token child_mode left s = ground (arith, ready_again-due token child_mode left s)

  pub ready_probed-due :
      (token : ℕ) (child_mode : Bool) (left : ℕ) (up : Bool) (s : Supervisor)
      → due id (ready_probed token child_mode left up s) ≡ due id s
  unfolding ready_probed
  ready_probed-due token child_mode left up s =
      ground (arith, set_state-due running none s, ready_again-due token child_mode left s)

  readied-due :
      (caller : Caller) (token : ℕ) (s : Supervisor)
      → due id (succeed caller (arm_readiness token s)) ≡ due id s + caller_owes id s.socket caller
  readied-due caller token s =
      succeed-due caller (arm_readiness token s)
      ∙ ap (λ n. due id (arm_readiness token s) + caller_owes id n caller)
          (arm_readiness-socket token s)
      ∙ ap (λ n. n + caller_owes id s.socket caller) (arm_readiness-due token s)

  spawn_child-due :
      (caller : Caller) (token : ℕ) (argv : List Text) (s : Supervisor)
      → due id (spawn_child caller token argv s) ≡ due id s + caller_owes id s.socket caller
  spawn_child-due caller token [] s = fail-due caller (text "child command is empty") s
  spawn_child-due caller token (file ∷ args) s =
      let new : Supervisor = record s {
        child = some (record { pid = s.next_pid; killed = false });
        next_pid = suc s.next_pid;
        started_at = some s.host.now;
      } in
      ground (arith, readied-due caller token (tell (spawns (file ∷ args)) new))

  run_start-due :
      (caller : Caller) (token : ℕ) (script : Text) (s : Supervisor)
      → due id (run_start caller token script s) ≡ due id s + caller_owes id s.socket caller
  run_start-due caller token script s = ground (arith, fail-due caller no_start_text s)

  launch-due :
      (caller : Caller) (s : Supervisor)
      → due id (launch caller s) ≡ due id s + caller_owes id s.socket caller
  unfolding launch
  launch-due caller s =
      let bumped : Supervisor = record s { start_token = suc s.start_token } in
      after_state caller starting none bumped
        (begin_start caller (suc s.start_token) (set_state starting none bumped))
        (begun (set_state starting none bumped))
    where
      begun :
          (s' : Supervisor)
          → due id (begin_start caller (suc s.start_token) s')
            ≡ due id s' + caller_owes id s'.socket caller
      begun s' = ground (
        arith,
        run_start-due caller (suc s.start_token) (expand_command s'.config.start_script (vars s'))
            s',
        spawn_child-due caller (suc s.start_token)
            (split_command (expand_command s'.config.child_command (vars s'))) s',
      )

  pub start_ran-due :
      (caller : Caller) (token : ℕ) (res : ScriptResult) (s : Supervisor)
      → due id (start_ran caller token res s) ≡ due id s + caller_owes id s.socket caller
  unfolding start_ran
  start_ran-due caller token res s =
      let message = start_failed_text res in
      ground (
        arith,
        readied-due caller token (record s { started_at = some s.host.now }),
        after_state caller exited (some message) s
            (fail caller message (set_state exited (some message) s))
            (fail-due caller message (set_state exited (some message) s)),
      )

  pub start_dsh-due :
      (caller : Caller) (s : Supervisor)
      → due id (start_dsh caller s) ≡ due id s + caller_owes id s.socket caller
  unfolding start_dsh reload_config
  start_dsh-due caller s =
      let s' = record (reload_config s) { stop_requested = false } in
      ground (arith, fail-due caller disabled_text s', succeed-due caller s', launch-due caller s')

  pub start_probed-due :
      (caller : Caller) (up : Bool) (s : Supervisor)
      → due id (start_probed caller up s) ≡ due id s + caller_owes id s.socket caller
  unfolding start_probed
  start_probed-due caller up s = ground (
    arith,
    after_state caller running none s (succeed caller (set_state running none s))
        (succeed-due caller (set_state running none s)),
    launch-due caller s,
  )

  after_stop-due :
      (caller : Caller) (s : Supervisor)
      → due id (after_stop caller s) ≡ due id s + caller_owes id s.socket caller
  after_stop-due boots s = omega arith
  after_stop-due (controls req) s = succeed-due (controls req) s
  after_stop-due (restarts req) s = start_dsh-due (controls req) s

  pub stop_done-due :
      (caller : Caller) (s : Supervisor)
      → due id (stop_done caller s) ≡ due id s + caller_owes id s.socket caller
  unfolding stop_done
  stop_done-due caller s =
      let off : Supervisor = record s { started_at = none; stop_requested = false } in
      after_state caller stopped none off (after_stop caller (set_state stopped none off))
        (after_stop-due caller (set_state stopped none off))

  run_stop-due :
      (caller : Caller) (script : Text) (s : Supervisor)
      → due id (run_stop caller script s) ≡ due id s + caller_owes id s.socket caller
  run_stop-due caller script s = ground (
    arith,
    after_state caller running (some not_stopped_text) s
        (fail caller no_stop_text (set_state running (some not_stopped_text) s))
        (fail-due caller no_stop_text (set_state running (some not_stopped_text) s)),
    stop_done-due caller s,
  )

  kill-due : (signal : Signal) (pid : ℕ) (s : Supervisor) → due id (kill signal pid s) ≡ due id s
  kill-due signal pid s = ground arith

  stop_child-due :
      (caller : Caller) (c : Option Child) (s : Supervisor)
      → due id (stop_child caller c s) ≡ due id s + caller_owes id s.socket caller
  stop_child-due caller none s =
      run_stop-due caller (expand_command s.config.stop_script (vars s)) s
  stop_child-due caller (some c) s = ground (
    arith,
    run_stop-due caller (expand_command s.config.stop_script (vars s)) s,
    kill-due sigterm c.pid (record s { stop_requested = true }),
  )

  pub stop_dsh-due :
      (caller : Caller) (s : Supervisor)
      → due id (stop_dsh caller s) ≡ due id s + caller_owes id s.socket caller
  unfolding stop_dsh reload_config
  stop_dsh-due caller s =
      let bumped : Supervisor = record (reload_config s) { start_token = suc s.start_token } in
      let s' = set_state starting none bumped in
      after_state caller starting none bumped (stop_child caller s'.child s')
        (stop_child-due caller s'.child s')

  pub stop_raced-due :
      (caller : Caller) (pid : ℕ) (graceful : Bool) (s : Supervisor)
      → due id (stop_raced caller pid graceful s) ≡ due id s + caller_owes id s.socket caller
  unfolding stop_raced
  stop_raced-due caller pid graceful s =
      ground (arith, stop_done-due caller s, kill-due sigkill pid s)
