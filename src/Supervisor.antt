-- ===== src/Supervisor.antt =====
-- The lifecycle of dsh in plugins/dsh-gateway-agent/src/daemon.js. A method runs up to its next
-- `await`, where it leaves a task; `resume` goes on with a task when what it awaits is there.
pub mod Commands
pub mod State
pub mod Start
pub mod Run
pub mod Resumption
pub mod Picks
pub mod Budget
pub mod Spending
pub mod Costs
pub mod Ends
pub mod Drain
pub mod Owners
pub mod Waits
pub mod StartOwners
pub mod StopOwners
pub mod Settles
pub mod Debts
pub mod Replies
pub mod Revival
pub mod Faults
mod Tests
use deepseek_harness_gateway.Common.{
  ℕ, zero, suc, ◌+◌, ◌*◌, Bool, true, false, not, ◌&&◌, ◌||◌, Option, none, some, List, [], ◌∷◌,
  ◌++◌, nat_eq, if◌then◌else◌,
}
use deepseek_harness_gateway.Common.Text.{Text, text, text_eq}
use deepseek_harness_gateway.Common.Split.{decimal, trim}
use deepseek_harness_gateway.Supervisor.Commands.{expand_command, split_command}
use deepseek_harness_gateway.Supervisor.State.{
  DaemonState, unknown, starting, running, stopped, exited, is_running, is_starting, DaemonAction,
  DaemonConfig, Host, Child, Caller, boots, controls, restarts, Task, starts_probing, starts_script,
  waits_ready, waits_probe, stops_gracefully, stops_killed, stops_script, refreshes, boots_probing,
  ScriptResult, Answer, woken, ran, raced, Signal, sigterm, sigkill, Reply, unsupported, done,
  failed, Effect, spawns, probes, runs_start, runs_stop, signals, Request, reply, is_zero,
  Supervisor, is_blank, is_empty, tell, await, reload_config, vars, persist_state, set_state,
  running_child, is_child_running, has_probe,
}
use deepseek_harness_gateway.Supervisor.Start.{
  ready_attempts, ready_interval_ms, probe_running, succeed, report, fail, arm_readiness,
  not_ready_text, ready_again, ready_woken, ready_probed, spawn_child, no_start_text, run_start,
  begin_start, launch, or_text, start_failed_text, start_ran, disabled_text, start_dsh,
  start_probed,
}

-- What follows a stop: a restart starts.
abbrev pub after_stop : Caller → Supervisor → Supervisor
after_stop boots s = succeed boots s
after_stop (controls req) s = succeed (controls req) s
after_stop (restarts req) s = start_dsh (controls req) s

-- The end of `stop`.
unfoldable pub stop_done : Caller → Supervisor → Supervisor
stop_done caller s =
    after_stop caller
      (set_state stopped none (record s { started_at = none; stop_requested = false }))

-- A signal to a child marks it, when it is still the one that is managed.
abbrev pub kill_child : ℕ → Option Child → Option Child
kill_child pid none = none
kill_child pid (some c) = if nat_eq c.pid pid then some (record c { killed = true }) else some c

abbrev pub kill : Signal → ℕ → Supervisor → Supervisor
kill signal pid s =
    if s.host.kill_works
    then tell (signals signal pid) (record s { child = kill_child pid s.child })
    else s

abbrev pub no_stop_text : Text
no_stop_text = text "no stop command configured (set 停止脚本)"

abbrev pub not_stopped_text : Text
not_stopped_text = text "no stop command configured — dsh was not stopped"

abbrev pub run_stop : Caller → Text → Supervisor → Supervisor
run_stop caller script s =
    if not (is_blank script)
    then await (stops_script caller) (tell (runs_stop script) s)
    else if is_running s.state
    then fail caller no_stop_text (set_state running (some not_stopped_text) s)
    else stop_done caller s

abbrev pub stop_child : Caller → Option Child → Supervisor → Supervisor
stop_child caller none s = run_stop caller (expand_command s.config.stop_script (vars s)) s
stop_child caller (some c) s =
    if c.killed
    then run_stop caller (expand_command s.config.stop_script (vars s)) s
    else await (stops_gracefully caller c.pid)
        (kill sigterm c.pid (record s { stop_requested = true }))

unfoldable pub stop_dsh : Caller → Supervisor → Supervisor
stop_dsh caller s =
    let s' = reload_config s in
    let s'' = set_state starting none (record s' { start_token = suc s'.start_token }) in
    stop_child caller s''.child s''

unfoldable pub stop_raced : Caller → ℕ → Bool → Supervisor → Supervisor
stop_raced caller pid graceful s =
    if graceful then stop_done caller s else await (stops_killed caller) (kill sigkill pid s)

-- Some child has exited: the handler takes it for the managed one.
unfoldable pub on_child_exit : Text → Supervisor → Supervisor
on_child_exit detail s =
    let s' = persist_state (record s { child = none }) in
    if s.stop_requested then s' else set_state exited (some detail) s'

unfoldable pub refresh_state : Supervisor → Supervisor
refresh_state s =
    if is_starting s.state
    then s
    else if is_child_running s
    then (if is_running s.state then s else set_state running none s)
    else if has_probe s.config
    then probe_running refreshes s
    else s

abbrev pub no_longer_text : Text
no_longer_text = text "dsh is no longer running"

unfoldable pub refreshed : Bool → Supervisor → Supervisor
refreshed up s =
    if up
    then (if is_running s.state then s else set_state running none s)
    else if is_running s.state
    then set_state exited (some no_longer_text) s
    else s

abbrev pub unowned_text : Text
unowned_text = text "supervisor restarted; dsh ownership unknown (set 状态探测脚本)"

-- `was_running`: daemon-state.json says so of the process before.
unfoldable pub bootstrap : Bool → Supervisor → Supervisor
bootstrap was_running s =
    let s' = reload_config s in
    if not s'.config.enabled
    then set_state unknown none s'
    else if has_probe s'.config
    then probe_running boots_probing s'
    else if was_running && not (is_empty s'.config.child_command)
    then set_state exited (some unowned_text) s'
    else start_dsh boots s'

unfoldable pub boot_probed : Bool → Supervisor → Supervisor
boot_probed up s = if up then set_state running none s else start_dsh boots s

abbrev pub action_of : Text → Option DaemonAction
action_of action =
    if text_eq action (text "start")
    then some DaemonAction.start
    else if text_eq action (text "stop")
    then some DaemonAction.stop
    else if text_eq action (text "restart")
    then some DaemonAction.restart
    else none

abbrev pub act : DaemonAction → Request → Supervisor → Supervisor
act DaemonAction.start req s = start_dsh (controls req) s
act DaemonAction.stop req s = stop_dsh (controls req) s
act DaemonAction.restart req s = stop_dsh (restarts req) s

abbrev pub handle_action : Option DaemonAction → Request → Text → Supervisor → Supervisor
handle_action none req action s = reply req (unsupported (text "unsupported action " ++ action)) s
handle_action (some a) req action s =
    act a req (record s { last_action = action; last_action_at = s.host.now })

-- A request comes on the socket that is open.
unfoldable pub handle_control : Text → Text → Supervisor → Supervisor
handle_control id action s =
    handle_action (action_of action) (record { socket = s.socket; id = id }) action s

-- What a task does with the answer that it awaits; none for an answer of another kind.
unfoldable pub resume : Task → Answer → Supervisor → Option Supervisor
resume (starts_probing caller) (ran res) s = some (start_probed caller (is_zero res.code) s)
resume (starts_script caller token) (ran res) s = some (start_ran caller token res s)
resume (waits_ready token child_mode left) woken s = some (ready_woken token child_mode left s)
resume (waits_probe token child_mode left) (ran res) s =
    some (ready_probed token child_mode left (is_zero res.code) s)
resume (stops_gracefully caller pid) (raced graceful) s = some (stop_raced caller pid graceful s)
resume (stops_killed caller) (raced exited_in_time) s = some (stop_done caller s)
resume (stops_script caller) (ran res) s = some (stop_done caller s)
resume refreshes (ran res) s = some (refreshed (is_zero res.code) s)
resume boots_probing (ran res) s = some (boot_probed (is_zero res.code) s)
resume _ _ s = none
