-- ===== src/Supervisor/Start.antt =====
-- `start` and the readiness wait of plugins/dsh-gateway-agent/src/daemon.js, up to each `await`, and
-- how a control request is answered.
use deepseek_harness_gateway.Common.{
  ℕ, zero, suc, ◌*◌, Bool, false, not, ◌&&◌, ◌||◌, none, some, List, [], ◌∷◌, ◌++◌, nat_eq,
  if◌then◌else◌,
}
use deepseek_harness_gateway.Common.Text.{Text, text}
use deepseek_harness_gateway.Common.Split.{decimal, trim}
use deepseek_harness_gateway.Supervisor.Commands.{expand_command, split_command}
use deepseek_harness_gateway.Supervisor.State.{
  starting, running, exited, Caller, boots, controls, restarts, Task, starts_probing, starts_script,
  waits_ready, waits_probe, ScriptResult, Request, reply, is_zero, exit_code_text, done, failed,
  spawns, probes, runs_start, Supervisor, is_blank, is_empty, tell, await, reload_config, vars,
  persist_state, set_state, is_child_running, has_probe,
}

abbrev pub ready_attempts : ℕ
ready_attempts = 120

abbrev pub ready_interval_ms : ℕ
ready_interval_ms = 500

-- The status script is started; `t` stands at its end.
abbrev pub probe_running : Task → Supervisor → Supervisor
probe_running t s = await t (tell (probes (expand_command s.config.status_script (vars s))) s)

abbrev pub finish : Request → Supervisor → Supervisor
finish req s = reply req (done s.state) s

-- The end of handleControl, when the action has given a state, and its catch.
abbrev pub succeed : Caller → Supervisor → Supervisor
succeed boots s = s
succeed (controls req) s = finish req (set_state s.state none s)
succeed (restarts req) s = finish req (set_state s.state none s)

abbrev pub report : Request → Text → Supervisor → Supervisor
report req message s =
    reply req (failed message s.state) (persist_state (record s { last_error = some message }))

abbrev pub fail : Caller → Text → Supervisor → Supervisor
fail boots message s = s
fail (controls req) message s = report req message s
fail (restarts req) message s = report req message s

-- waitReady up to its first sleep.
unfoldable pub arm_readiness : ℕ → Supervisor → Supervisor
arm_readiness token s =
    let child_mode = not (is_empty s.config.child_command) in
    if has_probe s.config
    then await (waits_ready token child_mode 119) s
    else if not child_mode || is_child_running s
    then set_state running none s
    else s

abbrev pub not_ready_text : Text
not_ready_text =
    text "dsh did not come up within "
    ++ (decimal (ready_attempts * ready_interval_ms) ++ text "ms")

-- The end of a turn of waitReady's loop without an answer.
abbrev pub ready_again : ℕ → Bool → ℕ → Supervisor → Supervisor
ready_again token child_mode zero s =
    if nat_eq token s.start_token then set_state exited (some not_ready_text) s else s
ready_again token child_mode (suc left) s = await (waits_ready token child_mode left) s

unfoldable pub ready_woken : ℕ → Bool → ℕ → Supervisor → Supervisor
ready_woken token child_mode left s =
    if not (nat_eq token s.start_token)
    then s
    else if child_mode && not (is_child_running s)
    then s
    else if has_probe s.config
    then probe_running (waits_probe token child_mode left) s
    else ready_again token child_mode left s

unfoldable pub ready_probed : ℕ → Bool → ℕ → Bool → Supervisor → Supervisor
ready_probed token child_mode left up s =
    if up then set_state running none s else ready_again token child_mode left s

-- `start` when dsh is not running.
abbrev pub spawn_child : Caller → ℕ → List Text → Supervisor → Supervisor
spawn_child caller token [] s = fail caller (text "child command is empty") s
spawn_child caller token (file ∷ args) s = succeed caller (
    arm_readiness token (
      tell (spawns (file ∷ args)) (record s {
        child = some (record { pid = s.next_pid; killed = false });
        next_pid = suc s.next_pid;
        started_at = some s.host.now;
      })))

abbrev pub no_start_text : Text
no_start_text = text "no start command configured (set 启动脚本 or 子进程命令)"

abbrev pub run_start : Caller → ℕ → Text → Supervisor → Supervisor
run_start caller token script s =
    if is_blank script
    then fail caller no_start_text s
    else await (starts_script caller token) (tell (runs_start script) s)

abbrev pub begin_start : Caller → ℕ → Supervisor → Supervisor
begin_start caller token s =
    let v = vars s in
    if is_empty s.config.child_command
    then run_start caller token (expand_command s.config.start_script v) s
    else spawn_child caller token (split_command (expand_command s.config.child_command v)) s

unfoldable pub launch : Caller → Supervisor → Supervisor
launch caller s =
    let token = suc s.start_token in
    begin_start caller token (set_state starting none (record s { start_token = token }))

-- `||`
abbrev pub or_text : Text → Text → Text
or_text [] t = t
or_text (c ∷ s) t = c ∷ s

unfoldable pub start_failed_text : ScriptResult → Text
start_failed_text res =
    text "start script failed (exit "
    ++ (exit_code_text res.code ++ (text "): " ++ or_text (trim res.stderr) (trim res.stdout)))

unfoldable pub start_ran : Caller → ℕ → ScriptResult → Supervisor → Supervisor
start_ran caller token res s =
    if is_zero res.code
    then succeed caller (arm_readiness token (record s { started_at = some s.host.now }))
    else let message = start_failed_text res in
      fail caller message (set_state exited (some message) s)

abbrev pub disabled_text : Text
disabled_text = text "daemon supervision is disabled in the machine settings"

unfoldable pub start_dsh : Caller → Supervisor → Supervisor
start_dsh caller s =
    let s' = record (reload_config s) { stop_requested = false } in
    if not s'.config.enabled
    then fail caller disabled_text s'
    else if is_child_running s'
    then succeed caller s'
    else if has_probe s'.config
    then probe_running (starts_probing caller) s'
    else launch caller s'

unfoldable pub start_probed : Caller → Bool → Supervisor → Supervisor
start_probed caller up s = if up then succeed caller (set_state running none s) else launch caller s
