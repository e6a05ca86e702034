-- ===== src/Supervisor/State.antt =====
-- The fields of Supervisor (plugins/dsh-gateway-agent/src/daemon.js), the places where its
-- asynchronous methods await something, and what the machine around it holds.
use deepseek_harness_gateway.Common.{
  ℕ, Bool, true, false, not, Option, none, some, List, [], ◌∷◌, nat_eq, if◌then◌else◌,
}
use deepseek_harness_gateway.Common.Text.{Text, text}
use deepseek_harness_gateway.Common.Split.{decimal, trim}
use deepseek_harness_gateway.Common.Dict.{Dict}

pub data DaemonState : Type 0 where
  unknown starting running stopped exited : DaemonState

abbrev pub is_starting : DaemonState → Bool
is_starting starting = true
is_starting _ = false

abbrev pub is_running : DaemonState → Bool
is_running running = true
is_running _ = false

pub data DaemonAction : Type 0 where
  start stop restart : DaemonAction

-- What daemon.json says of the lifecycle; a command that is not set is empty.
pub record DaemonConfig : Type 0 where
  pub enabled : Bool
  pub child_command : Text
  pub start_script : Text
  pub stop_script : Text
  pub status_script : Text

-- What the process reads from outside: daemon.json, the machine's settings, the clock, and whether a
-- signal can be sent to the child.
pub record Host : Type 0 where
  pub daemon : DaemonConfig
  pub dsh_port : Text
  pub home : Text
  pub dsh_home : Text
  pub now : Text
  pub kill_works : Bool

-- A child process that has not exited.
pub record Child : Type 0 where
  pub pid : ℕ
  pub killed : Bool

-- A control request: its id, and the socket it came on.
pub record Request : Type 0 where
  pub socket : ℕ
  pub id : Text

-- Who waits for a start or a stop: bootstrap, a control request, or the stop of a restart request.
pub data Caller : Type 0 where
  boots : Caller
  controls : Request → Caller
  restarts : Request → Caller

-- An `await` at which a method stands. A readiness wait has its token, whether it is in child mode,
-- and the attempts that are left after this one.
pub data Task : Type 0 where
  starts_probing : Caller → Task
  starts_script : Caller → ℕ → Task
  waits_ready : ℕ → Bool → ℕ → Task
  waits_probe : ℕ → Bool → ℕ → Task
  stops_gracefully : Caller → ℕ → Task
  stops_killed : Caller → Task
  stops_script : Caller → Task
  refreshes : Task
  boots_probing : Task

-- The exit code of a script: `failed_to_run` is the -1 of a script that timed out, was killed or could
-- not be run.
pub data ExitCode : Type 0 where
  exit_code : ℕ → ExitCode
  failed_to_run : ExitCode

abbrev pub is_zero : ExitCode → Bool
is_zero (exit_code n) = nat_eq n 0
is_zero failed_to_run = false

abbrev pub exit_code_text : ExitCode → Text
exit_code_text (exit_code n) = decimal n
exit_code_text failed_to_run = text "-1"

-- The end of a script.
pub record ScriptResult : Type 0 where
  pub code : ExitCode
  pub stdout : Text
  pub stderr : Text

-- What an `await` gives: a timer, a script, or whether the child exited before the timer.
pub data Answer : Type 0 where
  woken : Answer
  ran : ScriptResult → Answer
  raced : Bool → Answer

pub data Signal : Type 0 where
  sigterm sigkill : Signal

pub data Reply : Type 0 where
  unsupported : Text → Reply
  done : DaemonState → Reply
  failed : Text → DaemonState → Reply

-- What the supervisor does to the world around it; `replies` is a message that is sent.
pub data Effect : Type 0 where
  spawns : List Text → Effect
  probes : Text → Effect
  runs_start : Text → Effect
  runs_stop : Text → Effect
  signals : Signal → ℕ → Effect
  persists : DaemonState → Option Text → Effect
  beats : DaemonState → Text → Bool → Effect
  replies : Text → Reply → Effect

-- `effects` has the newest first. `beating` is `beat`: there is a socket to send heartbeats to.
-- `socket` numbers the sockets: those of lower numbers have closed. `next_pid` numbers the children.
pub record Supervisor : Type 0 where
  pub host : Host
  pub config : DaemonConfig
  pub child : Option Child
  pub next_pid : ℕ
  pub state : DaemonState
  pub last_error : Option Text
  pub last_action : Text
  pub last_action_at : Text
  pub started_at : Option Text
  pub stop_requested : Bool
  pub start_token : ℕ
  pub beating : Bool
  pub socket : ℕ
  pub tasks : List Task
  pub effects : List Effect

abbrev pub new_supervisor : Host → Supervisor
new_supervisor host = record {
  host = host;
  config = host.daemon;
  child = none;
  next_pid = 1;
  state = unknown;
  last_error = none;
  last_action = [];
  last_action_at = [];
  started_at = none;
  stop_requested = false;
  start_token = 0;
  beating = false;
  socket = 0;
  tasks = [];
  effects = [];
}

abbrev pub is_blank : Text → Bool
is_blank s = elim (trim s) [ [] ↦ true | c ∷ t ↦ false ]

abbrev pub is_empty : Text → Bool
is_empty [] = true
is_empty _ = false

abbrev pub tell : Effect → Supervisor → Supervisor
tell e s = record s { effects = e ∷ s.effects }

abbrev pub await : Task → Supervisor → Supervisor
await t s = record s { tasks = t ∷ s.tasks }

unfoldable pub reload_config : Supervisor → Supervisor
reload_config s = record s { config = s.host.daemon }

abbrev pub pid_text : Option Child → Text
pid_text none = []
pid_text (some c) = decimal c.pid

unfoldable pub vars : Supervisor → Dict Text Text
vars s =
    (text "port", s.host.dsh_port)
    ∷ (text "dshPort", s.host.dsh_port)
    ∷ (text "home", s.host.home)
    ∷ (text "dshHome", s.host.dsh_home)
    ∷ (text "pid", pid_text s.child)
    ∷ []

-- A reply is sent while the socket of its request is open.
abbrev pub reply : Request → Reply → Supervisor → Supervisor
reply req r s = if nat_eq req.socket s.socket then tell (replies req.id r) s else s

unfoldable pub persist_state : Supervisor → Supervisor
persist_state s = tell (persists s.state s.last_error) s

-- The heartbeat reads daemon.json again.
unfoldable pub heartbeat_now : Supervisor → Supervisor
heartbeat_now s =
    if s.beating
    then tell (beats s.state s.last_action s.host.daemon.enabled) (reload_config s)
    else s

unfoldable pub set_state : DaemonState → Option Text → Supervisor → Supervisor
set_state state error s =
    heartbeat_now (persist_state (record s { state = state; last_error = error }))

abbrev pub running_child : Option Child → Bool
running_child none = false
running_child (some c) = not c.killed

unfoldable pub is_child_running : Supervisor → Bool
is_child_running s = running_child s.child

-- Whether there is a status script to probe with: `probeRunning` answers null when there is none.
abbrev pub has_probe : DaemonConfig → Bool
has_probe config = not (is_blank config.status_script)
