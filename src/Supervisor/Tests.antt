-- ===== src/Supervisor/Tests.antt =====
-- Runs of plugins/dsh-gateway-agent/src/daemon.js.
use deepseek_harness_gateway.Common.{
  ℕ, ◌+◌, ◌*◌, ◌≤◌, ◌≡◌, refl, Bool, true, false, Option, none, some, List, [], ◌∷◌,
}
use deepseek_harness_gateway.Common.Text.{text, text_eq}
use deepseek_harness_gateway.Common.Split.{trim, trim_start}
use deepseek_harness_gateway.Common.Dict.{get}
use deepseek_harness_gateway.Supervisor.State.{
  Request, exit_code, Caller, Task, Host, ScriptResult, woken, ran, raced, is_starting, Supervisor,
  new_supervisor, reload_config, persist_state, heartbeat_now, set_state, is_child_running,
}
use deepseek_harness_gateway.Supervisor.Commands.{expand_command, split_command}
use deepseek_harness_gateway.Supervisor.Start.{
  arm_readiness, ready_woken, ready_probed, launch, start_dsh, start_probed,
}
use deepseek_harness_gateway.Supervisor.{
  stop_done, stop_dsh, stop_raced, on_child_exit, handle_control, resume,
}
use deepseek_harness_gateway.Supervisor.Run.{
  Event, resumes, exits, requests, registers, closes, step, run,
}
use deepseek_harness_gateway.Supervisor.Ends.{load, resumptions, others, run-resumptions}
use deepseek_harness_gateway.Supervisor.Drain.{drain}
use deepseek_harness_gateway.Supervisor.Owners.{CanStart, rests}
use deepseek_harness_gateway.Supervisor.Settles.{at_rest-rests, drain-settles}
use deepseek_harness_gateway.Supervisor.Debts.{answered, owed}
use deepseek_harness_gateway.Supervisor.Replies.{asked, replies_once}
use deepseek_harness_gateway.Supervisor.Revival.{launched, launches_asked, launched-le-asked}
use deepseek_harness_gateway.Supervisor.Faults.{ClaimsStopped, NoStopScript, stop_dsh-ClaimsStopped}

expands :
    expand_command (text "run {port} {nope} {{port}") ((text "port", text "80") ∷ [])
    ≡ text "run 80 {nope} {80"
unfolding expand_command get text_eq
expands = refl

splits : split_command (text " a 'b c'\"d\"  e''") ≡ text "a" ∷ text "b cd" ∷ text "e" ∷ []
unfolding split_command
splits = refl

abbrev host : Host
host = record {
  daemon = record {
    enabled = true;
    child_command = text "dsh web";
    start_script = [];
    stop_script = [];
    status_script = text "probe";
  };
  dsh_port = text "3080";
  home = text "/h/dsh-gateway-agent";
  dsh_home = text "/h";
  now = text "2025-01-01";
  kill_works = true;
}

abbrev code : ℕ → ScriptResult
code n = record { code = exit_code n; stdout = []; stderr = [] }

-- A start whose probe fails at first and passes once dsh is up; a stop, on which dsh exits.
abbrev start_and_stop : List Event
start_and_stop =
    requests (text "r1") (text "start")
    ∷ resumes 0 (ran (code 1))
    ∷ resumes 0 woken
    ∷ resumes 0 (ran (code 0))
    ∷ requests (text "r2") (text "stop")
    ∷ exits (text "code=0")
    ∷ resumes 0 (raced true)
    ∷ []

abbrev is_quiet : Option Supervisor → Bool
is_quiet none = false
is_quiet (some s) = elim s.tasks [ [] ↦ true | t ∷ ts ↦ false ]

no_tasks : (ts : List Task) → elim ts [ [] ↦ true | u ∷ us ↦ false ] ≡ true → ts ≡ []
no_tasks [] h = refl
no_tasks (t ∷ ts) h = cc

outcome :
    (o : Option Supervisor) → is_quiet o ≡ true → (s : Supervisor) × (o ≡ some s) × (s.tasks ≡ [])
outcome none h = cc
outcome (some s) h = (s, refl, no_tasks s.tasks h)

quiet : is_quiet (run start_and_stop (new_supervisor host)) ≡ true
unfolding run step resume handle_control start_dsh start_probed launch arm_readiness ready_woken
    ready_probed stop_dsh stop_raced stop_done on_child_exit set_state persist_state heartbeat_now
    reload_config is_child_running expand_command split_command trim trim_start text_eq
quiet = refl

after : (s : Supervisor) × (run start_and_stop (new_supervisor host) ≡ some s) × (s.tasks ≡ [])
after = outcome (run start_and_stop (new_supervisor host)) quiet

can_start : CanStart host.daemon
unfolding expand_command split_command
can_start v = refl

no_stop_script : NoStopScript host.daemon
unfolding expand_command trim trim_start
no_stop_script v = refl

run-resumptions_example :
    resumptions start_and_stop + load after.0.tasks ≤ load [] + 244 * others start_and_stop
run-resumptions_example = run-resumptions start_and_stop (new_supervisor host) after.0 after.1

at_rest-rests_example : rests host.daemon after.0.start_token after.0.state ≡ true
at_rest-rests_example =
    at_rest-rests host start_and_stop after.0 can_start (tt, (tt, (tt, (tt, (tt, (tt, (tt, tt)))))))
      after.1 after.2

replies_once_example :
    answered (text "r1") after.0.effects + owed (text "r1") after.0.socket after.0.tasks
    ≡ 0 + asked (text "r1") start_and_stop
replies_once_example =
    replies_once (text "r1") start_and_stop (new_supervisor host) after.0
      (tt, (tt, (tt, (tt, (tt, (tt, (tt, tt))))))) after.1

launched-le-asked_example : launched after.0.effects ≤ launches_asked start_and_stop
launched-le-asked_example = launched-le-asked host start_and_stop after.0 after.1

idle : is_child_running (new_supervisor host) ≡ false
unfolding is_child_running
idle = refl

abbrev stop_request : Request
stop_request = record { socket = 0; id = text "r" }

stop_dsh-ClaimsStopped_example :
    ClaimsStopped stop_request
      (new_supervisor host)
      (stop_dsh (Caller.controls stop_request) (new_supervisor host))
stop_dsh-ClaimsStopped_example =
    stop_dsh-ClaimsStopped stop_request (new_supervisor host) refl idle no_stop_script

-- A reply to a request whose socket has closed is not sent.
abbrev start_and_close : List Event
start_and_close =
    requests (text "r1") (text "start") ∷ closes ∷ registers ∷ resumes 0 (ran (code 0)) ∷ []

abbrev replies_of : Option Supervisor → ℕ
replies_of none = 9
replies_of (some s) = answered (text "r1") s.effects + owed (text "r1") s.socket s.tasks

not_sent : replies_of (run start_and_close (new_supervisor host)) ≡ 0
unfolding run step resume handle_control start_dsh start_probed launch arm_readiness set_state
    persist_state heartbeat_now reload_config is_child_running expand_command split_command trim
    trim_start text_eq
not_sent = refl

abbrev start_only : List Event
start_only = requests (text "r1") (text "start") ∷ []

abbrev is_there : Option Supervisor → Bool
is_there none = false
is_there (some s) = true

reached : (o : Option Supervisor) → is_there o ≡ true → (s : Supervisor) × (o ≡ some s)
reached none h = cc
reached (some s) h = (s, refl)

-- The probe of a start is running.
probing : (s : Supervisor) × (run start_only (new_supervisor host) ≡ some s)
unfolding run step
probing = reached (run start_only (new_supervisor host)) refl

abbrev passes : ℕ → ScriptResult
passes n = code 0

abbrev exits_in_time : ℕ → Bool
exits_in_time n = true

drain-settles_example :
    ((drain passes exits_in_time (load probing.0.tasks) probing.0).tasks ≡ [])
    × (is_starting (drain passes exits_in_time (load probing.0.tasks) probing.0).state ≡ false)
drain-settles_example =
    drain-settles host start_only probing.0 passes exits_in_time can_start (tt, tt) probing.1
