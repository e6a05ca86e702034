-- ===== src/Supervisor/Revival.antt =====
-- A dsh that has exited is not started again by plugins/dsh-gateway-agent/src/daemon.js itself.
use deepseek_harness_gateway.Common.{
  ℕ, ◌+◌, ◌≤◌, ◌≡◌, refl, Option, none, some, List, [], ◌∷◌, arith,
}
use deepseek_harness_gateway.Common.Text.{Text}
use deepseek_harness_gateway.Supervisor.State.{
  DaemonAction, Host, Caller, restarts, Task, starts_probing, stops_gracefully, stops_killed,
  stops_script, boots_probing, Supervisor, new_supervisor, Effect, spawns, runs_start,
}
use deepseek_harness_gateway.Supervisor.{action_of}
use deepseek_harness_gateway.Supervisor.Run.{
  Event, resumes, exits, ticks, requests, begins, registers, closes, changes, run,
}
use deepseek_harness_gateway.Supervisor.Budget.{Budget, spent}
use deepseek_harness_gateway.Supervisor.Costs.{allowed, cost, summed, run-measure}

abbrev pub launches : Effect → ℕ
launches (spawns argv) = 1
launches (runs_start script) = 1
launches _ = 0

-- How often dsh has been launched.
abbrev pub launched : List Effect → ℕ
launched [] = 0
launched (e ∷ es) = launches e + launched es

abbrev pub goes_on : Caller → ℕ
goes_on (restarts id) = 1
goes_on _ = 0

-- The tasks that may launch dsh.
abbrev pub may_launch : Task → ℕ
may_launch (starts_probing caller) = 1
may_launch boots_probing = 1
may_launch (stops_gracefully caller pid) = goes_on caller
may_launch (stops_killed caller) = goes_on caller
may_launch (stops_script caller) = goes_on caller
may_launch _ = 0

-- What asks for a launch: a start, a restart, or the start of the process.
abbrev pub wants : Option DaemonAction → ℕ
wants (some DaemonAction.start) = 1
wants (some DaemonAction.restart) = 1
wants _ = 0

abbrev pub asks_launch : Event → ℕ
asks_launch (requests id action) = wants (action_of action)
asks_launch (begins was_running) = 1
asks_launch _ = 0

abbrev pub launches_asked : List Event → ℕ
launches_asked [] = 0
launches_asked (e ∷ es) = asks_launch e + launches_asked es

abbrev launchings : Budget
launchings = record {
  task = may_launch;
  effect = launches;
  tick = 0;
  readying = 0;
  launching = 1;
  starting_up = 1;
  booting = 1;
  looking = 0;
  going_on = goes_on;
  stopping = goes_on;
  persists_free = λ state error. refl;
  beats_free = λ state action on. refl;
  controls_alike = λ req. refl;
  restarts_alike = λ req. refl;
  replies_free = λ id reply. refl;
  probes_free = λ script. refl;
  runs_stop_free = λ script. refl;
  signals_free = λ signal pid. refl;
  readied = λ token child_mode. omega arith;
  spawned = λ argv. omega arith;
  script_run = λ script caller token. omega arith;
  script_done = λ caller token. omega arith;
  waited = λ token child_mode left. omega arith;
  tried = λ token child_mode left. omega arith;
  tried_last = λ token child_mode. omega arith;
  launch_probed = λ caller. omega arith;
  start_probes = λ caller. omega arith;
  start_launches = omega arith;
  boot_probed = omega arith;
  boot_probes = omega arith;
  boot_starts = omega arith;
  looked = omega arith;
  look_probes = omega arith;
  restarted = λ id. omega arith;
  killed_on = λ caller. omega arith;
  ran_on = λ caller. omega arith;
  raced_on = λ caller pid. omega arith;
  stop_goes_on = λ caller. omega arith;
  stop_runs = λ caller. omega arith;
  stop_races = λ caller pid. omega arith;
}

allowed-wants : (a : Option DaemonAction) (id : Text) → allowed launchings a id ≡ wants a
allowed-wants none id = refl
allowed-wants (some DaemonAction.start) id = refl
allowed-wants (some DaemonAction.stop) id = refl
allowed-wants (some DaemonAction.restart) id = refl

cost-launches_asked : (es : List Event) → summed launchings (cost launchings) es ≡ launches_asked es
cost-launches_asked [] = refl
cost-launches_asked (requests id action ∷ es) =
    ground (arith, allowed-wants (action_of action) id, cost-launches_asked es)
cost-launches_asked (resumes k a ∷ es) = ground (arith, cost-launches_asked es)
cost-launches_asked (exits detail ∷ es) = ground (arith, cost-launches_asked es)
cost-launches_asked (ticks ∷ es) = ground (arith, cost-launches_asked es)
cost-launches_asked (begins was_running ∷ es) = ground (arith, cost-launches_asked es)
cost-launches_asked (registers ∷ es) = ground (arith, cost-launches_asked es)
cost-launches_asked (closes ∷ es) = ground (arith, cost-launches_asked es)
cost-launches_asked (changes host ∷ es) = ground (arith, cost-launches_asked es)

spent-launched : (es : List Effect) → spent launches es ≡ launched es
spent-launched [] = refl
spent-launched (e ∷ es) = ground (arith, spent-launched es)

-- dsh is launched, by its command or by its start script, only when it is asked for: at most once for
-- each start or restart request and each start of the supervisor. The exit of dsh, the probe timer
-- and the readiness waits never launch it again.
pub launched-le-asked :
    (host : Host) (es : List Event) (after : Supervisor)
    → run es (new_supervisor host) ≡ some after
    → launched after.effects ≤ launches_asked es
launched-le-asked host es after h = ground (
  arith,
  run-measure launchings es (new_supervisor host) after h,
  cost-launches_asked es,
  spent-launched after.effects,
)
