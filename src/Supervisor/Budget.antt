-- ===== src/Supervisor/Budget.antt =====
-- What the methods of plugins/dsh-gateway-agent/src/daemon.js may use up, in a measure of the tasks
-- that they leave and of the effects that they have.
use deepseek_harness_gateway.Common.{ℕ, suc, ◌+◌, ◌≤◌, ◌≡◌, Bool, Option, List, [], ◌∷◌}
use deepseek_harness_gateway.Common.Text.{Text}
use deepseek_harness_gateway.Supervisor.State.{
  DaemonState, Signal, Request, Caller, controls, restarts, Task, starts_probing, starts_script,
  waits_ready, waits_probe, stops_gracefully, stops_killed, stops_script, refreshes, boots_probing,
  Supervisor, Effect, spawns, runs_start, runs_stop, probes, signals, persists, beats, replies,
  Reply,
}
use deepseek_harness_gateway.Supervisor.Picks.{total}

-- A request with this id; a budget does not depend on its socket.
abbrev pub on_first : Text → Request
on_first id = record { socket = 0; id = id }

pub record Budget : Type 0 where
  pub task : Task → ℕ
  pub effect : Effect → ℕ
  -- what going on with a task must use up at least
  pub tick : ℕ
  -- what a readiness wait, a launch, a start, the boot, a look at dsh, a restart after its stop and a stop may use up
  pub readying : ℕ
  pub launching : ℕ
  pub starting_up : ℕ
  pub booting : ℕ
  pub looking : ℕ
  pub going_on : Caller → ℕ
  pub stopping : Caller → ℕ
  pub persists_free :
      (state : DaemonState) (error : Option Text) → effect (persists state error) ≡ 0
  pub beats_free :
      (state : DaemonState) (action : Text) (on : Bool) → effect (beats state action on) ≡ 0
  pub replies_free : (id : Text) (reply : Reply) → effect (replies id reply) ≡ 0
  pub probes_free : (script : Text) → effect (probes script) ≡ 0
  pub runs_stop_free : (script : Text) → effect (runs_stop script) ≡ 0
  pub signals_free : (signal : Signal) (pid : ℕ) → effect (signals signal pid) ≡ 0
  pub readied : (token : ℕ) (child_mode : Bool) → task (waits_ready token child_mode 119) ≤ readying
  pub spawned : (argv : List Text) → effect (spawns argv) + readying ≤ launching
  pub script_run :
      (script : Text) (caller : Caller) (token : ℕ)
      → effect (runs_start script) + task (starts_script caller token) ≤ launching
  pub script_done :
      (caller : Caller) (token : ℕ) → tick + readying ≤ task (starts_script caller token)
  pub waited :
      (token : ℕ) (child_mode : Bool) (left : ℕ)
      → tick + task (waits_probe token child_mode left) ≤ task (waits_ready token child_mode left)
  pub tried :
      (token : ℕ) (child_mode : Bool) (left : ℕ)
      → tick + task (waits_ready token child_mode left)
        ≤ task (waits_probe token child_mode (suc left))
  pub tried_last : (token : ℕ) (child_mode : Bool) → tick ≤ task (waits_probe token child_mode 0)
  pub launch_probed : (caller : Caller) → tick + launching ≤ task (starts_probing caller)
  pub start_probes : (caller : Caller) → task (starts_probing caller) ≤ starting_up
  pub start_launches : launching ≤ starting_up
  pub boot_probed : tick + starting_up ≤ task boots_probing
  pub boot_probes : task boots_probing ≤ booting
  pub boot_starts : starting_up ≤ booting
  pub looked : tick ≤ task refreshes
  pub look_probes : task refreshes ≤ looking
  pub controls_alike :
      (req : Request) → stopping (controls req) ≡ stopping (controls (on_first req.id))
  pub restarts_alike :
      (req : Request) → stopping (restarts req) ≡ stopping (restarts (on_first req.id))
  pub restarted : (req : Request) → starting_up ≤ going_on (restarts req)
  pub killed_on : (caller : Caller) → tick + going_on caller ≤ task (stops_killed caller)
  pub ran_on : (caller : Caller) → tick + going_on caller ≤ task (stops_script caller)
  pub raced_on :
      (caller : Caller) (pid : ℕ)
      → tick + task (stops_killed caller) ≤ task (stops_gracefully caller pid)
  pub stop_goes_on : (caller : Caller) → going_on caller ≤ stopping caller
  pub stop_runs : (caller : Caller) → task (stops_script caller) ≤ stopping caller
  pub stop_races :
      (caller : Caller) (pid : ℕ) → task (stops_gracefully caller pid) ≤ stopping caller

abbrev pub spent : (Effect → ℕ) → List Effect → ℕ
spent f [] = 0
spent f (e ∷ es) = f e + spent f es

abbrev pub measure : Budget → Supervisor → ℕ
measure b s = spent b.effect s.effects + total b.task s.tasks
