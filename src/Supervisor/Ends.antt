-- ===== src/Supervisor/Ends.antt =====
-- The methods of plugins/dsh-gateway-agent/src/daemon.js come to an end.
use deepseek_harness_gateway.Common.{
  ℕ, suc, ◌+◌, ◌*◌, ◌≤◌, ◌≡◌, refl, Option, none, some, List, [], ◌∷◌, arith,
}
use deepseek_harness_gateway.Common.Text.{Text}
use deepseek_harness_gateway.Supervisor.State.{
  DaemonAction, Task, starts_probing, starts_script, waits_ready, waits_probe, stops_gracefully,
  stops_killed, stops_script, refreshes, boots_probing, Supervisor, Effect,
}
use deepseek_harness_gateway.Supervisor.{action_of}
use deepseek_harness_gateway.Supervisor.Run.{
  Event, resumes, exits, ticks, requests, begins, registers, closes, changes, run,
}
use deepseek_harness_gateway.Supervisor.Picks.{total}
use deepseek_harness_gateway.Supervisor.Resumption.{Resumption}
use deepseek_harness_gateway.Supervisor.Budget.{Budget, spent}
use deepseek_harness_gateway.Supervisor.Costs.{
  allowed, cost, toll, summed, run-measure, Resumption-measure,
}

-- The awaits that a task can come to, itself included, until it ends.
abbrev pub weight : Task → ℕ
weight (starts_probing caller) = 242
weight (starts_script caller token) = 241
weight (waits_ready token child_mode left) = 2 + 2 * left
weight (waits_probe token child_mode left) = 1 + 2 * left
weight (stops_gracefully caller pid) = 244
weight (stops_killed caller) = 243
weight (stops_script caller) = 243
weight refreshes = 1
weight boots_probing = 243

abbrev pub load : List Task → ℕ
load ts = total weight ts

abbrev pub resumptions : List Event → ℕ
resumptions [] = 0
resumptions (resumes k a ∷ es) = suc (resumptions es)
resumptions (_ ∷ es) = resumptions es

-- Control requests, ticks of the probe timer and the rest.
abbrev pub others : List Event → ℕ
others [] = 0
others (resumes k a ∷ es) = others es
others (_ ∷ es) = suc (others es)

abbrev no_effect : Effect → ℕ
no_effect e = 0

abbrev awaits : Budget
awaits = record {
  task = weight;
  effect = no_effect;
  tick = 1;
  readying = 240;
  launching = 241;
  starting_up = 242;
  booting = 243;
  looking = 1;
  going_on = λ caller. 242;
  stopping = λ caller. 244;
  persists_free = λ state error. refl;
  beats_free = λ state action on. refl;
  controls_alike = λ req. refl;
  restarts_alike = λ req. refl;
  replies_free = λ id reply. refl;
  probes_free = λ script. refl;
  runs_stop_free = λ script. refl;
  signals_free = λ signal pid. refl;
  readied = λ token child_mode. omega arith;
  spawned = λ argv. omega arith;
  script_run = λ script caller token. omega arith;
  script_done = λ caller token. omega arith;
  waited = λ token child_mode left. omega arith;
  tried = λ token child_mode left. omega arith;
  tried_last = λ token child_mode. omega arith;
  launch_probed = λ caller. omega arith;
  start_probes = λ caller. omega arith;
  start_launches = omega arith;
  boot_probed = omega arith;
  boot_probes = omega arith;
  boot_starts = omega arith;
  looked = omega arith;
  look_probes = omega arith;
  restarted = λ id. omega arith;
  killed_on = λ caller. omega arith;
  ran_on = λ caller. omega arith;
  raced_on = λ caller pid. omega arith;
  stop_goes_on = λ caller. omega arith;
  stop_runs = λ caller. omega arith;
  stop_races = λ caller pid. omega arith;
}

allowed-le : (a : Option DaemonAction) (id : Text) → allowed awaits a id ≤ 244
allowed-le none id = omega arith
allowed-le (some DaemonAction.start) id = omega arith
allowed-le (some DaemonAction.stop) id = omega arith
allowed-le (some DaemonAction.restart) id = omega arith

cost-le : (es : List Event) → summed awaits (cost awaits) es ≤ 244 * others es
cost-le [] = omega arith
cost-le (resumes k a ∷ es) = ground (arith, cost-le es)
cost-le (exits detail ∷ es) = ground (arith, cost-le es)
cost-le (ticks ∷ es) = ground (arith, cost-le es)
cost-le (requests id action ∷ es) = ground (arith, allowed-le (action_of action) id, cost-le es)
cost-le (begins was_running ∷ es) = ground (arith, cost-le es)
cost-le (registers ∷ es) = ground (arith, cost-le es)
cost-le (closes ∷ es) = ground (arith, cost-le es)
cost-le (changes host ∷ es) = ground (arith, cost-le es)

toll-resumptions : (es : List Event) → summed awaits (toll awaits) es ≡ resumptions es
toll-resumptions [] = refl
toll-resumptions (e ∷ es) = ground (arith, toll-resumptions es)

spent-no_effect : (es : List Effect) → spent no_effect es ≡ 0
spent-no_effect [] = refl
spent-no_effect (e ∷ es) = ground (arith, spent-no_effect es)

pub Resumption-load :
    {t : Task} {s after : Supervisor}
    → Resumption t s after
    → suc (load after.tasks) ≤ load s.tasks + weight t
Resumption-load {s = s} {after = after} r =
    ground
      (arith, Resumption-measure awaits r, spent-no_effect s.effects, spent-no_effect after.effects)

-- Every method of the supervisor comes to an end, however they overlap: what is awaited can be gone
-- on with at most 244 times for each request, tick, exit and other event, beside what was still
-- pending at first (at most 244 times for each task).
pub run-resumptions :
    (es : List Event) (s after : Supervisor)
    → run es s ≡ some after
    → resumptions es + load after.tasks ≤ load s.tasks + 244 * others es
run-resumptions es s after h = ground (
  arith,
  run-measure awaits es s after h,
  cost-le es,
  toll-resumptions es,
  spent-no_effect s.effects,
  spent-no_effect after.effects,
)
