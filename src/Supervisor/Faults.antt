-- ===== src/Supervisor/Faults.antt =====
-- A stop of plugins/dsh-gateway-agent/src/daemon.js that has nothing to stop dsh with.
use deepseek_harness_gateway.Common.{
  suc, nat_eq, Bool, Bool-cases, inl, inr, ◌≡◌, refl, sym, ap, subst, ◌∙◌, true, false, Option,
  none, some, List, [], ◌∷◌, arith,
}
use deepseek_harness_gateway.Common.Text.{Text}
use deepseek_harness_gateway.Common.Lists.{filter}
use deepseek_harness_gateway.Common.Dict.{Dict}
use deepseek_harness_gateway.Supervisor.State.{
  DaemonState, starting, stopped, DaemonConfig, Child, Request, controls, Effect, persists, beats,
  replies, done, Supervisor, is_blank, is_running, reload_config, vars, persist_state,
  heartbeat_now, set_state, running_child, is_child_running,
}
use deepseek_harness_gateway.Supervisor.Start.{finish}
use deepseek_harness_gateway.Supervisor.Commands.{expand_command}
use deepseek_harness_gateway.Supervisor.{stop_dsh, stop_child, run_stop, stop_done}

-- There is no stop script, whatever the placeholders stand for.
abbrev pub NoStopScript : DaemonConfig → Type 0
NoStopScript config = (v : Dict Text Text) → is_blank (expand_command config.stop_script v) ≡ true

abbrev pub first : List Effect → Option Effect
first [] = none
first (e ∷ es) = some e

-- What reaches dsh: all but the heartbeats, the state file and the replies.
abbrev pub acts_on_dsh : Effect → Bool
acts_on_dsh (persists state error) = false
acts_on_dsh (beats state action on) = false
acts_on_dsh (replies id reply) = false
acts_on_dsh _ = true

-- Nothing was done to dsh: no script, signal, probe or child was started, and none is awaited.
pub record Idle (s after : Supervisor) : Type 0 where
  pub nothing_done : filter acts_on_dsh after.effects ≡ filter acts_on_dsh s.effects
  pub child_same : after.child ≡ s.child
  pub tasks_same : after.tasks ≡ s.tasks
  pub socket_same : after.socket ≡ s.socket

set_state-state :
    (state : DaemonState) (error : Option Text) (s : Supervisor)
    → (set_state state error s).state ≡ state
unfolding set_state persist_state heartbeat_now reload_config
set_state-state state error s = ground arith

set_state-config :
    (state : DaemonState) (error : Option Text) (s : Supervisor)
    → s.config ≡ s.host.daemon
    → (set_state state error s).config ≡ s.host.daemon
unfolding set_state persist_state heartbeat_now reload_config
set_state-config state error s h = ground (arith, h)

set_state-Idle :
    (state : DaemonState) (error : Option Text) (s : Supervisor) → Idle s (set_state state error s)
unfolding set_state persist_state heartbeat_now reload_config filter
set_state-Idle state error s = elim (Bool-cases s.beating) [
  | inl on ↦
      rw on
        (record { nothing_done = refl; child_same = refl; tasks_same = refl; socket_same = refl })
  | inr off ↦
      rw off
        (record { nothing_done = refl; child_same = refl; tasks_same = refl; socket_same = refl })
]

then-Idle : {a b c : Supervisor} → Idle a b → Idle b c → Idle a c
then-Idle p q = record {
  nothing_done = q.nothing_done ∙ p.nothing_done;
  child_same = q.child_same ∙ p.child_same;
  tasks_same = q.tasks_same ∙ p.tasks_same;
  socket_same = q.socket_same ∙ p.socket_same;
}

-- What a stop request without a stop script and without a child answers, and that it did nothing.
abbrev pub ClaimsStopped : Request → Supervisor → Supervisor → Type 0
ClaimsStopped req s after =
    (after.state ≡ stopped)
    × (first after.effects ≡ some (replies req.id (done stopped)))
    × Idle s after

replied-ClaimsStopped :
    (req : Request) (s after : Supervisor)
    → nat_eq req.socket after.socket ≡ true
    → after.state ≡ stopped
    → Idle s after
    → ClaimsStopped req s (finish req after)
unfolding filter
replied-ClaimsStopped req s after same is q = rw same (
  is,
  ap (λ z. some (replies req.id (done z))) is,
  record {
    nothing_done = q.nothing_done;
    child_same = q.child_same;
    tasks_same = q.tasks_same;
    socket_same = q.socket_same;
  },
)

-- `s` is what the supervisor was before, and `now` has done nothing since.
module _ (req : Request) (s : Supervisor) (on_it : req.socket ≡ s.socket) where
  stop_done-ClaimsStopped :
      (now : Supervisor) → Idle s now → ClaimsStopped req s (stop_done (controls req) now)
  unfolding stop_done
  stop_done-ClaimsStopped now q =
      let off : Supervisor = record now { started_at = none; stop_requested = false } in
      let s' = set_state stopped none off in
      let told = set_state s'.state none s' in
      let quiet : Idle s told =
        then-Idle
          (record {
            nothing_done = q.nothing_done;
            child_same = q.child_same;
            tasks_same = q.tasks_same;
            socket_same = q.socket_same;
          })
          (then-Idle (set_state-Idle stopped none off) (set_state-Idle s'.state none s')) in
      replied-ClaimsStopped req s told (ground (arith, on_it, quiet.socket_same))
        (set_state-state s'.state none s' ∙ set_state-state stopped none off) quiet

  run_stop-ClaimsStopped :
      (script : Text) (now : Supervisor)
      → is_blank script ≡ true
      → is_running now.state ≡ false
      → Idle s now
      → ClaimsStopped req s (run_stop (controls req) script now)
  run_stop-ClaimsStopped script now b r q = rw (b, r) (stop_done-ClaimsStopped now q)

  stop_child-ClaimsStopped :
      (c : Option Child) (now : Supervisor)
      → running_child c ≡ false
      → NoStopScript now.config
      → is_running now.state ≡ false
      → Idle s now
      → ClaimsStopped req s (stop_child (controls req) c now)
  stop_child-ClaimsStopped none now idle blank r q =
      run_stop-ClaimsStopped (expand_command now.config.stop_script (vars now)) now
        (blank (vars now)) r q
  stop_child-ClaimsStopped (some c) now idle blank r q =
      let killed : c.killed ≡ true = ground arith in
      rw killed (
        run_stop-ClaimsStopped (expand_command now.config.stop_script (vars now)) now
          (blank (vars now)) r q)

  -- A stop request, on the socket that is open, where no child is running and no stop script is
  -- configured stops nothing: no script, signal, probe or child is started or awaited, and the child
  -- stays what it is. And yet it is answered with `stopped`, whatever the state was: the error for
  -- this case is never given.
  pub stop_dsh-ClaimsStopped :
      is_child_running s ≡ false
      → NoStopScript s.host.daemon
      → ClaimsStopped req s (stop_dsh (controls req) s)
  unfolding stop_dsh reload_config is_child_running
  stop_dsh-ClaimsStopped idle blank =
      let bumped : Supervisor = record (reload_config s) { start_token = suc s.start_token } in
      let s' = set_state starting none bumped in
      let quiet = set_state-Idle starting none bumped in
      stop_child-ClaimsStopped s'.child s' (ap running_child quiet.child_same ∙ idle)
        (subst NoStopScript (sym (set_state-config starting none bumped refl)) blank)
        (ap is_running (set_state-state starting none bumped))
        (record {
          nothing_done = quiet.nothing_done;
          child_same = quiet.child_same;
          tasks_same = quiet.tasks_same;
          socket_same = quiet.socket_same;
        })
