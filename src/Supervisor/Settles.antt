-- ===== src/Supervisor/Settles.antt =====
-- When nothing is awaited any more, the supervisor of plugins/dsh-gateway-agent/src/daemon.js does
-- not say `starting`.
use deepseek_harness_gateway.Common.{
  ℕ, suc, arith, ◌≡◌, refl, sym, ap, ◌∙◌, Bool, true, false, Option, none, some, List, [],
  Bool-cases, inl, inr,
}
use deepseek_harness_gateway.Common.Text.{Text}
use deepseek_harness_gateway.Common.Lists.{any, All}
use deepseek_harness_gateway.Supervisor.State.{
  DaemonState, unknown, starting, running, stopped, exited, Request, DaemonAction, is_starting,
  DaemonConfig, Host, controls, restarts, Task, starts_probing, refreshes, boots_probing,
  ScriptResult, Supervisor, new_supervisor, await, heartbeat_now, running_child,
}
use deepseek_harness_gateway.Supervisor.{act, action_of, handle_action, handle_control}
use deepseek_harness_gateway.Supervisor.Run.{
  Event, resumes, exits, ticks, requests, begins, registers, closes, changes, step, run, run-keeps,
  from_some,
}
use deepseek_harness_gateway.Supervisor.Picks.{Picked, step-Resumed}
use deepseek_harness_gateway.Supervisor.Resumption.{
  Resumption, probed_start, ran_start, woken_ready, probed_ready, raced_stop, killed_stop, ran_stop,
  probed_refresh, probed_boot,
}
use deepseek_harness_gateway.Supervisor.Owners.{
  CanStart, Keeps, is_stop, owner, rests, absurd, Owned, drop-Owned, logged, if-Owned, reply-Owned,
}
use deepseek_harness_gateway.Supervisor.Waits.{ready_woken-Owned, ready_probed-Owned}
use deepseek_harness_gateway.Supervisor.StartOwners.{
  start_ran-Owned, start_dsh-Owned, start_probed-Owned, stop_done-Owned,
}
use deepseek_harness_gateway.Supervisor.Ends.{load}
use deepseek_harness_gateway.Supervisor.Drain.{drain, drain-rest, drain-keeps}
use deepseek_harness_gateway.Supervisor.StopOwners.{
  stop_dsh-Owned, stop_raced-Owned, on_child_exit-Owned, refresh_state-Owned, refreshed-Owned,
  reload-Owned, bootstrap-Owned, boot_probed-Owned,
}

module _ {config : DaemonConfig} (can : CanStart config) where
  act-Owned :
      (a : DaemonAction) (req : Request) (s : Supervisor)
      → Owned config s
      → Owned config (act a req s)
  act-Owned DaemonAction.start req s o = start_dsh-Owned can (controls req) s o
  act-Owned DaemonAction.stop req s o = stop_dsh-Owned can (controls req) s o
  act-Owned DaemonAction.restart req s o = stop_dsh-Owned can (restarts req) s o

  handle_action-Owned :
      (a : Option DaemonAction) (req : Request) (action : Text) (s : Supervisor)
      → Owned config s
      → Owned config (handle_action a req action s)
  handle_action-Owned none req action s o = reply-Owned req _ s o
  handle_action-Owned (some a) req action s o = act-Owned a req _ (renamed o)
    where
      renamed :
          Owned config s
          → Owned config (record s { last_action = action; last_action_at = s.host.now })
      renamed o = record {
        loose = record {
          config_same = o.loose.config_same;
          host_same = o.loose.host_same;
          stop_owned = o.loose.stop_owned;
        };
        start_owned = o.start_owned;
      }

  Resumption-Owned :
      {t : Task} {s after : Supervisor}
      → Resumption t s after
      → Owned config (await t s)
      → Owned config after
  Resumption-Owned (probed_start caller up s) o =
      start_probed-Owned can caller up s (drop-Owned (starts_probing caller) s refl refl o)
  Resumption-Owned (ran_start caller token res s) o = start_ran-Owned can caller token res s o
  Resumption-Owned (woken_ready token child_mode left s) o =
      ready_woken-Owned token child_mode left s o
  Resumption-Owned (probed_ready token child_mode left up s) o =
      ready_probed-Owned token child_mode left up s o
  Resumption-Owned (raced_stop caller pid graceful s) o =
      stop_raced-Owned can caller pid graceful s o.loose.config_same o.loose.host_same
  Resumption-Owned (killed_stop caller s) o =
      stop_done-Owned can caller s o.loose.config_same o.loose.host_same
  Resumption-Owned (ran_stop caller s) o =
      stop_done-Owned can caller s o.loose.config_same o.loose.host_same
  Resumption-Owned (probed_refresh up s) o =
      refreshed-Owned can up s (drop-Owned refreshes s refl refl o)
  Resumption-Owned (probed_boot up s) o =
      boot_probed-Owned can up s (drop-Owned boots_probing s refl refl o)

  Picked-Owned :
      {t : Task} {rest : List Task} (s : Supervisor)
      → Picked s.tasks t rest
      → Owned config s
      → Owned config (await t (record s { tasks = rest }))
  unfolding any
  Picked-Owned s p o = record {
    loose = record {
      config_same = o.loose.config_same;
      host_same = o.loose.host_same;
      stop_owned = λ q. sym (p.any_same is_stop) ∙ o.loose.stop_owned q;
    };
    start_owned = λ q.
        sym (p.any_same (owner config s.start_token (running_child s.child))) ∙ o.start_owned q;
  }

  beating-Owned :
      (on : Bool) (n : ℕ) (s : Supervisor)
      → Owned config s
      → Owned config (record s { beating = on; socket = n })
  beating-Owned on n s o = record {
    loose = record {
      config_same = o.loose.config_same;
      host_same = o.loose.host_same;
      stop_owned = o.loose.stop_owned;
    };
    start_owned = o.start_owned;
  }

  heartbeat_now-Owned : (s : Supervisor) → Owned config s → Owned config (heartbeat_now s)
  unfolding heartbeat_now
  heartbeat_now-Owned s o = if-Owned s.beating _ _ (λ z. logged (reload-Owned can s o)) (λ z. o)

  host-Owned :
      (host : Host) (s : Supervisor)
      → host.daemon ≡ config
      → Owned config s
      → Owned config (record s { host = host })
  host-Owned host s h o = record {
    loose = record {
      config_same = o.loose.config_same;
      host_same = h;
      stop_owned = o.loose.stop_owned;
    };
    start_owned = o.start_owned;
  }

  step-Owned :
      (e : Event) (s after : Supervisor)
      → Keeps config e
      → step e s ≡ some after
      → Owned config s
      → Owned config after
  unfolding step handle_control
  step-Owned (resumes k a) s after ok h o =
      let r = step-Resumed k a s after h in Resumption-Owned r.went_on (Picked-Owned s r.picked o)
  step-Owned (exits detail) s after ok h o =
      from_some (Owned config) _ after h (on_child_exit-Owned can detail s o)
  step-Owned ticks s after ok h o = from_some (Owned config) _ after h (refresh_state-Owned can s o)
  step-Owned (requests id action) s after ok h o =
      from_some (Owned config) _ after h (handle_action-Owned (action_of action) _ action s o)
  step-Owned (begins was_running) s after ok h o =
      from_some (Owned config) _ after h (bootstrap-Owned can was_running s o)
  step-Owned registers s after ok h o =
      from_some (Owned config) _ after h (heartbeat_now-Owned _ (beating-Owned true s.socket s o))
  step-Owned closes s after ok h o =
      from_some (Owned config) _ after h (beating-Owned false (suc s.socket) s o)
  step-Owned (changes host) s after ok h o =
      from_some (Owned config) _ after h (host-Owned host s ok o)

rest-at_rest :
    {config : DaemonConfig} (s : Supervisor)
    → Owned config s
    → s.tasks ≡ []
    → rests config s.start_token s.state ≡ true
unfolding any
rest-at_rest {config = config} s o rest = elim (Bool-cases (rests config s.start_token s.state)) [
  | inl z ↦ z
  | inr z ↦
      absurd
        (sym (o.start_owned z) ∙ ap (any (owner config s.start_token (running_child s.child))) rest)
]

rests-not_starting :
    (config : DaemonConfig) (token : ℕ) (state : DaemonState)
    → rests config token state ≡ true
    → is_starting state ≡ false
rests-not_starting config token starting h = cc
rests-not_starting config token unknown h = refl
rests-not_starting config token running h = refl
rests-not_starting config token stopped h = refl
rests-not_starting config token exited h = refl

run-Owned :
    (host : Host) (es : List Event) (after : Supervisor)
    → CanStart host.daemon
    → All (Keeps host.daemon) es
    → run es (new_supervisor host) ≡ some after
    → Owned host.daemon after
run-Owned host es after can ok h =
    run-keeps (Owned host.daemon) (Keeps host.daemon) (step-Owned can) es (new_supervisor host)
      after ok h
      (record {
        loose = record { config_same = refl; host_same = refl; stop_owned = λ q. absurd (sym q) };
        start_owned = λ q. absurd q;
      })

-- When nothing is awaited any more, the supervisor says `running`, `exited` or `stopped`, whatever
-- requests, exits, probes and restarts of the socket have come, in whatever order: never `starting`,
-- and `unknown` only where supervision is disabled or before the first start or stop has begun.
-- (There is a command to start dsh with, and daemon.json has not been edited since the process began.)
pub at_rest-rests :
    (host : Host) (es : List Event) (after : Supervisor)
    → CanStart host.daemon
    → All (Keeps host.daemon) es
    → run es (new_supervisor host) ≡ some after
    → after.tasks ≡ []
    → rests host.daemon after.start_token after.state ≡ true
at_rest-rests host es after can ok h rest =
    rest-at_rest after (run-Owned host es after can ok h) rest

-- The supervisor settles: from whatever it has come to, if no further event comes, going on with what
-- is awaited ends with nothing awaited and a state that is not `starting`, within as many turns as
-- the tasks weigh and whatever the scripts and the races give; provided that there is a command to
-- start dsh with and that daemon.json has not been edited since the process began.
pub drain-settles :
    (host : Host) (es : List Event) (s : Supervisor) (results : ℕ → ScriptResult) (races : ℕ → Bool)
    → CanStart host.daemon
    → All (Keeps host.daemon) es
    → run es (new_supervisor host) ≡ some s
    → ((drain results races (load s.tasks) s).tasks ≡ [])
      × (is_starting (drain results races (load s.tasks) s).state ≡ false)
drain-settles host es s results races can ok h =
    let empty = drain-rest results races (load s.tasks) s (omega arith) in
    let owned =
      drain-keeps results races (Owned host.daemon) (λ t s' after r o. Resumption-Owned can r o)
        (load s.tasks) s (run-Owned host es s can ok h) in
    (
      empty,
      rests-not_starting host.daemon _ _
          (rest-at_rest (drain results races (load s.tasks) s) owned empty),
    )
