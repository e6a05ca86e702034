-- ===== src/Supervisor/Owners.antt =====
-- The tasks of plugins/dsh-gateway-agent/src/daemon.js that will take the state `starting` away.
use deepseek_harness_gateway.Common.{
  ℕ, ◌≡◌, refl, Bool, true, false, not, ◌&&◌, ◌||◌, Option, none, List, [], ◌∷◌, arith, nat_eq,
  if◌then◌else◌, Bool-cases, inl, inr,
}
use deepseek_harness_gateway.Common.Text.{Text}
use deepseek_harness_gateway.Common.Lists.{any}
use deepseek_harness_gateway.Common.Dict.{Dict}
use deepseek_harness_gateway.Supervisor.State.{
  DaemonState, unknown, starting, running, stopped, exited, Request, Reply, reply, DaemonConfig,
  Caller, boots, controls, restarts, Task, starts_probing, starts_script, waits_ready, waits_probe,
  stops_gracefully, stops_killed, stops_script, refreshes, boots_probing, Supervisor, is_blank,
  is_empty, tell, await, Effect, reload_config, persist_state, heartbeat_now, set_state,
  running_child,
}
use deepseek_harness_gateway.Supervisor.Commands.{expand_command, split_command}
use deepseek_harness_gateway.Supervisor.Start.{succeed, fail}
use deepseek_harness_gateway.Supervisor.Run.{Event, changes}

abbrev pub some_args : List Text → Bool
some_args [] = false
some_args (a ∷ args) = true

-- There is something to start dsh with, whatever the placeholders stand for.
abbrev pub CanStart : DaemonConfig → Type 0
CanStart config =
    (v : Dict Text Text)
    → (if is_empty config.child_command
        then not (is_blank (expand_command config.start_script v))
        else some_args (split_command (expand_command config.child_command v)))
      ≡ true

-- A state to rest in. `unknown` is one where supervision is disabled, and before the first start or stop.
abbrev pub rests : DaemonConfig → ℕ → DaemonState → Bool
rests config token unknown = nat_eq token 0 || not config.enabled
rests config token starting = false
rests config token running = true
rests config token stopped = true
rests config token exited = true

-- daemon.json is not edited.
abbrev pub Keeps : DaemonConfig → Event → Type 0
Keeps config (changes host) = host.daemon ≡ config
Keeps config _ = Unit

abbrev pub is_stop : Task → Bool
is_stop (stops_gracefully caller pid) = true
is_stop (stops_killed caller) = true
is_stop (stops_script caller) = true
is_stop _ = false

-- The tasks that will take the state away from `starting`.
abbrev pub owner : DaemonConfig → ℕ → Bool → Task → Bool
owner config token up (starts_script caller own) = is_empty config.child_command && nat_eq own token
owner config token up (waits_ready own child_mode left) = nat_eq own token && (not child_mode || up)
owner config token up (waits_probe own child_mode left) = nat_eq own token && (not child_mode || up)
owner config token up t = is_stop t

pub not-not : (b : Bool) → not (not b) ≡ b
not-not true = refl
not-not false = refl

pub absurd {ℓ} : {A : Type ℓ} → true ≡ false → A
absurd h = cc

pub stop-owner_one :
    (config : DaemonConfig) (token : ℕ) (up : Bool) (t : Task)
    → is_stop t ≡ true
    → owner config token up t ≡ true
stop-owner_one config token up (starts_probing caller) h = h
stop-owner_one config token up (starts_script caller own) h = cc
stop-owner_one config token up (waits_ready own child_mode left) h = cc
stop-owner_one config token up (waits_probe own child_mode left) h = cc
stop-owner_one config token up (stops_gracefully caller pid) h = h
stop-owner_one config token up (stops_killed caller) h = h
stop-owner_one config token up (stops_script caller) h = h
stop-owner_one config token up refreshes h = h
stop-owner_one config token up boots_probing h = h

pub stop-owner :
    (config : DaemonConfig) (token : ℕ) (up : Bool) (ts : List Task)
    → any is_stop ts ≡ true
    → any (owner config token up) ts ≡ true
unfolding any
stop-owner config token up [] h = cc
stop-owner config token up (t ∷ ts) h =
    ground (arith, stop-owner_one config token up t, stop-owner config token up ts)

-- The configuration is the one of the file, and a stop that was asked for is still going on.
pub record Loose (config : DaemonConfig) (s : Supervisor) : Type 0 where
  pub config_same : s.config ≡ config
  pub host_same : s.host.daemon ≡ config
  pub stop_owned : s.stop_requested ≡ true → any is_stop s.tasks ≡ true

pub record Owned (config : DaemonConfig) (s : Supervisor) : Type 0 where
  pub loose : Loose config s
  pub start_owned :
      rests config s.start_token s.state ≡ false
      → any (owner config s.start_token (running_child s.child)) s.tasks ≡ true

-- A task of the current token is an owner: in child mode when the child runs.
abbrev pub Timely : DaemonConfig → ℕ → Supervisor → Type 0
Timely config token s =
    (nat_eq token s.start_token && (is_empty config.child_command || running_child s.child)) ≡ true

pub set_state-token :
    (state : DaemonState) (error : Option Text) (s : Supervisor)
    → (set_state state error s).start_token ≡ s.start_token
unfolding set_state persist_state heartbeat_now reload_config
set_state-token state error s = ground arith

module _ {config : DaemonConfig} where
  pub if-Owned :
      (b : Bool) (x y : Supervisor)
      → (b ≡ true → Owned config x)
      → (b ≡ false → Owned config y)
      → Owned config (if b then x else y)
  if-Owned true x y f g = f refl
  if-Owned false x y f g = g refl

  pub set_state-Loose :
      (state : DaemonState) (error : Option Text) (s : Supervisor)
      → Loose config s
      → Loose config (set_state state error s)
  unfolding set_state persist_state heartbeat_now reload_config
  set_state-Loose state error s l = elim (Bool-cases s.beating) [
    | inl z ↦
        rw z
          (record { config_same = l.host_same; host_same = l.host_same; stop_owned = l.stop_owned })
    | inr z ↦
        rw z (record {
          config_same = l.config_same;
          host_same = l.host_same;
          stop_owned = l.stop_owned;
        })
  ]

  pub set_state-Owned :
      (state : DaemonState) (error : Option Text) (s : Supervisor)
      → Loose config s
      → (rests config s.start_token state ≡ false
          → any (owner config s.start_token (running_child s.child)) s.tasks ≡ true)
      → Owned config (set_state state error s)
  unfolding set_state persist_state heartbeat_now reload_config
  set_state-Owned state error s l o = record {
    loose = set_state-Loose state error s l;
    start_owned = elim (Bool-cases s.beating) [ inl z ↦ rw z o | inr z ↦ rw z o ];
  }

  pub settle-Owned :
      (state : DaemonState) (error : Option Text) (s : Supervisor)
      → rests config s.start_token state ≡ true
      → Loose config s
      → Owned config (set_state state error s)
  settle-Owned state error s n l = set_state-Owned state error s l (λ q. cc)

  pub add-Owned : (t : Task) (s : Supervisor) → Owned config s → Owned config (await t s)
  unfolding any
  add-Owned t s o = record {
    loose = record {
      config_same = o.loose.config_same;
      host_same = o.loose.host_same;
      stop_owned = λ q. ground (arith, o.loose.stop_owned q);
    };
    start_owned = λ q. ground (arith, o.start_owned q);
  }

  pub own-Owned :
      (t : Task) (s : Supervisor)
      → Loose config s
      → owner config s.start_token (running_child s.child) t ≡ true
      → Owned config (await t s)
  unfolding any
  own-Owned t s l h = record {
    loose = record {
      config_same = l.config_same;
      host_same = l.host_same;
      stop_owned = λ q. ground (arith, l.stop_owned q);
    };
    start_owned = λ q. rw h refl;
  }

  pub drop-Loose :
      (t : Task) (s : Supervisor) → is_stop t ≡ false → Loose config (await t s) → Loose config s
  unfolding any
  drop-Loose t s h l = record {
    config_same = l.config_same;
    host_same = l.host_same;
    stop_owned = λ q. ground (arith, l.stop_owned q);
  }

  pub drop-Owned :
      (t : Task) (s : Supervisor)
      → is_stop t ≡ false
      → owner config s.start_token (running_child s.child) t ≡ false
      → Owned config (await t s)
      → Owned config s
  unfolding any
  drop-Owned t s n h o = record {
    loose = drop-Loose t s n o.loose;
    start_owned = λ q. ground (arith, o.start_owned q);
  }

  -- Neither the log nor the error matter.
  pub logged : {s : Supervisor} {e : Effect} → Owned config s → Owned config (tell e s)
  logged o = record {
    loose = record {
      config_same = o.loose.config_same;
      host_same = o.loose.host_same;
      stop_owned = o.loose.stop_owned;
    };
    start_owned = o.start_owned;
  }

  pub unchanged :
      {s : Supervisor} {error : Option Text} {es : List Effect}
      → Owned config s
      → Owned config (record s { last_error = error; effects = es })
  unchanged o = record {
    loose = record {
      config_same = o.loose.config_same;
      host_same = o.loose.host_same;
      stop_owned = o.loose.stop_owned;
    };
    start_owned = o.start_owned;
  }

  pub reply-Owned :
      (req : Request) (r : Reply) (s : Supervisor) → Owned config s → Owned config (reply req r s)
  reply-Owned req r s o = if-Owned (nat_eq req.socket s.socket) _ _ (λ z. logged o) (λ z. o)

  pub succeed-Owned :
      (caller : Caller) (s : Supervisor) → Owned config s → Owned config (succeed caller s)
  succeed-Owned boots s o = o
  succeed-Owned (controls req) s o =
      reply-Owned req _ _ (set_state-Owned s.state none s o.loose o.start_owned)
  succeed-Owned (restarts req) s o =
      reply-Owned req _ _ (set_state-Owned s.state none s o.loose o.start_owned)

  pub fail-Owned :
      (caller : Caller) (message : Text) (s : Supervisor)
      → Owned config s
      → Owned config (fail caller message s)
  unfolding persist_state
  fail-Owned boots message s o = o
  fail-Owned (controls req) message s o = reply-Owned req _ _ (unchanged o)
  fail-Owned (restarts req) message s o = reply-Owned req _ _ (unchanged o)
