-- ===== src/Nodes/Onboard.antt =====
-- `handleOnboarding` of apps/gateway/src/nodes.ts. The hash, the fresh id and key, the clock, its text
-- and the reading of a date are arguments.
use deepseek_harness_gateway.Common.{
  ℕ, Bool, true, false, Option, none, some, [], ◌∷◌, ltb, if◌then◌else◌,
}
use deepseek_harness_gateway.Common.Text.{Text, text, text_eq}
use deepseek_harness_gateway.Store.Domain.{
  Store, Machine, MachineStatus, pending, approved, revoked, status_eq, PairingCode, AuditEvent, ok,
}
use deepseek_harness_gateway.Store.Memory.{
  get_machine, upsert_machine, append_audit, get_pairing_code_by_hash, consume_pairing_code,
}
use deepseek_harness_gateway.Nodes.State.{
  Nodes, Frame, approved_status, pending_status, sends, closes, tell, normalize_role,
}

-- `msg.payload`, whose members may be missing
pub record Payload : Type 0 where
  pub code : Option Text
  pub machine_id : Option Text
  pub node_key : Option Text
  pub machine_name : Option Text
  pub dsh_version : Option Text
  pub role : Option Text

-- What the handler takes from outside: the hash of a secret, the time that a date's text stands for
-- (none for a text that is no date), the clock and its text, and the id and key it would make.
pub record Outside : Type 0 where
  pub sha256 : Text → Text
  pub time_of : Text → Option ℕ
  pub now : ℕ
  pub ts : Text
  pub fresh_id : Text
  pub fresh_key : Text

-- The machine of the socket, its status and its role; or the refusal that closes the socket.
pub data Onboarding : Type 0 where
  accepted : Text → MachineStatus → Text → Onboarding
  refused : ℕ → Text → Onboarding

abbrev or_else : Text → Option Text → Text
or_else d none = d
or_else d (some s) = s

-- `new Date(pc.expiresAt).getTime() < Date.now()`, false for no date
abbrev pub is_past : ℕ → Option ℕ → Bool
is_past now none = false
is_past now (some t) = ltb t now

abbrev pub is_set : Option Text → Bool
is_set none = false
is_set (some []) = false
is_set (some (c ∷ s)) = true

abbrev refuse : ℕ → ℕ → Text → Nodes → Onboarding × Nodes
refuse ws code reason g = (refused code reason, tell (closes ws code reason ∷ []) g)

module _ (o : Outside) where
  abbrev new_machine : Payload → Machine
  new_machine p = record {
    id = o.fresh_id;
    name = or_else (text "node") p.machine_name;
    node_key_hash = o.sha256 o.fresh_key;
    status = pending;
    dsh_version = some (or_else [] p.dsh_version);
    config_rev = 0;
    last_heartbeat_at = some o.ts;
    created_at = o.ts;
    daemon_state = none;
    daemon_enabled = none;
  }

  abbrev register_event : AuditEvent
  register_event = record {
    ts = o.ts;
    actor = text "node";
    machine_id = some o.fresh_id;
    action = text "register_pending";
    result = ok;
    detail = none;
  }

  unfoldable pub register_machine : Text → Payload → Store → Store
  unfolding append_audit consume_pairing_code upsert_machine
  register_machine code_hash p s =
      append_audit register_event
        (consume_pairing_code code_hash o.fresh_id (upsert_machine (new_machine p) s))

  -- First-time onboarding with a pairing code.
  unfoldable pub with_pairing_code :
      ℕ → Payload → Text → Nodes → Option PairingCode → Onboarding × Nodes
  unfolding register_machine
  with_pairing_code ws p code_hash g none = refuse ws 4003 (text "invalid pairing code") g
  with_pairing_code ws p code_hash g (some pc) =
      if is_past o.now (o.time_of pc.expires_at)
      then refuse ws 4003 (text "pairing code expired") g
      else if is_set pc.consumed_by
      then refuse ws 4003 (text "pairing code already used") g
      else (
        accepted o.fresh_id pending (normalize_role p.role),
        tell (sends ws (pending_status o.fresh_id (some o.fresh_key)) ∷ [])
            (record g { store = register_machine code_hash p g.store }),
      )

  abbrev live_status : MachineStatus → MachineStatus
  live_status approved = approved
  live_status _ = pending

  abbrev status_frame : MachineStatus → Text → Frame
  status_frame approved id = approved_status id
  status_frame _ id = pending_status id none

  -- Reconnection with the key that was issued.
  unfoldable pub with_node_key : ℕ → Payload → Text → Nodes → Option Machine → Onboarding × Nodes
  unfolding upsert_machine
  with_node_key ws p key g none = refuse ws 4004 (text "unknown machine") g
  with_node_key ws p key g (some m) =
      if text_eq (o.sha256 key) m.node_key_hash
      then (if status_eq m.status revoked then refuse ws 4003 (text "machine revoked") g else (
        accepted m.id (live_status m.status) (normalize_role p.role),
        tell (sends ws (status_frame m.status m.id) ∷ []) (record g {
          store = upsert_machine (record m { last_heartbeat_at = some o.ts }) g.store;
        }),
      ))
      else refuse ws 4002 (text "bad node key") g

  unfoldable pub reconnect : ℕ → Payload → Option Text → Option Text → Nodes → Onboarding × Nodes
  unfolding with_node_key get_machine
  reconnect ws p (some (c ∷ id)) (some (d ∷ key)) g =
      with_node_key ws p (d ∷ key) g (get_machine (c ∷ id) g.store)
  reconnect ws p _ _ g = refuse ws 4001 (text "expected pairing code or machineId+nodeKey") g

  unfoldable pub onboard_with : ℕ → Payload → Option Text → Nodes → Onboarding × Nodes
  unfolding with_pairing_code get_pairing_code_by_hash reconnect
  onboard_with ws p none g = reconnect ws p p.machine_id p.node_key g
  onboard_with ws p (some []) g = reconnect ws p p.machine_id p.node_key g
  onboard_with ws p (some (c ∷ code)) g =
      with_pairing_code ws p (o.sha256 (c ∷ code)) g
        (get_pairing_code_by_hash (o.sha256 (c ∷ code)) g.store)

  unfoldable pub handle_onboarding : ℕ → Payload → Nodes → Onboarding × Nodes
  unfolding onboard_with
  handle_onboarding ws p g = onboard_with ws p p.code g
