-- ===== src/Nodes/Messages.antt =====
-- The socket of a machine (`attach` of apps/gateway/src/nodes.ts): its first message, the heartbeat,
-- the results and relay frames, and its close.
use deepseek_harness_gateway.Common.{
  ℕ, ◌+◌, Bool, true, false, ◌||◌, Option, none, some, List, [], ◌∷◌, nat_eq, if◌then◌else◌,
}
use deepseek_harness_gateway.Common.Text.{Text, text, text_eq, Eq-text}
use deepseek_harness_gateway.Common.Dict.{get, set, delete}
use deepseek_harness_gateway.Store.Domain.{Store, Machine, MachineStatus}
use deepseek_harness_gateway.Store.Memory.{get_machine, upsert_machine}
use deepseek_harness_gateway.DaemonControl.{DaemonControlResult, settle, fail_all}
use deepseek_harness_gateway.Nodes.State.{
  Nodes, ConnectedNode, lease_frame, sends, closes, tell, node_key, console, supervisor,
  lease_ttl_ms, normalize_daemon_state,
}
use deepseek_harness_gateway.Nodes.Admin.{in_controls}
use deepseek_harness_gateway.Nodes.Relay.{
  binary_message, relay_response, relay_end, ws_open_ok, ws_close_frame, drop_channels_for_machine,
}
use deepseek_harness_gateway.Nodes.Onboard.{
  Payload, Outside, Onboarding, accepted, refused, handle_onboarding,
}

-- The variables of the socket's closure.
pub record Socket : Type 0 where
  pub ws : ℕ
  pub authed : Bool
  pub machine_id : Text
  pub role : Text

-- `msg.payload` of a heartbeat; a member of another type than the source tests for is missing
pub record Heartbeat : Type 0 where
  pub daemon_state : Option Text
  pub daemon_action : Option Text
  pub agent_version : Option Text
  pub dsh_version : Option Text
  pub daemon_enabled : Bool

pub data Message : Type 0 where
  heartbeat : Heartbeat → Message
  daemon_result : Text → DaemonControlResult → Message
  response : ℕ → Option ℕ → Message
  end_of_stream : ℕ → Message
  open_ok : ℕ → Message
  close_channel : ℕ → Option ℕ → Message
  binary : ℕ → ℕ → List ℕ → Message
  other_type : Message

-- `.then(...)` of the first message
abbrev attached_node : ℕ → ℕ → Text → MachineStatus → Text → ConnectedNode
attached_node ws now machine_id status role = record {
  ws = ws;
  machine_id = machine_id;
  role = role;
  status = status;
  lease_expiry = now + lease_ttl_ms;
  daemon_state = [];
  daemon_action = [];
  agent_version = [];
  daemon_enabled = false;
}

abbrev attach_accepted : ℕ → Socket → Onboarding × Nodes → Socket × Nodes
attach_accepted now s (refused code reason, g) = (s, g)
attach_accepted now s (accepted id status role, g) = (
  record s { authed = true; machine_id = id; role = role },
  record g { nodes = set (node_key id role) (attached_node s.ws now id status role) g.nodes },
)

unfoldable pub first_message : Outside → Payload → Socket → Nodes → Socket × Nodes
unfolding handle_onboarding node_key
first_message o p s g = attach_accepted o.now s (handle_onboarding o s.ws p g)

-- ---- heartbeats
abbrev keep_or : Text → Option Text → Text
keep_or old none = old
keep_or old (some new) = new

abbrev version_or : Text → Option Text → Text
version_or old none = old
version_or old (some []) = old
version_or old (some (c ∷ s)) = c ∷ s

unfoldable pub beaten : ℕ → Text → Heartbeat → ConnectedNode → ConnectedNode
unfolding normalize_daemon_state
beaten now role h n = record n {
  lease_expiry = now + lease_ttl_ms;
  daemon_state = normalize_daemon_state h.daemon_state;
  daemon_action = keep_or n.daemon_action h.daemon_action;
  agent_version =
      if text_eq role console then version_or n.agent_version h.agent_version else n.agent_version;
  daemon_enabled = h.daemon_enabled;
}

abbrev settled_state : Option Text → Text → Option Text
settled_state old [] = old
settled_state old (c ∷ s) = if text_eq (c ∷ s) (text "starting") then old else some (c ∷ s)

abbrev version_patch : Option Text → Option Text → Option Text
version_patch old none = old
version_patch old (some []) = old
version_patch old (some (c ∷ s)) = some (c ∷ s)

-- What `recordHeartbeat` writes for the role of the socket.
unfoldable pub heartbeat_patch : Text → Heartbeat → ConnectedNode → Machine → Machine
heartbeat_patch ts h n m =
    let seen : Machine = record m { last_heartbeat_at = some ts } in
    if text_eq n.role supervisor
    then record seen {
      daemon_state = settled_state m.daemon_state n.daemon_state;
      daemon_enabled = some n.daemon_enabled;
    }
    else record seen { dsh_version = version_patch m.dsh_version h.dsh_version }

abbrev record_found : Text → Heartbeat → ConnectedNode → Store → Option Machine → Store
record_found ts h n s none = s
record_found ts h n s (some m) = upsert_machine (heartbeat_patch ts h n m) s

unfoldable pub record_heartbeat : Text → Heartbeat → ConnectedNode → Store → Store
unfolding get_machine upsert_machine heartbeat_patch
record_heartbeat ts h n s = record_found ts h n s (get_machine n.machine_id s)

abbrev beat_found : ℕ → Text → Heartbeat → Socket → Nodes → Option ConnectedNode → Nodes
beat_found now ts h s g none = tell (closes s.ws 4004 (text "unknown machine") ∷ []) g
beat_found now ts h s g (some n) =
    let n' = beaten now s.role h n in
    tell (sends s.ws lease_frame ∷ []) (record g {
      nodes = set (node_key s.machine_id s.role) n' g.nodes;
      store = record_heartbeat ts h n' g.store;
    })

unfoldable pub on_heartbeat : ℕ → Text → Heartbeat → Socket → Nodes → Nodes
unfolding node_key beaten record_heartbeat
on_heartbeat now ts h s g = beat_found now ts h s g (get (node_key s.machine_id s.role) g.nodes)

-- ---- the messages of a socket that is known
unfoldable pub later_message : ℕ → Text → Message → Socket → Nodes → Nodes
unfolding on_heartbeat settle relay_response relay_end ws_open_ok ws_close_frame binary_message
later_message now ts (heartbeat h) s g = on_heartbeat now ts h s g
later_message now ts (daemon_result id result) s g = in_controls (λ r. (settle id result r).1) g
later_message now ts (response channel status) s g = relay_response channel status g
later_message now ts (end_of_stream channel) s g = relay_end channel g
later_message now ts (open_ok channel) s g = ws_open_ok channel g
later_message now ts (close_channel channel code) s g = ws_close_frame channel code g
later_message now ts (binary channel kind chunk) s g = binary_message channel kind chunk g
later_message now ts other_type s g = g

-- ---- the close of a socket
abbrev persist_found : Store → Option Machine → Store
persist_found s none = s
persist_found s (some m) = elim m.daemon_state [
  | none ↦ s
  | some state ↦
      if text_eq state [] || text_eq state (text "starting")
      then s
      else upsert_machine (record m { daemon_state = some state }) s
]

unfoldable pub persist_daemon_state : Text → Store → Store
unfolding get_machine upsert_machine
persist_daemon_state machine_id s = persist_found s (get_machine machine_id s)

abbrev pub holds : ℕ → Option ConnectedNode → Bool
holds ws none = false
holds ws (some n) = nat_eq n.ws ws

abbrev closed_machine : Socket → Nodes → Nodes
closed_machine s g =
    let key = node_key s.machine_id s.role in
    let g' =
      drop_channels_for_machine s.machine_id
        (if holds s.ws (get key g.nodes) then record g { nodes = delete key g.nodes } else g) in
    if text_eq s.role supervisor
    then record g' {
      daemon_controls = fail_all (text "supervisor disconnected") g'.daemon_controls;
      store = persist_daemon_state s.machine_id g'.store;
    }
    else g'

abbrev pub closed_of : Text → Socket → Nodes → Nodes
closed_of [] s g = g
closed_of (c ∷ id) s g = closed_machine s g

unfoldable pub on_close : Socket → Nodes → Nodes
unfolding node_key drop_channels_for_machine fail_all persist_daemon_state
on_close s g = closed_of s.machine_id s g
