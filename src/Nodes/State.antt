-- ===== src/Nodes/State.antt =====
-- apps/gateway/src/nodes.ts: the state of `NodeRegistry`, its readings, the lease sweep, and the roles
-- and daemon states of packages/protocol/src/daemon.js. Sockets are numbers; what is sent on them, and
-- what the handlers of a relay are told, is the list of effects.
use deepseek_harness_gateway.Common.{
  ℕ, Bool, true, false, not, ◌&&◌, ◌||◌, Option, none, some, List, [], ◌∷◌, ◌++◌, map, ltb,
  if◌then◌else◌,
}
use deepseek_harness_gateway.Common.Text.{Text, text, text_eq, Eq-text}
use deepseek_harness_gateway.Common.Lists.{length, any}
use deepseek_harness_gateway.Common.Dict.{Dict, get, has, values, retain}
use deepseek_harness_gateway.Store.Domain.{Store, Machine, MachineStatus, approved, status_eq}
use deepseek_harness_gateway.Store.Memory.{get_machine}
use deepseek_harness_gateway.DaemonControl.{Registry}

-- ---- packages/protocol/src/daemon.js and constants.js
abbrev pub console : Text
console = text "console"

abbrev pub supervisor : Text
supervisor = text "supervisor"

abbrev pub lease_ttl_ms : ℕ
lease_ttl_ms = 45000

abbrev pub normalize_role : Option Text → Text
normalize_role none = console
normalize_role (some value) = if text_eq value supervisor then supervisor else console

abbrev pub daemon_states : List Text
daemon_states =
    text "unknown" ∷ text "starting" ∷ text "running" ∷ text "stopped" ∷ text "exited" ∷ []

unfoldable pub normalize_daemon_state : Option Text → Text
normalize_daemon_state none = text "unknown"
normalize_daemon_state (some value) =
    if any (λ s. text_eq s value) daemon_states then value else text "unknown"

-- ---- frames and effects
pub data Frame : Type 0 where
  approved_status : Text → Frame
  pending_status : Text → Option Text → Frame
  lease_frame : Frame
  daemon_control : Text → Text → Frame
  relay_request : ℕ → Text → Text → ℕ → Frame
  binary_frame : ℕ → ℕ → List ℕ → Frame
  relay_ws_open : ℕ → Text → Frame
  relay_ws_close : ℕ → Frame

pub data Effect : Type 0 where
  sends : ℕ → Frame → Effect
  closes : ℕ → ℕ → Text → Effect
  stream_response : ℕ → ℕ → Effect
  stream_data : ℕ → List ℕ → Effect
  stream_end : ℕ → Effect
  stream_error : ℕ → Text → Effect
  ws_opened : ℕ → Effect
  ws_data : ℕ → ℕ → List ℕ → Effect
  ws_closed : ℕ → ℕ → Effect

pub record ConnectedNode : Type 0 where
  pub ws : ℕ
  pub machine_id : Text
  pub role : Text
  pub status : MachineStatus
  pub lease_expiry : ℕ
  pub daemon_state : Text
  pub daemon_action : Text
  pub agent_version : Text
  pub daemon_enabled : Bool

-- The handlers of a stream and of a channel are known by its number; a stream's timer is armed or not.
pub record Nodes : Type 0 where
  pub nodes : Dict Text ConnectedNode
  pub daemon_controls : Registry
  pub streams : Dict ℕ Bool
  pub streams_node : Dict ℕ Text
  pub ws_channels : Dict ℕ ℕ
  pub ws_channel_node : Dict ℕ Text
  pub channel_seq : ℕ
  pub store : Store
  pub effects : List Effect

abbrev pub tell : List Effect → Nodes → Nodes
tell es g = record g { effects = g.effects ++ es }

-- `${machineId}:${role}`
unfoldable pub node_key : Text → Text → Text
node_key machine_id role = machine_id ++ (text ":" ++ role)

unfoldable pub connected_count : Nodes → ℕ
connected_count g = length g.nodes

unfoldable pub console_node : Text → Nodes → Option ConnectedNode
unfolding node_key
console_node machine_id g = get (node_key machine_id console) g.nodes

unfoldable pub supervisor_node : Text → Nodes → Option ConnectedNode
unfolding node_key
supervisor_node machine_id g = get (node_key machine_id supervisor) g.nodes

unfoldable pub is_console_connected : Text → Nodes → Bool
unfolding node_key
is_console_connected machine_id g = has (node_key machine_id console) g.nodes

unfoldable pub is_supervisor_connected : Text → Nodes → Bool
unfolding node_key
is_supervisor_connected machine_id g = has (node_key machine_id supervisor) g.nodes

unfoldable pub is_connected : Text → Nodes → Bool
unfolding node_key
is_connected machine_id g =
    has (node_key machine_id console) g.nodes || has (node_key machine_id supervisor) g.nodes

pub record DaemonStatus : Type 0 where
  pub connected : Bool
  pub enabled : Bool
  pub state : Text
  pub action : Text

unfoldable pub status_of : Option ConnectedNode → DaemonStatus
unfolding normalize_daemon_state
status_of none = record { connected = false; enabled = false; state = []; action = [] }
status_of (some node) = record {
  connected = true;
  enabled = node.daemon_enabled;
  state = normalize_daemon_state (some node.daemon_state);
  action = node.daemon_action;
}

unfoldable pub daemon_status : Text → Nodes → DaemonStatus
unfolding supervisor_node status_of
daemon_status machine_id g = status_of (supervisor_node machine_id g)

abbrev version_of : Option ConnectedNode → Text
version_of none = []
version_of (some node) = node.agent_version

unfoldable pub agent_version_of : Text → Nodes → Text
unfolding console_node
agent_version_of machine_id g = version_of (console_node machine_id g)

-- `listConnected`
unfoldable pub list_connected : Nodes → List (Text × MachineStatus × Text)
list_connected g = map (λ n. (n.machine_id, n.status, n.role)) (values g.nodes)

abbrev listed : ConnectedNode → Option Machine → Text × Option Text × Option Text
listed n none = (n.machine_id, none, none)
listed n (some m) = (n.machine_id, some m.name, m.dsh_version)

unfoldable pub list_nodes : Nodes → List (Text × Option Text × Option Text)
unfolding get_machine
list_nodes g = map (λ n. listed n (get_machine n.machine_id g.store)) (values g.nodes)

-- `for (const node of this.nodes.values())` of `singleNodeId`, with `found`
unfoldable pub single_loop : Option Text → List ConnectedNode → Option Text
single_loop found [] = found
single_loop none (n ∷ ns) =
    let skip = single_loop none ns in
    let take_it = single_loop (some n.machine_id) ns in
    if text_eq n.role console && status_eq n.status approved then take_it else skip
single_loop (some id) (n ∷ ns) =
    let rest = single_loop (some id) ns in
    if text_eq n.role console && status_eq n.status approved then none else rest

unfoldable pub single_node_id : Nodes → Option Text
unfolding single_loop
single_node_id g = single_loop none (values g.nodes)

-- The sweep of the timer: sockets whose lease has run out are closed and forgotten.
abbrev lapsed : ℕ → ConnectedNode → Bool
lapsed now n = ltb n.lease_expiry now

unfoldable pub expire : ℕ → Nodes → Nodes
expire now g =
    tell
      (map (λ n. closes n.ws 4005 (text "lease expired"))
        (values (retain (λ key n. lapsed now n) g.nodes)))
      (record g { nodes = retain (λ key n. not (lapsed now n)) g.nodes })
