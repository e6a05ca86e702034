-- ===== src/Nodes/Admin.antt =====
-- apps/gateway/src/nodes.ts: pairing codes, the approval, revocation and deletion of machines, the
-- control of a machine's daemon, and the shutdown. The hash and the texts of times are arguments.
use deepseek_harness_gateway.Common.{
  ℕ, Bool, false, not, Option, none, some, [], ◌∷◌, ◌++◌, map, if◌then◌else◌,
}
use deepseek_harness_gateway.Common.Text.{Text, text, text_eq, Eq-text}
use deepseek_harness_gateway.Common.Dict.{set, values, keys, retain, map_values}
use deepseek_harness_gateway.Store.Domain.{
  Store, Machine, pending, approved, revoked, status_eq, AuditEvent, ok,
}
use deepseek_harness_gateway.Store.Memory.{
  get_machine, upsert_machine, delete_machine, append_audit, upsert_pairing_code,
}
use deepseek_harness_gateway.DaemonControl.{
  Registry, DaemonControlResult, register, settle, fail_all,
}
use deepseek_harness_gateway.Nodes.State.{
  Nodes, ConnectedNode, approved_status, daemon_control, sends, closes, stream_error, tell,
  node_key, supervisor, supervisor_node, normalize_daemon_state,
}

abbrev pub in_store : (Store → Store) → Nodes → Nodes
in_store f g = record g { store = f g.store }

abbrev pub in_controls : (Registry → Registry) → Nodes → Nodes
in_controls f g = record g { daemon_controls = f g.daemon_controls }

-- `seedPairingCode` and `issuePairingCode` store the hash of a code with the end of its life.
unfoldable pub seed_pairing_code : (Text → Text) → Text → Text → Nodes → Nodes
unfolding upsert_pairing_code
seed_pairing_code sha256 code expires_at g =
    in_store
      (upsert_pairing_code (record {
        code_hash = sha256 code;
        machine_id = none;
        expires_at = expires_at;
        consumed_by = none;
      }))
      g

unfoldable pub issue_pairing_code : (Text → Text) → Text → Text → Nodes → (Text × Text) × Nodes
unfolding seed_pairing_code
issue_pairing_code sha256 code expires_at g =
    ((code, expires_at), seed_pairing_code sha256 code expires_at g)

abbrev pub of_machine : Text → ConnectedNode → Bool
of_machine machine_id n = text_eq n.machine_id machine_id

abbrev pub machine_event : Text → Text → Text → AuditEvent
machine_event ts machine_id action = record {
  ts = ts;
  actor = text "admin";
  machine_id = some machine_id;
  action = action;
  result = ok;
  detail = none;
}

-- Close the machine's sockets, in the order of the map, and forget them.
abbrev pub drop_machine : Text → ℕ → Text → Nodes → Nodes
drop_machine machine_id code reason g =
    tell
      (map (λ n. closes n.ws code reason)
        (values (retain (λ key n. of_machine machine_id n) g.nodes)))
      (record g { nodes = retain (λ key n. not (of_machine machine_id n)) g.nodes })

-- What an operation answers: the message that it throws, or nothing.
abbrev pub promote : Text → ConnectedNode → ConnectedNode
promote machine_id n = if of_machine machine_id n then record n { status = approved } else n

abbrev approve_found : Text → Text → Nodes → Option Machine → Option Text × Nodes
approve_found ts machine_id g none = (some (text "machine not found"), g)
approve_found ts machine_id g (some m) =
    if status_eq m.status pending
    then (
      none,
      in_store (λ s. append_audit (machine_event ts machine_id (text "approve_machine")) s)
          (tell
            (map (λ n. sends n.ws (approved_status machine_id))
              (values (retain (λ key n. of_machine machine_id n) g.nodes)))
            (record g {
              store = upsert_machine (record m { status = approved }) g.store;
              nodes = map_values (promote machine_id) g.nodes;
            })),
    )
    else (some (text "machine is not pending"), g)

unfoldable pub approve_machine : Text → Text → Nodes → Option Text × Nodes
unfolding get_machine upsert_machine append_audit
approve_machine ts machine_id g = approve_found ts machine_id g (get_machine machine_id g.store)

abbrev revoke_found : Text → Text → Nodes → Option Machine → Option Text × Nodes
revoke_found ts machine_id g none = (some (text "machine not found"), g)
revoke_found ts machine_id g (some m) = (
  none,
  in_store (λ s. append_audit (machine_event ts machine_id (text "revoke_machine")) s)
      (in_controls (fail_all (text "machine revoked")) (
        drop_machine machine_id 4003 (text "machine revoked")
          (in_store (upsert_machine (record m { status = revoked })) g))),
)

unfoldable pub revoke_machine : Text → Text → Nodes → Option Text × Nodes
unfolding get_machine upsert_machine append_audit fail_all
revoke_machine ts machine_id g = revoke_found ts machine_id g (get_machine machine_id g.store)

abbrev delete_found : Text → Text → Nodes → Option Machine → Option Text × Nodes
delete_found ts machine_id g none = (some (text "machine not found"), g)
delete_found ts machine_id g (some m) = (
  none,
  in_store (λ s. append_audit (machine_event ts machine_id (text "delete_machine")) s)
      (in_store (delete_machine machine_id) (
        in_controls (fail_all (text "machine deleted"))
          (drop_machine machine_id 4000 (text "machine deleted") g))),
)

-- `deleteMachine`
unfoldable pub remove_machine : Text → Text → Nodes → Option Text × Nodes
unfolding get_machine delete_machine append_audit fail_all
remove_machine ts machine_id g = delete_found ts machine_id g (get_machine machine_id g.store)

-- `controlDaemon` up to its await: the request's id, when the machine has a supervisor. `sent` says
-- whether the socket took the frame; a frame that it refuses settles the request at once.
abbrev control_found :
    Text → Text → Bool → Text → Nodes → Option ConnectedNode → Option Text × Nodes
control_found action stamp sent failure g none = (none, g)
control_found action stamp sent failure g (some node) =
    let (id, controls) = register action stamp g.daemon_controls in
    let g' = record g { daemon_controls = controls } in
    (
      some id,
      if sent
          then tell (sends node.ws (daemon_control id action) ∷ []) g'
          else in_controls
              (λ r. (settle id (record { ok = false; state = none; error = some failure }) r).1) g',
    )

unfoldable pub control_daemon : Text → Text → Text → Bool → Text → Nodes → Option Text × Nodes
unfolding supervisor_node register settle
control_daemon machine_id action stamp sent failure g =
    control_found action stamp sent failure g (supervisor_node machine_id g)

-- `applyDaemonControlState`
abbrev apply_found : Text → Text → Text → Nodes → Option ConnectedNode → Nodes
apply_found machine_id state action g none = g
apply_found machine_id state action g (some node) = record g {
  nodes =
      set (node_key machine_id supervisor)
        (record node { daemon_state = normalize_daemon_state (some state); daemon_action = action })
        g.nodes;
}

unfoldable pub apply_daemon_control_state : Text → Option Text → Text → Nodes → Nodes
unfolding supervisor_node normalize_daemon_state node_key
apply_daemon_control_state machine_id none action g = g
apply_daemon_control_state machine_id (some []) action g = g
apply_daemon_control_state machine_id (some (c ∷ state)) action g =
    apply_found machine_id (c ∷ state) action g (supervisor_node machine_id g)

-- `controlDaemon` after its await.
unfoldable pub control_answered : Text → Text → DaemonControlResult → Nodes → Nodes
unfolding apply_daemon_control_state
control_answered machine_id action result g =
    if result.ok then apply_daemon_control_state machine_id result.state action g else g

unfoldable pub stop : Nodes → Nodes
unfolding fail_all
stop g =
    tell
      (map (λ n. closes n.ws 4000 (text "shutdown")) (values g.nodes)
        ++ map (λ channel. stream_error channel (text "shutdown")) (keys g.streams))
      (record g {
        nodes = [];
        daemon_controls = fail_all (text "gateway shutting down") g.daemon_controls;
        streams = [];
        streams_node = [];
        ws_channels = [];
        ws_channel_node = [];
      })
