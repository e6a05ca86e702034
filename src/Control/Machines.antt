-- ===== src/Control/Machines.antt =====
-- The handlers for machines, assignments and pairing codes of apps/gateway/src/control.ts.
use deepseek_harness_gateway.Common.{
  ℕ, Bool, false, not, ◌&&◌, Option, none, some, List, [], ◌∷◌, ◌++◌, map, ltb, if◌then◌else◌,
}
use deepseek_harness_gateway.Common.Text.{Text, text, text_eq}
use deepseek_harness_gateway.Common.Lists.{length}
use deepseek_harness_gateway.Common.Split.{trim}
use deepseek_harness_gateway.Store.Domain.{
  User, Machine, MachineStatus, Assignment, Store, AuditEvent, AuditResult, ok, error,
}
use deepseek_harness_gateway.Store.Memory.{
  get_machine, get_user, list_machines, list_assignments_for_user, list_assignments,
  list_pairing_codes, upsert_machine, append_audit, add_assignment, remove_assignment,
}
use deepseek_harness_gateway.DaemonControl.{DaemonControlResult}
use deepseek_harness_gateway.Nodes.State.{
  Nodes, DaemonStatus, daemon_status, is_console_connected, is_connected, agent_version_of,
}
use deepseek_harness_gateway.Nodes.Admin.{approve_machine, revoke_machine, remove_machine}
use deepseek_harness_gateway.Control.Users.{Reply, done, failed, is_admin}

-- A row of the machine list.
pub record MachineRow : Type 0 where
  pub id : Text
  pub name : Text
  pub status : MachineStatus
  pub dsh_version : Option Text
  pub agent_version : Text
  pub config_rev : ℕ
  pub last_heartbeat_at : Option Text
  pub created_at : Text
  pub online : Bool
  pub console_connected : Bool
  pub supervisor_connected : Bool
  pub daemon_enabled : Bool
  pub daemon_state : Text
  pub daemon_action : Text

abbrev or_empty : Option Text → Text
or_empty none = []
or_empty (some s) = s

abbrev or_false : Option Bool → Bool
or_false none = false
or_false (some b) = b

abbrev shown_state : Machine → DaemonStatus → Bool → Text
shown_state m daemon console_connected =
    if not daemon.connected
    then or_empty m.daemon_state
    else if text_eq daemon.state (text "running") && not console_connected
    then text "starting"
    else daemon.state

-- `enrichMachines`, for one machine
unfoldable pub enrich_machine : Nodes → Machine → MachineRow
unfolding daemon_status is_console_connected is_connected agent_version_of
enrich_machine g m =
    let daemon = daemon_status m.id g in
    let console_connected = is_console_connected m.id g in
    record {
      id = m.id;
      name = m.name;
      status = m.status;
      dsh_version = m.dsh_version;
      agent_version = agent_version_of m.id g;
      config_rev = m.config_rev;
      last_heartbeat_at = m.last_heartbeat_at;
      created_at = m.created_at;
      online = is_connected m.id g;
      console_connected = console_connected;
      supervisor_connected = daemon.connected;
      daemon_enabled = if daemon.connected then daemon.enabled else or_false m.daemon_enabled;
      daemon_state = shown_state m daemon console_connected;
      daemon_action = if daemon.connected then daemon.action else [];
    }

abbrev cons_found : Option Machine → List Machine → List Machine
cons_found none ms = ms
cons_found (some m) ms = m ∷ ms

-- the machines that a plain user sees: those of the assignments that are on record
unfoldable pub assigned_machines : Store → List Assignment → List Machine
unfolding get_machine
assigned_machines s [] = []
assigned_machines s (a ∷ rest) = cons_found (get_machine a.machine_id s) (assigned_machines s rest)

unfoldable pub visible_machines : User → Store → List Machine
unfolding list_machines assigned_machines list_assignments_for_user
visible_machines u s =
    if is_admin u then list_machines s else assigned_machines s (list_assignments_for_user u.id s)

-- `GET /gw/machines`
unfoldable pub get_machines : User → Nodes → List MachineRow
unfolding visible_machines enrich_machine
get_machines u g = map (enrich_machine g) (visible_machines u g.store)

abbrev replied : Option Text × Nodes → Reply × Nodes
replied (none, g) = (done, g)
replied (some message, g) = (failed 400 message, g)

-- `POST /gw/machines/:id/approve`, `.../revoke`, and `DELETE /gw/machines/:id`
unfoldable pub approve : Text → Text → Nodes → Reply × Nodes
unfolding approve_machine
approve ts id g = replied (approve_machine ts id g)

unfoldable pub revoke : Text → Text → Nodes → Reply × Nodes
unfolding revoke_machine
revoke ts id g = replied (revoke_machine ts id g)

unfoldable pub delete_one : Text → Text → Nodes → Reply × Nodes
unfolding remove_machine
delete_one ts id g = replied (remove_machine ts id g)

abbrev machine_event : Text → Text → Text → Text → AuditResult → Text → AuditEvent
machine_event ts actor machine_id action result detail = record {
  ts = ts;
  actor = actor;
  machine_id = some machine_id;
  action = action;
  result = result;
  detail = some detail;
}

abbrev rename_found : Text → User → Text → Text → Store → Option Machine → Reply × Store
rename_found ts u id name s none = (failed 404 (text "machine not found"), s)
rename_found ts u id name s (some m) = if text_eq m.name name then (done, s) else (
  done,
  append_audit
      (machine_event ts u.id id (text "rename_machine") ok (m.name ++ (text " -> " ++ name)))
      (upsert_machine (record m { name = name }) s),
)

abbrev rename_trimmed : Text → User → Text → Text → Store → Reply × Store
rename_trimmed ts u id [] s = (failed 400 (text "名称不能为空"), s)
rename_trimmed ts u id (c ∷ name) s =
    if ltb 64 (length (c ∷ name))
    then (failed 400 (text "名称过长（最多 64 字符）"), s)
    else rename_found ts u id (c ∷ name) s (get_machine id s)

-- `POST /gw/machines/:id/rename`
unfoldable pub rename_machine : Text → User → Text → Option Text → Store → Reply × Store
unfolding get_machine upsert_machine append_audit trim
rename_machine ts u id none s = rename_trimmed ts u id [] s
rename_machine ts u id (some name) s = rename_trimmed ts u id (trim name) s

-- What the daemon routes record of `controlDaemon`: its result, or the error that it throws.
abbrev control_failed : Text → DaemonControlResult → Text
control_failed action result = elim result.error [
  | none ↦ text "daemon " ++ (action ++ text " failed")
  | some e ↦ e
]

unfoldable pub daemon_answered :
    Text → User → Text → Text → DaemonControlResult → Store → Reply × Store
unfolding append_audit
daemon_answered ts u id action result s =
    if result.ok
    then (
      done,
      append_audit (machine_event ts u.id id (text "daemon_" ++ action) ok (or_empty result.state))
          s,
    )
    else (
      failed 502 (control_failed action result),
      append_audit
          (machine_event ts u.id id (text "daemon_" ++ action) error (or_empty result.error)) s,
    )

unfoldable pub daemon_thrown : Text → User → Text → Text → Text → Store → Reply × Store
unfolding append_audit
daemon_thrown ts u id action message s = (
  failed 503 message,
  append_audit (machine_event ts u.id id (text "daemon_" ++ action) error message) s,
)

-- ---- assignments and pairing codes
abbrev assign_found : Text → Text → Text → Store → Option Machine → Option User → Reply × Store
assign_found ts machine_id user_id s (some m) (some u) = (
  done,
  add_assignment (record { machine_id = machine_id; user_id = user_id; created_at = ts }) s,
)
assign_found ts machine_id user_id s _ _ = (failed 404 (text "machine or user not found"), s)

abbrev assign_with : Text → Text → Text → Store → Reply × Store
assign_with ts [] user_id s = (failed 400 (text "machineId and userId required"), s)
assign_with ts (c ∷ machine_id) [] s = (failed 400 (text "machineId and userId required"), s)
assign_with ts (c ∷ machine_id) (d ∷ user_id) s =
    assign_found ts (c ∷ machine_id) (d ∷ user_id) s (get_machine (c ∷ machine_id) s)
      (get_user (d ∷ user_id) s)

-- `POST /gw/assignments`; a missing member counts as an empty one
unfoldable pub assign : Text → Text → Text → Store → Reply × Store
unfolding get_machine get_user add_assignment
assign ts machine_id user_id s = assign_with ts machine_id user_id s

-- `DELETE /gw/assignments/:machineId/:userId`
unfoldable pub unassign : Text → Text → Store → Reply × Store
unfolding remove_assignment
unassign machine_id user_id s = (done, remove_assignment machine_id user_id s)

-- `GET /gw/assignments`, `GET /gw/pairing-codes`
unfoldable pub get_assignments : Store → List Assignment
unfolding list_assignments
get_assignments s = list_assignments s

unfoldable pub get_pairing_codes : Store → List (Option Text × Option Text × Text)
unfolding list_pairing_codes
get_pairing_codes s = map (λ c. (c.machine_id, c.consumed_by, c.expires_at)) (list_pairing_codes s)
