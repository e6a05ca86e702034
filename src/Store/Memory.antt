-- ===== src/Store/Memory.antt =====
-- packages/store/src/memory.ts: the operations on users, machines, assignments, pairing codes and
-- throttle rows. A method returns the new tables; a reading method returns its result alone.
use deepseek_harness_gateway.Common.{Option, none, some, List, [], ◌∷◌, ◌++◌, not}
use deepseek_harness_gateway.Common.Text.{Text, text, text_eq, starts_with, ends_with, Eq-text}
use deepseek_harness_gateway.Common.Lists.{filter}
use deepseek_harness_gateway.Common.Dict.{get, set, delete, values, retain}
use deepseek_harness_gateway.Store.Domain.{
  User, Machine, Assignment, PairingCode, ThrottleAccount, ThrottleIp, AuditEvent, Store,
}

unfoldable pub upsert_user : User → Store → Store
upsert_user u s = record s { users = set u.id u s.users }

unfoldable pub get_user : Text → Store → Option User
get_user id s = get id s.users

unfoldable pub list_users : Store → List User
list_users s = values s.users

-- `${machineId}:${userId}`
unfoldable pub assignment_key : Text → Text → Text
assignment_key machine_id user_id = machine_id ++ (text ":" ++ user_id)

unfoldable pub delete_user : Text → Store → Store
delete_user id s = record s {
  users = delete id s.users;
  assignments = retain (λ key a. not (ends_with key (text ":" ++ id))) s.assignments;
}

unfoldable pub upsert_machine : Machine → Store → Store
upsert_machine m s = record s { machines = set m.id m s.machines }

unfoldable pub get_machine : Text → Store → Option Machine
get_machine id s = get id s.machines

unfoldable pub list_machines : Store → List Machine
list_machines s = values s.machines

unfoldable pub delete_machine : Text → Store → Store
delete_machine id s = record s {
  machines = delete id s.machines;
  assignments = retain (λ key a. not (starts_with key (id ++ text ":"))) s.assignments;
}

unfoldable pub add_assignment : Assignment → Store → Store
unfolding assignment_key
add_assignment a s = record s {
  assignments = set (assignment_key a.machine_id a.user_id) a s.assignments;
}

unfoldable pub remove_assignment : Text → Text → Store → Store
unfolding assignment_key
remove_assignment machine_id user_id s = record s {
  assignments = delete (assignment_key machine_id user_id) s.assignments;
}

unfoldable pub list_assignments_for_user : Text → Store → List Assignment
list_assignments_for_user user_id s = filter (λ a. text_eq a.user_id user_id) (values s.assignments)

unfoldable pub list_assignments : Store → List Assignment
list_assignments s = values s.assignments

unfoldable pub upsert_pairing_code : PairingCode → Store → Store
upsert_pairing_code c s = record s { pairing_codes = set c.code_hash c s.pairing_codes }

unfoldable pub get_pairing_code_by_hash : Text → Store → Option PairingCode
get_pairing_code_by_hash code_hash s = get code_hash s.pairing_codes

-- The record in the map is changed in place, so the entry keeps its position.
unfoldable pub consume_pairing_code : Text → Text → Store → Store
consume_pairing_code code_hash machine_id s = elim (get code_hash s.pairing_codes) [
  | none ↦ s
  | some c ↦ record s {
    pairing_codes =
        set code_hash (record c { consumed_by = some machine_id; machine_id = some machine_id })
          s.pairing_codes;
  }
]

unfoldable pub list_pairing_codes : Store → List PairingCode
list_pairing_codes s = values s.pairing_codes

unfoldable pub append_audit : AuditEvent → Store → Store
append_audit e s = record s { audit = s.audit ++ e ∷ [] }

unfoldable pub list_throttle_accounts : Store → List ThrottleAccount
list_throttle_accounts s = values s.throttle_accounts

unfoldable pub save_throttle_account : ThrottleAccount → Store → Store
save_throttle_account a s = record s { throttle_accounts = set a.account a s.throttle_accounts }

unfoldable pub delete_throttle_account : Text → Store → Store
delete_throttle_account account s = record s {
  throttle_accounts = delete account s.throttle_accounts;
}

unfoldable pub list_throttle_ips : Store → List ThrottleIp
list_throttle_ips s = values s.throttle_ips

unfoldable pub save_throttle_ip : ThrottleIp → Store → Store
save_throttle_ip r s = record s { throttle_ips = set r.ip r s.throttle_ips }

unfoldable pub delete_throttle_ip : Text → Store → Store
delete_throttle_ip ip s = record s { throttle_ips = delete ip s.throttle_ips }
