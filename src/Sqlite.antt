-- ===== src/Sqlite.antt =====
-- packages/store/src/sqlite.ts, with the tables of schema.ts, over a database that is a parameter.
-- A row keeps the domain's types where its column holds the same value. An `insert` that breaks a
-- foreign key throws: `none`.
pub mod Database
pub mod Rows
pub mod Lists
pub mod Tables
pub mod Writes
pub mod Cascades
pub mod Audits
pub mod Simulation
pub mod Entries
pub mod Assignments
pub mod Refines
pub mod Parsed
pub mod Reads
mod Example
mod Tests
use deepseek_harness_gateway.Common.{
  ℕ, zero, suc, ◌≡◌, ◌↔◌, arith, ◌||◌, Bool, true, false, not, ◌&&◌, Option, none, some, List, [],
  ◌∷◌, map, Eq, Eq-nat, ◌==◌, ltb, leb, nat_eq, if◌then◌else◌,
}
use deepseek_harness_gateway.Common.Text.{Text, text_eq, text_eq_iff, text_lt, Eq-text}
use deepseek_harness_gateway.Common.Lists.{take, drop, filter, any}
use deepseek_harness_gateway.Common.Numbers.{stringify_numbers, parse_numbers}
use deepseek_harness_gateway.Common.Dict.{keys}
use deepseek_harness_gateway.Store.Domain.{
  Role, MachineStatus, User, Machine, Assignment, PairingCode, AuditResult, AuditEvent,
  ThrottleAccount, ThrottleIp,
}
use deepseek_harness_gateway.Store.Audit.{AuditQueryOptions, matches, start_of}
use deepseek_harness_gateway.Sqlite.Database.{Table, AuditTable, mapped}
use deepseek_harness_gateway.Sqlite.Rows.{
  MachineRow, ThrottleAccountRow, ThrottleIpRow, machine_row, machine_from_row, account_row, ip_row,
  account_from_row, ip_from_row, assignment_id, pair_eq, Eq-pair, Engine, Db, is_some, every_row,
  every_parsed,
}

module _ (g : Engine) where
  -- A database that has just been migrated.
  unfoldable pub empty_db : Db g
  empty_db = record {
    users = g.users.empty;
    machines = g.machines.empty;
    assignments = g.assignments.empty;
    pairing_codes = g.pairing_codes.empty;
    audit_events = g.audit_events.empty;
    throttle_accounts = g.throttle_accounts.empty;
    throttle_ips = g.throttle_ips.empty;
  }

  unfoldable pub upsert_user : User → Db g → Db g
  upsert_user u db = record db {
    users = g.users.upsert u (λ r. record r { role = u.role; auth_hash = u.auth_hash }) db.users;
  }

  unfoldable pub get_user : Text → Db g → Option User
  get_user id db = g.users.find id db.users

  unfoldable pub list_users : Db g → List User
  list_users db = g.users.select every_row db.users

  -- with `onDelete: 'cascade'`
  unfoldable pub delete_user : Text → Db g → Db g
  delete_user id db = record db {
    users = g.users.delete_where (λ u. text_eq u.id id) db.users;
    assignments = g.assignments.delete_where (λ a. text_eq a.user_id id) db.assignments;
  }

  unfoldable pub upsert_machine : Machine → Db g → Db g
  unfolding machine_row
  upsert_machine m db =
      let row = machine_row m in
      record db {
        machines =
            g.machines.upsert row
              (λ r. record r {
                name = row.name;
                node_key_hash = row.node_key_hash;
                status = row.status;
                dsh_version = row.dsh_version;
                config_rev = row.config_rev;
                last_heartbeat_at = row.last_heartbeat_at;
                created_at = row.created_at;
                daemon_state = row.daemon_state;
                daemon_enabled = row.daemon_enabled;
              })
              db.machines;
      }

  unfoldable pub get_machine : Text → Db g → Option Machine
  unfolding machine_from_row
  get_machine id db = mapped machine_from_row (g.machines.find id db.machines)

  unfoldable pub list_machines : Db g → List Machine
  unfolding machine_from_row
  list_machines db = map machine_from_row (g.machines.select every_row db.machines)

  unfoldable pub delete_machine : Text → Db g → Db g
  delete_machine id db = record db {
    machines = g.machines.delete_where (λ m. text_eq m.id id) db.machines;
    assignments = g.assignments.delete_where (λ a. text_eq a.machine_id id) db.assignments;
  }

  -- The foreign keys are checked: both rows must be there, unless the assignment is already.
  unfoldable pub add_assignment : Assignment → Db g → Option (Db g)
  add_assignment a db =
      if is_some (g.assignments.find (assignment_id a) db.assignments)
        || is_some (g.machines.find a.machine_id db.machines)
          && is_some (g.users.find a.user_id db.users)
      then some (record db { assignments = g.assignments.insert_new a db.assignments })
      else none

  unfoldable pub remove_assignment : Text → Text → Db g → Db g
  remove_assignment machine_id user_id db = record db {
    assignments =
        g.assignments.delete_where
          (λ a. text_eq a.machine_id machine_id && text_eq a.user_id user_id) db.assignments;
  }

  unfoldable pub list_assignments_for_user : Text → Db g → List Assignment
  list_assignments_for_user user_id db =
      g.assignments.select (λ a. text_eq a.user_id user_id) db.assignments

  unfoldable pub list_assignments : Db g → List Assignment
  list_assignments db = g.assignments.select every_row db.assignments

  unfoldable pub upsert_pairing_code : PairingCode → Db g → Db g
  upsert_pairing_code c db = record db {
    pairing_codes =
        g.pairing_codes.upsert c
          (λ r. record r {
            machine_id = c.machine_id;
            expires_at = c.expires_at;
            consumed_by = c.consumed_by;
          })
          db.pairing_codes;
  }

  unfoldable pub get_pairing_code_by_hash : Text → Db g → Option PairingCode
  get_pairing_code_by_hash code_hash db = g.pairing_codes.find code_hash db.pairing_codes

  unfoldable pub consume_pairing_code : Text → Text → Db g → Db g
  consume_pairing_code code_hash machine_id db = record db {
    pairing_codes =
        g.pairing_codes.update code_hash
          (λ r. record r { machine_id = some machine_id; consumed_by = some machine_id })
          db.pairing_codes;
  }

  unfoldable pub list_pairing_codes : Db g → List PairingCode
  list_pairing_codes db = g.pairing_codes.select every_row db.pairing_codes

  unfoldable pub append_audit : AuditEvent → Db g → Db g
  append_audit e db = record db { audit_events = g.audit_events.insert e db.audit_events }

  -- `limit(n)` and `offset(m)` of the ordered rows
  abbrev paged : Option ℕ → Option ℕ → List AuditEvent → List AuditEvent
  paged none offset rows = rows
  paged (some limit) none rows = take limit rows
  paged (some limit) (some offset) rows =
      if ltb 0 offset then take limit (drop offset rows) else take limit rows

  unfoldable pub query_audit : AuditQueryOptions → Db g → List AuditEvent
  unfolding matches
  query_audit opts db =
      paged opts.limit opts.offset (g.audit_events.ordered (matches opts) db.audit_events)

  -- The ids of the oldest rows before a date.
  abbrev pub oldest_ids : Text → ℕ → Db g → List ℕ
  oldest_ids before limit db =
      map (λ (x : ℕ × AuditEvent). x.0)
        (take limit (
          filter (λ (x : ℕ × AuditEvent). text_lt x.1.ts before)
            (g.audit_events.entries db.audit_events)))

  abbrev pub delete_ids : List ℕ → Db g → ℕ × Db g
  delete_ids [] db = (0, db)
  delete_ids (i ∷ ids) db =
      let chosen = λ (id : ℕ) (e : AuditEvent). any (nat_eq id) (i ∷ ids) in
      (
        g.audit_events.changes chosen db.audit_events,
        record db { audit_events = g.audit_events.delete_where chosen db.audit_events },
      )

  abbrev purge : Text → Option ℕ → Db g → ℕ × Db g
  purge before none db =
      let older = λ (id : ℕ) (e : AuditEvent). text_lt e.ts before in
      (
        g.audit_events.changes older db.audit_events,
        record db { audit_events = g.audit_events.delete_where older db.audit_events },
      )
  purge before (some zero) db = (0, db)
  purge before (some (suc n)) db = delete_ids (oldest_ids before (suc n) db) db

  unfoldable pub purge_audit : Text → Option ℕ → Db g → ℕ × Db g
  purge_audit before limit db = purge before limit db

  unfoldable pub list_throttle_accounts : Db g → Option (List ThrottleAccount)
  unfolding account_from_row
  list_throttle_accounts db =
      every_parsed account_from_row (g.throttle_accounts.select every_row db.throttle_accounts)

  unfoldable pub save_throttle_account : ThrottleAccount → Db g → Db g
  unfolding account_row
  save_throttle_account a db =
      let row = account_row a in
      record db {
        throttle_accounts =
            g.throttle_accounts.upsert row
              (λ r. record r {
                lock_until = row.lock_until;
                lock_count = row.lock_count;
                fails = row.fails;
                updated_at = row.updated_at;
              })
              db.throttle_accounts;
      }

  unfoldable pub delete_throttle_account : Text → Db g → Db g
  delete_throttle_account account db = record db {
    throttle_accounts =
        g.throttle_accounts.delete_where (λ r. text_eq r.account account) db.throttle_accounts;
  }

  unfoldable pub list_throttle_ips : Db g → Option (List ThrottleIp)
  unfolding ip_from_row
  list_throttle_ips db = every_parsed ip_from_row (g.throttle_ips.select every_row db.throttle_ips)

  unfoldable pub save_throttle_ip : ThrottleIp → Db g → Db g
  unfolding ip_row
  save_throttle_ip r db =
      let row = ip_row r in
      record db {
        throttle_ips =
            g.throttle_ips.upsert row
              (λ old. record old { attempts = row.attempts; updated_at = row.updated_at })
              db.throttle_ips;
      }

  unfoldable pub delete_throttle_ip : Text → Db g → Db g
  delete_throttle_ip ip db = record db {
    throttle_ips = g.throttle_ips.delete_where (λ r. text_eq r.ip ip) db.throttle_ips;
  }
