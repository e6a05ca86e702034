-- ===== src/Sqlite/Refines.antt =====
-- packages/store/src/sqlite.ts does what packages/store/src/memory.ts does, call by call.
use deepseek_harness_gateway.Common.{ℕ, ◌≡◌, true, Option, some, List}
use deepseek_harness_gateway.Common.Text.{Text, Eq-text}
use deepseek_harness_gateway.Common.Dict.{Dict, get}
use deepseek_harness_gateway.Store.Domain.{
  User, Machine, Assignment, PairingCode, AuditEvent, ThrottleAccount, ThrottleIp, Store,
}
use deepseek_harness_gateway.Store.Memory
use deepseek_harness_gateway.Store.Audit
use deepseek_harness_gateway.Sqlite.Rows.{
  Engine, Db, machine_row, account_row, ip_row, is_some, Eq-pair,
}
use deepseek_harness_gateway.Sqlite
use deepseek_harness_gateway.Sqlite.Assignments.{Plain, Keyed, assigned}
use deepseek_harness_gateway.Sqlite.Lists.{Indexed}
use deepseek_harness_gateway.Sqlite.Tables.{Holds}
use deepseek_harness_gateway.Sqlite.Entries.{events}

-- A call that writes.
pub data Write : Type 0 where
  upserts_user : User → Write
  deletes_user : Text → Write
  upserts_machine : Machine → Write
  deletes_machine : Text → Write
  assigns : Assignment → Write
  unassigns : Text → Text → Write
  upserts_code : PairingCode → Write
  consumes_code : Text → Text → Write
  appends : AuditEvent → Write
  purges : Text → Option ℕ → Write
  saves_account : ThrottleAccount → Write
  deletes_account : Text → Write
  saves_ip : ThrottleIp → Write
  deletes_ip : Text → Write

unfoldable pub memory_write : Write → Store → Store
memory_write (upserts_user u) s = Memory.upsert_user u s
memory_write (deletes_user id) s = Memory.delete_user id s
memory_write (upserts_machine m) s = Memory.upsert_machine m s
memory_write (deletes_machine id) s = Memory.delete_machine id s
memory_write (assigns a) s = Memory.add_assignment a s
memory_write (unassigns m u) s = Memory.remove_assignment m u s
memory_write (upserts_code c) s = Memory.upsert_pairing_code c s
memory_write (consumes_code h m) s = Memory.consume_pairing_code h m s
memory_write (appends e) s = Memory.append_audit e s
memory_write (purges before limit) s = (Audit.purge_audit before limit s).0
memory_write (saves_account a) s = Memory.save_throttle_account a s
memory_write (deletes_account a) s = Memory.delete_throttle_account a s
memory_write (saves_ip r) s = Memory.save_throttle_ip r s
memory_write (deletes_ip ip) s = Memory.delete_throttle_ip ip s

-- `none` when the call throws
unfoldable pub sqlite_write : (g : Engine) → Write → Db g → Option (Db g)
sqlite_write g (upserts_user u) db = some (Sqlite.upsert_user g u db)
sqlite_write g (deletes_user id) db = some (Sqlite.delete_user g id db)
sqlite_write g (upserts_machine m) db = some (Sqlite.upsert_machine g m db)
sqlite_write g (deletes_machine id) db = some (Sqlite.delete_machine g id db)
sqlite_write g (assigns a) db = Sqlite.add_assignment g a db
sqlite_write g (unassigns m u) db = some (Sqlite.remove_assignment g m u db)
sqlite_write g (upserts_code c) db = some (Sqlite.upsert_pairing_code g c db)
sqlite_write g (consumes_code h m) db = some (Sqlite.consume_pairing_code g h m db)
sqlite_write g (appends e) db = some (Sqlite.append_audit g e db)
sqlite_write g (purges before limit) db = some (Sqlite.purge_audit g before limit db).1
sqlite_write g (saves_account a) db = some (Sqlite.save_throttle_account g a db)
sqlite_write g (deletes_account a) db = some (Sqlite.delete_throttle_account g a db)
sqlite_write g (saves_ip r) db = some (Sqlite.save_throttle_ip g r db)
sqlite_write g (deletes_ip ip) db = some (Sqlite.delete_throttle_ip g ip db)

-- Ids of users and machines hold no colon, which joins them in the keys of the in-memory store, and
-- only machines and users that are there are assigned.
abbrev pub Allowed : Write → Store → Type 0
Allowed (deletes_user id) s = Plain id
Allowed (deletes_machine id) s = Plain id
Allowed (assigns a) s =
    (Plain a.machine_id × Plain a.user_id)
    × (is_some (get a.machine_id s.machines) ≡ true)
    × (is_some (get a.user_id s.users) ≡ true)
Allowed (unassigns m u) s = Plain m
Allowed _ s = Unit

-- The database holds what the in-memory store holds; an assignment's date may differ.
pub record Represents (g : Engine) (db : Db g) (s : Store) : Type 0 where
  pub users : Holds g.users (λ u. u) db.users s.users
  pub machines : Holds g.machines machine_row db.machines s.machines
  pub assignments :
      (m u : Text) → is_some (g.assignments.find (m, u) db.assignments) ≡ assigned m u s.assignments
  pub pairing_codes : Holds g.pairing_codes (λ c. c) db.pairing_codes s.pairing_codes
  pub audit : events (g.audit_events.entries db.audit_events) ≡ s.audit
  pub accounts : Holds g.throttle_accounts account_row db.throttle_accounts s.throttle_accounts
  pub ips : Holds g.throttle_ips ip_row db.throttle_ips s.throttle_ips
  pub keyed : Keyed s.assignments
  pub users_listed : Indexed (λ u. u.id) s.users
  pub machines_listed : Indexed (λ m. m.id) s.machines
  pub codes_listed : Indexed (λ c. c.code_hash) s.pairing_codes
  pub accounts_listed : Indexed (λ a. a.account) s.throttle_accounts
  pub ips_listed : Indexed (λ r. r.ip) s.throttle_ips

module _ (g : Engine) {db : Db g} {s : Store} (r : Represents g db s) where
  pub with_users :
      (t : g.users.T) (d : Dict Text User)
      → Holds g.users (λ u. u) t d
      → Indexed (λ u. u.id) d
      → Represents g (record db { users = t }) (record s { users = d })
  with_users t d h w = record {
    users = h;
    machines = r.machines;
    assignments = r.assignments;
    pairing_codes = r.pairing_codes;
    audit = r.audit;
    accounts = r.accounts;
    ips = r.ips;
    keyed = r.keyed;
    users_listed = w;
    machines_listed = r.machines_listed;
    codes_listed = r.codes_listed;
    accounts_listed = r.accounts_listed;
    ips_listed = r.ips_listed;
  }

  pub with_machines :
      (t : g.machines.T) (d : Dict Text Machine)
      → Holds g.machines machine_row t d
      → Indexed (λ m. m.id) d
      → Represents g (record db { machines = t }) (record s { machines = d })
  with_machines t d h w = record {
    users = r.users;
    machines = h;
    assignments = r.assignments;
    pairing_codes = r.pairing_codes;
    audit = r.audit;
    accounts = r.accounts;
    ips = r.ips;
    keyed = r.keyed;
    users_listed = r.users_listed;
    machines_listed = w;
    codes_listed = r.codes_listed;
    accounts_listed = r.accounts_listed;
    ips_listed = r.ips_listed;
  }

  pub with_codes :
      (t : g.pairing_codes.T) (d : Dict Text PairingCode)
      → Holds g.pairing_codes (λ c. c) t d
      → Indexed (λ c. c.code_hash) d
      → Represents g (record db { pairing_codes = t }) (record s { pairing_codes = d })
  with_codes t d h w = record {
    users = r.users;
    machines = r.machines;
    assignments = r.assignments;
    pairing_codes = h;
    audit = r.audit;
    accounts = r.accounts;
    ips = r.ips;
    keyed = r.keyed;
    users_listed = r.users_listed;
    machines_listed = r.machines_listed;
    codes_listed = w;
    accounts_listed = r.accounts_listed;
    ips_listed = r.ips_listed;
  }

  pub with_accounts :
      (t : g.throttle_accounts.T) (d : Dict Text ThrottleAccount)
      → Holds g.throttle_accounts account_row t d
      → Indexed (λ a. a.account) d
      → Represents g (record db { throttle_accounts = t }) (record s { throttle_accounts = d })
  with_accounts t d h w = record {
    users = r.users;
    machines = r.machines;
    assignments = r.assignments;
    pairing_codes = r.pairing_codes;
    audit = r.audit;
    accounts = h;
    ips = r.ips;
    keyed = r.keyed;
    users_listed = r.users_listed;
    machines_listed = r.machines_listed;
    codes_listed = r.codes_listed;
    accounts_listed = w;
    ips_listed = r.ips_listed;
  }

  pub with_ips :
      (t : g.throttle_ips.T) (d : Dict Text ThrottleIp)
      → Holds g.throttle_ips ip_row t d
      → Indexed (λ r. r.ip) d
      → Represents g (record db { throttle_ips = t }) (record s { throttle_ips = d })
  with_ips t d h w = record {
    users = r.users;
    machines = r.machines;
    assignments = r.assignments;
    pairing_codes = r.pairing_codes;
    audit = r.audit;
    accounts = r.accounts;
    ips = h;
    keyed = r.keyed;
    users_listed = r.users_listed;
    machines_listed = r.machines_listed;
    codes_listed = r.codes_listed;
    accounts_listed = r.accounts_listed;
    ips_listed = w;
  }

  pub with_assignments :
      (t : g.assignments.T) (d : Dict Text Assignment)
      → ((m u : Text) → is_some (g.assignments.find (m, u) t) ≡ assigned m u d)
      → Keyed d
      → Represents g (record db { assignments = t }) (record s { assignments = d })
  with_assignments t d h w = record {
    users = r.users;
    machines = r.machines;
    assignments = h;
    pairing_codes = r.pairing_codes;
    audit = r.audit;
    accounts = r.accounts;
    ips = r.ips;
    keyed = w;
    users_listed = r.users_listed;
    machines_listed = r.machines_listed;
    codes_listed = r.codes_listed;
    accounts_listed = r.accounts_listed;
    ips_listed = r.ips_listed;
  }

  pub with_audit :
      (t : g.audit_events.T) (es : List AuditEvent)
      → events (g.audit_events.entries t) ≡ es
      → Represents g (record db { audit_events = t }) (record s { audit = es })
  with_audit t es h = record {
    users = r.users;
    machines = r.machines;
    assignments = r.assignments;
    pairing_codes = r.pairing_codes;
    audit = h;
    accounts = r.accounts;
    ips = r.ips;
    keyed = r.keyed;
    users_listed = r.users_listed;
    machines_listed = r.machines_listed;
    codes_listed = r.codes_listed;
    accounts_listed = r.accounts_listed;
    ips_listed = r.ips_listed;
  }
