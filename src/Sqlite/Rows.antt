-- ===== src/Sqlite/Rows.antt =====
-- The tables of packages/store/src/schema.ts, and how packages/store/src/sqlite.ts writes the domain's
-- records into rows and reads them back.
use deepseek_harness_gateway.Common.{
  ℕ, ◌≡◌, ◌↔◌, arith, Bool, true, false, ◌&&◌, Option, none, some, List, [], ◌∷◌, Eq, Eq-nat,
}
use deepseek_harness_gateway.Common.Text.{Text, text_eq, text_eq_iff, Eq-text}
use deepseek_harness_gateway.Common.Numbers.{stringify_numbers, parse_numbers}
use deepseek_harness_gateway.Store.Domain.{
  MachineStatus, User, Machine, Assignment, PairingCode, AuditEvent, ThrottleAccount, ThrottleIp,
}
use deepseek_harness_gateway.Sqlite.Database.{Table, AuditTable, mapped}

pub record MachineRow : Type 0 where
  pub id : Text
  pub name : Text
  pub node_key_hash : Text
  pub status : MachineStatus
  pub dsh_version : Option Text
  pub config_rev : ℕ
  pub last_heartbeat_at : Option Text
  pub created_at : Text
  pub daemon_state : Option Text
  pub daemon_enabled : Bool

-- `fails` and `attempts` hold JSON text.
pub record ThrottleAccountRow : Type 0 where
  pub account : Text
  pub lock_until : ℕ
  pub lock_count : ℕ
  pub fails : Text
  pub updated_at : ℕ

pub record ThrottleIpRow : Type 0 where
  pub ip : Text
  pub attempts : Text
  pub updated_at : ℕ

abbrev or_false : Option Bool → Bool
or_false none = false
or_false (some b) = b

unfoldable pub machine_row : Machine → MachineRow
machine_row m = record {
  id = m.id;
  name = m.name;
  node_key_hash = m.node_key_hash;
  status = m.status;
  dsh_version = m.dsh_version;
  config_rev = m.config_rev;
  last_heartbeat_at = m.last_heartbeat_at;
  created_at = m.created_at;
  daemon_state = m.daemon_state;
  daemon_enabled = or_false m.daemon_enabled;
}

unfoldable pub machine_from_row : MachineRow → Machine
machine_from_row r = record {
  id = r.id;
  name = r.name;
  node_key_hash = r.node_key_hash;
  status = r.status;
  dsh_version = r.dsh_version;
  config_rev = r.config_rev;
  last_heartbeat_at = r.last_heartbeat_at;
  created_at = r.created_at;
  daemon_state = r.daemon_state;
  daemon_enabled = some r.daemon_enabled;
}

unfoldable pub account_row : ThrottleAccount → ThrottleAccountRow
unfolding stringify_numbers
account_row a = record {
  account = a.account;
  lock_until = a.lock_until;
  lock_count = a.lock_count;
  fails = stringify_numbers a.fails;
  updated_at = a.updated_at;
}

unfoldable pub ip_row : ThrottleIp → ThrottleIpRow
unfolding stringify_numbers
ip_row r = record { ip = r.ip; attempts = stringify_numbers r.attempts; updated_at = r.updated_at }

-- `JSON.parse` of the column, or the error that it throws
unfoldable pub account_from_row : ThrottleAccountRow → Option ThrottleAccount
unfolding parse_numbers
account_from_row r =
    mapped
      (λ (fails : List ℕ). record {
        account = r.account;
        lock_until = r.lock_until;
        lock_count = r.lock_count;
        fails = fails;
        updated_at = r.updated_at;
      })
      (parse_numbers r.fails)

unfoldable pub ip_from_row : ThrottleIpRow → Option ThrottleIp
unfolding parse_numbers
ip_from_row r =
    mapped
      (λ (attempts : List ℕ). record { ip = r.ip; attempts = attempts; updated_at = r.updated_at })
      (parse_numbers r.attempts)

-- `primaryKey({ columns: [t.machineId, t.userId] })`
abbrev pub assignment_id : Assignment → Text × Text
assignment_id a = (a.machine_id, a.user_id)

abbrev pub pair_eq : Text × Text → Text × Text → Bool
pair_eq a b = text_eq a.0 b.0 && text_eq a.1 b.1

pub pair_eq_iff : (a b : Text × Text) → (pair_eq a b ≡ true) ↔ (a ≡ b)
pair_eq_iff (a, b) (c, d) = ground (arith, text_eq_iff a c, text_eq_iff b d)

instance abbrev pub Eq-pair : Eq (Text × Text)
Eq-pair = record { same = pair_eq; same_iff = pair_eq_iff }

-- The tables of schema.ts.
pub record Engine : Type 1 where
  pub users : Table (λ (u : User). u.id)
  pub machines : Table (λ (m : MachineRow). m.id)
  pub assignments : Table assignment_id
  pub pairing_codes : Table (λ (c : PairingCode). c.code_hash)
  pub audit_events : AuditTable (λ (e : AuditEvent). e.ts)
  pub throttle_accounts : Table (λ (a : ThrottleAccountRow). a.account)
  pub throttle_ips : Table (λ (r : ThrottleIpRow). r.ip)

pub record Db (g : Engine) : Type 0 where
  pub users : g.users.T
  pub machines : g.machines.T
  pub assignments : g.assignments.T
  pub pairing_codes : g.pairing_codes.T
  pub audit_events : g.audit_events.T
  pub throttle_accounts : g.throttle_accounts.T
  pub throttle_ips : g.throttle_ips.T

abbrev pub is_some {ℓ} : {A : Type ℓ} → Option A → Bool
is_some none = false
is_some (some a) = true

abbrev pub every_row {ℓ} : {R : Type ℓ} → R → Bool
every_row r = true

-- a row whose column is not an array of numbers makes the call throw
abbrev pub every_parsed {ℓ κ} :
    {R : Type ℓ} {A : Type κ} → (R → Option A) → List R → Option (List A)
every_parsed parse [] = some []
every_parsed parse (r ∷ rows) = elim (parse r) [
  | none ↦ none
  | some a ↦ mapped (λ rest. a ∷ rest) (every_parsed parse rows)
]
