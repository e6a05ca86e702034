-- ===== src/Store/Domain.antt =====
-- packages/store/src/domain.ts and the fields of `InMemoryStore` (memory.ts).
use deepseek_harness_gateway.Common.{ℕ, Bool, true, false, Option, List, []}
use deepseek_harness_gateway.Common.Text.{Text, text, text_eq}
use deepseek_harness_gateway.Common.Dict.{Dict}

-- `other` is a string that no check keeps out: roles of request bodies are cast, not parsed.
pub data Role : Type 0 where
  system_admin admin user : Role
  other : Text → Role

abbrev pub role_eq : Role → Role → Bool
role_eq system_admin system_admin = true
role_eq admin admin = true
role_eq user user = true
role_eq (other s) (other t) = text_eq s t
role_eq _ _ = false

pub data MachineStatus : Type 0 where
  pending approved revoked : MachineStatus

abbrev pub status_eq : MachineStatus → MachineStatus → Bool
status_eq pending pending = true
status_eq approved approved = true
status_eq revoked revoked = true
status_eq _ _ = false

pub record User : Type 0 where
  pub id : Text
  pub role : Role
  pub auth_hash : Text

pub record Machine : Type 0 where
  pub id : Text
  pub name : Text
  pub node_key_hash : Text
  pub status : MachineStatus
  pub dsh_version : Option Text
  pub config_rev : ℕ
  pub last_heartbeat_at : Option Text
  pub created_at : Text
  pub daemon_state : Option Text
  pub daemon_enabled : Option Bool

pub record Assignment : Type 0 where
  pub machine_id : Text
  pub user_id : Text
  pub created_at : Text

pub record PairingCode : Type 0 where
  pub code_hash : Text
  pub machine_id : Option Text
  pub expires_at : Text
  pub consumed_by : Option Text

pub data AuditResult : Type 0 where
  ok denied error : AuditResult

abbrev pub result_text : AuditResult → Text
result_text ok = text "ok"
result_text denied = text "denied"
result_text error = text "error"

pub record AuditEvent : Type 0 where
  pub ts : Text
  pub actor : Text
  pub machine_id : Option Text
  pub action : Text
  pub result : AuditResult
  pub detail : Option Text

pub record ThrottleAccount : Type 0 where
  pub account : Text
  pub lock_until : ℕ
  pub lock_count : ℕ
  pub fails : List ℕ
  pub updated_at : ℕ

pub record ThrottleIp : Type 0 where
  pub ip : Text
  pub attempts : List ℕ
  pub updated_at : ℕ

pub record Store : Type 0 where
  pub users : Dict Text User
  pub machines : Dict Text Machine
  pub assignments : Dict Text Assignment
  pub pairing_codes : Dict Text PairingCode
  pub audit : List AuditEvent
  pub throttle_accounts : Dict Text ThrottleAccount
  pub throttle_ips : Dict Text ThrottleIp

abbrev pub empty_store : Store
empty_store = record {
  users = [];
  machines = [];
  assignments = [];
  pairing_codes = [];
  audit = [];
  throttle_accounts = [];
  throttle_ips = [];
}
