-- ===== src/Sqlite/Tests.antt =====
-- The theorems on packages/store/src/sqlite.ts at a database of lists, after a run of calls.
use deepseek_harness_gateway.Common.{◌≡◌, refl, none, some, List, [], ◌∷◌}
use deepseek_harness_gateway.Common.Text.{text, text_eq, Eq-text}
use deepseek_harness_gateway.Common.Split.{includes}
use deepseek_harness_gateway.Common.Dict.{get, set}
use deepseek_harness_gateway.Store.Domain.{
  User, Role, Machine, MachineStatus, Assignment, AuditEvent, AuditResult, ThrottleAccount,
  empty_store,
}
use deepseek_harness_gateway.Store.Memory.{upsert_user, upsert_machine, add_assignment}
use deepseek_harness_gateway.Sqlite.Rows.{Db}
use deepseek_harness_gateway.Sqlite.{empty_db}
use deepseek_harness_gateway.Sqlite.Refines.{Write, memory_write, Represents}
use deepseek_harness_gateway.Sqlite.Simulation.{
  AllAllowed, memory_writes, sqlite_writes, sqlite_refines_memory,
}
use deepseek_harness_gateway.Sqlite.Reads.{SameReads, reads_agree}
use deepseek_harness_gateway.Sqlite.Example.{list_engine}

abbrev ann : User
ann = record { id = text "ann"; role = Role.user; auth_hash = text "h" }

abbrev box : Machine
box = record {
  id = text "box";
  name = text "Box";
  node_key_hash = text "k";
  status = MachineStatus.approved;
  dsh_version = none;
  config_rev = 0;
  last_heartbeat_at = none;
  created_at = text "2025-01-01";
  daemon_state = none;
  daemon_enabled = none;
}

abbrev link : Assignment
link = record { machine_id = text "box"; user_id = text "ann"; created_at = text "2025-01-02" }

abbrev login_event : AuditEvent
login_event = record {
  ts = text "2025-01-03";
  actor = text "ann";
  machine_id = none;
  action = text "login.ok";
  result = AuditResult.ok;
  detail = none;
}

abbrev failures : ThrottleAccount
failures = record {
  account = text "ann";
  lock_until = 0;
  lock_count = 0;
  fails = 5 ∷ 17 ∷ [];
  updated_at = 17;
}

-- An account, a machine, its assignment and an event; the event is purged, the machine deleted.
abbrev calls : List Write
calls =
    Write.upserts_user ann
    ∷ Write.upserts_machine box
    ∷ Write.assigns link
    ∷ Write.appends login_event
    ∷ Write.saves_account failures
    ∷ Write.purges (text "2025-02-01") (some 1)
    ∷ Write.deletes_machine (text "box")
    ∷ []

allowed : AllAllowed calls empty_store
unfolding memory_write upsert_user upsert_machine add_assignment get set includes text_eq
allowed = (tt, (tt, (((refl, refl), refl, refl), (tt, (tt, (tt, (refl, tt)))))))

sqlite_refines_memory_example :
    (after : Db list_engine) × (sqlite_writes list_engine calls (empty_db list_engine) ≡ some after)
    × Represents list_engine after (memory_writes calls empty_store)
sqlite_refines_memory_example = sqlite_refines_memory list_engine calls allowed

reads_agree_example :
    SameReads list_engine
      (sqlite_refines_memory list_engine calls allowed).0
      (memory_writes calls empty_store)
reads_agree_example =
    reads_agree list_engine (sqlite_refines_memory list_engine calls allowed).0
      (memory_writes calls empty_store) (sqlite_refines_memory list_engine calls allowed).2
