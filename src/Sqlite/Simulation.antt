-- ===== src/Sqlite/Simulation.antt =====
-- Any sequence of writing calls of packages/store/src/IStore.ts, made on both of its implementations.
use deepseek_harness_gateway.Common.{◌≡◌, refl, Option, none, some, List, [], ◌∷◌}
use deepseek_harness_gateway.Store.Domain.{Store, empty_store}
use deepseek_harness_gateway.Sqlite.Rows.{Engine, Db}
use deepseek_harness_gateway.Sqlite.{empty_db}
use deepseek_harness_gateway.Sqlite.Refines.{
  Write, upserts_user, deletes_user, upserts_machine, deletes_machine, assigns, unassigns,
  upserts_code, consumes_code, appends, purges, saves_account, deletes_account, saves_ip,
  deletes_ip, memory_write, sqlite_write, Allowed, Represents,
}
use deepseek_harness_gateway.Sqlite.Writes.{
  upsert_user-Represents, upsert_machine-Represents, upsert_pairing_code-Represents,
  consume_pairing_code-Represents, save_throttle_account-Represents, save_throttle_ip-Represents,
  delete_throttle_account-Represents, delete_throttle_ip-Represents,
}
use deepseek_harness_gateway.Sqlite.Cascades.{
  delete_user-Represents, delete_machine-Represents, add_assignment-Represents,
  remove_assignment-Represents,
}
use deepseek_harness_gateway.Sqlite.Audits.{append_audit-Represents, purge_audit-Represents}
use deepseek_harness_gateway.Sqlite.Assignments.{assigned}
use deepseek_harness_gateway.Common.Dict.{get}

unfoldable pub memory_writes : List Write → Store → Store
memory_writes [] s = s
memory_writes (w ∷ ws) s = memory_writes ws (memory_write w s)

abbrev and_then {ℓ} : {A : Type ℓ} → Option A → (A → Option A) → Option A
and_then none f = none
and_then (some a) f = f a

unfoldable pub sqlite_writes : (g : Engine) → List Write → Db g → Option (Db g)
sqlite_writes g [] db = some db
sqlite_writes g (w ∷ ws) db = and_then (sqlite_write g w db) (sqlite_writes g ws)

-- Each call is allowed when it is made.
abbrev pub AllAllowed : List Write → Store → Type 0
AllAllowed [] s = Unit
AllAllowed (w ∷ ws) s = Allowed w s × AllAllowed ws (memory_write w s)

module _ (g : Engine) where
  write-Represents :
      (w : Write) {db : Db g} {s : Store}
      → Represents g db s
      → Allowed w s
      → (after : Db g) × (sqlite_write g w db ≡ some after) × Represents g after (memory_write w s)
  unfolding memory_write sqlite_write
  write-Represents (upserts_user u) r a = (_, refl, upsert_user-Represents g r u)
  write-Represents (deletes_user id) r a = (_, refl, delete_user-Represents g r id a)
  write-Represents (upserts_machine m) r a = (_, refl, upsert_machine-Represents g r m)
  write-Represents (deletes_machine id) r a = (_, refl, delete_machine-Represents g r id a)
  write-Represents (assigns x) r a = add_assignment-Represents g r x a.0.0 a.0.1 a.1 a.2
  write-Represents (unassigns m u) r a = (_, refl, remove_assignment-Represents g r m u a)
  write-Represents (upserts_code c) r a = (_, refl, upsert_pairing_code-Represents g r c)
  write-Represents (consumes_code h m) r a = (_, refl, consume_pairing_code-Represents g r h m)
  write-Represents (appends e) r a = (_, refl, append_audit-Represents g r e)
  write-Represents (purges b l) r a = (_, refl, (purge_audit-Represents g r b l).0)
  write-Represents (saves_account x) r a = (_, refl, save_throttle_account-Represents g r x)
  write-Represents (deletes_account k) r a = (_, refl, delete_throttle_account-Represents g r k)
  write-Represents (saves_ip x) r a = (_, refl, save_throttle_ip-Represents g r x)
  write-Represents (deletes_ip k) r a = (_, refl, delete_throttle_ip-Represents g r k)

  writes-Represents :
      (ws : List Write) {db : Db g} {s : Store}
      → Represents g db s
      → AllAllowed ws s
      → (after : Db g) × (sqlite_writes g ws db ≡ some after)
        × Represents g after (memory_writes ws s)
  unfolding memory_writes sqlite_writes
  writes-Represents [] {db = db} r a = (db, refl, r)
  writes-Represents (w ∷ ws) r a =
      let (mid, done, r') = write-Represents w r a.0 in
      let (after, rest, r'') = writes-Represents ws r' a.1 in (after, rw done rest, r'')

  empty-Represents : Represents g (empty_db g) empty_store
  unfolding empty_db get assigned
  empty-Represents = record {
    users = λ k. g.users.find-empty k;
    machines = λ k. g.machines.find-empty k;
    assignments = λ m u. rw (g.assignments.find-empty (m, u)) refl;
    pairing_codes = λ k. g.pairing_codes.find-empty k;
    audit = rw g.audit_events.entries-empty refl;
    accounts = λ k. g.throttle_accounts.find-empty k;
    ips = λ k. g.throttle_ips.find-empty k;
    keyed = tt;
    users_listed = tt;
    machines_listed = tt;
    codes_listed = tt;
    accounts_listed = tt;
    ips_listed = tt;
  }

-- The SQLite store refines the in-memory store: whatever is written to both, from the start on, in
-- whatever order, no call on the database throws, and the database comes to hold what the in-memory
-- store holds, up to the dates of assignments; provided that assigned users and machines are there
-- when they are assigned, and that ids which stand in an assignment or are deleted hold no colon.
pub sqlite_refines_memory :
    (g : Engine) (ws : List Write)
    → AllAllowed ws empty_store
    → (after : Db g) × (sqlite_writes g ws (empty_db g) ≡ some after)
      × Represents g after (memory_writes ws empty_store)
sqlite_refines_memory g ws a = writes-Represents g ws (empty-Represents g) a
