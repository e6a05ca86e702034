-- ===== src/Sqlite/Reads.antt =====
-- The reading calls of packages/store/src/sqlite.ts against those of memory.ts.
use mathlib.Core.List.{Perm}
use mathlib.Core.List.Perm
use deepseek_harness_gateway.Common.{
  ◌≡◌, refl, sym, ap, subst, ◌∙◌, true, Option, none, some, List, [], ◌∷◌, map, arith, ◌==◌,
  Option-cases, inl, inr,
}
use deepseek_harness_gateway.Common.Text.{Text, text_eq, text_eq_iff, Eq-text}
use deepseek_harness_gateway.Common.Lists.{filter, any, All}
use deepseek_harness_gateway.Common.Numbers.{parse-stringify_numbers}
use deepseek_harness_gateway.Common.Sort.{IsSorted, sort, sort-perm}
use deepseek_harness_gateway.Common.Dict.{Dict, get, values}
use deepseek_harness_gateway.Store.Domain.{
  User, Machine, Assignment, PairingCode, ThrottleAccount, ThrottleIp, Store,
}
use deepseek_harness_gateway.Store.Memory
use deepseek_harness_gateway.Store.Audit
use deepseek_harness_gateway.Store.Audit.{AuditQueryOptions, matches, ts_lt}
use deepseek_harness_gateway.Sqlite
use deepseek_harness_gateway.Sqlite.Rows.{
  Engine, Db, machine_row, machine_from_row, account_row, ip_row, account_from_row, ip_from_row,
  is_some, Eq-pair, pair_eq, assignment_id, every_row,
}
use deepseek_harness_gateway.Sqlite.Database.{mapped, kept, rows_of}
use deepseek_harness_gateway.Sqlite.Assignments.{assigned}
use deepseek_harness_gateway.Sqlite.Lists.{filter-values}
use deepseek_harness_gateway.Sqlite.Tables.{find-key, mapped_same, select-Holds}
use deepseek_harness_gateway.Sqlite.Refines.{Represents}
use deepseek_harness_gateway.Sqlite.Parsed.{mapped-mapped, filter-map, map-rows_of, parsed_rows}

-- what the table keeps of a machine: a missing `daemonEnabled` is read back as `false`
abbrev pub stored : Machine → Machine
unfolding machine_row machine_from_row
stored m = machine_from_row (machine_row m)

-- ---- is a machine among the assignments of a user
any-machine_memory :
    (m u : Text) (d : Dict Text Assignment)
    → any (λ a. text_eq a.machine_id m) (filter (λ a. text_eq a.user_id u) (values d))
      ≡ assigned m u d
unfolding any filter values assigned
any-machine_memory m u [] = refl
any-machine_memory m u ((k, a) ∷ d) = ground (arith, any-machine_memory m u d)

any-filter :
    (m u : Text) (xs : List Assignment)
    → All (λ a. text_eq a.user_id u ≡ true) xs
    → any (λ a. text_eq a.machine_id m) xs
      ≡ any (λ (a : Assignment). true) (filter (λ a. pair_eq (assignment_id a) (m, u)) xs)
unfolding any filter
any-filter m u [] h = refl
any-filter m u (a ∷ xs) h = ground (arith, any-filter m u xs h.1, h.0)

any-rows_of : (o : Option Assignment) → any (λ (a : Assignment). true) (rows_of o) ≡ is_some o
unfolding any
any-rows_of none = refl
any-rows_of (some a) = refl

module _ (g : Engine) (t : g.assignments.T) (m u : Text) where
  kept_own :
      is_some (kept (λ a. text_eq a.user_id u) (g.assignments.find (m, u) t))
      ≡ is_some (g.assignments.find (m, u) t)
  kept_own = elim (Option-cases (g.assignments.find (m, u) t)) [
    | inl z ↦ rw z refl
    | inr (a, z) ↦
        let own : a.user_id ≡ u = ap (λ k. k.1) (find-key g.assignments (m, u) t a z) in
        rw z (ground (arith, own, text_eq_iff a.user_id u))
  ]

  any-machine_sqlite :
      any (λ a. text_eq a.machine_id m) (g.assignments.select (λ a. text_eq a.user_id u) t)
      ≡ is_some (g.assignments.find (m, u) t)
  any-machine_sqlite =
      any-filter m u (g.assignments.select (λ a. text_eq a.user_id u) t)
        (g.assignments.select-holds (λ a. text_eq a.user_id u) t)
      ∙ ap (any (λ (a : Assignment). true))
          (g.assignments.find-select (λ a. text_eq a.user_id u) (m, u) t)
      ∙ any-rows_of (kept (λ a. text_eq a.user_id u) (g.assignments.find (m, u) t))
      ∙ kept_own

-- ---- all reads
-- The two stores list the same, up to order: under each key the same rows, as often.
abbrev pub SameBy {ℓ} : {A : Type ℓ} → (A → Text) → List A → List A → Type ℓ
SameBy key xs ys = (k : Text) → filter (λ x. key x == k) xs ≡ filter (λ x. key x == k) ys

account_back : (a : ThrottleAccount) → account_from_row (account_row a) ≡ some a
unfolding account_from_row account_row
account_back a = rw (parse-stringify_numbers a.fails) refl

ip_back : (r : ThrottleIp) → ip_from_row (ip_row r) ≡ some r
unfolding ip_from_row ip_row
ip_back r = rw (parse-stringify_numbers r.attempts) refl

pub record SameReads (g : Engine) (db : Db g) (s : Store) : Type 0 where
  pub user : (id : Text) → Sqlite.get_user g id db ≡ Memory.get_user id s
  pub machine : (id : Text) → Sqlite.get_machine g id db ≡ mapped stored (Memory.get_machine id s)
  pub code :
      (h : Text) → Sqlite.get_pairing_code_by_hash g h db ≡ Memory.get_pairing_code_by_hash h s
  pub assignment :
      (m u : Text)
      → any (λ a. text_eq a.machine_id m) (Sqlite.list_assignments_for_user g u db)
        ≡ any (λ a. text_eq a.machine_id m) (Memory.list_assignments_for_user u s)
  pub users : SameBy (λ u. u.id) (Sqlite.list_users g db) (Memory.list_users s)
  pub machines :
      SameBy (λ m. m.id) (Sqlite.list_machines g db) (map stored (Memory.list_machines s))
  pub codes :
      SameBy (λ c. c.code_hash) (Sqlite.list_pairing_codes g db) (Memory.list_pairing_codes s)
  pub accounts :
      (rows : List ThrottleAccount) × (Sqlite.list_throttle_accounts g db ≡ some rows)
      × SameBy (λ a. a.account) rows (Memory.list_throttle_accounts s)
  pub ips :
      (rows : List ThrottleIp) × (Sqlite.list_throttle_ips g db ≡ some rows)
      × SameBy (λ r. r.ip) rows (Memory.list_throttle_ips s)
  pub audit :
      (opts : AuditQueryOptions)
      → opts.limit ≡ none
      → IsSorted ts_lt (Sqlite.query_audit g opts db)
        × Perm (Sqlite.query_audit g opts db) (Audit.query_audit opts s)

module _ (g : Engine) {db : Db g} {s : Store} (r : Represents g db s) where
  same_user : (id : Text) → Sqlite.get_user g id db ≡ Memory.get_user id s
  unfolding Sqlite.get_user Memory.get_user
  same_user id = r.users id ∙ mapped_same (get id s.users)

  same_machine : (id : Text) → Sqlite.get_machine g id db ≡ mapped stored (Memory.get_machine id s)
  unfolding Sqlite.get_machine Memory.get_machine machine_row machine_from_row
  same_machine id =
      ap (mapped machine_from_row) (r.machines id)
      ∙ mapped-mapped machine_row machine_from_row (get id s.machines)

  same_code :
      (h : Text) → Sqlite.get_pairing_code_by_hash g h db ≡ Memory.get_pairing_code_by_hash h s
  unfolding Sqlite.get_pairing_code_by_hash Memory.get_pairing_code_by_hash
  same_code h = r.pairing_codes h ∙ mapped_same (get h s.pairing_codes)

  same_assignment :
      (m u : Text)
      → any (λ a. text_eq a.machine_id m) (Sqlite.list_assignments_for_user g u db)
        ≡ any (λ a. text_eq a.machine_id m) (Memory.list_assignments_for_user u s)
  unfolding Sqlite.list_assignments_for_user Memory.list_assignments_for_user
  same_assignment m u =
      any-machine_sqlite g db.assignments m u
      ∙ r.assignments m u
      ∙ sym (any-machine_memory m u s.assignments)

  same_users : SameBy (λ u. u.id) (Sqlite.list_users g db) (Memory.list_users s)
  unfolding Sqlite.list_users Memory.list_users
  same_users k =
      select-Holds g.users (λ (u : User). u.id) (λ u. u) (λ v. refl) db.users s.users r.users
        r.users_listed k
      ∙ ap rows_of (mapped_same (get k s.users))
      ∙ sym (filter-values (λ (u : User). u.id) k s.users r.users_listed)

  same_codes :
      SameBy (λ c. c.code_hash) (Sqlite.list_pairing_codes g db) (Memory.list_pairing_codes s)
  unfolding Sqlite.list_pairing_codes Memory.list_pairing_codes
  same_codes k =
      select-Holds g.pairing_codes (λ (c : PairingCode). c.code_hash) (λ c. c) (λ v. refl)
        db.pairing_codes s.pairing_codes r.pairing_codes r.codes_listed k
      ∙ ap rows_of (mapped_same (get k s.pairing_codes))
      ∙ sym (filter-values (λ (c : PairingCode). c.code_hash) k s.pairing_codes r.codes_listed)

  same_machines :
      SameBy (λ m. m.id) (Sqlite.list_machines g db) (map stored (Memory.list_machines s))
  unfolding Sqlite.list_machines Memory.list_machines machine_row machine_from_row
  same_machines k =
      filter-map (λ (m : Machine). m.id == k) machine_from_row
        (g.machines.select every_row db.machines)
      ∙ ap (map machine_from_row) (
          select-Holds g.machines (λ (m : Machine). m.id) machine_row (λ v. refl) db.machines
            s.machines r.machines r.machines_listed k)
      ∙ map-rows_of machine_from_row (mapped machine_row (get k s.machines))
      ∙ ap rows_of (mapped-mapped machine_row machine_from_row (get k s.machines))
      ∙ sym (map-rows_of stored (get k s.machines))
      ∙ sym (ap (map stored) (filter-values (λ (m : Machine). m.id) k s.machines r.machines_listed))
      ∙ sym (filter-map (λ (m : Machine). m.id == k) stored (values s.machines))

  same_accounts :
      (rows : List ThrottleAccount) × (Sqlite.list_throttle_accounts g db ≡ some rows)
      × SameBy (λ a. a.account) rows (Memory.list_throttle_accounts s)
  unfolding Sqlite.list_throttle_accounts Memory.list_throttle_accounts account_row
  same_accounts =
      let (rows, e, h) =
        parsed_rows account_row account_from_row account_back (λ row. row.account)
          (λ (a : ThrottleAccount). a.account) (λ k. get k s.throttle_accounts)
          (g.throttle_accounts.select every_row db.throttle_accounts) (λ v. refl)
          (select-Holds g.throttle_accounts (λ (a : ThrottleAccount). a.account) account_row
            (λ v. refl) db.throttle_accounts s.throttle_accounts r.accounts r.accounts_listed) in
      (
        rows,
        e,
        λ k.
            h k
            ∙ sym (
                filter-values (λ (a : ThrottleAccount). a.account) k s.throttle_accounts
                  r.accounts_listed),
      )

  same_ips :
      (rows : List ThrottleIp) × (Sqlite.list_throttle_ips g db ≡ some rows)
      × SameBy (λ x. x.ip) rows (Memory.list_throttle_ips s)
  unfolding Sqlite.list_throttle_ips Memory.list_throttle_ips ip_row
  same_ips =
      let (rows, e, h) =
        parsed_rows ip_row ip_from_row ip_back (λ row. row.ip) (λ (x : ThrottleIp). x.ip)
          (λ k. get k s.throttle_ips) (g.throttle_ips.select every_row db.throttle_ips) (λ v. refl)
          (select-Holds g.throttle_ips (λ (x : ThrottleIp). x.ip) ip_row (λ v. refl) db.throttle_ips
            s.throttle_ips r.ips r.ips_listed) in
      (
        rows,
        e,
        λ k. h k ∙ sym (filter-values (λ (x : ThrottleIp). x.ip) k s.throttle_ips r.ips_listed),
      )

  same_audit :
      (opts : AuditQueryOptions)
      → opts.limit ≡ none
      → IsSorted ts_lt (Sqlite.query_audit g opts db)
        × Perm (Sqlite.query_audit g opts db) (Audit.query_audit opts s)
  unfolding Sqlite.query_audit Audit.query_audit
  same_audit opts whole = simp whole (
    g.audit_events.ordered-IsSorted (matches opts) db.audit_events,
    Perm.trans (g.audit_events.ordered-perm (matches opts) db.audit_events) (
        subst (λ es. Perm (filter (matches opts) es) (sort ts_lt (filter (matches opts) s.audit)))
          (sym r.audit) (Perm.symm (sort-perm ts_lt (filter (matches opts) s.audit)))),
  )

-- Where the database holds what the in-memory store holds, both answer alike: every user, machine
-- and pairing code by its id, whether a machine is assigned to a user, the lists up to their order,
-- the throttle's rows (none of which fails to parse), and audit queries without a page size, up to
-- the order of events of one date. Only a machine's missing `daemonEnabled` is read back as false.
pub reads_agree : (g : Engine) (db : Db g) (s : Store) → Represents g db s → SameReads g db s
reads_agree g db s r = record {
  user = same_user g r;
  machine = same_machine g r;
  code = same_code g r;
  assignment = same_assignment g r;
  users = same_users g r;
  machines = same_machines g r;
  codes = same_codes g r;
  accounts = same_accounts g r;
  ips = same_ips g r;
  audit = same_audit g r;
}
