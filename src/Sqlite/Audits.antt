-- ===== src/Sqlite/Audits.antt =====
-- The audit table of packages/store/src/sqlite.ts against the audit log of memory.ts.
use mathlib.Core.List.{map-append}
use deepseek_harness_gateway.Common.{
  ℕ, zero, suc, ◌≡◌, refl, sym, ap, subst, ◌∙◌, Option, none, some, List, [], ◌∷◌, ◌++◌, arith,
  nat_eq,
}
use deepseek_harness_gateway.Common.Text.{Text, text_lt}
use deepseek_harness_gateway.Common.Lists.{filter, count, any}
use deepseek_harness_gateway.Common.Dict.{Dict}
use deepseek_harness_gateway.Store.Domain.{AuditEvent, Store}
use deepseek_harness_gateway.Store.Memory
use deepseek_harness_gateway.Store.Audit
use deepseek_harness_gateway.Store.Audit.{purge_loop}
use deepseek_harness_gateway.Sqlite
use deepseek_harness_gateway.Sqlite.Rows.{Engine, Db}
use deepseek_harness_gateway.Sqlite.Entries.{
  events, first_ids, chosen, spared, batch-loop, batch-loop_none,
}
use deepseek_harness_gateway.Sqlite.Refines.{Represents, with_audit}

filter-spared_nil : (m : Dict ℕ AuditEvent) → filter (spared []) m ≡ m
unfolding filter any
filter-spared_nil [] = refl
filter-spared_nil (x ∷ m) = ap (λ z. x ∷ z) (filter-spared_nil m)

count-chosen_nil : (m : Dict ℕ AuditEvent) → count (chosen []) m ≡ 0
unfolding count any
count-chosen_nil [] = refl
count-chosen_nil (x ∷ m) = count-chosen_nil m

purge_loop_nothing :
    (before : Text) (removed : ℕ) (es : List AuditEvent)
    → purge_loop before (some removed) removed es ≡ (es, removed)
unfolding purge_loop
purge_loop_nothing before removed [] = refl
purge_loop_nothing before removed (e ∷ es) = ground (arith, purge_loop_nothing before removed es)

module _ (g : Engine) (db : Db g) where
  delete_ids_lem :
      (ids : List ℕ)
      → (t : g.audit_events.T) × (Sqlite.delete_ids g ids db ≡ (
        count (chosen ids) (g.audit_events.entries db.audit_events),
        record db { audit_events = t },
      ))
        × (g.audit_events.entries t ≡ filter (spared ids) (g.audit_events.entries db.audit_events))
  delete_ids_lem [] = (
    db.audit_events,
    ap (λ n. (n, db)) (sym (count-chosen_nil (g.audit_events.entries db.audit_events))),
    sym (filter-spared_nil (g.audit_events.entries db.audit_events)),
  )
  delete_ids_lem (i ∷ ids) =
      let gone = λ (id : ℕ) (e : AuditEvent). any (nat_eq id) (i ∷ ids) in
      (
        g.audit_events.delete_where gone db.audit_events,
        ap (λ n. (n, record db { audit_events = g.audit_events.delete_where gone db.audit_events }))
            (g.audit_events.changes-count gone db.audit_events),
        g.audit_events.entries-delete_where gone db.audit_events,
      )

module _ (g : Engine) {db : Db g} {s : Store} (r : Represents g db s) where
  pub append_audit-Represents :
      (e : AuditEvent) → Represents g (Sqlite.append_audit g e db) (Memory.append_audit e s)
  unfolding Sqlite.append_audit Memory.append_audit
  append_audit-Represents e =
      let (id, added) = g.audit_events.entries-insert e db.audit_events in
      with_audit g r _ _ (
        ap events added
        ∙ map-append (λ (x : ℕ × AuditEvent). x.1) (g.audit_events.entries db.audit_events)
            ((id, e) ∷ [])
        ∙ ap (λ es. es ++ e ∷ []) r.audit)

  -- The same rows go, and as many are counted.
  pub purge_audit-Represents :
      (before : Text) (limit : Option ℕ)
      → Represents g (Sqlite.purge_audit g before limit db).1 (Audit.purge_audit before limit s).0
        × ((Sqlite.purge_audit g before limit db).0 ≡ (Audit.purge_audit before limit s).1)
  unfolding Sqlite.purge_audit Audit.purge_audit first_ids
  purge_audit-Represents before none =
      let gone = λ (id : ℕ) (e : AuditEvent). text_lt e.ts before in
      let loop = batch-loop_none before 0 (g.audit_events.entries db.audit_events) in
      (
        with_audit g r _ _ (
            ap events (g.audit_events.entries-delete_where gone db.audit_events)
            ∙ loop.0
            ∙ ap (λ es. (purge_loop before none 0 es).0) r.audit),
        g.audit_events.changes-count gone db.audit_events
            ∙ omega (arith, loop.1)
            ∙ ap (λ es. (purge_loop before none 0 es).1) r.audit,
      )
  purge_audit-Represents before (some zero) = (
    with_audit g r db.audit_events _
        (r.audit ∙ sym (ap (λ p. p.0) (purge_loop_nothing before 0 s.audit))),
    sym (ap (λ p. p.1) (purge_loop_nothing before 0 s.audit)),
  )
  purge_audit-Represents before (some (suc n)) =
      let ids = first_ids before (suc n) (g.audit_events.entries db.audit_events) in
      let loop =
        batch-loop before (suc n) (g.audit_events.entries db.audit_events)
          (g.audit_events.ids_unique db.audit_events) in
      let (t, done, left) = delete_ids_lem g db ids in
      (
        subst (λ (p : ℕ × Db g). Represents g p.1 (Audit.purge_audit before (some (suc n)) s).0)
            (sym done)
            (with_audit g r t _ (
              ap events left
              ∙ loop.0
              ∙ ap (λ es. (purge_loop before (some (suc n)) 0 es).0) r.audit)),
        ap (λ p. p.0) done ∙ loop.1 ∙ ap (λ es. (purge_loop before (some (suc n)) 0 es).1) r.audit,
      )
