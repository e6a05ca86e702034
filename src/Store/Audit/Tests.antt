-- ===== src/Store/Audit/Tests.antt =====
-- The audit theorems at a concrete log (packages/store/src/memory.ts).
use mathlib.Core.List.{Perm, Sublist}
use deepseek_harness_gateway.Common.{◌≡◌, ◌↔◌, refl, Bool, true, ◌&&◌, none, some, [], ◌∷◌, arith}
use deepseek_harness_gateway.Common.Text.{Text, text, text_eq, text_lt, text_eq_iff}
use deepseek_harness_gateway.Common.Lists.{filter, drop, count}
use deepseek_harness_gateway.Common.Sort.{IsSorted}
use deepseek_harness_gateway.Store.Domain.{AuditEvent, Store, ok, denied, result_text, empty_store}
use deepseek_harness_gateway.Store.Audit.{AuditQueryOptions, no_options, query_audit, purge_audit}
use deepseek_harness_gateway.Store.Audit.Query.{at_ts, Asked, query_audit-chronological}
use deepseek_harness_gateway.Store.Audit.Purge.{expired, kept, capped, purge_audit-removes_oldest}

abbrev late : AuditEvent
late = record {
  ts = text "2026-02-02";
  actor = text "admin";
  machine_id = none;
  action = text "login";
  result = ok;
  detail = none;
}

abbrev early : AuditEvent
early = record late { ts = text "2026-01-01"; result = denied }

abbrev two_events : Store
two_events = record empty_store { audit = late ∷ early ∷ [] }

-- The denied events of one actor.
abbrev denied_of_admin : AuditQueryOptions
denied_of_admin = record no_options { actor = some (text "admin"); result = some (text "denied") }

abbrev is_denied_of_admin : AuditEvent → Bool
is_denied_of_admin e =
    text_eq e.actor (text "admin") && text_eq (result_text e.result) (text "denied")

denied_of_admin-Asked : (e : AuditEvent) → (is_denied_of_admin e ≡ true) ↔ Asked denied_of_admin e
denied_of_admin-Asked e =
    let actor = text_eq_iff e.actor (text "admin") in
    let result = text_eq_iff (result_text e.result) (text "denied") in
    (
      λ h. (tt, (tt, (tt, (actor.0 (ground (arith, h)), (tt, result.0 (ground (arith, h))))))),
      λ h. ground (arith, actor.1 h.1.1.1.0, result.1 h.1.1.1.1.1),
    )

query_audit-chronological_example :
    IsSorted (λ a b. text_lt a.ts b.ts) (query_audit denied_of_admin two_events)
    × Perm (query_audit denied_of_admin two_events) (filter is_denied_of_admin two_events.audit)
    × ((ts : Text)
        → filter (at_ts ts) (query_audit denied_of_admin two_events)
          ≡ filter (at_ts ts) (filter is_denied_of_admin two_events.audit))
query_audit-chronological_example =
    query_audit-chronological denied_of_admin two_events is_denied_of_admin refl
      denied_of_admin-Asked

abbrev cutoff : Text
cutoff = text "2026-02-01"

purge_audit-removes_oldest_example :
    ((purge_audit cutoff (some 1) two_events).1
      ≡ capped (some 1) (count (expired cutoff) two_events.audit))
    × (filter (expired cutoff) (purge_audit cutoff (some 1) two_events).0.audit
        ≡ drop
            (purge_audit cutoff (some 1) two_events).1
            (filter (expired cutoff) two_events.audit))
    × (filter (kept cutoff) (purge_audit cutoff (some 1) two_events).0.audit
        ≡ filter (kept cutoff) two_events.audit)
    × Sublist (purge_audit cutoff (some 1) two_events).0.audit two_events.audit
purge_audit-removes_oldest_example = purge_audit-removes_oldest cutoff (some 1) two_events
