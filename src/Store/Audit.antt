-- ===== src/Store/Audit.antt =====
-- `queryAudit` and `purgeAudit` of packages/store/src/memory.ts, with `AuditQueryOptions` (IStore.ts).
pub mod Query
pub mod Purge
mod Tests
use deepseek_harness_gateway.Common.{
  ℕ, suc, ◌+◌, Bool, true, false, not, ◌&&◌, ◌||◌, Option, none, some, List, [], ◌∷◌, ltb,
  if◌then◌else◌,
}
use deepseek_harness_gateway.Common.Text.{Text, text_eq, text_lt}
use deepseek_harness_gateway.Common.Lists.{filter, take, drop}
use deepseek_harness_gateway.Common.Sort.{sort}
use deepseek_harness_gateway.Store.Domain.{AuditEvent, Store, result_text}

pub record AuditQueryOptions : Type 0 where
  pub since : Option Text
  pub until : Option Text
  pub machine_id : Option Text
  pub actor : Option Text
  pub action : Option Text
  pub result : Option Text
  pub limit : Option ℕ
  pub offset : Option ℕ

abbrev pub no_options : AuditQueryOptions
no_options = record {
  since = none;
  until = none;
  machine_id = none;
  actor = none;
  action = none;
  result = none;
  limit = none;
  offset = none;
}

-- `opt === undefined || v === opt`
abbrev pub absent_or_equal : Option Text → Text → Bool
absent_or_equal none v = true
absent_or_equal (some o) v = text_eq v o

abbrev pub absent_or_equal? : Option Text → Option Text → Bool
absent_or_equal? none v = true
absent_or_equal? (some o) none = false
absent_or_equal? (some o) (some v) = text_eq v o

-- `e.ts >= opts.since`
abbrev pub not_before : Option Text → Text → Bool
not_before none ts = true
not_before (some since) ts = not (text_lt ts since)

-- `e.ts <= opts.until`
abbrev pub not_after : Option Text → Text → Bool
not_after none ts = true
not_after (some until) ts = not (text_lt until ts)

unfoldable pub matches : AuditQueryOptions → AuditEvent → Bool
matches opts e =
    not_before opts.since e.ts
    && (not_after opts.until e.ts
        && (absent_or_equal? opts.machine_id e.machine_id
            && (absent_or_equal opts.actor e.actor
                && (absent_or_equal opts.action e.action
                    && absent_or_equal opts.result (result_text e.result)))))

abbrev pub ts_lt : AuditEvent → AuditEvent → Bool
ts_lt a b = text_lt a.ts b.ts

-- `opts.offset ?? 0`
abbrev pub start_of : Option ℕ → ℕ
start_of none = 0
start_of (some n) = n

abbrev page : Option ℕ → ℕ → List AuditEvent → List AuditEvent
page none start rows = rows
page (some limit) start rows = take limit (drop start rows)

unfoldable pub query_audit : AuditQueryOptions → Store → List AuditEvent
query_audit opts s =
    page opts.limit (start_of opts.offset) (sort ts_lt (filter (matches opts) s.audit))

-- `limit === undefined || removed < limit`
abbrev room : Option ℕ → ℕ → Bool
room none removed = true
room (some limit) removed = ltb removed limit

-- The loop of `purgeAudit`: the survivors, and `removed` at its end.
unfoldable pub purge_loop : Text → Option ℕ → ℕ → List AuditEvent → List AuditEvent × ℕ
purge_loop before limit removed [] = ([], removed)
purge_loop before limit removed (e ∷ es) =
    let drop_it = text_lt e.ts before && room limit removed in
    let (survivors, total) =
      purge_loop before limit (if drop_it then suc removed else removed) es in
    (if drop_it then survivors else e ∷ survivors, total)

unfoldable pub purge_audit : Text → Option ℕ → Store → Store × ℕ
unfolding purge_loop
purge_audit before limit s =
    let (survivors, removed) = purge_loop before limit 0 s.audit in
    (record s { audit = survivors }, removed)
