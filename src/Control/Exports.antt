-- ===== src/Control/Exports.antt =====
-- The audit queries and exports of apps/gateway/src/control.ts.
use deepseek_harness_gateway.Common.{
  ℕ, zero, suc, ◌+◌, min, Bool, ◌||◌, Option, none, some, List, [], ◌∷◌, ◌++◌, map, nat_eq, ltb,
  if◌then◌else◌,
}
use deepseek_harness_gateway.Common.Text.{Text, text}
use deepseek_harness_gateway.Common.Lists.{length, any}
use deepseek_harness_gateway.Common.Json.{Json, str, undefined, stringify, comma_join}
use deepseek_harness_gateway.Store.Domain.{Store, AuditEvent, result_text}
use deepseek_harness_gateway.Store.Audit.{AuditQueryOptions, query_audit}

abbrev pub audit_page_max : ℕ
audit_page_max = 1000

-- A query parameter: `queryStr` keeps a text that is not empty.
abbrev query_str : Option Text → Option Text
query_str none = none
query_str (some []) = none
query_str (some (c ∷ s)) = some (c ∷ s)

-- The query of a request: `limit` and `offset` as `Number` reads them, none for no natural number.
pub record AuditQuery : Type 0 where
  pub since : Option Text
  pub until : Option Text
  pub machine_id : Option Text
  pub actor : Option Text
  pub action : Option Text
  pub result : Option Text
  pub limit : Option ℕ
  pub offset : Option ℕ

abbrev capped_limit : Option ℕ → Option ℕ
capped_limit none = none
capped_limit (some zero) = none
capped_limit (some (suc n)) = some (min (suc n) audit_page_max)

unfoldable pub parse_audit_query : AuditQuery → AuditQueryOptions
parse_audit_query q = record {
  since = query_str q.since;
  until = query_str q.until;
  machine_id = query_str q.machine_id;
  actor = query_str q.actor;
  action = query_str q.action;
  result = query_str q.result;
  limit = capped_limit q.limit;
  offset = q.offset;
}

abbrev opt_json : Option Text → Json
opt_json none = undefined
opt_json (some s) = str s

unfoldable pub audit_line_jsonl : AuditEvent → Text
audit_line_jsonl e =
    stringify (
      (text "ts", str e.ts)
      ∷ (text "actor", str e.actor)
      ∷ (text "machineId", opt_json e.machine_id)
      ∷ (text "action", str e.action)
      ∷ (text "result", str (result_text e.result))
      ∷ (text "detail", opt_json e.detail)
      ∷ [])
    ++ 10 ∷ []

-- `v.replace(/"/g, '""')`
unfoldable pub double_quotes : Text → Text
double_quotes [] = []
double_quotes (c ∷ s) =
    let rest = double_quotes s in if nat_eq c 34 then 34 ∷ 34 ∷ rest else c ∷ rest

abbrev special : ℕ → Bool
special c = nat_eq c 34 || nat_eq c 44 || nat_eq c 10 || nat_eq c 13

unfoldable pub csv_field : Text → Text
unfolding double_quotes
csv_field v = if any special v then 34 ∷ (double_quotes v ++ 34 ∷ []) else v

abbrev or_empty : Option Text → Text
or_empty none = []
or_empty (some s) = s

unfoldable pub audit_line_csv : AuditEvent → Text
unfolding csv_field comma_join
audit_line_csv e =
    comma_join (
      map csv_field (
        e.ts
        ∷ e.actor
        ∷ or_empty e.machine_id
        ∷ e.action
        ∷ result_text e.result
        ∷ or_empty e.detail
        ∷ []))
    ++ 10 ∷ []

pub data Format : Type 0 where
  jsonl csv : Format

unfoldable pub line_of : Format → AuditEvent → Text
unfolding audit_line_jsonl audit_line_csv
line_of jsonl e = audit_line_jsonl e
line_of csv e = audit_line_csv e

abbrev pub header_of : Format → List Text
header_of jsonl = []
header_of csv = text "ts,actor,machineId,action,result,detail\n" ∷ []

abbrev pub page_of : AuditQueryOptions → ℕ → ℕ → Store → List AuditEvent
page_of opts page_max offset s =
    query_audit (record opts { limit = some page_max; offset = some offset }) s

-- The loop of `streamAuditLines`, with the pages left, on a log that does not change meanwhile.
unfoldable pub stream_pages : ℕ → ℕ → Format → AuditQueryOptions → ℕ → Store → List Text
unfolding line_of
stream_pages zero page_max format opts offset s = []
stream_pages (suc pages) page_max format opts offset s =
    let page = page_of opts page_max offset s in
    let rest = stream_pages pages page_max format opts (offset + length page) s in
    if nat_eq (length page) 0
    then []
    else map (line_of format) page ++ (if ltb (length page) page_max then [] else rest)

-- `streamAuditLines`: a page more than there are events is enough
unfoldable pub stream_audit_lines : Format → AuditQueryOptions → Store → List Text
unfolding stream_pages
stream_audit_lines format opts s =
    header_of format ++ stream_pages (suc (length s.audit)) audit_page_max format opts 0 s

-- `GET /gw/audit` and `GET /gw/audit/export`
unfoldable pub get_audit : AuditQuery → Store → List AuditEvent
unfolding parse_audit_query query_audit
get_audit q s = query_audit (parse_audit_query q) s

unfoldable pub export_audit : Format → AuditQuery → Store → List Text
unfolding parse_audit_query stream_audit_lines
export_audit format q s =
    stream_audit_lines format (record (parse_audit_query q) { limit = none; offset = none }) s
