-- ===== src/Store/Audit/Query.antt =====
-- `queryAudit` of packages/store/src/memory.ts: the order of its rows.
use mathlib.Core.List.{Perm}
use deepseek_harness_gateway.Common.{
  ◌≡◌, ◌↔◌, refl, sym, ap, Bool, not, ◌&&◌, Option, none, some, true, false, List, [], ◌∷◌, arith,
}
use deepseek_harness_gateway.Common.Text.{
  Text, text_eq, text_lt, text_eq_iff, text_lt_irrefl, text_lt_asym, text_lt_negtrans,
}
use deepseek_harness_gateway.Common.Lists.{filter}
use deepseek_harness_gateway.Common.Sort.{IsSorted, sort-IsSorted, sort-perm, filter-sort}
use deepseek_harness_gateway.Store.Domain.{AuditEvent, Store, result_text}
use deepseek_harness_gateway.Store.Audit.{
  AuditQueryOptions, not_before, not_after, absent_or_equal, absent_or_equal?, matches, ts_lt,
  query_audit,
}

abbrev pub at_ts : Text → AuditEvent → Bool
at_ts ts e = text_eq e.ts ts

ties : (ts : Text) (a b : AuditEvent) → at_ts ts a ≡ true → at_ts ts b ≡ true → ts_lt a b ≡ false
ties ts a b h k = ground (arith, text_eq_iff a.ts ts, text_eq_iff b.ts ts, text_lt_irrefl ts)

-- An option that was given.
abbrev pub Given : Option Text → (Text → Type 0) → Type 0
Given none P = Unit
Given (some t) P = P t

-- What the options of a query ask of an event: not dated before `since` nor after `until`, and with the
-- machine, the actor, the action and the result that are given.
abbrev pub Asked : AuditQueryOptions → AuditEvent → Type 0
Asked opts e =
    Given opts.since (λ t. text_lt e.ts t ≡ false)
    × (Given opts.until (λ t. text_lt t e.ts ≡ false)
        × (Given opts.machine_id (λ m. e.machine_id ≡ some m)
            × (Given opts.actor (λ a. e.actor ≡ a)
                × (Given opts.action (λ a. e.action ≡ a)
                    × Given opts.result (λ r. result_text e.result ≡ r)))))

not_iff : (b : Bool) → (not b ≡ true) ↔ (b ≡ false)
not_iff true = (λ h. cc, λ h. cc)
not_iff false = (λ h. refl, λ h. refl)

since_iff :
    (o : Option Text) (ts : Text) → (not_before o ts ≡ true) ↔ Given o (λ t. text_lt ts t ≡ false)
since_iff none ts = (λ h. tt, λ h. refl)
since_iff (some t) ts = not_iff (text_lt ts t)

until_iff :
    (o : Option Text) (ts : Text) → (not_after o ts ≡ true) ↔ Given o (λ t. text_lt t ts ≡ false)
until_iff none ts = (λ h. tt, λ h. refl)
until_iff (some t) ts = not_iff (text_lt t ts)

equal_iff : (o : Option Text) (v : Text) → (absent_or_equal o v ≡ true) ↔ Given o (λ t. v ≡ t)
equal_iff none v = (λ h. tt, λ h. refl)
equal_iff (some t) v = text_eq_iff v t

machine_iff : (o v : Option Text) → (absent_or_equal? o v ≡ true) ↔ Given o (λ t. v ≡ some t)
machine_iff none v = (λ h. tt, λ h. refl)
machine_iff (some t) none = (λ h. cc, λ h. cc)
machine_iff (some t) (some v) = (
  λ h. ap some ((text_eq_iff v t).0 h),
  λ h. (text_eq_iff v t).1 (ap (λ o. elim o [ none ↦ v | some x ↦ x ]) h),
)

and_iff :
    {P Q : Type 0} (a b : Bool) → (a ≡ true) ↔ P → (b ≡ true) ↔ Q → ((a && b) ≡ true) ↔ (P × Q)
and_iff true b p q = (λ h. (p.0 refl, q.0 h), λ (x, y). q.1 y)
and_iff false b p q = (λ h. cc, λ (x, y). p.1 x)

pub matches-Asked :
    (opts : AuditQueryOptions) (e : AuditEvent) → (matches opts e ≡ true) ↔ Asked opts e
unfolding matches
matches-Asked opts e = and_iff _ _ (since_iff opts.since e.ts) (
    and_iff _ _ (until_iff opts.until e.ts) (
      and_iff _ _ (machine_iff opts.machine_id e.machine_id) (
        and_iff _ _ (equal_iff opts.actor e.actor) (
          and_iff _ _ (equal_iff opts.action e.action)
            (equal_iff opts.result (result_text e.result))))))

same_test : (a b : Bool) → (a ≡ true → b ≡ true) → (b ≡ true → a ≡ true) → a ≡ b
same_test a b h k = ground (arith, h, k)

filter_alike :
    (p q : AuditEvent → Bool) (es : List AuditEvent)
    → ((e : AuditEvent) → p e ≡ q e)
    → filter p es ≡ filter q es
unfolding filter
filter_alike p q [] h = refl
filter_alike p q (e ∷ es) h = ground (arith, h e, filter_alike p q es h)

-- A query without a page size returns the events that its options ask for (a Boolean test of which is
-- `asked`), each as often as it was appended, in the order of their dates: none is dated before one
-- that stands above it, and events of one date keep the order in which they were appended. An offset
-- without a page size makes no difference.
pub query_audit-chronological :
    (opts : AuditQueryOptions) (s : Store) (asked : AuditEvent → Bool)
    → opts.limit ≡ none
    → ((e : AuditEvent) → (asked e ≡ true) ↔ Asked opts e)
    → IsSorted (λ a b. text_lt a.ts b.ts) (query_audit opts s)
      × Perm (query_audit opts s) (filter asked s.audit)
      × ((ts : Text)
          → filter (at_ts ts) (query_audit opts s) ≡ filter (at_ts ts) (filter asked s.audit))
unfolding query_audit
query_audit-chronological opts s asked whole test =
    let alike : filter (matches opts) s.audit ≡ filter asked s.audit =
      filter_alike (matches opts) asked s.audit (λ e.
        same_test (matches opts e) (asked e) (λ h. (test e).1 ((matches-Asked opts e).0 h))
          (λ h. (matches-Asked opts e).1 ((test e).0 h))) in
    rw (sym alike) (
      simp whole (
        sort-IsSorted (λ a b. text_lt_asym a.ts b.ts) (λ a b c. text_lt_negtrans a.ts b.ts c.ts)
            (filter (matches opts) s.audit),
        sort-perm ts_lt (filter (matches opts) s.audit),
        λ ts. filter-sort ts_lt (at_ts ts) (ties ts) (filter (matches opts) s.audit),
      ))
