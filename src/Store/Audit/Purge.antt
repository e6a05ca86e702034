-- ===== src/Store/Audit/Purge.antt =====
-- `purgeAudit` of packages/store/src/memory.ts: which rows a batch removes.
use mathlib.Core.List.{Sublist}
use mathlib.Core.List.Sublist
use deepseek_harness_gateway.Common.{
  ℕ, suc, ◌+◌, ◌-◌, ◌≤◌, min, ltb, ltb-false→le, ap, ◌≡◌, refl, sym, ◌∙◌, zero, inl, inr, ◌&&◌,
  Bool-cases, Bool, not, Option, none, some, List, [], ◌∷◌, arith,
}
use deepseek_harness_gateway.Common.Text.{Text, text_lt}
use deepseek_harness_gateway.Common.Lists.{filter, drop, count}
use deepseek_harness_gateway.Store.Domain.{AuditEvent, Store}
use deepseek_harness_gateway.Store.Audit.{purge_loop, purge_audit, room}

abbrev pub expired : Text → AuditEvent → Bool
expired before e = text_lt e.ts before

abbrev pub kept : Text → AuditEvent → Bool
kept before e = not (text_lt e.ts before)

-- how many of `n` rows a batch takes
abbrev pub capped : Option ℕ → ℕ → ℕ
capped none n = n
capped (some limit) n = min limit n

loop_count_all :
    (before : Text) (removed : ℕ) (es : List AuditEvent)
    → (purge_loop before none removed es).1 ≡ removed + count (expired before) es
unfolding purge_loop count
loop_count_all before removed [] = omega arith
loop_count_all before removed (e ∷ es) =
    ground (arith, loop_count_all before (suc removed) es, loop_count_all before removed es)

loop_count :
    (before : Text) (limit removed : ℕ) (es : List AuditEvent)
    → removed ≤ limit
    → (purge_loop before (some limit) removed es).1
      ≡ removed + min (limit - removed) (count (expired before) es)
unfolding purge_loop count
loop_count before limit removed [] h = omega arith
loop_count before limit removed (e ∷ es) h =
    ground (arith, loop_count before limit (suc removed) es, loop_count before limit removed es)

loop_kept :
    (before : Text) (limit : Option ℕ) (removed : ℕ) (es : List AuditEvent)
    → filter (kept before) (purge_loop before limit removed es).0 ≡ filter (kept before) es
unfolding purge_loop filter
loop_kept before limit removed [] = refl
loop_kept before limit removed (e ∷ es) =
    ground (arith, loop_kept before limit (suc removed) es, loop_kept before limit removed es)

loop_grows :
    (before : Text) (limit : Option ℕ) (removed : ℕ) (es : List AuditEvent)
    → removed ≤ (purge_loop before limit removed es).1
unfolding purge_loop
loop_grows before limit removed [] = omega arith
loop_grows before limit removed (e ∷ es) =
    ground (arith, loop_grows before limit (suc removed) es, loop_grows before limit removed es)

-- A full batch takes nothing more.
loop_full :
    (before : Text) (limit removed : ℕ) (es : List AuditEvent)
    → limit ≤ removed
    → (purge_loop before (some limit) removed es).1 ≡ removed
unfolding purge_loop
loop_full before limit removed [] h = refl
loop_full before limit removed (e ∷ es) h = ground (arith, loop_full before limit removed es)

drop_step :
    (t r : ℕ) (x : AuditEvent) (xs : List AuditEvent)
    → suc r ≤ t
    → drop (t - r) (x ∷ xs) ≡ drop (t - suc r) xs
drop_step t r x xs h = let e : t - r ≡ suc (t - suc r) = omega arith in rw e

full_step :
    (t r : ℕ) (x : AuditEvent) (xs ys : List AuditEvent)
    → t ≡ r
    → xs ≡ drop (t - r) ys
    → x ∷ xs ≡ drop (t - r) (x ∷ ys)
full_step t r x xs ys full ih =
    let z : t - r ≡ 0 = omega arith in rw z (ap (λ l. x ∷ l) (ih ∙ rw z))

drop_none : (n : ℕ) → drop {A = AuditEvent} n [] ≡ []
drop_none zero = refl
drop_none (suc n) = refl

loop_expired_all :
    (before : Text) (removed : ℕ) (es : List AuditEvent)
    → filter (expired before) (purge_loop before none removed es).0
      ≡ drop ((purge_loop before none removed es).1 - removed) (filter (expired before) es)
unfolding purge_loop filter
loop_expired_all before removed [] = sym (drop_none (removed - removed))
loop_expired_all before removed (e ∷ es) = elim (Bool-cases (text_lt e.ts before)) [
  | inl d ↦ rw d (
      loop_expired_all before (suc removed) es
      ∙ sym (drop_step _ removed e _ (loop_grows before none (suc removed) es)))
  | inr d ↦ rw d (rw d (loop_expired_all before removed es))
]

loop_expired :
    (before : Text) (limit removed : ℕ) (es : List AuditEvent)
    → filter (expired before) (purge_loop before (some limit) removed es).0
      ≡ drop ((purge_loop before (some limit) removed es).1 - removed) (filter (expired before) es)
unfolding purge_loop filter
loop_expired before limit removed [] = sym (drop_none (removed - removed))
loop_expired before limit removed (e ∷ es) = elim (Bool-cases (text_lt e.ts before)) [
  | inr d ↦ rw d (rw d (loop_expired before limit removed es))
  | inl d ↦ elim (Bool-cases (ltb removed limit)) [
    | inl r ↦
        rw (d, r)
          (loop_expired before limit (suc removed) es
            ∙ sym (drop_step _ removed e _ (loop_grows before (some limit) (suc removed) es)))
    | inr r ↦
        simp (d, r)
          (full_step _ removed e _ _ (loop_full before limit removed es (ltb-false→le _ _ r))
            (loop_expired before limit removed es))
  ]
]

loop_sublist :
    (before : Text) (limit : Option ℕ) (removed : ℕ) (es : List AuditEvent)
    → Sublist (purge_loop before limit removed es).0 es
unfolding purge_loop
loop_sublist before limit removed [] = Sublist.refl []
loop_sublist before limit removed (e ∷ es) =
    elim (Bool-cases (text_lt e.ts before && room limit removed)) [
      | inl d ↦ rw d (Sublist.cons e (loop_sublist before limit (suc removed) es))
      | inr d ↦ rw d (Sublist.cons-cons e (loop_sublist before limit removed es))
    ]

minus_zero : (n : ℕ) → n - 0 ≡ n
minus_zero n = omega arith

loop_removed :
    (before : Text) (limit : Option ℕ) (es : List AuditEvent)
    → (purge_loop before limit 0 es).1 ≡ capped limit (count (expired before) es)
loop_removed before none es = omega (arith, loop_count_all before 0 es)
loop_removed before (some limit) es = omega (arith, loop_count before limit 0 es)

loop_drops :
    (before : Text) (limit : Option ℕ) (es : List AuditEvent)
    → filter (expired before) (purge_loop before limit 0 es).0
      ≡ drop (purge_loop before limit 0 es).1 (filter (expired before) es)
loop_drops before none es = rw (minus_zero _) at (loop_expired_all before 0 es)
loop_drops before (some limit) es = rw (minus_zero _) at (loop_expired before limit 0 es)

-- A purge removes the first events dated before the given time, as many as the limit allows, and
-- returns how many it removed; every other event is kept, and no two events change places.
pub purge_audit-removes_oldest :
    (before : Text) (limit : Option ℕ) (s : Store)
    → ((purge_audit before limit s).1 ≡ capped limit (count (expired before) s.audit))
      × (filter (expired before) (purge_audit before limit s).0.audit
          ≡ drop (purge_audit before limit s).1 (filter (expired before) s.audit))
      × (filter (kept before) (purge_audit before limit s).0.audit ≡ filter (kept before) s.audit)
      × Sublist (purge_audit before limit s).0.audit s.audit
unfolding purge_audit
purge_audit-removes_oldest before limit s = (
  loop_removed before limit s.audit,
  loop_drops before limit s.audit,
  loop_kept before limit 0 s.audit,
  loop_sublist before limit 0 s.audit,
)
