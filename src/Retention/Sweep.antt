-- ===== src/Retention/Sweep.antt =====
-- The loop of `purgeNow` (apps/gateway/src/audit-retention.ts) against one unbounded purge.
use deepseek_harness_gateway.Common.{
  le→ltb-false, ℕ, zero, suc, ◌+◌, ◌-◌, ◌*◌, ◌≤◌, ◌<◌, ◌≡◌, refl, sym, ap, ◌∙◌, false, some, List,
  [], ◌∷◌, ltb, arith, Bool-cases, inl, inr,
}
use deepseek_harness_gateway.Common.Text.{Text}
use deepseek_harness_gateway.Common.Lists.{length, filter, count, length-filter, length-drop}
use deepseek_harness_gateway.Store.Domain.{Store, AuditEvent}
use deepseek_harness_gateway.Store.Audit.{purge_audit}
use deepseek_harness_gateway.Store.Audit.Purge.{expired, kept, purge_audit-removes_oldest}
use deepseek_harness_gateway.Retention.{
  AuditRetentionOptions, State, purge_rounds, purge_within, purge_now, cutoff_before,
  max_purge_rounds,
}

none_expired :
    (before : Text) (es : List AuditEvent)
    → count (expired before) es ≡ 0
    → filter (kept before) es ≡ es
unfolding filter count
none_expired before [] h = refl
none_expired before (e ∷ es) h = ground (arith, none_expired before es)

-- What one batch leaves to purge.
batch_left :
    (before : Text) (batch : ℕ) (s : Store)
    → count (expired before) (purge_audit before (some batch) s).0.audit
      ≡ count (expired before) s.audit - (purge_audit before (some batch) s).1
batch_left before batch s =
    let p = purge_audit-removes_oldest before (some batch) s in
    sym (length-filter (expired before) (purge_audit before (some batch) s).0.audit)
    ∙ ap length p.1
    ∙ length-drop (purge_audit before (some batch) s).1 (filter (expired before) s.audit)
    ∙ ap (λ n. n - (purge_audit before (some batch) s).1) (length-filter (expired before) s.audit)

-- The store without the events that are dated before the given time.
abbrev pub without_expired : Text → Store → Store
without_expired before s = record s { audit = filter (kept before) s.audit }

batch_store :
    (before : Text) (batch : ℕ) (s : Store)
    → without_expired before (purge_audit before (some batch) s).0 ≡ without_expired before s
unfolding purge_audit
batch_store before batch s =
    ap (λ a. record s { audit = a }) (purge_audit-removes_oldest before (some batch) s).2

settled_store :
    (before : Text) (s : Store) → count (expired before) s.audit ≡ 0 → s ≡ without_expired before s
settled_store before s h = ap (λ a. record s { audit = a }) (sym (none_expired before s.audit h))

-- Enough rounds purge everything that is dated before the given time.
rounds_purge :
    (rounds : ℕ) (before : Text) (batch : ℕ) (s : Store)
    → count (expired before) s.audit < rounds * batch
    → ((purge_rounds rounds before batch s).0 ≡ count (expired before) s.audit)
      × ((purge_rounds rounds before batch s).1 ≡ without_expired before s)
unfolding purge_rounds
rounds_purge zero before batch s h = absurd (omega (arith, h))
rounds_purge (suc rounds) before batch s h =
    let s' = (purge_audit before (some batch) s).0 in
    let removed = (purge_audit before (some batch) s).1 in
    let facts = purge_audit-removes_oldest before (some batch) s in
    let left = batch_left before batch s in
    let suc_times : suc rounds * batch ≡ batch + rounds * batch = omega arith in
    elim (Bool-cases (ltb removed batch)) [
      | inl short ↦
          let some_left : removed < batch = ground arith in
          let total : removed ≡ count (expired before) s.audit = omega (arith, facts.0) in
          let none_left : count (expired before) s'.audit ≡ 0 = omega (arith, left) in
          rw short (total, settled_store before s' none_left ∙ batch_store before batch s)
      | inr full ↦
          let room : batch ≤ removed = ground arith in
          let fewer : count (expired before) s'.audit < rounds * batch =
            omega (arith, left, h, suc_times) in
          let rest = rounds_purge rounds before batch s' fewer in
          rw full (
            ap (λ n. removed + n) rest.0 ∙ omega (arith, left, facts.0),
            rest.1 ∙ batch_store before batch s,
          )
    ]

purge_within_complete :
    (iso : ℕ → Text) (opts : AuditRetentionOptions) (rounds began ended : ℕ) (st : State)
    (s : Store)
    → 1 ≤ opts.retention_days
    → st.running ≡ false
    → count (expired (cutoff_before iso opts.retention_days began)) s.audit
      < rounds * opts.batch_size
    → (let before = cutoff_before iso opts.retention_days began in
        purge_within iso opts rounds began ended st s ≡ (
          count (expired before) s.audit,
          record st { running = false; last_purge_at = ended },
          without_expired before s,
        ))
unfolding purge_within
purge_within_complete iso opts rounds began ended st s enabled idle fits =
    let before = cutoff_before iso opts.retention_days began in
    let all = rounds_purge rounds before opts.batch_size s fits in
    rw (le→ltb-false opts.retention_days 1 enabled) (rw idle (rw all.0 (rw all.1 refl)))

-- Unless retention is off or a purge is running, one call of `purgeNow` removes every event that is
-- dated before the cutoff and nothing else, and returns how many those were, so long as they are fewer
-- than ten thousand batches, the rounds that its loop may take.
pub purge_now_complete :
    (iso : ℕ → Text) (opts : AuditRetentionOptions) (began ended : ℕ) (st : State) (s : Store)
    → 1 ≤ opts.retention_days
    → st.running ≡ false
    → count (expired (cutoff_before iso opts.retention_days began)) s.audit
      < max_purge_rounds * opts.batch_size
    → (let before = cutoff_before iso opts.retention_days began in
        purge_now iso opts began ended st s ≡ (
          count (expired before) s.audit,
          record st { running = false; last_purge_at = ended },
          without_expired before s,
        ))
unfolding purge_now
purge_now_complete iso opts began ended st s enabled idle fits =
    purge_within_complete iso opts max_purge_rounds began ended st s enabled idle fits
