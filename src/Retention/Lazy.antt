-- ===== src/Retention/Lazy.antt =====
-- What the purges of apps/gateway/src/audit-retention.ts never take, whenever they run.
use deepseek_harness_gateway.Common.{
  ℕ, zero, suc, ◌≡◌, refl, ◌∙◌, Bool, ◌++◌, ◌∷◌, [], ◌||◌, ltb, some, Bool-cases, inl, inr,
}
use deepseek_harness_gateway.Common.Text.{Text}
use deepseek_harness_gateway.Common.Lists.{filter}
use deepseek_harness_gateway.Store.Domain.{Store, AuditEvent}
use deepseek_harness_gateway.Store.Memory.{append_audit}
use deepseek_harness_gateway.Store.Audit.{purge_audit}
use deepseek_harness_gateway.Store.Audit.Purge.{kept, purge_audit-removes_oldest}
use deepseek_harness_gateway.Retention.{
  AuditRetentionOptions, State, purge_rounds, purge_within, purge_now, cutoff_before,
  max_purge_rounds, append_and_purge, lazy_purge_due,
}

rounds_keep :
    (rounds : ℕ) (before : Text) (batch : ℕ) (s : Store)
    → filter (kept before) (purge_rounds rounds before batch s).1.audit
      ≡ filter (kept before) s.audit
unfolding purge_rounds
rounds_keep zero before batch s = refl
rounds_keep (suc rounds) before batch s =
    let once = (purge_audit-removes_oldest before (some batch) s).2 in
    let rest = rounds_keep rounds before batch (purge_audit before (some batch) s).0 in
    elim (Bool-cases (ltb (purge_audit before (some batch) s).1 batch)) [
      | inl short ↦ rw short once
      | inr full ↦ rw full (rest ∙ once)
    ]

module _ (iso : ℕ → Text) (opts : AuditRetentionOptions) where
  within_keeps :
      (rounds began ended : ℕ) (st : State) (s : Store)
      → filter
          (kept (cutoff_before iso opts.retention_days began))
          (purge_within iso opts rounds began ended st s).2.audit
        ≡ filter (kept (cutoff_before iso opts.retention_days began)) s.audit
  unfolding purge_within
  within_keeps rounds began ended st s =
      elim (Bool-cases (ltb opts.retention_days 1 || st.running)) [
        | inl off ↦ rw off refl
        | inr on ↦
            rw on
              (rounds_keep rounds (cutoff_before iso opts.retention_days began) opts.batch_size s)
      ]

  now_keeps :
      (began ended : ℕ) (st : State) (s : Store)
      → filter
          (kept (cutoff_before iso opts.retention_days began))
          (purge_now iso opts began ended st s).2.audit
        ≡ filter (kept (cutoff_before iso opts.retention_days began)) s.audit
  unfolding purge_now
  now_keeps began ended st s = within_keeps max_purge_rounds began ended st s

  -- An append, with or without the purge that it may set off, loses no event, the appended one
  -- included, that is dated at the cutoff or after it.
  pub append_and_purge-keeps :
      (now ended : ℕ) (drawn : Bool) (e : AuditEvent) (st : State) (s : Store)
      → filter
          (kept (cutoff_before iso opts.retention_days now))
          (append_and_purge iso opts now ended drawn e st s).1.audit
        ≡ filter (kept (cutoff_before iso opts.retention_days now)) (s.audit ++ e ∷ [])
  unfolding append_and_purge append_audit
  append_and_purge-keeps now ended drawn e st s =
      elim (Bool-cases (lazy_purge_due iso opts now drawn st)) [
        | inl due ↦ rw due (now_keeps now ended st (append_audit e s))
        | inr quiet ↦ rw quiet refl
      ]
