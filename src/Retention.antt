-- ===== src/Retention.antt =====
-- apps/gateway/src/audit-retention.ts: the batched purge, the lazy purge after an append, and the
-- timer of the periodic one. The clock, the random draw and `toISOString` are arguments.
pub mod Sweep
pub mod Lazy
mod Tests
use deepseek_harness_gateway.Common.{
  ℕ, zero, suc, ◌+◌, ◌-◌, ◌*◌, Bool, true, false, not, ◌&&◌, ◌||◌, Option, none, some, List, [],
  ◌∷◌, ltb, leb, if◌then◌else◌, max,
}
use deepseek_harness_gateway.Common.Text.{Text}
use deepseek_harness_gateway.Store.Domain.{Store, AuditEvent}
use deepseek_harness_gateway.Store.Memory.{append_audit}
use deepseek_harness_gateway.Store.Audit.{purge_audit}

abbrev pub day_ms : ℕ
day_ms = 24 * 60 * 60 * 1000

abbrev pub max_purge_rounds : ℕ
max_purge_rounds = 10000

pub record AuditRetentionOptions : Type 0 where
  pub retention_days : ℕ
  pub purge_interval_ms : ℕ
  pub batch_size : ℕ
  pub lazy_sample : ℕ
  pub lazy_cooldown_ms : ℕ

-- The variables of the closure: a timer is known by its interval.
pub record State : Type 0 where
  pub timer : Option ℕ
  pub running : Bool
  pub last_purge_at : ℕ

-- `new Date(nowMs - retentionDays * DAY_MS).toISOString()`, for a clock past the retention period
abbrev pub cutoff_before : (ℕ → Text) → ℕ → ℕ → Text
cutoff_before iso retention_days now = iso (now - retention_days * day_ms)

-- The loop of `purgeNow`, with the rounds left.
unfoldable pub purge_rounds : ℕ → Text → ℕ → Store → ℕ × Store
purge_rounds zero before batch s = (0, s)
purge_rounds (suc rounds) before batch s =
    let (s', removed) = purge_audit before (some batch) s in
    let (total, s'') = purge_rounds rounds before batch s' in
    if ltb removed batch then (removed, s') else (removed + total, s'')

module _ (iso : ℕ → Text) (opts : AuditRetentionOptions) where
  -- `purgeNow` with the number of rounds as an argument, begun and ended at two times of the clock; a
  -- second call in between finds `running` set and returns 0.
  unfoldable pub purge_within : ℕ → ℕ → ℕ → State → Store → ℕ × State × Store
  unfolding purge_rounds purge_audit
  purge_within rounds began ended st s =
      if ltb opts.retention_days 1 || st.running
      then (0, st, s)
      else let (total, s') =
          purge_rounds rounds (cutoff_before iso opts.retention_days began) opts.batch_size s in
        (total, record st { running = false; last_purge_at = ended }, s')

  unfoldable pub purge_now : ℕ → ℕ → State → Store → ℕ × State × Store
  purge_now began ended st s = purge_within max_purge_rounds began ended st s

  -- `start` runs a first purge and sets the timer, unless it is set already.
  unfoldable pub start : ℕ → ℕ → State → Store → State × Store
  start began ended st s = if ltb opts.retention_days 1 then (st, s) else elim st.timer [
    | some t ↦ (st, s)
    | none ↦
        let (total, st', s') = purge_now began ended st s in
        (record st' { timer = some (max 1 opts.purge_interval_ms) }, s')
  ]

  unfoldable pub stop : State → State
  stop st = record st { timer = none }

  -- Whether `maybeLazyPurge` purges at a time; `drawn` is `rand() * lazySample < 1`.
  unfoldable pub lazy_purge_due : ℕ → Bool → State → Bool
  lazy_purge_due now drawn st =
      if leb opts.lazy_sample 0 || ltb opts.retention_days 1 || st.running
      then false
      else if ltb now (st.last_purge_at + opts.lazy_cooldown_ms)
      then false
      else drawn

  -- The `appendAudit` that is put in the store's place.
  unfoldable pub append_and_purge : ℕ → ℕ → Bool → AuditEvent → State → Store → State × Store
  unfolding append_audit
  append_and_purge now ended drawn e st s =
      let s' = append_audit e s in
      let (total, st', s'') = purge_now now ended st s' in
      if lazy_purge_due now drawn st then (st', s'') else (st, s')
