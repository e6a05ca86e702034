-- ===== src/Retention/Tests.antt =====
-- Concrete runs of apps/gateway/src/audit-retention.ts.
use deepseek_harness_gateway.Common.{
  ℕ, ◌≡◌, ◌*◌, ◌<◌, refl, true, false, none, [], ◌∷◌, ◌++◌, arith,
}
use deepseek_harness_gateway.Common.Text.{Text, text, text_lt}
use deepseek_harness_gateway.Common.Lists.{count, filter}
use deepseek_harness_gateway.Store.Domain.{Store, empty_store, AuditEvent, ok}
use deepseek_harness_gateway.Store.Audit.Purge.{expired, kept}
use deepseek_harness_gateway.Retention.{AuditRetentionOptions, State, purge_now, append_and_purge}
use deepseek_harness_gateway.Retention.Sweep.{purge_now_complete, without_expired}
use deepseek_harness_gateway.Retention.Lazy.{append_and_purge-keeps}

-- a clock's text of one code unit
abbrev iso : ℕ → Text
iso n = n ∷ []

abbrev options : AuditRetentionOptions
options = record {
  retention_days = 1;
  purge_interval_ms = 1000;
  batch_size = 10;
  lazy_sample = 100;
  lazy_cooldown_ms = 60;
}

abbrev idle : State
idle = record { timer = none; running = false; last_purge_at = 0 }

abbrev event : ℕ → AuditEvent
event n = record {
  ts = iso n;
  actor = text "ann";
  machine_id = none;
  action = text "login";
  result = ok;
  detail = none;
}

abbrev two_events : Store
two_events = record empty_store { audit = event 5 ∷ event 90 ∷ [] }

one_old : count (expired (iso 50)) two_events.audit < 10000 * 10
unfolding count text_lt
one_old = ground arith

purge_now_complete_example : purge_now iso options 86400050 86400060 idle two_events ≡ (
  count (expired (iso 50)) two_events.audit,
  record idle { last_purge_at = 86400060 },
  without_expired (iso 50) two_events,
)
purge_now_complete_example =
    purge_now_complete iso options 86400050 86400060 idle two_events (omega arith) refl one_old

append_and_purge-keeps_example :
    filter
      (kept (iso 50))
      (append_and_purge iso options 86400050 86400060 true (event 95) idle two_events).1.audit
    ≡ filter (kept (iso 50)) (two_events.audit ++ event 95 ∷ [])
append_and_purge-keeps_example =
    append_and_purge-keeps iso options 86400050 86400060 true (event 95) idle two_events
