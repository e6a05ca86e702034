-- ===== src/DaemonControl/Tests.antt =====
-- Concrete runs of the registry of apps/gateway/src/daemon-control.ts.
use deepseek_harness_gateway.Common.{
  ◌+◌, ◌≡◌, true, ◌&&◌, none, some, List, [], ◌∷◌, nat_eq, leb, if◌then◌else◌,
}
use deepseek_harness_gateway.Common.Text.{text}
use deepseek_harness_gateway.Common.Lists.{count}
use deepseek_harness_gateway.DaemonControl.{Op, registers, settles, fails_all, new_registry, run}
use deepseek_harness_gateway.DaemonControl.Once.{settled_once}

-- Two requests; an answer that comes twice; then the socket drops.
abbrev calls : List Op
calls =
    registers (text "start") (text "k1")
    ∷ registers (text "stop") (text "k2")
    ∷ settles (text "d1-k1") (record { ok = true; state = some (text "running"); error = none })
    ∷ settles (text "d1-k1") (record { ok = true; state = none; error = none })
    ∷ fails_all (text "supervisor disconnected")
    ∷ []

settled_once_example :
    count (λ x. nat_eq x.0 2) (run calls new_registry).settled
      + count (λ x. nat_eq x.1.promise 2) (run calls new_registry).pending
    ≡ (if leb 1 2 && leb 2 (run calls new_registry).seq then 1 else 0)
settled_once_example = settled_once calls 2
