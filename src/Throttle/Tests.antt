-- ===== src/Throttle/Tests.antt =====
-- Runs of apps/gateway/src/login-throttle.ts, and its theorems at concrete inputs.
use deepseek_harness_gateway.Common.{◌≡◌, ◌≢◌, refl, true, List, [], ◌∷◌, ◌≤◌, arith}
use deepseek_harness_gateway.Common.Text.{Text, text, text_eq, Eq-text}
use deepseek_harness_gateway.Common.Lists.{All, count, filter, length}
use deepseek_harness_gateway.Common.Dict.{get, set}
use deepseek_harness_gateway.Store.Domain.{empty_store}
use deepseek_harness_gateway.Store.Memory.{save_throttle_account, save_throttle_ip}
use deepseek_harness_gateway.Throttle.{
  Config, World, Op, pass, blocked, account, AccountState, fresh, check, run, checks, fails, prunes,
  backoff_of, record_failure, attempts_of, step,
}
use deepseek_harness_gateway.Throttle.Lockout.{lockout_holds, failures_lock_out}
use deepseek_harness_gateway.Throttle.Events.{tries, play, recent}
use deepseek_harness_gateway.Throttle.Volume.{failed_logins-le-cap}
use deepseek_harness_gateway.Throttle.Overlap.{check_times, fail_times, overlapping_logins_pass}
use deepseek_harness_gateway.Throttle.Restart.Verdict.{restart}
use deepseek_harness_gateway.Throttle.Restart.{start, verdicts, restart-verdicts_same}

abbrev limits : Config
limits = record {
  ip_max = 10;
  ip_window_ms = 900000;
  account_max = 2;
  account_window_ms = 900000;
  backoff_ms = 180000 ∷ 300000 ∷ 900000 ∷ [];
}

abbrev new_world : World
new_world = record { throttle = fresh limits true; store = empty_store }

abbrev eve : Text
eve = text "10.0.0.9"

abbrev root : Text
root = text "admin"

-- An account with two failures at time 1000 and no lockout yet.
abbrev failed_twice : AccountState
failed_twice = record { fails = 1000 ∷ 1000 ∷ []; lock_until = 0; lock_count = 0 }

abbrev at_limit : World
at_limit = record new_world {
  throttle = record (fresh limits true) { accounts = (root, failed_twice) ∷ [] };
}

abbrev locked : AccountState
locked = record { fails = []; lock_until = 181000; lock_count = 1 }

abbrev in_lockout : World
in_lockout = record new_world {
  throttle = record (fresh limits true) { accounts = (root, locked) ∷ [] };
}

third_attempt :
    (check 1000 eve root (run (fails 1000 eve root ∷ fails 1000 eve root ∷ []) new_world)).0
    ≡ blocked 180 account
unfolding check run step record_failure get set filter save_throttle_account save_throttle_ip
    text_eq
third_attempt = refl

lockout_holds_example :
    (check 150000 eve root (run (prunes 60000 ∷ checks 100000 eve root ∷ []) in_lockout)).0 ≢ pass
unfolding get text_eq backoff_of
lockout_holds_example =
    lockout_holds 181000 150000 root eve (prunes 60000 ∷ checks 100000 eve root ∷ []) in_lockout
      refl (omega arith) (omega arith)

failures_lock_out_example :
    (check 180999
      (text "10.0.0.8")
      root
      (run (prunes 60000 ∷ []) (check 1000 eve root at_limit).1)).0
    ≢ pass
unfolding get text_eq backoff_of
failures_lock_out_example =
    failures_lock_out 1000 180999 eve (text "10.0.0.8") root (prunes 60000 ∷ []) at_limit
      failed_twice refl refl (omega arith) (unfold count in omega arith) (omega arith) (omega arith)

failed_logins-le-cap_example :
    count
      (recent 900000 2000 eve)
      (play (tries 1000 eve root ∷ tries 2000 eve root ∷ []) new_world).0
    ≤ 10
failed_logins-le-cap_example =
    failed_logins-le-cap limits true empty_store (tries 1000 eve root ∷ tries 2000 eve root ∷ [])
      eve 2000 (omega arith) (omega arith) (omega arith)

overlapping_logins_pass_example :
    All (λ r. r ≡ pass) (check_times 50 1000 eve root new_world).0
    × (length (check_times 50 1000 eve root new_world).0 ≡ 50)
    × (length (
          attempts_of (
            get eve
              (fail_times 50 1000 eve root
                (check_times 50 1000 eve root new_world).1).throttle.ips))
        ≡ 50)
unfolding get text_eq backoff_of
overlapping_logins_pass_example = overlapping_logins_pass 50 1000 eve root new_world refl refl

-- Two failures before the restart, and a third one and an attempt after it.
abbrev two_failures : List Op
two_failures = fails 1000 eve root ∷ fails 2000 eve root ∷ []

abbrev one_more : List Op
one_more = checks 3000 eve root ∷ fails 3000 eve root ∷ checks 3000 eve root ∷ []

restart-verdicts_same_example :
    verdicts one_more (restart 3000 (run two_failures (start limits empty_store)))
    ≡ verdicts one_more (run two_failures (start limits empty_store))
restart-verdicts_same_example =
    restart-verdicts_same limits empty_store two_failures 3000 one_more (omega arith) (omega arith)
      (omega arith)
