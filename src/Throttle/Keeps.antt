-- ===== src/Throttle/Keeps.antt =====
-- What apps/gateway/src/login-throttle.ts leaves alone in the store.
use deepseek_harness_gateway.Common.{ℕ, ◌≡◌, arith}
use deepseek_harness_gateway.Common.Text.{Text}
use deepseek_harness_gateway.Store.Memory.{
  save_throttle_account, save_throttle_ip, delete_throttle_account,
}
use deepseek_harness_gateway.Throttle.{World, check, check_account, record_failure, record_success}

-- The throttle writes its own rows and no other.
abbrev pub Keeps : World → World → Type 0
Keeps w v = (v.store.users ≡ w.store.users) × (v.store.audit ≡ w.store.audit)

pub check-Keeps : (now : ℕ) (addr name : Text) (w : World) → Keeps w (check now addr name w).1
unfolding check check_account save_throttle_account
check-Keeps now addr name w = ground arith

pub record_failure-Keeps :
    (now : ℕ) (addr name : Text) (w : World) → Keeps w (record_failure now addr name w)
unfolding record_failure save_throttle_account save_throttle_ip
record_failure-Keeps now addr name w = ground arith

pub record_success-Keeps : (name : Text) (w : World) → Keeps w (record_success name w)
unfolding record_success delete_throttle_account
record_success-Keeps name w = ground arith
