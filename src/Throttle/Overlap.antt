-- ===== src/Throttle/Overlap.antt =====
-- The per-address cap of apps/gateway/src/login-throttle.ts under logins that overlap.
use deepseek_harness_gateway.Common.{ℕ, zero, suc, ◌+◌, ◌≡◌, refl, none, List, [], ◌∷◌, arith, ap}
use deepseek_harness_gateway.Common.Text.{Text, text_eq_iff, Eq-text}
use deepseek_harness_gateway.Common.Lists.{length, All, length-append}
use deepseek_harness_gateway.Common.Dict.{get}
use deepseek_harness_gateway.Throttle.{
  World, ThrottleCheck, pass, attempts_of, check, check_account, record_failure,
}
use deepseek_harness_gateway.Throttle.Attempts.{attempts_at, attempts-record_failure}

-- Overlapping logins: the route checks each of them before it records the failure of any.
unfoldable pub check_times : ℕ → ℕ → Text → Text → World → List ThrottleCheck × World
check_times zero now addr name w = ([], w)
check_times (suc n) now addr name w =
    let (r, w') = check now addr name w in
    let (rs, w'') = check_times n now addr name w' in (r ∷ rs, w'')

unfoldable pub fail_times : ℕ → ℕ → Text → Text → World → World
fail_times zero now addr name w = w
fail_times (suc n) now addr name w = fail_times n now addr name (record_failure now addr name w)

check_fresh :
    (now : ℕ) (addr name : Text) (w : World)
    → get addr w.throttle.ips ≡ none
    → get name w.throttle.accounts ≡ none
    → check now addr name w ≡ (pass, w)
unfolding check check_account
check_fresh now addr name w e f = rw (e, check) (rw (f, check_account))

check_times-passes :
    (n now : ℕ) (addr name : Text) (w : World)
    → get addr w.throttle.ips ≡ none
    → get name w.throttle.accounts ≡ none
    → All (λ r. r ≡ pass) (check_times n now addr name w).0
      × (length (check_times n now addr name w).0 ≡ n)
      × ((check_times n now addr name w).1 ≡ w)
unfolding check_times
check_times-passes zero now addr name w e f = (tt, refl, refl)
check_times-passes (suc n) now addr name w e f =
    rw (check_fresh now addr name w e f)
      (let ih = check_times-passes n now addr name w e f in ((refl, ih.0), ap suc ih.1, ih.2))

fail_times-attempts :
    (n now : ℕ) (addr name : Text) (w : World)
    → length (attempts_at addr (fail_times n now addr name w)) ≡ length (attempts_at addr w) + n
unfolding fail_times
fail_times-attempts zero now addr name w = omega arith
fail_times-attempts (suc n) now addr name w = ground (
  arith,
  fail_times-attempts n now addr name (record_failure now addr name w),
  attempts-record_failure now addr addr name w,
  text_eq_iff addr addr,
  length-append (attempts_at addr w) (now ∷ []),
)

-- The cap does not bound logins that overlap: from a throttle that knows neither the address nor
-- the account, any number of logins whose checks run before their failures are recorded all pass,
-- and afterwards that many attempts of the address are on record.
pub overlapping_logins_pass :
    (n now : ℕ) (addr name : Text) (w : World)
    → get addr w.throttle.ips ≡ none
    → get name w.throttle.accounts ≡ none
    → All (λ r. r ≡ pass) (check_times n now addr name w).0
      × (length (check_times n now addr name w).0 ≡ n)
      × (length (
            attempts_of (
              get addr (fail_times n now addr name (check_times n now addr name w).1).throttle.ips))
          ≡ n)
unfolding attempts_at
overlapping_logins_pass n now addr name w e f =
    let passes = check_times-passes n now addr name w e f in
    (passes.0, passes.1, rw passes.2 (ground (arith, e, fail_times-attempts n now addr name w)))
