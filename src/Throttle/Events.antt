-- ===== src/Throttle/Events.antt =====
-- Logins, successes and sweeps one after another, over apps/gateway/src/login-throttle.ts.
use deepseek_harness_gateway.Common.{ℕ, ◌≤◌, Bool, ◌&&◌, List, [], ◌∷◌, ◌++◌}
use deepseek_harness_gateway.Common.Text.{Text, text_eq, Eq-text}
use deepseek_harness_gateway.Throttle.{
  World, ThrottleCheck, pass, blocked, within, check, record_failure, record_success, prune,
}

-- What happens between two readings of the clock: a login with wrong credentials, a success, a sweep.
pub data Event : Type 0 where
  tries : ℕ → Text → Text → Event
  succeeds : Text → Event
  prunes : ℕ → Event

-- A login that fails: the route records a failure if, and only if, the check has passed.
abbrev pub failing : ℕ → Text → Text → ThrottleCheck × World → List (ℕ × Text) × World
failing now addr name (pass, w) = ((now, addr) ∷ [], record_failure now addr name w)
failing now addr name (blocked s r, w) = ([], w)

-- the credential checks that were made, each with its time and address, and the world after
unfoldable pub play : List Event → World → List (ℕ × Text) × World
play [] w = ([], w)
play (tries now addr name ∷ rest) w =
    let (made, w') = failing now addr name (check now addr name w) in
    let (more, w'') = play rest w' in (made ++ more, w'')
play (succeeds name ∷ rest) w = play rest (record_success name w)
play (prunes now ∷ rest) w = play rest (prune now w)

-- Times do not run backwards, from `now` on.
abbrev pub Ordered : ℕ → List Event → Type 0
Ordered now [] = Unit
Ordered now (tries t addr name ∷ rest) = (now ≤ t) × Ordered t rest
Ordered now (succeeds name ∷ rest) = Ordered now rest
Ordered now (prunes t ∷ rest) = (now ≤ t) × Ordered t rest

abbrev pub last_time : ℕ → List Event → ℕ
last_time now [] = now
last_time now (tries t addr name ∷ rest) = last_time t rest
last_time now (succeeds name ∷ rest) = last_time now rest
last_time now (prunes t ∷ rest) = last_time t rest

-- a credential check from the address, within the window before `now`
abbrev pub recent : ℕ → ℕ → Text → ℕ × Text → Bool
recent window now addr (t, from) = text_eq from addr && within window now t
