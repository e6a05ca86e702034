-- ===== src/Supervisor/Run.antt =====
-- What happens to the supervisor of plugins/dsh-gateway-agent/src/daemon.js, one event after another.
use deepseek_harness_gateway.Common.{
  ℕ, zero, suc, Bool, true, false, Option, none, some, List, [], ◌∷◌, ◌≡◌, subst, Option-cases, inl,
  inr,
}
use deepseek_harness_gateway.Common.Lists.{All}
use deepseek_harness_gateway.Common.Text.{Text}
use deepseek_harness_gateway.Supervisor.State.{Host, Task, Answer, Supervisor, heartbeat_now}
use deepseek_harness_gateway.Supervisor.{
  resume, on_child_exit, refresh_state, handle_control, bootstrap,
}

-- `resumes k` goes on with the k-th task. `exits` is the exit of a child, `ticks` the probe timer,
-- `requests` a control request, `begins` the start of the process; `registers` and `closes` are of
-- the socket, and `changes` is what the world around the process does.
pub data Event : Type 0 where
  resumes : ℕ → Answer → Event
  exits : Text → Event
  ticks : Event
  requests : Text → Text → Event
  begins : Bool → Event
  registers : Event
  closes : Event
  changes : Host → Event

abbrev pub pick : ℕ → List Task → Option (Task × List Task)
pick k [] = none
pick zero (t ∷ ts) = some (t, ts)
pick (suc k) (t ∷ ts) = elim (pick k ts) [ none ↦ none | some (u, us) ↦ some (u, t ∷ us) ]

abbrev pub resume_picked : Option (Task × List Task) → Answer → Supervisor → Option Supervisor
resume_picked none a s = none
resume_picked (some (t, rest)) a s = resume t a (record s { tasks = rest })

-- `none`: there is no such task, or it awaits something else.
unfoldable pub step : Event → Supervisor → Option Supervisor
step (resumes k a) s = resume_picked (pick k s.tasks) a s
step (exits detail) s = some (on_child_exit detail s)
step ticks s = some (refresh_state s)
step (requests id action) s = some (handle_control id action s)
step (begins was_running) s = some (bootstrap was_running s)
step registers s = some (heartbeat_now (record s { beating = true }))
step closes s = some (record s { beating = false; socket = suc s.socket })
step (changes host) s = some (record s { host = host })

abbrev pub and_then {ℓ} : {A : Type ℓ} → Option A → (A → Option A) → Option A
and_then none f = none
and_then (some a) f = f a

unfoldable pub run : List Event → Supervisor → Option Supervisor
run [] s = some s
run (e ∷ es) s = and_then (step e s) (run es)

abbrev pub Within {ℓ κ} : {A : Type ℓ} → (A → Type κ) → Option A → Type κ
Within P none = Unit
Within P (some a) = P a

pub from_some {ℓ κ} : {A : Type ℓ} (P : A → Type κ) (a b : A) → some a ≡ some b → P a → P b
from_some P a b h p = subst (Within P) h p

-- What each event keeps, a run keeps.
pub run-keeps {κ} :
    (P : Supervisor → Type κ)
    → (E : Event → Type 0)
    → ((e : Event) (s after : Supervisor) → E e → step e s ≡ some after → P s → P after)
    → (es : List Event) (s after : Supervisor) → All E es
    → run es s ≡ some after
    → P s
    → P after
unfolding run
run-keeps P E keep [] s after ok h p = from_some P s after h p
run-keeps P E keep (e ∷ es) s after ok h p = elim (Option-cases (step e s)) [
  | inl z ↦ absurd (subst (λ o. and_then o (run es) ≡ some after) z h)
  | inr (mid, z) ↦
      run-keeps P E keep es mid after ok.1 (subst (λ o. and_then o (run es) ≡ some after) z h)
        (keep e s mid ok.0 z p)
]
  where
    absurd : none ≡ some after → P after
    absurd q = cc
