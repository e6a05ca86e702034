-- ===== src/Supervisor/Picks.antt =====
-- The choice of a task to go on with, among those of plugins/dsh-gateway-agent/src/daemon.js.
use deepseek_harness_gateway.Common.{
  ℕ, zero, suc, ◌+◌, ◌≡◌, refl, Bool, ◌||◌, Option, none, some, List, [], ◌∷◌, arith,
}
use deepseek_harness_gateway.Common.Lists.{any}
use deepseek_harness_gateway.Supervisor.State.{Task, Answer, Supervisor}
use deepseek_harness_gateway.Supervisor.Run.{resumes, pick, resume_picked, step}
use deepseek_harness_gateway.Supervisor.Resumption.{Resumption, resume-Resumption}

abbrev pub total : (Task → ℕ) → List Task → ℕ
total f [] = 0
total f (t ∷ ts) = f t + total f ts

-- A picked task comes first, as far as sums and tests over the tasks go.
pub record Picked (ts : List Task) (t : Task) (rest : List Task) : Type 0 where
  pub total_same : (f : Task → ℕ) → total f ts ≡ f t + total f rest
  pub any_same : (p : Task → Bool) → any p ts ≡ (p t || any p rest)

abbrev AllPicked : List Task → Option (Task × List Task) → Type 0
AllPicked ts none = Unit
AllPicked ts (some (t, rest)) = Picked ts t rest

skip-AllPicked :
    (u : Task) (ts : List Task) (o : Option (Task × List Task))
    → AllPicked ts o
    → AllPicked (u ∷ ts) (elim o [ none ↦ none | some (t, rest) ↦ some (t, u ∷ rest) ])
unfolding any
skip-AllPicked u ts none h = tt
skip-AllPicked u ts (some (t, rest)) h = record {
  total_same = λ f. ground (arith, h.total_same f);
  any_same = λ p. ground (arith, h.any_same p);
}

pick-AllPicked : (k : ℕ) (ts : List Task) → AllPicked ts (pick k ts)
unfolding any
pick-AllPicked k [] = tt
pick-AllPicked zero (t ∷ ts) = record { total_same = λ f. refl; any_same = λ p. refl }
pick-AllPicked (suc k) (u ∷ ts) = skip-AllPicked u ts (pick k ts) (pick-AllPicked k ts)

-- What a step that resumes a task consists of.
pub record Resumed (s after : Supervisor) : Type 0 where
  pub task : Task
  pub rest : List Task
  pub picked : Picked s.tasks task rest
  pub went_on : Resumption task (record s { tasks = rest }) after

Resumed-picked :
    (o : Option (Task × List Task)) (a : Answer) (s after : Supervisor)
    → AllPicked s.tasks o
    → resume_picked o a s ≡ some after
    → Resumed s after
Resumed-picked none a s after p h = cc
Resumed-picked (some (t, rest)) a s after p h = record {
  task = t;
  rest = rest;
  picked = p;
  went_on = resume-Resumption t a (record s { tasks = rest }) after h;
}

pub step-Resumed :
    (k : ℕ) (a : Answer) (s after : Supervisor)
    → step (resumes k a) s ≡ some after
    → Resumed s after
unfolding step
step-Resumed k a s after h = Resumed-picked (pick k s.tasks) a s after (pick-AllPicked k s.tasks) h
