-- ===== src/Supervisor/Drain.antt =====
-- Going on with what plugins/dsh-gateway-agent/src/daemon.js awaits until there is nothing left.
use deepseek_harness_gateway.Common.{
  ℕ, zero, suc, ◌≤◌, ◌≡◌, refl, sym, subst, Bool, Option, none, some, List, [], ◌∷◌, arith,
}
use deepseek_harness_gateway.Supervisor.State.{
  Task, starts_probing, starts_script, waits_ready, waits_probe, stops_gracefully, stops_killed,
  stops_script, refreshes, boots_probing, ScriptResult, Answer, woken, ran, raced, Supervisor,
  await,
}
use deepseek_harness_gateway.Supervisor.{resume}
use deepseek_harness_gateway.Supervisor.Resumption.{Resumption, resume-Resumption}
use deepseek_harness_gateway.Supervisor.Ends.{weight, load, Resumption-load}

-- The answer of the kind that a task awaits.
abbrev pub answer : Task → ScriptResult → Bool → Answer
answer (waits_ready token child_mode left) res b = woken
answer (stops_gracefully caller pid) res b = raced b
answer (stops_killed caller) res b = raced b
answer _ res b = ran res

abbrev pub value_or {ℓ κ} : {A : Type ℓ} {B : Type κ} → B → (A → B) → Option A → B
value_or b f none = b
value_or b f (some a) = f a

-- The first task goes on, and `next` does the rest.
abbrev pub first_on :
    (Supervisor → Supervisor) → List Task → ScriptResult → Bool → Supervisor → Supervisor
first_on next [] res b s = s
first_on next (t ∷ rest) res b s =
    value_or s next (resume t (answer t res b) (record s { tasks = rest }))

-- Going on with the first task, again and again, while scripts and races end in any way.
module _ (results : ℕ → ScriptResult) (races : ℕ → Bool) where
  unfoldable pub drain : ℕ → Supervisor → Supervisor
  drain zero s = s
  drain (suc n) s = first_on (drain n) s.tasks (results n) (races n) s

resume-answer :
    (t : Task) (res : ScriptResult) (b : Bool) (s : Supervisor)
    → (after : Supervisor) × (resume t (answer t res b) s ≡ some after)
unfolding resume
resume-answer (starts_probing caller) res b s = (_, refl)
resume-answer (starts_script caller token) res b s = (_, refl)
resume-answer (waits_ready token child_mode left) res b s = (_, refl)
resume-answer (waits_probe token child_mode left) res b s = (_, refl)
resume-answer (stops_gracefully caller pid) res b s = (_, refl)
resume-answer (stops_killed caller) res b s = (_, refl)
resume-answer (stops_script caller) res b s = (_, refl)
resume-answer refreshes res b s = (_, refl)
resume-answer boots_probing res b s = (_, refl)

weight-positive : (t : Task) → 1 ≤ weight t
weight-positive t = ground arith

first_on-rest :
    (next : Supervisor → Supervisor) (n : ℕ) (ts : List Task) (res : ScriptResult) (b : Bool)
    (s : Supervisor)
    → ((s' : Supervisor) → load s'.tasks ≤ n → (next s').tasks ≡ [])
    → s.tasks ≡ ts
    → load ts ≤ suc n
    → (first_on next ts res b s).tasks ≡ []
first_on-rest next n [] res b s h q l = q
first_on-rest next n (t ∷ rest) res b s h q l =
    let (after, e) = resume-answer t res b (record s { tasks = rest }) in
    let r = resume-Resumption t (answer t res b) (record s { tasks = rest }) after e in
    subst (λ o. (value_or s next o).tasks ≡ []) (sym e)
      (h after (ground (arith, Resumption-load r, l)))

first_on-keeps {κ} :
    (P : Supervisor → Type κ) (next : Supervisor → Supervisor) (ts : List Task) (res : ScriptResult)
    (b : Bool) (s : Supervisor)
    → ((t : Task) (s' after : Supervisor) → Resumption t s' after → P (await t s') → P after)
    → ((s' : Supervisor) → P s' → P (next s'))
    → s.tasks ≡ ts
    → P s
    → P (first_on next ts res b s)
first_on-keeps P next [] res b s keep h q p = p
first_on-keeps P next (t ∷ rest) res b s keep h q p =
    let (after, e) = resume-answer t res b (record s { tasks = rest }) in
    let r = resume-Resumption t (answer t res b) (record s { tasks = rest }) after e in
    subst (λ o. P (value_or s next o)) (sym e)
      (h after (
        keep t (record s { tasks = rest }) after r (subst (λ ts. P (record s { tasks = ts })) q p)))

module _ (results : ℕ → ScriptResult) (races : ℕ → Bool) where
  pub drain-rest :
      (n : ℕ) (s : Supervisor) → load s.tasks ≤ n → (drain results races n s).tasks ≡ []
  unfolding drain
  drain-rest zero s l = no_load s.tasks l
    where
      no_load : (ts : List Task) → load ts ≤ 0 → ts ≡ []
      no_load [] l = refl
      no_load (t ∷ ts) l = ground (arith, weight-positive t, l)
  drain-rest (suc n) s l =
      first_on-rest (drain results races n) n s.tasks (results n) (races n) s
        (λ s' l'. drain-rest n s' l') refl l

  pub drain-keeps {κ} :
      (P : Supervisor → Type κ)
      → ((t : Task) (s' after : Supervisor) → Resumption t s' after → P (await t s') → P after)
      → (n : ℕ) (s : Supervisor) → P s
      → P (drain results races n s)
  unfolding drain
  drain-keeps P keep zero s p = p
  drain-keeps P keep (suc n) s p =
      first_on-keeps P (drain results races n) s.tasks (results n) (races n) s keep
        (λ s' p'. drain-keeps P keep n s' p') refl p
