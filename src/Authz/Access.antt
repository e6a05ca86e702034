-- ===== src/Authz/Access.antt =====
-- What authorizeConsole of apps/gateway/src/authz.ts decides.
use deepseek_harness_gateway.Common.{
  ◌≡◌, ◌↔◌, refl, true, false, Option, none, some, List, [], ◌∷◌, arith, ◌⊎◌,
}
use deepseek_harness_gateway.Common.Text.{Text, text_eq, text_eq_iff, Eq-text}
use deepseek_harness_gateway.Common.Lists.{any, filter}
use deepseek_harness_gateway.Common.Dict.{get, values}
use deepseek_harness_gateway.Store.Domain.{User, Machine, Assignment, Store, user, approved}
use deepseek_harness_gateway.Store.Memory.{get_machine, list_assignments_for_user}
use deepseek_harness_gateway.Authz.{assigned_to, authorize_console}

-- Somewhere in the list stands an assignment of the user to the machine.
abbrev pub Assigned : Text → Text → List Assignment → Type 0
Assigned user_id machine_id [] = ⊥
Assigned user_id machine_id (a ∷ rest) =
    (a.user_id ≡ user_id) × (a.machine_id ≡ machine_id) ⊎ Assigned user_id machine_id rest

any-Assigned :
    (user_id machine_id : Text) (xs : List Assignment)
    → (any (λ a. text_eq a.machine_id machine_id) (filter (λ a. text_eq a.user_id user_id) xs)
        ≡ true)
      ↔ Assigned user_id machine_id xs
unfolding any filter
any-Assigned user_id machine_id [] = ground arith
any-Assigned user_id machine_id (a ∷ xs) = ground (
  arith,
  any-Assigned user_id machine_id xs,
  text_eq_iff a.user_id user_id,
  text_eq_iff a.machine_id machine_id,
)

assigned_to_iff :
    (s : Store) (user_id machine_id : Text)
    → (assigned_to s user_id machine_id ≡ true) ↔ Assigned user_id machine_id (values s.assignments)
unfolding assigned_to list_assignments_for_user
assigned_to_iff s user_id machine_id = any-Assigned user_id machine_id (values s.assignments)

-- The machine is known and approved, and a plain user is assigned to it.
abbrev pub MayUse : Store → User → Text → Option Machine → Type 0
MayUse s u machine_id none = ⊥
MayUse s u machine_id (some m) =
    (m.status ≡ approved) × (u.role ≡ user → Assigned u.id machine_id (values s.assignments))

-- A signed-in user is let through to a machine's console exactly when the machine is known and
-- approved and, for the role `user`, some assignment pairs the two; nobody is let through without
-- signing in.
pub authorize_console-allowed_iff :
    (s : Store) (u : User) (machine_id : Text)
    → ((authorize_console s none machine_id).allowed ≡ false)
      × (((authorize_console s (some u) machine_id).allowed ≡ true)
          ↔ MayUse s u machine_id (get machine_id s.machines))
unfolding authorize_console get_machine
authorize_console-allowed_iff s u machine_id = (refl, decided (get machine_id s.machines) refl)
  where
    decided :
        (r : Option Machine)
        → get machine_id s.machines ≡ r
        → ((authorize_console s (some u) machine_id).allowed ≡ true)
          ↔ MayUse s u machine_id (get machine_id s.machines)
    decided none h = ground (arith, h)
    decided (some m) h = ground (arith, h, assigned_to_iff s u.id machine_id)
