-- ===== src/Authz.antt =====
-- apps/gateway/src/authz.ts: who may use the console of a machine, and the cookie reader.
pub mod Access
pub mod Cookie
mod Tests
use deepseek_harness_gateway.Common.{
  ℕ, Bool, true, false, Option, none, some, List, [], ◌∷◌, if◌then◌else◌,
}
use deepseek_harness_gateway.Common.Text.{Text, text, text_eq}
use deepseek_harness_gateway.Common.Lists.{any}
use deepseek_harness_gateway.Common.Split.{split_on, cut_at, trim}
use deepseek_harness_gateway.Store.Domain.{
  User, Machine, Assignment, Store, Role, user, role_eq, MachineStatus, approved, status_eq,
}
use deepseek_harness_gateway.Store.Memory.{get_machine, list_assignments_for_user}

pub record AuthzResult : Type 0 where
  pub allowed : Bool
  pub status : ℕ
  pub error : Option Text

abbrev refuse : ℕ → Text → AuthzResult
refuse status error = record { allowed = false; status = status; error = some error }

abbrev allow : AuthzResult
allow = record { allowed = true; status = 200; error = none }

unfoldable pub assigned_to : Store → Text → Text → Bool
unfolding list_assignments_for_user
assigned_to store user_id machine_id =
    any (λ a. text_eq a.machine_id machine_id) (list_assignments_for_user user_id store)

abbrev authorize_found : Store → User → Text → Option Machine → AuthzResult
authorize_found store u machine_id none = refuse 404 (text "machine not found")
authorize_found store u machine_id (some m) =
    if status_eq m.status approved
    then (if role_eq u.role user
        then (if assigned_to store u.id machine_id
            then allow
            else refuse 403 (text "not assigned to this machine"))
        else allow)
    else refuse 409 (text "machine not approved")

unfoldable pub authorize_console : Store → Option User → Text → AuthzResult
unfolding assigned_to get_machine
authorize_console store none machine_id = refuse 401 (text "unauthorized")
authorize_console store (some u) machine_id =
    authorize_found store u machine_id (get_machine machine_id store)

-- `for (const part of header.split(';'))`
abbrev cookie_of_part : Text → Option (Text × Text) → Option Text → Option Text
cookie_of_part name none rest = rest
cookie_of_part name (some (before, after)) rest =
    if text_eq (trim before) name then some (trim after) else rest

unfoldable pub find_cookie : List Text → Text → Option Text
find_cookie [] name = none
find_cookie (part ∷ parts) name =
    let rest = find_cookie parts name in cookie_of_part name (cut_at 61 part) rest

unfoldable pub get_cookie : Option Text → Text → Option Text
unfolding find_cookie split_on cut_at trim
get_cookie none name = none
get_cookie (some []) name = none
get_cookie (some (c ∷ header)) name = find_cookie (split_on 59 (c ∷ header)) name
