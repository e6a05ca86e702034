-- ===== src/Control/Tests.antt =====
-- Concrete runs of the handlers of apps/gateway/src/control.ts.
use deepseek_harness_gateway.Common.{◌≡◌, ◌≤◌, refl, none, some, [], ◌∷◌, ◌++◌, map, arith}
use deepseek_harness_gateway.Common.Text.{text, text_eq, Eq-text}
use deepseek_harness_gateway.Common.Lists.{count}
use deepseek_harness_gateway.Common.Dict.{values, has, IsMap}
use deepseek_harness_gateway.Store.Domain.{User, Store, empty_store, system_admin, admin, ok}
use deepseek_harness_gateway.Store.Audit.{no_options}
use deepseek_harness_gateway.Login.{Scrypt}
use deepseek_harness_gateway.Control.Users.{is_system_admin, edit_user, remove_user}
use deepseek_harness_gateway.Control.Users.Admins.{
  remove_user-keeps_system_admin, plain_admin-system_admins_same, admin_at,
}
use deepseek_harness_gateway.Control.Exports.{csv, line_of, header_of, stream_audit_lines}
use deepseek_harness_gateway.Control.Paging.{all_of, stream_audit_lines_complete}

abbrev root : User
root = record { id = text "root"; role = system_admin; auth_hash = text "h" }

abbrev ann : User
ann = record { id = text "ann"; role = admin; auth_hash = text "h" }

abbrev two_users : Store
two_users = record empty_store { users = (text "root", root) ∷ (text "ann", ann) ∷ [] }

users_once : IsMap two_users.users
unfolding has text_eq
users_once = (refl, (refl, tt))

one_root : 1 ≤ count is_system_admin (values two_users.users)
unfolding count values
one_root = ground arith

remove_user-keeps_system_admin_example :
    1 ≤ count is_system_admin (values (remove_user (text "t") ann (text "root") two_users).1.users)
remove_user-keeps_system_admin_example =
    remove_user-keeps_system_admin (text "t") ann (text "root") two_users users_once one_root

abbrev toy_hash : Scrypt
toy_hash plain salt = plain

plain_admin-system_admins_same_example :
    (admin_at
        (text "root")
        (edit_user toy_hash
          (1 ∷ [])
          (text "t")
          ann
          (text "root")
          (some (text "user"))
          none
          two_users).1
      ≡ admin_at (text "root") two_users)
    × (admin_at (text "root") (remove_user (text "t") ann (text "root") two_users).1
        ≡ admin_at (text "root") two_users)
plain_admin-system_admins_same_example =
    plain_admin-system_admins_same toy_hash (1 ∷ []) (text "t") ann (text "root")
      (some (text "user")) none (text "root") two_users refl

abbrev log : Store
log = record empty_store {
  audit =
      record {
        ts = text "2";
        actor = text "a,b";
        machine_id = none;
        action = text "login";
        result = ok;
        detail = none;
      }
      ∷ [];
}

stream_audit_lines_complete_example :
    stream_audit_lines csv no_options log
    ≡ header_of csv ++ map (line_of csv) (all_of no_options log)
stream_audit_lines_complete_example = stream_audit_lines_complete csv no_options log
