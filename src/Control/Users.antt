-- ===== src/Control/Users.antt =====
-- The handlers for users of apps/gateway/src/control.ts. A handler gives its reply and the store after
-- it; the caller has passed `requireRole`. The hash function, the random salt and the clock's text are
-- arguments.
pub mod Admins
use deepseek_harness_gateway.Common.{
  ℕ, Bool, true, false, not, ◌&&◌, ◌||◌, Option, none, some, List, [], ◌∷◌, ◌++◌, map, ltb, leb,
  if◌then◌else◌,
}
use deepseek_harness_gateway.Common.Text.{Text, text, text_eq}
use deepseek_harness_gateway.Common.Lists.{length, filter, any}
use deepseek_harness_gateway.Store.Domain.{
  User, Role, system_admin, admin, user, other, role_eq, Store, AuditEvent, ok,
}
use deepseek_harness_gateway.Store.Memory.{
  get_user, list_users, upsert_user, delete_user, delete_throttle_account, append_audit,
}
use deepseek_harness_gateway.Login.{Scrypt, hash_password, verify_password}

pub data Reply : Type 0 where
  done : Reply
  failed : ℕ → Text → Reply

abbrev pub is_system_admin : User → Bool
is_system_admin u = role_eq u.role system_admin

abbrev pub is_admin : User → Bool
is_admin u = role_eq u.role system_admin || role_eq u.role admin

-- a role as a request's body writes it
abbrev pub role_of : Text → Role
role_of s =
    if text_eq s (text "system-admin")
    then system_admin
    else if text_eq s (text "admin")
    then admin
    else if text_eq s (text "user")
    then user
    else other s

abbrev pub role_text : Role → Text
role_text system_admin = text "system-admin"
role_text admin = text "admin"
role_text user = text "user"
role_text (other s) = s

abbrev pub user_event : Text → Text → Text → Option Text → AuditEvent
user_event ts actor action detail = record {
  ts = ts;
  actor = actor;
  machine_id = none;
  action = action;
  result = ok;
  detail = detail;
}

-- `GET /gw/users`
unfoldable pub get_users : Store → List (Text × Role)
unfolding list_users
get_users s = map (λ u. (u.id, u.role)) (list_users s)

abbrev or_user : Option Text → Role
or_user none = user
or_user (some r) = role_of r

module _ (scrypt : Scrypt) (salt : List ℕ) where
  abbrev create_with : User → Text → Text → Role → Store → Reply × Store
  create_with actor [] password role s = (failed 400 (text "id and password required"), s)
  create_with actor (c ∷ id) [] role s = (failed 400 (text "id and password required"), s)
  create_with actor (c ∷ id) (d ∷ password) role s =
      if role_eq role system_admin && not (is_system_admin actor)
      then (failed 403 (text "only a system admin can create a system admin"), s)
      else (
        done,
        upsert_user
            (record {
              id = c ∷ id;
              role = role;
              auth_hash = hash_password scrypt salt (d ∷ password);
            })
            s,
      )

  -- `POST /gw/users`; a missing id or password counts as an empty one
  unfoldable pub create_user : User → Text → Text → Option Text → Store → Reply × Store
  unfolding upsert_user hash_password
  create_user actor id password role s = create_with actor id password (or_user role) s

  abbrev is_role : Role → Bool
  is_role (other s) = false
  is_role _ = true

  -- the role to set: none for a role that is not one of the three
  abbrev next_role : User → Option Text → Option Role
  next_role target none = some target.role
  next_role target (some r) = if is_role (role_of r) then some (role_of r) else none

  abbrev has_text : Option Text → Bool
  has_text none = false
  has_text (some []) = false
  has_text (some (c ∷ s)) = true

  abbrev given : Option Text → Bool
  given none = false
  given (some s) = true

  -- the new hash: none for a password that is too short
  abbrev next_hash : User → Option Text → Option Text
  next_hash target none = some target.auth_hash
  next_hash target (some []) = some target.auth_hash
  next_hash target (some (c ∷ pw)) =
      if ltb (length (c ∷ pw)) 6 then none else some (hash_password scrypt salt (c ∷ pw))

  abbrev change_text : User → Role → Text
  change_text target role =
      text "role: " ++ (role_text target.role ++ (text " -> " ++ role_text role))

  abbrev edit_apply : Text → User → User → Role → Option Text → Option Text → Store → Reply × Store
  edit_apply ts actor target role password none s = (failed 400 (text "新密码至少 6 位"), s)
  edit_apply ts actor target role password (some auth_hash) s =
      let saved = upsert_user (record { id = target.id; role = role; auth_hash = auth_hash }) s in
      if not (role_eq role target.role)
      then (
        done,
        append_audit (user_event ts actor.id (text "update_user") (some (change_text target role)))
            saved,
      )
      else if has_text password
      then (
        done,
        append_audit (user_event ts actor.id (text "update_user") (some (text "password reset")))
            saved,
      )
      else (done, s)

  abbrev edit_role : Text → User → User → Option Text → Option Role → Store → Reply × Store
  edit_role ts actor target password none s = (failed 400 (text "invalid role"), s)
  edit_role ts actor target password (some role) s =
      if not (is_system_admin actor) && (is_system_admin target || role_eq role system_admin)
      then (failed 403 (text "only a system admin can manage system admins"), s)
      else edit_apply ts actor target role password (next_hash target password) s

  -- The account is saved under the id of the request.
  abbrev edit_found :
      Text → User → Text → Option Text → Option Text → Store → Option User → Reply × Store
  edit_found ts actor id role password s none = (failed 404 (text "user not found"), s)
  edit_found ts actor id role password s (some target) =
      if given role || has_text password
      then edit_role ts actor (record target { id = id }) password (next_role target role) s
      else (failed 400 (text "nothing to update"), s)

  -- `PATCH /gw/users/:id`; a role or a password that is not a string is missing
  unfoldable pub edit_user : Text → User → Text → Option Text → Option Text → Store → Reply × Store
  unfolding get_user upsert_user append_audit hash_password
  edit_user ts actor id role password s =
      if text_eq id actor.id
      then (failed 400 (text "不能编辑自己的账号"), s)
      else edit_found ts actor id role password s (get_user id s)

  abbrev change_with : Text → User → Text → Text → Store → Reply × Store
  change_with ts u [] new_password s = (failed 400 (text "oldPassword and newPassword required"), s)
  change_with ts u (c ∷ old) [] s = (failed 400 (text "oldPassword and newPassword required"), s)
  change_with ts u (c ∷ old) (d ∷ new_password) s =
      if verify_password scrypt (c ∷ old) u.auth_hash
      then (if ltb (length (d ∷ new_password)) 6 then (failed 400 (text "新密码至少 6 位"), s) else (
        done,
        append_audit (user_event ts u.id (text "change_password") none) (
            upsert_user
              (record {
                id = u.id;
                role = u.role;
                auth_hash = hash_password scrypt salt (d ∷ new_password);
              })
              s),
      ))
      else (failed 401 (text "当前密码不正确"), s)

  -- `POST /gw/me/password`
  unfoldable pub change_password : Text → User → Text → Text → Store → Reply × Store
  unfolding upsert_user append_audit verify_password hash_password
  change_password ts u old_password new_password s = change_with ts u old_password new_password s

abbrev delete_allowed : Text → User → Text → User → Store → Reply × Store
delete_allowed ts actor id target s = (
  done,
  append_audit
      (user_event ts actor.id (text "delete_user")
        (some (target.id ++ (text " (" ++ (role_text target.role ++ text ")")))))
      (delete_throttle_account id (delete_user id s)),
)

abbrev delete_found : Text → User → Text → Store → Option User → Reply × Store
delete_found ts actor id s none = (failed 404 (text "user not found"), s)
delete_found ts actor id s (some target) =
    if not (is_system_admin actor) && is_system_admin target
    then (failed 403 (text "only a system admin can delete a system admin"), s)
    else if is_system_admin target && leb (length (filter is_system_admin (list_users s))) 1
    then (failed 400 (text "不能删除最后一个系统管理员"), s)
    else delete_allowed ts actor id target s

-- `DELETE /gw/users/:id`
unfoldable pub remove_user : Text → User → Text → Store → Reply × Store
unfolding get_user list_users delete_user delete_throttle_account append_audit
remove_user ts actor id s =
    if text_eq id actor.id
    then (failed 400 (text "不能删除自己的账号"), s)
    else delete_found ts actor id s (get_user id s)
