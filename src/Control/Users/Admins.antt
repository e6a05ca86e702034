-- ===== src/Control/Users/Admins.antt =====
-- What the user handlers of apps/gateway/src/control.ts do to the system administrators.
use deepseek_harness_gateway.Common.{
  ℕ, ◌+◌, ◌≤◌, ◌≡◌, refl, sym, ap, ◌∙◌, false, ◌||◌, Option, none, some, List, [], ◌∷◌,
  if◌then◌else◌, arith, Bool-cases, inl, inr,
}
use deepseek_harness_gateway.Common.Text.{Text, text_eq, text_eq_iff, Eq-text}
use deepseek_harness_gateway.Common.Lists.{count, length-filter}
use deepseek_harness_gateway.Common.Dict.{
  Dict, get, set, delete, has, values, IsMap, get-set, get-delete,
}
use deepseek_harness_gateway.Store.Domain.{User, Role, system_admin, role_eq, Store}
use deepseek_harness_gateway.Store.Memory.{
  get_user, list_users, upsert_user, delete_user, delete_throttle_account, append_audit,
}
use deepseek_harness_gateway.Login.{Scrypt}
use deepseek_harness_gateway.Control.Users.{
  is_system_admin, edit_user, remove_user, delete_found, delete_allowed, edit_found, edit_role,
  edit_apply, next_hash, next_role,
}

-- How many system administrators there are.
abbrev pub system_admins : Store → ℕ
unfolding count values
system_admins s = count is_system_admin (values s.users)

absent_delete : (id : Text) (m : Dict Text User) → has id m ≡ false → delete id m ≡ m
unfolding delete has
absent_delete id [] h = refl
absent_delete id ((i, u) ∷ m) h = ground (arith, absent_delete id m)

count-delete :
    (id : Text) (u : User) (m : Dict Text User)
    → IsMap m
    → get id m ≡ some u
    → count is_system_admin (values m)
      ≡ count is_system_admin (values (delete id m)) + (if is_system_admin u then 1 else 0)
unfolding delete get has values count
count-delete id u [] v h = cc
count-delete id u ((i, r) ∷ m) v h =
    ground (arith, text_eq_iff i id, count-delete id u m v.1, absent_delete id m, v.0)

removed_users :
    (ts : Text) (actor : User) (id : Text) (target : User) (s : Store)
    → (delete_allowed ts actor id target s).1.users ≡ delete id s.users
unfolding delete_user delete_throttle_account append_audit
removed_users ts actor id target s = refl

keeps_one :
    (ts : Text) (actor : User) (id : Text) (s : Store) (r : Option User)
    → IsMap s.users
    → get id s.users ≡ r
    → 1 ≤ system_admins s
    → 1 ≤ system_admins (delete_found ts actor id s r).1
unfolding system_admins list_users
keeps_one ts actor id s none v found h = h
keeps_one ts actor id s (some target) v found h = ground (
  arith,
  removed_users ts actor id target s,
  count-delete id target s.users v found,
  length-filter is_system_admin (values s.users),
)

-- While there is a system administrator, deleting users leaves one, whoever asks.
pub remove_user-keeps_system_admin :
    (ts : Text) (actor : User) (id : Text) (s : Store)
    → IsMap s.users
    → 1 ≤ count is_system_admin (values s.users)
    → 1 ≤ count is_system_admin (values (remove_user ts actor id s).1.users)
unfolding remove_user get_user system_admins
remove_user-keeps_system_admin ts actor id s v h = elim (Bool-cases (text_eq id actor.id)) [
  | inl own ↦ rw own h
  | inr another ↦ rw another (keeps_one ts actor id s (get id s.users) v refl h)
]

abbrev only_admin : Option User → Option User
only_admin none = none
only_admin (some u) = if is_system_admin u then some u else none

-- The system administrator of a name, if there is one.
abbrev pub admin_at : Text → Store → Option User
admin_at k s = only_admin (get k s.users)

admin_at-set :
    (k : Text) (u : User) (users : Dict Text User)
    → is_system_admin u ≡ false
    → only_admin (get u.id users) ≡ none
    → only_admin (get k (set u.id u users)) ≡ only_admin (get k users)
admin_at-set k u users plain before = elim (Bool-cases (text_eq u.id k)) [
  | inl same ↦
      let here : u.id ≡ k = (text_eq_iff u.id k).0 same in
      ap only_admin (get-set u.id k u users)
      ∙ rw same (rw plain (sym (sym (ap (λ z. only_admin (get z users)) here) ∙ before)))
  | inr differs ↦ ap only_admin (get-set u.id k u users) ∙ rw differs refl
]

admin_at-delete :
    (k id : Text) (users : Dict Text User)
    → only_admin (get id users) ≡ none
    → only_admin (get k (delete id users)) ≡ only_admin (get k users)
admin_at-delete k id users before = elim (Bool-cases (text_eq id k)) [
  | inl same ↦
      let here : id ≡ k = (text_eq_iff id k).0 same in
      ap only_admin (get-delete id k users)
      ∙ rw same (sym (sym (ap (λ z. only_admin (get z users)) here) ∙ before))
  | inr differs ↦ ap only_admin (get-delete id k users) ∙ rw differs refl
]

module _ (scrypt : Scrypt) (salt : List ℕ) where
  applied :
      (ts : Text) (actor target : User) (role : Role) (password hash : Option Text) (k : Text)
      (s : Store)
      → role_eq role system_admin ≡ false
      → admin_at target.id s ≡ none
      → admin_at k (edit_apply scrypt salt ts actor target role password hash s).1 ≡ admin_at k s
  unfolding upsert_user append_audit
  applied ts actor target role password none k s plain before = refl
  applied ts actor target role password (some auth_hash) k s plain before =
      let saved : User = record { id = target.id; role = role; auth_hash = auth_hash } in
      ground (arith, admin_at-set k saved s.users plain before)

  edited :
      (ts : Text) (actor : User) (id : Text) (target : User) (password : Option Text)
      (role : Option Role) (k : Text) (s : Store)
      → is_system_admin actor ≡ false
      → get id s.users ≡ some target
      → admin_at k (edit_role scrypt salt ts actor (record target { id = id }) password role s).1
        ≡ admin_at k s
  edited ts actor id target password none k s plain found = refl
  edited ts actor id target password (some role) k s plain found =
      rw plain (elim (Bool-cases (is_system_admin target || role_eq role system_admin)) [
        | inl guarded ↦ rw guarded refl
        | inr fine ↦ rw fine (
            applied ts actor (record target { id = id }) role password
              (next_hash scrypt salt (record target { id = id }) password) k s
              (ground (arith, fine)) (ap only_admin found ∙ ground (arith, fine)))
      ])

  edit-admins :
      (ts : Text) (actor : User) (id : Text) (role password : Option Text) (k : Text) (s : Store)
      (r : Option User)
      → is_system_admin actor ≡ false
      → get id s.users ≡ r
      → admin_at k (edit_found scrypt salt ts actor id role password s r).1 ≡ admin_at k s
  edit-admins ts actor id role password k s none plain found = refl
  edit-admins ts actor id role password k s (some target) plain found = ground (
    arith,
    edited ts actor id target password (next_role scrypt salt target role) k s plain found,
  )

  remove-admins :
      (ts : Text) (actor : User) (id k : Text) (s : Store) (r : Option User)
      → is_system_admin actor ≡ false
      → get id s.users ≡ r
      → admin_at k (delete_found ts actor id s r).1 ≡ admin_at k s
  remove-admins ts actor id k s none plain found = refl
  remove-admins ts actor id k s (some target) plain found =
      elim (Bool-cases (is_system_admin target)) [
        | inl guarded ↦ rw plain (rw guarded refl)
        | inr fine ↦ rw plain (
            rw fine (
              ap only_admin (ap (get k) (removed_users ts actor id target s))
              ∙ admin_at-delete k id s.users (ap only_admin found ∙ rw fine refl)))
      ]

  -- An administrator who is no system administrator neither changes nor removes the account of one by
  -- editing or deleting users, and makes nobody one by editing.
  pub plain_admin-system_admins_same :
      (ts : Text) (actor : User) (id : Text) (role password : Option Text) (k : Text) (s : Store)
      → is_system_admin actor ≡ false
      → (admin_at k (edit_user scrypt salt ts actor id role password s).1 ≡ admin_at k s)
        × (admin_at k (remove_user ts actor id s).1 ≡ admin_at k s)
  unfolding edit_user remove_user get_user
  plain_admin-system_admins_same ts actor id role password k s plain =
      elim (Bool-cases (text_eq id actor.id)) [
        | inl own ↦ rw own (refl, refl)
        | inr another ↦ rw another (
          edit-admins ts actor id role password k s (get id s.users) plain refl,
          remove-admins ts actor id k s (get id s.users) plain refl,
        )
      ]
