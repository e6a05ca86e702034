-- ===== src/Sqlite/Cascades.antt =====
-- The calls of packages/store/src/sqlite.ts on assignments, and those that delete them too.
use deepseek_harness_gateway.Common.{
  ◌≡◌, refl, sym, ap, ◌∙◌, Bool, true, not, ◌&&◌, ◌||◌, Option, none, some, arith, Option-cases,
  inl, inr,
}
use deepseek_harness_gateway.Common.Text.{Text, text_eq, text_eq_sym, Eq-text}
use deepseek_harness_gateway.Common.Dict.{get}
use deepseek_harness_gateway.Store.Domain.{User, Machine, Assignment, Store}
use deepseek_harness_gateway.Store.Memory
use deepseek_harness_gateway.Sqlite
use deepseek_harness_gateway.Sqlite.Rows.{
  Engine, Db, machine_row, is_some, Eq-pair, pair_eq, assignment_id,
}
use deepseek_harness_gateway.Sqlite.Database.{mapped}
use deepseek_harness_gateway.Sqlite.Assignments.{
  Plain, assigned-set, set-Keyed, assigned-delete, delete-Keyed, retain-Keyed, assigned-drop_user,
  assigned-drop_machine,
}
use deepseek_harness_gateway.Sqlite.Lists.{delete-Indexed}
use deepseek_harness_gateway.Sqlite.Tables.{delete-Holds, find-key}
use deepseek_harness_gateway.Sqlite.Refines.{
  Represents, with_users, with_machines, with_assignments,
}

module _ (g : Engine) (t : g.assignments.T) (m u : Text) where
  is_some-delete_where :
      (p : Assignment → Bool) (b : Bool)
      → ((a : Assignment) → a.machine_id ≡ m → a.user_id ≡ u → p a ≡ b)
      → is_some (g.assignments.find (m, u) (g.assignments.delete_where p t))
        ≡ (not b && is_some (g.assignments.find (m, u) t))
  is_some-delete_where p b all =
      rw (g.assignments.find-delete_where p (m, u) t)
        (elim (Option-cases (g.assignments.find (m, u) t)) [
          | inl z ↦ rw z (ground arith)
          | inr (a, z) ↦
              let own = find-key g.assignments (m, u) t a z in
              rw (z, all a (ap (λ k. k.0) own) (ap (λ k. k.1) own)) (ground arith)
        ])

  is_some-insert_new :
      (a : Assignment)
      → is_some (g.assignments.find (m, u) (g.assignments.insert_new a t))
        ≡ (pair_eq (assignment_id a) (m, u) || is_some (g.assignments.find (m, u) t))
  is_some-insert_new a = rw (g.assignments.find-insert_new a (m, u) t) (ground arith)

is_some-mapped {ℓ κ} :
    {A : Type ℓ} {B : Type κ} (f : A → B) (o : Option A) → is_some (mapped f o) ≡ is_some o
is_some-mapped f none = refl
is_some-mapped f (some a) = refl

module _ (g : Engine) {db : Db g} {s : Store} (r : Represents g db s) where
  pub remove_assignment-Represents :
      (m u : Text)
      → Plain m
      → Represents g (Sqlite.remove_assignment g m u db) (Memory.remove_assignment m u s)
  unfolding Sqlite.remove_assignment Memory.remove_assignment
  remove_assignment-Represents m u h =
      with_assignments g r _ _
        (λ n v.
          is_some-delete_where g db.assignments n v
            (λ a. text_eq a.machine_id m && text_eq a.user_id u) (text_eq m n && text_eq u v)
            (λ a e d. rw (e, d, text_eq_sym n m, text_eq_sym v u) refl)
          ∙ ap (λ b. not (text_eq m n && text_eq u v) && b) (r.assignments n v)
          ∙ sym (assigned-delete n v m u s.assignments h r.keyed))
        (delete-Keyed _ s.assignments r.keyed)

  pub delete_user-Represents :
      (id : Text) → Plain id → Represents g (Sqlite.delete_user g id db) (Memory.delete_user id s)
  unfolding Sqlite.delete_user Memory.delete_user
  delete_user-Represents id h =
      with_assignments g
        (with_users g r _ _
          (delete-Holds g.users (λ (x : User). x.id) (λ v. v) (λ v. refl) db.users s.users r.users
            r.users_listed id)
          (delete-Indexed (λ x. x.id) id s.users r.users_listed))
        _ _
        (λ n v.
          is_some-delete_where g db.assignments n v (λ a. text_eq a.user_id id) (text_eq id v)
            (λ a e d. rw (d, text_eq_sym v id) refl)
          ∙ ap (λ b. not (text_eq id v) && b) (r.assignments n v)
          ∙ sym (assigned-drop_user n v id s.assignments h r.keyed))
        (retain-Keyed _ s.assignments r.keyed)

  pub delete_machine-Represents :
      (id : Text)
      → Plain id
      → Represents g (Sqlite.delete_machine g id db) (Memory.delete_machine id s)
  unfolding Sqlite.delete_machine Memory.delete_machine machine_row
  delete_machine-Represents id h =
      with_assignments g
        (with_machines g r _ _
          (delete-Holds g.machines (λ (x : Machine). x.id) machine_row (λ v. refl) db.machines
            s.machines r.machines r.machines_listed id)
          (delete-Indexed (λ x. x.id) id s.machines r.machines_listed))
        _ _
        (λ n v.
          is_some-delete_where g db.assignments n v (λ a. text_eq a.machine_id id) (text_eq id n)
            (λ a e d. rw (e, text_eq_sym n id) refl)
          ∙ ap (λ b. not (text_eq id n) && b) (r.assignments n v)
          ∙ sym (assigned-drop_machine n v id s.assignments h r.keyed))
        (retain-Keyed _ s.assignments r.keyed)

  -- The foreign keys hold when both are there.
  add_assignment-accepted :
      (a : Assignment)
      → is_some (get a.machine_id s.machines) ≡ true
      → is_some (get a.user_id s.users) ≡ true
      → Sqlite.add_assignment g a db
        ≡ some (record db { assignments = g.assignments.insert_new a db.assignments })
  unfolding Sqlite.add_assignment
  add_assignment-accepted a hm hu =
      let machine : is_some (g.machines.find a.machine_id db.machines) ≡ true =
        ap is_some (r.machines a.machine_id)
        ∙ is_some-mapped machine_row (get a.machine_id s.machines)
        ∙ hm in
      let owner : is_some (g.users.find a.user_id db.users) ≡ true =
        ap is_some (r.users a.user_id)
        ∙ is_some-mapped (λ (x : User). x) (get a.user_id s.users)
        ∙ hu in
      rw (machine, owner) (ground arith)

  pub add_assignment-Represents :
      (a : Assignment)
      → Plain a.machine_id
      → Plain a.user_id
      → is_some (get a.machine_id s.machines) ≡ true
      → is_some (get a.user_id s.users) ≡ true
      → (after : Db g) × (Sqlite.add_assignment g a db ≡ some after)
        × Represents g after (Memory.add_assignment a s)
  unfolding Memory.add_assignment
  add_assignment-Represents a pm pu hm hu = (
    record db { assignments = g.assignments.insert_new a db.assignments },
    add_assignment-accepted a hm hu,
    with_assignments g r _ _
        (λ n v.
          is_some-insert_new g db.assignments n v a
          ∙ ap (λ b. pair_eq (assignment_id a) (n, v) || b) (r.assignments n v)
          ∙ sym (assigned-set n v a s.assignments pm pu r.keyed))
        (set-Keyed a s.assignments pm pu r.keyed),
  )
