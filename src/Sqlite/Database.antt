-- ===== src/Sqlite/Database.antt =====
-- What packages/store/src/sqlite.ts relies on of SQLite and Drizzle: a table with a primary key, and
-- the audit table, whose ids the database counts up.
use mathlib.Core.List.{Perm}
use deepseek_harness_gateway.Common.{
  ℕ, ◌≡◌, Bool, true, not, Option, none, some, List, [], ◌∷◌, ◌++◌, map, Eq, Eq-nat, ◌==◌,
  if◌then◌else◌,
}
use deepseek_harness_gateway.Common.Lists.{filter, count, All}
use deepseek_harness_gateway.Common.Sort.{IsSorted}
use deepseek_harness_gateway.Common.Dict.{Dict, IsMap}
use deepseek_harness_gateway.Common.Text.{Text, text_lt}

abbrev pub or_row {ℓ} : {R : Type ℓ} → R → (R → R) → Option R → R
or_row r change none = r
or_row r change (some old) = change old

abbrev pub kept {ℓ} : {R : Type ℓ} → (R → Bool) → Option R → Option R
kept p none = none
kept p (some r) = if p r then some r else none

abbrev pub mapped {ℓ κ} : {R : Type ℓ} {S : Type κ} → (R → S) → Option R → Option S
mapped f none = none
mapped f (some r) = some (f r)

abbrev pub rows_of {ℓ} : {R : Type ℓ} → Option R → List R
rows_of none = []
rows_of (some r) = r ∷ []

-- A table, by what its statements do to the row under a key. The order of a selection is not fixed.
pub record Table {K Row : Type 0} ⦃e : Eq K⦄ (key : Row → K) : Type 1 where
  pub T : Type 0
  pub empty : T
  -- `select().from(t).where(…)`
  pub select : (Row → Bool) → T → List Row
  -- `select().from(t).where(eq(key, k)).get()`
  pub find : K → T → Option Row
  -- `insert(t).values(row).onConflictDoUpdate({ target: key, set })`
  pub upsert : Row → (Row → Row) → T → T
  -- `insert(t).values(row).onConflictDoNothing()`
  pub insert_new : Row → T → T
  -- `update(t).set(…).where(eq(key, k))`
  pub update : K → (Row → Row) → T → T
  -- `delete(t).where(…)`
  pub delete_where : (Row → Bool) → T → T
  pub find-empty : (k : K) → find k empty ≡ none
  pub find-select :
      (p : Row → Bool) (k : K) (t : T)
      → filter (λ r. key r == k) (select p t) ≡ rows_of (kept p (find k t))
  pub select-holds : (p : Row → Bool) (t : T) → All (λ r. p r ≡ true) (select p t)
  pub find-upsert :
      (row : Row) (change : Row → Row)
      → ((r : Row) → key (change r) ≡ key r)
      → (k : K) (t : T)
      → find k (upsert row change t)
        ≡ (if key row == k then some (or_row row change (find (key row) t)) else find k t)
  pub find-insert_new :
      (row : Row) (k : K) (t : T)
      → find k (insert_new row t)
        ≡ (if key row == k then some (or_row row (λ old. old) (find (key row) t)) else find k t)
  pub find-update :
      (j : K) (change : Row → Row)
      → ((r : Row) → key (change r) ≡ key r)
      → (k : K) (t : T)
      → find k (update j change t) ≡ (if j == k then mapped change (find k t) else find k t)
  pub find-delete_where :
      (p : Row → Bool) (k : K) (t : T)
      → find k (delete_where p t) ≡ kept (λ r. not (p r)) (find k t)

-- The audit table: `entries` are its rows with their ids, in the order of the ids.
pub record AuditTable {Row : Type 0} (ts : Row → Text) : Type 1 where
  pub T : Type 0
  pub empty : T
  pub entries : T → Dict ℕ Row
  pub insert : Row → T → T
  -- `where(…).orderBy(asc(ts))`
  pub ordered : (Row → Bool) → T → List Row
  -- `delete(t).where(…).run()`, by the id and the row, and its result's `changes`
  pub delete_where : (ℕ → Row → Bool) → T → T
  pub changes : (ℕ → Row → Bool) → T → ℕ
  pub ids_unique : (t : T) → IsMap (entries t)
  pub entries-empty : entries empty ≡ []
  pub entries-insert :
      (r : Row) (t : T) → (id : ℕ) × (entries (insert r t) ≡ entries t ++ (id, r) ∷ [])
  pub ordered-IsSorted :
      (p : Row → Bool) (t : T) → IsSorted (λ a b. text_lt (ts a) (ts b)) (ordered p t)
  pub ordered-perm :
      (p : Row → Bool) (t : T)
      → Perm (ordered p t) (filter p (map (λ (x : ℕ × Row). x.1) (entries t)))
  pub entries-delete_where :
      (p : ℕ → Row → Bool) (t : T)
      → entries (delete_where p t) ≡ filter (λ (x : ℕ × Row). not (p x.0 x.1)) (entries t)
  pub changes-count :
      (p : ℕ → Row → Bool) (t : T) → changes p t ≡ count (λ (x : ℕ × Row). p x.0 x.1) (entries t)
