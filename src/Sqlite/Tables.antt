-- ===== src/Sqlite/Tables.antt =====
-- One table of packages/store/src/sqlite.ts against one map of packages/store/src/memory.ts.
use deepseek_harness_gateway.Common.{
  ◌≡◌, refl, ap, ◌∙◌, Bool, true, Option, none, some, List, [], ◌∷◌, arith, Eq, ◌==◌, Option-cases,
  inl, inr,
}
use deepseek_harness_gateway.Common.Lists.{filter}
use deepseek_harness_gateway.Common.Dict.{Dict, get, set, delete, get-set, get-delete}
use deepseek_harness_gateway.Sqlite.Database.{Table, mapped, kept, or_row, rows_of}
use deepseek_harness_gateway.Sqlite.Lists.{Indexed}

pub mapped_same {ℓ} : {A : Type ℓ} (o : Option A) → mapped (λ (x : A). x) o ≡ o
mapped_same none = refl
mapped_same (some x) = refl

kept_all {ℓ} : {A : Type ℓ} (o : Option A) → kept (λ (x : A). true) o ≡ o
kept_all none = refl
kept_all (some x) = refl

module _ {K V : Type 0} ⦃e : Eq K⦄ (key : V → K) where
  pub key-get : (k : K) (v : V) (d : Dict K V) → Indexed key d → get k d ≡ some v → key v ≡ k
  unfolding get
  key-get k v [] w h = cc
  key-get k v ((j, u) ∷ d) w h = ground (arith, e.same_iff j k, w.0, key-get k v d w.1)

module _ {K V Row : Type 0} ⦃e : Eq K⦄ {row_key : Row → K} (t : Table row_key) (f : V → Row) where
  -- Under each key the table has the row of the map's value.
  abbrev pub Holds : t.T → Dict K V → Type 0
  Holds u d = (k : K) → t.find k u ≡ mapped f (get k d)

module _ {K V Row : Type 0} ⦃e : Eq K⦄ {row_key : Row → K} (t : Table row_key) (key : V → K)
    (f : V → Row) (keeps : (v : V) → row_key (f v) ≡ key v) (u : t.T) (d : Dict K V)
    (same : Holds t f u d) (w : Indexed key d) where
  or_row-found :
      (v : V) (change : Row → Row)
      → ((old : Row) → row_key old ≡ row_key (f v) → change old ≡ f v)
      → or_row (f v) change (t.find (row_key (f v)) u) ≡ f v
  or_row-found v change all =
      rw (same (row_key (f v))) (elim (Option-cases (get (row_key (f v)) d)) [
        | inl z ↦ rw z refl
        | inr (x, z) ↦ rw z (all (f x) (keeps x ∙ key-get key (row_key (f v)) x d w z))
      ])

  pub upsert-Holds :
      (v : V) (change : Row → Row)
      → ((r : Row) → row_key (change r) ≡ row_key r)
      → ((old : Row) → row_key old ≡ row_key (f v) → change old ≡ f v)
      → Holds t f (t.upsert (f v) change u) (set (key v) v d)
  upsert-Holds v change keep all k =
      rw
        (
          t.find-upsert (f v) change keep k u,
          or_row-found v change all,
          keeps v,
          same k,
          get-set (key v) k v d,
        )
        (ground arith)

  pub delete-Holds : (j : K) → Holds t f (t.delete_where (λ r. row_key r == j) u) (delete j d)
  delete-Holds j k =
      rw (t.find-delete_where (λ r. row_key r == j) k u, same k, get-delete j k d)
        (elim (Option-cases (get k d)) [
          | inl z ↦ rw z (ground arith)
          | inr (x, z) ↦
              let own : row_key (f x) ≡ k = keeps x ∙ key-get key k x d w z in
              rw (z, own) (ground (arith, e.same_iff j k, e.same_iff k j))
        ])

  -- The selection of all rows has under each key what the list of the map's values has.
  pub select-Holds :
      (k : K) → filter (λ r. row_key r == k) (t.select (λ r. true) u) ≡ rows_of (mapped f (get k d))
  select-Holds k = t.find-select (λ r. true) k u ∙ ap rows_of (kept_all (t.find k u) ∙ same k)

filter-first {ℓ} :
    {A : Type ℓ} (p : A → Bool) (x : A) (ys xs : List A) → filter p xs ≡ x ∷ ys → p x ≡ true
unfolding filter
filter-first p x ys [] h = cc
filter-first p x ys (z ∷ xs) h = ground (arith, filter-first p x ys xs)

module _ {K Row : Type 0} ⦃e : Eq K⦄ {row_key : Row → K} (t : Table row_key) where
  -- A row stands under its key.
  pub find-key : (k : K) (u : t.T) (r : Row) → t.find k u ≡ some r → row_key r ≡ k
  find-key k u r h = (e.same_iff (row_key r) k).0 (
      filter-first (λ x. row_key x == k) r [] (t.select (λ x. true) u)
        (t.find-select (λ x. true) k u ∙ ap rows_of (kept_all (t.find k u) ∙ h)))
