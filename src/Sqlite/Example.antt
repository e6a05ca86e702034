-- ===== src/Sqlite/Example.antt =====
-- A database that does what packages/store/src/sqlite.ts relies on: its tables are lists.
use deepseek_harness_gateway.Common.{
  ℕ, suc, ◌<◌, ◌≡◌, refl, sym, ap, subst, ◌∙◌, Bool, true, false, not, ◌||◌, Option, none, some,
  List, [], ◌∷◌, ◌++◌, map, arith, Eq, Eq-nat, ◌==◌, nat_eq, Bool-cases, inl, inr, if◌then◌else◌,
}
use deepseek_harness_gateway.Common.Text.{Text, text_lt, text_lt_asym, text_lt_negtrans, Eq-text}
use deepseek_harness_gateway.Common.Lists.{filter, count, All}
use deepseek_harness_gateway.Common.Sort.{sort, sort-perm, sort-IsSorted}
use deepseek_harness_gateway.Common.Dict.{
  Dict, get, set, has, values, retain, IsMap, get-set, has-retain, get-retain,
}
use deepseek_harness_gateway.Sqlite.Rows.{Engine, Eq-pair, assignment_id}
use deepseek_harness_gateway.Sqlite.Database.{Table, AuditTable, mapped, kept, or_row, rows_of}
use deepseek_harness_gateway.Sqlite.Lists.{Indexed, set-Indexed, filter-values}
use deepseek_harness_gateway.Sqlite.Tables.{key-get}

module _ {K Row : Type 0} ⦃e : Eq K⦄ (key : Row → K) where
  abbrev pub ListTable : Type 0
  ListTable = (d : Dict K Row) × Indexed key d

  abbrev put : Row → ListTable → ListTable
  put r (d, w) = (set (key r) r d, set-Indexed key r d w)

  get-empty : (k : K) → get {V = Row} k [] ≡ none
  unfolding get
  get-empty k = refl

  Indexed-IsMap : (d : Dict K Row) → Indexed key d → IsMap d
  Indexed-IsMap [] w = tt
  Indexed-IsMap ((j, r) ∷ d) w = (w.0.1, Indexed-IsMap d w.1)

  retain-Indexed :
      (p : Row → Bool) (d : Dict K Row) → Indexed key d → Indexed key (retain (λ k r. p r) d)
  unfolding retain
  retain-Indexed p [] w = tt
  retain-Indexed p ((j, r) ∷ d) w =
      ground (arith, has-retain (λ k x. p x) j d w.0.1, retain-Indexed p d w.1)

  get-kept :
      (p : Row → Bool) (k : K) (d : Dict K Row)
      → Indexed key d
      → get k (retain (λ j r. p r) d) ≡ kept p (get k d)
  get-kept p k d w = get-retain (λ j r. p r) k d (Indexed-IsMap d w) ∙ same (get k d)
    where
      same :
          (o : Option Row)
          → elim o [ none ↦ none | some v ↦ if p v then some v else none ] ≡ kept p o
      same none = refl
      same (some v) = refl

  filter-swap : (p q : Row → Bool) (xs : List Row) → filter q (filter p xs) ≡ filter p (filter q xs)
  unfolding filter
  filter-swap p q [] = refl
  filter-swap p q (r ∷ xs) = ground (arith, filter-swap p q xs)

  filter-rows_of : (p : Row → Bool) (o : Option Row) → filter p (rows_of o) ≡ rows_of (kept p o)
  unfolding filter
  filter-rows_of p none = refl
  filter-rows_of p (some r) = ground arith

  filter-filter-values :
      (p : Row → Bool) (k : K) (d : Dict K Row)
      → Indexed key d
      → filter (λ r. key r == k) (filter p (values d)) ≡ rows_of (kept p (get k d))
  filter-filter-values p k d w =
      filter-swap p (λ r. key r == k) (values d)
      ∙ ap (filter p) (filter-values key k d w)
      ∙ filter-rows_of p (get k d)

  All-filter_self : (p : Row → Bool) (xs : List Row) → All (λ r. p r ≡ true) (filter p xs)
  unfolding filter
  All-filter_self p [] = tt
  All-filter_self p (r ∷ xs) = ground (arith, All-filter_self p xs)

  abbrev put_change : (Row → Row) → ListTable → Option Row → ListTable
  put_change change t none = t
  put_change change t (some old) = put (change old) t

  get-put_change :
      (j : K) (change : Row → Row)
      → ((r : Row) → key (change r) ≡ key r)
      → (k : K) (t : ListTable) (o : Option Row) → get j t.0 ≡ o
      → get k (put_change change t o).0 ≡ (if j == k then mapped change (get k t.0) else get k t.0)
  get-put_change j change hk k t none h = elim (Bool-cases (j == k)) [
    | inl z ↦ rw z (absent ((e.same_iff j k).0 z))
    | inr z ↦ rw z refl
  ]
    where
      absent : j ≡ k → get k t.0 ≡ mapped change (get k t.0)
      absent q =
          subst (λ i. get i t.0 ≡ mapped change (get i t.0)) q (h ∙ ap (mapped change) (sym h))
  get-put_change j change hk k t (some old) h =
      let own : key (change old) ≡ j = hk old ∙ key-get key j old t.0 t.1 h in
      get-set (key (change old)) k (change old) t.0
      ∙ ap (λ i. if i == k then some (change old) else get k t.0) own
      ∙ elim (Bool-cases (j == k)) [
        | inl z ↦ rw z (found ((e.same_iff j k).0 z))
        | inr z ↦ rw z refl
      ]
    where
      found : j ≡ k → some (change old) ≡ mapped change (get k t.0)
      found q =
          subst (λ i. some (change old) ≡ mapped change (get i t.0)) q (ap (mapped change) (sym h))

  abbrev put_all : Row → (Row → Row) → ListTable → ListTable
  put_all row change t = put (or_row row change (get (key row) t.0)) t

  key-or_row :
      (row : Row) (change : Row → Row) (o : Option Row)
      → ((old : Row) → o ≡ some old → key (change old) ≡ key row)
      → key (or_row row change o) ≡ key row
  key-or_row row change none h = refl
  key-or_row row change (some old) h = h old refl

  get-put_all :
      (row : Row) (change : Row → Row)
      → ((r : Row) → key (change r) ≡ key r)
      → (k : K) (t : ListTable)
      → get k (put_all row change t).0
        ≡ (if key row == k then some (or_row row change (get (key row) t.0)) else get k t.0)
  get-put_all row change hk k t =
      let new = or_row row change (get (key row) t.0) in
      get-set (key new) k new t.0
      ∙ ap (λ i. if i == k then some new else get k t.0)
          (key-or_row row change (get (key row) t.0)
            (λ old h. hk old ∙ key-get key (key row) old t.0 t.1 h))

  pub list-Table : Table key
  list-Table = record {
    T = ListTable;
    empty = ([], tt);
    select = λ p t. filter p (values t.0);
    find = λ k t. get k t.0;
    upsert = λ row change t. put_all row change t;
    insert_new = λ row t. put_all row (λ old. old) t;
    update = λ j change t. put_change change t (get j t.0);
    delete_where = λ p t. (retain (λ k r. not (p r)) t.0, retain-Indexed (λ r. not (p r)) t.0 t.1);
    find-empty = λ k. get-empty k;
    find-select = λ p k t. filter-filter-values p k t.0 t.1;
    select-holds = λ p t. All-filter_self p (values t.0);
    find-upsert = get-put_all;
    find-insert_new = λ row. get-put_all row (λ old. old) (λ r. refl);
    find-update = λ j change hk k t. get-put_change j change hk k t (get j t.0) refl;
    find-delete_where = λ p k t. get-kept (λ r. not (p r)) k t.0 t.1;
  }

module _ {Row : Type 0} (ts : Row → Text) where
  abbrev Below : ℕ → Dict ℕ Row → Type 0
  Below n [] = Unit
  Below n ((i, r) ∷ d) = (i < n) × Below n d

  -- the next id, and the rows by their ids
  abbrev ListAudit : Type 0
  ListAudit = (n : ℕ) × (d : Dict ℕ Row) × (IsMap d × Below n d)

  has-append : (j i : ℕ) (r : Row) (d : Dict ℕ Row) → has j (d ++ (i, r) ∷ []) ≡ (has j d || i == j)
  unfolding has
  has-append j i r [] = ground arith
  has-append j i r ((k, x) ∷ d) = ground (arith, has-append j i r d)

  append-IsMap :
      (n : ℕ) (r : Row) (d : Dict ℕ Row)
      → IsMap d × Below n d
      → IsMap (d ++ (n, r) ∷ []) × Below (suc n) (d ++ (n, r) ∷ [])
  unfolding has
  append-IsMap n r [] w = ((refl, tt), (omega arith, tt))
  append-IsMap n r ((i, x) ∷ d) w =
      ground (arith, has-append i n r d, nat_eq n i, append-IsMap n r d (w.0.1, w.1.1))

  has-filter :
      (q : ℕ × Row → Bool) (j : ℕ) (d : Dict ℕ Row) → has j d ≡ false → has j (filter q d) ≡ false
  unfolding filter has
  has-filter q j [] h = refl
  has-filter q j ((i, x) ∷ d) h = ground (arith, has-filter q j d)

  filter-IsMap :
      (q : ℕ × Row → Bool) (n : ℕ) (d : Dict ℕ Row)
      → IsMap d × Below n d
      → IsMap (filter q d) × Below n (filter q d)
  unfolding filter
  filter-IsMap q n [] w = w
  filter-IsMap q n ((i, x) ∷ d) w =
      ground (arith, has-filter q i d w.0.0, filter-IsMap q n d (w.0.1, w.1.1))

  pub list-AuditTable : AuditTable ts
  list-AuditTable = record {
    T = ListAudit;
    empty = (0, [], (tt, tt));
    entries = λ t. t.1;
    insert = λ r t. (suc t.0, t.1 ++ (t.0, r) ∷ [], append-IsMap t.0 r t.1 t.2);
    ordered = λ p t. in_order (filter p (map (λ (x : ℕ × Row). x.1) t.1));
    delete_where = λ p t.
        (t.0, filter (λ x. not (p x.0 x.1)) t.1, filter-IsMap (λ x. not (p x.0 x.1)) t.0 t.1 t.2);
    changes = λ p t. count (λ x. p x.0 x.1) t.1;
    ids_unique = λ t. t.2.0;
    entries-empty = refl;
    entries-insert = λ r t. (t.0, refl);
    ordered-IsSorted = λ p t.
        sort-IsSorted (λ a b. text_lt_asym (ts a) (ts b))
          (λ a b c. text_lt_negtrans (ts a) (ts b) (ts c))
          (filter p (map (λ (x : ℕ × Row). x.1) t.1));
    ordered-perm =
        λ p t. sort-perm (λ a b. text_lt (ts a) (ts b)) (filter p (map (λ (x : ℕ × Row). x.1) t.1));
    entries-delete_where = λ p t. refl;
    changes-count = λ p t. refl;
  }
    where
      in_order : List Row → List Row
      in_order xs = sort (λ a b. text_lt (ts a) (ts b)) xs

pub list_engine : Engine
list_engine = record {
  users = list-Table ⦃e = _⦄ (λ u. u.id);
  machines = list-Table ⦃e = _⦄ (λ m. m.id);
  assignments = list-Table ⦃e = _⦄ assignment_id;
  pairing_codes = list-Table ⦃e = _⦄ (λ c. c.code_hash);
  audit_events = list-AuditTable (λ e. e.ts);
  throttle_accounts = list-Table ⦃e = _⦄ (λ a. a.account);
  throttle_ips = list-Table ⦃e = _⦄ (λ r. r.ip);
}
