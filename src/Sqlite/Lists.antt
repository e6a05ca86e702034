-- ===== src/Sqlite/Lists.antt =====
-- Maps whose entries stand under a key of their value, as the tables of packages/store/src/memory.ts
-- do, and the list of their values.
use deepseek_harness_gateway.Common.{
  ◌≡◌, refl, sym, ap, subst, false, [], ◌∷◌, arith, Eq, ◌==◌, Bool-cases, inl, inr,
}
use deepseek_harness_gateway.Common.Lists.{filter}
use deepseek_harness_gateway.Common.Dict.{Dict, get, set, delete, has, values, has-set, has-delete}
use deepseek_harness_gateway.Sqlite.Database.{rows_of}

module _ {K V : Type 0} ⦃e : Eq K⦄ (key : V → K) where
  -- each key once, and each value under its own key
  abbrev pub Indexed : Dict K V → Type 0
  Indexed [] = Unit
  Indexed ((k, v) ∷ d) = ((k ≡ key v) × (has k d ≡ false)) × Indexed d

  pub set-Indexed : (v : V) (d : Dict K V) → Indexed d → Indexed (set (key v) v d)
  unfolding set has
  set-Indexed v [] w = ((refl, refl), tt)
  set-Indexed v ((k, u) ∷ d) w = elim (Bool-cases (k == key v)) [
    | inl same ↦ rw same (((e.same_iff k (key v)).0 same, w.0.1), w.1)
    | inr other ↦ rw other (
      (w.0.0, ground (arith, has-set (key v) k v d, e.same_iff (key v) k, e.same_iff k (key v))),
      set-Indexed v d w.1,
    )
  ]

  pub delete-Indexed : (k : K) (d : Dict K V) → Indexed d → Indexed (delete k d)
  unfolding delete
  delete-Indexed k [] w = tt
  delete-Indexed k ((j, u) ∷ d) w = elim (Bool-cases (j == k)) [
    | inl same ↦ rw same (delete-Indexed k d w.1)
    | inr other ↦ rw other ((w.0.0, ground (arith, has-delete k j d)), delete-Indexed k d w.1)
  ]

  filter-absent :
      (k : K) (d : Dict K V)
      → Indexed d
      → has k d ≡ false
      → filter (λ v. key v == k) (values d) ≡ []
  unfolding filter values has
  filter-absent k [] w h = refl
  filter-absent k ((j, u) ∷ d) w h = ground (arith, w.0, filter-absent k d w.1)

  -- What the list of the values has under a key.
  pub filter-values :
      (k : K) (d : Dict K V) → Indexed d → filter (λ v. key v == k) (values d) ≡ rows_of (get k d)
  unfolding filter values get has
  filter-values k [] w = refl
  filter-values k ((j, u) ∷ d) w =
      let tested : (key u == k) ≡ (j == k) = ap (λ z. z == k) (sym w.0.0) in
      elim (Bool-cases (j == k)) [
        | inl same ↦
            let absent : has k d ≡ false =
              subst (λ z. has z d ≡ false) ((e.same_iff j k).0 same) w.0.1 in
            rw (tested, same, filter-absent k d w.1 absent) refl
        | inr other ↦ rw (tested, other) (filter-values k d w.1)
      ]
