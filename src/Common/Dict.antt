-- ===== src/Common/Dict.antt =====
-- JavaScript's `Map`: entries in insertion order. `set` on a present key keeps its place.
use Prim.Native.Nat.{suc, ◌+◌, ◌≤◌}
use mathlib.Core.Path.{◌≡◌, refl, ap, ◌∙◌}
use mathlib.Core.Bool.{Bool, true, false, ◌&&◌, ◌||◌, not}
use mathlib.Core.List.{List, [], ◌∷◌}
use mathlib.Core.Option.{Option, none, some}
use native.Mathlib.Omega.{arith}
use deepseek_harness_gateway.Common.Tests.{Eq, ◌==◌, if◌then◌else◌, beq_self}
use deepseek_harness_gateway.Common.Lists.{length}

abbrev pub Dict {ℓ κ} : Type ℓ → Type κ → Type (ℓ ⊔ κ)
Dict K V = List (K × V)

module _ {ℓ κ} {K : Type ℓ} {V : Type κ} where
  -- `[...m.keys()]`
  unfoldable pub keys : Dict K V → List K
  keys [] = []
  keys ((j, v) ∷ m) = j ∷ keys m

  -- `[...m.values()]`
  unfoldable pub values : Dict K V → List V
  values [] = []
  values ((j, v) ∷ m) = v ∷ values m

  pub length-values : (m : Dict K V) → length (values m) ≡ length m
  unfolding values
  length-values [] = refl
  length-values ((j, v) ∷ m) = ap suc (length-values m)

  -- Keep the entries that pass a test: a loop that deletes the others.
  unfoldable pub retain : (K → V → Bool) → Dict K V → Dict K V
  retain p [] = []
  retain p ((j, v) ∷ m) = let rest = retain p m in if p j v then (j, v) ∷ rest else rest

  -- Change each value in place.
  unfoldable pub map_values : (V → V) → Dict K V → Dict K V
  map_values f [] = []
  map_values f ((j, v) ∷ m) = (j, f v) ∷ map_values f m

module _ {ℓ κ} {K : Type ℓ} {V : Type κ} ⦃e : Eq K⦄ where
  -- `m.get(k)`
  unfoldable pub get : K → Dict K V → Option V
  get k [] = none
  get k ((j, v) ∷ m) = if j == k then some v else get k m

  -- `m.set(k, v)`
  unfoldable pub set : K → V → Dict K V → Dict K V
  set k v [] = (k, v) ∷ []
  set k v ((j, w) ∷ m) = if j == k then (j, v) ∷ m else (j, w) ∷ set k v m

  -- `m.delete(k)`
  unfoldable pub delete : K → Dict K V → Dict K V
  delete k [] = []
  delete k ((j, v) ∷ m) = let rest = delete k m in if j == k then rest else (j, v) ∷ rest

  -- `m.has(k)`
  unfoldable pub has : K → Dict K V → Bool
  has k [] = false
  has k ((j, v) ∷ m) = j == k || has k m

  pub get-set :
      (k j : K) (v : V) (m : Dict K V) → get j (set k v m) ≡ (if k == j then some v else get j m)
  unfolding get set
  get-set k j v [] = refl
  get-set k j v ((i, w) ∷ m) =
      ground (arith, e.same_iff k j, e.same_iff i k, e.same_iff i j, get-set k j v m)

  pub get-delete :
      (k j : K) (m : Dict K V) → get j (delete k m) ≡ (if k == j then none else get j m)
  unfolding get delete
  get-delete k j [] = ground arith
  get-delete k j ((i, w) ∷ m) =
      ground (arith, e.same_iff k j, e.same_iff i k, e.same_iff i j, get-delete k j m)

  pub get-set_self : (k : K) (v : V) (m : Dict K V) → get k (set k v m) ≡ some v
  get-set_self k v m = rw (get-set, beq_self k)

  pub get-map_values :
      (k : K) (f : V → V) (m : Dict K V)
      → get k (map_values f m) ≡ elim (get k m) [ none ↦ none | some v ↦ some (f v) ]
  unfolding get map_values
  get-map_values k f [] = refl
  get-map_values k f ((j, v) ∷ m) = ground (arith, get-map_values k f m)

  pub has-get : (k : K) (m : Dict K V) → has k m ≡ elim (get k m) [ none ↦ false | some v ↦ true ]
  unfolding has get
  has-get k [] = refl
  has-get k ((j, v) ∷ m) = ground (arith, has-get k m)

  -- No key stands twice: what a `Map` guarantees.
  abbrev pub IsMap : Dict K V → Type 0
  IsMap [] = Unit
  IsMap ((j, v) ∷ m) = (has j m ≡ false) × IsMap m

  pub has-set : (k j : K) (v : V) (m : Dict K V) → has j (set k v m) ≡ (k == j || has j m)
  unfolding has set
  has-set k j v [] = ground arith
  has-set k j v ((i, w) ∷ m) =
      ground (arith, e.same_iff k j, e.same_iff i k, e.same_iff i j, has-set k j v m)

  pub has-delete : (k j : K) (m : Dict K V) → has j (delete k m) ≡ (not (k == j) && has j m)
  unfolding has delete
  has-delete k j [] = ground arith
  has-delete k j ((i, w) ∷ m) =
      ground (arith, e.same_iff k j, e.same_iff i k, e.same_iff i j, has-delete k j m)

  pub has-retain :
      (p : K → V → Bool) (j : K) (m : Dict K V) → has j m ≡ false → has j (retain p m) ≡ false
  unfolding has retain
  has-retain p j [] h = refl
  has-retain p j ((i, w) ∷ m) h = ground (arith, has-retain p j m)

  pub set-IsMap : (k : K) (v : V) (m : Dict K V) → IsMap m → IsMap (set k v m)
  unfolding set has
  set-IsMap k v [] h = (refl, tt)
  set-IsMap k v ((i, w) ∷ m) h =
      ground (arith, has-set k i v m, e.same_iff i k, e.same_iff k i, set-IsMap k v m h.1)

  pub delete-IsMap : (k : K) (m : Dict K V) → IsMap m → IsMap (delete k m)
  unfolding delete has
  delete-IsMap k [] h = tt
  delete-IsMap k ((i, w) ∷ m) h = ground (arith, has-delete k i m, delete-IsMap k m h.1)

  pub retain-IsMap : (p : K → V → Bool) (m : Dict K V) → IsMap m → IsMap (retain p m)
  unfolding retain
  retain-IsMap p [] h = tt
  retain-IsMap p ((i, w) ∷ m) h = ground (arith, has-retain p i m h.0, retain-IsMap p m h.1)

  -- What is left under a key.
  pub get-retain :
      (p : K → V → Bool) (k : K) (m : Dict K V)
      → IsMap m
      → get k (retain p m)
        ≡ elim (get k m) [ none ↦ none | some v ↦ if p k v then some v else none ]
  unfolding get retain
  get-retain p k [] h = refl
  get-retain p k ((i, w) ∷ m) h = ground (
    arith,
    e.same_iff i k,
    has-retain p i m h.0,
    has-get i (retain p m),
    has-get i m,
    get-retain p k m h.1,
  )

  pub size-set-le : (k : K) (v : V) (m : Dict K V) → length (set k v m) ≤ length m + 1
  unfolding set
  size-set-le k v [] = omega arith
  size-set-le k v ((i, w) ∷ m) = ground (arith, size-set-le k v m)

  pub size-delete :
      (k : K) (m : Dict K V) → IsMap m → length m ≡ length (delete k m) + (if has k m then 1 else 0)
  unfolding delete has
  size-delete k [] h = omega arith
  size-delete k ((i, w) ∷ m) h = ground (arith, e.same_iff i k, size-delete k m h.1)

  pub size-retain-le : (p : K → V → Bool) (m : Dict K V) → length (retain p m) ≤ length m
  unfolding retain
  size-retain-le p [] = omega arith
  size-retain-le p ((i, w) ∷ m) = ground (arith, size-retain-le p m)

  -- An entry that passes the test stays.
  pub get-retain_hit :
      (p : K → V → Bool) (k : K) (v : V) (m : Dict K V)
      → get k m ≡ some v
      → p k v ≡ true
      → get k (retain p m) ≡ some v
  unfolding get retain
  get-retain_hit p k v [] h t = cc
  get-retain_hit p k v ((i, w) ∷ m) h t = ground (arith, e.same_iff i k, get-retain_hit p k v m)

  has-map_values : (f : V → V) (j : K) (m : Dict K V) → has j (map_values f m) ≡ has j m
  unfolding has map_values
  has-map_values f j [] = refl
  has-map_values f j ((i, w) ∷ m) = ground (arith, has-map_values f j m)

  pub map_values-IsMap : (f : V → V) (m : Dict K V) → IsMap m → IsMap (map_values f m)
  unfolding map_values
  map_values-IsMap f [] h = tt
  map_values-IsMap f ((i, w) ∷ m) h = (has-map_values f i m ∙ h.0, map_values-IsMap f m h.1)

  pub size-set_hit :
      (k : K) (v w : V) (m : Dict K V) → get k m ≡ some w → length (set k v m) ≡ length m
  unfolding get set
  size-set_hit k v w [] h = cc
  size-set_hit k v w ((i, u) ∷ m) h = ground (arith, size-set_hit k v w m)

  pub size-delete-le : (k : K) (m : Dict K V) → length (delete k m) ≤ length m
  unfolding delete
  size-delete-le k [] = omega arith
  size-delete-le k ((i, u) ∷ m) = ground (arith, size-delete-le k m)
