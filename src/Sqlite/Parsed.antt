-- ===== src/Sqlite/Parsed.antt =====
-- The throttle rows of packages/store/src/sqlite.ts, whose arrays are JSON text, read back.
use mathlib.Core.Path.{fun_ext}
use deepseek_harness_gateway.Common.{
  ◌≡◌, refl, sym, ap, subst, ◌∙◌, Bool, true, false, Option, none, some, List, [], ◌∷◌, map, arith,
  ◌==◌, beq_self, if◌then◌else◌,
}
use deepseek_harness_gateway.Common.Text.{Text, Eq-text}
use deepseek_harness_gateway.Common.Lists.{filter, All}
use deepseek_harness_gateway.Sqlite.Rows.{Eq-pair, every_parsed}
use deepseek_harness_gateway.Sqlite.Database.{mapped, rows_of}

pub mapped-mapped {ℓ κ μ} :
    {A : Type ℓ} {B : Type κ} {C : Type μ} (f : A → B) (h : B → C) (o : Option A)
    → mapped h (mapped f o) ≡ mapped (λ (x : A). h (f x)) o
mapped-mapped f h none = refl
mapped-mapped f h (some a) = refl

pub filter-map {ℓ κ} :
    {A : Type ℓ} {B : Type κ} (p : B → Bool) (f : A → B) (xs : List A)
    → filter p (map f xs) ≡ map f (filter (λ (x : A). p (f x)) xs)
unfolding filter
filter-map p f [] = refl
filter-map p f (x ∷ xs) = ground (arith, filter-map p f xs)

pub map-rows_of {ℓ κ} :
    {A : Type ℓ} {B : Type κ} (f : A → B) (o : Option A) → map f (rows_of o) ≡ rows_of (mapped f o)
map-rows_of f none = refl
map-rows_of f (some a) = refl

All-if {ℓ κ} :
    {A : Type ℓ} (P : A → Type κ) (b : Bool) (x : A) (xs : List A)
    → All P (if b then x ∷ xs else xs)
    → All P xs
All-if P true x xs h = h.1
All-if P false x xs h = h

All-filter :
    {Row : Type 0} (row_key : Row → Text) (P : Row → Type 0) (rows : List Row)
    → ((k : Text) → All P (filter (λ r. row_key r == k) rows))
    → All P rows
unfolding filter
All-filter row_key P [] h = tt
All-filter row_key P (r ∷ rows) h = (
  (rw (beq_self (row_key r)) at (h (row_key r))).0,
  All-filter row_key P rows (λ k. All-if P (row_key r == k) r _ (h k)),
)

module _ {V Row : Type 0} (f : V → Row) (parse : Row → Option V)
    (back : (v : V) → parse (f v) ≡ some v) where
  every_parsed-map : (vs : List V) → every_parsed parse (map f vs) ≡ some vs
  every_parsed-map [] = refl
  every_parsed-map (v ∷ vs) = rw (back v, every_parsed-map vs) refl

  map_injective : (xs ys : List V) → map f xs ≡ map f ys → xs ≡ ys
  map_injective xs ys e = cc (every_parsed-map xs, every_parsed-map ys, ap (every_parsed parse) e)

  unmap :
      (rows : List Row) → All (λ r. (v : V) × (r ≡ f v)) rows → (vs : List V) × (rows ≡ map f vs)
  unmap [] h = ([], refl)
  unmap (r ∷ rows) h =
      let (v, e) = h.0 in let (vs, es) = unmap rows h.1 in (v ∷ vs, rw (e, es) refl)

  All-rows_of : (o : Option V) → All (λ r. (v : V) × (r ≡ f v)) (rows_of (mapped f o))
  All-rows_of none = tt
  All-rows_of (some v) = ((v, refl), tt)

  -- Where each row was written by `f`, the rows are parsed to the values that they were.
  pub parsed_rows :
      (row_key : Row → Text) (key : V → Text) (found : Text → Option V) (rows : List Row)
      → ((v : V) → row_key (f v) ≡ key v)
      → ((k : Text) → filter (λ r. row_key r == k) rows ≡ rows_of (mapped f (found k)))
      → (vs : List V) × (every_parsed parse rows ≡ some vs)
        × ((k : Text) → filter (λ v. key v == k) vs ≡ rows_of (found k))
  parsed_rows row_key key found rows keeps h =
      let (vs, e) = unmap rows (
        All-filter row_key (λ r. (v : V) × (r ≡ f v)) rows
          (λ k. subst (All (λ r. (v : V) × (r ≡ f v))) (sym (h k)) (All-rows_of (found k)))) in
      (
        vs,
        ap (every_parsed parse) e ∙ every_parsed-map vs,
        λ k. map_injective (filter (λ v. key v == k) vs) (rows_of (found k)) (
            ap (λ (t : V → Text). map f (filter (λ v. t v == k) vs)) (sym (fun_ext keeps))
            ∙ sym (filter-map (λ r. row_key r == k) f vs)
            ∙ ap (filter (λ r. row_key r == k)) (sym e)
            ∙ h k
            ∙ sym (map-rows_of f (found k))),
      )
