-- ===== src/Session/Evict.antt =====
-- `evict` of `SessionStore` in apps/gateway/src/auth.ts: the size and the keys of the map it leaves.
use deepseek_harness_gateway.Common.{
  ℕ, zero, suc, ◌+◌, ◌-◌, ◌≤◌, ◌≡◌, refl, sym, ap, ◌∙◌, true, false, ◌||◌, List, [], ◌∷◌, ltb,
  arith, Bool-cases, inl, inr,
}
use deepseek_harness_gateway.Common.Text.{Text, Eq-text, text_eq, text_eq_iff}
use deepseek_harness_gateway.Common.Lists.{length, take}
use deepseek_harness_gateway.Common.Sort.{sort, insert_sorted, length-sort}
use deepseek_harness_gateway.Common.Dict.{
  delete, has, IsMap, size-delete, has-delete, delete-IsMap, retain-IsMap,
}
use deepseek_harness_gateway.Session.{
  Limits, SessionRecord, Sessions, issued_before, delete_all, drop_oldest, sweep, evict,
}

AllIn : List (Text × SessionRecord) → Sessions → Type 0
AllIn [] m = Unit
AllIn ((id, s) ∷ rest) m = (has id m ≡ true) × AllIn rest m

module _ (l : Limits) where
  has-insert :
      (j id : Text) (s : SessionRecord) (xs : Sessions)
      → has j (insert_sorted (issued_before l) (id, s) xs) ≡ (text_eq id j || has j xs)
  unfolding insert_sorted has
  has-insert j id s [] = refl
  has-insert j id s ((i, r) ∷ xs) = ground (arith, has-insert j id s xs)

  insert-IsMap :
      (id : Text) (s : SessionRecord) (xs : Sessions)
      → has id xs ≡ false
      → IsMap xs
      → IsMap (insert_sorted (issued_before l) (id, s) xs)
  unfolding insert_sorted has
  insert-IsMap id s [] h m = (refl, tt)
  insert-IsMap id s ((i, r) ∷ xs) h m =
      ground (arith, text_eq_iff i id, text_eq_iff id i, has-insert i id s xs, insert-IsMap id s xs)

  pub has-sort : (j : Text) (xs : Sessions) → has j (sort (issued_before l) xs) ≡ has j xs
  unfolding sort has
  has-sort j [] = refl
  has-sort j ((i, r) ∷ xs) =
      has-insert j i r (sort (issued_before l) xs) ∙ ap (λ b. text_eq i j || b) (has-sort j xs)

  sort-IsMap : (xs : Sessions) → IsMap xs → IsMap (sort (issued_before l) xs)
  unfolding sort
  sort-IsMap [] m = tt
  sort-IsMap ((i, r) ∷ xs) m =
      insert-IsMap i r (sort (issued_before l) xs) (has-sort i xs ∙ m.0) (sort-IsMap xs m.1)

AllIn-of : (xs m : Sessions) → ((j : Text) → has j xs ≡ true → has j m ≡ true) → AllIn xs m
unfolding AllIn has
AllIn-of [] m h = tt
AllIn-of ((i, r) ∷ xs) m h =
    (h i (ground (arith, text_eq_iff i i)), AllIn-of xs m (λ j k. h j (ground (arith, k))))

AllIn-delete :
    (id : Text) (xs m : Sessions) → has id xs ≡ false → AllIn xs m → AllIn xs (delete id m)
unfolding AllIn has
AllIn-delete id [] m h a = tt
AllIn-delete id ((i, r) ∷ xs) m h a =
    ground (arith, has-delete id i m, text_eq_iff id i, text_eq_iff i id, AllIn-delete id xs m, a.1)

-- Deleting `k` different entries makes the map smaller by `k`.
size-delete_all :
    (l : Limits) (k : ℕ) (xs m : Sessions)
    → k ≤ length xs
    → IsMap xs
    → AllIn xs m
    → IsMap m
    → length (delete_all l (take k xs) m) + k ≡ length m
unfolding delete_all AllIn
size-delete_all l zero xs m h u a v = omega arith
size-delete_all l (suc k) [] m h u a v = omega arith
size-delete_all l (suc k) ((i, r) ∷ xs) m h u a v = ground (
  arith,
  size-delete i m v,
  size-delete_all l k xs (delete i m) (omega arith) u.1 (AllIn-delete i xs m u.0 a.1)
      (delete-IsMap i m v),
)

delete_all-IsMap : (l : Limits) (xs m : Sessions) → IsMap m → IsMap (delete_all l xs m)
unfolding delete_all
delete_all-IsMap l [] m v = v
delete_all-IsMap l ((i, r) ∷ xs) m v = delete_all-IsMap l xs (delete i m) (delete-IsMap i m v)

module _ (l : Limits) where
  drop_oldest-size : (m : Sessions) → IsMap m → length (drop_oldest l m) ≤ l.session_max
  unfolding drop_oldest
  drop_oldest-size m v = elim (Bool-cases (ltb l.session_max (length m))) [
    | inl big ↦ rw big (
        ground (
          arith,
          size-delete_all l (length m - l.session_max) (sort (issued_before l) m) m
              (omega (arith, length-sort (issued_before l) m)) (sort-IsMap l m v)
              (AllIn-of (sort (issued_before l) m) m (λ j k. sym (has-sort l j m) ∙ k)) v,
        ))
    | inr small ↦ rw small (ground arith)
  ]

  pub evict-size : (now : ℕ) (m : Sessions) → IsMap m → length (evict l now m) ≤ l.session_max
  unfolding evict sweep
  evict-size now m v = ground (arith, drop_oldest-size (sweep l now m) (retain-IsMap _ m v))

  drop_oldest-IsMap : (m : Sessions) → IsMap m → IsMap (drop_oldest l m)
  unfolding drop_oldest
  drop_oldest-IsMap m v = ground (
    arith,
    v,
    delete_all-IsMap l (take (length m - l.session_max) (sort (issued_before l) m)) m v,
  )

  pub evict-IsMap : (now : ℕ) (m : Sessions) → IsMap m → IsMap (evict l now m)
  unfolding evict sweep
  evict-IsMap now m v = ground (arith, v, drop_oldest-IsMap (sweep l now m) (retain-IsMap _ m v))
