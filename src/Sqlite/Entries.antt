-- ===== src/Sqlite/Entries.antt =====
-- The batch of `purgeAudit` in packages/store/src/sqlite.ts: the rows whose ids were selected, against
-- the loop of the in-memory store.
use deepseek_harness_gateway.Common.{
  ℕ, zero, suc, ◌+◌, ◌<◌, ◌≡◌, refl, sym, subst, Bool, true, false, not, none, some, List, [], ◌∷◌,
  map, arith, nat_eq, Eq-nat, Bool-cases, inl, inr,
}
use deepseek_harness_gateway.Common.Text.{Text, text_lt}
use deepseek_harness_gateway.Common.Lists.{take, filter, any, count}
use deepseek_harness_gateway.Common.Dict.{Dict, has, IsMap}
use deepseek_harness_gateway.Store.Domain.{AuditEvent}
use deepseek_harness_gateway.Store.Audit.{purge_loop}

abbrev pub older : Text → ℕ × AuditEvent → Bool
older before x = text_lt x.1.ts before

unfoldable pub first_ids : Text → ℕ → Dict ℕ AuditEvent → List ℕ
first_ids before n m = map (λ (x : ℕ × AuditEvent). x.0) (take n (filter (older before) m))

abbrev pub chosen : List ℕ → ℕ × AuditEvent → Bool
chosen ids x = any (nat_eq x.0) ids

abbrev pub spared : List ℕ → ℕ × AuditEvent → Bool
spared ids x = not (any (nat_eq x.0) ids)

abbrev pub events : Dict ℕ AuditEvent → List AuditEvent
events m = map (λ (x : ℕ × AuditEvent). x.1) m

first_ids-older :
    (before : Text) (n i : ℕ) (e : AuditEvent) (m : Dict ℕ AuditEvent)
    → text_lt e.ts before ≡ true
    → first_ids before (suc n) ((i, e) ∷ m) ≡ i ∷ first_ids before n m
unfolding first_ids filter
first_ids-older before n i e m h = rw h refl

first_ids-newer :
    (before : Text) (n i : ℕ) (e : AuditEvent) (m : Dict ℕ AuditEvent)
    → text_lt e.ts before ≡ false
    → first_ids before n ((i, e) ∷ m) ≡ first_ids before n m
unfolding first_ids filter
first_ids-newer before n i e m h = rw h refl

first_ids-zero : (before : Text) (m : Dict ℕ AuditEvent) → first_ids before 0 m ≡ []
unfolding first_ids
first_ids-zero before m = refl

not_chosen :
    (before : Text) (i n : ℕ) (m : Dict ℕ AuditEvent)
    → has i m ≡ false
    → any (nat_eq i) (first_ids before n m) ≡ false
unfolding any has filter
not_chosen before i zero m h = rw (first_ids-zero before m) refl
not_chosen before i (suc n) [] h = unfold first_ids in refl
not_chosen before i (suc n) ((j, e) ∷ m) h = elim (Bool-cases (text_lt e.ts before)) [
  | inl old ↦ rw (first_ids-older before n j e m old) (ground (arith, not_chosen before i n m))
  | inr new ↦
      rw (first_ids-newer before (suc n) j e m new) (ground (arith, not_chosen before i (suc n) m))
]

spared_skip :
    (i : ℕ) (ids : List ℕ) (m : Dict ℕ AuditEvent)
    → has i m ≡ false
    → filter (spared (i ∷ ids)) m ≡ filter (spared ids) m
unfolding any has filter
spared_skip i ids [] h = refl
spared_skip i ids ((j, e) ∷ m) h = ground (arith, spared_skip i ids m)

chosen_skip :
    (i : ℕ) (ids : List ℕ) (m : Dict ℕ AuditEvent)
    → has i m ≡ false
    → count (chosen (i ∷ ids)) m ≡ count (chosen ids) m
unfolding any has count
chosen_skip i ids [] h = refl
chosen_skip i ids ((j, e) ∷ m) h = ground (arith, chosen_skip i ids m)

-- Deleting the rows with these ids does what the loop does, from `removed` rows on.
abbrev Batch : Text → ℕ → ℕ → List ℕ → Dict ℕ AuditEvent → Type 0
Batch before limit removed ids m =
    (events (filter (spared ids) m) ≡ (purge_loop before (some limit) removed (events m)).0)
    × (removed + count (chosen ids) m ≡ (purge_loop before (some limit) removed (events m)).1)

module _ (before : Text) (limit removed i : ℕ) (e : AuditEvent) (ids : List ℕ)
    (m : Dict ℕ AuditEvent) (fresh : has i m ≡ false) where
  Batch-older :
      text_lt e.ts before ≡ true
      → removed < limit
      → Batch before limit (suc removed) ids m
      → Batch before limit removed (i ∷ ids) ((i, e) ∷ m)
  unfolding any filter count purge_loop
  Batch-older old h b = ground (arith, spared_skip i ids m, chosen_skip i ids m)

  Batch-newer :
      text_lt e.ts before ≡ false
      → any (nat_eq i) ids ≡ false
      → Batch before limit removed ids m
      → Batch before limit removed ids ((i, e) ∷ m)
  unfolding filter count purge_loop
  Batch-newer new out b = ground arith

  Batch-full :
      limit ≡ removed → Batch before limit removed [] m → Batch before limit removed [] ((i, e) ∷ m)
  unfolding any filter count purge_loop
  Batch-full full b = ground arith

Batch-loop :
    (before : Text) (limit removed n : ℕ) (m : Dict ℕ AuditEvent)
    → limit ≡ removed + n
    → IsMap m
    → Batch before limit removed (first_ids before n m) m
unfolding filter count purge_loop
Batch-loop before limit removed n [] h u = (refl, omega arith)
Batch-loop before limit removed zero ((i, e) ∷ m) h u =
    subst (λ ids. Batch before limit removed ids ((i, e) ∷ m))
      (sym (first_ids-zero before ((i, e) ∷ m)))
      (Batch-full before limit removed i e [] m u.0 (omega arith) (
        subst (λ ids. Batch before limit removed ids m) (first_ids-zero before m)
          (Batch-loop before limit removed zero m h u.1)))
Batch-loop before limit removed (suc n) ((i, e) ∷ m) h u = elim (Bool-cases (text_lt e.ts before)) [
  | inl old ↦
      subst (λ ids. Batch before limit removed ids ((i, e) ∷ m))
        (sym (first_ids-older before n i e m old))
        (Batch-older before limit removed i e (first_ids before n m) m u.0 old (omega arith)
          (Batch-loop before limit (suc removed) n m (omega arith) u.1))
  | inr new ↦
      subst (λ ids. Batch before limit removed ids ((i, e) ∷ m))
        (sym (first_ids-newer before (suc n) i e m new))
        (Batch-newer before limit removed i e (first_ids before (suc n) m) m u.0 new
          (not_chosen before i (suc n) m u.0) (Batch-loop before limit removed (suc n) m h u.1))
]

-- The rows that stay when the oldest `n` are deleted, and the number of the others.
pub batch-loop :
    (before : Text) (n : ℕ) (m : Dict ℕ AuditEvent)
    → IsMap m
    → (events (filter (spared (first_ids before n m)) m)
        ≡ (purge_loop before (some n) 0 (events m)).0)
      × (count (chosen (first_ids before n m)) m ≡ (purge_loop before (some n) 0 (events m)).1)
batch-loop before n m u =
    let b = Batch-loop before n 0 n m (omega arith) u in (b.0, omega (arith, b.1))

-- Without a limit all older rows go.
pub batch-loop_none :
    (before : Text) (removed : ℕ) (m : Dict ℕ AuditEvent)
    → (events (filter (λ (x : ℕ × AuditEvent). not (older before x)) m)
        ≡ (purge_loop before none removed (events m)).0)
      × (removed + count (older before) m ≡ (purge_loop before none removed (events m)).1)
unfolding filter count purge_loop
batch-loop_none before removed [] = (refl, omega arith)
batch-loop_none before removed ((i, e) ∷ m) =
    ground (arith, batch-loop_none before (suc removed) m, batch-loop_none before removed m)
