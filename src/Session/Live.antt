-- ===== src/Session/Live.antt =====
-- A session of apps/gateway/src/auth.ts that was just issued is good.
use deepseek_harness_gateway.Common.{
  ℕ, zero, suc, ◌+◌, ◌-◌, ◌≤◌, ◌<◌, ◌≡◌, refl, ap, ◌∙◌, Bool, true, false, not, none, some, [], ◌∷◌,
  ◌++◌, arith,
}
use deepseek_harness_gateway.Common.Text.{Text, Eq-text, text_eq_iff}
use deepseek_harness_gateway.Common.Lists.{length, take, length-append}
use deepseek_harness_gateway.Common.Sort.{sort, insert_sorted, length-sort}
use deepseek_harness_gateway.Common.Dict.{
  get, set, delete, has, has-get, retain, get-delete, has-retain,
}
use deepseek_harness_gateway.Session.Evict.{has-sort}
use deepseek_harness_gateway.Session.{
  Limits, SessionRecord, Sessions, expired, issued_before, delete_all, drop_oldest, sweep, evict,
  create, lookup,
}

-- No session was issued after `now`.
abbrev pub IssuedBy : ℕ → Sessions → Type 0
IssuedBy now [] = Unit
IssuedBy now ((id, s) ∷ m) = (s.issued_at ≤ now) × IssuedBy now m

set_fresh :
    (id : Text) (s : SessionRecord) (m : Sessions)
    → get id m ≡ none
    → set id s m ≡ m ++ (id, s) ∷ []
unfolding get set
set_fresh id s [] h = refl
set_fresh id s ((i, r) ∷ m) h = ground (arith, set_fresh id s m)

get_last :
    (id : Text) (s : SessionRecord) (m : Sessions)
    → get id m ≡ none
    → get id (m ++ (id, s) ∷ []) ≡ some s
unfolding get
get_last id s [] h = ground (arith, text_eq_iff id id)
get_last id s ((i, r) ∷ m) h = ground (arith, get_last id s m)

retain_last :
    (p : Text → SessionRecord → Bool) (id : Text) (s : SessionRecord) (m : Sessions)
    → p id s ≡ true
    → retain p (m ++ (id, s) ∷ []) ≡ retain p m ++ (id, s) ∷ []
unfolding retain
retain_last p id s [] h = rw h
retain_last p id s ((i, r) ∷ m) h = ground (arith, retain_last p id s m h)

retain-IssuedBy :
    (p : Text → SessionRecord → Bool) (now : ℕ) (m : Sessions)
    → IssuedBy now m
    → IssuedBy now (retain p m)
unfolding retain
retain-IssuedBy p now [] h = tt
retain-IssuedBy p now ((i, r) ∷ m) h = ground (arith, retain-IssuedBy p now m h.1)

take_front : (k : ℕ) (xs ys : Sessions) → k ≤ length xs → take k (xs ++ ys) ≡ take k xs
take_front zero xs ys h = refl
take_front (suc k) [] ys h = absurd (omega arith)
take_front (suc k) (x ∷ xs) ys h = ap (λ l. x ∷ l) (take_front k xs ys (omega arith))

has-take : (id : Text) (k : ℕ) (xs : Sessions) → has id xs ≡ false → has id (take k xs) ≡ false
unfolding has
has-take id zero xs h = refl
has-take id (suc k) [] h = refl
has-take id (suc k) ((i, r) ∷ xs) h = ground (arith, has-take id k xs)

module _ (l : Limits) where
  insert_last :
      (x : Text × SessionRecord) (now : ℕ) (id : Text) (s : SessionRecord) (ys : Sessions)
      → x.1.issued_at ≤ s.issued_at
      → insert_sorted (issued_before l) x (ys ++ (id, s) ∷ [])
        ≡ insert_sorted (issued_before l) x ys ++ (id, s) ∷ []
  unfolding insert_sorted
  insert_last x now id s [] h = ground arith
  insert_last x now id s ((i, r) ∷ ys) h = ground (arith, insert_last x now id s ys h)

  -- The newest session sorts last.
  sort_last :
      (id : Text) (s : SessionRecord) (m : Sessions)
      → IssuedBy s.issued_at m
      → sort (issued_before l) (m ++ (id, s) ∷ []) ≡ sort (issued_before l) m ++ (id, s) ∷ []
  unfolding sort insert_sorted
  sort_last id s [] h = refl
  sort_last id s ((i, r) ∷ m) h =
      ap (insert_sorted (issued_before l) (i, r)) (sort_last id s m h.1)
      ∙ insert_last (i, r) 0 id s (sort (issued_before l) m) h.0

  get-delete_all :
      (id : Text) (xs m : Sessions) → has id xs ≡ false → get id (delete_all l xs m) ≡ get id m
  unfolding delete_all has
  get-delete_all id [] m h = refl
  get-delete_all id ((i, r) ∷ xs) m h =
      ground (arith, get-delete_all id xs (delete i m), get-delete i id m)

  drop_oldest_last :
      (id : Text) (s : SessionRecord) (m : Sessions)
      → 0 < l.session_max
      → get id m ≡ none
      → IssuedBy s.issued_at m
      → get id (drop_oldest l (m ++ (id, s) ∷ [])) ≡ some s
  unfolding drop_oldest
  drop_oldest_last id s m room fresh h =
      let k : ℕ = length (m ++ (id, s) ∷ []) - l.session_max in
      let short : k ≤ length (sort (issued_before l) m) =
        omega (arith, length-append m ((id, s) ∷ []), length-sort (issued_before l) m) in
      let kept = get_last id s m fresh in
      ground (
        arith,
        kept,
        ap (take k) (sort_last id s m h)
            ∙ take_front k (sort (issued_before l) m) ((id, s) ∷ []) short,
        get-delete_all id (take k (sort (issued_before l) m)) (m ++ (id, s) ∷ []),
        has-take id k (sort (issued_before l) m),
        has-sort l id m,
        has-get id m,
      )

  get-sweep_last :
      (id : Text) (s : SessionRecord) (now : ℕ) (m : Sessions)
      → 0 < l.session_max
      → expired l s now ≡ false
      → get id m ≡ none
      → IssuedBy s.issued_at m
      → get id (drop_oldest l (sweep l now (m ++ (id, s) ∷ []))) ≡ some s
  unfolding sweep
  get-sweep_last id s now m room live fresh h =
      let p : Text → SessionRecord → Bool = λ i r. not (expired l r now) in
      let gone : get id (retain p m) ≡ none =
        ground (arith, has-retain p id m, has-get id m, has-get id (retain p m)) in
      let last : get id (drop_oldest l (retain p m ++ (id, s) ∷ [])) ≡ some s =
        drop_oldest_last id s (retain p m) room gone (retain-IssuedBy p s.issued_at m h) in
      ap (λ z. get id (drop_oldest l z)) (retain_last p id s m (ap not live)) ∙ last

  created : Text → ℕ → SessionRecord
  created user_id now = record {
    user_id = user_id;
    issued_at = now;
    expires_at = now + l.idle_ttl_ms;
    machine_id = none;
  }

  -- A session id that `create` has just issued, fresh and at a time no earlier than any session of the
  -- map, with room for one session at least, names its user at every later time within the idle and
  -- the absolute limit, also when the map was full and `evict` dropped sessions to make room for it.
  pub created_session_is_good :
      (id : Text) (now later : ℕ) (user_id : Text) (m : Sessions)
      → 0 < l.session_max
      → get id m ≡ none
      → IssuedBy now m
      → now ≤ later
      → later ≤ now + l.idle_ttl_ms
      → later ≤ now + l.absolute_ttl_ms
      → (lookup l id later (create l id now user_id m)).0 ≡ some user_id
  unfolding create evict lookup created expired
  created_session_is_good id now later user_id m room fresh h le idle absolute =
      let s = created user_id now in
      let live : expired l s now ≡ false = ground arith in
      let swept : get id (drop_oldest l (sweep l now (m ++ (id, s) ∷ []))) ≡ some s =
        get-sweep_last id s now m room live fresh h in
      ground (arith, swept, set_fresh id s m fresh, get_last id s m fresh)
