-- ===== src/Sqlite/Assignments.antt =====
-- The assignments of packages/store/src/memory.ts, which stand under a joined key, read by their two
-- columns as packages/store/src/sqlite.ts does.
use mathlib.Core.List.{reverse, reverse-cons, reverse-reverse, reverse-append, append_assoc}
use deepseek_harness_gateway.Common.{
  ℕ, ◌≡◌, refl, sym, ap, ◌∙◌, Bool, false, not, ◌&&◌, ◌||◌, [], ◌∷◌, ◌++◌, arith, Bool-cases, inl,
  inr,
}
use deepseek_harness_gateway.Common.Text.{
  Text, text, text_eq, text_eq_iff, starts_with, ends_with, Eq-text,
}
use deepseek_harness_gateway.Common.Split.{includes, includes-append}
use deepseek_harness_gateway.Common.Dict.{Dict, set, delete, retain}
use deepseek_harness_gateway.Store.Domain.{Assignment}
use deepseek_harness_gateway.Store.Memory.{assignment_key}

-- no colon
abbrev pub Plain : Text → Type 0
Plain s = includes 58 s ≡ false

cut_same :
    (a b s t : Text)
    → Plain a
    → Plain b
    → text_eq (a ++ 58 ∷ s) (b ++ 58 ∷ t) ≡ (text_eq a b && text_eq s t)
unfolding text_eq includes
cut_same [] [] s t h k = refl
cut_same [] (y ∷ b) s t h k = ground arith
cut_same (x ∷ a) [] s t h k = ground arith
cut_same (x ∷ a) (y ∷ b) s t h k = ground (arith, cut_same a b s t)

cut_starts :
    (a b s : Text) → Plain a → Plain b → starts_with (a ++ 58 ∷ s) (b ++ 58 ∷ []) ≡ text_eq a b
unfolding text_eq includes starts_with
cut_starts [] [] s h k = refl
cut_starts [] (y ∷ b) s h k = ground arith
cut_starts (x ∷ a) [] s h k = ground arith
cut_starts (x ∷ a) (y ∷ b) s h k = ground (arith, cut_starts a b s)

pub assignment_key_same :
    (m u n v : Text)
    → Plain m
    → Plain n
    → text_eq (assignment_key m u) (assignment_key n v) ≡ (text_eq m n && text_eq u v)
unfolding assignment_key
assignment_key_same m u n v h k = cut_same m n u v h k

starts-assignment_key :
    (m u n : Text)
    → Plain m
    → Plain n
    → starts_with (assignment_key m u) (n ++ text ":") ≡ text_eq m n
unfolding assignment_key
starts-assignment_key m u n h k = cut_starts m n u h k

includes-reverse : (c : ℕ) (s : Text) → includes c (reverse s) ≡ includes c s
unfolding includes
includes-reverse c [] = refl
includes-reverse c (x ∷ s) =
    ap (includes c) (reverse-cons x s)
    ∙ ground (arith, includes-append c (reverse s) (x ∷ []), includes-reverse c s)

text_eq-reverse : (s t : Text) → text_eq (reverse s) (reverse t) ≡ text_eq s t
text_eq-reverse s t = elim (Bool-cases (text_eq s t)) [
  | inl e ↦ (text_eq_iff _ _).1 (ap reverse ((text_eq_iff s t).0 e)) ∙ sym e
  | inr e ↦ elim (Bool-cases (text_eq (reverse s) (reverse t))) [
    | inr d ↦ d ∙ sym e
    | inl d ↦
        let same : s ≡ t =
          sym (reverse-reverse s) ∙ ap reverse ((text_eq_iff _ _).0 d) ∙ reverse-reverse t in
        d ∙ sym ((text_eq_iff s t).1 same)
  ]
]

pub ends-assignment_key :
    (m u v : Text)
    → Plain u
    → Plain v
    → ends_with (assignment_key m u) (text ":" ++ v) ≡ text_eq u v
unfolding ends_with assignment_key
ends-assignment_key m u v h k =
    let whole : reverse (m ++ 58 ∷ u) ≡ reverse u ++ 58 ∷ reverse m =
      reverse-append m (58 ∷ u)
      ∙ ap (λ z. z ++ reverse m) (reverse-cons 58 u)
      ∙ append_assoc (reverse u) (58 ∷ []) (reverse m) in
    rw (whole, reverse-cons 58 v)
      (cut_starts (reverse u) (reverse v) (reverse m) (includes-reverse 58 u ∙ h)
          (includes-reverse 58 v ∙ k)
        ∙ text_eq-reverse u v)

-- Is there an entry with these columns?
unfoldable pub assigned : Text → Text → Dict Text Assignment → Bool
assigned m u [] = false
assigned m u ((key, a) ∷ d) = text_eq a.machine_id m && text_eq a.user_id u || assigned m u d

-- Each entry stands under its joined key, and its ids hold no colon.
abbrev pub Keyed : Dict Text Assignment → Type 0
Keyed [] = Unit
Keyed ((key, a) ∷ d) =
    ((key ≡ assignment_key a.machine_id a.user_id) × Plain a.machine_id × Plain a.user_id) × Keyed d

pub assigned-set :
    (m u : Text) (a : Assignment) (d : Dict Text Assignment)
    → Plain a.machine_id
    → Plain a.user_id
    → Keyed d
    → assigned m u (set (assignment_key a.machine_id a.user_id) a d)
      ≡ (text_eq a.machine_id m && text_eq a.user_id u || assigned m u d)
unfolding assigned set
assigned-set m u a [] h k w = refl
assigned-set m u a ((key, b) ∷ d) h k w = ground (
  arith,
  w.0,
  assignment_key_same b.machine_id b.user_id a.machine_id a.user_id w.0.1 h,
  text_eq_iff b.machine_id a.machine_id,
  text_eq_iff b.user_id a.user_id,
  assigned-set m u a d h k w.1,
)

pub set-Keyed :
    (a : Assignment) (d : Dict Text Assignment)
    → Plain a.machine_id
    → Plain a.user_id
    → Keyed d
    → Keyed (set (assignment_key a.machine_id a.user_id) a d)
unfolding set
set-Keyed a [] h k w = ((refl, h, k), tt)
set-Keyed a ((key, b) ∷ d) h k w =
    elim (Bool-cases (text_eq key (assignment_key a.machine_id a.user_id))) [
      | inl e ↦ rw e (((text_eq_iff _ _).0 e, h, k), w.1)
      | inr e ↦ rw e (w.0, set-Keyed a d h k w.1)
    ]

pub assigned-delete :
    (m u n v : Text) (d : Dict Text Assignment)
    → Plain n
    → Keyed d
    → assigned m u (delete (assignment_key n v) d)
      ≡ (not (text_eq n m && text_eq v u) && assigned m u d)
unfolding assigned delete
assigned-delete m u n v [] h w = ground arith
assigned-delete m u n v ((key, b) ∷ d) h w = ground (
  arith,
  w.0,
  assignment_key_same b.machine_id b.user_id n v w.0.1 h,
  text_eq_iff b.machine_id n,
  text_eq_iff b.user_id v,
  text_eq_iff b.machine_id m,
  text_eq_iff b.user_id u,
  text_eq_iff n m,
  text_eq_iff v u,
  assigned-delete m u n v d h w.1,
)

pub retain-Keyed :
    (p : Text → Assignment → Bool) (d : Dict Text Assignment) → Keyed d → Keyed (retain p d)
unfolding retain
retain-Keyed p [] w = tt
retain-Keyed p ((key, b) ∷ d) w = ground (arith, retain-Keyed p d w.1)

pub delete-Keyed : (k : Text) (d : Dict Text Assignment) → Keyed d → Keyed (delete k d)
unfolding delete
delete-Keyed k [] w = tt
delete-Keyed k ((key, b) ∷ d) w = ground (arith, delete-Keyed k d w.1)

pub assigned-drop_user :
    (m u v : Text) (d : Dict Text Assignment)
    → Plain v
    → Keyed d
    → assigned m u (retain (λ key a. not (ends_with key (text ":" ++ v))) d)
      ≡ (not (text_eq v u) && assigned m u d)
unfolding assigned retain
assigned-drop_user m u v [] h w = ground arith
assigned-drop_user m u v ((key, b) ∷ d) h w =
    let ends : ends_with key (text ":" ++ v) ≡ text_eq b.user_id v =
      ap (λ z. ends_with z (text ":" ++ v)) w.0.0
      ∙ ends-assignment_key b.machine_id b.user_id v w.0.2 h in
    rw ends (
      ground (
        arith,
        text_eq_iff b.user_id v,
        text_eq_iff b.user_id u,
        text_eq_iff v u,
        assigned-drop_user m u v d h w.1,
      ))

pub assigned-drop_machine :
    (m u n : Text) (d : Dict Text Assignment)
    → Plain n
    → Keyed d
    → assigned m u (retain (λ key a. not (starts_with key (n ++ text ":"))) d)
      ≡ (not (text_eq n m) && assigned m u d)
unfolding assigned retain
assigned-drop_machine m u n [] h w = ground arith
assigned-drop_machine m u n ((key, b) ∷ d) h w =
    let starts : starts_with key (n ++ text ":") ≡ text_eq b.machine_id n =
      ap (λ z. starts_with z (n ++ text ":")) w.0.0
      ∙ starts-assignment_key b.machine_id b.user_id n w.0.1 h in
    rw starts (
      ground (
        arith,
        text_eq_iff b.machine_id n,
        text_eq_iff b.machine_id m,
        text_eq_iff n m,
        assigned-drop_machine m u n d h w.1,
      ))
