-- ===== src/Common/Split.antt =====
-- JavaScript's `split` on one code unit, `indexOf` of one, `trim`, and decimal numerals.
use Prim.Native.Nat.{ℕ, zero, suc, ◌+◌, ◌*◌, ◌-◌, ◌/◌, ◌%◌, ◌<◌}
use mathlib.Core.Path.{◌≡◌, refl, ap, ◌∙◌}
use mathlib.Core.Logic.{inl, inr}
use mathlib.Core.Bool.{Bool, true, false, ◌&&◌, ◌||◌}
use mathlib.Core.List.{List, [], ◌∷◌, ◌++◌, reverse}
use mathlib.Core.Option.{Option, none, some}
use native.Mathlib.Omega.{arith}
use deepseek_harness_gateway.Common.Tests.{Bool-cases, ltb, leb, nat_eq, if◌then◌else◌}
use deepseek_harness_gateway.Common.Text.{Text}

-- `s.split(c)`: one piece more than there are separators
abbrev cons_piece : ℕ → List Text → List Text
cons_piece x [] = (x ∷ []) ∷ []
cons_piece x (p ∷ ps) = (x ∷ p) ∷ ps

unfoldable pub split_on : ℕ → Text → List Text
split_on c [] = [] ∷ []
split_on c (x ∷ s) = let rest = split_on c s in if nat_eq x c then [] ∷ rest else cons_piece x rest

-- `[s.slice(0, i), s.slice(i + 1)]` where `i = s.indexOf(c)`, when there is one
abbrev pub cons_first : ℕ → Option (Text × Text) → Option (Text × Text)
cons_first x none = none
cons_first x (some (a, b)) = some (x ∷ a, b)

unfoldable pub cut_at : ℕ → Text → Option (Text × Text)
cut_at c [] = none
cut_at c (x ∷ s) = let rest = cut_at c s in if nat_eq x c then some ([], s) else cons_first x rest

unfoldable pub includes : ℕ → Text → Bool
includes c [] = false
includes c (x ∷ s) = nat_eq x c || includes c s

-- the white space and line ends that `trim` removes
abbrev pub is_space : ℕ → Bool
is_space x =
    leb 9 x && leb x 13
    || nat_eq x 32
    || nat_eq x 160
    || nat_eq x 5760
    || leb 8192 x && leb x 8202
    || nat_eq x 8232
    || nat_eq x 8233
    || nat_eq x 8239
    || nat_eq x 8287
    || nat_eq x 12288
    || nat_eq x 65279

unfoldable pub trim_start : Text → Text
trim_start [] = []
trim_start (x ∷ s) = let rest = trim_start s in if is_space x then rest else x ∷ s

unfoldable pub trim : Text → Text
unfolding trim_start
trim s = reverse (trim_start (reverse (trim_start s)))

-- `String(n)`; the fuel is more than the number of digits
decimal_loop : ℕ → ℕ → Text → Text
decimal_loop zero n acc = acc
decimal_loop (suc fuel) n acc =
    let acc' = (48 + n % 10) ∷ acc in
    let rest = decimal_loop fuel (n / 10) acc' in if ltb n 10 then acc' else rest

unfoldable pub decimal : ℕ → Text
unfolding decimal_loop
decimal n = decimal_loop (suc n) n []

pub split_on-free : (c : ℕ) (s : Text) → includes c s ≡ false → split_on c s ≡ s ∷ []
unfolding split_on includes
split_on-free c [] h = refl
split_on-free c (x ∷ s) h = ground (arith, split_on-free c s)

pub split_on-append :
    (c : ℕ) (s t : Text) → includes c s ≡ false → split_on c (s ++ c ∷ t) ≡ s ∷ split_on c t
unfolding split_on includes
split_on-append c [] t h = ground arith
split_on-append c (x ∷ s) t h = ground (arith, split_on-append c s t)

pub cut_at-append :
    (c : ℕ) (s t : Text) → includes c s ≡ false → cut_at c (s ++ c ∷ t) ≡ some (s, t)
unfolding cut_at includes
cut_at-append c [] t h = ground arith
cut_at-append c (x ∷ s) t h = ground (arith, cut_at-append c s t)

pub includes-append : (c : ℕ) (s t : Text) → includes c (s ++ t) ≡ (includes c s || includes c t)
unfolding includes
includes-append c [] t = refl
includes-append c (x ∷ s) t = ground (arith, includes-append c s t)

pub trim_space : (s : Text) → trim (32 ∷ s) ≡ trim s
unfolding trim trim_start
trim_space s = refl

-- The number that decimal digits stand for, after `acc`.
abbrev pub digits_value : ℕ → Text → ℕ
digits_value acc [] = acc
digits_value acc (c ∷ s) = digits_value (acc * 10 + (c - 48)) s

value-decimal_loop :
    (fuel n : ℕ) (acc : Text)
    → n < fuel
    → digits_value 0 (decimal_loop fuel n acc) ≡ digits_value n acc
unfolding decimal_loop
value-decimal_loop zero n acc h = absurd (omega arith)
value-decimal_loop (suc fuel) n acc h = elim (Bool-cases (ltb n 10)) [
  | inl small ↦ rw small (ap (λ z. digits_value z acc) (ground arith))
  | inr big ↦ rw big (
      value-decimal_loop fuel (n / 10) ((48 + n % 10) ∷ acc) (ground arith)
      ∙ ap (λ z. digits_value z acc) (omega arith))
]

pub digits_value-decimal : (n : ℕ) → digits_value 0 (decimal n) ≡ n
unfolding decimal
digits_value-decimal n = value-decimal_loop (suc n) n [] (omega arith)

includes-decimal_loop :
    (c fuel n : ℕ) (acc : Text) → c < 48 → includes c (decimal_loop fuel n acc) ≡ includes c acc
unfolding decimal_loop includes
includes-decimal_loop c zero n acc h = refl
includes-decimal_loop c (suc fuel) n acc h =
    ground (arith, includes-decimal_loop c fuel (n / 10) ((48 + n % 10) ∷ acc) h)

pub includes-decimal : (c n : ℕ) → c < 48 → includes c (decimal n) ≡ false
unfolding decimal includes
includes-decimal c n h = includes-decimal_loop c (suc n) n [] h

unfoldable pub all_digits : Text → Bool
all_digits [] = true
all_digits (c ∷ s) = leb 48 c && leb c 57 && all_digits s

abbrev pub is_number : Text → Bool
is_number [] = false
is_number (c ∷ s) = all_digits (c ∷ s)

is_number-decimal_loop :
    (fuel n : ℕ) (acc : Text)
    → all_digits acc ≡ true
    → n < fuel
    → is_number (decimal_loop fuel n acc) ≡ true
unfolding decimal_loop all_digits
is_number-decimal_loop zero n acc h k = absurd (omega arith)
is_number-decimal_loop (suc fuel) n acc h k = elim (Bool-cases (ltb n 10)) [
  | inl small ↦ rw small (ground arith)
  | inr big ↦
      rw big
        (is_number-decimal_loop fuel (n / 10) ((48 + n % 10) ∷ acc) (ground arith) (ground arith))
]

pub is_number-decimal : (n : ℕ) → is_number (decimal n) ≡ true
unfolding decimal all_digits
is_number-decimal n = is_number-decimal_loop (suc n) n [] refl (omega arith)

includes-all_digits : (c : ℕ) (s : Text) → 57 < c → all_digits s ≡ true → includes c s ≡ false
unfolding includes all_digits
includes-all_digits c [] h k = refl
includes-all_digits c (x ∷ s) h k = ground (arith, includes-all_digits c s)

pub includes-is_number : (c : ℕ) (s : Text) → 57 < c → is_number s ≡ true → includes c s ≡ false
includes-is_number c [] h k = cc
includes-is_number c (x ∷ s) h k = includes-all_digits c (x ∷ s) h k
