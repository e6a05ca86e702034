-- ===== src/Common/Numbers.antt =====
-- `JSON.stringify` of an array of numbers, and `JSON.parse` of what it writes. On text of another
-- form, which no column holds, `parse_numbers` gives `none`.
use Prim.Native.Nat.{ℕ}
use mathlib.Core.Path.{◌≡◌, refl, ap, ◌∙◌}
use mathlib.Core.Bool.{Bool, true, false}
use mathlib.Core.List.{List, [], ◌∷◌, ◌++◌, map}
use mathlib.Core.Option.{Option, none, some}
use native.Mathlib.Omega.{arith}
use deepseek_harness_gateway.Common.Tests.{nat_eq, if◌then◌else◌}
use deepseek_harness_gateway.Common.Text.{Text}
use deepseek_harness_gateway.Common.Split.{
  split_on, cut_at, includes, decimal, digits_value, split_on-free, split_on-append, cut_at-append,
  includes-append, includes-decimal, digits_value-decimal, is_number, is_number-decimal,
  includes-is_number,
}
use deepseek_harness_gateway.Common.Json.{comma_join}

unfoldable pub stringify_numbers : List ℕ → Text
unfolding decimal comma_join
stringify_numbers ns = 91 ∷ (comma_join (map decimal ns) ++ 93 ∷ [])

abbrev cons_number : Text → Option (List ℕ) → Option (List ℕ)
cons_number s none = none
cons_number s (some ns) = if is_number s then some (digits_value 0 s ∷ ns) else none

unfoldable pub numbers_of : List Text → Option (List ℕ)
numbers_of [] = some []
numbers_of (s ∷ rest) = cons_number s (numbers_of rest)

abbrev between : Option (Text × Text) → Option (List ℕ)
between (some ([], [])) = some []
between (some (c ∷ s, [])) = numbers_of (split_on 44 (c ∷ s))
between _ = none

unfoldable pub parse_numbers : Text → Option (List ℕ)
unfolding cut_at split_on numbers_of
parse_numbers [] = none
parse_numbers (c ∷ s) = if nat_eq c 91 then between (cut_at 93 s) else none

includes-comma_join : (ns : List ℕ) → includes 93 (comma_join (map decimal ns)) ≡ false
unfolding comma_join includes
includes-comma_join [] = refl
includes-comma_join (n ∷ []) = includes-is_number 93 (decimal n) (omega arith) (is_number-decimal n)
includes-comma_join (n ∷ m ∷ ns) = ground (
  arith,
  includes-append 93 (decimal n) (44 ∷ comma_join (map decimal (m ∷ ns))),
  includes-is_number 93 (decimal n) (omega arith) (is_number-decimal n),
  includes-comma_join (m ∷ ns),
)

split_on-comma_join :
    (n : ℕ) (ns : List ℕ) → split_on 44 (comma_join (map decimal (n ∷ ns))) ≡ map decimal (n ∷ ns)
unfolding comma_join
split_on-comma_join n [] = split_on-free 44 (decimal n) (includes-decimal 44 n (omega arith))
split_on-comma_join n (m ∷ ns) =
    split_on-append 44 (decimal n) (comma_join (map decimal (m ∷ ns)))
      (includes-decimal 44 n (omega arith))
    ∙ ap (λ z. decimal n ∷ z) (split_on-comma_join m ns)

numbers_of-decimal : (ns : List ℕ) → numbers_of (map decimal ns) ≡ some ns
unfolding numbers_of
numbers_of-decimal [] = refl
numbers_of-decimal (n ∷ ns) =
    rw (numbers_of-decimal ns, is_number-decimal n, digits_value-decimal n) refl

-- not empty
abbrev filled : Text → Bool
filled [] = false
filled (c ∷ s) = true

filled-append : (s t : Text) → filled s ≡ true → filled (s ++ t) ≡ true
filled-append [] t h = cc
filled-append (c ∷ s) t h = refl

filled-is_number : (s : Text) → is_number s ≡ true → filled s ≡ true
filled-is_number [] h = cc
filled-is_number (c ∷ s) h = refl

filled-comma_join : (n : ℕ) (ns : List ℕ) → filled (comma_join (map decimal (n ∷ ns))) ≡ true
unfolding comma_join
filled-comma_join n [] = filled-is_number (decimal n) (is_number-decimal n)
filled-comma_join n (m ∷ ns) =
    filled-append (decimal n) (44 ∷ comma_join (map decimal (m ∷ ns)))
      (filled-is_number (decimal n) (is_number-decimal n))

between-filled : (s : Text) → filled s ≡ true → between (some (s, [])) ≡ numbers_of (split_on 44 s)
between-filled [] h = cc
between-filled (c ∷ s) h = refl

parse-bracketed :
    (s : Text)
    → includes 93 s ≡ false
    → parse_numbers (91 ∷ (s ++ 93 ∷ [])) ≡ between (some (s, []))
unfolding parse_numbers
parse-bracketed s h = ap between (cut_at-append 93 s [] h)

-- An array of numbers is read back.
pub parse-stringify_numbers : (ns : List ℕ) → parse_numbers (stringify_numbers ns) ≡ some ns
unfolding stringify_numbers includes
parse-stringify_numbers [] = parse-bracketed [] refl
parse-stringify_numbers (n ∷ ns) =
    let inside = comma_join (map decimal (n ∷ ns)) in
    parse-bracketed inside (includes-comma_join (n ∷ ns))
    ∙ between-filled inside (filled-comma_join n ns)
    ∙ ap numbers_of (split_on-comma_join n ns)
    ∙ numbers_of-decimal (n ∷ ns)
