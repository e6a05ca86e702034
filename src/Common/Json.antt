-- ===== src/Common/Json.antt =====
-- `JSON.stringify` of a flat object, whose undefined members are left out.
use Prim.Native.Nat.{ℕ, ◌+◌, ◌/◌, ◌%◌}
use mathlib.Core.Bool.{Bool, true, false, ◌&&◌, ◌||◌}
use mathlib.Core.List.{List, [], ◌∷◌, ◌++◌}
use deepseek_harness_gateway.Common.Tests.{ltb, leb, nat_eq, if◌then◌else◌}
use deepseek_harness_gateway.Common.Text.{Text, text}
use deepseek_harness_gateway.Common.Split.{decimal}

pub data Json : Type 0 where
  str : Text → Json
  num : ℕ → Json
  bool : Bool → Json
  undefined : Json

abbrev pub hex_digit : ℕ → ℕ
hex_digit n = if ltb n 10 then 48 + n else 87 + n

abbrev unicode_escape : ℕ → Text
unicode_escape c =
    text "\\u"
    ++ hex_digit (c / 4096)
      ∷ hex_digit (c / 256 % 16)
      ∷ hex_digit (c / 16 % 16)
      ∷ hex_digit (c % 16)
      ∷ []

abbrev escape : ℕ → Text
escape c =
    if nat_eq c 34
    then text "\\\""
    else if nat_eq c 92
    then text "\\\\"
    else if nat_eq c 8
    then text "\\b"
    else if nat_eq c 9
    then text "\\t"
    else if nat_eq c 10
    then text "\\n"
    else if nat_eq c 12
    then text "\\f"
    else if nat_eq c 13
    then text "\\r"
    else if ltb c 32
    then unicode_escape c
    else c ∷ []

abbrev high : ℕ → Bool
high c = leb 55296 c && leb c 56319

abbrev low : ℕ → Bool
low c = leb 56320 c && leb c 57343

-- A surrogate without its partner is escaped, so the text is well formed; `paired` says that the
-- unit before was a high surrogate that this one completes.
escape_all : Bool → Text → Text
escape_all paired [] = []
escape_all paired (c ∷ []) =
    (if high c || low c && (if paired then false else true) then unicode_escape c else escape c)
escape_all paired (c ∷ d ∷ s) =
    let here = high c && low d in
    (if high c && (if low d then false else true) || low c && (if paired then false else true)
      then unicode_escape c
      else escape c)
    ++ escape_all here (d ∷ s)

abbrev pub quote_text : Text → Text
unfolding escape_all
quote_text s = 34 ∷ (escape_all false s ++ 34 ∷ [])

abbrev member : Text → Text → Text
member k v = quote_text k ++ (58 ∷ v)

abbrev members : List (Text × Json) → List Text
members [] = []
members ((k, str s) ∷ rest) = member k (quote_text s) ∷ members rest
members ((k, num n) ∷ rest) = member k (decimal n) ∷ members rest
members ((k, bool true) ∷ rest) = member k (text "true") ∷ members rest
members ((k, bool false) ∷ rest) = member k (text "false") ∷ members rest
members ((k, undefined) ∷ rest) = members rest

unfoldable pub comma_join : List Text → Text
comma_join [] = []
comma_join (s ∷ []) = s
comma_join (s ∷ t ∷ rest) = s ++ (44 ∷ comma_join (t ∷ rest))

unfoldable pub stringify : List (Text × Json) → Text
unfolding comma_join
stringify fields = 123 ∷ (comma_join (members fields) ++ 125 ∷ [])
