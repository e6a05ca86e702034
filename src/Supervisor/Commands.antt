-- ===== src/Supervisor/Commands.antt =====
-- The command helpers of plugins/dsh-gateway-agent/src/daemon.js.
use deepseek_harness_gateway.Common.{
  ℕ, Bool, true, false, ◌&&◌, ◌||◌, Option, none, some, List, [], ◌∷◌, ◌++◌, leb, nat_eq,
  if◌then◌else◌,
}
use deepseek_harness_gateway.Common.Text.{Text, text, Eq-text}
use deepseek_harness_gateway.Common.Split.{is_space}
use deepseek_harness_gateway.Common.Dict.{Dict, get}

-- `\w`
abbrev pub is_word : ℕ → Bool
is_word c =
    (leb 48 c && leb c 57) || (leb 65 c && leb c 90) || nat_eq c 95 || (leb 97 c && leb c 122)

abbrev pub or_else {ℓ} : {A : Type ℓ} → A → Option A → A
or_else a none = a
or_else a (some b) = b

-- `{key}`, or what stands for it
abbrev pub placeholder : Dict Text Text → Text → Text
placeholder vars key = or_else (text "{" ++ (key ++ text "}")) (get key vars)

-- What has been read since an open brace that may begin a placeholder, if there is one.
abbrev pub open_brace : Option Text → Text
open_brace none = []
open_brace (some key) = text "{" ++ key

abbrev pub is_some_word : Option Text → Bool
is_some_word (some (c ∷ key)) = true
is_some_word _ = false

-- What a character completes, and what is open after it.
abbrev pub expand_next : Dict Text Text → ℕ → Option Text → Text × Option Text
expand_next vars c key =
    if is_word c
    then elim key [ none ↦ (c ∷ [], none) | some w ↦ ([], some (w ++ c ∷ [])) ]
    else if nat_eq c 125 && is_some_word key
    then (placeholder vars (or_else [] key), none)
    else if nat_eq c 123
    then (open_brace key, some [])
    else (open_brace key ++ c ∷ [], none)

abbrev pub expand_loop : Dict Text Text → Text → Option Text → Text
expand_loop vars [] key = open_brace key
expand_loop vars (c ∷ s) key =
    let (done, key') = expand_next vars c key in done ++ expand_loop vars s key'

unfoldable pub expand_command : Text → Dict Text Text → Text
expand_command command vars = expand_loop vars command none

abbrev pub ended : Text → Option Text
ended [] = none
ended cur = some cur

-- The argument that a character ends, the current one after it, and the open quote.
abbrev pub split_next : ℕ → Text → Option ℕ → Option Text × Text × Option ℕ
split_next c cur (some quote) =
    if nat_eq c quote then (none, cur, none) else (none, cur ++ c ∷ [], some quote)
split_next c cur none =
    if nat_eq c 34 || nat_eq c 39
    then (none, cur, some c)
    else if is_space c
    then (ended cur, [], none)
    else (none, cur ++ c ∷ [], none)

abbrev pub pushed : Option Text → List Text → List Text
pushed none out = out
pushed (some arg) out = arg ∷ out

abbrev pub last_arg : Text → List Text
last_arg [] = []
last_arg cur = cur ∷ []

abbrev pub split_loop : Text → Text → Option ℕ → List Text
split_loop [] cur quote = last_arg cur
split_loop (c ∷ s) cur quote =
    let (arg, cur', quote') = split_next c cur quote in pushed arg (split_loop s cur' quote')

unfoldable pub split_command : Text → List Text
split_command command = split_loop command [] none
