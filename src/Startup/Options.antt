-- ===== src/Startup/Options.antt =====
-- The command line of apps/gateway/src/main.ts.
use deepseek_harness_gateway.Common.{◌≡◌, refl, false, some, List, [], ◌∷◌}
use deepseek_harness_gateway.Common.Text.{Text, Eq-text}
use deepseek_harness_gateway.Common.Lists.{All}
use deepseek_harness_gateway.Common.Dict.{Dict, get, set}
use deepseek_harness_gateway.Startup.{config, cli_loop, cli_config, option_key, is_option, is_help}

-- An option as it is typed, the variable that it sets, and its value.
pub record Setting : Type 0 where
  pub flag : Text
  pub env : Text
  pub value : Text

abbrev pub typed : List Setting → List Text
typed [] = []
typed (s ∷ ss) = s.flag ∷ s.value ∷ typed ss

abbrev pub all_set : Dict Text Text → List Setting → Dict Text Text
all_set out [] = out
all_set out (s ∷ ss) = all_set (set s.env s.value out) ss

-- The flag is that of an option, and the value does not look like one.
abbrev pub IsSetting : Dict Text Text → Setting → Type 0
IsSetting cli_map s =
    (is_help s.flag ≡ false)
    × (get (option_key s.flag) cli_map ≡ some s.env)
    × (is_option s.value ≡ false)

loop_reads :
    (cli_map out : Dict Text Text) (ss : List Setting)
    → All (IsSetting cli_map) ss
    → cli_loop cli_map out (typed ss) ≡ config (all_set out ss)
unfolding cli_loop
loop_reads cli_map out [] h = refl
loop_reads cli_map out (s ∷ ss) (ok_s, ok_ss) =
    rw ok_s.0 (rw ok_s.1 (rw ok_s.2 (loop_reads cli_map (set s.env s.value out) ss ok_ss)))

-- A command line of known options, each with a value that does not begin like an option, sets the
-- variable of each option to its value, the last one where an option is given again.
pub cli_config-typed :
    (cli_map : Dict Text Text) (ss : List Setting)
    → All (IsSetting cli_map) ss
    → cli_config cli_map (typed ss) ≡ config (all_set [] ss)
unfolding cli_config
cli_config-typed cli_map ss h = loop_reads cli_map [] ss h
