-- ===== src/Common/Hex.antt =====
-- Node's `Buffer`: `toString('hex')` and `Buffer.from(s, 'hex')`, on bytes as numbers.
use Prim.Native.Nat.{ℕ, ◌+◌, ◌*◌, ◌-◌, ◌/◌, ◌%◌, ◌<◌}
use mathlib.Core.Path.{◌≡◌, refl, ap}
use mathlib.Core.Bool.{false, ◌&&◌}
use mathlib.Core.List.{List, [], ◌∷◌}
use mathlib.Core.Option.{Option, none, some}
use native.Mathlib.Omega.{arith}
use deepseek_harness_gateway.Common.Tests.{leb, if◌then◌else◌}
use deepseek_harness_gateway.Common.Text.{Text}
use deepseek_harness_gateway.Common.Lists.{All}
use deepseek_harness_gateway.Common.Split.{includes}
use deepseek_harness_gateway.Common.Json.{hex_digit}

abbrev pub hex_value : ℕ → Option ℕ
hex_value c =
    if leb 48 c && leb c 57
    then some (c - 48)
    else if leb 97 c && leb c 102
    then some (c - 87)
    else if leb 65 c && leb c 70
    then some (c - 55)
    else none

unfoldable pub to_hex : List ℕ → Text
to_hex [] = []
to_hex (b ∷ bs) = hex_digit (b / 16) ∷ hex_digit (b % 16) ∷ to_hex bs

abbrev byte_of : Option ℕ → Option ℕ → List ℕ → List ℕ
byte_of (some h) (some l) rest = (h * 16 + l) ∷ rest
byte_of _ _ rest = []

-- Decoding stops at the first pair that is not two hexadecimal digits.
unfoldable pub from_hex : Text → List ℕ
from_hex [] = []
from_hex (c ∷ []) = []
from_hex (c ∷ d ∷ s) = let rest = from_hex s in byte_of (hex_value c) (hex_value d) rest

hex_value-digit : (n : ℕ) → n < 16 → hex_value (hex_digit n) ≡ some n
hex_value-digit n h = ground arith

pub from_hex-to_hex : (bs : List ℕ) → All (λ b. b < 256) bs → from_hex (to_hex bs) ≡ bs
unfolding from_hex to_hex
from_hex-to_hex [] h = refl
from_hex-to_hex (b ∷ bs) (hb, hs) =
    rw
      (
        hex_value-digit (b / 16) (omega arith),
        hex_value-digit (b % 16) (omega arith),
        from_hex-to_hex bs hs,
      )
      (ap (λ z. z ∷ bs) (omega arith))

pub no_colon-to_hex : (bs : List ℕ) → All (λ b. b < 256) bs → includes 58 (to_hex bs) ≡ false
unfolding includes to_hex
no_colon-to_hex [] h = refl
no_colon-to_hex (b ∷ bs) (hb, hs) = ground (arith, no_colon-to_hex bs hs)
