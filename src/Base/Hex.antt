-- ===== src/Base/Hex.antt =====
-- Go's `encoding/hex`, on byte strings.
use Prim.Native.Nat.{ℕ, ◌+◌, ◌-◌, ◌*◌, ◌/◌, ◌%◌}
use mathlib.Core.Bool.{◌&&◌}
use mathlib.Core.Option.{Option, none, some}
use mathlib.Core.List.{[], ◌∷◌}
use vibe_bridge.Base.Tests.{ltb, leb, if◌then◌else◌}
use vibe_bridge.Base.Keys.{Bytes}

abbrev hex_digit : ℕ → ℕ
hex_digit n = if ltb n 10 then 48 + n else 87 + n

-- `hex.EncodeToString`.
unfoldable pub encode_to_string : Bytes → Bytes
encode_to_string [] = []
encode_to_string (b ∷ s) = hex_digit (b / 16) ∷ hex_digit (b % 16) ∷ encode_to_string s

abbrev digit_value : ℕ → Option ℕ
digit_value c =
    if leb 48 c && leb c 57
    then some (c - 48)
    else if leb 97 c && leb c 102
    then some (c - 87)
    else if leb 65 c && leb c 70
    then some (c - 55)
    else none

abbrev decoded_pair : Option ℕ → Option ℕ → Option Bytes → Option Bytes
decoded_pair none low rest = none
decoded_pair (some h) none rest = none
decoded_pair (some h) (some l) none = none
decoded_pair (some h) (some l) (some s) = some ((h * 16 + l) ∷ s)

-- `hex.DecodeString`, `none` for an error.
unfoldable pub decode_string : Bytes → Option Bytes
decode_string [] = some []
decode_string (a ∷ []) = none
decode_string (a ∷ b ∷ s) = decoded_pair (digit_value a) (digit_value b) (decode_string s)
