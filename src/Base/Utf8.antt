-- ===== src/Base/Utf8.antt =====
-- The part of Go's `unicode/utf8` that the program calls, over lists of bytes.
use Prim.Native.Nat.{ℕ}
use mathlib.Core.Bool.{Bool, true, false, ◌&&◌}
use mathlib.Core.Option.{Option, none, some}
use mathlib.Core.List.{List, [], ◌∷◌}
use vibe_bridge.Base.Tests.{ltb, leb, if◌then◌else◌}
use vibe_bridge.Base.Lists.{is_empty}
use vibe_bridge.Base.Keys.{Bytes}

-- The byte range that a continuation byte must lie in.
pub record Range : Type 0 where
  pub low : ℕ
  pub high : ℕ

abbrev pub within : Range → ℕ → Bool
within r b = leb r.low b && leb b r.high

abbrev range : ℕ → ℕ → Range
range a b = record { low = a; high = b }

abbrev any_continuation : Range
any_continuation = range 0x80 0xbf

-- The ranges of the bytes that must follow a first byte; `none` for a byte that starts no rune.
unfoldable pub following : ℕ → Option (List Range)
following b =
    if ltb b 0x80
    then some []
    else if ltb b 0xc2
    then none
    else if ltb b 0xe0
    then some (any_continuation ∷ [])
    else if ltb b 0xe1
    then some (range 0xa0 0xbf ∷ any_continuation ∷ [])
    else if ltb b 0xed
    then some (any_continuation ∷ any_continuation ∷ [])
    else if ltb b 0xee
    then some (range 0x80 0x9f ∷ any_continuation ∷ [])
    else if ltb b 0xf0
    then some (any_continuation ∷ any_continuation ∷ [])
    else if ltb b 0xf1
    then some (range 0x90 0xbf ∷ any_continuation ∷ any_continuation ∷ [])
    else if ltb b 0xf4
    then some (any_continuation ∷ any_continuation ∷ any_continuation ∷ [])
    else if ltb b 0xf5
    then some (range 0x80 0x8f ∷ any_continuation ∷ any_continuation ∷ [])
    else none

-- Whether the bytes complete the rune that waits for the given ranges, and go on as runes.
unfoldable pub valid_after : List Range → Bytes → Bool
valid_after waiting [] = is_empty waiting
valid_after [] (b ∷ p) = elim (following b) [ none ↦ false | some q ↦ valid_after q p ]
valid_after (r ∷ q) (b ∷ p) = elim (within r b) [ true ↦ valid_after q p | false ↦ false ]

-- `utf8.ValidString`.
unfoldable pub valid_string : Bytes → Bool
unfolding valid_after
valid_string p = valid_after [] p

-- `utf8.FullRune` of the bytes after the first: whether they complete the rune, or already spoil it.
abbrev pub full_after : List Range → Bytes → Bool
full_after [] p = true
full_after (r ∷ q) [] = false
full_after (r ∷ q) (b ∷ p) = if within r b then full_after q p else true

-- The bytes after the rune that waits for the given ranges.
abbrev pub decode_after : List Range → Bytes → Option Bytes
decode_after [] p = some p
decode_after (r ∷ q) [] = none
decode_after (r ∷ q) (b ∷ p) = if within r b then decode_after q p else none

-- `utf8.FullRune`.
unfoldable pub full_rune : Bytes → Bool
unfolding following
full_rune [] = false
full_rune (b ∷ p) = elim (following b) [ none ↦ true | some q ↦ full_after q p ]

-- What `utf8.DecodeRune` leaves of the bytes, `none` where it answers `RuneError` of size 1.
unfoldable pub decode_rune : Bytes → Option Bytes
unfolding following
decode_rune [] = none
decode_rune (b ∷ p) = elim (following b) [ none ↦ none | some q ↦ decode_after q p ]
