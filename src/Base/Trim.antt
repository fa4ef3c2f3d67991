-- ===== src/Base/Trim.antt =====
-- Go's `strings.TrimSpace`: whether a string is its own trimming.
use mathlib.Core.Bool.{Bool, true, false, not, ◌&&◌, ◌||◌}
use Prim.Native.Nat.{ℕ, zero, suc}
use mathlib.Core.Option.{Option, none, some}
use mathlib.Core.List.{List, [], ◌∷◌}
use vibe_bridge.Base.Tests.{◌==◌, if◌then◌else◌}
use vibe_bridge.Base.Lists.{length}
use vibe_bridge.Base.Keys.{Bytes}

-- The white space of Unicode in UTF-8.
abbrev spaces : List Bytes
spaces =
    (0x09 ∷ [])
    ∷ (0x0a ∷ [])
    ∷ (0x0b ∷ [])
    ∷ (0x0c ∷ [])
    ∷ (0x0d ∷ [])
    ∷ (0x20 ∷ [])
    ∷ (0xc2 ∷ 0x85 ∷ [])
    ∷ (0xc2 ∷ 0xa0 ∷ [])
    ∷ (0xe1 ∷ 0x9a ∷ 0x80 ∷ [])
    ∷ (0xe2 ∷ 0x80 ∷ 0x80 ∷ [])
    ∷ (0xe2 ∷ 0x80 ∷ 0x81 ∷ [])
    ∷ (0xe2 ∷ 0x80 ∷ 0x82 ∷ [])
    ∷ (0xe2 ∷ 0x80 ∷ 0x83 ∷ [])
    ∷ (0xe2 ∷ 0x80 ∷ 0x84 ∷ [])
    ∷ (0xe2 ∷ 0x80 ∷ 0x85 ∷ [])
    ∷ (0xe2 ∷ 0x80 ∷ 0x86 ∷ [])
    ∷ (0xe2 ∷ 0x80 ∷ 0x87 ∷ [])
    ∷ (0xe2 ∷ 0x80 ∷ 0x88 ∷ [])
    ∷ (0xe2 ∷ 0x80 ∷ 0x89 ∷ [])
    ∷ (0xe2 ∷ 0x80 ∷ 0x8a ∷ [])
    ∷ (0xe2 ∷ 0x80 ∷ 0xa8 ∷ [])
    ∷ (0xe2 ∷ 0x80 ∷ 0xa9 ∷ [])
    ∷ (0xe2 ∷ 0x80 ∷ 0xaf ∷ [])
    ∷ (0xe2 ∷ 0x81 ∷ 0x9f ∷ [])
    ∷ (0xe3 ∷ 0x80 ∷ 0x80 ∷ [])
    ∷ []

abbrev pub starts_with : Bytes → Bytes → Bool
starts_with [] s = true
starts_with (b ∷ p) [] = false
starts_with (b ∷ p) (c ∷ s) = b == c && starts_with p s

abbrev reverse_onto : Bytes → Bytes → Bytes
reverse_onto acc [] = acc
reverse_onto acc (b ∷ s) = reverse_onto (b ∷ acc) s

abbrev touches : List Bytes → Bytes → Bytes → Bool
touches [] s backwards = false
touches (p ∷ ps) s backwards =
    starts_with p s || starts_with (reverse_onto [] p) backwards || touches ps s backwards

-- `strings.TrimSpace(s) == s`: no white space at either end.
unfoldable pub is_trimmed : Bytes → Bool
is_trimmed s = not (touches spaces s (reverse_onto [] s))

-- The rest of the string after one of the prefixes.
abbrev pub strip_prefix : Bytes → Bytes → Option Bytes
strip_prefix [] s = some s
strip_prefix (b ∷ p) [] = none
strip_prefix (b ∷ p) (c ∷ s) = if b == c then strip_prefix p s else none

abbrev strip_one : List Bytes → Bytes → Option Bytes
strip_one [] s = none
strip_one (p ∷ ps) s = elim (strip_prefix p s) [ some rest ↦ some rest | none ↦ strip_one ps s ]

-- Each round strips a byte at least.
abbrev strip_all : ℕ → List Bytes → Bytes → Bytes
strip_all zero ps s = s
strip_all (suc n) ps s = elim (strip_one ps s) [ some rest ↦ strip_all n ps rest | none ↦ s ]

abbrev reversed : List Bytes → List Bytes
reversed [] = []
reversed (p ∷ ps) = reverse_onto [] p ∷ reversed ps

-- `strings.TrimSpace`.
unfoldable pub trim_space : Bytes → Bytes
trim_space s =
    let left = strip_all (length s) spaces s in
    reverse_onto [] (strip_all (length left) (reversed spaces) (reverse_onto [] left))
