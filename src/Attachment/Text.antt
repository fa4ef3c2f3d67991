-- ===== src/Attachment/Text.antt =====
-- internal/attachment/transfer.go: the validator that reads a text file chunk by chunk.
pub mod Stream
pub mod Examples
use vibe_bridge.Base.{
  ℕ, zero, suc, Bool, true, false, not, ◌&&◌, List, [], ◌∷◌, ◌++◌, Option, none, some, Bytes, ◌==◌,
  if◌then◌else◌, length, is_empty,
}
use vibe_bridge.Base.Utf8.{full_rune, decode_rune}

pub record Utf8StreamValidator : Type 0 where
  pub invalid : Bool
  pub tail : Bytes

unfoldable pub new_validator : Utf8StreamValidator
new_validator = record { invalid = false; tail = [] }

abbrev pub spoilt : Utf8StreamValidator
spoilt = record { invalid = true; tail = [] }

-- The loop of `Write`, on fuel: each round takes a byte at least.
unfoldable pub scan : ℕ → Bytes → Utf8StreamValidator
scan zero combined = record { invalid = false; tail = [] }
scan (suc n) [] = record { invalid = false; tail = [] }
scan (suc n) (b ∷ p) =
    if b == 0
    then spoilt
    else if not (full_rune (b ∷ p))
    then record { invalid = false; tail = b ∷ p }
    else elim (decode_rune (b ∷ p)) [ none ↦ spoilt | some rest ↦ scan n rest ]

unfoldable pub write : Utf8StreamValidator → Bytes → Utf8StreamValidator
unfolding scan
write v chunk = if v.invalid then v else scan (length (v.tail ++ chunk)) (v.tail ++ chunk)

unfoldable pub valid : Utf8StreamValidator → Bool
valid v = not v.invalid && is_empty v.tail
