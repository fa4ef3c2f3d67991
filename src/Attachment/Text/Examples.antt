-- ===== src/Attachment/Text/Examples.antt =====
-- internal/attachment/transfer.go: the text validator on concrete inputs.
use vibe_bridge.Base.{◌≡◌, refl, true, false, List, [], ◌∷◌, Bytes, concat}
use vibe_bridge.Base.Utf8.{following, full_rune, decode_rune}
use vibe_bridge.Attachment.Text.{new_validator, scan, write, valid}
use vibe_bridge.Attachment.Text.Stream.{write_all, valid_text, write_all-valid}

-- U+20AC in three parts, and cut off.
abbrev euro : List Bytes
euro = (0xe2 ∷ []) ∷ (0x82 ∷ []) ∷ (0xac ∷ 0x21 ∷ []) ∷ []

euro_valid : valid (write_all new_validator euro) ≡ true
unfolding write_all new_validator write scan valid following full_rune decode_rune
euro_valid = refl

cut_off : valid (write_all new_validator ((0xe2 ∷ []) ∷ (0x82 ∷ []) ∷ [])) ≡ false
unfolding write_all new_validator write scan valid following full_rune decode_rune
cut_off = refl

write_all-valid_example : valid (write_all new_validator euro) ≡ valid_text (concat euro)
write_all-valid_example = write_all-valid euro
