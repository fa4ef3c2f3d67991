-- ===== src/Attachment/Text/Stream.antt =====
-- internal/attachment/transfer.go: the validator does not depend on how a text is cut into chunks.
use mathlib.Core.List.{append_assoc, append-nil}
use vibe_bridge.Base.{
  ℕ, zero, suc, ◌≤◌, ◌<◌, ◌≡◌, refl, Bool, true, false, not, ◌&&◌, List, [], ◌∷◌, ◌++◌, Option,
  none, some, Bytes, ◌==◌, if◌then◌else◌, length, is_empty, concat, arith, if_cases, Option-cases,
  inl, inr, ◌∙◌, sym, ap,
}
use vibe_bridge.Base.Utf8.{
  Range, within, following, full_after, decode_after, full_rune, decode_rune, valid_after,
  valid_string,
}
use vibe_bridge.Attachment.Text.{Utf8StreamValidator, new_validator, spoilt, scan, write, valid}

-- What the validator should tell of a whole text: it is UTF-8 and has no byte 0.
unfoldable pub has_nul : Bytes → Bool
has_nul [] = false
has_nul (b ∷ p) = if b == 0 then true else has_nul p

unfoldable pub valid_text : Bytes → Bool
valid_text p = valid_string p && not (has_nul p)

unfoldable pub write_all : Utf8StreamValidator → List Bytes → Utf8StreamValidator
write_all v [] = v
write_all v (chunk ∷ chunks) = write_all (write v chunk) chunks

-- The same, looking for the byte 0 at the start of a rune only.
text_after : List Range → Bytes → Bool
text_after waiting [] = is_empty waiting
text_after [] (b ∷ p) =
    if b == 0 then false else elim (following b) [ none ↦ false | some q ↦ text_after q p ]
text_after (r ∷ q) (b ∷ p) = if within r b then text_after q p else false

decode-text_after :
    (q : List Range) (p s rest : Bytes)
    → decode_after q p ≡ some rest
    → text_after q (p ++ s) ≡ text_after [] (rest ++ s)
unfolding text_after
decode-text_after [] p s rest e = ground arith
decode-text_after (r ∷ q) [] s rest e = absurd (ground arith)
decode-text_after (r ∷ q) (b ∷ p) s rest e = ground (arith, decode-text_after q p s rest)

spoilt-text_after :
    (q : List Range) (p s : Bytes)
    → decode_after q p ≡ none
    → full_after q p ≡ true
    → text_after q (p ++ s) ≡ false
unfolding text_after
spoilt-text_after [] p s e h = absurd (ground arith)
spoilt-text_after (r ∷ q) [] s e h = absurd (ground arith)
spoilt-text_after (r ∷ q) (b ∷ p) s e h = ground (arith, spoilt-text_after q p s)

short-text_after : (q : List Range) (p : Bytes) → full_after q p ≡ false → text_after q p ≡ false
unfolding text_after
short-text_after [] p h = absurd (ground arith)
short-text_after (r ∷ q) [] h = refl
short-text_after (r ∷ q) (b ∷ p) h = ground (arith, short-text_after q p)

decode_after-shorter :
    (q : List Range) (p rest : Bytes) → decode_after q p ≡ some rest → length rest ≤ length p
decode_after-shorter [] p rest e = ground arith
decode_after-shorter (r ∷ q) [] rest e = absurd (ground arith)
decode_after-shorter (r ∷ q) (b ∷ p) rest e = ground (arith, decode_after-shorter q p rest)

-- What the first rune tells of the whole.
decoded-text :
    (b : ℕ) (p s rest : Bytes)
    → (b == 0) ≡ false
    → decode_rune (b ∷ p) ≡ some rest
    → (text_after [] (b ∷ (p ++ s)) ≡ text_after [] (rest ++ s)) × (length rest ≤ length p)
unfolding text_after decode_rune
decoded-text b p s rest positive e = elim (Option-cases (following b)) [
  | inl starts_none ↦ absurd (ground arith)
  | inr (q, f) ↦ ground (arith, decode-text_after q p s rest, decode_after-shorter q p rest)
]

spoilt-text :
    (b : ℕ) (p s : Bytes)
    → full_rune (b ∷ p) ≡ true
    → decode_rune (b ∷ p) ≡ none
    → text_after [] (b ∷ (p ++ s)) ≡ false
unfolding text_after decode_rune full_rune
spoilt-text b p s full e = elim (Option-cases (following b)) [
  | inl starts_none ↦ ground arith
  | inr (q, f) ↦ ground (arith, spoilt-text_after q p s)
]

short-text : (b : ℕ) (p : Bytes) → full_rune (b ∷ p) ≡ false → text_after [] (b ∷ p) ≡ false
unfolding text_after full_rune
short-text b p short = elim (Option-cases (following b)) [
  | inl starts_none ↦ absurd (ground arith)
  | inr (q, f) ↦ ground (arith, short-text_after q p)
]

-- A validator stands for what it has read: with whatever follows, that is a text just if the
-- validator is not invalid and its tail, with what follows, is.
abbrev Reads : Bytes → Bytes → Utf8StreamValidator → Type 0
Reads p s v =
    (text_after [] (p ++ s) ≡ (not v.invalid && text_after [] (v.tail ++ s)))
    × (text_after [] v.tail ≡ is_empty v.tail)

nul-text : (b : ℕ) (p : Bytes) → (b == 0) ≡ true → text_after [] (b ∷ p) ≡ false
unfolding text_after
nul-text b p h = ground arith

text_after-nil : text_after [] [] ≡ true
unfolding text_after
text_after-nil = refl

abbrev after_rune : ℕ → Bytes → Option Bytes → Utf8StreamValidator
after_rune n p none = spoilt
after_rune n p (some rest) = scan n rest

scan-Reads : (n : ℕ) (p s : Bytes) → length p ≤ n → Reads p s (scan n p)
unfolding scan
scan-Reads zero [] s h = (refl, text_after-nil)
scan-Reads zero (b ∷ p) s h = absurd (omega arith)
scan-Reads (suc n) [] s h = (refl, text_after-nil)
scan-Reads (suc n) (b ∷ p) s h =
    if_cases (Reads (b ∷ p) s) (b == 0) _ _ (λ nul. (nul-text b (p ++ s) nul, text_after-nil))
      (λ positive.
        if_cases (Reads (b ∷ p) s) (not (full_rune (b ∷ p))) _ _
          (λ short. (refl, short-text b p (ground arith)))
          (λ full. elim (Option-cases (decode_rune (b ∷ p))) [
            | inl bad ↦ rw bad (spoilt-text b p s (ground arith) bad, text_after-nil)
            | inr (rest, good) ↦
                let (same, shorter) = decoded-text b p s rest positive good in
                let (reads, settled) = scan-Reads n rest s (omega arith) in
                rw good (same ∙ reads, settled)
          ]))

write-Reads :
    (v : Utf8StreamValidator) (p s : Bytes)
    → text_after [] v.tail ≡ is_empty v.tail
    → ((not (write v p).invalid && text_after [] ((write v p).tail ++ s))
        ≡ (not v.invalid && text_after [] (v.tail ++ (p ++ s))))
      × (text_after [] (write v p).tail ≡ is_empty (write v p).tail)
unfolding write
write-Reads v p s settled =
    if_cases
      (λ u.
        ((not u.invalid && text_after [] (u.tail ++ s))
          ≡ (not v.invalid && text_after [] (v.tail ++ (p ++ s))))
        × (text_after [] u.tail ≡ is_empty u.tail))
      v.invalid v (scan (length (v.tail ++ p)) (v.tail ++ p)) (λ bad. (ground arith, settled))
      (λ good.
        let (reads, after) = scan-Reads (length (v.tail ++ p)) (v.tail ++ p) s (omega arith) in
        let joined : text_after [] ((v.tail ++ p) ++ s) ≡ text_after [] (v.tail ++ (p ++ s)) =
          ap (text_after []) (append_assoc v.tail p s) in
        (ground (arith, reads, joined), after))

write_all-Reads :
    (v : Utf8StreamValidator) (chunks : List Bytes)
    → text_after [] v.tail ≡ is_empty v.tail
    → valid (write_all v chunks) ≡ (not v.invalid && text_after [] (v.tail ++ concat chunks))
unfolding write_all valid
write_all-Reads v [] settled =
    sym (ap (λ b. not v.invalid && b) (ap (text_after []) (append-nil v.tail) ∙ settled))
write_all-Reads v (p ∷ chunks) settled =
    let (reads, after) = write-Reads v p (concat chunks) settled in
    write_all-Reads (write v p) chunks after ∙ reads

-- The bytes that may follow the first of a rune are above 0.
abbrev AllPositive : List Range → Type 0
AllPositive [] = Unit {0}
AllPositive (r ∷ q) = (0 < r.low) × AllPositive q

following-AllPositive : (b : ℕ) (q : List Range) → following b ≡ some q → AllPositive q
unfolding following
following-AllPositive b q e = ground arith

text_after-valid_after :
    (q : List Range) (p : Bytes)
    → AllPositive q
    → text_after q p ≡ (valid_after q p && not (has_nul p))
unfolding text_after valid_after has_nul
text_after-valid_after [] [] a = refl
text_after-valid_after (r ∷ q) [] a = refl
text_after-valid_after [] (b ∷ p) a = elim (Option-cases (following b)) [
  | inl e ↦ ground arith
  | inr (q, e) ↦ ground (arith, text_after-valid_after q p (following-AllPositive b q e))
]
text_after-valid_after (r ∷ q) (b ∷ p) a = ground (arith, text_after-valid_after q p a.1)

-- However a text is cut into chunks, the validator that has read them all tells whether the whole is
-- valid UTF-8 without a byte 0.
pub write_all-valid :
    (chunks : List Bytes) → valid (write_all new_validator chunks) ≡ valid_text (concat chunks)
unfolding new_validator valid_text valid_string
write_all-valid chunks =
    write_all-Reads new_validator chunks text_after-nil
    ∙ text_after-valid_after [] (concat chunks) tt
