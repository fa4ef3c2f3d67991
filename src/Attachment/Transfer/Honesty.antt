-- ===== src/Attachment/Transfer/Honesty.antt =====
-- internal/attachment/transfer.go: what an active transfer knows of its content.
use mathlib.Core.Path.{subst}
use vibe_bridge.Base.{
  ◌+◌, ◌-◌, ◌%◌, ◌^◌, ◌≡◌, ◌≤◌, ◌<◌, refl, ap, sym, ◌∙◌, true, List, [], ◌∷◌, ◌++◌, Bytes, ok,
  Option-cases, inl, inr, arith, length, length-append, take, take-append, concat, concat-append,
}
use vibe_bridge.Base.Map.{lookup}
use vibe_bridge.Attachment.Text.{Utf8StreamValidator, new_validator, write, valid}
use vibe_bridge.Attachment.Text.Stream.{write_all, write_all-valid, valid_text}
use vibe_bridge.Attachment.Content.{ContentPolicy, matches_bytes}
use vibe_bridge.Attachment.Content.Binary.{matches_bytes-same}
use vibe_bridge.Attachment.Upload.{
  content_sniff_bytes, ChunkRequest, CompletedAttachment, ManagerLimits, ActiveTransfer, Manager,
  Surroundings, equal_hash, minus,
}
use vibe_bridge.Attachment.Receive.{check_chunk, advance}
use vibe_bridge.Attachment.Finish.{verify_transfer, published}

-- The validator of a text transfer has read the chunks of which the content is made.
unfoldable pub Texted : ActiveTransfer → Type 0
Texted t =
    (parts : List Bytes) × (concat parts ≡ t.hashed)
    × (t.policy.text ≡ true → t.text ≡ write_all new_validator parts)

-- What an active transfer knows of the content received.
pub record Honest (l : ManagerLimits) (t : ActiveTransfer) : Type 0 where
  pub small : t.total_size ≤ l.max_file_bytes
  pub counted : t.received_bytes ≡ length t.hashed
  pub bounded : t.received_bytes ≤ t.total_size
  pub sniffed : t.sniff ≡ take content_sniff_bytes t.hashed
  pub texted : Texted t

pub check_chunk-ok :
    (w : Surroundings) (m : Manager) (r : ChunkRequest) (t : ActiveTransfer)
    → check_chunk w m r ≡ ok t
    → (length r.content ≤ minus t.total_size t.received_bytes)
      × (r.offset_bytes ≡ t.received_bytes)
      × (0 < length r.content)
unfolding check_chunk
check_chunk-ok w m r t e = elim (Option-cases (lookup r.transfer_id m.active)) [
  | inl h ↦ absurd (ground arith)
  | inr (t', h) ↦ ground arith
]

write_all-append :
    (v : Utf8StreamValidator) (parts : List Bytes) (c : Bytes)
    → write_all v (parts ++ c ∷ []) ≡ write (write_all v parts) c
unfolding write_all
write_all-append v [] c = refl
write_all-append v (p ∷ parts) c = write_all-append (write v p) parts c

advance-Texted : (t : ActiveTransfer) (c : Bytes) → Texted t → Texted (advance t c)
unfolding Texted advance
advance-Texted t c (parts, same, read) = (
  parts ++ c ∷ [],
  concat-append parts c ∙ ap (λ l. l ++ c) same,
  λ h. ground (arith, read h, write_all-append new_validator parts c),
)

pub advance-Honest :
    (l : ManagerLimits) (t : ActiveTransfer) (c : Bytes)
    → l.max_file_bytes < 2 ^ 64
    → length c ≤ minus t.total_size t.received_bytes
    → Honest l t
    → Honest l (advance t c)
unfolding advance
advance-Honest l t c word fits h =
    let no_wrap : (t.received_bytes + length c) % 2 ^ 64 ≡ t.received_bytes + length c =
      ground (arith, h.small, h.bounded) in
    record {
      small = h.small;
      counted = no_wrap ∙ ground (arith, h.counted, length-append t.hashed c);
      bounded = ground (arith, no_wrap, h.bounded);
      sniffed =
          subst
            (λ s.
              s ++ take (content_sniff_bytes - length s) c
              ≡ take content_sniff_bytes (t.hashed ++ c))
            (sym h.sniffed) (take-append content_sniff_bytes t.hashed c);
      texted = advance-Texted t c h.texted;
    }

-- What a completed attachment was verified to be.
abbrev pub Verified : Surroundings → CompletedAttachment → Type 0
Verified w c =
    (content : Bytes) × (p : ContentPolicy) × (length content ≡ c.size_bytes)
    × (w.sha256 content ≡ c.sha256)
    × (p.content_type ≡ c.content_type)
    × (p.extension ≡ c.extension)
    × (matches_bytes w.mime p (take content_sniff_bytes content) c.size_bytes (valid_text content)
        ≡ true)

pub verify_transfer-ok :
    (w : Surroundings) (t : ActiveTransfer)
    → verify_transfer w t ≡ ok tt
    → (t.received_bytes ≡ t.total_size)
      × (w.sha256 t.hashed ≡ t.expected_sha256)
      × (matches_bytes w.mime t.policy t.sniff t.total_size (valid t.text) ≡ true)
unfolding verify_transfer equal_hash
verify_transfer-ok w t e = ground arith

pub valid-Texted :
    (t : ActiveTransfer) → Texted t → t.policy.text ≡ true → valid t.text ≡ valid_text t.hashed
unfolding Texted
valid-Texted t (parts, same, read) h =
    ap valid (read h) ∙ write_all-valid parts ∙ ap valid_text same

pub published-Verified :
    (w : Surroundings) (l : ManagerLimits) (t : ActiveTransfer) (path : Bytes)
    → verify_transfer w t ≡ ok tt
    → Honest l t
    → Verified w (published w t path)
published-Verified w l t path verified h =
    let (full, checksum, matching) = verify_transfer-ok w t verified in
    (
      t.hashed,
      t.policy,
      sym h.counted ∙ full,
      refl,
      refl,
      refl,
      subst (λ s. matches_bytes w.mime t.policy s t.total_size (valid_text t.hashed) ≡ true)
          h.sniffed
          (sym (
              matches_bytes-same w.mime t.policy t.sniff t.total_size (valid t.text)
                (valid_text t.hashed) (valid-Texted t h.texted))
            ∙ matching),
    )
