-- ===== src/Attachment/Content/Binary.antt =====
-- internal/attachment/content_policy.go: the answer of the text validator counts for texts only.
use vibe_bridge.Base.{ℕ, ◌≡◌, Bool, true, Bytes, arith}
use vibe_bridge.Attachment.Content.{ContentPolicy, Mime, matches_bytes}

pub matches_bytes-same :
    (mime : Mime) (p : ContentPolicy) (sniff : Bytes) (size : ℕ) (b c : Bool)
    → (p.text ≡ true → b ≡ c)
    → matches_bytes mime p sniff size b ≡ matches_bytes mime p sniff size c
unfolding matches_bytes
matches_bytes-same mime p sniff size b c h = ground (arith, h)
