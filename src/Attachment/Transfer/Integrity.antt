-- ===== src/Attachment/Transfer/Integrity.antt =====
-- internal/attachment/transfer.go: what a completed attachment is, in terms of the chunks received.
use vibe_bridge.Base.{◌^◌, ◌≡◌, ◌<◌, refl, [], Bytes, ok, arith}
use vibe_bridge.Base.Map.{AllEntries}
use vibe_bridge.Attachment.Text.Stream.{write_all}
use vibe_bridge.Attachment.Content.{ContentPolicy}
use vibe_bridge.Attachment.Upload.{BeginRequest, ManagerLimits, Manager, Surroundings}
use vibe_bridge.Attachment.Receive.{started, check_begin}
use vibe_bridge.Attachment.Transfer.Limits.{Quota, check_begin-ok}
use vibe_bridge.Attachment.Transfer.Honesty.{Texted, Honest, Verified}

record Integrity (w : Surroundings) (l : ManagerLimits) (m : Manager) : Type 0 where
  fixed : m.limits ≡ l
  word : l.max_file_bytes < 2 ^ 64
  transfers : AllEntries (λ k t. Honest l t) m.active
  records : AllEntries (λ k c. Verified w c) m.completed

pub started-Honest :
    (w : Surroundings) (l : ManagerLimits) (m : Manager) (r : BeginRequest) (policy : ContentPolicy)
    (prefix : Bytes)
    → m.limits ≡ l
    → check_begin w m r ≡ ok policy
    → Honest l (started r policy prefix)
unfolding Texted write_all
started-Honest w l m r policy prefix fixed fine =
    let (new, fresh, room, quota, positive, small, full) = check_begin-ok w m r policy fine in
    record {
      small = ground (arith, small, fixed);
      counted = refl;
      bounded = omega arith;
      sniffed = refl;
      texted = ([], refl, λ h. refl);
    }
