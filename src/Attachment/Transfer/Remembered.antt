-- ===== src/Attachment/Transfer/Remembered.antt =====
-- internal/attachment/transfer.go: the cancelled outcomes that are remembered.
use vibe_bridge.Base.{◌≡◌, Bytes, Result, ok}
use vibe_bridge.Attachment.Upload.{Error, cancelled_transfer, Manager}
use vibe_bridge.Attachment.Finish.{outcome}
use vibe_bridge.Attachment.Transfer.Limits.{Quota}

abbrev Told : Bytes → Manager × Result Error (Unit {0}) → Type 0
Told id q = q.1 ≡ ok tt → outcome q.0 id ≡ ok cancelled_transfer
