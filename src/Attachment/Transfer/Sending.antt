-- ===== src/Attachment/Transfer/Sending.antt =====
-- internal/attachment/transfer.go: the parts of a file, sent in order.
use mathlib.Core.Path.{subst}
use mathlib.Core.List.{append_assoc, append-nil}
use vibe_bridge.Base.{
  ℕ, ◌+◌, ◌^◌, ◌≡◌, ◌≤◌, ◌<◌, refl, ap, sym, ◌∙◌, true, false, ◌||◌, List, [], ◌∷◌, ◌++◌, none,
  some, Bytes, ok, arith, length, length-append, concat, All,
}
use vibe_bridge.Base.Map.{lookup, insert, lookup-insert}
use vibe_bridge.Attachment.Upload.{
  sha256_size, ChunkRequest, ManagerLimits, ActiveTransfer, Manager, Directory, Surroundings,
  valid_transfer_id, equal_hash,
}
use vibe_bridge.Attachment.Receive.{check_chunk, advance, chunk_checked, chunk}
use vibe_bridge.Attachment.Transfer.Honesty.{Honest, advance-Honest}

-- The parts of a file, sent in order with their checksums.
unfoldable pub send_all : Surroundings → Directory → Bytes → ℕ → Manager → List Bytes → Manager
send_all w d id offset m [] = m
send_all w d id offset m (part ∷ parts) =
    let r : ChunkRequest = record {
      transfer_id = id;
      offset_bytes = offset;
      content = part;
      chunk_sha256 = w.sha256 part;
    } in
    send_all w d id (offset + length part) (chunk w m d r).0 parts

-- A directory on which nothing fails.
pub record Sound (d : Directory) : Type 0 where
  pub writes : d.write_fails ≡ false
  pub renames : d.rename_fails ≡ false

-- A part that fits into a chunk.
abbrev pub Fits : ManagerLimits → Bytes → Type 0
Fits l part = (0 < length part) × (length part ≤ l.max_chunk_bytes)

-- Where a transfer stands.
pub record Under (id : Bytes) (l : ManagerLimits) (m : Manager) (t : ActiveTransfer) : Type 0 where
  pub fixed : m.limits ≡ l
  pub open_still : (m.closed || m.closing) ≡ false
  pub found : lookup id m.active ≡ some t
  pub new : lookup id m.completed ≡ none
  pub honest : Honest l t

chunk-advances :
    (w : Surroundings) (m : Manager) (d : Directory) (id : Bytes) (l : ManagerLimits)
    (t : ActiveTransfer) (part : Bytes)
    → ((b : Bytes) → length (w.sha256 b) ≡ sha256_size)
    → d.write_fails ≡ false
    → l.max_file_bytes < 2 ^ 64
    → valid_transfer_id id ≡ true
    → Fits l part
    → t.received_bytes + length part ≤ t.total_size
    → Under id l m t
    → let r : ChunkRequest = record {
      transfer_id = id;
      offset_bytes = t.received_bytes;
      content = part;
      chunk_sha256 = w.sha256 part;
    } in
      chunk w m d r ≡ (record m { active = insert id (advance t part) m.active }, ok tt)
unfolding chunk chunk_checked check_chunk equal_hash
chunk-advances w m d id l t part full writes word valid_id fits room u =
    ground (arith, full part, u.fixed, u.open_still, u.found, writes)

-- The transfer after some parts.
pub advance_all : ActiveTransfer → List Bytes → ActiveTransfer
advance_all t [] = t
advance_all t (part ∷ parts) = advance_all (advance t part) parts

-- What the parts leave of the transfer.
abbrev pub Grown : ActiveTransfer → Bytes → ActiveTransfer → Type 0
Grown t content t' =
    (t'.hashed ≡ t.hashed ++ content)
    × (t'.total_size ≡ t.total_size)
    × (t'.expected_sha256 ≡ t.expected_sha256)
    × (t'.policy ≡ t.policy)
    × (t'.transfer_id ≡ t.transfer_id)
    × (t'.display_name ≡ t.display_name)
    × (t'.storage_prefix ≡ t.storage_prefix)

pub advance_all-Grown :
    (t : ActiveTransfer) (parts : List Bytes) → Grown t (concat parts) (advance_all t parts)
unfolding advance_all advance
advance_all-Grown t [] = (sym (append-nil t.hashed), refl, refl, refl, refl, refl, refl)
advance_all-Grown t (part ∷ parts) =
    let (hashed, size, sum, policy, id, name, prefix) = advance_all-Grown (advance t part) parts in
    (hashed ∙ append_assoc t.hashed part (concat parts), size, sum, policy, id, name, prefix)

advance-Under :
    (id : Bytes) (l : ManagerLimits) (m : Manager) (t : ActiveTransfer) (part : Bytes)
    → l.max_file_bytes < 2 ^ 64
    → t.received_bytes + length part ≤ t.total_size
    → Under id l m t
    → Under id l (record m { active = insert id (advance t part) m.active }) (advance t part)
advance-Under id l m t part word room u = record {
  fixed = u.fixed;
  open_still = u.open_still;
  found = ground (arith, lookup-insert id id (advance t part) m.active);
  new = u.new;
  honest = advance-Honest l t part word (ground (arith, u.honest.bounded)) u.honest;
}

advance-received :
    (t : ActiveTransfer) (part : Bytes)
    → t.received_bytes + length part < 2 ^ 64
    → (advance t part).received_bytes ≡ t.received_bytes + length part
unfolding advance
advance-received t part word = omega arith

advance-room :
    (t : ActiveTransfer) (part : Bytes) (parts : List Bytes)
    → (advance t part).received_bytes ≡ t.received_bytes + length part
    → t.received_bytes + length (concat (part ∷ parts)) ≤ t.total_size
    → (advance t part).received_bytes + length (concat parts) ≤ (advance t part).total_size
unfolding advance
advance-room t part parts at room = omega (arith, at, length-append part (concat parts))

pub send_all-Under :
    (w : Surroundings) (d : Directory) (id : Bytes) (l : ManagerLimits) (m : Manager)
    (t : ActiveTransfer) (parts : List Bytes)
    → ((b : Bytes) → length (w.sha256 b) ≡ sha256_size)
    → d.write_fails ≡ false
    → l.max_file_bytes < 2 ^ 64
    → valid_transfer_id id ≡ true
    → All (Fits l) parts
    → t.received_bytes + length (concat parts) ≤ t.total_size
    → Under id l m t
    → Under id l (send_all w d id t.received_bytes m parts) (advance_all t parts)
unfolding send_all advance_all
send_all-Under w d id l m t [] full writes word valid_id fit room u = u
send_all-Under w d id l m t (part ∷ parts) full writes word valid_id fit room u =
    let long : length (part ++ concat parts) ≡ length part + length (concat parts) =
      length-append part (concat parts) in
    let fits : t.received_bytes + length part ≤ t.total_size = omega (arith, long, room) in
    let one = chunk-advances w m d id l t part full writes word valid_id fit.0 fits u in
    let m' : Manager = record m { active = insert id (advance t part) m.active } in
    let at = advance-received t part (ground (arith, u.honest.small)) in
    let rest =
      send_all-Under w d id l m' (advance t part) parts full writes word valid_id fit.1
        (advance-room t part parts at room) (advance-Under id l m t part word fits u) in
    let end = advance_all (advance t part) parts in
    subst (λ q. Under id l (send_all w d id (t.received_bytes + length part) q parts) end)
      (sym (ap (λ q. q.0) one)) (subst (λ o. Under id l (send_all w d id o m' parts) end) at rest)
