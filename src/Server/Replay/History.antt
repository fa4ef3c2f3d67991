-- ===== src/Server/Replay/History.antt =====
-- internal/server/replay_buffer.go: the buffer against all that was ever appended.
use vibe_bridge.Base.{
  ℕ, ◌-◌, ◌≡◌, sym, ap, ◌∙◌, true, false, [], ◌∷◌, ◌++◌, Bytes, arith, ltb, length, length-append,
  length-drop,
}
use mathlib.Core.List.{append_assoc, append-nil}
use vibe_bridge.Server.Replay.{ReplayBuffer, newest, entry, with_entry, add_entry}
use vibe_bridge.Server.Replay.Suffix.{
  EndOf, contents, contents-append, trim_entries-EndOf, trim_to_last, older, older-append-newest,
}

newest_full : (n : ℕ) (c : Bytes) → ltb n (length c) ≡ true → length (newest n c) ≡ n
newest_full n c h = ground (arith, length-drop (length c - n) c)

-- An output longer than the limit replaces all that was kept, with its own newest bytes.
pub add_long-EndOf :
    (history content : Bytes) (b : ReplayBuffer) (now : ℕ)
    → ltb b.max_bytes (length content) ≡ true
    → EndOf history b
    → EndOf (history ++ content) (add_entry b content now)
unfolding add_entry with_entry
add_long-EndOf history content b now long h =
    let (holds, bytes, more) =
      trim_to_last (with_entry b content now) b.entries (entry b.max_bytes content now)
        (ground arith) (newest_full b.max_bytes content long) (omega (arith, h.exact)) in
    record {
      lost = history ++ older b.max_bytes content;
      whole = rw holds (
          ap (◌++◌ history) (sym (older-append-newest b.max_bytes content))
          ∙ sym (append_assoc history (older b.max_bytes content) (newest b.max_bytes content)));
      nothing_lost = λ t. cc;
      exact = rw holds bytes;
    }

pub add_short-EndOf :
    (history content : Bytes) (b : ReplayBuffer) (now : ℕ)
    → ltb b.max_bytes (length content) ≡ false
    → EndOf history b
    → EndOf (history ++ content) (add_entry b content now)
unfolding add_entry with_entry
add_short-EndOf history content b now short h =
    let all : newest b.max_bytes content ≡ content = ground arith in
    let kept = contents-append b.entries (entry b.max_bytes content now ∷ []) in
    trim_entries-EndOf (history ++ content) (with_entry b content now)
      (b.entries ++ (entry b.max_bytes content now ∷ []))
      (record {
        lost = h.lost;
        whole =
            rw (kept, all, append-nil content)
              (ap (λ l. l ++ content) h.whole ∙ append_assoc h.lost (contents b.entries) content);
        nothing_lost = λ t. h.nothing_lost (ground arith);
        exact = omega (
          arith,
          h.exact,
          ap length kept,
          ap length (append-nil (newest b.max_bytes content)),
          length-append (contents b.entries) (newest b.max_bytes content ++ []),
        );
      })
