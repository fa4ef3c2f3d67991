-- ===== src/Server/Replay/Runs.antt =====
-- internal/server/replay_buffer.go: any sequence of appends and drains.
use vibe_bridge.Base.{
  ℕ, ◌≤◌, ◌≡◌, ◌≢◌, refl, sym, ap, ◌∙◌, true, ◌||◌, List, [], ◌∷◌, ◌++◌, Bytes, arith, ltb, ◌==◌,
  if_cases, length, length-append, map, Bool-cases, inl, inr, concat,
}
use mathlib.Core.List.{append-nil}
use vibe_bridge.Server.Replay.{
  BufferedOutput, ReplayBuffer, new_replay_buffer, prune_entries, prune_expired, given_up,
  trim_entries, newest, entry, with_entry, add_entry, append, snapshot, drain_with_status,
}
use vibe_bridge.Server.Replay.Suffix.{
  EndOf, contents, contents-append, trim_entries_bounded, prune_expired-EndOf, nothing,
}
use vibe_bridge.Server.Replay.History.{add_long-EndOf, add_short-EndOf}

-- The buffer against what was received since the last drain.
pub record Inv (history : Bytes) (b : ReplayBuffer) : Type 0 where
  pub end : EndOf history b
  pub bounded : b.bytes ≤ b.max_bytes
  pub disabled : b.max_age ≡ 0 → b.entries ≡ []

new_replay_buffer-Inv : (max_bytes max_age : ℕ) → Inv [] (new_replay_buffer max_bytes max_age)
unfolding new_replay_buffer
new_replay_buffer-Inv max_bytes max_age = record {
  end = record { lost = []; whole = refl; nothing_lost = λ t. refl; exact = refl };
  bounded = omega arith;
  disabled = λ z. refl;
}

-- Pruning leaves the limits alone and adds no byte.
prune_entries_keeps :
    (max_age now : ℕ) (b : ReplayBuffer) (es : List BufferedOutput)
    → let q = prune_entries max_age now b es in
      (q.bytes ≤ b.bytes) × (q.max_bytes ≡ b.max_bytes) × (q.max_age ≡ b.max_age)
unfolding prune_entries
prune_entries_keeps max_age now b [] = (omega arith, refl, refl)
prune_entries_keeps max_age now b (e ∷ es) =
    ground (arith, prune_entries_keeps max_age now (given_up b e) es)

prune_entries_none :
    (max_age now : ℕ) (b : ReplayBuffer) → (prune_entries max_age now b []).entries ≡ []
unfolding prune_entries
prune_entries_none max_age now b = refl

prune_expired-Inv :
    (history : Bytes) (b : ReplayBuffer) (now : ℕ)
    → Inv history b
    → Inv history (prune_expired b now)
unfolding prune_expired
prune_expired-Inv history b now v =
    let (fewer, limit, age) = prune_entries_keeps b.max_age now b b.entries in
    record {
      end = prune_expired-EndOf history b now v.end;
      bounded = omega (arith, v.bounded, fewer, limit);
      disabled = λ z. rw (v.disabled (sym age ∙ z)) (prune_entries_none b.max_age now b);
    }

trim_entries_age :
    (b : ReplayBuffer) (es : List BufferedOutput) → (trim_entries b es).max_age ≡ b.max_age
unfolding trim_entries
trim_entries_age b [] = refl
trim_entries_age b (e ∷ es) = ground (arith, trim_entries_age (given_up b e) es)

with_entry-exact :
    (history content : Bytes) (b : ReplayBuffer) (now : ℕ)
    → EndOf history b
    → (with_entry b content now).bytes ≡ length (contents (with_entry b content now).entries)
unfolding with_entry
with_entry-exact history content b now h = omega (
  arith,
  h.exact,
  ap length (contents-append b.entries (entry b.max_bytes content now ∷ [])),
  ap length (append-nil (newest b.max_bytes content)),
  length-append (contents b.entries) (newest b.max_bytes content ++ []),
)

with_entry_limits :
    (content : Bytes) (b : ReplayBuffer) (now : ℕ)
    → ((with_entry b content now).max_bytes ≡ b.max_bytes)
      × ((with_entry b content now).max_age ≡ b.max_age)
unfolding with_entry
with_entry_limits content b now = (refl, refl)

add_entry-Inv :
    (history content : Bytes) (b : ReplayBuffer) (now : ℕ)
    → b.max_age ≢ 0
    → Inv history b
    → Inv (history ++ content) (add_entry b content now)
add_entry-Inv history content b now aged v =
    let added = with_entry b content now in
    let (bytes, age) = with_entry_limits content b now in
    let (under, same) =
      trim_entries_bounded added added.entries (with_entry-exact history content b now v.end) in
    record {
      end = elim (Bool-cases (ltb b.max_bytes (length content))) [
        | inl long ↦ add_long-EndOf history content b now long v.end
        | inr short ↦ add_short-EndOf history content b now short v.end
      ];
      bounded = unfold add_entry in omega (arith, under, same, bytes);
      disabled = λ z.
          absurd
            (aged (unfold add_entry in sym age ∙ sym (trim_entries_age added added.entries) ∙ z));
    }

-- With a limit of 0 nothing is kept.
off_empty :
    (history : Bytes) (b : ReplayBuffer)
    → (b.max_bytes == 0 || b.max_age == 0) ≡ true
    → Inv history b
    → contents b.entries ≡ []
off_empty history b off v = elim (Bool-cases (b.max_age == 0)) [
  | inl ageless ↦ ap contents (v.disabled (ground arith))
  | inr aged ↦ nothing (contents b.entries) (ground (arith, v.bounded, v.end.exact))
]

prune_expired_age : (b : ReplayBuffer) (now : ℕ) → (prune_expired b now).max_age ≡ b.max_age
unfolding prune_expired
prune_expired_age b now = (prune_entries_keeps b.max_age now b b.entries).2

prune_expired_limit : (b : ReplayBuffer) (now : ℕ) → (prune_expired b now).max_bytes ≡ b.max_bytes
unfolding prune_expired
prune_expired_limit b now = (prune_entries_keeps b.max_age now b b.entries).1

pub append-Inv :
    (history content : Bytes) (b : ReplayBuffer) (now : ℕ)
    → Inv history b
    → Inv (history ++ content) (append b content now)
unfolding append
append-Inv history [] b now v = rw (append-nil history) v
append-Inv history (x ∷ c) b now v =
    if_cases (Inv (history ++ x ∷ c)) (b.max_bytes == 0 || b.max_age == 0) _ _
      (λ off.
        let none_kept : contents b.entries ≡ [] = off_empty history b off v in
        record {
          end = record {
            lost = history ++ x ∷ c;
            whole = rw none_kept (sym (append-nil (history ++ x ∷ c)));
            nothing_lost = λ t. cc;
            exact = v.end.exact;
          };
          bounded = v.bounded;
          disabled = v.disabled;
        })
      (λ on.
        let same : (prune_expired b now).max_age ≡ b.max_age = prune_expired_age b now in
        add_entry-Inv history (x ∷ c) (prune_expired b now) now (ground arith)
          (prune_expired-Inv history b now v))

concat-snapshot : (es : List BufferedOutput) → concat (map (λ e. e.content) es) ≡ contents es
concat-snapshot [] = refl
concat-snapshot (e ∷ es) = ap (◌++◌ e.content) (concat-snapshot es)

drain-Inv :
    (history : Bytes) (b : ReplayBuffer) (now : ℕ)
    → Inv history b
    → Inv [] (drain_with_status b now).buffer
unfolding drain_with_status
drain-Inv history b now v = record {
  end = record { lost = []; whole = refl; nothing_lost = λ t. refl; exact = refl };
  bounded = omega arith;
  disabled = λ z. refl;
}

pub data Op : Type 0 where
  appends : Bytes → ℕ → Op
  drains : ℕ → Op

-- The buffer, with what was appended since the last drain.
unfoldable pub run : Bytes → ReplayBuffer → List Op → Bytes × ReplayBuffer
run history b [] = (history, b)
run history b (appends content now ∷ ops) = run (history ++ content) (append b content now) ops
run history b (drains now ∷ ops) = run [] (drain_with_status b now).buffer ops

run-Inv :
    (history : Bytes) (b : ReplayBuffer) (ops : List Op)
    → Inv history b
    → Inv (run history b ops).0 (run history b ops).1
unfolding run
run-Inv history b [] v = v
run-Inv history b (appends content now ∷ ops) v =
    run-Inv (history ++ content) (append b content now) ops (append-Inv history content b now v)
run-Inv history b (drains now ∷ ops) v =
    run-Inv [] (drain_with_status b now).buffer ops (drain-Inv history b now v)

-- Whatever was appended and drained before, a drain gives the end of what was appended since the
-- last drain, in order and at most `max_bytes` of it; if it calls itself complete it gives all of
-- it; and it leaves the buffer empty.
pub drain_replays :
    (max_bytes max_age : ℕ) (ops : List Op) (now : ℕ)
    → let (history, b) = run [] (new_replay_buffer max_bytes max_age) ops in
      let d = drain_with_status b now in
      (lost : Bytes) × (history ≡ lost ++ concat d.output)
      × (d.complete ≡ true → concat d.output ≡ history)
      × (length (concat d.output) ≤ b.max_bytes)
      × (d.buffer.entries ≡ [])
unfolding drain_with_status snapshot
drain_replays max_bytes max_age ops now =
    let (history, b) = run [] (new_replay_buffer max_bytes max_age) ops in
    let v = prune_expired-Inv history b now (
      run-Inv [] (new_replay_buffer max_bytes max_age) ops
        (new_replay_buffer-Inv max_bytes max_age)) in
    let all = concat-snapshot (prune_expired b now).entries in
    (
      v.end.lost,
      rw all v.end.whole,
      λ c.
          all
          ∙ sym (
              v.end.whole
              ∙ ap (λ l. l ++ contents (prune_expired b now).entries)
                  (v.end.nothing_lost (ground (arith, c)))),
      omega (arith, ap length all, v.end.exact, v.bounded, prune_expired_limit b now),
      refl,
    )
