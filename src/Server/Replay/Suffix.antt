-- ===== src/Server/Replay/Suffix.antt =====
-- internal/server/replay_buffer.go: what is kept is the end of what was received.
use vibe_bridge.Base.{
  ℕ, ◌+◌, ◌-◌, ◌≤◌, ◌<◌, ◌≡◌, refl, sym, ap, ◌∙◌, true, false, List, [], ◌∷◌, ◌++◌, Bytes, arith,
  ltb, leb, if◌then◌else◌, if_cases, length, length-append, drop, take, length-drop,
  take-append-drop, Bool-cases, inl, inr,
}
use mathlib.Core.List.{append_assoc, append-nil}
use vibe_bridge.Server.Replay.{
  BufferedOutput, ReplayBuffer, stale, given_up, prune_entries, prune_expired, trim_entries, newest,
}

abbrev pub contents : List BufferedOutput → Bytes
contents [] = []
contents (e ∷ es) = e.content ++ contents es

pub contents-append :
    (xs ys : List BufferedOutput) → contents (xs ++ ys) ≡ contents xs ++ contents ys
contents-append [] ys = refl
contents-append (x ∷ xs) ys =
    rw (contents-append xs ys) (sym (append_assoc x.content (contents xs) (contents ys)))

-- The buffer holds the end of the history, and knows whether it holds it all.
pub record EndOf (history : Bytes) (b : ReplayBuffer) : Type 0 where
  pub lost : Bytes
  pub whole : history ≡ lost ++ contents b.entries
  pub nothing_lost : b.truncated ≡ false → lost ≡ []
  pub exact : b.bytes ≡ length (contents b.entries)

-- The same of a loop that holds the entries apart from the buffer.
pub record LoopEndOf (history : Bytes) (b : ReplayBuffer) (es : List BufferedOutput) : Type 0 where
  pub lost : Bytes
  pub whole : history ≡ lost ++ contents es
  pub nothing_lost : b.truncated ≡ false → lost ≡ []
  pub exact : b.bytes ≡ length (contents es)

settle :
    (history : Bytes) (b : ReplayBuffer) (es : List BufferedOutput)
    → LoopEndOf history b es
    → EndOf history (record b { entries = es })
settle history b es h = record {
  lost = h.lost;
  whole = h.whole;
  nothing_lost = h.nothing_lost;
  exact = h.exact;
}

-- One round of either loop: the oldest entry is given up.
give_up :
    (history : Bytes) (b : ReplayBuffer) (e : BufferedOutput) (es : List BufferedOutput)
    → LoopEndOf history b (e ∷ es)
    → LoopEndOf history (given_up b e) es
give_up history b e es h = record {
  lost = h.lost ++ e.content;
  whole = h.whole ∙ sym (append_assoc h.lost e.content (contents es));
  nothing_lost = λ t. cc;
  exact = omega (arith, h.exact, length-append e.content (contents es));
}

prune_entries-EndOf :
    (history : Bytes) (max_age now : ℕ) (b : ReplayBuffer) (es : List BufferedOutput)
    → LoopEndOf history b es
    → EndOf history (prune_entries max_age now b es)
unfolding prune_entries
prune_entries-EndOf history max_age now b [] h = settle history b [] h
prune_entries-EndOf history max_age now b (e ∷ es) h =
    if_cases (EndOf history) (stale max_age now e) _ _
      (λ old. prune_entries-EndOf history max_age now (given_up b e) es (give_up history b e es h))
      (λ current. settle history b (e ∷ es) h)

split_at : (n : ℕ) (xs ys zs : Bytes) → xs ++ (ys ++ zs) ≡ (xs ++ take n ys) ++ (drop n ys ++ zs)
split_at n xs ys zs = sym (
    append_assoc xs (take n ys) (drop n ys ++ zs)
    ∙ ap (◌++◌ xs)
        (sym (append_assoc (take n ys) (drop n ys) zs) ∙ ap (λ l. l ++ zs) (take-append-drop n ys)))

-- What is left after a cut inside the oldest entry.
cut :
    (history : Bytes) (b : ReplayBuffer) (e : BufferedOutput) (es : List BufferedOutput)
    (overflow : ℕ)
    → overflow < length e.content
    → LoopEndOf history b (e ∷ es)
    → EndOf history (record b {
      truncated = true;
      bytes = b.bytes - overflow;
      entries = record e { content = drop overflow e.content } ∷ es;
    })
cut history b e es overflow inside h = record {
  lost = h.lost ++ take overflow e.content;
  whole = h.whole ∙ split_at overflow h.lost e.content (contents es);
  nothing_lost = λ t. cc;
  exact = omega (
    arith,
    h.exact,
    length-append e.content (contents es),
    length-append (drop overflow e.content) (contents es),
    length-drop overflow e.content,
  );
}

pub trim_entries-EndOf :
    (history : Bytes) (b : ReplayBuffer) (es : List BufferedOutput)
    → LoopEndOf history b es
    → EndOf history (trim_entries b es)
unfolding trim_entries
trim_entries-EndOf history b [] h = settle history b [] h
trim_entries-EndOf history b (e ∷ es) h =
    if_cases (EndOf history) (leb b.bytes b.max_bytes) _ _ (λ fits. settle history b (e ∷ es) h)
      (λ over.
        if_cases (EndOf history) (ltb (b.bytes - b.max_bytes) (length e.content)) _ _
          (λ inside. cut history b e es (b.bytes - b.max_bytes) (ground arith) h)
          (λ past. trim_entries-EndOf history (given_up b e) es (give_up history b e es h)))

-- Nothing is over the limit after the loop.
pub trim_entries_bounded :
    (b : ReplayBuffer) (es : List BufferedOutput)
    → b.bytes ≡ length (contents es)
    → ((trim_entries b es).bytes ≤ b.max_bytes) × ((trim_entries b es).max_bytes ≡ b.max_bytes)
unfolding trim_entries
trim_entries_bounded b [] e = (omega (arith, e), refl)
trim_entries_bounded b (e ∷ es) x =
    let over =
      trim_entries_bounded (given_up b e) es
        (omega (arith, x, length-append e.content (contents es))) in
    ground (arith, over)

pub prune_expired-EndOf :
    (history : Bytes) (b : ReplayBuffer) (now : ℕ)
    → EndOf history b
    → EndOf history (prune_expired b now)
unfolding prune_expired
prune_expired-EndOf history b now h =
    prune_entries-EndOf history b.max_age now b b.entries
      (record { lost = h.lost; whole = h.whole; nothing_lost = h.nothing_lost; exact = h.exact })

-- What `newest` leaves out.
pub older : ℕ → Bytes → Bytes
older n c = if ltb n (length c) then take (length c - n) c else []

pub older-append-newest : (n : ℕ) (c : Bytes) → older n c ++ newest n c ≡ c
unfolding older
older-append-newest n c = elim (Bool-cases (ltb n (length c))) [
  | inl long ↦ rw long (take-append-drop (length c - n) c)
  | inr short ↦ rw short
]

pub length-newest : (n : ℕ) (c : Bytes) → length (newest n c) ≤ n
length-newest n c = ground (arith, length-drop (length c - n) c)

pub nothing : (xs : Bytes) → length xs ≡ 0 → xs ≡ []
nothing [] h = refl
nothing (x ∷ xs) h = absurd (omega arith)

-- The buffer holds one output and knows that there was more.
abbrev pub OnlyHolds : Bytes → ReplayBuffer → Type 0
OnlyHolds c q = (contents q.entries ≡ c) × (q.bytes ≡ length c) × (q.truncated ≡ true)

-- An output that alone fills the buffer pushes everything else out.
pub trim_to_last :
    (b : ReplayBuffer) (es : List BufferedOutput) (last : BufferedOutput)
    → b.truncated ≡ true
    → length last.content ≡ b.max_bytes
    → b.bytes ≡ length (contents es) + length last.content
    → OnlyHolds last.content (trim_entries b (es ++ (last ∷ [])))
unfolding trim_entries
trim_to_last b [] last t full x =
    if_cases (OnlyHolds last.content) (leb b.bytes b.max_bytes) _ _
      (λ fits. (append-nil last.content, omega arith, t)) (λ over. absurd (ground arith))
trim_to_last b (e ∷ es) last t full x =
    if_cases (OnlyHolds last.content) (leb b.bytes b.max_bytes) _ _
      (λ fits.
        let z : contents (e ∷ es) ≡ [] = nothing (contents (e ∷ es)) (ground arith) in
        (contents-append (e ∷ es) (last ∷ []) ∙ rw z (append-nil last.content), ground arith, t))
      (λ over.
        if_cases (OnlyHolds last.content) (ltb (b.bytes - b.max_bytes) (length e.content)) _ _
          (λ inside. absurd (ground (arith, length-append e.content (contents es))))
          (λ past.
            trim_to_last (given_up b e) es last refl full
              (omega (arith, length-append e.content (contents es)))))
