-- ===== src/Server/Replay.antt =====
-- internal/server/replay_buffer.go: the terminal output kept for a client that comes back, bounded
-- in bytes and in age. Times and ages are nanoseconds, and an operation takes the clock's reading.
-- A limit that is not positive is 0: the code tests it in `append` before anything is stored.
pub mod Suffix
pub mod History
pub mod Runs
pub mod Examples
use vibe_bridge.Base.{
  ℕ, ◌+◌, ◌-◌, Bool, true, false, not, ◌||◌, List, [], ◌∷◌, ◌++◌, Bytes, ltb, leb, ◌==◌,
  if◌then◌else◌, length, drop, is_empty, map,
}

pub record BufferedOutput : Type 0 where
  pub content : Bytes
  pub received_at : ℕ

pub record ReplayBuffer : Type 0 where
  pub max_bytes : ℕ
  pub max_age : ℕ
  pub entries : List BufferedOutput
  pub bytes : ℕ
  pub truncated : Bool

pub new_replay_buffer : ℕ → ℕ → ReplayBuffer
new_replay_buffer max_bytes max_age = record {
  max_bytes = max_bytes;
  max_age = max_age;
  entries = [];
  bytes = 0;
  truncated = false;
}

-- `receivedAt.Before(now.Add(-maxAge))`.
abbrev pub stale : ℕ → ℕ → BufferedOutput → Bool
stale max_age now e = ltb (e.received_at + max_age) now

-- The oldest entry is given up whole.
abbrev pub given_up : ReplayBuffer → BufferedOutput → ReplayBuffer
given_up b e = record b { truncated = true; bytes = b.bytes - length e.content }

-- The loop of `pruneExpired`, over the entries that are left.
pub prune_entries : ℕ → ℕ → ReplayBuffer → List BufferedOutput → ReplayBuffer
prune_entries max_age now b [] = record b { entries = [] }
prune_entries max_age now b (e ∷ es) =
    let rest = prune_entries max_age now (given_up b e) es in
    if stale max_age now e then rest else record b { entries = e ∷ es }

pub prune_expired : ReplayBuffer → ℕ → ReplayBuffer
unfolding prune_entries
prune_expired b now = prune_entries b.max_age now b b.entries

-- The loop of `append` that gives up the oldest bytes.
pub trim_entries : ReplayBuffer → List BufferedOutput → ReplayBuffer
trim_entries b [] = record b { entries = [] }
trim_entries b (e ∷ es) =
    let overflow = b.bytes - b.max_bytes in
    let rest = trim_entries (given_up b e) es in
    if leb b.bytes b.max_bytes
    then record b { entries = e ∷ es }
    else if ltb overflow (length e.content)
    then record b {
      truncated = true;
      bytes = b.bytes - overflow;
      entries = record e { content = drop overflow e.content } ∷ es;
    }
    else rest

-- The newest bytes of an output that alone is too long.
abbrev pub newest : ℕ → Bytes → Bytes
newest max_bytes content =
    if ltb max_bytes (length content) then drop (length content - max_bytes) content else content

abbrev pub entry : ℕ → Bytes → ℕ → BufferedOutput
entry max_bytes content now = record { content = newest max_bytes content; received_at = now }

-- The new entry stands behind the others, before the oldest bytes are given up.
pub with_entry : ReplayBuffer → Bytes → ℕ → ReplayBuffer
with_entry b content now = record b {
  truncated = b.truncated || ltb b.max_bytes (length content);
  entries = b.entries ++ (entry b.max_bytes content now ∷ []);
  bytes = b.bytes + length (newest b.max_bytes content);
}

pub add_entry : ReplayBuffer → Bytes → ℕ → ReplayBuffer
add_entry b content now = let added = with_entry b content now in trim_entries added added.entries

pub append : ReplayBuffer → Bytes → ℕ → ReplayBuffer
append b content now =
    if is_empty content
    then b
    else if b.max_bytes == 0 || b.max_age == 0
    then record b { truncated = true }
    else add_entry (prune_expired b now) content now

pub snapshot : ReplayBuffer → List Bytes
snapshot b = map (λ e. e.content) b.entries

pub record Drained : Type 0 where
  pub buffer : ReplayBuffer
  pub output : List Bytes
  pub complete : Bool

pub drain_with_status : ReplayBuffer → ℕ → Drained
unfolding snapshot
drain_with_status b now =
    let pruned = prune_expired b now in
    record {
      buffer = record pruned { entries = []; bytes = 0; truncated = false };
      output = snapshot pruned;
      complete = not pruned.truncated;
    }

-- `drain`, without the status.
pub drain : ReplayBuffer → ℕ → ReplayBuffer × List Bytes
unfolding drain_with_status
drain b now = let d = drain_with_status b now in (d.buffer, d.output)
