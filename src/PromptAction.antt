-- ===== src/PromptAction.antt =====
-- internal/promptaction/registry.go: the idempotency registry of one PTY session. An operation
-- returns the registry that it leaves. `*Registry` is an `Option`, with `none` for nil; the body
-- that runs under the lock is the function ending in `_locked`. SHA-256 is a parameter. A `State`
-- outside the four constants is never stored, so the `default` branches that answer it are left
-- out.
pub mod Digest
pub mod Invariant
pub mod Once
pub mod Content
pub mod Examples
use vibe_bridge.Base.{
  ℕ, ◌+◌, ◌-◌, ◌*◌, ◌/◌, ◌%◌, ◌^◌, Bool, true, false, not, ◌&&◌, List, [], ◌∷◌, ◌++◌, Option, none,
  some, Bytes, dec_bytes, ite, ltb, leb, if◌then◌else◌, length, Result, ok, err, is_empty,
}
use vibe_bridge.Base.Map.{lookup, insert}
use vibe_bridge.Base.Utf8.{valid_string}

abbrev pub default_max_tracked_actions : ℕ
default_max_tracked_actions = 4096

abbrev pub default_max_pending_actions : ℕ
default_max_pending_actions = 16

abbrev pub default_max_action_id_bytes : ℕ
default_max_action_id_bytes = 64

abbrev pub default_max_preview_bytes : ℕ
default_max_preview_bytes = 48 * 1024

abbrev pub default_max_terminal_input_bytes : ℕ
default_max_terminal_input_bytes = default_max_preview_bytes + 1

-- `write_failed` is the wrapped error of the writer.
pub data Error : Type 0 where
  invalid_action pending_action_limit tracked_action_limit action_conflict : Error
  action_not_found action_cancelled action_committed action_commit_failed : Error
  registry_closed write_failed : Error

pub data State : Type 0 where
  prepared committed cancelled commit_failed : State

pub record Action : Type 0 where
  pub preview : Bytes
  pub terminal_input : Bytes

pub record PrepareResult : Type 0 where
  pub state : State
  pub preview : Bytes

pub record RegistryEntry : Type 0 where
  pub digest : Bytes
  pub state : State
  pub preview : Bytes
  pub terminal_input : Bytes

pub record Registry : Type 0 where
  pub entries : List (Bytes × RegistryEntry)
  pub pending : ℕ
  pub closed : Bool

pub new_registry : Registry
new_registry = record { entries = []; pending = 0; closed = false }

pub valid_action_id : Bytes → Bool
valid_action_id id = ltb 0 (length id) && leb (length id) default_max_action_id_bytes

pub valid_action : Action → Bool
valid_action a =
    not (is_empty a.preview)
    && valid_string a.preview
    && leb (length a.preview) default_max_preview_bytes
    && ltb 0 (length a.terminal_input)
    && leb (length a.terminal_input) default_max_terminal_input_bytes

-- `binary.BigEndian.PutUint64`.
pub put_uint64 : ℕ → Bytes
put_uint64 n =
    n / 2 ^ 56 % 256
    ∷ n / 2 ^ 48 % 256
    ∷ n / 2 ^ 40 % 256
    ∷ n / 2 ^ 32 % 256
    ∷ n / 2 ^ 24 % 256
    ∷ n / 2 ^ 16 % 256
    ∷ n / 2 ^ 8 % 256
    ∷ n % 256
    ∷ []

-- What `actionDigest` feeds to the hash.
pub digest_input : Action → Bytes
digest_input a =
    put_uint64 (length a.preview)
    ++ (a.preview ++ (put_uint64 (length a.terminal_input) ++ a.terminal_input))

abbrev pub finished : RegistryEntry → State → RegistryEntry
finished entry state = record entry { state = state; preview = []; terminal_input = [] }

pub finalize_entry : Registry → Bytes → RegistryEntry → State → Registry
finalize_entry r key entry state = record r {
  entries = insert key (finished entry state) r.entries;
  pending = if ltb 0 r.pending then r.pending - 1 else r.pending;
}

-- The answer to an ID that is already known with the same content.
pub known_answer : State → RegistryEntry → Result Error PrepareResult
known_answer prepared entry = ok (record { state = prepared; preview = entry.preview })
known_answer committed entry = ok (record { state = committed; preview = [] })
known_answer cancelled entry = err action_cancelled
known_answer commit_failed entry = err action_commit_failed

module _ (sha256 : Bytes → Bytes) where
  pub action_digest : Action → Bytes
  action_digest a = sha256 (digest_input a)

  abbrev pub fresh_entry : Action → RegistryEntry
  fresh_entry a = record {
    digest = action_digest a;
    state = prepared;
    preview = a.preview;
    terminal_input = a.terminal_input;
  }

  pub register : Registry → Bytes → Action → Registry
  register r key a = record r {
    entries = insert key (fresh_entry a) r.entries;
    pending = r.pending + 1;
  }

  pub prepare_locked : Registry → Bytes → Action → Registry × Result Error PrepareResult
  unfolding register known_answer
  prepare_locked r id a =
      if not (valid_action_id id && valid_action a)
      then (r, err invalid_action)
      else if r.closed
      then (r, err registry_closed)
      else elim (lookup id r.entries) [
        | some entry ↦ (
          r,
          ite (dec_bytes entry.digest (action_digest a)) (known_answer entry.state entry)
              (err action_conflict),
        )
        | none ↦
            if leb default_max_tracked_actions (length r.entries)
            then (r, err tracked_action_limit)
            else if leb default_max_pending_actions r.pending
            then (r, err pending_action_limit)
            else (register r id a, ok (record { state = prepared; preview = a.preview }))
      ]

  pub prepare : Option Registry → Bytes → Action → Option Registry × Result Error PrepareResult
  unfolding prepare_locked
  prepare none id a = (none, err registry_closed)
  prepare (some r) id a = let (r', answer) = prepare_locked r id a in (some r', answer)

-- A commit also reports what it handed to the writer.
pub record CommitOutcome : Type 0 where
  pub registry : Registry
  pub answer : Result Error (Unit {0})
  pub written : List Bytes

pub refused : Registry → Error → CommitOutcome
refused r e = record { registry = r; answer = err e; written = [] }

-- The writer answers `true` for an error.
pub commit_entry : State → RegistryEntry → Registry → Bytes → (Bytes → Bool) → CommitOutcome
unfolding finalize_entry refused
commit_entry committed entry r key writer = record { registry = r; answer = ok tt; written = [] }
commit_entry cancelled entry r key writer = refused r action_cancelled
commit_entry commit_failed entry r key writer = refused r action_commit_failed
commit_entry prepared entry r key writer =
    if writer entry.terminal_input
    then record {
      registry = finalize_entry r key entry commit_failed;
      answer = err write_failed;
      written = entry.terminal_input ∷ [];
    }
    else record {
      registry = finalize_entry r key entry committed;
      answer = ok tt;
      written = entry.terminal_input ∷ [];
    }

-- A nil writer is `none`.
pub commit_locked : Registry → Bytes → Option (Bytes → Bool) → CommitOutcome
unfolding commit_entry refused
commit_locked r id none = refused r invalid_action
commit_locked r id (some writer) =
    if not (valid_action_id id)
    then refused r invalid_action
    else if r.closed
    then refused r registry_closed
    else elim (lookup id r.entries) [
      | none ↦ refused r action_not_found
      | some entry ↦ commit_entry entry.state entry r id writer
    ]

pub cancel_entry : State → RegistryEntry → Registry → Bytes → Registry × Result Error (Unit {0})
unfolding finalize_entry
cancel_entry prepared entry r key = (finalize_entry r key entry cancelled, ok tt)
cancel_entry cancelled entry r key = (r, ok tt)
cancel_entry committed entry r key = (r, err action_committed)
cancel_entry commit_failed entry r key = (r, err action_commit_failed)

pub cancel_locked : Registry → Bytes → Registry × Result Error (Unit {0})
unfolding cancel_entry
cancel_locked r id =
    if not (valid_action_id id)
    then (r, err invalid_action)
    else if r.closed
    then (r, err registry_closed)
    else elim (lookup id r.entries) [
      | none ↦ (r, err action_not_found)
      | some entry ↦ cancel_entry entry.state entry r id
    ]

pub close_locked : Registry → Registry
close_locked r = if r.closed then r else record { entries = []; pending = 0; closed = true }

-- The exported methods, which answer a nil registry first.
pub commit : Option Registry → Bytes → Option (Bytes → Bool) → Option CommitOutcome
unfolding commit_locked
commit none id writer = none
commit (some r) id writer = some (commit_locked r id writer)

pub cancel : Option Registry → Bytes → Option Registry × Result Error (Unit {0})
unfolding cancel_locked
cancel none id = (none, err registry_closed)
cancel (some r) id = let (r', answer) = cancel_locked r id in (some r', answer)

pub close : Option Registry → Option Registry
unfolding close_locked
close none = none
close (some r) = some (close_locked r)
