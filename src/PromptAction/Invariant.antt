-- ===== src/PromptAction/Invariant.antt =====
-- internal/promptaction/registry.go: what holds of a registry between two calls.
use vibe_bridge.Base.{ℕ, ◌+◌, ◌≤◌, ◌≡◌, ◌≢◌, refl, Bool, Option, none, some, Bytes, arith, length}
use vibe_bridge.Base.Map.{lookup, total, Distinct, total-insert, length-insert, insert-Distinct}
use vibe_bridge.PromptAction.{
  Action, State, RegistryEntry, Registry, prepared, committed, cancelled, commit_failed,
  default_max_tracked_actions, default_max_pending_actions, new_registry, finalize_entry, finished,
  fresh_entry, prepare_locked, refused, commit_entry, commit_locked, cancel_locked, close_locked,
}

abbrev awaits : State → ℕ
awaits prepared = 1
awaits _ = 0

abbrev pub pending_weight : RegistryEntry → ℕ
pending_weight e = awaits e.state

abbrev kept_bytes : State → ℕ → ℕ
kept_bytes prepared n = 0
kept_bytes _ n = n

-- The bytes that an entry still holds though it is settled.
abbrev pub residue : RegistryEntry → ℕ
residue e = kept_bytes e.state (length e.preview + length e.terminal_input)

pub record Inv (r : Registry) : Type 0 where
  pub distinct : Distinct r.entries
  pub pending_exact : r.pending ≡ total pending_weight r.entries
  pub pending_bounded : r.pending ≤ default_max_pending_actions
  pub tracked_bounded : length r.entries ≤ default_max_tracked_actions
  pub settled_cleared : total residue r.entries ≡ 0

pub new_registry-Inv : Inv new_registry
unfolding new_registry
new_registry-Inv = record {
  distinct = tt;
  pending_exact = refl;
  pending_bounded = omega arith;
  tracked_bounded = omega arith;
  settled_cleared = refl;
}

pub prepare_locked-Inv :
    (sha256 : Bytes → Bytes) (r : Registry) (id : Bytes) (a : Action)
    → Inv r
    → Inv (prepare_locked sha256 r id a).0
unfolding prepare_locked
prepare_locked-Inv sha256 r id a v = ground (
  arith,
  total-insert pending_weight id (fresh_entry sha256 a) r.entries,
  total-insert residue id (fresh_entry sha256 a) r.entries,
  length-insert id (fresh_entry sha256 a) r.entries,
  insert-Distinct id (fresh_entry sha256 a) r.entries v.distinct,
)

-- Settling a prepared entry takes one from the pending count and leaves no bytes behind.
pub finalize_entry-Inv :
    (r : Registry) (key : Bytes) (entry : RegistryEntry) (s : State)
    → lookup key r.entries ≡ some entry
    → entry.state ≡ prepared
    → s ≢ prepared
    → Inv r
    → Inv (finalize_entry r key entry s)
unfolding finalize_entry
finalize_entry-Inv r key entry s found p settled v = ground (
  arith,
  total-insert pending_weight key (finished entry s) r.entries,
  total-insert residue key (finished entry s) r.entries,
  length-insert key (finished entry s) r.entries,
  insert-Distinct key (finished entry s) r.entries v.distinct,
)

pub commit_entry-Inv :
    (r : Registry) (key : Bytes) (entry : RegistryEntry) (s : State) (writer : Bytes → Bool)
    → lookup key r.entries ≡ some entry
    → entry.state ≡ s
    → Inv r
    → Inv (commit_entry s entry r key writer).registry
unfolding commit_entry refused
commit_entry-Inv r key entry committed writer found p v = v
commit_entry-Inv r key entry cancelled writer found p v = v
commit_entry-Inv r key entry commit_failed writer found p v = v
commit_entry-Inv r key entry prepared writer found p v = ground (
  arith,
  finalize_entry-Inv r key entry committed found p (λ e. cc) v,
  finalize_entry-Inv r key entry commit_failed found p (λ e. cc) v,
)

pub commit_locked-Inv :
    (r : Registry) (id : Bytes) (writer : Option (Bytes → Bool))
    → Inv r
    → Inv (commit_locked r id writer).registry
unfolding commit_locked refused
commit_locked-Inv r id none v = v
commit_locked-Inv r id (some writer) v = grind (arith, commit_entry-Inv)

pub cancel_locked-Inv : (r : Registry) (id : Bytes) → Inv r → Inv (cancel_locked r id).0
unfolding cancel_locked
cancel_locked-Inv r id v = grind (arith, finalize_entry-Inv)

pub close_locked-Inv : (r : Registry) → Inv r → Inv (close_locked r)
unfolding close_locked
close_locked-Inv r v = ground arith
