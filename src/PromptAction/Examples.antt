-- ===== src/PromptAction/Examples.antt =====
-- internal/promptaction/registry.go on concrete inputs.
use vibe_bridge.Base.{
  ◌≤◌, ◌≡◌, ◌≢◌, refl, Bool, true, false, none, some, List, [], ◌∷◌, Bytes, arith, dec_bytes, ok,
  err,
}
use vibe_bridge.Base.Map.{lookup}
use vibe_bridge.Base.Utf8.{valid_string, following}
use vibe_bridge.PromptAction.{
  Action, PrepareResult, prepared, new_registry, action_commit_failed, write_failed,
  valid_action_id, valid_action, digest_input, prepare_locked, commit_locked, cancel_locked,
  register, commit_entry, cancel_entry, finalize_entry, refused, known_answer, close_locked,
  action_digest,
}
use vibe_bridge.PromptAction.Digest.{digest_input-injective}
use vibe_bridge.PromptAction.Invariant.{Inv}
use vibe_bridge.PromptAction.Once.{
  Op, prepares, commits, cancels, closes, count, run, step, run-new_registry-Inv,
  writes_at_most_once,
}
use vibe_bridge.PromptAction.Content.{commit_once}

-- A hash without collisions: the input itself.
abbrev identity_hash : Bytes → Bytes
identity_hash b = b

abbrev id_a : Bytes
id_a = 0x61 ∷ []

abbrev hello : Action
hello = record { preview = 0x68 ∷ 0x69 ∷ []; terminal_input = 0x68 ∷ 0x69 ∷ 13 ∷ [] }

abbrev other : Action
other = record { preview = 0x6e ∷ 0x6f ∷ []; terminal_input = 0x6e ∷ 0x6f ∷ [] }

abbrev accepting : Bytes → Bool
accepting b = false

abbrev failing : Bytes → Bool
failing b = true

-- A preparation, a commit that fails, and every later attempt.
abbrev ops : List Op
ops =
    prepares id_a hello
    ∷ commits id_a (some failing)
    ∷ commits id_a (some accepting)
    ∷ cancels id_a
    ∷ prepares id_a other
    ∷ closes
    ∷ commits id_a (some accepting)
    ∷ []

run_writes : (run identity_hash new_registry ops).1 ≡ id_a ∷ []
unfolding run step new_registry prepare_locked commit_locked cancel_locked close_locked register
    commit_entry cancel_entry finalize_entry refused known_answer valid_action_id valid_action
    valid_string following dec_bytes action_digest digest_input
run_writes = refl

writes_at_most_once_example : count id_a (run identity_hash new_registry ops).1 ≤ 1
writes_at_most_once_example = writes_at_most_once identity_hash id_a ops

run-new_registry-Inv_example : Inv (run identity_hash new_registry ops).0
run-new_registry-Inv_example = run-new_registry-Inv identity_hash ops

abbrev hello_prepared : PrepareResult
hello_prepared = record { state = prepared; preview = hello.preview }

hello_accepted : (prepare_locked identity_hash new_registry id_a hello).1 ≡ ok hello_prepared
unfolding new_registry prepare_locked register valid_action_id valid_action valid_string following
    dec_bytes
hello_accepted = refl

hello_unknown : lookup id_a new_registry.entries ≡ none
unfolding new_registry
hello_unknown = refl

other_valid : valid_action other ≡ true
unfolding valid_action valid_string following
other_valid = refl

hello_not_other : hello ≢ other
hello_not_other e = ground arith

hello_cancelled :
    (cancel_locked (prepare_locked identity_hash new_registry id_a hello).0 id_a).1 ≡ ok tt
unfolding new_registry prepare_locked register valid_action_id valid_action valid_string following
    dec_bytes cancel_locked cancel_entry
hello_cancelled = refl

commit_once_example :
    let first =
      commit_locked (prepare_locked identity_hash new_registry id_a hello).0 id_a (some failing) in
    let second = commit_locked first.registry id_a (some accepting) in
    (first.written ≡ hello.terminal_input ∷ [])
    × (first.answer ≡ err write_failed)
    × (second.written ≡ [])
    × (second.answer ≡ err action_commit_failed)
    × (second.registry ≡ first.registry)
commit_once_example =
    commit_once identity_hash new_registry id_a hello hello_prepared failing accepting hello_unknown
      hello_accepted

digest_input-injective_example : hello ≡ hello
digest_input-injective_example =
    digest_input-injective hello hello (omega arith) (omega arith) (omega arith) (omega arith) refl
