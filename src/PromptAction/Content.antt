-- ===== src/PromptAction/Content.antt =====
-- internal/promptaction/registry.go: an ID stands for one content.
use vibe_bridge.Base.{
  ◌<◌, ◌^◌, ◌≡◌, ◌≢◌, Bool, true, false, if◌then◌else◌, none, some, [], ◌∷◌, Bytes, arith, length,
  ok, err,
}
use vibe_bridge.Base.Map.{lookup, lookup-insert}
use vibe_bridge.PromptAction.{
  Action, Registry, PrepareResult, prepared, committed, commit_failed, action_conflict,
  action_commit_failed, write_failed, valid_action_id, valid_action, digest_input, action_digest,
  register, finished, fresh_entry, finalize_entry, prepare_locked, commit_entry, commit_locked,
}
use vibe_bridge.PromptAction.Digest.{digest_input-injective}

module _ (sha256 : Bytes → Bytes) where
  -- An unknown ID that `Prepare` accepts is registered with the action's own bytes.
  prepare-registers :
      (r : Registry) (id : Bytes) (a : Action) (p : PrepareResult)
      → lookup id r.entries ≡ none
      → (prepare_locked sha256 r id a).1 ≡ ok p
      → ((prepare_locked sha256 r id a).0 ≡ register sha256 r id a)
        × (p ≡ record { state = prepared; preview = a.preview })
        × (valid_action_id id ≡ true)
        × (valid_action a ≡ true)
        × (r.closed ≡ false)
  unfolding prepare_locked
  prepare-registers r id a p new accepted = ground arith

  -- Where `Prepare` accepted an unknown ID, the first commit of it hands the writer exactly the
  -- action's terminal bytes and answers by the writer's result. A second commit, by any writer,
  -- hands over nothing and changes nothing: it answers success where the first did, and the
  -- tombstone's error where the write had failed.
  pub commit_once :
      (r : Registry) (id : Bytes) (a : Action) (p : PrepareResult) (w w' : Bytes → Bool)
      → lookup id r.entries ≡ none
      → (prepare_locked sha256 r id a).1 ≡ ok p
      → let first = commit_locked (prepare_locked sha256 r id a).0 id (some w) in
        let second = commit_locked first.registry id (some w') in
        (first.written ≡ a.terminal_input ∷ [])
        × (first.answer ≡ (if w a.terminal_input then err write_failed else ok tt))
        × (second.written ≡ [])
        × (second.answer ≡ (if w a.terminal_input then err action_commit_failed else ok tt))
        × (second.registry ≡ first.registry)
  unfolding commit_locked commit_entry register finalize_entry
  commit_once r id a p w w' new accepted = ground (
    arith,
    prepare-registers r id a p new accepted,
    lookup-insert id id (fresh_entry sha256 a) r.entries,
    lookup-insert id id (finished (fresh_entry sha256 a) committed)
        (register sha256 r id a).entries,
    lookup-insert id id (finished (fresh_entry sha256 a) commit_failed)
        (register sha256 r id a).entries,
  )

  valid_action-short :
      (a : Action)
      → valid_action a ≡ true
      → (length a.preview < 2 ^ 64) × (length a.terminal_input < 2 ^ 64)
  unfolding valid_action
  valid_action-short a h = ground arith

  registered_conflict :
      (r : Registry) (id : Bytes) (a b : Action)
      → valid_action_id id ≡ true
      → valid_action b ≡ true
      → r.closed ≡ false
      → action_digest sha256 a ≢ action_digest sha256 b
      → prepare_locked sha256 (register sha256 r id a) id b
        ≡ (register sha256 r id a, err action_conflict)
  unfolding prepare_locked register
  registered_conflict r id a b vi vb c d =
      ground (arith, lookup-insert id id (fresh_entry sha256 a) r.entries)

  digests_differ :
      (a b : Action)
      → (sha256 (digest_input a) ≡ sha256 (digest_input b) → digest_input a ≡ digest_input b)
      → valid_action a ≡ true
      → valid_action b ≡ true
      → a ≢ b
      → action_digest sha256 a ≢ action_digest sha256 b
  unfolding action_digest
  digests_differ a b collision_free va vb ne e =
      let (pa, ia) = valid_action-short a va in
      let (pb, ib) = valid_action-short b vb in
      ne (digest_input-injective a b pa pb ia ib (collision_free e))

  -- Once `Prepare` has accepted an unknown ID, a `Prepare` of the same ID with another valid action
  -- is refused as a conflict and changes nothing, provided the hash does not collide on the inputs
  -- of the two actions.
  pub prepare_conflict :
      (r : Registry) (id : Bytes) (a b : Action) (p : PrepareResult)
      → (sha256 (digest_input a) ≡ sha256 (digest_input b) → digest_input a ≡ digest_input b)
      → lookup id r.entries ≡ none
      → (prepare_locked sha256 r id a).1 ≡ ok p
      → valid_action b ≡ true
      → a ≢ b
      → prepare_locked sha256 (prepare_locked sha256 r id a).0 id b
        ≡ ((prepare_locked sha256 r id a).0, err action_conflict)
  prepare_conflict r id a b p collision_free new accepted vb ne =
      let (stored, _, vi, va, c) = prepare-registers r id a p new accepted in
      rw stored (registered_conflict r id a b vi vb c (digests_differ a b collision_free va vb ne))
