-- ===== src/PromptAction/Once.antt =====
-- internal/promptaction/registry.go: any sequence of calls on one registry, and what it hands to
-- the writers.
use vibe_bridge.Base.{
  ℕ, ◌+◌, ◌≤◌, ◌≡◌, ◌≢◌, Bool, true, false, Option, none, some, List, [], ◌∷◌, ◌++◌, ite, Bytes,
  dec_bytes, arith, ok, map,
}
use vibe_bridge.Base.Map.{lookup, lookup-insert}
use vibe_bridge.PromptAction.{
  Action, State, RegistryEntry, Registry, CommitOutcome, prepared, committed, cancelled,
  commit_failed, new_registry, finalize_entry, register, finished, fresh_entry, prepare_locked,
  refused, commit_entry, commit_locked, cancel_locked, close_locked,
}
use vibe_bridge.PromptAction.Invariant.{
  Inv, new_registry-Inv, prepare_locked-Inv, commit_locked-Inv, cancel_locked-Inv, close_locked-Inv,
}

pub data Op : Type 0 where
  prepares : Bytes → Action → Op
  commits : Bytes → Option (Bytes → Bool) → Op
  cancels : Bytes → Op
  closes : Op

-- How often an ID stands in a list of IDs.
abbrev pub count : Bytes → List Bytes → ℕ
count k [] = 0
count k (j ∷ js) = ite (dec_bytes j k) 1 0 + count k js

count-append : (k : Bytes) (xs ys : List Bytes) → count k (xs ++ ys) ≡ count k xs + count k ys
count-append k [] ys = omega arith
count-append k (x ∷ xs) ys = omega (arith, count-append k xs ys)

module _ (sha256 : Bytes → Bytes) where
  -- One call: the registry after it, and the ID once for each call of a writer.
  unfoldable pub step : Registry → Op → Registry × List Bytes
  step r (prepares id a) = ((prepare_locked sha256 r id a).0, [])
  step r (commits id writer) =
      let out = commit_locked r id writer in (out.registry, map (λ _. id) out.written)
  step r (cancels id) = ((cancel_locked r id).0, [])
  step r closes = (close_locked r, [])

  unfoldable pub run : Registry → List Op → Registry × List Bytes
  run r [] = (r, [])
  run r (op ∷ ops) =
      let (r', now) = step r op in let (last, later) = run r' ops in (last, now ++ later)

  pub step-Inv : (r : Registry) (op : Op) → Inv r → Inv (step r op).0
  unfolding step
  step-Inv r (prepares id a) v = prepare_locked-Inv sha256 r id a v
  step-Inv r (commits id writer) v = commit_locked-Inv r id writer v
  step-Inv r (cancels id) v = cancel_locked-Inv r id v
  step-Inv r closes v = close_locked-Inv r v

  run-Inv : (r : Registry) (ops : List Op) → Inv r → Inv (run r ops).0
  unfolding run
  run-Inv r [] v = v
  run-Inv r (op ∷ ops) v = run-Inv (step r op).0 ops (step-Inv r op v)

  -- After any calls on a new registry: no ID stands twice, `pending` is the number of prepared
  -- entries and at most 16, at most 4096 IDs are tracked, and no settled entry holds preview or
  -- terminal bytes.
  pub run-new_registry-Inv : (ops : List Op) → Inv (run new_registry ops).0
  run-new_registry-Inv ops = run-Inv new_registry ops new_registry-Inv

-- The writer calls that an ID may still cause: one while it is unknown or prepared.
abbrev open_state : State → ℕ
open_state prepared = 1
open_state _ = 0

abbrev open_entry : Option RegistryEntry → ℕ
open_entry none = 1
open_entry (some e) = open_state e.state

abbrev pub allowance : Bytes → Registry → ℕ
allowance k r = elim r.closed [ true ↦ 0 | false ↦ open_entry (lookup k r.entries) ]

allowance-prepare :
    (sha256 : Bytes → Bytes) (k : Bytes) (r : Registry) (id : Bytes) (a : Action)
    → allowance k (prepare_locked sha256 r id a).0 ≤ allowance k r
unfolding prepare_locked register
allowance-prepare sha256 k r id a =
    ground (arith, lookup-insert id k (fresh_entry sha256 a) r.entries)

allowance-finalize_entry :
    (k : Bytes) (r : Registry) (key : Bytes) (entry : RegistryEntry) (s : State)
    → s ≢ prepared
    → entry.state ≡ prepared
    → r.closed ≡ false
    → lookup key r.entries ≡ some entry
    → allowance k (finalize_entry r key entry s) + ite (dec_bytes key k) 1 0 ≡ allowance k r
unfolding finalize_entry
allowance-finalize_entry k r key entry s ns p c found =
    ground (arith, lookup-insert key k (finished entry s) r.entries)

abbrev spent : Bytes → Bytes → CommitOutcome → ℕ
spent k id out = count k (map (λ _. id) out.written)

allowance-commit_entry :
    (k : Bytes) (r : Registry) (key : Bytes) (entry : RegistryEntry) (s : State)
    (writer : Bytes → Bool)
    → entry.state ≡ s
    → r.closed ≡ false
    → lookup key r.entries ≡ some entry
    → spent k key (commit_entry s entry r key writer)
        + allowance k (commit_entry s entry r key writer).registry
      ≤ allowance k r
unfolding commit_entry refused
allowance-commit_entry k r key entry committed writer p c found = omega arith
allowance-commit_entry k r key entry cancelled writer p c found = omega arith
allowance-commit_entry k r key entry commit_failed writer p c found = omega arith
allowance-commit_entry k r key entry prepared writer p c found = ground (
  arith,
  allowance-finalize_entry k r key entry committed (λ e. cc) p c found,
  allowance-finalize_entry k r key entry commit_failed (λ e. cc) p c found,
)

allowance-commit :
    (k : Bytes) (r : Registry) (id : Bytes) (writer : Option (Bytes → Bool))
    → spent k id (commit_locked r id writer) + allowance k (commit_locked r id writer).registry
      ≤ allowance k r
unfolding commit_locked refused
allowance-commit k r id none = omega arith
allowance-commit k r id (some writer) = grind (arith, allowance-commit_entry)

allowance-cancel :
    (k : Bytes) (r : Registry) (id : Bytes) → allowance k (cancel_locked r id).0 ≤ allowance k r
unfolding cancel_locked
allowance-cancel k r id = grind (arith, allowance-finalize_entry)

allowance-close : (k : Bytes) (r : Registry) → allowance k (close_locked r) ≤ allowance k r
unfolding close_locked
allowance-close k r = ground arith

module _ (sha256 : Bytes → Bytes) where
  allowance-step :
      (k : Bytes) (r : Registry) (op : Op)
      → count k (step sha256 r op).1 + allowance k (step sha256 r op).0 ≤ allowance k r
  unfolding step
  allowance-step k r (prepares id a) = omega (arith, allowance-prepare sha256 k r id a)
  allowance-step k r (commits id writer) = allowance-commit k r id writer
  allowance-step k r (cancels id) = omega (arith, allowance-cancel k r id)
  allowance-step k r closes = omega (arith, allowance-close k r)

  pub count-run :
      (k : Bytes) (r : Registry) (ops : List Op)
      → count k (run sha256 r ops).1 + allowance k (run sha256 r ops).0 ≤ allowance k r
  unfolding run
  count-run k r [] = omega arith
  count-run k r (op ∷ ops) =
      let (r', now) = step sha256 r op in
      omega (
        arith,
        allowance-step k r op,
        count-run k (step sha256 r op).0 ops,
        count-append k (step sha256 r op).1 (run sha256 (step sha256 r op).0 ops).1,
      )

  -- Whatever calls are made on a new registry, a writer is called at most once for each ID.
  pub writes_at_most_once :
      (k : Bytes) (ops : List Op) → count k (run sha256 new_registry ops).1 ≤ 1
  unfolding new_registry
  writes_at_most_once k ops = omega (arith, count-run k new_registry ops)

  cancel-spends :
      (k : Bytes) (r : Registry)
      → (cancel_locked r k).1 ≡ ok tt
      → allowance k (cancel_locked r k).0 ≡ 0
  unfolding cancel_locked
  cancel-spends k r h = grind (arith, allowance-finalize_entry)

  -- After a cancel that succeeded, no later calls at all make a writer run for that ID.
  pub cancelled_never_written :
      (k : Bytes) (r : Registry) (ops : List Op)
      → (cancel_locked r k).1 ≡ ok tt
      → count k (run sha256 (cancel_locked r k).0 ops).1 ≡ 0
  cancelled_never_written k r ops h =
      omega (arith, count-run k (cancel_locked r k).0 ops, cancel-spends k r h)
