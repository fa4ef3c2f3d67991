-- ===== src/Relay/Router/Sweeps.antt =====
-- internal/relay/router.go, Sweep: exactly the overdue routes go.
use vibe_bridge.Base.{
  ℕ, ◌+◌, ◌-◌, ◌≤◌, ◌<◌, ◌⊎◌, inl, inr, ◌++◌, Bool-cases, if_cases, ◌≡◌, refl, Bool, true, false,
  Option, none, some, List, [], ◌∷◌, Bytes, arith, if◌then◌else◌, dec_bytes, ite,
}
use vibe_bridge.Base.Map.{lookup, delete, Distinct, AllEntries, lookup-delete}
use vibe_bridge.Base.Int.{ℤ, pos, negsuc}
use vibe_bridge.Relay.Router.{
  Peer, SweepResult, reached, expired, close_route, Route, Router, overdue, to_close, delete_routes,
  close_routes, count_closed, sweep,
}
use vibe_bridge.Relay.Router.Invariant.{Inv, RouteIsValid}

-- Whether one of the routes has this id.
abbrev named : Bytes → List Route → Bool
named k [] = false
named k (rt ∷ rts) = ite (dec_bytes rt.id k) true (named k rts)

lookup-delete_routes :
    (k : Bytes) (rts : List Route) (m : List (Bytes × Route))
    → lookup k (delete_routes rts m) ≡ (if named k rts then none else lookup k m)
unfolding delete_routes
lookup-delete_routes k [] m = refl
lookup-delete_routes k (rt ∷ rts) m =
    ground (arith, lookup-delete_routes k rts (delete rt.id m), lookup-delete rt.id k m)

-- The rules of a sweep, apart from the code: a limit that is positive is reached, by the lifetime or
-- since the last activity.
abbrev pub Reaches : ℤ → ℕ → Type 0
Reaches (pos n) age = (0 < n) × (n ≤ age)
Reaches (negsuc n) age = ⊥

abbrev pub LivedOut : Router → ℕ → Route → Type 0
LivedOut r now rt = Reaches r.max_life (now - rt.created_at)

abbrev pub Overdue : Router → ℕ → Route → Type 0
Overdue r now rt = LivedOut r now rt ⊎ Reaches r.idle (now - rt.last_activity)

-- The peers in the slots of a route, the Agent's first.
abbrev pub slots : Route → List Peer
slots rt = elim rt.agent [
  | none ↦ elim rt.client [ none ↦ [] | some c ↦ c ∷ [] ]
  | some a ↦ elim rt.client [ none ↦ a ∷ [] | some c ↦ a ∷ c ∷ [] ]
]

-- A table, the routes that a sweep closes for their lifetime and for idleness, and the peers of both,
-- in the table's order.
pub data Sorted (r : Router) (now : ℕ) : List (Bytes × Route) → ℕ → ℕ → List Peer → Type 0 where
  none_left : Sorted r now [] 0 0 []
  lived_out :
      (k : Bytes) (rt : Route) {m : List (Bytes × Route)} {old idle : ℕ} {ps : List Peer}
      → LivedOut r now rt
      → Sorted r now m old idle ps
      → Sorted r now ((k, rt) ∷ m) (old + 1) idle (slots rt ++ ps)
  idled_out :
      (k : Bytes) (rt : Route) {m : List (Bytes × Route)} {old idle : ℕ} {ps : List Peer}
      → ¬ LivedOut r now rt
      → Overdue r now rt
      → Sorted r now m old idle ps
      → Sorted r now ((k, rt) ∷ m) old (idle + 1) (slots rt ++ ps)
  spared :
      (k : Bytes) (rt : Route) {m : List (Bytes × Route)} {old idle : ℕ} {ps : List Peer}
      → ¬ Overdue r now rt
      → Sorted r now m old idle ps
      → Sorted r now ((k, rt) ∷ m) old idle ps

reached-Reaches : (limit : ℤ) (age : ℕ) → reached limit age ≡ true → Reaches limit age
reached-Reaches (pos n) age h = ground arith
reached-Reaches (negsuc n) age h = absurd (ground arith)

unreached : (limit : ℤ) (age : ℕ) → reached limit age ≡ false → ¬ Reaches limit age
unreached (pos n) age h hit = absurd (ground arith)
unreached (negsuc n) age h hit = hit

abbrev overdue_entry : Router → ℕ → Option Route → Bool
overdue_entry r now none = false
overdue_entry r now (some rt) = overdue r now rt

named-to_close :
    (r : Router) (now : ℕ) (k : Bytes) (m : List (Bytes × Route))
    → Distinct m
    → AllEntries RouteIsValid m
    → named k (to_close r now m) ≡ overdue_entry r now (lookup k m)
unfolding to_close
named-to_close r now k [] d v = refl
named-to_close r now k ((j, rt) ∷ m) d v =
    ground (arith, named-to_close r now k m d.1 v.1, v.0.own_key, d.0)

expired-LivedOut : (r : Router) (now : ℕ) (rt : Route) → expired r now rt ≡ true → LivedOut r now rt
expired-LivedOut r now rt = reached-Reaches r.max_life (now - rt.created_at)

idle-Overdue :
    (r : Router) (now : ℕ) (rt : Route)
    → overdue r now rt ≡ true
    → expired r now rt ≡ false
    → Overdue r now rt
idle-Overdue r now rt h young =
    inr (reached-Reaches r.idle (now - rt.last_activity) (ground (arith, h, young)))

not_overdue : (r : Router) (now : ℕ) (rt : Route) → overdue r now rt ≡ false → ¬ Overdue r now rt
not_overdue r now rt h (inl old) =
    unreached r.max_life (now - rt.created_at) (ground (arith, h)) old
not_overdue r now rt h (inr idle) =
    unreached r.idle (now - rt.last_activity) (ground (arith, h)) idle

overdue-Overdue : (r : Router) (now : ℕ) (rt : Route) → overdue r now rt ≡ true → Overdue r now rt
overdue-Overdue r now rt h = elim (Bool-cases (expired r now rt)) [
  | inl old ↦ inl (expired-LivedOut r now rt old)
  | inr young ↦ idle-Overdue r now rt h young
]

close_route-slots : (rt : Route) → close_route rt ≡ slots rt
close_route-slots rt = ground arith

-- The collecting and the counting loop.
abbrev Counted : Router → ℕ → List (Bytes × Route) → List Route → Type 0
Counted r now m rts =
    Sorted r now m (count_closed r now rts).expired_closed (count_closed r now rts).idle_closed
      (close_routes rts)

to_close-Counted :
    (r : Router) (now : ℕ) (m : List (Bytes × Route)) → Counted r now m (to_close r now m)
unfolding to_close count_closed
to_close-Counted r now [] = none_left
to_close-Counted r now ((k, rt) ∷ m) =
    let rest = to_close-Counted r now m in
    let ps = close_routes (to_close r now m) in
    if_cases (Counted r now ((k, rt) ∷ m)) (overdue r now rt) _ _
      (λ h.
        if_cases
          (λ (q : SweepResult).
            Sorted r now ((k, rt) ∷ m) q.expired_closed q.idle_closed (close_route rt ++ ps))
          (expired r now rt) _ _
          (λ old. rw (close_route-slots rt) (lived_out k rt (expired-LivedOut r now rt old) rest))
          (λ young. rw (close_route-slots rt) (
            idled_out k rt (unreached r.max_life (now - rt.created_at) young)
              (idle-Overdue r now rt h young) rest)))
      (λ h. spared k rt (not_overdue r now rt h) rest)

-- What becomes of a route by the rules.
abbrev pub Remains : Router → ℕ → Option Route → Option Route → Type 0
Remains r now none after = after ≡ none
Remains r now (some rt) after =
    (Overdue r now rt × (after ≡ none)) ⊎ ((¬ Overdue r now rt) × (after ≡ some rt))

kept-Remains :
    (r : Router) (now : ℕ) (o : Option Route)
    → Remains r now o (if overdue_entry r now o then none else o)
kept-Remains r now none = refl
kept-Remains r now (some rt) =
    if_cases (Remains r now (some rt)) (overdue r now rt) _ _
      (λ h. inl (overdue-Overdue r now rt h, refl)) (λ h. inr (not_overdue r now rt h, refl))

-- A sweep of a live router that keeps its invariant, at any time: a route goes exactly if a positive
-- limit of its lifetime or of the time since its last activity is reached, and stays unchanged
-- otherwise; each route that goes is counted once, for its lifetime if that is reached and as idle
-- if not; and the peers closed are those in the slots of the routes that go, each route's once and
-- in the table's order.
pub sweep_exact :
    (r : Router) (now : ℕ)
    → Inv r
    → r.stopped ≡ false
    → ((k : Bytes) → Remains r now (lookup k r.routes) (lookup k (sweep r now).router.routes))
      × Sorted r now r.routes
          (sweep r now).result.expired_closed
          (sweep r now).result.idle_closed
          (sweep r now).closed
unfolding sweep
sweep_exact r now v live = simp live (
  λ k. rw (lookup-delete_routes k (to_close r now r.routes) r.routes) (
      rw (named-to_close r now k r.routes v.distinct v.valid)
        (kept-Remains r now (lookup k r.routes))),
  to_close-Counted r now r.routes,
)
