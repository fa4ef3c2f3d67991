-- ===== src/Relay/Router/Traffic.antt =====
-- internal/relay/router.go: who is joined to whom, whom a message reaches, and what a peer that
-- leaves takes along.
use vibe_bridge.Base.{
  ℕ, ◌≡◌, ◌≢◌, refl, Option, none, some, List, [], ◌∷◌, Bytes, arith, ok, inl, inr, Option-cases,
}
use vibe_bridge.Base.Map.{lookup, insert, lookup-AllEntries, lookup-insert}
use vibe_bridge.Relay.Router.{
  Endpoint, Peer, Ticket, Route, Router, RouteHandle, unspecified, agent, client, other_end,
  other_of, join_locked, leave, forward_locked, sweep, stop, RouterConfig, new_router_with_config,
}
use vibe_bridge.Relay.Router.Invariant.{
  Inv, RouteIsValid, Holds, Presents, join_locked-Inv, leave-Inv, forward_locked-Inv, sweep-Inv,
  stop-Inv,
}

pub data Op : Type 0 where
  joins : (t : Ticket) (p : Peer) → Presents t p → ℕ → Op
  leaves : Peer → Op
  forwards : RouteHandle → ℕ → Op
  sweeps : ℕ → Op
  stops : Op

-- One locked section; a forward whose destination refuses is followed by a leave of its own.
unfoldable pub step : Router → Op → Router
step r (joins t p own now) = (join_locked r t p now).0
step r (leaves p) = (leave r p).0
step r (forwards h now) = (forward_locked r h now).0
step r (sweeps now) = (sweep r now).router
step r stops = (stop r).0

unfoldable pub run : Router → List Op → Router
run r [] = r
run r (op ∷ ops) = run (step r op) ops

step-Inv : (r : Router) (op : Op) → Inv r → Inv (step r op)
unfolding step
step-Inv r (joins t p own now) v = join_locked-Inv r t p now own v
step-Inv r (leaves p) v = leave-Inv r p v
step-Inv r (forwards h now) v = forward_locked-Inv r h now v
step-Inv r (sweeps now) v = sweep-Inv r now v
step-Inv r stops v = stop-Inv r v

run-Inv : (r : Router) (ops : List Op) → Inv r → Inv (run r ops)
unfolding run
run-Inv r [] v = v
run-Inv r (op ∷ ops) v = run-Inv (step r op) ops (step-Inv r op v)

-- From a new router on, whatever the order in which peers with tickets of their own join, peers
-- leave and forward, the sweeper runs and the router stops: no route stands twice, each route
-- stands under its own id with room for a pair, a slot holds only a peer of that end with a ticket
-- for that route, and a stopped router has no route.
pub run-new_router-Inv :
    (c : RouterConfig) (ops : List Op) → Inv (run (new_router_with_config c) ops)
unfolding new_router_with_config
run-new_router-Inv c ops =
    run-Inv (new_router_with_config c) ops
      (record { distinct = tt; valid = tt; stopped_empty = λ s. refl })

abbrev pub opposite : Endpoint → Endpoint
opposite agent = client
opposite client = agent
opposite unspecified = unspecified

other_end-Holds :
    (e : Endpoint) (k : Bytes) (rt : Route) (dest : Peer)
    → RouteIsValid k rt
    → other_end e rt ≡ some dest
    → (dest.endpoint ≡ opposite e) × (dest.route_id ≡ k)
unfolding other_end
other_end-Holds agent k rt dest v h = held (rt.client) h v.client_side
  where
    held :
        (o : Option Peer)
        → o ≡ some dest
        → Holds client k o
        → (dest.endpoint ≡ client) × (dest.route_id ≡ k)
    held none e hold = cc
    held (some q) e hold = ground arith
other_end-Holds client k rt dest v h = held (rt.agent) h v.agent_side
  where
    held :
        (o : Option Peer)
        → o ≡ some dest
        → Holds agent k o
        → (dest.endpoint ≡ agent) × (dest.route_id ≡ k)
    held none e hold = cc
    held (some q) e hold = ground arith
other_end-Holds unspecified k rt dest v h = cc

-- On a router that keeps its invariant a message is handed only to a peer whose ticket is for the
-- sender's own route and for the opposite endpoint, and every other route is left as it was.
pub forward_isolated :
    (r r' : Router) (h : RouteHandle) (now : ℕ) (dest : Peer)
    → Inv r
    → forward_locked r h now ≡ (r', ok dest)
    → (dest.route_id ≡ h.id)
      × (dest.endpoint ≡ opposite h.owner.endpoint)
      × ((k : Bytes) → k ≢ h.id → lookup k r'.routes ≡ lookup k r.routes)
unfolding forward_locked
forward_isolated r r' h now dest v e = elim (Option-cases (lookup h.id r.routes)) [
  | inl absent ↦ absurd (ground arith)
  | inr (rt, found) ↦
      let other : other_of rt h.owner ≡ some dest = ground arith in
      let table : r'.routes ≡ insert h.id (record rt { last_activity = now }) r.routes =
        ground arith in
      let valid = lookup-AllEntries RouteIsValid h.id rt r.routes v.valid found in
      let (end, route) =
        other_end-Holds h.owner.endpoint h.id rt dest valid (unfold other_of in other) in
      (
        route,
        end,
        λ k ne.
            rw table
              (ground (arith, lookup-insert h.id k (record rt { last_activity = now }) r.routes)),
      )
]
