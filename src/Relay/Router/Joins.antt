-- ===== src/Relay/Router/Joins.antt =====
-- internal/relay/router.go: joining, leaving and stopping.
use vibe_bridge.Base.{
  ℕ, ◌≤◌, ◌≡◌, ◌≢◌, refl, sym, ap, ◌∙◌, true, false, none, some, List, [], ◌∷◌, Bytes, arith, ok,
  err, ◌⊎◌, dec_bytes, ite,
}
use vibe_bridge.Base.Map.{lookup, insert, delete, lookup-insert, lookup-delete}
use vibe_bridge.Relay.Router.{
  Peer, Ticket, Route, Router, RouteHandle, Error, unspecified, agent, client, route_mismatch,
  route_unknown, router_stopped, fresh_route, occupied, other_end, other_of, ensure_route,
  take_slot, join_route, join_locked, leave_slot, leave, peers, forward_locked, sweep, stop,
}
use vibe_bridge.Relay.Router.Invariant.{Inv, Presents}
use vibe_bridge.Relay.Router.Traffic.{Op, joins, leaves, forwards, sweeps, stops, step, run}

-- A join that is refused leaves the table as it was, but for one case: a ticket whose endpoint is
-- neither end leaves an empty route behind under an id that was unknown.
pub join_refused :
    (r r' : Router) (t : Ticket) (p : Peer) (now : ℕ) (x : Error)
    → join_locked r t p now ≡ (r', err x)
    → (r' ≡ r)
      ⊎ ((t.endpoint ≡ unspecified)
          × (x ≡ route_mismatch)
          × (lookup t.route_id r.routes ≡ none)
          × (r' ≡ record r { routes = insert t.route_id (fresh_route t now) r.routes }))
unfolding join_locked join_route ensure_route take_slot occupied fresh_route
join_refused r r' t p now x e = ground arith

abbrev pub agent_handle : Ticket → Peer → RouteHandle
agent_handle t p = record { id = t.route_id; endpoint = agent; owner = p }

abbrev pub client_handle : Ticket → Peer → RouteHandle
client_handle t p = record { id = t.route_id; endpoint = client; owner = p }

agent_first :
    (r : Router) (t : Ticket) (p : Peer) (now : ℕ)
    → r.stopped ≡ false
    → lookup t.route_id r.routes ≡ none
    → t.endpoint ≡ agent
    → Presents t p
    → ((join_locked r t p now).1 ≡ ok (agent_handle t p, none))
      × (lookup t.route_id (join_locked r t p now).0.routes
          ≡ some (record (fresh_route t now) { agent = some p }))
      × ((join_locked r t p now).0.stopped ≡ false)
unfolding join_locked join_route ensure_route take_slot occupied fresh_route other_of
agent_first r t p now live absent e own = ground (
  arith,
  lookup-insert t.route_id t.route_id (record (fresh_route t now) { agent = some p })
      (insert t.route_id (fresh_route t now) r.routes),
)

client_second :
    (r : Router) (t : Ticket) (p : Peer) (now : ℕ) (rt : Route) (a : Peer)
    → r.stopped ≡ false
    → lookup t.route_id r.routes ≡ some rt
    → rt.agent ≡ some a
    → rt.client ≡ none
    → 2 ≤ rt.connection_cap
    → t.endpoint ≡ client
    → Presents t p
    → ((join_locked r t p now).1 ≡ ok (client_handle t p, some a))
      × (lookup t.route_id (join_locked r t p now).0.routes ≡ some (record rt { client = some p }))
unfolding join_locked join_route ensure_route take_slot occupied other_of
client_second r t p now rt a live found ha hc cap e own =
    ground (arith, lookup-insert t.route_id t.route_id (record rt { client = some p }) r.routes)

forward_to :
    (r : Router) (h : RouteHandle) (now : ℕ) (rt : Route) (dest : Peer)
    → lookup h.id r.routes ≡ some rt
    → other_of rt h.owner ≡ some dest
    → (forward_locked r h now).1 ≡ ok dest
unfolding forward_locked
forward_to r h now rt dest found other = rw (found, forward_locked) (rw (other, forward_locked))

-- On a live router whose table lacks the route, an Agent and then a client with tickets for it are
-- joined: the first meets nobody, the second meets the first, and from then on a message of
-- either goes to the other.
pub join_pairs :
    (r : Router) (ta tc : Ticket) (a c : Peer) (now later at : ℕ)
    → r.stopped ≡ false
    → lookup ta.route_id r.routes ≡ none
    → tc.route_id ≡ ta.route_id
    → ta.endpoint ≡ agent
    → tc.endpoint ≡ client
    → Presents ta a
    → Presents tc c
    → let first = join_locked r ta a now in
      let second = join_locked first.0 tc c later in
      (first.1 ≡ ok (agent_handle ta a, none))
      × (second.1 ≡ ok (client_handle tc c, some a))
      × ((forward_locked second.0 (agent_handle ta a) at).1 ≡ ok c)
      × ((forward_locked second.0 (client_handle tc c) at).1 ≡ ok a)
unfolding other_of fresh_route other_end
join_pairs r ta tc a c now later at live absent same ea ec pa pc =
    let (joined, stands, alive) = agent_first r ta a now live absent ea pa in
    let r1 = (join_locked r ta a now).0 in
    let rt1 = record (fresh_route ta now) { agent = some a } in
    let (joined', stands') =
      client_second r1 tc c later rt1 a alive (rw same stands) refl refl (ground arith) ec pc in
    let r2 = (join_locked r1 tc c later).0 in
    let rt2 = record rt1 { client = some c } in
    let here : lookup ta.route_id r2.routes ≡ some rt2 =
      ap (λ k. lookup k r2.routes) (sym same) ∙ stands' in
    let a_end : a.endpoint ≡ agent = pa.0 ∙ ea in
    let c_end : c.endpoint ≡ client = pc.0 ∙ ec in
    (
      joined,
      joined',
      forward_to r2 (agent_handle ta a) at rt2 c here (rw (a_end, other_of)),
      forward_to r2 (client_handle tc c) at rt2 a stands' (rw (c_end, other_of)),
    )

-- A peer of either end that leaves a route that stands takes the route down: the leaving peer and
-- whoever is at the other end are closed, the id is free, and no other route changes. The peer need
-- not be the one that the route holds.
pub leave_takes_route_down :
    (r : Router) (p : Peer) (rt : Route)
    → lookup p.route_id r.routes ≡ some rt
    → p.endpoint ≢ unspecified
    → ((leave r p).1 ≡ p ∷ peers (other_of rt p))
      × ((k : Bytes)
          → lookup k (leave r p).0.routes ≡ ite (dec_bytes p.route_id k) none (lookup k r.routes))
unfolding leave leave_slot other_of other_end
leave_takes_route_down r p rt found known =
    let table : (leave r p).0.routes ≡ delete p.route_id r.routes = ground arith in
    (ground arith, λ k. rw table (lookup-delete p.route_id k r.routes))

-- A peer of the Agent end that leaves a route which another Agent peer and a client hold takes it
-- down although it does not hold the slot: the id is free, and the leaving peer and the client are
-- closed.
pub stale_leave :
    (r : Router) (p a c : Peer) (rt : Route)
    → lookup p.route_id r.routes ≡ some rt
    → rt.agent ≡ some a
    → rt.client ≡ some c
    → p.endpoint ≡ agent
    → p.number ≢ a.number
    → (lookup p.route_id (leave r p).0.routes ≡ none) × ((leave r p).1 ≡ p ∷ c ∷ [])
unfolding other_of other_end
stale_leave r p a c rt found ha hc e other =
    let (closed, table) = leave_takes_route_down r p rt found (λ u. cc) in
    (ground (arith, table p.route_id), closed ∙ ground arith)

-- A peer of an id that the table lacks leaves nothing changed and closes nobody.
leave_absent : (r : Router) (p : Peer) → lookup p.route_id r.routes ≡ none → leave r p ≡ (r, [])
unfolding leave
leave_absent r p absent = rw (absent, leave)

stopped-step :
    (r : Router) (op : Op)
    → r.stopped ≡ true
    → r.routes ≡ []
    → ((step r op).stopped ≡ true) × ((step r op).routes ≡ [])
unfolding step join_locked leave forward_locked sweep stop
stopped-step r (joins t p own now) s e = ground arith
stopped-step r (leaves p) s e = ground arith
stopped-step r (forwards h now) s e = ground arith
stopped-step r (sweeps now) s e = ground arith
stopped-step r stops s e = ground arith

run-stopped :
    (r : Router) (ops : List Op)
    → r.stopped ≡ true
    → r.routes ≡ []
    → ((run r ops).stopped ≡ true) × ((run r ops).routes ≡ [])
unfolding run
run-stopped r [] s e = (s, e)
run-stopped r (op ∷ ops) s e =
    let (s', e') = stopped-step r op s e in run-stopped (step r op) ops s' e'

-- Once a router that keeps its invariant has been stopped, whatever is called afterwards: it holds no route, every join is
-- refused as stopped, every forward finds no route, and stopping again changes and closes nothing.
pub stop_final :
    (r : Router) (ops : List Op) (t : Ticket) (p : Peer) (h : RouteHandle) (now : ℕ)
    → Inv r
    → let after = run (stop r).0 ops in
      (after.routes ≡ [])
      × (join_locked after t p now ≡ (after, err router_stopped))
      × (forward_locked after h now ≡ (after, err route_unknown))
      × (stop after ≡ (after, []))
unfolding join_locked forward_locked stop
stop_final r ops t p h now v =
    let (s, e) = run-stopped (stop r).0 ops (ground arith) (ground (arith, v.stopped_empty)) in
    (e, ground arith, ground arith, ground arith)
