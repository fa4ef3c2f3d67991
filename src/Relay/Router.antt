-- ===== src/Relay/Router.antt =====
-- internal/relay/router.go: the route table. Times are nanoseconds; an operation takes the clock's
-- reading where the code asks for it. The table's lock makes each function ending in `_locked`
-- one step. Closing a peer is an output: a list of the peers closed, in order.
pub mod Invariant
pub mod Traffic
pub mod Joins
pub mod Sweeps
pub mod Examples
use vibe_bridge.Base.{
  ℕ, ◌+◌, ◌-◌, ◌*◌, Bool, true, false, not, ◌&&◌, ◌||◌, List, [], ◌∷◌, ◌++◌, Option, none, some,
  Bytes, ltb, leb, ◌==◌, if◌then◌else◌, length, Result, ok, err, is_some,
}
use vibe_bridge.Base.Int.{ℤ, pos, negsuc}
use vibe_bridge.Base.Map.{lookup, insert, delete}

pub data Error : Type 0 where
  route_full route_endpoint route_mismatch route_unknown : Error
  peer_closed peer_missing router_stopped : Error

-- `RelayEndpoint`; an endpoint that the code does not name is `unspecified`.
pub data Endpoint : Type 0 where
  unspecified agent client : Endpoint

-- A peer, known by a number; its endpoint and route are those of the ticket that it presented.
pub record Peer : Type 0 where
  pub number : ℕ
  pub endpoint : Endpoint
  pub route_id : Bytes

pub record Ticket : Type 0 where
  pub route_id : Bytes
  pub endpoint : Endpoint
  pub max_connections : ℕ

pub record Route : Type 0 where
  pub id : Bytes
  pub connection_cap : ℕ
  pub agent : Option Peer
  pub client : Option Peer
  pub created_at : ℕ
  pub last_activity : ℕ

pub record RouterConfig : Type 0 where
  pub idle_timeout : ℤ
  pub max_lifetime : ℤ
  pub sweep_interval : ℤ

pub record Router : Type 0 where
  pub routes : List (Bytes × Route)
  pub stopped : Bool
  pub idle : ℤ
  pub max_life : ℤ
  pub sweep_int : ℤ

-- The handle that `Join` returns.
pub record RouteHandle : Type 0 where
  pub id : Bytes
  pub endpoint : Endpoint
  pub owner : Peer

abbrev pub second : ℕ
second = 1000000000

pub default_route_idle_timeout : ℤ
default_route_idle_timeout = pos (5 * 60 * second)

pub default_route_max_lifetime : ℤ
default_route_max_lifetime = pos (30 * 60 * second)

pub default_sweep_interval : ℤ
default_sweep_interval = pos (30 * second)

abbrev pub positive : ℤ → Bool
positive (pos n) = ltb 0 n
positive (negsuc n) = false

abbrev is_zero : ℤ → Bool
is_zero (pos n) = n == 0
is_zero (negsuc n) = false

pub new_router_with_config : RouterConfig → Router
unfolding default_route_idle_timeout default_route_max_lifetime default_sweep_interval
new_router_with_config c = record {
  routes = [];
  stopped = false;
  idle = if positive c.idle_timeout then c.idle_timeout else default_route_idle_timeout;
  max_life = if is_zero c.max_lifetime then default_route_max_lifetime else c.max_lifetime;
  sweep_int = if positive c.sweep_interval then c.sweep_interval else default_sweep_interval;
}

abbrev pub one_if : Bool → ℕ
one_if true = 1
one_if false = 0

pub occupied : Route → ℕ
occupied r = one_if (is_some r.agent) + one_if (is_some r.client)

-- By the endpoint that the peer reports.
pub other_end : Endpoint → Route → Option Peer
other_end agent r = r.client
other_end client r = r.agent
other_end unspecified r = none

pub other_of : Route → Peer → Option Peer
unfolding other_end
other_of r p = other_end p.endpoint r

abbrev pub max2 : ℕ → ℕ
max2 n = if ltb n 2 then 2 else n

pub fresh_route : Ticket → ℕ → Route
fresh_route t now = record {
  id = t.route_id;
  connection_cap = max2 t.max_connections;
  agent = none;
  client = none;
  created_at = now;
  last_activity = now;
}

-- The route of the ticket, and the table that has it.
pub ensure_route : Router → Ticket → ℕ → Route × Router
unfolding fresh_route
ensure_route r t now = elim (lookup t.route_id r.routes) [
  | some rt ↦ (rt, r)
  | none ↦ (fresh_route t now, record r { routes = insert t.route_id (fresh_route t now) r.routes })
]

-- The slot of the ticket's endpoint is taken, unless it is occupied or no slot at all.
pub take_slot : Endpoint → Route → Peer → Result Error Route
take_slot agent rt p =
    if is_some rt.agent then err route_endpoint else ok (record rt { agent = some p })
take_slot client rt p =
    if is_some rt.client then err route_endpoint else ok (record rt { client = some p })
take_slot unspecified rt p = err route_mismatch

pub join_route : Router → Ticket → Peer → Route → Router × Result Error (RouteHandle × Option Peer)
join_route r t p rt =
    if leb rt.connection_cap (occupied rt)
    then (r, err route_full)
    else elim (take_slot t.endpoint rt p) [
      | err x ↦ (r, err x)
      | ok rt' ↦ (
        record r { routes = insert t.route_id rt' r.routes },
        ok (record { id = t.route_id; endpoint = t.endpoint; owner = p }, other_of rt' p),
      )
    ]

pub join_locked : Router → Ticket → Peer → ℕ → Router × Result Error (RouteHandle × Option Peer)
join_locked r t p now =
    if r.stopped
    then (r, err router_stopped)
    else let (rt, r') = ensure_route r t now in join_route r' t p rt

-- A nil ticket or peer is `none`.
pub join :
    Router → Option Ticket → Option Peer → ℕ → Router × Result Error (RouteHandle × Option Peer)
unfolding join_locked
join r none p now = (r, err route_mismatch)
join r (some t) none now = (r, err peer_closed)
join r (some t) (some p) now = join_locked r t p now

-- The peer's slot is emptied, whoever holds it.
pub leave_slot : Endpoint → Route → Route
leave_slot agent rt = record rt { agent = none }
leave_slot client rt = record rt { client = none }
leave_slot unspecified rt = rt

abbrev pub peers : Option Peer → List Peer
peers none = []
peers (some p) = p ∷ []

pub leave : Router → Peer → Router × List Peer
unfolding leave_slot
leave r p = elim (lookup p.route_id r.routes) [
  | none ↦ (r, [])
  | some rt ↦
      let rt' = leave_slot p.endpoint rt in
      if not (is_some rt'.agent) || not (is_some rt'.client)
      then (record r { routes = delete p.route_id r.routes }, p ∷ peers (other_of rt p))
      else (record r { routes = insert p.route_id rt' r.routes }, [])
]

-- `Route.Forward` up to the unlock: the destination, and the activity noted.
pub forward_locked : Router → RouteHandle → ℕ → Router × Result Error Peer
forward_locked r h now = elim (lookup h.id r.routes) [
  | none ↦ (r, err route_unknown)
  | some rt ↦ elim (other_of rt h.owner) [
    | none ↦ (r, err peer_missing)
    | some dest ↦
        (record r { routes = insert h.id (record rt { last_activity = now }) r.routes }, ok dest)
  ]
]

pub record Forwarded : Type 0 where
  pub router : Router
  pub answer : Result Error Peer
  pub closed : List Peer

-- The whole of `Route.Forward`: `accepts` tells whether the destination's own `Forward` takes the
-- bytes; an error of it drops the route. The destination is part of the answer.
pub forward : (Peer → Bool) → Router → RouteHandle → ℕ → Forwarded
forward accepts r h now =
    let (r', found) = forward_locked r h now in
    elim found [
      | err x ↦ record { router = r'; answer = err x; closed = [] }
      | ok dest ↦
          if accepts dest
          then record { router = r'; answer = ok dest; closed = [] }
          else let (r'', closed) = leave r' dest in
            record { router = r''; answer = err peer_closed; closed = closed }
    ]

-- Whether a positive limit is reached.
abbrev pub reached : ℤ → ℕ → Bool
reached (pos n) age = ltb 0 n && leb n age
reached (negsuc n) age = false

abbrev pub expired : Router → ℕ → Route → Bool
expired r now rt = reached r.max_life (now - rt.created_at)

abbrev pub overdue : Router → ℕ → Route → Bool
overdue r now rt = expired r now rt || reached r.idle (now - rt.last_activity)

-- The loop that collects `toClose`.
pub to_close : Router → ℕ → List (Bytes × Route) → List Route
to_close r now [] = []
to_close r now ((k, rt) ∷ m) =
    let rest = to_close r now m in if overdue r now rt then rt ∷ rest else rest

-- The loop of `delete(router.routes, rt.id)`.
pub delete_routes : List Route → List (Bytes × Route) → List (Bytes × Route)
delete_routes [] m = m
delete_routes (rt ∷ rts) m = delete_routes rts (delete rt.id m)

abbrev pub close_route : Route → List Peer
close_route rt = peers rt.agent ++ peers rt.client

abbrev pub close_routes : List Route → List Peer
close_routes [] = []
close_routes (rt ∷ rts) = close_route rt ++ close_routes rts

pub record SweepResult : Type 0 where
  pub idle_closed : ℕ
  pub expired_closed : ℕ

-- The counting loop.
pub count_closed : Router → ℕ → List Route → SweepResult
count_closed r now [] = record { idle_closed = 0; expired_closed = 0 }
count_closed r now (rt ∷ rts) =
    let rest = count_closed r now rts in
    if expired r now rt
    then record rest { expired_closed = rest.expired_closed + 1 }
    else record rest { idle_closed = rest.idle_closed + 1 }

pub record Swept : Type 0 where
  pub router : Router
  pub result : SweepResult
  pub closed : List Peer

pub sweep : Router → ℕ → Swept
sweep r now =
    if r.stopped
    then record { router = r; result = record { idle_closed = 0; expired_closed = 0 }; closed = [] }
    else let gone = to_close r now r.routes in
      record {
        router = record r { routes = delete_routes gone r.routes };
        result = count_closed r now gone;
        closed = close_routes gone;
      }

abbrev pub routes_of : List (Bytes × Route) → List Route
routes_of [] = []
routes_of ((k, rt) ∷ m) = rt ∷ routes_of m

pub stop : Router → Router × List Peer
stop r =
    if r.stopped
    then (r, [])
    else (record r { stopped = true; routes = [] }, close_routes (routes_of r.routes))
