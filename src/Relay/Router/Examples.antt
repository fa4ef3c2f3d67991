-- ===== src/Relay/Router/Examples.antt =====
-- internal/relay/router.go on concrete inputs.
use vibe_bridge.Base.{
  ◌≡◌, ◌≢◌, refl, none, some, List, [], ◌∷◌, Bytes, arith, false, ok, err, dec_bytes,
}
use vibe_bridge.Base.Int.{pos, negsuc}
use vibe_bridge.Base.Map.{lookup}
use vibe_bridge.Relay.Router.{
  Peer, Ticket, Route, Router, RouterConfig, RouteHandle, unspecified, agent, client,
  route_mismatch, fresh_route, new_router_with_config, join_locked, other_of, forward_locked, sweep,
  join_route, ensure_route, take_slot, occupied,
}
use vibe_bridge.Relay.Router.Invariant.{Inv}
use vibe_bridge.Relay.Router.Traffic.{
  Op, joins, step, run, opposite, run-new_router-Inv, forward_isolated,
}
use vibe_bridge.Relay.Router.Joins.{agent_handle, client_handle, join_pairs}
use vibe_bridge.Relay.Router.Sweeps.{Remains, Sorted, sweep_exact}

abbrev config : RouterConfig
config = record { idle_timeout = pos 50; max_lifetime = negsuc 0; sweep_interval = pos 10 }

abbrev empty : Router
empty = new_router_with_config config

abbrev room : Bytes
room = 1 ∷ 2 ∷ []

abbrev agent_ticket : Ticket
agent_ticket = record { route_id = room; endpoint = agent; max_connections = 2 }

abbrev client_ticket : Ticket
client_ticket = record { route_id = room; endpoint = client; max_connections = 2 }

abbrev stray_ticket : Ticket
stray_ticket = record { route_id = room; endpoint = unspecified; max_connections = 2 }

abbrev agent_peer : Peer
agent_peer = record { number = 1; endpoint = agent; route_id = room }

abbrev client_peer : Peer
client_peer = record { number = 2; endpoint = client; route_id = room }

abbrev stale_peer : Peer
stale_peer = record { number = 3; endpoint = agent; route_id = room }

abbrev pairing : List Op
pairing =
    joins agent_ticket agent_peer (refl, refl) 100
    ∷ joins client_ticket client_peer (refl, refl) 101
    ∷ []

abbrev paired : Router
paired = run empty pairing

abbrev paired_route : Route
paired_route = record (fresh_route agent_ticket 100) {
  agent = some agent_peer;
  client = some client_peer;
}

run-new_router-Inv_example : Inv (run empty pairing)
run-new_router-Inv_example = run-new_router-Inv config pairing

paired-Inv : Inv paired
paired-Inv = run-new_router-Inv config pairing

paired_found : lookup room paired.routes ≡ some paired_route
unfolding run step new_router_with_config join_locked join_route ensure_route fresh_route take_slot
    occupied dec_bytes
paired_found = refl

paired_live : paired.stopped ≡ false
unfolding run step new_router_with_config join_locked join_route ensure_route fresh_route take_slot
    occupied dec_bytes
paired_live = refl

abbrev handle : RouteHandle
handle = client_handle client_ticket client_peer

-- The client's message is handed to the Agent.
abbrev forwarded : Router
forwarded = (forward_locked paired handle 110).0

forwarded_to_agent : forward_locked paired handle 110 ≡ (forwarded, ok agent_peer)
unfolding run step new_router_with_config join_locked join_route ensure_route fresh_route take_slot
    occupied dec_bytes forward_locked other_of
forwarded_to_agent = refl

forward_isolated_example :
    (agent_peer.route_id ≡ handle.id)
    × (agent_peer.endpoint ≡ opposite handle.owner.endpoint)
    × ((k : Bytes) → k ≢ handle.id → lookup k forwarded.routes ≡ lookup k paired.routes)
forward_isolated_example =
    forward_isolated paired forwarded handle 110 agent_peer paired-Inv forwarded_to_agent

empty_live : empty.stopped ≡ false
unfolding new_router_with_config
empty_live = refl

empty_lacks : lookup room empty.routes ≡ none
unfolding new_router_with_config
empty_lacks = refl

abbrev stray_peer : Peer
stray_peer = record { number = 4; endpoint = unspecified; route_id = room }

stray_joined :
    join_locked empty stray_ticket stray_peer 100
    ≡ (record empty { routes = (room, fresh_route stray_ticket 100) ∷ [] }, err route_mismatch)
unfolding new_router_with_config join_locked join_route ensure_route fresh_route take_slot occupied
    dec_bytes
stray_joined = refl

join_pairs_example :
    let first = join_locked empty agent_ticket agent_peer 100 in
    let second = join_locked first.0 client_ticket client_peer 101 in
    (first.1 ≡ ok (agent_handle agent_ticket agent_peer, none))
    × (second.1 ≡ ok (client_handle client_ticket client_peer, some agent_peer))
    × ((forward_locked second.0 (agent_handle agent_ticket agent_peer) 102).1 ≡ ok client_peer)
    × ((forward_locked second.0 (client_handle client_ticket client_peer) 102).1 ≡ ok agent_peer)
join_pairs_example =
    join_pairs empty agent_ticket client_ticket agent_peer client_peer 100 101 102 empty_live
      empty_lacks refl refl refl (refl, refl) (refl, refl)

agent_known : agent ≢ unspecified
agent_known e = cc

three_not_one : stale_peer.number ≢ agent_peer.number
three_not_one e = omega (arith, e)

sweep_exact_example :
    ((k : Bytes)
      → Remains paired 160 (lookup k paired.routes) (lookup k (sweep paired 160).router.routes))
    × Sorted paired 160 paired.routes
        (sweep paired 160).result.expired_closed
        (sweep paired 160).result.idle_closed
        (sweep paired 160).closed
sweep_exact_example = sweep_exact paired 160 paired-Inv paired_live
