-- ===== src/Relay/Router/Invariant.antt =====
-- internal/relay/router.go: what holds of the route table between two calls.
use vibe_bridge.Base.{
  Result-cases, ℕ, ◌≤◌, ◌≡◌, refl, ◌∙◌, true, false, Option, none, some, List, [], ◌∷◌, Bytes,
  arith, leb, ok, inl, inr, Option-cases, Bool-cases, if_cases,
}
use vibe_bridge.Base.Map.{
  lookup, insert, delete, Distinct, AllEntries, lookup-AllEntries, insert-AllEntries,
  delete-AllEntries, insert-Distinct, delete-Distinct,
}
use vibe_bridge.Relay.Router.{
  Endpoint, Peer, Ticket, Route, Router, RouteHandle, unspecified, agent, client, fresh_route,
  occupied, other_of, ensure_route, take_slot, join_route, join_locked, leave_slot, leave,
  forward_locked, to_close, delete_routes, sweep, stop,
}

-- A slot holds a peer of its own end and route.
abbrev pub Holds : Endpoint → Bytes → Option Peer → Type 0
Holds e k none = Unit {0}
Holds e k (some p) = (p.endpoint ≡ e) × (p.route_id ≡ k)

pub record RouteIsValid (k : Bytes) (rt : Route) : Type 0 where
  pub own_key : rt.id ≡ k
  pub pair_fits : 2 ≤ rt.connection_cap
  pub agent_side : Holds agent k rt.agent
  pub client_side : Holds client k rt.client

pub record Inv (r : Router) : Type 0 where
  pub distinct : Distinct r.routes
  pub valid : AllEntries RouteIsValid r.routes
  pub stopped_empty : r.stopped ≡ true → r.routes ≡ []

fresh_route-valid : (t : Ticket) (now : ℕ) → RouteIsValid t.route_id (fresh_route t now)
unfolding fresh_route
fresh_route-valid t now = ground arith

ensure_route-Inv :
    (r : Router) (t : Ticket) (now : ℕ)
    → r.stopped ≡ false
    → Inv r
    → RouteIsValid t.route_id (ensure_route r t now).0 × Inv (ensure_route r t now).1
unfolding ensure_route
ensure_route-Inv r t now live v = elim (Option-cases (lookup t.route_id r.routes)) [
  | inl absent ↦
      rw (absent, ensure_route)
        (
          fresh_route-valid t now,
          record {
            distinct = insert-Distinct t.route_id (fresh_route t now) r.routes v.distinct;
            valid =
                insert-AllEntries RouteIsValid t.route_id (fresh_route t now) r.routes
                  (fresh_route-valid t now) v.valid;
            stopped_empty = λ s. ground arith;
          },
        )
  | inr (rt, found) ↦
      rw (found, ensure_route)
        (lookup-AllEntries RouteIsValid t.route_id rt r.routes v.valid found, v)
]

take_slot-valid :
    (e : Endpoint) (k : Bytes) (rt : Route) (p : Peer) (rt' : Route)
    → p.endpoint ≡ e
    → p.route_id ≡ k
    → RouteIsValid k rt
    → take_slot e rt p ≡ ok rt'
    → RouteIsValid k rt'
unfolding take_slot
take_slot-valid agent k rt p rt' pe pk v e =
    let taken : rt' ≡ record rt { agent = some p } = ground arith in
    rw taken (record {
      own_key = v.own_key;
      pair_fits = v.pair_fits;
      agent_side = (pe, pk);
      client_side = v.client_side;
    })
take_slot-valid client k rt p rt' pe pk v e =
    let taken : rt' ≡ record rt { client = some p } = ground arith in
    rw taken (record {
      own_key = v.own_key;
      pair_fits = v.pair_fits;
      agent_side = v.agent_side;
      client_side = (pe, pk);
    })
take_slot-valid unspecified k rt p rt' pe pk v e = cc

insert-Inv :
    (r : Router) (k : Bytes) (rt : Route)
    → r.stopped ≡ false
    → RouteIsValid k rt
    → Inv r
    → Inv (record r { routes = insert k rt r.routes })
insert-Inv r k rt live ok_rt v = record {
  distinct = insert-Distinct k rt r.routes v.distinct;
  valid = insert-AllEntries RouteIsValid k rt r.routes ok_rt v.valid;
  stopped_empty = λ s. absurd (ground arith);
}

delete-Inv : (r : Router) (k : Bytes) → Inv r → Inv (record r { routes = delete k r.routes })
delete-Inv r k v = record {
  distinct = delete-Distinct k r.routes v.distinct;
  valid = delete-AllEntries RouteIsValid k r.routes v.valid;
  stopped_empty = λ s. rw (v.stopped_empty s);
}

-- The caller's peer stands for the ticket's own end and route.
abbrev pub Presents : Ticket → Peer → Type 0
Presents t p = (p.endpoint ≡ t.endpoint) × (p.route_id ≡ t.route_id)

join_route-Inv :
    (r : Router) (t : Ticket) (p : Peer) (rt : Route)
    → Presents t p
    → r.stopped ≡ false
    → RouteIsValid t.route_id rt
    → Inv r
    → Inv (join_route r t p rt).0
unfolding join_route
join_route-Inv r t p rt own live ok_rt v = elim (Bool-cases (leb rt.connection_cap (occupied rt))) [
  | inl full ↦ rw full v
  | inr room ↦ rw room (elim (Result-cases (take_slot t.endpoint rt p)) [
    | inr (x, e) ↦ rw (e, join_route) v
    | inl (rt', e) ↦
        rw (e, join_route)
          (insert-Inv r t.route_id rt' live
            (take_slot-valid t.endpoint t.route_id rt p rt' own.0 own.1 ok_rt e) v)
  ])
]

ensure_route-stopped :
    (r : Router) (t : Ticket) (now : ℕ) → (ensure_route r t now).1.stopped ≡ r.stopped
unfolding ensure_route
ensure_route-stopped r t now = ground arith

pub join_locked-Inv :
    (r : Router) (t : Ticket) (p : Peer) (now : ℕ)
    → Presents t p
    → Inv r
    → Inv (join_locked r t p now).0
unfolding join_locked
join_locked-Inv r t p now own v = elim (Bool-cases r.stopped) [
  | inl s ↦ simp s v
  | inr live ↦
      let (ok_rt, v') = ensure_route-Inv r t now live v in
      simp live (
        join_route-Inv (ensure_route r t now).1 t p (ensure_route r t now).0 own
          (ensure_route-stopped r t now ∙ live) ok_rt v')
]

-- A router with a route is not stopped.
live_of_found :
    (r : Router) (k : Bytes) (rt : Route) → Inv r → lookup k r.routes ≡ some rt → r.stopped ≡ false
live_of_found r k rt v found = elim (Bool-cases r.stopped) [
  | inl s ↦ let e : r.routes ≡ [] = v.stopped_empty s in absurd (ground (arith, e))
  | inr live ↦ live
]

leave_slot-valid :
    (e : Endpoint) (k : Bytes) (rt : Route) → RouteIsValid k rt → RouteIsValid k (leave_slot e rt)
unfolding leave_slot
leave_slot-valid unspecified k rt v = v
leave_slot-valid agent k rt v = record {
  own_key = v.own_key;
  pair_fits = v.pair_fits;
  agent_side = tt;
  client_side = v.client_side;
}
leave_slot-valid client k rt v = record {
  own_key = v.own_key;
  pair_fits = v.pair_fits;
  agent_side = v.agent_side;
  client_side = tt;
}

found_valid :
    (r : Router) (k : Bytes) (rt : Route) → Inv r → lookup k r.routes ≡ some rt → RouteIsValid k rt
found_valid r k rt v found = lookup-AllEntries RouteIsValid k rt r.routes v.valid found

pub leave-Inv : (r : Router) (p : Peer) → Inv r → Inv (leave r p).0
unfolding leave
leave-Inv r p v = elim (Option-cases (lookup p.route_id r.routes)) [
  | inl absent ↦ rw (absent, leave) v
  | inr (rt, found) ↦
      rw (found, leave)
        (if_cases (λ (q : Router × List Peer). Inv q.0) _ _ _ (λ gone. delete-Inv r p.route_id v)
          (λ kept.
            insert-Inv r p.route_id (leave_slot p.endpoint rt)
              (live_of_found r p.route_id rt v found)
              (leave_slot-valid p.endpoint p.route_id rt (found_valid r p.route_id rt v found)) v))
]

touched-valid :
    (k : Bytes) (rt : Route) (now : ℕ)
    → RouteIsValid k rt
    → RouteIsValid k (record rt { last_activity = now })
touched-valid k rt now v = record {
  own_key = v.own_key;
  pair_fits = v.pair_fits;
  agent_side = v.agent_side;
  client_side = v.client_side;
}

pub forward_locked-Inv :
    (r : Router) (h : RouteHandle) (now : ℕ) → Inv r → Inv (forward_locked r h now).0
unfolding forward_locked
forward_locked-Inv r h now v = elim (Option-cases (lookup h.id r.routes)) [
  | inl absent ↦ rw (absent, forward_locked) v
  | inr (rt, found) ↦
      rw (found, forward_locked)
        (elim (Option-cases (other_of rt h.owner)) [
          | inl alone ↦ rw (alone, forward_locked) v
          | inr (dest, other) ↦
              rw (other, forward_locked)
                (insert-Inv r h.id (record rt { last_activity = now })
                  (live_of_found r h.id rt v found)
                  (touched-valid h.id rt now (found_valid r h.id rt v found)) v)
        ])
]

delete_routes-Distinct :
    (rts : List Route) (m : List (Bytes × Route)) → Distinct m → Distinct (delete_routes rts m)
unfolding delete_routes
delete_routes-Distinct [] m d = d
delete_routes-Distinct (rt ∷ rts) m d =
    delete_routes-Distinct rts (delete rt.id m) (delete-Distinct rt.id m d)

delete_routes-valid :
    (rts : List Route) (m : List (Bytes × Route))
    → AllEntries RouteIsValid m
    → AllEntries RouteIsValid (delete_routes rts m)
unfolding delete_routes
delete_routes-valid [] m d = d
delete_routes-valid (rt ∷ rts) m d =
    delete_routes-valid rts (delete rt.id m) (delete-AllEntries RouteIsValid rt.id m d)

pub sweep-Inv : (r : Router) (now : ℕ) → Inv r → Inv (sweep r now).router
unfolding sweep
sweep-Inv r now v = elim (Bool-cases r.stopped) [
  | inl s ↦ simp s v
  | inr live ↦ simp live (record {
    distinct = delete_routes-Distinct (to_close r now r.routes) r.routes v.distinct;
    valid = delete_routes-valid (to_close r now r.routes) r.routes v.valid;
    stopped_empty = λ s. absurd (ground arith);
  })
]

pub stop-Inv : (r : Router) → Inv r → Inv (stop r).0
unfolding stop
stop-Inv r v = elim (Bool-cases r.stopped) [
  | inl s ↦ simp s v
  | inr live ↦ simp live (record { distinct = tt; valid = tt; stopped_empty = λ s. refl })
]
