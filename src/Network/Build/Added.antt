-- ===== src/Network/Build/Added.antt =====
-- `AddLine` over networks that extend one another: src/TransportNetwork.cpp.
use live_transport_network_m.Base.{
  suc, subst, ◌≡◌, ◌≢◌, refl, arith, Bool, true, false, Bool-cases, Option-cases, inl, inr, none,
  List, [], ◌∷◌, bytes_eq, lookup, emplace, lookup-emplace, All, All-weaken,
}
use live_transport_network_m.Network.Types.{
  Route, Line, Node, RouteInternal, LineInternal, TransportNetwork, Result, returns, throws,
  undefined, ◌>>=◌, get_station, get_line,
}
use live_transport_network_m.Network.Build.{
  push_edges, all_stations, make_route, add_route_to_line, add_routes, add_line,
}
use live_transport_network_m.Network.Build.Returns.{add_line_returns}
use live_transport_network_m.Network.Build.Linked.{
  AllKnown, Extends, Extends-refl, Extends-trans, push_edges-Extends, push_edges-Linked,
  all_stations-AllKnown, AllKnown-Extends, Linked-Extends, HasStops, HasRoutes,
}

pub returns-injective : {A : Type 0} {a b : A} → returns a ≡ returns b → a ≡ b
returns-injective e = cc

pub >>=-eq-returns :
    {A B : Type 0} (m : Result A) (f : A → Result B) {b : B}
    → (m >>= f) ≡ returns b
    → (a : A) × (m ≡ returns a) × (f a ≡ returns b)
>>=-eq-returns (returns a) f h = (a, refl, h)
>>=-eq-returns (throws e) f h = cc
>>=-eq-returns undefined f h = cc

fresh-Extends :
    (n n' : TransportNetwork) (address : _)
    → Extends (record n { fresh = address }) n'
    → Extends n n'
unfolding get_station
fresh-Extends n n' address g = record { stations = g.stations; times = g.times }

pub known_fresh :
    (n : TransportNetwork) (address : _) (stops : List Node)
    → AllKnown stops n
    → AllKnown stops (record n { fresh = address })
unfolding get_station
known_fresh n address stops k = k

make_route_lem :
    (route : Route) (line : LineInternal) (n : TransportNetwork) (stops : List Node)
    (r : Bool × LineInternal × TransportNetwork)
    → AllKnown stops n
    → make_route route stops line n ≡ returns r
    → Extends n r.2 × HasStops r.2 stops
unfolding make_route
make_route_lem route line n [] r k e = cc
make_route_lem route line n (a ∷ stops) r k e =
    let made : RouteInternal = record {
      address = n.fresh;
      id = route.id;
      line = line.id;
      stops = a ∷ stops;
    } in
    let start = record n { fresh = suc n.fresh } in
    let more =
      fresh-Extends n (push_edges made (a ∷ stops) start) (suc n.fresh)
        (push_edges-Extends made (a ∷ stops) start) in
    let linked =
      push_edges-Linked made (a ∷ stops) start (known_fresh n (suc n.fresh) (a ∷ stops) k) in
    subst (λ (x : Bool × LineInternal × TransportNetwork). Extends n x.2 × HasStops x.2 (a ∷ stops))
      (returns-injective e) (more, (AllKnown-Extends (a ∷ stops) more k, linked))

pub add_route_to_line_lem :
    (route : Route) (line : LineInternal) (n : TransportNetwork)
    (r : Bool × LineInternal × TransportNetwork)
    → add_route_to_line route line n ≡ returns r
    → Extends n r.2 × (r.0 ≡ true → HasStops r.2 route.stops)
unfolding add_route_to_line
add_route_to_line_lem route line n r e = elim (Option-cases (lookup route.id line.routes)) [
  | inr (old, found) ↦ unchanged (rw (found, add_route_to_line) at e)
  | inl new ↦ elim (Bool-cases (all_stations route.stops n)) [
    | inr missing ↦ unchanged (rw missing at (rw (new, add_route_to_line) at e))
    | inl there ↦
        let (more, has) =
          make_route_lem route line n route.stops r (all_stations-AllKnown route.stops n there)
            (rw there at (rw (new, add_route_to_line) at e)) in
        (more, λ _. has)
  ]
]
  where
    unchanged :
        returns (false, line, n) ≡ returns r
        → Extends n r.2 × (r.0 ≡ true → HasStops r.2 route.stops)
    unchanged f =
        subst
          (λ (x : Bool × LineInternal × TransportNetwork).
            Extends n x.2 × (x.0 ≡ true → HasStops x.2 route.stops))
          (returns-injective f) (Extends-refl n, λ h. cc)

HasRoutes-Extends :
    {n n' : TransportNetwork} (routes : List Route)
    → Extends n n'
    → HasRoutes n routes
    → HasRoutes n' routes
HasRoutes-Extends routes g =
    All-weaken routes (λ r h. (AllKnown-Extends r.stops g h.0, Linked-Extends r.stops g h.1))

add_routes_lem :
    (routes : List Route) (line : LineInternal) (n : TransportNetwork)
    (r : Bool × LineInternal × TransportNetwork)
    → add_routes routes line n ≡ returns r
    → Extends n r.2 × (r.0 ≡ true → HasRoutes r.2 routes)
unfolding add_routes
add_routes_lem [] line n r e =
    subst (λ (x : Bool × LineInternal × TransportNetwork). Extends n x.2 × (x.0 ≡ true → Unit {0}))
      (returns-injective e) (Extends-refl n, λ _. tt)
add_routes_lem (route ∷ routes) line n r e =
    let (s, e₁, e₂) = >>=-eq-returns (add_route_to_line route line n) _ e in
    let (more, has) = add_route_to_line_lem route line n s e₁ in
    elim (Bool-cases s.0) [
      | inl ok ↦
          let (later, rest) = add_routes_lem routes s.1 s.2 r (rw ok at e₂) in
          let (known_stops, linked) = has ok in
          (
            Extends-trans more later,
            λ h. (
              (
                AllKnown-Extends route.stops later known_stops,
                Linked-Extends route.stops later linked,
              ),
              rest h,
            ),
          )
      | inr failed ↦
          subst
            (λ (x : Bool × LineInternal × TransportNetwork).
              Extends n x.2 × (x.0 ≡ true → HasRoutes x.2 (route ∷ routes)))
            (returns-injective (rw failed at e₂)) (more, λ h. ground arith)
    ]

lines-Extends :
    (n n' : TransportNetwork) (ls : _) → Extends n n' → Extends n (record n' { lines = ls })
unfolding get_station
lines-Extends n n' ls g = record { stations = g.stations; times = g.times }

HasRoutes-lines :
    (n : TransportNetwork) (ls : _) (routes : List Route)
    → HasRoutes n routes
    → HasRoutes (record n { lines = ls }) routes
HasRoutes-lines n ls routes = HasRoutes-Extends routes (lines-Extends n n ls (Extends-refl n))

pub add_line_lem :
    (line : Line) (n : TransportNetwork) (r : TransportNetwork × Bool)
    → add_line line n ≡ returns r
    → Extends n r.0 × (r.1 ≡ true → HasRoutes r.0 line.routes × (get_line line.id r.0 ≢ none))
unfolding add_line get_line
add_line_lem line n r e = elim (Option-cases (get_line line.id n)) [
  | inr (old, found) ↦ ended n false (Extends-refl n, λ h. cc) (rw (found, add_line) at e)
  | inl new ↦
      let (s, e₁, e₂) = >>=-eq-returns (add_routes line.routes _ n) _ (rw (new, add_line) at e) in
      let (more, has) = add_routes_lem line.routes _ n s e₁ in
      elim (Bool-cases s.0) [
        | inr failed ↦ ended s.2 false (more, λ h. cc) (rw failed at e₂)
        | inl ok ↦
            ended (record s.2 { lines = emplace line.id s.1 s.2.lines }) true
              (
                lines-Extends n s.2 _ more,
                λ _. (HasRoutes-lines s.2 _ line.routes (has ok), there s.2 s.1),
              )
              (rw ok at e₂)
      ]
]
  where
    Added : TransportNetwork × Bool → Type 0
    Added x =
        Extends n x.0 × (x.1 ≡ true → HasRoutes x.0 line.routes × (get_line line.id x.0 ≢ none))

    ended :
        (n' : TransportNetwork) (flag : Bool)
        → Added (n', flag)
        → returns (n', flag) ≡ returns r
        → Added r
    ended n' flag a f = subst Added (returns-injective f) a

    there :
        (n' : TransportNetwork) (l : LineInternal)
        → get_line line.id (record n' { lines = emplace line.id l n'.lines }) ≢ none
    there n' l =
        ground (arith, lookup-emplace line.id line.id l n'.lines, bytes_eq.beq_iff line.id line.id)

-- `AddLine` of a line whose routes all have stops returns, and whether it succeeds or not it keeps
-- every station and, for each two stations in each order, the time of the first edge from the one
-- to the other; where it returns true, the stops of all the line's routes are stations, each with
-- an edge to the next, and the line is in the network.
pub add_line-HasRoutes :
    (line : Line) (n : TransportNetwork)
    → All (λ (r : Route). r.stops ≢ []) line.routes
    → (r : TransportNetwork × Bool) × (add_line line n ≡ returns r)
      × Extends n r.0
      × (r.1 ≡ true → HasRoutes r.0 line.routes × (get_line line.id r.0 ≢ none))
add_line-HasRoutes line n ne =
    let (r, made) = add_line_returns line n ne in
    let (more, has) = add_line_lem line n r made in (r, made, more, has)
