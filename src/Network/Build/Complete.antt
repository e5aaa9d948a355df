-- ===== src/Network/Build/Complete.antt =====
-- When `AddLine` succeeds: src/TransportNetwork.cpp.
use live_transport_network_m.Base.{
  ◌≡◌, ◌≢◌, refl, true, false, none, List, [], ◌∷◌, bytes_eq, lookup, assign, emplace,
  lookup-assign, All, All-weaken, ◌==◌,
}
use live_transport_network_m.Network.Types.{
  Ident, Route, Line, Node, RouteInternal, LineInternal, TransportNetwork, returns, get_line,
}
use live_transport_network_m.Network.Build.{make_route, add_route_to_line, add_routes, add_line}
use live_transport_network_m.Network.Build.Linked.{
  AllKnown, AllKnown-Extends, Extends, AllKnown-all_stations,
}
use live_transport_network_m.Network.Build.Added.{add_route_to_line_lem}

abbrev pub DistinctIds : List Route → Type 0
DistinctIds [] = Unit
DistinctIds (route ∷ routes) =
    All (λ (r : Route). (route.id == r.id) ≡ false) routes × DistinctIds routes

-- Routes that can be added to the line: they have stops, all of them stations, and new ids.
abbrev Ready : LineInternal → TransportNetwork → Route → Type 0
Ready line n r = (r.stops ≢ []) × AllKnown r.stops n × (lookup r.id line.routes ≡ none)

make_route-Ready :
    (route : Route) (line : LineInternal) (n : TransportNetwork) (stops : List Node)
    → stops ≢ []
    → (r : RouteInternal) × (n' : TransportNetwork) × (make_route route stops line n
        ≡ returns (true, record line { routes = assign route.id r line.routes }, n'))
unfolding make_route
make_route-Ready route line n [] ne = absurd (ne refl)
make_route-Ready route line n (a ∷ stops) ne = (_, _, refl)

add-Ready :
    (route : Route) (line : LineInternal) (n : TransportNetwork)
    → Ready line n route
    → (r : RouteInternal) × (n' : TransportNetwork) × (add_route_to_line route line n
        ≡ returns (true, record line { routes = assign route.id r line.routes }, n'))
unfolding add_route_to_line
add-Ready route line n (ne, k, new) =
    let (r, n', made) = make_route-Ready route line n route.stops ne in
    (r, n', rw (new, add_route_to_line) (rw (AllKnown-all_stations route.stops n k) made))

still_Ready :
    (route : Route) (line : LineInternal) (n n' : TransportNetwork) (r : RouteInternal)
    (routes : List Route)
    → Extends n n'
    → All (λ (x : Route). (route.id == x.id) ≡ false) routes
    → All (Ready line n) routes
    → All (Ready (record line { routes = assign route.id r line.routes }) n') routes
still_Ready route line n n' r [] g d h = tt
still_Ready route line n n' r (x ∷ routes) g (d, ds) ((ne, k, new), hs) = (
  (ne, AllKnown-Extends x.stops g k, rw lookup-assign (rw d new)),
  still_Ready route line n n' r routes g ds hs,
)

add-All-Ready :
    (routes : List Route) (line : LineInternal) (n : TransportNetwork)
    → DistinctIds routes
    → All (Ready line n) routes
    → (l : LineInternal) × (n' : TransportNetwork) × (add_routes routes line n
        ≡ returns (true, l, n'))
unfolding add_routes
add-All-Ready [] line n d h = (line, n, refl)
add-All-Ready (route ∷ routes) line n (d, ds) (h, hs) =
    let (r, n₁, made) = add-Ready route line n h in
    let more = (add_route_to_line_lem route line n _ made).0 in
    let (l, n', rest) =
      add-All-Ready routes (record line { routes = assign route.id r line.routes }) n₁ ds
        (still_Ready route line n n₁ r routes more d hs) in
    (l, n', rw made rest)

no_routes : (id : Ident) → lookup {V = RouteInternal} id [] ≡ none
unfolding lookup
no_routes id = refl

-- `AddLine` succeeds for a line that is not in the network yet, whose routes have different ids and
-- at least one stop each, all stops being stations.
pub add_line_succeeds :
    (line : Line) (n : TransportNetwork)
    → get_line line.id n ≡ none
    → DistinctIds line.routes
    → All (λ (r : Route). (r.stops ≢ []) × AllKnown r.stops n) line.routes
    → (n' : TransportNetwork) × (add_line line n ≡ returns (n', true))
unfolding add_line
add_line_succeeds line n new d h =
    let start : LineInternal = record { id = line.id; name = line.name; routes = [] } in
    let (l, n', made) =
      add-All-Ready line.routes start n d
        (All-weaken line.routes (λ r p. (p.0, p.1, no_routes r.id)) h) in
    (record n' { lines = emplace line.id l n'.lines }, rw (new, add_line) (rw made refl))
