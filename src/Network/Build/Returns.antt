-- ===== src/Network/Build/Returns.antt =====
-- `AddLine` returns where every route has a stop: src/TransportNetwork.cpp.
use live_transport_network_m.Base.{
  ◌≡◌, ◌≢◌, refl, true, false, Bool-cases, Option-cases, inl, inr, List, [], ◌∷◌, bytes_eq, lookup,
  emplace, All,
}
use live_transport_network_m.Network.Types.{
  Route, Line, Node, LineInternal, TransportNetwork, returns, get_line,
}
use live_transport_network_m.Network.Build.{
  all_stations, make_route, add_route_to_line, add_routes, add_line,
}

make_route_returns :
    (route : Route) (line : LineInternal) (n : TransportNetwork) (stops : List Node)
    → stops ≢ []
    → (r : _) × (make_route route stops line n ≡ returns r)
unfolding make_route
make_route_returns route line n [] ne = absurd (ne refl)
make_route_returns route line n (a ∷ stops) ne = (_, refl)

add_route_to_line_returns :
    (route : Route) (line : LineInternal) (n : TransportNetwork)
    → route.stops ≢ []
    → (r : _) × (add_route_to_line route line n ≡ returns r)
unfolding add_route_to_line
add_route_to_line_returns route line n ne = elim (Option-cases (lookup route.id line.routes)) [
  | inr (old, found) ↦ ((false, line, n), rw (found, add_route_to_line) refl)
  | inl new ↦ elim (Bool-cases (all_stations route.stops n)) [
    | inr missing ↦ ((false, line, n), rw (new, add_route_to_line) (rw missing refl))
    | inl there ↦
        let (r, made) = make_route_returns route line n route.stops ne in
        (r, rw (new, add_route_to_line) (rw there made))
  ]
]

add_routes_returns :
    (routes : List Route) (line : LineInternal) (n : TransportNetwork)
    → All (λ (r : Route). r.stops ≢ []) routes
    → (r : _) × (add_routes routes line n ≡ returns r)
unfolding add_routes
add_routes_returns [] line n ne = (_, refl)
add_routes_returns (route ∷ routes) line n (ne, nes) =
    let (s, made) = add_route_to_line_returns route line n ne in
    elim (Bool-cases s.0) [
      | inl ok ↦ let (r, rest) = add_routes_returns routes s.1 s.2 nes in (r, rw made (rw ok rest))
      | inr failed ↦ (s, rw made (rw failed refl))
    ]

pub add_line_returns :
    (line : Line) (n : TransportNetwork)
    → All (λ (r : Route). r.stops ≢ []) line.routes
    → (r : _) × (add_line line n ≡ returns r)
unfolding add_line
add_line_returns line n ne = elim (Option-cases (get_line line.id n)) [
  | inr (old, found) ↦ ((n, false), rw (found, add_line) refl)
  | inl new ↦
      let (s, made) =
        add_routes_returns line.routes (record { id = line.id; name = line.name; routes = [] }) n
          ne in
      elim (Bool-cases s.0) [
        | inl ok ↦ (
          (record s.2 { lines = emplace line.id s.1 s.2.lines }, true),
          rw (new, add_line) (rw made (rw ok refl)),
        )
        | inr failed ↦ ((s.2, false), rw (new, add_line) (rw made (rw failed refl)))
      ]
]
