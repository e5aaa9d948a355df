-- ===== src/Network/Plans.antt =====
-- The fastest travel route between two stations, as its steps: src/TransportNetwork.cpp and
-- inc/network-monitor/TransportNetwork.h.
pub mod Journeys
pub mod Equality
use live_transport_network_m.Base.{
  ℕ, Option, none, some, List, [], ◌∷◌, bytes_eq, ◌==◌, if◌then◌else◌,
}
use live_transport_network_m.Network.Stops.{PathStop, PathStopDist, TravelPath}
use live_transport_network_m.Network.Types.{Ident, GraphEdge, TransportNetwork, get_station}
use live_transport_network_m.Network.Paths.{Std, Found, found, undefined, ◌>>=◌, back, fastest_path}

-- `TravelRoute::Step`
pub record Step : Type 0 where
  pub start_station_id : Ident
  pub end_station_id : Ident
  pub line_id : Ident
  pub route_id : Ident
  pub travel_time : ℕ

pub record TravelRoute : Type 0 where
  pub start_station_id : Ident
  pub end_station_id : Ident
  pub total_travel_time : ℕ
  pub steps : List Step

-- `TravelRoute {}`
abbrev pub empty_route : TravelRoute
empty_route = record {
  start_station_id = [];
  end_station_id = [];
  total_travel_time = 0;
  steps = [];
}

-- The route from a station to itself.
unfoldable pub stay_route : Ident → TravelRoute
stay_route a = record {
  start_station_id = a;
  end_station_id = a;
  total_travel_time = 0;
  steps =
      record {
        start_station_id = a;
        end_station_id = a;
        line_id = [];
        route_id = [];
        travel_time = 0;
      }
      ∷ [];
}

unfoldable pub no_route : Ident → Ident → TravelRoute
no_route a b = record {
  start_station_id = a;
  end_station_id = b;
  total_travel_time = 0;
  steps = [];
}

abbrev pub step_by : PathStop → GraphEdge → PathStop → Step
step_by prev_stop e curr_stop = record {
  start_station_id = prev_stop.node;
  end_station_id = curr_stop.node;
  line_id = e.route.line;
  route_id = e.route.id;
  travel_time = e.travel_time;
}

-- The loop over the stops of a path. A stop with no edge would be a null pointer.
unfoldable pub steps_of : TravelPath → Found (List Step)
steps_of [] = found []
steps_of (p ∷ []) = found []
steps_of ((prev_stop, _) ∷ (curr_stop, d) ∷ path) =
    let rest = steps_of ((curr_stop, d) ∷ path) in
    elim curr_stop.edge [
      | none ↦ undefined
      | some e ↦ rest >>= λ steps. found (step_by prev_stop e curr_stop ∷ steps)
    ]

unfoldable pub travel_route : Ident → Ident → TravelPath → Found TravelRoute
travel_route a b path = elim (back path) [
  | none ↦ found (no_route a b)
  | some (_, total) ↦ steps_of path >>= λ steps. found (record {
    start_station_id = a;
    end_station_id = b;
    total_travel_time = total;
    steps = steps;
  })
]

-- Where a path starts that has no edge yet.
abbrev pub at_station : Ident → PathStop
at_station a = record { node = a; edge = none }

-- The public `GetFastestTravelRoute`.
unfoldable pub get_fastest_travel_route : Std → TransportNetwork → Ident → Ident → Found TravelRoute
get_fastest_travel_route std n a b = elim (get_station a n) [
  | none ↦ found empty_route
  | some _ ↦ elim (get_station b n) [
    | none ↦ found empty_route
    | some _ ↦
        if a == b
        then found (stay_route a)
        else (fastest_path std n (at_station a, 0) b [] >>= λ path. travel_route a b path)
  ]
]
