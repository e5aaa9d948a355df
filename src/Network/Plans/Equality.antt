-- ===== src/Network/Plans/Equality.antt =====
-- The comparisons of stations, routes, lines and travel routes: src/TransportNetwork.cpp.
use live_transport_network_m.Base.{
  ◌≡◌, ◌↔◌, arith, Bool, true, ◌&&◌, Eq, bytes_eq, nat_eq, list_beq, list_beq_iff, ◌==◌,
}
use live_transport_network_m.Network.Plans.{Step, TravelRoute}
use live_transport_network_m.Network.Types.{Station, Route, Line}

-- `Station::operator==`, `Route::operator==` and `Line::operator==` look at the id alone.
unfoldable pub same_station : Station → Station → Bool
same_station s t = s.id == t.id

unfoldable pub same_route : Route → Route → Bool
same_route r s = r.id == s.id

unfoldable pub same_line : Line → Line → Bool
same_line l m = l.id == m.id

-- `TravelRoute::Step::operator==`
unfoldable pub step_beq : Step → Step → Bool
step_beq s t =
    s.travel_time == t.travel_time
    && s.start_station_id == t.start_station_id
    && s.end_station_id == t.end_station_id
    && s.line_id == t.line_id
    && s.route_id == t.route_id

-- `TravelRoute::operator==`
unfoldable pub travel_route_beq : TravelRoute → TravelRoute → Bool
travel_route_beq r s =
    r.total_travel_time == s.total_travel_time
    && r.start_station_id == s.start_station_id
    && r.end_station_id == s.end_station_id
    && list_beq step_beq r.steps s.steps

step_beq_iff : (s t : Step) → (step_beq s t ≡ true) ↔ (s ≡ t)
unfolding step_beq
step_beq_iff s t = ground (
  arith,
  bytes_eq.beq_iff s.start_station_id t.start_station_id,
  bytes_eq.beq_iff s.end_station_id t.end_station_id,
  bytes_eq.beq_iff s.line_id t.line_id,
  bytes_eq.beq_iff s.route_id t.route_id,
)

instance abbrev step_eq : Eq Step
step_eq = record { beq = step_beq; beq_iff = step_beq_iff }

-- Two travel routes compare equal exactly if all their members are equal, and so those of all steps in
-- order.
pub travel_route_beq_iff : (r s : TravelRoute) → (travel_route_beq r s ≡ true) ↔ (r ≡ s)
unfolding travel_route_beq
travel_route_beq_iff r s = ground (
  arith,
  bytes_eq.beq_iff r.start_station_id s.start_station_id,
  bytes_eq.beq_iff r.end_station_id s.end_station_id,
  list_beq_iff step_eq r.steps s.steps,
)
