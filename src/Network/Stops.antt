-- ===== src/Network/Stops.antt =====
-- The stops of a path: `PathStop` and `PathStopDist` of inc/network-monitor/TransportNetwork.h. A stop
-- holds the edge to which it points. Two edges of a network are the same object exactly if they are
-- equal, since each has its own address.
use live_transport_network_m.Base.{
  ℕ, ◌≡◌, ◌↔◌, arith, Bool, true, false, ◌&&◌, Option, none, some, List, Eq, bytes_eq, list_beq,
  list_beq_iff, nat_eq, ◌==◌,
}
use live_transport_network_m.Network.Types.{Node, RouteInternal, GraphEdge}

pub record PathStop : Type 0 where
  pub node : Node
  pub edge : Option GraphEdge

abbrev pub PathStopDist : Type 0
PathStopDist = PathStop × ℕ

abbrev pub TravelPath : Type 0
TravelPath = List PathStopDist

unfoldable pub route_beq : RouteInternal → RouteInternal → Bool
route_beq r s =
    r.address == s.address
    && r.id == s.id
    && r.line == s.line
    && list_beq bytes_eq.beq r.stops s.stops

route_beq_iff : (r s : RouteInternal) → (route_beq r s ≡ true) ↔ (r ≡ s)
unfolding route_beq
route_beq_iff r s = ground (
  arith,
  bytes_eq.beq_iff r.id s.id,
  bytes_eq.beq_iff r.line s.line,
  list_beq_iff bytes_eq r.stops s.stops,
)

unfoldable pub edge_beq : GraphEdge → GraphEdge → Bool
edge_beq e f =
    e.address == f.address
    && route_beq e.route f.route
    && e.next_stop == f.next_stop
    && e.travel_time == f.travel_time

edge_beq_iff : (e f : GraphEdge) → (edge_beq e f ≡ true) ↔ (e ≡ f)
unfolding edge_beq
edge_beq_iff e f =
    ground (arith, route_beq_iff e.route f.route, bytes_eq.beq_iff e.next_stop f.next_stop)

unfoldable pub pointer_beq : Option GraphEdge → Option GraphEdge → Bool
pointer_beq none none = true
pointer_beq (some e) (some f) = edge_beq e f
pointer_beq a b = false

pointer_beq_iff : (a b : Option GraphEdge) → (pointer_beq a b ≡ true) ↔ (a ≡ b)
unfolding pointer_beq
pointer_beq_iff none none = ground arith
pointer_beq_iff (some e) (some f) = ground (arith, edge_beq_iff e f)
pointer_beq_iff none (some f) = ground arith
pointer_beq_iff (some e) none = ground arith

-- `PathStop::operator==`
unfoldable pub stop_beq : PathStop → PathStop → Bool
stop_beq a b = a.node == b.node && pointer_beq a.edge b.edge

pub stop_beq_iff : (a b : PathStop) → (stop_beq a b ≡ true) ↔ (a ≡ b)
unfolding stop_beq
stop_beq_iff a b = ground (arith, bytes_eq.beq_iff a.node b.node, pointer_beq_iff a.edge b.edge)

instance abbrev pub stop_eq : Eq PathStop
stop_eq = record { beq = stop_beq; beq_iff = stop_beq_iff }

-- A pair of a stop and a distance.
unfoldable pub dist_beq : PathStopDist → PathStopDist → Bool
dist_beq (a, d) (b, e) = stop_beq a b && d == e

pub dist_beq_iff : (p q : PathStopDist) → (dist_beq p q ≡ true) ↔ (p ≡ q)
unfolding dist_beq
dist_beq_iff (a, d) (b, e) = ground (arith, stop_beq_iff a b)

instance abbrev pub dist_eq : Eq PathStopDist
dist_eq = record { beq = dist_beq; beq_iff = dist_beq_iff }

-- Of whole paths, entry by entry.
instance abbrev pub path_eq : Eq TravelPath
path_eq = record { beq = list_beq dist_beq; beq_iff = list_beq_iff dist_eq }
