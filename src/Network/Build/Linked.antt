-- ===== src/Network/Build/Linked.antt =====
-- What `AddLine` builds: src/TransportNetwork.cpp.
use live_transport_network_m.Base.{
  ◌≡◌, refl, arith, true, Option-cases, inl, inr, Option, none, some, List, [], ◌∷◌, ◌++◌, bytes_eq,
  lookup, lookup-assign, All, All-weaken, ◌==◌, if◌then◌else◌,
}
use live_transport_network_m.Network.Types.{
  Route, Node, RouteInternal, GraphNode, GraphEdge, TransportNetwork, get_station, set_node,
}
use live_transport_network_m.Network.Travel.{time_to}
use live_transport_network_m.Network.Travel.Links.{link, known, is_there}
use live_transport_network_m.Network.Build.{push_edge, push_edges, all_stations}

-- An edge leads from each stop to the next.
abbrev pub Linked : List Node → TransportNetwork → Type 0
Linked [] n = Unit
Linked (a ∷ []) n = Unit
Linked (a ∷ b ∷ stops) n = (is_there (link a b n) ≡ true) × Linked (b ∷ stops) n

abbrev pub AllKnown : List Node → TransportNetwork → Type 0
AllKnown stops n = All (λ s. known s n ≡ true) stops

-- The second network has the stations of the first, and where the first has an edge from a station
-- to another, the first such edge of the second has the same time.
pub record Extends (n n' : TransportNetwork) : Type 0 where
  pub stations : (x : Node) → known x n ≡ true → known x n' ≡ true
  pub times : (x y : Node) (t : _) → link x y n ≡ some t → link x y n' ≡ some t

pub Extends-refl : (n : TransportNetwork) → Extends n n
Extends-refl n = record { stations = λ x e. e; times = λ x y t e. e }

pub Extends-trans : {n₁ n₂ n₃ : TransportNetwork} → Extends n₁ n₂ → Extends n₂ n₃ → Extends n₁ n₃
Extends-trans g h = record {
  stations = λ x e. h.stations x (g.stations x e);
  times = λ x y t e. h.times x y t (g.times x y t e);
}

time_to-append :
    (y : Node) (es : List GraphEdge) (e : GraphEdge)
    → time_to y (es ++ e ∷ []) ≡ (elim (time_to y es) [
      | some t ↦ some t
      | none ↦ if e.next_stop == y then some e.travel_time else none
    ])
unfolding time_to
time_to-append y [] e = ground arith
time_to-append y (f ∷ es) e = ground (arith, time_to-append y es e)

module _ (r : RouteInternal) where
  module _ (a b : Node) (n : TransportNetwork) where
    abbrev edge : GraphEdge
    edge = record { address = n.fresh; route = r; next_stop = b; travel_time = 0 }

    abbrev longer : GraphNode → GraphNode
    longer node = record node { edges = node.edges ++ edge ∷ [] }

    push_edge-Extends : Extends n (push_edge r a b n)
    unfolding push_edge get_station set_node
    push_edge-Extends = elim (Option-cases (lookup a n.stations)) [
      | inl absent ↦ rw (absent, push_edge) (Extends-refl n)
      | inr (node, found) ↦ record {
        stations = λ x e.
            ground (arith, found, lookup-assign a x (longer node) n.stations, bytes_eq.beq_iff a x);
        times = λ x y t e. ground (
          arith,
          found,
          lookup-assign a x (longer node) n.stations,
          bytes_eq.beq_iff a x,
          time_to-append y node.edges edge,
        );
      }
    ]

    push_edge-links : known a n ≡ true → is_there (link a b (push_edge r a b n)) ≡ true
    unfolding push_edge get_station set_node
    push_edge-links k = elim (Option-cases (lookup a n.stations)) [
      | inl absent ↦ ground arith
      | inr (node, found) ↦ ground (
        arith,
        found,
        lookup-assign a a (longer node) n.stations,
        bytes_eq.beq_iff a a,
        bytes_eq.beq_iff b b,
        time_to-append b node.edges edge,
      )
    ]

  pub push_edges-Extends :
      (stops : List Node) (n : TransportNetwork) → Extends n (push_edges r stops n)
  unfolding push_edges
  push_edges-Extends [] n = Extends-refl n
  push_edges-Extends (a ∷ []) n = Extends-refl n
  push_edges-Extends (a ∷ b ∷ stops) n =
      Extends-trans (push_edge-Extends a b n) (push_edges-Extends (b ∷ stops) (push_edge r a b n))

pub AllKnown-Extends :
    {n n' : TransportNetwork} (stops : List Node)
    → Extends n n'
    → AllKnown stops n
    → AllKnown stops n'
AllKnown-Extends stops g = All-weaken stops g.stations

is_there_of : (o : Option _) → is_there o ≡ true → (t : _) × (o ≡ some t)
is_there_of none e = cc
is_there_of (some t) e = (t, refl)

link-Extends :
    {n n' : TransportNetwork} (a b : Node)
    → Extends n n'
    → is_there (link a b n) ≡ true
    → is_there (link a b n') ≡ true
link-Extends {n} {n'} a b g e =
    let (t, e₁) = is_there_of (link a b n) e in
    let e₂ : link a b n' ≡ some t = g.times a b t e₁ in rw e₂ refl

pub Linked-Extends :
    {n n' : TransportNetwork} (stops : List Node) → Extends n n' → Linked stops n → Linked stops n'
Linked-Extends [] g l = tt
Linked-Extends (a ∷ []) g l = tt
Linked-Extends (a ∷ b ∷ stops) g (l, ls) = (link-Extends a b g l, Linked-Extends (b ∷ stops) g ls)

pub push_edges-Linked :
    (r : RouteInternal) (stops : List Node) (n : TransportNetwork)
    → AllKnown stops n
    → Linked stops (push_edges r stops n)
unfolding push_edges
push_edges-Linked r [] n k = tt
push_edges-Linked r (a ∷ []) n k = tt
push_edges-Linked r (a ∷ b ∷ stops) n (k, ks) =
    let next = push_edge r a b n in
    let more = push_edge-Extends r a b n in
    (
      link-Extends a b (push_edges-Extends r (b ∷ stops) next) (push_edge-links r a b n k),
      push_edges-Linked r (b ∷ stops) next (AllKnown-Extends (b ∷ stops) more ks),
    )

pub all_stations-AllKnown :
    (stops : List Node) (n : TransportNetwork) → all_stations stops n ≡ true → AllKnown stops n
unfolding all_stations
all_stations-AllKnown [] n e = tt
all_stations-AllKnown (a ∷ stops) n e = elim (Option-cases (get_station a n)) [
  | inl absent ↦ ground arith
  | inr (node, found) ↦ (ground (arith, found), all_stations-AllKnown stops n (ground arith))
]

pub AllKnown-all_stations :
    (stops : List Node) (n : TransportNetwork) → AllKnown stops n → all_stations stops n ≡ true
unfolding all_stations
AllKnown-all_stations [] n k = refl
AllKnown-all_stations (a ∷ stops) n (k, ks) = ground (arith, AllKnown-all_stations stops n ks)

-- The stops of a route are stations, each with an edge to the next.
abbrev pub HasStops : TransportNetwork → List Node → Type 0
HasStops n stops = AllKnown stops n × Linked stops n

abbrev pub HasRoutes : TransportNetwork → List Route → Type 0
HasRoutes n routes = All (λ (r : Route). HasStops n r.stops) routes
