-- ===== src/Network/Travel/Links.antt =====
-- `SetTravelTime` and `GetTravelTime`: src/TransportNetwork.cpp.
use live_transport_network_m.Base.{
  ℕ, ◌≡◌, refl, arith, Bool, true, false, ◌&&◌, ◌||◌, Bool-cases, Option-cases, inl, inr, Option,
  none, some, List, [], ◌∷◌, bytes_eq, lookup, lookup-assign, ◌==◌, if◌then◌else◌,
}
use live_transport_network_m.Network.Types.{
  Node, GraphEdge, TransportNetwork, get_station, set_node,
}
use live_transport_network_m.Network.Travel.{
  set_edge_times, has_edge_to, set_times_from, set_travel_time, time_to, get_travel_time,
}

-- The time of the first edge from `a` to `b`.
abbrev pub link : Node → Node → TransportNetwork → Option ℕ
link a b n = elim (get_station a n) [ none ↦ none | some node ↦ time_to b node.edges ]

-- Whether the id is that of a station.
abbrev pub known : Node → TransportNetwork → Bool
known a n = elim (get_station a n) [ none ↦ false | some _ ↦ true ]

abbrev pub is_there : Option ℕ → Bool
is_there none = false
is_there (some _) = true

abbrev retime : ℕ → Option ℕ → Option ℕ
retime t none = none
retime t (some _) = some t

time_to-set_edge_times :
    (to y : Node) (t : ℕ) (es : List GraphEdge)
    → time_to y (set_edge_times to t es)
      ≡ (if to == y then retime t (time_to y es) else time_to y es)
unfolding time_to set_edge_times
time_to-set_edge_times to y t [] = ground arith
time_to-set_edge_times to y t (e ∷ es) = ground (
  arith,
  time_to-set_edge_times to y t es,
  bytes_eq.beq_iff e.next_stop to,
  bytes_eq.beq_iff e.next_stop y,
  bytes_eq.beq_iff to y,
)

has_edge_to_lem :
    (to : Node) (es : List GraphEdge)
    → has_edge_to to es ≡ (elim (time_to to es) [ none ↦ false | some _ ↦ true ])
unfolding has_edge_to time_to
has_edge_to_lem to [] = refl
has_edge_to_lem to (e ∷ es) = ground (arith, has_edge_to_lem to es)

module _ (from to : Node) (t : ℕ) (n : TransportNetwork) where
  link-set_times_from :
      (x y : Node)
      → link x y (set_times_from from to t n).0
        ≡ (if from == x && to == y then retime t (link x y n) else link x y n)
  unfolding set_times_from set_node get_station
  link-set_times_from x y = elim (Option-cases (lookup from n.stations)) [
    | inl absent ↦ ground (arith, bytes_eq.beq_iff from x)
    | inr (node, found) ↦ ground (
      arith,
      lookup-assign from x (record node { edges = set_edge_times to t node.edges }) n.stations,
      time_to-set_edge_times to y t node.edges,
      bytes_eq.beq_iff from x,
    )
  ]

  found-set_times_from :
      (set_times_from from to t n).1 ≡ (elim (link from to n) [ none ↦ false | some _ ↦ true ])
  unfolding set_times_from get_station
  found-set_times_from = elim (Option-cases (lookup from n.stations)) [
    | inl absent ↦ ground arith
    | inr (node, found) ↦ ground (arith, has_edge_to_lem to node.edges)
  ]

  known-set_times_from : (x : Node) → known x (set_times_from from to t n).0 ≡ known x n
  unfolding set_times_from set_node get_station
  known-set_times_from x = elim (Option-cases (lookup from n.stations)) [
    | inl absent ↦ ground arith
    | inr (node, found) ↦ ground (
      arith,
      lookup-assign from x (record node { edges = set_edge_times to t node.edges }) n.stations,
      bytes_eq.beq_iff from x,
    )
  ]

-- `GetTravelTime` on the two links: the first that is there, or 0.
abbrev first_time : Option ℕ → Option ℕ → ℕ
first_time (some t) other = t
first_time none (some t) = t
first_time none none = 0

get_travel_time_lem :
    (a b : Node) (n : TransportNetwork)
    → get_travel_time a b n
      ≡ (if known a n && known b n then first_time (link a b n) (link b a n) else 0)
unfolding get_travel_time get_station
get_travel_time_lem a b n = ground arith

module _ (a b : Node) (t : ℕ) (n : TransportNetwork) where
  abbrev after : TransportNetwork
  after = (set_travel_time a b t n).0

  pub link-set_travel_time :
      (x y : Node)
      → known a n ≡ true
      → known b n ≡ true
      → link x y after
        ≡ (if (a == x && b == y) || (b == x && a == y) then retime t (link x y n) else link x y n)
  unfolding set_travel_time
  link-set_travel_time x y ka kb = ground (
    arith,
    link-set_times_from a b t n x y,
    link-set_times_from b a t (set_times_from a b t n).0 x y,
  )

  pub known-set_travel_time : (x : Node) → known x after ≡ known x n
  unfolding set_travel_time
  known-set_travel_time x = ground (
    arith,
    known-set_times_from a b t n x,
    known-set_times_from b a t (set_times_from a b t n).0 x,
  )

  pub found-set_travel_time :
      (set_travel_time a b t n).1
      ≡ (known a n && known b n && (is_there (link a b n) || is_there (link b a n)))
  unfolding set_travel_time
  found-set_travel_time = ground (
    arith,
    found-set_times_from a b t n,
    found-set_times_from b a t (set_times_from a b t n).0,
    link-set_times_from a b t n b a,
  )

  pub unknown-set_travel_time : (known a n && known b n) ≡ false → after ≡ n
  unfolding set_travel_time
  unknown-set_travel_time h = ground arith

  -- `SetTravelTime` sets the time between the two stations in both directions, and of no other
  -- pair: it returns true exactly where both stations exist and an edge joins them in one direction
  -- or the other, and then `GetTravelTime` gives the new time for the two stations in either order
  -- and its old answer for any other two; where it returns false, all answers are the old ones.
  pub get-set_travel_time :
      (x y : Node)
      → (get_travel_time x y after ≡ (
          if (set_travel_time a b t n).1 && ((a == x && b == y) || (b == x && a == y))
          then t
          else get_travel_time x y n))
        × ((set_travel_time a b t n).1
            ≡ (known a n && known b n && (is_there (link a b n) || is_there (link b a n))))
  get-set_travel_time x y = (
    elim (Bool-cases (known a n && known b n)) [
      | inl both ↦ ground (
        arith,
        get_travel_time_lem x y after,
        get_travel_time_lem x y n,
        link-set_travel_time x y,
        link-set_travel_time y x,
        known-set_travel_time x,
        known-set_travel_time y,
        found-set_travel_time,
        bytes_eq.beq_iff a x,
        bytes_eq.beq_iff b y,
        bytes_eq.beq_iff b x,
        bytes_eq.beq_iff a y,
      )
      | inr neither ↦ ground (arith, unknown-set_travel_time neither, found-set_travel_time)
    ],
    found-set_travel_time,
  )
