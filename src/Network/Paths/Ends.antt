-- ===== src/Network/Paths/Ends.antt =====
-- The loop of the search ends, whatever the travel times, also where distances wrap around:
-- src/TransportNetwork.cpp.
use live_transport_network_m.Base.{
  ℕ, zero, suc, ◌+◌, ◌*◌, ◌≤◌, ◌<◌, ◌≡◌, refl, sym, subst, arith, Bool-cases, Option-cases, inl,
  inr, none, some, List, [], ◌∷◌, bytes_eq, lookup, Assoc, length, ◌==◌, ◌∈◌, here, there,
  ∈-append_left, ∈-append_right,
}
use live_transport_network_m.Network.Stops.{PathStop, PathStopDist, stop_eq}
use live_transport_network_m.Network.Travel.{uint_mod}
use live_transport_network_m.Network.Types.{
  Ident, Node, GraphEdge, GraphNode, TransportNetwork, get_station,
}
use live_transport_network_m.Network.Paths.{
  Std, Search, neighbor, changes, edges_of, edges_in, neighbor_dist, update, relax, explore, visit,
  search, search_fuel, start_search,
}
use live_transport_network_m.Network.Paths.Improves.{
  Beats, Relaxed, skipped, no_better, better, relax-Relaxed, dist_update, dist_at_update,
}
use live_transport_network_m.Network.Paths.Closed.{IsStd}

neighbor_dist_lt : (x : PathStop) (d : ℕ) (e : GraphEdge) → neighbor_dist x d e < uint_mod
unfolding neighbor_dist
neighbor_dist_lt x d e = elim (Bool-cases (changes x e)) [
  | inl change ↦ rw change (omega arith)
  | inr stay_on ↦ rw stay_on (omega arith)
]

-- The recorded distance, or 2 ^ 32 where there is none.
abbrev worth : Search → PathStop → ℕ
worth s x = elim (lookup x s.dist_from_a) [ none ↦ uint_mod | some v ↦ v ]

abbrev total_worth : Search → List GraphEdge → ℕ
total_worth s [] = 0
total_worth s (e ∷ es) = worth s (neighbor e) + total_worth s es

-- A distance that falls is worth less, and all others as much as before.
module _ (x curr : PathStop) (v : ℕ) (s : Search) (small : v < uint_mod) (beats : Beats v x s) where
  worth_falls : worth (update x curr v s) x < worth s x
  worth_falls = elim (Option-cases (lookup x s.dist_from_a)) [
    | inl new ↦ ground (arith, dist_at_update x curr v s)
    | inr (old, seen) ↦ ground (arith, dist_at_update x curr v s, beats old seen)
  ]

  worth-le : (y : PathStop) → worth (update x curr v s) y ≤ worth s y
  worth-le y = elim (Bool-cases (x == y)) [
    | inl same ↦
        subst (λ z. worth (update x curr v s) z ≤ worth s z) ((stop_eq.beq_iff x y).0 same)
          (omega (arith, worth_falls))
    | inr other ↦ ground (arith, dist_update x curr v s y)
  ]

  total_worth-le : (es : List GraphEdge) → total_worth (update x curr v s) es ≤ total_worth s es
  total_worth-le [] = omega arith
  total_worth-le (e ∷ es) = omega (arith, worth-le (neighbor e), total_worth-le es)

  total_worth_falls :
      (es : List GraphEdge) (e : GraphEdge)
      → e ∈ es
      → x ≡ neighbor e
      → total_worth (update x curr v s) es < total_worth s es
  total_worth_falls [] e i is = elim i [ ]
  total_worth_falls (e ∷ es) _ here is = omega (
    arith,
    subst (λ y. worth (update x curr v s) y < worth s y) is worth_falls,
    total_worth-le es,
  )
  total_worth_falls (f ∷ es) e (there i) is =
      omega (arith, worth-le (neighbor f), total_worth_falls es e i is)

edges_of-edges_in :
    (a : Node) (stations : Assoc Ident GraphNode) (node : GraphNode) (e : GraphEdge)
    → lookup a stations ≡ some node
    → e ∈ node.edges
    → e ∈ edges_in stations
unfolding lookup edges_in
edges_of-edges_in a [] node e f i = cc
edges_of-edges_in a ((j, m) ∷ stations) node e f i = elim (Bool-cases (j == a)) [
  | inl same ↦
      let eq : m ≡ node = ground arith in
      ∈-append_left m.edges (edges_in stations) (subst (λ (x : GraphNode). e ∈ x.edges) (sym eq) i)
  | inr other ↦
      ∈-append_right m.edges (edges_in stations)
        (edges_of-edges_in a stations node e (ground arith) i)
]

module _ (n : TransportNetwork) where
  pub edge_in : (a : Node) (e : GraphEdge) → e ∈ edges_of a n → e ∈ edges_in n.stations
  unfolding edges_of get_station
  edge_in a e i = elim (Option-cases (lookup a n.stations)) [
    | inl absent ↦ absurd (none_there (rw (absent, edges_of) at i))
    | inr (node, found) ↦ edges_of-edges_in a n.stations node e found (rw (found, edges_of) at i)
  ]
    where
      none_there : e ∈ [] → ⊥
      none_there j = elim j [ ]

  abbrev work : Search → ℕ
  work s = 2 * total_worth s (edges_in n.stations) + length s.nodes_to_visit

  module _ (excluded : List PathStop) (curr : PathStop) (d : ℕ) where
    Relaxed-work :
        {e : GraphEdge} {s t : Search}
        → e ∈ edges_in n.stations
        → Relaxed excluded curr d e s t
        → work t ≤ work s
    unfolding update
    Relaxed-work i (skipped out) = omega arith
    Relaxed-work i (no_better in_ w) = omega arith
    Relaxed-work {e} {s} i (better in_ b) = omega (
      arith,
      total_worth_falls (neighbor e) curr (neighbor_dist curr d e) s (neighbor_dist_lt curr d e) b
          (edges_in n.stations) e i refl,
    )

    explore-work :
        (es : List GraphEdge) (s : Search)
        → ((e : GraphEdge) → e ∈ es → e ∈ edges_in n.stations)
        → work (explore excluded curr d es s) ≤ work s
    unfolding explore
    explore-work [] s h = omega arith
    explore-work (e ∷ es) s h = omega (
      arith,
      Relaxed-work (h e here) (relax-Relaxed excluded curr d e s),
      explore-work es (relax excluded curr d e s) (λ f i. h f (there i)),
    )

  visit-work :
      (b : Node) (excluded : List PathStop) (p : PathStopDist) (s : Search)
      → work (visit n b excluded p s) ≤ work s
  unfolding visit
  visit-work b excluded (curr, d) s = elim (Bool-cases (curr.node == b)) [
    | inl at_b ↦ rw at_b (omega arith)
    | inr away ↦ rw away (explore-work excluded curr d (edges_of curr.node n) s (edge_in curr.node))
  ]

  module _ (std : Std) (is : IsStd std) (b : Node) (excluded : List PathStop) where
    search_ends :
        (fuel : ℕ) (s : Search)
        → work s < fuel
        → (t : Search) × (search std n b excluded fuel s ≡ some t)
    unfolding search
    search_ends zero s h = absurd (omega arith)
    search_ends (suc fuel) s h = elim (Option-cases (std.pop s.nodes_to_visit)) [
      | inl empty ↦ (s, rw (empty, search) refl)
      | inr ((p, rest), popped) ↦
          let s' : Search = record s { nodes_to_visit = rest } in
          let (t, e) = search_ends fuel (visit n b excluded p s') (
            omega
              (arith, visit-work b excluded p s', is.pop_length s.nodes_to_visit rest p popped)) in
          (t, rw (popped, search) e)
    ]

    start_worth :
        (p : PathStopDist) (es : List GraphEdge)
        → p.1 < uint_mod
        → total_worth (start_search p) es ≤ uint_mod * length es
    unfolding lookup
    start_worth p [] h = omega arith
    start_worth (x, d) (e ∷ es) h = ground (arith, start_worth (x, d) es h)

    -- From any stop with a distance below 2 ^ 32, whatever the travel times, and also where distances wrap
    -- around, the loop of the search ends within its fuel.
    pub search_from_start_ends :
        (p : PathStopDist)
        → p.1 < uint_mod
        → (s : Search) × (search std n b excluded (search_fuel n) (start_search p) ≡ some s)
    search_from_start_ends p h =
        search_ends (search_fuel n) (start_search p)
          (omega (arith, start_worth p (edges_in n.stations) h))
