-- ===== src/Network/Paths/Walks.antt =====
-- What a path between two stations is, and that no path is shorter than the distance that the search
-- records: src/TransportNetwork.cpp.
use live_transport_network_m.Base.{
  ℕ, ◌+◌, ◌≤◌, ◌≡◌, ◌≢◌, refl, subst, arith, false, Bool-cases, inl, inr, some, List, [], bytes_eq,
  lookup, beq_refl, if◌then◌else◌, ◌∈◌, here_of, ∈-nil,
}
use live_transport_network_m.Network.Stops.{PathStop, stop_eq}
use live_transport_network_m.Network.Types.{Node, GraphEdge, TransportNetwork}
use live_transport_network_m.Network.Paths.{
  Std, Search, neighbor, contains, changes, edges_of, neighbor_dist, search, start_search,
}
use live_transport_network_m.Network.Paths.Closed.{
  IsStd, Closed, Pending, search_rule, visit-Pending, visit-Improves,
}
use live_transport_network_m.Network.Paths.Improves.{Within, Within-Improves}

-- The minutes that a ride takes, with the five for a change of routes.
abbrev pub cost : PathStop → GraphEdge → ℕ
cost x e = e.travel_time + (if changes x e then 5 else 0)

module _ (n : TransportNetwork) (b : Node) (excluded : List PathStop) (start : PathStop)
    (from : ℕ) where
  -- The stops that one reaches from the start without an excluded stop, and not over station B,
  -- with the minutes that it takes. Nothing here wraps around.
  pub data Walk : PathStop → ℕ → Type 0 where
    stay : Walk start from
    ride :
        {x : PathStop} {d : ℕ}
        → Walk x d
        → x.node ≢ b
        → (e : GraphEdge) → e ∈ edges_of x.node n
        → contains (neighbor e) excluded ≡ false
        → Walk (neighbor e) (d + cost x e)

  pub neighbor_dist-le :
      (x : PathStop) (v d : ℕ) (e : GraphEdge) → v ≤ d → neighbor_dist x v e ≤ d + cost x e
  unfolding neighbor_dist
  neighbor_dist-le x v d e le = elim (Bool-cases (changes x e)) [
    | inl change ↦ rw change (omega arith)
    | inr stay_on ↦ rw stay_on (omega arith)
  ]

  -- Where no ride makes a distance smaller, no walk is shorter than the recorded distance.
  Walk-Within :
      (s : Search)
      → Within start from s
      → ((y : PathStop) (d : ℕ) → lookup y s.dist_from_a ≡ some d → Closed n b excluded y d s)
      → {x : PathStop} {d : ℕ} → Walk x d
      → Within x d s
  Walk-Within s first closed stay = first
  Walk-Within s first closed (ride {x} {d} w ne e i in_) =
      let (v, f, le) = Walk-Within s first closed w in
      let (u, g, le') = closed x v f ne e i in_ in
      (u, g, omega (arith, neighbor_dist-le x v d e le))

  module _ (std : Std) (is : IsStd std) where
    -- A property that holds throughout a search.
    abbrev Kept : Search → Type 0
    Kept s = Pending n b excluded s × Within start from s

    pub search-Within :
        (fuel : ℕ) (s : Search)
        → search std n b excluded fuel (start_search (start, from)) ≡ some s
        → {x : PathStop} {d : ℕ} → Walk x d
        → Within x d s
    unfolding lookup
    search-Within fuel s e w =
        let ((pending, first), empty) =
          search_rule n b excluded std is Kept
            (λ s p rest popped h. (
              visit-Pending n b excluded std is s p rest popped h.0,
              Within-Improves start from
                  (visit-Improves n b excluded p (record s { nodes_to_visit = rest })) h.1,
            ))
            fuel (start_search (start, from)) s
            (
              λ y d found. inl (here_of [] (ground (arith, stop_eq.beq_iff start y))),
              (from, rw beq_refl refl, omega arith),
            )
            e in
        Walk-Within s first
          (λ y d found. elim (pending y d found) [
            | inr closed ↦ closed
            | inl queued ↦ absurd (∈-nil (subst (λ q. (y, d) ∈ q) empty queued))
          ])
          w
