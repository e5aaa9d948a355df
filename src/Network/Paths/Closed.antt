-- ===== src/Network/Paths/Closed.antt =====
-- The search goes on until no ride makes a distance smaller: src/TransportNetwork.cpp.
use live_transport_network_m.Base.{
  ℕ, zero, suc, ◌≤◌, ◌≡◌, ◌≢◌, ◌↔◌, sym, subst, arith, false, Bool-cases, Option-cases, ◌⊎◌, inl,
  inr, none, some, List, [], ◌∷◌, bytes_eq, lookup, All, Distinct, Assoc, length, ◌==◌, ◌∈◌,
}
use live_transport_network_m.Network.Stops.{PathStop, PathStopDist, stop_eq}
use live_transport_network_m.Network.Types.{Node, GraphEdge, TransportNetwork}
use live_transport_network_m.Network.Paths.{
  Std, Search, neighbor, contains, edges_of, neighbor_dist, visit, search,
}
use live_transport_network_m.Network.Paths.Improves.{
  Within, Improves, Improves-refl, Within-Improves, explore-Improves, explore-Within,
}

-- Each entry is at least as far as the next.
abbrev pub Falling : List PathStopDist → Type 0
Falling [] = Unit
Falling (p ∷ []) = Unit
Falling (p ∷ q ∷ ps) = (q.1 ≤ p.1) × Falling (q ∷ ps)

-- What the standard library promises.
pub record IsStd (std : Std) : Type 0 where
  pub pop_empty : (q : List PathStopDist) → std.pop q ≡ none → q ≡ []
  pub pop_length :
      (q rest : List PathStopDist) (p : PathStopDist)
      → std.pop q ≡ some (p, rest)
      → length q ≡ suc (length rest)
  pub pop_in :
      (q rest : List PathStopDist) (p r : PathStopDist)
      → std.pop q ≡ some (p, rest)
      → (r ∈ q) ↔ ((r ≡ p) ⊎ (r ∈ rest))
  pub pop_least :
      (q rest : List PathStopDist) (p : PathStopDist)
      → std.pop q ≡ some (p, rest)
      → All (λ (r : PathStopDist). p.1 ≤ r.1) rest
  pub iterate_in :
      (m : Assoc PathStop ℕ) (p : PathStopDist)
      → Distinct m
      → (p ∈ std.iterate m) ↔ (lookup p.0 m ≡ some p.1)
  pub sort_in : (l : List PathStopDist) (p : PathStopDist) → (p ∈ std.sort l) ↔ (p ∈ l)
  pub sort_falls : (l : List PathStopDist) → Falling (std.sort l)

module _ (n : TransportNetwork) (b : Node) (excluded : List PathStop) where
  -- No ride from the stop makes a distance smaller.
  abbrev pub Closed : PathStop → ℕ → Search → Type 0
  Closed y d s =
      y.node ≢ b
      → (e : GraphEdge) → e ∈ edges_of y.node n
      → contains (neighbor e) excluded ≡ false
      → Within (neighbor e) (neighbor_dist y d e) s

  -- The rides that are still to be looked at are in the queue.
  abbrev pub Pending : Search → Type 0
  Pending s =
      (y : PathStop) (d : ℕ)
      → lookup y s.dist_from_a ≡ some d
      → ((y, d) ∈ s.nodes_to_visit) ⊎ Closed y d s

  pub visit-Improves : (p : PathStopDist) (s : Search) → Improves s (visit n b excluded p s)
  unfolding visit
  visit-Improves (curr, d) s = elim (Bool-cases (curr.node == b)) [
    | inl at_b ↦ rw at_b (Improves-refl s)
    | inr away ↦ rw away (explore-Improves excluded curr d (edges_of curr.node n) s)
  ]

  pub visit-Closed :
      (curr : PathStop) (d : ℕ) (s : Search) → Closed curr d (visit n b excluded (curr, d) s)
  unfolding visit
  visit-Closed curr d s ne e i in_ = elim (Bool-cases (curr.node == b)) [
    | inl at_b ↦ absurd (ne ((bytes_eq.beq_iff curr.node b).0 at_b))
    | inr away ↦ rw away (explore-Within excluded curr d (edges_of curr.node n) s e i in_)
  ]

  module _ (std : Std) (is : IsStd std) where
    -- What one round of the loop keeps holds at the end, where the queue is empty.
    pub search_rule {ℓ} :
        (P : Search → Type ℓ)
        → ((s : Search) (p : PathStopDist) (rest : List PathStopDist)
            → std.pop s.nodes_to_visit ≡ some (p, rest)
            → P s
            → P (visit n b excluded p (record s { nodes_to_visit = rest })))
        → (fuel : ℕ) (s t : Search) → P s
        → search std n b excluded fuel s ≡ some t
        → P t × (t.nodes_to_visit ≡ [])
    unfolding search
    search_rule P keep zero s t h e = cc
    search_rule P keep (suc fuel) s t h e = elim (Option-cases (std.pop s.nodes_to_visit)) [
      | inl empty ↦
          let same : some s ≡ some t = rw (empty, search) at e in
          subst (λ (x : Search). P x × (x.nodes_to_visit ≡ [])) (ground arith)
            (h, is.pop_empty s.nodes_to_visit empty)
      | inr ((p, rest), popped) ↦
          search_rule P keep fuel (visit n b excluded p (record s { nodes_to_visit = rest })) t
            (keep s p rest popped h) (rw (popped, search) at e)
    ]

    pub visit-Pending :
        (s : Search) (p : PathStopDist) (rest : List PathStopDist)
        → std.pop s.nodes_to_visit ≡ some (p, rest)
        → Pending s
        → Pending (visit n b excluded p (record s { nodes_to_visit = rest }))
    visit-Pending s (curr, d) rest popped h y dy found =
        let s' : Search = record s { nodes_to_visit = rest } in
        let g = visit-Improves (curr, d) s' in
        elim (g.queued y dy found) [
          | inr new ↦ inl new
          | inl old ↦ elim (h y dy old) [
            | inr closed ↦ inr (λ ne e i in_.
                let (v, f, le) = closed ne e i in_ in
                Within-Improves (neighbor e) (neighbor_dist y dy e) g (v, f, le))
            | inl queued ↦
                elim ((is.pop_in s.nodes_to_visit rest (curr, d) (y, dy) popped).0 queued) [
                  | inr waiting ↦ inl (g.waits (y, dy) waiting)
                  | inl top ↦ inr (
                      subst (λ (q : PathStopDist). Closed q.0 q.1 (visit n b excluded (curr, d) s'))
                        (sym top) (visit-Closed curr d s'))
                ]
          ]
        ]
