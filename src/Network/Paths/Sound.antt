-- ===== src/Network/Paths/Sound.antt =====
-- The records of a search in which no distance wraps around: src/TransportNetwork.cpp.
use live_transport_network_m.Base.{
  ℕ, suc, ◌+◌, ◌*◌, ◌≤◌, ◌<◌, ◌≡◌, ◌≢◌, refl, sym, ◌∙◌, subst, arith, false, Option-cases, ◌⊎◌, inl,
  inr, none, some, List, [], ◌∷◌, bytes_eq, nat_eq, lookup, if◌then◌else◌, ◌∈◌, here, there,
  ∈-cases,
}
use live_transport_network_m.Network.Stops.{PathStop, PathStopDist, stop_eq}
use live_transport_network_m.Network.Travel.{uint_mod}
use live_transport_network_m.Network.Types.{Node, GraphEdge, TransportNetwork}
use live_transport_network_m.Network.Paths.{
  Search, neighbor, contains, changes, edges_of, edges_in, neighbor_dist, update, relax, explore,
}
use live_transport_network_m.Network.Paths.Improves.{
  Within, Within-Improves, Improves, Beats, Relaxed, skipped, no_better, better, relax-Relaxed,
  dist_updated, dist_at_update, dist_beside_update, Relaxed-Improves,
}
use live_transport_network_m.Network.Paths.Chains.{
  Chain, step, avoids, reroutes, stop_cases, previous_at, previous_beside,
}
use live_transport_network_m.Network.Paths.Walks.{cost}
use live_transport_network_m.Network.Paths.Ends.{edge_in}
use live_transport_network_m.Network.Paths.Minutes.{
  minutes, seen, seen-le, seen-Improves, seen_grows, minutes_in, neighbor_dist_exact, at_most_five,
  change_once,
}

module _ (n : TransportNetwork) (b : Node) (excluded : List PathStop) (start : PathStop)
    (from : ℕ) where
  -- Five minutes for a stop that is reached on another route than that at the start.
  abbrev pub lead : PathStop → ℕ
  lead x = elim x.edge [ none ↦ 0 | some e ↦ if changes start e then 5 else 0 ]

  -- A ride from one stop to another.
  pub record Ride (x y : PathStop) : Type 0 where
    pub edge : GraphEdge
    pub leaves : edge ∈ edges_of x.node n
    pub allowed : contains (neighbor edge) excluded ≡ false
    pub away : x.node ≢ b
    pub goes_to : y ≡ neighbor edge

  -- The stop before, and the ride from there.
  pub record Linked (s : Search) (x : PathStop) (d : ℕ) : Type 0 where
    pub before : PathStop
    pub dist : ℕ
    pub ride : Ride before x
    pub previous : lookup x s.previous_stop ≡ some before
    pub recorded : lookup before s.dist_from_a ≡ some dist
    pub farther : dist + cost before ride.edge ≤ d
    pub first : before.node ≡ start.node → before ≡ start

  pub record Sound (s : Search) : Type 0 where
    pub low : (x : PathStop) (d : ℕ) → lookup x s.dist_from_a ≡ some d → from + lead x ≤ d
    pub high :
        (x : PathStop) (d : ℕ)
        → lookup x s.dist_from_a ≡ some d
        → d ≤ from + seen s (edges_in n.stations)
    pub waiting :
        (x : PathStop) (d : ℕ)
        → (x, d) ∈ s.nodes_to_visit
        → Within x d s × (d ≤ from + seen s (edges_in n.stations))
    pub linked :
        (x : PathStop) (d : ℕ) → lookup x s.dist_from_a ≡ some d → (x ≡ start) ⊎ Linked s x d
    pub root_dist : lookup start s.dist_from_a ≡ some from
    pub root_previous : lookup start s.previous_stop ≡ none
    pub chains :
        (x : PathStop) (d : ℕ) → lookup x s.dist_from_a ≡ some d → (k : ℕ) × Chain start s x k

  -- No distance that the search makes can wrap around.
  abbrev pub Small : Type 0
  Small = from + 2 * minutes (edges_in n.stations) < uint_mod

  -- A ride to a stop on another route than that at the start has had its change of routes.
  lead_step :
      (s : Search) (h : Sound s) (x : PathStop) (v d : ℕ) (e : GraphEdge)
      → lookup x s.dist_from_a ≡ some v
      → v ≤ d
      → from + lead (neighbor e) ≤ d + (if changes x e then 5 else 0)
  lead_step s h x v d e f le = elim (h.linked x v f) [
    | inl at_start ↦ rw at_start (ground (arith, h.low x v f))
    | inr l ↦
        let to = l.ride.goes_to in
        let low = subst (λ y. from + lead y ≤ v) to (h.low x v f) in
        rw to (omega (arith, change_once start l.ride.edge e))
  ]

  -- An update by a ride that beats the recorded distance, from a stop whose own distance is known.
  module _ (s : Search) (h : Sound s) (small : Small) (curr : PathStop) (v d : ℕ) (e : GraphEdge)
      (found : lookup curr s.dist_from_a ≡ some v) (le : v ≤ d)
      (bound : d ≤ from + seen s (edges_in n.stations)) (away : curr.node ≢ b)
      (leaves : e ∈ edges_of curr.node n) (allowed : contains (neighbor e) excluded ≡ false)
      (beats : Beats (neighbor_dist curr d e) (neighbor e) s)
      (first : curr.node ≡ start.node → curr ≡ start) where
    abbrev x : PathStop
    x = neighbor e

    abbrev new : ℕ
    new = neighbor_dist curr d e

    abbrev t : Search
    t = update x curr new s

    in_all : e ∈ edges_in n.stations
    in_all = edge_in n curr.node e leaves

    exact : new ≡ d + cost curr e
    exact =
        neighbor_dist_exact curr d e (
          omega (arith, minutes_in (edges_in n.stations) e in_all, seen-le s (edges_in n.stations)))

    improves : Improves s t
    improves = Relaxed-Improves excluded curr d (better allowed beats)

    low_new : from + lead x ≤ new
    low_new = omega (arith, exact, lead_step s h curr v d e found le)

    x-ne-start : x ≢ start
    x-ne-start same = omega (arith, beats from (rw same h.root_dist), low_new)

    x-ne-curr : x ≢ curr
    x-ne-curr same = omega (arith, beats v (rw same found), exact)

    high_new : new ≤ from + seen t (edges_in n.stations)
    high_new = elim (Option-cases (lookup x s.dist_from_a)) [
      | inl unseen ↦ omega (
        arith,
        exact,
        at_most_five (changes curr e),
        seen_grows s t (edges_in n.stations) e new improves in_all unseen
            (dist_at_update x curr new s),
      )
      | inr (old, f) ↦
          omega
            (arith, beats old f, h.high x old f, seen-Improves s t (edges_in n.stations) improves)
    ]

    link_to_new : Linked t x new
    link_to_new = record {
      before = curr;
      dist = v;
      ride = record { edge = e; leaves = leaves; allowed = allowed; away = away; goes_to = refl };
      previous = previous_at start x curr new s beats;
      recorded = dist_beside_update x curr new s curr x-ne-curr ∙ found;
      farther = omega (arith, exact);
      first = first;
    }

    -- A link of another stop stays, over a stop that may be closer now.
    link_kept : (y : PathStop) (dy : ℕ) → x ≢ y → Linked s y dy → Linked t y dy
    link_kept y dy beside l = elim (stop_cases x l.before) [
      | inl same ↦ record {
        before = l.before;
        dist = new;
        ride = l.ride;
        previous = previous_beside start x curr new s beats y beside ∙ l.previous;
        recorded =
            subst (λ z. lookup z t.dist_from_a ≡ some new) same (dist_at_update x curr new s);
        farther = omega (arith, beats l.dist (rw same l.recorded), l.farther);
        first = l.first;
      }
      | inr other ↦ record {
        before = l.before;
        dist = l.dist;
        ride = l.ride;
        previous = previous_beside start x curr new s beats y beside ∙ l.previous;
        recorded = dist_beside_update x curr new s l.before other ∙ l.recorded;
        farther = l.farther;
        first = l.first;
      }
    ]

    new_way : (k : ℕ) × Chain start t curr k
    new_way =
        let (k, ch) = h.chains curr v found in
        (k, avoids start x curr new s beats v ch found (λ old f. omega (arith, beats old f, exact)))

    waiting_still :
        (y : PathStop) (dy : ℕ)
        → (y, dy) ∈ t.nodes_to_visit
        → Within y dy t × (dy ≤ from + seen t (edges_in n.stations))
    unfolding update
    waiting_still y dy i = elim (∈-cases i) [
      | inl now ↦
          subst
            (λ (p : PathStopDist). Within p.0 p.1 t × (p.1 ≤ from + seen t (edges_in n.stations)))
            (sym now) ((new, dist_at_update x curr new s, omega arith), high_new)
      | inr old ↦
          let (w, top) = h.waiting y dy old in
          (
            Within-Improves y dy improves w,
            omega (arith, seen-Improves s t (edges_in n.stations) improves),
          )
    ]

    update-Sound : Sound t
    update-Sound = record {
      low = λ y dy f. elim (dist_updated x curr new s y dy f) [
        | inl (same, now) ↦ subst (λ z. from + lead z ≤ dy) same (omega (arith, now, low_new))
        | inr (_, old) ↦ h.low y dy old
      ];
      high = λ y dy f. elim (dist_updated x curr new s y dy f) [
        | inl (same, now) ↦ omega (arith, now, high_new)
        | inr (_, old) ↦
            omega (arith, h.high y dy old, seen-Improves s t (edges_in n.stations) improves)
      ];
      waiting = waiting_still;
      linked = λ y dy f. elim (dist_updated x curr new s y dy f) [
        | inl (same, now) ↦
            inr (subst (Linked t y) now (subst (λ z. Linked t z new) same link_to_new))
        | inr (beside, old) ↦ elim (h.linked y dy old) [
          | inl at_start ↦ inl at_start
          | inr l ↦ inr (link_kept y dy beside l)
        ]
      ];
      root_dist = dist_beside_update x curr new s start x-ne-start ∙ h.root_dist;
      root_previous = previous_beside start x curr new s beats start x-ne-start ∙ h.root_previous;
      chains = λ y dy f.
          let (kc, ch) = new_way in
          elim (dist_updated x curr new s y dy f) [
            | inl (same, now) ↦ (
              suc kc,
              subst (λ z. Chain start t z (suc kc)) same
                  (step (previous_at start x curr new s beats) (dist_at_update x curr new s)
                    (dist_beside_update x curr new s curr x-ne-curr ∙ found) (omega (arith, exact))
                    ch),
            )
            | inr (beside, old) ↦
                let (k, chain) = h.chains y dy old in
                reroutes start x curr new s beats v ch
                  (dist_beside_update x curr new s curr x-ne-curr ∙ found) (omega (arith, exact))
                  chain
          ];
    }

  -- The start's own rides are all recorded.
  abbrev pub Started : Search → Type 0
  Started s =
      (e : GraphEdge)
      → e ∈ edges_of start.node n
      → contains (neighbor e) excluded ≡ false
      → Within (neighbor e) (from + cost start e) s

  module _ (small : Small) (curr : PathStop) (d : ℕ) (away : curr.node ≢ b) where
    -- What the loop over the edges of a stop needs to know of it.
    abbrev pub Popped : Search → Type 0
    Popped s =
        Within curr d s × (d ≤ from + seen s (edges_in n.stations)) × ((curr ≢ start) → Started s)

    Popped-Improves : {s t : Search} → Improves s t → Popped s → Popped t
    Popped-Improves {s} {t} g (w, bound, started) = (
      Within-Improves curr d g w,
      omega (arith, seen-Improves s t (edges_in n.stations) g),
      λ ne e i in_. Within-Improves (neighbor e) (from + cost start e) g (started ne e i in_),
    )

    Relaxed-Sound :
        {e : GraphEdge} {s t : Search}
        → e ∈ edges_of curr.node n
        → Sound s
        → Popped s
        → Relaxed excluded curr d e s t
        → Sound t
    Relaxed-Sound leaves h p (skipped out) = h
    Relaxed-Sound leaves h p (no_better in_ w) = h
    Relaxed-Sound {e} {s} leaves h ((v, found, le), bound, started) (better in_ beats) =
        update-Sound s h small curr v d e found le bound away leaves in_ beats (λ same.
          elim (stop_cases curr start) [
            | inl at_start ↦ at_start
            | inr other ↦
                let (u, f, le') = started other e (subst (λ a. e ∈ edges_of a n) same leaves) in_ in
                absurd (
                  omega (
                    arith,
                    beats u f,
                    lead_step s h curr v d e found le,
                    neighbor_dist_exact curr d e (
                        omega (
                          arith,
                          minutes_in (edges_in n.stations) e (edge_in n curr.node e leaves),
                          seen-le s (edges_in n.stations),
                        )),
                  ))
          ])

    pub explore-Sound :
        (es : List GraphEdge) (s : Search)
        → ((e : GraphEdge) → e ∈ es → e ∈ edges_of curr.node n)
        → Sound s
        → Popped s
        → Sound (explore excluded curr d es s)
    unfolding explore
    explore-Sound [] s leaves h p = h
    explore-Sound (e ∷ es) s leaves h p =
        let r = relax-Relaxed excluded curr d e s in
        explore-Sound es (relax excluded curr d e s) (λ f i. leaves f (there i))
          (Relaxed-Sound (leaves e here) h p r)
          (Popped-Improves (Relaxed-Improves excluded curr d r) p)
