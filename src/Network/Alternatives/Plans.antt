-- ===== src/Network/Alternatives/Plans.antt =====
-- The candidates that leave the last fastest path at one of its stops: src/TransportNetwork.cpp.
use live_transport_network_m.Base.{
  ℕ, zero, suc, ◌+◌, ◌*◌, ◌≤◌, ◌<◌, ◌≡◌, ◌≢◌, refl, sym, ap, ◌∙◌, subst, arith, Option-cases, inl,
  inr, some, List, [], ◌∷◌, ◌++◌, All, All-append, length, get_elem?, get_elem?_of_lt, take,
}
use live_transport_network_m.Network.Stops.{PathStop, PathStopDist, TravelPath}
use live_transport_network_m.Network.Travel.{uint_mod}
use live_transport_network_m.Network.Types.{Node, TransportNetwork}
use live_transport_network_m.Network.Paths.{Std, found, back, edges_in, fastest_path}
use live_transport_network_m.Network.Paths.Closed.{IsStd}
use live_transport_network_m.Network.Paths.Fastest.{IsTrip, Fastest, fastest_path-Fastest}
use live_transport_network_m.Network.Paths.Minutes.{minutes}
use live_transport_network_m.Network.Alternatives.{removed_stops, spur, spurs}
use live_transport_network_m.Network.Alternatives.Trips.{
  IsTrip-weaken, take-IsTrip, take_first, back-append, times-IsTrip, away-IsTrip,
}

module _ (std : Std) (n : TransportNetwork) (b : Node) (known : List TravelPath) (path : TravelPath)
    (idx : ℕ) (p : PathStopDist) (at : get_elem? path idx ≡ some p) where
  spur_nothing :
      fastest_path std n p b (removed_stops idx path known) ≡ found []
      → spur std n b known path idx ≡ found []
  unfolding spur
  spur_nothing e = rw (at, spur) (rw e refl)

  spur_new :
      (q : TravelPath)
      → fastest_path std n p b (removed_stops idx path known) ≡ found (p ∷ q)
      → spur std n b known path idx ≡ found ((take idx path ++ (p ∷ q)) ∷ [])
  unfolding spur
  spur_new q e = rw (at, spur) (rw e refl)

module _ (n : TransportNetwork) (b : Node) (start : PathStop) where
  -- A trip from the start at time zero to station B.
  pub record Plan (path : TravelPath) : Type 0 where
    pub rest : TravelPath
    pub whole : path ≡ (start, 0) ∷ rest
    pub trip : IsTrip n b [] start 0 path
    pub arrival : PathStop
    pub time : ℕ
    pub last : back path ≡ some (arrival, time)
    pub at_b : arrival.node ≡ b

  pub Plan-Fastest :
      (path : TravelPath)
      → Fastest n b [] start 0 path
      → path ≢ []
      → (plan : Plan path) × (plan.time ≤ minutes (edges_in n.stations))
  Plan-Fastest path (inl (nothing, none_there)) ne = absurd (ne nothing)
  Plan-Fastest path (inr (q, x, d, whole, trip, last, at_b, short, least)) ne = (
    record {
      rest = q;
      whole = whole;
      trip = trip;
      arrival = x;
      time = d;
      last = last;
      at_b = at_b;
    },
    omega (arith, short),
  )

  -- The path that a spur path makes.
  spur-Plan :
      (path : TravelPath) (plan : Plan path) (idx : ℕ) (p : PathStopDist) (q : TravelPath)
      (x : PathStop) (d : ℕ)
      → get_elem? path idx ≡ some p
      → IsTrip n b [] start 0 (p ∷ q)
      → back (p ∷ q) ≡ some (x, d)
      → x.node ≡ b
      → Plan (take idx path ++ (p ∷ q))
  spur-Plan path plan idx p q x d at trip last at_b =
      let (rest, whole) =
        take_first n b start 0 (start, 0) plan.rest idx p q
          (subst (λ l. get_elem? l idx ≡ some p) plan.whole at) in
      record {
        rest = rest;
        whole =
            subst (λ (l : TravelPath). take idx l ++ (p ∷ q) ≡ (start, 0) ∷ rest) (sym plan.whole)
              whole;
        trip = take-IsTrip n b start 0 path idx p q plan.trip at trip;
        arrival = x;
        time = d;
        last = back-append n b start 0 (take idx path) p q ∙ last;
        at_b = at_b;
      }

  module _ (std : Std) (is : IsStd std) (known : List TravelPath) (path : TravelPath)
      (plan : Plan path) (small : plan.time + 2 * minutes (edges_in n.stations) < uint_mod) where
    spur-All-Plan :
        (idx : ℕ)
        → suc idx < length path
        → (new : List TravelPath) × (spur std n b known path idx ≡ found new) × All Plan new
    spur-All-Plan idx inside = elim (Option-cases (get_elem? path idx)) [
      | inl outside ↦ absurd (get_elem?_of_lt idx path (omega arith) outside)
      | inr (p, at) ↦
          let stops = removed_stops idx path known in
          let far =
            times-IsTrip n b start 0 path idx p (plan.arrival, plan.time) plan.trip at plan.last in
          let (spur_path, e, fastest) =
            fastest_path-Fastest n b stops p.0 p.1 std is (omega arith)
              (away-IsTrip n b start 0 path idx p plan.trip at inside) in
          elim fastest [
            | inl (nothing, none_there) ↦
                ([], spur_nothing std n b known path idx p at (e ∙ ap found nothing), tt)
            | inr (q, x, d, whole, trip, last, at_b, short, least) ↦ (
              (take idx path ++ (p ∷ q)) ∷ [],
              spur_new std n b known path idx p at q (e ∙ ap found whole),
              (
                spur-Plan path plan idx p q x d at
                    (IsTrip-weaken n b start 0 stops p.0 p.1 (p ∷ q)
                      (subst (IsTrip n b stops p.0 p.1) whole trip))
                    (subst (λ l. back l ≡ some (x, d)) whole last) at_b,
                tt,
              ),
            )
          ]
    ]

    pub spurs-All-Plan :
        (left idx : ℕ) (potential_paths : List TravelPath)
        → idx + left < length path
        → All Plan potential_paths
        → (queue : List TravelPath) × (spurs std n b known path left idx potential_paths
            ≡ found queue)
          × All Plan queue
    unfolding spurs
    spurs-All-Plan zero idx potential_paths inside plans = (potential_paths, refl, plans)
    spurs-All-Plan (suc left) idx potential_paths inside plans =
        let (new, e, new_plans) = spur-All-Plan idx (omega arith) in
        let (queue, e', queue_plans) =
          spurs-All-Plan left (suc idx) (new ++ potential_paths) (omega arith)
            (All-append Plan new potential_paths new_plans plans) in
        (queue, rw e e', queue_plans)
