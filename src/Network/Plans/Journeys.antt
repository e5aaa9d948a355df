-- ===== src/Network/Plans/Journeys.antt =====
-- The steps of the fastest travel route are the shortest journey: src/TransportNetwork.cpp.
use live_transport_network_m.Base.{
  ℕ, ◌+◌, ◌≤◌, ◌≡◌, ◌≢◌, ◌↔◌, refl, sym, ap, ◌∙◌, subst, arith, false, Bool-cases, Option-cases,
  ◌⊎◌, inl, inr, none, some, List, [], ◌∷◌, bytes_eq, ◌==◌, ◌∈◌,
}
use live_transport_network_m.Network.Stops.{PathStop, TravelPath}
use live_transport_network_m.Network.Types.{Ident, Node, GraphEdge, TransportNetwork, get_station}
use live_transport_network_m.Network.Paths.{
  Std, Found, found, ◌>>=◌, contains, edges_of, neighbor, back,
}
use live_transport_network_m.Network.Paths.Closed.{IsStd}
use live_transport_network_m.Network.Paths.Fastest.{IsTrip, Fastest, fastest_path-Fastest}
use live_transport_network_m.Network.Paths.Sound.{Small}
use live_transport_network_m.Network.Paths.Walks.{cost, Walk, stay, ride}
use live_transport_network_m.Network.Plans.{
  Step, TravelRoute, step_by, steps_of, travel_route, at_station, no_route, stay_route, empty_route,
  get_fastest_travel_route,
}

module _ (n : TransportNetwork) (b : Node) where
  -- The steps from a stop to a stop at station B along the edges, and the minutes that they take, with
  -- five for each change of routes. Nothing here wraps around.
  pub data Journey : PathStop → List Step → ℕ → Type 0 where
    arrive : {x : PathStop} → x.node ≡ b → Journey x [] 0
    go :
        {x : PathStop} {steps : List Step} {t : ℕ}
        → (e : GraphEdge) → e ∈ edges_of x.node n
        → Journey (neighbor e) steps t
        → Journey x (step_by x e (neighbor e) ∷ steps) (cost x e + t)

  -- A journey that goes on from a walk is no shorter than the walk on which station B comes first.
  pub Journey-Walk :
      (start : PathStop) (from : ℕ)
      → {x : PathStop} {steps : List Step} {t : ℕ} → Journey x steps t
      → (d : ℕ) → Walk n b [] start from x d
      → (y : PathStop) × (l : ℕ) × Walk n b [] start from y l × (y.node ≡ b) × (l ≤ d + t)
  unfolding contains
  Journey-Walk start from {x} (arrive at_b) d w = (x, d, w, at_b, omega arith)
  Journey-Walk start from {x} (go {t} e i j) d w = elim (Bool-cases (x.node == b)) [
    | inl at_b ↦ (x, d, w, (bytes_eq.beq_iff x.node b).0 at_b, omega arith)
    | inr away ↦
        let ne : x.node ≢ b = λ at_b. ground (arith, bytes_eq.beq_iff x.node b) in
        let (y, l, w', at_b, le) = Journey-Walk start from j (d + cost x e) (ride w ne e i refl) in
        (y, l, w', at_b, omega arith)
  ]

  steps_of_step :
      (x : PathStop) (d : ℕ) (e : GraphEdge) (de : ℕ) (path : TravelPath) (steps : List Step)
      → steps_of ((neighbor e, de) ∷ path) ≡ found steps
      → steps_of ((x, d) ∷ (neighbor e, de) ∷ path) ≡ found (step_by x e (neighbor e) ∷ steps)
  unfolding steps_of
  steps_of_step x d e de path steps s =
      ap (λ (r : Found (List Step)). r >>= λ rest. found (step_by x e (neighbor e) ∷ rest)) s

  -- The steps of a trip.
  pub steps_of-Journey :
      (start : PathStop) (from : ℕ) (path : TravelPath) (x y : PathStop) (d e : ℕ)
      → IsTrip n b [] start from ((x, d) ∷ path)
      → back ((x, d) ∷ path) ≡ some (y, e)
      → y.node ≡ b
      → (steps : List Step) × (t : ℕ) × (steps_of ((x, d) ∷ path) ≡ found steps)
        × Journey x steps t
        × (e ≡ d + t)
  unfolding steps_of back
  steps_of-Journey start from [] x y d e trip last at_b =
      let same : x ≡ y = ground arith in
      ([], 0, refl, arrive (ap (λ (z : PathStop). z.node) same ∙ at_b), ground arith)
  steps_of-Journey start from ((z, dz) ∷ path) x y d e (r, exact, trip) last at_b =
      let (steps, t, s, j, sum) = steps_of-Journey start from path z y dz e trip last at_b in
      let to = r.goes_to in
      (
        step_by x r.edge (neighbor r.edge) ∷ steps,
        cost x r.edge + t,
        subst
            (λ v.
              steps_of ((x, d) ∷ (v, dz) ∷ path)
              ≡ found (step_by x r.edge (neighbor r.edge) ∷ steps))
            (sym to)
            (steps_of_step x d r.edge dz path steps
              (subst (λ v. steps_of ((v, dz) ∷ path) ≡ found steps) to s)),
        go r.edge r.leaves (subst (λ v. Journey v steps t) to j),
        omega arith,
      )

  -- The route is a shortest journey, or an empty one where there is no journey.
  abbrev pub IsShortest : Ident → TravelRoute → Type 0
  IsShortest a r =
      (r.start_station_id ≡ a)
      × (r.end_station_id ≡ b)
      × (((r ≡ no_route a b) × ((steps : List Step) (t : ℕ) → ¬ Journey (at_station a) steps t))
          ⊎ (Journey (at_station a) r.steps r.total_travel_time
              × ((steps : List Step) (t : ℕ)
                  → Journey (at_station a) steps t
                  → r.total_travel_time ≤ t)))

  pub travel_route-steps_of :
      (a : Ident) (path : TravelPath) (y : PathStop) (d : ℕ) (steps : List Step)
      → back path ≡ some (y, d)
      → steps_of path ≡ found steps
      → travel_route a b path
        ≡ found (record {
          start_station_id = a;
          end_station_id = b;
          total_travel_time = d;
          steps = steps;
        })
  unfolding travel_route
  travel_route-steps_of a path y d steps last s = rw (last, travel_route) (rw s refl)

  travel_route-IsShortest :
      (a : Ident) (path : TravelPath)
      → Fastest n b [] (at_station a) 0 path
      → (r : TravelRoute) × (travel_route a b path ≡ found r) × IsShortest a r
  unfolding travel_route back no_route
  travel_route-IsShortest a path (inl (nothing, none_there)) = (
    no_route a b,
    rw nothing refl,
    (
      refl,
      refl,
      inl (
        refl,
        λ steps t j.
            let (y, l, w, at_b, le) = Journey-Walk (at_station a) 0 j 0 stay in
            none_there y l w at_b,
      ),
    ),
  )
  travel_route-IsShortest a path (inr (q, y, d, whole, trip, last, at_b, short, least)) =
      let (steps, t, s, j, sum) =
        steps_of-Journey (at_station a) 0 q (at_station a) y 0 d
          (subst (IsTrip n b [] (at_station a) 0) whole trip)
          (subst (λ p. back p ≡ some (y, d)) whole last) at_b in
      (
        record { start_station_id = a; end_station_id = b; total_travel_time = d; steps = steps },
        travel_route-steps_of a path y d steps last
            (subst (λ p. steps_of p ≡ found steps) (sym whole) s),
        (
          refl,
          refl,
          inr (
            subst (Journey (at_station a) steps) (omega (arith, sum)) j,
            λ steps' t' j'.
                let (z, l, w, at, le) = Journey-Walk (at_station a) 0 j' 0 stay in
                omega (arith, least z l w at),
          ),
        ),
      )

  Journey-nil :
      {x : PathStop} {steps : List Step} {t : ℕ} → Journey x steps t → steps ≡ [] → x.node ≡ b
  Journey-nil (arrive at_b) e = at_b
  Journey-nil (go e' i j) e = absurd (ground (arith, e))

  -- When a route has no steps.
  abbrev pub Stepless : Ident → TravelRoute → Type 0
  Stepless a r = (r.steps ≡ []) ↔ (
      (get_station a n ≡ none)
      ⊎ ((get_station b n ≡ none)
          ⊎ ((steps : List Step) (t : ℕ) → ¬ Journey (at_station a) steps t)))

  IsShortest-Stepless :
      (a : Ident) (r : TravelRoute)
      → get_station a n ≢ none
      → get_station b n ≢ none
      → a ≢ b
      → IsShortest a r
      → Stepless a r
  unfolding no_route
  IsShortest-Stepless a r known_a known_b ne (start, end, inl (stays, none_there)) =
      (λ e. inr (inr none_there), λ o. ap (λ (s : TravelRoute). s.steps) stays)
  IsShortest-Stepless a r known_a known_b ne (start, end, inr (j, least)) = (
    λ e. absurd (ne (Journey-nil j e)),
    λ o. elim o [
      | inl unknown ↦ absurd (known_a unknown)
      | inr (inl unknown) ↦ absurd (known_b unknown)
      | inr (inr none_there) ↦ absurd (none_there r.steps r.total_travel_time j)
    ],
  )

  module _ (std : Std) (is : IsStd std) where
    -- For two different stations of a network in which no sum of travel times wraps around, the public
    -- `GetFastestTravelRoute` returns a route whose steps lead from one to the other along the edges,
    -- with its total travel time, and no journey takes less; or a route with no steps where there is
    -- no journey.
    pub get_fastest_travel_route-IsShortest :
        (a : Ident)
        → get_station a n ≢ none
        → get_station b n ≢ none
        → a ≢ b
        → Small n b [] (at_station a) 0
        → (r : TravelRoute) × (get_fastest_travel_route std n a b ≡ found r) × IsShortest a r
    unfolding get_fastest_travel_route
    get_fastest_travel_route-IsShortest a known_a known_b ne small =
        elim (Option-cases (get_station a n)) [
          | inl unknown ↦ absurd (known_a unknown)
          | inr (node_a, is_a) ↦ elim (Option-cases (get_station b n)) [
            | inl unknown ↦ absurd (known_b unknown)
            | inr (node_b, is_b) ↦
                let off : (a == b) ≡ false = elim (Bool-cases (a == b)) [
                  | inl same ↦ absurd (ne ((bytes_eq.beq_iff a b).0 same))
                  | inr other ↦ other
                ] in
                let (path, e, fastest) =
                  fastest_path-Fastest n b [] (at_station a) 0 std is small ne in
                let (r, whole, shortest) = travel_route-IsShortest a path fastest in
                (r, rw (is_a, get_fastest_travel_route) (rw is_b (rw off (rw e whole))), shortest)
          ]
        ]

    -- The public `GetFastestTravelRoute` returns for any two stations, known or not, of a network in which
    -- no sum of travel times wraps around. The route has no steps exactly if one of the stations is
    -- unknown or there is no journey between them.
    pub get_fastest_travel_route-Stepless :
        (a : Ident)
        → Small n b [] (at_station a) 0
        → (r : TravelRoute) × (get_fastest_travel_route std n a b ≡ found r) × Stepless a r
    unfolding get_fastest_travel_route stay_route
    get_fastest_travel_route-Stepless a small = elim (Option-cases (get_station a n)) [
      | inl unknown ↦
          (empty_route, rw (unknown, get_fastest_travel_route) refl, (λ e. inl unknown, λ o. refl))
      | inr (node_a, is_a) ↦ elim (Option-cases (get_station b n)) [
        | inl unknown ↦ (
          empty_route,
          rw (is_a, get_fastest_travel_route) (rw unknown refl),
          (λ e. inr (inl unknown), λ o. refl),
        )
        | inr (node_b, is_b) ↦ elim (Bool-cases (a == b)) [
          | inl same ↦ (
            stay_route a,
            rw (is_a, get_fastest_travel_route) (rw is_b (rw same refl)),
            (
              λ e. absurd (ground (arith, e)),
              λ o. elim o [
                | inl unknown ↦ absurd (ground (arith, unknown))
                | inr (inl unknown) ↦ absurd (ground (arith, unknown))
                | inr (inr none_there) ↦
                    absurd (none_there [] 0 (arrive ((bytes_eq.beq_iff a b).0 same)))
              ],
            ),
          )
          | inr other ↦
              let (r, e, shortest) =
                get_fastest_travel_route-IsShortest a (λ e. ground (arith, e))
                  (λ e. ground (arith, e)) (λ same. ground (arith, bytes_eq.beq_iff a b)) small in
              (
                r,
                e,
                IsShortest-Stepless a r (λ e. ground (arith, e)) (λ e. ground (arith, e))
                    (λ same. ground (arith, bytes_eq.beq_iff a b)) shortest,
              )
        ]
      ]
    ]
