-- ===== src/Network/Quiet/Choice.antt =====
-- The most quiet route is a journey that is not much slower than the fastest, and its path is the
-- least crowded: src/TransportNetwork.cpp.
use live_transport_network_m.Base.{
  ℕ, ◌+◌, ◌*◌, ◌≤◌, ◌<◌, ◌≡◌, ◌≢◌, refl, sym, ap, ◌∙◌, subst, arith, Bool-cases, ◌⊎◌, inl, inr,
  none, some, List, [], ◌∷◌, ◌&&◌, not, bytes_eq, All, All-∈, ltb, ◌∈◌, here, there,
}
use live_transport_network_m.Network.Stops.{TravelPath}
use live_transport_network_m.Network.Travel.{uint_mod}
use live_transport_network_m.Network.Types.{Node, TransportNetwork, get_station}
use live_transport_network_m.Network.Paths.{Std, found, back, edges_in, fastest_path}
use live_transport_network_m.Network.Paths.Closed.{IsStd}
use live_transport_network_m.Network.Paths.Fastest.{IsTrip}
use live_transport_network_m.Network.Paths.Minutes.{minutes}
use live_transport_network_m.Network.Paths.Walks.{stay}
use live_transport_network_m.Network.Plans.{
  Step, TravelRoute, at_station, no_route, steps_of, travel_route, get_fastest_travel_route,
}
use live_transport_network_m.Network.Plans.Journeys.{
  Journey, Journey-Walk, get_fastest_travel_route-IsShortest, steps_of-Journey,
  travel_route-steps_of,
}
use live_transport_network_m.Network.Alternatives.{get_fastest_travel_routes}
use live_transport_network_m.Network.Alternatives.Plans.{Plan}
use live_transport_network_m.Network.Alternatives.Selection.{
  IsPathQueue, Within, Offers, get_fastest_travel_routes-Offers,
}
use live_transport_network_m.Network.Quiet.{get_path_crowding, most_quiet, get_quiet_travel_route}

module _ (n : TransportNetwork) (max_crowding : ℕ) where
  -- The path that the loop of `GetQuietTravelRoute` chooses is the fastest or one within the limit on
  -- the crowding; it is not more crowded than the fastest, nor than any other within the limit.
  abbrev pub IsMostQuiet : List TravelPath → TravelPath → TravelPath → Type 0
  IsMostQuiet others fastest path =
      ((path ≡ fastest) ⊎ ((path ∈ others) × (get_path_crowding n path ≤ max_crowding)))
      × (get_path_crowding n path ≤ get_path_crowding n fastest)
      × All
          (λ q.
            get_path_crowding n q ≤ max_crowding → get_path_crowding n path ≤ get_path_crowding n q)
          others

  pub most_quiet-IsMostQuiet :
      (others : List TravelPath) (fastest : TravelPath)
      → IsMostQuiet others fastest
          (most_quiet n max_crowding others (get_path_crowding n fastest) fastest)
  unfolding most_quiet
  most_quiet-IsMostQuiet [] fastest = (inl refl, omega arith, tt)
  most_quiet-IsMostQuiet (path ∷ others) fastest =
      let test =
        not (ltb max_crowding (get_path_crowding n path))
        && ltb (get_path_crowding n path) (get_path_crowding n fastest) in
      elim (Bool-cases test) [
        | inl better ↦
            let (chosen, less, all) = most_quiet-IsMostQuiet others path in
            let next = most_quiet n max_crowding others (get_path_crowding n path) path in
            let step : most_quiet n max_crowding (path ∷ others) (get_path_crowding n fastest)
                  fastest
                ≡ next =
              rw better refl in
            subst (IsMostQuiet (path ∷ others) fastest) (sym step) (
              inr (elim chosen [
                | inl same ↦ (
                  subst (λ p. p ∈ path ∷ others) (sym same) here,
                  ground (arith, ap (get_path_crowding n) same),
                )
                | inr (i, le) ↦ (there i, le)
              ]),
              ground (arith, less),
              (λ le. less, all),
            )
        | inr worse ↦
            let (chosen, less, all) = most_quiet-IsMostQuiet others fastest in
            let next = most_quiet n max_crowding others (get_path_crowding n fastest) fastest in
            let step : most_quiet n max_crowding (path ∷ others) (get_path_crowding n fastest)
                  fastest
                ≡ next =
              rw worse refl in
            subst (IsMostQuiet (path ∷ others) fastest) (sym step) (
              elim chosen [ inl same ↦ inl same | inr (i, le) ↦ inr (there i, le) ],
              less,
              (λ le. ground (arith, less), all),
            )
      ]

module _ (n : TransportNetwork) (std : Std) (is : IsStd std) (is_queue : IsPathQueue std) where
  -- What `GetQuietTravelRoute` promises of its route.
  abbrev pub IsQuiet : (ℕ → ℕ) → Node → Node → TravelRoute → Type 0
  IsQuiet slowed a b r =
      (r.start_station_id ≡ a)
      × (r.end_station_id ≡ b)
      × (shortest : TravelRoute) × (get_fastest_travel_route std n a b ≡ found shortest)
      × (((r ≡ shortest)
            × (r ≡ no_route a b)
            × ((steps : List Step) (t : ℕ) → ¬ Journey n b (at_station a) steps t))
          ⊎ (Journey n b (at_station a) r.steps r.total_travel_time
              × ((r ≡ shortest) ⊎ (r.total_travel_time ≤ slowed shortest.total_travel_time))))

  -- The route of a plan.
  Plan-travel_route :
      (a b : Node) (path : TravelPath) (plan : Plan n b (at_station a) path)
      → (r : TravelRoute) × (travel_route a b path ≡ found r)
        × (r.start_station_id ≡ a)
        × (r.end_station_id ≡ b)
        × Journey n b (at_station a) r.steps r.total_travel_time
        × (r.total_travel_time ≡ plan.time)
  Plan-travel_route a b path plan =
      let (steps, t, s, j, sum) =
        steps_of-Journey n b (at_station a) 0 plan.rest (at_station a) plan.arrival 0 plan.time
          (subst (IsTrip n b [] (at_station a) 0) plan.whole plan.trip)
          (subst (λ p. back p ≡ some (plan.arrival, plan.time)) plan.whole plan.last) plan.at_b in
      (
        record {
          start_station_id = a;
          end_station_id = b;
          total_travel_time = plan.time;
          steps = steps;
        },
        travel_route-steps_of n b a path plan.arrival plan.time steps plan.last
            (subst (λ p. steps_of p ≡ found steps) (sym plan.whole) s),
        refl,
        refl,
        subst (Journey n b (at_station a) steps) (omega (arith, sum)) j,
        refl,
      )

  module _ (a b : Node) (known_a : get_station a n ≢ none) (known_b : get_station b n ≢ none)
      (ne : a ≢ b) where
    fastest_from :
        (path : TravelPath)
        → fastest_path std n (at_station a, 0) b [] ≡ found path
        → get_fastest_travel_route std n a b ≡ travel_route a b path
    unfolding get_fastest_travel_route
    fastest_from path e = ground (arith, e, bytes_eq.beq_iff a b)

    module _ (slowed quieter : ℕ → ℕ) (max : ℕ) where
      quiet_nothing :
          get_fastest_travel_routes std n slowed max a b ≡ found []
          → get_quiet_travel_route std n slowed quieter max a b ≡ found (no_route a b)
      unfolding get_quiet_travel_route
      quiet_nothing e = ground (arith, e, bytes_eq.beq_iff a b)

      quiet_from :
          (fastest : TravelPath) (others : List TravelPath)
          → get_fastest_travel_routes std n slowed max a b ≡ found (fastest ∷ others)
          → get_quiet_travel_route std n slowed quieter max a b
            ≡ travel_route a b (
                most_quiet n
                  (quieter (get_path_crowding n fastest))
                  others
                  (get_path_crowding n fastest)
                  fastest)
      unfolding get_quiet_travel_route
      quiet_from fastest others e = ground (arith, e, bytes_eq.beq_iff a b)

  -- The plan of the path that the loop chooses.
  chosen_route :
      (a b : Node) (limit : ℕ) (fastest path : TravelPath) (others : List TravelPath)
      (max_crowding : ℕ)
      → All (Within n b (at_station a) limit) others
      → IsMostQuiet n max_crowding others fastest path
      → (path ≡ fastest) ⊎ ((plan : Plan n b (at_station a) path) × (plan.time ≤ limit))
  chosen_route a b limit fastest path others max_crowding within (inl same, less, all) = inl same
  chosen_route a b limit fastest path others max_crowding within (inr (i, le), less, all) =
      inr (All-∈ (Within n b (at_station a) limit) others within i)

  chosen_IsQuiet :
      (slowed quieter : ℕ → ℕ) (max : ℕ) (a b : Node) (paths : List TravelPath)
      → get_station a n ≢ none
      → get_station b n ≢ none
      → a ≢ b
      → ((t : ℕ)
          → t ≤ minutes (edges_in n.stations)
          → slowed t + 3 * minutes (edges_in n.stations) < uint_mod)
      → get_fastest_travel_routes std n slowed max a b ≡ found paths
      → Offers n b (at_station a) std slowed max paths
      → (r : TravelRoute) × (get_quiet_travel_route std n slowed quieter max a b ≡ found r)
        × IsQuiet slowed a b r
  chosen_IsQuiet slowed quieter max a b paths known_a known_b ne fits e
        (inl (nothing, none_there)) =
      let (r, e', (start, end, shortest)) =
        get_fastest_travel_route-IsShortest n b std is a known_a known_b ne
          (omega (arith, fits 0 (omega arith))) in
      elim shortest [
        | inl (stays, none_at_all) ↦ (
          r,
          quiet_nothing a b known_a known_b ne slowed quieter max (e ∙ ap found nothing)
              ∙ ap found (sym stays),
          (start, end, r, e', inl (refl, stays, none_at_all)),
        )
        | inr (j, least) ↦
            let (y, l, w, at_b, le) = Journey-Walk n b (at_station a) 0 j 0 stay in
            absurd (none_there y l w at_b)
      ]
  chosen_IsQuiet slowed quieter max a b paths known_a known_b ne fits e
        (inr (fastest, others, plan, whole, first, least, within, different, few)) =
      let (shortest, e', start, end, j, time) = Plan-travel_route a b fastest plan in
      let max_crowding = quieter (get_path_crowding n fastest) in
      let path = most_quiet n max_crowding others (get_path_crowding n fastest) fastest in
      let same_routes = fastest_from a b known_a known_b ne fastest first ∙ e' in
      let chosen =
        quiet_from a b known_a known_b ne slowed quieter max fastest others (e ∙ ap found whole) in
      elim (chosen_route a b (slowed plan.time) fastest path others max_crowding within
        (most_quiet-IsMostQuiet n max_crowding others fastest)) [
          | inl same ↦ (
            shortest,
            chosen ∙ (ap (travel_route a b) same ∙ e'),
            (start, end, shortest, same_routes, inr (j, inl refl)),
          )
          | inr (plan', timely) ↦
              let (r, e'', start', end', j', time') = Plan-travel_route a b path plan' in
              (
                r,
                chosen ∙ e'',
                (
                  start',
                  end',
                  shortest,
                  same_routes,
                  inr (j', inr (ground (arith, timely, time', ap slowed time))),
                ),
              )
        ]

  -- For two different stations, with `slowed` a limit that keeps distances from wrapping around,
  -- `GetQuietTravelRoute` returns a route with no steps, as `GetFastestTravelRoute` does, where there is
  -- no journey. Otherwise its steps lead from one station to the other along the edges, with its total
  -- travel time, and it is the route of `GetFastestTravelRoute` or within the limit of that route's
  -- time.
  pub get_quiet_travel_route-IsQuiet :
      (slowed quieter : ℕ → ℕ) (max : ℕ) (a b : Node)
      → get_station a n ≢ none
      → get_station b n ≢ none
      → a ≢ b
      → ((t : ℕ)
          → t ≤ minutes (edges_in n.stations)
          → slowed t + 3 * minutes (edges_in n.stations) < uint_mod)
      → (r : TravelRoute) × (get_quiet_travel_route std n slowed quieter max a b ≡ found r)
        × IsQuiet slowed a b r
  get_quiet_travel_route-IsQuiet slowed quieter max a b known_a known_b ne fits =
      let (paths, e, offers) =
        get_fastest_travel_routes-Offers n std is is_queue slowed max a b ne fits in
      chosen_IsQuiet slowed quieter max a b paths known_a known_b ne fits e offers
