-- ===== src/Network/Alternatives/Selection.antt =====
-- The paths that are chosen among the candidates: src/TransportNetwork.cpp.
use live_transport_network_m.Base.{
  ℕ, zero, suc, ◌+◌, ◌-◌, ◌*◌, ◌≤◌, ◌<◌, ◌≡◌, ◌≢◌, ◌↔◌, refl, sym, ap, ◌∙◌, subst, arith, false,
  Bool-cases, Option-cases, ◌⊎◌, inl, inr, Option, none, some, List, [], ◌∷◌, ◌++◌, All, All-append,
  All-∈, ∈-All, Different, Different-append, ◌∈◌, ∈-cases, length, length-append, ltb, ◌==◌,
}
use live_transport_network_m.Network.Stops.{PathStop, TravelPath, path_eq}
use live_transport_network_m.Network.Travel.{uint_mod}
use live_transport_network_m.Network.Types.{Node, TransportNetwork}
use live_transport_network_m.Network.Paths.{Std, found, back, edges_in, fastest_path}
use live_transport_network_m.Network.Paths.Closed.{IsStd}
use live_transport_network_m.Network.Paths.Fastest.{Fastest, fastest_path-Fastest, back_in}
use live_transport_network_m.Network.Paths.Minutes.{minutes}
use live_transport_network_m.Network.Paths.Walks.{Walk}
use live_transport_network_m.Network.Plans.{at_station}
use live_transport_network_m.Network.Alternatives.{
  is_among, select, kth_round, rounds, get_fastest_travel_routes,
}
use live_transport_network_m.Network.Alternatives.Plans.{Plan, spurs-All-Plan}

-- What the standard library promises of a priority queue of paths.
pub record IsPathQueue (std : Std) : Type 0 where
  pub pop_length :
      (q rest : List TravelPath) (p : TravelPath)
      → std.pop_path q ≡ some (p, rest)
      → length q ≡ suc (length rest)
  pub pop_in :
      (q rest : List TravelPath) (p r : TravelPath)
      → std.pop_path q ≡ some (p, rest)
      → (r ∈ q) ↔ ((r ≡ p) ⊎ (r ∈ rest))

back-some : {A : Type 0} (x : A) (xs : List A) → (last : A) × (back (x ∷ xs) ≡ some last)
unfolding back
back-some x [] = (x, refl)
back-some x (y ∷ xs) = back-some y xs

is_among-All :
    (p : TravelPath) (known : List TravelPath) → is_among p known ≡ false → All (λ q. q ≢ p) known
unfolding is_among
is_among-All p [] e = tt
is_among-All p (q ∷ known) e = elim (Bool-cases (q == p)) [
  | inl same ↦ absurd (ground arith)
  | inr other ↦ (λ same. ground (arith, path_eq.beq_iff q p), is_among-All p known (rw other at e))
]

module _ (n : TransportNetwork) (b : Node) (start : PathStop) where
  -- A plan that takes no longer than the limit.
  abbrev pub Within : ℕ → TravelPath → Type 0
  Within limit path = (plan : Plan n b start path) × (plan.time ≤ limit)

  -- A path that was chosen is new and within the limit.
  abbrev Chosen : ℕ → List TravelPath → Option (TravelPath × List TravelPath) → Type 0
  Chosen limit known none = Unit
  Chosen limit known (some (path, queue)) =
      Within limit path × All (λ q. q ≢ path) known × All (Plan n b start) queue

  module _ (std : Std) (is : IsStd std) (is_queue : IsPathQueue std) where
    popped-All :
        (queue rest : List TravelPath) (path : TravelPath)
        → std.pop_path queue ≡ some (path, rest)
        → All (Plan n b start) queue
        → Plan n b start path × All (Plan n b start) rest
    popped-All queue rest path popped plans = (
      All-∈ (Plan n b start) queue plans
          ((is_queue.pop_in queue rest path path popped).1 (inl refl)),
      ∈-All (Plan n b start) rest (λ q i.
          All-∈ (Plan n b start) queue plans
            ((is_queue.pop_in queue rest path q popped).1 (inr i))),
    )

    select-Chosen :
        (fuel limit : ℕ) (known queue : List TravelPath)
        → length queue < fuel
        → All (Plan n b start) queue
        → (o : Option (TravelPath × List TravelPath)) × (select std fuel limit known queue
            ≡ found o)
          × Chosen limit known o
    unfolding select
    select-Chosen zero limit known queue enough plans = absurd (omega arith)
    select-Chosen (suc fuel) limit known queue enough plans =
        elim (Option-cases (std.pop_path queue)) [
          | inl empty ↦ (none, rw (empty, select) refl, tt)
          | inr ((path, rest), popped) ↦
              let (plan, rest_plans) = popped-All queue rest path popped plans in
              elim (Bool-cases (ltb limit plan.time)) [
                | inl late ↦ (none, rw (popped, select) (rw plan.last (rw late refl)), tt)
                | inr timely ↦ elim (Bool-cases (is_among path known)) [
                  | inl old ↦
                      let (o, e, chosen) =
                        select-Chosen fuel limit known rest
                          (omega (arith, is_queue.pop_length queue rest path popped)) rest_plans in
                      (o, rw (popped, select) (rw plan.last (rw timely (rw old e))), chosen)
                  | inr new ↦ (
                    some (path, rest),
                    rw (popped, select) (rw plan.last (rw timely (rw new refl))),
                    ((plan, ground arith), is_among-All path known new, rest_plans),
                  )
                ]
              ]
        ]

    kth_round-Chosen :
        (limit : ℕ) (known queue : List TravelPath) (last : TravelPath) (plan : Plan n b start last)
        → back known ≡ some last
        → plan.time + 2 * minutes (edges_in n.stations) < uint_mod
        → All (Plan n b start) queue
        → (o : Option (TravelPath × List TravelPath)) × (kth_round std n b limit known queue
            ≡ found o)
          × Chosen limit known o
    unfolding kth_round
    kth_round-Chosen limit known queue last plan at_back small plans =
        let inside : 0 + (length last - 1) < length last =
          omega (arith, ap (λ (l : TravelPath). length l) plan.whole) in
        let (all, e, all_plans) =
          spurs-All-Plan n b start std is known last plan small (length last - 1) 0 queue inside
            plans in
        let (o, e', chosen) =
          select-Chosen (suc (length all)) limit known all (omega arith) all_plans in
        (o, rw (at_back, kth_round) (rw e e'), chosen)

    module _ (limit : ℕ) (fits : limit + 3 * minutes (edges_in n.stations) < uint_mod) (max : ℕ)
        (fastest : TravelPath) where
      -- The paths found so far.
      pub record Selected (more : List TravelPath) : Type 0 where
        pub first : (plan : Plan n b start fastest) × (plan.time ≤ minutes (edges_in n.stations))
        pub others : All (Within limit) more
        pub different : Different (fastest ∷ more)
        pub few : (more ≡ []) ⊎ (suc (length more) ≤ max)

      -- No spur path from one of them wraps around.
      Selected-small :
          (more : List TravelPath) (last : TravelPath)
          → Selected more
          → last ∈ fastest ∷ more
          → (plan : Plan n b start last) × (plan.time + 2 * minutes (edges_in n.stations)
              < uint_mod)
      Selected-small more last h i = elim (∈-cases i) [
        | inl same ↦
            let (plan, short) = h.first in
            subst
              (λ p.
                (plan : Plan n b start p) × (plan.time + 2 * minutes (edges_in n.stations)
                  < uint_mod))
              (sym same) (plan, omega arith)
        | inr other ↦
            let (plan, timely) = All-∈ (Within limit) more h.others other in (plan, omega arith)
      ]

      Selected-append :
          (more : List TravelPath) (path : TravelPath)
          → Selected more
          → suc (length more) < max
          → Within limit path
          → All (λ q. q ≢ path) (fastest ∷ more)
          → Selected (more ++ (path ∷ []))
      Selected-append more path h room within new = record {
        first = h.first;
        others = All-append (Within limit) more (path ∷ []) h.others (within, tt);
        different = Different-append (fastest ∷ more) path h.different new;
        few = inr (omega (arith, length-append more (path ∷ [])));
      }

      rounds-Selected :
          (fuel : ℕ) (more queue : List TravelPath)
          → max ≤ fuel + suc (length more)
          → Selected more
          → All (Plan n b start) queue
          → (all : List TravelPath) × (rounds std n b limit max fuel (fastest ∷ more) queue
              ≡ found (fastest ∷ all))
            × Selected all
      unfolding rounds
      rounds-Selected zero more queue enough h plans =
          let full : ltb (suc (length more)) max ≡ false = ground arith in (more, rw full refl, h)
      rounds-Selected (suc fuel) more queue enough h plans =
          elim (Bool-cases (ltb (suc (length more)) max)) [
            | inr full ↦ (more, rw full refl, h)
            | inl room ↦
                let (last, at_back) = back-some fastest more in
                let (plan, small) =
                  Selected-small more last h (back_in (fastest ∷ more) last at_back) in
                let (o, e, chosen) =
                  kth_round-Chosen limit (fastest ∷ more) queue last plan at_back small plans in
                elim (Option-cases o) [
                  | inl nothing ↦ (more, rw (room, rounds) (rw (e ∙ ap found nothing) refl), h)
                  | inr ((path, rest), one) ↦
                      let (within, new, rest_plans) =
                        subst (Chosen limit (fastest ∷ more)) one chosen in
                      let (all, e', selected) =
                        rounds-Selected fuel (more ++ (path ∷ [])) rest
                          (omega (arith, length-append more (path ∷ [])))
                          (Selected-append more path h (ground arith) within new) rest_plans in
                      (all, rw (room, rounds) (rw (e ∙ ap found one) e'), selected)
                ]
          ]

  -- No path, where no walk leads to station B; or the path of the internal `GetFastestTravelRoute`, with others within the limit on the
  -- time that its time gives, none of them twice, and no more than the limit on their number.
  abbrev pub Offers : Std → (ℕ → ℕ) → ℕ → List TravelPath → Type 0
  Offers std slowed max paths =
      ((paths ≡ []) × ((x : PathStop) (d : ℕ) → Walk n b [] start 0 x d → x.node ≢ b))
      ⊎ ((fastest : TravelPath) × (others : List TravelPath) × (plan : Plan n b start fastest)
          × (paths ≡ fastest ∷ others)
          × (fastest_path std n (start, 0) b [] ≡ found fastest)
          × ((x : PathStop) (d : ℕ) → Walk n b [] start 0 x d → x.node ≡ b → plan.time ≤ d)
          × All (Within (slowed plan.time)) others
          × Different paths
          × ((others ≡ []) ⊎ (length paths ≤ max)))

module _ (n : TransportNetwork) (std : Std) (is : IsStd std) (is_queue : IsPathQueue std) where
  rounds_from :
      (slowed : ℕ → ℕ) (max : ℕ) (a b : Node) (path : TravelPath) (x : PathStop) (d : ℕ)
      (paths : List TravelPath)
      → fastest_path std n (at_station a, 0) b [] ≡ found path
      → back path ≡ some (x, d)
      → rounds std n b (slowed d) max max (path ∷ []) [] ≡ found paths
      → get_fastest_travel_routes std n slowed max a b ≡ found paths
  unfolding get_fastest_travel_routes
  rounds_from slowed max a b path x d paths e last e' = ground (arith, e, last, e')

  offered :
      (slowed : ℕ → ℕ) (max : ℕ) (a b : Node) (path : TravelPath)
      → ((t : ℕ)
          → t ≤ minutes (edges_in n.stations)
          → slowed t + 3 * minutes (edges_in n.stations) < uint_mod)
      → fastest_path std n (at_station a, 0) b [] ≡ found path
      → Fastest n b [] (at_station a) 0 path
      → (paths : List TravelPath) × (get_fastest_travel_routes std n slowed max a b ≡ found paths)
        × Offers n b (at_station a) std slowed max paths
  unfolding get_fastest_travel_routes back
  offered slowed max a b path fits e (inl (nothing, none_there)) =
      ([], rw (e ∙ ap found nothing, get_fastest_travel_routes) refl, inl (refl, none_there))
  offered slowed max a b path fits e (inr (q, x, d, whole, trip, last, at_b, short, least)) =
      let plan : Plan n b (at_station a) path = record {
        rest = q;
        whole = whole;
        trip = trip;
        arrival = x;
        time = d;
        last = last;
        at_b = at_b;
      } in
      let (others, e', h) =
        rounds-Selected n b (at_station a) std is is_queue (slowed d) (fits d (omega arith)) max
          path max [] [] (omega arith)
          (record {
            first = (plan, omega (arith, short));
            others = tt;
            different = (tt, tt);
            few = inl refl;
          })
          tt in
      (
        path ∷ others,
        rounds_from slowed max a b path x d (path ∷ others) e last e',
        inr (path, others, plan, refl, e, least, h.others, h.different, h.few),
      )

  -- For two different stations, with `slowed` a limit that keeps distances from wrapping around,
  -- `GetFastestTravelRoutes` returns no path where station B cannot be reached. Otherwise it returns
  -- first a trip from A to B that no walk beats, then only trips from A to B within the limit of its
  -- time, no path twice, and no more than `maxNPaths` if it is more than one.
  pub get_fastest_travel_routes-Offers :
      (slowed : ℕ → ℕ) (max : ℕ) (a b : Node)
      → a ≢ b
      → ((t : ℕ)
          → t ≤ minutes (edges_in n.stations)
          → slowed t + 3 * minutes (edges_in n.stations) < uint_mod)
      → (paths : List TravelPath) × (get_fastest_travel_routes std n slowed max a b ≡ found paths)
        × Offers n b (at_station a) std slowed max paths
  get_fastest_travel_routes-Offers slowed max a b ne fits =
      let (path, e, fastest) =
        fastest_path-Fastest n b [] (at_station a) 0 std is (omega (arith, fits 0 (omega arith)))
          ne in
      offered slowed max a b path fits e fastest
