-- ===== src/Network/Paths/Fastest.antt =====
-- The path that the internal `GetFastestTravelRoute` returns is the fastest:
-- src/TransportNetwork.cpp.
use live_transport_network_m.Base.{
  ℕ, zero, suc, ◌+◌, ◌≤◌, ◌<◌, ◌≡◌, ◌≢◌, ◌↔◌, refl, sym, ap, ◌∙◌, subst, arith, false, Bool-cases,
  Option-cases, ◌⊎◌, inl, inr, none, some, List, [], ◌∷◌, bytes_eq, lookup, length, ◌==◌, ◌∈◌, here,
  there, ∈-cases, ∈-nil,
}
use live_transport_network_m.Network.Stops.{PathStop, PathStopDist, TravelPath, stop_eq}
use live_transport_network_m.Network.Types.{Node, TransportNetwork}
use live_transport_network_m.Network.Paths.{
  edges_in, Std, Search, found, search_fuel, stops_at, back, assemble, fastest_path,
}
use live_transport_network_m.Network.Paths.Chains.{Chain, root, step, Chain-bound}
use live_transport_network_m.Network.Paths.Closed.{IsStd, Closed, Falling}
use live_transport_network_m.Network.Paths.Ends.{search_from_start_ends}
use live_transport_network_m.Network.Paths.Loop.{Holds, search-Holds}
use live_transport_network_m.Network.Paths.Sound.{Ride, Linked, Small}
use live_transport_network_m.Network.Paths.Minutes.{minutes, seen-le}
use live_transport_network_m.Network.Paths.Walks.{cost, Walk, neighbor_dist-le, search-Within}

stops_at_in :
    (b : Node) (l : List PathStopDist) (p : PathStopDist)
    → (p ∈ stops_at b l) ↔ ((p ∈ l) × (p.0.node ≡ b))
unfolding stops_at
stops_at_in b [] p = (λ i. absurd (∈-nil i), λ (i, _). absurd (∈-nil i))
stops_at_in b ((x, d) ∷ l) p = elim (Bool-cases (x.node == b)) [
  | inl at_b ↦ rw at_b (
    λ i. elim (∈-cases i) [
      | inl same ↦ (
        subst (λ q. q ∈ ((x, d) ∷ l)) (sym same) here,
        ap (λ (q : PathStopDist). q.0.node) same ∙ (bytes_eq.beq_iff x.node b).0 at_b,
      )
      | inr rest ↦ let (j, e) = (stops_at_in b l p).0 rest in (there j, e)
    ],
    λ (i, e). elim (∈-cases i) [
      | inl same ↦ subst (λ q. q ∈ ((x, d) ∷ stops_at b l)) (sym same) here
      | inr rest ↦ there ((stops_at_in b l p).1 (rest, e))
    ],
  )
  | inr away ↦ rw away (
    λ i. let (j, e) = (stops_at_in b l p).0 i in (there j, e),
    λ (i, e). elim (∈-cases i) [
      | inl same ↦
          let at_b =
            (bytes_eq.beq_iff x.node b).1 (sym (ap (λ (q : PathStopDist). q.0.node) same) ∙ e) in
          absurd (ground arith)
      | inr rest ↦ (stops_at_in b l p).1 (rest, e)
    ],
  )
]

back-none : {A : Type 0} (l : List A) → back l ≡ none → l ≡ []
unfolding back
back-none [] e = refl
back-none (p ∷ []) e = cc
back-none (p ∷ q ∷ l) e = absurd (ground (arith, back-none (q ∷ l) e))

pub back_in : {A : Type 0} (l : List A) (p : A) → back l ≡ some p → p ∈ l
unfolding back
back_in [] p e = cc
back_in (q ∷ []) p e = subst (λ r. r ∈ (q ∷ [])) (ground arith) here
back_in (q ∷ r ∷ l) p e = there (back_in (r ∷ l) p e)

back_least :
    (l : List PathStopDist) (p q : PathStopDist) → Falling l → back l ≡ some p → q ∈ l → p.1 ≤ q.1
unfolding back
back_least [] p q falls e i = absurd (∈-nil i)
back_least (r ∷ []) p q falls e i = elim (∈-cases i) [
  | inl same ↦
      let top : r ≡ p = ground arith in
      omega (arith, ap (λ (s : PathStopDist). s.1) same, ap (λ (s : PathStopDist). s.1) top)
  | inr rest ↦ absurd (∈-nil rest)
]
back_least (r ∷ t ∷ l) p q (le, falls) e i = elim (∈-cases i) [
  | inl same ↦
      omega (arith, ap (λ (s : PathStopDist). s.1) same, back_least (t ∷ l) p t falls e here)
  | inr rest ↦ back_least (t ∷ l) p q falls e rest
]

module _ (n : TransportNetwork) (b : Node) (excluded : List PathStop) (start : PathStop)
    (from : ℕ) where
  -- Each entry comes from the one before by a ride, whose minutes are added.
  abbrev pub IsTrip : TravelPath → Type 0
  IsTrip [] = Unit
  IsTrip (p ∷ []) = Unit
  IsTrip ((x, d) ∷ (y, e) ∷ path) =
      (r : Ride n b excluded start from x y) × (e ≡ d + cost x r.edge) × IsTrip ((y, e) ∷ path)

  -- A trip from the start to station B, no walk being shorter, or no path where no walk gets there.
  abbrev pub Fastest : TravelPath → Type 0
  Fastest path =
      ((path ≡ []) × ((x : PathStop) (d : ℕ) → Walk n b excluded start from x d → x.node ≢ b))
      ⊎ ((q : TravelPath) × (x : PathStop) × (d : ℕ) × (path ≡ (start, from) ∷ q)
          × IsTrip path
          × (back path ≡ some (x, d))
          × (x.node ≡ b)
          × (d ≤ from + minutes (edges_in n.stations))
          × ((y : PathStop) (l : ℕ) → Walk n b excluded start from y l → y.node ≡ b → d ≤ l))

  module _ (s : Search) (h : Holds n b excluded start from s) (empty : s.nodes_to_visit ≡ []) where
    all-Closed :
        (y : PathStop) (d : ℕ) → lookup y s.dist_from_a ≡ some d → Closed n b excluded y d s
    all-Closed y d f = elim (h.pending y d f) [
      | inl queued ↦ absurd (∈-nil (subst (λ q. (y, d) ∈ q) empty queued))
      | inr closed ↦ closed
    ]

    -- The recorded distance is that of the stop before and of the ride from there, exactly.
    link_exact :
        (x : PathStop) (d : ℕ) (l : Linked n b excluded start from s x d)
        → lookup x s.dist_from_a ≡ some d
        → d ≡ l.dist + cost l.before l.ride.edge
    link_exact x d l f =
        let (v, g, le) =
          all-Closed l.before l.dist l.recorded l.ride.away l.ride.edge l.ride.leaves
            l.ride.allowed in
        let same : v ≡ d = ground (arith, ap (λ y. lookup y s.dist_from_a) l.ride.goes_to) in
        omega (
          arith,
          same,
          l.farther,
          neighbor_dist-le n b excluded start from l.before l.dist l.dist l.ride.edge (omega arith),
        )

    -- The last step of a path to the stop, by its record.
    abbrev LastStep : PathStop → ℕ → PathStop → ℕ → Type 0
    LastStep y dy x d =
        (r : Ride n b excluded start from y x) × (d ≡ dy + cost y r.edge)
        × (y.node ≡ start.node → y ≡ start)

    last_step :
        (x y : PathStop) (d dy : ℕ)
        → Linked n b excluded start from s x d
        → lookup x s.dist_from_a ≡ some d
        → lookup x s.previous_stop ≡ some y
        → lookup y s.dist_from_a ≡ some dy
        → LastStep y dy x d
    last_step x y d dy l f p fy =
        let same : l.before ≡ y = ground (arith, l.previous) in
        let now : l.dist ≡ dy = ground (arith, l.recorded, ap (λ z. lookup z s.dist_from_a) same) in
        subst (λ z. LastStep z dy x d) same
          (l.ride, omega (arith, now, link_exact x d l f), l.first)

    -- The whole path, from the start to the last entry of the path so far.
    abbrev Assembled : ℕ → PathStop → TravelPath → Type 0
    Assembled fuel x path =
        (q : TravelPath) × (assemble fuel s start.node x path ≡ found ((start, from) ∷ q))
        × IsTrip ((start, from) ∷ q)
        × (back ((start, from) ∷ q) ≡ back path)

    assemble-IsTrip :
        {x : PathStop} {k : ℕ} (fuel d : ℕ) (path : TravelPath)
        → Chain start s x k
        → k < fuel
        → lookup x s.dist_from_a ≡ some d
        → (x.node ≡ start.node → x ≡ start)
        → IsTrip ((x, d) ∷ path)
        → Assembled fuel x ((x, d) ∷ path)
    unfolding assemble back
    assemble-IsTrip zero d path ch enough f first trip = absurd (omega arith)
    assemble-IsTrip (suc fuel) d path root enough f first trip =
        let now : from ≡ d = ground (arith, h.sound.root_dist) in
        subst (λ v. Assembled (suc fuel) start ((start, v) ∷ path)) now
          (
            path,
            rw ((bytes_eq.beq_iff start.node start.node).1 refl) refl,
            subst (λ v. IsTrip ((start, v) ∷ path)) (sym now) trip,
            refl,
          )
    assemble-IsTrip {x} (suc fuel) d path (step {y} {dx} {dy} p fx fy le ch) enough f first trip =
        let x-ne-start : x ≢ start = λ e.
          let q = subst (λ z. lookup z s.previous_stop ≡ some y) e p in
          ground (arith, h.sound.root_previous) in
        let on : (x.node == start.node) ≡ false = elim (Bool-cases (x.node == start.node)) [
          | inl same ↦ absurd (x-ne-start (first ((bytes_eq.beq_iff x.node start.node).0 same)))
          | inr other ↦ other
        ] in
        elim (h.sound.linked x d f) [
          | inl same ↦ absurd (x-ne-start same)
          | inr l ↦
              let (r, exact, first_y) = last_step x y d dy l f p fy in
              let (q, e, whole, end) =
                assemble-IsTrip fuel dy ((x, d) ∷ path) ch (omega arith) fy first_y
                  (r, exact, trip) in
              (q, rw on (rw p (rw fy e)), whole, end)
        ]

    reached :
        (std : Std) (is : IsStd std)
        → (p : PathStopDist)
        → (p ∈ std.sort (stops_at b (std.iterate s.dist_from_a)))
          ↔ ((lookup p.0 s.dist_from_a ≡ some p.1) × (p.0.node ≡ b))
    reached std is p = (
      λ i.
          let (j, at_b) =
            (stops_at_in b (std.iterate s.dist_from_a) p).0
              ((is.sort_in (stops_at b (std.iterate s.dist_from_a)) p).0 i) in
          ((is.iterate_in s.dist_from_a p h.distinct).0 j, at_b),
      λ (f, at_b). (is.sort_in (stops_at b (std.iterate s.dist_from_a)) p).1 (
          (stops_at_in b (std.iterate s.dist_from_a) p).1
            ((is.iterate_in s.dist_from_a p h.distinct).1 f, at_b)),
    )

  module _ (std : Std) (is : IsStd std) (small : Small n b excluded start from)
      (away : start.node ≢ b) where
    -- From a stop that is not at station B, in a network in which no distance wraps around, the internal
    -- `GetFastestTravelRoute` returns, without an exception. It returns no path where no walk around
    -- the excluded stops leads to station B. Otherwise it returns a path from the given stop and
    -- distance to station B, each entry of which is a ride from the one before with its minutes, five more
    -- for a change of routes, added; and no such walk takes less.
    pub fastest_path-Fastest :
        (path : TravelPath) × (fastest_path std n (start, from) b excluded ≡ found path)
        × Fastest path
    unfolding fastest_path back
    fastest_path-Fastest =
        let off : (start.node == b) ≡ false = elim (Bool-cases (start.node == b)) [
          | inl same ↦ absurd (away ((bytes_eq.beq_iff start.node b).0 same))
          | inr other ↦ other
        ] in
        let (s, e) = search_from_start_ends n std is b excluded (start, from) (omega arith) in
        let (h, empty) =
          search-Holds n b excluded start from std is small away (search_fuel n) s e in
        let at_b = reached s h empty std is in
        let l = std.sort (stops_at b (std.iterate s.dist_from_a)) in
        elim (Option-cases (back l)) [
          | inl nothing ↦ (
            [],
            rw off (rw e (rw nothing refl)),
            inl (
              refl,
              λ x d w at.
                  let (v, f, le) =
                    search-Within n b excluded start from std is (search_fuel n) s e w in
                  absurd (
                    ∈-nil
                      (subst (λ q. (x, v) ∈ q) (back-none l nothing) ((at_b (x, v)).1 (f, at)))),
            ),
          )
          | inr ((x, d), last) ↦
              let (f, at) = (at_b (x, d)).0 (back_in l (x, d) last) in
              let (k, ch) = h.sound.chains x d f in
              let (q, whole, trip, end) =
                assemble-IsTrip s h empty (suc (length s.previous_stop)) d [] ch
                  (omega (arith, Chain-bound start s x k h.sound.root_previous ch)) f
                  (λ same. absurd (away (sym same ∙ at))) tt in
              (
                (start, from) ∷ q,
                rw off (rw e (rw last whole)),
                inr (
                  q,
                  x,
                  d,
                  refl,
                  trip,
                  end,
                  at,
                  omega (arith, h.sound.high x d f, seen-le s (edges_in n.stations)),
                  λ y m w there_.
                      let (v, g, le) =
                        search-Within n b excluded start from std is (search_fuel n) s e w in
                      omega (
                        arith,
                        back_least l (x, d) (y, v)
                            (is.sort_falls (stops_at b (std.iterate s.dist_from_a))) last
                            ((at_b (y, v)).1 (g, there_)),
                      ),
                ),
              )
        ]
