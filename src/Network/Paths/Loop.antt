-- ===== src/Network/Paths/Loop.antt =====
-- What holds throughout a search in which no distance wraps around: src/TransportNetwork.cpp.
use live_transport_network_m.Base.{
  ℕ, ◌+◌, ◌≤◌, ◌≡◌, ◌≢◌, refl, sym, ap, ◌∙◌, subst, arith, Bool-cases, Option-cases, ◌⊎◌, inl, inr,
  some, List, [], ◌∷◌, bytes_eq, lookup, Distinct, Distinct-assign, ◌==◌, ◌∈◌, here, ∈-cases, ∈-nil,
}
use live_transport_network_m.Network.Stops.{PathStop, PathStopDist, stop_eq}
use live_transport_network_m.Network.Types.{Node, GraphEdge, TransportNetwork}
use live_transport_network_m.Network.Paths.{
  Std, Search, neighbor, changes, neighbor_dist, edges_of, edges_in, update, relax, explore, visit,
  search, start_search,
}
use live_transport_network_m.Network.Paths.Improves.{
  Within, Within-Improves, Relaxed, skipped, no_better, better, relax-Relaxed,
}
use live_transport_network_m.Network.Paths.Chains.{Chain, root, step}
use live_transport_network_m.Network.Paths.Closed.{
  IsStd, Pending, search_rule, visit-Pending, visit-Closed, visit-Improves,
}
use live_transport_network_m.Network.Paths.Sound.{Sound, Small, Started, explore-Sound, lead}
use live_transport_network_m.Network.Paths.Minutes.{seen}
use live_transport_network_m.Network.Paths.Walks.{cost, neighbor_dist-le}

visit-Distinct :
    (n : TransportNetwork) (b : Node) (excluded : List PathStop) (p : PathStopDist) (s : Search)
    → Distinct s.dist_from_a
    → Distinct (visit n b excluded p s).dist_from_a
unfolding visit explore update
visit-Distinct n b excluded (curr, d) s h = elim (Bool-cases (curr.node == b)) [
  | inl at_b ↦ rw at_b h
  | inr away ↦ rw away (explored (edges_of curr.node n) s h)
]
  where
    relaxed :
        {e : GraphEdge} {s t : Search}
        → Relaxed excluded curr d e s t
        → Distinct s.dist_from_a
        → Distinct t.dist_from_a
    relaxed (skipped out) h = h
    relaxed (no_better in_ w) h = h
    relaxed {e} {s} (better in_ b) h = Distinct-assign (neighbor e) _ s.dist_from_a h

    explored :
        (es : List GraphEdge) (s : Search)
        → Distinct s.dist_from_a
        → Distinct (explore excluded curr d es s).dist_from_a
    explored [] s h = h
    explored (e ∷ es) s h =
        explored es (relax excluded curr d e s) (relaxed (relax-Relaxed excluded curr d e s) h)

module _ (n : TransportNetwork) (b : Node) (excluded : List PathStop) (start : PathStop)
    (from : ℕ) where
  Chain-rest :
      {s : Search} (rest : List PathStopDist) {x : PathStop} {k : ℕ}
      → Chain start s x k
      → Chain start (record s { nodes_to_visit = rest }) x k
  Chain-rest rest root = root
  Chain-rest rest (step p fx fy le ch) = step p fx fy le (Chain-rest rest ch)

  -- A shorter queue changes nothing else.
  Sound-rest :
      (s : Search) (rest : List PathStopDist)
      → ((p : PathStopDist) → p ∈ rest → p ∈ s.nodes_to_visit)
      → Sound n b excluded start from s
      → Sound n b excluded start from (record s { nodes_to_visit = rest })
  Sound-rest s rest fewer h = record {
    low = h.low;
    high = h.high;
    waiting = λ x d i. h.waiting x d (fewer (x, d) i);
    linked = λ x d f. elim (h.linked x d f) [
      | inl at_start ↦ inl at_start
      | inr l ↦ inr (record {
        before = l.before;
        dist = l.dist;
        ride = l.ride;
        previous = l.previous;
        recorded = l.recorded;
        farther = l.farther;
        first = l.first;
      })
    ];
    root_dist = h.root_dist;
    root_previous = h.root_previous;
    chains = λ x d f. let (k, ch) = h.chains x d f in (k, Chain-rest rest ch);
  }

  only_start :
      (x : PathStop) (d : ℕ) → lookup x ((start, from) ∷ []) ≡ some d → (x ≡ start) × (d ≡ from)
  unfolding lookup
  only_start x d f = ground (arith, stop_eq.beq_iff start x)

  start_found : lookup start ((start, from) ∷ []) ≡ some from
  unfolding lookup
  start_found = ground (arith, stop_eq.beq_iff start start)

  lead_start : lead n b excluded start from start ≡ 0
  unfolding changes
  lead_start = elim (Option-cases start.edge) [
    | inl none_there ↦ rw none_there refl
    | inr (e, there_is) ↦ rw there_is (ground arith)
  ]

  at_start :
      (P : PathStop → ℕ → Type 0)
      → P start from
      → (x : PathStop) (d : ℕ) → lookup x ((start, from) ∷ []) ≡ some d
      → P x d
  at_start P h x d f =
      let (same, now) = only_start x d f in
      subst (P x) (sym now) (subst (λ y. P y from) (sym same) h)

  start-Sound : Sound n b excluded start from (start_search (start, from))
  unfolding lookup
  start-Sound = record {
    low = at_start (λ x d. from + lead n b excluded start from x ≤ d) (omega (arith, lead_start));
    high =
        at_start (λ x d. d ≤ from + seen (start_search (start, from)) (edges_in n.stations))
          (omega arith);
    waiting = λ x d i. elim (∈-cases i) [
      | inl now ↦
          subst
            (λ (p : PathStopDist).
              Within p.0 p.1 (start_search (start, from))
              × (p.1 ≤ from + seen (start_search (start, from)) (edges_in n.stations)))
            (sym now) ((from, start_found, omega arith), omega arith)
      | inr none_there ↦ absurd (∈-nil none_there)
    ];
    linked = λ x d f. inl (only_start x d f).0;
    root_dist = start_found;
    root_previous = refl;
    chains = at_start (λ x d. (k : ℕ) × Chain start (start_search (start, from)) x k) (0, root);
  }

  -- What holds before and after each round: `Started` once the first stop was visited.
  pub record Holds (s : Search) : Type 0 where
    pub sound : Sound n b excluded start from s
    pub pending : Pending n b excluded s
    pub distinct : Distinct s.dist_from_a
    pub started : Started n b excluded start from s ⊎ (s.nodes_to_visit ≡ (start, from) ∷ [])

  start-Holds : Holds (start_search (start, from))
  start-Holds = record {
    sound = start-Sound;
    pending = λ y d f.
        inl (at_start (λ y d. ◌∈◌ {A = PathStopDist} (y, d) ((start, from) ∷ [])) here y d f);
    distinct = (tt, tt);
    started = inr refl;
  }

  module _ (std : Std) (is : IsStd std) (small : Small n b excluded start from)
      (away : start.node ≢ b) where
    visit-Sound :
        (curr : PathStop) (d : ℕ) (s : Search)
        → Sound n b excluded start from s
        → Within curr d s
          × (d ≤ from + seen s (edges_in n.stations))
          × ((curr ≢ start) → Started n b excluded start from s)
        → Sound n b excluded start from (visit n b excluded (curr, d) s)
    unfolding visit
    visit-Sound curr d s h p = elim (Bool-cases (curr.node == b)) [
      | inl at_b ↦ rw at_b h
      | inr other ↦
          let ne : curr.node ≢ b = λ e. ground (arith, bytes_eq.beq_iff curr.node b) in
          rw other (
            explore-Sound n b excluded start from small curr d ne (edges_of curr.node n) s
              (λ e i. i) h p)
    ]

    -- The first stop that is taken is the start, so all its rides are recorded before any other's.
    first_started :
        (s : Search) (curr : PathStop) (d : ℕ) (rest : List PathStopDist)
        → std.pop s.nodes_to_visit ≡ some ((curr, d), rest)
        → Holds s
        → Started n b excluded start from s ⊎ ((curr ≡ start) × (d ≡ from))
    first_started s curr d rest popped h = elim h.started [
      | inl old ↦ inl old
      | inr only ↦
          let top = (is.pop_in s.nodes_to_visit rest (curr, d) (curr, d) popped).1 (inl refl) in
          elim (∈-cases (subst (λ q. (curr, d) ∈ q) only top)) [
            | inl same ↦
                inr (ap (λ (p : PathStopDist). p.0) same, ap (λ (p : PathStopDist). p.1) same)
            | inr none_there ↦ absurd (∈-nil none_there)
          ]
    ]

    visit-Started :
        (s : Search) (curr : PathStop) (d : ℕ)
        → Started n b excluded start from s ⊎ ((curr ≡ start) × (d ≡ from))
        → Started n b excluded start from (visit n b excluded (curr, d) s)
    visit-Started s curr d (inl old) e i in_ =
        Within-Improves (neighbor e) (from + cost start e) (visit-Improves n b excluded (curr, d) s)
          (old e i in_)
    visit-Started s curr d (inr (same, now)) e i in_ =
        let (v, f, le) =
          visit-Closed n b excluded curr d s
            (λ at_b. away (sym (ap (λ (x : PathStop). x.node) same) ∙ at_b)) e
            (subst (λ (x : PathStop). e ∈ edges_of x.node n) (sym same) i) in_ in
        (
          v,
          f,
          omega (
            arith,
            le,
            now,
            neighbor_dist-le n b excluded start from start from from e (omega arith),
            ap (λ x. neighbor_dist x d e) same,
            ap (λ z. neighbor_dist start z e) now,
          ),
        )

    visit-Holds :
        (s : Search) (p : PathStopDist) (rest : List PathStopDist)
        → std.pop s.nodes_to_visit ≡ some (p, rest)
        → Holds s
        → Holds (visit n b excluded p (record s { nodes_to_visit = rest }))
    visit-Holds s (curr, d) rest popped h =
        let s' : Search = record s { nodes_to_visit = rest } in
        let among = λ (r : PathStopDist). is.pop_in s.nodes_to_visit rest (curr, d) r popped in
        let (close, bound) = h.sound.waiting curr d ((among (curr, d)).1 (inl refl)) in
        let first = first_started s curr d rest popped h in
        record {
          sound =
              visit-Sound curr d s' (Sound-rest s rest (λ r i. (among r).1 (inr i)) h.sound) (
                close,
                bound,
                λ ne. elim first [ inl old ↦ old | inr (same, _) ↦ absurd (ne same) ],
              );
          pending = visit-Pending n b excluded std is s (curr, d) rest popped h.pending;
          distinct = visit-Distinct n b excluded (curr, d) s' h.distinct;
          started = inl (visit-Started s' curr d first);
        }

    pub search-Holds :
        (fuel : ℕ) (s : Search)
        → search std n b excluded fuel (start_search (start, from)) ≡ some s
        → Holds s × (s.nodes_to_visit ≡ [])
    search-Holds fuel s e =
        search_rule n b excluded std is Holds visit-Holds fuel (start_search (start, from)) s
          start-Holds e
