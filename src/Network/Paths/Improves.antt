-- ===== src/Network/Paths/Improves.antt =====
-- What one visit of a stop does to the records of the search: src/TransportNetwork.cpp.
use live_transport_network_m.Base.{
  ℕ, ◌≤◌, ◌<◌, ◌≡◌, ◌≢◌, refl, sym, ◌∙◌, subst, arith, true, false, Bool-cases, Option-cases, ◌⊎◌,
  inl, inr, some, List, [], ◌∷◌, beq_refl, lookup, lookup-assign, ltb, ◌==◌, if◌then◌else◌, ◌∈◌,
  here, there, here_of,
}
use live_transport_network_m.Network.Stops.{PathStop, PathStopDist, stop_eq}
use live_transport_network_m.Network.Types.{GraphEdge}
use live_transport_network_m.Network.Paths.{
  Search, neighbor, contains, neighbor_dist, update, relax, explore,
}

-- The recorded distance is at most `d`.
abbrev pub Within : PathStop → ℕ → Search → Type 0
Within x d s = (v : ℕ) × (lookup x s.dist_from_a ≡ some v) × (v ≤ d)

-- Distances only fall, and each that falls is in the queue.
pub record Improves (s t : Search) : Type 0 where
  pub falls : (x : PathStop) (d : ℕ) → lookup x s.dist_from_a ≡ some d → Within x d t
  pub queued :
      (x : PathStop) (d : ℕ)
      → lookup x t.dist_from_a ≡ some d
      → (lookup x s.dist_from_a ≡ some d) ⊎ ((x, d) ∈ t.nodes_to_visit)
  pub waits : (p : PathStopDist) → p ∈ s.nodes_to_visit → p ∈ t.nodes_to_visit

pub Improves-refl : (s : Search) → Improves s s
Improves-refl s = record {
  falls = λ x d e. (d, e, omega arith);
  queued = λ x d e. inl e;
  waits = λ p i. i;
}

pub Within-Improves :
    {s t : Search} (x : PathStop) (d : ℕ) → Improves s t → Within x d s → Within x d t
Within-Improves x d g (v, e, le) = let (w, e', le') = g.falls x v e in (w, e', omega arith)

pub Improves-trans : {s t u : Search} → Improves s t → Improves t u → Improves s u
Improves-trans g h = record {
  falls = λ x d e. Within-Improves x d h (g.falls x d e);
  queued = λ x d e. elim (h.queued x d e) [
    | inr new ↦ inr new
    | inl old ↦ elim (g.queued x d old) [
      | inl older ↦ inl older
      | inr new ↦ inr (h.waits (x, d) new)
    ]
  ];
  waits = λ p i. h.waits p (g.waits p i);
}

-- The new distance is below the recorded one, if any.
abbrev pub Beats : ℕ → PathStop → Search → Type 0
Beats v x s = (old : ℕ) → lookup x s.dist_from_a ≡ some old → v < old

pub dist_update :
    (x curr : PathStop) (v : ℕ) (s : Search) (y : PathStop)
    → lookup y (update x curr v s).dist_from_a ≡ (if x == y then some v else lookup y s.dist_from_a)
unfolding update
dist_update x curr v s y = lookup-assign x y v s.dist_from_a

pub previous_update :
    (x curr : PathStop) (v : ℕ) (s : Search) (y : PathStop)
    → lookup y (update x curr v s).previous_stop
      ≡ (if x == y then some curr else lookup y s.previous_stop)
unfolding update
previous_update x curr v s y = lookup-assign x y curr s.previous_stop

-- What a found entry says after an update.
pub dist_updated :
    (x curr : PathStop) (v : ℕ) (s : Search) (y : PathStop) (d : ℕ)
    → lookup y (update x curr v s).dist_from_a ≡ some d
    → ((x ≡ y) × (v ≡ d)) ⊎ ((x ≢ y) × (lookup y s.dist_from_a ≡ some d))
dist_updated x curr v s y d e = elim (Bool-cases (x == y)) [
  | inl same ↦ inl ((stop_eq.beq_iff x y).0 same, ground (arith, dist_update x curr v s y))
  | inr other ↦
      inr (λ p. ground (arith, stop_eq.beq_iff x y), ground (arith, dist_update x curr v s y))
]

pub dist_at_update :
    (x curr : PathStop) (v : ℕ) (s : Search) → lookup x (update x curr v s).dist_from_a ≡ some v
dist_at_update x curr v s = dist_update x curr v s x ∙ rw (beq_refl x) refl

pub dist_beside_update :
    (x curr : PathStop) (v : ℕ) (s : Search) (y : PathStop)
    → x ≢ y
    → lookup y (update x curr v s).dist_from_a ≡ lookup y s.dist_from_a
dist_beside_update x curr v s y ne = ground (arith, dist_update x curr v s y, stop_eq.beq_iff x y)

update-Improves :
    (x curr : PathStop) (v : ℕ) (s : Search) → Beats v x s → Improves s (update x curr v s)
unfolding update
update-Improves x curr v s beats = record {
  falls = λ y d e. elim (Bool-cases (x == y)) [
    | inl same ↦
        let eq = (stop_eq.beq_iff x y).0 same in
        (
          v,
          subst (λ z. lookup z (update x curr v s).dist_from_a ≡ some v) eq
              (dist_at_update x curr v s),
          ground (arith, beats d (subst (λ z. lookup z s.dist_from_a ≡ some d) (sym eq) e)),
        )
    | inr other ↦ (d, dist_update x curr v s y ∙ rw other e, omega arith)
  ];
  queued = λ y d e. elim (dist_updated x curr v s y d e) [
    | inr (_, old) ↦ inl old
    | inl (same, now) ↦ inr (here_of s.nodes_to_visit (ground arith))
  ];
  waits = λ p i. there i;
}

module _ (excluded : List PathStop) (curr : PathStop) (d : ℕ) where
  -- What the loop's body makes of an edge.
  pub data Relaxed (e : GraphEdge) (s : Search) : Search → Type 0 where
    skipped : contains (neighbor e) excluded ≡ true → Relaxed e s s
    no_better :
        contains (neighbor e) excluded ≡ false
        → Within (neighbor e) (neighbor_dist curr d e) s
        → Relaxed e s s
    better :
        contains (neighbor e) excluded ≡ false
        → Beats (neighbor_dist curr d e) (neighbor e) s
        → Relaxed e s (update (neighbor e) curr (neighbor_dist curr d e) s)

  pub relax-Relaxed : (e : GraphEdge) (s : Search) → Relaxed e s (relax excluded curr d e s)
  unfolding relax
  relax-Relaxed e s = elim (Bool-cases (contains (neighbor e) excluded)) [
    | inl out ↦ rw (out, relax) (skipped out)
    | inr in_ ↦ elim (Option-cases (lookup (neighbor e) s.dist_from_a)) [
      | inl new ↦ rw (in_, relax) (rw new (better in_ (λ old f. ground arith)))
      | inr (old, seen) ↦ elim (Bool-cases (ltb (neighbor_dist curr d e) old)) [
        | inl less ↦ rw (in_, relax) (rw seen (rw less (better in_ (λ o f. ground arith))))
        | inr more ↦ rw (in_, relax) (rw seen (rw more (no_better in_ (old, seen, ground arith))))
      ]
    ]
  ]

  pub Relaxed-Improves : {e : GraphEdge} {s t : Search} → Relaxed e s t → Improves s t
  Relaxed-Improves {s = s} (skipped out) = Improves-refl s
  Relaxed-Improves {s = s} (no_better in_ w) = Improves-refl s
  Relaxed-Improves {e} {s} (better in_ b) =
      update-Improves (neighbor e) curr (neighbor_dist curr d e) s b

  Relaxed-Within :
      {e : GraphEdge} {s t : Search}
      → Relaxed e s t
      → contains (neighbor e) excluded ≡ false
      → Within (neighbor e) (neighbor_dist curr d e) t
  Relaxed-Within (skipped out) in_ = ground arith
  Relaxed-Within (no_better _ w) in_ = w
  Relaxed-Within {e} {s} (better _ b) in_ = (
    neighbor_dist curr d e,
    dist_at_update (neighbor e) curr (neighbor_dist curr d e) s,
    omega arith,
  )

  pub explore-Improves :
      (es : List GraphEdge) (s : Search) → Improves s (explore excluded curr d es s)
  unfolding explore
  explore-Improves [] s = Improves-refl s
  explore-Improves (e ∷ es) s =
      Improves-trans (Relaxed-Improves (relax-Relaxed e s))
        (explore-Improves es (relax excluded curr d e s))

  -- After the loop, each neighbor is within its distance over the stop.
  pub explore-Within :
      (es : List GraphEdge) (s : Search) (e : GraphEdge)
      → e ∈ es
      → contains (neighbor e) excluded ≡ false
      → Within (neighbor e) (neighbor_dist curr d e) (explore excluded curr d es s)
  unfolding explore
  explore-Within [] s e i in_ = elim i [ ]
  explore-Within (e ∷ es) s _ here in_ =
      Within-Improves (neighbor e) (neighbor_dist curr d e)
        (explore-Improves es (relax excluded curr d e s)) (Relaxed-Within (relax-Relaxed e s) in_)
  explore-Within (f ∷ es) s e (there i) in_ = explore-Within es (relax excluded curr d f s) e i in_
