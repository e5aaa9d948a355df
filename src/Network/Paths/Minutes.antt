-- ===== src/Network/Paths/Minutes.antt =====
-- The minutes that the edges add up to: src/TransportNetwork.cpp.
use live_transport_network_m.Base.{
  ℕ, ◌+◌, ◌≤◌, ◌<◌, ◌≡◌, arith, Bool, true, false, Bool-cases, Option-cases, inl, inr, none, some,
  List, [], ◌∷◌, bytes_eq, nat_eq, lookup, if◌then◌else◌, ◌∈◌, here, there,
}
use live_transport_network_m.Network.Stops.{PathStop, stop_eq}
use live_transport_network_m.Network.Travel.{uint_mod}
use live_transport_network_m.Network.Types.{GraphEdge}
use live_transport_network_m.Network.Paths.{Search, neighbor, changes, neighbor_dist}
use live_transport_network_m.Network.Paths.Improves.{Improves}
use live_transport_network_m.Network.Paths.Walks.{cost}

-- The most that the edges can add up to, with five minutes for each.
abbrev pub minutes : List GraphEdge → ℕ
minutes [] = 0
minutes (e ∷ es) = e.travel_time + 5 + minutes es

-- The same, of the edges whose stops have a distance.
abbrev pub seen : Search → List GraphEdge → ℕ
seen s [] = 0
seen s (e ∷ es) =
    (elim (lookup (neighbor e) s.dist_from_a) [ none ↦ 0 | some _ ↦ e.travel_time + 5 ]) + seen s es

pub seen-le : (s : Search) (es : List GraphEdge) → seen s es ≤ minutes es
seen-le s [] = omega arith
seen-le s (e ∷ es) = elim (Option-cases (lookup (neighbor e) s.dist_from_a)) [
  | inl new ↦ rw new (omega (arith, seen-le s es))
  | inr (d, old) ↦ rw old (omega (arith, seen-le s es))
]

pub seen-Improves : (s t : Search) (es : List GraphEdge) → Improves s t → seen s es ≤ seen t es
seen-Improves s t [] g = omega arith
seen-Improves s t (e ∷ es) g = elim (Option-cases (lookup (neighbor e) s.dist_from_a)) [
  | inl new ↦ rw new (omega (arith, seen-Improves s t es g))
  | inr (d, old) ↦
      let (d', f, le) = g.falls (neighbor e) d old in
      rw old (rw f (omega (arith, seen-Improves s t es g)))
]

-- A stop that has its first distance counts from now on.
pub seen_grows :
    (s t : Search) (es : List GraphEdge) (e : GraphEdge) (d : ℕ)
    → Improves s t
    → e ∈ es
    → lookup (neighbor e) s.dist_from_a ≡ none
    → lookup (neighbor e) t.dist_from_a ≡ some d
    → seen s es + e.travel_time + 5 ≤ seen t es
seen_grows s t [] e d g i new now = elim i [ ]
seen_grows s t (e ∷ es) _ d g here new now = rw new (rw now (omega (arith, seen-Improves s t es g)))
seen_grows s t (f ∷ es) e d g (there i) new now =
    elim (Option-cases (lookup (neighbor f) s.dist_from_a)) [
      | inl f_new ↦ rw f_new (omega (arith, seen_grows s t es e d g i new now))
      | inr (df, f_old) ↦
          let (d', f', le) = g.falls (neighbor f) df f_old in
          rw f_old (rw f' (omega (arith, seen_grows s t es e d g i new now)))
    ]

pub minutes_in : (es : List GraphEdge) (e : GraphEdge) → e ∈ es → e.travel_time + 5 ≤ minutes es
minutes_in [] e i = elim i [ ]
minutes_in (e ∷ es) _ here = omega arith
minutes_in (f ∷ es) e (there i) = omega (arith, minutes_in es e i)

pub neighbor_dist_exact :
    (x : PathStop) (d : ℕ) (e : GraphEdge)
    → d + e.travel_time + 5 < uint_mod
    → neighbor_dist x d e ≡ d + cost x e
unfolding neighbor_dist
neighbor_dist_exact x d e small = elim (Bool-cases (changes x e)) [
  | inl change ↦ rw change (omega arith)
  | inr stay_on ↦ rw stay_on (omega arith)
]

pub at_most_five : (c : Bool) → (if c then 5 else 0) ≤ 5
at_most_five true = omega arith
at_most_five false = omega arith

-- A change of routes between two rides is one at the first or at the second of them.
pub change_once :
    (start : PathStop) (f e : GraphEdge)
    → (if changes start e then 5 else 0)
      ≤ (if changes start f then 5 else 0) + (if changes (neighbor f) e then 5 else 0)
unfolding changes
change_once start f e = elim (Option-cases start.edge) [
  | inl none_there ↦ rw none_there (omega arith)
  | inr (g, there_is) ↦ rw there_is (ground arith)
]
