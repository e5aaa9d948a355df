-- ===== src/Network/Travel/Rides.antt =====
-- The travel time along a route: src/TransportNetwork.cpp.
use live_transport_network_m.Base.{
  ℕ, ◌+◌, ◌%◌, ◌<◌, ◌≡◌, refl, ◌∙◌, ap, arith, Bool, true, false, Option-cases, inl, inr, Option,
  none, some, List, [], ◌∷◌, ◌++◌, bytes_eq, nat_eq, All, ◌==◌, ◌||◌,
}
use live_transport_network_m.Network.Types.{
  Ident, Node, RouteInternal, TransportNetwork, get_station, get_route,
}
use live_transport_network_m.Network.Travel.{
  uint_mod, find_edge_for_route, walk_route, get_route_travel_time,
}
use live_transport_network_m.Network.Travel.Links.{known}

-- The time of the route's edge from the stop.
abbrev pub ride_time : RouteInternal → TransportNetwork → Node → Option ℕ
ride_time r n stop = elim (get_station stop n) [
  | none ↦ none
  | some node ↦ elim (find_edge_for_route r.address node.edges) [
    | none ↦ none
    | some e ↦ some e.travel_time
  ]
]

abbrev pub NotIn : Node → List Node → Type 0
NotIn x stops = All (λ s. (s == x) ≡ false) stops

abbrev pub total : (Node → ℕ) → List Node → ℕ
total t [] = 0
total t (s ∷ stops) = t s + total t stops

or_true : (x : Bool) → (x || true) ≡ true
or_true false = refl
or_true true = refl

module _ (r : RouteInternal) (n : TransportNetwork) (a b : Node) where
  walk-before :
      (before rest : List Node) (time : ℕ)
      → NotIn a before
      → NotIn b before
      → walk_route r a b n false time (before ++ rest) ≡ walk_route r a b n false time rest
  unfolding walk_route
  walk-before [] rest time na nb = refl
  walk-before (s ∷ before) rest time (na, nas) (nb, nbs) =
      rw (na, nb) (walk-before before rest time nas nbs)

  -- One stop, from where A is found.
  walk_step :
      (flag : Bool) (s : Node) (t time : ℕ) (rest : List Node)
      → (s == a || flag) ≡ true
      → (s == b) ≡ false
      → ride_time r n s ≡ some t
      → walk_route r a b n flag time (s ∷ rest)
        ≡ walk_route r a b n true ((time + t) % uint_mod) rest
  unfolding walk_route
  walk_step flag s t time rest on nb h = elim (Option-cases (get_station s n)) [
    | inl absent ↦ ground arith
    | inr (node, found) ↦ elim (Option-cases (find_edge_for_route r.address node.edges)) [
      | inl no_edge ↦ ground arith
      | inr (e, edge) ↦
          let same : e.travel_time ≡ t = ground arith in
          rw nb (
            rw found (
              rw edge
                (rw on (ap (λ x. walk_route r a b n true ((time + x) % uint_mod) rest) same))))
    ]
  ]

  walk_on :
      (t : Node → ℕ) (stops after : List Node) (time : ℕ)
      → time < uint_mod
      → NotIn b stops
      → All (λ s. ride_time r n s ≡ some (t s)) stops
      → walk_route r a b n true time (stops ++ b ∷ after) ≡ (time + total t stops) % uint_mod
  unfolding walk_route
  walk_on t [] after time bound nb h = ground (arith, bytes_eq.beq_iff b b)
  walk_on t (s ∷ stops) after time bound (nb, nbs) (h, hs) =
      walk_step true s (t s) time (stops ++ b ∷ after) (or_true (s == a)) nb h
      ∙ walk_on t stops after ((time + t s) % uint_mod) (omega arith) nbs hs
      ∙ omega arith

  walk_from :
      (t : Node → ℕ) (before between after : List Node)
      → NotIn a before
      → NotIn b before
      → NotIn b (a ∷ between)
      → All (λ s. ride_time r n s ≡ some (t s)) (a ∷ between)
      → walk_route r a b n false 0 (before ++ a ∷ (between ++ b ∷ after))
        ≡ total t (a ∷ between) % uint_mod
  walk_from t before between after na nb (n₀, ns) (h, hs) =
      walk-before before (a ∷ (between ++ b ∷ after)) 0 na nb
      ∙ walk_step false a (t a) 0 (between ++ b ∷ after) (ground (arith, bytes_eq.beq_iff a a)) n₀ h
      ∙ walk_on t between after ((0 + t a) % uint_mod) (omega arith) ns hs
      ∙ omega arith

  -- `GetTravelTime` along a route is the sum of the times of its edges, modulo 2 ^ 32, from the
  -- first stop at `a` to the first at `b`, which comes after it. Both are stations, and each stop
  -- from `a` on and before `b` has an edge for the route.
  pub route_time_is_total :
      (line route : Ident) (t : Node → ℕ) (before between after : List Node)
      → get_route line route n ≡ some r
      → known a n ≡ true
      → known b n ≡ true
      → r.stops ≡ before ++ a ∷ (between ++ b ∷ after)
      → NotIn a before
      → NotIn b before
      → NotIn b (a ∷ between)
      → All (λ s. ride_time r n s ≡ some (t s)) (a ∷ between)
      → get_route_travel_time line route a b n ≡ total t (a ∷ between) % uint_mod
  unfolding get_route_travel_time walk_route
  route_time_is_total line route t before between after found ka kb stops na nb nbs h =
      let walked = walk_from t before between after na nb nbs h in
      elim (Option-cases (get_station a n)) [
        | inl absent ↦ ground arith
        | inr (node_a, at_a) ↦ elim (Option-cases (get_station b n)) [
          | inl absent ↦ ground arith
          | inr (node_b, at_b) ↦
              rw (found, get_route_travel_time) (rw at_a (rw at_b (rw stops walked)))
        ]
      ]
