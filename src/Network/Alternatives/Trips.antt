-- ===== src/Network/Alternatives/Trips.antt =====
-- The entries of a trip, and the trips that leave it at one of its stops: src/TransportNetwork.cpp.
use live_transport_network_m.Base.{
  ℕ, zero, suc, ◌+◌, ◌≤◌, ◌<◌, ◌≡◌, ◌≢◌, refl, ap, subst, arith, some, List, [], ◌∷◌, ◌++◌, length,
  get_elem?, take,
}
use live_transport_network_m.Network.Stops.{PathStop, PathStopDist, TravelPath}
use live_transport_network_m.Network.Types.{Node, TransportNetwork}
use live_transport_network_m.Network.Paths.{contains, back}
use live_transport_network_m.Network.Paths.Fastest.{IsTrip}
use live_transport_network_m.Network.Paths.Sound.{Ride}
use live_transport_network_m.Network.Paths.Walks.{cost}

module _ (n : TransportNetwork) (b : Node) (start : PathStop) (from : ℕ) where
  -- A trip without excluded stops is one where none is excluded.
  pub IsTrip-weaken :
      (excluded : List PathStop) (other : PathStop) (d : ℕ) (path : TravelPath)
      → IsTrip n b excluded other d path
      → IsTrip n b [] start from path
  unfolding contains
  IsTrip-weaken excluded other d [] trip = tt
  IsTrip-weaken excluded other d (p ∷ []) trip = tt
  IsTrip-weaken excluded other d (p ∷ q ∷ path) (r, exact, trip) = (
    record { edge = r.edge; leaves = r.leaves; allowed = refl; away = r.away; goes_to = r.goes_to },
    exact,
    IsTrip-weaken excluded other d (q ∷ path) trip,
  )

  -- The trip up to an entry, and from there on another.
  pub take-IsTrip :
      (path : TravelPath) (idx : ℕ) (p : PathStopDist) (q : TravelPath)
      → IsTrip n b [] start from path
      → get_elem? path idx ≡ some p
      → IsTrip n b [] start from (p ∷ q)
      → IsTrip n b [] start from (take idx path ++ (p ∷ q))
  take-IsTrip [] idx p q trip at other = cc
  take-IsTrip (r ∷ path) zero p q trip at other = other
  take-IsTrip (r ∷ []) (suc idx) p q trip at other = cc
  take-IsTrip (r ∷ s ∷ path) (suc zero) p q (ride, exact, trip) at other =
      let same : s ≡ p = ground arith in
      let (ride', exact') =
        subst
          (λ (t : PathStopDist).
            (v : Ride n b [] start from r.0 t.0) × (t.1 ≡ r.1 + cost r.0 v.edge))
          same (ride, exact) in
      (ride', exact', other)
  take-IsTrip (r ∷ s ∷ path) (suc (suc idx)) p q (ride, exact, trip) at other =
      (ride, exact, take-IsTrip (s ∷ path) (suc idx) p q trip at other)

  -- It starts where the trip starts.
  pub take_first :
      (p : PathStopDist) (path : TravelPath) (idx : ℕ) (q : PathStopDist) (rest : TravelPath)
      → get_elem? (p ∷ path) idx ≡ some q
      → (whole : TravelPath) × (take idx (p ∷ path) ++ (q ∷ rest) ≡ p ∷ whole)
  take_first p path zero q rest at = (rest, ground arith)
  take_first p path (suc idx) q rest at = (take idx path ++ (q ∷ rest), refl)

  -- It ends where the other ends.
  pub back-append :
      (xs : TravelPath) (q : PathStopDist) (ys : TravelPath) → back (xs ++ (q ∷ ys)) ≡ back (q ∷ ys)
  unfolding back
  back-append [] q ys = refl
  back-append (x ∷ []) q ys = refl
  back-append (x ∷ y ∷ xs) q ys = back-append (y ∷ xs) q ys

  -- No entry of a trip is later than its last.
  pub times-IsTrip :
      (path : TravelPath) (idx : ℕ) (p q : PathStopDist)
      → IsTrip n b [] start from path
      → get_elem? path idx ≡ some p
      → back path ≡ some q
      → p.1 ≤ q.1
  unfolding back
  times-IsTrip [] idx p q trip at last = cc
  times-IsTrip (r ∷ []) zero p q trip at last =
      let first : r ≡ p = ground arith in
      let end : r ≡ q = ground arith in
      omega (arith, ap (λ (t : PathStopDist). t.1) first, ap (λ (t : PathStopDist). t.1) end)
  times-IsTrip (r ∷ []) (suc idx) p q trip at last = cc
  times-IsTrip (r ∷ s ∷ path) zero p q (ride, exact, trip) at last =
      let first : r ≡ p = ground arith in
      omega
        (arith, ap (λ (t : PathStopDist). t.1) first, times-IsTrip (s ∷ path) 0 s q trip refl last)
  times-IsTrip (r ∷ s ∷ path) (suc idx) p q (ride, exact, trip) at last =
      times-IsTrip (s ∷ path) idx p q trip at last

  -- Only the last entry of a trip can be at station B.
  pub away-IsTrip :
      (path : TravelPath) (idx : ℕ) (p : PathStopDist)
      → IsTrip n b [] start from path
      → get_elem? path idx ≡ some p
      → suc idx < length path
      → p.0.node ≢ b
  away-IsTrip [] idx p trip at inside = cc
  away-IsTrip (r ∷ []) idx p trip at inside = absurd (omega arith)
  away-IsTrip (r ∷ s ∷ path) zero p (ride, exact, trip) at inside =
      let first : r ≡ p = ground arith in subst (λ (t : PathStopDist). t.0.node ≢ b) first ride.away
  away-IsTrip (r ∷ s ∷ path) (suc idx) p (ride, exact, trip) at inside =
      away-IsTrip (s ∷ path) idx p trip at (omega arith)
