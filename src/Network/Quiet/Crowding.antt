-- ===== src/Network/Quiet/Crowding.antt =====
-- The crowding of a path: src/TransportNetwork.cpp.
use live_transport_network_m.Base.{
  ◌≡◌, sym, ap, ◌∙◌, arith, none, some, [], ◌∷◌, ℤ, pos, negsuc, ◌+ℤ◌, Option-cases, inl, inr,
  +ℤ_parts, eq_of_parts,
}
use live_transport_network_m.Network.Stops.{TravelPath}
use live_transport_network_m.Network.Types.{TransportNetwork, get_station}
use live_transport_network_m.Network.Quiet.{to_uint, add_crowding, get_path_crowding}

-- The sum of the passenger counts of the stations on the path.
unfoldable pub passenger_sum : TransportNetwork → TravelPath → ℤ
passenger_sum n [] = pos 0
passenger_sum n ((stop, _) ∷ path) =
    (elim (get_station stop.node n) [ none ↦ pos 0 | some node ↦ node.passenger_count ])
    +ℤ passenger_sum n path

to_uint-add : (x y : ℤ) → to_uint (pos (to_uint x) +ℤ y) ≡ to_uint (x +ℤ y)
unfolding to_uint ◌+ℤ◌
to_uint-add (pos x) (pos y) = ground arith
to_uint-add (pos x) (negsuc y) = ground arith
to_uint-add (negsuc x) (pos y) = ground arith
to_uint-add (negsuc x) (negsuc y) = ground arith

add_assocℤ : (x y z : ℤ) → (x +ℤ y) +ℤ z ≡ x +ℤ (y +ℤ z)
add_assocℤ x y z =
    eq_of_parts ((x +ℤ y) +ℤ z) (x +ℤ (y +ℤ z))
      (omega (arith, +ℤ_parts (x +ℤ y) z, +ℤ_parts x y, +ℤ_parts x (y +ℤ z), +ℤ_parts y z))

zero_add : (x : ℤ) → pos 0 +ℤ x ≡ x
zero_add x = eq_of_parts (pos 0 +ℤ x) x (omega (arith, +ℤ_parts (pos 0) x))

add_crowding-passenger_sum :
    (n : TransportNetwork) (total : ℤ) (path : TravelPath)
    → add_crowding n (to_uint total) path ≡ to_uint (total +ℤ passenger_sum n path)
unfolding add_crowding passenger_sum
add_crowding-passenger_sum n total [] =
    ap to_uint (eq_of_parts total (total +ℤ pos 0) (omega (arith, +ℤ_parts total (pos 0))))
add_crowding-passenger_sum n total ((stop, d) ∷ path) =
    elim (Option-cases (get_station stop.node n)) [
      | inl unknown ↦ rw unknown (
          add_crowding-passenger_sum n total path
          ∙ ap (λ t. to_uint (total +ℤ t)) (sym (zero_add (passenger_sum n path))))
      | inr (node, found) ↦ rw found (
          ap (λ t. add_crowding n t path) (to_uint-add total node.passenger_count)
          ∙ (add_crowding-passenger_sum n (total +ℤ node.passenger_count) path
              ∙ ap to_uint (add_assocℤ total node.passenger_count (passenger_sum n path))))
    ]

-- `GetPathCrowding` is the sum of the passenger counts of the stations on the path, converted to
-- `unsigned int` once, although the code converts after each station.
pub get_path_crowding-passenger_sum :
    (n : TransportNetwork) (path : TravelPath)
    → get_path_crowding n path ≡ to_uint (passenger_sum n path)
unfolding get_path_crowding to_uint
get_path_crowding-passenger_sum n path = start ∙ ap to_uint (zero_add (passenger_sum n path))
  where
    start : add_crowding n 0 path ≡ to_uint (pos 0 +ℤ passenger_sum n path)
    start = add_crowding-passenger_sum n (pos 0) path
