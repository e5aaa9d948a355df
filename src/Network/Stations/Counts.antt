-- ===== src/Network/Stations/Counts.antt =====
-- `RecordPassengerEvent` and `GetPassengerCount`: src/TransportNetwork.cpp.
use live_transport_network_m.Base.{
  ℕ, ◌+◌, ◌≤◌, ◌≡◌, sym, ap, ◌∙◌, arith, Bool, true, false, ◌&&◌, Bool-cases, Option-cases, inl,
  inr, Option, none, some, List, [], ◌∷◌, bytes_eq, ℤ, pos, negsuc, ◌+ℤ◌, +ℤ_parts, eq_of_parts,
  sub_ℕ, sub_ℕ_parts, pos_part, neg_part, lookup, lookup-assign, length, ◌==◌, if◌then◌else◌,
}
use live_transport_network_m.Network.Types.{
  Ident, EventType, in_, out, PassengerEvent, TransportNetwork, returns, get_station, set_node,
}
use live_transport_network_m.Network.Stations.{
  event_change, record_passenger_event, get_passenger_count,
}

-- The recorded count, if the id is that of a station.
abbrev pub count : Ident → TransportNetwork → Option ℤ
count a n = elim (get_station a n) [ none ↦ none | some node ↦ some node.passenger_count ]

abbrev pub add_to : ℤ → Option ℤ → Option ℤ
add_to d none = none
add_to d (some c) = some (c +ℤ d)

count-record :
    (event : PassengerEvent) (n : TransportNetwork) (x : Ident)
    → count x (record_passenger_event event n).0
      ≡ (if event.station_id == x then add_to (event_change event.type) (count x n) else count x n)
unfolding record_passenger_event get_station set_node
count-record event n x = elim (Option-cases (lookup event.station_id n.stations)) [
  | inl absent ↦ ground (arith, bytes_eq.beq_iff event.station_id x)
  | inr (node, found) ↦ ground (
    arith,
    lookup-assign event.station_id x
        (record node { passenger_count = node.passenger_count +ℤ event_change event.type })
        n.stations,
    bytes_eq.beq_iff event.station_id x,
  )
]

-- The program's use of the network: one event after another.
abbrev pub record_all : List PassengerEvent → TransportNetwork → TransportNetwork
record_all [] n = n
record_all (event ∷ events) n = record_all events (record_passenger_event event n).0

abbrev pub same_type : EventType → EventType → Bool
same_type in_ in_ = true
same_type out out = true
same_type a b = false

-- How many passengers the events let into the station, and how many out of it.
abbrev pub entries : EventType → Ident → List PassengerEvent → ℕ
entries type x [] = 0
entries type x (event ∷ events) =
    (if event.station_id == x && same_type type event.type then 1 else 0) + entries type x events

-- One event more, before the others.
shift :
    (type : EventType) (c : ℤ) (i o : ℕ)
    → c +ℤ event_change type +ℤ sub_ℕ i o
      ≡ c
        +ℤ sub_ℕ
            ((if same_type in_ type then 1 else 0) + i)
            ((if same_type out type then 1 else 0) + o)
shift in_ c i o = eq_of_parts _ _ (
    omega (
      arith,
      +ℤ_parts (c +ℤ pos 1) (sub_ℕ i o),
      +ℤ_parts c (pos 1),
      +ℤ_parts c (sub_ℕ (1 + i) (0 + o)),
      sub_ℕ_parts i o,
      sub_ℕ_parts (1 + i) (0 + o),
    ))
shift out c i o = eq_of_parts _ _ (
    omega (
      arith,
      +ℤ_parts (c +ℤ negsuc 0) (sub_ℕ i o),
      +ℤ_parts c (negsuc 0),
      +ℤ_parts c (sub_ℕ (0 + i) (1 + o)),
      sub_ℕ_parts i o,
      sub_ℕ_parts (0 + i) (1 + o),
    ))

-- After any events, each station has the count that it had, plus those who went in, less those who
-- came out; events elsewhere, or at no station, do not change it, and no station comes or goes.
pub count-record_all :
    (events : List PassengerEvent) (n : TransportNetwork) (x : Ident)
    → count x (record_all events n)
      ≡ add_to (sub_ℕ (entries in_ x events) (entries out x events)) (count x n)
count-record_all [] n x = elim (Option-cases (count x n)) [
  | inl absent ↦ ground arith
  | inr (c, found) ↦ ground (arith, eq_of_parts (c +ℤ pos 0) c, +ℤ_parts c (pos 0))
]
count-record_all (event ∷ events) n x = elim (Option-cases (count x n)) [
  | inl absent ↦
      ground (
        arith,
        count-record event n x,
        count-record_all events (record_passenger_event event n).0 x,
      )
  | inr (c, found) ↦ elim (Bool-cases (event.station_id == x)) [
    | inl here ↦
        let next = (record_passenger_event event n).0 in
        let e : count x next ≡ some (c +ℤ event_change event.type) =
          count-record event n x ∙ rw (here, found) in
        count-record_all events next x
        ∙ rw (e, here, found)
            (ap some (shift event.type c (entries in_ x events) (entries out x events)))
    | inr elsewhere ↦
        let next = (record_passenger_event event n).0 in
        let e : count x next ≡ some c = count-record event n x ∙ rw (elsewhere, found) in
        count-record_all events next x ∙ rw (e, elsewhere, found) (ground arith)
  ]
]

get_passenger_count_lem :
    (x : Ident) (n : TransportNetwork) (c : ℤ)
    → count x n ≡ some c
    → get_passenger_count x n ≡ returns c
unfolding get_passenger_count
get_passenger_count_lem x n c h = ground arith

add_to_ends : (o : Option ℤ) (d : ℤ) (c c' : ℤ) → o ≡ some c → add_to d o ≡ some c' → c' ≡ c +ℤ d
add_to_ends o d c c' h e = ground arith

entries-le-length :
    (type : EventType) (x : Ident) (events : List PassengerEvent)
    → entries type x events ≤ length events
entries-le-length type x [] = omega arith
entries-le-length type x (event ∷ events) = ground (arith, entries-le-length type x events)

from_zero_bounds :
    (i o : ℕ) → (pos_part (pos 0 +ℤ sub_ℕ i o) ≤ i) × (neg_part (pos 0 +ℤ sub_ℕ i o) ≤ o)
unfolding ◌+ℤ◌
from_zero_bounds i o = ground arith

-- From a count of zero, no run of events takes a count further from zero than there are events; so
-- a 64-bit counter overflows only after more than 2 ^ 63 - 1 events.
pub count-record_all_bounds :
    (events : List PassengerEvent) (n : TransportNetwork) (x : Ident) (c : ℤ)
    → count x n ≡ some (pos 0)
    → count x (record_all events n) ≡ some c
    → (pos_part c ≤ length events) × (neg_part c ≤ length events)
count-record_all_bounds events n x c start e =
    let i = entries in_ x events in
    let o = entries out x events in
    let total =
      add_to_ends (count x n) (sub_ℕ i o) (pos 0) c start (sym (count-record_all events n x) ∙ e) in
    let small = from_zero_bounds i o in
    let in_le = entries-le-length in_ x events in
    let out_le = entries-le-length out x events in
    (ground (arith, ap pos_part total), ground (arith, ap neg_part total))
