-- ===== src/Monitor/Crowding.antt =====
-- `SetNetworkCrowding`: inc/network-monitor/NetworkMonitor.h.
use live_transport_network_m.Base.{
  ℕ, zero, suc, ◌≡◌, refl, sym, ap, ◌∙◌, arith, true, false, ◌&&◌, Bool-cases, inl, inr, Option,
  none, some, List, [], ◌∷◌, ℤ, pos, negsuc, ◌+ℤ◌, +ℤ_parts, sub_ℕ, sub_ℕ_parts, eq_of_parts, subst,
  bytes_eq, lookup, Distinct, Assoc, All, ltb, ◌^◌, ◌<◌, ◌==◌, if◌then◌else◌,
}
use live_transport_network_m.Monitor.{record_times, abs, set_network_crowding}
use live_transport_network_m.Network.Stations.{record_passenger_event}
use live_transport_network_m.Network.Stations.Counts.{
  record_all, count, entries, same_type, add_to, count-record_all,
}
use live_transport_network_m.Network.Types.{
  Ident, EventType, PassengerEvent, in_, out, TransportNetwork, returns,
}

abbrev copies : ℕ → PassengerEvent → List PassengerEvent
copies zero event = []
copies (suc k) event = event ∷ copies k event

record_times_lem :
    (k : ℕ) (event : PassengerEvent) (n : TransportNetwork)
    → record_times k event n ≡ record_all (copies k event) n
unfolding record_times
record_times_lem zero event n = refl
record_times_lem (suc k) event n = record_times_lem k event (record_passenger_event event n).0

entries-copies :
    (type : EventType) (x : Ident) (k : ℕ) (event : PassengerEvent)
    → entries type x (copies k event)
      ≡ (if event.station_id == x && same_type type event.type then k else 0)
entries-copies type x zero event = ground arith
entries-copies type x (suc k) event = ground (arith, entries-copies type x k event)

-- The number of passengers that a map gives a station, added to those that are there.
abbrev pub add_crowd : Option ℤ → Option ℤ → Option ℤ
add_crowd none c = c
add_crowd (some d) c = add_to d c

add_nothing : (o : Option ℤ) → add_to (pos 0) o ≡ o
add_nothing none = refl
add_nothing (some c) = ap some (eq_of_parts (c +ℤ pos 0) c (omega (arith, +ℤ_parts c (pos 0))))

-- The loop for one type of event.
module _ (s x : Ident) (n : TransportNetwork) where
  count_in :
      (k : ℕ)
      → count x (record_times k (record { station_id = s; type = in_ }) n)
        ≡ (if s == x then add_to (pos k) (count x n) else count x n)
  count_in k =
      let event : PassengerEvent = record { station_id = s; type = in_ } in
      ap (count x) (record_times_lem k event n)
      ∙ count-record_all (copies k event) n x
      ∙ rw (entries-copies in_ x k event) (
          rw (entries-copies out x k event) (elim (Bool-cases (s == x)) [
            | inl here ↦ rw here (
                ap (λ d. add_to d (count x n))
                  (eq_of_parts (sub_ℕ k 0) (pos k) (ground (arith, sub_ℕ_parts k 0))))
            | inr elsewhere ↦ rw elsewhere (add_nothing (count x n))
          ]))

  count_out :
      (k : ℕ)
      → count x (record_times (suc k) (record { station_id = s; type = out }) n)
        ≡ (if s == x then add_to (negsuc k) (count x n) else count x n)
  count_out k =
      let event : PassengerEvent = record { station_id = s; type = out } in
      ap (count x) (record_times_lem (suc k) event n)
      ∙ count-record_all (copies (suc k) event) n x
      ∙ rw (entries-copies in_ x (suc k) event) (
          rw (entries-copies out x (suc k) event) (elim (Bool-cases (s == x)) [
            | inl here ↦ rw here (
                ap (λ d. add_to d (count x n))
                  (eq_of_parts (sub_ℕ 0 (suc k)) (negsuc k)
                    (ground (arith, sub_ℕ_parts 0 (suc k)))))
            | inr elsewhere ↦ rw elsewhere (add_nothing (count x n))
          ]))

absent :
    (s : Ident) (counts : Assoc Ident ℤ)
    → All (λ p. (s == p.0) ≡ false) counts
    → lookup s counts ≡ none
unfolding lookup
absent s [] h = refl
absent s ((i, c) ∷ counts) (h, hs) =
    ground (arith, absent s counts hs, bytes_eq.beq_iff i s, bytes_eq.beq_iff s i)

one_more :
    (s x : Ident) (c : ℤ) (counts : Assoc Ident ℤ) (n n' : TransportNetwork)
    → All (λ p. (s == p.0) ≡ false) counts
    → count x n' ≡ (if s == x then add_to c (count x n) else count x n)
    → add_crowd (lookup x counts) (count x n') ≡ add_crowd (lookup x ((s, c) ∷ counts)) (count x n)
unfolding lookup
one_more s x c counts n n' new one = elim (Bool-cases (s == x)) [
  | inl here ↦
      let same : s ≡ x = (bytes_eq.beq_iff s x).0 here in
      let gone : lookup x counts ≡ none =
        subst (λ y. lookup y counts ≡ none) same (absent s counts new) in
      let now : count x n' ≡ add_to c (count x n) = one ∙ rw here refl in rw here (rw gone now)
  | inr elsewhere ↦
      let now : count x n' ≡ count x n = one ∙ rw elsewhere refl in
      rw elsewhere (ap (add_crowd (lookup x counts)) now)
]

-- The number of passengers is an `int`, and not the least one.
abbrev pub IsCount : ℤ → Type 0
IsCount (pos c) = c < 2 ^ 31
IsCount (negsuc c) = suc c < 2 ^ 31

-- `SetNetworkCrowding` returns, and adds to each station's count the number that the map gives for
-- it, whichever sign it has, and changes no other count. The map has one entry for each key, and
-- each number is an `int` other than the least one, whose `std::abs` is not defined.
pub count-set_network_crowding :
    (counts : Assoc Ident ℤ) (n : TransportNetwork)
    → Distinct counts
    → All (λ p. IsCount p.1) counts
    → (n' : TransportNetwork) × (set_network_crowding counts n ≡ returns n')
      × ((x : Ident) → count x n' ≡ add_crowd (lookup x counts) (count x n))
unfolding set_network_crowding lookup record_times abs
count-set_network_crowding [] n d b = (n, refl, λ x. refl)
count-set_network_crowding ((s, pos zero) ∷ counts) n (d, ds) (b, bs) =
    let (n', made, counted) = count-set_network_crowding counts n ds bs in
    (
      n',
      made,
      λ x.
          counted x
          ∙ one_more s x (pos 0) counts n n d (elim (Bool-cases (s == x)) [
            | inl here ↦ rw here (sym (add_nothing (count x n)))
            | inr elsewhere ↦ rw elsewhere refl
          ]),
    )
count-set_network_crowding ((s, pos (suc c)) ∷ counts) n (d, ds) (b, bs) =
    let some_go_in : ltb 0 (suc c) ≡ true = ground arith in
    let next = record_times (suc c) (record { station_id = s; type = in_ }) n in
    let (n', made, counted) = count-set_network_crowding counts next ds bs in
    (
      n',
      rw some_go_in made,
      λ x. counted x ∙ one_more s x (pos (suc c)) counts n next d (count_in s x n (suc c)),
    )
count-set_network_crowding ((s, negsuc c) ∷ counts) n (d, ds) (b, bs) =
    let fits : ltb (suc c) (2 ^ 31) ≡ true = ground arith in
    let next = record_times (suc c) (record { station_id = s; type = out }) n in
    let (n', made, counted) = count-set_network_crowding counts next ds bs in
    (n', rw fits made, λ x. counted x ∙ one_more s x (negsuc c) counts n next d (count_out s x n c))
