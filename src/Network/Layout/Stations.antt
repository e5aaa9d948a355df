-- ===== src/Network/Layout/Stations.antt =====
-- When the stations of a layout can be added: src/TransportNetwork.cpp.
use live_transport_network_m.Base.{
  ◌≡◌, ◌≢◌, ◌↔◌, refl, sym, ◌∙◌, subst, arith, true, false, ◌||◌, not, Bool-cases, Option-cases,
  inl, inr, some, List, [], ◌∷◌, bytes, ◌++◌, bytes_eq, lookup, lookup-emplace, All, Different, map,
  ◌==◌,
}
use live_transport_network_m.Network.Types.{Node, Station, TransportNetwork, get_station}
use live_transport_network_m.Network.Build.{add_station}
use live_transport_network_m.Network.Travel.Links.{known}
use live_transport_network_m.Network.Layout.{
  JsonLibrary, returns, throws, read_all, read_station, load_stations,
}
use live_transport_network_m.Network.Build.Grows.{fresh_node}

known-add_station :
    (s : Station) (n : TransportNetwork) (x : Node)
    → known x (add_station s n).0 ≡ (s.id == x || known x n)
unfolding add_station get_station
known-add_station s n x = elim (Option-cases (lookup s.id n.stations)) [
  | inr (node, old) ↦ ground (arith, old, bytes_eq.beq_iff s.id x)
  | inl new ↦ ground (arith, new, lookup-emplace s.id x (fresh_node s) n.stations)
]

added-add_station : (s : Station) (n : TransportNetwork) → (add_station s n).1 ≡ not (known s.id n)
unfolding add_station get_station
added-add_station s n = ground arith

-- The ids are new and different.
abbrev pub AreNew : List Station → TransportNetwork → Type 0
AreNew ss n =
    All (λ (s : Station). known s.id n ≡ false) ss × Different (map (λ (s : Station). s.id) ss)

split_new :
    (s : Station) (ss : List Station) (n : TransportNetwork)
    → All (λ (r : Station). known r.id (add_station s n).0 ≡ false) ss ↔ (
        All (λ (r : Station). known r.id n ≡ false) ss
        × All (λ x. s.id ≢ x) (map (λ (r : Station). r.id) ss))
split_new s [] n = (λ h. (tt, tt), λ h. tt)
split_new s (r ∷ ss) n =
    let rest = split_new s ss n in
    (
      λ (h, hs).
          let (old, other) = rest.0 hs in
          (
            (ground (arith, h, known-add_station s n r.id), old),
            (λ e. ground (arith, h, known-add_station s n r.id, bytes_eq.beq_iff s.id r.id), other),
          ),
      λ ((h, hs), (ne, nes)). (
        ground (arith, h, ne, known-add_station s n r.id, bytes_eq.beq_iff s.id r.id),
        rest.1 (hs, nes),
      ),
    )

module _ {Json : Type 0} (lib : JsonLibrary Json) where
  read_all_cons :
      (j : Json) (js : List Json) (s : Station) (ss : List Station)
      → read_station lib j ≡ some s
      → read_all (read_station lib) (j ∷ js) ≡ some ss
      → (rest : List Station) × (read_all (read_station lib) js ≡ some rest) × (ss ≡ s ∷ rest)
  unfolding read_all
  read_all_cons j js s ss read e = elim (Option-cases (read_all (read_station lib) js)) [
    | inl unread ↦ absurd (ground (arith, e, read, unread))
    | inr (rest, more) ↦ (rest, more, ground (arith, e, read, more))
  ]

  load_stations_fails :
      (j : Json) (js : List Json) (s : Station) (n : TransportNetwork)
      → read_station lib j ≡ some s
      → (add_station s n).1 ≡ false
      → load_stations lib (j ∷ js) n
        ≡ throws (add_station s n).0 (bytes "Could not add station " ++ s.id)
  unfolding load_stations
  load_stations_fails j js s n read failed = rw (read, load_stations) (rw failed refl)

  load_stations_goes_on :
      (j : Json) (js : List Json) (s : Station) (n : TransportNetwork)
      → read_station lib j ≡ some s
      → (add_station s n).1 ≡ true
      → load_stations lib (j ∷ js) n ≡ load_stations lib js (add_station s n).0
  unfolding load_stations
  load_stations_goes_on j js s n read ok = rw (read, load_stations) (rw ok refl)

  -- The loop of `FromJson` over stations that can be read adds them all exactly if no two of them have
  -- the same id and none has the id of a station that is in the network.
  pub load_stations_iff :
      (js : List Json) (ss : List Station) (n : TransportNetwork)
      → read_all (read_station lib) js ≡ some ss
      → ((n' : TransportNetwork) × (load_stations lib js n ≡ returns n' true)) ↔ AreNew ss n
  unfolding load_stations
  load_stations_iff [] ss n e =
      let nothing : [] ≡ ss = unfold read_all in ground (arith, e) in
      subst (λ l. ((n' : TransportNetwork) × (returns n true ≡ returns n' true)) ↔ AreNew l n)
        nothing (λ h. (tt, tt), λ h. (n, refl))
  load_stations_iff (j ∷ js) ss n e = elim (Option-cases (read_station lib j)) [
    | inl unread ↦ absurd (unfold read_all in ground (arith, e, unread))
    | inr (s, read) ↦
        let (rest, more, whole) = read_all_cons j js s ss read e in
        let m = (add_station s n).0 in
        subst
          (λ l.
            ((n' : TransportNetwork) × (load_stations lib (j ∷ js) n ≡ returns n' true))
            ↔ AreNew l n)
          (sym whole)
          (elim (Bool-cases (known s.id n)) [
            | inl old ↦
                let failed : (add_station s n).1 ≡ false =
                  ground (arith, old, added-add_station s n) in
                let step = load_stations_fails j js s n read failed in
                (
                  λ (n', made). absurd (ground (arith, step, made)),
                  λ ((new, _), _). absurd (ground (arith, old, new)),
                )
            | inr new ↦
                let ok : (add_station s n).1 ≡ true = ground (arith, new, added-add_station s n) in
                let step = load_stations_goes_on j js s n read ok in
                let ih = load_stations_iff js rest m more in
                let new_ones = split_new s rest n in
                (
                  λ (n', made).
                      let (fresh, different) = ih.0 (n', sym step ∙ made) in
                      let (old, other) = new_ones.0 fresh in ((new, old), (other, different)),
                  λ ((_, old), (other, different)).
                      let (n', made) = ih.1 (new_ones.1 (old, other), different) in
                      (n', step ∙ made),
                )
          ])
  ]
