-- ===== src/Network/Layout/Whole.antt =====
-- How `FromJson` ends: src/TransportNetwork.cpp.
use live_transport_network_m.Base.{
  ◌≡◌, ◌∙◌, arith, refl, sym, subst, Bool, true, false, Option-cases, inl, inr, some, Bytes, bytes,
  bytes_eq, All, All-weaken, if◌then◌else◌,
}
use live_transport_network_m.Network.Types.{TransportNetwork}
use live_transport_network_m.Network.Layout.{
  JsonLibrary, Loading, returns, json_throws, throws, undefined, ◌>>=◌, load_stations, load_lines,
  load_travel_times, each, from_json,
}
use live_transport_network_m.Network.Layout.Loaded.{
  Keeps, Keeps-refl, Keeps-trans, IsStation, IsLine, HasStops, IsStation-Keeps, IsLine-Keeps, End,
  load_stations-End, load_lines-End,
}
use live_transport_network_m.Network.Layout.Times.{AreSet, TimesEnd, load_travel_times-TimesEnd}
use live_transport_network_m.Network.Build.Linked.{Extends, Extends-refl, Extends-trans}

module _ {Json : Type 0} (lib : JsonLibrary Json) where
  module _ (src : Json) where
    -- The values of one loop have the property.
    abbrev pub AllAt : Bytes → (Json → Type 0) → Type 0
    AllAt key P = (values : Json) × (lib.at_key key src ≡ some values) × All P (lib.elements values)

    -- The travel times of the layout are set, on a network that has the edges of the first with
    -- their times, and `ok` says whether each is for two stations that an edge joins.
    abbrev pub TimesAt : Bool → TransportNetwork → TransportNetwork → Type 0
    TimesAt ok n n' =
        (values : Json) × (lib.at_key (bytes "travel_times") src ≡ some values)
        × (m : TransportNetwork) × Extends n m
        × AreSet lib (lib.elements values) ok m n'

    -- How `FromJson` ends. `lines` says whether the lines are still to come, and `stations` likewise.
    abbrev pub LayoutEnd : Bool → Bool → TransportNetwork → Loading → Type 0
    LayoutEnd stations lines n (returns n' ok) =
        Keeps n n'
        × (if stations then AllAt (bytes "stations") (IsStation lib n') else Unit)
        × (if lines then AllAt (bytes "lines") (IsLine lib n') else Unit)
        × TimesAt ok n n'
    LayoutEnd stations lines n (json_throws n') = Keeps n n'
    LayoutEnd stations lines n (throws n' e) = Keeps n n'
    LayoutEnd stations lines n undefined = ¬ (
        (values : Json)
        → lib.at_key (bytes "lines") src ≡ some values
        → All (HasStops lib) (lib.elements values))

    times_end :
        (n : TransportNetwork)
        → LayoutEnd false false n
            (each lib (bytes "travel_times") src (λ values. load_travel_times lib values true) n)
    unfolding each
    times_end n = elim (Option-cases (lib.at_key (bytes "travel_times") src)) [
      | inl missing ↦ rw (missing, each) (Keeps-refl n)
      | inr (values, at) ↦
          let step : each lib (bytes "travel_times") src (λ v. load_travel_times lib v true) n
              ≡ load_travel_times lib (lib.elements values) true n =
            rw (at, each) refl in
          subst (LayoutEnd false false n) (sym step) (
            times_part values at (load_travel_times lib (lib.elements values) true n)
              (load_travel_times-TimesEnd lib (lib.elements values) true n))
    ]
      where
        times_part :
            (values : Json)
            → lib.at_key (bytes "travel_times") src ≡ some values
            → (l : Loading) → TimesEnd lib (lib.elements values) true n l
            → LayoutEnd false false n l
        times_part values at (returns n' ok) (g, set, ok_is, all) = (
          g,
          tt,
          tt,
          (
            values,
            at,
            n,
            Extends-refl n,
            subst (λ b. AreSet lib (lib.elements values) b n n') (sym (ok_is ∙ ground arith)) all,
          ),
        )
        times_part values at (json_throws n') g = g
        times_part values at (throws n' e) g = g
        times_part values at undefined h = absurd h

    TimesAt-later :
        (ok : Bool) (n m n' : TransportNetwork) → Extends n m → TimesAt ok m n' → TimesAt ok n n'
    TimesAt-later ok n m n' more (values, at, k, later, set) =
        (values, at, k, Extends-trans more later, set)

    lines_first :
        (n m : TransportNetwork) (values : Json) (l : Loading)
        → lib.at_key (bytes "lines") src ≡ some values
        → Extends n m
        → Keeps n m
        → All (IsLine lib m) (lib.elements values)
        → LayoutEnd false false m l
        → LayoutEnd false true n l
    lines_first n m values (returns n' ok) at more g all (h, _, _, times) = (
      Keeps-trans g h,
      tt,
      (values, at, All-weaken (lib.elements values) (λ j. IsLine-Keeps lib j h) all),
      TimesAt-later ok n m n' more times,
    )
    lines_first n m values (json_throws n') at more g all h = Keeps-trans g h
    lines_first n m values (throws n' e) at more g all h = Keeps-trans g h
    lines_first n m values undefined at more g all h = h

    stations_first :
        (n m : TransportNetwork) (values : Json) (l : Loading)
        → lib.at_key (bytes "stations") src ≡ some values
        → Extends n m
        → Keeps n m
        → All (IsStation lib m) (lib.elements values)
        → LayoutEnd false true m l
        → LayoutEnd true true n l
    stations_first n m values (returns n' ok) at more g all (h, _, lines, times) = (
      Keeps-trans g h,
      (values, at, All-weaken (lib.elements values) (λ j. IsStation-Keeps lib j h) all),
      lines,
      TimesAt-later ok n m n' more times,
    )
    stations_first n m values (json_throws n') at more g all h = Keeps-trans g h
    stations_first n m values (throws n' e) at more g all h = Keeps-trans g h
    stations_first n m values undefined at more g all h = h

    abbrev times_loop : TransportNetwork → Loading
    times_loop = each lib (bytes "travel_times") src (λ values. load_travel_times lib values true)

    abbrev lines_loop : TransportNetwork → Loading
    lines_loop n = each lib (bytes "lines") src (load_lines lib) n >>= times_loop

    after_lines :
        (n : TransportNetwork) (values : Json) (l : Loading)
        → lib.at_key (bytes "lines") src ≡ some values
        → End lib
            (IsLine lib)
            (¬ All (HasStops lib) (lib.elements values))
            (lib.elements values)
            n
            l
        → LayoutEnd false true n (l >>= times_loop)
    after_lines n values (returns m ok) at (more, g, all) =
        lines_first n m values (times_loop m) at more g all (times_end m)
    after_lines n values (json_throws m) at g = g
    after_lines n values (throws m e) at g = g
    after_lines n values undefined at u = λ all. u (all values at)

    lines_end : (n : TransportNetwork) → LayoutEnd false true n (lines_loop n)
    unfolding each
    lines_end n = elim (Option-cases (lib.at_key (bytes "lines") src)) [
      | inl missing ↦
          let step : each lib (bytes "lines") src (load_lines lib) n ≡ json_throws n =
            rw (missing, each) refl in
          subst (λ l. LayoutEnd false true n (l >>= times_loop)) (sym step) (Keeps-refl n)
      | inr (values, at) ↦
          let step : each lib (bytes "lines") src (load_lines lib) n
              ≡ load_lines lib (lib.elements values) n =
            rw (at, each) refl in
          subst (λ l. LayoutEnd false true n (l >>= times_loop)) (sym step)
            (after_lines n values (load_lines lib (lib.elements values) n) at
              (load_lines-End lib (lib.elements values) n))
    ]

    after_stations :
        (n : TransportNetwork) (values : Json) (l : Loading)
        → lib.at_key (bytes "stations") src ≡ some values
        → End lib (IsStation lib) ⊥ (lib.elements values) n l
        → LayoutEnd true true n (l >>= lines_loop)
    after_stations n values (returns m ok) at (more, g, all) =
        stations_first n m values (lines_loop m) at more g all (lines_end m)
    after_stations n values (json_throws m) at g = g
    after_stations n values (throws m e) at g = g
    after_stations n values undefined at u = absurd u

    -- However `FromJson` ends, every station stays with its name, its passenger count and its edges up
    -- to their travel times, and every line stays as it is. Where it returns, each station of the
    -- layout is in the network with its name and no passengers; each line is there with its id, name
    -- and routes, and each stop of a route is a station with an edge of the route to the next; and all
    -- travel times of the layout are set, one after the other, on a network in which the edges that
    -- were there before have the times that they had: between two stations that an edge joins, in
    -- either order, `GetTravelTime` gives the last time that the layout has for the two, and between
    -- any others, or where the layout has none, what it gave on that network; and the result is true
    -- exactly if each travel time is for two stations that an edge joins. Its behaviour is undefined
    -- only for a layout with a route that has no stops.
    pub from_json-LayoutEnd : (n : TransportNetwork) → LayoutEnd true true n (from_json lib src n)
    unfolding from_json each
    from_json-LayoutEnd n = elim (Option-cases (lib.at_key (bytes "stations") src)) [
      | inl missing ↦
          let step : each lib (bytes "stations") src (load_stations lib) n ≡ json_throws n =
            rw (missing, each) refl in
          subst (λ l. LayoutEnd true true n (l >>= lines_loop)) (sym step) (Keeps-refl n)
      | inr (values, at) ↦
          let step : each lib (bytes "stations") src (load_stations lib) n
              ≡ load_stations lib (lib.elements values) n =
            rw (at, each) refl in
          subst (λ l. LayoutEnd true true n (l >>= lines_loop)) (sym step)
            (after_stations n values (load_stations lib (lib.elements values) n) at
              (load_stations-End lib (lib.elements values) n))
    ]
