-- ===== src/Network/Layout/Loaded.antt =====
-- What `FromJson` leaves: src/TransportNetwork.cpp.
use live_transport_network_m.Base.{
  ℕ, ◌≡◌, ◌≢◌, refl, sym, ◌∙◌, subst, arith, Bool, true, false, ◌&&◌, Bool-cases, Option-cases, inl,
  inr, some, List, [], ◌∷◌, pos, bytes_eq, lookup, lookup-emplace, All, All-weaken,
}
use live_transport_network_m.Network.Types.{
  GraphNode, Node, Station, Route, Line, TransportNetwork, Result, get_station,
}
use live_transport_network_m.Network.Build.{add_station, add_line}
use live_transport_network_m.Network.Build.Linked.{
  Extends, Extends-refl, Extends-trans, Linked, HasRoutes,
}
use live_transport_network_m.Network.Build.Grows.{
  Grown, Grown-refl, Grown-trans, fresh_node, add_station-Grown, set_travel_time-Grown,
}
use live_transport_network_m.Network.Build.Routes.{HasLine, HasLine-Grown}
use live_transport_network_m.Network.Build.Lines.{add_line-HasLine}
use live_transport_network_m.Network.Build.Added.{add_line_lem}
use live_transport_network_m.Network.Build.Returns.{add_line_returns}
use live_transport_network_m.Network.Travel.{set_travel_time}
use live_transport_network_m.Network.Travel.Links.{
  known, link, is_there, link-set_travel_time, known-set_travel_time, unknown-set_travel_time,
}
use live_transport_network_m.Network.Layout.{
  JsonLibrary, Loading, returns, json_throws, throws, undefined, read_station, read_line,
  load_stations, load_lines,
}

-- Nothing of the first network is lost in the second but travel times: stations with their names
-- and passenger counts, edges, and lines.
pub record Keeps (n n' : TransportNetwork) : Type 0 where
  pub grown : Grown n n'
  pub stations : (x : Node) → known x n ≡ true → known x n' ≡ true
  pub edges : (x y : Node) → is_there (link x y n) ≡ true → is_there (link x y n') ≡ true

pub Keeps-refl : (n : TransportNetwork) → Keeps n n
Keeps-refl n = record { grown = Grown-refl n; stations = λ x e. e; edges = λ x y e. e }

pub Keeps-trans : {n₁ n₂ n₃ : TransportNetwork} → Keeps n₁ n₂ → Keeps n₂ n₃ → Keeps n₁ n₃
Keeps-trans g h = record {
  grown = Grown-trans g.grown h.grown;
  stations = λ x e. h.stations x (g.stations x e);
  edges = λ x y e. h.edges x y (g.edges x y e);
}

Extends-Keeps : {n n' : TransportNetwork} → Grown n n' → Extends n n' → Keeps n n'
Extends-Keeps {n} grown g = record {
  grown = grown;
  stations = g.stations;
  edges = λ x y e. elim (Option-cases (link x y n)) [
    | inl absent ↦ absurd (ground (arith, e, absent))
    | inr (t, f) ↦ ground (arith, g.times x y t f)
  ];
}

add_station-Extends : (s : Station) (n : TransportNetwork) → Extends n (add_station s n).0
unfolding add_station get_station
add_station-Extends s n = elim (Option-cases (lookup s.id n.stations)) [
  | inr (node, old) ↦ rw (old, add_station) (Extends-refl n)
  | inl new ↦ record {
    stations = λ x e.
        ground
          (arith, new, lookup-emplace s.id x (fresh_node s) n.stations, bytes_eq.beq_iff s.id x);
    times = λ x y t e.
        ground
          (arith, new, lookup-emplace s.id x (fresh_node s) n.stations, bytes_eq.beq_iff s.id x);
  }
]

add_station-new :
    (s : Station) (n : TransportNetwork)
    → (add_station s n).1 ≡ true
    → get_station s.id (add_station s n).0 ≡ some (fresh_node s)
unfolding add_station get_station
add_station-new s n ok =
    ground
      (arith, ok, lookup-emplace s.id s.id (fresh_node s) n.stations, bytes_eq.beq_iff s.id s.id)

pub set_travel_time-Keeps :
    (a b : Node) (t : ℕ) (n : TransportNetwork) → Keeps n (set_travel_time a b t n).0
set_travel_time-Keeps a b t n = elim (Bool-cases (known a n && known b n)) [
  | inr unknown ↦ subst (Keeps n) (sym (unknown-set_travel_time a b t n unknown)) (Keeps-refl n)
  | inl both ↦ record {
    grown = set_travel_time-Grown a b t n;
    stations = λ x e. known-set_travel_time a b t n x ∙ e;
    edges = λ x y e. ground (arith, link-set_travel_time a b t n x y, both, e);
  }
]

module _ {Json : Type 0} (lib : JsonLibrary Json) where
  -- The value is a station of the network, with its name and no passengers counted.
  abbrev pub IsStation : TransportNetwork → Json → Type 0
  IsStation n j =
      (s : Station) × (read_station lib j ≡ some s)
      × (node : GraphNode) × (get_station s.id n ≡ some node)
      × (node.id ≡ s.id)
      × (node.name ≡ s.name)
      × (node.passenger_count ≡ pos 0)

  -- The value is a line of the network, with its id, name and routes. The stops of the routes are
  -- stations, each with an edge of the route to the next.
  abbrev pub IsLine : TransportNetwork → Json → Type 0
  IsLine n j = (l : Line) × (read_line lib j ≡ some l) × HasLine n l × HasRoutes n l.routes

  -- The value is not a line with a route that has no stops.
  abbrev pub HasStops : Json → Type 0
  HasStops j = (l : Line) → read_line lib j ≡ some l → All (λ (r : Route). r.stops ≢ []) l.routes

  Linked-Keeps :
      {n n' : TransportNetwork} (stops : List Node) → Keeps n n' → Linked stops n → Linked stops n'
  Linked-Keeps [] g h = tt
  Linked-Keeps (a ∷ []) g h = tt
  Linked-Keeps (a ∷ b ∷ stops) g (e, h) = (g.edges a b e, Linked-Keeps (b ∷ stops) g h)

  pub IsStation-Keeps :
      {n n' : TransportNetwork} (j : Json) → Keeps n n' → IsStation n j → IsStation n' j
  IsStation-Keeps j g (s, read, node, found, id, name, count) =
      let (node', found', more) = g.grown.nodes s.id node found in
      (s, read, node', found', more.id ∙ id, more.name ∙ name, more.passenger_count ∙ count)

  pub IsLine-Keeps : {n n' : TransportNetwork} (j : Json) → Keeps n n' → IsLine n j → IsLine n' j
  IsLine-Keeps j g (l, read, line, h) = (
    l,
    read,
    HasLine-Grown l g.grown line,
    All-weaken l.routes
        (λ r k. (All-weaken r.stops (λ x e. g.stations x e) k.0, Linked-Keeps r.stops g k.1)) h,
  )

  -- How a loop over stations or lines ends: where it returns, the property holds of all values, and
  -- the times of the edges that were there are kept. In any case nothing else is lost. Only what
  -- `U` says leads to undefined behaviour.
  abbrev pub End :
      (TransportNetwork → Json → Type 0) → Type 0 → List Json → TransportNetwork → Loading → Type 0
  End P U js n (returns n' ok) = Extends n n' × Keeps n n' × All (P n') js
  End P U js n (json_throws n') = Keeps n n'
  End P U js n (throws n' e) = Keeps n n'
  End P U js n undefined = U

  End-step :
      (P : TransportNetwork → Json → Type 0) (U V : Type 0) (j : Json) (js : List Json)
      (n m : TransportNetwork) (l : Loading)
      → Extends n m
      → Keeps n m
      → ((n' : TransportNetwork) → Keeps m n' → P n' j)
      → (U → V)
      → End P U js m l
      → End P V (j ∷ js) n l
  End-step P U V j js n m (returns n' ok) e g k u (f, h, all) =
      (Extends-trans e f, Keeps-trans g h, (k n' h, all))
  End-step P U V j js n m (json_throws n') more g k u h = Keeps-trans g h
  End-step P U V j js n m (throws n' e) more g k u h = Keeps-trans g h
  End-step P U V j js n m undefined more g k u h = u h

  pub load_stations-End :
      (js : List Json) (n : TransportNetwork) → End IsStation ⊥ js n (load_stations lib js n)
  unfolding load_stations
  load_stations-End [] n = (Extends-refl n, Keeps-refl n, tt)
  load_stations-End (j ∷ js) n = elim (Option-cases (read_station lib j)) [
    | inl unread ↦ rw (unread, load_stations) (Keeps-refl n)
    | inr (s, read) ↦
        let m = (add_station s n).0 in
        let more = add_station-Extends s n in
        let g = Extends-Keeps (add_station-Grown s n) more in
        elim (Bool-cases (add_station s n).1) [
          | inl ok ↦
              rw (read, load_stations)
                (rw ok (
                  End-step IsStation ⊥ ⊥ j js n m (load_stations lib js m) more g
                    (λ n' h.
                      IsStation-Keeps j h
                        (s, read, fresh_node s, add_station-new s n ok, refl, refl, refl))
                    (λ u. u) (load_stations-End js m)))
          | inr failed ↦ rw (read, load_stations) (rw failed g)
        ]
  ]

  -- One line, where the loop over the others ends as it should.
  line-End :
      (j : Json) (js : List Json) (n : TransportNetwork) (l : Line)
      → ((m : TransportNetwork) → End IsLine (¬ All HasStops js) js m (load_lines lib js m))
      → read_line lib j ≡ some l
      → (r : Result (TransportNetwork × Bool)) → add_line l n ≡ r
      → End IsLine (¬ All HasStops (j ∷ js)) (j ∷ js) n (load_lines lib (j ∷ js) n)
  unfolding load_lines
  line-End j js n l rest read Result.undefined made =
      let step : load_lines lib (j ∷ js) n ≡ undefined = rw (read, load_lines) (rw made refl) in
      subst (End IsLine (¬ All HasStops (j ∷ js)) (j ∷ js) n) (sym step)
        (λ all. let (r, made') = add_line_returns l n (all.0 l read) in ground (arith, made, made'))
  line-End j js n l rest read (Result.throws e) made =
      rw (read, load_lines) (rw made (Keeps-refl n))
  line-End j js n l rest read (Result.returns (m, false)) made =
      rw (read, load_lines)
        (rw made (
          Extends-Keeps (add_line-HasLine l n (m, false) made).0
            (add_line_lem l n (m, false) made).0))
  line-End j js n l rest read (Result.returns (m, true)) made =
      let (more, has) = add_line_lem l n (m, true) made in
      let (grown, line) = add_line-HasLine l n (m, true) made in
      let step : load_lines lib (j ∷ js) n ≡ load_lines lib js m =
        rw (read, load_lines) (rw made refl) in
      subst (End IsLine (¬ All HasStops (j ∷ js)) (j ∷ js) n) (sym step) (
        End-step IsLine (¬ All HasStops js) (¬ All HasStops (j ∷ js)) j js n m (load_lines lib js m)
          more (Extends-Keeps grown more)
          (λ n' h. IsLine-Keeps j h (l, read, line refl, (has refl).0)) (λ u all. u all.1) (rest m))

  pub load_lines-End :
      (js : List Json) (n : TransportNetwork)
      → End IsLine (¬ All HasStops js) js n (load_lines lib js n)
  unfolding load_lines
  load_lines-End [] n = (Extends-refl n, Keeps-refl n, tt)
  load_lines-End (j ∷ js) n = elim (Option-cases (read_line lib j)) [
    | inl unread ↦ rw (unread, load_lines) (Keeps-refl n)
    | inr (l, read) ↦ line-End j js n l (λ m. load_lines-End js m) read (add_line l n) refl
  ]
