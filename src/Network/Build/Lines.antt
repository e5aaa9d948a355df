-- ===== src/Network/Build/Lines.antt =====
-- The lines that `AddLine` makes: src/TransportNetwork.cpp.
use live_transport_network_m.Base.{
  suc, Bool, ◌≡◌, ◌∙◌, refl, sym, subst, arith, true, false, Bool-cases, Option-cases, inl, inr,
  none, some, List, [], ◌∷◌, bytes_eq, lookup, emplace, lookup-assign, lookup-emplace, All,
  All-weaken,
}
use live_transport_network_m.Network.Types.{
  Ident, Route, Line, Node, RouteInternal, LineInternal, TransportNetwork, returns, get_station,
  get_line,
}
use live_transport_network_m.Network.Build.{
  push_edges, all_stations, make_route, add_route_to_line, add_routes, add_line,
}
use live_transport_network_m.Network.Build.Added.{returns-injective, >>=-eq-returns, known_fresh}
use live_transport_network_m.Network.Build.Grows.{
  Grown, Grown-refl, Grown-trans, push_edges-Grown, fresh-Grown, Runs, Runs-Grown,
}
use live_transport_network_m.Network.Build.Linked.{AllKnown, all_stations-AllKnown}
use live_transport_network_m.Network.Build.Routes.{
  HasRoute, HasLine, lines-push_edges, push_edges-Runs,
}

-- What the loop over the routes leaves: the network grown, the line with the routes that it had,
-- and where the loop succeeds with those of the list.
record Built (routes : List Route) (line : LineInternal) (n : TransportNetwork)
    (r : Bool × LineInternal × TransportNetwork) : Type 0 where
  grown : Grown n r.2
  lines : r.2.lines ≡ n.lines
  id : r.1.id ≡ line.id
  name : r.1.name ≡ line.name
  kept :
      (k : Ident) (i : RouteInternal) → lookup k line.routes ≡ some i → lookup k r.1.routes ≡ some i
  has : r.0 ≡ true → All (HasRoute r.1 r.2) routes

unchanged-Built :
    (routes : List Route) (line : LineInternal) (n : TransportNetwork)
    → Built routes line n (false, line, n)
unchanged-Built routes line n = record {
  grown = Grown-refl n;
  lines = refl;
  id = refl;
  name = refl;
  kept = λ k i e. e;
  has = λ e. cc;
}

make_route-Built :
    (route : Route) (line : LineInternal) (n : TransportNetwork) (stops : List Node)
    (r : Bool × LineInternal × TransportNetwork)
    → route.stops ≡ stops
    → lookup route.id line.routes ≡ none
    → AllKnown stops n
    → make_route route stops line n ≡ returns r
    → Built (route ∷ []) line n r
unfolding make_route
make_route-Built route line n [] r is new k e = cc
make_route-Built route line n (a ∷ stops) r is new k e =
    let made : RouteInternal = record {
      address = n.fresh;
      id = route.id;
      line = line.id;
      stops = a ∷ stops;
    } in
    let start = record n { fresh = suc n.fresh } in
    let n' = push_edges made (a ∷ stops) start in
    subst (Built (route ∷ []) line n) (returns-injective e) (record {
      lines = lines-push_edges made (a ∷ stops) start;
      grown = fresh-Grown n n' (suc n.fresh) (push_edges-Grown made (a ∷ stops) start);
      id = refl;
      name = refl;
      kept = λ k i found. ground (
        arith,
        found,
        new,
        lookup-assign route.id k made line.routes,
        bytes_eq.beq_iff route.id k,
      );
      has = λ _. (
        (
          made,
          ground (
            arith,
            lookup-assign route.id route.id made line.routes,
            bytes_eq.beq_iff route.id route.id,
          ),
          refl,
          refl,
          sym is,
          subst (λ s. Runs made s n') (sym is)
              (push_edges-Runs made (a ∷ stops) start (known_fresh n (suc n.fresh) (a ∷ stops) k)),
        ),
        tt,
      );
    })

add_route_to_line-Built :
    (route : Route) (line : LineInternal) (n : TransportNetwork)
    (r : Bool × LineInternal × TransportNetwork)
    → add_route_to_line route line n ≡ returns r
    → Built (route ∷ []) line n r
unfolding add_route_to_line
add_route_to_line-Built route line n r e = elim (Option-cases (lookup route.id line.routes)) [
  | inr (old, found) ↦ unchanged (rw (found, add_route_to_line) at e)
  | inl new ↦ elim (Bool-cases (all_stations route.stops n)) [
    | inr missing ↦ unchanged (rw missing at (rw (new, add_route_to_line) at e))
    | inl all ↦
        make_route-Built route line n route.stops r refl new
          (all_stations-AllKnown route.stops n all) (rw all at (rw (new, add_route_to_line) at e))
  ]
]
  where
    unchanged : returns (false, line, n) ≡ returns r → Built (route ∷ []) line n r
    unchanged f =
        subst (Built (route ∷ []) line n) (returns-injective f)
          (unchanged-Built (route ∷ []) line n)

-- A route that the line has is not lost while more are added.
HasRoute-Built :
    (routes : List Route) (line : LineInternal) (n : TransportNetwork)
    (r : Bool × LineInternal × TransportNetwork) (route : Route)
    → Built routes line n r
    → HasRoute line n route
    → HasRoute r.1 r.2 route
HasRoute-Built routes line n r route b (i, at, is, of, stops, runs) =
    (i, b.kept route.id i at, is, of ∙ sym b.id, stops, Runs-Grown i route.stops b.grown runs)

-- One route, then the others.
then-Built :
    (route : Route) (routes : List Route) (line : LineInternal) (n : TransportNetwork)
    (s r : Bool × LineInternal × TransportNetwork)
    → s.0 ≡ true
    → Built (route ∷ []) line n s
    → Built routes s.1 s.2 r
    → Built (route ∷ routes) line n r
then-Built route routes line n s r ok b c = record {
  grown = Grown-trans b.grown c.grown;
  lines = c.lines ∙ b.lines;
  id = c.id ∙ b.id;
  name = c.name ∙ b.name;
  kept = λ k i e. c.kept k i (b.kept k i e);
  has = λ e. (HasRoute-Built routes s.1 s.2 r route c (b.has ok).0, c.has e);
}

add_routes-Built :
    (routes : List Route) (line : LineInternal) (n : TransportNetwork)
    (r : Bool × LineInternal × TransportNetwork)
    → add_routes routes line n ≡ returns r
    → Built routes line n r
unfolding add_routes
add_routes-Built [] line n r e = subst (Built [] line n) (returns-injective e) (record {
  grown = Grown-refl n;
  lines = refl;
  id = refl;
  name = refl;
  kept = λ k i e. e;
  has = λ _. tt;
})
add_routes-Built (route ∷ routes) line n r e =
    let (s, e₁, e₂) = >>=-eq-returns (add_route_to_line route line n) _ e in
    let b = add_route_to_line-Built route line n s e₁ in
    elim (Bool-cases s.0) [
      | inl ok ↦
          then-Built route routes line n s r ok b (add_routes-Built routes s.1 s.2 r (rw ok at e₂))
      | inr failed ↦
          subst (Built (route ∷ routes) line n) (returns-injective (rw failed at e₂)) (record {
            grown = b.grown;
            lines = b.lines;
            id = b.id;
            name = b.name;
            kept = b.kept;
            has = λ h. ground (arith, h, failed);
          })
    ]

-- The line that `AddLine` puts in.
emplaced :
    (l : LineInternal) (id : Ident) (n n' : TransportNetwork)
    → get_line id n ≡ none
    → Grown n n'
    → n'.lines ≡ n.lines
    → Grown n (record n' { lines = emplace id l n'.lines })
      × (get_line id (record n' { lines = emplace id l n'.lines }) ≡ some l)
unfolding get_line get_station
emplaced l id n n' new g same =
    let new' : lookup id n'.lines ≡ none = rw same new in
    (
      record {
        nodes = g.nodes;
        lines = λ x k e.
            ground
              (arith, new, e, g.lines x k e, lookup-emplace id x l n'.lines, bytes_eq.beq_iff id x);
      },
      ground (arith, new', lookup-emplace id id l n'.lines, bytes_eq.beq_iff id id),
    )

HasRoute-lines :
    (l : LineInternal) (n : TransportNetwork) (ls : _) (routes : List Route)
    → All (HasRoute l n) routes
    → All (HasRoute l (record n { lines = ls })) routes
unfolding get_station
HasRoute-lines l n ls routes h =
    All-weaken routes
      (λ r (i, at, is, of, stops, runs). (i, at, is, of, stops, Runs-lines i r.stops runs)) h
  where
    Runs-lines :
        (i : RouteInternal) (stops : List Node)
        → Runs i stops n
        → Runs i stops (record n { lines = ls })
    Runs-lines i [] h = tt
    Runs-lines i (a ∷ []) h = tt
    Runs-lines i (a ∷ b ∷ stops) ((node, address, found, has), hs) =
        ((node, address, found, has), Runs-lines i (b ∷ stops) hs)

-- `AddLine` where it returns: nodes and lines are kept, and on success the line is there.
pub add_line-HasLine :
    (line : Line) (n : TransportNetwork) (r : TransportNetwork × Bool)
    → add_line line n ≡ returns r
    → Grown n r.0 × (r.1 ≡ true → HasLine r.0 line)
unfolding add_line
add_line-HasLine line n r e = elim (Option-cases (get_line line.id n)) [
  | inr (old, found) ↦ ended n false (Grown-refl n, λ h. cc) (rw (found, add_line) at e)
  | inl new ↦
      let (s, e₁, e₂) = >>=-eq-returns (add_routes line.routes _ n) _ (rw (new, add_line) at e) in
      let b = add_routes-Built line.routes _ n s e₁ in
      elim (Bool-cases s.0) [
        | inr failed ↦ ended s.2 false (b.grown, λ h. cc) (rw failed at e₂)
        | inl ok ↦
            let (more, found) = emplaced s.1 line.id n s.2 new b.grown b.lines in
            ended (record s.2 { lines = emplace line.id s.1 s.2.lines }) true
              (
                more,
                λ _. (s.1, found, b.id, b.name, HasRoute-lines s.1 s.2 _ line.routes (b.has ok)),
              )
              (rw ok at e₂)
      ]
]
  where
    Added : TransportNetwork × Bool → Type 0
    Added x = Grown n x.0 × (x.1 ≡ true → HasLine x.0 line)

    ended :
        (n' : TransportNetwork) (flag : Bool)
        → Added (n', flag)
        → returns (n', flag) ≡ returns r
        → Added r
    ended n' flag a f = subst Added (returns-injective f) a
