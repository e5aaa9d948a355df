-- ===== src/Network/Layout/Times.antt =====
-- The travel times of a layout, as `FromJson` sets them: src/TransportNetwork.cpp.
use live_transport_network_m.Base.{
  ℕ, ◌≡◌, ◌∙◌, refl, ap, arith, Bool, true, ◌&&◌, ◌||◌, Bool-cases, Option-cases, inl, inr, Option,
  none, some, List, [], ◌∷◌, bytes_eq, ◌==◌, if◌then◌else◌,
}
use live_transport_network_m.Network.Types.{Node, TransportNetwork}
use live_transport_network_m.Network.Travel.{set_travel_time, get_travel_time}
use live_transport_network_m.Network.Travel.Links.{
  known, link, is_there, link-set_travel_time, known-set_travel_time, unknown-set_travel_time,
  found-set_travel_time, get-set_travel_time,
}
use live_transport_network_m.Network.Layout.{
  JsonLibrary, Loading, returns, json_throws, throws, undefined, read_all, read_travel_time,
  load_travel_times,
}
use live_transport_network_m.Network.Layout.Loaded.{
  Keeps, Keeps-refl, Keeps-trans, set_travel_time-Keeps,
}

-- The two stations exist, and an edge joins them in one direction or the other.
abbrev pub joined : Node → Node → TransportNetwork → Bool
joined x y n = known x n && known y n && (is_there (link x y n) || is_there (link y x n))

abbrev pub Times : Type 0
Times = List (Node × Node × ℕ)

-- Each of the times is for two stations that an edge joins.
abbrev pub all_joined : Times → TransportNetwork → Bool
all_joined [] n = true
all_joined ((a, b, t) ∷ times) n = joined a b n && all_joined times n

-- The last of the times for the two stations, in either order.
abbrev pub last_time : Node → Node → Times → Option ℕ
last_time x y [] = none
last_time x y ((a, b, t) ∷ times) = elim (last_time x y times) [
  | some later ↦ some later
  | none ↦ if (a == x && b == y) || (b == x && a == y) then some t else none
]

-- The travel time once all times were set on a network: the last one for the two stations, where
-- an edge joins them, or else what the network had.
abbrev pub timed : Times → TransportNetwork → Node → Node → ℕ
timed times n x y = elim (last_time x y times) [
  | some t ↦ if joined x y n then t else get_travel_time x y n
  | none ↦ get_travel_time x y n
]

module _ (a b : Node) (t : ℕ) (n : TransportNetwork) where
  abbrev after : TransportNetwork
  after = (set_travel_time a b t n).0

  joined-set_travel_time : (x y : Node) → joined x y after ≡ joined x y n
  joined-set_travel_time x y = elim (Bool-cases (known a n && known b n)) [
    | inr unknown ↦ ap (joined x y) (unknown-set_travel_time a b t n unknown)
    | inl both ↦ ground (
      arith,
      both,
      known-set_travel_time a b t n x,
      known-set_travel_time a b t n y,
      link-set_travel_time a b t n x y,
      link-set_travel_time a b t n y x,
    )
  ]

  joined_pair :
      (x y : Node) → ((a == x && b == y) || (b == x && a == y)) ≡ true → joined a b n ≡ joined x y n
  joined_pair x y h = ground (
    arith,
    h,
    bytes_eq.beq_iff a x,
    bytes_eq.beq_iff b y,
    bytes_eq.beq_iff b x,
    bytes_eq.beq_iff a y,
  )

  pub timed-set_travel_time :
      (times : Times) (x y : Node) → timed times after x y ≡ timed ((a, b, t) ∷ times) n x y
  timed-set_travel_time times x y =
      let (got, set) = get-set_travel_time a b t n x y in
      ground (arith, got, set, joined-set_travel_time x y, joined_pair x y)

  pub all_joined-set_travel_time : (times : Times) → all_joined times after ≡ all_joined times n
  all_joined-set_travel_time [] = refl
  all_joined-set_travel_time ((c, d, u) ∷ times) =
      ground (arith, joined-set_travel_time c d, all_joined-set_travel_time times)

module _ {Json : Type 0} (lib : JsonLibrary Json) where
  -- The values are read as travel times, all of them are set on the network, and `ok` says whether
  -- each is for two stations that an edge joins.
  pub record AreSet (js : List Json) (ok : Bool) (n n' : TransportNetwork) : Type 0 where
    pub times : Times
    pub read : read_all (read_travel_time lib) js ≡ some times
    pub all_set : ok ≡ all_joined times n
    pub joins : (x y : Node) → joined x y n' ≡ joined x y n
    pub now : (x y : Node) → get_travel_time x y n' ≡ timed times n x y

  -- How the loop over the travel times ends.
  abbrev pub TimesEnd : List Json → Bool → TransportNetwork → Loading → Type 0
  TimesEnd js ok n (returns n' ok') =
      Keeps n n' × (set : Bool) × (ok' ≡ (ok && set)) × AreSet js set n n'
  TimesEnd js ok n (json_throws n') = Keeps n n'
  TimesEnd js ok n (throws n' e) = Keeps n n'
  TimesEnd js ok n undefined = ⊥

  AreSet-step :
      (j : Json) (js : List Json) (set : Bool) (a b : Node) (t : ℕ) (n n' : TransportNetwork)
      → read_travel_time lib j ≡ some (a, b, t)
      → AreSet js set (set_travel_time a b t n).0 n'
      → AreSet (j ∷ js) (joined a b n && set) n n'
  unfolding read_all
  AreSet-step j js set a b t n n' read h = record {
    times = (a, b, t) ∷ h.times;
    read = rw (read, read_all) (rw h.read refl);
    all_set = ap (◌&&◌ (joined a b n)) (h.all_set ∙ all_joined-set_travel_time a b t n h.times);
    joins = λ x y. h.joins x y ∙ joined-set_travel_time a b t n x y;
    now = λ x y. h.now x y ∙ timed-set_travel_time a b t n h.times x y;
  }

  TimesEnd-step :
      (j : Json) (js : List Json) (ok : Bool) (a b : Node) (t : ℕ) (n : TransportNetwork)
      (l : Loading)
      → read_travel_time lib j ≡ some (a, b, t)
      → TimesEnd js (ok && (set_travel_time a b t n).1) (set_travel_time a b t n).0 l
      → TimesEnd (j ∷ js) ok n l
  TimesEnd-step j js ok a b t n (returns n' ok') read (h, set, ok_is, all) = (
    Keeps-trans (set_travel_time-Keeps a b t n) h,
    joined a b n && set,
    ground (arith, ok_is, found-set_travel_time a b t n),
    AreSet-step j js set a b t n n' read all,
  )
  TimesEnd-step j js ok a b t n (json_throws n') read h =
      Keeps-trans (set_travel_time-Keeps a b t n) h
  TimesEnd-step j js ok a b t n (throws n' e) read h = Keeps-trans (set_travel_time-Keeps a b t n) h
  TimesEnd-step j js ok a b t n undefined read h = h

  pub load_travel_times-TimesEnd :
      (js : List Json) (ok : Bool) (n : TransportNetwork)
      → TimesEnd js ok n (load_travel_times lib js ok n)
  unfolding load_travel_times read_all
  load_travel_times-TimesEnd [] ok n = (
    Keeps-refl n,
    true,
    ground arith,
    record { times = []; read = refl; all_set = refl; joins = λ x y. refl; now = λ x y. refl },
  )
  load_travel_times-TimesEnd (j ∷ js) ok n = elim (Option-cases (read_travel_time lib j)) [
    | inl unread ↦ rw (unread, load_travel_times) (Keeps-refl n)
    | inr ((a, b, t), read) ↦
        let (m, set) = set_travel_time a b t n in
        rw (read, load_travel_times)
          (TimesEnd-step j js ok a b t n (load_travel_times lib js (ok && set) m) read
            (load_travel_times-TimesEnd js (ok && set) m))
  ]
