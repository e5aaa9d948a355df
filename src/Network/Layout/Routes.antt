-- ===== src/Network/Layout/Routes.antt =====
-- A travel route that is written and read again: src/TransportNetwork.cpp.
use live_transport_network_m.Base.{
  ℕ, ◌<◌, ◌≡◌, refl, ◌∙◌, arith, some, List, [], ◌∷◌, Bytes, bytes, bytes_eq, Bool-cases, inl, inr,
  lookup, Assoc, All, map, ◌==◌, if◌then◌else◌,
}
use live_transport_network_m.Network.Plans.{Step, TravelRoute}
use live_transport_network_m.Network.Travel.{uint_mod}
use live_transport_network_m.Network.Layout.{
  JsonLibrary, read_all, string_at, unsigned_at, write_step, read_step, write_travel_route,
  read_travel_route,
}

-- What the JSON library promises of objects, strings, unsigned numbers and arrays.
pub record IsJson {Json : Type 0} (lib : JsonLibrary Json) : Type 1 where
  pub IsObject : Json → Type 0
  pub null_object : IsObject lib.null
  pub set_key_object : (k : Bytes) (v j : Json) → IsObject j → IsObject (lib.set_key k v j)
  pub at-set_key :
      (k k' : Bytes) (v j : Json)
      → IsObject j
      → lib.at_key k' (lib.set_key k v j) ≡ (if k == k' then some v else lib.at_key k' j)
  pub string_read : (s : Bytes) → lib.get_string (lib.of_string s) ≡ some s
  pub unsigned_read : (k : ℕ) → k < uint_mod → lib.get_unsigned (lib.of_unsigned k) ≡ some k
  pub array_read : (l : List Json) → lib.get_array (lib.of_array l) ≡ some l

module _ {Json : Type 0} (lib : JsonLibrary Json) (is : IsJson lib) where
  -- The object with the fields, the last one set first.
  abbrev object : Assoc Bytes Json → Json
  object [] = lib.null
  object ((k, v) ∷ fields) = lib.set_key k v (object fields)

  object_is : (fields : Assoc Bytes Json) → is.IsObject (object fields)
  object_is [] = is.null_object
  object_is ((k, v) ∷ fields) = is.set_key_object k v (object fields) (object_is fields)

  at-object :
      (k : Bytes) (v : Json) (fields : Assoc Bytes Json)
      → lookup k fields ≡ some v
      → lib.at_key k (object fields) ≡ some v
  unfolding lookup
  at-object k v [] f = absurd (ground (arith, f))
  at-object k v ((k', v') ∷ fields) f = elim (Bool-cases (k' == k)) [
    | inl same ↦ ground (arith, f, is.at-set_key k' k v' (object fields) (object_is fields))
    | inr other ↦
        is.at-set_key k' k v' (object fields) (object_is fields)
        ∙ rw other (at-object k v fields (rw other at f))
  ]

  string_at-object :
      (k s : Bytes) (fields : Assoc Bytes Json)
      → lookup k fields ≡ some (lib.of_string s)
      → string_at lib k (object fields) ≡ some s
  unfolding string_at
  string_at-object k s fields f = rw (at-object k (lib.of_string s) fields f) (is.string_read s)

  unsigned_at-object :
      (k : Bytes) (t : ℕ) (fields : Assoc Bytes Json)
      → t < uint_mod
      → lookup k fields ≡ some (lib.of_unsigned t)
      → unsigned_at lib k (object fields) ≡ some t
  unfolding unsigned_at
  unsigned_at-object k t fields small f =
      rw (at-object k (lib.of_unsigned t) fields f) (is.unsigned_read t small)

  abbrev step_fields : Step → Assoc Bytes Json
  step_fields s =
      (bytes "travel_time", lib.of_unsigned s.travel_time)
      ∷ (bytes "route_id", lib.of_string s.route_id)
      ∷ (bytes "line_id", lib.of_string s.line_id)
      ∷ (bytes "end_station_id", lib.of_string s.end_station_id)
      ∷ (bytes "start_station_id", lib.of_string s.start_station_id)
      ∷ []

  step_read : (s : Step) → s.travel_time < uint_mod → read_step lib (write_step lib s) ≡ some s
  unfolding read_step write_step lookup
  step_read s small =
      let fields = step_fields s in
      simp (
        string_at-object (bytes "start_station_id") s.start_station_id fields refl,
        string_at-object (bytes "end_station_id") s.end_station_id fields refl,
        string_at-object (bytes "line_id") s.line_id fields refl,
        string_at-object (bytes "route_id") s.route_id fields refl,
        unsigned_at-object (bytes "travel_time") s.travel_time fields small refl,
      )

  steps_read :
      (steps : List Step)
      → All (λ (s : Step). s.travel_time < uint_mod) steps
      → read_all (read_step lib) (map (write_step lib) steps) ≡ some steps
  unfolding read_all
  steps_read [] small = refl
  steps_read (s ∷ steps) (small, smaller) =
      rw (step_read s small) (rw (steps_read steps smaller) refl)

  abbrev route_fields : TravelRoute → Assoc Bytes Json
  route_fields r =
      (bytes "steps", lib.of_array (map (write_step lib) r.steps))
      ∷ (bytes "total_travel_time", lib.of_unsigned r.total_travel_time)
      ∷ (bytes "end_station_id", lib.of_string r.end_station_id)
      ∷ (bytes "start_station_id", lib.of_string r.start_station_id)
      ∷ []

  -- A travel route whose times are `unsigned int` is the one that `from_json` reads from what `to_json`
  -- writes, with all its steps in order.
  pub read-write_travel_route :
      (r : TravelRoute)
      → r.total_travel_time < uint_mod
      → All (λ (s : Step). s.travel_time < uint_mod) r.steps
      → read_travel_route lib (write_travel_route lib r) ≡ some r
  unfolding read_travel_route write_travel_route lookup
  read-write_travel_route r small smaller =
      let fields = route_fields r in
      simp (
        string_at-object (bytes "start_station_id") r.start_station_id fields refl,
        string_at-object (bytes "end_station_id") r.end_station_id fields refl,
        unsigned_at-object (bytes "total_travel_time") r.total_travel_time fields small refl,
        at-object (bytes "steps") (lib.of_array (map (write_step lib) r.steps)) fields refl,
        is.array_read (map (write_step lib) r.steps),
        steps_read r.steps smaller,
      )
