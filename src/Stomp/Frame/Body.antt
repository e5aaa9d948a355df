-- ===== src/Stomp/Frame/Body.antt =====
-- The body of a frame and what may stand behind it: the second half of `ParseFrame`.
use live_transport_network_m.Base.{
  ℕ, ◌≡◌, ◌↔◌, refl, arith, Bool, true, Option-cases, inl, inr, Option, none, some, [], ◌∷◌, ◌++◌,
  Bytes, split, split-append, split_sound, Lacks, All, length, get_elem?, take-append,
  drop-suc-append, get_elem?-append, split_at_get_elem?, length-append, lookup, nat_eq,
}
use live_transport_network_m.Stomp.Header.{StompHeader, header_eq}
use live_transport_network_m.Stomp.Errors.{StompError}
use live_transport_network_m.Stomp.Number.{stoi}
use live_transport_network_m.Stomp.Outcome.{done, or_fail}
use live_transport_network_m.Stomp.Frame.{
  Headers, null, new_line, counted_body, read_body, only_new_lines,
}

-- A body that the headers admit: of the stated length, or with no NULL octet where none is stated.
abbrev pub IsBodyFor : Option Bytes → Bytes → Type 0
IsBodyFor none body = Lacks null body
IsBodyFor (some v) body = ◌≡◌ {A = Bool × ℕ} (stoi v 0) (true, length body)

abbrev pub IsBody : Headers → Bytes → Type 0
IsBody headers = IsBodyFor (lookup StompHeader.content_length headers)

read_counted :
    (body rest : Bytes)
    → counted_body (true, length body) (body ++ (null ∷ rest)) ≡ done (body, rest)
unfolding counted_body
read_counted body rest = ground (
  arith,
  length-append body (null ∷ rest),
  get_elem?-append body null rest,
  take-append body (null ∷ rest),
  drop-suc-append body null rest,
)

counted_sound :
    (flag : Bool) (n : ℕ) (text body rest : Bytes)
    → counted_body (flag, n) text ≡ done (body, rest)
    → (text ≡ body ++ (null ∷ rest)) × (flag ≡ true) × (n ≡ length body)
unfolding counted_body
counted_sound flag n text body rest e = elim (Option-cases (get_elem? text n)) [
  | inl absent ↦ ground arith
  | inr (c, found) ↦ ground (arith, split_at_get_elem? n text c found)
]

pub read_body_complete :
    (headers : Headers) (body rest : Bytes)
    → IsBody headers body
    → read_body headers (body ++ (null ∷ rest)) ≡ done (body, rest)
unfolding read_body
read_body_complete headers body rest h =
    elim (Option-cases (lookup StompHeader.content_length headers)) [
      | inl absent ↦ rw (absent, read_body) (rw (split-append null body rest (rw absent at h)))
      | inr (v, found) ↦ rw (found, read_body) (rw (rw found at h) (read_counted body rest))
    ]

pub read_body_sound :
    (headers : Headers) (text body rest : Bytes)
    → read_body headers text ≡ done (body, rest)
    → (text ≡ body ++ (null ∷ rest)) × IsBody headers body
unfolding read_body
read_body_sound headers text body rest e =
    elim (Option-cases (lookup StompHeader.content_length headers)) [
      | inl absent ↦ rw absent (absent_sound (rw (absent, read_body) at e))
      | inr (v, found) ↦ rw found (
          let (text_is, flag, stated) =
            counted_sound (stoi v 0).0 (stoi v 0).1 text body rest (rw (found, read_body) at e) in
          (text_is, ground arith))
    ]
  where
    absent_sound :
        or_fail (split null text) StompError.parsing_missing_null_in_body ≡ done (body, rest)
        → (text ≡ body ++ (null ∷ rest)) × Lacks null body
    absent_sound f = ground (arith, split_sound null text body rest)

pub only_new_lines_iff : (s : Bytes) → (only_new_lines s ≡ true) ↔ All (λ c. c ≡ new_line) s
unfolding only_new_lines
only_new_lines_iff [] = (λ _. tt, λ _. refl)
only_new_lines_iff (c ∷ cs) = ground (arith, only_new_lines_iff cs)
