-- ===== src/Stomp/Frame/RoundTrip.antt =====
-- A frame that is built from its parts is read back as those parts: src/StompFrame.cpp.
use live_transport_network_m.Base.{
  ℕ, ◌≡◌, ◌≢◌, refl, sym, ap, ◌∙◌, Bool, true, false, Option, none, some, [], ◌∷◌, ◌++◌,
  append_assoc, append-nil, Bytes, All, length, lookup, emplace, lookup-emplace, emplace_new,
  Distinct, Lacks, ◌==◌,
}
use live_transport_network_m.Stomp.Command.{StompCommand}
use live_transport_network_m.Stomp.Header.{StompHeader, header_eq}
use live_transport_network_m.Stomp.Errors.{StompError}
use live_transport_network_m.Stomp.Number.{from_chars, value, stoi}
use live_transport_network_m.Stomp.Outcome.{done}
use live_transport_network_m.Stomp.Frame.{
  StompFrame, Headers, null, blank, parse_and_validate, of_text, of_parts, frame_text,
}
use live_transport_network_m.Stomp.Frame.Lines.{IsLine, collect}
use live_transport_network_m.Stomp.Frame.Body.{IsBodyFor}
use live_transport_network_m.Stomp.Frame.Parse.{parse_complete}
use live_transport_network_m.Stomp.Frame.Validate.{HasRequired, StatesLength, validate_frame_iff}

-- A body that can be sent with the headers: of exactly the stated length, or with no NULL octet.
abbrev pub AdmitsFor : Option Bytes → Bytes → Type 0
AdmitsFor none body = Lacks null body
AdmitsFor (some v) body = from_chars v ≡ value (length body)

abbrev pub Admits : Headers → Bytes → Type 0
Admits hs = AdmitsFor (lookup StompHeader.content_length hs)

still_new :
    (h : StompHeader) (v : Bytes) (acc hs : Headers)
    → All (λ p. (h == p.0) ≡ false) hs
    → All (λ p. lookup p.0 acc ≡ none) hs
    → All (λ p. lookup p.0 (emplace h v acc) ≡ none) hs
still_new h v acc [] d n = tt
still_new h v acc ((j, w) ∷ hs) (d, ds) (n, ns) =
    (rw lookup-emplace (rw d n), still_new h v acc hs ds ns)

collect-Distinct :
    (acc hs : Headers)
    → Distinct hs
    → All (λ p. lookup p.0 acc ≡ none) hs
    → collect acc hs ≡ acc ++ hs
unfolding collect
collect-Distinct acc [] d n = sym (append-nil acc)
collect-Distinct acc ((h, v) ∷ hs) (d, ds) (n, ns) =
    collect-Distinct (emplace h v acc) hs ds (still_new h v acc hs d ns)
    ∙ ap (λ m. m ++ hs) (emplace_new h v acc n)
    ∙ append_assoc acc ((h, v) ∷ []) hs

All-new : (hs : Headers) → All (λ p. lookup {V = Bytes} p.0 [] ≡ none) hs
unfolding lookup
All-new [] = tt
All-new (p ∷ hs) = (refl, All-new hs)

stoi_in_range :
    (i : ℕ) (v : Bytes) (n : ℕ) → from_chars v ≡ value n → ◌≡◌ {A = Bool × ℕ} (stoi v i) (true, n)
unfolding stoi
stoi_in_range i v n e = rw (e, stoi)

admitted_body : (o : Option Bytes) (body : Bytes) → AdmitsFor o body → IsBodyFor o body
admitted_body none body h = h
admitted_body (some v) body h = stoi_in_range 0 v (length body) h

admitted_length :
    (i : ℕ) (o : Option Bytes) (body : Bytes) → AdmitsFor o body → StatesLength i o (length body)
admitted_length i none body h = tt
admitted_length i (some v) body h = stoi_in_range i v (length body) h

-- What the parts must satisfy to make a frame.
pub record IsSendable (c : StompCommand) (hs : Headers) (body : Bytes) : Type 0 where
  pub known : c ≢ StompCommand.invalid
  pub lines_valid : All IsLine hs
  pub distinct : Distinct hs
  pub body_fits : Admits hs body
  pub has_required : HasRequired (record { plain = []; command = c; headers = hs; body = body })

-- From a known command, headers that are known, distinct, not empty and on one line, among them
-- those that STOMP requires, and a body that they admit, the constructor builds a frame with the
-- code `kOk` whose command, headers and body are exactly those, whatever `length` holds before
-- `ValidateFrame` sets it.
pub of_parts_reads_back :
    (indeterminate : ℕ) (c : StompCommand) (hs : Headers) (body : Bytes)
    → IsSendable c hs body
    → of_parts indeterminate c hs body
      ≡ done (
        StompError.ok,
        record { plain = frame_text c hs body []; command = c; headers = hs; body = body },
      )
unfolding of_parts of_text parse_and_validate
of_parts_reads_back i c hs body s =
    let plain = frame_text c hs body [] in
    let g : StompFrame = record { plain = plain; command = c; headers = hs; body = body } in
    let parsed =
      parse_complete (record blank { plain = plain }) g
        (record {
          lines = hs;
          trailing = [];
          text_is = refl;
          known = s.known;
          lines_valid = s.lines_valid;
          headers_are = sym (collect-Distinct [] hs s.distinct (All-new hs));
          body_valid = admitted_body (lookup StompHeader.content_length hs) body s.body_fits;
          trailing_valid = tt;
        }) in
    let valid = (validate_frame_iff i g).1 (
      s.known,
      s.has_required,
      admitted_length i (lookup StompHeader.content_length hs) body s.body_fits,
    ) in
    rw (parsed, parse_and_validate) (rw valid)
