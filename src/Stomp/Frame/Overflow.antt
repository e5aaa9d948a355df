-- ===== src/Stomp/Frame/Overflow.antt =====
-- Stated lengths past the range of `size_t`: src/StompFrame.cpp.
use live_transport_network_m.Base.{
  ℕ, ◌≡◌, ◌≢◌, refl, ap, ◌∙◌, arith, Bool, true, some, [], ◌∷◌, Bytes, length, lookup, ◌==◌, nat_eq,
  if◌then◌else◌,
}
use live_transport_network_m.Stomp.Command.{StompCommand}
use live_transport_network_m.Stomp.Header.{StompHeader, header_eq}
use live_transport_network_m.Stomp.Errors.{StompError}
use live_transport_network_m.Stomp.Number.{out_of_range, from_chars, stoi}
use live_transport_network_m.Stomp.Outcome.{done}
use live_transport_network_m.Stomp.Frame.{
  StompFrame, blank, has_header, get_header_value, length_error, stated_length_error,
  validate_frame, parse_and_validate, of_text,
}
use live_transport_network_m.Stomp.Frame.Parse.{Spells, parse_complete}
use live_transport_network_m.Stomp.Frame.Validate.{
  HasRequired, has_all_headers_iff, All-present_iff, required,
}

stoi_out_of_range :
    (i : ℕ) (v : Bytes) → from_chars v ≡ out_of_range → ◌≡◌ {A = Bool × ℕ} (stoi v i) (true, i)
unfolding stoi
stoi_out_of_range i v e = rw (e, stoi)

length_error_overflow :
    (i : ℕ) (g : StompFrame) (v : Bytes)
    → lookup StompHeader.content_length g.headers ≡ some v
    → from_chars v ≡ out_of_range
    → length_error i g ≡ (
        if i == length g.body then StompError.ok else StompError.validation_content_length_mismatch)
unfolding length_error stated_length_error has_header get_header_value
length_error_overflow i g v found over = ground (arith, stoi_out_of_range i v over)

nil_of_length : (s : Bytes) → length s ≡ 0 → s ≡ []
nil_of_length [] h = refl
nil_of_length (c ∷ cs) h = absurd (omega arith)

validate_present :
    (i : ℕ) (g : StompFrame)
    → g.command ≢ StompCommand.invalid
    → HasRequired g
    → validate_frame i g ≡ length_error i g
unfolding validate_frame
validate_present i g known has =
    let all =
      (has_all_headers_iff (has_header g) g.command).1
        (known, (All-present_iff g (required g.command)).1 has) in
    rw (all, validate_frame)

-- A frame that states a length past the range of `size_t` is parsed as if it stated 0, and then
-- `ValidateFrame` compares the body with a variable that was never set: the code that the
-- constructor gives is `kOk` where that variable happens to hold 0, and a mismatch elsewhere.
pub content_length_overflow :
    (indeterminate : ℕ) (text v : Bytes) (g : StompFrame)
    → Spells text g
    → HasRequired g
    → lookup StompHeader.content_length g.headers ≡ some v
    → from_chars v ≡ out_of_range
    → (g.body ≡ [])
      × (of_text indeterminate text
          ≡ done (
            if indeterminate == 0
                then StompError.ok
                else StompError.validation_content_length_mismatch,
            record g { plain = text },
          ))
unfolding of_text parse_and_validate
content_length_overflow i text v g s has found over =
    let stated = rw found at s.body_valid in
    let empty = nil_of_length g.body (ground (arith, stoi_out_of_range 0 v over)) in
    let g' = record g { plain = text } in
    let checked = validate_present i g' s.known has ∙ length_error_overflow i g' v found over in
    (
      empty,
      rw (parse_complete (record blank { plain = text }) g s, parse_and_validate)
          (ap (λ e. done (e, g')) (checked ∙ rw empty)),
    )
