-- ===== src/Tests/Frames.antt =====
-- Frames at concrete inputs: src/StompFrame.cpp.
use live_transport_network_m.Base.{
  ◌≡◌, ◌≢◌, ◌↔◌, refl, arith, some, [], ◌∷◌, ◌++◌, Bytes, bytes, lookup, nat_eq, bytes_eq, emplace,
}
use live_transport_network_m.Server.Frames.{send_headers, send-IsSendable}
use live_transport_network_m.Stomp.Command
use live_transport_network_m.Stomp.Command.{StompCommand, to_command, command_eq}
use live_transport_network_m.Stomp.Header.{StompHeader, to_header, header_eq}
use live_transport_network_m.Stomp.Header
use live_transport_network_m.Stomp.Decimal.{digits_onto, decimal, from_chars-decimal}
use live_transport_network_m.Stomp.Errors.{StompError}
use live_transport_network_m.Stomp.Frame.{
  StompFrame, blank, header_lines, parse_frame, validate_frame, of_text, of_parts, frame_text,
}
use live_transport_network_m.Stomp.Frame.Overflow.{content_length_overflow}
use live_transport_network_m.Stomp.Frame.Exceptions.{IsCut, parse_frame_throws_iff}
use live_transport_network_m.Stomp.Frame.Parse.{Spells, parse_frame_iff, parse_frame-ne-out_of_fuel}
use live_transport_network_m.Stomp.Frame.Lines.{collect}
use live_transport_network_m.Stomp.Frame.Body.{IsBody}
use live_transport_network_m.Stomp.Frame.RoundTrip.{IsSendable, of_parts_reads_back}
use live_transport_network_m.Stomp.Frame.Validate.{HasRequired, StatesLength, validate_frame_iff}
use live_transport_network_m.Stomp.Number.{stoi, from_chars, value, out_of_range}
use live_transport_network_m.Stomp.Outcome.{done, throws, out_of_fuel}

abbrev destination : Bytes
destination = bytes "/quiet-route"

-- A body with a NULL octet.
abbrev content : Bytes
content = b'h' ∷ 0 ∷ b'i' ∷ []

abbrev sent : StompFrame
sent = record {
  plain = frame_text StompCommand.send (send_headers (bytes "7") destination content) content [];
  command = StompCommand.send;
  headers = send_headers (bytes "7") destination content;
  body = content;
}

of_parts_reads_back_example :
    of_parts 7 StompCommand.send (send_headers (bytes "7") destination content) content
    ≡ done (StompError.ok, sent)
of_parts_reads_back_example =
    of_parts_reads_back 7 StompCommand.send (send_headers (bytes "7") destination content) content (
      send-IsSendable (bytes "7") destination content (λ e. cc, omega arith) (λ e. cc, omega arith)
        (omega arith))

parse_frame_iff_example :
    (parse_frame (record blank { plain = sent.plain }) ≡ done sent)
    ↔ (Spells sent.plain sent × (sent.plain ≡ sent.plain))
parse_frame_iff_example = parse_frame_iff (record blank { plain = sent.plain }) sent

parse_frame-ne-out_of_fuel_example : parse_frame sent ≢ out_of_fuel
parse_frame-ne-out_of_fuel_example = parse_frame-ne-out_of_fuel sent

validate_frame_iff_example : (validate_frame 7 sent ≡ StompError.ok) ↔ (
    (sent.command ≢ StompCommand.invalid)
    × HasRequired sent
    × StatesLength 7 (lookup StompHeader.content_length sent.headers) 3)
validate_frame_iff_example = validate_frame_iff 7 sent

-- The text ends behind the colon of its first header.
abbrev cut : StompFrame
cut = record blank { plain = bytes "SEND\nid:" }

parse_frame_throws_iff_example : (parse_frame cut ≡ throws) ↔ IsCut cut.plain
parse_frame_throws_iff_example = parse_frame_throws_iff cut

cut_spelled :
    bytes "SEND\nid:"
    ≡ Command.to_string StompCommand.send
      ++ (b'\n' ∷ (Header.to_string StompHeader.id ++ (b':' ∷ [])))
unfolding Command.to_string Header.to_string lookup
cut_spelled = refl

-- It is left by an exception.
parse_cut : parse_frame cut ≡ throws
unfolding header_lines
parse_cut = (parse_frame_throws_iff cut).1 (record {
  command = StompCommand.send;
  lines = [];
  last = StompHeader.id;
  known = λ e. cc;
  lines_valid = tt;
  last_valid = λ e. cc;
  text_is = cut_spelled;
})

-- 2 ^ 64
abbrev too_long : Bytes
too_long = bytes "18446744073709551616"

abbrev overflowing : StompFrame
overflowing = record {
  plain = frame_text StompCommand.error ((StompHeader.content_length, too_long) ∷ []) [] [];
  command = StompCommand.error;
  headers = (StompHeader.content_length, too_long) ∷ [];
  body = [];
}

overflows : from_chars too_long ≡ out_of_range
unfolding from_chars
overflows = refl

stated : lookup StompHeader.content_length overflowing.headers ≡ some too_long
unfolding lookup
stated = refl

overflowing-Spells : Spells overflowing.plain overflowing
unfolding collect lookup stoi from_chars emplace
overflowing-Spells = record {
  lines = overflowing.headers;
  trailing = [];
  text_is = refl;
  known = λ e. cc;
  lines_valid = ((λ e. cc, λ e. cc, omega arith), tt);
  headers_are = refl;
  body_valid = refl;
  trailing_valid = tt;
}

content_length_overflow_example :
    (overflowing.body ≡ [])
    × (of_text 7 overflowing.plain
        ≡ done (StompError.validation_content_length_mismatch, overflowing))
content_length_overflow_example =
    content_length_overflow 7 overflowing.plain too_long overflowing overflowing-Spells tt stated
      overflows

sent-IsSendable : IsSendable StompCommand.send sent.headers content
sent-IsSendable =
    send-IsSendable (bytes "7") destination content (λ e. cc, omega arith) (λ e. cc, omega arith)
      (omega arith)

headers_are : sent.headers ≡ collect [] sent.headers
unfolding collect decimal digits_onto emplace
headers_are = refl

body_valid : IsBody sent.headers sent.body
unfolding lookup stoi from_chars decimal digits_onto
body_valid = refl

parsed_sent : parse_frame (record blank { plain = sent.plain }) ≡ done sent
parsed_sent = (parse_frame_iff (record blank { plain = sent.plain }) sent).1 (
  record {
    lines = sent.headers;
    trailing = [];
    text_is = refl;
    known = λ e. cc;
    lines_valid = sent-IsSendable.lines_valid;
    headers_are = headers_are;
    body_valid = body_valid;
    trailing_valid = tt;
  },
  refl,
)

from_chars-decimal_example : from_chars (decimal 90210) ≡ value 90210
from_chars-decimal_example = from_chars-decimal 90210 (omega arith)

decimal_90210 : decimal 90210 ≡ bytes "90210"
unfolding decimal digits_onto
decimal_90210 = refl
