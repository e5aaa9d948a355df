-- ===== src/Stomp/Frame.antt =====
-- `StompFrame`: src/StompFrame.cpp. A cursor into the text (`headerLineStart`, `bodyStart`) is the
-- part of the text that stands behind it, and `find` with the `substr` up to it is `split`.
pub mod Lines
pub mod Body
pub mod Parse
pub mod Validate
pub mod Exceptions
pub mod RoundTrip
pub mod Overflow
use live_transport_network_m.Base.{
  ℕ, zero, suc, Bool, true, false, not, ◌&&◌, Option, none, some, [], ◌∷◌, ◌++◌, Bytes, split,
  length, take, drop, get_elem?, lookup, emplace, Assoc, ltb, ◌==◌, nat_eq, if◌then◌else◌,
}
use live_transport_network_m.Stomp.Command
use live_transport_network_m.Stomp.Command.{StompCommand, to_command, command_eq}
use live_transport_network_m.Stomp.Header
use live_transport_network_m.Stomp.Header.{StompHeader, to_header, header_eq}
use live_transport_network_m.Stomp.Errors.{StompError}
use live_transport_network_m.Stomp.Number.{stoi}
use live_transport_network_m.Stomp.Outcome.{
  Outcome, done, fail, throws, out_of_fuel, ◌>>=◌, ◌>>◌, fail_if, or_fail,
}

abbrev pub null : ℕ
null = 0

abbrev pub colon : ℕ
colon = b':'

abbrev pub new_line : ℕ
new_line = b'\n'

abbrev pub Headers : Type 0
Headers = Assoc StompHeader Bytes

pub record StompFrame : Type 0 where
  pub plain : Bytes
  pub command : StompCommand
  pub headers : Headers
  pub body : Bytes

-- `StompFrame()`
abbrev pub blank : StompFrame
blank = record { plain = []; command = StompCommand.invalid; headers = []; body = [] }

unfoldable pub has_header : StompFrame → StompHeader → Bool
has_header f h = elim (lookup h f.headers) [ none ↦ false | some v ↦ true ]

unfoldable pub get_header_value : StompFrame → StompHeader → Bytes
get_header_value f h = elim (lookup h f.headers) [ none ↦ [] | some v ↦ v ]

-- The value of a header, from behind the colon: `plain.at(valueStart)` throws at the end of the
-- text.
unfoldable pub header_value : Bytes → Outcome (Bytes × Bytes)
header_value [] = throws
header_value (c ∷ cs) = do
  fail_if (c == new_line) StompError.parsing_empty_header_value
  or_fail (split new_line (c ∷ cs)) StompError.parsing_missing_eol_after_header_value

-- One line `header:value`, and the text behind its end.
unfoldable pub header_line : Bytes → Outcome (StompHeader × Bytes × Bytes)
header_line text = do
  found ← or_fail (split colon text) StompError.parsing_missing_colon_in_header
  let header = to_header found.0
  fail_if (header == StompHeader.invalid) StompError.parsing_unrecognized_header
  line ← header_value found.1
  done (header, line.0, line.1)

-- The `while` loop over the header lines. A header that is in the map already is skipped.
unfoldable pub header_loop : ℕ → Headers → Bytes → Outcome (Headers × Bytes)
header_loop zero headers text = out_of_fuel
header_loop (suc fuel) headers [] = done (headers, [])
header_loop (suc fuel) headers (c ∷ cs) =
    let rest =
      header_line (c ∷ cs) >>= λ line. header_loop fuel (emplace line.0 line.1 headers) line.2 in
    if c == new_line then done (headers, c ∷ cs) else rest

-- The blank line, and the text behind it.
unfoldable pub blank_line : Bytes → Outcome Bytes
blank_line [] = fail StompError.parsing_missing_blank_line_after_headers
blank_line (c ∷ cs) =
    if c == new_line then done cs else fail StompError.parsing_missing_blank_line_after_headers

-- A body of the length that a `content-length` header states.
unfoldable pub counted_body : Bool × ℕ → Bytes → Outcome (Bytes × Bytes)
counted_body (ok, body_length) rest = do
  fail_if (not ok) StompError.parsing_invalid_content_length
  fail_if (body_length == length rest) StompError.parsing_missing_null_in_body
  fail_if (ltb (length rest) body_length) StompError.parsing_content_length_exceeds_frame_length
  elim (get_elem? rest body_length) [
    | none ↦ throws
    | some c ↦
        if c == null
        then done (take body_length rest, drop (suc body_length) rest)
        else fail StompError.parsing_missing_null_in_body
  ]

-- The body, and the text behind the NULL octet.
unfoldable pub read_body : Headers → Bytes → Outcome (Bytes × Bytes)
read_body headers rest = elim (lookup StompHeader.content_length headers) [
  | none ↦ or_fail (split null rest) StompError.parsing_missing_null_in_body
  | some v ↦ counted_body (stoi v 0) rest
]

unfoldable pub only_new_lines : Bytes → Bool
only_new_lines [] = true
only_new_lines (c ∷ cs) = c == new_line && only_new_lines cs

-- `ParseFrame`: the members change only where the result is `kOk`. A header line takes at least one
-- byte, so the length of the text is fuel enough.
unfoldable pub parse_frame : StompFrame → Outcome StompFrame
parse_frame f = do
  first ← or_fail (split new_line f.plain) StompError.parsing_missing_eol_after_command
  let command = to_command first.0
  fail_if (command == StompCommand.invalid) StompError.parsing_unrecognized_command
  top ← header_loop (suc (length first.1)) [] first.1
  rest ← blank_line top.1
  parts ← read_body top.0 rest
  fail_if (not (only_new_lines parts.1)) StompError.parsing_junk_after_body
  done (record f { command = command; headers = top.0; body = parts.0 })

-- The switch of `ValidateFrame` over the command, given `HasHeader`; `none` is its default branch.
unfoldable pub has_all_headers : (StompHeader → Bool) → StompCommand → Option Bool
has_all_headers has StompCommand.connect =
    some (has StompHeader.accept_version && has StompHeader.host)
has_all_headers has StompCommand.stomp =
    some (has StompHeader.accept_version && has StompHeader.host)
has_all_headers has StompCommand.connected = some (has StompHeader.version)
has_all_headers has StompCommand.send = some (has StompHeader.destination)
has_all_headers has StompCommand.subscribe =
    some (has StompHeader.destination && has StompHeader.id)
has_all_headers has StompCommand.unsubscribe = some (has StompHeader.id)
has_all_headers has StompCommand.ack = some (has StompHeader.id)
has_all_headers has StompCommand.nack = some (has StompHeader.id)
has_all_headers has StompCommand.begin = some (has StompHeader.transaction)
has_all_headers has StompCommand.commit = some (has StompHeader.transaction)
has_all_headers has StompCommand.abort = some (has StompHeader.transaction)
has_all_headers has StompCommand.disconnect = some true
has_all_headers has StompCommand.message =
    some (has StompHeader.destination && has StompHeader.message_id && has StompHeader.subscription)
has_all_headers has StompCommand.receipt = some (has StompHeader.receipt_id)
has_all_headers has StompCommand.error = some true
has_all_headers has StompCommand.invalid = none

unfoldable pub stated_length_error : Bool × ℕ → StompFrame → StompError
stated_length_error (ok, stated) f =
    if ok
    then (if stated == length f.body
        then StompError.ok
        else StompError.validation_content_length_mismatch)
    else StompError.validation_invalid_content_length

-- The check of the stated length. `stoi` leaves its result alone where the number is out of range,
-- and `length` is not initialised: `indeterminate` is the value that it happens to hold.
unfoldable pub length_error : ℕ → StompFrame → StompError
length_error indeterminate f =
    if has_header f StompHeader.content_length
    then stated_length_error (stoi (get_header_value f StompHeader.content_length) indeterminate) f
    else StompError.ok

-- `ValidateFrame`
unfoldable pub validate_frame : ℕ → StompFrame → StompError
validate_frame indeterminate f = elim (has_all_headers (has_header f) f.command) [
  | none ↦ StompError.validation_invalid_command
  | some has_all ↦
      if has_all then length_error indeterminate f else StompError.validation_missing_header
]

-- `ParseAndValidateFrame`, with the error code and the frame that it leaves.
unfoldable pub parse_and_validate : ℕ → StompFrame → Outcome (StompError × StompFrame)
parse_and_validate indeterminate f = elim (parse_frame f) [
  | done f' ↦ done (validate_frame indeterminate f', f')
  | fail e ↦ done (e, f)
  | throws ↦ throws
  | out_of_fuel ↦ out_of_fuel
]

-- `StompFrame(ec, frame)`
unfoldable pub of_text : ℕ → Bytes → Outcome (StompError × StompFrame)
of_text indeterminate text = parse_and_validate indeterminate (record blank { plain = text })

unfoldable pub header_lines : Headers → Bytes → Bytes
header_lines [] rest = rest
header_lines ((h, v) ∷ hs) rest =
    Header.to_string h ++ (colon ∷ (v ++ (new_line ∷ header_lines hs rest)))

unfoldable pub frame_text : StompCommand → Headers → Bytes → Bytes → Bytes
frame_text c hs body rest =
    Command.to_string c ++ (new_line ∷ header_lines hs (new_line ∷ (body ++ (null ∷ rest))))

-- `StompFrame(ec, command, headers, body)`, the headers in the order in which the map is iterated.
unfoldable pub of_parts : ℕ → StompCommand → Headers → Bytes → Outcome (StompError × StompFrame)
of_parts indeterminate c hs body = of_text indeterminate (frame_text c hs body [])
