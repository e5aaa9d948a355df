-- ===== src/Server/Frames.antt =====
-- The frames that the server makes are valid, in whatever order the maps are iterated:
-- inc/network-monitor/StompServer.h.
use live_transport_network_m.Base.{
  ◌<◌, ◌≡◌, ◌≢◌, refl, sym, ◌∙◌, arith, [], ◌∷◌, Bytes, bytes, All, All-weaken, Lacks, length,
  lookup, lookup-All, Distinct, entries_found, subst,
}
use live_transport_network_m.Server.Errors
use live_transport_network_m.Server.Errors.{StompServerError}
use live_transport_network_m.Server.{Environment, make_error_frame, send_frame, version}
use live_transport_network_m.Stomp.Command.{StompCommand}
use live_transport_network_m.Stomp.Decimal.{decimal, decimal_fits_line, from_chars-decimal}
use live_transport_network_m.Stomp.Errors.{StompError}
use live_transport_network_m.Stomp.Frame.{StompFrame, Headers, new_line, frame_text, of_parts}
use live_transport_network_m.Stomp.Frame.Lines.{IsLine}
use live_transport_network_m.Stomp.Frame.RoundTrip.{IsSendable, AdmitsFor, of_parts_reads_back}
use live_transport_network_m.Stomp.Frame.Validate.{required}
use live_transport_network_m.Stomp.Header.{StompHeader, header_eq}
use live_transport_network_m.Stomp.Number.{size_mod}
use live_transport_network_m.Stomp.Outcome.{done}

-- What iterating a map gives: each of its entries, once.
pub record IsIteration (iterate : Headers → Headers) : Type 0 where
  pub same : (hs : Headers) (h : StompHeader) → lookup h (iterate hs) ≡ lookup h hs
  pub distinct : (hs : Headers) → Distinct hs → Distinct (iterate hs)

module _ (iterate : Headers → Headers) (it : IsIteration iterate) where
  lines-iterate : (hs : Headers) → Distinct hs → All IsLine hs → All IsLine (iterate hs)
  lines-iterate hs d lines =
      All-weaken (iterate hs)
        (λ p found. lookup-All IsLine p.0 p.1 hs lines (sym (it.same hs p.0) ∙ found))
        (entries_found (iterate hs) (it.distinct hs d))

  pub IsSendable-iterate :
      (c : StompCommand) (hs : Headers) (body : Bytes)
      → IsSendable c hs body
      → IsSendable c (iterate hs) body
  IsSendable-iterate c hs body s = record {
    known = s.known;
    lines_valid = lines-iterate hs s.distinct s.lines_valid;
    distinct = it.distinct hs s.distinct;
    body_fits =
        subst (λ o. AdmitsFor o body) (sym (it.same hs StompHeader.content_length)) s.body_fits;
    has_required = All-weaken (required c) (λ h ne e. ne (sym (it.same hs h) ∙ e)) s.has_required;
  }

-- The frame of the given parts, with its headers as they are iterated.
abbrev pub frame_of : Environment → StompCommand → Headers → Bytes → StompFrame
frame_of env c hs body = record {
  plain = frame_text c (env.iterate hs) body [];
  command = c;
  headers = env.iterate hs;
  body = body;
}

module _ (env : Environment) (it : IsIteration env.iterate) where
  pub of_parts-iterate :
      (c : StompCommand) (hs : Headers) (body : Bytes)
      → IsSendable c hs body
      → of_parts env.indeterminate c (env.iterate hs) body
        ≡ done (StompError.ok, frame_of env c hs body)
  of_parts-iterate c hs body s =
      of_parts_reads_back env.indeterminate c (env.iterate hs) body
        (IsSendable-iterate env.iterate it c hs body s)

-- A text that can stand as the value of a header.
abbrev pub FitsLine : Bytes → Type 0
FitsLine v = (v ≢ []) × Lacks new_line v

abbrev pub connected_headers : Bytes → Headers
connected_headers id = (StompHeader.version, version) ∷ (StompHeader.session, id) ∷ []

pub connected-IsSendable :
    (id : Bytes) → FitsLine id → IsSendable StompCommand.connected (connected_headers id) []
unfolding lookup
connected-IsSendable id fits = record {
  known = λ e. cc;
  lines_valid = ((λ e. cc, λ e. cc, omega arith), ((λ e. cc, fits.0, fits.1), tt));
  distinct = ((refl, tt), (tt, tt));
  body_fits = tt;
  has_required = (λ e. cc, tt);
}

abbrev pub error_headers : Headers
error_headers = (StompHeader.content_type, bytes "text/plain") ∷ (StompHeader.version, version) ∷ []

error_text_fits : (e : StompServerError) → Lacks 0 (Errors.to_string e)
unfolding Errors.to_string
error_text_fits StompServerError.ok = omega arith
error_text_fits _ = omega arith

error-IsSendable :
    (e : StompServerError) → IsSendable StompCommand.error error_headers (Errors.to_string e)
unfolding lookup
error-IsSendable e = record {
  known = λ e. cc;
  lines_valid = ((λ e. cc, λ e. cc, omega arith), ((λ e. cc, λ e. cc, omega arith), tt));
  distinct = ((refl, tt), (tt, tt));
  body_fits = error_text_fits e;
  has_required = tt;
}

abbrev pub send_headers : Bytes → Bytes → Bytes → Headers
send_headers request_id destination content =
    (StompHeader.id, request_id)
    ∷ (StompHeader.destination, destination)
    ∷ (StompHeader.content_type, bytes "application/json")
    ∷ (StompHeader.content_length, decimal (length content))
    ∷ []

pub send-IsSendable :
    (request_id destination content : Bytes)
    → FitsLine request_id
    → FitsLine destination
    → length content < size_mod
    → IsSendable StompCommand.send (send_headers request_id destination content) content
unfolding lookup
send-IsSendable request_id destination content r d bound = record {
  known = λ e. cc;
  lines_valid = (
    (λ e. cc, r.0, r.1),
    (
      (λ e. cc, d.0, d.1),
      (
        (λ e. cc, λ e. cc, omega arith),
        (
          (λ e. cc, (decimal_fits_line (length content)).0, (decimal_fits_line (length content)).1),
          tt,
        ),
      ),
    ),
  );
  distinct = ((refl, (refl, (refl, tt))), ((refl, (refl, tt)), ((refl, tt), (tt, tt))));
  body_fits = from_chars-decimal (length content) bound;
  has_required = (λ e. cc, tt);
}

module _ (env : Environment) (it : IsIteration env.iterate) where
  pub make_error_frame_lem :
      (e : StompServerError)
      → make_error_frame env e
        ≡ done (frame_of env StompCommand.error error_headers (Errors.to_string e))
  unfolding make_error_frame
  make_error_frame_lem e = rw (
      of_parts-iterate env it StompCommand.error error_headers (Errors.to_string e)
        (error-IsSendable e))

  -- The frame of `Send` is valid for a request id and a destination that can stand in headers and a
  -- content whose length fits a `size_t`, and has the content as its body.
  pub send_frame_lem :
      (request_id destination content : Bytes)
      → FitsLine request_id
      → FitsLine destination
      → length content < size_mod
      → send_frame env request_id destination content
        ≡ done (
          StompError.ok,
          frame_of env StompCommand.send (send_headers request_id destination content) content,
        )
  unfolding send_frame
  send_frame_lem request_id destination content r d bound =
      of_parts-iterate env it StompCommand.send (send_headers request_id destination content)
        content (send-IsSendable request_id destination content r d bound)
