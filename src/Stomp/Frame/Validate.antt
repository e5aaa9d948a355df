-- ===== src/Stomp/Frame/Validate.antt =====
-- `ValidateFrame`, and what it can still find in a frame that was parsed: src/StompFrame.cpp.
use live_transport_network_m.Base.{
  ℕ, ◌≡◌, ◌≢◌, ◌↔◌, refl, arith, Bool, true, Option, none, some, List, [], ◌∷◌, Bytes, All, length,
  lookup, nat_eq,
}
use live_transport_network_m.Stomp.Command.{StompCommand}
use live_transport_network_m.Stomp.Header.{StompHeader, header_eq}
use live_transport_network_m.Stomp.Errors.{StompError}
use live_transport_network_m.Stomp.Number.{stoi}
use live_transport_network_m.Stomp.Frame.{
  StompFrame, has_header, get_header_value, has_all_headers, length_error, stated_length_error,
  validate_frame,
}

-- The headers that STOMP 1.2 requires of each command.
abbrev pub required : StompCommand → List StompHeader
required StompCommand.connect = StompHeader.accept_version ∷ StompHeader.host ∷ []
required StompCommand.stomp = StompHeader.accept_version ∷ StompHeader.host ∷ []
required StompCommand.connected = StompHeader.version ∷ []
required StompCommand.send = StompHeader.destination ∷ []
required StompCommand.subscribe = StompHeader.destination ∷ StompHeader.id ∷ []
required StompCommand.unsubscribe = StompHeader.id ∷ []
required StompCommand.ack = StompHeader.id ∷ []
required StompCommand.nack = StompHeader.id ∷ []
required StompCommand.begin = StompHeader.transaction ∷ []
required StompCommand.commit = StompHeader.transaction ∷ []
required StompCommand.abort = StompHeader.transaction ∷ []
required StompCommand.message =
    StompHeader.destination ∷ StompHeader.message_id ∷ StompHeader.subscription ∷ []
required StompCommand.receipt = StompHeader.receipt_id ∷ []
required StompCommand.disconnect = []
required StompCommand.error = []
required StompCommand.invalid = []

abbrev pub HasRequired : StompFrame → Type 0
HasRequired f = All (λ h. lookup h f.headers ≢ none) (required f.command)

-- The stated length, where one is stated, is read as that of the body.
abbrev pub StatesLength : ℕ → Option Bytes → ℕ → Type 0
StatesLength indeterminate none n = Unit
StatesLength indeterminate (some v) n = ◌≡◌ {A = Bool × ℕ} (stoi v indeterminate) (true, n)

pub has_all_headers_iff :
    (has : StompHeader → Bool) (c : StompCommand)
    → (has_all_headers has c ≡ some true)
      ↔ ((c ≢ StompCommand.invalid) × All (λ h. has h ≡ true) (required c))
unfolding has_all_headers
has_all_headers_iff has StompCommand.invalid = ground arith
has_all_headers_iff has _ = ground arith

stated_length_error_iff :
    (flag : Bool) (n : ℕ) (f : StompFrame)
    → (stated_length_error (flag, n) f ≡ StompError.ok)
      ↔ (◌≡◌ {A = Bool × ℕ} (flag, n) (true, length f.body))
unfolding stated_length_error
stated_length_error_iff flag n f = ground arith

length_error_iff :
    (indeterminate : ℕ) (f : StompFrame) (o : Option Bytes)
    → lookup StompHeader.content_length f.headers ≡ o
    → (length_error indeterminate f ≡ StompError.ok) ↔ StatesLength indeterminate o (length f.body)
unfolding length_error has_header get_header_value
length_error_iff i f none e = ground arith
length_error_iff i f (some v) e =
    ground (arith, stated_length_error_iff (stoi v i).0 (stoi v i).1 f)

has_header_iff :
    (f : StompFrame) (h : StompHeader) → (has_header f h ≡ true) ↔ (lookup h f.headers ≢ none)
unfolding has_header
has_header_iff f h = ground arith

pub All-present_iff :
    (f : StompFrame) (hs : List StompHeader)
    → All (λ h. has_header f h ≡ true) hs ↔ All (λ h. lookup h f.headers ≢ none) hs
All-present_iff f [] = (λ _. tt, λ _. tt)
All-present_iff f (h ∷ hs) = (
  λ a. ((has_header_iff f h).0 a.0, (All-present_iff f hs).0 a.1),
  λ a. ((has_header_iff f h).1 a.0, (All-present_iff f hs).1 a.1),
)

-- `ValidateFrame` returns `kOk` exactly for a known command with all the headers that STOMP
-- requires of it and a `content-length`, if any, that is read as the length of the body.
pub validate_frame_iff :
    (indeterminate : ℕ) (f : StompFrame)
    → (validate_frame indeterminate f ≡ StompError.ok) ↔ (
        (f.command ≢ StompCommand.invalid)
        × HasRequired f
        × StatesLength indeterminate (lookup StompHeader.content_length f.headers) (length f.body))
unfolding validate_frame
validate_frame_iff i f = ground (
  arith,
  has_all_headers_iff (has_header f) f.command,
  All-present_iff f (required f.command),
  length_error_iff i f (lookup StompHeader.content_length f.headers) refl,
)
