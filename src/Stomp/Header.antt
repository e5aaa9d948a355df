-- ===== src/Stomp/Header.antt =====
-- `StompHeader` and its names: inc/network-monitor/StompFrame.h and src/StompFrame.cpp.
use live_transport_network_m.Base.{
  ℕ, ◌≡◌, refl, none, some, List, [], ◌∷◌, Bytes, bytes, bytes_eq, Eq, code_beq_iff, nat_beq,
  lookup, get_elem?, transpose,
}

pub data StompHeader : Type 0 where
  invalid accept_version ack content_length content_type destination : StompHeader
  heart_beat host id login message message_id passcode receipt : StompHeader
  receipt_id session subscription transaction server version : StompHeader

-- The number of the enumerator.
abbrev pub code : StompHeader → ℕ
code invalid = 0
code accept_version = 1
code ack = 2
code content_length = 3
code content_type = 4
code destination = 5
code heart_beat = 6
code host = 7
code id = 8
code login = 9
code message = 10
code message_id = 11
code passcode = 12
code receipt = 13
code receipt_id = 14
code session = 15
code subscription = 16
code transaction = 17
code server = 18
code version = 19

abbrev pub enumerators : List StompHeader
enumerators =
    invalid ∷ accept_version ∷ ack ∷ content_length ∷ content_type ∷ destination ∷ heart_beat ∷ host
    ∷ id ∷ login ∷ message ∷ message_id ∷ passcode ∷ receipt ∷ receipt_id ∷ session ∷ subscription
    ∷ transaction ∷ server ∷ version ∷ []

pub decode-code : (x : StompHeader) → get_elem? enumerators (code x) ≡ some x
decode-code invalid = refl
decode-code _ = refl

instance abbrev pub header_eq : Eq StompHeader
header_eq = record {
  beq = λ a b. nat_beq (code a) (code b);
  beq_iff = code_beq_iff code (get_elem? enumerators) decode-code;
}

-- The table of names.
abbrev pub header_strings : List (StompHeader × Bytes)
header_strings =
    (accept_version, bytes "accept-version")
    ∷ (ack, bytes "ack")
    ∷ (content_length, bytes "content-length")
    ∷ (content_type, bytes "content-type")
    ∷ (destination, bytes "destination")
    ∷ (heart_beat, bytes "heart-beat")
    ∷ (host, bytes "host")
    ∷ (id, bytes "id")
    ∷ (login, bytes "login")
    ∷ (message, bytes "message")
    ∷ (message_id, bytes "message-id")
    ∷ (passcode, bytes "passcode")
    ∷ (receipt, bytes "receipt")
    ∷ (receipt_id, bytes "receipt-id")
    ∷ (session, bytes "session")
    ∷ (subscription, bytes "subscription")
    ∷ (transaction, bytes "transaction")
    ∷ (server, bytes "server")
    ∷ (version, bytes "version")
    ∷ []

unfoldable pub to_string : StompHeader → Bytes
unfolding lookup
to_string x = elim (lookup x header_strings) [ none ↦ bytes "StompHeader::kInvalid" | some s ↦ s ]

unfoldable pub to_header : Bytes → StompHeader
to_header s = elim (lookup s (transpose header_strings)) [ none ↦ invalid | some x ↦ x ]
