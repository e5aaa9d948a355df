-- ===== src/Stomp/Command.antt =====
-- `StompCommand` and its names: inc/network-monitor/StompFrame.h and src/StompFrame.cpp.
use live_transport_network_m.Base.{
  ℕ, ◌≡◌, refl, none, some, List, [], ◌∷◌, Bytes, bytes, bytes_eq, Eq, code_beq_iff, nat_beq,
  lookup, get_elem?, transpose,
}

pub data StompCommand : Type 0 where
  invalid abort ack begin commit connect connected disconnect error : StompCommand
  message nack receipt send stomp subscribe unsubscribe : StompCommand

-- The number of the enumerator.
abbrev pub code : StompCommand → ℕ
code invalid = 0
code abort = 1
code ack = 2
code begin = 3
code commit = 4
code connect = 5
code connected = 6
code disconnect = 7
code error = 8
code message = 9
code nack = 10
code receipt = 11
code send = 12
code stomp = 13
code subscribe = 14
code unsubscribe = 15

abbrev pub enumerators : List StompCommand
enumerators =
    invalid ∷ abort ∷ ack ∷ begin ∷ commit ∷ connect ∷ connected ∷ disconnect ∷ error ∷ message
    ∷ nack ∷ receipt ∷ send ∷ stomp ∷ subscribe ∷ unsubscribe ∷ []

pub decode-code : (x : StompCommand) → get_elem? enumerators (code x) ≡ some x
decode-code invalid = refl
decode-code _ = refl

instance abbrev pub command_eq : Eq StompCommand
command_eq = record {
  beq = λ a b. nat_beq (code a) (code b);
  beq_iff = code_beq_iff code (get_elem? enumerators) decode-code;
}

-- The table of names.
abbrev pub command_strings : List (StompCommand × Bytes)
command_strings =
    (abort, bytes "ABORT")
    ∷ (ack, bytes "ACK")
    ∷ (begin, bytes "BEGIN")
    ∷ (commit, bytes "COMMIT")
    ∷ (connect, bytes "CONNECT")
    ∷ (connected, bytes "CONNECTED")
    ∷ (disconnect, bytes "DISCONNECT")
    ∷ (error, bytes "ERROR")
    ∷ (message, bytes "MESSAGE")
    ∷ (nack, bytes "NACK")
    ∷ (receipt, bytes "RECEIPT")
    ∷ (send, bytes "SEND")
    ∷ (stomp, bytes "STOMP")
    ∷ (subscribe, bytes "SUBSCRIBE")
    ∷ (unsubscribe, bytes "UNSUBSCRIBE")
    ∷ []

unfoldable pub to_string : StompCommand → Bytes
unfolding lookup
to_string x = elim (lookup x command_strings) [ none ↦ bytes "StompCommand::kInvalid" | some s ↦ s ]

unfoldable pub to_command : Bytes → StompCommand
to_command s = elim (lookup s (transpose command_strings)) [ none ↦ invalid | some x ↦ x ]
