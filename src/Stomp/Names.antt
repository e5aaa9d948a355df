-- ===== src/Stomp/Names.antt =====
-- The names of commands, headers and errors, read and written: src/StompFrame.cpp.
use live_transport_network_m.Base.{
  ◌≡◌, ◌≢◌, refl, some, Bytes, lookup, lookup-All, bytes_eq, All-transpose, transpose, Option-cases,
  inl, inr,
}
use live_transport_network_m.Stomp.Command
use live_transport_network_m.Stomp.Command.{StompCommand, to_command, command_strings}
use live_transport_network_m.Stomp.Header
use live_transport_network_m.Stomp.Header.{StompHeader, to_header, header_strings}
use live_transport_network_m.Stomp.Errors
use live_transport_network_m.Stomp.Errors.{StompError, string_to_error}

pub to_command-to_string : (c : StompCommand) → to_command (Command.to_string c) ≡ c
unfolding to_command Command.to_string lookup transpose
to_command-to_string StompCommand.invalid = refl
to_command-to_string _ = refl

pub to_header-to_string : (h : StompHeader) → to_header (Header.to_string h) ≡ h
unfolding to_header Header.to_string lookup transpose
to_header-to_string StompHeader.invalid = refl
to_header-to_string _ = refl

string_to_error-to_string : (e : StompError) → string_to_error (Errors.to_string e) ≡ e
unfolding string_to_error Errors.to_string lookup transpose
string_to_error-to_string StompError.ok = refl
string_to_error-to_string _ = refl

command_entry :
    (s : Bytes) (x : StompCommand)
    → lookup s (transpose command_strings) ≡ some x
    → Command.to_string x ≡ s
unfolding Command.to_string
command_entry s x =
    lookup-All (λ p. Command.to_string p.1 ≡ p.0) s x (transpose command_strings)
      (All-transpose (λ p. Command.to_string p.1 ≡ p.0) command_strings
        (
          refl,
          (
            refl,
            (
              refl,
              (
                refl,
                (
                  refl,
                  (
                    refl,
                    (refl, (refl, (refl, (refl, (refl, (refl, (refl, (refl, (refl, tt))))))))),
                  ),
                ),
              ),
            ),
          ),
        ))

-- A name that is read as a command is the name that the command is written by.
pub to_string-to_command :
    (s : Bytes) → to_command s ≢ StompCommand.invalid → Command.to_string (to_command s) ≡ s
unfolding to_command
to_string-to_command s h = elim (Option-cases (lookup s (transpose command_strings))) [
  | inl absent ↦ absurd (h (rw (absent, to_command)))
  | inr (x, found) ↦ rw (found, to_command) (command_entry s x found)
]

header_entry :
    (s : Bytes) (x : StompHeader)
    → lookup s (transpose header_strings) ≡ some x
    → Header.to_string x ≡ s
unfolding Header.to_string
header_entry s x =
    lookup-All (λ p. Header.to_string p.1 ≡ p.0) s x (transpose header_strings)
      (All-transpose (λ p. Header.to_string p.1 ≡ p.0) header_strings
        (
          refl,
          (
            refl,
            (
              refl,
              (
                refl,
                (
                  refl,
                  (
                    refl,
                    (
                      refl,
                      (
                        refl,
                        (
                          refl,
                          (
                            refl,
                            (
                              refl,
                              (refl, (refl, (refl, (refl, (refl, (refl, (refl, (refl, tt)))))))),
                            ),
                          ),
                        ),
                      ),
                    ),
                  ),
                ),
              ),
            ),
          ),
        ))

pub to_string-to_header :
    (s : Bytes) → to_header s ≢ StompHeader.invalid → Header.to_string (to_header s) ≡ s
unfolding to_header
to_string-to_header s h = elim (Option-cases (lookup s (transpose header_strings))) [
  | inl absent ↦ absurd (h (rw (absent, to_header)))
  | inr (x, found) ↦ rw (found, to_header) (header_entry s x found)
]
