-- ===== src/Stomp/Errors.antt =====
-- `StompError` and its names: inc/network-monitor/StompFrame.h and src/StompFrame.cpp.
use live_transport_network_m.Base.{
  ℕ, ◌≡◌, refl, none, some, List, [], ◌∷◌, Bytes, bytes, bytes_eq, Eq, code_beq_iff, nat_beq,
  lookup, get_elem?, transpose,
}

pub data StompError : Type 0 where
  ok undefined_error parsing_empty_header_value : StompError
  parsing_content_length_exceeds_frame_length : StompError
  parsing_invalid_content_length parsing_junk_after_body : StompError
  parsing_missing_blank_line_after_headers : StompError
  parsing_missing_colon_in_header parsing_missing_eol_after_command : StompError
  parsing_missing_eol_after_header_value parsing_missing_null_in_body : StompError
  parsing_unrecognized_command parsing_unrecognized_header : StompError
  validation_content_length_mismatch validation_invalid_command : StompError
  validation_invalid_content_length validation_missing_header : StompError

-- The number of the enumerator.
abbrev pub code : StompError → ℕ
code ok = 0
code undefined_error = 1
code parsing_empty_header_value = 2
code parsing_content_length_exceeds_frame_length = 3
code parsing_invalid_content_length = 4
code parsing_junk_after_body = 5
code parsing_missing_blank_line_after_headers = 6
code parsing_missing_colon_in_header = 7
code parsing_missing_eol_after_command = 8
code parsing_missing_eol_after_header_value = 9
code parsing_missing_null_in_body = 10
code parsing_unrecognized_command = 11
code parsing_unrecognized_header = 12
code validation_content_length_mismatch = 13
code validation_invalid_command = 14
code validation_invalid_content_length = 15
code validation_missing_header = 16

abbrev pub enumerators : List StompError
enumerators =
    ok ∷ undefined_error ∷ parsing_empty_header_value ∷ parsing_content_length_exceeds_frame_length
    ∷ parsing_invalid_content_length ∷ parsing_junk_after_body
    ∷ parsing_missing_blank_line_after_headers ∷ parsing_missing_colon_in_header
    ∷ parsing_missing_eol_after_command ∷ parsing_missing_eol_after_header_value
    ∷ parsing_missing_null_in_body ∷ parsing_unrecognized_command ∷ parsing_unrecognized_header
    ∷ validation_content_length_mismatch ∷ validation_invalid_command
    ∷ validation_invalid_content_length ∷ validation_missing_header ∷ []

pub decode-code : (x : StompError) → get_elem? enumerators (code x) ≡ some x
decode-code ok = refl
decode-code _ = refl

instance abbrev pub error_eq : Eq StompError
error_eq = record {
  beq = λ a b. nat_beq (code a) (code b);
  beq_iff = code_beq_iff code (get_elem? enumerators) decode-code;
}

-- The table of names.
abbrev pub error_strings : List (StompError × Bytes)
error_strings =
    (ok, bytes "Ok")
    ∷ (undefined_error, bytes "UndefinedError")
    ∷ (parsing_empty_header_value, bytes "ParsingEmptyHeaderValue")
    ∷ (parsing_content_length_exceeds_frame_length, bytes "ParsingContentLengthExceedsFrameLength")
    ∷ (parsing_invalid_content_length, bytes "ParsingInvalidContentLength")
    ∷ (parsing_junk_after_body, bytes "ParsingJunkAfterBody")
    ∷ (parsing_missing_blank_line_after_headers, bytes "ParsingMissingBlankLineAfterHeaders   ")
    ∷ (parsing_missing_colon_in_header, bytes "ParsingMissingColonInHeader")
    ∷ (parsing_missing_eol_after_command, bytes "ParsingMissingEolAfterCommand")
    ∷ (parsing_missing_eol_after_header_value, bytes "ParsingMissingEolAfterHeaderValue")
    ∷ (parsing_missing_null_in_body, bytes "ParsingMissingNullInBody")
    ∷ (parsing_unrecognized_command, bytes "ParsingUnrecognizedCommand")
    ∷ (parsing_unrecognized_header, bytes "ParsingUnrecognizedHeader")
    ∷ (validation_content_length_mismatch, bytes "ValidationContentLengthMismatch")
    ∷ (validation_invalid_command, bytes "ValidationInvalidCommand")
    ∷ (validation_invalid_content_length, bytes "ValidationInvalidContentLength")
    ∷ (validation_missing_header, bytes "ValidationMissingHeader")
    ∷ []

unfoldable pub to_string : StompError → Bytes
unfolding lookup
to_string x = elim (lookup x error_strings) [ none ↦ bytes "UndefinedError" | some s ↦ s ]

unfoldable pub string_to_error : Bytes → StompError
string_to_error s = elim (lookup s (transpose error_strings)) [
  | none ↦ undefined_error
  | some x ↦ x
]
