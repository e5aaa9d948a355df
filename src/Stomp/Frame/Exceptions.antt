-- ===== src/Stomp/Frame/Exceptions.antt =====
-- The one way in which `ParseFrame` ends by an exception: src/StompFrame.cpp.
use live_transport_network_m.Base.{
  ℕ, zero, suc, ◌≤◌, ◌≡◌, ◌≢◌, ◌↔◌, ap, ◌∙◌, arith, Bool-cases, Option-cases, inl, inr, some, [],
  ◌∷◌, ◌++◌, Bytes, All, length, length-append, get_elem?_of_lt, lookup, emplace, split,
  split-append, split_sound, ◌==◌, nat_eq,
}
use live_transport_network_m.Stomp.Command
use live_transport_network_m.Stomp.Command.{StompCommand, to_command, command_eq}
use live_transport_network_m.Stomp.Header
use live_transport_network_m.Stomp.Header.{StompHeader, to_header, header_eq}
use live_transport_network_m.Stomp.Errors.{StompError}
use live_transport_network_m.Stomp.Names.{
  to_header-to_string, to_string-to_header, to_command-to_string, to_string-to_command,
}
use live_transport_network_m.Stomp.Number.{stoi}
use live_transport_network_m.Stomp.Outcome.{
  throws, or_fail, fail_if, >>=-eq-throws, or_fail-eq-done,
}
use live_transport_network_m.Stomp.Frame.{
  StompFrame, Headers, colon, new_line, header_value, header_line, header_loop, header_lines,
  blank_line, counted_body, read_body, parse_frame,
}
use live_transport_network_m.Stomp.Frame.Parse.{
  name-Lacks-new_line, not_invalid as not_invalid_command, known_of,
}
use live_transport_network_m.Stomp.Frame.Lines.{
  IsLine, name-Lacks-colon, not_invalid, name-ne-nil, header_loop_step, header_line_complete,
  header_line_sound,
}

-- The text ends right behind the colon of a header.
abbrev pub cut_line : StompHeader → Bytes
cut_line h = Header.to_string h ++ (colon ∷ [])

header_line_throws : (h : StompHeader) → h ≢ StompHeader.invalid → header_line (cut_line h) ≡ throws
unfolding header_line header_value
header_line_throws h valid = simp (
  split-append colon (Header.to_string h) [] (name-Lacks-colon h valid),
  to_header-to_string,
  not_invalid h valid,
)

header_line_throws_inv :
    (text : Bytes)
    → header_line text ≡ throws
    → (h : StompHeader) × (h ≢ StompHeader.invalid) × (text ≡ cut_line h)
unfolding header_line header_value
header_line_throws_inv text e = elim (Option-cases (split colon text)) [
  | inl absent ↦ ground arith
  | inr (p, found) ↦ (
    to_header p.0,
    ground (arith, header_eq.beq_iff (to_header p.0) StompHeader.invalid),
    ground (
      arith,
      to_string-to_header p.0,
      header_eq.beq_iff (to_header p.0) StompHeader.invalid,
      split_sound colon text p.0 p.1,
    ),
  )
]

header_loop_leaves :
    (fuel : ℕ) (acc : Headers) (text : Bytes) (c : ℕ) (cs : Bytes)
    → text ≡ c ∷ cs
    → c ≢ new_line
    → header_line text ≡ throws
    → header_loop (suc fuel) acc text ≡ throws
unfolding header_loop
header_loop_leaves fuel acc text c cs e ne found = rw e (ground (arith, rw e at found))

header_loop_throws :
    (ls acc : Headers) (fuel : ℕ) (h : StompHeader)
    → h ≢ StompHeader.invalid
    → All IsLine ls
    → length (header_lines ls (cut_line h)) ≤ fuel
    → header_loop fuel acc (header_lines ls (cut_line h)) ≡ throws
unfolding header_lines
header_loop_throws [] acc zero h valid lines bound =
    let (c, cs, e, ne) = name-ne-nil h (colon ∷ []) in absurd (omega (arith, ap (length {A = ℕ}) e))
header_loop_throws [] acc (suc fuel) h valid lines bound =
    let (c, cs, e, ne) = name-ne-nil h (colon ∷ []) in
    header_loop_leaves fuel acc (cut_line h) c cs e ne (header_line_throws h valid)
header_loop_throws ((j, v) ∷ ls) acc zero h valid lines bound =
    let (c, cs, e, ne) = name-ne-nil j (colon ∷ (v ++ (new_line ∷ header_lines ls (cut_line h)))) in
    absurd (omega (arith, ap (length {A = ℕ}) e))
header_loop_throws ((j, v) ∷ ls) acc (suc fuel) h valid (line, lines) bound =
    let after = header_lines ls (cut_line h) in
    let (c, cs, e, ne) = name-ne-nil j (colon ∷ (v ++ (new_line ∷ after))) in
    header_loop_step fuel acc _ c cs (j, v, after) e ne (header_line_complete j v after line)
    ∙ header_loop_throws ls (emplace j v acc) fuel h valid lines (
        omega (
          arith,
          length-append (Header.to_string j) (colon ∷ (v ++ (new_line ∷ after))),
          length-append v (new_line ∷ after),
        ))

header_loop_throws_inv :
    (fuel : ℕ) (acc : Headers) (text : Bytes)
    → header_loop fuel acc text ≡ throws
    → (ls : Headers) × (h : StompHeader) × All IsLine ls
      × (h ≢ StompHeader.invalid)
      × (text ≡ header_lines ls (cut_line h))
unfolding header_loop header_lines
header_loop_throws_inv zero acc text e = cc
header_loop_throws_inv (suc fuel) acc [] e = cc
header_loop_throws_inv (suc fuel) acc (c ∷ cs) e = elim (Bool-cases (c == new_line)) [
  | inl ends ↦ ground arith
  | inr more ↦ elim (>>=-eq-throws (header_line (c ∷ cs)) _ (rw more at e)) [
    | inl cut ↦
        let (h, valid, text_is) = header_line_throws_inv (c ∷ cs) cut in ([], h, tt, valid, text_is)
    | inr (line, read, later) ↦
        let (ls, h, lines, valid, text_is) =
          header_loop_throws_inv fuel (emplace line.0 line.1 acc) line.2 later in
        let first = header_line_sound (c ∷ cs) line.1 line.2 line.0 read in
        ((line.0, line.1) ∷ ls, h, (first.1, lines), valid, rw text_is at first.0)
  ]
]

read_body-ne-throws : (headers : Headers) (rest : Bytes) → read_body headers rest ≢ throws
unfolding read_body counted_body
read_body-ne-throws headers rest = elim (Option-cases (lookup StompHeader.content_length headers)) [
  | inl absent ↦ rw (absent, read_body) (ground arith)
  | inr (v, found) ↦ rw (found, read_body) (ground (arith, get_elem?_of_lt (stoi v 0).1 rest))
]

-- A text that ends right behind the colon of a header line, all before it being in order.
pub record IsCut (text : Bytes) : Type 0 where
  pub command : StompCommand
  pub lines : Headers
  pub last : StompHeader
  pub known : command ≢ StompCommand.invalid
  pub lines_valid : All IsLine lines
  pub last_valid : last ≢ StompHeader.invalid
  pub text_is : text ≡ Command.to_string command ++ (new_line ∷ header_lines lines (cut_line last))

blank_line-ne-throws : (text : Bytes) → blank_line text ≢ throws
unfolding blank_line
blank_line-ne-throws [] = λ e. cc
blank_line-ne-throws (c ∷ cs) = ground arith

cut_throws : (f : StompFrame) → IsCut f.plain → parse_frame f ≡ throws
unfolding parse_frame
cut_throws f s =
    let below = header_lines s.lines (cut_line s.last) in
    simp (
      s.text_is,
      split-append new_line (Command.to_string s.command) below (name-Lacks-new_line s.command),
      to_command-to_string,
      not_invalid_command s.command s.known,
      header_loop_throws s.lines [] (suc (length below)) s.last s.last_valid s.lines_valid
          (omega arith),
    )

of_loop :
    (f : StompFrame) (name below : Bytes)
    → split new_line f.plain ≡ some (name, below)
    → to_command name ≢ StompCommand.invalid
    → header_loop (suc (length below)) [] below ≡ throws
    → IsCut f.plain
of_loop f name below found known e =
    let (ls, h, lines, valid, below_is) = header_loop_throws_inv (suc (length below)) [] below e in
    record {
      command = to_command name;
      lines = ls;
      last = h;
      known = known;
      lines_valid = lines;
      last_valid = valid;
      text_is = ground (arith, split_sound new_line f.plain name below, to_string-to_command name);
    }

throws-IsCut : (f : StompFrame) → parse_frame f ≡ throws → IsCut f.plain
unfolding parse_frame
throws-IsCut f e =
    elim (>>=-eq-throws
      (or_fail (split new_line f.plain) StompError.parsing_missing_eol_after_command) _ e) [
        | inl absurd_fail ↦ ground arith
        | inr (first, found, e₁) ↦
            elim (>>=-eq-throws
              (fail_if (to_command first.0 == StompCommand.invalid)
                StompError.parsing_unrecognized_command)
              _ e₁) [
                | inl absurd_fail ↦ ground arith
                | inr (_, known, e₂) ↦
                    elim (>>=-eq-throws (header_loop (suc (length first.1)) [] first.1) _ e₂) [
                      | inl cut ↦
                          of_loop f first.0 first.1
                            (or_fail-eq-done (split new_line f.plain)
                              StompError.parsing_missing_eol_after_command found)
                            (known_of first.0 known) cut
                      | inr (top, _, e₃) ↦ elim (>>=-eq-throws (blank_line top.1) _ e₃) [
                        | inl left ↦ absurd (blank_line-ne-throws top.1 left)
                        | inr (rest, _, e₄) ↦ elim (>>=-eq-throws (read_body top.0 rest) _ e₄) [
                          | inl left ↦ absurd (read_body-ne-throws top.0 rest left)
                          | inr (parts, _, e₅) ↦ ground arith
                        ]
                      ]
                    ]
              ]
      ]

-- The constructor from a text is left by an exception (`std::out_of_range`, of `plain.at`) exactly
-- where the text is a known command, header lines in order, and one more known header with its
-- colon as the very last byte.
pub parse_frame_throws_iff : (f : StompFrame) → (parse_frame f ≡ throws) ↔ IsCut f.plain
parse_frame_throws_iff f = (throws-IsCut f, cut_throws f)
