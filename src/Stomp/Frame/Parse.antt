-- ===== src/Stomp/Frame/Parse.antt =====
-- `ParseFrame` decides the grammar of a frame: src/StompFrame.cpp.
use live_transport_network_m.Base.{
  suc, ◌≡◌, ◌≢◌, ◌↔◌, sym, ap, subst, ◌∙◌, arith, false, not, Option-cases, inl, inr, [], ◌∷◌, ◌++◌,
  Bytes, split, split-append, split_sound, Lacks, All, length, ◌==◌, nat_eq,
}
use live_transport_network_m.Stomp.Command
use live_transport_network_m.Stomp.Command.{StompCommand, to_command, command_eq}
use live_transport_network_m.Stomp.Errors.{StompError}
use live_transport_network_m.Stomp.Names.{to_command-to_string, to_string-to_command}
use live_transport_network_m.Stomp.Outcome.{
  done, out_of_fuel, fail_if, or_fail, >>=-eq-done, or_fail-eq-done, done-injective,
}
use live_transport_network_m.Stomp.Frame.{
  StompFrame, Headers, null, new_line, header_loop, header_lines, blank_line, counted_body,
  read_body, only_new_lines, parse_frame, frame_text,
}
use live_transport_network_m.Stomp.Frame.Lines.{
  IsLine, collect, header_loop_complete, header_loop_sound, header_loop-ne-out_of_fuel,
}
use live_transport_network_m.Stomp.Frame.Body.{
  IsBody, read_body_complete, read_body_sound, only_new_lines_iff,
}

-- What the parser should accept, as the text of a command, of header lines, of a body and of what
-- stands behind the NULL octet, with the members that the frame then has.
pub record Spells (text : Bytes) (g : StompFrame) : Type 0 where
  pub lines : Headers
  pub trailing : Bytes
  pub text_is : text ≡ frame_text g.command lines g.body trailing
  pub known : g.command ≢ StompCommand.invalid
  pub lines_valid : All IsLine lines
  pub headers_are : g.headers ≡ collect [] lines
  pub body_valid : IsBody g.headers g.body
  pub trailing_valid : All (λ c. c ≡ new_line) trailing

pub name-Lacks-new_line : (c : StompCommand) → Lacks new_line (Command.to_string c)
unfolding Command.to_string
name-Lacks-new_line StompCommand.invalid = omega arith
name-Lacks-new_line _ = omega arith

pub not_invalid :
    (c : StompCommand) → c ≢ StompCommand.invalid → (c == StompCommand.invalid) ≡ false
not_invalid c ne = ground (arith, command_eq.beq_iff c StompCommand.invalid)

pub parse_complete :
    (f g : StompFrame) → Spells f.plain g → parse_frame f ≡ done (record g { plain = f.plain })
unfolding parse_frame frame_text blank_line
parse_complete f g s =
    let after = g.body ++ (null ∷ trailing) in
    let below = header_lines lines (new_line ∷ after) in
    simp (
      text_is,
      split-append new_line (Command.to_string g.command) below (name-Lacks-new_line g.command),
      to_command-to_string,
      not_invalid g.command known,
      header_loop_complete lines [] (suc (length below)) after lines_valid (omega arith),
      ← headers_are,
      read_body_complete g.headers g.body trailing body_valid,
      (only_new_lines_iff trailing).1 trailing_valid,
    )
  where
    open s use {
      lines, trailing, text_is, known, lines_valid, headers_are, body_valid, trailing_valid,
    }

pub known_of :
    (name : Bytes)
    → fail_if (to_command name == StompCommand.invalid) StompError.parsing_unrecognized_command
      ≡ done tt
    → to_command name ≢ StompCommand.invalid
known_of name e = ground (arith, command_eq.beq_iff (to_command name) StompCommand.invalid)

blank_line_sound : (text rest : Bytes) → blank_line text ≡ done rest → text ≡ new_line ∷ rest
unfolding blank_line
blank_line_sound [] rest e = cc
blank_line_sound (c ∷ cs) rest e = ground arith

assemble :
    (f : StompFrame) (name below : Bytes) (hs : Headers) (text rest body trailing : Bytes)
    → or_fail (split new_line f.plain) StompError.parsing_missing_eol_after_command
      ≡ done (name, below)
    → fail_if (to_command name == StompCommand.invalid) StompError.parsing_unrecognized_command
      ≡ done tt
    → header_loop (suc (length below)) [] below ≡ done (hs, text)
    → blank_line text ≡ done rest
    → read_body hs rest ≡ done (body, trailing)
    → fail_if (not (only_new_lines trailing)) StompError.parsing_junk_after_body ≡ done tt
    → Spells f.plain (record f { command = to_command name; headers = hs; body = body })
unfolding frame_text
assemble f name below hs text rest body trailing e₁ e₂ e₃ e₄ e₅ e₆ =
    let first =
      split_sound new_line f.plain name below (
        or_fail-eq-done (split new_line f.plain) StompError.parsing_missing_eol_after_command e₁) in
    let known = known_of name e₂ in
    let (ls, valid, below_is, hs_is) = header_loop_sound (suc (length below)) [] hs below text e₃ in
    let read = read_body_sound hs rest body trailing e₅ in
    record {
      lines = ls;
      trailing = trailing;
      text_is = ground (arith, to_string-to_command name known, blank_line_sound text rest e₄);
      known = known;
      lines_valid = valid;
      headers_are = hs_is;
      body_valid = read.1;
      trailing_valid = (only_new_lines_iff trailing).0 (ground arith);
    }

pub parse_sound :
    (f g : StompFrame) → parse_frame f ≡ done g → Spells f.plain g × (g.plain ≡ f.plain)
unfolding parse_frame
parse_sound f g e =
    let (first, e₁, r₁) =
      >>=-eq-done (or_fail (split new_line f.plain) StompError.parsing_missing_eol_after_command) _
        e in
    let (_, e₂, r₂) =
      >>=-eq-done
        (fail_if (to_command first.0 == StompCommand.invalid)
          StompError.parsing_unrecognized_command)
        _ r₁ in
    let (top, e₃, r₃) = >>=-eq-done (header_loop (suc (length first.1)) [] first.1) _ r₂ in
    let (rest, e₄, r₄) = >>=-eq-done (blank_line top.1) _ r₃ in
    let (parts, e₅, r₅) = >>=-eq-done (read_body top.0 rest) _ r₄ in
    let (_, e₆, r₆) =
      >>=-eq-done (fail_if (not (only_new_lines parts.1)) StompError.parsing_junk_after_body) _
        r₅ in
    let spelled = assemble f first.0 first.1 top.0 top.1 rest parts.0 parts.1 e₁ e₂ e₃ e₄ e₅ e₆ in
    let same = done-injective r₆ in
    (subst (Spells f.plain) same spelled, ap (λ (x : StompFrame). x.plain) (sym same))

-- The loop over the header lines always ends within its fuel, whatever the text.
pub parse_frame-ne-out_of_fuel : (f : StompFrame) → parse_frame f ≢ out_of_fuel
unfolding parse_frame blank_line read_body counted_body
parse_frame-ne-out_of_fuel f = elim (Option-cases (split new_line f.plain)) [
  | inl absent ↦ rw absent (λ e. cc)
  | inr (first, found) ↦
      rw found (ground (arith, header_loop-ne-out_of_fuel (suc (length first.1)) [] first.1))
]

pub with_plain : (f g : StompFrame) → g.plain ≡ f.plain → record g { plain = f.plain } ≡ g
with_plain f g same = ground arith

-- `ParseFrame` succeeds exactly on the texts that spell a frame, and leaves exactly the members
-- that they spell, the text itself untouched: a known command, lines of known headers with values
-- that are not empty, the first value of each header, a body that ends at the stated length or at
-- the first NULL octet, and nothing but new lines behind it.
pub parse_frame_iff :
    (f g : StompFrame) → (parse_frame f ≡ done g) ↔ (Spells f.plain g × (g.plain ≡ f.plain))
parse_frame_iff f g =
    (parse_sound f g, λ (s, same). parse_complete f g s ∙ ap done (with_plain f g same))
