-- ===== src/Stomp/Frame/Lines.antt =====
-- The header lines of a frame: what the loop of `ParseFrame` reads, and what it writes into the map.
use live_transport_network_m.Base.{
  ℕ, zero, suc, ◌<◌, ◌≤◌, ◌≡◌, ◌≢◌, refl, ap, ◌∙◌, arith, false, Bool-cases, Option-cases, inl, inr,
  [], ◌∷◌, ◌++◌, Bytes, split, split-append, split_sound, Lacks, All, length, length-append,
  emplace, ◌==◌, nat_eq,
}
use live_transport_network_m.Stomp.Header
use live_transport_network_m.Stomp.Header.{StompHeader, to_header, header_eq}
use live_transport_network_m.Stomp.Names.{to_header-to_string, to_string-to_header}
use live_transport_network_m.Stomp.Outcome.{done, out_of_fuel, >>=-eq-done, >>=-ne-out_of_fuel}
use live_transport_network_m.Stomp.Frame.{
  Headers, colon, new_line, header_value, header_line, header_loop, header_lines,
}

-- A header line that the protocol admits.
abbrev pub IsLine : StompHeader × Bytes → Type 0
IsLine (h, v) = (h ≢ StompHeader.invalid) × (v ≢ []) × Lacks new_line v

-- The map after the lines: the first line of each header counts.
unfoldable pub collect : Headers → Headers → Headers
collect acc [] = acc
collect acc ((h, v) ∷ ls) = collect (emplace h v acc) ls

pub name-Lacks-colon :
    (h : StompHeader) → h ≢ StompHeader.invalid → Lacks colon (Header.to_string h)
unfolding Header.to_string
name-Lacks-colon StompHeader.invalid ne = absurd (ne refl)
name-Lacks-colon _ ne = omega arith

pub not_invalid : (h : StompHeader) → h ≢ StompHeader.invalid → (h == StompHeader.invalid) ≡ false
not_invalid h ne = ground (arith, header_eq.beq_iff h StompHeader.invalid)

header_value_complete :
    (v rest : Bytes)
    → v ≢ []
    → Lacks new_line v
    → header_value (v ++ (new_line ∷ rest)) ≡ done (v, rest)
unfolding header_value
header_value_complete [] rest ne h = absurd (ne refl)
header_value_complete (c ∷ cs) rest ne h = ground (arith, split-append new_line (c ∷ cs) rest h)

header_value_sound :
    (text v rest : Bytes)
    → header_value text ≡ done (v, rest)
    → (text ≡ v ++ (new_line ∷ rest)) × (v ≢ []) × Lacks new_line v × (length rest < length text)
unfolding header_value
header_value_sound [] v rest e = cc
header_value_sound (c ∷ cs) v rest e = elim (Option-cases (split new_line (c ∷ cs))) [
  | inl absent ↦ ground arith
  | inr (p, found) ↦ ground (arith, split_sound new_line (c ∷ cs) p.0 p.1)
]

pub header_line_complete :
    (h : StompHeader) (v rest : Bytes)
    → IsLine (h, v)
    → header_line (Header.to_string h ++ (colon ∷ (v ++ (new_line ∷ rest)))) ≡ done (h, v, rest)
unfolding header_line
header_line_complete h v rest (valid, ne, lacks) = simp (
  split-append colon (Header.to_string h) (v ++ (new_line ∷ rest)) (name-Lacks-colon h valid),
  to_header-to_string,
  not_invalid h valid,
  header_value_complete v rest ne lacks,
)

pub header_line_sound :
    (text v rest : Bytes) (h : StompHeader)
    → header_line text ≡ done (h, v, rest)
    → (text ≡ Header.to_string h ++ (colon ∷ (v ++ (new_line ∷ rest))))
      × IsLine (h, v)
      × (length rest < length text)
unfolding header_line
header_line_sound text v rest h e = elim (Option-cases (split colon text)) [
  | inl absent ↦ ground arith
  | inr (p, found) ↦ ground (
    arith,
    split_sound colon text p.0 p.1,
    header_value_sound p.1 v rest,
    to_string-to_header p.0,
    header_eq.beq_iff (to_header p.0) StompHeader.invalid,
  )
]

-- A name starts with a byte that ends no loop.
pub name-ne-nil :
    (h : StompHeader) (rest : Bytes)
    → (c : ℕ) × (cs : Bytes) × (Header.to_string h ++ rest ≡ c ∷ cs) × (c ≢ new_line)
unfolding Header.to_string
name-ne-nil StompHeader.invalid rest = (_, _, refl, omega arith)
name-ne-nil _ rest = (_, _, refl, omega arith)

-- One round of the loop, on a line that is read.
pub header_loop_step :
    (fuel : ℕ) (acc : Headers) (text : Bytes) (c : ℕ) (cs : Bytes)
    (line : StompHeader × Bytes × Bytes)
    → text ≡ c ∷ cs
    → c ≢ new_line
    → header_line text ≡ done line
    → header_loop (suc fuel) acc text ≡ header_loop fuel (emplace line.0 line.1 acc) line.2
unfolding header_loop
header_loop_step fuel acc text c cs line e ne found = rw e (ground (arith, (rw e at found)))

pub header_loop_complete :
    (ls acc : Headers) (fuel : ℕ) (rest : Bytes)
    → All IsLine ls
    → length (header_lines ls (new_line ∷ rest)) ≤ fuel
    → header_loop fuel acc (header_lines ls (new_line ∷ rest))
      ≡ done (collect acc ls, new_line ∷ rest)
unfolding header_lines collect
header_loop_complete [] acc zero rest h bound = absurd (omega arith)
header_loop_complete [] acc (suc fuel) rest h bound = unfold header_loop in refl
header_loop_complete ((h, v) ∷ ls) acc zero rest (valid, more) bound =
    let (c, cs, e, ne) =
      name-ne-nil h (colon ∷ (v ++ (new_line ∷ header_lines ls (new_line ∷ rest)))) in
    absurd (omega (arith, ap (length {A = ℕ}) e))
header_loop_complete ((h, v) ∷ ls) acc (suc fuel) rest (valid, more) bound =
    let after = header_lines ls (new_line ∷ rest) in
    let (c, cs, e, ne) = name-ne-nil h (colon ∷ (v ++ (new_line ∷ after))) in
    header_loop_step fuel acc _ c cs (h, v, after) e ne (header_line_complete h v after valid)
    ∙ header_loop_complete ls (emplace h v acc) fuel rest more (
        omega (
          arith,
          length-append (Header.to_string h) (colon ∷ (v ++ (new_line ∷ after))),
          length-append v (new_line ∷ after),
        ))

pub header_loop_sound :
    (fuel : ℕ) (acc hs : Headers) (text rest : Bytes)
    → header_loop fuel acc text ≡ done (hs, rest)
    → (ls : Headers) × All IsLine ls × (text ≡ header_lines ls rest) × (hs ≡ collect acc ls)
unfolding header_loop header_lines collect
header_loop_sound zero acc hs text rest e = cc
header_loop_sound (suc fuel) acc hs [] rest e = ([], tt, ground arith, ground arith)
header_loop_sound (suc fuel) acc hs (c ∷ cs) rest e = elim (Bool-cases (c == new_line)) [
  | inl ends ↦ ([], tt, ground arith, ground arith)
  | inr more ↦
      let ((h, v, after), read, later) = >>=-eq-done (header_line (c ∷ cs)) _ (rw more at e) in
      let (ls, valid, text_is, hs_is) =
        header_loop_sound fuel (emplace h v acc) hs after rest later in
      let line = header_line_sound (c ∷ cs) v after h read in
      ((h, v) ∷ ls, (line.1, valid), rw text_is at line.0, hs_is)
]

header_line-ne-out_of_fuel : (text : Bytes) → header_line text ≢ out_of_fuel
unfolding header_line header_value
header_line-ne-out_of_fuel text = ground arith

pub header_loop-ne-out_of_fuel :
    (fuel : ℕ) (acc : Headers) (text : Bytes)
    → length text < fuel
    → header_loop fuel acc text ≢ out_of_fuel
unfolding header_loop
header_loop-ne-out_of_fuel zero acc text h = absurd (omega arith)
header_loop-ne-out_of_fuel (suc fuel) acc [] h = λ e. cc
header_loop-ne-out_of_fuel (suc fuel) acc (c ∷ cs) h = elim (Bool-cases (c == new_line)) [
  | inl ends ↦ rw ends (λ e. cc)
  | inr more ↦ rw more (
      >>=-ne-out_of_fuel (header_line (c ∷ cs)) _ (header_line-ne-out_of_fuel (c ∷ cs)) λ line read.
        header_loop-ne-out_of_fuel fuel (emplace line.0 line.1 acc) line.2
          (omega (arith, (header_line_sound (c ∷ cs) line.1 line.2 line.0 read).2)))
]
