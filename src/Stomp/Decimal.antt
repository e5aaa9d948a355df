-- ===== src/Stomp/Decimal.antt =====
-- `std::to_string` on a `size_t`, as the program writes a `content-length`, and `from_chars` back.
use live_transport_network_m.Base.{
  ℕ, zero, suc, ◌+◌, ◌*◌, ◌/◌, ◌%◌, ◌<◌, ◌≡◌, refl, ◌∙◌, ap, arith, true, Bool-cases, inl, inr, [],
  ◌∷◌, Bytes, ltb, if◌then◌else◌, All, All-weaken, Lacks, ◌≢◌,
}
use live_transport_network_m.Stomp.Number.{size_mod, is_digit, digits_value, from_chars, value}

-- The digits of `n` in front of the text. Each round divides by ten, so `n + 1` rounds are enough.
unfoldable pub digits_onto : ℕ → ℕ → Bytes → Bytes
digits_onto zero n text = text
digits_onto (suc fuel) n text =
    let rest = digits_onto fuel (n / 10) ((b'0' + n % 10) ∷ text) in
    if ltb n 10 then (b'0' + n) ∷ text else rest

unfoldable pub decimal : ℕ → Bytes
decimal n = digits_onto (suc n) n []

is_digit_add : (d : ℕ) → d < 10 → is_digit (b'0' + d) ≡ true
unfolding is_digit
is_digit_add d h = ground arith

read_digit :
    (m d : ℕ) (text : Bytes)
    → d < 10
    → digits_value m ((b'0' + d) ∷ text) ≡ digits_value (10 * m + d) text
unfolding digits_value
read_digit m d text h = rw (is_digit_add d h) (ap (λ k. digits_value k text) (omega arith))

digits_value-digits_onto :
    (fuel n : ℕ) (text : Bytes)
    → n < fuel
    → digits_value 0 (digits_onto fuel n text) ≡ digits_value n text
unfolding digits_onto
digits_value-digits_onto zero n text h = absurd (omega arith)
digits_value-digits_onto (suc fuel) n text h = elim (Bool-cases (ltb n 10)) [
  | inl last ↦
      rw last (read_digit 0 n text (ground arith) ∙ ap (λ k. digits_value k text) (omega arith))
  | inr more ↦ rw more (
      digits_value-digits_onto fuel (n / 10) _ (ground arith)
      ∙ read_digit (n / 10) (n % 10) text (omega arith)
      ∙ ap (λ k. digits_value k text) (omega arith))
]

-- The text starts with a digit.
abbrev StartsWithDigit : Bytes → Type 0
StartsWithDigit [] = ⊥
StartsWithDigit (c ∷ cs) = is_digit c ≡ true

digits_onto_starts :
    (fuel n : ℕ) (text : Bytes) → n < fuel → StartsWithDigit (digits_onto fuel n text)
unfolding digits_onto is_digit
digits_onto_starts zero n text h = absurd (omega arith)
digits_onto_starts (suc fuel) n text h = elim (Bool-cases (ltb n 10)) [
  | inl last ↦ rw last (ground arith)
  | inr more ↦ rw more (digits_onto_starts fuel (n / 10) _ (ground arith))
]

from_chars_digits :
    (s : Bytes) (n : ℕ)
    → StartsWithDigit s
    → digits_value 0 s ≡ n
    → n < size_mod
    → from_chars s ≡ value n
unfolding from_chars
from_chars_digits [] n h e bound = elim h [ ]
from_chars_digits (c ∷ cs) n h e bound = ground arith

read_nothing : (n : ℕ) → digits_value n [] ≡ n
unfolding digits_value
read_nothing n = refl

-- A length that fits a `size_t` is read back as it was written.
pub from_chars-decimal : (n : ℕ) → n < size_mod → from_chars (decimal n) ≡ value n
unfolding decimal
from_chars-decimal n h =
    from_chars_digits (decimal n) n (digits_onto_starts (suc n) n [] (omega arith))
      (digits_value-digits_onto (suc n) n [] (omega arith) ∙ read_nothing n) h

digits_onto_digits :
    (fuel n : ℕ) (text : Bytes)
    → All (λ c. is_digit c ≡ true) text
    → All (λ c. is_digit c ≡ true) (digits_onto fuel n text)
unfolding digits_onto
digits_onto_digits zero n text h = h
digits_onto_digits (suc fuel) n text h = elim (Bool-cases (ltb n 10)) [
  | inl last ↦ rw last (is_digit_add n (ground arith), h)
  | inr more ↦ rw more (digits_onto_digits fuel (n / 10) _ (is_digit_add (n % 10) (omega arith), h))
]

not_new_line : (c : ℕ) → is_digit c ≡ true → c ≢ b'\n'
unfolding is_digit
not_new_line c h = ground arith

StartsWithDigit-ne-nil : (s : Bytes) → StartsWithDigit s → s ≢ []
StartsWithDigit-ne-nil [] h = absurd h
StartsWithDigit-ne-nil (c ∷ cs) h = λ e. cc

-- It can stand as the value of a header.
pub decimal_fits_line : (n : ℕ) → (decimal n ≢ []) × Lacks b'\n' (decimal n)
unfolding decimal
decimal_fits_line n = (
  StartsWithDigit-ne-nil (decimal n) (digits_onto_starts (suc n) n [] (omega arith)),
  All-weaken (decimal n) not_new_line (digits_onto_digits (suc n) n [] tt),
)
