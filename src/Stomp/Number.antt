-- ===== src/Stomp/Number.antt =====
-- `StoI` of src/StompFrame.cpp, with `std::from_chars` on a `size_t` as the standard states it.
use live_transport_network_m.Base.{
  ℕ, ◌+◌, ◌-◌, ◌*◌, ◌^◌, Bool, true, false, ◌&&◌, [], ◌∷◌, Bytes, ltb, leb, if◌then◌else◌,
}

abbrev pub size_mod : ℕ
size_mod = 2 ^ 64

pub data Conversion : Type 0 where
  invalid_argument out_of_range : Conversion
  value : ℕ → Conversion

unfoldable pub is_digit : ℕ → Bool
is_digit c = leb b'0' c && leb c b'9'

-- The number that the digits at the front of the text spell, behind those read before.
unfoldable pub digits_value : ℕ → Bytes → ℕ
unfolding is_digit
digits_value acc [] = acc
digits_value acc (c ∷ cs) =
    let rest = digits_value (10 * acc + (c - b'0')) cs in if is_digit c then rest else acc

-- The longest run of digits at the front is read. With none there the conversion fails, and a
-- number past the type's range leaves the result as it was.
unfoldable pub from_chars : Bytes → Conversion
unfolding digits_value
from_chars [] = invalid_argument
from_chars (c ∷ cs) =
    if is_digit c
    then (if ltb (digits_value 0 (c ∷ cs)) size_mod
        then value (digits_value 0 (c ∷ cs))
        else out_of_range)
    else invalid_argument

-- `StoI(string, result)`: the flag that is returned, and `result` afterwards. Only the code
-- `invalid_argument` counts as a failure.
unfoldable pub stoi : Bytes → ℕ → Bool × ℕ
unfolding from_chars
stoi s result = elim (from_chars s) [
  | invalid_argument ↦ (false, result)
  | out_of_range ↦ (true, result)
  | value n ↦ (true, n)
]
