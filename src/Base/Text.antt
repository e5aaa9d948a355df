-- ===== src/Base/Text.antt =====
-- Texts as lists of bytes, and the searches of `std::string_view`.
use Prim.Native.Char.{code}
use Prim.Native.String.{String}
use Prim.Native.Nat.{ℕ, ◌<◌}
use mathlib.Core.Path.{◌≡◌}
use mathlib.Core.Logic.{◌≢◌, inl, inr}
use mathlib.Core.List.{List, [], ◌∷◌, ◌++◌}
use mathlib.Core.Option
use mathlib.Core.Option.{Option, none, some}
use native.Mathlib.Omega.{arith}
use live_transport_network_m.Base.Tests.{Option-cases, if◌then◌else◌, nat_beq}
use live_transport_network_m.Base.Lists.{All, length}
use live_transport_network_m.Base.Keys.{Eq, ◌==◌, nat_eq, list_beq, list_beq_iff}

abbrev pub Bytes : Type 0
Bytes = List ℕ

instance abbrev pub bytes_eq : Eq Bytes
bytes_eq = record { beq = list_beq nat_beq; beq_iff = list_beq_iff nat_eq }

-- The bytes of an ASCII literal.
abbrev pub bytes : String → Bytes
bytes String.[] = []
bytes (String.◌∷◌ c s) = code c ∷ bytes s

-- `s.find(c)`, as the text before the first `c` and the text behind it; `none` is `npos`.
unfoldable pub split : ℕ → Bytes → Option (Bytes × Bytes)
split c [] = none
split c (x ∷ xs) = if x == c then some ([], xs) else Option.map (λ p. (x ∷ p.0, p.1)) (split c xs)

-- No byte of the text is `c`.
abbrev pub Lacks : ℕ → Bytes → Type 0
Lacks c = All (λ x. x ≢ c)

pub split-append :
    (c : ℕ) (xs rest : Bytes) → Lacks c xs → split c (xs ++ c ∷ rest) ≡ some (xs, rest)
unfolding split
split-append c [] rest h = ground arith
split-append c (x ∷ xs) rest h = ground (arith, split-append c xs rest h.1)

pub split_sound :
    (c : ℕ) (s xs rest : Bytes)
    → split c s ≡ some (xs, rest)
    → (s ≡ xs ++ c ∷ rest) × Lacks c xs × (length rest < length s)
unfolding split
split_sound c [] xs rest h = cc
split_sound c (x ∷ s) xs rest h = elim (Option-cases (split c s)) [
  | inl no_more ↦ ground arith
  | inr (p, e) ↦ ground (arith, split_sound c s p.0 p.1)
]
