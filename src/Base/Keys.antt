-- ===== src/Base/Keys.antt =====
-- Keys that the program compares with `==`: numbers, texts and enumerations.
use mathlib.Core.Path.{◌≡◌, refl, ap}
use mathlib.Core.Logic.{◌↔◌}
use mathlib.Core.Bool.{Bool, true, false, ◌&&◌}
use mathlib.Core.List.{List, [], ◌∷◌}
use mathlib.Core.Option.{Option, some}
use Prim.Native.Nat.{ℕ}
use native.Mathlib.Omega.{arith}
use live_transport_network_m.Base.Tests.{nat_beq, nat_beq_iff}

abbrev pub list_beq {ℓ} : {A : Type ℓ} → (A → A → Bool) → List A → List A → Bool
list_beq f [] [] = true
list_beq f (x ∷ xs) (y ∷ ys) = f x y && list_beq f xs ys
list_beq f xs ys = false

-- A key type: a test that says exactly whether two keys are the same.
pub record Eq {κ} (K : Type κ) : Type κ where
  pub beq : K → K → Bool
  pub beq_iff : (x y : K) → (beq x y ≡ true) ↔ (x ≡ y)

pub list_beq_iff {ℓ} :
    {A : Type ℓ} (e : Eq A) (xs ys : List A) → (list_beq e.beq xs ys ≡ true) ↔ (xs ≡ ys)
list_beq_iff e [] [] = (λ _. refl, λ _. refl)
list_beq_iff e (x ∷ xs) (y ∷ ys) = ground (arith, e.beq_iff x y, list_beq_iff e xs ys)
list_beq_iff e xs ys = ground arith

instance abbrev pub nat_eq : Eq ℕ
nat_eq = record { beq_iff = nat_beq_iff; beq = nat_beq }

infix 50 ◌==◌
abbrev pub ◌==◌ {κ} : {K : Type κ} ⦃k : Eq K⦄ → K → K → Bool
◌==◌ ⦃k⦄ = k.beq

-- An enumeration is compared by the number of its constructor.
pub code_beq_iff {ℓ} :
    {A : Type ℓ} (code : A → ℕ) (decode : ℕ → Option A)
    → ((a : A) → decode (code a) ≡ some a)
    → (a b : A) → (nat_beq (code a) (code b) ≡ true) ↔ (a ≡ b)
code_beq_iff code decode h a b = (
  λ e. injective (h a) (h b) (ap decode ((nat_beq_iff (code a) (code b)).0 e)),
  λ p. (nat_beq_iff (code a) (code b)).1 (ap code p),
)
  where
    injective : {o p : Option _} → o ≡ some a → p ≡ some b → o ≡ p → a ≡ b
    injective u v w = cc
