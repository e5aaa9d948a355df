-- ===== src/Stomp/Outcome.antt =====
-- How a call in src/StompFrame.cpp can end: with a result, with an error code, or by an exception
-- that leaves it. `out_of_fuel` is the model's own, and no call of the program ends so.
use native.Mathlib.Omega.{arith}
use live_transport_network_m.Base.{
  ◌≡◌, ◌≢◌, ◌⊎◌, inl, inr, refl, Option, none, some, Bool, true, false,
}
use live_transport_network_m.Stomp.Errors.{StompError}

pub data Outcome {ℓ} (A : Type ℓ) : Type ℓ where
  done : A → Outcome A
  fail : StompError → Outcome A
  throws : Outcome A
  out_of_fuel : Outcome A

infixl 5 ◌>>=◌ ◌>>◌
abbrev pub ◌>>=◌ {ℓ κ} : {A : Type ℓ} {B : Type κ} → Outcome A → (A → Outcome B) → Outcome B
done a >>= f = f a
fail e >>= f = fail e
throws >>= f = throws
out_of_fuel >>= f = out_of_fuel

abbrev pub ◌>>◌ {ℓ} : {B : Type ℓ} → Outcome (Unit {0}) → Outcome B → Outcome B
m >> k = m >>= λ _. k

abbrev pub fail_if : Bool → StompError → Outcome (Unit {0})
fail_if true e = fail e
fail_if false e = done tt

abbrev pub or_fail {ℓ} : {A : Type ℓ} → Option A → StompError → Outcome A
or_fail none e = fail e
or_fail (some a) e = done a

-- Inversion of a successful chain.
pub >>=-eq-done {ℓ κ} :
    {A : Type ℓ} {B : Type κ} (m : Outcome A) (f : A → Outcome B) {b : B}
    → (m >>= f) ≡ done b
    → (a : A) × (m ≡ done a) × (f a ≡ done b)
>>=-eq-done (done a) f h = (a, refl, h)
>>=-eq-done (fail e) f h = cc
>>=-eq-done throws f h = cc
>>=-eq-done out_of_fuel f h = cc

pub >>=-ne-out_of_fuel {ℓ κ} :
    {A : Type ℓ} {B : Type κ} (m : Outcome A) (f : A → Outcome B)
    → m ≢ out_of_fuel
    → ((a : A) → m ≡ done a → f a ≢ out_of_fuel)
    → (m >>= f) ≢ out_of_fuel
>>=-ne-out_of_fuel (done a) f h k = k a refl
>>=-ne-out_of_fuel (fail e) f h k = λ e. cc
>>=-ne-out_of_fuel throws f h k = λ e. cc
>>=-ne-out_of_fuel out_of_fuel f h k = absurd (h refl)

module _ {ℓ} {A : Type ℓ} where
  pub done-injective : {a b : A} → done a ≡ done b → a ≡ b
  done-injective e = cc

  pub or_fail-eq-done : (o : Option A) (e : StompError) {a : A} → or_fail o e ≡ done a → o ≡ some a
  or_fail-eq-done o e h = ground arith

-- Inversion of a chain that an exception leaves.
pub >>=-eq-throws {ℓ κ} :
    {A : Type ℓ} {B : Type κ} (m : Outcome A) (f : A → Outcome B)
    → (m >>= f) ≡ throws
    → (m ≡ throws) ⊎ ((a : A) × (m ≡ done a) × (f a ≡ throws))
>>=-eq-throws (done a) f h = inr (a, refl, h)
>>=-eq-throws (fail e) f h = cc
>>=-eq-throws throws f h = inl refl
>>=-eq-throws out_of_fuel f h = cc
