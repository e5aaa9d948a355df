-- ===== src/Base/Lists.antt =====
-- Lists measured and indexed by native numbers, under the library's names.
use Prim.Native.Nat.{ℕ, zero, suc, ◌+◌, ◌<◌}
use mathlib.Core.Path.{◌≡◌, refl, ap, subst}
use mathlib.Core.List.{List, [], ◌∷◌, ◌++◌}
use mathlib.Core.Option.{Option, none, some}
use mathlib.Core.Logic.{◌≢◌, ◌⊎◌, inl, inr}
use native.Mathlib.Omega.{arith}

-- A predicate by recursion computes to tuples, which the tactics read and build.
abbrev pub All {ℓ κ} : {A : Type ℓ} → (A → Type κ) → List A → Type κ
All P [] = Unit
All P (x ∷ xs) = P x × All P xs

pub All-append {ℓ κ} :
    {A : Type ℓ} (P : A → Type κ) (xs ys : List A) → All P xs → All P ys → All P (xs ++ ys)
All-append P [] ys hx hy = hy
All-append P (x ∷ xs) ys hx hy = (hx.0, All-append P xs ys hx.1 hy)

pub All-weaken {ℓ κ μ} :
    {A : Type ℓ} {P : A → Type κ} {Q : A → Type μ} (xs : List A)
    → ((x : A) → P x → Q x)
    → All P xs
    → All Q xs
All-weaken [] f h = tt
All-weaken (x ∷ xs) f (h, hs) = (f x h, All-weaken xs f hs)

module _ {ℓ} {A : Type ℓ} where
  abbrev pub length : List A → ℕ
  length [] = 0
  length (x ∷ xs) = suc (length xs)

  abbrev pub get_elem? : List A → ℕ → Option A
  get_elem? [] i = none
  get_elem? (x ∷ xs) zero = some x
  get_elem? (x ∷ xs) (suc i) = get_elem? xs i

  abbrev pub take : ℕ → List A → List A
  take zero xs = []
  take (suc n) [] = []
  take (suc n) (x ∷ xs) = x ∷ take n xs

  abbrev pub drop : ℕ → List A → List A
  drop zero xs = xs
  drop (suc n) [] = []
  drop (suc n) (x ∷ xs) = drop n xs

  pub length-append : (xs ys : List A) → length (xs ++ ys) ≡ length xs + length ys
  length-append [] ys = omega arith
  length-append (x ∷ xs) ys = omega (arith, length-append xs ys)

  pub take-append : (xs ys : List A) → take (length xs) (xs ++ ys) ≡ xs
  take-append [] ys = refl
  take-append (x ∷ xs) ys = ap (◌∷◌ x) (take-append xs ys)

  pub drop-append : (xs ys : List A) → drop (length xs) (xs ++ ys) ≡ ys
  drop-append [] ys = refl
  drop-append (x ∷ xs) ys = drop-append xs ys

  pub get_elem?-append :
      (xs : List A) (y : A) (ys : List A) → get_elem? (xs ++ y ∷ ys) (length xs) ≡ some y
  get_elem?-append [] y ys = refl
  get_elem?-append (x ∷ xs) y ys = get_elem?-append xs y ys

  -- An element at index `n` splits the list there.
  pub split_at_get_elem? :
      (n : ℕ) (xs : List A) (y : A)
      → get_elem? xs n ≡ some y
      → (xs ≡ take n xs ++ y ∷ drop (suc n) xs) × (length (take n xs) ≡ n)
  split_at_get_elem? n [] y h = cc
  split_at_get_elem? zero (x ∷ xs) y h = ground arith
  split_at_get_elem? (suc n) (x ∷ xs) y h = ground (arith, split_at_get_elem? n xs y h)

  pub drop-suc-append :
      (xs : List A) (y : A) (ys : List A) → drop (suc (length xs)) (xs ++ y ∷ ys) ≡ ys
  drop-suc-append [] y ys = refl
  drop-suc-append (x ∷ xs) y ys = drop-suc-append xs y ys

  pub get_elem?_of_lt : (n : ℕ) (xs : List A) → n < length xs → get_elem? xs n ≢ none
  get_elem?_of_lt n [] h = absurd (omega arith)
  get_elem?_of_lt zero (x ∷ xs) h = λ e. cc
  get_elem?_of_lt (suc n) (x ∷ xs) h = get_elem?_of_lt n xs (omega arith)

-- Membership, as a place in the list.
infix 40 ◌∈◌
pub data ◌∈◌ {ℓ} {A : Type ℓ} (x : A) : List A → Type ℓ where
  here : {xs : List A} → x ∈ x ∷ xs
  there : {y : A} {xs : List A} → x ∈ xs → x ∈ y ∷ xs

module _ {ℓ} {A : Type ℓ} where
  pub here_of : {x y : A} (xs : List A) → x ≡ y → x ∈ y ∷ xs
  here_of {x} xs e = subst (λ z. x ∈ z ∷ xs) e here

  pub ∈-nil : {x : A} → x ∈ [] → ⊥
  ∈-nil i = elim i [ ]

  pub ∈-append_left : {x : A} (xs ys : List A) → x ∈ xs → x ∈ xs ++ ys
  ∈-append_left (_ ∷ xs) ys here = here
  ∈-append_left (_ ∷ xs) ys (there i) = there (∈-append_left xs ys i)
  ∈-append_left [] ys i = elim i [ ]

  pub ∈-append_right : {x : A} (xs ys : List A) → x ∈ ys → x ∈ xs ++ ys
  ∈-append_right [] ys i = i
  ∈-append_right (_ ∷ xs) ys i = there (∈-append_right xs ys i)

  pub All-∈ {κ} : (P : A → Type κ) (xs : List A) → All P xs → {x : A} → x ∈ xs → P x
  All-∈ P (_ ∷ xs) (h, hs) here = h
  All-∈ P (_ ∷ xs) (h, hs) (there i) = All-∈ P xs hs i
  All-∈ P [] h i = elim i [ ]

  pub ∈-cases : {x y : A} {xs : List A} → x ∈ y ∷ xs → (x ≡ y) ⊎ (x ∈ xs)
  ∈-cases here = inl refl
  ∈-cases (there i) = inr i

pub ∈-All {ℓ κ} : {A : Type ℓ} (P : A → Type κ) (xs : List A) → ((x : A) → x ∈ xs → P x) → All P xs
∈-All P [] h = tt
∈-All P (x ∷ xs) h = (h x here, ∈-All P xs (λ y i. h y (there i)))

-- No element comes twice.
abbrev pub Different {ℓ} : {A : Type ℓ} → List A → Type ℓ
Different [] = Unit
Different (x ∷ xs) = All (λ y. x ≢ y) xs × Different xs

pub Different-append {ℓ} :
    {A : Type ℓ} (xs : List A) (y : A)
    → Different xs
    → All (λ x. x ≢ y) xs
    → Different (xs ++ (y ∷ []))
Different-append [] y d h = (tt, tt)
Different-append (x ∷ xs) y (beside, d) (ne, h) =
    (All-append (λ z. x ≢ z) xs (y ∷ []) beside (ne, tt), Different-append xs y d h)
