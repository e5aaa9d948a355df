-- ===== src/Base/Maps.antt =====
-- `std::unordered_map` as an association list. The order of the entries stands for the order, not
-- specified, in which the map is iterated.
use mathlib.Core.Path.{◌≡◌, refl, subst}
use mathlib.Core.Bool.{true, false}
use mathlib.Core.Logic.{inl, inr}
use mathlib.Core.List.{List, [], ◌∷◌, ◌++◌}
use mathlib.Core.Option.{Option, none, some}
use native.Mathlib.Omega.{arith}
use live_transport_network_m.Base.Tests.{Bool-cases, if◌then◌else◌}
use live_transport_network_m.Base.Lists.{All}
use live_transport_network_m.Base.Keys.{Eq, ◌==◌}

-- The right view of a `boost::bimap`: the pairs the other way round.
unfoldable pub transpose {ℓ} : {K V : Type ℓ} → List (K × V) → List (V × K)
transpose [] = []
transpose ((k, v) ∷ m) = (v, k) ∷ transpose m

pub All-transpose {ℓ κ} :
    {K V : Type ℓ} (P : V × K → Type κ) (m : List (K × V))
    → All (λ p. P (p.1, p.0)) m
    → All P (transpose m)
unfolding transpose
All-transpose P [] h = h
All-transpose P (x ∷ m) h = (h.0, All-transpose P m h.1)

abbrev pub Assoc {ℓ} : Type ℓ → Type ℓ → Type ℓ
Assoc K V = List (K × V)

pub beq_refl {ℓ} : {K : Type ℓ} ⦃e : Eq K⦄ (k : K) → (k == k) ≡ true
beq_refl ⦃e⦄ k = (e.beq_iff k k).1 refl

module _ {ℓ} {K V : Type ℓ} ⦃e : Eq K⦄ where
  -- m.find(k)
  unfoldable pub lookup : K → List (K × V) → Option V
  lookup k [] = none
  lookup k ((j, v) ∷ m) = if j == k then some v else lookup k m

  -- m[k] = v
  unfoldable pub assign : K → V → List (K × V) → List (K × V)
  assign k v [] = (k, v) ∷ []
  assign k v ((j, w) ∷ m) = if j == k then (k, v) ∷ m else (j, w) ∷ assign k v m

  -- m.erase(k)
  unfoldable pub erase : K → List (K × V) → List (K × V)
  erase k [] = []
  erase k ((j, w) ∷ m) = if j == k then erase k m else (j, w) ∷ erase k m

  -- m.emplace(k, v): an entry that is there stays.
  unfoldable pub emplace : K → V → List (K × V) → List (K × V)
  emplace k v [] = (k, v) ∷ []
  emplace k v ((j, w) ∷ m) = if j == k then (j, w) ∷ m else (j, w) ∷ emplace k v m

  pub lookup-assign :
      (k j : K) (v : V) (m : List (K × V))
      → lookup j (assign k v m) ≡ (if k == j then some v else lookup j m)
  unfolding lookup assign
  lookup-assign k j v [] = refl
  lookup-assign k j v ((i, w) ∷ m) =
      ground (arith, e.beq_iff k j, e.beq_iff i k, e.beq_iff i j, lookup-assign k j v m)

  pub lookup-erase :
      (k j : K) (m : List (K × V)) → lookup j (erase k m) ≡ (if k == j then none else lookup j m)
  unfolding lookup erase
  lookup-erase k j [] = ground arith
  lookup-erase k j ((i, w) ∷ m) =
      ground (arith, e.beq_iff k j, e.beq_iff i k, e.beq_iff i j, lookup-erase k j m)

  pub lookup-emplace :
      (k j : K) (v : V) (m : List (K × V))
      → lookup j (emplace k v m)
        ≡ (if k == j then some (elim (lookup k m) [ none ↦ v | some w ↦ w ]) else lookup j m)
  unfolding lookup emplace
  lookup-emplace k j v [] = refl
  lookup-emplace k j v ((i, w) ∷ m) =
      ground (arith, e.beq_iff k j, e.beq_iff i k, e.beq_iff i j, lookup-emplace k j v m)

  pub emplace_new :
      (k : K) (v : V) (m : List (K × V)) → lookup k m ≡ none → emplace k v m ≡ m ++ (k, v) ∷ []
  unfolding lookup emplace
  emplace_new k v [] e = refl
  emplace_new k v ((i, w) ∷ m) e = ground (arith, emplace_new k v m)

  -- What holds of all entries holds of the entry that a lookup finds.
  pub lookup-All {κ} :
      (P : K × V → Type κ) (k : K) (v : V) (m : List (K × V))
      → All P m
      → lookup k m ≡ some v
      → P (k, v)
  unfolding lookup
  lookup-All P k v [] h f = cc
  lookup-All P k v ((i, w) ∷ m) (h, hs) f = elim (Bool-cases (i == k)) [
    | inl same ↦ subst P (here same (rw (same, lookup) at f)) h
    | inr other ↦ lookup-All P k v m hs (rw (other, lookup) at f)
  ]
    where
      here : (i == k) ≡ true → some w ≡ some v → ◌≡◌ {A = K × V} (i, w) (k, v)
      here same g = ground (arith, e.beq_iff i k)

  -- No key stands twice, as in any map.
  abbrev pub Distinct : List (K × V) → Type 0
  Distinct [] = Unit
  Distinct ((k, v) ∷ m) = All (λ p. (k == p.0) ≡ false) m × Distinct m

  still_found :
      (k : K) (v : V) (m n : List (K × V))
      → All (λ p. (k == p.0) ≡ false) n
      → All (λ p. lookup p.0 m ≡ some p.1) n
      → All (λ p. lookup p.0 ((k, v) ∷ m) ≡ some p.1) n
  unfolding lookup
  still_found k v m [] d f = tt
  still_found k v m (p ∷ n) (d, ds) (f, fs) = (rw d f, still_found k v m n ds fs)

  -- Each entry of a map is the one that its key finds.
  pub entries_found : (m : List (K × V)) → Distinct m → All (λ p. lookup p.0 m ≡ some p.1) m
  entries_found [] d = tt
  entries_found ((k, v) ∷ m) (d, ds) =
      (unfold lookup in rw beq_refl, still_found k v m m d (entries_found m ds))

  -- An assignment keeps the keys distinct.
  assign-fresh :
      (i k : K) (v : V) (m : List (K × V))
      → (i == k) ≡ false
      → All (λ p. (i == p.0) ≡ false) m
      → All (λ p. (i == p.0) ≡ false) (assign k v m)
  unfolding assign
  assign-fresh i k v [] ne h = (ne, tt)
  assign-fresh i k v ((j, w) ∷ m) ne (h, hs) = elim (Bool-cases (j == k)) [
    | inl same ↦ rw same (ne, hs)
    | inr other ↦ rw other (h, assign-fresh i k v m ne hs)
  ]

  pub Distinct-assign : (k : K) (v : V) (m : List (K × V)) → Distinct m → Distinct (assign k v m)
  unfolding assign
  Distinct-assign k v [] d = (tt, tt)
  Distinct-assign k v ((j, w) ∷ m) (d, ds) = elim (Bool-cases (j == k)) [
    | inl same ↦
        rw same (subst (λ i. All (λ p. (i == p.0) ≡ false) m) ((e.beq_iff j k).0 same) d, ds)
    | inr other ↦ rw other (assign-fresh j k v m other d, Distinct-assign k v m ds)
  ]
