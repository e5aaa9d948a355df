-- ===== src/Network/Paths/Chains.antt =====
-- The chains of `previousStop` that lead from each stop back to the first:
-- src/TransportNetwork.cpp.
use live_transport_network_m.Base.{
  ℕ, zero, suc, ◌≤◌, ◌<◌, ◌≡◌, ◌≢◌, refl, sym, ap, ◌∙◌, subst, arith, Bool-cases, ◌⊎◌, inl, inr,
  none, some, [], ◌∷◌, lookup, erase, lookup-erase, Assoc, length, ◌==◌,
}
use live_transport_network_m.Network.Stops.{PathStop, stop_eq}
use live_transport_network_m.Network.Paths.{Search, update}
use live_transport_network_m.Network.Paths.Improves.{
  Beats, previous_update, dist_at_update, dist_beside_update,
}

pub stop_cases : (x y : PathStop) → (x ≡ y) ⊎ (x ≢ y)
stop_cases x y = elim (Bool-cases (x == y)) [
  | inl same ↦ inl ((stop_eq.beq_iff x y).0 same)
  | inr other ↦ inr (λ p. ground (arith, stop_eq.beq_iff x y))
]

module _ (start : PathStop) where
  -- The stop is `k` steps back from the start, and no step goes to a farther stop.
  pub data Chain (s : Search) : PathStop → ℕ → Type 0 where
    root : Chain s start 0
    step :
        {x y : PathStop} {dx dy k : ℕ}
        → lookup x s.previous_stop ≡ some y
        → lookup x s.dist_from_a ≡ some dx
        → lookup y s.dist_from_a ≡ some dy
        → dy ≤ dx
        → Chain s y k
        → Chain s x (suc k)

  module _ (t c : PathStop) (v : ℕ) (s : Search) (beats : Beats v t s) where
    pub previous_beside :
        (y : PathStop) → t ≢ y → lookup y (update t c v s).previous_stop ≡ lookup y s.previous_stop
    previous_beside y ne = ground (arith, previous_update t c v s y, stop_eq.beq_iff t y)

    pub previous_at : lookup t (update t c v s).previous_stop ≡ some c
    previous_at = ground (arith, previous_update t c v s t, stop_eq.beq_iff t t)

    -- A chain of stops that are closer than the updated one stays.
    pub avoids :
        {y : PathStop} {k : ℕ} (dy : ℕ)
        → Chain s y k
        → lookup y s.dist_from_a ≡ some dy
        → ((old : ℕ) → lookup t s.dist_from_a ≡ some old → dy < old)
        → Chain (update t c v s) y k
    avoids dy root f far = root
    avoids dy (step {x = y} {y = z} {dx} {dy = dz} p fx fz le ch) f far =
        let y_beside : t ≢ y = λ e. ground (arith, far dy (rw e f)) in
        let z_beside : t ≢ z = λ e. ground (arith, far dz (rw e fz)) in
        step (previous_beside y y_beside ∙ p) (dist_beside_update t c v s y y_beside ∙ fx)
          (dist_beside_update t c v s z z_beside ∙ fz) le
          (avoids dz ch fz (λ old g. ground (arith, far old g)))

    -- Any chain stays one, which may now lead over the updated stop.
    pub reroutes :
        {kc : ℕ} (dc : ℕ)
        → Chain (update t c v s) c kc
        → lookup c (update t c v s).dist_from_a ≡ some dc
        → dc ≤ v
        → {x : PathStop} {k : ℕ} → Chain s x k
        → (j : ℕ) × Chain (update t c v s) x j
    reroutes dc ch fc le root = (0, root)
    reroutes {kc} dc ch fc le (step {x} {y} {dx} {dy} p fx fy le' rest) = elim (stop_cases t x) [
      | inl same ↦ (
        suc kc,
        subst (λ z. Chain (update t c v s) z (suc kc)) same
            (step previous_at (dist_at_update t c v s) fc le ch),
      )
      | inr beside ↦
          let (j, rest') = reroutes dc ch fc le rest in
          elim (stop_cases t y) [
            | inl same ↦ (
              suc j,
              step (previous_beside x beside ∙ p) (dist_beside_update t c v s x beside ∙ fx)
                  (subst (λ z. lookup z (update t c v s).dist_from_a ≡ some v) same
                    (dist_at_update t c v s))
                  (ground (arith, beats dy (rw same fy))) rest',
            )
            | inr y_beside ↦ (
              suc j,
              step (previous_beside x beside ∙ p) (dist_beside_update t c v s x beside ∙ fx)
                  (dist_beside_update t c v s y y_beside ∙ fy) le' rest',
            )
          ]
    ]

  -- The steps back alone, over the map of previous stops.
  data Follows (m : Assoc PathStop PathStop) : PathStop → ℕ → Type 0 where
    stay : {x : PathStop} → x ≡ start → Follows m x 0
    go : {x y : PathStop} {k : ℕ} → lookup x m ≡ some y → Follows m y k → Follows m x (suc k)

  Follows-unique :
      (m : Assoc PathStop PathStop)
      → lookup start m ≡ none
      → {x : PathStop} {j k : ℕ} → Follows m x j
      → Follows m x k
      → j ≡ k
  Follows-unique m none_there (stay e) (stay e') = refl
  Follows-unique m none_there (stay e) (go f w) = absurd (ground arith)
  Follows-unique m none_there (go f w) (stay e) = absurd (ground arith)
  Follows-unique m none_there (go {y} f w) (go {y = y'} {k} f' w') =
      let same : y' ≡ y = ground arith in
      ap suc (Follows-unique m none_there w (subst (λ z. Follows m z k) same w'))

  -- The steps back from a stop never come to it again, so they stay without its entry.
  Follows-erase :
      (m : Assoc PathStop PathStop) (x : PathStop) (k : ℕ)
      → lookup start m ≡ none
      → Follows m x (suc k)
      → {y : PathStop} {j : ℕ} → Follows m y j
      → j ≤ k
      → Follows (erase x m) y j
  Follows-erase m x k none_there w (stay e) le = stay e
  Follows-erase m x k none_there w (go {x = y} {k = j} f rest) le =
      let beside : x ≢ y = λ e. absurd (
        omega (
          arith,
          Follows-unique m none_there w (subst (λ z. Follows m z (suc j)) (sym e) (go f rest)),
        )) in
      go (ground (arith, lookup-erase x y m, stop_eq.beq_iff x y))
        (Follows-erase m x k none_there w rest (omega arith))

  length-erase :
      (x y : PathStop) (m : Assoc PathStop PathStop)
      → lookup x m ≡ some y
      → length (erase x m) < length m
  unfolding lookup erase
  length-erase x y [] f = cc
  length-erase x y ((z, w) ∷ m) f = elim (Bool-cases (z == x)) [
    | inl same ↦ rw same (omega (arith, length-erase-le x m))
    | inr other ↦ rw other (omega (arith, length-erase x y m (rw other at f)))
  ]
    where
      length-erase-le : (x : PathStop) (m : Assoc PathStop PathStop) → length (erase x m) ≤ length m
      length-erase-le x [] = omega arith
      length-erase-le x ((z, w) ∷ m) = ground (arith, length-erase-le x m)

  -- So there are at most as many steps as entries.
  Follows-bound :
      (k : ℕ) (m : Assoc PathStop PathStop) (x : PathStop)
      → lookup start m ≡ none
      → Follows m x k
      → k ≤ length m
  Follows-bound zero m x none_there w = omega arith
  Follows-bound (suc k) m x none_there (go {y} f rest) =
      let shorter = Follows-erase m x k none_there (go f rest) rest (omega arith) in
      let bound = Follows-bound k (erase x m) y (ground (arith, lookup-erase x start m)) shorter in
      omega (arith, length-erase x y m f)

  Chain-Follows : {s : Search} {x : PathStop} {k : ℕ} → Chain s x k → Follows s.previous_stop x k
  Chain-Follows root = stay refl
  Chain-Follows (step p fx fy le ch) = go p (Chain-Follows ch)

  pub Chain-bound :
      (s : Search) (x : PathStop) (k : ℕ)
      → lookup start s.previous_stop ≡ none
      → Chain s x k
      → k ≤ length s.previous_stop
  Chain-bound s x k none_there ch = Follows-bound k s.previous_stop x none_there (Chain-Follows ch)
