-- ===== src/Tests/Library.antt =====
-- A standard library that keeps its promises, for runs of src/TransportNetwork.cpp.
use live_transport_network_m.Base.{
  ℕ, suc, ◌≤◌, ◌≡◌, ◌↔◌, refl, sym, ap, subst, arith, Bool-cases, Option-cases, ◌⊎◌, inl, inr,
  Option, none, some, List, [], ◌∷◌, lookup, Assoc, entries_found, All, All-∈, ∈-All, length, ltb,
  ◌==◌, if◌then◌else◌, ◌∈◌, there, here_of, ∈-cases,
}
use live_transport_network_m.Network.Stops.{PathStop, PathStopDist, TravelPath, stop_eq}
use live_transport_network_m.Network.Paths.{Std, back}
use live_transport_network_m.Network.Paths.Closed.{IsStd, Falling}
use live_transport_network_m.Network.Alternatives.Selection.{IsPathQueue}

module _ {A : Type 0} (key : A → ℕ) where
  -- The entry with the least key, and the others.
  unfoldable pub pop_least : List A → Option (A × List A)
  pop_least [] = none
  pop_least (p ∷ q) = elim (pop_least q) [
    | none ↦ some (p, q)
    | some (r, rest) ↦ if ltb (key r) (key p) then some (r, p ∷ rest) else some (p, q)
  ]

  -- What the entry and the others are.
  record Popped (q : List A) (p : A) (rest : List A) : Type 0 where
    pub size : length q ≡ suc (length rest)
    pub entries : (r : A) → (r ∈ q) ↔ ((r ≡ p) ⊎ (r ∈ rest))
    pub least : All (λ r. key p ≤ key r) rest

  pop_least_empty : (q : List A) → pop_least q ≡ none → q ≡ []
  unfolding pop_least
  pop_least_empty [] e = refl
  pop_least_empty (p ∷ q) e = absurd (elim (Option-cases (pop_least q)) [
    | inl empty ↦ ground (arith, e, empty)
    | inr ((r, rest), popped) ↦ ground (arith, e, popped)
  ])

  first_Popped : (p : A) (q : List A) → All (λ r. key p ≤ key r) q → Popped (p ∷ q) p q
  first_Popped p q le = record {
    size = refl;
    entries = λ r. (λ i. ∈-cases i, λ o. elim o [ inl same ↦ here_of q same | inr i ↦ there i ]);
    least = le;
  }

  later_Popped :
      (p r : A) (q rest : List A) → key r ≤ key p → Popped q r rest → Popped (p ∷ q) r (p ∷ rest)
  later_Popped p r q rest le h = record {
    size = ap suc h.size;
    entries = λ t. (
      λ i. elim (∈-cases i) [
        | inl same ↦ inr (here_of rest same)
        | inr j ↦ elim ((h.entries t).0 j) [ inl same ↦ inl same | inr k ↦ inr (there k) ]
      ],
      λ o. elim o [
        | inl same ↦ there ((h.entries t).1 (inl same))
        | inr i ↦ elim (∈-cases i) [
          | inl same ↦ here_of q same
          | inr j ↦ there ((h.entries t).1 (inr j))
        ]
      ],
    );
    least = (le, h.least);
  }

  pop_least-Popped :
      (q : List A) (p : A) (rest : List A) → pop_least q ≡ some (p, rest) → Popped q p rest
  unfolding pop_least
  pop_least-Popped [] p rest e = cc
  pop_least-Popped (s ∷ q) p rest e = elim (Option-cases (pop_least q)) [
    | inl empty ↦
        let one : Popped (s ∷ q) s q =
          first_Popped s q (subst (All (λ r. key s ≤ key r)) (sym (pop_least_empty q empty)) tt) in
        let first : s ≡ p = ground (arith, e, empty) in
        let others : q ≡ rest = ground (arith, e, empty) in
        subst (λ t. Popped (s ∷ q) t rest) first (subst (Popped (s ∷ q) s) others one)
    | inr ((r, more), popped) ↦
        let h = pop_least-Popped q r more popped in
        elim (Bool-cases (ltb (key r) (key s))) [
          | inl less ↦
              let first : r ≡ p = ground (arith, e, popped, less) in
              let others : s ∷ more ≡ rest = ground (arith, e, popped, less) in
              subst (λ t. Popped (s ∷ q) t rest) first
                (subst (Popped (s ∷ q) r) others (later_Popped s r q more (ground (arith, less)) h))
          | inr more_ ↦
              let first : s ≡ p = ground (arith, e, popped, more_) in
              let others : q ≡ rest = ground (arith, e, popped, more_) in
              let le : All (λ t. key s ≤ key t) q =
                ∈-All (λ t. key s ≤ key t) q
                  (λ t i. elim ((h.entries t).0 i) [
                    | inl same ↦ ground (arith, more_, ap key same)
                    | inr j ↦
                        let far = All-∈ (λ t. key r ≤ key t) more h.least j in
                        ground (arith, more_, far)
                  ]) in
              subst (λ t. Popped (s ∷ q) t rest) first
                (subst (Popped (s ∷ q) s) others (first_Popped s q le))
        ]
  ]

-- By falling distance.
unfoldable pub insert : PathStopDist → List PathStopDist → List PathStopDist
insert p [] = p ∷ []
insert p (q ∷ l) = if ltb p.1 q.1 then q ∷ insert p l else p ∷ q ∷ l

unfoldable pub sort : List PathStopDist → List PathStopDist
sort [] = []
sort (p ∷ l) = insert p (sort l)

insert_in :
    (p : PathStopDist) (l : List PathStopDist) (r : PathStopDist) → (r ∈ insert p l) ↔ (r ∈ (p ∷ l))
unfolding insert
insert_in p [] r = (λ i. i, λ i. i)
insert_in p (q ∷ l) r = elim (Bool-cases (ltb p.1 q.1)) [
  | inr first ↦ rw first (λ i. i, λ i. i)
  | inl less ↦ rw less (
    λ i. elim (∈-cases i) [
      | inl same ↦ there (here_of l same)
      | inr j ↦ elim (∈-cases ((insert_in p l r).0 j)) [
        | inl same ↦ here_of (q ∷ l) same
        | inr k ↦ there (there k)
      ]
    ],
    λ i. elim (∈-cases i) [
      | inl same ↦ there ((insert_in p l r).1 (here_of l same))
      | inr j ↦ elim (∈-cases j) [
        | inl same ↦ here_of (insert p l) same
        | inr k ↦ there ((insert_in p l r).1 (there k))
      ]
    ],
  )
]

insert-Falling : (p : PathStopDist) (l : List PathStopDist) → Falling l → Falling (insert p l)
unfolding insert
insert-Falling p [] h = tt
insert-Falling p (q ∷ []) h = elim (Bool-cases (ltb p.1 q.1)) [
  | inl less ↦ rw less (ground (arith, less), tt)
  | inr first ↦ rw first (ground (arith, first), tt)
]
insert-Falling p (q ∷ r ∷ l) (le, h) = elim (Bool-cases (ltb p.1 q.1)) [
  | inr first ↦ rw first (ground (arith, first), (le, h))
  | inl less ↦ rw less (elim (Bool-cases (ltb p.1 r.1)) [
    | inl less' ↦ rw less' (le, rw (less', insert) at (insert-Falling p (r ∷ l) h))
    | inr first ↦ rw first (ground (arith, less), (ground (arith, first), h))
  ])
]

sort_in : (l : List PathStopDist) (p : PathStopDist) → (p ∈ sort l) ↔ (p ∈ l)
unfolding sort
sort_in [] p = (λ i. i, λ i. i)
sort_in (q ∷ l) p = (
  λ i. elim (∈-cases ((insert_in q (sort l) p).0 i)) [
    | inl same ↦ here_of l same
    | inr j ↦ there ((sort_in l p).0 j)
  ],
  λ i.
      (insert_in q (sort l) p).1
        (elim (∈-cases i) [ inl same ↦ here_of (sort l) same | inr j ↦ there ((sort_in l p).1 j) ]),
)

sort-Falling : (l : List PathStopDist) → Falling (sort l)
unfolding sort
sort-Falling [] = tt
sort-Falling (p ∷ l) = insert-Falling p (sort l) (sort-Falling l)

lookup_in : (m : Assoc PathStop ℕ) (x : PathStop) (d : ℕ) → lookup x m ≡ some d → (x, d) ∈ m
unfolding lookup
lookup_in [] x d f = absurd (ground (arith, f))
lookup_in ((y, e) ∷ m) x d f = elim (Bool-cases (y == x)) [
  | inl same ↦
      let first : ◌≡◌ {A = PathStopDist} (x, d) (y, e) =
        ground (arith, f, same, stop_eq.beq_iff y x) in
      here_of m first
  | inr other ↦ there (lookup_in m x d (rw other at f))
]

-- The time at which a path ends.
unfoldable pub path_time : TravelPath → ℕ
path_time path = elim (back path) [ none ↦ 0 | some (_, d) ↦ d ]

abbrev pub std : Std
std = record {
  pop = pop_least (λ p. p.1);
  iterate = λ m. m;
  sort = sort;
  pop_path = pop_least path_time;
}

pub std-IsStd : IsStd std
std-IsStd = record {
  pop_empty = λ q e. pop_least_empty (λ (p : PathStopDist). p.1) q e;
  pop_length = λ q rest p e. (pop_least-Popped (λ (p : PathStopDist). p.1) q p rest e).size;
  pop_in = λ q rest p r e. (pop_least-Popped (λ (p : PathStopDist). p.1) q p rest e).entries r;
  pop_least = λ q rest p e. (pop_least-Popped (λ (p : PathStopDist). p.1) q p rest e).least;
  iterate_in = λ m p d. (
    λ i. All-∈ (λ q. lookup q.0 m ≡ some q.1) m (entries_found m d) i,
    λ f. lookup_in m p.0 p.1 f,
  );
  sort_in = sort_in;
  sort_falls = sort-Falling;
}

pub std-IsPathQueue : IsPathQueue std
std-IsPathQueue = record {
  pop_length = λ q rest p e. (pop_least-Popped path_time q p rest e).size;
  pop_in = λ q rest p r e. (pop_least-Popped path_time q p rest e).entries r;
}
