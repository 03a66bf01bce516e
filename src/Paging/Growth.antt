-- ===== src/Paging/Growth.antt =====
-- Adding a table to a tree does not change what any address resolves to.
use native.Mathlib.Decide.{ℕ_discrete}
use myria.Base.{
  ℕ, ◌+◌, ◌<◌, ◌≡◌, ◌≢◌, ◌⊎◌, inl, inr, refl, sym, ap, ◌∙◌, arith, true, false, Bool-cases, none,
  some, List, [], ◌∷◌, length, subst,
}
use myria.Memory.{Memory, entry}
use myria.Paging.{is_present, pte_to_phys, resolve}
use myria.Paging.Trees.{Role, Tree, Within, IsPath}

-- From `m` to `n`, among the tables of `role` only entry `i` of `f` changes. It is present in
-- `n`: with the table that it pointed to in `m`, or with an empty one where it pointed to none.
pub record Grows (role : Role) (f i : ℕ) (m n : Memory) : Type 0 where
  pub others :
      (x j : ℕ) (q : List ℕ)
      → role x ≡ some q
      → j < 512
      → (x ≢ f) ⊎ (j ≢ i)
      → entry n x j ≡ entry m x j
  pub linked : is_present (entry n f i) ≡ true
  pub grown :
      ((is_present (entry m f i) ≡ true) × (pte_to_phys (entry n f i) ≡ pte_to_phys (entry m f i)))
      ⊎ ((is_present (entry m f i) ≡ false)
          × ((j : ℕ) → j < 512 → is_present (entry n (pte_to_phys (entry n f i)) j) ≡ false))

pub resolve_empty :
    (n : Memory) (g k : ℕ) (is : List ℕ)
    → is_present (entry n g k) ≡ false
    → resolve n g (k ∷ is) ≡ none
unfolding resolve
resolve_empty n g k [] h = rw h
resolve_empty n g k (j ∷ is) h = rw h

-- Roles tell tables apart by their level.
pub level_ne :
    (role : Role) (x f : ℕ) (q p : List ℕ)
    → role x ≡ some q
    → role f ≡ some p
    → length q ≢ length p
    → x ≢ f
level_ne role x f q p e h ne same =
    let found : some q ≡ some p = sym e ∙ ap role same ∙ h in
    let one : q ≡ p = cc in ne (ap length one)

module _ {slot : ℕ → Type 0} {root : ℕ} {Free : ℕ → Type 0} {role : Role} {f i : ℕ} {p : List ℕ}
    {m n : Memory} (t : Tree slot root Free role m) (at : role f ≡ some p) (upper : length p < 3)
    (g : Grows role f i m n) where
  step_miss :
      (is : List ℕ) (x j k : ℕ) (q : List ℕ)
      → role x ≡ some q
      → length q < 3
      → j < 512
      → Within slot q j
      → (x ≢ f) ⊎ (j ≢ i)
      → (is_present (entry m x j) ≡ true
          → resolve n (pte_to_phys (entry m x j)) (k ∷ is)
            ≡ resolve m (pte_to_phys (entry m x j)) (k ∷ is))
      → resolve n x (j ∷ k ∷ is) ≡ resolve m x (j ∷ k ∷ is)
  unfolding resolve
  step_miss is x j k q e l hj w ne ih = elim (Bool-cases (is_present (entry m x j))) [
    | inl there ↦ rw (g.others x j q e hj ne, there) (ih there)
    | inr absent ↦ rw (g.others x j q e hj ne, absent)
  ]

  step_hit :
      (is : List ℕ) (k : ℕ)
      → k < 512
      → (is_present (entry m f i) ≡ true
          → resolve n (pte_to_phys (entry m f i)) (k ∷ is)
            ≡ resolve m (pte_to_phys (entry m f i)) (k ∷ is))
      → resolve n f (i ∷ k ∷ is) ≡ resolve m f (i ∷ k ∷ is)
  unfolding resolve
  step_hit is k hk ih = elim (g.grown) [
    | inl (there, same) ↦ rw (g.linked, there, same) (ih there)
    | inr (absent, empty) ↦ rw (g.linked, absent) (resolve_empty n _ k is (empty k hk))
  ]

  pub resolve-Grows :
      (is : List ℕ) (x : ℕ) (q : List ℕ)
      → role x ≡ some q
      → length q + length is ≡ 4
      → IsPath slot q is
      → resolve n x is ≡ resolve m x is
  resolve-Grows [] x q e l ok = unfold resolve in refl
  resolve-Grows (j ∷ []) x q e l ok =
      unfold resolve in rw (g.others x j q e ok.0 (inl (level_ne role x f q p e at (omega arith))))
  resolve-Grows (j ∷ k ∷ is) x q e l ok =
      let deeper : (is_present (entry m x j) ≡ true
          → resolve n (pte_to_phys (entry m x j)) (k ∷ is)
            ≡ resolve m (pte_to_phys (entry m x j)) (k ∷ is)) =
        λ there.
          resolve-Grows (k ∷ is) (pte_to_phys (entry m x j)) (j ∷ q)
            (t.child x q j e (omega arith) ok.0 ok.1 there) (omega arith) ok.2 in
      elim (ℕ_discrete x f) [
        | yes same ↦ elim (ℕ_discrete j i) [
          | yes hit ↦ rw (same, hit) (step_hit is k ok.2.0 (rw (same, hit) at deeper))
          | no other ↦ step_miss is x j k q e (omega arith) ok.0 ok.1 (inr other) deeper
        ]
        | no other ↦ step_miss is x j k q e (omega arith) ok.0 ok.1 (inl other) deeper
      ]

-- The tree after a step that found its table in place.
pub Tree-kept :
    {slot : ℕ → Type 0} {root : ℕ} {Free Later : ℕ → Type 0} {role : Role} {f i : ℕ} {p : List ℕ}
    {m n : Memory}
    → Tree slot root Free role m
    → role f ≡ some p
    → length p < 3
    → i < 512
    → Within slot p i
    → ((q : ℕ) → Later q → Free q)
    → Grows role f i m n
    → is_present (entry m f i) ≡ true
    → pte_to_phys (entry n f i) ≡ pte_to_phys (entry m f i)
    → Tree slot root Later role n
Tree-kept {slot} {root} {Free} {Later} {role} {f} {i} {p} {m} {n} t at upper hi w fewer g there
      same =
    record {
      rooted = t.rooted;
      aligned = t.aligned;
      taken = λ x q e later. t.taken x q e (fewer x later);
      child = λ x q j e l hj v now. elim (ℕ_discrete x f) [
        | yes here ↦ elim (ℕ_discrete j i) [
          | yes hit ↦
              rw (here, hit, same)
                (subst (λ r. role (pte_to_phys (entry m f i)) ≡ some (i ∷ r)) (path_eq x q e here)
                  (t.child f p i at upper hi w there))
          | no other ↦ old x q j e l hj v now (inr other)
        ]
        | no other ↦ old x q j e l hj v now (inl other)
      ];
    }
  where
    path_eq : (x : ℕ) (q : List ℕ) → role x ≡ some q → x ≡ f → p ≡ q
    path_eq x q e here = let found : some p ≡ some q = sym at ∙ ap role (sym here) ∙ e in cc

    old :
        (x : ℕ) (q : List ℕ) (j : ℕ)
        → role x ≡ some q
        → length q < 3
        → j < 512
        → Within slot q j
        → is_present (entry n x j) ≡ true
        → (x ≢ f) ⊎ (j ≢ i)
        → role (pte_to_phys (entry n x j)) ≡ some (j ∷ q)
    old x q j e l hj v now ne =
        let same_entry = g.others x j q e hj ne in
        rw same_entry (t.child x q j e l hj v (rw same_entry at now))
