-- ===== src/Paging/Fresh.antt =====
-- The tree after a step that added a table.
use native.Mathlib.Decide.{ℕ_discrete}
use myria.Base.{
  ℕ, ◌%◌, ◌<◌, ◌≡◌, ◌≢◌, ◌⊎◌, inl, inr, sym, ap, ◌∙◌, subst, true, false, Option-cases, none, some,
  List, ◌∷◌, length, update, update_self, update_ne,
}
use myria.Memory.{Memory, entry}
use myria.Paging.{is_present, pte_to_phys}
use myria.Paging.Entries.{pte_to_phys-aligned}
use myria.Paging.Trees.{Role, Tree, Within}
use myria.Paging.Growth.{Grows}

-- A free frame has no role yet, so a new one may be recorded for it.
abbrev pub extend : Role → ℕ → List ℕ → Role
extend role c path = update role c (some path)

module _ {slot : ℕ → Type 0} {root : ℕ} {Free : ℕ → Type 0} {role : Role} {m : Memory}
    (t : Tree slot root Free role m) (c : ℕ) (free : Free c) where
  unassigned : role c ≡ none
  unassigned = elim (Option-cases (role c)) [ inl e ↦ e | inr (p, e) ↦ absurd (t.taken c p e free) ]

  pub assigned_ne : (x : ℕ) (q : List ℕ) → role x ≡ some q → c ≢ x
  assigned_ne x q e same = let found : some q ≡ none = sym e ∙ ap role (sym same) ∙ unassigned in cc

  pub extend_keeps :
      (path : List ℕ) (x : ℕ) (q : List ℕ) → role x ≡ some q → extend role c path x ≡ some q
  extend_keeps path x q e = update_ne role c x (some path) (assigned_ne x q e) ∙ e

  extend_inv :
      (path : List ℕ) (x : ℕ) (q : List ℕ)
      → extend role c path x ≡ some q
      → ((c ≡ x) × (path ≡ q)) ⊎ ((c ≢ x) × (role x ≡ some q))
  extend_inv path x q e = elim (ℕ_discrete c x) [
    | yes same ↦
        let found : some path ≡ some q =
          sym (update_self role c (some path)) ∙ ap (extend role c path) same ∙ e in
        inl (same, cc)
    | no other ↦ inr (other, sym (update_ne role c x (some path) other) ∙ e)
  ]

  pub Tree-new :
      {Later : ℕ → Type 0} {f i : ℕ} {p : List ℕ} {n : Memory}
      → role f ≡ some p
      → length p < 3
      → ((q : ℕ) → Later q → Free q)
      → (¬ Later c)
      → Grows role f i m n
      → pte_to_phys (entry n f i) ≡ c
      → ((j : ℕ) → j < 512 → is_present (entry n c j) ≡ false)
      → Tree slot root Later (extend role c (i ∷ p)) n
  Tree-new {Later} {f} {i} {p} {n} at upper fewer gone g points empty = record {
    rooted = extend_keeps (i ∷ p) root _ t.rooted;
    aligned = λ x q e. elim (extend_inv (i ∷ p) x q e) [
      | inl (same, _) ↦ subst (λ y. y % 4096 ≡ 0) (points ∙ same) (pte_to_phys-aligned _)
      | inr (_, old) ↦ t.aligned x q old
    ];
    taken = λ x q e later. elim (extend_inv (i ∷ p) x q e) [
      | inl (same, _) ↦ gone (subst Later (sym same) later)
      | inr (_, old) ↦ t.taken x q old (fewer x later)
    ];
    child = λ x q j e l hj v now. elim (extend_inv (i ∷ p) x q e) [
      | inl (same, _) ↦
          let none_there : is_present (entry n x j) ≡ false =
            subst (λ y. is_present (entry n y j) ≡ false) same (empty j hj) in
          cc
      | inr (_, old) ↦ elim (ℕ_discrete x f) [
        | yes here ↦ elim (ℕ_discrete j i) [
          | yes hit ↦
              let found : some p ≡ some q = sym at ∙ ap role (sym here) ∙ old in
              let one : p ≡ q = cc in
              rw (here, hit, points)
                (update_self role c (some (i ∷ p)) ∙ ap (λ (r : List ℕ). some (i ∷ r)) one)
          | no other ↦ kept x q j old l hj v now (inr other)
        ]
        | no other ↦ kept x q j old l hj v now (inl other)
      ]
    ];
  }
    where
      kept :
          (x : ℕ) (q : List ℕ) (j : ℕ)
          → role x ≡ some q
          → length q < 3
          → j < 512
          → Within slot q j
          → is_present (entry n x j) ≡ true
          → (x ≢ f) ⊎ (j ≢ i)
          → extend role c (i ∷ p) (pte_to_phys (entry n x j)) ≡ some (j ∷ q)
      kept x q j e l hj v now ne =
          let same_entry = g.others x j q e hj ne in
          rw same_entry
            (extend_keeps (i ∷ p) _ (j ∷ q) (t.child x q j e l hj v (rw same_entry at now)))
