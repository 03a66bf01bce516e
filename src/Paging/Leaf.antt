-- ===== src/Paging/Leaf.antt =====
-- Writing one entry of a last-level table.
use native.Mathlib.Decide.{ℕ_discrete}
use myria.Base.{
  ℕ, ◌+◌, ◌^◌, ◌<◌, ◌≡◌, ◌≢◌, ◌⊎◌, inl, inr, refl, sym, ap, ◌∙◌, arith, true, Bool-cases, Option,
  none, some, List, [], ◌∷◌, length, if◌then◌else◌, subst,
}
use myria.Memory.{Memory, entry, set_entry}
use myria.Memory.Pages.{entry-set_entry_self, entry-set_entry_ne}
use myria.Paging.{is_present, pte_to_phys, resolve}
use myria.Paging.Trees.{Role, Tree, IsPath}
use myria.Paging.Growth.{level_ne}

-- Entry `i` of `f` is present and points to `c`.
abbrev pub Link : Memory → ℕ → ℕ → ℕ → Type 0
Link m f i c = (is_present (entry m f i) ≡ true) × (pte_to_phys (entry m f i) ≡ c)

-- The tables on the way from the top-level table to `pt`.
pub record Chain (root i4 i3 i2 pt : ℕ) (role : Role) (m : Memory) : Type 0 where
  pub pdpt : ℕ
  pub pd : ℕ
  pub rooted : role root ≡ some []
  pub named4 : role pdpt ≡ some (i4 ∷ [])
  pub named3 : role pd ≡ some (i3 ∷ i4 ∷ [])
  pub named2 : role pt ≡ some (i2 ∷ i3 ∷ i4 ∷ [])
  pub link4 : Link m root i4 pdpt
  pub link3 : Link m pdpt i3 pd
  pub link2 : Link m pd i2 pt

resolve-Link :
    (m : Memory) (f i c j : ℕ) (is : List ℕ)
    → Link m f i c
    → resolve m f (i ∷ j ∷ is) ≡ resolve m c (j ∷ is)
unfolding resolve
resolve-Link m f i c j is (there, points) = rw (there, points)

pub Chain-leads :
    {root i4 i3 i2 pt : ℕ} {role : Role} {m : Memory}
    → Chain root i4 i3 i2 pt role m
    → (j : ℕ) → resolve m root (i4 ∷ i3 ∷ i2 ∷ j ∷ []) ≡ resolve m pt (j ∷ [])
Chain-leads c j =
    resolve-Link _ _ _ _ _ _ c.link4
    ∙ resolve-Link _ _ _ _ _ _ c.link3
    ∙ resolve-Link _ _ _ _ _ _ c.link2

-- What the walk yields at an entry.
abbrev pub leaf : ℕ → Option ℕ
leaf e = if is_present e then some e else none

-- `q`, last index first, followed by `is`.
abbrev onto : List ℕ → List ℕ → List ℕ
onto [] is = is
onto (k ∷ q) is = onto q (k ∷ is)

module _ {slot : ℕ → Type 0} {root i4 i3 i2 pt : ℕ} {Free : ℕ → Type 0} {role : Role} {m : Memory}
    (t : Tree slot root Free role m) (c : Chain root i4 i3 i2 pt role m) (i1 e : ℕ) (h1 : i1 < 512)
    (fits : e < 2 ^ 64) where
  abbrev n : Memory
  n = set_entry m pt i1 e

  kept :
      (x j : ℕ) (q : List ℕ)
      → role x ≡ some q
      → j < 512
      → (pt ≢ x) ⊎ (i1 ≢ j)
      → entry n x j ≡ entry m x j
  kept x j q at hj ne =
      entry-set_entry_ne m pt i1 e x j (t.aligned pt _ c.named2) (t.aligned x q at) h1 hj ne

  upper :
      (x j : ℕ) (q : List ℕ) → role x ≡ some q → length q < 3 → j < 512 → entry n x j ≡ entry m x j
  upper x j q at l hj = kept x j q at hj (inl (level_ne role pt x _ q c.named2 at (omega arith)))

  pub Tree-leaf : Tree slot root Free role n
  Tree-leaf = record {
    rooted = t.rooted;
    aligned = t.aligned;
    taken = t.taken;
    child = λ x q j at l hj w now.
        let same = upper x j q at l hj in rw same (t.child x q j at l hj w (rw same at now));
  }

  resolve_other :
      (is : List ℕ) (x : ℕ) (q : List ℕ)
      → role x ≡ some q
      → length q + length is ≡ 4
      → IsPath slot q is
      → onto q is ≢ i4 ∷ i3 ∷ i2 ∷ i1 ∷ []
      → resolve n x is ≡ resolve m x is
  unfolding resolve
  resolve_other [] x q at l ok ne = refl
  resolve_other (j ∷ []) x q at l ok ne = rw (kept x j q at ok.0 apart)
    where
      apart : (pt ≢ x) ⊎ (i1 ≢ j)
      apart = elim (ℕ_discrete pt x) [
        | yes same ↦ inr λ hit.
            let found : some (i2 ∷ i3 ∷ i4 ∷ []) ≡ some q = sym c.named2 ∙ ap role same ∙ at in
            let path : i2 ∷ i3 ∷ i4 ∷ [] ≡ q = cc in
            ne (subst (λ r. onto r (j ∷ []) ≡ i4 ∷ i3 ∷ i2 ∷ i1 ∷ []) path (rw hit refl))
        | no other ↦ inl other
      ]
  resolve_other (j ∷ k ∷ is) x q at l ok ne =
      let same : entry n x j ≡ entry m x j = upper x j q at (omega arith) ok.0 in
      elim (Bool-cases (is_present (entry m x j))) [
        | inl there ↦
            rw (same, there)
              (resolve_other (k ∷ is) (pte_to_phys (entry m x j)) (j ∷ q)
                (t.child x q j at (omega arith) ok.0 ok.1 there) (omega arith) ok.2 ne)
        | inr absent ↦ rw (same, absent)
      ]

  -- No other address resolves differently, and this one does to the new entry.
  pub resolve-leaf_other :
      (is : List ℕ)
      → length is ≡ 4
      → IsPath slot [] is
      → is ≢ i4 ∷ i3 ∷ i2 ∷ i1 ∷ []
      → resolve n root is ≡ resolve m root is
  resolve-leaf_other is l ok ne = resolve_other is root [] t.rooted (omega arith) ok ne

  module _ (r4 : i4 < 512) (r3 : i3 < 512) (r2 : i2 < 512) where
    pub Chain-leaf : Chain root i4 i3 i2 pt role n
    Chain-leaf = record {
      pdpt = c.pdpt;
      pd = c.pd;
      rooted = c.rooted;
      named4 = c.named4;
      named3 = c.named3;
      named2 = c.named2;
      link4 = rw (upper root i4 [] t.rooted (omega arith) r4) c.link4;
      link3 = rw (upper c.pdpt i3 _ c.named4 (omega arith) r3) c.link3;
      link2 = rw (upper c.pd i2 _ c.named3 (omega arith) r2) c.link2;
    }

    pub resolve-leaf_self : resolve n root (i4 ∷ i3 ∷ i2 ∷ i1 ∷ []) ≡ leaf e
    resolve-leaf_self =
        Chain-leads Chain-leaf i1 ∙ unfold resolve in rw (entry-set_entry_self m pt i1 e fits)
