-- ===== src/Vmm/Walk.antt =====
-- `vmm_get_physical` and `vmm_unmap_page` against the abstract map.
use myria.Base.{
  ℕ, ◌^◌, ◌<◌, ◌≡◌, ◌≢◌, if◌then◌else◌, inl, inr, refl, sym, ap, ◌∙◌, arith, true, Option, none,
  some, Option-cases, [], ◌∷◌, subst,
}
use myria.Memory.{Memory, entry, set_entry}
use myria.Paging.{
  pml4_index, pdpt_index, pd_index, pt_index, page_align_down, lookup, indices, resolve, is_present,
  pte_to_phys,
}
use myria.Paging.Entries.{index-lt, index-page_align_down, page_of, zero_absent}
use myria.Paging.Trees.{Role, Tree}
use myria.Paging.Leaf.{Chain, Tree-leaf, resolve-leaf_self, resolve-leaf_other}
use myria.Vmm.{vmm_get_physical, vmm_unmap_page, last_table}
use myria.Vmm.Refine.{
  indices-IsPath, indices-page_align_down, page_of-indices_eq, page_of-page_align_down,
}

-- The address in an entry, or the 0 of a page that is not mapped.
abbrev pub physical : Option ℕ → ℕ
physical none = 0
physical (some e) = pte_to_phys e

get_physical_aligned :
    (mem : Memory) (root va : ℕ)
    → elim (last_table mem root va) as (λ _. ℕ) [
      | none ↦ 0
      | some pt ↦
          if is_present (entry mem pt (pt_index va))
          then pte_to_phys (entry mem pt (pt_index va))
          else 0
    ]
      ≡ physical (lookup mem root va)
unfolding last_table resolve
get_physical_aligned mem root va = ground arith

-- Translation reports the frame of the entry that the page resolves to, and 0 for a page that
-- resolves to none.
pub vmm_get_physical_lem :
    (mem : Memory) (root va : ℕ)
    → va < 2 ^ 64
    → vmm_get_physical mem root va ≡ physical (lookup mem root va)
unfolding vmm_get_physical
vmm_get_physical_lem mem root va h =
    get_physical_aligned mem root (page_align_down va)
    ∙ ap (λ is. physical (resolve mem root is)) (indices-page_align_down va h)

last_table-Chain :
    {slot : ℕ → Type 0} {root : ℕ} {Free : ℕ → Type 0} {role : Role} {m : Memory} {pt : ℕ} (va : ℕ)
    → Tree slot root Free role m
    → slot (pml4_index va)
    → last_table m root va ≡ some pt
    → Chain root (pml4_index va) (pdpt_index va) (pd_index va) pt role m
unfolding last_table
last_table-Chain {root = root} {role = role} {m = m} {pt = pt} va t s e =
    let l = index-lt va in
    let pdpt : ℕ = pte_to_phys (entry m root (pml4_index va)) in
    let pd : ℕ = pte_to_phys (entry m pdpt (pdpt_index va)) in
    let there4 : is_present (entry m root (pml4_index va)) ≡ true = ground arith in
    let there3 : is_present (entry m pdpt (pdpt_index va)) ≡ true = ground arith in
    let there2 : is_present (entry m pd (pd_index va)) ≡ true = ground arith in
    let points : pte_to_phys (entry m pd (pd_index va)) ≡ pt = ground arith in
    let named4 = t.child root [] (pml4_index va) t.rooted (omega arith) l.0 s there4 in
    let named3 = t.child pdpt _ (pdpt_index va) named4 (omega arith) l.1 tt there3 in
    record {
      pdpt = pdpt;
      pd = pd;
      rooted = t.rooted;
      named4 = named4;
      named3 = named3;
      named2 =
          subst (λ c. role c ≡ some (pd_index va ∷ pdpt_index va ∷ pml4_index va ∷ [])) points
            (t.child pd _ (pd_index va) named3 (omega arith) l.2 tt there2);
      link4 = (there4, refl);
      link3 = (there3, refl);
      link2 = (there2, points);
    }

last_table-none : (m : Memory) (root va : ℕ) → last_table m root va ≡ none → lookup m root va ≡ none
unfolding last_table resolve
last_table-none m root va e = ground arith

-- What unmapping the page of `va` leaves.
pub record Unmaps (slot : ℕ → Type 0) (root va : ℕ) (Free : ℕ → Type 0) (role : Role) (m n : Memory)
    : Type 0 where
  pub tree : Tree slot root Free role n
  pub gone : lookup n root va ≡ none
  pub others :
      (w : ℕ) → slot (pml4_index w) → page_of w ≢ page_of va → lookup n root w ≡ lookup m root w

module _ {slot : ℕ → Type 0} {root : ℕ} {Free : ℕ → Type 0} {role : Role} {m : Memory}
    (t : Tree slot root Free role m) where
  unmap_aligned :
      (va : ℕ)
      → slot (pml4_index va)
      → Unmaps slot root va Free role m
          (elim (last_table m root va) [ none ↦ m | some pt ↦ set_entry m pt (pt_index va) 0 ])
  unmap_aligned va s = elim (Option-cases (last_table m root va)) [
    | inl nowhere ↦
        rw nowhere
          (record { tree = t; gone = last_table-none m root va nowhere; others = λ w sw ne. refl })
    | inr (pt, found) ↦
        let c = last_table-Chain va t s found in
        let l = index-lt va in
        rw found (record {
          tree = Tree-leaf t c (pt_index va) 0 l.3 (omega arith);
          gone =
              resolve-leaf_self t c (pt_index va) 0 l.3 (omega arith) l.0 l.1 l.2 ∙ rw zero_absent;
          others = λ w sw ne.
              resolve-leaf_other t c (pt_index va) 0 l.3 (omega arith) (indices w) refl
                (indices-IsPath slot w sw) (λ same. ne (page_of-indices_eq w va same));
        })
  ]

  -- After unmapping an address of a well-formed tree its page resolves to no entry, every other
  -- page of the tree resolves to what it did before, and the tree is still well formed.
  pub vmm_unmap_page-refines :
      (va : ℕ)
      → slot (pml4_index va)
      → va < 2 ^ 64
      → Unmaps slot root va Free role m (vmm_unmap_page m root va)
  unfolding vmm_unmap_page
  vmm_unmap_page-refines va s h =
      let u =
        unmap_aligned (page_align_down va) (subst slot (sym (index-page_align_down va h).0) s) in
      record {
        tree = u.tree;
        gone =
            subst (λ is. resolve (vmm_unmap_page m root va) root is ≡ none)
              (indices-page_align_down va h) u.gone;
        others = λ w sw ne. u.others w sw (rw (page_of-page_align_down va h) ne);
      }
