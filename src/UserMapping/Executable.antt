-- ===== src/UserMapping/Executable.antt =====
-- `make_code_page_executable` on a page that is mapped.
use myria.Base.{
  ℕ, ◌^◌, ◌<◌, ◌≡◌, ◌≢◌, ◌∙◌, refl, sym, arith, Bool-cases, inl, inr, true, false, Option, none,
  some, [], bit_and, bit_not64, if◌then◌else◌,
}
use myria.Memory.{Memory, entry, set_entry}
use myria.Memory.Pages.{entry-set_entry_self}
use myria.Paging.{
  page_write, page_nx, pte_addr_mask, pml4_index, pdpt_index, pd_index, pt_index, pte_to_phys,
  is_present, is_writable, no_execute, resolve, lookup, indices,
}
use myria.Paging.Entries.{index-lt, page_of}
use myria.Paging.Permissions.{executable_entry, clear_write_lem}
use myria.Paging.Trees.{Role, Tree}
use myria.Paging.Leaf.{Chain, Chain-leaf, Tree-leaf, resolve-leaf_self, resolve-leaf_other}
use myria.Vmm.Refine.{indices-IsPath, page_of-indices_eq}
use myria.UserMapping.{blind_walk, make_code_page_executable}

step_present :
    (m : Memory) (t i : ℕ) (e : ℕ) (rest : Option ℕ)
    → (if is_present (entry m t i) then rest else none) ≡ some e
    → (is_present (entry m t i) ≡ true) × (rest ≡ some e)
step_present m t i e rest found = elim (Bool-cases (is_present (entry m t i))) [
  | inl there ↦ (there, rw there at found)
  | inr absent ↦ absurd (let odd : none ≡ some e = rw absent at found in cc)
]

module _ {slot : ℕ → Type 0} {root : ℕ} {Free : ℕ → Type 0} {role : Role} {m : Memory}
    (t : Tree slot root Free role m) (va e : ℕ) (s : slot (pml4_index va))
    (found : lookup m root va ≡ some e) where
  lt : (pml4_index va < 512) × (pdpt_index va < 512) × (pd_index va < 512) × (pt_index va < 512)
  lt = index-lt va

  abbrev pdpt : ℕ
  pdpt = pte_to_phys (entry m root (pml4_index va))

  abbrev pd : ℕ
  pd = pte_to_phys (entry m pdpt (pdpt_index va))

  abbrev pt : ℕ
  pt = pte_to_phys (entry m pd (pd_index va))

  on_the_way :
      (is_present (entry m root (pml4_index va)) ≡ true)
      × (is_present (entry m pdpt (pdpt_index va)) ≡ true)
      × (is_present (entry m pd (pd_index va)) ≡ true)
      × (is_present (entry m pt (pt_index va)) ≡ true)
      × (some (entry m pt (pt_index va)) ≡ some e)
  unfolding resolve
  on_the_way =
      let a = step_present m root (pml4_index va) e _ found in
      let b = step_present m pdpt (pdpt_index va) e _ a.1 in
      let c = step_present m pd (pd_index va) e _ b.1 in
      let d = step_present m pt (pt_index va) e _ c.1 in (a.0, b.0, c.0, d.0, d.1)

  -- The tables on the way of an address that is mapped.
  lookup-Chain : Chain root (pml4_index va) (pdpt_index va) (pd_index va) pt role m
  lookup-Chain =
      let y = on_the_way in
      let r4 = t.child root [] (pml4_index va) t.rooted (omega arith) lt.0 s y.0 in
      let r3 = t.child pdpt _ (pdpt_index va) r4 (omega arith) lt.1 tt y.1 in
      let r2 = t.child pd _ (pd_index va) r3 (omega arith) lt.2 tt y.2 in
      record {
        pdpt = pdpt;
        pd = pd;
        rooted = t.rooted;
        named4 = r4;
        named3 = r3;
        named2 = r2;
        link4 = (y.0, refl);
        link3 = (y.1, refl);
        link2 = (y.2, refl);
      }

-- What `make_code_page_executable` leaves of the page `va` that resolved to `e`.
pub record Executable (slot : ℕ → Type 0) (root va e : ℕ) (m n : Memory) : Type 0 where
  pub now : ℕ
  pub resolves : lookup n root va ≡ some now
  pub same_frame : pte_to_phys now ≡ pte_to_phys e
  pub read_only : is_writable now ≡ false
  pub fetchable : no_execute now ≡ false
  pub others :
      (w : ℕ) → slot (pml4_index w) → page_of w ≢ page_of va → lookup n root w ≡ lookup m root w

-- In a well-formed table tree in which the page is mapped, `make_code_page_executable` leaves it
-- mapped to its frame, neither writable nor barred from execution, and every other page of the
-- tree as it was.
pub make_code_page_executable-Executable :
    {slot : ℕ → Type 0} {Free : ℕ → Type 0} {role : Role} {m : Memory} (cr3 va e : ℕ)
    → Tree slot (bit_and cr3 pte_addr_mask) Free role m
    → slot (pml4_index va)
    → lookup m (bit_and cr3 pte_addr_mask) va ≡ some e
    → Executable slot (bit_and cr3 pte_addr_mask) va e m (make_code_page_executable cr3 va m)
unfolding make_code_page_executable blind_walk
make_code_page_executable-Executable {slot} {m = m} cr3 va e t s found =
    let y = on_the_way t va e s found in
    let l = lt t va e s found in
    let c = lookup-Chain t va e s found in
    let table = pt t va e s found in
    let i = pt_index va in
    let x₁ : ℕ = bit_and (entry m table i) (bit_not64 page_write) in
    let fits₁ : x₁ < 2 ^ 64 = omega (arith, clear_write_lem (entry m table i)) in
    let m₁ : Memory = set_entry m table i x₁ in
    let t₁ = Tree-leaf t c i x₁ l.3 fits₁ in
    let c₁ = Chain-leaf t c i x₁ l.3 fits₁ l.0 l.1 l.2 in
    let x₂ : ℕ = bit_and (entry m₁ table i) (bit_not64 page_nx) in
    let written : entry m₁ table i ≡ x₁ = entry-set_entry_self m table i x₁ fits₁ in
    let was : entry m table i ≡ e = cc in
    let z = executable_entry e in
    let now : x₂ ≡ bit_and (bit_and e (bit_not64 page_write)) (bit_not64 page_nx) =
      rw (written, was) refl in
    let fits₂ : x₂ < 2 ^ 64 = rw now z.0 in
    let there : is_present x₂ ≡ true = rw (now, z.1, sym was) y.3 in
    record {
      now = x₂;
      resolves = resolve-leaf_self t₁ c₁ i x₂ l.3 fits₂ l.0 l.1 l.2 ∙ rw there;
      same_frame = rw now z.2;
      read_only = rw now z.3;
      fetchable = rw now z.4;
      others = λ w sw ne.
          let apart : indices w ≢ indices va = λ same. ne (page_of-indices_eq w va same) in
          resolve-leaf_other t₁ c₁ i x₂ l.3 fits₂ (indices w) refl (indices-IsPath slot w sw) apart
          ∙ resolve-leaf_other t c i x₁ l.3 fits₁ (indices w) refl (indices-IsPath slot w sw) apart;
    }
