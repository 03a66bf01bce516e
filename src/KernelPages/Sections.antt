-- ===== src/KernelPages/Sections.antt =====
-- `enable_bss_write_permissions`: every page of the range becomes writable.
use myria.Base.{
  ℕ, zero, suc, ◌+◌, ◌-◌, ◌*◌, ◌/◌, ◌%◌, ◌^◌, ◌≤◌, ◌<◌, ◌≡◌, ◌∙◌, inl, inr, refl, sym, ap, subst,
  arith, Bool, bit_and, Bool-cases, Option-cases, true, false, Option, none, some, u64, ltb,
  if◌then◌else◌, ltb→lt, le→ltb_false,
}
use myria.Memory.{Memory, entry}
use myria.Paging.{
  pte_addr_mask, pte_to_phys, pml4_index, pdpt_index, pd_index, pt_index, is_present, is_writable,
  is_huge, page_align_down,
}
use myria.Paging.Entries.{index-lt, index-page_align_down, page_align_down_lem, pte_to_phys-aligned}
use myria.KernelPages.{
  Walk, walk_va_to_leaf, set_writable, make_page_writable_minimal, make_writable_from,
  page_align_up, enable_bss_write_permissions,
}
use myria.KernelPages.Walks.{
  SameButWrite-self, OnlyWrites, set_writable-OnlyWrites, set_writable-is_writable,
  walk_va_to_leaf-OnlyWrites,
}

-- A walk ends at an entry of an aligned table.
data Placed : Option Walk → Type 0 where
  nowhere : Placed none
  at_entry : (w : Walk) → w.table % 4096 ≡ 0 → w.index < 512 → Placed (some w)

Placed-entry : (w : Walk) → Placed (some w) → (w.table % 4096 ≡ 0) × (w.index < 512)
Placed-entry w (at_entry _ al lt) = (al, lt)

walk_va_to_leaf-Placed : (m : Memory) (cr3 va : ℕ) → Placed (walk_va_to_leaf m cr3 va)
unfolding walk_va_to_leaf
walk_va_to_leaf-Placed m cr3 va =
    let l = index-lt va in
    let pml4 : ℕ = bit_and cr3 pte_addr_mask in
    let e4 : ℕ = entry m pml4 (pml4_index va) in
    let e3 : ℕ = entry m (pte_to_phys e4) (pdpt_index va) in
    let e2 : ℕ = entry m (pte_to_phys e3) (pd_index va) in
    let e1 : ℕ = entry m (pte_to_phys e2) (pt_index va) in
    elim (Bool-cases (is_present e4)) [
      | inr z ↦ rw z nowhere
      | inl a ↦ elim (Bool-cases (is_present e3)) [
        | inr z ↦ rw (a, z) nowhere
        | inl b ↦ elim (Bool-cases (is_huge e3)) [
          | inl z ↦ rw (a, b, z) (at_entry _ (pte_to_phys-aligned e4) l.1)
          | inr c ↦ elim (Bool-cases (is_present e2)) [
            | inr z ↦ rw (a, b, c, z) nowhere
            | inl d ↦ elim (Bool-cases (is_huge e2)) [
              | inl z ↦ rw (a, b, c, d, z) (at_entry _ (pte_to_phys-aligned e3) l.2)
              | inr e ↦ elim (Bool-cases (is_present e1)) [
                | inr z ↦ rw (a, b, c, d, e, z) nowhere
                | inl f ↦ rw (a, b, c, d, e, f) (at_entry _ (pte_to_phys-aligned e2) l.3)
              ]
            ]
          ]
        ]
      ]
    ]

-- The address is mapped by an entry with the write bit.
abbrev pub Writable : Memory → ℕ → ℕ → Type 0
Writable m cr3 va =
    (w : Walk) × (walk_va_to_leaf m cr3 va ≡ some w)
    × (is_writable (entry m w.table w.index) ≡ true)

module _ (cr3 : ℕ) where
  placed :
      (m : Memory) (va : ℕ) (w : Walk)
      → walk_va_to_leaf m cr3 va ≡ some w
      → (w.table % 4096 ≡ 0) × (w.index < 512)
  placed m va w found = Placed-entry w (subst Placed found (walk_va_to_leaf-Placed m cr3 va))

  Writable-OnlyWrites :
      (m n : Memory) (va : ℕ) → OnlyWrites m n → Writable m cr3 va → Writable n cr3 va
  Writable-OnlyWrites m n va o (w, found, bit) =
      let p = placed m va w found in
      (w, walk_va_to_leaf-OnlyWrites m n o cr3 va ∙ found, (o w.table w.index p.0 p.1).write bit)

  OnlyWrites-trans : (m n o : Memory) → OnlyWrites m n → OnlyWrites n o → OnlyWrites m o
  OnlyWrites-trans m n o a b t j al h = record {
    present = (b t j al h).present ∙ (a t j al h).present;
    huge = (b t j al h).huge ∙ (a t j al h).huge;
    frame = (b t j al h).frame ∙ (a t j al h).frame;
    write = λ w. (b t j al h).write ((a t j al h).write w);
    rest = elim (a t j al h).rest [
      | inl same ↦ elim (b t j al h).rest [
        | inl same' ↦ inl (same' ∙ same)
        | inr (clear, set) ↦ inr (rw same at clear, set ∙ ap (λ e. u64 (e + 2)) same)
      ]
      | inr (clear, set) ↦ elim (b t j al h).rest [
        | inl same' ↦ inr (clear, same' ∙ set)
        | inr (clear', set') ↦ absurd (omega arith)
      ]
    ];
  }

  make_page_missing :
      (m : Memory) (va : ℕ)
      → walk_va_to_leaf m cr3 va ≡ none
      → make_page_writable_minimal cr3 va m ≡ (false, m)
  unfolding make_page_writable_minimal
  make_page_missing m va none_found = rw (none_found, make_page_writable_minimal) refl

  make_page_found :
      (m : Memory) (va : ℕ) (w : Walk)
      → walk_va_to_leaf m cr3 va ≡ some w
      → make_page_writable_minimal cr3 va m ≡ (true, set_writable m w.table w.index)
  unfolding make_page_writable_minimal
  make_page_found m va w found = rw (found, make_page_writable_minimal) refl

  -- What a call on one page does: it is not mapped, and the call fails; or it is writable afterwards.
  data PageResult (m : Memory) (va : ℕ) : Bool × Memory → Type 0 where
    missing : walk_va_to_leaf m cr3 va ≡ none → PageResult m va (false, m)
    writable : (n : Memory) → OnlyWrites m n → Writable n cr3 va → PageResult m va (true, n)

  make_page_writable_minimal-PageResult :
      (m : Memory) (va : ℕ) → PageResult m va (make_page_writable_minimal cr3 va m)
  make_page_writable_minimal-PageResult m va = elim (Option-cases (walk_va_to_leaf m cr3 va)) [
    | inl none_found ↦ rw (make_page_missing m va none_found) (missing none_found)
    | inr (w, found) ↦
        let p = placed m va w found in
        let n : Memory = set_writable m w.table w.index in
        let o = set_writable-OnlyWrites m w.table w.index p.0 p.1 in
        rw (make_page_found m va w found) (
          writable n o (
            w,
            walk_va_to_leaf-OnlyWrites m n o cr3 va ∙ found,
            set_writable-is_writable m w.table w.index,
          ))
  ]

  -- From `m`, the loop over the pages from `va` to `end` halted at one that is not mapped, or made
  -- them all writable and changed nothing but write bits.
  pub data Outcome (m : Memory) (va end : ℕ) : Option Memory → Type 0 where
    halted :
        (x : ℕ)
        → va ≤ x
        → x < end
        → x % 4096 ≡ 0
        → walk_va_to_leaf m cr3 x ≡ none
        → Outcome m va end none
    enabled :
        (n : Memory)
        → OnlyWrites m n
        → ((x : ℕ) → va ≤ x → x < end → x % 4096 ≡ 0 → Writable n cr3 x)
        → Outcome m va end (some n)

  -- One page made writable, and then the rest.
  Outcome-page :
      (m n : Memory) (va end : ℕ) (r : Option Memory)
      → va % 4096 ≡ 0
      → va < end
      → OnlyWrites m n
      → Writable n cr3 va
      → Outcome n (va + 0x1000) end r
      → Outcome m va end r
  Outcome-page m n va end _ al more o here (halted x a b c unmapped) =
      halted x (omega arith) b c (sym (walk_va_to_leaf-OnlyWrites m n o cr3 x) ∙ unmapped)
  Outcome-page m n va end _ al more o here (enabled n' o' rest) =
      enabled n' (OnlyWrites-trans m n n' o o') λ x a b c. elim (Bool-cases (ltb va x)) [
        | inl later ↦ let lt = ltb→lt va x later in rest x (omega arith) b c
        | inr first ↦
            let same : va ≡ x = ground arith in
            subst (Writable n' cr3) same (Writable-OnlyWrites n n' va o' here)
      ]

  Outcome-step :
      (m : Memory) (va end : ℕ)
      → va % 4096 ≡ 0
      → va < end
      → (rest : Memory → Option Memory) (r : Bool × Memory) → PageResult m va r
      → ((n : Memory) → Outcome n (va + 0x1000) end (rest n))
      → Outcome m va end (if r.0 then rest r.1 else none)
  Outcome-step m va end al lt rest _ (missing none_found) later =
      halted va (omega arith) lt al none_found
  Outcome-step m va end al lt rest _ (writable n o here) later =
      Outcome-page m n va end _ al lt o here (later n)

  make_writable_from-Outcome :
      (fuel va end : ℕ) (m : Memory)
      → va % 4096 ≡ 0
      → end % 4096 ≡ 0
      → end < 2 ^ 64
      → end ≤ va + fuel * 4096
      → Outcome m va end (make_writable_from cr3 end fuel va m)
  unfolding make_writable_from
  make_writable_from-Outcome zero va end m al al' fits enough =
      rw (le→ltb_false va end (omega arith))
        (enabled m (λ t j a b. SameButWrite-self (entry m t j)) (λ x a b c. absurd (omega arith)))
  make_writable_from-Outcome (suc fuel) va end m al al' fits enough =
      elim (Bool-cases (ltb va end)) [
        | inr done ↦
            let over : end ≤ va = ground arith in
            rw done (
              enabled m (λ t j a b. SameButWrite-self (entry m t j))
                (λ x a b c. absurd (omega arith)))
        | inl more ↦
            let lt = ltb→lt va end more in
            let next : u64 (va + 0x1000) ≡ va + 0x1000 = omega arith in
            rw (more, next)
              (Outcome-step m va end al lt (λ n. make_writable_from cr3 end fuel (va + 0x1000) n) _
                (make_page_writable_minimal-PageResult m va)
                (λ n.
                  make_writable_from-Outcome fuel (va + 0x1000) end n (omega arith) al' fits
                    (omega arith)))
      ]

  walk-page_align_down :
      (m : Memory) (x : ℕ)
      → x < 2 ^ 64
      → walk_va_to_leaf m cr3 (page_align_down x) ≡ walk_va_to_leaf m cr3 x
  unfolding walk_va_to_leaf
  walk-page_align_down m x fits =
      let e = index-page_align_down x fits in rw (e.0, e.1, e.2, e.3) refl

  -- The kernel halts because a page of the range is not mapped, or the range is writable and every
  -- address is mapped as it was.
  pub data SectionsResult (m : Memory) (start end : ℕ) : Option Memory → Type 0 where
    not_mapped :
        (x : ℕ)
        → page_align_down start ≤ x
        → x < page_align_up end
        → walk_va_to_leaf m cr3 x ≡ none
        → SectionsResult m start end none
    all_writable :
        (n : Memory)
        → OnlyWrites m n
        → ((va : ℕ) → walk_va_to_leaf n cr3 va ≡ walk_va_to_leaf m cr3 va)
        → ((x : ℕ) → start ≤ x → x < end → Writable n cr3 x)
        → SectionsResult m start end (some n)

  Outcome-SectionsResult :
      (m : Memory) (start end : ℕ) (r : Option Memory)
      → start < 2 ^ 64
      → end + 0xFFF < 2 ^ 64
      → Outcome m (page_align_down start) (page_align_up end) r
      → SectionsResult m start end r
  Outcome-SectionsResult m start end _ hs he (halted x a b c unmapped) = not_mapped x a b unmapped
  Outcome-SectionsResult m start end _ hs he (enabled n o all) =
      all_writable n o (walk_va_to_leaf-OnlyWrites m n o cr3) λ x a b.
        let d = page_align_down_lem x (omega arith) in
        let s = page_align_down_lem start hs in
        let u = page_align_down_lem (u64 (end + 0xFFF)) (omega arith) in
        let (w, found, bit) =
          all (page_align_down x) (omega (arith, d, s)) (omega (arith, d, u)) (omega (arith, d)) in
        (w, sym (walk-page_align_down n x (omega arith)) ∙ found, bit)

-- For a range whose end can be aligned upwards in 64 bits, the loop ends within the number of
-- pages computed before it: either the kernel halts because a page of the range is not mapped, or
-- every address of the range is mapped by an entry with the write bit, every entry of an aligned
-- table is as it was or has only gained the write bit, and every walk ends at the entry that it did.
pub enable_bss_write_permissions-SectionsResult :
    (cr3 start end : ℕ) (m : Memory)
    → start < 2 ^ 64
    → end + 0xFFF < 2 ^ 64
    → SectionsResult cr3 m start end (enable_bss_write_permissions cr3 start end m)
unfolding enable_bss_write_permissions
enable_bss_write_permissions-SectionsResult cr3 start end m hs he =
    let s = page_align_down_lem start hs in
    let u = page_align_down_lem (u64 (end + 0xFFF)) (omega arith) in
    Outcome-SectionsResult cr3 m start end _ hs he (
      make_writable_from-Outcome cr3 ((page_align_up end - page_align_down start) / 0x1000)
        (page_align_down start) (page_align_up end) m (omega (arith, s)) (omega (arith, u))
        (omega (arith, u)) (omega (arith, s, u)))
