-- ===== src/UserMapping/Fresh.antt =====
-- Steps of the walk of `map_user_4k` that link fresh tables.
use myria.Base.{
  ℕ, ◌/◌, ◌%◌, ◌<◌, ◌≡◌, ◌≢◌, inl, inr, refl, sym, ap, subst, ◌∙◌, arith, Bool-cases, false, Option,
  none, some, ◌==◌, bit_or,
}
use myria.Base.Bits.{bit_or_fields, bit_or-zero}
use myria.Memory.{Memory, entry, set_entry, zero_bytes}
use myria.Memory.Pages.{
  entry-set_entry_self, entry-set_entry_ne, zero_bytes-ClearedPage, entry-ClearedPage_self,
}
use myria.Frames.{FrameAllocator, Allocated}
use myria.Paging.{page_present, page_user, page_write, is_present, is_huge}
use myria.Paging.Entries.{zero_absent}
use myria.Paging.Permissions.{is_huge_lem}
use myria.Paging.Machine.{Machine}
use myria.Vmm.{and_then}
use myria.Vmm.Refusal.{RanOut, Explained, found, ran_out}
use myria.UserAs.Flags.{user_table_entry}
use myria.UserMapping.{clear_page, get_or_make_table, unless_huge}

-- The two sources order the flags of a table entry differently.
pub flags_in_either_order :
    (g : ℕ)
    → g % 4096 ≡ 0
    → bit_or (bit_or (bit_or g page_present) page_user) page_write
      ≡ bit_or (bit_or (bit_or g page_present) page_write) page_user
flags_in_either_order g al = ground (
  arith,
  bit_or-zero (g / 4096),
  bit_or_fields 12 (g / 4096) 0 0 1,
  bit_or_fields 12 (g / 4096) 1 0 4,
  bit_or_fields 12 (g / 4096) 1 0 2,
  bit_or_fields 12 (g / 4096) 5 0 2,
  bit_or_fields 12 (g / 4096) 3 0 4,
)

zero_small : is_huge 0 ≡ false
zero_small = rw (is_huge_lem 0) refl

module _ (A : FrameAllocator) where
  open A use {State, alloc, alloc_lem, Ok, Free}

  -- A table without entries, in a frame that is not free.
  pub record Fresh (g : ℕ) (h : Machine State) : Type 0 where
    pub ok : Ok h.pmm
    pub aligned : g % 4096 ≡ 0
    pub taken : ¬ Free h.pmm g
    pub zeros : (j : ℕ) → j < 512 → entry h.mem g j ≡ 0

  pub data FreshStep : Option ℕ × Machine State → Type 0 where
    no_frame : (h' : Machine State) → RanOut A h'.pmm → FreshStep (none, h')
    fresh : (g : ℕ) (h' : Machine State) → Fresh g h' → FreshStep (some g, h')

  -- A step down past an entry that is not present.
  pub step_absent :
      (h : Machine State) (t i : ℕ)
      → Ok h.pmm
      → t % 4096 ≡ 0
      → ¬ Free h.pmm t
      → i < 512
      → is_present (entry h.mem t i) ≡ false
      → FreshStep (get_or_make_table A t i h)
  unfolding get_or_make_table clear_page
  step_absent h t i ok al taken lt absent =
      let given : Allocated Ok Free h.pmm (alloc h.pmm) = alloc_lem h.pmm ok in
      let g : ℕ = (alloc h.pmm).0 in
      elim (Bool-cases (g == 0)) [
        | inl none_left ↦
            rw (absent, none_left)
              (no_frame _ (record { before = h.pmm; refused = ground arith; then_left = refl }))
        | inr some_left ↦
            let pos : g ≢ 0 = λ z. ground arith in
            let al' = given.aligned pos in
            let links = user_table_entry g al' (given.in_range pos) in
            let e : ℕ = bit_or (bit_or (bit_or g page_present) page_write) page_user in
            let cleared : Memory = zero_bytes h.mem g 0 4096 in
            let apart : t ≢ g = λ z. taken (subst (Free h.pmm) (sym z) (given.was_free pos)) in
            let self : entry (set_entry cleared t i e) t i ≡ e =
              entry-set_entry_self cleared t i e links.2 in
            rw (absent, some_left, flags_in_either_order g al', self, links.1)
              (fresh g _ (record {
                ok = given.stays_ok;
                aligned = al';
                taken = given.is_taken pos;
                zeros = λ j hj.
                    entry-set_entry_ne cleared t i e g j al al' lt hj (inl apart)
                    ∙ entry-ClearedPage_self (zero_bytes-ClearedPage g h.mem) j hj;
              }))
      ]

  module _ (Large : Type 0) where
    step-Explained : (h : Machine State) (t i : ℕ) → Explained A Large (get_or_make_table A t i h)
    unfolding get_or_make_table
    step-Explained h t i = elim (Bool-cases (is_present (entry h.mem t i))) [
      | inl there ↦ rw there (found _ _)
      | inr absent ↦ elim (Bool-cases ((alloc h.pmm).0 == 0)) [
        | inl none_left ↦
            rw (absent, none_left)
              (ran_out _ (record { before = h.pmm; refused = ground arith; then_left = refl }))
        | inr some_left ↦ rw (absent, some_left) (found _ _)
      ]
    ]

    pub last_step :
        (h : Machine State) (t i : ℕ)
        → is_huge (entry h.mem t i) ≡ false
        → Explained A Large (unless_huge A t i h)
    last_step h t i small = rw small (step-Explained h t i)

    pub and_then-Fresh :
        (r : Option ℕ × Machine State) (rest : ℕ → Machine State → Option ℕ × Machine State)
        → FreshStep r
        → ((g : ℕ) (h' : Machine State) → Fresh g h' → Explained A Large (rest g h'))
        → Explained A Large (and_then A r rest)
    and_then-Fresh _ rest (no_frame h' out) go = ran_out h' out
    and_then-Fresh _ rest (fresh g h' new) go = go g h' new

    -- The last step from a fresh table, and the last two.
    pub last-Fresh :
        (k : ℕ)
        → k < 512
        → (g : ℕ) (h : Machine State) → Fresh g h
        → Explained A Large (unless_huge A g k h)
    last-Fresh k lt g h new = last_step h g k (ap is_huge (new.zeros k lt) ∙ zero_small)

    pub rest-Fresh :
        (i k : ℕ)
        → i < 512
        → k < 512
        → (g : ℕ) (h : Machine State) → Fresh g h
        → Explained A Large (and_then A (unless_huge A g i h) (λ pd h'. unless_huge A pd k h'))
    rest-Fresh i k lt lt' g h new = rw (ap is_huge (new.zeros i lt) ∙ zero_small) (
        and_then-Fresh _ (λ pd h'. unless_huge A pd k h')
          (step_absent h g i new.ok new.aligned new.taken lt
            (ap is_present (new.zeros i lt) ∙ zero_absent))
          (last-Fresh k lt'))
