-- ===== src/UserAs/Clone.antt =====
-- A new address space: the kernel's half is that of the template, the user's half is empty.
use myria.Base.{
  ℕ, zero, suc, ◌+◌, ◌%◌, ◌<◌, ◌≤◌, ◌≡◌, ◌≢◌, ◌⊎◌, inl, inr, refl, arith, sym, ap, ◌∙◌, Bool-cases,
  ◌==◌, u64, ne→==_false,
}
use native.Mathlib.Decide.{ℕ_discrete}
use myria.Memory.{Memory, entry, set_entry, zero_bytes}
use myria.Memory.Pages.{
  zero_bytes-ClearedPage, entry-ClearedPage_self, entry-ClearedPage_ne, entry-set_entry_self,
  entry-set_entry_ne,
}
use myria.Frames.{FrameAllocator, Allocated}
use myria.Paging.Machine.{Machine}
use myria.UserAs.{copy_entries_from, alloc_zeroed_page_phys, user_as_create}

-- `n` is `m` with the entries of `to` from `lo` up to `hi` copied from `from`.
pub record Copied (to from lo hi : ℕ) (m n : Memory) : Type 0 where
  pub inside : (j : ℕ) → lo ≤ j → j < hi → entry n to j ≡ u64 (entry m from j)
  pub outside : (j : ℕ) → j < 512 → (j < lo) ⊎ (hi ≤ j) → entry n to j ≡ entry m to j
  pub others : (f j : ℕ) → f % 4096 ≡ 0 → f ≢ to → j < 512 → entry n f j ≡ entry m f j

module _ (to from : ℕ) (apart : from ≢ to) (to_aligned : to % 4096 ≡ 0)
    (from_aligned : from % 4096 ≡ 0) where
  copy_entries_from-Copied :
      (left i : ℕ) (m : Memory)
      → i + left ≤ 512
      → Copied to from i (i + left) m (copy_entries_from m to from i left)
  unfolding copy_entries_from
  copy_entries_from-Copied zero i m le = record {
    inside = λ j a b. absurd (omega arith);
    outside = λ j lt why. refl;
    others = λ f j al ne lt. refl;
  }
  copy_entries_from-Copied (suc left) i m le =
      let v : ℕ = u64 (entry m from i) in
      let rest = copy_entries_from-Copied left (i + 1) (set_entry m to i v) (omega arith) in
      record {
        inside = λ j a b. elim (ℕ_discrete j i) [
          | yes here ↦ rw here (
              rest.outside i (omega arith) (inl (omega arith))
              ∙ entry-set_entry_self m to i v (omega arith))
          | no later ↦
              rest.inside j (omega arith) (omega arith)
              ∙ ap u64 (
                  entry-set_entry_ne m to i v from j to_aligned from_aligned (omega arith)
                    (omega arith) (inl (λ z. apart (sym z))))
        ];
        outside = λ j lt why.
            rest.outside j lt (omega arith)
            ∙ entry-set_entry_ne m to i v to j to_aligned to_aligned (omega arith) lt
                (inr (λ z. absurd (omega arith)));
        others = λ f j al ne lt.
            rest.others f j al ne lt
            ∙ entry-set_entry_ne m to i v f j to_aligned al (omega arith) lt
                (inl (λ z. ne (sym z)));
      }

module _ (A : FrameAllocator) where
  open A use {State, alloc, alloc_lem, Ok, Free}

  -- A new address space `r.0`: a frame that was free; its upper half is the template's, its lower
  -- half has no entries, and the tables in other frames are as before.
  pub record Created (template : ℕ) (h : Machine State) (r : ℕ × Machine State) : Type 0 where
    pub was_free : Free h.pmm r.0
    pub upper : (j : ℕ) → 256 ≤ j → j < 512 → entry r.1.mem r.0 j ≡ u64 (entry h.mem template j)
    pub lower : (j : ℕ) → j < 256 → entry r.1.mem r.0 j ≡ 0
    pub others : (f j : ℕ) → f % 4096 ≡ 0 → f ≢ r.0 → j < 512 → entry r.1.mem f j ≡ entry h.mem f j

  created :
      {h : Machine State} (template pa : ℕ) (s : State)
      → template % 4096 ≡ 0
      → ¬ Free h.pmm template
      → pa ≢ 0
      → Allocated Ok Free h.pmm (pa, s)
      → Created template h (
        pa,
        record {
          mem = copy_entries_from (zero_bytes h.mem pa 0 4096) pa template 256 256;
          pmm = s;
        },
      )
  created {h} template pa s al taken pos given =
      let apart : template ≢ pa = λ e. taken (rw e (given.was_free pos)) in
      let z = zero_bytes-ClearedPage pa h.mem in
      let c =
        copy_entries_from-Copied pa template apart (given.aligned pos) al 256 256
          (zero_bytes h.mem pa 0 4096) (omega arith) in
      record {
        was_free = given.was_free pos;
        upper = λ j a b.
            c.inside j a (omega arith)
            ∙ ap u64 (entry-ClearedPage_ne z template j (given.aligned pos) al apart b);
        lower =
            λ j lt. c.outside j (omega arith) (inl lt) ∙ entry-ClearedPage_self z j (omega arith);
        others = λ f j fal ne lt.
            c.others f j fal ne lt ∙ entry-ClearedPage_ne z f j (given.aligned pos) fal ne lt;
      }

  -- With a page-aligned template that is not a free frame, `user_as_create` either returns 0 and
  -- changes no memory, or returns a frame that was free, whose upper 256 entries are those of the
  -- template and whose lower 256 entries are empty; tables in other frames stay as they were.
  pub user_as_create-Created :
      (template : ℕ) (h : Machine State)
      → Ok h.pmm
      → template % 4096 ≡ 0
      → template ≢ 0
      → ¬ Free h.pmm template
      → (((user_as_create A template h).0 ≡ 0) × ((user_as_create A template h).1.mem ≡ h.mem))
        ⊎ Created template h (user_as_create A template h)
  unfolding user_as_create alloc_zeroed_page_phys
  user_as_create-Created template h ok al pos taken = elim (Bool-cases ((alloc h.pmm).0 == 0)) [
    | inl out ↦ rw (ne→==_false template 0 pos, out) (inl (refl, refl))
    | inr got ↦
        rw (ne→==_false template 0 pos, got, got)
          (inr (
            created template (alloc h.pmm).0 (alloc h.pmm).1 al taken (λ z. ground arith)
              (alloc_lem h.pmm ok)))
  ]
