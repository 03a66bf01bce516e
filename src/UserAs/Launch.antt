-- ===== src/UserAs/Launch.antt =====
-- `create_user_process`: the frames and the pages of a new process.
use myria.Base.{
  ℕ, ◌%◌, ◌≡◌, ◌≢◌, ◌⊎◌, ◌∙◌, inl, inr, sym, subst, ap, arith, Bool-cases, ◌==◌, ◌||◌,
  if◌then◌else◌, ne→==_false,
}
use myria.Frames.{FrameAllocator, Allocated}
use myria.Paging.{is_present}
use myria.Paging.Entries.{zero_absent}
use myria.Paging.Machine.{Machine}
use myria.UserAs.{
  alloc_zeroed_page_phys, user_as_create, map_process, create_user_process, copy_payload_from,
}
use myria.UserAs.Clone.{user_as_create-Created}
use myria.UserAs.Process.{
  Bare, Bare-alloc_zeroed, alloc_zeroed_page_phys-Allocated, entry-copy_payload,
}
use myria.UserAs.Create.{UserPages, MapResult, refused, made, map_process-MapResult}

module _ (A : FrameAllocator) where
  open A use {State, alloc, alloc_lem, Ok, Free}

  -- A process was not made, or the frames of its top-level table and of its three pages are distinct
  -- and were free, and the user's half of its space has exactly these pages.
  pub data ProcessResult (h : Machine State) : ℕ × Machine State → Type 0 where
    no_process : (h' : Machine State) → ProcessResult h (0, h')
    process :
        (pml4 code stack1 stack0 : ℕ) (h' : Machine State)
        → Free h.pmm pml4
        → Free h.pmm code × Free h.pmm stack1 × Free h.pmm stack0
        → (pml4 ≢ code) × (pml4 ≢ stack1) × (pml4 ≢ stack0)
        → (code ≢ stack1) × (code ≢ stack0) × (stack1 ≢ stack0)
        → UserPages A pml4 code stack1 stack0 h'.mem
        → ProcessResult h (pml4, h')

  -- The space that the three frames are allocated for.
  pub record Opened (h : Machine State) (u : ℕ × Machine State) : Type 0 where
    pub bare : Bare A u.0 u.1
    pub was_free : Free h.pmm u.0
    pub fewer : (q : ℕ) → Free u.1.pmm q → Free h.pmm q

  user_as_create-Allocated :
      (template : ℕ) (h : Machine State)
      → Ok h.pmm
      → template ≢ 0
      → Allocated Ok Free h.pmm
          ((user_as_create A template h).0, (user_as_create A template h).1.pmm)
  unfolding user_as_create
  user_as_create-Allocated template h ok pos =
      let given = alloc_zeroed_page_phys-Allocated A h ok in
      elim (Bool-cases ((alloc_zeroed_page_phys A h).0 == 0)) [
        | inl out ↦
            let nothing : (alloc_zeroed_page_phys A h).0 ≡ 0 = ground arith in
            rw (ne→==_false template 0 pos, out) (rw nothing at given)
        | inr got ↦ rw (ne→==_false template 0 pos, got) given
      ]

  user_as_create-Opened :
      (template : ℕ) (h : Machine State)
      → Ok h.pmm
      → template % 4096 ≡ 0
      → template ≢ 0
      → ¬ Free h.pmm template
      → ((user_as_create A template h).0 ≡ 0) ⊎ Opened h (user_as_create A template h)
  user_as_create-Opened template h ok al pos taken =
      elim (user_as_create-Created A template h ok al pos taken) [
        | inl failed ↦ inl failed.0
        | inr c ↦ elim (Bool-cases ((user_as_create A template h).0 == 0)) [
          | inl zero_result ↦ inl (ground arith)
          | inr got ↦
              let g = user_as_create-Allocated template h ok pos in
              inr (record {
                bare = record {
                  ok = g.stays_ok;
                  aligned = g.aligned (λ z. ground arith);
                  taken = g.is_taken (λ z. ground arith);
                  empty = λ j lt. ap is_present (c.lower j lt) ∙ zero_absent;
                };
                was_free = c.was_free;
                fewer = g.shrinks;
              })
        ]
      ]

  module _ {h : Machine State} (u : ℕ × Machine State) (o : Opened h u) (payload : ℕ → ℕ)
      (size : ℕ) where
    abbrev a : ℕ × Machine State
    a = alloc_zeroed_page_phys A u.1

    abbrev b : ℕ × Machine State
    b = alloc_zeroed_page_phys A a.1

    abbrev c : ℕ × Machine State
    c = alloc_zeroed_page_phys A b.1

    Bare-a : Bare A u.0 a.1
    Bare-a = Bare-alloc_zeroed A o.bare

    Bare-b : Bare A u.0 b.1
    Bare-b = Bare-alloc_zeroed A Bare-a

    Bare-c : Bare A u.0 c.1
    Bare-c = Bare-alloc_zeroed A Bare-b

    given_a : Allocated Ok Free u.1.pmm (a.0, a.1.pmm)
    given_a = alloc_zeroed_page_phys-Allocated A u.1 o.bare.ok

    given_b : Allocated Ok Free a.1.pmm (b.0, b.1.pmm)
    given_b = alloc_zeroed_page_phys-Allocated A a.1 Bare-a.ok

    given_c : Allocated Ok Free b.1.pmm (c.0, c.1.pmm)
    given_c = alloc_zeroed_page_phys-Allocated A b.1 Bare-b.ok

    module _ (pa : a.0 ≢ 0) (pb : b.0 ≢ 0) (pc : c.0 ≢ 0) where
      c_in_a : Free a.1.pmm c.0
      c_in_a = given_b.shrinks _ (given_c.was_free pc)

      root_apart : (u.0 ≢ a.0) × (u.0 ≢ b.0) × (u.0 ≢ c.0)
      root_apart = (
        λ e. o.bare.taken (subst (Free u.1.pmm) (sym e) (given_a.was_free pa)),
        λ e. Bare-a.taken (subst (Free a.1.pmm) (sym e) (given_b.was_free pb)),
        λ e. Bare-b.taken (subst (Free b.1.pmm) (sym e) (given_c.was_free pc)),
      )

      apart : (a.0 ≢ b.0) × (a.0 ≢ c.0) × (b.0 ≢ c.0)
      apart = (
        λ e. given_a.is_taken pa (subst (Free a.1.pmm) (sym e) (given_b.was_free pb)),
        λ e. given_a.is_taken pa (subst (Free a.1.pmm) (sym e) c_in_a),
        λ e. given_b.is_taken pb (subst (Free b.1.pmm) (sym e) (given_c.was_free pc)),
      )

      free : Free h.pmm a.0 × Free h.pmm b.0 × Free h.pmm c.0
      free = (
        o.fewer _ (given_a.was_free pa),
        o.fewer _ (given_a.shrinks _ (given_b.was_free pb)),
        o.fewer _ (given_a.shrinks _ c_in_a),
      )

      -- The payload lies in the code page.
      Bare-payload :
          Bare A u.0 (record c.1 { mem = copy_payload_from c.1.mem a.0 payload size 0 4096 })
      Bare-payload = record {
        ok = Bare-c.ok;
        aligned = o.bare.aligned;
        taken = Bare-c.taken;
        empty = λ j lt.
            ap is_present (
              entry-copy_payload a.0 size payload c.1.mem u.0 j (given_a.aligned pa) o.bare.aligned
                root_apart.0 (omega arith))
            ∙ Bare-c.empty j lt;
      }

      MapResult-ProcessResult :
          {r : ℕ × Machine State} → MapResult A u.0 a.0 b.0 c.0 r → ProcessResult h r
      MapResult-ProcessResult (refused h') = no_process h'
      MapResult-ProcessResult (made h' pages) =
          process u.0 a.0 b.0 c.0 h' o.was_free free root_apart apart pages

    opened-ProcessResult : ProcessResult h (
        if (a.0 == 0) || (b.0 == 0) || (c.0 == 0)
        then (0, c.1)
        else map_process A u.0 a.0 b.0 c.0
            (record c.1 { mem = copy_payload_from c.1.mem a.0 payload size 0 4096 }))
    opened-ProcessResult = elim (Bool-cases ((a.0 == 0) || (b.0 == 0) || (c.0 == 0))) [
      | inl missing ↦ rw missing (no_process _)
      | inr all ↦
          let pa : a.0 ≢ 0 = λ z. ground arith in
          let pb : b.0 ≢ 0 = λ z. ground arith in
          let pc : c.0 ≢ 0 = λ z. ground arith in
          rw all (
            MapResult-ProcessResult pa pb pc (
              map_process-MapResult A a.0 b.0 c.0 (Bare-payload pa pb pc) (given_a.in_range pa)
                (given_b.in_range pb) (given_c.in_range pc)))
    ]

  -- From a pool in order and an aligned template in a frame that is not free, a process is
  -- refused, or the frames of its top-level table and of its code page and its two stack pages are
  -- distinct and were free, and the user's half of its space resolves exactly these three pages,
  -- all of them with the user bit: the code page as executable and not writable, the stack pages as
  -- writable and not executable.
  pub create_user_process-ProcessResult :
      (template : ℕ) (payload : ℕ → ℕ) (payload_size : ℕ) (h : Machine State)
      → Ok h.pmm
      → template % 4096 ≡ 0
      → template ≢ 0
      → ¬ Free h.pmm template
      → ProcessResult h (create_user_process A template payload payload_size h)
  unfolding create_user_process
  create_user_process-ProcessResult template payload size h ok al pos taken =
      elim (user_as_create-Opened template h ok al pos taken) [
        | inl failed ↦ rw failed (no_process _)
        | inr o ↦ elim (Bool-cases ((user_as_create A template h).0 == 0)) [
          | inl failed ↦ rw failed (no_process _)
          | inr opened ↦
              rw opened (opened-ProcessResult (user_as_create A template h) o payload size)
        ]
      ]
