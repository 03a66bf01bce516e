-- ===== src/UserAs/Process.antt =====
-- `create_user_process`: what a new process sees of memory.
use myria.Base.{
  ℕ, zero, suc, ◌+◌, ◌*◌, ◌%◌, ◌≤◌, ◌<◌, ◌≡◌, ◌≢◌, ◌⊎◌, ◌∙◌, inl, inr, refl, sym, subst, ap, arith,
  Bool-cases, true, false, none, some, List, [], ◌==◌, if◌then◌else◌, update, ltb,
}
use myria.Memory.{Memory, entry}
use myria.Memory.Words.{load64_cong}
use myria.Memory.Pages.{zero_bytes-ClearedPage, entry-ClearedPage_ne}
use myria.Frames.{FrameAllocator, Allocated}
use myria.Paging.{is_present}
use myria.Paging.Trees.{Role, Within}
use myria.Paging.Machine.{Machine, Sound}
use myria.UserAs.{alloc_zeroed_page_phys, copy_payload_from}

-- The copy of the payload stays within its page.
copy_payload_outside :
    (left i base size : ℕ) (payload : ℕ → ℕ) (m : Memory) (b : ℕ)
    → (b < base + i) ⊎ (base + i + left ≤ b)
    → copy_payload_from m base payload size i left b ≡ m b
unfolding copy_payload_from
copy_payload_outside zero i base size payload m b out = refl
copy_payload_outside (suc left) i base size payload m b out =
    let e =
      copy_payload_outside left (i + 1) base size payload (update m (base + i) (payload i)) b
        (grind arith) in
    elim (Bool-cases (ltb i size)) [ inl more ↦ rw more (ground arith) | inr done ↦ rw done refl ]

pub entry-copy_payload :
    (base size : ℕ) (payload : ℕ → ℕ) (m : Memory) (t j : ℕ)
    → base % 4096 ≡ 0
    → t % 4096 ≡ 0
    → t ≢ base
    → j < 512
    → entry (copy_payload_from m base payload size 0 4096) t j ≡ entry m t j
entry-copy_payload base size payload m t j hb ht ne h =
    load64_cong (copy_payload_from m base payload size 0 4096) m (t + j * 8) (t + j * 8)
      (λ k p. copy_payload_outside 4096 0 base size payload m (t + j * 8 + k) (grind arith))

-- The user's half of an address space.
abbrev pub UserHalf : ℕ → Type 0
UserHalf i = i < 256

abbrev pub root_only : ℕ → Role
root_only root f = if root == f then some [] else none

root_only_eq : (root f : ℕ) (p : List ℕ) → root_only root f ≡ some p → (f ≡ root) × ([] ≡ p)
root_only_eq root f p e = elim (Bool-cases (root == f)) [
  | inl same ↦ let q : some [] ≡ some p = rw same at e in (ground arith, cc)
  | inr other ↦ absurd (let q : none ≡ some p = rw other at e in cc)
]

module _ (A : FrameAllocator) where
  open A use {State, alloc, alloc_lem, Ok, Free}

  pub alloc_zeroed_page_phys-Allocated :
      (h : Machine State)
      → Ok h.pmm
      → Allocated Ok Free h.pmm ((alloc_zeroed_page_phys A h).0, (alloc_zeroed_page_phys A h).1.pmm)
  unfolding alloc_zeroed_page_phys
  alloc_zeroed_page_phys-Allocated h ok =
      let given = alloc_lem h.pmm ok in
      elim (Bool-cases ((alloc h.pmm).0 == 0)) [
        | inl out ↦ rw out (record {
          stays_ok = given.stays_ok;
          shrinks = given.shrinks;
          aligned = λ odd. absurd (odd refl);
          in_range = λ odd. absurd (odd refl);
          was_free = λ odd. absurd (odd refl);
          is_taken = λ odd. absurd (odd refl);
        })
        | inr got ↦ rw got given
      ]

  -- `root` is a table in a frame that is not free, and its lower half has no entries.
  pub record Bare (root : ℕ) (h : Machine State) : Type 0 where
    pub ok : Ok h.pmm
    pub aligned : root % 4096 ≡ 0
    pub taken : ¬ Free h.pmm root
    pub empty : (j : ℕ) → j < 256 → is_present (entry h.mem root j) ≡ false

  -- Zeroing a free frame leaves the table in another frame as it was.
  entry-alloc_zeroed :
      {root : ℕ} {h : Machine State}
      → Bare root h
      → (j : ℕ) → j < 512
      → entry (alloc_zeroed_page_phys A h).1.mem root j ≡ entry h.mem root j
  unfolding alloc_zeroed_page_phys
  entry-alloc_zeroed {root} {h} b j lt =
      let a = alloc_lem h.pmm b.ok in
      elim (Bool-cases ((alloc h.pmm).0 == 0)) [
        | inl out ↦ rw out refl
        | inr got ↦
            let pos : (alloc h.pmm).0 ≢ 0 = λ z. ground arith in
            rw got (
              entry-ClearedPage_ne (zero_bytes-ClearedPage (alloc h.pmm).0 h.mem) root j
                (a.aligned pos) b.aligned
                (λ e. b.taken (subst (Free h.pmm) (sym e) (a.was_free pos))) lt)
      ]

  pub Bare-alloc_zeroed :
      {root : ℕ} {h : Machine State} → Bare root h → Bare root (alloc_zeroed_page_phys A h).1
  Bare-alloc_zeroed {root} {h} b = record {
    ok = given.stays_ok;
    aligned = b.aligned;
    taken = λ free. b.taken (given.shrinks root free);
    empty = λ j lt. ap is_present (entry-alloc_zeroed b j (omega arith)) ∙ b.empty j lt;
  }
    where
      given :
          Allocated Ok Free h.pmm
            ((alloc_zeroed_page_phys A h).0, (alloc_zeroed_page_phys A h).1.pmm)
      given = alloc_zeroed_page_phys-Allocated h b.ok

  pub Bare-Sound :
      {root : ℕ} {h : Machine State} → Bare root h → Sound A UserHalf root (root_only root) h
  Bare-Sound {root} {h} b = record {
    ok = b.ok;
    tree = record {
      rooted = ground arith;
      aligned = λ f p e. rw (root_only_eq root f p e).0 b.aligned;
      taken = λ f p e. rw (root_only_eq root f p e).0 b.taken;
      child = λ f p i e l hi w there.
          let q = root_only_eq root f p e in
          absurd (
            let z = b.empty i (within p i q.1 w) in
            let t : is_present (entry h.mem root i) ≡ true = rw q.0 at there in cc);
    };
  }
    where
      within : (p : List ℕ) (i : ℕ) → [] ≡ p → Within UserHalf p i → i < 256
      within p i e w = subst (λ r. Within UserHalf r i) (sym e) w
