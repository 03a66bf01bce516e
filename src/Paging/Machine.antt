-- ===== src/Paging/Machine.antt =====
-- Memory and the frame allocator together, and the laws of one step down a table tree.
use myria.Base.{
  ℕ, ◌^◌, ◌<◌, ◌≡◌, ◌≢◌, ◌⊎◌, inl, inr, sym, ap, ◌∙◌, subst, true, false, Option, none, some, List,
  ◌∷◌, length, update_self,
}
use myria.Memory.{Memory, entry, set_entry}
use myria.Memory.Pages.{
  ClearedPage, entry-ClearedPage_self, entry-ClearedPage_ne, entry-set_entry_self,
  entry-set_entry_ne,
}
use myria.Frames.{FrameAllocator, Allocated}
use myria.Paging.{is_present, pte_to_phys}
use myria.Paging.Trees.{Role, Tree, Within}
use myria.Paging.Growth.{Grows, Tree-kept}
use myria.Paging.Fresh.{extend, Tree-new, extend_keeps, assigned_ne}

-- `pmm` is the state of the frame allocator.
pub record Machine (S : Type 0) : Type 0 where
  pub mem : Memory
  pub pmm : S

module _ (A : FrameAllocator) where
  open A use {State, Ok, Free}

  pub record Sound (slot : ℕ → Type 0) (root : ℕ) (role : Role) (h : Machine State) : Type 0 where
    pub ok : Ok h.pmm
    pub tree : Tree slot root (Free h.pmm) role h.mem

  -- A step from entry `i` of the table `f`, whose role is `p`, down to the table `c`.
  pub record Stepped (slot : ℕ → Type 0) (root : ℕ) (role : Role) (f i : ℕ) (p : List ℕ)
      (h : Machine State) (c : ℕ) (h' : Machine State) : Type 0 where
    pub later : Role
    pub sound : Sound slot root later h'
    pub keeps : (x : ℕ) (q : List ℕ) → role x ≡ some q → later x ≡ some q
    pub named : later c ≡ some (i ∷ p)
    pub grows : Grows role f i h.mem h'.mem
    pub points : pte_to_phys (entry h'.mem f i) ≡ c

  -- What "get/create" may do: stop for want of memory, or step down.
  pub data StepResult (slot : ℕ → Type 0) (root : ℕ) (role : Role) (f i : ℕ) (p : List ℕ)
      (h : Machine State) : Option ℕ × Machine State → Type 0 where
    stopped :
        (h' : Machine State)
        → h'.mem ≡ h.mem
        → Sound slot root role h'
        → StepResult slot root role f i p h (none, h')
    stepped :
        (c : ℕ) (h' : Machine State)
        → Stepped slot root role f i p h c h'
        → StepResult slot root role f i p h (some c, h')

  -- A tree stays well formed when fewer frames are free.
  pub Sound-fewer :
      {slot : ℕ → Type 0} {root : ℕ} {role : Role} {h : Machine State}
      → Sound slot root role h
      → (s : State) → ((q : ℕ) → Free s q → Free h.pmm q)
      → Ok s
      → Sound slot root role (record h { pmm = s })
  Sound-fewer v s fewer ok = record {
    ok = ok;
    tree = record {
      rooted = v.tree.rooted;
      aligned = v.tree.aligned;
      taken = λ x q e free. v.tree.taken x q e (fewer x free);
      child = v.tree.child;
    };
  }

  module _ {slot : ℕ → Type 0} {root : ℕ} {role : Role} {f i : ℕ} {p : List ℕ} {h : Machine State}
      (v : Sound slot root role h) (at : role f ≡ some p) (upper : length p < 3) (hi : i < 512)
      (w : Within slot p i) where
    -- The entry is present and stays, or is written anew with the same table.
    pub Stepped-kept :
        (n : Memory)
        → is_present (entry h.mem f i) ≡ true
        → is_present (entry n f i) ≡ true
        → pte_to_phys (entry n f i) ≡ pte_to_phys (entry h.mem f i)
        → ((x j : ℕ) (q : List ℕ)
            → role x ≡ some q
            → j < 512
            → (x ≢ f) ⊎ (j ≢ i)
            → entry n x j ≡ entry h.mem x j)
        → Stepped slot root role f i p h (pte_to_phys (entry h.mem f i)) (record h { mem = n })
    Stepped-kept n there now same others =
        let g : Grows role f i h.mem n = record {
          others = others;
          linked = now;
          grown = inl (there, same);
        } in
        record {
          later = role;
          sound = record {
            ok = v.ok;
            tree = Tree-kept v.tree at upper hi w (λ q z. z) g there same;
          };
          keeps = λ x q e. e;
          named = v.tree.child f p i at upper hi w there;
          grows = g;
          points = same;
        }

    -- The entry was absent, and a cleared frame has been linked.
    pub Stepped-fresh :
        (phys : ℕ) (s : State) (cleared : Memory) (e : ℕ)
        → is_present (entry h.mem f i) ≡ false
        → Allocated Ok Free h.pmm (phys, s)
        → phys ≢ 0
        → ClearedPage phys h.mem cleared
        → is_present e ≡ true
        → pte_to_phys e ≡ phys
        → e < 2 ^ 64
        → is_present 0 ≡ false
        → Stepped slot root role f i p h phys (record { mem = set_entry cleared f i e; pmm = s })
    Stepped-fresh phys s cleared e absent given pos clear e_there e_points e_fits zero_absent =
        record {
          later = extend role phys (i ∷ p);
          sound = record {
            ok = given.stays_ok;
            tree =
                Tree-new v.tree phys (given.was_free pos) at upper given.shrinks
                  (given.is_taken pos) g points empty;
          };
          keeps = extend_keeps v.tree phys (given.was_free pos) (i ∷ p);
          named = update_self role phys (some (i ∷ p));
          grows = g;
          points = points;
        }
      where
        n : Memory
        n = set_entry cleared f i e

        f_ne : phys ≢ f
        f_ne = assigned_ne v.tree phys (given.was_free pos) f p at

        flip : {x j : ℕ} → (x ≢ f) ⊎ (j ≢ i) → (f ≢ x) ⊎ (i ≢ j)
        flip (inl ne) = inl (λ z. ne (sym z))
        flip (inr ne) = inr (λ z. ne (sym z))

        at_entry : entry n f i ≡ e
        at_entry = entry-set_entry_self cleared f i e e_fits

        points : pte_to_phys (entry n f i) ≡ phys
        points = ap pte_to_phys at_entry ∙ e_points

        empty : (j : ℕ) → j < 512 → is_present (entry n phys j) ≡ false
        empty j hj =
            ap is_present (
              entry-set_entry_ne cleared f i e phys j (v.tree.aligned f p at) (given.aligned pos) hi
                hj (inl (λ z. f_ne (sym z)))
              ∙ entry-ClearedPage_self clear j hj)
            ∙ zero_absent

        g : Grows role f i h.mem n
        g = record {
          others = λ x j q e' hj ne.
              entry-set_entry_ne cleared f i e x j (v.tree.aligned f p at) (v.tree.aligned x q e')
                hi hj (flip ne)
              ∙ entry-ClearedPage_ne clear x j (given.aligned pos) (v.tree.aligned x q e')
                  (λ z. assigned_ne v.tree phys (given.was_free pos) x q e' (sym z)) hj;
          linked = ap is_present at_entry ∙ e_there;
          grown = inr (
            absent,
            λ j hj. subst (λ y. is_present (entry n y j) ≡ false) (sym points) (empty j hj),
          );
        }
