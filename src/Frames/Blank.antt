-- ===== src/Frames/Blank.antt =====
-- A pool that has just been initialised and a blank memory with an empty top-level table: concrete
-- machines to run the paging code on.
use myria.Base.{ℕ, ◌≡◌, inl, inr, refl, arith, List, [], ◌==◌, if◌then◌else◌, none, some, false}
use mathlib.Core.List.{not-mem-nil}
use myria.Pmm.{Pmm, pmm_init}
use myria.Pmm.Stack.{stack}
use myria.Pmm.Invariant.{pmm_init-Inv}
use myria.Frames.Simple.{simple, IsFree}
use myria.Memory.{entry, load64}
use myria.Paging.{is_present}
use myria.Paging.Trees.{Role}
use myria.Paging.Machine.{Machine, Sound}

abbrev pub fresh : Pmm
fresh = pmm_init (record {
  free_pages = λ _. 0;
  free_page_count = 0;
  next_page_addr = 0;
  total_pages = 0;
  allocated_pages = 0;
  freed_pages = 0;
})

pub template_not-IsFree : ¬ IsFree fresh 0x1000
unfolding pmm_init stack
template_not-IsFree (inl m) = not-mem-nil m
template_not-IsFree (inr l) = absurd (omega arith)

-- An empty top-level table, all of which belongs to the tree.
abbrev pub empty_machine : Machine Pmm
empty_machine = record { mem = λ _. 0; pmm = fresh }

abbrev pub AllSlots : ℕ → Type 0
AllSlots _ = Unit {0}

abbrev pub only_root : Role
only_root f = if f == 0x1000 then some [] else none

only_root_eq : (f : ℕ) (p : List ℕ) → only_root f ≡ some p → f ≡ 0x1000
only_root_eq f p e = ground arith

zero_entry : (f i : ℕ) → is_present (entry (λ _. 0) f i) ≡ false
unfolding load64 is_present
zero_entry f i = refl

pub empty_machine-Sound : Sound simple AllSlots 0x1000 only_root empty_machine
empty_machine-Sound = record {
  ok = ([], pmm_init-Inv _);
  tree = record {
    rooted = refl;
    aligned = λ f p e. let q = only_root_eq f p e in omega arith;
    taken = λ f p e. let q = only_root_eq f p e in rw q template_not-IsFree;
    child = λ f p i e l hi w there. let z = zero_entry f i in cc;
  };
}
