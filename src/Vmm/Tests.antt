-- ===== src/Vmm/Tests.antt =====
-- The theorems on mapping at concrete machines: an empty top-level table and the boot-time
-- frame allocator.
use mathlib.Core.List.{not-mem-nil}
use myria.Base.{
  ℕ, ◌^◌, ◌<◌, ◌≡◌, ◌≢◌, refl, arith, Bool, true, false, none, some, List, [], if◌then◌else◌, ◌==◌,
  bit_or, inl, inr,
}
use myria.Memory.{entry, load64, store64, byte_of, zero_words}
use myria.Pmm.{Pmm, pmm_init, pmm_alloc_page}
use myria.Pmm.Stack.{stack}
use myria.Pmm.Invariant.{pmm_init-Inv}
use myria.Frames.Simple.{simple, IsFree}
use myria.Paging.{
  page_present, page_write, is_present, pte_to_phys, page_align_down, pml4_index, pdpt_index,
  pd_index,
}
use myria.Paging.Entries.{page_of}
use myria.Paging.Trees.{Role, Tree}
use myria.Paging.Machine.{Machine, Sound}
use myria.Vmm.{
  walk_or_create, get_or_create, alloc_page_table, vmm_map_page, vmm_map_pages, vmm_unmap_page,
  vmm_unmap_pages, vmm_get_physical,
}
use myria.Vmm.Refine.{Maps, vmm_map_page-refines}
use myria.Vmm.Walk.{Unmaps, vmm_unmap_page-refines}
use myria.Vmm.Ranges.{UnmapsRange, IsRange, vmm_unmap_pages-UnmapsRange}
use myria.Vmm.Rollback.{MapsRange, vmm_map_pages-MapsRange}
use myria.Vmm.Translate.{vmm_get_physical-vmm_map_page, range_apart}

abbrev fresh : Pmm
fresh = pmm_init (record {
  free_pages = λ _. 0;
  free_page_count = 0;
  next_page_addr = 0;
  total_pages = 0;
  allocated_pages = 0;
  freed_pages = 0;
})

abbrev start : Machine Pmm
start = record { mem = λ _. 0; pmm = fresh }

-- All of the top level belongs to the tree.
abbrev AllSlots : ℕ → Type 0
AllSlots _ = Unit {0}

abbrev root : ℕ
root = 0x1000

abbrev only_root : Role
only_root f = if f == root then some [] else none

only_root_eq : (f : ℕ) (p : List ℕ) → only_root f ≡ some p → f ≡ root
only_root_eq f p e = ground arith

zero_entry : (f i : ℕ) → is_present (entry (λ _. 0) f i) ≡ false
unfolding load64 is_present
zero_entry f i = refl

root_not-IsFree : ¬ IsFree fresh root
unfolding pmm_init stack
root_not-IsFree (inl m) = not-mem-nil m
root_not-IsFree (inr l) = absurd (omega arith)

start-Tree : Tree AllSlots root (IsFree fresh) only_root (λ _. 0)
start-Tree = record {
  rooted = refl;
  aligned = λ f p e. let q = only_root_eq f p e in omega arith;
  taken = λ f p e. let q = only_root_eq f p e in rw q root_not-IsFree;
  child = λ f p i e l hi w there. let z = zero_entry f i in cc;
}

start-Sound : Sound simple AllSlots root only_root start
start-Sound = record { ok = ([], pmm_init-Inv _); tree = start-Tree }

vmm_map_page-refines_example :
    Maps simple AllSlots root 0x400123
      (bit_or (bit_or (page_align_down 0x345678) page_write) page_present)
      start
      (vmm_map_page simple root 0x400123 0x345678 page_write start)
vmm_map_page-refines_example =
    vmm_map_page-refines simple 0x400123 0x345678 page_write start-Sound tt (omega arith)
      (omega arith) (omega arith)

abbrev mapping : Bool × Machine Pmm
mapping = vmm_map_page simple root 0x400123 0x345678 page_write start

abbrev mapped : Machine Pmm
mapped = mapping.1

mapped-Maps :
    Maps simple AllSlots root 0x400123
      (bit_or (bit_or (page_align_down 0x345678) page_write) page_present)
      start
      mapping
mapped-Maps =
    vmm_map_page-refines simple 0x400123 0x345678 page_write start-Sound tt (omega arith)
      (omega arith) (omega arith)

mapping_works : (vmm_map_page simple root 0x400123 0x345678 page_write start).0 ≡ true
unfolding vmm_map_page walk_or_create get_or_create alloc_page_table pmm_init pmm_alloc_page
    is_present load64 store64 pml4_index page_align_down pte_to_phys byte_of pdpt_index zero_words
    pd_index
mapping_works = refl

vmm_get_physical-vmm_map_page_example :
    (vmm_get_physical mapped.mem root 0x400123 ≡ page_align_down 0x345678)
    × ((w : ℕ)
        → Unit {0}
        → w < 2 ^ 64
        → page_of w ≢ page_of 0x400123
        → vmm_get_physical mapped.mem root w ≡ vmm_get_physical start.mem root w)
unfolding pte_to_phys
vmm_get_physical-vmm_map_page_example =
    vmm_get_physical-vmm_map_page simple 0x400123 0x345678 page_write start-Sound tt (omega arith)
      (omega arith) (omega arith) refl mapping_works

vmm_unmap_page-refines_example :
    Unmaps AllSlots root 0x400123
      (IsFree mapped.pmm)
      mapped-Maps.role
      mapped.mem
      (vmm_unmap_page mapped.mem root 0x400123)
vmm_unmap_page-refines_example =
    vmm_unmap_page-refines mapped-Maps.sound.tree 0x400123 tt (omega arith)

two_pages : IsRange AllSlots 0x400000 2
two_pages = record {
  slots = λ i p. tt;
  apart = λ i j p q ne. range_apart 0x400000 2 i j (omega arith) (omega arith) p q ne;
}

vmm_unmap_pages-UnmapsRange_example :
    UnmapsRange AllSlots root
      (IsFree mapped.pmm)
      mapped-Maps.role
      0x400000
      0
      2
      mapped.mem
      (vmm_unmap_pages mapped.mem root 0x400000 2)
vmm_unmap_pages-UnmapsRange_example =
    vmm_unmap_pages-UnmapsRange 0x400000 2 two_pages mapped.mem mapped-Maps.sound.tree

vmm_map_pages-MapsRange_example :
    MapsRange simple AllSlots root 0x400000 0x300000 page_write 0 2 start
      (vmm_map_pages simple root 0x400000 0x300000 2 page_write start)
vmm_map_pages-MapsRange_example =
    vmm_map_pages-MapsRange simple 0x400000 0x300000 page_write 2 (omega arith) two_pages only_root
      start start-Sound
