-- ===== src/UserMapping/Tests.antt =====
-- A user's address space in a blank table.
use myria.Base.{inl, true, if◌then◌else◌, ◌==◌, refl, ◌≡◌, ◌⊎◌, false, bit_and, arith}
use myria.Frames.Simple.{simple}
use myria.Frames.Blank.{empty_machine, AllSlots, empty_machine-Sound}
use myria.Memory.{Memory, load64}
use myria.Pmm.{Pmm}
use myria.Paging.{pte_addr_mask, pte_to_phys, pml4_index, pdpt_index}
use myria.Paging.Machine.{Machine}
use myria.Paging.Entries.{is_present_lem}
use myria.Vmm.Refine.{Maps}
use myria.Vmm.Refusal.{RanOut}
use myria.UserMapping.{user_page_write, map_user_4k, setup_user_address_space}
use myria.UserMapping.Refine.{map_user_4k-refines}
use myria.UserMapping.Large.{LargeAbove, map_user_4k_large}
use myria.UserMapping.UserBits.{OnlyUser}
use myria.UserMapping.Pages.{code_entry}
use myria.UserMapping.Protection.{IsProtected, setup_user_address_space-WxorX}

map_user_4k-refines_example :
    Maps simple AllSlots
      (bit_and 0x1000 pte_addr_mask)
      0x400000
      (code_entry 0x345000)
      empty_machine
      (map_user_4k simple 0x1000 0x400000 0x345000 user_page_write empty_machine)
    × (((map_user_4k simple 0x1000 0x400000 0x345000 user_page_write empty_machine).0 ≡ false)
        ⊎ (¬ LargeAbove empty_machine.mem (bit_and 0x1000 pte_addr_mask) 0x400000))
    × (((map_user_4k simple 0x1000 0x400000 0x345000 user_page_write empty_machine).0 ≡ true)
        ⊎ LargeAbove empty_machine.mem (bit_and 0x1000 pte_addr_mask) 0x400000
        ⊎ RanOut simple
            (map_user_4k simple 0x1000 0x400000 0x345000 user_page_write empty_machine).1.pmm)
map_user_4k-refines_example =
    map_user_4k-refines simple 0x1000 0x400000 0x345000 user_page_write empty_machine-Sound tt
      ((is_present_lem user_page_write).1 refl) (omega arith)

setup_user_address_space-WxorX_example :
    IsProtected AllSlots 0x1000 empty_machine (setup_user_address_space 0x1000 empty_machine)
setup_user_address_space-WxorX_example =
    setup_user_address_space-WxorX 0x1000 empty_machine-Sound tt

-- The top-level table at 0x1000 leads to a table at 0x2000 whose first entry is a page of 1 GB.
abbrev with_large_page : Machine Pmm
with_large_page = record empty_machine {
  mem =
      λ a. if a == 0x1000 then 3 else if a == 0x1001 then 0x20 else if a == 0x2000 then 0x83 else 0;
}

large_above : LargeAbove with_large_page.mem (bit_and 0x1000 pte_addr_mask) 0x400000
unfolding load64 pte_to_phys pml4_index pdpt_index
large_above = (refl, inl refl)

map_user_4k_large_example :
    (n : Memory) × (map_user_4k simple 0x1000 0x400000 0x345000 user_page_write with_large_page
      ≡ (false, record with_large_page { mem = n }))
    × OnlyUser with_large_page.mem n
map_user_4k_large_example =
    map_user_4k_large simple 0x1000 0x400000 0x345000 user_page_write with_large_page large_above
