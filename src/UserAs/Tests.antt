-- ===== src/UserAs/Tests.antt =====
-- A template in a frame that the pool has handed out.
use myria.Base.{◌%◌, ◌≡◌, ◌⊎◌, refl, arith, [], true, false}
use myria.Pmm.{Pmm}
use myria.Pmm.Invariant.{pmm_init-Inv}
use myria.Frames.Simple.{simple}
use myria.Paging.Machine.{Machine}
use myria.Vmm.Refine.{Maps}
use myria.Vmm.Refusal.{RanOut}
use myria.UserAs.{user_map_4k_in_pml4}
use myria.UserAs.Flags.{user_entry}
use myria.UserAs.{create_user_process}
use myria.UserAs.Launch.{ProcessResult, create_user_process-ProcessResult}
use myria.UserAs.Refine.{user_map_4k_in_pml4-refines}
use myria.UserAs.{user_as_create}
use myria.UserAs.Clone.{Created, user_as_create-Created}
use myria.Frames.Blank.{fresh, template_not-IsFree, empty_machine, AllSlots, empty_machine-Sound}

-- Every byte of memory holds its address, modulo 251.
abbrev start : Machine Pmm
start = record { mem = λ a. a % 251; pmm = fresh }

user_as_create-Created_example :
    (((user_as_create simple 0x1000 start).0 ≡ 0)
      × ((user_as_create simple 0x1000 start).1.mem ≡ start.mem))
    ⊎ Created simple 0x1000 start (user_as_create simple 0x1000 start)
user_as_create-Created_example =
    user_as_create-Created simple 0x1000 start ([], pmm_init-Inv _) refl (omega arith)
      template_not-IsFree

user_map_4k_in_pml4-refines_example :
    Maps simple AllSlots 0x1000 0x10000
      (user_entry 0x345000 false true)
      empty_machine
      (user_map_4k_in_pml4 simple 0x1000 0x10000 0x345000 false true empty_machine)
    × (((user_map_4k_in_pml4 simple 0x1000 0x10000 0x345000 false true empty_machine).0 ≡ true)
        ⊎ RanOut simple
            (user_map_4k_in_pml4 simple 0x1000 0x10000 0x345000 false true empty_machine).1.pmm)
user_map_4k_in_pml4-refines_example =
    user_map_4k_in_pml4-refines simple 0x10000 0x345000 false true empty_machine-Sound tt
      (omega arith)

create_user_process-ProcessResult_example :
    ProcessResult simple start (create_user_process simple 0x1000 (λ i. i % 7) 20 start)
create_user_process-ProcessResult_example =
    create_user_process-ProcessResult simple 0x1000 (λ i. i % 7) 20 start ([], pmm_init-Inv _) refl
      (omega arith) template_not-IsFree
