-- ===== src/KernelPages/Tests.antt =====
-- Sections in a memory without mappings.
use myria.Base.{◌%◌, ◌≡◌, arith, some}
use myria.Memory.{Memory}
use myria.Memory.Pages.{Cleared}
use myria.KernelPages.{enable_bss_write_permissions, activate_kernel_page_tables}
use myria.KernelPages.Sections.{SectionsResult, enable_bss_write_permissions-SectionsResult}
use myria.KernelPages.Bss.{activate_kernel_page_tables-Cleared}

abbrev patterned : Memory
patterned a = a % 251

enable_bss_write_permissions-SectionsResult_example :
    SectionsResult 0x1000 patterned 0x5010 0x7020
      (enable_bss_write_permissions 0x1000 0x5010 0x7020 patterned)
enable_bss_write_permissions-SectionsResult_example =
    enable_bss_write_permissions-SectionsResult 0x1000 0x5010 0x7020 patterned (omega arith)
      (omega arith)

activate_kernel_page_tables-Cleared_example :
    (n : Memory) × (activate_kernel_page_tables 100 9000 patterned ≡ some n)
    × Cleared 100 9000 patterned n
activate_kernel_page_tables-Cleared_example =
    activate_kernel_page_tables-Cleared 100 9000 patterned (omega arith) (omega arith)
