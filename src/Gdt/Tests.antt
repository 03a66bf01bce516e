-- ===== src/Gdt/Tests.antt =====
-- Segments from tables that held something else.
use myria.Base.{ℕ, arith}
use myria.Gdt.{GdtEntry, Segments, gdt_init, tss_init, Msrs}
use myria.Gdt.UserMode.{Flat, tss_init-gdt_init}

abbrev ones : GdtEntry
ones = record {
  limit_low = 1;
  base_low = 1;
  base_mid = 1;
  access = 1;
  granularity = 1;
  base_high = 1;
}

abbrev table : ℕ → GdtEntry
table _ = ones

abbrev old : Segments
old = record {
  gdt = table;
  gdt_limit = 0;
  gdt_base = 0;
  tss = record {
    reserved0 = 1;
    rsp0 = 1;
    rsp1 = 1;
    rsp2 = 1;
    reserved1 = 1;
    ist1 = 1;
    ist2 = 1;
    ist3 = 1;
    ist4 = 1;
    ist5 = 1;
    ist6 = 1;
    ist7 = 1;
    reserved2 = 1;
    reserved3 = 1;
    iomap_base = 1;
  };
}

tss_init-gdt_init_example :
    Flat (tss_init 0xffffffff80105000 0x9000 0xb000 (gdt_init 0x5000 old)).gdt
tss_init-gdt_init_example =
    (tss_init-gdt_init 0x5000 0xffffffff80105000 0x9000 0xb000 old (omega arith)).0

abbrev cold : Msrs
cold = record { cr0 = 1; cr4 = 0; efer = 0x500; star = 0; lstar = 0; sfmask = 0 }
