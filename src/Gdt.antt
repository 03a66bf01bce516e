-- ===== src/Gdt.antt =====
-- os/kernel/arch/x86_64/gdt.c: segment descriptors, the task state segment and the frame for user
-- mode; and os/kernel/arch/x86_64/msr.c: the registers for SYSCALL. Addresses of static objects
-- are parameters; the assembly that loads tables, and what clears debug registers, is left out.
pub mod Descriptors
pub mod UserMode
mod Tests
use myria.Base.{
  ℕ, zero, suc, ◌+◌, ◌-◌, ◌*◌, ◌/◌, ◌%◌, ◌^◌, bit_and, bit_or, bit_not64, u8, u16, u32, u64, update,
}

pub record GdtEntry : Type 0 where
  pub limit_low : ℕ
  pub base_low : ℕ
  pub base_mid : ℕ
  pub access : ℕ
  pub granularity : ℕ
  pub base_high : ℕ

pub record TssEntry : Type 0 where
  pub reserved0 : ℕ
  pub rsp0 : ℕ
  pub rsp1 : ℕ
  pub rsp2 : ℕ
  pub reserved1 : ℕ
  pub ist1 : ℕ
  pub ist2 : ℕ
  pub ist3 : ℕ
  pub ist4 : ℕ
  pub ist5 : ℕ
  pub ist6 : ℕ
  pub ist7 : ℕ
  pub reserved2 : ℕ
  pub reserved3 : ℕ
  pub iomap_base : ℕ

-- The static variables of gdt.c.
pub record Segments : Type 0 where
  pub gdt : ℕ → GdtEntry
  pub gdt_limit : ℕ
  pub gdt_base : ℕ
  pub tss : TssEntry

abbrev pub kcode_sel : ℕ
kcode_sel = 0x08

abbrev pub kdata_sel : ℕ
kdata_sel = 0x10

abbrev pub ucode_sel : ℕ
ucode_sel = 0x18

abbrev pub udata_sel : ℕ
udata_sel = 0x20

abbrev pub tss_sel : ℕ
tss_sel = 0x28

-- GDT_PRESENT, GDT_DPL3, GDT_CODE_DATA, GDT_EXECUTABLE, GDT_READABLE and GDT_WRITABLE.
abbrev gdt_present : ℕ
gdt_present = 2 ^ 7

abbrev gdt_dpl3 : ℕ
gdt_dpl3 = 3 * 2 ^ 5

abbrev gdt_code_data : ℕ
gdt_code_data = 2 ^ 4

abbrev gdt_executable : ℕ
gdt_executable = 2 ^ 3

abbrev gdt_readable : ℕ
gdt_readable = 2 ^ 1

abbrev gdt_4k : ℕ
gdt_4k = 2 ^ 7

abbrev gdt_64bit : ℕ
gdt_64bit = 2 ^ 5

abbrev tss_type_available : ℕ
tss_type_available = 0x09

-- sizeof(struct tss_entry) and sizeof(gdt)
abbrev pub tss_size : ℕ
tss_size = 4 + 8 * 12 + 2 + 2

abbrev pub gdt_size : ℕ
gdt_size = 10 * 8

-- `access` and `granularity` are bytes of the caller.
unfoldable pub gdt_set_entry : (ℕ → GdtEntry) → ℕ → ℕ → ℕ → ℕ → ℕ → ℕ → GdtEntry
gdt_set_entry gdt index base limit access granularity = update gdt index (record {
  base_low = bit_and base 0xFFFF;
  base_mid = bit_and (base / 2 ^ 16) 0xFF;
  base_high = bit_and (base / 2 ^ 24) 0xFF;
  limit_low = bit_and limit 0xFFFF;
  granularity = bit_or (bit_and (limit / 2 ^ 16) 0x0F) (bit_and granularity 0xF0);
  access = access;
})

unfoldable pub gdt_set_tss : (ℕ → GdtEntry) → ℕ → ℕ → ℕ → ℕ → ℕ → GdtEntry
unfolding gdt_set_entry
gdt_set_tss gdt index base limit access =
    update (gdt_set_entry gdt index base limit access 0) (index + 1) (record {
      limit_low = bit_and (base / 2 ^ 32) 0xFFFF;
      base_low = bit_and (base / 2 ^ 48) 0xFFFF;
      base_mid = 0;
      access = 0;
      granularity = 0;
      base_high = 0;
    })

unfoldable pub clear_gdt_from : (ℕ → GdtEntry) → ℕ → ℕ → ℕ → GdtEntry
clear_gdt_from gdt i zero = gdt
clear_gdt_from gdt i (suc left) = clear_gdt_from (gdt_set_entry gdt i 0 0 0 0) (i + 1) left

-- The entries that `gdt_init` sets, in order.
abbrev pub set_segments : (ℕ → GdtEntry) → ℕ → GdtEntry
set_segments gdt =
    let g0 = gdt_set_entry gdt 0 0 0 0 0 in
    let code = bit_or (bit_or (bit_or gdt_present gdt_code_data) gdt_executable) gdt_readable in
    let data_ = bit_or (bit_or gdt_present gdt_code_data) gdt_readable in
    let g1 = gdt_set_entry g0 1 0 0xFFFFF code (bit_or gdt_4k gdt_64bit) in
    let g2 = gdt_set_entry g1 2 0 0xFFFFF data_ gdt_4k in
    let g3 = gdt_set_entry g2 3 0 0xFFFFF (bit_or code gdt_dpl3) (bit_or gdt_4k gdt_64bit) in
    gdt_set_entry g3 4 0 0xFFFFF (bit_or data_ gdt_dpl3) gdt_4k

-- `address` is that of `gdt`.
unfoldable pub gdt_init : ℕ → Segments → Segments
unfolding clear_gdt_from gdt_set_entry
gdt_init address s = record s {
  gdt = set_segments (clear_gdt_from s.gdt 0 10);
  gdt_limit = gdt_size - 1;
  gdt_base = address;
}

-- The addresses are those of `tss` and of the ends of the two stacks.
unfoldable pub tss_init : ℕ → ℕ → ℕ → Segments → Segments
unfolding gdt_set_tss
tss_init address kernel_stack_end interrupt_stack_end s = record s {
  tss = record {
    reserved0 = 0;
    rsp0 = kernel_stack_end;
    rsp1 = 0;
    rsp2 = 0;
    reserved1 = 0;
    ist1 = interrupt_stack_end;
    ist2 = 0;
    ist3 = 0;
    ist4 = 0;
    ist5 = 0;
    ist6 = 0;
    ist7 = 0;
    reserved2 = 0;
    reserved3 = 0;
    iomap_base = tss_size;
  };
  gdt = gdt_set_tss s.gdt 5 address (tss_size - 1) (bit_or gdt_present tss_type_available);
}

unfoldable pub get_kernel_stack : Segments → ℕ
get_kernel_stack s = s.tss.rsp0

unfoldable pub set_kernel_stack : ℕ → Segments → Segments
set_kernel_stack stack_top s = record s { tss = record s.tss { rsp0 = stack_top } }

-- What `enter_user` pushes for IRETQ.
pub record IretFrame : Type 0 where
  pub rip : ℕ
  pub cs : ℕ
  pub rflags : ℕ
  pub rsp : ℕ
  pub ss : ℕ

-- `~RFLAGS_TF` is a complement in 32 bits.
unfoldable pub enter_user : ℕ → ℕ → ℕ → IretFrame
enter_user rip rsp rflags = record {
  ss = bit_or udata_sel 3;
  rsp = bit_and rsp (bit_not64 0xF);
  rflags = bit_and (bit_or (bit_or rflags (2 ^ 9)) (2 ^ 16)) (2 ^ 32 - 1 - 2 ^ 8);
  cs = bit_or ucode_sel 3;
  rip = rip;
}

-- The registers that msr.c writes.
pub record Msrs : Type 0 where
  pub cr0 : ℕ
  pub cr4 : ℕ
  pub efer : ℕ
  pub star : ℕ
  pub lstar : ℕ
  pub sfmask : ℕ

unfoldable pub setup_user_mode_cr_flags : Msrs → Msrs
setup_user_mode_cr_flags m = record m { cr0 = bit_or m.cr0 (2 ^ 16); cr4 = bit_or m.cr4 (2 ^ 7) }

-- `entry` is the address of `syscall_entry`.
unfoldable pub setup_syscall_msrs : ℕ → Msrs → Msrs
unfolding setup_user_mode_cr_flags
setup_syscall_msrs entry m =
    let m₁ = setup_user_mode_cr_flags m in
    record m₁ {
      efer = bit_or m₁.efer (bit_or (2 ^ 0) (2 ^ 11));
      star = bit_or (0x18 * 2 ^ 48) (0x08 * 2 ^ 32);
      lstar = entry;
      sfmask = bit_or (bit_or (2 ^ 9) (2 ^ 10)) (2 ^ 8);
    }
