-- ===== src/Gdt/UserMode.antt =====
-- The segments of the kernel and of user mode, and the ways between the two.
use myria.Base.{
  ℕ, ◌+◌, ◌-◌, ◌*◌, ◌/◌, ◌%◌, ◌^◌, ◌<◌, ◌≤◌, ◌≡◌, ◌≢◌, refl, arith, ap, ◌∙◌, bit_and, bit_or,
  bit_not64,
}
use myria.Base.Bits.{
  bit_and_mask, bit_and_fields, bit_and-zero, bit_or_fields, bit_or-zero, bit_or_step, bit_and_step,
}
use myria.Gdt.{
  GdtEntry, Segments, gdt_set_entry, gdt_init, tss_init, clear_gdt_from, get_kernel_stack,
  kcode_sel, kdata_sel, ucode_sel, udata_sel, tss_sel, enter_user, Msrs, setup_syscall_msrs,
}
use myria.Gdt.Descriptors.{descriptor, system_base, entry_limit, gdt_set_tss-Reads}

-- The descriptors of a flat 64-bit memory: null, kernel code and data, user code and data.
pub record Flat (gdt : ℕ → GdtEntry) : Type 0 where
  pub null : descriptor (gdt 0) ≡ 0
  pub kernel_code : descriptor (gdt (kcode_sel / 8)) ≡ 0x00AF_9A00_0000_FFFF
  pub kernel_data : descriptor (gdt (kdata_sel / 8)) ≡ 0x008F_9200_0000_FFFF
  pub user_code : descriptor (gdt (ucode_sel / 8)) ≡ 0x00AF_FA00_0000_FFFF
  pub user_data : descriptor (gdt (udata_sel / 8)) ≡ 0x008F_F200_0000_FFFF

gdt_init-Flat : (address : ℕ) (s : Segments) → Flat (gdt_init address s).gdt
unfolding gdt_init clear_gdt_from gdt_set_entry
gdt_init-Flat address s = record {
  null = refl;
  kernel_code = refl;
  kernel_data = refl;
  user_code = refl;
  user_data = refl;
}

Flat-cong : {g h : ℕ → GdtEntry} → ((j : ℕ) → j < 5 → h j ≡ g j) → Flat g → Flat h
Flat-cong same v = record {
  null = ap descriptor (same 0 (omega arith)) ∙ v.null;
  kernel_code = ap descriptor (same 1 (omega arith)) ∙ v.kernel_code;
  kernel_data = ap descriptor (same 2 (omega arith)) ∙ v.kernel_data;
  user_code = ap descriptor (same 3 (omega arith)) ∙ v.user_code;
  user_data = ap descriptor (same 4 (omega arith)) ∙ v.user_data;
}

-- Whatever the tables held before, after both initialisations they hold the null descriptor, flat
-- 64-bit code and data segments for the kernel and for user mode, and an available task state
-- segment at its 64-bit address with its 104 bytes, whose stack for ring 0 is the one given.
pub tss_init-gdt_init :
    (gdt_address tss_address kernel_stack_end interrupt_stack_end : ℕ) (s : Segments)
    → tss_address < 2 ^ 64
    → Flat (tss_init tss_address kernel_stack_end interrupt_stack_end (gdt_init gdt_address s)).gdt
      × (system_base
            ((tss_init tss_address kernel_stack_end interrupt_stack_end
                (gdt_init gdt_address s)).gdt
              (tss_sel / 8))
            ((tss_init tss_address kernel_stack_end interrupt_stack_end
                (gdt_init gdt_address s)).gdt
              (tss_sel / 8 + 1))
          ≡ tss_address)
      × (entry_limit (
            (tss_init tss_address kernel_stack_end interrupt_stack_end (gdt_init gdt_address s)).gdt
              (tss_sel / 8))
          ≡ 103)
      × (((tss_init tss_address kernel_stack_end interrupt_stack_end (gdt_init gdt_address s)).gdt
            (tss_sel / 8)).access
          ≡ 0x89)
      × (get_kernel_stack
            (tss_init tss_address kernel_stack_end interrupt_stack_end (gdt_init gdt_address s))
          ≡ kernel_stack_end)
unfolding tss_init get_kernel_stack
tss_init-gdt_init gdt_address tss_address kernel_stack_end interrupt_stack_end s fits =
    let r =
      gdt_set_tss-Reads (gdt_init gdt_address s).gdt 5 tss_address 103 0x89 fits (omega arith) in
    (
      Flat-cong (λ j lt. r.3 j (λ z. absurd (omega arith)) (λ z. absurd (omega arith)))
          (gdt_init-Flat gdt_address s),
      r.0,
      r.1,
      r.2,
      refl,
    )

or_odd : (x : ℕ) → bit_or x (2 ^ 9) / 2 ^ 9 % 2 ≡ 1
or_odd x = ground (
  arith,
  bit_or_fields 9 (x / 2 ^ 9) (x % 2 ^ 9) 1 0,
  bit_or-zero (x % 2 ^ 9),
  bit_or_step (x / 2 ^ 9) 1,
)

or_keeps : (x : ℕ) → bit_or x (2 ^ 16) / 2 ^ 9 % 2 ≡ x / 2 ^ 9 % 2
or_keeps x = ground (
  arith,
  bit_or_fields 9 (x / 2 ^ 9) (x % 2 ^ 9) (2 ^ 7) 0,
  bit_or-zero (x % 2 ^ 9),
  bit_or_step (x / 2 ^ 9) (2 ^ 7),
)

-- What the mask of `clean_rflags` leaves above its low eight bits.
masked : (x : ℕ) → bit_and x (2 ^ 32 - 1 - 2 ^ 8) / 2 ^ 8 ≡ bit_and (x / 2 ^ 8) (2 ^ 24 - 2)
masked x = ground (
  arith,
  bit_and_fields 8 (x / 2 ^ 8) (x % 2 ^ 8) (2 ^ 24 - 2) (2 ^ 8 - 1),
  bit_and_mask 8 (x % 2 ^ 8),
)

mask_bits :
    (x : ℕ)
    → (bit_and x (2 ^ 32 - 1 - 2 ^ 8) / 2 ^ 8 % 2 ≡ 0)
      × (bit_and x (2 ^ 32 - 1 - 2 ^ 8) / 2 ^ 9 % 2 ≡ x / 2 ^ 9 % 2)
mask_bits x =
    ground (arith, masked x, bit_and_step (x / 2 ^ 8) (2 ^ 24 - 2), bit_and_mask 23 (x / 2 ^ 9))

align16 : (x : ℕ) → x < 2 ^ 64 → bit_and x (bit_not64 0xF) ≡ x / 2 ^ 4 * 2 ^ 4
align16 x fits = ground (
  arith,
  bit_and_fields 4 (x / 2 ^ 4) (x % 2 ^ 4) (2 ^ 60 - 1) 0,
  bit_and_mask 60 (x / 2 ^ 4),
  bit_and-zero (x % 2 ^ 4),
)

-- The frame for user mode enables interrupts and no single step whatever flags are asked for, has
-- a stack pointer that is a multiple of 16 and at most 15 bytes below the one given, and selects
-- the user code and data segments with privilege 3.
pub enter_user_frame :
    (rip rsp rflags : ℕ)
    → rsp < 2 ^ 64
    → ((enter_user rip rsp rflags).rflags / 2 ^ 9 % 2 ≡ 1)
      × ((enter_user rip rsp rflags).rflags / 2 ^ 8 % 2 ≡ 0)
      × ((enter_user rip rsp rflags).rsp % 16 ≡ 0)
      × ((enter_user rip rsp rflags).rsp ≤ rsp)
      × (rsp < (enter_user rip rsp rflags).rsp + 16)
      × ((enter_user rip rsp rflags).cs ≡ ucode_sel + 3)
      × ((enter_user rip rsp rflags).ss ≡ udata_sel + 3)
unfolding enter_user
enter_user_frame rip rsp rflags fits =
    let x : ℕ = bit_or (bit_or rflags (2 ^ 9)) (2 ^ 16) in
    let m = mask_bits x in
    let a = align16 rsp fits in
    (
      m.1 ∙ or_keeps (bit_or rflags (2 ^ 9)) ∙ or_odd rflags,
      m.0,
      omega (arith, a),
      omega (arith, a),
      omega (arith, a),
      refl,
      refl,
    )

-- What SYSCALL and a 64-bit SYSRET load from STAR.
abbrev pub syscall_cs : Msrs → ℕ
syscall_cs m = m.star / 2 ^ 32 % 2 ^ 16

abbrev pub syscall_ss : Msrs → ℕ
syscall_ss m = m.star / 2 ^ 32 % 2 ^ 16 + 8

abbrev pub sysret_cs : Msrs → ℕ
sysret_cs m = m.star / 2 ^ 48 + 16

abbrev pub sysret_ss : Msrs → ℕ
sysret_ss m = m.star / 2 ^ 48 + 8

-- Once the registers for system calls are set up, SYSCALL enters the kernel's code and data
-- segments at the entry point given, and SYSRET returns to the user data segment, but with the
-- selector of the task state segment in place of that of the user code segment.
pub setup_syscall_msrs_selectors :
    (entry : ℕ) (m : Msrs)
    → ((setup_syscall_msrs entry m).lstar ≡ entry)
      × (syscall_cs (setup_syscall_msrs entry m) ≡ kcode_sel)
      × (syscall_ss (setup_syscall_msrs entry m) ≡ kdata_sel)
      × (sysret_ss (setup_syscall_msrs entry m) ≡ udata_sel)
      × (sysret_cs (setup_syscall_msrs entry m) ≡ tss_sel)
      × (sysret_cs (setup_syscall_msrs entry m) ≢ ucode_sel)
unfolding setup_syscall_msrs
setup_syscall_msrs_selectors entry m = (refl, refl, refl, refl, refl, λ e. absurd (omega arith))
