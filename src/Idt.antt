-- ===== src/Idt.antt =====
-- os/kernel/arch/x86_64/idt_minimal.c: the interrupt gates and the fault handler. The addresses of
-- the assembly stubs are parameters; log lines and the loading of the table are left out.
pub mod Gates
mod Tests
use myria.Base.{
  ℕ, zero, suc, ◌+◌, ◌-◌, ◌*◌, ◌/◌, ◌^◌, bit_and, Option, none, some, ◌==◌, if◌then◌else◌, update,
}

pub record IdtEntry : Type 0 where
  pub offset_low : ℕ
  pub selector : ℕ
  pub ist : ℕ
  pub type_attr : ℕ
  pub offset_mid : ℕ
  pub offset_high : ℕ
  pub zero_field : ℕ

-- The static variables.
pub record IdtState : Type 0 where
  pub idt : ℕ → IdtEntry
  pub idt_limit : ℕ
  pub idt_base : ℕ

-- The stubs: isr_0, isr_1, isr_6, isr_13, isr_14 and generic_fault_handler.
pub record Stubs : Type 0 where
  pub isr_0 : ℕ
  pub isr_1 : ℕ
  pub isr_6 : ℕ
  pub isr_13 : ℕ
  pub isr_14 : ℕ
  pub generic_fault_handler : ℕ

unfoldable pub idt_set_gate : (ℕ → IdtEntry) → ℕ → ℕ → ℕ → ℕ → ℕ → IdtEntry
idt_set_gate idt num base sel flags = update idt num (record {
  offset_low = bit_and base 0xFFFF;
  offset_mid = bit_and (base / 2 ^ 16) 0xFFFF;
  offset_high = bit_and (base / 2 ^ 32) 0xFFFF_FFFF;
  selector = sel;
  ist = 0;
  type_attr = flags;
  zero_field = 0;
})

unfoldable pub clear_idt_from : (ℕ → IdtEntry) → ℕ → ℕ → ℕ → IdtEntry
clear_idt_from idt i zero = idt
clear_idt_from idt i (suc left) = clear_idt_from (idt_set_gate idt i 0 0 0) (i + 1) left

-- The gates that `idt_init` sets, in order.
abbrev pub set_gates : Stubs → (ℕ → IdtEntry) → ℕ → IdtEntry
set_gates s idt =
    let i0 = idt_set_gate idt 0 s.isr_0 0x08 0x8E in
    let i1 = idt_set_gate i0 1 s.isr_1 0x08 0x8E in
    let i2 = idt_set_gate i1 3 s.generic_fault_handler 0x08 0x8E in
    let i3 = idt_set_gate i2 6 s.isr_6 0x08 0x8E in
    let i4 = idt_set_gate i3 8 s.generic_fault_handler 0x08 0x8E in
    let i5 = idt_set_gate i4 13 s.isr_13 0x08 0x8E in idt_set_gate i5 14 s.isr_14 0x08 0x8E

-- `address` is that of `idt`.
unfoldable pub idt_init : Stubs → ℕ → IdtState → IdtState
idt_init stubs address g = record {
  idt = set_gates stubs (clear_idt_from g.idt 0 32);
  idt_limit = 32 * 16 - 1;
  idt_base = address;
}

-- How a fault ends: the interrupted code goes on, with the debug status given, or the processor
-- halts for good.
pub data FaultEnd : Type 0 where
  resumes : ℕ → FaultEnd
  halts : FaultEnd

-- Only the debug exception returns, once it has cleared DR6.
unfoldable pub handle_fault_with_vector : ℕ → ℕ → FaultEnd
handle_fault_with_vector vector error_code = if vector == 1 then resumes 0 else halts

unfoldable pub handle_fault : FaultEnd
unfolding handle_fault_with_vector
handle_fault = handle_fault_with_vector 99 0
