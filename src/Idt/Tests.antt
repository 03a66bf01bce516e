-- ===== src/Idt/Tests.antt =====
-- Gates for stubs at kernel addresses.
use myria.Base.{ℕ, ◌^◌, ◌<◌, arith}
use myria.Idt.{IdtState, Stubs, idt_init}
use myria.Idt.Gates.{
  IsGate, Handler, divide, debug, breakpoint, invalid_opcode, double_fault, general_protection,
  page_fault, idt_init-gates,
}

abbrev stubs : Stubs
stubs = record {
  isr_0 = 0xffffffff80101000;
  isr_1 = 0xffffffff80101020;
  isr_6 = 0xffffffff80101040;
  isr_13 = 0xffffffff80101060;
  isr_14 = 0xffffffff80101080;
  generic_fault_handler = 0xffffffff80101100;
}

abbrev old : IdtState
old = record {
  idt = λ _. record {
    offset_low = 1;
    selector = 1;
    ist = 1;
    type_attr = 1;
    offset_mid = 1;
    offset_high = 1;
    zero_field = 1;
  };
  idt_limit = 0;
  idt_base = 0;
}

target_fits : (v target : ℕ) → Handler stubs v target → target < 2 ^ 64
target_fits v t divide = omega arith
target_fits v t debug = omega arith
target_fits v t breakpoint = omega arith
target_fits v t invalid_opcode = omega arith
target_fits v t double_fault = omega arith
target_fits v t general_protection = omega arith
target_fits v t page_fault = omega arith

idt_init-gates_example : IsGate 0xffffffff80101080 ((idt_init stubs 0x3000 old).idt 14)
idt_init-gates_example =
    (idt_init-gates stubs 0x3000 old (record { all = target_fits })).0 14 0xffffffff80101080
      page_fault
