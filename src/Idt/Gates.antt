-- ===== src/Idt/Gates.antt =====
-- Gates as the processor reads them.
use myria.Base.{
  ℕ, zero, suc, ◌+◌, ◌*◌, ◌/◌, ◌^◌, ◌<◌, ◌≤◌, ◌≡◌, ◌≢◌, ◌⊎◌, inl, inr, refl, arith, sym, ap, subst,
  ◌∙◌, bit_and, ◌==◌, false, ne→==_false, update_self, update_ne,
}
use native.Mathlib.Decide.{ℕ_discrete}
use myria.Base.Bits.{bit_and_mask}
use myria.Idt.{IdtEntry, IdtState, Stubs, idt_set_gate, clear_idt_from, idt_init}

abbrev pub gate_offset : IdtEntry → ℕ
gate_offset e = e.offset_low + e.offset_mid * 2 ^ 16 + e.offset_high * 2 ^ 32

-- A present interrupt gate to `target` in the kernel's code segment, on the current stack.
pub record IsGate (target : ℕ) (e : IdtEntry) : Type 0 where
  pub offset : gate_offset e ≡ target
  pub segment : e.selector ≡ 0x08
  pub present : e.type_attr ≡ 0x8E
  pub stack : e.ist ≡ 0

-- The vectors that have a handler, and its stub.
pub data Handler (s : Stubs) : ℕ → ℕ → Type 0 where
  divide : Handler s 0 s.isr_0
  debug : Handler s 1 s.isr_1
  breakpoint : Handler s 3 s.generic_fault_handler
  invalid_opcode : Handler s 6 s.isr_6
  double_fault : Handler s 8 s.generic_fault_handler
  general_protection : Handler s 13 s.isr_13
  page_fault : Handler s 14 s.isr_14

-- All stubs have 64-bit addresses.
pub record InRange (s : Stubs) : Type 0 where
  pub all : (v target : ℕ) → Handler s v target → target < 2 ^ 64

-- Writing a gate reads back as its whole 64-bit address, with the selector and the flags given,
-- and changes no other gate.
pub idt_set_gate-reads :
    (idt : ℕ → IdtEntry) (num base sel flags : ℕ)
    → base < 2 ^ 64
    → (gate_offset (idt_set_gate idt num base sel flags num) ≡ base)
      × ((idt_set_gate idt num base sel flags num).selector ≡ sel)
      × ((idt_set_gate idt num base sel flags num).type_attr ≡ flags)
      × ((idt_set_gate idt num base sel flags num).ist ≡ 0)
      × ((j : ℕ) → j ≢ num → idt_set_gate idt num base sel flags j ≡ idt j)
unfolding idt_set_gate
idt_set_gate-reads idt num base sel flags fits =
    let new : IdtEntry = record {
      offset_low = bit_and base 0xFFFF;
      offset_mid = bit_and (base / 2 ^ 16) 0xFFFF;
      offset_high = bit_and (base / 2 ^ 32) 0xFFFF_FFFF;
      selector = sel;
      ist = 0;
      type_attr = flags;
      zero_field = 0;
    } in
    let e = update_self idt num new in
    (
      ap gate_offset e
          ∙ omega (
            arith,
            bit_and_mask 16 base,
            bit_and_mask 16 (base / 2 ^ 16),
            bit_and_mask 32 (base / 2 ^ 32),
          ),
      ap IdtEntry.selector e,
      ap IdtEntry.type_attr e,
      ap IdtEntry.ist e,
      λ j ne. update_ne idt num j new (λ z. ne (sym z)),
    )

-- An entry as `idt_init` fills it.
abbrev kernel_gate : ℕ → IdtEntry
kernel_gate base = record {
  offset_low = bit_and base 0xFFFF;
  offset_mid = bit_and (base / 2 ^ 16) 0xFFFF;
  offset_high = bit_and (base / 2 ^ 32) 0xFFFF_FFFF;
  selector = 0x08;
  ist = 0;
  type_attr = 0x8E;
  zero_field = 0;
}

kernel_gate-IsGate : (base : ℕ) → base < 2 ^ 64 → IsGate base (kernel_gate base)
kernel_gate-IsGate base fits = record {
  offset = omega (
    arith,
    bit_and_mask 16 base,
    bit_and_mask 16 (base / 2 ^ 16),
    bit_and_mask 32 (base / 2 ^ 32),
  );
  segment = refl;
  present = refl;
  stack = refl;
}

present :
    {s : Stubs} (address : ℕ) (g : IdtState)
    → InRange s
    → (v target : ℕ) → Handler s v target
    → IsGate target ((idt_init s address g).idt v)
unfolding idt_init clear_idt_from idt_set_gate
present {s} address g fits v t divide = kernel_gate-IsGate s.isr_0 (fits.all _ _ divide)
present {s} address g fits v t debug = kernel_gate-IsGate s.isr_1 (fits.all _ _ debug)
present {s} address g fits v t breakpoint =
    kernel_gate-IsGate s.generic_fault_handler (fits.all _ _ breakpoint)
present {s} address g fits v t invalid_opcode =
    kernel_gate-IsGate s.isr_6 (fits.all _ _ invalid_opcode)
present {s} address g fits v t double_fault =
    kernel_gate-IsGate s.generic_fault_handler (fits.all _ _ double_fault)
present {s} address g fits v t general_protection =
    kernel_gate-IsGate s.isr_13 (fits.all _ _ general_protection)
present {s} address g fits v t page_fault = kernel_gate-IsGate s.isr_14 (fits.all _ _ page_fault)

cleared_gates :
    (left i : ℕ) (idt : ℕ → IdtEntry) (v : ℕ)
    → ((i ≤ v) × (v < i + left)) ⊎ ((idt v).type_attr ≡ 0)
    → (clear_idt_from idt i left v).type_attr ≡ 0
unfolding clear_idt_from
cleared_gates zero i idt v (inl (a, b)) = absurd (omega arith)
cleared_gates zero i idt v (inr done) = done
cleared_gates (suc left) i idt v why =
    let r = idt_set_gate-reads idt i 0 0 0 (omega arith) in
    cleared_gates left (i + 1) (idt_set_gate idt i 0 0 0) v (elim (ℕ_discrete v i) [
      | yes here ↦ inr (rw here r.2)
      | no there ↦ elim why [
        | inl (a, b) ↦ inl (omega arith, omega arith)
        | inr done ↦ inr (ap IdtEntry.type_attr (r.4 v there) ∙ done)
      ]
    ])

no-Handler :
    {s : Stubs} {v : ℕ} (num : ℕ) {target : ℕ}
    → Handler s num target
    → ((t : ℕ) → ¬ Handler s v t)
    → (num == v) ≡ false
no-Handler {s} {v} num {target} h no_one =
    ne→==_false num v (λ e. no_one target (subst (λ w. Handler s w target) e h))

absent :
    (s : Stubs) (address : ℕ) (g : IdtState) (v : ℕ)
    → v < 32
    → ((target : ℕ) → ¬ Handler s v target)
    → ((idt_init s address g).idt v).type_attr ≡ 0
unfolding idt_init idt_set_gate
absent s address g v lt no_one =
    rw
      (
        no-Handler 14 page_fault no_one,
        no-Handler 13 general_protection no_one,
        no-Handler 8 double_fault no_one,
        no-Handler 6 invalid_opcode no_one,
        no-Handler 3 breakpoint no_one,
        no-Handler 1 debug no_one,
        no-Handler 0 divide no_one,
      )
      (cleared_gates 32 0 g.idt v (inl (omega arith, omega arith)))

-- Whatever the table held before, after initialisation each of the vectors 0, 1, 3, 6, 8, 13 and 14
-- has a present interrupt gate to its stub in the kernel's code segment, and no other of the 32
-- vectors has a gate that is present.
pub idt_init-gates :
    (s : Stubs) (address : ℕ) (g : IdtState)
    → InRange s
    → ((v target : ℕ) → Handler s v target → IsGate target ((idt_init s address g).idt v))
      × ((v : ℕ)
          → v < 32
          → ((target : ℕ) → ¬ Handler s v target)
          → ((idt_init s address g).idt v).type_attr ≡ 0)
idt_init-gates s address g fits = (λ v t h. present address g fits v t h, absent s address g)
