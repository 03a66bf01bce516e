-- ===== src/Klog.antt =====
-- os/kernel/util/klog.c, whose serial functions serial.c repeats: printing to the serial port. The
-- port's input is the list of bytes sent so far; `serial_putc` waits until the port takes a byte.
-- Strings are NUL-terminated bytes of memory; the variable arguments are 64-bit slots, `args k` the
-- one that the k-th `va_arg` reads. Loops over strings run on fuel, and `none` is its end.
pub mod Strings
pub mod Numbers
pub mod Formats
mod Tests
use myria.Base.{
  ℕ, zero, suc, ◌+◌, ◌-◌, ◌*◌, ◌/◌, ◌%◌, ◌^◌, Bool, true, false, ◌==◌, ◌&&◌, ltb, leb,
  if◌then◌else◌, Option, none, some, List, [], ◌∷◌, ◌++◌, u32, u64, update,
}
use myria.Memory.{Memory}

-- The port writes of `serial_init`, in order.
abbrev pub serial_init : List (ℕ × ℕ)
serial_init =
    (0x3F8 + 1, 0)
    ∷ (0x3F8 + 3, 0x80)
    ∷ (0x3F8, 3)
    ∷ (0x3F8 + 1, 0)
    ∷ (0x3F8 + 3, 3)
    ∷ (0x3F8 + 2, 0xC7)
    ∷ (0x3F8 + 4, 0x0B)
    ∷ []

unfoldable pub serial_putc : ℕ → List ℕ → List ℕ
serial_putc c out = out ++ (c ∷ [])

unfoldable pub serial_puts : Memory → ℕ → ℕ → List ℕ → Option (List ℕ)
serial_puts mem zero str out = none
serial_puts mem (suc fuel) str out =
    let rest = serial_puts mem fuel (str + 1) (serial_putc (mem str) out) in
    if mem str == 0 then some out else rest

-- `serial_puts` of a constant.
unfoldable pub put_all : List ℕ → List ℕ → List ℕ
put_all [] out = out
put_all (c ∷ s) out = put_all s (serial_putc c out)

-- The character of a digit.
unfoldable pub digit_char : ℕ → ℕ
digit_char digit = if ltb digit 10 then 48 + digit else 97 + digit - 10

-- The loop that fills `buffer` from index `i`; it yields the buffer and the index after the last
-- digit.
unfoldable pub fill_digits : ℕ → ℕ → ℕ → (ℕ → ℕ) → ℕ → Option ((ℕ → ℕ) × ℕ)
fill_digits zero value base buffer i = if ltb 0 value then none else some (buffer, i)
fill_digits (suc fuel) value base buffer i =
    let rest =
      fill_digits fuel (value / base) base (update buffer i (digit_char (value % base))) (i + 1) in
    if ltb 0 value then rest else some (buffer, i)

-- `while (i > 0) serial_putc(buffer[--i])`
unfoldable pub print_reversed : (ℕ → ℕ) → ℕ → List ℕ → List ℕ
print_reversed buffer zero out = out
print_reversed buffer (suc i) out = print_reversed buffer i (serial_putc (buffer i) out)

-- 64 rounds are enough for a value of 64 bits in any base from 2.
unfoldable pub kprint_uint : ℕ → ℕ → List ℕ → Option (List ℕ)
kprint_uint value base out =
    if value == 0 then some (serial_putc 48 out) else elim (fill_digits 64 value base (λ _. 0) 0) [
      | none ↦ none
      | some (buffer, i) ↦ some (print_reversed buffer i out)
    ]

-- An `i64` is its 64-bit pattern.
unfoldable pub kprint_int : ℕ → List ℕ → Option (List ℕ)
kprint_int value out =
    if leb (2 ^ 63) value
    then kprint_uint (u64 (2 ^ 64 - value)) 10 (serial_putc 45 out)
    else kprint_uint value 10 out

-- An `int` widened to an `i64`.
unfoldable pub sign_extend : ℕ → ℕ
sign_extend val = if ltb val (2 ^ 31) then val else val + (2 ^ 64 - 2 ^ 32)

abbrev pub null_text : List ℕ
null_text = 40 ∷ 110 ∷ 117 ∷ 108 ∷ 108 ∷ 41 ∷ []

unfoldable pub put_string : Memory → ℕ → ℕ → List ℕ → Option (List ℕ)
put_string mem fuel str out =
    if str == 0 then some (put_all null_text out) else serial_puts mem fuel str out

-- The address of the last format character read, the next slot and the output.
abbrev pub Progress : Type 0
Progress = ℕ × ℕ × List ℕ

-- After an output that takes a slot, or none.
abbrev pub at : ℕ → ℕ → Option (List ℕ) → Option Progress
at fmt k none = none
at fmt k (some out) = some (fmt, k, out)

-- `case 'l'`, with `fmt` at the character after it.
unfoldable pub long_conversion : Memory → (ℕ → ℕ) → ℕ → ℕ → List ℕ → Option Progress
long_conversion mem args fmt k out =
    if mem fmt == 117
    then at fmt (k + 1) (kprint_uint (u64 (args k)) 10 out)
    else if mem fmt == 120
    then at fmt (k + 1) (kprint_uint (u64 (args k)) 16 out)
    else some (fmt, k, out)

-- The `switch` of `kprintf`, with `fmt` at the character after `%`.
unfoldable pub conversion : Memory → (ℕ → ℕ) → ℕ → ℕ → ℕ → List ℕ → Option Progress
conversion mem args fuel fmt k out =
    let c = mem fmt in
    if c == 100
    then at fmt (k + 1) (kprint_int (sign_extend (u32 (args k))) out)
    else if c == 117
    then at fmt (k + 1) (kprint_uint (u32 (args k)) 10 out)
    else if c == 120
    then at fmt (k + 1) (kprint_uint (u32 (args k)) 16 out)
    else if c == 108
    then long_conversion mem args (fmt + 1) k out
    else if c == 115
    then at fmt (k + 1) (put_string mem fuel (args k) out)
    else if c == 37
    then some (fmt, k, serial_putc 37 out)
    else some (fmt, k, serial_putc c (serial_putc 37 out))

-- The loop of `kprintf`; `limit` is the fuel of each string.
unfoldable pub print_from : Memory → (ℕ → ℕ) → ℕ → ℕ → ℕ → ℕ → List ℕ → Option (List ℕ)
print_from mem args limit zero fmt k out = none
print_from mem args limit (suc fuel) fmt k out =
    let step : Option Progress =
      if mem fmt == 37
      then conversion mem args limit (fmt + 1) k out
      else some (fmt, k, serial_putc (mem fmt) out) in
    let rest : Option (List ℕ) = elim step [
      | none ↦ none
      | some (fmt', k', out') ↦ print_from mem args limit fuel (fmt' + 1) k' out'
    ] in
    if mem fmt == 0 then some out else rest

unfoldable pub kprintf : Memory → (ℕ → ℕ) → ℕ → ℕ → List ℕ → Option (List ℕ)
kprintf mem args fuel fmt out = print_from mem args fuel fuel fmt 0 out

-- "\n[PANIC] " and "\n[PANIC] System halted.\n"
abbrev pub panic_text : List ℕ
panic_text = 10 ∷ 91 ∷ 80 ∷ 65 ∷ 78 ∷ 73 ∷ 67 ∷ 93 ∷ 32 ∷ []

abbrev pub halted_text : List ℕ
halted_text =
    panic_text
    ++ (83 ∷ 121 ∷ 115 ∷ 116 ∷ 101 ∷ 109 ∷ 32 ∷ 104 ∷ 97 ∷ 108 ∷ 116 ∷ 101 ∷ 100 ∷ 46 ∷ 10 ∷ [])

-- The loop of `panic`, which knows `%s` only.
unfoldable pub panic_from : Memory → (ℕ → ℕ) → ℕ → ℕ → ℕ → ℕ → List ℕ → Option (List ℕ)
panic_from mem args limit zero fmt k out = none
panic_from mem args limit (suc fuel) fmt k out =
    let is_string = (mem fmt == 37) && (mem (fmt + 1) == 115) in
    let step : Option Progress =
      if is_string
      then at (fmt + 2) (k + 1) (put_string mem limit (args k) out)
      else some (fmt + 1, k, serial_putc (mem fmt) out) in
    let rest : Option (List ℕ) = elim step [
      | none ↦ none
      | some (fmt', k', out') ↦ panic_from mem args limit fuel fmt' k' out'
    ] in
    if mem fmt == 0 then some out else rest

-- What is printed before `hang`.
unfoldable pub panic : Memory → (ℕ → ℕ) → ℕ → ℕ → List ℕ → Option (List ℕ)
panic mem args fuel fmt out = elim (panic_from mem args fuel fuel fmt 0 (put_all panic_text out)) [
  | none ↦ none
  | some out' ↦ some (put_all halted_text out')
]
