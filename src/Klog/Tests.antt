-- ===== src/Klog/Tests.antt =====
-- Formats in memory.
use myria.Base.{ℕ, ◌+◌, ◌≡◌, refl, arith, ◌==◌, if◌then◌else◌, some, List, [], ◌∷◌, ◌++◌}
use myria.Memory.{Memory}
use myria.Klog.{kprint_uint, print_from, kprintf}
use myria.Klog.Numbers.{Numeral, kprint_uint-Numeral}
use myria.Klog.Formats.{Piece, literal, unsigned, Renders, kprintf-Renders}

-- "n=%u".
abbrev greeting : Memory
greeting a =
    if a == 10
    then 110
    else if a == 11
    then 61
    else if a == 12
    then 37
    else if a == 13
    then 117
    else 0

abbrev counts : ℕ → ℕ
counts k = 41 + k

abbrev greeting_format : List Piece
greeting_format = literal 110 ∷ literal 61 ∷ unsigned ∷ []

kprint_uint-hex : kprint_uint 48879 16 [] ≡ some (98 ∷ 101 ∷ 101 ∷ 102 ∷ [])
unfolding kprint_uint myria.Klog.fill_digits myria.Klog.print_reversed myria.Klog.serial_putc
    myria.Klog.digit_char
kprint_uint-hex = refl

kprint_uint-Numeral_example :
    (s : List ℕ) × (kprint_uint 48879 16 [] ≡ some ([] ++ s)) × Numeral 16 48879 s
kprint_uint-Numeral_example =
    kprint_uint-Numeral 48879 16 [] (omega arith) (omega arith) (omega arith)

kprintf-Renders_example :
    (s : List ℕ) × (kprintf greeting counts 9 10 [] ≡ some ([] ++ s))
    × Renders greeting counts 9 greeting_format 0 s
kprintf-Renders_example =
    kprintf-Renders greeting counts greeting_format 9 10 []
      (
        refl,
        λ e. omega arith,
        (refl, λ e. omega arith, (refl, λ e. omega arith, (refl, λ e. omega arith, refl))),
      )
      (λ e. omega arith, (λ e. omega arith, tt)) (omega arith)
