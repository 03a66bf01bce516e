-- ===== src/Memory.antt =====
-- Physical memory, byte by byte, as the kernel's C code reads and writes it. The kernel reaches a
-- frame through a linear window (`phys + KERNEL_VMA_BASE`, or `phys_to_virt`); here each such
-- pointer stands for the physical address behind it. Words are little-endian.
pub mod Words
pub mod Pages
use myria.Base.{ℕ, zero, suc, ◌+◌, ◌-◌, ◌*◌, ◌/◌, ◌%◌, ◌^◌, ◌&&◌, leb, ltb, if◌then◌else◌, update}

abbrev pub Memory : Type 0
Memory = ℕ → ℕ

-- A `u64` read at address `a`.
unfoldable pub load64 : Memory → ℕ → ℕ
load64 m a =
    m a
    + 2 ^ 8 * m (a + 1)
    + 2 ^ 16 * m (a + 2)
    + 2 ^ 24 * m (a + 3)
    + 2 ^ 32 * m (a + 4)
    + 2 ^ 40 * m (a + 5)
    + 2 ^ 48 * m (a + 6)
    + 2 ^ 56 * m (a + 7)

-- Byte `k` of a word.
unfoldable pub byte_of : ℕ → ℕ → ℕ
byte_of v k = v / 2 ^ (8 * k) % 2 ^ 8

-- A `u64` write at address `a`.
unfoldable pub store64 : Memory → ℕ → ℕ → Memory
store64 m a v b = if leb a b && ltb b (a + 8) then byte_of v (b - a) else m b

-- Entry `i` of the array of words at `table`.
abbrev pub entry : Memory → ℕ → ℕ → ℕ
entry m table i = load64 m (table + i * 8)

abbrev pub set_entry : Memory → ℕ → ℕ → ℕ → Memory
set_entry m table i v = store64 m (table + i * 8) v

-- `for (...) page[i] = 0` over bytes, from index `i` with `left` rounds to go.
unfoldable pub zero_bytes : Memory → ℕ → ℕ → ℕ → Memory
zero_bytes m base i zero = m
zero_bytes m base i (suc left) = zero_bytes (update m (base + i) 0) base (i + 1) left

-- `for (...) table[i] = 0` over words.
unfoldable pub zero_words : Memory → ℕ → ℕ → ℕ → Memory
zero_words m base i zero = m
zero_words m base i (suc left) = zero_words (set_entry m base i 0) base (i + 1) left
