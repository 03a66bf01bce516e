-- ===== src/KernelPages/Bss.antt =====
-- `activate_kernel_page_tables`: clearing .bss in chunks clears all of it.
use myria.Base.{
  ℕ, zero, suc, ◌+◌, ◌-◌, ◌*◌, ◌/◌, ◌^◌, ◌≤◌, ◌<◌, ◌≡◌, ◌⊎◌, ◌∙◌, inl, inr, refl, arith, Bool-cases,
  Option, some, u64, ltb, ltb→lt, le→ltb_false, update, update_ne,
}
use myria.Memory.{Memory, zero_bytes}
use myria.Memory.Pages.{Cleared, zero_bytes_lem}
use myria.KernelPages.{clear_chunks_from, activate_kernel_page_tables}

module _ (bss size : ℕ) (m : Memory) where
  -- The next chunk.
  Cleared-chunk :
      (i chunk : ℕ) (n : Memory)
      → Cleared bss (bss + i) m n
      → Cleared bss (bss + (i + chunk)) m (zero_bytes n (bss + i) 0 chunk)
  Cleared-chunk i chunk n c =
      let z = zero_bytes_lem chunk 0 (bss + i) n in
      record {
        inside = λ b p q. elim (Bool-cases (ltb b (bss + i))) [
          | inl before ↦
              let lt = ltb→lt b (bss + i) before in z.outside b (omega arith) ∙ c.inside b p lt
          | inr after ↦
              let le : bss + i ≤ b = ground arith in z.inside b (omega arith) (omega arith)
        ];
        outside = λ b p. z.outside b (grind arith) ∙ c.outside b (grind arith);
      }

  -- `j` bytes are cleared at offset `i`.
  abbrev Reached : ℕ → ℕ → Type 0
  Reached i j = ((j ≡ i) × (i ≤ size)) ⊎ ((j ≡ size) × (size ≤ i))

  all-Reached : (i j : ℕ) → size ≤ i → Reached i j → j ≡ size
  all-Reached i j le (inl a) = omega (arith, a.0, a.1)
  all-Reached i j le (inr a) = a.0

  some-Reached : (i j : ℕ) → i < size → Reached i j → j ≡ i
  some-Reached i j lt (inl a) = a.0
  some-Reached i j lt (inr a) = omega (arith, a.0, a.1)

  abbrev Clears : Option Memory → Type 0
  Clears r = (n : Memory) × (r ≡ some n) × Cleared bss (bss + size) m n

  clear_chunks_from-Cleared :
      (fuel i j : ℕ) (n : Memory)
      → size + 4096 ≤ 2 ^ 64
      → size ≤ i + fuel * 4096
      → Reached i j
      → Cleared bss (bss + j) m n
      → Clears (clear_chunks_from bss size fuel i n)
  unfolding clear_chunks_from
  clear_chunks_from-Cleared zero i j n fits enough at c =
      let le : size ≤ i = omega arith in
      (n, rw (le→ltb_false i size le) refl, rw (all-Reached i j le at) at c)
  clear_chunks_from-Cleared (suc fuel) i j n fits enough at c = elim (Bool-cases (ltb i size)) [
    | inr done ↦
        let le : size ≤ i = ground arith in (n, rw done refl, rw (all-Reached i j le at) at c)
    | inl more ↦
        let lt = ltb→lt i size more in
        let next : u64 (i + 4096) ≡ i + 4096 = omega arith in
        let c' : Cleared bss (bss + i) m n = rw (some-Reached i j lt at) at c in
        elim (Bool-cases (ltb (size - i) 4096)) [
          | inl last ↦
              let small = ltb→lt (size - i) 4096 last in
              rw (more, last, next)
                (clear_chunks_from-Cleared fuel (i + 4096) (i + (size - i)) _ fits (omega arith)
                  (inr (omega arith, omega arith)) (Cleared-chunk i (size - i) n c'))
          | inr whole ↦
              let large : 4096 ≤ size - i = ground arith in
              rw (more, whole, next)
                (clear_chunks_from-Cleared fuel (i + 4096) (i + 4096) _ fits (omega arith)
                  (inl (refl, omega arith)) (Cleared-chunk i 4096 n c'))
        ]
  ]

-- Clearing a section that is not empty and has at most 2^64 - 4096 bytes ends, and clears exactly
-- its bytes.
pub activate_kernel_page_tables-Cleared :
    (bss_start bss_end : ℕ) (m : Memory)
    → bss_start < bss_end
    → bss_end - bss_start + 4096 ≤ 2 ^ 64
    → (n : Memory) × (activate_kernel_page_tables bss_start bss_end m ≡ some n)
      × Cleared bss_start bss_end m n
unfolding activate_kernel_page_tables
activate_kernel_page_tables-Cleared start end m lt fits =
    let size : ℕ = end - start in
    let whole : start + size ≡ end = omega arith in
    let (n, e, c) =
      clear_chunks_from-Cleared start size (update m start 0) ((size + 4095) / 4096) 0 0
        (update m start 0) (omega arith) (omega arith) (inl (refl, omega arith))
        (record { inside = λ b p q. absurd (omega arith); outside = λ b p. refl }) in
    (
      n,
      e,
      record {
        inside = λ b p q. c.inside b p (omega arith);
        outside =
            λ b p. c.outside b (omega arith) ∙ update_ne m start b 0 (λ same. absurd (omega arith));
      },
    )
