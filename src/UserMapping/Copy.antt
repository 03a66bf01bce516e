-- ===== src/UserMapping/Copy.antt =====
-- `copy_user_code`: the loop copies byte by byte.
use myria.Base.{
  ℕ, zero, suc, ◌+◌, ◌-◌, ◌≤◌, ◌<◌, ◌≡◌, ◌⊎◌, inl, inr, refl, arith, true, false, Bool-cases, ltb,
  ltb→lt, subst, update,
}
use myria.Memory.{Memory}
use myria.UserMapping.{copy_code_from, copy_user_code}

-- In `n`, the `size` bytes at `dst` are those that `m` has at `src`; all others are as in `m`.
pub record Copied (dst src size : ℕ) (m n : Memory) : Type 0 where
  pub inside : (k : ℕ) → k < size → n (dst + k) ≡ m (src + k)
  pub outside : (b : ℕ) → (b < dst) ⊎ (dst + size ≤ b) → n b ≡ m b

module _ (dst src size : ℕ) (m : Memory) (apart : (src + size ≤ dst) ⊎ (dst + size ≤ src)) where
  -- One more byte.
  Copied-byte :
      (i : ℕ) (n : Memory)
      → i < size
      → Copied dst src i m n
      → Copied dst src (i + 1) m (update n (dst + i) (n (src + i)))
  Copied-byte i n below c = record {
    inside = λ k h. let o = c.outside (src + i) (omega arith) in ground (arith, c.inside k);
    outside = λ b h. let o = c.outside b (omega arith) in ground arith;
  }

  pub copy_code_from-Copied :
      (left i : ℕ) (n : Memory)
      → i + left ≤ size
      → Copied dst src i m n
      → Copied dst src (i + left) m (copy_code_from n dst src i left)
  unfolding copy_code_from
  copy_code_from-Copied zero i n below c = let e : i + 0 ≡ i = omega arith in rw e c
  copy_code_from-Copied (suc left) i n below c =
      let e : i + suc left ≡ (i + 1) + left = omega arith in
      rw e (copy_code_from-Copied left (i + 1) _ (omega arith) (Copied-byte i n (omega arith) c))

-- If the two ranges do not overlap and the size is not 0, either the size is over 4096 and the call
-- fails with memory as it was, or it succeeds with exactly these bytes copied.
pub copy_user_code-Copied :
    (mem : Memory) (user_code_va kernel_code code_size : ℕ)
    → 0 < code_size
    → (kernel_code + code_size ≤ user_code_va) ⊎ (user_code_va + code_size ≤ kernel_code)
    → ((4096 < code_size) × (copy_user_code mem user_code_va kernel_code code_size ≡ (false, mem)))
      ⊎ ((code_size ≤ 4096)
          × ((copy_user_code mem user_code_va kernel_code code_size).0 ≡ true)
          × Copied user_code_va kernel_code code_size mem
              (copy_user_code mem user_code_va kernel_code code_size).1)
unfolding copy_user_code
copy_user_code-Copied mem dst src size pos apart = elim (Bool-cases (ltb 4096 size)) [
  | inl large ↦ inl (ltb→lt 4096 size large, rw large refl)
  | inr fits ↦
      let first : Copied dst src 1 mem (update mem dst (mem src)) = record {
        inside = λ k h. ground arith;
        outside = λ b h. ground arith;
      } in
      let all : 1 + (size - 1) ≡ size = omega arith in
      inr (
        ground arith,
        rw fits refl,
        rw fits (
            subst
              (λ n.
                Copied dst src n mem
                  (copy_code_from (update mem dst (mem src)) dst src 1 (size - 1)))
              all
              (copy_code_from-Copied dst src size mem apart (size - 1) 1 _ (omega arith) first)),
      )
]
