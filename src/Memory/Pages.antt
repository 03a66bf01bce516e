-- ===== src/Memory/Pages.antt =====
-- Page-sized tables of words: clearing one, and reading entries after a write.
use myria.Base.{ℕ, zero, suc, ◌+◌, ◌*◌, ◌%◌, ◌^◌, ◌≤◌, ◌<◌, ◌≡◌, ◌≢◌, ◌⊎◌, refl, arith, ◌∙◌, update}
use myria.Memory.{Memory, load64, store64, entry, set_entry, byte_of, zero_bytes, zero_words}
use myria.Memory.Words.{load64_cong, load64-store64_self, load64-store64_ne, store64_outside}

-- The bytes from `lo` up to `hi` are zero in `n`, and all others are as in `m`.
pub record Cleared (lo hi : ℕ) (m n : Memory) : Type 0 where
  pub inside : (b : ℕ) → lo ≤ b → b < hi → n b ≡ 0
  pub outside : (b : ℕ) → (b < lo) ⊎ (hi ≤ b) → n b ≡ m b

pub zero_bytes_lem :
    (left i base : ℕ) (m : Memory)
    → Cleared (base + i) (base + i + left) m (zero_bytes m base i left)
unfolding zero_bytes
zero_bytes_lem zero i base m = record {
  inside = λ b p q. absurd (omega arith);
  outside = λ b p. refl;
}
zero_bytes_lem (suc left) i base m =
    let rest = zero_bytes_lem left (i + 1) base (update m (base + i) 0) in
    record {
      inside = λ b p q. ground (arith, rest.inside b, rest.outside b);
      outside = λ b p. ground (arith, rest.outside b);
    }

zero_store : (m : Memory) (a b : ℕ) → a ≤ b → b < a + 8 → store64 m a 0 b ≡ 0
unfolding store64 byte_of
zero_store m a b p q = ground arith

zero_words_lem :
    (left i base : ℕ) (m : Memory)
    → Cleared (base + i * 8) (base + (i + left) * 8) m (zero_words m base i left)
unfolding zero_words
zero_words_lem zero i base m = record {
  inside = λ b p q. absurd (omega arith);
  outside = λ b p. refl;
}
zero_words_lem (suc left) i base m =
    let rest = zero_words_lem left (i + 1) base (set_entry m base i 0) in
    record {
      inside =
          λ b p q. ground (arith, rest.inside b, rest.outside b, zero_store m (base + i * 8) b);
      outside = λ b p. ground (arith, rest.outside b, store64_outside m (base + i * 8) 0 b);
    }

abbrev pub ClearedPage : ℕ → Memory → Memory → Type 0
ClearedPage base m n = Cleared base (base + 4096) m n

-- Both loops that the kernel clears a frame with clear exactly that frame.
pub zero_bytes-ClearedPage : (base : ℕ) (m : Memory) → ClearedPage base m (zero_bytes m base 0 4096)
zero_bytes-ClearedPage base m =
    let r = zero_bytes_lem 4096 0 base m in
    record {
      inside = λ b p q. r.inside b (omega arith) (omega arith);
      outside = λ b p. r.outside b (omega arith);
    }

pub zero_words-ClearedPage : (base : ℕ) (m : Memory) → ClearedPage base m (zero_words m base 0 512)
zero_words-ClearedPage base m =
    let r = zero_words_lem 512 0 base m in
    record {
      inside = λ b p q. r.inside b (omega arith) (omega arith);
      outside = λ b p. r.outside b (omega arith);
    }

load64_zero : load64 (λ _. 0) 0 ≡ 0
unfolding load64
load64_zero = refl

module _ {base : ℕ} {m n : Memory} (c : ClearedPage base m n) where
  pub entry-ClearedPage_self : (i : ℕ) → i < 512 → entry n base i ≡ 0
  entry-ClearedPage_self i h =
      load64_cong n (λ _. 0) (base + i * 8) 0
        (λ k p. c.inside (base + i * 8 + k) (omega arith) (omega arith))
      ∙ load64_zero

  pub entry-ClearedPage_ne :
      (t i : ℕ) → base % 4096 ≡ 0 → t % 4096 ≡ 0 → t ≢ base → i < 512 → entry n t i ≡ entry m t i
  entry-ClearedPage_ne t i hb ht ne h =
      load64_cong n m (t + i * 8) (t + i * 8) (λ k p. c.outside (t + i * 8 + k) (grind arith))

pub entry-set_entry_self : (m : Memory) (t i v : ℕ) → v < 2 ^ 64 → entry (set_entry m t i v) t i ≡ v
entry-set_entry_self m t i v h = load64-store64_self m (t + i * 8) v h

pub entry-set_entry_ne :
    (m : Memory) (t i v u j : ℕ)
    → t % 4096 ≡ 0
    → u % 4096 ≡ 0
    → i < 512
    → j < 512
    → (t ≢ u) ⊎ (i ≢ j)
    → entry (set_entry m t i v) u j ≡ entry m u j
entry-set_entry_ne m t i v u j ht hu hi hj ne =
    load64-store64_ne m (t + i * 8) (u + j * 8) v (omega arith) (omega arith) (grind arith)
