-- ===== src/Memory/Words.antt =====
-- Reads after writes of 64-bit words.
use myria.Base.{ℕ, ◌+◌, ◌-◌, ◌*◌, ◌%◌, ◌^◌, ◌≤◌, ◌<◌, ◌≡◌, ◌≢◌, ◌⊎◌, arith}
use myria.Memory.{Memory, load64, store64, byte_of}

store64_inside : (m : Memory) (a v k : ℕ) → k < 8 → store64 m a v (a + k) ≡ byte_of v k
unfolding store64
store64_inside m a v k h = let e : a + k - a ≡ k = omega arith in ground arith

pub store64_outside : (m : Memory) (a v b : ℕ) → (b < a) ⊎ (a + 8 ≤ b) → store64 m a v b ≡ m b
unfolding store64
store64_outside m a v b h = ground arith

bytes_sum :
    (v : ℕ)
    → v < 2 ^ 64
    → byte_of v 0
        + 2 ^ 8 * byte_of v 1
        + 2 ^ 16 * byte_of v 2
        + 2 ^ 24 * byte_of v 3
        + 2 ^ 32 * byte_of v 4
        + 2 ^ 40 * byte_of v 5
        + 2 ^ 48 * byte_of v 6
        + 2 ^ 56 * byte_of v 7
      ≡ v
unfolding byte_of
bytes_sum v h = omega arith

pub load64-store64_self : (m : Memory) (a v : ℕ) → v < 2 ^ 64 → load64 (store64 m a v) a ≡ v
unfolding load64
load64-store64_self m a v h = ground (
  arith,
  bytes_sum v h,
  store64_inside m a v 0,
  store64_inside m a v 1,
  store64_inside m a v 2,
  store64_inside m a v 3,
  store64_inside m a v 4,
  store64_inside m a v 5,
  store64_inside m a v 6,
  store64_inside m a v 7,
)

-- Eight bytes that agree read as the same word.
pub load64_cong :
    (m n : Memory) (a b : ℕ) → ((k : ℕ) → k < 8 → m (a + k) ≡ n (b + k)) → load64 m a ≡ load64 n b
unfolding load64
load64_cong m n a b same =
    ground (arith, same 0, same 1, same 2, same 3, same 4, same 5, same 6, same 7)

-- Words at distinct aligned addresses do not overlap.
pub load64-store64_ne :
    (m : Memory) (a b v : ℕ) → a % 8 ≡ 0 → b % 8 ≡ 0 → a ≢ b → load64 (store64 m a v) b ≡ load64 m b
load64-store64_ne m a b v ha hb ne =
    load64_cong (store64 m a v) m b b λ k h. store64_outside m a v (b + k) (apart k h)
  where
    apart : (k : ℕ) → k < 8 → (b + k < a) ⊎ (a + 8 ≤ b + k)
    apart k h = grind arith
