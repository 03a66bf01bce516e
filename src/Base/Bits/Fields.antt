-- ===== src/Base/Bits/Fields.antt =====
-- Words as fields: a high part above `k` bits and a low part below them.
use Prim.Native.Nat.{ℕ, zero, suc, ◌+◌, ◌-◌, ◌*◌, ◌/◌, ◌%◌, ◌^◌, ◌<◌, bit_and, bit_or}
use mathlib.Core.Path.{◌≡◌, ap}
use native.Mathlib.Omega.{arith}
use native.Mathlib.Nat.{pow-suc, one-le-pow}
use myria.Base.Bits.Step.{bit_or_step, bit_and_step, bit_or-zero, zero-bit_or, bit_and-zero}

shift-suc : (q k : ℕ) → q * 2 ^ suc k ≡ 2 * (q * 2 ^ k)
shift-suc q k = omega (arith, ap (λ (t : ℕ). q * t) (pow-suc 2 k))

-- `|` acts on the two fields apart.
pub bit_or_fields :
    (k q r s t : ℕ)
    → r < 2 ^ k
    → t < 2 ^ k
    → bit_or (q * 2 ^ k + r) (s * 2 ^ k + t) ≡ bit_or q s * 2 ^ k + bit_or r t
bit_or_fields zero q r s t fits fits' =
    let e : r ≡ 0 = omega arith in let f : t ≡ 0 = omega arith in ground (arith, bit_or-zero 0)
bit_or_fields (suc k) q r s t fits fits' = ground (
  arith,
  bit_or_step (q * 2 ^ suc k + r) (s * 2 ^ suc k + t),
  bit_or_step r t,
  shift-suc q k,
  shift-suc s k,
  shift-suc (bit_or q s) k,
  pow-suc 2 k,
  bit_or_fields k q (r / 2) s (t / 2) (omega (arith, pow-suc 2 k)) (omega (arith, pow-suc 2 k)),
)

-- So does `&`.
pub bit_and_fields :
    (k q r s t : ℕ)
    → r < 2 ^ k
    → t < 2 ^ k
    → bit_and (q * 2 ^ k + r) (s * 2 ^ k + t) ≡ bit_and q s * 2 ^ k + bit_and r t
bit_and_fields zero q r s t fits fits' =
    let e : r ≡ 0 = omega arith in let f : t ≡ 0 = omega arith in ground (arith, bit_and-zero 0)
bit_and_fields (suc k) q r s t fits fits' = ground (
  arith,
  bit_and_step (q * 2 ^ suc k + r) (s * 2 ^ suc k + t),
  bit_and_step r t,
  shift-suc q k,
  shift-suc s k,
  shift-suc (bit_and q s) k,
  pow-suc 2 k,
  bit_and_fields k q (r / 2) s (t / 2) (omega (arith, pow-suc 2 k)) (omega (arith, pow-suc 2 k)),
)

low_ones : (k r : ℕ) → r < 2 ^ k → bit_and r (2 ^ k - 1) ≡ r
low_ones zero r fits = let e : r ≡ 0 = omega arith in rw e
low_ones (suc k) r fits = ground (
  arith,
  bit_and_step r (2 ^ suc k - 1),
  pow-suc 2 k,
  one-le-pow k 2,
  low_ones k (r / 2) (omega (arith, pow-suc 2 k)),
)

-- A mask of `k` low ones is the remainder by `2 ^ k`.
pub bit_and_mask : (k a : ℕ) → bit_and a (2 ^ k - 1) ≡ a % 2 ^ k
bit_and_mask k a = ground (
  arith,
  one-le-pow k 2,
  bit_and_fields k (a / 2 ^ k) (a % 2 ^ k) 0 (2 ^ k - 1),
  bit_and-zero (a / 2 ^ k),
  low_ones k (a % 2 ^ k),
)

-- A mask of one bit.
pub bit_and_single : (k a : ℕ) → bit_and a (2 ^ k) ≡ a / 2 ^ k % 2 * 2 ^ k
bit_and_single k a = ground (
  arith,
  one-le-pow k 2,
  bit_and_fields k (a / 2 ^ k) (a % 2 ^ k) 1 0,
  bit_and_mask 1 (a / 2 ^ k),
  bit_and-zero (a % 2 ^ k),
)

-- `|` with a value below a field that is zero is a sum.
pub bit_or_low : (k q r : ℕ) → r < 2 ^ k → bit_or (q * 2 ^ k) r ≡ q * 2 ^ k + r
bit_or_low k q r fits =
    ground (arith, bit_or_fields k q 0 0 r, one-le-pow k 2, bit_or-zero q, zero-bit_or r)

pub bit_or-lt : (k a b : ℕ) → a < 2 ^ k → b < 2 ^ k → bit_or a b < 2 ^ k
bit_or-lt zero a b p q =
    let e : a ≡ 0 = omega arith in
    let f : b ≡ 0 = omega arith in rw (e, f) (omega (arith, bit_or-zero 0))
bit_or-lt (suc k) a b p q = omega (
  arith,
  bit_or_step a b,
  pow-suc 2 k,
  bit_or-lt k (a / 2) (b / 2) (omega (arith, pow-suc 2 k)) (omega (arith, pow-suc 2 k)),
)
