-- ===== src/Bitmap/Bytes.antt =====
-- One bit of a number set or cleared.
use myria.Base.{
  ℕ, zero, suc, ◌-◌, ◌*◌, ◌/◌, ◌%◌, ◌^◌, ◌<◌, ◌≡◌, ◌≢◌, ◌∙◌, refl, sym, ap, arith, bit_and, bit_or,
}
use myria.Base.Bits.{bit_or_step, bit_and_step, bit_or-zero}
use native.Mathlib.Nat.{pow-suc, one-le-pow, div-div-eq-div-mul}

-- The bit `j` of `x`.
abbrev pub bit : ℕ → ℕ → ℕ
bit j x = x / 2 ^ j % 2

bit-suc : (j x : ℕ) → bit (suc j) x ≡ bit j (x / 2)
bit-suc j x =
    let e : 2 ^ suc j ≡ 2 * 2 ^ j = omega (arith, pow-suc 2 j) in
    rw (e, sym (div-div-eq-div-mul x 2 (2 ^ j))) refl

half_pow : (k : ℕ) → 2 ^ suc k / 2 ≡ 2 ^ k
half_pow k = omega (arith, pow-suc 2 k)

half_or : (a b : ℕ) → bit_or a b / 2 ≡ bit_or (a / 2) (b / 2)
half_or a b = omega (arith, bit_or_step a b)

half_and : (a b : ℕ) → bit_and a b / 2 ≡ bit_and (a / 2) (b / 2)
half_and a b = omega (arith, bit_and_step a b)

-- The rest of `x | 2^(k+1)` is the rest of `x` with bit `k` set.
half_set : (k x : ℕ) → bit_or x (2 ^ suc k) / 2 ≡ bit_or (x / 2) (2 ^ k)
half_set k x = half_or x (2 ^ suc k) ∙ ap (bit_or (x / 2)) (half_pow k)

pub bit-set_self : (k x : ℕ) → bit k (bit_or x (2 ^ k)) ≡ 1
bit-set_self zero x = omega (arith, bit_or_step x 1)
bit-set_self (suc k) x =
    bit-suc k (bit_or x (2 ^ suc k)) ∙ ap (bit k) (half_set k x) ∙ bit-set_self k (x / 2)

pub bit-set_other : (k j x : ℕ) → k ≢ j → bit j (bit_or x (2 ^ k)) ≡ bit j x
bit-set_other zero zero x ne = absurd (ne refl)
bit-set_other zero (suc j) x ne =
    bit-suc j (bit_or x 1) ∙ ap (bit j) (half_or x 1 ∙ bit_or-zero (x / 2)) ∙ sym (bit-suc j x)
bit-set_other (suc k) zero x ne = omega (arith, bit_or_step x (2 ^ suc k), pow-suc 2 k)
bit-set_other (suc k) (suc j) x ne =
    bit-suc j (bit_or x (2 ^ suc k))
    ∙ ap (bit j) (half_set k x)
    ∙ bit-set_other k j (x / 2) (λ e. ne (ap suc e))
    ∙ sym (bit-suc j x)

pub bit-mask : (w j x : ℕ) → j < w → bit j (bit_and x (2 ^ w - 1)) ≡ bit j x
bit-mask zero j x lt = absurd (omega arith)
bit-mask (suc w) zero x lt =
    omega (arith, bit_and_step x (2 ^ suc w - 1), pow-suc 2 w, one-le-pow w 2)
bit-mask (suc w) (suc j) x lt =
    let half : (2 ^ suc w - 1) / 2 ≡ 2 ^ w - 1 = omega (arith, pow-suc 2 w, one-le-pow w 2) in
    bit-suc j (bit_and x (2 ^ suc w - 1))
    ∙ ap (bit j) (half_and x (2 ^ suc w - 1) ∙ ap (bit_and (x / 2)) half)
    ∙ bit-mask w j (x / 2) (omega arith)
    ∙ sym (bit-suc j x)

-- The complement of `1 << k` in `w` bits.
abbrev pub without : ℕ → ℕ → ℕ
without w k = 2 ^ w - 1 - 2 ^ k

pow_lt : (k w : ℕ) → k < w → 2 ^ k < 2 ^ w
pow_lt k zero lt = absurd (omega arith)
pow_lt zero (suc w) lt = omega (arith, pow-suc 2 w, one-le-pow w 2)
pow_lt (suc k) (suc w) lt = omega (arith, pow-suc 2 w, pow-suc 2 k, pow_lt k w (omega arith))

half_without : (w k : ℕ) → k < w → without (suc w) (suc k) / 2 ≡ without w k
half_without w k lt = omega (arith, pow-suc 2 w, pow-suc 2 k, pow_lt k w lt)

half_clear :
    (w k x : ℕ) → k < w → bit_and x (without (suc w) (suc k)) / 2 ≡ bit_and (x / 2) (without w k)
half_clear w k x lt =
    half_and x (without (suc w) (suc k)) ∙ ap (bit_and (x / 2)) (half_without w k lt)

pub bit-clear_self : (w k x : ℕ) → k < w → bit k (bit_and x (without w k)) ≡ 0
bit-clear_self zero k x lt = absurd (omega arith)
bit-clear_self (suc w) zero x lt =
    omega (arith, bit_and_step x (without (suc w) 0), pow-suc 2 w, one-le-pow w 2)
bit-clear_self (suc w) (suc k) x lt =
    bit-suc k (bit_and x (without (suc w) (suc k)))
    ∙ ap (bit k) (half_clear w k x (omega arith))
    ∙ bit-clear_self w k (x / 2) (omega arith)

pub bit-clear_other :
    (w k j x : ℕ) → k < w → j < w → k ≢ j → bit j (bit_and x (without w k)) ≡ bit j x
bit-clear_other zero k j x lt lt' ne = absurd (omega arith)
bit-clear_other (suc w) zero zero x lt lt' ne = absurd (ne refl)
bit-clear_other (suc w) zero (suc j) x lt lt' ne =
    let half : without (suc w) 0 / 2 ≡ 2 ^ w - 1 = omega (arith, pow-suc 2 w, one-le-pow w 2) in
    bit-suc j (bit_and x (without (suc w) 0))
    ∙ ap (bit j) (half_and x (without (suc w) 0) ∙ ap (bit_and (x / 2)) half)
    ∙ bit-mask w j (x / 2) (omega arith)
    ∙ sym (bit-suc j x)
bit-clear_other (suc w) (suc k) zero x lt lt' ne = omega (
  arith,
  bit_and_step x (without (suc w) (suc k)),
  pow-suc 2 w,
  pow-suc 2 k,
  pow_lt k w (omega arith),
)
bit-clear_other (suc w) (suc k) (suc j) x lt lt' ne =
    bit-suc j (bit_and x (without (suc w) (suc k)))
    ∙ ap (bit j) (half_clear w k x (omega arith))
    ∙ bit-clear_other w k j (x / 2) (omega arith) (omega arith) (λ e. ne (ap suc e))
    ∙ sym (bit-suc j x)
