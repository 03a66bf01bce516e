-- ===== src/Base/Bits/Step.antt =====
-- `&` and `|` from their lowest digit, and by induction from there.
use Prim.Native.Nat.{
  ℕ, zero, suc, ◌+◌, ◌-◌, ◌*◌, ◌/◌, ◌%◌, ◌≤◌, min, max, digits, bitwise, bit_and, bit_or,
  bit_and-bitwise, bit_or-bitwise,
}
use mathlib.Core.Path.{◌≡◌, refl, sym, ◌∙◌}
use native.Mathlib.Omega.{arith}

module _ (alone : ℕ → ℕ) (both : ℕ → ℕ → ℕ) where
  digits_zero : (n y : ℕ) → digits alone both n 0 y ≡ alone y
  digits_zero zero y = refl
  digits_zero (suc n) y = refl

  spare_digits :
      (n spare x y : ℕ) → x ≤ n → digits alone both (n + spare) x y ≡ digits alone both n x y
  spare_digits n spare zero y h = digits_zero (n + spare) y ∙ sym (digits_zero n y)
  spare_digits zero spare (suc x) y h = absurd (omega arith)
  spare_digits (suc n) spare (suc x) y h =
      let later : suc n + spare ≡ suc (n + spare) = omega arith in
      rw (later, spare_digits n spare (suc x / 2) (y / 2) (omega arith))

  -- One digit at a time, if the law holds where the first number has run out.
  bitwise_step :
      ((y : ℕ) → alone y ≡ alone (y / 2) * 2 + both 0 (y % 2))
      → (x y : ℕ)
      → bitwise alone both x y ≡ bitwise alone both (x / 2) (y / 2) * 2 + both (x % 2) (y % 2)
  bitwise_step ends zero y = ends y
  bitwise_step ends (suc x) y =
      let h = suc x / 2 in
      let split : h + (x - h) ≡ x = omega arith in
      omega (arith, rw split at (spare_digits h (x - h) h (y / 2) (omega arith)))

pub bit_or_step : (x y : ℕ) → bit_or x y ≡ bit_or (x / 2) (y / 2) * 2 + max (x % 2) (y % 2)
bit_or_step x y = simp bit_or-bitwise (bitwise_step (λ k. k) max (λ k. omega arith) x y)

pub bit_and_step : (x y : ℕ) → bit_and x y ≡ bit_and (x / 2) (y / 2) * 2 + min (x % 2) (y % 2)
bit_and_step x y = simp bit_and-bitwise (bitwise_step (λ _. 0) min (λ k. omega arith) x y)

zero-or : (b : ℕ) → bit_or 0 b ≡ b
zero-or b = bit_or-bitwise 0 b

zero-and : (b : ℕ) → bit_and 0 b ≡ 0
zero-and b = bit_and-bitwise 0 b

-- The inductions go from halves to a number, on a bound `n` of it.
or_comm_below : (n a b : ℕ) → a ≤ n → b ≤ n → bit_or a b ≡ bit_or b a
or_comm_below zero a b p q = let e : a ≡ b = omega arith in rw e
or_comm_below (suc n) a b p q = omega (
  arith,
  bit_or_step a b,
  bit_or_step b a,
  or_comm_below n (a / 2) (b / 2) (omega arith) (omega arith),
)

pub bit_or_comm : (a b : ℕ) → bit_or a b ≡ bit_or b a
bit_or_comm a b = or_comm_below (a + b) a b (omega arith) (omega arith)

and_comm_below : (n a b : ℕ) → a ≤ n → b ≤ n → bit_and a b ≡ bit_and b a
and_comm_below zero a b p q = let e : a ≡ b = omega arith in rw e
and_comm_below (suc n) a b p q = omega (
  arith,
  bit_and_step a b,
  bit_and_step b a,
  and_comm_below n (a / 2) (b / 2) (omega arith) (omega arith),
)

pub bit_and_comm : (a b : ℕ) → bit_and a b ≡ bit_and b a
bit_and_comm a b = and_comm_below (a + b) a b (omega arith) (omega arith)

pub zero-bit_or : (a : ℕ) → bit_or 0 a ≡ a
zero-bit_or a = zero-or a

pub bit_or-zero : (a : ℕ) → bit_or a 0 ≡ a
bit_or-zero a = rw (bit_or_comm a 0) (zero-or a)

pub zero-bit_and : (a : ℕ) → bit_and 0 a ≡ 0
zero-bit_and a = zero-and a

pub bit_and-zero : (a : ℕ) → bit_and a 0 ≡ 0
bit_and-zero a = rw (bit_and_comm a 0) (zero-and a)

half-or : (a b : ℕ) → bit_or a b / 2 ≡ bit_or (a / 2) (b / 2)
half-or a b = omega (arith, bit_or_step a b)

half-and : (a b : ℕ) → bit_and a b / 2 ≡ bit_and (a / 2) (b / 2)
half-and a b = omega (arith, bit_and_step a b)

and_or_below :
    (n a b c : ℕ) → a ≤ n → b ≤ n → bit_and (bit_or a b) c ≡ bit_or (bit_and a c) (bit_and b c)
and_or_below zero a b c p q =
    let e : a ≡ 0 = omega arith in
    let f : b ≡ 0 = omega arith in rw (e, f, zero-or 0, zero-and c, zero-or 0)
and_or_below (suc n) a b c p q = ground (
  arith,
  bit_or_step a b,
  bit_and_step a c,
  bit_and_step b c,
  half-or a b,
  half-and a c,
  half-and b c,
  bit_and_step (bit_or a b) c,
  bit_or_step (bit_and a c) (bit_and b c),
  and_or_below n (a / 2) (b / 2) (c / 2),
)

-- A mask distributes over `|`.
pub bit_and-bit_or : (a b c : ℕ) → bit_and (bit_or a b) c ≡ bit_or (bit_and a c) (bit_and b c)
bit_and-bit_or a b c = and_or_below (a + b) a b c (omega arith) (omega arith)
