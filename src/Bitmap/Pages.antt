-- ===== src/Bitmap/Pages.antt =====
-- The bitmap as a set of free pages.
use native.Mathlib.Decide.{ℕ_discrete}
use myria.Base.{
  ℕ, zero, suc, ◌*◌, ◌/◌, ◌%◌, ◌^◌, ◌<◌, ◌≡◌, ◌≢◌, ◌⊎◌, ◌∙◌, inl, inr, refl, sym, ap, arith, true,
  false, ◌==◌, u8, update, update_self, update_ne, bit_and, bit_or,
}
use myria.Base.Bits.{bit_and_single, bit_and_mask}
use native.Mathlib.Nat.{one-le-pow}
use myria.Bitmap.{set_page_used, set_page_free, is_page_free}
use myria.Bitmap.Bytes.{
  bit, without, bit-set_self, bit-set_other, bit-mask, bit-clear_self, bit-clear_other,
}

-- The bit of a page, in its byte.
abbrev pub page_bit : (ℕ → ℕ) → ℕ → ℕ
page_bit bitmap page = bit (page % 8) (bitmap (page / 8))

zero_bit : (t b : ℕ) → b < 2 → 0 < t → (b * t == 0) ≡ (b == 0)
zero_bit t zero lt pos = ground arith
zero_bit t (suc zero) lt pos = ground arith
zero_bit t (suc (suc b)) lt pos = absurd (omega arith)

-- A page is free if its bit is 0.
pub is_page_free_lem :
    (bitmap : ℕ → ℕ) (page : ℕ) → is_page_free bitmap page ≡ (page_bit bitmap page == 0)
unfolding is_page_free
is_page_free_lem bitmap page = rw (bit_and_single (page % 8) (bitmap (page / 8))) (
    zero_bit (2 ^ (page % 8)) (page_bit bitmap page) (omega arith)
      (one-le-pow (page % 8) 2 (omega arith)))

-- Two pages lie in different bytes, or at different bits.
apart : (p q : ℕ) → p ≢ q → (p / 8 ≢ q / 8) ⊎ ((p / 8 ≡ q / 8) × (p % 8 ≢ q % 8))
apart p q ne = elim (ℕ_discrete (p / 8) (q / 8)) [
  | no other ↦ inl other
  | yes same ↦ inr (same, λ e. ne (omega arith))
]

page_bit-update_self :
    (bitmap : ℕ → ℕ) (p v : ℕ) → page_bit (update bitmap (p / 8) v) p ≡ bit (p % 8) v
page_bit-update_self bitmap p v = ap (bit (p % 8)) (update_self bitmap (p / 8) v)

page_bit-update_other :
    (bitmap : ℕ → ℕ) (p q v : ℕ)
    → p ≢ q
    → ((p % 8 ≢ q % 8) → bit (q % 8) v ≡ bit (q % 8) (bitmap (p / 8)))
    → page_bit (update bitmap (p / 8) v) q ≡ page_bit bitmap q
page_bit-update_other bitmap p q v ne same = elim (apart p q ne) [
  | inl bytes ↦ ap (bit (q % 8)) (update_ne bitmap (p / 8) (q / 8) v bytes)
  | inr (byte, bits) ↦
      ap (bit (q % 8)) (rw byte (update_self bitmap (q / 8) v)) ∙ same bits ∙ rw byte refl
]

-- A page that is set used is no longer free, and no other page changes.
pub set_page_used_self : (bitmap : ℕ → ℕ) (p : ℕ) → is_page_free (set_page_used bitmap p) p ≡ false
unfolding set_page_used
set_page_used_self bitmap p =
    let v : ℕ = bit_or (bitmap (p / 8)) (2 ^ (p % 8)) in
    is_page_free_lem (update bitmap (p / 8) v) p
    ∙ rw (page_bit-update_self bitmap p v, bit-set_self (p % 8) (bitmap (p / 8))) refl

pub set_page_used_other :
    (bitmap : ℕ → ℕ) (p q : ℕ)
    → p ≢ q
    → is_page_free (set_page_used bitmap p) q ≡ is_page_free bitmap q
unfolding set_page_used
set_page_used_other bitmap p q ne =
    let v : ℕ = bit_or (bitmap (p / 8)) (2 ^ (p % 8)) in
    is_page_free_lem (update bitmap (p / 8) v) q
    ∙ ap (λ b. b == 0)
        (page_bit-update_other bitmap p q v ne
          (λ bits. bit-set_other (p % 8) (q % 8) (bitmap (p / 8)) bits))
    ∙ sym (is_page_free_lem bitmap q)

-- The byte that `set_page_free` writes.
cleared_other :
    (k j x : ℕ) → k < 8 → j < 8 → k ≢ j → bit j (u8 (bit_and x (without 32 k))) ≡ bit j x
cleared_other k j x hk hj ne =
    ap (bit j) (sym (bit_and_mask 8 (bit_and x (without 32 k))))
    ∙ bit-mask 8 j (bit_and x (without 32 k)) hj
    ∙ bit-clear_other 32 k j x (omega arith) (omega arith) ne

cleared_self : (k x : ℕ) → k < 8 → bit k (u8 (bit_and x (without 32 k))) ≡ 0
cleared_self k x hk =
    ap (bit k) (sym (bit_and_mask 8 (bit_and x (without 32 k))))
    ∙ bit-mask 8 k (bit_and x (without 32 k)) hk
    ∙ bit-clear_self 32 k x (omega arith)

pub set_page_free_self : (bitmap : ℕ → ℕ) (p : ℕ) → is_page_free (set_page_free bitmap p) p ≡ true
unfolding set_page_free
set_page_free_self bitmap p =
    let v : ℕ = u8 (bit_and (bitmap (p / 8)) (without 32 (p % 8))) in
    is_page_free_lem (update bitmap (p / 8) v) p
    ∙ rw (page_bit-update_self bitmap p v, cleared_self (p % 8) (bitmap (p / 8)) (omega arith)) refl

pub set_page_free_other :
    (bitmap : ℕ → ℕ) (p q : ℕ)
    → p ≢ q
    → is_page_free (set_page_free bitmap p) q ≡ is_page_free bitmap q
unfolding set_page_free
set_page_free_other bitmap p q ne =
    let v : ℕ = u8 (bit_and (bitmap (p / 8)) (without 32 (p % 8))) in
    is_page_free_lem (update bitmap (p / 8) v) q
    ∙ ap (λ b. b == 0)
        (page_bit-update_other bitmap p q v ne
          (λ bits. cleared_other (p % 8) (q % 8) (bitmap (p / 8)) (omega arith) (omega arith) bits))
    ∙ sym (is_page_free_lem bitmap q)
