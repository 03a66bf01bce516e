-- ===== src/Klog/Strings.antt =====
-- Strings in memory, and printing them.
use myria.Base.{
  ℕ, zero, suc, ◌+◌, ◌<◌, ◌≡◌, ◌≢◌, ◌⊎◌, ◌∙◌, inl, inr, refl, sym, arith, some, List, [], ◌∷◌, ◌++◌,
  length, ne→==_false,
}
use mathlib.Core.List.{append_assoc, append-nil}
use myria.Memory.{Memory}
use myria.Klog.{serial_putc, serial_puts, put_all, put_string, null_text}

-- The string at `p` is `s`.
abbrev pub IsString : Memory → ℕ → List ℕ → Type 0
IsString m p [] = m p ≡ 0
IsString m p (c ∷ s) = (m p ≡ c) × (c ≢ 0) × IsString m (p + 1) s

pub serial_puts-IsString :
    (m : Memory) (fuel p : ℕ) (s out : List ℕ)
    → IsString m p s
    → length s < fuel
    → serial_puts m fuel p out ≡ some (out ++ s)
unfolding serial_puts serial_putc
serial_puts-IsString m zero p s out h enough = absurd (omega arith)
serial_puts-IsString m (suc fuel) p [] out h enough = rw (h, append-nil out) refl
serial_puts-IsString m (suc fuel) p (c ∷ s) out h enough =
    rw (h.0, ne→==_false c 0 h.1)
      (rw (append_assoc out (c ∷ []) s) at
        (serial_puts-IsString m fuel (p + 1) s (out ++ (c ∷ [])) h.2 (omega arith)))

pub put_all_lem : (s out : List ℕ) → put_all s out ≡ out ++ s
unfolding put_all serial_putc
put_all_lem [] out = sym (append-nil out)
put_all_lem (c ∷ s) out = put_all_lem s (out ++ (c ∷ [])) ∙ append_assoc out (c ∷ []) s

-- What `%s` prints for the pointer `p`.
abbrev pub Shows : Memory → ℕ → ℕ → List ℕ → Type 0
Shows m fuel p t = ((p ≡ 0) × (t ≡ null_text)) ⊎ ((p ≢ 0) × IsString m p t × (length t < fuel))

pub put_string-Shows :
    (m : Memory) (fuel p : ℕ) (t out : List ℕ)
    → Shows m fuel p t
    → put_string m fuel p out ≡ some (out ++ t)
unfolding put_string
put_string-Shows m fuel p t out (inl (nothing, e)) =
    rw (nothing, e) (rw (put_all_lem null_text out) refl)
put_string-Shows m fuel p t out (inr (there, s, enough)) =
    rw (ne→==_false p 0 there) (serial_puts-IsString m fuel p t out s enough)
