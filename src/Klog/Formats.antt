-- ===== src/Klog/Formats.antt =====
-- `kprintf` on the formats that it knows.
use myria.Base.{
  ℕ, zero, suc, ◌+◌, ◌-◌, ◌^◌, ◌≤◌, ◌<◌, ◌≡◌, ◌≢◌, ◌∙◌, inl, inr, refl, ap, arith, some, List, [],
  ◌∷◌, ◌++◌, length, u32, u64, ltb, leb, ne→==_false, Bool-cases, ltb→lt, true, false,
}
use mathlib.Core.List.{append_assoc, append-nil}
use myria.Memory.{Memory}
use myria.Klog.{
  serial_putc, kprint_int, sign_extend, long_conversion, conversion, print_from, kprintf,
}
use myria.Klog.Strings.{IsString, Shows, put_string-Shows}
use myria.Klog.Numbers.{Numeral, kprint_uint-Numeral}

-- A part of a format: a character, `%%`, or `%d`, `%u`, `%x`, `%lu`, `%lx`, `%s`.
pub data Piece : Type 0 where
  literal : ℕ → Piece
  percent : Piece
  signed : Piece
  unsigned : Piece
  hex : Piece
  long_unsigned : Piece
  long_hex : Piece
  string : Piece

-- The text of a format.
abbrev pub format_text : List Piece → List ℕ
format_text [] = []
format_text (literal c ∷ ps) = c ∷ format_text ps
format_text (percent ∷ ps) = 37 ∷ 37 ∷ format_text ps
format_text (signed ∷ ps) = 37 ∷ 100 ∷ format_text ps
format_text (unsigned ∷ ps) = 37 ∷ 117 ∷ format_text ps
format_text (hex ∷ ps) = 37 ∷ 120 ∷ format_text ps
format_text (long_unsigned ∷ ps) = 37 ∷ 108 ∷ 117 ∷ format_text ps
format_text (long_hex ∷ ps) = 37 ∷ 108 ∷ 120 ∷ format_text ps
format_text (string ∷ ps) = 37 ∷ 115 ∷ format_text ps

-- A 32-bit `int` printed in decimal.
pub data Integer (v : ℕ) : List ℕ → Type 0 where
  positive : (t : List ℕ) → v < 2 ^ 31 → Numeral 10 v t → Integer v t
  negative : (t : List ℕ) → 2 ^ 31 ≤ v → Numeral 10 (2 ^ 32 - v) t → Integer v (45 ∷ t)

-- What a format prints, from the slot `k` on.
pub data Renders (m : Memory) (args : ℕ → ℕ) (limit : ℕ) : List Piece → ℕ → List ℕ → Type 0 where
  ends : (k : ℕ) → Renders m args limit [] k []
  plain :
      (c k : ℕ) (ps : List Piece) (s : List ℕ)
      → Renders m args limit ps k s
      → Renders m args limit (literal c ∷ ps) k (c ∷ s)
  one_percent :
      (k : ℕ) (ps : List Piece) (s : List ℕ)
      → Renders m args limit ps k s
      → Renders m args limit (percent ∷ ps) k (37 ∷ s)
  integer :
      (k : ℕ) (ps : List Piece) (t s : List ℕ)
      → Integer (u32 (args k)) t
      → Renders m args limit ps (k + 1) s
      → Renders m args limit (signed ∷ ps) k (t ++ s)
  natural :
      (k : ℕ) (ps : List Piece) (t s : List ℕ)
      → Numeral 10 (u32 (args k)) t
      → Renders m args limit ps (k + 1) s
      → Renders m args limit (unsigned ∷ ps) k (t ++ s)
  in_hex :
      (k : ℕ) (ps : List Piece) (t s : List ℕ)
      → Numeral 16 (u32 (args k)) t
      → Renders m args limit ps (k + 1) s
      → Renders m args limit (hex ∷ ps) k (t ++ s)
  long_natural :
      (k : ℕ) (ps : List Piece) (t s : List ℕ)
      → Numeral 10 (u64 (args k)) t
      → Renders m args limit ps (k + 1) s
      → Renders m args limit (long_unsigned ∷ ps) k (t ++ s)
  long_in_hex :
      (k : ℕ) (ps : List Piece) (t s : List ℕ)
      → Numeral 16 (u64 (args k)) t
      → Renders m args limit ps (k + 1) s
      → Renders m args limit (long_hex ∷ ps) k (t ++ s)
  text :
      (k : ℕ) (ps : List Piece) (t s : List ℕ)
      → Shows m limit (args k) t
      → Renders m args limit ps (k + 1) s
      → Renders m args limit (string ∷ ps) k (t ++ s)

-- The pieces are proper: no character is `%` and each `%s` has NULL or a string of its slot.
abbrev pub IsFormat : Memory → (ℕ → ℕ) → ℕ → List Piece → ℕ → Type 0
IsFormat m args limit [] k = Unit {0}
IsFormat m args limit (literal c ∷ ps) k = (c ≢ 37) × IsFormat m args limit ps k
IsFormat m args limit (percent ∷ ps) k = IsFormat m args limit ps k
IsFormat m args limit (string ∷ ps) k =
    ((t : List ℕ) × Shows m limit (args k) t) × IsFormat m args limit ps (k + 1)
IsFormat m args limit (signed ∷ ps) k = IsFormat m args limit ps (k + 1)
IsFormat m args limit (unsigned ∷ ps) k = IsFormat m args limit ps (k + 1)
IsFormat m args limit (hex ∷ ps) k = IsFormat m args limit ps (k + 1)
IsFormat m args limit (long_unsigned ∷ ps) k = IsFormat m args limit ps (k + 1)
IsFormat m args limit (long_hex ∷ ps) k = IsFormat m args limit ps (k + 1)

module _ (m : Memory) (args : ℕ → ℕ) (limit : ℕ) where
  -- A round at a `%` whose conversion is known.
  conversion_round :
      (fuel fmt k fmt' k' : ℕ) (out out' : List ℕ)
      → m fmt ≡ 37
      → conversion m args limit (fmt + 1) k out ≡ some (fmt', k', out')
      → print_from m args limit (suc fuel) fmt k out
        ≡ print_from m args limit fuel (fmt' + 1) k' out'
  unfolding print_from
  conversion_round fuel fmt k fmt' k' out out' here step = rw (here, step) refl

  kprint_int-Integer :
      (v : ℕ) (out : List ℕ)
      → v < 2 ^ 32
      → (t : List ℕ) × (kprint_int (sign_extend v) out ≡ some (out ++ t)) × Integer v t
  unfolding kprint_int sign_extend serial_putc
  kprint_int-Integer v out fits = elim (Bool-cases (ltb v (2 ^ 31))) [
    | inl small ↦
        let (t, e, n) = kprint_uint-Numeral v 10 out (omega arith) (omega arith) (omega arith) in
        let low : leb (2 ^ 63) v ≡ false = ground arith in
        (t, rw (small, low, e) refl, positive t (ltb→lt v (2 ^ 31) small) n)
    | inr large ↦
        let big : 2 ^ 31 ≤ v = ground arith in
        let (t, e, n) =
          kprint_uint-Numeral (2 ^ 32 - v) 10 (out ++ (45 ∷ [])) (omega arith) (omega arith)
            (omega arith) in
        let high : leb (2 ^ 63) (v + (2 ^ 64 - 2 ^ 32)) ≡ true = ground arith in
        let same : u64 (2 ^ 64 - (v + (2 ^ 64 - 2 ^ 32))) ≡ 2 ^ 32 - v = omega arith in
        (45 ∷ t, rw (large, high, same, e, append_assoc out (45 ∷ []) t) refl, negative t big n)
  ]

  -- The loop, from the address `fmt` and the slot `k`, ends and prints what `ps` says.
  abbrev Prints : List Piece → ℕ → ℕ → ℕ → List ℕ → Type 0
  Prints ps fuel fmt k out =
      (s : List ℕ) × (print_from m args limit fuel fmt k out ≡ some (out ++ s))
      × Renders m args limit ps k s

  -- A conversion that sends `t`, and then the rest.
  after_conversion :
      {p : Piece} {ps : List Piece} {fmt fmt' k k' : ℕ} (fuel : ℕ) (out t : List ℕ)
      → ((s : List ℕ) → Renders m args limit ps k' s → Renders m args limit (p ∷ ps) k (t ++ s))
      → m fmt ≡ 37
      → conversion m args limit (fmt + 1) k out ≡ some (fmt', k', out ++ t)
      → Prints ps fuel (fmt' + 1) k' (out ++ t)
      → Prints (p ∷ ps) (suc fuel) fmt k out
  after_conversion {fmt = fmt} {fmt'} {k} {k'} fuel out t shows here step (s, e, r) = (
    t ++ s,
    conversion_round fuel fmt k fmt' k' out (out ++ t) here step
        ∙ e
        ∙ ap some (append_assoc out t s),
    shows s r,
  )

  print_from-Renders :
      (ps : List Piece) (fuel fmt k : ℕ) (out : List ℕ)
      → IsString m fmt (format_text ps)
      → IsFormat m args limit ps k
      → length ps < fuel
      → Prints ps fuel fmt k out
  unfolding print_from conversion long_conversion serial_putc
  print_from-Renders ps zero fmt k out str ok enough = absurd (omega arith)
  print_from-Renders [] (suc fuel) fmt k out str ok enough =
      ([], rw (str, append-nil out) refl, ends k)
  print_from-Renders (literal c ∷ ps) (suc fuel) fmt k out (here, proper, str) (ne, ok) enough =
      let (s, e, r) =
        print_from-Renders ps fuel (fmt + 1) k (out ++ (c ∷ [])) str ok (omega arith) in
      (
        c ∷ s,
        rw (here, ne→==_false c 0 proper, ne→==_false c 37 ne)
            (e ∙ ap some (append_assoc out (c ∷ []) s)),
        plain c k ps s r,
      )
  print_from-Renders (percent ∷ ps) (suc fuel) fmt k out str ok enough =
      after_conversion fuel out (37 ∷ []) (λ s r. one_percent k ps s r) str.0 (rw str.2.0 refl)
        (print_from-Renders ps fuel (fmt + 1 + 1) k _ str.2.2 ok (omega arith))
  print_from-Renders (signed ∷ ps) (suc fuel) fmt k out str ok enough =
      let (t, e, n) = kprint_int-Integer (u32 (args k)) out (omega arith) in
      after_conversion fuel out t (λ s r. integer k ps t s n r) str.0 (rw (str.2.0, e) refl)
        (print_from-Renders ps fuel (fmt + 1 + 1) (k + 1) _ str.2.2 ok (omega arith))
  print_from-Renders (unsigned ∷ ps) (suc fuel) fmt k out str ok enough =
      let (t, e, n) =
        kprint_uint-Numeral (u32 (args k)) 10 out (omega arith) (omega arith) (omega arith) in
      after_conversion fuel out t (λ s r. natural k ps t s n r) str.0 (rw (str.2.0, e) refl)
        (print_from-Renders ps fuel (fmt + 1 + 1) (k + 1) _ str.2.2 ok (omega arith))
  print_from-Renders (hex ∷ ps) (suc fuel) fmt k out str ok enough =
      let (t, e, n) =
        kprint_uint-Numeral (u32 (args k)) 16 out (omega arith) (omega arith) (omega arith) in
      after_conversion fuel out t (λ s r. in_hex k ps t s n r) str.0 (rw (str.2.0, e) refl)
        (print_from-Renders ps fuel (fmt + 1 + 1) (k + 1) _ str.2.2 ok (omega arith))
  print_from-Renders (long_unsigned ∷ ps) (suc fuel) fmt k out str ok enough =
      let (t, e, n) =
        kprint_uint-Numeral (u64 (args k)) 10 out (omega arith) (omega arith) (omega arith) in
      after_conversion fuel out t (λ s r. long_natural k ps t s n r) str.0
        (rw (str.2.0, str.2.2.0, e) refl)
        (print_from-Renders ps fuel (fmt + 1 + 1 + 1) (k + 1) _ str.2.2.2 ok (omega arith))
  print_from-Renders (long_hex ∷ ps) (suc fuel) fmt k out str ok enough =
      let (t, e, n) =
        kprint_uint-Numeral (u64 (args k)) 16 out (omega arith) (omega arith) (omega arith) in
      after_conversion fuel out t (λ s r. long_in_hex k ps t s n r) str.0
        (rw (str.2.0, str.2.2.0, e) refl)
        (print_from-Renders ps fuel (fmt + 1 + 1 + 1) (k + 1) _ str.2.2.2 ok (omega arith))
  print_from-Renders (string ∷ ps) (suc fuel) fmt k out str ((t, shown), ok) enough =
      let e = put_string-Shows m limit (args k) t out shown in
      after_conversion fuel out t (λ s r. text k ps t s shown r) str.0 (rw (str.2.0, e) refl)
        (print_from-Renders ps fuel (fmt + 1 + 1) (k + 1) _ str.2.2 ok (omega arith))

-- If memory holds the text of a format at `fmt`, each of whose pieces is proper, and the fuel
-- exceeds the number of pieces, `kprintf` ends and sends what the pieces say of its arguments.
pub kprintf-Renders :
    (m : Memory) (args : ℕ → ℕ) (ps : List Piece) (fuel fmt : ℕ) (out : List ℕ)
    → IsString m fmt (format_text ps)
    → IsFormat m args fuel ps 0
    → length ps < fuel
    → (s : List ℕ) × (kprintf m args fuel fmt out ≡ some (out ++ s)) × Renders m args fuel ps 0 s
unfolding kprintf
kprintf-Renders m args ps fuel fmt out str ok enough =
    print_from-Renders m args fuel ps fuel fmt 0 out str ok enough
