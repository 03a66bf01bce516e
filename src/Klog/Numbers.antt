-- ===== src/Klog/Numbers.antt =====
-- `kprint_uint`: the digits that it prints read back as the value.
use myria.Base.{
  ℕ, zero, suc, ◌+◌, ◌-◌, ◌*◌, ◌/◌, ◌%◌, ◌^◌, ◌≤◌, ◌<◌, ◌≡◌, ◌≢◌, ◌∙◌, inl, inr, refl, sym, subst,
  ap, arith, Bool-cases, ltb, ◌==◌, if◌then◌else◌, some, List, [], ◌∷◌, ◌++◌, length, update,
  update_self, update_ne, ltb→lt,
}
use mathlib.Core.List.{append_assoc, append-nil}
use native.Mathlib.Nat.{pow-suc, div-lt_iff_lt-mul, mul-le-mul_left, mod-lt, div-add-mod}
use myria.Pmm.Stack.{All}
use myria.Klog.{digit_char, fill_digits, print_reversed, kprint_uint, serial_putc}

-- The digit that a character stands for, and the number that a text does, after `acc`.
unfoldable pub digit_value : ℕ → ℕ
digit_value c = if ltb c 58 then c - 48 else c - 87

unfoldable pub read_from : ℕ → ℕ → List ℕ → ℕ
read_from base acc [] = acc
read_from base acc (c ∷ s) = read_from base (acc * base + digit_value c) s

-- The characters of the digits below the base: `0` to `9`, then `a` and on.
pub data IsDigit (base : ℕ) : ℕ → Type 0 where
  decimal : (d : ℕ) → d < 10 → d < base → IsDigit base (48 + d)
  letter : (d : ℕ) → 10 ≤ d → d < base → IsDigit base (87 + d)

digit_char-IsDigit : (base d : ℕ) → d < base → IsDigit base (digit_char d)
unfolding digit_char
digit_char-IsDigit base d fits = elim (Bool-cases (ltb d 10)) [
  | inl few ↦ rw few (decimal d (ltb→lt d 10 few) fits)
  | inr many ↦
      let same : 97 + d - 10 ≡ 87 + d = omega arith in
      rw (many, same) (letter d (ground arith) fits)
]

-- `buffer[i + n - 1]` down to `buffer[i]`.
unfoldable pub downward : (ℕ → ℕ) → ℕ → ℕ → List ℕ
downward buffer i zero = []
downward buffer i (suc n) = buffer (i + n) ∷ downward buffer i n

digit_value-digit_char : (d : ℕ) → d < 16 → digit_value (digit_char d) ≡ d
unfolding digit_value digit_char
digit_value-digit_char d h = ground arith

digit_char-ne : (d : ℕ) → d ≢ 0 → digit_char d ≢ 48
unfolding digit_char
digit_char-ne d h e = ground arith

-- The lowest digit is read last.
read-downward :
    (base acc n i : ℕ) (buffer : ℕ → ℕ)
    → read_from base acc (downward buffer i (suc n))
      ≡ read_from base acc (downward buffer (i + 1) n) * base + digit_value (buffer i)
unfolding read_from downward
read-downward base acc zero i buffer = let e : i + 0 ≡ i = omega arith in rw e refl
read-downward base acc (suc n) i buffer =
    let e : i + 1 + n ≡ i + suc n = omega arith in
    rw e (read-downward base (acc * base + digit_value (buffer (i + suc n))) n i buffer)

-- The loop ended with `n` more digits in `buffer'`, which read as `value`.
pub record Filled (base value k : ℕ) (buffer : ℕ → ℕ) (i : ℕ) (buffer' : ℕ → ℕ) (n : ℕ)
    : Type 0 where
  pub kept : (j : ℕ) → j < i → buffer' j ≡ buffer j
  pub few : n ≤ k
  pub stops : value ≡ 0 → n ≡ 0
  pub reads : read_from base 0 (downward buffer' i n) ≡ value
  pub digits : (j : ℕ) → i ≤ j → j < i + n → IsDigit base (buffer' j)
  pub leads : 0 < value → (n ≢ 0) × (buffer' (i + n - 1) ≢ 48)

module _ (base : ℕ) (low : 10 ≤ base) (high : base ≤ 16) where
  smaller : (k value : ℕ) → value < 10 ^ suc k → value / base < 10 ^ k
  smaller k value h =
      (div-lt_iff_lt-mul (omega arith)).1
        (omega (arith, pow-suc 10 k, mul-le-mul_left (10 ^ k) low))

  -- The first digit is not 0.
  first_digit :
      (k i n value : ℕ) (buffer buffer' : ℕ → ℕ)
      → 0 < value
      → Filled base (value / base) k (update buffer i (digit_char (value % base))) (i + 1) buffer' n
      → buffer' i ≡ digit_char (value % base)
      → buffer' (i + suc n - 1) ≢ 48
  first_digit k i n value buffer buffer' pos f last = elim (Bool-cases (ltb 0 (value / base))) [
    | inl more ↦
        let same : i + 1 + n - 1 ≡ i + suc n - 1 = omega arith in
        rw same at (f.leads (ltb→lt 0 (value / base) more)).1
    | inr done ↦
        let none_left : value / base ≡ 0 = ground arith in
        let no_more : n ≡ 0 = f.stops none_left in
        let here : i + suc n - 1 ≡ i = omega arith in
        let whole : value % base ≡ value =
          omega (arith, div-add-mod value base, rw none_left at (div-add-mod value base)) in
        rw (here, last, whole) (digit_char-ne value (λ e. omega arith))
  ]

  -- One round, and then the rest.
  Filled-round :
      (k i n value : ℕ) (buffer buffer' : ℕ → ℕ)
      → 0 < value
      → Filled base (value / base) k (update buffer i (digit_char (value % base))) (i + 1) buffer' n
      → Filled base value (suc k) buffer i buffer' (suc n)
  Filled-round k i n value buffer buffer' pos f =
      let d : ℕ = value % base in
      let below : d < 16 = omega (arith, mod-lt value (let z : 0 < base = omega arith in z)) in
      let last : buffer' i ≡ digit_char d =
        f.kept i (omega arith) ∙ update_self buffer i (digit_char d) in
      record {
        kept =
            λ j h. f.kept j (omega arith) ∙ update_ne buffer i j (digit_char d) (λ e. omega arith);
        few = omega (arith, f.few);
        stops = λ e. absurd (omega arith);
        reads =
            read-downward base 0 n i buffer'
            ∙ rw (f.reads, last, digit_value-digit_char d below)
                (omega (arith, div-add-mod value base));
        digits = λ j from to. elim (Bool-cases (ltb i j)) [
          | inl above ↦ let lt = ltb→lt i j above in f.digits j (omega arith) (omega arith)
          | inr here ↦
              let same : i ≡ j = ground arith in
              subst (λ k. IsDigit base (buffer' k)) same
                (rw last
                  (digit_char-IsDigit base d (mod-lt value (let z : 0 < base = omega arith in z))))
        ];
        leads = λ _. (λ e. omega arith, first_digit k i n value buffer buffer' pos f last);
      }

  stopped :
      (fuel value i : ℕ) (buffer : ℕ → ℕ)
      → value ≡ 0
      → fill_digits fuel value base buffer i ≡ some (buffer, i + 0)
  unfolding fill_digits
  stopped zero value i buffer e = let z : i + 0 ≡ i = omega arith in rw (e, z) refl
  stopped (suc fuel) value i buffer e = let z : i + 0 ≡ i = omega arith in rw (e, z) refl

  Filled-none : (value k i : ℕ) (buffer : ℕ → ℕ) → value ≡ 0 → Filled base value k buffer i buffer 0
  unfolding read_from downward
  Filled-none value k i buffer e = record {
    kept = λ j h. refl;
    few = omega arith;
    stops = λ _. refl;
    reads = sym e;
    digits = λ j from to. absurd (omega arith);
    leads = λ pos. absurd (omega arith);
  }

  fill_digits-Filled :
      (k fuel value i : ℕ) (buffer : ℕ → ℕ)
      → value < 10 ^ k
      → k ≤ fuel
      → (buffer' : ℕ → ℕ) × (n : ℕ) × (fill_digits fuel value base buffer i ≡ some (buffer', i + n))
        × Filled base value k buffer i buffer' n
  unfolding fill_digits
  fill_digits-Filled zero fuel value i buffer fits enough =
      let nothing : value ≡ 0 = omega arith in
      (buffer, 0, stopped fuel value i buffer nothing, Filled-none value zero i buffer nothing)
  fill_digits-Filled (suc k) zero value i buffer fits enough = absurd (omega arith)
  fill_digits-Filled (suc k) (suc fuel) value i buffer fits enough =
      elim (Bool-cases (ltb 0 value)) [
        | inl more ↦
            let (buffer', n, e, f) =
              fill_digits-Filled k fuel (value / base) (i + 1) _ (smaller k value fits)
                (omega arith) in
            let same : i + 1 + n ≡ i + suc n = omega arith in
            (
              buffer',
              suc n,
              rw (more, e, same) refl,
              Filled-round k i n value buffer buffer' (ltb→lt 0 value more) f,
            )
        | inr done ↦
            let nothing : value ≡ 0 = ground arith in
            (
              buffer,
              0,
              stopped (suc fuel) value i buffer nothing,
              Filled-none value (suc k) i buffer nothing,
            )
      ]

-- The text is the numeral of the value in the base: at most 20 digits of that base, without leading
-- zeros, that read as the value.
pub record Numeral (base value : ℕ) (s : List ℕ) : Type 0 where
  pub reads : read_from base 0 s ≡ value
  pub digits : All (IsDigit base) s
  pub nonempty : s ≢ []
  pub short : length s ≤ 20
  pub no_leading_zero : (rest : List ℕ) → s ≡ 48 ∷ rest → rest ≡ []

length-downward : (buffer : ℕ → ℕ) (i n : ℕ) → length (downward buffer i n) ≡ n
unfolding downward
length-downward buffer i zero = refl
length-downward buffer i (suc n) = omega (arith, length-downward buffer i n)

print_reversed-downward :
    (buffer : ℕ → ℕ) (n : ℕ) (out : List ℕ)
    → print_reversed buffer n out ≡ out ++ downward buffer 0 n
unfolding print_reversed downward serial_putc
print_reversed-downward buffer zero out = sym (append-nil out)
print_reversed-downward buffer (suc n) out =
    let z : 0 + n ≡ n = omega arith in
    rw z (
      print_reversed-downward buffer n (out ++ (buffer n ∷ []))
      ∙ append_assoc out (buffer n ∷ []) (downward buffer 0 n))

downward-All :
    (base i n : ℕ) (buffer : ℕ → ℕ)
    → ((j : ℕ) → i ≤ j → j < i + n → IsDigit base (buffer j))
    → All (IsDigit base) (downward buffer i n)
unfolding downward
downward-All base i zero buffer all = tt
downward-All base i (suc n) buffer all = (
  all (i + n) (omega arith) (omega arith),
  downward-All base i n buffer (λ j from to. all j from (omega arith)),
)

downward-Numeral :
    (base value n : ℕ) (buffer buffer' : ℕ → ℕ)
    → 0 < value
    → Filled base value 20 buffer 0 buffer' n
    → Numeral base value (downward buffer' 0 n)
unfolding downward
downward-Numeral base value zero buffer buffer' pos f = absurd ((f.leads pos).0 refl)
downward-Numeral base value (suc n) buffer buffer' pos f = record {
  reads = f.reads;
  digits = downward-All base 0 (suc n) buffer' f.digits;
  nonempty = λ e. cc;
  short = omega (arith, f.few, length-downward buffer' 0 n);
  no_leading_zero = λ rest e. absurd ((f.leads pos).1 (first e));
}
  where
    first :
        {rest : List ℕ}
        → buffer' (0 + n) ∷ downward buffer' 0 n ≡ 48 ∷ rest
        → buffer' (0 + suc n - 1) ≡ 48
    first e =
        let same : 0 + suc n - 1 ≡ 0 + n = omega arith in
        rw same (let z : buffer' (0 + n) ≡ 48 = cc in z)

zero_digit : (value base : ℕ) → 10 ≤ base → value ≡ 0 → Numeral base value (48 ∷ [])
unfolding read_from digit_value
zero_digit value base low e = record {
  reads = let z : 0 * base + 0 ≡ value = omega arith in z;
  digits = (decimal 0 (omega arith) (omega arith), tt);
  nonempty = λ odd. cc;
  short = omega arith;
  no_leading_zero = λ rest same. cc;
}

-- In a base from 10 to 16, printing a 64-bit value ends and sends its numeral and nothing else: at
-- least one digit of the base and at most 20, without a leading zero unless the text is `0`, that
-- read as the value.
pub kprint_uint-Numeral :
    (value base : ℕ) (out : List ℕ)
    → value < 2 ^ 64
    → 10 ≤ base
    → base ≤ 16
    → (s : List ℕ) × (kprint_uint value base out ≡ some (out ++ s)) × Numeral base value s
unfolding kprint_uint serial_putc
kprint_uint-Numeral value base out fits low high = elim (Bool-cases (value == 0)) [
  | inl nothing ↦ (48 ∷ [], rw nothing refl, zero_digit value base low (ground arith))
  | inr something ↦
      let pos : 0 < value = ground arith in
      let (buffer, n, e, f) =
        fill_digits-Filled base low high 20 64 value 0 (λ _. 0) (omega arith) (omega arith) in
      (
        downward buffer 0 n,
        let same : 0 + n ≡ n = omega arith in
            rw (something, e, same) (ap some (print_reversed-downward buffer n out)),
        downward-Numeral base value n (λ _. 0) buffer pos f,
      )
]
