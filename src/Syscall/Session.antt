-- ===== src/Syscall/Session.antt =====
-- The statistics over time.
use myria.Base.{
  ℕ, zero, suc, ◌+◌, ◌<◌, ◌≤◌, ◌≡◌, ◌⊎◌, inl, inr, refl, arith, ap, ◌∙◌, sym, subst, ◌==◌, ==_refl,
  ne→==_false, if◌then◌else◌, u64, update, update_self, update_ne, List, [], ◌∷◌,
}
use native.Mathlib.Decide.{ℕ_discrete}
use myria.Syscall.{Kernel, Outcome, max_syscalls, clear_counts_from, syscall_init, syscall_dispatch}
use myria.Syscall.Accounts.{
  after, implemented, Dispatched, rejected, handled, syscall_dispatch-Dispatched,
}

-- The numbers of all calls since the start, the last one first. Between calls the kernel may do
-- anything but write the statistics.
pub data Served (boot : Kernel) : List ℕ → Kernel → Type 0 where
  booted : Served boot [] (syscall_init boot)
  calls :
      {nums : List ℕ} {k : Kernel} (num a b c d e f : ℕ)
      → Served boot nums k
      → Served boot (num ∷ nums) (after (syscall_dispatch num a b c d e f k))
  between :
      {nums : List ℕ} {k : Kernel} (k' : Kernel)
      → Served boot nums k
      → k'.syscall_counts ≡ k.syscall_counts
      → k'.total_syscalls ≡ k.total_syscalls
      → Served boot nums k'

-- How many of the calls had a handler, and how many of those had the number `n`.
abbrev pub accepted : List ℕ → ℕ
accepted [] = 0
accepted (num ∷ nums) = if implemented num then suc (accepted nums) else accepted nums

abbrev pub accepted_as : ℕ → List ℕ → ℕ
accepted_as n [] = 0
accepted_as n (num ∷ nums) =
    if implemented num
    then (if num == n then suc (accepted_as n nums) else accepted_as n nums)
    else accepted_as n nums

-- The statistics that the calls `nums` should have left.
pub record Counts (nums : List ℕ) (k : Kernel) : Type 0 where
  pub total : k.total_syscalls ≡ u64 (accepted nums)
  pub each : (n : ℕ) → n < max_syscalls → k.syscall_counts n ≡ u64 (accepted_as n nums)

cleared_counts :
    (left i : ℕ) (counts : ℕ → ℕ) (n : ℕ)
    → ((i ≤ n) × (n < i + left)) ⊎ (counts n ≡ 0)
    → clear_counts_from counts i left n ≡ 0
unfolding clear_counts_from
cleared_counts zero i counts n (inl (a, b)) = absurd (omega arith)
cleared_counts zero i counts n (inr done) = done
cleared_counts (suc left) i counts n why = cleared_counts left (i + 1) _ n (elim (ℕ_discrete i n) [
  | yes here ↦ inr (subst (λ j. update counts i 0 j ≡ 0) here (update_self counts i 0))
  | no there ↦ elim why [
    | inl (a, b) ↦ inl (omega arith, omega arith)
    | inr done ↦ inr (update_ne counts i n 0 there ∙ done)
  ]
])

count_call-Counts :
    (num : ℕ) {nums : List ℕ} {k : Kernel} {o : Outcome}
    → Counts nums k
    → Dispatched num k o
    → Counts (num ∷ nums) (after o)
count_call-Counts num v (rejected refused) = record {
  total = rw refused v.total;
  each = λ n lt. rw refused (v.each n lt);
}
count_call-Counts num {nums} {k} v (handled o there own others total) = record {
  total = rw there (total ∙ ap (λ t. u64 (t + 1)) v.total ∙ omega arith);
  each = λ n lt. rw there (elim (ℕ_discrete num n) [
    | yes here ↦
        subst
          (λ j.
            (after o).syscall_counts j
            ≡ u64 (if num == j then suc (accepted_as j nums) else accepted_as j nums))
          here
          (own
            ∙ rw (==_refl num)
                (omega (arith, v.each num (subst (λ j. j < max_syscalls) (sym here) lt))))
    | no other ↦ others n (λ e. other (sym e)) ∙ rw (ne→==_false num n other) (v.each n lt)
  ]);
}

-- After any sequence of calls from initialisation, the total counts the calls that had a handler
-- and the count of each number those with that number, both up to a multiple of 2^64.
pub Served-Counts :
    {boot : Kernel} {nums : List ℕ} {k : Kernel} → Served boot nums k → Counts nums k
unfolding syscall_init
Served-Counts {boot} booted = record {
  total = refl;
  each =
      λ n lt. cleared_counts max_syscalls 0 boot.syscall_counts n (inl (omega arith, omega arith));
}
Served-Counts (calls {nums} {k} num a b c d e f r) =
    count_call-Counts num (Served-Counts r) (syscall_dispatch-Dispatched num a b c d e f k)
Served-Counts (between k' r counts total) =
    let v = Served-Counts r in
    record { total = total ∙ v.total; each = λ n lt. ap (λ g. g n) counts ∙ v.each n lt }
