-- ===== src/Syscall/Accounts.antt =====
-- What every call does to the statistics, and which calls are refused.
use myria.Base.{
  ◌+◌, ◌%◌, ◌^◌, ◌≢◌, ◌∙◌, sym, ap, update_self, update_ne, ℕ, zero, suc, ◌<◌, ◌≡◌, ◌⊎◌, inl, inr,
  refl, arith, subst, Bool, true, false, Bool-cases, ◌||◌, Option, none, some, ◌==◌, ltb, ◌&&◌, leb,
  le→leb, lt→leb_false, List, [], ◌∷◌,
}
use native.Mathlib.Decide.{dec_lt}
use myria.Syscall.{
  Kernel, Outcome, returns, halts, SyscallHandler, max_syscalls, minus_one, sys_exit, sys_write,
  sys_read, sys_getpid, sys_sleep, sys_yield, sys_malloc, sys_free, syscall_table, handler_at,
  count_call, syscall_dispatch,
}

-- The kernel after a call.
abbrev pub after : Outcome → Kernel
after (returns v k) = k
after (halts k) = k

-- The calls that the table has a handler for: 0 to 2, and 7 to 11.
abbrev pub implemented : ℕ → Bool
implemented num = ltb num 3 || (leb 7 num && ltb num max_syscalls)

abbrev pub AllHandlers : (SyscallHandler → Type 0) → List (Option SyscallHandler) → Type 0
AllHandlers P [] = Unit {0}
AllHandlers P (none ∷ hs) = AllHandlers P hs
AllHandlers P (some h ∷ hs) = P h × AllHandlers P hs

entry-AllHandlers :
    (P : SyscallHandler → Type 0) (hs : List (Option SyscallHandler)) (n : ℕ) (h : SyscallHandler)
    → AllHandlers P hs
    → handler_at hs n ≡ some h
    → P h
entry-AllHandlers P [] n h a e = cc
entry-AllHandlers P (none ∷ hs) zero h a e = cc
entry-AllHandlers P (some g ∷ hs) zero h (p, a) e = let same : g ≡ h = cc in subst P same p
entry-AllHandlers P (none ∷ hs) (suc n) h a e = entry-AllHandlers P hs n h a e
entry-AllHandlers P (some g ∷ hs) (suc n) h (p, a) e = entry-AllHandlers P hs n h a e

-- A property of the outcome that every handler has is one of the dispatcher, if a refusal has it.
pub dispatch-AllHandlers :
    (Q : Kernel → Outcome → Type 0) (num a b c d e f : ℕ) (k : Kernel)
    → Q k (returns minus_one k)
    → ((o : Outcome) → Q (count_call num k) o → Q k o)
    → ((j : Kernel) → AllHandlers (λ h. Q j (h a b c d e f j)) syscall_table)
    → Q k (syscall_dispatch num a b c d e f k)
unfolding syscall_dispatch
dispatch-AllHandlers Q num a b c d e f k refused counts all = elim (dec_lt num max_syscalls) [
  | no big ↦ rw (le→leb max_syscalls num (omega arith)) refused
  | yes small ↦
      rw (lt→leb_false max_syscalls num small) (by_entry (handler_at syscall_table num) refl)
]
  where
    by_entry :
        (o : Option SyscallHandler)
        → handler_at syscall_table num ≡ o
        → Q k (elim o as (λ _. Outcome) [
          | none ↦ returns minus_one k
          | some handler ↦ handler a b c d e f (count_call num k)
        ])
    by_entry none q = refused
    by_entry (some h) q = counts _ (
        entry-AllHandlers (λ g. Q (count_call num k) (g a b c d e f (count_call num k)))
          syscall_table num h (all (count_call num k)) q)

table_entry_cases :
    (n : ℕ)
    → n < max_syscalls
    → ((implemented n ≡ false) × (handler_at syscall_table n ≡ none))
      ⊎ ((implemented n ≡ true) × (h : SyscallHandler) × (handler_at syscall_table n ≡ some h))
table_entry_cases zero lt = inr (refl, sys_exit, refl)
table_entry_cases (suc zero) lt = inr (refl, sys_write, refl)
table_entry_cases (suc (suc zero)) lt = inr (refl, sys_read, refl)
table_entry_cases (suc (suc (suc zero))) lt = inl (refl, refl)
table_entry_cases (suc (suc (suc (suc zero)))) lt = inl (refl, refl)
table_entry_cases (suc (suc (suc (suc (suc zero))))) lt = inl (refl, refl)
table_entry_cases (suc (suc (suc (suc (suc (suc zero)))))) lt = inl (refl, refl)
table_entry_cases (suc (suc (suc (suc (suc (suc (suc zero))))))) lt = inr (refl, sys_getpid, refl)
table_entry_cases (suc (suc (suc (suc (suc (suc (suc (suc zero)))))))) lt =
    inr (refl, sys_sleep, refl)
table_entry_cases (suc (suc (suc (suc (suc (suc (suc (suc (suc zero))))))))) lt =
    inr (refl, sys_yield, refl)
table_entry_cases (suc (suc (suc (suc (suc (suc (suc (suc (suc (suc zero)))))))))) lt =
    inr (refl, sys_malloc, refl)
table_entry_cases (suc (suc (suc (suc (suc (suc (suc (suc (suc (suc (suc zero))))))))))) lt =
    inr (refl, sys_free, refl)
table_entry_cases (suc (suc (suc (suc (suc (suc (suc (suc (suc (suc (suc (suc n)))))))))))) lt =
    absurd (omega arith)

-- No handler touches the statistics.
abbrev SameCounts : Kernel → Outcome → Type 0
SameCounts k o =
    ((after o).syscall_counts ≡ k.syscall_counts) × ((after o).total_syscalls ≡ k.total_syscalls)

write-SameCounts : (a b c d e f : ℕ) (k : Kernel) → SameCounts k (sys_write a b c d e f k)
unfolding sys_write
write-SameCounts a b c d e f k = elim (Bool-cases ((a == 1) || (a == 2))) [
  | inl out ↦ rw out (refl, refl)
  | inr other ↦ rw other (refl, refl)
]

all-SameCounts :
    (a b c d e f : ℕ) (k : Kernel) → AllHandlers (λ h. SameCounts k (h a b c d e f k)) syscall_table
unfolding sys_exit sys_read sys_getpid sys_sleep sys_yield sys_malloc sys_free
all-SameCounts a b c d e f k = (
  (refl, refl),
  (
    write-SameCounts a b c d e f k,
    (
      (refl, refl),
      ((refl, refl), ((refl, refl), ((refl, refl), ((refl, refl), ((refl, refl), tt))))),
    ),
  ),
)

-- What a call does to the statistics: nothing, if it is refused; or it is counted once.
pub data Dispatched (num : ℕ) (k : Kernel) : Outcome → Type 0 where
  rejected : implemented num ≡ false → Dispatched num k (returns minus_one k)
  handled :
      (o : Outcome)
      → implemented num ≡ true
      → (after o).syscall_counts num ≡ (k.syscall_counts num + 1) % 2 ^ 64
      → ((n : ℕ) → n ≢ num → (after o).syscall_counts n ≡ k.syscall_counts n)
      → (after o).total_syscalls ≡ (k.total_syscalls + 1) % 2 ^ 64
      → Dispatched num k o

-- A call that leaves the statistics as `count_call` made them.
counted :
    {num : ℕ} {k : Kernel} (o : Outcome)
    → implemented num ≡ true
    → (after o).syscall_counts ≡ (count_call num k).syscall_counts
    → (after o).total_syscalls ≡ (count_call num k).total_syscalls
    → Dispatched num k o
counted {num} {k} o there counts total =
    handled o there (ap (λ (g : ℕ → ℕ). g num) counts ∙ update_self k.syscall_counts num _)
      (λ n ne.
        ap (λ (g : ℕ → ℕ). g n) counts ∙ update_ne k.syscall_counts num n _ (λ e. ne (sym e)))
      total

-- A call whose number is out of range or has no handler returns -1 and changes nothing; every
-- other call adds one, modulo 2^64, to the count of its number and to the total, and leaves the
-- counts of the other numbers.
pub syscall_dispatch-Dispatched :
    (num a b c d e f : ℕ) (k : Kernel) → Dispatched num k (syscall_dispatch num a b c d e f k)
unfolding syscall_dispatch
syscall_dispatch-Dispatched num a b c d e f k = elim (dec_lt num max_syscalls) [
  | no big ↦ rw (le→leb max_syscalls num (omega arith)) (rejected (ground arith))
  | yes small ↦ rw (lt→leb_false max_syscalls num small) (elim (table_entry_cases num small) [
    | inl (none_there, q) ↦ rw q (rejected none_there)
    | inr (there, h, q) ↦
        let same =
          entry-AllHandlers (λ g. SameCounts (count_call num k) (g a b c d e f (count_call num k)))
            syscall_table num h (all-SameCounts a b c d e f (count_call num k)) q in
        rw q (counted _ there same.0 same.1)
  ])
]
