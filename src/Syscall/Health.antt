-- ===== src/Syscall/Health.antt =====
-- System calls and the scheduler.
use myria.Base.{
  ℕ, zero, suc, ◌/◌, ◌<◌, ◌≡◌, ◌≢◌, inl, inr, refl, sym, subst, ◌∙◌, Bool-cases, ◌||◌, ◌==◌, Option,
  none, some,
}
use myria.Sched.{Sched, max_threads}
use myria.Sched.Health.{Healthy, sched_yield-Healthy}
use myria.Sched.Next.{IsSlot}
use myria.Syscall.{
  Kernel, Outcome, returns, sys_exit, sys_write, sys_read, sys_getpid, sleep_from, sys_sleep,
  sys_yield, sys_malloc, sys_free, syscall_table, count_call, current_tid, syscall_dispatch,
}
use myria.Syscall.Accounts.{after, AllHandlers, dispatch-AllHandlers}

abbrev StaysHealthy : Kernel → Outcome → Type 0
StaysHealthy k o = Healthy k.sched → Healthy (after o).sched

sleep_from-Healthy : (left : ℕ) (s : Sched) → Healthy s → Healthy (sleep_from s left)
unfolding sleep_from
sleep_from-Healthy zero s v = v
sleep_from-Healthy (suc left) s v = sleep_from-Healthy left _ (sched_yield-Healthy s v)

write-StaysHealthy : (a b c d e f : ℕ) (k : Kernel) → StaysHealthy k (sys_write a b c d e f k)
unfolding sys_write
write-StaysHealthy a b c d e f k v = elim (Bool-cases ((a == 1) || (a == 2))) [
  | inl out ↦ rw out v
  | inr other ↦ rw other v
]

all-StaysHealthy :
    (a b c d e f : ℕ) (k : Kernel)
    → AllHandlers (λ h. StaysHealthy k (h a b c d e f k)) syscall_table
unfolding sys_exit sys_read sys_getpid sys_sleep sys_yield sys_malloc sys_free
all-StaysHealthy a b c d e f k = (
  (λ v. v),
  (
    write-StaysHealthy a b c d e f k,
    (
      (λ v. v),
      (
        (λ v. v),
        (
          sleep_from-Healthy (a / 10) k.sched,
          (sched_yield-Healthy k.sched, ((λ v. v), ((λ v. v), tt))),
        ),
      ),
    ),
  ),
)

-- No system call, whatever its number and arguments, harms a healthy scheduler.
pub syscall_dispatch-Healthy :
    (num a b c d e f : ℕ) (k : Kernel)
    → Healthy k.sched
    → Healthy (after (syscall_dispatch num a b c d e f k)).sched
syscall_dispatch-Healthy num a b c d e f k =
    dispatch-AllHandlers StaysHealthy num a b c d e f k (λ v. v) (λ o q. q)
      (λ j. all-StaysHealthy a b c d e f j)

-- On a healthy scheduler `getpid` changes nothing but the statistics, and returns a process id
-- that is never 0: that of the current thread, which no other slot of the table has, or 1 if
-- there is no current thread.
pub sys_getpid_lem :
    (a b c d e f : ℕ) (k : Kernel)
    → Healthy k.sched
    → (pid : ℕ) × (syscall_dispatch 7 a b c d e f k ≡ returns pid (count_call 7 k))
      × (pid ≢ 0)
      × ((i j : ℕ)
          → k.sched.current_thread ≡ some i
          → j < max_threads
          → (k.sched.thread_table j).tid ≡ pid
          → i ≡ j)
unfolding syscall_dispatch sys_getpid
sys_getpid_lem a b c d e f k v = (
  current_tid k.sched,
  refl,
  named k.sched.current_thread refl,
  λ i j at lt same.
      let here = tid_at i k.sched.current_thread at in
      v.distinct i j (subst IsSlot at v.sole.slot) lt (v.sole.runs i at).1 (sym here ∙ sym same),
)
  where
    named :
        (o : Option ℕ)
        → k.sched.current_thread ≡ o
        → elim o as (λ _. ℕ) [ none ↦ 1 | some c ↦ (k.sched.thread_table c).tid ] ≢ 0
    named none e = λ z. cc
    named (some c) e = (v.sole.runs c e).1

    tid_at :
        (i : ℕ) (o : Option ℕ)
        → o ≡ some i
        → elim o as (λ _. ℕ) [ none ↦ 1 | some c ↦ (k.sched.thread_table c).tid ]
          ≡ (k.sched.thread_table i).tid
    tid_at i o e = rw e refl
