-- ===== src/Syscall.antt =====
-- os/kernel/syscall/syscalls.c: the table of system calls, its dispatcher and the handlers, on the
-- scheduler and the kernel heap. Log lines are left out, and with them the loop of `sys_write`,
-- which reads characters and does nothing with them.
pub mod Accounts
pub mod Health
pub mod Session
mod Tests
use myria.Base.{
  ℕ, zero, suc, ◌+◌, ◌-◌, ◌/◌, ◌%◌, ◌^◌, Bool, true, false, ◌||◌, Option, none, some, ◌==◌, leb,
  List, [], ◌∷◌, if◌then◌else◌, u64, update,
}
use myria.Heap.{Heap, kmalloc, kfree}
use myria.Sched.{Sched, sched_yield}

abbrev pub max_syscalls : ℕ
max_syscalls = 12

-- What the handlers work on, and the statistics.
pub record Kernel : Type 0 where
  pub sched : Sched
  pub heap : Heap
  pub syscall_counts : ℕ → ℕ
  pub total_syscalls : ℕ

-- A call returns a word, or the processor halts for good.
pub data Outcome : Type 0 where
  returns : ℕ → Kernel → Outcome
  halts : Kernel → Outcome

abbrev pub SyscallHandler : Type 0
SyscallHandler = ℕ → ℕ → ℕ → ℕ → ℕ → ℕ → Kernel → Outcome

-- `(u64)-1`
abbrev pub minus_one : ℕ
minus_one = 2 ^ 64 - 1

unfoldable pub clear_counts_from : (ℕ → ℕ) → ℕ → ℕ → ℕ → ℕ
clear_counts_from counts i zero = counts
clear_counts_from counts i (suc left) = clear_counts_from (update counts i 0) (i + 1) left

unfoldable pub syscall_init : Kernel → Kernel
unfolding clear_counts_from
syscall_init k = record k {
  total_syscalls = 0;
  syscall_counts = clear_counts_from k.syscall_counts 0 max_syscalls;
}

unfoldable pub sys_exit : SyscallHandler
sys_exit exit_code arg2 arg3 arg4 arg5 arg6 k = halts k

unfoldable pub sys_write : SyscallHandler
sys_write fd buf count arg4 arg5 arg6 k =
    if (fd == 1) || (fd == 2) then returns count k else returns minus_one k

unfoldable pub sys_read : SyscallHandler
sys_read fd buf count arg4 arg5 arg6 k = returns 0 k

-- `sched_current_thread()` and the id of the thread it gives.
abbrev pub current_tid : Sched → ℕ
current_tid s = elim s.current_thread [ none ↦ 1 | some c ↦ (s.thread_table c).tid ]

unfoldable pub sys_getpid : SyscallHandler
sys_getpid arg1 arg2 arg3 arg4 arg5 arg6 k = returns (current_tid k.sched) k

unfoldable pub sleep_from : Sched → ℕ → Sched
sleep_from s zero = s
sleep_from s (suc left) = sleep_from (sched_yield s) left

unfoldable pub sys_sleep : SyscallHandler
unfolding sleep_from
sys_sleep milliseconds arg2 arg3 arg4 arg5 arg6 k =
    returns 0 (record k { sched = sleep_from k.sched (milliseconds / 10) })

unfoldable pub sys_yield : SyscallHandler
sys_yield arg1 arg2 arg3 arg4 arg5 arg6 k = returns 0 (record k { sched = sched_yield k.sched })

unfoldable pub sys_malloc : SyscallHandler
sys_malloc size arg2 arg3 arg4 arg5 arg6 k =
    returns (kmalloc k.heap size).0 (record k { heap = (kmalloc k.heap size).1 })

unfoldable pub sys_free : SyscallHandler
sys_free ptr arg2 arg3 arg4 arg5 arg6 k = returns 0 (record k { heap = kfree k.heap ptr })

-- `none` is NULL: a call that is not implemented.
abbrev pub syscall_table : List (Option SyscallHandler)
syscall_table =
    some sys_exit
    ∷ some sys_write
    ∷ some sys_read
    ∷ none
    ∷ none
    ∷ none
    ∷ none
    ∷ some sys_getpid
    ∷ some sys_sleep
    ∷ some sys_yield
    ∷ some sys_malloc
    ∷ some sys_free
    ∷ []

-- Entry `i` of the table.
abbrev pub handler_at : List (Option SyscallHandler) → ℕ → Option SyscallHandler
handler_at [] i = none
handler_at (h ∷ hs) zero = h
handler_at (h ∷ hs) (suc i) = handler_at hs i

-- `syscall_counts[syscall_num]++; total_syscalls++;`
abbrev pub count_call : ℕ → Kernel → Kernel
count_call syscall_num k = record k {
  syscall_counts = update k.syscall_counts syscall_num (u64 (k.syscall_counts syscall_num + 1));
  total_syscalls = u64 (k.total_syscalls + 1);
}

unfoldable pub syscall_dispatch : ℕ → SyscallHandler
syscall_dispatch syscall_num arg1 arg2 arg3 arg4 arg5 arg6 k =
    if leb max_syscalls syscall_num
    then returns minus_one k
    else elim (handler_at syscall_table syscall_num) [
      | none ↦ returns minus_one k
      | some handler ↦ handler arg1 arg2 arg3 arg4 arg5 arg6 (count_call syscall_num k)
    ]
