-- ===== src/Syscall/Tests.antt =====
-- System calls on a kernel without threads.
use myria.Base.{none, true, [], ◌∷◌}
use myria.Sched.{Thread, Sched, thread_state_zombie, sched_init}
use myria.Sched.Health.{Healthy}
use myria.Sched.Setup.{sched_init-Healthy}
use myria.Syscall.{Kernel, syscall_init, syscall_dispatch}
use myria.Syscall.Accounts.{after, Dispatched, syscall_dispatch-Dispatched}
use myria.Syscall.Health.{syscall_dispatch-Healthy}
use myria.Syscall.Session.{Served, booted, calls, Counts, Served-Counts}

abbrev no_thread : Thread
no_thread = record {
  tid = 0;
  state = thread_state_zombie;
  priority = 0;
  name = λ _. 0;
  entry_point = 0;
  arg = 0;
  stack_base = 0;
  stack_top = 0;
  context = record {
    rax = 0;
    rbx = 0;
    rcx = 0;
    rdx = 0;
    rsi = 0;
    rdi = 0;
    rbp = 0;
    rsp = 0;
    r8 = 0;
    r9 = 0;
    r10 = 0;
    r11 = 0;
    r12 = 0;
    r13 = 0;
    r14 = 0;
    r15 = 0;
    rip = 0;
    rflags = 0;
  };
  time_slice = 0;
  total_runtime = 0;
}

abbrev idle_sched : Sched
idle_sched = sched_init (record {
  thread_table = λ _. no_thread;
  current_thread = none;
  next_tid = 0;
  active_thread_count = 0;
  scheduler_ticks = 0;
  scheduler_enabled = true;
})

abbrev boot : Kernel
boot = record {
  sched = idle_sched;
  heap = record { simple_heap_ptr = 0 };
  syscall_counts = λ _. 5;
  total_syscalls = 7;
}

abbrev one : Kernel
one = after (syscall_dispatch 7 0 0 0 0 0 0 (syscall_init boot))

abbrev two : Kernel
two = after (syscall_dispatch 20 0 0 0 0 0 0 one)

abbrev three : Kernel
three = after (syscall_dispatch 10 64 0 0 0 0 0 two)

three_calls : Served boot (10 ∷ 20 ∷ 7 ∷ []) three
three_calls = calls 10 64 0 0 0 0 0 (calls 20 0 0 0 0 0 0 (calls 7 0 0 0 0 0 0 booted))

Served-Counts_example : Counts (10 ∷ 20 ∷ 7 ∷ []) three
Served-Counts_example = Served-Counts three_calls

syscall_dispatch-Dispatched_example : Dispatched 10 boot (syscall_dispatch 10 64 0 0 0 0 0 boot)
syscall_dispatch-Dispatched_example = syscall_dispatch-Dispatched 10 64 0 0 0 0 0 boot

syscall_dispatch-Healthy_example : Healthy (after (syscall_dispatch 8 50 0 0 0 0 0 boot)).sched
syscall_dispatch-Healthy_example =
    syscall_dispatch-Healthy 8 50 0 0 0 0 0 boot (sched_init-Healthy _)
