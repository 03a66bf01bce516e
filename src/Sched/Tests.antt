-- ===== src/Sched/Tests.antt =====
-- The scheduler with two threads.
use myria.Base.{ℕ, ◌≤◌, ◌≡◌, refl, arith, true, none, some}
use myria.Heap.{Heap, kmalloc, align_up8}
use myria.Sched.{
  Thread, Sched, thread_state_ready, thread_state_running, find_next_thread, search_from, start_idx,
  sched_start, thread_wrapper,
}
use myria.Sched.State.{sched_init, clear_table_from}
use myria.Sched.Create.{thread_create, free_slot_from}
use myria.Sched.Slots.{Created, thread_create-Created}
use myria.Sched.Next.{NextReady, find_next_thread-NextReady}
use myria.Sched.Health.{Healthy}
use myria.Sched.Fair.{yields, sched_yield_fair}
use myria.Sched.Session.{Reach, booted, creates, starts, Reach-Healthy}
use myria.Sched.Finish.{thread_wrapper_revives}

abbrev no_thread : Thread
no_thread = record {
  tid = 99;
  state = thread_state_running;
  priority = 0;
  name = λ _. 7;
  entry_point = 0;
  arg = 0;
  stack_base = 0;
  stack_top = 0;
  context = record {
    rax = 0;
    rbx = 0;
    rcx = 0;
    rdx = 0;
    rsi = 0;
    rdi = 0;
    rbp = 0;
    rsp = 0;
    r8 = 0;
    r9 = 0;
    r10 = 0;
    r11 = 0;
    r12 = 0;
    r13 = 0;
    r14 = 0;
    r15 = 0;
    rip = 0;
    rflags = 0;
  };
  time_slice = 0;
  total_runtime = 0;
}

abbrev boot : Sched
boot = record {
  thread_table = λ _. no_thread;
  current_thread = none;
  next_tid = 0;
  active_thread_count = 0;
  scheduler_ticks = 0;
  scheduler_enabled = true;
}

abbrev heap : Heap
heap = record { simple_heap_ptr = 0 }

abbrev one : ℕ × Sched × Heap
one = thread_create 0x5000 (sched_init boot) heap 0x1111 0 none

abbrev two : ℕ × Sched × Heap
two = thread_create 0x5000 one.1 one.2 0x2222 5 none

abbrev running : Sched
running = sched_start two.1

two_threads : Reach boot heap 0x5000 two.1 two.2
unfolding sched_init thread_create clear_table_from free_slot_from kmalloc align_up8
two_threads = creates 0x2222 5 none (creates 0x1111 0 none booted (omega arith)) (omega arith)

runs : Reach boot heap 0x5000 running two.2
unfolding sched_init thread_create clear_table_from free_slot_from kmalloc align_up8
runs = starts two_threads refl

Reach-Healthy_example : Healthy running
Reach-Healthy_example = Reach-Healthy runs

find_next_thread-NextReady_example : NextReady two.1 (find_next_thread two.1)
unfolding sched_init thread_create clear_table_from free_slot_from kmalloc align_up8
find_next_thread-NextReady_example = find_next_thread-NextReady two.1 tt

thread_create-Created_example : Created 0x5000 one.1 one.2 0x2222 5 none two
thread_create-Created_example = thread_create-Created 0x5000 one.1 one.2 0x2222 5 none

running-Healthy : Healthy running
running-Healthy = Reach-Healthy runs

sched_yield_fair_example : (m : ℕ) × (m ≤ 8) × ((yields m running).current_thread ≡ some 1)
unfolding sched_init thread_create clear_table_from free_slot_from kmalloc align_up8 sched_start
    find_next_thread start_idx search_from
sched_yield_fair_example =
    sched_yield_fair running 0 1 running-Healthy.sole refl (omega arith) refl (omega arith) refl

thread_wrapper_revives_example :
    (t : Sched) × (thread_wrapper (λ _ _ s. s) running ≡ some t)
    × ((t.thread_table 0).state ≡ thread_state_ready)
    × ((t.thread_table 0).tid ≡ (running.thread_table 0).tid)
unfolding sched_init thread_create clear_table_from free_slot_from kmalloc align_up8 sched_start
    find_next_thread start_idx search_from
thread_wrapper_revives_example =
    thread_wrapper_revives (λ _ _ s. s) running running 0 1 refl (omega arith) refl refl
      (omega arith) refl (omega arith) (omega arith) (omega arith) (omega arith) refl
