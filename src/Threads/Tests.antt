-- ===== src/Threads/Tests.antt =====
-- A thread that runs at 16 and two that wait, at 32 and 48.
use myria.Base.{ℕ, ◌≡◌, refl, arith, none, some, [], ◌∷◌, ◌++◌, ◌==◌, if◌then◌else◌}
use myria.Heap.{Heap, kmalloc}
use myria.Threads.{
  Thread, ThreadState, ready, running, Store, Scheduler, remove_from_ready_queue, sched_yield,
  sched_tick, thread_size, thread_create,
}
use myria.Threads.Queues.{IsQueue, remove_from_ready_queue-IsQueue}
use myria.Threads.Turns.{IsTurn, yields, yields-IsTurn}
use myria.Threads.Ticks.{TickResult, sched_tick-TickResult}
use myria.Threads.Spawn.{CreateResult, thread_create-CreateResult}

abbrev thread_at : ℕ → ThreadState → ℕ → ℕ → Thread
thread_at tid state next prev = record {
  tid = tid;
  pid = 0;
  state = state;
  priority = 2;
  time_slice = 1;
  total_runtime = 0;
  context = record { rsi = 0; rdi = 0; rsp = 0; rip = 0; rflags = 0x202; cs = 8; ss = 16 };
  stack_base = 0;
  stack_size = 8192;
  kernel_stack = 0;
  next = next;
  prev = prev;
  last_scheduled = 0;
  name = λ _. 0;
}

abbrev two_wait : Scheduler
two_wait = record {
  store = λ a.
      if a == 16
      then thread_at 1 running 0 0
      else if a == 32
      then thread_at 2 ready 48 0
      else thread_at 3 ready 0 32;
  current_thread = 16;
  idle_thread = 0;
  ready_queue_head = 32;
  ready_queue_tail = 48;
  next_tid = 4;
  scheduler_ticks = 0;
  thread_table = λ _. 0;
  thread_count = 3;
}

two_wait-IsQueue : IsQueue two_wait (32 ∷ 48 ∷ [])
two_wait-IsQueue = record {
  linked = (refl, (λ e. omega arith), refl, (refl, (λ e. omega arith), refl, (refl, refl)));
  distinct = (((λ e. omega arith), tt), (tt, tt));
}

two_wait-IsTurn : IsTurn two_wait 16 (32 ∷ 48 ∷ [])
unfolding myria.Threads.is_running
two_wait-IsTurn = record {
  queue = two_wait-IsQueue;
  current = refl;
  no_idle = refl;
  not_null = λ e. omega arith;
  apart = ((λ e. omega arith), ((λ e. omega arith), tt));
  runs = refl;
}

remove_from_ready_queue-IsQueue_example : IsQueue (remove_from_ready_queue 48 two_wait) (32 ∷ [])
remove_from_ready_queue-IsQueue_example =
    remove_from_ready_queue-IsQueue two_wait (32 ∷ []) [] 48 two_wait-IsQueue

yields-IsTurn_example :
    (s' : Scheduler) × (yields 2 two_wait ≡ some s') × IsTurn s' 48 ([] ++ (16 ∷ 32 ∷ []))
yields-IsTurn_example = yields-IsTurn (32 ∷ []) [] two_wait 16 48 two_wait-IsTurn

sched_tick-TickResult_example : TickResult two_wait 16 (32 ∷ 48 ∷ []) (sched_tick two_wait)
sched_tick-TickResult_example = sched_tick-TickResult two_wait 16 (32 ∷ 48 ∷ []) two_wait-IsTurn

abbrev fresh_heap : Heap
fresh_heap = record { simple_heap_ptr = 0 }

first_block : (kmalloc fresh_heap thread_size).0 ≡ 0xffff_ffff_8100_0000
unfolding kmalloc myria.Heap.align_up8
first_block = refl

thread_create-CreateResult_example :
    CreateResult 4096 8192 7 none two_wait fresh_heap
      (32 ∷ 48 ∷ [])
      (thread_create 4096 8192 7 none two_wait fresh_heap)
thread_create-CreateResult_example =
    thread_create-CreateResult 4096 8192 7 none two_wait fresh_heap (32 ∷ 48 ∷ []) two_wait-IsQueue
      ((λ e. omega (arith, first_block, e)), ((λ e. omega (arith, first_block, e)), tt))
