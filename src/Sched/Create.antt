-- ===== src/Sched/Create.antt =====
-- `thread_create` of thread_minimal.c.
use myria.Base.{
  ℕ, zero, suc, ◌+◌, ◌-◌, ◌^◌, bit_and, Option, none, some, ◌==◌, if◌then◌else◌, u32, u64, update,
}
use myria.Heap.{Heap, kmalloc}
use myria.Sched.State.{
  CpuContext, Thread, Sched, thread_state_ready, clear_name_from, max_threads, thread_stack_size,
  default_time_slice,
}

-- The lowest slot that is free; `none` is the -1 of the source.
unfoldable pub free_slot_from : (ℕ → Thread) → ℕ → ℕ → Option ℕ
free_slot_from table i zero = none
free_slot_from table i (suc left) =
    let rest = free_slot_from table (i + 1) left in if (table i).tid == 0 then some i else rest

-- `for (i = 0; name[i] && i < 31; i++)`, from index `i` with `left` rounds at most.
unfoldable pub copy_name_from : (ℕ → ℕ) → (ℕ → ℕ) → ℕ → ℕ → ℕ → ℕ
copy_name_from to name i zero = to
copy_name_from to name i (suc left) =
    let rest = copy_name_from (update to i (name i)) name (i + 1) left in
    if name i == 0 then to else rest

abbrev pub thread_name : (ℕ → ℕ) → Option (ℕ → ℕ) → ℕ → ℕ
thread_name old name = elim name [
  | none ↦ clear_name_from old 0 32
  | some str ↦ copy_name_from (clear_name_from old 0 32) str 0 31
]

-- `((u64)stack_top - 16) & ~0xF`
unfoldable pub aligned_stack : ℕ → ℕ
aligned_stack stack_top = bit_and (u64 (stack_top + 2 ^ 64 - 16)) (2 ^ 64 - 1 - 0xF)

abbrev pub first_context : ℕ → ℕ → CpuContext
first_context stack thread_wrapper = record {
  rsp = stack;
  rbp = stack;
  rip = thread_wrapper;
  rflags = 0x202;
  rax = 0;
  rbx = 0;
  rcx = 0;
  rdx = 0;
  rsi = 0;
  rdi = 0;
  r8 = 0;
  r9 = 0;
  r10 = 0;
  r11 = 0;
  r12 = 0;
  r13 = 0;
  r14 = 0;
  r15 = 0;
}

-- `wrapper` is the address of `thread_wrapper`.
module _ (wrapper : ℕ) where
  -- The thread that the slot holds afterwards.
  abbrev pub new_thread : Thread → ℕ → ℕ → ℕ → Option (ℕ → ℕ) → ℕ → Thread
  new_thread old tid entry_point arg name stack_base =
      let stack_top = u64 (stack_base + thread_stack_size) in
      record {
        tid = tid;
        state = thread_state_ready;
        priority = 1;
        name = thread_name old.name name;
        entry_point = entry_point;
        arg = arg;
        stack_base = stack_base;
        stack_top = stack_top;
        context = first_context (aligned_stack stack_top) wrapper;
        time_slice = default_time_slice;
        total_runtime = 0;
      }

  -- The scheduler once the thread is in `slot`.
  abbrev pub filled : Sched → ℕ → ℕ → Option (ℕ → ℕ) → ℕ → ℕ → Sched
  filled s entry_point arg name slot stack_base = record s {
    thread_table =
        update s.thread_table slot
          (new_thread (s.thread_table slot) s.next_tid entry_point arg name stack_base);
    next_tid = u32 (s.next_tid + 1);
    active_thread_count = u32 (s.active_thread_count + 1);
  }

  -- From the allocation of the stack, whose result is `r`, on.
  abbrev pub with_stack : Sched → ℕ → ℕ → Option (ℕ → ℕ) → ℕ → ℕ × Heap → ℕ × Sched × Heap
  with_stack s entry_point arg name slot r =
      if r.0 == 0 then (0, s, r.1) else (s.next_tid, filled s entry_point arg name slot r.0, r.1)

  -- The result is the thread's id, 0 for a failure.
  unfoldable pub thread_create : Sched → Heap → ℕ → ℕ → Option (ℕ → ℕ) → ℕ × Sched × Heap
  thread_create s heap entry_point arg name =
      if entry_point == 0
      then (0, s, heap)
      else elim (free_slot_from s.thread_table 0 max_threads) [
        | none ↦ (0, s, heap)
        | some slot ↦ with_stack s entry_point arg name slot (kmalloc heap thread_stack_size)
      ]
