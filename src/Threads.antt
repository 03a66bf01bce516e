-- ===== src/Threads.antt =====
-- os/kernel/sched/thread.c: threads in a doubly linked ready queue. The store gives the control
-- block at each address, and the address 0 is NULL. `none` is a fault: a NULL pointer is used. The
-- switch of registers, the interrupt flag and log lines are left out.
pub mod Segments
pub mod Queues
pub mod Turns
pub mod Ticks
pub mod Table
pub mod Spawn
mod Tests
use myria.Heap.{Heap, kmalloc, kfree}
use myria.Sched.Create.{thread_name}
use myria.Base.{
  ℕ, zero, suc, ◌+◌, ◌-◌, ◌*◌, ◌%◌, ◌^◌, Bool, true, false, not, ◌==◌, ◌&&◌, leb, ltb,
  if◌then◌else◌, Option, none, some, u32, u64, update,
}

pub data ThreadState : Type 0 where
  ready : ThreadState
  running : ThreadState
  blocked : ThreadState
  zombie : ThreadState
  terminated : ThreadState

-- The registers that `thread_create` does not set to 0 are fields.
pub record CpuContext : Type 0 where
  pub rsi : ℕ
  pub rdi : ℕ
  pub rsp : ℕ
  pub rip : ℕ
  pub rflags : ℕ
  pub cs : ℕ
  pub ss : ℕ

pub record Thread : Type 0 where
  pub tid : ℕ
  pub pid : ℕ
  pub state : ThreadState
  pub priority : ℕ
  pub time_slice : ℕ
  pub total_runtime : ℕ
  pub context : CpuContext
  pub stack_base : ℕ
  pub stack_size : ℕ
  pub kernel_stack : ℕ
  pub next : ℕ
  pub prev : ℕ
  pub last_scheduled : ℕ
  pub name : ℕ → ℕ

abbrev pub Store : Type 0
Store = ℕ → Thread

pub record Scheduler : Type 0 where
  pub store : Store
  pub current_thread : ℕ
  pub idle_thread : ℕ
  pub ready_queue_head : ℕ
  pub ready_queue_tail : ℕ
  pub next_tid : ℕ
  pub scheduler_ticks : ℕ
  pub thread_table : ℕ → ℕ
  pub thread_count : ℕ

abbrev pub max_threads : ℕ
max_threads = 8

abbrev pub default_time_slice : ℕ
default_time_slice = 10

unfoldable pub sched_init : Scheduler → Scheduler
sched_init s = record s {
  thread_table = λ i. if ltb i max_threads then 0 else s.thread_table i;
  current_thread = 0;
  idle_thread = 0;
  ready_queue_head = 0;
  ready_queue_tail = 0;
  thread_count = 0;
}

-- `if (before) before->next = after; else ready_queue_head = after;`, with the head.
unfoldable pub link_next : Store → ℕ → ℕ → ℕ → Store × ℕ
link_next store head before after =
    if before == 0
    then (store, after)
    else (update store before (record (store before) { next = after }), head)

-- `if (after) after->prev = before; else ready_queue_tail = before;`, with the tail.
unfoldable pub link_prev : Store → ℕ → ℕ → ℕ → Store × ℕ
link_prev store tail after before =
    if after == 0
    then (store, before)
    else (update store after (record (store after) { prev = before }), tail)

unfoldable pub add_to_ready_queue : ℕ → Scheduler → Scheduler
add_to_ready_queue thread s =
    let store =
      update s.store thread
        (record (s.store thread) { state = ready; next = 0; prev = s.ready_queue_tail }) in
    let r = link_next store s.ready_queue_head s.ready_queue_tail thread in
    record s { store = r.0; ready_queue_head = r.1; ready_queue_tail = thread }

unfoldable pub remove_from_ready_queue : ℕ → Scheduler → Scheduler
remove_from_ready_queue thread s =
    let r = link_next s.store s.ready_queue_head (s.store thread).prev (s.store thread).next in
    let q = link_prev r.0 s.ready_queue_tail (r.0 thread).next (r.0 thread).prev in
    record s {
      store = update q.0 thread (record (q.0 thread) { next = 0; prev = 0 });
      ready_queue_head = r.1;
      ready_queue_tail = q.1;
    }

-- The idle thread, which may be NULL, if no thread is ready.
unfoldable pub get_next_thread : Scheduler → ℕ × Scheduler
get_next_thread s =
    if s.ready_queue_head == 0
    then (s.idle_thread, s)
    else (s.ready_queue_head, remove_from_ready_queue s.ready_queue_head s)

-- `==` on the states that `sched_yield` tests.
unfoldable pub is_running : ThreadState → Bool
is_running ready = false
is_running running = true
is_running blocked = false
is_running zombie = false
is_running terminated = false

-- `new_thread` becomes the current one.
unfoldable pub switch_to : ℕ → Scheduler → Scheduler
switch_to thread s = record s {
  store = update s.store thread (record (s.store thread) {
    state = running;
    time_slice = default_time_slice;
    last_scheduled = s.scheduler_ticks;
  });
  current_thread = thread;
}

unfoldable pub sched_yield : Scheduler → Option Scheduler
sched_yield s =
    let old = s.current_thread in
    let (new, s₁) = get_next_thread s in
    let s₂ =
      if is_running (s₁.store old).state && not (old == s₁.idle_thread)
      then add_to_ready_queue old s₁
      else s₁ in
    if new == old
    then some s₁
    else if old == 0
    then none
    else if new == 0
    then none
    else some (switch_to new s₂)

unfoldable pub sched_tick : Scheduler → Option Scheduler
sched_tick s =
    let ticks = u64 (s.scheduler_ticks + 1) in
    let c = s.store s.current_thread in
    let slice = c.time_slice - 1 in
    let s₁ = record s {
      store =
          update s.store s.current_thread
            (record c { total_runtime = u64 (c.total_runtime + 1); time_slice = slice });
      scheduler_ticks = ticks;
    } in
    let yielded = sched_yield s₁ in
    if s.current_thread == 0
    then some (record s { scheduler_ticks = ticks })
    else if (slice == 0) && not (s.ready_queue_head == 0)
    then yielded
    else some s₁

-- `thread->state = THREAD_STATE_ZOMBIE` and the yield after it.
unfoldable pub thread_wrapper : Scheduler → Option Scheduler
thread_wrapper s =
    let t = s.current_thread in
    let next =
      sched_yield (record s { store = update s.store t (record (s.store t) { state = zombie }) }) in
    if t == 0 then none else next

-- `sizeof(thread_t)`
abbrev pub thread_size : ℕ
thread_size = 272

abbrev pub stack_bytes : ℕ
stack_bytes = 8 * 1024

-- The first free slot from index `i`; the search starts at 1.
unfoldable pub free_entry_from : (ℕ → ℕ) → ℕ → ℕ → Option ℕ
free_entry_from table i zero = none
free_entry_from table i (suc left) =
    let rest = free_entry_from table (i + 1) left in if table i == 0 then some i else rest

unfoldable pub record_thread : ℕ → Scheduler → Scheduler
record_thread thread s = elim (free_entry_from s.thread_table 1 7) [
  | none ↦ s
  | some i ↦ record s {
    thread_table = update s.thread_table i thread;
    thread_count = u32 (s.thread_count + 1);
  }
]

-- The control block that `thread_create` fills in; `wrapper` is the address of `thread_wrapper`.
abbrev pub fresh_thread : ℕ → ℕ → ℕ → ℕ → Option (ℕ → ℕ) → ℕ → (ℕ → ℕ) → Thread
fresh_thread wrapper entry_point arg stack name tid old_name = record {
  tid = tid;
  pid = 0;
  state = ready;
  priority = 2;
  time_slice = default_time_slice;
  total_runtime = 0;
  context = record {
    rsi = arg;
    rdi = entry_point;
    rsp = u64 (stack + stack_bytes + 2 ^ 64 - 8);
    rip = wrapper;
    rflags = 0x202;
    cs = 0x08;
    ss = 0x10;
  };
  stack_base = stack;
  stack_size = stack_bytes;
  kernel_stack = stack;
  next = 0;
  prev = 0;
  last_scheduled = 0;
  name = thread_name old_name name;
}

-- The result is the thread's number, 0 on failure.
unfoldable pub thread_create : ℕ → ℕ → ℕ → Option (ℕ → ℕ) → Scheduler → Heap → ℕ × Scheduler × Heap
thread_create wrapper entry_point arg name s heap =
    let (thread, heap₁) = kmalloc heap thread_size in
    let (stack, heap₂) = kmalloc heap₁ stack_bytes in
    let block = fresh_thread wrapper entry_point arg stack name s.next_tid (s.store thread).name in
    let s₁ = record s { store = update s.store thread block; next_tid = u32 (s.next_tid + 1) } in
    if leb max_threads s.thread_count
    then (0, s, heap)
    else if thread == 0
    then (0, s, heap₁)
    else if stack == 0
    then (0, s, kfree heap₂ thread)
    else (s.next_tid, add_to_ready_queue thread (record_thread thread s₁), heap₂)
