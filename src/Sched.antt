-- ===== src/Sched.antt =====
-- os/kernel/sched/thread_minimal.c: the scheduler that the build links. Its static variables are
-- one record; `current_thread` is the index of a slot of the thread table, `none` for NULL. Other
-- pointers are addresses, 0 for NULL. A switch only changes this record, as in the source.
pub mod State
pub mod Create
pub mod Next
pub mod Switch
pub mod Sole
pub mod Health
pub mod Cleanup
pub mod Fair
pub mod Ticks
pub mod Names
pub mod Search
pub mod Slots
pub mod Setup
pub mod Session
pub mod Finish
mod Tests
pub use State.*
use myria.Base.{
  ℕ, zero, suc, ◌+◌, ◌-◌, ◌*◌, ◌%◌, ◌^◌, Bool, true, false, ◌&&◌, ◌||◌, not, Option, none, some,
  ◌==◌, ltb, if◌then◌else◌, u32, u64, update,
}
use myria.Heap.{Heap, kfree}

-- `&thread_table[i] == current_thread`: the slot after the current one.
unfoldable pub start_idx_from : ℕ → ℕ → ℕ → ℕ
start_idx_from current i zero = 0
start_idx_from current i (suc left) =
    let rest = start_idx_from current (i + 1) left in
    if i == current then (i + 1) % max_threads else rest

-- `thread_table[idx].tid != 0 && thread_table[idx].state == THREAD_STATE_READY`
abbrev pub can_run : Thread → Bool
can_run t = not (t.tid == 0) && is_ready t.state

unfoldable pub search_from : (ℕ → Thread) → ℕ → ℕ → ℕ → Option ℕ
search_from table start_idx i zero = none
search_from table start_idx i (suc left) =
    let rest = search_from table start_idx (i + 1) left in
    if can_run (table ((start_idx + i) % max_threads))
    then some ((start_idx + i) % max_threads)
    else rest

unfoldable pub start_idx : Sched → ℕ
unfolding start_idx_from
start_idx s = elim s.current_thread [ none ↦ 0 | some c ↦ start_idx_from c 0 max_threads ]

unfoldable pub find_next_thread : Sched → Option ℕ
unfolding search_from start_idx
find_next_thread s =
    if s.active_thread_count == 0
    then none
    else search_from s.thread_table (start_idx s) 0 max_threads

-- `thread_table[i].state = state`
abbrev pub set_state : (ℕ → Thread) → ℕ → ThreadState → ℕ → Thread
set_state table i state = update table i (record (table i) { state = state })

-- The switch from slot `old` to slot `next`.
unfoldable pub switch : Sched → ℕ → ℕ → Sched
switch s old next = record s {
  current_thread = some next;
  thread_table =
      set_state (set_state s.thread_table next thread_state_running) old thread_state_ready;
}

unfoldable pub sched_yield : Sched → Sched
sched_yield s = if not s.scheduler_enabled then s else elim s.current_thread [
  | none ↦ s
  | some old ↦ elim (find_next_thread s) [
    | none ↦ s
    | some next ↦ if next == old then s else switch s old next
  ]
]

abbrev pub is_zombie_slot : Thread → Bool
is_zombie_slot t = is_zombie t.state && not (t.tid == 0)

abbrev pub cleared : Thread → Thread
cleared t = record t {
  tid = 0;
  state = thread_state_zombie;
  entry_point = 0;
  stack_base = 0;
  stack_top = 0;
}

unfoldable pub cleanup_from : (ℕ → Thread) → Heap → ℕ → ℕ → (ℕ → Thread) × Heap
cleanup_from table heap i zero = (table, heap)
cleanup_from table heap i (suc left) =
    let t = table i in
    let heap₁ = if t.stack_base == 0 then heap else kfree heap t.stack_base in
    if is_zombie_slot t
    then cleanup_from (update table i (cleared t)) heap₁ (i + 1) left
    else cleanup_from table heap (i + 1) left

unfoldable pub cleanup_zombie_threads : Sched → Heap → Sched × Heap
unfolding cleanup_from
cleanup_zombie_threads s heap =
    let (table, heap₁) = cleanup_from s.thread_table heap 0 max_threads in
    (record s { thread_table = table }, heap₁)

-- The current thread's part of a tick; the time slice counts down in an unsigned 64-bit word.
unfoldable pub tick_thread : Sched → ℕ → Sched
tick_thread s c =
    let t = s.thread_table c in
    let slice = u64 (t.time_slice + 2 ^ 64 - 1) in
    let t₁ = record t { total_runtime = u64 (t.total_runtime + 1); time_slice = slice } in
    if slice == 0
    then sched_yield (record s {
      thread_table = update s.thread_table c (record t₁ { time_slice = default_time_slice });
    })
    else record s { thread_table = update s.thread_table c t₁ }

unfoldable pub sched_tick : Sched → Heap → Sched × Heap
sched_tick s heap =
    if not s.scheduler_enabled
    then (s, heap)
    else let s₁ = record s { scheduler_ticks = u32 (s.scheduler_ticks + 1) } in
      let s₂ : Sched = elim s₁.current_thread [ none ↦ s₁ | some c ↦ tick_thread s₁ c ] in
      if s₂.scheduler_ticks % 100 == 0 then cleanup_zombie_threads s₂ heap else (s₂, heap)

unfoldable pub sched_start : Sched → Sched
sched_start s =
    let s₁ = record s { scheduler_enabled = true } in
    elim (find_next_thread s₁) [
      | none ↦ s₁
      | some first ↦ record s₁ {
        current_thread = some first;
        thread_table = set_state s₁.thread_table first thread_state_running;
      }
    ]

-- What a thread's function does to the scheduler when it is called: `entry_point`, then `arg`.
module _ (call : ℕ → ℕ → Sched → Sched) where
  -- The body of the loop of `sched_run_threads`.
  abbrev pub run_slot : Sched → ℕ → Sched
  run_slot s i =
      let s₁ = record s {
        current_thread = some i;
        thread_table = set_state s.thread_table i thread_state_running;
      } in
      let s₂ = call (s.thread_table i).entry_point (s.thread_table i).arg s₁ in
      record s₂ {
        thread_table = set_state s₂.thread_table i thread_state_zombie;
        current_thread = none;
      }

  unfoldable pub run_threads_from : Sched → ℕ → ℕ → Sched
  run_threads_from s i zero = s
  run_threads_from s i (suc left) =
      if can_run (s.thread_table i)
      then run_threads_from (run_slot s i) (i + 1) left
      else run_threads_from s (i + 1) left

  unfoldable pub sched_run_threads : Sched → Sched
  unfolding run_threads_from
  sched_run_threads s = run_threads_from s 0 max_threads

  -- What follows the thread's function, on the thread that is current then.
  abbrev pub finish : Sched → ℕ → Sched
  finish s c = sched_yield (record s {
    thread_table = set_state s.thread_table c thread_state_zombie;
    active_thread_count = u32 (s.active_thread_count + 2 ^ 32 - 1);
  })

  -- Up to the idle loop at its end. `none`: the function left no current thread, and the NULL
  -- pointer is used.
  unfoldable pub thread_wrapper : Sched → Option Sched
  thread_wrapper s = elim s.current_thread [
    | none ↦ some s
    | some c ↦
        let after = call (s.thread_table c).entry_point (s.thread_table c).arg s in
        if (s.thread_table c).entry_point == 0
        then some s
        else elim after.current_thread [ none ↦ none | some d ↦ some (finish after d) ]
  ]
