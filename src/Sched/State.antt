-- ===== src/Sched/State.antt =====
-- The types, the static variables and the initialisation of thread_minimal.c.
use myria.Base.{ℕ, zero, suc, ◌+◌, Bool, true, false, Option, none, update}

-- The constants of thread_minimal.c.
abbrev pub max_threads : ℕ
max_threads = 8

abbrev pub thread_stack_size : ℕ
thread_stack_size = 8192

abbrev pub default_time_slice : ℕ
default_time_slice = 10

pub data ThreadState : Type 0 where
  thread_state_ready : ThreadState
  thread_state_running : ThreadState
  thread_state_blocked : ThreadState
  thread_state_zombie : ThreadState

abbrev pub is_ready : ThreadState → Bool
is_ready thread_state_ready = true
is_ready thread_state_running = false
is_ready thread_state_blocked = false
is_ready thread_state_zombie = false

abbrev pub is_zombie : ThreadState → Bool
is_zombie thread_state_ready = false
is_zombie thread_state_running = false
is_zombie thread_state_blocked = false
is_zombie thread_state_zombie = true

-- The registers of a thread that is not running.
pub record CpuContext : Type 0 where
  pub rax : ℕ
  pub rbx : ℕ
  pub rcx : ℕ
  pub rdx : ℕ
  pub rsi : ℕ
  pub rdi : ℕ
  pub rbp : ℕ
  pub rsp : ℕ
  pub r8 : ℕ
  pub r9 : ℕ
  pub r10 : ℕ
  pub r11 : ℕ
  pub r12 : ℕ
  pub r13 : ℕ
  pub r14 : ℕ
  pub r15 : ℕ
  pub rip : ℕ
  pub rflags : ℕ

-- `name` is the array of 32 characters.
pub record Thread : Type 0 where
  pub tid : ℕ
  pub state : ThreadState
  pub priority : ℕ
  pub name : ℕ → ℕ
  pub entry_point : ℕ
  pub arg : ℕ
  pub stack_base : ℕ
  pub stack_top : ℕ
  pub context : CpuContext
  pub time_slice : ℕ
  pub total_runtime : ℕ

pub record Sched : Type 0 where
  pub thread_table : ℕ → Thread
  pub current_thread : Option ℕ
  pub next_tid : ℕ
  pub active_thread_count : ℕ
  pub scheduler_ticks : ℕ
  pub scheduler_enabled : Bool

-- The loops that clear the 32 characters of a name.
unfoldable pub clear_name_from : (ℕ → ℕ) → ℕ → ℕ → ℕ → ℕ
clear_name_from name j zero = name
clear_name_from name j (suc left) = clear_name_from (update name j 0) (j + 1) left

-- The body of the loop of `sched_init`.
abbrev pub blank : Thread → Thread
blank t = record t {
  tid = 0;
  state = thread_state_zombie;
  priority = 1;
  entry_point = 0;
  arg = 0;
  stack_base = 0;
  stack_top = 0;
  time_slice = 0;
  total_runtime = 0;
  name = clear_name_from t.name 0 32;
}

unfoldable pub clear_table_from : (ℕ → Thread) → ℕ → ℕ → ℕ → Thread
clear_table_from table i zero = table
clear_table_from table i (suc left) =
    clear_table_from (update table i (blank (table i))) (i + 1) left

unfoldable pub sched_init : Sched → Sched
unfolding clear_table_from
sched_init s = record {
  thread_table = clear_table_from s.thread_table 0 max_threads;
  current_thread = none;
  next_tid = 1;
  active_thread_count = 0;
  scheduler_ticks = 0;
  scheduler_enabled = false;
}
