-- ===== src/Sched/Slots.antt =====
-- `thread_create`: which slot a new thread gets, and what it holds.
use myria.Base.{
  ℕ, ◌+◌, ◌-◌, ◌*◌, ◌/◌, ◌%◌, ◌^◌, ◌<◌, ◌≡◌, ◌≢◌, ◌⊎◌, refl, sym, arith, subst, bit_and, Option,
  u64, [], ◌∷◌, update_self, update_ne,
}
use myria.Base.Bits.{bit_and_fields, bit_and_mask, bit_and-zero}
use myria.Pmm.Stack.{All}
use myria.Heap.{Heap, kmalloc}
use myria.Sched.{CpuContext, Thread, Sched, max_threads, thread_stack_size, thread_state_ready}
use myria.Sched.Create.{aligned_stack, new_thread, filled, thread_create}
use myria.Sched.Names.{IsName, thread_name-IsName}
use myria.Sched.Search.{Fills, turned_down, fills, thread_create-Fills}

mask16 : (x : ℕ) → x < 2 ^ 64 → bit_and x (2 ^ 64 - 1 - 0xF) ≡ x / 2 ^ 4 * 2 ^ 4
mask16 x fits = ground (
  arith,
  bit_and_fields 4 (x / 2 ^ 4) (x % 2 ^ 4) (2 ^ 60 - 1) 0,
  bit_and_mask 60 (x / 2 ^ 4),
  bit_and-zero (x % 2 ^ 4),
)

-- The registers of a thread that has not run: the stack pointers at the highest multiple of 16 that
-- leaves 16 bytes of the stack above it, interrupts enabled, and 0 in all others.
pub record IsFirstContext (wrapper stack_base : ℕ) (c : CpuContext) : Type 0 where
  pub rip : c.rip ≡ wrapper
  pub rflags : c.rflags ≡ 0x202
  pub rsp : stack_base + 8192 < 2 ^ 64 → c.rsp ≡ (stack_base + 8192 - 16) / 16 * 16
  pub rbp : c.rbp ≡ c.rsp
  pub others :
      All
        (λ r. r ≡ 0)
        (c.rax ∷ c.rbx ∷ c.rcx ∷ c.rdx ∷ c.rsi ∷ c.rdi ∷ c.r8 ∷ c.r9 ∷ c.r10 ∷ c.r11 ∷ c.r12 ∷ c.r13
          ∷ c.r14 ∷ c.r15 ∷ [])

-- A ready thread that has not run.
pub record IsNewThread (wrapper tid entry_point arg stack_base : ℕ) (name : Option (ℕ → ℕ))
    (t : Thread) : Type 0 where
  pub number : t.tid ≡ tid
  pub state : t.state ≡ thread_state_ready
  pub priority : t.priority ≡ 1
  pub entry : t.entry_point ≡ entry_point
  pub argument : t.arg ≡ arg
  pub base : t.stack_base ≡ stack_base
  pub top : t.stack_top ≡ (stack_base + 8192) % 2 ^ 64
  pub slice : t.time_slice ≡ 10
  pub runtime : t.total_runtime ≡ 0
  pub named : IsName name t.name
  pub context : IsFirstContext wrapper stack_base t.context

new_thread-IsNewThread :
    (wrapper : ℕ) (old : Thread) (tid entry_point arg : ℕ) (name : Option (ℕ → ℕ)) (stack_base : ℕ)
    → IsNewThread wrapper tid entry_point arg stack_base name
        (new_thread wrapper old tid entry_point arg name stack_base)
unfolding aligned_stack
new_thread-IsNewThread wrapper old tid entry_point arg name stack_base = record {
  number = refl;
  state = refl;
  priority = refl;
  entry = refl;
  argument = refl;
  base = refl;
  top = refl;
  slice = refl;
  runtime = refl;
  named = thread_name-IsName old.name name;
  context = record {
    rip = refl;
    rflags = refl;
    rsp = λ fits.
        let x : ℕ = stack_base + 8192 - 16 in
        let e : u64 (u64 (stack_base + 8192) + 2 ^ 64 - 16) ≡ x = omega arith in
        rw e (mask16 x (omega arith));
    rbp = refl;
    others = (
      refl,
      (
        refl,
        (
          refl,
          (
            refl,
            (refl, (refl, (refl, (refl, (refl, (refl, (refl, (refl, (refl, (refl, tt)))))))))),
          ),
        ),
      ),
    );
  };
}

-- The thread is in slot `slot`, and the scheduler has taken note of it; nothing else has changed.
pub record Added (wrapper : ℕ) (s : Sched) (entry_point arg : ℕ) (name : Option (ℕ → ℕ))
    (slot stack_base : ℕ) (s' : Sched) : Type 0 where
  pub thread : IsNewThread wrapper s.next_tid entry_point arg stack_base name (s'.thread_table slot)
  pub others : (j : ℕ) → j ≢ slot → s'.thread_table j ≡ s.thread_table j
  pub next_id : s'.next_tid ≡ (s.next_tid + 1) % 2 ^ 32
  pub active : s'.active_thread_count ≡ (s.active_thread_count + 1) % 2 ^ 32
  pub current : s'.current_thread ≡ s.current_thread
  pub ticks : s'.scheduler_ticks ≡ s.scheduler_ticks
  pub enabled : s'.scheduler_enabled ≡ s.scheduler_enabled

filled-Added :
    (wrapper : ℕ) (s : Sched) (entry_point arg : ℕ) (name : Option (ℕ → ℕ)) (slot stack_base : ℕ)
    → Added wrapper s entry_point arg name slot stack_base
        (filled wrapper s entry_point arg name slot stack_base)
filled-Added wrapper s entry_point arg name slot stack_base =
    let t : Thread =
      new_thread wrapper (s.thread_table slot) s.next_tid entry_point arg name stack_base in
    record {
      thread =
          subst (IsNewThread wrapper s.next_tid entry_point arg stack_base name)
            (sym (update_self s.thread_table slot t))
            (new_thread-IsNewThread wrapper (s.thread_table slot) s.next_tid entry_point arg name
              stack_base);
      others = λ j ne. update_ne s.thread_table slot j t (λ e. ne (sym e));
      next_id = refl;
      active = refl;
      current = refl;
      ticks = refl;
      enabled = refl;
    }

-- What `thread_create` does: nothing but perhaps to initialise the heap; or fill the lowest free
-- slot.
pub data Created (wrapper : ℕ) (s : Sched) (heap : Heap) (entry_point arg : ℕ)
    (name : Option (ℕ → ℕ)) : ℕ × Sched × Heap → Type 0 where
  refused :
      (heap' : Heap)
      → (entry_point ≡ 0)
        ⊎ ((i : ℕ) → i < max_threads → (s.thread_table i).tid ≢ 0)
        ⊎ ((kmalloc heap thread_stack_size).0 ≡ 0)
      → Created wrapper s heap entry_point arg name (0, s, heap')
  created :
      (slot stack_base : ℕ) (s' : Sched) (heap' : Heap)
      → entry_point ≢ 0
      → slot < max_threads
      → (s.thread_table slot).tid ≡ 0
      → ((j : ℕ) → j < slot → (s.thread_table j).tid ≢ 0)
      → stack_base ≢ 0
      → kmalloc heap thread_stack_size ≡ (stack_base, heap')
      → Added wrapper s entry_point arg name slot stack_base s'
      → Created wrapper s heap entry_point arg name (s.next_tid, s', heap')

Fills-Created :
    {wrapper : ℕ} {s : Sched} {heap : Heap} {entry_point arg : ℕ} {name : Option (ℕ → ℕ)}
    {r : ℕ × Sched × Heap}
    → Fills wrapper s heap entry_point arg name r
    → Created wrapper s heap entry_point arg name r
Fills-Created (turned_down heap' why) = refused heap' why
Fills-Created {wrapper} {s} {entry_point = entry_point} {arg} {name}
      (fills slot base heap' given lt unused before got m) =
    created slot base _ heap' given lt unused before got m
      (filled-Added wrapper s entry_point arg name slot base)

-- A call without a function, with all slots in use or with no memory for a stack returns 0 and
-- leaves the scheduler as it was. Every other call takes the lowest free slot and the next id, and
-- fills the slot with a ready thread on the new stack that has the function, the argument, the name
-- cut to 31 characters, a full time slice and the registers of a first run; the counters move on by
-- one, and the other slots keep their threads.
pub thread_create-Created :
    (wrapper : ℕ) (s : Sched) (heap : Heap) (entry_point arg : ℕ) (name : Option (ℕ → ℕ))
    → Created wrapper s heap entry_point arg name
        (thread_create wrapper s heap entry_point arg name)
thread_create-Created wrapper s heap entry_point arg name =
    Fills-Created (thread_create-Fills wrapper s heap entry_point arg name)
