-- ===== src/Sched/Search.antt =====
-- The searches for a free slot of a thread table, and the outcomes of `thread_create`.
use myria.Base.{
  ℕ, zero, suc, ◌+◌, ◌≤◌, ◌<◌, ◌≡◌, ◌≢◌, ◌⊎◌, inl, inr, refl, arith, ap, ◌∙◌, Option, none, some,
  ◌==◌, ne→==_false,
}
use native.Mathlib.Decide.{ℕ_discrete}
use myria.Heap.{Heap, kmalloc}
use myria.Sched.{Thread, Sched, max_threads, thread_stack_size}
use myria.Sched.Create.{free_slot_from, filled, with_stack, thread_create}

-- No slot, or the lowest free one, of the `left` slots from `i` on; `table` has 0 for a free one.
pub data FreeSlot (table : ℕ → ℕ) (i left : ℕ) : Option ℕ → Type 0 where
  full : ((j : ℕ) → i ≤ j → j < i + left → table j ≢ 0) → FreeSlot table i left none
  free :
      (slot : ℕ)
      → i ≤ slot
      → slot < i + left
      → table slot ≡ 0
      → ((j : ℕ) → i ≤ j → j < slot → table j ≢ 0)
      → FreeSlot table i left (some slot)

pub taken :
    {table : ℕ → ℕ} {i left : ℕ} {o : Option ℕ}
    → table i ≢ 0
    → FreeSlot table (i + 1) left o
    → FreeSlot table i (suc left) o
taken {table} {i} used (full all) = full λ j a b. elim (ℕ_discrete j i) [
  | yes here ↦ rw here used
  | no later ↦ all j (omega arith) (omega arith)
]
taken {table} {i} used (free slot a b e before) =
    free slot (omega arith) (omega arith) e λ j p q. elim (ℕ_discrete j i) [
      | yes here ↦ rw here used
      | no later ↦ before j (omega arith) q
    ]

free_slot_from-FreeSlot :
    (table : ℕ → Thread) (left i : ℕ)
    → FreeSlot (λ j. (table j).tid) i left (free_slot_from table i left)
unfolding free_slot_from
free_slot_from-FreeSlot table zero i = full λ j a b. absurd (omega arith)
free_slot_from-FreeSlot table (suc left) i = elim (ℕ_discrete (table i).tid 0) [
  | yes here ↦
      rw (ap (λ n. n == 0) here)
        (free i (omega arith) (omega arith) here (λ j a b. absurd (omega arith)))
  | no used ↦
      rw (ne→==_false (table i).tid 0 used)
        (taken used (free_slot_from-FreeSlot table left (i + 1)))
]

-- What `thread_create` does: nothing but perhaps to initialise the heap; or fill the lowest free
-- slot.
pub data Fills (wrapper : ℕ) (s : Sched) (heap : Heap) (entry_point arg : ℕ) (name : Option (ℕ → ℕ))
    : ℕ × Sched × Heap → Type 0 where
  turned_down :
      (heap' : Heap)
      → (entry_point ≡ 0)
        ⊎ ((i : ℕ) → i < max_threads → (s.thread_table i).tid ≢ 0)
        ⊎ ((kmalloc heap thread_stack_size).0 ≡ 0)
      → Fills wrapper s heap entry_point arg name (0, s, heap')
  fills :
      (slot stack_base : ℕ) (heap' : Heap)
      → entry_point ≢ 0
      → slot < max_threads
      → (s.thread_table slot).tid ≡ 0
      → ((j : ℕ) → j < slot → (s.thread_table j).tid ≢ 0)
      → stack_base ≢ 0
      → kmalloc heap thread_stack_size ≡ (stack_base, heap')
      → Fills wrapper s heap entry_point arg name
          (s.next_tid, filled wrapper s entry_point arg name slot stack_base, heap')

pub thread_create-Fills :
    (wrapper : ℕ) (s : Sched) (heap : Heap) (entry_point arg : ℕ) (name : Option (ℕ → ℕ))
    → Fills wrapper s heap entry_point arg name (thread_create wrapper s heap entry_point arg name)
unfolding thread_create
thread_create-Fills wrapper s heap entry_point arg name = elim (ℕ_discrete entry_point 0) [
  | yes nothing ↦ rw (ap (λ n. n == 0) nothing) (turned_down heap (inl nothing))
  | no given ↦ rw (ne→==_false entry_point 0 given) (
      slots (free_slot_from s.thread_table 0 max_threads) given
        (free_slot_from-FreeSlot s.thread_table max_threads 0))
]
  where
    stacks :
        (slot : ℕ)
        → entry_point ≢ 0
        → slot < max_threads
        → (s.thread_table slot).tid ≡ 0
        → ((j : ℕ) → j < slot → (s.thread_table j).tid ≢ 0)
        → (base : ℕ) (heap' : Heap) → kmalloc heap thread_stack_size ≡ (base, heap')
        → Fills wrapper s heap entry_point arg name
            (with_stack wrapper s entry_point arg name slot (base, heap'))
    stacks slot given lt e before base heap' m = elim (ℕ_discrete base 0) [
      | yes null ↦
          rw (ap (λ n. n == 0) null)
            (turned_down heap' (inr (inr (ap (λ (r : ℕ × Heap). r.0) m ∙ null))))
      | no got ↦ rw (ne→==_false base 0 got) (fills slot base heap' given lt e before got m)
    ]

    slots :
        (o : Option ℕ)
        → entry_point ≢ 0
        → FreeSlot (λ j. (s.thread_table j).tid) 0 max_threads o
        → Fills wrapper s heap entry_point arg name (elim o as (λ _. ℕ × Sched × Heap) [
          | none ↦ (0, s, heap)
          | some slot ↦
              with_stack wrapper s entry_point arg name slot (kmalloc heap thread_stack_size)
        ])
    slots _ given (full all) =
        turned_down heap (inr (inl λ i lt. all i (omega arith) (omega arith)))
    slots _ given (free slot a b e before) =
        stacks slot given (omega arith) e (λ j lt. before j (omega arith) lt)
          (kmalloc heap thread_stack_size).0 (kmalloc heap thread_stack_size).1 refl
