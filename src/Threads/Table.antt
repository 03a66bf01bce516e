-- ===== src/Threads/Table.antt =====
-- The thread table of thread.c.
use myria.Base.{
  zero, suc, none, some, ◌%◌, ◌^◌, ◌<◌, sym, ap, update_ne, ne→==_false, ◌≡◌, inl, inr, refl, ◌≤◌,
  update_self, ℕ, ◌+◌, ◌≢◌, arith, Option-cases, Option, List, update, ◌==◌, u32,
}
use native.Mathlib.Decide.{ℕ_discrete}
use myria.Sched.Search.{FreeSlot, full, free, taken}
use myria.Threads.{add_to_ready_queue, Scheduler, free_entry_from, record_thread}
use myria.Threads.Queues.{IsQueue}

pub record_thread-IsQueue :
    (t : ℕ) (s : Scheduler) (xs : List ℕ) → IsQueue s xs → IsQueue (record_thread t s) xs
unfolding record_thread
record_thread-IsQueue t s xs q = elim (Option-cases (free_entry_from s.thread_table 1 7)) [
  | inl none_free ↦ rw (none_free, record_thread) q
  | inr (i, found) ↦ rw (found, record_thread) (record { linked = q.linked; distinct = q.distinct })
]

pub record_thread_kept :
    (t : ℕ) (s : Scheduler)
    → ((record_thread t s).store ≡ s.store)
      × ((record_thread t s).ready_queue_tail ≡ s.ready_queue_tail)
unfolding record_thread
record_thread_kept t s = elim (Option-cases (free_entry_from s.thread_table 1 7)) [
  | inl none_free ↦ rw (none_free, record_thread) (refl, refl)
  | inr (i, found) ↦ rw (found, record_thread) (refl, refl)
]

free_entry_from-FreeSlot :
    (table : ℕ → ℕ) (left i : ℕ) → FreeSlot table i left (free_entry_from table i left)
unfolding free_entry_from
free_entry_from-FreeSlot table zero i = full λ j a b. absurd (omega arith)
free_entry_from-FreeSlot table (suc left) i = elim (ℕ_discrete (table i) 0) [
  | yes here ↦
      rw (ap (λ n. n == 0) here)
        (free i (omega arith) (omega arith) here (λ j a b. absurd (omega arith)))
  | no used ↦
      rw (ne→==_false (table i) 0 used) (taken used (free_entry_from-FreeSlot table left (i + 1)))
]

-- The table and the count after the thread `t` has been noted: in the lowest free slot from 1 on, or,
-- where slots 1 to 7 are in use, nowhere.
pub data Recorded (t : ℕ) (s s' : Scheduler) : Type 0 where
  in_slot :
      (i : ℕ)
      → 1 ≤ i
      → i < 8
      → s.thread_table i ≡ 0
      → ((j : ℕ) → 1 ≤ j → j < i → s.thread_table j ≢ 0)
      → s'.thread_table i ≡ t
      → ((j : ℕ) → j ≢ i → s'.thread_table j ≡ s.thread_table j)
      → s'.thread_count ≡ (s.thread_count + 1) % 2 ^ 32
      → Recorded t s s'
  nowhere :
      ((j : ℕ) → 1 ≤ j → j < 8 → s.thread_table j ≢ 0)
      → s'.thread_table ≡ s.thread_table
      → s'.thread_count ≡ s.thread_count
      → Recorded t s s'

pub record_thread-Recorded :
    (t : ℕ) (s : Scheduler) → Recorded t s (add_to_ready_queue t (record_thread t s))
unfolding record_thread add_to_ready_queue
record_thread-Recorded t s =
    by_slot (free_entry_from s.thread_table 1 7) (free_entry_from-FreeSlot s.thread_table 7 1)
  where
    by_slot :
        (o : Option ℕ)
        → FreeSlot s.thread_table 1 7 o
        → Recorded t s (
            add_to_ready_queue t (elim o as (λ _. Scheduler) [
              | none ↦ s
              | some i ↦ record s {
                thread_table = update s.thread_table i t;
                thread_count = u32 (s.thread_count + 1);
              }
            ]))
    by_slot _ (full all) = nowhere (λ j a b. all j a (omega arith)) refl refl
    by_slot _ (free i a b e before) =
        in_slot i a (omega arith) e before (update_self s.thread_table i t)
          (λ j ne. update_ne s.thread_table i j t (λ z. ne (sym z))) refl

-- The queue and the table leave the rest of the scheduler alone.
pub others_kept :
    (t : ℕ) (s : Scheduler)
    → ((add_to_ready_queue t (record_thread t s)).next_tid ≡ s.next_tid)
      × ((add_to_ready_queue t (record_thread t s)).current_thread ≡ s.current_thread)
unfolding record_thread add_to_ready_queue
others_kept t s = elim (Option-cases (free_entry_from s.thread_table 1 7)) [
  | inl none_free ↦ rw (none_free, record_thread) (refl, refl)
  | inr (i, found) ↦ rw (found, record_thread) (refl, refl)
]
