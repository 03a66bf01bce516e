-- ===== src/Sched/Next.antt =====
-- `find_next_thread`: the first thread that can run after the current one, in cyclic order.
use myria.Base.{
  ℕ, zero, suc, ◌+◌, ◌-◌, ◌%◌, ◌≤◌, ◌<◌, ◌≡◌, ◌⊎◌, inl, inr, refl, arith, ap, subst, true, false,
  Bool-cases, Option, none, some, ◌==◌, ne→==_false, ==_refl,
}
use native.Mathlib.Decide.{ℕ_discrete}
use myria.Sched.{
  Thread, Sched, max_threads, can_run, start_idx_from, start_idx, search_from, find_next_thread,
}

start_idx_from_lem :
    (left c i : ℕ) → i ≤ c → c < i + left → start_idx_from c i left ≡ (c + 1) % max_threads
unfolding start_idx_from
start_idx_from_lem zero c i le lt = absurd (omega arith)
start_idx_from_lem (suc left) c i le lt = elim (ℕ_discrete i c) [
  | yes here ↦ rw (here, ==_refl c) refl
  | no later ↦
      rw (ne→==_false i c later) (start_idx_from_lem left c (i + 1) (omega arith) (omega arith))
]

-- The slot at which the search starts.
abbrev pub first_slot : Option ℕ → ℕ
first_slot none = 0
first_slot (some c) = (c + 1) % max_threads

-- NULL, or a slot of the table.
abbrev pub IsSlot : Option ℕ → Type 0
IsSlot none = Unit {0}
IsSlot (some c) = c < max_threads

pub start_idx_lem :
    (s : Sched) → IsSlot s.current_thread → start_idx s ≡ first_slot s.current_thread
unfolding start_idx
start_idx_lem s v = at s.current_thread v
  where
    at :
        (o : Option ℕ)
        → IsSlot o
        → elim o as (λ _. ℕ) [ none ↦ 0 | some c ↦ start_idx_from c 0 max_threads ] ≡ first_slot o
    at none v = refl
    at (some c) v = start_idx_from_lem max_threads c 0 (omega arith) (omega arith)

data Search (table : ℕ → Thread) (start i left : ℕ) : Option ℕ → Type 0 where
  nothing :
      ((j : ℕ) → i ≤ j → j < i + left → can_run (table ((start + j) % max_threads)) ≡ false)
      → Search table start i left none
  hit :
      (d : ℕ)
      → i ≤ d
      → d < i + left
      → can_run (table ((start + d) % max_threads)) ≡ true
      → ((j : ℕ) → i ≤ j → j < d → can_run (table ((start + j) % max_threads)) ≡ false)
      → Search table start i left (some ((start + d) % max_threads))

module _ (table : ℕ → Thread) (start : ℕ) where
  past :
      (i left : ℕ) {o : Option ℕ}
      → can_run (table ((start + i) % max_threads)) ≡ false
      → Search table start (i + 1) left o
      → Search table start i (suc left) o
  past i left busy (nothing all) = nothing λ j a b. elim (ℕ_discrete j i) [
    | yes here ↦ rw here busy
    | no later ↦ all j (omega arith) (omega arith)
  ]
  past i left busy (hit d a b can before) = hit d (omega arith) (omega arith) can λ j p q.
      elim (ℕ_discrete j i) [ yes here ↦ rw here busy | no later ↦ before j (omega arith) q ]

  search_from-Search : (left i : ℕ) → Search table start i left (search_from table start i left)
  unfolding search_from
  search_from-Search zero i = nothing λ j a b. absurd (omega arith)
  search_from-Search (suc left) i =
      elim (Bool-cases (can_run (table ((start + i) % max_threads)))) [
        | inl can ↦ rw can (hit i (omega arith) (omega arith) can λ j a b. absurd (omega arith))
        | inr busy ↦ rw busy (past i left busy (search_from-Search left (i + 1)))
      ]

-- The slot `d` places after the start of the search.
abbrev pub slot_at : Sched → ℕ → ℕ
slot_at s d = (first_slot s.current_thread + d) % max_threads

-- What the search may yield.
pub data NextReady (s : Sched) : Option ℕ → Type 0 where
  idle :
      (s.active_thread_count ≡ 0) ⊎ ((i : ℕ) → i < max_threads → can_run (s.thread_table i) ≡ false)
      → NextReady s none
  chosen :
      (d : ℕ)
      → d < max_threads
      → can_run (s.thread_table (slot_at s d)) ≡ true
      → ((j : ℕ) → j < d → can_run (s.thread_table (slot_at s j)) ≡ false)
      → NextReady s (some (slot_at s d))

-- Every slot is some places after the start.
pub slot_at_all :
    (s : Sched) (i : ℕ)
    → IsSlot s.current_thread
    → i < max_threads
    → (d : ℕ) × (d < max_threads) × (slot_at s d ≡ i)
slot_at_all s i v lt = at (first_slot s.current_thread) (first-lt s.current_thread v)
  where
    first-lt : (o : Option ℕ) → IsSlot o → first_slot o < max_threads
    first-lt none v = omega arith
    first-lt (some c) v = omega arith

    at : (f : ℕ) → f < max_threads → (d : ℕ) × (d < max_threads) × ((f + d) % max_threads ≡ i)
    at f h = ((i + 8 - f) % 8, omega arith, omega arith)

-- If the current thread is a slot of the table, the scheduler picks no thread only when none is
-- active or none can run; otherwise it picks the first one that can run, in cyclic order from the
-- slot after the current thread, or from slot 0 when there is no current thread.
pub find_next_thread-NextReady :
    (s : Sched) → IsSlot s.current_thread → NextReady s (find_next_thread s)
unfolding find_next_thread
find_next_thread-NextReady s v = elim (ℕ_discrete s.active_thread_count 0) [
  | yes none_active ↦ rw (ap (λ n. n == 0) none_active) (idle (inl none_active))
  | no active ↦
      rw (ne→==_false s.active_thread_count 0 active, start_idx_lem s v)
        (found (search_from-Search s.thread_table (first_slot s.current_thread) max_threads 0))
]
  where
    found :
        {o : Option ℕ}
        → Search s.thread_table (first_slot s.current_thread) 0 max_threads o
        → NextReady s o
    found (nothing all) = idle (
        inr λ i lt.
          let (d, small, e) = slot_at_all s i v lt in
          subst (λ k. can_run (s.thread_table k) ≡ false) e (all d (omega arith) (omega arith)))
    found (hit d a b can before) = chosen d (omega arith) can (λ j lt. before j (omega arith) lt)
