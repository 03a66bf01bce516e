-- ===== src/Sched/Health.antt =====
-- What holds of the thread table at all times.
use myria.Base.{ℕ, ◌<◌, ◌≤◌, ◌≡◌, ◌≢◌, ◌⊎◌, inl, inr, refl, arith, ap, ◌∙◌, sym}
use native.Mathlib.Decide.{ℕ_discrete}
use myria.Sched.{Thread, Sched, max_threads, switch, sched_yield}
use myria.Sched.Switch.{
  Yielded, stayed, switched, sched_yield-Yielded, switch_old, switch_next, switch_other,
}
use myria.Sched.Sole.{Sole, Similar, Similar-Sole, sched_yield-Sole}

abbrev pub IsSlice : ℕ → Type 0
IsSlice n = (1 ≤ n) × (n ≤ 10)

-- The current thread alone is marked as running; the threads of the table have different ids, all
-- given out already, and time slices from 1 to 10.
pub record Healthy (s : Sched) : Type 0 where
  pub sole : Sole s
  pub slices :
      (i : ℕ) → i < max_threads → (s.thread_table i).tid ≢ 0 → IsSlice (s.thread_table i).time_slice
  pub below : (i : ℕ) → i < max_threads → (s.thread_table i).tid < s.next_tid
  pub distinct :
      (i j : ℕ)
      → i < max_threads
      → j < max_threads
      → (s.thread_table i).tid ≢ 0
      → (s.thread_table i).tid ≡ (s.thread_table j).tid
      → i ≡ j

-- Ids stay or become 0, time slices stay or are in range.
pub record Keeps (s t : Sched) : Type 0 where
  pub next : t.next_tid ≡ s.next_tid
  pub tids :
      (i : ℕ) → ((t.thread_table i).tid ≡ (s.thread_table i).tid) ⊎ ((t.thread_table i).tid ≡ 0)
  pub slices :
      (i : ℕ)
      → ((t.thread_table i).time_slice ≡ (s.thread_table i).time_slice)
        ⊎ IsSlice (t.thread_table i).time_slice

module _ {s t : Sched} (k : Keeps s t) (v : Healthy s) where
  same_tid : (i : ℕ) → (t.thread_table i).tid ≢ 0 → (t.thread_table i).tid ≡ (s.thread_table i).tid
  same_tid i used = elim (k.tids i) [ inl same ↦ same | inr gone ↦ absurd (used gone) ]

  kept-slices :
      (i : ℕ) → i < max_threads → (t.thread_table i).tid ≢ 0 → IsSlice (t.thread_table i).time_slice
  kept-slices i lt used = elim (k.slices i) [
    | inl same ↦ rw same (v.slices i lt (λ z. used (same_tid i used ∙ z)))
    | inr ok ↦ ok
  ]

  kept-below : (i : ℕ) → i < max_threads → (t.thread_table i).tid < t.next_tid
  kept-below i lt = elim (k.tids i) [
    | inl same ↦ let b = v.below i lt in omega (arith, same, k.next)
    | inr gone ↦ let b = v.below i lt in omega (arith, gone, k.next)
  ]

  pub kept-Healthy : Sole t → Healthy t
  kept-Healthy w = record {
    sole = w;
    slices = kept-slices;
    below = kept-below;
    distinct = λ i j a b used e.
        v.distinct i j a b (λ z. used (same_tid i used ∙ z))
          (sym (same_tid i used) ∙ e ∙ same_tid j (λ z. used (e ∙ z)));
  }

pub Healthy-kept : {s t : Sched} → Similar s t → Keeps s t → Healthy s → Healthy t
Healthy-kept m k v = kept-Healthy k v (Similar-Sole m v.sole)

-- A switch changes neither ids nor time slices.
at_switch :
    (f : Thread → ℕ) (s : Sched) (old next i : ℕ)
    → next ≢ old
    → f ((switch s old next).thread_table old) ≡ f (s.thread_table old)
    → f ((switch s old next).thread_table next) ≡ f (s.thread_table next)
    → f ((switch s old next).thread_table i) ≡ f (s.thread_table i)
at_switch f s old next i ne a b = elim (ℕ_discrete i old) [
  | yes was ↦ rw was a
  | no other ↦ elim (ℕ_discrete i next) [
    | yes is ↦ rw is b
    | no there ↦ ap f (switch_other s old next i other there)
  ]
]

Yielded-Keeps : {s t : Sched} → Yielded s t → Keeps s t
unfolding switch
Yielded-Keeps stayed = record { next = refl; tids = λ i. inl refl; slices = λ i. inl refl }
Yielded-Keeps {s} (switched old next at found ne) = record {
  next = refl;
  tids = λ i. inl (
      at_switch Thread.tid s old next i ne (ap Thread.tid (switch_old s old next ne))
        (ap Thread.tid (switch_next s old next ne)));
  slices = λ i. inl (
      at_switch Thread.time_slice s old next i ne (ap Thread.time_slice (switch_old s old next ne))
        (ap Thread.time_slice (switch_next s old next ne)));
}

pub sched_yield-Healthy : (s : Sched) → Healthy s → Healthy (sched_yield s)
sched_yield-Healthy s v =
    kept-Healthy (Yielded-Keeps (sched_yield-Yielded s)) v (sched_yield-Sole s v.sole)
