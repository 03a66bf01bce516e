-- ===== src/Sched/Cleanup.antt =====
-- The cleanup of zombies changes nothing else.
use myria.Base.{
  ℕ, zero, suc, ◌+◌, ◌≡◌, ◌⊎◌, inl, inr, refl, ap, ◌∙◌, sym, subst, true, false, Bool-cases, update,
  update_self, update_ne,
}
use native.Mathlib.Decide.{ℕ_discrete}
use myria.Heap.{Heap}
use myria.Sched.{
  Thread, Sched, ThreadState, thread_state_ready, thread_state_running, thread_state_blocked,
  thread_state_zombie, max_threads, is_zombie, is_zombie_slot, cleanup_from, cleanup_zombie_threads,
  cleared,
}
use myria.Sched.Sole.{Similar}
use myria.Sched.Health.{Keeps, IsSlice}

-- A slot after the cleanup.
abbrev pub Cleaned : Thread → Thread → Type 0
Cleaned t u = (u ≡ t) ⊎ ((t.state ≡ thread_state_zombie) × (u ≡ cleared t))

Cleaned-step :
    (table : ℕ → Thread) (i j : ℕ) (u : Thread)
    → (table i).state ≡ thread_state_zombie
    → Cleaned (update table i (cleared (table i)) j) u
    → Cleaned (table j) u
Cleaned-step table i j u dead c = elim (ℕ_discrete i j) [
  | yes here ↦
      let new : update table i (cleared (table i)) j ≡ cleared (table i) =
        subst (λ k. update table i (cleared (table i)) k ≡ cleared (table i)) here
          (update_self table i _) in
      at_slot here (subst (λ w. Cleaned w u) new c)
  | no there ↦ subst (λ w. Cleaned w u) (update_ne table i j _ there) c
]
  where
    at_slot : i ≡ j → Cleaned (cleared (table i)) u → Cleaned (table j) u
    at_slot here (inl e) = subst (λ k. Cleaned (table k) u) here (inr (dead, e))
    at_slot here (inr (z, e)) = subst (λ k. Cleaned (table k) u) here (inr (dead, e))

is_zombie_lem : (q : ThreadState) → is_zombie q ≡ true → q ≡ thread_state_zombie
is_zombie_lem thread_state_ready e = cc
is_zombie_lem thread_state_running e = cc
is_zombie_lem thread_state_blocked e = cc
is_zombie_lem thread_state_zombie e = refl

is_zombie_slot_lem : (t : Thread) → is_zombie_slot t ≡ true → t.state ≡ thread_state_zombie
is_zombie_slot_lem t e = elim (Bool-cases (is_zombie t.state)) [
  | inl dead ↦ is_zombie_lem t.state dead
  | inr live ↦ let odd : false ≡ true = rw live at e in cc
]

cleanup_from-Cleaned :
    (left i : ℕ) (table : ℕ → Thread) (heap : Heap) (j : ℕ)
    → Cleaned (table j) ((cleanup_from table heap i left).0 j)
unfolding cleanup_from
cleanup_from-Cleaned zero i table heap j = inl refl
cleanup_from-Cleaned (suc left) i table heap j = elim (Bool-cases (is_zombie_slot (table i))) [
  | inl dead ↦ rw dead (
      Cleaned-step table i j _ (is_zombie_slot_lem (table i) dead)
        (cleanup_from-Cleaned left (i + 1) (update table i (cleared (table i))) _ j))
  | inr live ↦ rw live (cleanup_from-Cleaned left (i + 1) table heap j)
]

pub cleanup-Similar : (s : Sched) (heap : Heap) → Similar s (cleanup_zombie_threads s heap).0
unfolding cleanup_zombie_threads
cleanup-Similar s heap = record {
  current = refl;
  states = λ i. state_of i (cleanup_from-Cleaned max_threads 0 s.thread_table heap i);
  tids = λ i. tid_of i (cleanup_from-Cleaned max_threads 0 s.thread_table heap i);
}
  where
    state_of :
        (i : ℕ) {u : Thread} → Cleaned (s.thread_table i) u → u.state ≡ (s.thread_table i).state
    state_of i (inl e) = ap Thread.state e
    state_of i (inr (dead, e)) = ap Thread.state e ∙ sym dead

    tid_of :
        (i : ℕ) {u : Thread}
        → Cleaned (s.thread_table i) u
        → (u.tid ≡ (s.thread_table i).tid) ⊎ ((s.thread_table i).state ≡ thread_state_zombie)
    tid_of i (inl e) = inl (ap Thread.tid e)
    tid_of i (inr (dead, e)) = inr dead

pub cleanup-Keeps : (s : Sched) (heap : Heap) → Keeps s (cleanup_zombie_threads s heap).0
unfolding cleanup_zombie_threads
cleanup-Keeps s heap = record {
  next = refl;
  tids = λ i. tid_of i (cleanup_from-Cleaned max_threads 0 s.thread_table heap i);
  slices = λ i. slice_of i (cleanup_from-Cleaned max_threads 0 s.thread_table heap i);
}
  where
    tid_of :
        (i : ℕ) {u : Thread}
        → Cleaned (s.thread_table i) u
        → (u.tid ≡ (s.thread_table i).tid) ⊎ (u.tid ≡ 0)
    tid_of i (inl e) = inl (ap Thread.tid e)
    tid_of i (inr (dead, e)) = inr (ap Thread.tid e)

    slice_of :
        (i : ℕ) {u : Thread}
        → Cleaned (s.thread_table i) u
        → (u.time_slice ≡ (s.thread_table i).time_slice) ⊎ IsSlice u.time_slice
    slice_of i (inl e) = inl (ap Thread.time_slice e)
    slice_of i (inr (dead, e)) = inl (ap Thread.time_slice e)
