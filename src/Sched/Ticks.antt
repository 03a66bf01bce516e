-- ===== src/Sched/Ticks.antt =====
-- The timer tick: time slices.
use myria.Base.{
  ℕ, ◌+◌, ◌-◌, ◌%◌, ◌^◌, ◌≤◌, ◌<◌, ◌≡◌, ◌≢◌, inl, inr, refl, arith, ap, ◌∙◌, subst, Bool, true,
  false, not, Option, none, some, ◌==◌, if◌then◌else◌, ne→==_false, update, update_self, update_ne,
  u64, u32,
}
use native.Mathlib.Decide.{ℕ_discrete}
use myria.Heap.{Heap}
use myria.Sched.{
  Thread, Sched, max_threads, sched_yield, tick_thread, sched_tick, cleanup_zombie_threads,
  default_time_slice,
}
use myria.Sched.Sole.{Similar}
use myria.Sched.Next.{IsSlot}
use myria.Sched.Cleanup.{cleanup-Similar, cleanup-Keeps}
use myria.Sched.Health.{Healthy, IsSlice, Keeps, Healthy-kept, sched_yield-Healthy}

-- The thread in slot `c` after a tick that leaves it the time slice `slice`.
abbrev pub ticked : Sched → ℕ → ℕ → Sched
ticked s c slice = record s {
  thread_table = update s.thread_table c (record (s.thread_table c) {
    total_runtime = u64 ((s.thread_table c).total_runtime + 1);
    time_slice = slice;
  });
}

-- A tick on a thread with a time slice left of 1 gives it a new one of 10 and yields; with more
-- left it only counts down.
pub tick_thread_lem :
    (s : Sched) (c : ℕ)
    → 0 < (s.thread_table c).time_slice
    → (s.thread_table c).time_slice < 2 ^ 64
    → ((s.thread_table c).time_slice ≡ 1
        → tick_thread s c ≡ sched_yield (ticked s c default_time_slice))
      × ((s.thread_table c).time_slice ≢ 1
          → tick_thread s c ≡ ticked s c ((s.thread_table c).time_slice - 1))
unfolding tick_thread
tick_thread_lem s c pos fits = (
  λ e. let z : u64 ((s.thread_table c).time_slice + 2 ^ 64 - 1) ≡ 0 = omega arith in rw z refl,
  λ e.
      let z : u64 ((s.thread_table c).time_slice + 2 ^ 64 - 1) ≡ (s.thread_table c).time_slice - 1 =
        omega arith in
      rw (z, ne→==_false ((s.thread_table c).time_slice - 1) 0 (λ w. absurd (omega arith))) refl,
)

at_ticked {ℓ} :
    {B : Type ℓ} (f : Thread → B) (s : Sched) (c slice i : ℕ)
    → f (record (s.thread_table c) {
      total_runtime = u64 ((s.thread_table c).total_runtime + 1);
      time_slice = slice;
    })
      ≡ f (s.thread_table c)
    → f ((ticked s c slice).thread_table i) ≡ f (s.thread_table i)
at_ticked f s c slice i same = elim (ℕ_discrete c i) [
  | yes here ↦
      subst (λ k. f ((ticked s c slice).thread_table k) ≡ f (s.thread_table k)) here
        (ap f (update_self s.thread_table c _) ∙ same)
  | no there ↦ ap f (update_ne s.thread_table c i _ there)
]

ticked-Similar : (s : Sched) (c slice : ℕ) → Similar s (ticked s c slice)
ticked-Similar s c slice = record {
  current = refl;
  states = λ i. at_ticked Thread.state s c slice i refl;
  tids = λ i. inl (at_ticked Thread.tid s c slice i refl);
}

ticked-Keeps : (s : Sched) (c slice : ℕ) → 1 ≤ slice → slice ≤ 10 → Keeps s (ticked s c slice)
ticked-Keeps s c slice lo hi = record {
  next = refl;
  tids = λ i. inl (at_ticked Thread.tid s c slice i refl);
  slices = λ i. elim (ℕ_discrete c i) [
    | yes here ↦
        let new = ap Thread.time_slice (
          update_self s.thread_table c (record (s.thread_table c) {
            total_runtime = u64 ((s.thread_table c).total_runtime + 1);
            time_slice = slice;
          })) in
        inr (
          subst (λ k. IsSlice ((ticked s c slice).thread_table k).time_slice) here
            (rw new (lo, hi)))
    | no there ↦ inl (ap Thread.time_slice (update_ne s.thread_table c i _ there))
  ];
}

-- A tick on the current thread keeps the scheduler healthy.
tick_thread-Healthy :
    (s : Sched) (c : ℕ) → s.current_thread ≡ some c → Healthy s → Healthy (tick_thread s c)
tick_thread-Healthy s c at v =
    let lt : c < max_threads = subst IsSlot at v.sole.slot in
    let sl = v.slices c lt (v.sole.runs c at).1 in
    let lem = tick_thread_lem s c (omega (arith, sl.0)) (omega (arith, sl.1)) in
    elim (ℕ_discrete (s.thread_table c).time_slice 1) [
      | yes last ↦ rw (lem.0 last) (
          sched_yield-Healthy _ (
            Healthy-kept (ticked-Similar s c 10) (ticked-Keeps s c 10 (omega arith) (omega arith))
              v))
      | no more ↦ rw (lem.1 more) (
          Healthy-kept (ticked-Similar s c _)
            (ticked-Keeps s c _ (omega (arith, sl.0)) (omega (arith, sl.1))) v)
    ]

cleanup-Healthy : (s : Sched) (heap : Heap) → Healthy s → Healthy (cleanup_zombie_threads s heap).0
cleanup-Healthy s heap v = Healthy-kept (cleanup-Similar s heap) (cleanup-Keeps s heap) v

-- A tick of the timer keeps the scheduler healthy, whether it switches, cleans up or neither.
pub sched_tick-Healthy : (s : Sched) (heap : Heap) → Healthy s → Healthy (sched_tick s heap).0
unfolding sched_tick
sched_tick-Healthy s heap v = enabled s.scheduler_enabled
  where
    s₁ : Sched
    s₁ = record s { scheduler_ticks = u32 (s.scheduler_ticks + 1) }

    v₁ : Healthy s₁
    v₁ =
        Healthy-kept (record { current = refl; states = λ i. refl; tids = λ i. inl refl })
          (record { next = refl; tids = λ i. inl refl; slices = λ i. inl refl }) v

    counted :
        (o : Option ℕ)
        → s₁.current_thread ≡ o
        → Healthy (elim o as (λ _. Sched) [ none ↦ s₁ | some c ↦ tick_thread s₁ c ])
    counted none e = v₁
    counted (some c) e = tick_thread-Healthy s₁ c e v₁

    tidied :
        (b : Bool) (t : Sched)
        → Healthy t
        → Healthy (if b then cleanup_zombie_threads t heap else (t, heap)).0
    tidied true t w = cleanup-Healthy t heap w
    tidied false t w = w

    enabled :
        (b : Bool)
        → Healthy
            (if not b
              then (s, heap)
              else let s₂ : Sched = elim s₁.current_thread [
                | none ↦ s₁
                | some c ↦ tick_thread s₁ c
              ] in
                if s₂.scheduler_ticks % 100 == 0
                then cleanup_zombie_threads s₂ heap
                else (s₂, heap)).0
    enabled false = v
    enabled true = tidied _ _ (counted s₁.current_thread refl)
