-- ===== src/Threads/Ticks.antt =====
-- The timer tick of thread.c.
use myria.Base.{
  Bool, ℕ, ◌+◌, ◌-◌, ◌≡◌, ◌≢◌, ◌⊎◌, ◌∙◌, inl, inr, refl, sym, ap, subst, arith, Bool-cases, true,
  false, not, Option, some, List, [], ◌∷◌, ◌++◌, update, update_self, ne→==_false, ◌==◌, ◌&&◌,
  if◌then◌else◌, u64,
}
use myria.Threads.{Thread, Scheduler, sched_yield, sched_tick}
use myria.Threads.Segments.{Seg-update}
use myria.Threads.Turns.{IsTurn, sched_yield-IsTurn}

-- After a tick the same thread runs, its slice not used up or no other waiting; or it was used up
-- and the first of the queue runs.
pub data TickResult (s : Scheduler) (c : ℕ) : List ℕ → Option Scheduler → Type 0 where
  goes_on :
      (xs : List ℕ) (s' : Scheduler)
      → ((s.store c).time_slice - 1 ≢ 0) ⊎ (xs ≡ [])
      → (s'.store c).time_slice ≡ (s.store c).time_slice - 1
      → IsTurn s' c xs
      → TickResult s c xs (some s')
  preempted :
      (x : ℕ) (xs : List ℕ) (s' : Scheduler)
      → (s.store c).time_slice - 1 ≡ 0
      → IsTurn s' x (xs ++ (c ∷ []))
      → TickResult s c (x ∷ xs) (some s')

-- The state once the counters are updated.
abbrev counted : Scheduler → Scheduler
counted s = record s {
  store = update s.store s.current_thread (record (s.store s.current_thread) {
    total_runtime = u64 ((s.store s.current_thread).total_runtime + 1);
    time_slice = (s.store s.current_thread).time_slice - 1;
  });
  scheduler_ticks = u64 (s.scheduler_ticks + 1);
}

counted-IsTurn :
    (s : Scheduler) (xs : List ℕ)
    → IsTurn s s.current_thread xs
    → IsTurn (counted s) s.current_thread xs
counted-IsTurn s xs t =
    let c = s.current_thread in
    let v : Thread = record (s.store c) {
      total_runtime = u64 ((s.store c).total_runtime + 1);
      time_slice = (s.store c).time_slice - 1;
    } in
    record {
      queue = record {
        linked =
            Seg-update s.store c v xs 0 s.ready_queue_head 0 s.ready_queue_tail t.apart
              t.queue.linked;
        distinct = t.queue.distinct;
      };
      current = refl;
      no_idle = t.no_idle;
      not_null = t.not_null;
      apart = t.apart;
      runs = rw (update_self s.store c v) t.runs;
    }

slice_lem :
    (s : Scheduler)
    → ((counted s).store s.current_thread).time_slice ≡ (s.store s.current_thread).time_slice - 1
slice_lem s = ap (λ (v : Thread). v.time_slice) (update_self s.store s.current_thread _)

-- Whether the tick yields.
abbrev expires : Scheduler → Bool
expires s = ((s.store s.current_thread).time_slice - 1 == 0) && not (s.ready_queue_head == 0)

tick_step :
    (s : Scheduler)
    → s.current_thread ≢ 0
    → sched_tick s ≡ (if expires s then sched_yield (counted s) else some (counted s))
unfolding sched_tick
tick_step s pos = rw (ne→==_false s.current_thread 0 pos) refl

tick_on :
    (s : Scheduler) → s.current_thread ≢ 0 → expires s ≡ false → sched_tick s ≡ some (counted s)
tick_on s pos e =
    tick_step s pos ∙ ap (λ b. if b then sched_yield (counted s) else some (counted s)) e

tick_over :
    (s : Scheduler)
    → s.current_thread ≢ 0
    → expires s ≡ true
    → sched_tick s ≡ sched_yield (counted s)
tick_over s pos e =
    tick_step s pos ∙ ap (λ b. if b then sched_yield (counted s) else some (counted s)) e

expires_alone : (s : Scheduler) → s.ready_queue_head ≡ 0 → expires s ≡ false
expires_alone s e = ground arith

expires_slice :
    (s : Scheduler)
    → s.ready_queue_head ≢ 0
    → (s.store s.current_thread).time_slice - 1 ≡ 0
    → expires s ≡ true
expires_slice s pos e = ground arith

expires_left : (s : Scheduler) → (s.store s.current_thread).time_slice - 1 ≢ 0 → expires s ≡ false
expires_left s e = ground arith

tick_current :
    (s : Scheduler) (xs : List ℕ)
    → IsTurn s s.current_thread xs
    → TickResult s s.current_thread xs (sched_tick s)
tick_current s [] t =
    subst (TickResult s s.current_thread [])
      (sym (tick_on s t.not_null (expires_alone s t.queue.linked.0)))
      (goes_on [] (counted s) (inr refl) (slice_lem s) (counted-IsTurn s [] t))
tick_current s (x ∷ xs) t = elim (Bool-cases ((s.store s.current_thread).time_slice - 1 == 0)) [
  | inr left ↦
      let some_left : (s.store s.current_thread).time_slice - 1 ≢ 0 = λ e. ground arith in
      subst (TickResult s s.current_thread (x ∷ xs))
        (sym (tick_on s t.not_null (expires_left s some_left)))
        (goes_on (x ∷ xs) (counted s) (inl some_left) (slice_lem s) (counted-IsTurn s (x ∷ xs) t))
  | inl over ↦
      let none_left : (s.store s.current_thread).time_slice - 1 ≡ 0 = ground arith in
      let pos : s.ready_queue_head ≢ 0 = λ e. t.queue.linked.1 (sym (t.queue.linked.0) ∙ e) in
      let (s', e, t') =
        sched_yield-IsTurn (counted s) s.current_thread x xs (counted-IsTurn s (x ∷ xs) t) in
      subst (TickResult s s.current_thread (x ∷ xs))
        (sym (tick_over s t.not_null (expires_slice s pos none_left) ∙ e))
        (preempted x xs s' none_left t')
]

-- A tick never fails while a thread runs and there is no idle thread: the running thread goes on
-- with its slice one shorter, or its slice was used up, another thread waited, and the first of
-- the queue runs while the other goes to the end.
pub sched_tick-TickResult :
    (s : Scheduler) (c : ℕ) (xs : List ℕ) → IsTurn s c xs → TickResult s c xs (sched_tick s)
sched_tick-TickResult s c xs t =
    subst (λ d. TickResult s d xs (sched_tick s)) t.current
      (tick_current s xs (subst (λ d. IsTurn s d xs) (sym t.current) t))
