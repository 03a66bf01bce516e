-- ===== src/Sched/Finish.antt =====
-- Threads that end.
use myria.Base.{
  ℕ, ◌+◌, ◌-◌, ◌^◌, ◌<◌, ◌≡◌, ◌≢◌, inl, inr, refl, arith, ap, ◌∙◌, sym, subst, true, Option, none,
  some, ◌==◌, ne→==_false, update_self, update_ne, if◌then◌else◌, u32,
}
use myria.Sched.{
  Thread, Sched, thread_state_ready, thread_state_zombie, max_threads, can_run, set_state, finish,
  thread_wrapper,
}
use myria.Sched.Next.{IsSlot, NextReady, idle, chosen, slot_at, find_next_thread-NextReady}
use myria.Sched.Fair.{true_ne_false, sched_yield-switch}
use myria.Sched.Switch.{can_run_lem, switch_old, switch_current, some_inj}

-- The scheduler just before the yield at the end of a thread.
abbrev ended : Sched → ℕ → Sched
ended s c = record s {
  thread_table = set_state s.thread_table c thread_state_zombie;
  active_thread_count = u32 (s.active_thread_count + 2 ^ 32 - 1);
}

zombie_ne_ready : thread_state_zombie ≢ thread_state_ready
zombie_ne_ready e = cc

module _ (s : Sched) (c k : ℕ) (slot : IsSlot s.current_thread) (other : k ≢ c)
    (lt : k < max_threads) (active : u32 (s.active_thread_count + 2 ^ 32 - 1) ≢ 0)
    (waits : can_run (s.thread_table k) ≡ true) where
  still_waits : can_run ((ended s c).thread_table k) ≡ true
  still_waits = ap can_run (update_ne s.thread_table c k _ (λ z. other (sym z))) ∙ waits

  picks_another :
      {o : Option ℕ} → NextReady (ended s c) o → (next : ℕ) × (o ≡ some next) × (next ≢ c)
  picks_another (idle (inl e)) = absurd (active e)
  picks_another (idle (inr all)) = absurd (true_ne_false (sym still_waits ∙ all k lt))
  picks_another (chosen d small can before) = (
    slot_at (ended s c) d,
    refl,
    λ e. zombie_ne_ready (
        sym (
          ap Thread.state (
            update_self s.thread_table c
              (record (s.thread_table c) { state = thread_state_zombie })))
        ∙ ap (λ i. ((ended s c).thread_table i).state) (sym e)
        ∙ (can_run_lem ((ended s c).thread_table (slot_at (ended s c) d)) can).0),
  )

  finish_revives :
      (call : ℕ → ℕ → Sched → Sched)
      → s.scheduler_enabled ≡ true
      → s.current_thread ≡ some c
      → (((finish call s c).thread_table c).state ≡ thread_state_ready)
        × (((finish call s c).thread_table c).tid ≡ (s.thread_table c).tid)
        × ((finish call s c).current_thread ≢ some c)
  finish_revives call on at =
      let (next, found, ne) = picks_another (find_next_thread-NextReady (ended s c) slot) in
      let e = sched_yield-switch (ended s c) c next on at found ne in
      let old = switch_old (ended s c) c next ne in
      rw e (
        ap Thread.state old,
        ap Thread.tid old
            ∙ ap Thread.tid (
                update_self s.thread_table c
                  (record (s.thread_table c) { state = thread_state_zombie })),
        λ z. ne (some_inj (sym (switch_current (ended s c) c next) ∙ z)),
      )

-- If a thread's function returns with the thread still current, scheduling enabled, more than one
-- thread counted as active and another slot that can run, then the thread is not a zombie after the
-- yield that follows: its state is READY, and it has the id that it had when the function returned.
pub thread_wrapper_revives :
    (call : ℕ → ℕ → Sched → Sched) (s after : Sched) (c k : ℕ)
    → s.current_thread ≡ some c
    → (s.thread_table c).entry_point ≢ 0
    → call (s.thread_table c).entry_point (s.thread_table c).arg s ≡ after
    → after.current_thread ≡ some c
    → c < max_threads
    → after.scheduler_enabled ≡ true
    → 1 < after.active_thread_count
    → after.active_thread_count < 2 ^ 32
    → k < max_threads
    → k ≢ c
    → can_run (after.thread_table k) ≡ true
    → (t : Sched) × (thread_wrapper call s ≡ some t)
      × ((t.thread_table c).state ≡ thread_state_ready)
      × ((t.thread_table c).tid ≡ (after.thread_table c).tid)
unfolding thread_wrapper
thread_wrapper_revives call s after c k at has_entry e at' small on two fits lt other waits =
    let r =
      finish_revives after c k (subst IsSlot (sym at') small) other lt (λ z. absurd (omega arith))
        waits call on at' in
    (finish call after c, returns s.current_thread at, r.0, r.1)
  where
    ends :
        (o : Option ℕ)
        → o ≡ some c
        → elim o as (λ _. Option Sched) [ none ↦ none | some d ↦ some (finish call after d) ]
          ≡ some (finish call after c)
    ends o q = rw q refl

    returns :
        (o : Option ℕ)
        → o ≡ some c
        → elim o as (λ _. Option Sched) [
          | none ↦ some s
          | some d ↦
              let later = call (s.thread_table d).entry_point (s.thread_table d).arg s in
              if (s.thread_table d).entry_point == 0
              then some s
              else elim later.current_thread [ none ↦ none | some d ↦ some (finish call later d) ]
        ]
          ≡ some (finish call after c)
    returns o q =
        rw (q, ne→==_false (s.thread_table c).entry_point 0 has_entry)
          (subst
            (λ y.
              elim y.current_thread as (λ _. Option Sched) [
                | none ↦ none
                | some d ↦ some (finish call y d)
              ]
              ≡ some (finish call after c))
            (sym e) (ends after.current_thread at'))
