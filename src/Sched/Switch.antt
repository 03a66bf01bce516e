-- ===== src/Sched/Switch.antt =====
-- What a yield may do: nothing, or switch to the thread that the scheduler picks.
use myria.Base.{
  ℕ, ◌<◌, ◌≡◌, ◌≢◌, refl, arith, ap, ◌∙◌, sym, subst, Bool, true, false, not, ◌&&◌, Option, none,
  some, ◌==◌, if◌then◌else◌, ne→==_false, ==_refl, update_self, update_ne,
}
use native.Mathlib.Decide.{ℕ_discrete}
use myria.Sched.{
  Thread, Sched, ThreadState, thread_state_ready, thread_state_running, thread_state_blocked,
  thread_state_zombie, max_threads, can_run, is_ready, find_next_thread, set_state, switch,
  sched_yield,
}
use myria.Sched.Next.{IsSlot, NextReady, idle, chosen, slot_at, find_next_thread-NextReady}

pub running_ne_ready : thread_state_running ≢ thread_state_ready
running_ne_ready e = cc

pub some_inj : {a b : ℕ} → some a ≡ some b → a ≡ b
some_inj e = cc

is_ready_lem : (q : ThreadState) → is_ready q ≡ true → q ≡ thread_state_ready
is_ready_lem thread_state_ready e = refl
is_ready_lem thread_state_running e = cc
is_ready_lem thread_state_blocked e = cc
is_ready_lem thread_state_zombie e = cc

pub can_run_lem : (t : Thread) → can_run t ≡ true → (t.state ≡ thread_state_ready) × (t.tid ≢ 0)
can_run_lem t can = both t.tid t.state can
  where
    both :
        (n : ℕ) (q : ThreadState)
        → (not (n == 0) && is_ready q) ≡ true
        → (q ≡ thread_state_ready) × (n ≢ 0)
    both n q e = elim (ℕ_discrete n 0) [
      | yes z ↦ let odd : false ≡ true = rw z at e in cc
      | no z ↦ (is_ready_lem q (rw (ne→==_false n 0 z) at e), z)
    ]

-- The two outcomes of a yield.
pub data Yielded (s : Sched) : Sched → Type 0 where
  stayed : Yielded s s
  switched :
      (old next : ℕ)
      → s.current_thread ≡ some old
      → find_next_thread s ≡ some next
      → next ≢ old
      → Yielded s (switch s old next)

pub sched_yield-Yielded : (s : Sched) → Yielded s (sched_yield s)
unfolding sched_yield
sched_yield-Yielded s = body s.scheduler_enabled s.current_thread (find_next_thread s) refl refl
  where
    body :
        (b : Bool) (o n : Option ℕ)
        → s.current_thread ≡ o
        → find_next_thread s ≡ n
        → Yielded s (
            if not b then s else elim o as (λ _. Sched) [
              | none ↦ s
              | some old ↦ elim n as (λ _. Sched) [
                | none ↦ s
                | some next ↦ if next == old then s else switch s old next
              ]
            ])
    body false o n e f = stayed
    body true none n e f = stayed
    body true (some old) none e f = stayed
    body true (some old) (some next) e f = elim (ℕ_discrete next old) [
      | yes same ↦ rw (same, ==_refl old) stayed
      | no other ↦ rw (ne→==_false next old other) (switched old next e f other)
    ]

chosen_slot :
    {s : Sched} {o : Option ℕ}
    → NextReady s o
    → (next : ℕ) → o ≡ some next
    → (next < max_threads)
      × ((s.thread_table next).state ≡ thread_state_ready)
      × ((s.thread_table next).tid ≢ 0)
chosen_slot (idle why) next e = cc
chosen_slot {s} (chosen d lt can before) next e =
    let here : slot_at s d ≡ next = cc in
    let r = can_run_lem (s.thread_table (slot_at s d)) can in
    (
      omega arith,
      subst (λ k. (s.thread_table k).state ≡ thread_state_ready) here r.0,
      subst (λ k. (s.thread_table k).tid ≢ 0) here r.1,
    )

-- The thread that the scheduler picks is a slot of the table, ready, and in use.
pub find_next_thread-picks :
    (s : Sched) (next : ℕ)
    → IsSlot s.current_thread
    → find_next_thread s ≡ some next
    → (next < max_threads)
      × ((s.thread_table next).state ≡ thread_state_ready)
      × ((s.thread_table next).tid ≢ 0)
find_next_thread-picks s next v e = chosen_slot (find_next_thread-NextReady s v) next e

-- What a switch leaves in a slot.
pub switch_current : (s : Sched) (old next : ℕ) → (switch s old next).current_thread ≡ some next
unfolding switch
switch_current s old next = refl

pub switch_old :
    (s : Sched) (old next : ℕ)
    → next ≢ old
    → (switch s old next).thread_table old
      ≡ record (s.thread_table old) { state = thread_state_ready }
unfolding switch
switch_old s old next ne =
    update_self (set_state s.thread_table next thread_state_running) old _
    ∙ ap (λ (t : Thread). record t { state = thread_state_ready })
        (update_ne s.thread_table next old _ ne)

pub switch_next :
    (s : Sched) (old next : ℕ)
    → next ≢ old
    → (switch s old next).thread_table next
      ≡ record (s.thread_table next) { state = thread_state_running }
unfolding switch
switch_next s old next ne =
    update_ne (set_state s.thread_table next thread_state_running) old next _ (λ z. ne (sym z))
    ∙ update_self s.thread_table next _

pub switch_other :
    (s : Sched) (old next i : ℕ)
    → i ≢ old
    → i ≢ next
    → (switch s old next).thread_table i ≡ s.thread_table i
unfolding switch
switch_other s old next i a b =
    update_ne (set_state s.thread_table next thread_state_running) old i _ (λ z. a (sym z))
    ∙ update_ne s.thread_table next i _ (λ z. b (sym z))
