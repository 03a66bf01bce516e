-- ===== src/Sched/Session.antt =====
-- The scheduler over time: any sequence of its calls from initialisation, but for threads that
-- end and for the mode without switches.
use myria.Base.{
  ℕ, ◌+◌, ◌^◌, ◌<◌, ◌≡◌, ◌≢◌, ◌⊎◌, inl, inr, refl, ap, ◌∙◌, sym, subst, true, Option, none, some,
  update_self, update_ne,
}
use native.Mathlib.Decide.{ℕ_discrete}
use myria.Heap.{Heap}
use myria.Sched.{
  Thread, Sched, thread_state_running, sched_init, sched_yield, sched_tick, sched_start, set_state,
  find_next_thread,
}
use myria.Sched.Create.{thread_create}
use myria.Sched.Search.{Fills, turned_down, fills, thread_create-Fills}
use myria.Sched.Switch.{find_next_thread-picks, some_inj}
use myria.Sched.Sole.{Sole}
use myria.Sched.Health.{Healthy, Keeps, kept-Healthy, sched_yield-Healthy}
use myria.Sched.Setup.{sched_init-Healthy, added-Healthy}
use myria.Sched.Ticks.{sched_tick-Healthy}

thread_create-Healthy :
    (wrapper : ℕ) {s : Sched} {heap : Heap} {entry_point arg : ℕ} {name : Option (ℕ → ℕ)}
    {r : ℕ × Sched × Heap}
    → Healthy s
    → s.next_tid + 1 < 2 ^ 32
    → Fills wrapper s heap entry_point arg name r
    → Healthy r.1
thread_create-Healthy wrapper v fits (turned_down heap' why) = v
thread_create-Healthy wrapper v fits (fills slot base heap' given lt unused before got m) =
    added-Healthy v _ slot _ lt unused fits refl refl refl

none_ne_some : (i : ℕ) → none ≢ some i
none_ne_some i e = cc

-- The scheduler once the first thread has been started.
module _ {s : Sched} (v : Healthy s) (nobody : s.current_thread ≡ none) (first : ℕ)
    (picked : find_next_thread s ≡ some first) where
  abbrev started : Sched
  started = record s {
    scheduler_enabled = true;
    current_thread = some first;
    thread_table = set_state s.thread_table first thread_state_running;
  }

  at_first :
      (i : ℕ)
      → ((i ≡ first)
          × (started.thread_table i
              ≡ record (s.thread_table first) { state = thread_state_running }))
        ⊎ ((i ≢ first) × (started.thread_table i ≡ s.thread_table i))
  at_first i = elim (ℕ_discrete i first) [
    | yes here ↦ inl (
      here,
      subst
          (λ k.
            started.thread_table k ≡ record (s.thread_table first) { state = thread_state_running })
          (sym here) (update_self s.thread_table first _),
    )
    | no there ↦ inr (there, update_ne s.thread_table first i _ (λ z. there (sym z)))
  ]

  started-Sole : Sole started
  started-Sole =
      let p = find_next_thread-picks s first v.sole.slot picked in
      record {
        slot = p.0;
        sole = λ i lt e. elim (at_first i) [
          | inl (here, new) ↦ ap some (sym here)
          | inr (there, old) ↦
              absurd
                (none_ne_some i (sym nobody ∙ v.sole.sole i lt (sym (ap Thread.state old) ∙ e)))
        ];
        runs = λ c e. elim (at_first c) [
          | inl (here, new) ↦ rw new (refl, p.2)
          | inr (there, old) ↦ absurd (there (sym (some_inj e)))
        ];
      }

  started-Keeps : Keeps s started
  started-Keeps = record {
    next = refl;
    tids = λ i. inl (elim (at_first i) [
      | inl (here, new) ↦ ap Thread.tid new ∙ sym (ap (λ k. (s.thread_table k).tid) here)
      | inr (there, old) ↦ ap Thread.tid old
    ]);
    slices = λ i. inl (elim (at_first i) [
      | inl (here, new) ↦
          ap Thread.time_slice new ∙ sym (ap (λ k. (s.thread_table k).time_slice) here)
      | inr (there, old) ↦ ap Thread.time_slice old
    ]);
  }

sched_start-Healthy : (s : Sched) → s.current_thread ≡ none → Healthy s → Healthy (sched_start s)
unfolding sched_start
sched_start-Healthy s nobody v = started_or_not (find_next_thread s₁) refl
  where
    s₁ : Sched
    s₁ = record s { scheduler_enabled = true }

    v₁ : Healthy s₁
    v₁ =
        kept-Healthy {s = s} {t = s₁}
          (record { next = refl; tids = λ i. inl refl; slices = λ i. inl refl }) v
          (record { slot = v.sole.slot; sole = v.sole.sole; runs = v.sole.runs })

    started_or_not :
        (o : Option ℕ)
        → find_next_thread s₁ ≡ o
        → Healthy (elim o as (λ _. Sched) [
          | none ↦ s₁
          | some first ↦ record s₁ {
            current_thread = some first;
            thread_table = set_state s₁.thread_table first thread_state_running;
          }
        ])
    started_or_not none e = v₁
    started_or_not (some first) e =
        kept-Healthy (started-Keeps {s = s₁} v₁ nobody first e) v₁ (started-Sole v₁ nobody first e)

-- States that the calls lead to, with the heap that stacks come from; the scheduler is started at
-- most once, and at most 2^32 - 2 threads are ever created.
pub data Reach (boot : Sched) (start : Heap) (wrapper : ℕ) : Sched → Heap → Type 0 where
  booted : Reach boot start wrapper (sched_init boot) start
  creates :
      {s : Sched} {heap : Heap} (entry_point arg : ℕ) (name : Option (ℕ → ℕ))
      → Reach boot start wrapper s heap
      → s.next_tid + 1 < 2 ^ 32
      → Reach boot start wrapper
          (thread_create wrapper s heap entry_point arg name).1
          (thread_create wrapper s heap entry_point arg name).2
  starts :
      {s : Sched} {heap : Heap}
      → Reach boot start wrapper s heap
      → s.current_thread ≡ none
      → Reach boot start wrapper (sched_start s) heap
  yields :
      {s : Sched} {heap : Heap}
      → Reach boot start wrapper s heap
      → Reach boot start wrapper (sched_yield s) heap
  ticks :
      {s : Sched} {heap : Heap}
      → Reach boot start wrapper s heap
      → Reach boot start wrapper (sched_tick s heap).0 (sched_tick s heap).1

-- After any sequence of creations, yields, ticks and at most one start, exactly the current
-- thread is marked as running, the threads of the table have different ids, and their time slices
-- are from 1 to 10.
pub Reach-Healthy :
    {boot : Sched} {start : Heap} {wrapper : ℕ} {s : Sched} {heap : Heap}
    → Reach boot start wrapper s heap
    → Healthy s
Reach-Healthy {boot} booted = sched_init-Healthy boot
Reach-Healthy {wrapper = wrapper} (creates entry_point arg name r fits) =
    thread_create-Healthy wrapper (Reach-Healthy r) fits
      (thread_create-Fills wrapper _ _ entry_point arg name)
Reach-Healthy (starts {s} r nobody) = sched_start-Healthy s nobody (Reach-Healthy r)
Reach-Healthy (yields {s} r) = sched_yield-Healthy s (Reach-Healthy r)
Reach-Healthy (ticks {s} {heap} r) = sched_tick-Healthy s heap (Reach-Healthy r)
