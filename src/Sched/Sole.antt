-- ===== src/Sched/Sole.antt =====
-- At most one thread runs, and it is the current one.
use myria.Base.{ℕ, ◌<◌, ◌≡◌, ◌≢◌, ◌⊎◌, inl, inr, ap, ◌∙◌, sym, subst, some}
use native.Mathlib.Decide.{ℕ_discrete}
use myria.Sched.{
  Thread, Sched, thread_state_running, thread_state_zombie, max_threads, switch, sched_yield,
}
use myria.Sched.Next.{IsSlot}
use myria.Sched.Switch.{
  running_ne_ready, some_inj, Yielded, stayed, switched, sched_yield-Yielded,
  find_next_thread-picks, switch_current, switch_old, switch_next, switch_other,
}

-- A thread is marked as running exactly if it is the current one.
pub record Sole (s : Sched) : Type 0 where
  pub slot : IsSlot s.current_thread
  pub sole :
      (i : ℕ)
      → i < max_threads
      → (s.thread_table i).state ≡ thread_state_running
      → s.current_thread ≡ some i
  pub runs :
      (c : ℕ)
      → s.current_thread ≡ some c
      → ((s.thread_table c).state ≡ thread_state_running) × ((s.thread_table c).tid ≢ 0)

module _ {s : Sched} (v : Sole s) (old next : ℕ) (at : s.current_thread ≡ some old)
    (ne : next ≢ old) (named : (s.thread_table next).tid ≢ 0) (lt : next < max_threads) where
  switched-sole :
      (i : ℕ)
      → i < max_threads
      → ((switch s old next).thread_table i).state ≡ thread_state_running
      → (switch s old next).current_thread ≡ some i
  switched-sole i small e = elim (ℕ_discrete i next) [
    | yes here ↦ switch_current s old next ∙ ap some (sym here)
    | no there ↦ elim (ℕ_discrete i old) [
      | yes was ↦ absurd (
          running_ne_ready (
            sym e
            ∙ ap (λ k. ((switch s old next).thread_table k).state) was
            ∙ ap Thread.state (switch_old s old next ne)))
      | no other ↦
          let f =
            v.sole i small (sym (ap Thread.state (switch_other s old next i other there)) ∙ e) in
          absurd (other (some_inj (sym f ∙ at)))
    ]
  ]

  pub switch-Sole : Sole (switch s old next)
  switch-Sole = record {
    slot = subst IsSlot (sym (switch_current s old next)) lt;
    sole = switched-sole;
    runs = λ c e.
        let here : next ≡ c = some_inj (sym (switch_current s old next) ∙ e) in
        subst
          (λ k.
            (((switch s old next).thread_table k).state ≡ thread_state_running)
            × (((switch s old next).thread_table k).tid ≢ 0))
          here (ap Thread.state (switch_next s old next ne), rw (switch_next s old next ne) named);
  }

Yielded-Sole : {s t : Sched} → Yielded s t → Sole s → Sole t
Yielded-Sole stayed v = v
Yielded-Sole {s} (switched old next at found ne) v =
    let p = find_next_thread-picks s next v.slot found in switch-Sole v old next at ne p.2 p.0

-- A yield keeps it so that exactly the current thread is marked as running.
pub sched_yield-Sole : (s : Sched) → Sole s → Sole (sched_yield s)
sched_yield-Sole s v = Yielded-Sole (sched_yield-Yielded s) v

-- No state and no id changes, but for the ids of zombies.
pub record Similar (s t : Sched) : Type 0 where
  pub current : t.current_thread ≡ s.current_thread
  pub states : (i : ℕ) → (t.thread_table i).state ≡ (s.thread_table i).state
  pub tids :
      (i : ℕ)
      → ((t.thread_table i).tid ≡ (s.thread_table i).tid)
        ⊎ ((s.thread_table i).state ≡ thread_state_zombie)

running_ne_zombie : thread_state_running ≢ thread_state_zombie
running_ne_zombie e = cc

pub Similar-Sole : {s t : Sched} → Similar s t → Sole s → Sole t
Similar-Sole {s} {t} m v = record {
  slot = subst IsSlot (sym m.current) v.slot;
  sole = λ i lt e. m.current ∙ v.sole i lt (sym (m.states i) ∙ e);
  runs = λ c e.
      let r = v.runs c (sym m.current ∙ e) in
      (
        m.states c ∙ r.0,
        λ z. elim (m.tids c) [
          | inl same ↦ r.1 (sym same ∙ z)
          | inr dead ↦ running_ne_zombie (sym r.0 ∙ dead)
        ],
      );
}
