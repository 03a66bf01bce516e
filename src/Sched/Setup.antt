-- ===== src/Sched/Setup.antt =====
-- Initialisation, and a thread put into a free slot.
use myria.Base.{
  ℕ, zero, suc, ◌+◌, ◌^◌, ◌≤◌, ◌<◌, ◌≡◌, ◌≢◌, ◌⊎◌, inl, inr, refl, arith, ap, ◌∙◌, sym, subst,
  update, update_self, update_ne, u32,
}
use native.Mathlib.Decide.{ℕ_discrete}
use myria.Sched.{
  Thread, Sched, thread_state_ready, thread_state_running, thread_state_zombie, max_threads,
  default_time_slice,
}
use myria.Sched.State.{blank, clear_table_from, sched_init}
use myria.Sched.Switch.{running_ne_ready}
use myria.Sched.Sole.{Sole}
use myria.Sched.Health.{Healthy, IsSlice}

abbrev Unused : Thread → Type 0
Unused t = (t.tid ≡ 0) × (t.state ≡ thread_state_zombie)

-- The table after initialisation.
cleared_table :
    (left i : ℕ) (table : ℕ → Thread) (j : ℕ)
    → ((i ≤ j) × (j < i + left)) ⊎ Unused (table j)
    → Unused (clear_table_from table i left j)
unfolding clear_table_from
cleared_table zero i table j (inl (a, b)) = absurd (omega arith)
cleared_table zero i table j (inr done) = done
cleared_table (suc left) i table j why = cleared_table left (i + 1) _ j (elim (ℕ_discrete i j) [
  | yes here ↦ inr (
      subst (λ k. Unused (update table i (blank (table i)) k)) here
        (subst Unused (sym (update_self table i (blank (table i)))) (refl, refl)))
  | no there ↦ elim why [
    | inl (a, b) ↦ inl (omega arith, omega arith)
    | inr done ↦ inr (subst Unused (sym (update_ne table i j (blank (table i)) there)) done)
  ]
])

zombie_ne_running : thread_state_zombie ≢ thread_state_running
zombie_ne_running e = cc

pub sched_init-Healthy : (s : Sched) → Healthy (sched_init s)
unfolding sched_init
sched_init-Healthy s = record {
  sole = record {
    slot = tt;
    sole = λ i lt e. absurd (zombie_ne_running (sym (all i lt).1 ∙ e));
    runs = λ c e. cc;
  };
  slices = λ i lt used. absurd (used (all i lt).0);
  below = λ i lt. let z = (all i lt).0 in omega (arith, z);
  distinct = λ i j a b used e. absurd (used (all i a).0);
}
  where
    all : (i : ℕ) → i < max_threads → Unused (clear_table_from s.thread_table 0 max_threads i)
    all i lt = cleared_table max_threads 0 s.thread_table i (inl (omega arith, omega arith))

-- A thread in a slot that was free.
module _ {s : Sched} (v : Healthy s) (t : Thread) (slot active : ℕ) (lt : slot < max_threads)
    (unused : (s.thread_table slot).tid ≡ 0) (fits : s.next_tid + 1 < 2 ^ 32)
    (new_tid : t.tid ≡ s.next_tid) (new_state : t.state ≡ thread_state_ready)
    (new_slice : t.time_slice ≡ default_time_slice) where
  abbrev table : ℕ → Thread
  table = update s.thread_table slot t

  abbrev after : Sched
  after = record s {
    thread_table = table;
    next_tid = u32 (s.next_tid + 1);
    active_thread_count = active;
  }

  -- Slot by slot: the new thread, or one that was there.
  slot-cases : (i : ℕ) → ((i ≡ slot) × (table i ≡ t)) ⊎ ((i ≢ slot) × (table i ≡ s.thread_table i))
  slot-cases i = elim (ℕ_discrete i slot) [
    | yes here ↦ inl (here, subst (λ k. table k ≡ t) (sym here) (update_self s.thread_table slot t))
    | no there ↦ inr (there, update_ne s.thread_table slot i t (λ z. there (sym z)))
  ]

  added-Sole : Sole after
  added-Sole = record {
    slot = v.sole.slot;
    sole = λ i small e. elim (slot-cases i) [
      | inl (here, new) ↦ absurd (running_ne_ready (sym e ∙ ap Thread.state new ∙ new_state))
      | inr (there, old) ↦ v.sole.sole i small (sym (ap Thread.state old) ∙ e)
    ];
    runs = λ c e. elim (slot-cases c) [
      | inl (here, new) ↦
          absurd ((v.sole.runs c e).1 (ap (λ k. (s.thread_table k).tid) here ∙ unused))
      | inr (there, old) ↦ rw old (v.sole.runs c e)
    ];
  }

  pub added-Healthy : Healthy after
  added-Healthy = record {
    sole = added-Sole;
    slices = λ i small used. elim (slot-cases i) [
      | inl (here, new) ↦
          subst IsSlice (sym (ap Thread.time_slice new ∙ new_slice)) (omega arith, omega arith)
      | inr (there, old) ↦ rw old (v.slices i small (λ z. used (ap Thread.tid old ∙ z)))
    ];
    below = λ i small. elim (slot-cases i) [
      | inl (here, new) ↦ omega (arith, ap Thread.tid new, new_tid)
      | inr (there, old) ↦ omega (arith, ap Thread.tid old, v.below i small)
    ];
    distinct = λ i j a b used e. elim (slot-cases i) [
      | inl (here, new) ↦ elim (slot-cases j) [
        | inl (here', new') ↦ here ∙ sym here'
        | inr (there', old') ↦
            absurd (omega (arith, ap Thread.tid new, new_tid, ap Thread.tid old', e, v.below j b))
      ]
      | inr (there, old) ↦ elim (slot-cases j) [
        | inl (here', new') ↦
            absurd (omega (arith, ap Thread.tid new', new_tid, ap Thread.tid old, e, v.below i a))
        | inr (there', old') ↦
            v.distinct i j a b (λ z. used (ap Thread.tid old ∙ z))
              (sym (ap Thread.tid old) ∙ e ∙ ap Thread.tid old')
      ]
    ];
  }
