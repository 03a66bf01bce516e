-- ===== src/Sched/Fair.antt =====
-- Fairness of cooperative switching.
use myria.Base.{
  ℕ, zero, suc, ◌+◌, ◌-◌, ◌%◌, ◌≤◌, ◌<◌, ◌≡◌, ◌≢◌, ◌⊎◌, inl, inr, refl, arith, ap, ◌∙◌, sym, subst,
  Bool, true, false, not, Option, none, some, ◌==◌, if◌then◌else◌, ne→==_false,
}
use native.Mathlib.Decide.{ℕ_discrete, dec_lt}
use myria.Sched.{
  Sched, thread_state_running, max_threads, can_run, find_next_thread, switch, sched_yield,
}
use myria.Sched.Next.{
  NextReady, idle, chosen, slot_at, slot_at_all, first_slot, find_next_thread-NextReady, IsSlot,
}
use myria.Sched.Switch.{can_run_lem, running_ne_ready, switch_current, switch_other}
use myria.Sched.Sole.{Sole, switch-Sole}

-- `n` yields, one after the other.
unfoldable pub yields : ℕ → Sched → Sched
yields zero s = s
yields (suc n) s = yields n (sched_yield s)

-- A running scheduler in which thread `old` is current and slot `k` waits, `d` places after.
record Waiting (s : Sched) (old k d : ℕ) : Type 0 where
  sole : Sole s
  enabled : s.scheduler_enabled ≡ true
  active : s.active_thread_count ≢ 0
  current : s.current_thread ≡ some old
  ready : can_run (s.thread_table k) ≡ true
  near : d < max_threads
  place : slot_at s d ≡ k

pub true_ne_false : true ≢ false
true_ne_false e = cc

pub sched_yield-switch :
    (s : Sched) (old next : ℕ)
    → s.scheduler_enabled ≡ true
    → s.current_thread ≡ some old
    → find_next_thread s ≡ some next
    → next ≢ old
    → sched_yield s ≡ switch s old next
unfolding sched_yield
sched_yield-switch s old next on at found ne =
    body s.scheduler_enabled s.current_thread (find_next_thread s) on at found
  where
    body :
        (b : Bool) (o n : Option ℕ)
        → b ≡ true
        → o ≡ some old
        → n ≡ some next
        → (if not b then s else elim o as (λ _. Sched) [
          | none ↦ s
          | some c ↦ elim n as (λ _. Sched) [
            | none ↦ s
            | some k ↦ if k == c then s else switch s c k
          ]
        ])
          ≡ switch s old next
    body b o n eb eo en = rw (eb, eo, en, ne→==_false next old ne) refl

module _ {s : Sched} {old k d : ℕ} (w : Waiting s old k d) where
  old_slot : old < max_threads
  old_slot = subst IsSlot w.current w.sole.slot

  k_slot : k < max_threads
  k_slot = let p = w.place in omega arith

  -- The thread picked comes no later than `k`.
  picks :
      {o : Option ℕ}
      → NextReady s o
      → (d' : ℕ) × (o ≡ some (slot_at s d'))
        × (d' ≤ d)
        × (can_run (s.thread_table (slot_at s d')) ≡ true)
  picks (idle (inl e)) = absurd (w.active e)
  picks (idle (inr all)) = absurd (true_ne_false (sym w.ready ∙ all k k_slot))
  picks (chosen d' lt can before) = (
    d',
    refl,
    elim (dec_lt d d') [
      | yes late ↦ absurd (
          true_ne_false
            (sym w.ready ∙ subst (λ i. can_run (s.thread_table i) ≡ false) w.place (before d late)))
      | no early ↦ omega arith
    ],
    can,
  )

  -- Either `k` becomes current at the next yield, or it waits in fewer places' distance.
  moves_up :
      ((sched_yield s).current_thread ≡ some k)
      ⊎ ((next : ℕ) × (d' : ℕ) × (d' < d) × Waiting (sched_yield s) next k d')
  moves_up =
      let (d', found, le, can) = picks (find_next_thread-NextReady s w.sole.slot) in
      let ready_next = can_run_lem (s.thread_table (slot_at s d')) can in
      let runs = w.sole.runs old w.current in
      let ne : slot_at s d' ≢ old = λ e.
        running_ne_ready (sym runs.0 ∙ ap (λ i. (s.thread_table i).state) (sym e) ∙ ready_next.0) in
      let now = sched_yield-switch s old (slot_at s d') w.enabled w.current found ne in
      elim (ℕ_discrete d' d) [
        | yes same ↦ inl (
            ap (λ (t : Sched). t.current_thread) now
            ∙ switch_current s old (slot_at s d')
            ∙ ap (λ e. some (slot_at s e)) same
            ∙ ap some w.place)
        | no closer ↦ inr (
          slot_at s d',
          d - d' - 1,
          omega arith,
          subst (λ t. Waiting t (slot_at s d') k (d - d' - 1)) (sym now)
              (waits d' (omega arith) found ne ready_next.1 runs.0),
        )
      ]
    where
      waits :
          (d' : ℕ)
          → d' < d
          → find_next_thread s ≡ some (slot_at s d')
          → slot_at s d' ≢ old
          → (s.thread_table (slot_at s d')).tid ≢ 0
          → (s.thread_table old).state ≡ thread_state_running
          → Waiting (switch s old (slot_at s d')) (slot_at s d') k (d - d' - 1)
      waits d' lt found ne named running =
          let small = w.near in
          let p = w.place in
          let k_old : k ≢ old = λ e. running_ne_ready (
            sym running
            ∙ ap (λ i. (s.thread_table i).state) (sym e)
            ∙ (can_run_lem (s.thread_table k) w.ready).0) in
          let k_next : k ≢ slot_at s d' = λ e. absurd (omega arith) in
          record {
            sole = switch-Sole w.sole old (slot_at s d') w.current ne named (omega arith);
            enabled = unfold switch in w.enabled;
            active = unfold switch in w.active;
            current = switch_current s old (slot_at s d');
            ready = rw (switch_other s old (slot_at s d') k k_old k_next) w.ready;
            near = omega arith;
            place =
                ap (λ o. (first_slot o + (d - d' - 1)) % max_threads)
                  (switch_current s old (slot_at s d'))
                ∙ omega arith;
          }

waits_at_most :
    (n : ℕ) {s : Sched} {old k d : ℕ}
    → Waiting s old k d
    → d < n
    → (m : ℕ) × (m ≤ d + 1) × ((yields m s).current_thread ≡ some k)
unfolding yields
waits_at_most zero w lt = absurd (omega arith)
waits_at_most (suc n) w lt = elim (moves_up w) [
  | inl now ↦ (1, omega arith, now)
  | inr (next, d', closer, w') ↦
      let (m, le, now) = waits_at_most n w' (omega arith) in (suc m, omega arith, now)
]

-- No thread that can run waits for more than eight yields: in a running scheduler whose current
-- thread alone is marked as running, some number of yields up to eight makes it current.
pub sched_yield_fair :
    (s : Sched) (old k : ℕ)
    → Sole s
    → s.scheduler_enabled ≡ true
    → s.active_thread_count ≢ 0
    → s.current_thread ≡ some old
    → k < max_threads
    → can_run (s.thread_table k) ≡ true
    → (m : ℕ) × (m ≤ 8) × ((yields m s).current_thread ≡ some k)
sched_yield_fair s old k sole on active at lt ready =
    let (d, near, place) = slot_at_all s k sole.slot lt in
    let (m, le, now) =
      waits_at_most 8
        (record {
          sole = sole;
          enabled = on;
          active = active;
          current = at;
          ready = ready;
          near = near;
          place = place;
        })
        near in
    (m, omega arith, now)
