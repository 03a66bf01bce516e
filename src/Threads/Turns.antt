-- ===== src/Threads/Turns.antt =====
-- Yields and ticks take the threads in turn.
use myria.Base.{
  ℕ, zero, suc, ◌≡◌, ◌≢◌, ◌∙◌, inl, inr, refl, sym, ap, subst, arith, Bool-cases, true, Option,
  none, some, List, [], ◌∷◌, ◌++◌, length, update, update_self, ne→==_false, ◌==◌,
}
use mathlib.Core.List.{append_assoc}
use myria.Threads.{
  Thread, running, Store, Scheduler, default_time_slice, link_next, link_prev, add_to_ready_queue,
  remove_from_ready_queue, get_next_thread, is_running, switch_to, sched_yield,
}
use myria.Threads.Segments.{Apart, Seg-update, append-Apart}
use myria.Threads.Queues.{IsQueue, add_to_ready_queue-IsQueue, remove_from_ready_queue-IsQueue}

-- Links do not touch states.
update_state :
    (st : Store) (t x : ℕ) (v : Thread)
    → v.state ≡ (st t).state
    → (update st t v x).state ≡ (st x).state
update_state st t x v same = elim (Bool-cases (t == x)) [
  | inl here ↦ let e : t ≡ x = ground arith in rw here (same ∙ rw e refl)
  | inr other ↦ rw other refl
]

link_next_state : (st : Store) (head l n x : ℕ) → ((link_next st head l n).0 x).state ≡ (st x).state
unfolding link_next
link_next_state st head l n x = elim (Bool-cases (l == 0)) [
  | inl null ↦ rw null refl
  | inr there ↦ rw there (update_state st l x (record (st l) { next = n }) refl)
]

link_prev_state : (st : Store) (tail n k x : ℕ) → ((link_prev st tail n k).0 x).state ≡ (st x).state
unfolding link_prev
link_prev_state st tail n k x = elim (Bool-cases (n == 0)) [
  | inl null ↦ rw null refl
  | inr there ↦ rw there (update_state st n x (record (st n) { prev = k }) refl)
]

remove_from_ready_queue_state :
    (s : Scheduler) (t x : ℕ) → ((remove_from_ready_queue t s).store x).state ≡ (s.store x).state
unfolding remove_from_ready_queue
remove_from_ready_queue_state s t x =
    let r : Store × ℕ = link_next s.store s.ready_queue_head (s.store t).prev (s.store t).next in
    let q : Store × ℕ = link_prev r.0 s.ready_queue_tail (r.0 t).next (r.0 t).prev in
    update_state q.0 t x (record (q.0 t) { next = 0; prev = 0 }) refl
    ∙ link_prev_state r.0 s.ready_queue_tail (r.0 t).next (r.0 t).prev x
    ∙ link_next_state s.store s.ready_queue_head (s.store t).prev (s.store t).next x

-- The thread `c` runs and the threads `xs` wait, in this order; there is no idle thread.
pub record IsTurn (s : Scheduler) (c : ℕ) (xs : List ℕ) : Type 0 where
  pub queue : IsQueue s xs
  pub current : s.current_thread ≡ c
  pub no_idle : s.idle_thread ≡ 0
  pub not_null : c ≢ 0
  pub apart : Apart c xs
  pub runs : is_running (s.store c).state ≡ true

-- A change of a thread that does not wait.
IsQueue-update :
    (s : Scheduler) (xs : List ℕ) (t : ℕ) (v : Thread)
    → IsQueue s xs
    → Apart t xs
    → IsQueue (record s { store = update s.store t v }) xs
IsQueue-update s xs t v q a = record {
  linked = Seg-update s.store t v xs 0 s.ready_queue_head 0 s.ready_queue_tail a q.linked;
  distinct = q.distinct;
}

get_next_thread-IsQueue :
    (s : Scheduler) (x : ℕ) (xs : List ℕ)
    → IsQueue s (x ∷ xs)
    → get_next_thread s ≡ (x, remove_from_ready_queue x s)
unfolding get_next_thread
get_next_thread-IsQueue s x xs q =
    let head = q.linked.0 in
    let pos : s.ready_queue_head ≢ 0 = λ e. q.linked.1 (sym head ∙ e) in
    rw (ne→==_false s.ready_queue_head 0 pos, head) refl

switch_to-IsQueue :
    (s : Scheduler) (xs : List ℕ) (t : ℕ) → IsQueue s xs → Apart t xs → IsQueue (switch_to t s) xs
unfolding switch_to
switch_to-IsQueue s xs t q a = record {
  linked = Seg-update s.store t _ xs 0 s.ready_queue_head 0 s.ready_queue_tail a q.linked;
  distinct = q.distinct;
}

switch_to_lem :
    (s : Scheduler) (t : ℕ)
    → ((switch_to t s).current_thread ≡ t)
      × ((switch_to t s).idle_thread ≡ s.idle_thread)
      × (is_running ((switch_to t s).store t).state ≡ true)
unfolding switch_to is_running
switch_to_lem s t =
    let v : Thread = record (s.store t) {
      state = running;
      time_slice = default_time_slice;
      last_scheduled = s.scheduler_ticks;
    } in
    (refl, refl, rw (update_self s.store t v) refl)

idle_kept :
    (s : Scheduler) (c x : ℕ)
    → ((remove_from_ready_queue x s).idle_thread ≡ s.idle_thread)
      × ((add_to_ready_queue c s).idle_thread ≡ s.idle_thread)
unfolding remove_from_ready_queue add_to_ready_queue
idle_kept s c x = (refl, refl)

-- A yield with another thread waiting.
sched_yield_step :
    (s : Scheduler) (c x : ℕ) (xs : List ℕ)
    → IsTurn s c (x ∷ xs)
    → sched_yield s ≡ some (switch_to x (add_to_ready_queue c (remove_from_ready_queue x s)))
unfolding sched_yield remove_from_ready_queue switch_to
sched_yield_step s c x xs t =
    let next = get_next_thread-IsQueue s x xs t.queue in
    let state = ap is_running (remove_from_ready_queue_state s x c) ∙ t.runs in
    let idle = (idle_kept s c x).0 ∙ t.no_idle in
    rw
      (
        next,
        t.current,
        state,
        idle,
        ne→==_false c 0 t.not_null,
        ne→==_false x c (λ e. t.apart.0 (sym e)),
        ne→==_false x 0 t.queue.linked.1,
      )
      refl

-- When another thread waits, a yield succeeds: the running thread goes to the end of the queue, and
-- the first of the queue runs.
pub sched_yield-IsTurn :
    (s : Scheduler) (c x : ℕ) (xs : List ℕ)
    → IsTurn s c (x ∷ xs)
    → (s' : Scheduler) × (sched_yield s ≡ some s') × IsTurn s' x (xs ++ (c ∷ []))
sched_yield-IsTurn s c x xs t =
    let removed : Scheduler = remove_from_ready_queue x s in
    let added : Scheduler = add_to_ready_queue c removed in
    let l = switch_to_lem added x in
    let apart = append-Apart x xs (c ∷ []) t.queue.distinct.0 ((λ e. t.apart.0 (sym e)), tt) in
    let rest = remove_from_ready_queue-IsQueue s [] xs x t.queue in
    (
      switch_to x added,
      sched_yield_step s c x xs t,
      record {
        queue =
            switch_to-IsQueue added (xs ++ (c ∷ [])) x
              (add_to_ready_queue-IsQueue removed xs c rest t.not_null t.apart.1) apart;
        current = l.0;
        no_idle = l.1 ∙ (idle_kept removed c x).1 ∙ (idle_kept s c x).0 ∙ t.no_idle;
        not_null = t.queue.linked.1;
        apart = apart;
        runs = l.2;
      },
    )

-- `n` yields, one after another.
pub yields : ℕ → Scheduler → Option Scheduler
yields zero s = some s
yields (suc n) s = elim (sched_yield s) [ none ↦ none | some s' ↦ yields n s' ]

yields_step : (n : ℕ) (s s' : Scheduler) → sched_yield s ≡ some s' → yields (suc n) s ≡ yields n s'
unfolding yields
yields_step n s s' e = rw (e, yields) refl

-- While a thread runs and there is no idle thread, the thread at any place of the queue runs after
-- as many yields as there are threads before it, and one: none of them fails, and the queue then
-- holds those that waited after it, the thread that ran and those before it.
pub yields-IsTurn :
    (xs ys : List ℕ) (s : Scheduler) (c x : ℕ)
    → IsTurn s c (xs ++ (x ∷ ys))
    → (s' : Scheduler) × (yields (suc (length xs)) s ≡ some s') × IsTurn s' x (ys ++ (c ∷ xs))
unfolding yields
yields-IsTurn [] ys s c x t =
    let (s', e, t') = sched_yield-IsTurn s c x ys t in (s', yields_step 0 s s' e, t')
yields-IsTurn (y ∷ xs) ys s c x t =
    let (s', e, t') = sched_yield-IsTurn s c y (xs ++ (x ∷ ys)) t in
    let split : (xs ++ (x ∷ ys)) ++ (c ∷ []) ≡ xs ++ (x ∷ (ys ++ (c ∷ []))) =
      append_assoc xs (x ∷ ys) (c ∷ []) in
    let (s'', e', t'') = yields-IsTurn xs (ys ++ (c ∷ [])) s' y x (subst (IsTurn s' y) split t') in
    (
      s'',
      yields_step (suc (length xs)) s s' e ∙ e',
      subst (IsTurn s'' x) (append_assoc ys (c ∷ []) (y ∷ xs)) t'',
    )
