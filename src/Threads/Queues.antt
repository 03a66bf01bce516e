-- ===== src/Threads/Queues.antt =====
-- The ready queue as a list of threads.
use myria.Base.{
  ◌∙◌, ℕ, ◌≡◌, ◌≢◌, ◌⊎◌, inl, inr, refl, sym, subst, List, [], ◌∷◌, ◌++◌, update, update_self,
}
use mathlib.Core.List.{append-nil}
use myria.Threads.{
  Thread, Store, Scheduler, ready, link_next, link_prev, add_to_ready_queue,
  remove_from_ready_queue,
}
use myria.Threads.Segments.{
  Seg, Apart, Distinct, Distinct-middle, middle-Distinct, Seg-split, Seg-join, Seg-update,
  last-Apart, first-Apart, append-Apart, Distinct-append, link_next_ne, link_next-Seg,
  link_next-elsewhere, link_prev-Seg, link_prev-elsewhere,
}

-- The ready queue of `s` holds the threads `xs`, the head first.
pub record IsQueue (s : Scheduler) (xs : List ℕ) : Type 0 where
  pub linked : Seg s.store 0 xs s.ready_queue_head 0 s.ready_queue_tail
  pub distinct : Distinct xs

-- Adding a thread that is not in the queue puts it at the end.
pub add_to_ready_queue-IsQueue :
    (s : Scheduler) (xs : List ℕ) (t : ℕ)
    → IsQueue s xs
    → t ≢ 0
    → Apart t xs
    → IsQueue (add_to_ready_queue t s) (xs ++ (t ∷ []))
unfolding add_to_ready_queue
add_to_ready_queue-IsQueue s xs t q pos apart = record {
  linked =
      Seg-join (link_next st₁ s.ready_queue_head s.ready_queue_tail t).0 xs (t ∷ []) 0 _ 0 t t
        s.ready_queue_tail
        (link_next-Seg st₁ xs s.ready_queue_head 0 s.ready_queue_tail t queue q.distinct)
        (link_next-elsewhere st₁ (t ∷ []) s.ready_queue_head s.ready_queue_tail t s.ready_queue_tail
          t 0 t
          (last-Apart s.store xs (t ∷ []) s.ready_queue_head 0 s.ready_queue_tail q.linked
            apart_all)
          (refl, pos, rw new refl, (rw new refl, refl)));
  distinct = apart_all;
}
  where
    apart_all : Distinct (xs ++ (t ∷ []))
    apart_all = middle-Distinct xs [] t apart tt (subst Distinct (sym (append-nil xs)) q.distinct)

    v : Thread
    v = record (s.store t) { state = ready; next = 0; prev = s.ready_queue_tail }

    st₁ : Store
    st₁ = update s.store t v

    new : st₁ t ≡ v
    new = update_self s.store t v

    queue : Seg st₁ 0 xs s.ready_queue_head 0 s.ready_queue_tail
    queue = Seg-update s.store t v xs 0 s.ready_queue_head 0 s.ready_queue_tail apart q.linked

-- The control block of the thread added.
pub add_to_ready_queue_block :
    (s : Scheduler) (xs : List ℕ) (t : ℕ)
    → IsQueue s xs
    → Apart t xs
    → (add_to_ready_queue t s).store t
      ≡ record (s.store t) { state = ready; next = 0; prev = s.ready_queue_tail }
unfolding add_to_ready_queue
add_to_ready_queue_block s xs t q apart =
    let v : Thread = record (s.store t) { state = ready; next = 0; prev = s.ready_queue_tail } in
    let all : Distinct (xs ++ (t ∷ [])) =
      middle-Distinct xs [] t apart tt (subst Distinct (sym (append-nil xs)) q.distinct) in
    let other : (s.ready_queue_tail ≡ 0) ⊎ (s.ready_queue_tail ≢ t) =
      elim (last-Apart s.store xs (t ∷ []) s.ready_queue_head 0 s.ready_queue_tail q.linked all) [
        | inl e ↦ inl e
        | inr c ↦ inr c.0
      ] in
    link_next_ne (update s.store t v) s.ready_queue_head s.ready_queue_tail t t other
    ∙ update_self s.store t v

module _ (st : Store) (xs ys : List ℕ) (t head tail m k n : ℕ) (v : Thread)
    (d : Distinct (xs ++ (t ∷ ys))) (a : Seg st 0 xs head m k) (b : Seg st t ys n 0 tail) where
  abbrev r : Store × ℕ
  r = link_next st head k n

  abbrev p : Store × ℕ
  p = link_prev r.0 tail n k

  middle : Apart t xs × Apart t ys × Distinct (xs ++ ys)
  middle = Distinct-middle xs ys t d

  k-Apart : (k ≡ 0) ⊎ Apart k (t ∷ ys)
  k-Apart = last-Apart st xs (t ∷ ys) head m k a d

  rest-Apart : (k ≡ 0) ⊎ Apart k ys
  rest-Apart = elim k-Apart [ inl e ↦ inl e | inr c ↦ inr c.1 ]

  same_thread : r.0 t ≡ st t
  same_thread = link_next_ne st head k n t (elim k-Apart [ inl e ↦ inl e | inr c ↦ inr c.0 ])

  -- The two halves of the removal join what is left.
  unlinked-Seg : Seg (update p.0 t v) 0 (xs ++ ys) r.1 0 p.1
  unlinked-Seg =
      let ds = Distinct-append xs ys middle.2 in
      let later : Seg r.0 t ys n 0 tail =
        link_next-elsewhere st ys head k n t n 0 tail rest-Apart b in
      let front : Seg p.0 0 xs r.1 n k =
        link_prev-elsewhere r.0 xs tail n k 0 r.1 n k (first-Apart st xs ys t n tail b middle.2)
          (link_next-Seg st xs head m k n a ds.0) in
      let back : Seg p.0 k ys n 0 p.1 = link_prev-Seg r.0 ys t n tail k later ds.1 in
      Seg-update p.0 t v (xs ++ ys) 0 r.1 0 p.1 (append-Apart t xs ys middle.0 middle.1)
        (Seg-join p.0 xs ys 0 r.1 0 p.1 n k front back)

-- Removing a thread from anywhere in the doubly linked ready queue leaves a well-linked queue of
-- the other threads, in their order.
pub remove_from_ready_queue-IsQueue :
    (s : Scheduler) (xs ys : List ℕ) (t : ℕ)
    → IsQueue s (xs ++ (t ∷ ys))
    → IsQueue (remove_from_ready_queue t s) (xs ++ ys)
unfolding remove_from_ready_queue
remove_from_ready_queue-IsQueue s xs ys t q =
    let (m, k, a, b) =
      Seg-split s.store xs (t ∷ ys) 0 s.ready_queue_head 0 s.ready_queue_tail q.linked in
    let st = s.store in
    let n : ℕ = (st t).next in
    let same =
      same_thread st xs ys t s.ready_queue_head s.ready_queue_tail m k n (st t) q.distinct a b.3 in
    record {
      linked =
          rw (b.2, same, b.2)
            (unlinked-Seg st xs ys t s.ready_queue_head s.ready_queue_tail m k n _ q.distinct a
              b.3);
      distinct = (Distinct-middle xs ys t q.distinct).2;
    }
