-- ===== src/Threads/Spawn.antt =====
-- `thread_create` of thread.c.
use myria.Base.{
  ◌-◌, ◌%◌, ◌^◌, ◌<◌, sym, subst, ap, ◌≡◌, ◌⊎◌, inl, inr, refl, ◌≤◌, ◌∙◌, update_self, ℕ, ◌+◌, ◌≢◌,
  arith, Bool-cases, Option, List, [], ◌∷◌, ◌++◌, update, leb, ◌==◌, u32,
}
use myria.Sched.Names.{IsName, thread_name-IsName}
use myria.Heap.{Heap, kmalloc}
use myria.Threads.{
  ready, add_to_ready_queue, Thread, Scheduler, max_threads, thread_size, stack_bytes,
  record_thread, fresh_thread, thread_create,
}
use myria.Threads.Table.{
  Recorded, in_slot, nowhere, record_thread-IsQueue, record_thread_kept, record_thread-Recorded,
  others_kept,
}
use myria.Threads.Segments.{Apart, Seg-update}
use myria.Threads.Queues.{IsQueue, add_to_ready_queue-IsQueue, add_to_ready_queue_block}

-- The control block of a thread that has not run and stands at the end of the queue.
pub record IsNewBlock (wrapper tid entry_point arg stack tail : ℕ) (name : Option (ℕ → ℕ))
    (b : Thread) : Type 0 where
  pub number : b.tid ≡ tid
  pub process : b.pid ≡ 0
  pub is_ready : b.state ≡ ready
  pub priority : b.priority ≡ 2
  pub slice : b.time_slice ≡ 10
  pub runtime : b.total_runtime ≡ 0
  pub scheduled : b.last_scheduled ≡ 0
  pub rip : b.context.rip ≡ wrapper
  pub rdi : b.context.rdi ≡ entry_point
  pub rsi : b.context.rsi ≡ arg
  pub rsp : stack + 8192 < 2 ^ 64 → b.context.rsp ≡ stack + 8192 - 8
  pub rflags : b.context.rflags ≡ 0x202
  pub segments : (b.context.cs ≡ 0x08) × (b.context.ss ≡ 0x10)
  pub base : (b.stack_base ≡ stack) × (b.kernel_stack ≡ stack) × (b.stack_size ≡ 8192)
  pub last : (b.prev ≡ tail) × (b.next ≡ 0)
  pub named : IsName name b.name

fresh_thread-IsNewBlock :
    (wrapper entry_point arg stack : ℕ) (name : Option (ℕ → ℕ)) (tid : ℕ) (old : ℕ → ℕ) (tail : ℕ)
    → IsNewBlock wrapper tid entry_point arg stack tail name
        (record (fresh_thread wrapper entry_point arg stack name tid old) { prev = tail })
fresh_thread-IsNewBlock wrapper entry_point arg stack name tid old tail = record {
  number = refl;
  process = refl;
  is_ready = refl;
  priority = refl;
  slice = refl;
  runtime = refl;
  scheduled = refl;
  rip = refl;
  rdi = refl;
  rsi = refl;
  rsp = λ fits. omega arith;
  rflags = refl;
  segments = (refl, refl);
  base = (refl, refl, refl);
  last = (refl, refl);
  named = thread_name-IsName old name;
}

-- The control block as it stands in the queue.
added_block :
    (s : Scheduler) (xs : List ℕ) (t : ℕ) (block : Thread)
    → IsQueue s xs
    → Apart t xs
    → s.store t ≡ block
    → (add_to_ready_queue t (record_thread t s)).store t
      ≡ record block { state = ready; next = 0; prev = s.ready_queue_tail }
added_block s xs t block q apart here =
    let k = record_thread_kept t s in
    add_to_ready_queue_block (record_thread t s) xs t (record_thread-IsQueue t s xs q) apart
    ∙ rw (k.0, k.1, here) refl

module _ (wrapper entry_point arg : ℕ) (name : Option (ℕ → ℕ)) (s : Scheduler) (heap : Heap) where
  -- The address of the new control block, and of its stack.
  abbrev pub block_address : ℕ
  block_address = (kmalloc heap thread_size).0

  abbrev pub stack_address : ℕ
  stack_address = (kmalloc (kmalloc heap thread_size).1 stack_bytes).0

  -- The call returned 0 and left the scheduler alone, since the table is full or memory has run out;
  -- or it returned the next number, filled in the control block, noted it in the table and put the
  -- thread at the end of the queue.
  pub data CreateResult (xs : List ℕ) : ℕ × Scheduler × Heap → Type 0 where
    refused :
        (after : Heap)
        → (8 ≤ s.thread_count) ⊎ (block_address ≡ 0) ⊎ (stack_address ≡ 0)
        → CreateResult xs (0, s, after)
    created :
        (s' : Scheduler) (after : Heap)
        → s.thread_count < 8
        → block_address ≢ 0
        → stack_address ≢ 0
        → IsNewBlock wrapper s.next_tid entry_point arg stack_address s.ready_queue_tail name
            (s'.store block_address)
        → Recorded block_address s s'
        → (s'.next_tid ≡ (s.next_tid + 1) % 2 ^ 32) × (s'.current_thread ≡ s.current_thread)
        → IsQueue s' (xs ++ (block_address ∷ []))
        → CreateResult xs (s.next_tid, s', after)

  Recorded-created :
      (s₁ s' : Scheduler)
      → s₁.thread_table ≡ s.thread_table
      → s₁.thread_count ≡ s.thread_count
      → Recorded block_address s₁ s'
      → Recorded block_address s s'
  Recorded-created s₁ s' table count (in_slot i a b e before here others more) =
      in_slot i a b (ap (λ (f : ℕ → ℕ). f i) (sym table) ∙ e) (λ j p q. rw table at (before j p q))
        here (λ j ne. others j ne ∙ ap (λ (f : ℕ → ℕ). f j) table) (rw count at more)
  Recorded-created s₁ s' table count (nowhere all same_table same_count) =
      nowhere (λ j p q. rw table at (all j p q)) (same_table ∙ table) (same_count ∙ count)

  -- If `kmalloc` gives an address that no waiting thread has, `thread_create` either returns 0 and
  -- leaves the scheduler as it was, because the table counts 8 threads or memory has run out; or the
  -- table counts fewer and it returns the next number, moves the number on, fills in the control
  -- block for the function, the argument and the name given, puts the thread at the end of the queue
  -- and notes it in the lowest free slot of the table from 1 on, where there is one.
  pub thread_create-CreateResult :
      (xs : List ℕ)
      → IsQueue s xs
      → Apart block_address xs
      → CreateResult xs (thread_create wrapper entry_point arg name s heap)
  unfolding thread_create
  thread_create-CreateResult xs q apart =
      let t : ℕ = block_address in
      let block : Thread =
        fresh_thread wrapper entry_point arg stack_address name s.next_tid (s.store t).name in
      let s₁ : Scheduler = record s {
        store = update s.store t block;
        next_tid = u32 (s.next_tid + 1);
      } in
      elim (Bool-cases (leb max_threads s.thread_count)) [
        | inl at_limit ↦ rw at_limit (refused heap (inl (ground arith)))
        | inr room ↦ elim (Bool-cases (t == 0)) [
          | inl no_block ↦ rw (room, no_block) (refused _ (inr (inl (ground arith))))
          | inr block_there ↦ elim (Bool-cases (stack_address == 0)) [
            | inl no_stack ↦ rw (room, block_there, no_stack) (refused _ (inr (inr (ground arith))))
            | inr stack_there ↦
                let q₁ : IsQueue s₁ xs = record {
                  linked =
                      Seg-update s.store t block xs 0 s.ready_queue_head 0 s.ready_queue_tail apart
                        q.linked;
                  distinct = q.distinct;
                } in
                let pos : t ≢ 0 = λ e. ground arith in
                rw (room, block_there, stack_there)
                  (created _ _ (ground arith) pos (λ e. ground arith)
                    (subst
                      (IsNewBlock wrapper s.next_tid entry_point arg stack_address
                        s.ready_queue_tail name)
                      (sym (added_block s₁ xs t block q₁ apart (update_self s.store t block)))
                      (fresh_thread-IsNewBlock wrapper entry_point arg stack_address name s.next_tid
                        (s.store t).name s.ready_queue_tail))
                    (Recorded-created s₁ _ refl refl (record_thread-Recorded t s₁))
                    (others_kept t s₁)
                    (add_to_ready_queue-IsQueue (record_thread t s₁) xs t
                      (record_thread-IsQueue t s₁ xs q₁) pos apart))
          ]
        ]
      ]
