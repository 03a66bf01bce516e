-- ===== src/Threads/Segments.antt =====
-- Segments of a doubly linked queue.
use myria.Base.{
  ℕ, ◌≡◌, ◌≢◌, ◌⊎◌, inl, inr, refl, sym, subst, Bool-cases, ◌==◌, List, [], ◌∷◌, ◌++◌, update,
  update_self, update_ne, ne→==_false,
}
use mathlib.Core.List.{append_assoc}
use myria.Threads.{Thread, Store, link_next, link_prev}

-- From the address `first`, the threads `xs`, each pointing back to the one before it and the first
-- to `before`; the last of them, or `before`, is `last`, and its `next` is `exit`.
abbrev pub Seg : Store → ℕ → List ℕ → ℕ → ℕ → ℕ → Type 0
Seg st before [] first exit last = (first ≡ exit) × (last ≡ before)
Seg st before (x ∷ xs) first exit last =
    (first ≡ x) × (x ≢ 0) × ((st x).prev ≡ before) × Seg st x xs (st x).next exit last

abbrev pub Apart : ℕ → List ℕ → Type 0
Apart x [] = Unit {0}
Apart x (y ∷ ys) = (x ≢ y) × Apart x ys

abbrev pub Distinct : List ℕ → Type 0
Distinct [] = Unit {0}
Distinct (x ∷ xs) = Apart x xs × Distinct xs

pub Apart-append : (x : ℕ) (xs ys : List ℕ) → Apart x (xs ++ ys) → Apart x xs × Apart x ys
Apart-append x [] ys a = (tt, a)
Apart-append x (y ∷ xs) ys a = let r = Apart-append x xs ys a.1 in ((a.0, r.0), r.1)

pub append-Apart : (x : ℕ) (xs ys : List ℕ) → Apart x xs → Apart x ys → Apart x (xs ++ ys)
append-Apart x [] ys a b = b
append-Apart x (y ∷ xs) ys a b = (a.0, append-Apart x xs ys a.1 b)

-- A thread in the middle is apart from the others.
pub Distinct-middle :
    (xs ys : List ℕ) (t : ℕ)
    → Distinct (xs ++ (t ∷ ys))
    → Apart t xs × Apart t ys × Distinct (xs ++ ys)
Distinct-middle [] ys t d = (tt, d.0, d.1)
Distinct-middle (x ∷ xs) ys t d =
    let r = Distinct-middle xs ys t d.1 in
    let a = Apart-append x xs (t ∷ ys) d.0 in
    ((λ e. a.1.0 (sym e), r.0), r.1, (append-Apart x xs ys a.0 a.1.1, r.2))

pub middle-Distinct :
    (xs ys : List ℕ) (t : ℕ)
    → Apart t xs
    → Apart t ys
    → Distinct (xs ++ ys)
    → Distinct (xs ++ (t ∷ ys))
middle-Distinct [] ys t a b d = (b, d)
middle-Distinct (x ∷ xs) ys t a b d =
    let r = Apart-append x xs ys d.0 in
    (append-Apart x xs (t ∷ ys) r.0 ((λ e. a.0 (sym e)), r.1), middle-Distinct xs ys t a.1 b d.1)

-- A list is empty or has a last element.
pub data LastView : List ℕ → Type 0 where
  no_last : LastView []
  last_is : (xs : List ℕ) (z : ℕ) → LastView (xs ++ (z ∷ []))

LastView-cons : (x : ℕ) {xs : List ℕ} → LastView xs → LastView (x ∷ xs)
LastView-cons x no_last = last_is [] x
LastView-cons x (last_is ys z) = last_is (x ∷ ys) z

pub all-LastView : (xs : List ℕ) → LastView xs
all-LastView [] = no_last
all-LastView (x ∷ xs) = LastView-cons x (all-LastView xs)

module _ (st : Store) where
  pub Seg-split :
      (xs ys : List ℕ) (before first exit last : ℕ)
      → Seg st before (xs ++ ys) first exit last
      → (m : ℕ) × (k : ℕ) × Seg st before xs first m k × Seg st k ys m exit last
  Seg-split [] ys before first exit last s = (first, before, (refl, refl), s)
  Seg-split (x ∷ xs) ys before first exit last s =
      let (m, k, a, b) = Seg-split xs ys x (st x).next exit last s.3 in
      (m, k, (s.0, s.1, s.2, a), b)

  pub Seg-join :
      (xs ys : List ℕ) (before first exit last m k : ℕ)
      → Seg st before xs first m k
      → Seg st k ys m exit last
      → Seg st before (xs ++ ys) first exit last
  Seg-join [] ys before first exit last m k a b =
      rw (a.0) (subst (λ k'. Seg st k' ys m exit last) a.1 b)
  Seg-join (x ∷ xs) ys before first exit last m k a b =
      (a.0, a.1, a.2, Seg-join xs ys x (st x).next exit last m k a.3 b)

  -- A segment does not see a change elsewhere.
  pub Seg-update :
      (t : ℕ) (v : Thread) (xs : List ℕ) (before first exit last : ℕ)
      → Apart t xs
      → Seg st before xs first exit last
      → Seg (update st t v) before xs first exit last
  Seg-update t v [] before first exit last a s = s
  Seg-update t v (x ∷ xs) before first exit last a s =
      let same : update st t v x ≡ st x = update_ne st t x v a.0 in
      (s.0, s.1, rw same s.2, rw same (Seg-update t v xs x (st x).next exit last a.1 s.3))

-- The last thread of a queue, or NULL, is apart from what follows.
pub last-Apart :
    (st : Store) (xs ys : List ℕ) (first exit last : ℕ)
    → Seg st 0 xs first exit last
    → Distinct (xs ++ ys)
    → (last ≡ 0) ⊎ Apart last ys
last-Apart st xs ys first exit last s d = go (all-LastView xs) s d
  where
    go :
        {xs : List ℕ}
        → LastView xs
        → Seg st 0 xs first exit last
        → Distinct (xs ++ ys)
        → (last ≡ 0) ⊎ Apart last ys
    go no_last s d = inl s.1
    go (last_is zs z) s d =
        let (m, k, a, b) = Seg-split st zs (z ∷ []) 0 first exit last s in
        inr
          (rw (b.3.1) (Distinct-middle zs ys z (subst Distinct (append_assoc zs (z ∷ []) ys) d)).1)

module _ (st : Store) where
  -- The first half of an insertion or a removal: the queue up to `last` now leads to `after`.
  pub link_next-Seg :
      (xs : List ℕ) (first exit last after : ℕ)
      → Seg st 0 xs first exit last
      → Distinct xs
      → Seg (link_next st first last after).0 0 xs (link_next st first last after).1 after last
  unfolding link_next
  link_next-Seg xs first exit last after s d = go (all-LastView xs) s d
    where
      go :
          {xs : List ℕ}
          → LastView xs
          → Seg st 0 xs first exit last
          → Distinct xs
          → Seg (link_next st first last after).0 0 xs (link_next st first last after).1 after last
      go no_last s d = rw (s.1) (refl, refl)
      go (last_is zs z) s d =
          let (m, k, a, b) = Seg-split st zs (z ∷ []) 0 first exit last s in
          let v : Thread = record (st z) { next = after } in
          let new : update st z v z ≡ v = update_self st z v in
          rw (b.3.1, ne→==_false z 0 b.1)
            (Seg-join (update st z v) zs (z ∷ []) 0 first after z m k
              (Seg-update st z v zs 0 first m k (Distinct-middle zs [] z d).0 a)
              (b.0, b.1, rw new b.2, (rw new refl, refl)))

  pub link_next-elsewhere :
      (ys : List ℕ) (head last after before first exit end : ℕ)
      → (last ≡ 0) ⊎ Apart last ys
      → Seg st before ys first exit end
      → Seg (link_next st head last after).0 before ys first exit end
  unfolding link_next
  link_next-elsewhere ys head last after before first exit end (inl nothing) s = rw nothing s
  link_next-elsewhere ys head last after before first exit end (inr a) s =
      elim (Bool-cases (last == 0)) [
        | inl null ↦ rw null s
        | inr there ↦
            rw there
              (Seg-update st last (record (st last) { next = after }) ys before first exit end a s)
      ]

  -- The other half: the queue from `first` now starts after `before`.
  pub link_prev-Seg :
      (ys : List ℕ) (old first last before : ℕ)
      → Seg st old ys first 0 last
      → Distinct ys
      → Seg (link_prev st last first before).0 before ys first 0 (link_prev st last first before).1
  unfolding link_prev
  link_prev-Seg [] old first last before s d = rw (s.0) (refl, refl)
  link_prev-Seg (y ∷ ys) old first last before s d =
      let v : Thread = record (st y) { prev = before } in
      let new : update st y v y ≡ v = update_self st y v in
      let step : link_prev st last first before ≡ (update st y v, last) =
        rw (s.0, ne→==_false y 0 s.1) refl in
      let rest : Seg (update st y v) y ys (update st y v y).next 0 last =
        rw new (Seg-update st y v ys y (st y).next 0 last d.0 s.3) in
      subst (λ r. Seg r.0 before (y ∷ ys) first 0 r.1) (sym step) (s.0, s.1, rw new refl, rest)

  pub link_prev-elsewhere :
      (xs : List ℕ) (tail after before old first exit end : ℕ)
      → (after ≡ 0) ⊎ Apart after xs
      → Seg st old xs first exit end
      → Seg (link_prev st tail after before).0 old xs first exit end
  unfolding link_prev
  link_prev-elsewhere xs tail after before old first exit end (inl nothing) s = rw nothing s
  link_prev-elsewhere xs tail after before old first exit end (inr a) s =
      elim (Bool-cases (after == 0)) [
        | inl null ↦ rw null s
        | inr there ↦
            rw there
              (Seg-update st after (record (st after) { prev = before }) xs old first exit end a s)
      ]

  pub link_next_ne :
      (head last after t : ℕ) → (last ≡ 0) ⊎ (last ≢ t) → (link_next st head last after).0 t ≡ st t
  unfolding link_next
  link_next_ne head last after t (inl nothing) = rw nothing refl
  link_next_ne head last after t (inr ne) = elim (Bool-cases (last == 0)) [
    | inl null ↦ rw null refl
    | inr there ↦ rw there (update_ne st last t (record (st last) { next = after }) ne)
  ]

-- The first thread of a queue, or NULL, is apart from what comes before.
pub first-Apart :
    (st : Store) (xs ys : List ℕ) (before first last : ℕ)
    → Seg st before ys first 0 last
    → Distinct (xs ++ ys)
    → (first ≡ 0) ⊎ Apart first xs
first-Apart st xs [] before first last s d = inl s.0
first-Apart st xs (y ∷ ys) before first last s d = inr (rw (s.0) (Distinct-middle xs ys y d).0)

pub Distinct-append : (xs ys : List ℕ) → Distinct (xs ++ ys) → Distinct xs × Distinct ys
Distinct-append [] ys d = (tt, d)
Distinct-append (x ∷ xs) ys d =
    let r = Distinct-append xs ys d.1 in (((Apart-append x xs ys d.0).0, r.0), r.1)
