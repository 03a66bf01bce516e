-- ===== src/Sched/Names.antt =====
-- The name that `thread_create` stores, in thread_minimal.c and in thread.c.
use myria.Base.{
  ℕ, zero, suc, ◌+◌, ◌≤◌, ◌<◌, ◌≡◌, ◌≢◌, ◌⊎◌, ◌∙◌, inl, inr, refl, ap, subst, arith, Option, none,
  some, ◌==◌, ne→==_false, update, update_self, update_ne,
}
use native.Mathlib.Decide.{ℕ_discrete}
use myria.Sched.State.{clear_name_from}
use myria.Sched.Create.{copy_name_from, thread_name}

-- Character `k` of a copy of `str`, from index `i` and of `left` characters at most: it is 0, from
-- the terminator or from the end of the room on, and before both it is the string's.
abbrev IsCopy : (ℕ → ℕ) → (ℕ → ℕ) → ℕ → ℕ → ℕ → Type 0
IsCopy str chars i left k =
    ((chars k ≡ 0) × ((k ≡ i + left) ⊎ ((j : ℕ) × (i ≤ j) × (j ≤ k) × (str j ≡ 0))))
    ⊎ ((chars k ≡ str k) × (k < i + left) × ((j : ℕ) → i ≤ j → j ≤ k → str j ≢ 0))

-- The 32 characters of a thread's name: all 0 where no name is given; else the string up to its
-- terminator, of which 31 characters are kept, and 0 from there on.
abbrev pub IsName : Option (ℕ → ℕ) → (ℕ → ℕ) → Type 0
IsName none chars = (k : ℕ) → k < 32 → chars k ≡ 0
IsName (some str) chars = (k : ℕ) → k < 32 → IsCopy str chars 0 31 k

cleared_name :
    (left i : ℕ) (name : ℕ → ℕ) (k : ℕ)
    → ((i ≤ k) × (k < i + left)) ⊎ (name k ≡ 0)
    → clear_name_from name i left k ≡ 0
unfolding clear_name_from
cleared_name zero i name k (inl (a, b)) = absurd (omega arith)
cleared_name zero i name k (inr done) = done
cleared_name (suc left) i name k why = cleared_name left (i + 1) _ k (elim (ℕ_discrete i k) [
  | yes here ↦ inr (subst (λ j. update name i 0 j ≡ 0) here (update_self name i 0))
  | no there ↦ elim why [
    | inl (a, b) ↦ inl (omega arith, omega arith)
    | inr done ↦ inr (update_ne name i k 0 there ∙ done)
  ]
])

copy_name_kept :
    (str : ℕ → ℕ) (left i : ℕ) (to : ℕ → ℕ) (k : ℕ) → k < i → copy_name_from to str i left k ≡ to k
unfolding copy_name_from
copy_name_kept str zero i to k before = refl
copy_name_kept str (suc left) i to k before = elim (ℕ_discrete (str i) 0) [
  | yes ends ↦ rw (ap (λ n. n == 0) ends) refl
  | no more ↦ rw (ne→==_false (str i) 0 more) (
      copy_name_kept str left (i + 1) (update to i (str i)) k (omega arith)
      ∙ update_ne to i k (str i) (λ e. omega arith))
]

-- A copy whose first character is there, and the rest.
IsCopy-next :
    (str chars : ℕ → ℕ) (i left k : ℕ)
    → str i ≢ 0
    → i < k
    → IsCopy str chars (i + 1) left k
    → IsCopy str chars i (suc left) k
IsCopy-next str chars i left k more after (inl (e, inl end)) = inl (e, inl (omega arith))
IsCopy-next str chars i left k more after (inl (e, inr (j, a, b, z))) =
    inl (e, inr (j, omega arith, b, z))
IsCopy-next str chars i left k more after (inr (e, lt, all)) = inr (
  e,
  omega arith,
  λ j a b. elim (ℕ_discrete i j) [
    | yes here ↦ subst (λ n. str n ≢ 0) here more
    | no there ↦ all j (omega arith) b
  ],
)

copy_name_from-IsCopy :
    (str : ℕ → ℕ) (left i : ℕ) (to : ℕ → ℕ)
    → ((k : ℕ) → i ≤ k → k ≤ i + left → to k ≡ 0)
    → (k : ℕ) → i ≤ k
    → k ≤ i + left
    → IsCopy str (copy_name_from to str i left) i left k
unfolding copy_name_from
copy_name_from-IsCopy str zero i to empty k from within =
    inl (empty k from within, inl (omega arith))
copy_name_from-IsCopy str (suc left) i to empty k from within = elim (ℕ_discrete (str i) 0) [
  | yes ends ↦
      rw (ap (λ n. n == 0) ends) (inl (empty k from within, inr (i, omega arith, from, ends)))
  | no more ↦ rw (ne→==_false (str i) 0 more) (elim (ℕ_discrete i k) [
    | yes here ↦ inr (
      subst (λ n. copy_name_from (update to i (str i)) str (i + 1) left n ≡ str n) here
          (copy_name_kept str left (i + 1) (update to i (str i)) i (omega arith)
            ∙ update_self to i (str i)),
      omega arith,
      λ j a b. let e : i ≡ j = omega arith in subst (λ n. str n ≢ 0) e more,
    )
    | no there ↦
        IsCopy-next str (copy_name_from (update to i (str i)) str (i + 1) left) i left k more
          (omega arith)
          (copy_name_from-IsCopy str left (i + 1) (update to i (str i))
            (λ n a b.
              update_ne to i n (str i) (λ e. omega arith) ∙ empty n (omega arith) (omega arith))
            k (omega arith) (omega arith))
  ])
]

pub thread_name-IsName : (old : ℕ → ℕ) (name : Option (ℕ → ℕ)) → IsName name (thread_name old name)
thread_name-IsName old none = λ k lt. cleared_name 32 0 old k (inl (omega arith, omega arith))
thread_name-IsName old (some str) = λ k lt.
    copy_name_from-IsCopy str 31 0 (clear_name_from old 0 32)
      (λ n a b. cleared_name 32 0 old n (inl (omega arith, omega arith))) k (omega arith)
      (omega arith)
