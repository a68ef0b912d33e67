-- ===== src/Queue/Objects.antt =====
-- The objects of a queue: its memory, its mutex and its two condition variables, as `jp_queue_create` makes
-- them and `jp_queue_destroy` gives them back.
use jpipe.Common.{
  ℕ, refl, inl, inr, not, List, [], ◌∷◌, ◌++◌, Option, none, some, arith, ◌==◌, if◌then◌else◌,
  Bool-cases,
}
use jpipe.Memory.Heap.{
  Heap, Mem, pure, ◌>>=◌, ◌>>◌, alloc, free, Owns, Ends, >>=-Ends, alloc-Owns, free-Owns,
}

pub record QueueAt : Type 0 where
  pub queue : ℕ
  pub lock : ℕ
  pub not_empty : ℕ
  pub not_full : ℕ

abbrev pub queue_objects : Option QueueAt → List ℕ
queue_objects none = []
queue_objects (some q) = q.not_full ∷ q.not_empty ∷ q.lock ∷ q.queue ∷ []

-- The labels of `jp_queue_create`.
abbrev pub at_clean_up : ℕ → Mem (Option QueueAt)
at_clean_up queue = free queue >> pure none

abbrev pub at_clean_up_lock : ℕ → ℕ → Mem (Option QueueAt)
at_clean_up_lock queue lock = free lock >> at_clean_up queue

abbrev pub at_clean_up_cond : ℕ → ℕ → ℕ → Mem (Option QueueAt)
at_clean_up_cond queue lock not_empty = free not_empty >> at_clean_up_lock queue lock

-- `jp_queue_create`, on the statuses of the three initialisations: each makes an object where it succeeds.
unfoldable pub queue_create_mem : (lock not_empty not_full : ℕ) → Mem (Option QueueAt)
queue_create_mem lock not_empty not_full = alloc >>= λ queue.
    if not (lock == 0)
    then at_clean_up queue
    else alloc >>= λ lock_at.
        if not (not_empty == 0)
        then at_clean_up_lock queue lock_at
        else alloc >>= λ not_empty_at.
            if not (not_full == 0)
            then at_clean_up_cond queue lock_at not_empty_at
            else alloc >>= λ not_full_at. pure (
                some (record {
                  queue = queue;
                  lock = lock_at;
                  not_empty = not_empty_at;
                  not_full = not_full_at;
                }))

-- `jp_queue_destroy`.
abbrev pub queue_destroy_mem : Option QueueAt → Mem (Unit {0})
queue_destroy_mem none = pure tt
queue_destroy_mem (some q) = do free q.lock; free q.not_empty; free q.not_full; free q.queue

module _ (ps : List ℕ) where
  abbrev Made : Option QueueAt → Heap → Type 0
  Made q h = Owns (queue_objects q ++ ps) h

  at_clean_up-Made : (queue : ℕ) (h : Heap) → Owns (queue ∷ ps) h → Ends Made (at_clean_up queue h)
  at_clean_up-Made queue h owns =
      >>=-Ends (λ _ h'. Owns ps h') Made (free queue) (λ _. pure none) h
        (free-Owns queue ps (queue ∷ ps) h owns (λ q. refl)) (λ _ h' freed. freed)

  at_clean_up_lock-Made :
      (queue lock : ℕ) (h : Heap)
      → Owns (lock ∷ queue ∷ ps) h
      → Ends Made (at_clean_up_lock queue lock h)
  at_clean_up_lock-Made queue lock h owns =
      >>=-Ends (λ _ h'. Owns (queue ∷ ps) h') Made (free lock) (λ _. at_clean_up queue) h
        (free-Owns lock (queue ∷ ps) (lock ∷ queue ∷ ps) h owns (λ q. refl))
        (λ _ h' freed. at_clean_up-Made queue h' freed)

  at_clean_up_cond-Made :
      (queue lock not_empty : ℕ) (h : Heap)
      → Owns (not_empty ∷ lock ∷ queue ∷ ps) h
      → Ends Made (at_clean_up_cond queue lock not_empty h)
  at_clean_up_cond-Made queue lock not_empty h owns =
      >>=-Ends (λ _ h'. Owns (lock ∷ queue ∷ ps) h') Made (free not_empty)
        (λ _. at_clean_up_lock queue lock) h
        (free-Owns not_empty (lock ∷ queue ∷ ps) (not_empty ∷ lock ∷ queue ∷ ps) h owns (λ q. refl))
        (λ _ h' freed. at_clean_up_lock-Made queue lock h' freed)

  pub queue_create_mem-Owns :
      (lock not_empty not_full : ℕ) (h : Heap)
      → Owns ps h
      → Ends (λ q h'. Owns (queue_objects q ++ ps) h') (queue_create_mem lock not_empty not_full h)
  unfolding queue_create_mem
  queue_create_mem-Owns lock not_empty not_full h owns =
      >>=-Ends (λ queue h'. Owns (queue ∷ ps) h') Made alloc _ h (alloc-Owns ps h owns)
        (λ queue h₁ o₁. elim (Bool-cases (lock == 0)) [
          | inr failed ↦ rw failed (at_clean_up-Made queue h₁ o₁)
          | inl locked ↦ rw locked (
              >>=-Ends (λ lock_at h'. Owns (lock_at ∷ queue ∷ ps) h') Made alloc _ h₁
                (alloc-Owns (queue ∷ ps) h₁ o₁)
                (λ lock_at h₂ o₂. elim (Bool-cases (not_empty == 0)) [
                  | inr failed ↦ rw failed (at_clean_up_lock-Made queue lock_at h₂ o₂)
                  | inl made ↦ rw made (last queue lock_at h₂ o₂)
                ]))
        ])
    where
      last :
          (queue lock_at : ℕ) (h₂ : Heap)
          → Owns (lock_at ∷ queue ∷ ps) h₂
          → Ends Made (
              (alloc >>= λ not_empty_at.
              if not (not_full == 0)
              then at_clean_up_cond queue lock_at not_empty_at
              else alloc >>= λ not_full_at. pure (
                  some (record {
                    queue = queue;
                    lock = lock_at;
                    not_empty = not_empty_at;
                    not_full = not_full_at;
                  })))
                h₂)
      last queue lock_at h₂ o₂ =
          >>=-Ends (λ at h'. Owns (at ∷ lock_at ∷ queue ∷ ps) h') Made alloc _ h₂
            (alloc-Owns (lock_at ∷ queue ∷ ps) h₂ o₂)
            (λ at h₃ o₃. elim (Bool-cases (not_full == 0)) [
              | inr failed ↦ rw failed (at_clean_up_cond-Made queue lock_at at h₃ o₃)
              | inl made ↦ rw made (
                  >>=-Ends (λ full_at h'. Owns (full_at ∷ at ∷ lock_at ∷ queue ∷ ps) h') Made alloc
                    _ h₃ (alloc-Owns (at ∷ lock_at ∷ queue ∷ ps) h₃ o₃) (λ full_at h₄ o₄. o₄))
            ])

pub queue_destroy_mem-Owns :
    (q : Option QueueAt) (h : Heap)
    → Owns (queue_objects q) h
    → Ends (λ _ h'. Owns [] h') (queue_destroy_mem q h)
queue_destroy_mem-Owns none h owns = owns
queue_destroy_mem-Owns (some q) h owns =
    let End = (λ (_ : Unit {0}) (h' : Heap). Owns [] h') in
    >>=-Ends (λ _ h'. Owns (q.not_empty ∷ q.not_full ∷ q.queue ∷ []) h') End (free q.lock) _ h
      (free-Owns q.lock (q.not_empty ∷ q.not_full ∷ q.queue ∷ []) (queue_objects (some q)) h owns
        (λ p. omega arith))
      (λ _ h₁ o₁.
        >>=-Ends (λ _ h'. Owns (q.not_full ∷ q.queue ∷ []) h') End (free q.not_empty) _ h₁
          (free-Owns q.not_empty (q.not_full ∷ q.queue ∷ [])
            (q.not_empty ∷ q.not_full ∷ q.queue ∷ []) h₁ o₁ (λ p. refl))
          (λ _ h₂ o₂.
            >>=-Ends (λ _ h'. Owns (q.queue ∷ []) h') End (free q.not_full) _ h₂
              (free-Owns q.not_full (q.queue ∷ []) (q.not_full ∷ q.queue ∷ []) h₂ o₂ (λ p. refl))
              (λ _ h₃ o₃. free-Owns q.queue [] (q.queue ∷ []) h₃ o₃ (λ p. refl))))
