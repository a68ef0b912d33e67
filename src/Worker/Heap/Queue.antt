-- ===== src/Worker/Heap/Queue.antt =====
-- The object of the queue, and `clean_up`.
use jpipe.Common.{◌≡◌, refl, ap, inl, inr, [], ◌∷◌, ◌++◌, none, arith, if◌then◌else◌, Bool-cases}
use jpipe.Errno.{Errno}
use jpipe.Memory.Heap.{
  Heap, free, mem_free, free_all, count, count-append, Owns, Ends, >>=-Ends, free-Owns,
  mem_free-Owns, free_all-Owns,
}
use jpipe.Queue.Objects.{
  queue_objects, queue_create_mem, queue_create_mem-Owns, queue_destroy_mem-Owns,
}
use jpipe.Worker.{WorkerCtx}
use jpipe.Worker.Run.{Library, create_queue}
use jpipe.Worker.Start.{orchestrate_threads}
use jpipe.Worker.Heap.{Owned, owned, create_queue_mem, clean_up_mem, run_threads}
use jpipe.Worker.Heap.Paths.{count-owned}

-- The function leaves its result, and a context that owns its objects.
abbrev pub QueueLeft : Errno × WorkerCtx → Errno × Owned → Heap → Type 0
QueueLeft r e h = Owns (owned e.1) h × (e.0 ≡ r.0) × (e.1.ctx ≡ r.1)

pub create_queue_mem-QueueLeft :
    (l : Library) (o : Owned) (h : Heap)
    → Owns (owned o) h
    → o.queue_at ≡ none
    → Ends (QueueLeft (create_queue l o.ctx)) (create_queue_mem l o h)
unfolding create_queue_mem
create_queue_mem-QueueLeft l o h owns no_queue =
    let r = create_queue l o.ctx in
    >>=-Ends (λ queue_at h'. Owns (queue_objects queue_at ++ owned o) h') (QueueLeft r)
      (queue_create_mem l.lock l.not_empty l.not_full) _ h
      (queue_create_mem-Owns (owned o) l.lock l.not_empty l.not_full h owns)
      (λ queue_at h' owns'. (
        λ q. omega (
          arith,
          owns' q,
          ap (λ old. count q (queue_objects old)) no_queue,
          count-append q (queue_objects queue_at) (owned o),
          count-owned q o,
          count-owned q (record o { ctx = r.1; queue_at = queue_at }),
        ),
        refl,
        refl,
      ))

pub clean_up_mem-Owns :
    (o : Owned) (h : Heap) → Owns (owned o) h → Ends (λ _ h'. Owns [] h') (clean_up_mem o h)
unfolding clean_up_mem
clean_up_mem-Owns o h owns =
    let End = (λ (_ : Unit {0}) (h' : Heap). Owns [] h') in
    >>=-Ends (λ _ h'. Owns (o.set_at ∷ (o.field_ats ++ queue_objects o.queue_at)) h') End
      (mem_free o.out_dir_at) _ h
      (mem_free-Owns o.out_dir_at (o.set_at ∷ (o.field_ats ++ queue_objects o.queue_at)) (owned o) h
        owns (λ q. refl))
      (λ _ h₁ o₁.
        >>=-Ends (λ _ h'. Owns (o.set_at ∷ queue_objects o.queue_at) h') End (free_all o.field_ats)
          _ h₁
          (free_all-Owns o.field_ats (o.set_at ∷ queue_objects o.queue_at)
            (o.set_at ∷ (o.field_ats ++ queue_objects o.queue_at)) h₁ o₁
            (λ q. omega (
              arith,
              count-append q o.field_ats (queue_objects o.queue_at),
              count-append q o.field_ats (o.set_at ∷ queue_objects o.queue_at),
            )))
          (λ _ h₂ o₂.
            >>=-Ends (λ _ h'. Owns (queue_objects o.queue_at) h') End (free o.set_at) _ h₂
              (free-Owns o.set_at (queue_objects o.queue_at) (o.set_at ∷ queue_objects o.queue_at)
                h₂ o₂ (λ q. refl))
              (λ _ h₃ o₃. queue_destroy_mem-Owns o.queue_at h₃ o₃)))

pub run_threads-QueueLeft :
    (l : Library) (o : Owned) (h : Heap)
    → Owns (owned o) h
    → Ends
        (QueueLeft
          (if o.ctx.dry_run then (Errno.ok, o.ctx) else orchestrate_threads l.threads o.ctx))
        (run_threads l o h)
run_threads-QueueLeft l o h owns = elim (Bool-cases o.ctx.dry_run) [
  | inl dry ↦ rw dry (owns, refl, refl)
  | inr wet ↦ rw wet (owns, refl, refl)
]
