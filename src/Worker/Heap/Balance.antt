-- ===== src/Worker/Heap/Balance.antt =====
-- `jp_wrk_exec` frees what it allocates, each object once.
use jpipe.Common.{
  ℕ, ◌≡◌, refl, sym, ap, subst, ◌∙◌, inl, inr, Bool, List, [], ◌∷◌, none, if◌then◌else◌, ltb,
  Bool-cases, Bytes, codes,
}
use jpipe.Command.{cmd_count}
use jpipe.Errno.{Errno, is_ok}
use jpipe.Field.{field_set_create}
use jpipe.Memory.Heap.{Heap, pure, alloc, Owns, Ends, >>=-Ends, alloc-Owns}
use jpipe.Worker.{WorkerCtx, CliOption, Number, collect_cli_args, initial_ctx, verify}
use jpipe.Worker.Directory.{Files, create_and_normalize_out_dir}
use jpipe.Worker.Run.{Library, create_queue, wrk_exec, finalize_worker_args}
use jpipe.Worker.Start.{orchestrate_threads}
use jpipe.Worker.Heap.{
  Owned, create_dir_mem, create_queue_mem, if_ok, collect_cli_args_mem, clean_up_mem, run_threads,
  initial_owned, wrk_run_mem, wrk_exec_mem,
}
use jpipe.Worker.Heap.Paths.{Leaves, create_dir_mem-Leaves}
use jpipe.Worker.Heap.Options.{if_ok-Ends, collect_cli_args_mem-Leaves}
use jpipe.Worker.Heap.Queue.{
  QueueLeft, create_queue_mem-QueueLeft, clean_up_mem-Owns, run_threads-QueueLeft,
}

verify_assoc :
    (r : Errno × WorkerCtx) (f g : WorkerCtx → Errno × WorkerCtx)
    → verify (verify r f) g ≡ verify r (λ ctx. verify (f ctx) g)
verify_assoc r f g = elim (Bool-cases (is_ok r.0)) [
  | inl ok ↦ rw ok refl
  | inr failed ↦ rw (failed, failed) refl
]

module _ (strtoull : Bytes → Number) (options : List CliOption) (surplus : Bool) (files : Files)
    (l : Library) where
  -- `jp_wrk_exec` without its memory, behind the test for `--help`.
  abbrev wrk_run : Errno × WorkerCtx
  wrk_run = verify (collect_cli_args strtoull options surplus initial_ctx) (λ ctx.
      verify (finalize_worker_args files l ctx)
        (λ ready. if ready.dry_run then (Errno.ok, ready) else orchestrate_threads l.threads ready))

  abbrev parsed : Errno × WorkerCtx
  parsed = collect_cli_args strtoull options surplus initial_ctx

  abbrev place : WorkerCtx → Errno × WorkerCtx
  place ctx = (create_and_normalize_out_dir files ctx).0

  abbrev placed : Errno × WorkerCtx
  placed = verify parsed place

  abbrev prepared : Errno × WorkerCtx
  prepared = verify placed (create_queue l)

  abbrev start : WorkerCtx → Errno × WorkerCtx
  start ready = if ready.dry_run then (Errno.ok, ready) else orchestrate_threads l.threads ready

  wrk_run-prepared : wrk_run ≡ verify prepared start
  unfolding finalize_worker_args
  wrk_run-prepared = sym (
      ap (λ r. verify r start) (verify_assoc parsed place (create_queue l))
      ∙ verify_assoc parsed (λ ctx. verify (place ctx) (create_queue l)) start)

  parsed-Leaves :
      (set_at : ℕ) (h : Heap)
      → Owns (set_at ∷ []) h
      → Ends
          (Leaves none parsed)
          (collect_cli_args_mem strtoull options surplus (initial_owned set_at) h)
  unfolding field_set_create
  parsed-Leaves set_at h owns =
      collect_cli_args_mem-Leaves strtoull options surplus (initial_owned set_at) h
        (record { owns = owns; slots = refl })

  placed-Leaves :
      (e : Errno × Owned) (h : Heap)
      → Leaves none parsed e h
      → Ends (Leaves none placed) (if_ok (create_dir_mem files) e h)
  placed-Leaves e h k =
      if_ok-Ends (Leaves none) place (create_dir_mem files) parsed e h k.err_eq k.ctx_eq k (
        subst (λ queue_at. Ends (Leaves queue_at (place e.1.ctx)) (create_dir_mem files e.1 h))
          k.queue_eq (create_dir_mem-Leaves files e.1 h k.is_owned))

  prepared-QueueLeft :
      (e : Errno × Owned) (h : Heap)
      → Leaves none placed e h
      → Ends (QueueLeft prepared) (if_ok (create_queue_mem l) e h)
  prepared-QueueLeft e h k =
      if_ok-Ends QueueLeft (create_queue l) (create_queue_mem l) placed e h k.err_eq k.ctx_eq
        (k.is_owned.owns, k.err_eq, k.ctx_eq)
        (create_queue_mem-QueueLeft l e.1 h k.is_owned.owns k.queue_eq)

  started-QueueLeft :
      (e : Errno × Owned) (h : Heap)
      → QueueLeft prepared e h
      → Ends (QueueLeft (verify prepared start)) (if_ok (run_threads l) e h)
  started-QueueLeft e h k =
      if_ok-Ends QueueLeft start (run_threads l) prepared e h k.1 k.2 k
        (run_threads-QueueLeft l e.1 h k.0)

  wrk_run_mem-QueueLeft :
      (h : Heap)
      → Owns [] h
      → Ends (QueueLeft (verify prepared start)) (wrk_run_mem strtoull options surplus files l h)
  wrk_run_mem-QueueLeft h empty =
      let End = QueueLeft (verify prepared start) in
      >>=-Ends (λ set_at h'. Owns (set_at ∷ []) h') End alloc _ h (alloc-Owns [] h empty)
        (λ set_at h₁ o₁.
          >>=-Ends (Leaves none parsed) End
            (collect_cli_args_mem strtoull options surplus (initial_owned set_at)) _ h₁
            (parsed-Leaves set_at h₁ o₁)
            (λ e h₂ o₂.
              >>=-Ends (Leaves none placed) End (if_ok (create_dir_mem files) e) _ h₂
                (placed-Leaves e h₂ o₂)
                (λ e h₃ o₃.
                  >>=-Ends (QueueLeft prepared) End (if_ok (create_queue_mem l) e)
                    (if_ok (run_threads l)) h₃ (prepared-QueueLeft e h₃ o₃) started-QueueLeft)))

module _ (strtoull : Bytes → Number) (getopt : List Bytes → List CliOption × Bool) (files : Files)
    (l : Library) where
  -- Where nothing is allocated, jp_wrk_exec ends without freeing an object that is not allocated,
  -- for all arguments and all that the operating system and the threads return; it returns what
  -- the model without the memory returns, and at its end nothing is allocated. The objects are
  -- those of the main thread: the path, the set and its fields, the queue with its mutex and its
  -- condition variables.
  pub wrk_exec_mem-Ends :
      (argv : List Bytes) (h : Heap)
      → ((p : ℕ) → h.live p ≡ 0)
      → Ends
          (λ err h'. (err ≡ (wrk_exec strtoull getopt files l argv).0) × ((p : ℕ) → h'.live p ≡ 0))
          (wrk_exec_mem strtoull getopt files l argv h)
  unfolding wrk_exec wrk_exec_mem
  wrk_exec_mem-Ends argv h empty =
      let options = (getopt argv).0 in
      let surplus = (getopt argv).1 in
      let End = (λ (err : Errno) (h' : Heap).
        (err ≡ (wrk_run strtoull options surplus files l).0) × ((p : ℕ) → h'.live p ≡ 0)) in
      elim (Bool-cases (ltb 0 (cmd_count argv (codes "-h") (codes "--help")))) [
        | inl help ↦ rw help (refl, empty)
        | inr run ↦ rw run (
            >>=-Ends
              (QueueLeft (
                verify (prepared strtoull options surplus files l)
                  (start strtoull options surplus files l)))
              End (wrk_run_mem strtoull options surplus files l) _ h
              (wrk_run_mem-QueueLeft strtoull options surplus files l h empty)
              (λ r h' k.
                >>=-Ends (λ _ h''. Owns [] h'') End (clean_up_mem r.1) (λ _. pure r.0) h'
                  (clean_up_mem-Owns r.1 h' k.0)
                  (λ _ h'' none_left. (
                    k.1 ∙ ap (λ q. q.0) (sym (wrk_run-prepared strtoull options surplus files l)),
                    none_left,
                  ))))
      ]
