-- ===== src/Worker/Run.antt =====
-- `finalize_worker_args` and `jp_wrk_exec`: from the arguments to the threads.
use jpipe.Common.{
  ℕ, ◌+◌, ◌^◌, ◌<◌, ◌≡◌, refl, sym, ap, Bool, true, List, [], Option, none, some, arith, All, ltb,
  if◌then◌else◌, Bytes, codes,
}
use jpipe.Command.{cmd_count}
use jpipe.Errno.{Errno}
use jpipe.Queue.{Queue, queue_create}
use jpipe.Queue.Inv.{IsQueue, contents, queue_create-IsQueue}
use jpipe.Worker.{WorkerCtx, CliOption, Number, verify, collect_cli_args, initial_ctx}
use jpipe.Worker.Directory.{Files, create_and_normalize_out_dir, create_and_normalize_out_dir-sizes}
use jpipe.Worker.Limits.{IsOption, collect_cli_args-IsWorkerCtx}
use jpipe.Worker.Start.{Threads, orchestrate_threads}

-- What the thread library returns: the statuses that `jp_queue_create` reads, and those of the threads.
pub record Library : Type 0 where
  pub lock : ℕ
  pub not_empty : ℕ
  pub not_full : ℕ
  pub threads : Threads

-- `err ? err : JP_ESYS_ERR`.
abbrev pub or_sys_err : Errno → Errno
or_sys_err Errno.ok = Errno.esys_err
or_sys_err e = e

-- The test behind `jp_queue_create`.
abbrev pub with_queue : WorkerCtx → Option Queue × Errno → Errno × WorkerCtx
with_queue ctx (some queue, Errno.ok) = (Errno.ok, record ctx { queue = some queue })
with_queue ctx (queue, err) = (or_sys_err err, record ctx { queue = queue })

unfoldable pub create_queue : Library → WorkerCtx → Errno × WorkerCtx
create_queue l ctx =
    with_queue ctx
      (queue_create ctx.buffer_size ctx.chunk_size ctx.policy l.lock l.not_empty l.not_full)

-- `finalize_worker_args`. The directories that are made on the way stay and are not followed here.
unfoldable pub finalize_worker_args : Files → Library → WorkerCtx → Errno × WorkerCtx
finalize_worker_args files l ctx =
    verify (create_and_normalize_out_dir files ctx).0 (create_queue l)

-- `jp_wrk_exec`, with `getopt_long` as what it returns for the arguments. The context is what the
-- function frees at its end.
unfoldable pub wrk_exec :
    (Bytes → Number)
    → (List Bytes → List CliOption × Bool)
    → Files
    → Library
    → List Bytes
    → Errno × WorkerCtx
wrk_exec strtoull getopt files l argv =
    let (options, surplus) = getopt argv in
    if ltb 0 (cmd_count argv (codes "-h") (codes "--help"))
    then (Errno.ok, initial_ctx)
    else verify (collect_cli_args strtoull options surplus initial_ctx) (λ ctx.
      verify (finalize_worker_args files l ctx)
        (λ ready. if ready.dry_run then (Errno.ok, ready) else orchestrate_threads l.threads ready))

-- What is ready when the threads start.
pub record Prepared (ctx : WorkerCtx) : Type 0 where
  pub queue : Queue
  pub same : ctx.queue ≡ some queue
  pub valid : IsQueue queue
  pub active : queue.active ≡ true
  pub empty : contents queue ≡ []

create_queue-Prepared :
    (l : Library) (ctx ready : WorkerCtx)
    → 0 < ctx.buffer_size
    → ctx.buffer_size + 1 < 2 ^ 64
    → create_queue l ctx ≡ (Errno.ok, ready)
    → Prepared ready
unfolding create_queue
create_queue-Prepared l ctx ready h k e =
    made (queue_create ctx.buffer_size ctx.chunk_size ctx.policy l.lock l.not_empty l.not_full) refl
      e
  where
    made :
        (r : Option Queue × Errno)
        → queue_create ctx.buffer_size ctx.chunk_size ctx.policy l.lock l.not_empty l.not_full ≡ r
        → with_queue ctx r ≡ (Errno.ok, ready)
        → Prepared ready
    made (some q, Errno.ok) c e =
        let new =
          queue_create-IsQueue ctx.buffer_size ctx.chunk_size ctx.policy l.lock l.not_empty
            l.not_full h k c in
        record {
          queue = q;
          same = ap (λ p. p.1.queue) (sym e);
          valid = new.0;
          active = new.1;
          empty = new.2;
        }
    made (none, Errno.ok) c e = absurd (cc)
    made (none, _) c e = absurd (cc)
    made (some q, _) c e = absurd (cc)

verify-ok :
    (r : Errno × WorkerCtx) (next : WorkerCtx → Errno × WorkerCtx) (ready : WorkerCtx)
    → verify r next ≡ (Errno.ok, ready)
    → next r.1 ≡ (Errno.ok, ready)
verify-ok (Errno.ok, ctx) next ready e = e
verify-ok (_, ctx) next ready e = absurd (cc)

-- Where finalize_worker_args succeeds on the context that collect_cli_args leaves for options
-- whose arguments are bytes, whatever the operating system returns, the context has a well-formed
-- queue, active and empty.
pub finalize_worker_args-Prepared :
    (strtoull : Bytes → Number) (files : Files) (l : Library) (options : List CliOption)
    (surplus : Bool) (ready : WorkerCtx)
    → All IsOption options
    → finalize_worker_args files l (collect_cli_args strtoull options surplus initial_ctx).1
      ≡ (Errno.ok, ready)
    → Prepared ready
unfolding finalize_worker_args
finalize_worker_args-Prepared strtoull files l options surplus ready a e =
    let ctx = (collect_cli_args strtoull options surplus initial_ctx).1 in
    let v = collect_cli_args-IsWorkerCtx strtoull options surplus a in
    let r = (create_and_normalize_out_dir files ctx).0 in
    let kept = (create_and_normalize_out_dir-sizes files ctx).0 in
    create_queue-Prepared l r.1 ready (omega (arith, kept, v.buffer_some))
      (omega (arith, kept, v.buffer_max)) (verify-ok r (create_queue l) ready e)
