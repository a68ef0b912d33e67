-- ===== src/Worker/Heap.antt =====
-- The objects that `jp_wrk_exec` allocates and frees: the functions of src/worker.c and src/field.c once
-- more, with the calls of src/memory.c and of `free` in their places. What they compute besides is taken
-- from Worker, Field and Queue. The result of a thread, which `join_worker_thread` frees, is left out.
pub mod Paths
pub mod Slots
pub mod Options
pub mod Queue
pub mod Balance
mod Tests
use jpipe.Common.{
  ℕ, suc, ◌+◌, Bool, true, false, not, List, [], ◌∷◌, ◌++◌, Option, none, some, ◌==◌, if◌then◌else◌,
  ltb, set, get_or, Bytes, codes,
}
use mathlib.Core.Option
use jpipe.Command.{cmd_count}
use jpipe.Errno.{Errno, is_ok}
use jpipe.Field.{Field, FieldSet, same_key, field_set_add, crete_field_from_kv}
use jpipe.Memory.Heap.{Mem, pure, ◌>>=◌, ◌>>◌, alloc, free, mem_free, free_all, held}
use jpipe.Queue.Objects.{QueueAt, queue_objects, queue_create_mem, queue_destroy_mem}
use jpipe.Worker.{WorkerCtx, CliOption, Number, apply_option, set_out_dir, set_field, initial_ctx}
use jpipe.Worker.Directory.{Files, create_and_normalize_out_dir}
use jpipe.Worker.Run.{Library, create_queue}
use jpipe.Worker.Start.{orchestrate_threads}

-- `worker_ctx_t` with its pointers.
pub record Owned : Type 0 where
  pub ctx : WorkerCtx
  pub out_dir_at : Option ℕ
  pub set_at : ℕ
  pub field_ats : List ℕ
  pub queue_at : Option QueueAt

abbrev pub owned : Owned → List ℕ
owned o = held o.out_dir_at ++ (o.set_at ∷ (o.field_ats ++ queue_objects o.queue_at))

-- `set_out_dir`.
unfoldable pub set_out_dir_mem : Option Bytes → Owned → Mem (Errno × Owned)
set_out_dir_mem arg o = do
  mem_free o.out_dir_at
  let (err, ctx) = set_out_dir arg o.ctx
  if is_ok err
      then (alloc >>= λ p. pure (err, record o { ctx = ctx; out_dir_at = some p }))
      else pure (err, record o { ctx = ctx; out_dir_at = none })

-- The index at which the loop of `jp_field_set_add` finds the key.
pub same_slot : Field → List Field → Option ℕ
same_slot new_field [] = none
same_slot new_field (field ∷ fields) =
    let later = same_slot new_field fields in
    if same_key field new_field then some 0 else Option.map suc later

-- What `jp_field_set_add` does with the object of the new field.
abbrev pub store_at : Option ℕ → ℕ → List ℕ → Mem (List ℕ)
store_at none new_at ats = pure (ats ++ new_at ∷ [])
store_at (some i) new_at ats = free (get_or ats i 0) >> pure (set ats i new_at)

-- `jp_field_set_add` behind the call of `crete_field_from_kv`.
abbrev pub add_at : Option Field → List Field → List ℕ → Mem (List ℕ)
add_at none fields ats = pure ats
add_at (some new_field) fields ats =
    alloc >>= λ new_at. store_at (same_slot new_field fields) new_at ats

unfoldable pub field_set_add_mem : FieldSet → Bytes → List ℕ → Mem (List ℕ)
field_set_add_mem set kv ats =
    if set.len == set.cap then pure ats else add_at (crete_field_from_kv kv).1 set.fields ats

-- `set_field`.
unfoldable pub set_field_mem : Option Bytes → Owned → Mem (Errno × Owned)
set_field_mem none o = pure (Errno.einv_field_key, o)
set_field_mem (some arg) o = do
  ats ← field_set_add_mem o.ctx.fields arg o.field_ats
  let (err, ctx) = set_field (some arg) o.ctx
  pure (err, record o { ctx = ctx; field_ats = ats })

-- `create_and_normalize_out_dir`: the old path is freed at its end.
unfoldable pub create_dir_mem : Files → Owned → Mem (Errno × Owned)
create_dir_mem files o = do
  let (err, ctx) = (create_and_normalize_out_dir files o.ctx).0
  if is_ok err
      then (mem_free o.out_dir_at
          >> (alloc >>= λ p. pure (err, record o { ctx = ctx; out_dir_at = some p })))
      else pure (err, record o { ctx = ctx })

-- The call of `jp_queue_create`.
unfoldable pub create_queue_mem : Library → Owned → Mem (Errno × Owned)
create_queue_mem l o = do
  queue_at ← queue_create_mem l.lock l.not_empty l.not_full
  let (err, ctx) = create_queue l o.ctx
  pure (err, record o { ctx = ctx; queue_at = queue_at })

-- `if (err) goto clean_up`, and `JP_VERIFY`.
abbrev pub if_ok : (Owned → Mem (Errno × Owned)) → Errno × Owned → Mem (Errno × Owned)
if_ok next (err, o) = if is_ok err then next o else pure (err, o)

module _ (strtoull : Bytes → Number) where
  -- The `switch` of `collect_cli_args`.
  unfoldable pub apply_option_mem : CliOption → Owned → Mem (Errno × Owned)
  apply_option_mem c o =
      if c.option == b'o'
      then set_out_dir_mem c.optarg o
      else if c.option == b'f'
      then set_field_mem c.optarg o
      else (let (err, ctx) = apply_option strtoull c o.ctx in pure (err, record o { ctx = ctx }))

  unfoldable pub collect_cli_args_mem : List CliOption → Bool → Owned → Mem (Errno × Owned)
  collect_cli_args_mem [] surplus o = pure (if surplus then Errno.eunknown_run_cmd else Errno.ok, o)
  collect_cli_args_mem (c ∷ options) surplus o =
      apply_option_mem c o >>= if_ok (collect_cli_args_mem options surplus)

-- `clean_up` of `jp_wrk_exec`.
unfoldable pub clean_up_mem : Owned → Mem (Unit {0})
clean_up_mem o = do
  mem_free o.out_dir_at
  free_all o.field_ats
  free o.set_at
  queue_destroy_mem o.queue_at

-- The objects of the threads are left out.
abbrev pub run_threads : Library → Owned → Mem (Errno × Owned)
run_threads l o =
    if o.ctx.dry_run
    then pure (Errno.ok, o)
    else (let (err, ctx) = orchestrate_threads l.threads o.ctx in
        pure (err, record o { ctx = ctx }))

abbrev pub initial_owned : ℕ → Owned
initial_owned set_at = record {
  ctx = initial_ctx;
  out_dir_at = none;
  set_at = set_at;
  field_ats = [];
  queue_at = none;
}

-- `jp_wrk_exec` behind the test for `--help`.
abbrev pub wrk_run_mem :
    (Bytes → Number) → List CliOption → Bool → Files → Library → Mem (Errno × Owned)
wrk_run_mem strtoull options surplus files l = do
  set_at ← alloc
  r ← collect_cli_args_mem strtoull options surplus (initial_owned set_at)
  r ← if_ok (create_dir_mem files) r
  r ← if_ok (create_queue_mem l) r
  if_ok (run_threads l) r

unfoldable pub wrk_exec_mem :
    (Bytes → Number)
    → (List Bytes → List CliOption × Bool)
    → Files
    → Library
    → List Bytes
    → Mem Errno
wrk_exec_mem strtoull getopt files l argv =
    let (options, surplus) = getopt argv in
    if ltb 0 (cmd_count argv (codes "-h") (codes "--help"))
    then pure Errno.ok
    else do r ← wrk_run_mem strtoull options surplus files l; clean_up_mem r.1; pure r.0
