-- ===== src/Worker.antt =====
-- src/worker.c: the arguments of `jpipe run`, and the start of the threads.
pub mod Directory
pub mod Parents
pub mod Creates
pub mod Run
pub mod Start
pub mod Threads
pub mod Shutdown
pub mod Cancel
pub mod Heap
pub mod Args
pub mod Limits
pub mod Fields
pub mod Texts
mod Tests
use jpipe.Common.{
  ℕ, ◌+◌, ◌*◌, ◌/◌, ◌%◌, ◌^◌, Bool, true, false, not, ◌&&◌, ◌||◌, List, [], ◌∷◌, ◌++◌, Option, none,
  some, ◌==◌, leb, ltb, if◌then◌else◌, length, Bytes, equal, codes,
}
use jpipe.Config.{
  bytes_in_kb, jp_path_max, conf_chunk_size_min, conf_chunk_size_def, conf_chunk_size_max,
  conf_buffer_size_min, conf_buffer_size_def, conf_buffer_size_max, conf_fields_max,
}
use jpipe.Errno.{Errno, is_ok}
use jpipe.Field.{FieldSet, field_set_create, field_set_add}
use jpipe.Queue.{Policy, Queue}

-- `worker_ctx_t`, without the input stream, which is never changed.
pub record WorkerCtx : Type 0 where
  pub dry_run : Bool
  pub chunk_size : ℕ
  pub buffer_size : ℕ
  pub policy : Policy
  pub queue : Option Queue
  pub fields : FieldSet
  pub out_dir : Option Bytes

-- What `strtoull` returns: the number, the text from `*end_ptr` on, and whether `errno` is ERANGE or
-- EINVAL behind the call.
pub record Number : Type 0 where
  pub param : ℕ
  pub end_ptr : Bytes
  pub bad : Bool

-- `end_ptr == arg`: the rest of a text is the text where nothing has been read.
abbrev pub unread : Number → Bytes → Bool
unread number arg = length number.end_ptr == length arg

-- `set_out_dir`: the old path is freed first.
pub set_out_dir : Option Bytes → WorkerCtx → Errno × WorkerCtx
set_out_dir none ctx = (Errno.eout_dir, record ctx { out_dir = none })
set_out_dir (some arg) ctx =
    let len = length arg in
    if len == 0
    then (Errno.eout_dir, record ctx { out_dir = none })
    else if ltb jp_path_max len
    then (Errno.eout_dir, record ctx { out_dir = none })
    else (Errno.ok, record ctx { out_dir = some arg })

-- `set_field`.
pub set_field : Option Bytes → WorkerCtx → Errno × WorkerCtx
set_field none ctx = (Errno.einv_field_key, ctx)
set_field (some arg) ctx =
    let (err, fields) = field_set_add ctx.fields arg in (err, record ctx { fields = fields })

-- `set_policy`.
pub set_policy : Option Bytes → WorkerCtx → Errno × WorkerCtx
set_policy none ctx = (Errno.eoverflow_policy, ctx)
set_policy (some arg) ctx =
    if equal arg (codes "wait")
    then (Errno.ok, record ctx { policy = Policy.wait })
    else if equal arg (codes "drop")
    then (Errno.ok, record ctx { policy = Policy.drop })
    else (Errno.eoverflow_policy, ctx)

-- One result of `getopt_long`: the option's character and `optarg`.
pub record CliOption : Type 0 where
  pub option : ℕ
  pub optarg : Option Bytes

-- `JP_VERIFY`, and what follows it.
abbrev pub verify : Errno × WorkerCtx → (WorkerCtx → Errno × WorkerCtx) → Errno × WorkerCtx
verify (err, ctx) next = let rest = next ctx in if is_ok err then rest else (err, ctx)

module _ (strtoull : Bytes → Number) where
  -- The part of `set_chunk_size` behind the test of what `strtoull` has read. The product of
  -- `param * BYTES_IN_KB` is an `unsigned long long`.
  pub chunk_size_of : Number → ℕ
  chunk_size_of number = number.param * bytes_in_kb % 2 ^ 64

  pub set_chunk_size : Option Bytes → WorkerCtx → Errno × WorkerCtx
  set_chunk_size none ctx = (Errno.echunk_size, ctx)
  set_chunk_size (some arg) ctx =
      let number = strtoull arg in
      let chunk_size = chunk_size_of number in
      if number.bad
      then (Errno.echunk_size, ctx)
      else if unread number arg
      then (Errno.echunk_size, ctx)
      else if not (length number.end_ptr == 0)
          && equal number.end_ptr (codes "kb")
          && leb number.param (conf_chunk_size_max / bytes_in_kb)
      then if ltb chunk_size conf_chunk_size_min || ltb conf_chunk_size_max chunk_size
        then (Errno.echunk_size, ctx)
        else (Errno.ok, record ctx { chunk_size = chunk_size })
      else (Errno.echunk_size, ctx)

  pub set_buffer_size : Option Bytes → WorkerCtx → Errno × WorkerCtx
  set_buffer_size none ctx = (Errno.ebuffer_size, ctx)
  set_buffer_size (some arg) ctx =
      let number = strtoull arg in
      if number.bad || unread number arg || not (length number.end_ptr == 0)
      then (Errno.ebuffer_size, ctx)
      else if ltb number.param conf_buffer_size_min || ltb conf_buffer_size_max number.param
      then (Errno.ebuffer_size, ctx)
      else (Errno.ok, record ctx { buffer_size = number.param })

  -- The `switch` of `collect_cli_args`.
  pub apply_option : CliOption → WorkerCtx → Errno × WorkerCtx
  apply_option o ctx =
      if o.option == b'c'
      then set_chunk_size o.optarg ctx
      else if o.option == b'b'
      then set_buffer_size o.optarg ctx
      else if o.option == b'p'
      then set_policy o.optarg ctx
      else if o.option == b'o'
      then set_out_dir o.optarg ctx
      else if o.option == b'n'
      then (Errno.ok, record ctx { dry_run = true })
      else if o.option == b'f'
      then set_field o.optarg ctx
      else if o.option == b':' || o.option == b'?'
      then (Errno.eunknown_run_cmd, ctx)
      else (Errno.ok, ctx)

  -- `collect_cli_args`, on the results of `getopt_long` up to the last; `surplus` is `optind < argc`
  -- behind them.
  pub collect_cli_args : List CliOption → Bool → WorkerCtx → Errno × WorkerCtx
  collect_cli_args [] surplus ctx =
      if surplus then (Errno.eunknown_run_cmd, ctx) else (Errno.ok, ctx)
  collect_cli_args (o ∷ options) surplus ctx =
      verify (apply_option o ctx) (collect_cli_args options surplus)

-- The context that `jp_wrk_exec` begins with.
abbrev pub initial_ctx : WorkerCtx
initial_ctx = record {
  dry_run = false;
  chunk_size = conf_chunk_size_def;
  buffer_size = conf_buffer_size_def;
  policy = Policy.wait;
  queue = none;
  fields = field_set_create conf_fields_max;
  out_dir = none;
}
