-- ===== src/Worker/Tests.antt =====
-- Arguments of `jpipe run`, and the theorems at them.
use jpipe.Common.{
  map, ◌++◌, refl, true, not, take, drop, ◌*◌, ◌≡◌, ◌⊎◌, false, List, [], ◌∷◌, some, none, arith,
  Bytes, codes, equal, if◌then◌else◌,
}
use jpipe.Errno.{Errno}
use jpipe.Worker.{
  WorkerCtx, apply_option, set_field, chunk_size_of, Number, CliOption, collect_cli_args,
  set_chunk_size, set_buffer_size, initial_ctx,
}
use jpipe.Queue.{queue_create}
use jpipe.Field.{
  field_set_create, field_set_add, store_field, replace_field, crete_field_from_kv, field_at,
  strchr, create_field, is_valid_field_key,
}
use jpipe.Errno.Print.{digits_of}
use jpipe.Log.{log_infos, log_msgs}
use jpipe.Worker.Texts.{field_texts, display_summary, display_help}
use jpipe.Worker.Args.{IsChunkSize, IsBufferNumber, size_arguments}
use jpipe.Worker.Limits.{IsWorkerCtx, collect_cli_args-IsWorkerCtx}
use jpipe.Field.Set.{lookup, keys}
use jpipe.Field.Keys.{has}
use jpipe.Worker.Fields.{Pair, field_option, last_value, new_keys, collect_cli_args-fields}
use jpipe.Worker.Directory.{
  Files, strip_slashes, make_parents, normalize, create_and_normalize_out_dir,
}
use jpipe.Worker.Parents.{parents, made_before}
use jpipe.Worker.Creates.{Creates, Strips, create_and_normalize_out_dir-Creates}
use jpipe.Worker.Run.{
  Library, create_queue, finalize_worker_args, Prepared, finalize_worker_args-Prepared,
}
use jpipe.Worker.Start.{Threads, AllWell, orchestrate_threads, orchestrate_threads-AllWell}

-- A reader of two texts.
abbrev strtoull : Bytes → Number
strtoull arg =
    if equal arg (codes "32kb")
    then record { param = 32; end_ptr = codes "kb"; bad = false }
    else if equal arg (codes "8")
    then record { param = 8; end_ptr = []; bad = false }
    else record { param = 0; end_ptr = arg; bad = false }

abbrev options : List CliOption
options =
    record { option = b'c'; optarg = some (codes "32kb") }
    ∷ record { option = b'f'; optarg = some (codes "env=prod") }
    ∷ record { option = b'n'; optarg = none }
    ∷ []

size_arguments_example :
    ((IsChunkSize (strtoull (codes "32kb")) (codes "32kb")
        × (set_chunk_size strtoull (some (codes "32kb")) initial_ctx
            ≡ (Errno.ok, record initial_ctx { chunk_size = 32 * 1024 })))
      ⊎ ((¬ IsChunkSize (strtoull (codes "32kb")) (codes "32kb"))
          × (set_chunk_size strtoull (some (codes "32kb")) initial_ctx
              ≡ (Errno.echunk_size, initial_ctx))))
    × ((IsBufferNumber (strtoull (codes "32kb")) (codes "32kb")
          × (set_buffer_size strtoull (some (codes "32kb")) initial_ctx
              ≡ (Errno.ok, record initial_ctx { buffer_size = 32 })))
        ⊎ ((¬ IsBufferNumber (strtoull (codes "32kb")) (codes "32kb"))
            × (set_buffer_size strtoull (some (codes "32kb")) initial_ctx
                ≡ (Errno.ebuffer_size, initial_ctx))))
unfolding equal
size_arguments_example = size_arguments strtoull (codes "32kb") initial_ctx

collect_cli_args-IsWorkerCtx_example :
    IsWorkerCtx (collect_cli_args strtoull options false initial_ctx).1
collect_cli_args-IsWorkerCtx_example =
    collect_cli_args-IsWorkerCtx strtoull options false (omega arith)

abbrev threads : Threads
threads = record {
  consumer_status = 0;
  producer_status = 0;
  watcher_status = 11;
  consumer_result = record { status = 0; value = some Errno.ok };
  producer_result = record { status = 0; value = none };
}

orchestrate_threads-AllWell_example :
    ((AllWell threads × ((orchestrate_threads threads initial_ctx).0 ≡ Errno.ok))
      ⊎ ((¬ AllWell threads) × ((orchestrate_threads threads initial_ctx).0 ≡ Errno.erun_failed)))
    × ((orchestrate_threads threads initial_ctx).1 ≡ record initial_ctx { queue = none })
orchestrate_threads-AllWell_example = orchestrate_threads-AllWell threads initial_ctx

-- A file system where every path is a directory that may be written.
abbrev files : Files
files = record {
  mkdir = λ path. true;
  is_dir = λ path. true;
  writable = λ path. true;
  realpath = λ path. some (b'/' ∷ path);
}

abbrev library : Library
library = record { lock = 0; not_empty = 0; not_full = 0; threads = threads }

no_slashes : strip_slashes 6 (codes "logs//") ≡ codes "logs"
unfolding strip_slashes
no_slashes = refl

abbrev ready : WorkerCtx
ready =
    (finalize_worker_args files library (collect_cli_args strtoull options false initial_ctx).1).1

succeeds :
    finalize_worker_args files library (collect_cli_args strtoull options false initial_ctx).1
    ≡ (Errno.ok, ready)
unfolding finalize_worker_args create_and_normalize_out_dir normalize make_parents create_queue
    queue_create strip_slashes collect_cli_args apply_option set_chunk_size chunk_size_of set_field
    field_set_add store_field replace_field crete_field_from_kv field_at strchr create_field
    is_valid_field_key field_set_create equal
succeeds = refl

finalize_worker_args-Prepared_example : Prepared ready
finalize_worker_args-Prepared_example =
    finalize_worker_args-Prepared strtoull files library options false ready (omega arith) succeeds

-- A file where the second directory would be.
abbrev taken : Files
taken = record files { mkdir = λ path. not (equal path (codes "var/logs")) }

abbrev nested : WorkerCtx
nested = record initial_ctx { out_dir = some (codes "var/logs//") }

create_and_normalize_out_dir-Creates_example :
    let tmp = strip_slashes 10 (codes "var/logs//") in
    let result = create_and_normalize_out_dir files nested in
    Strips (codes "var/logs//") tmp
    × (((absolute_path : Bytes) × Creates files tmp absolute_path
          × (result.0 ≡ (Errno.ok, record nested { out_dir = some absolute_path })))
        ⊎ (((absolute_path : Bytes) → ¬ Creates files tmp absolute_path)
            × (result.0 ≡ (Errno.eout_dir, nested))))
    × (result.1 ≡ made_before files (parents (take 1 tmp) (drop 1 tmp) ++ tmp ∷ []))
create_and_normalize_out_dir-Creates_example =
    create_and_normalize_out_dir-Creates files nested (omega arith)

parent_stays :
    create_and_normalize_out_dir taken nested ≡ ((Errno.eout_dir, nested), codes "var" ∷ [])
unfolding create_and_normalize_out_dir normalize make_parents strip_slashes equal
parent_stays = refl

-- The line of a field, and a summary that the flag silences.
field_line :
    field_texts 0 (record { key_len = 3; val_len = 4; key = codes "env"; val = codes "prod" } ∷ [])
    ≡ codes "     1. env                             = prod                            " ∷ []
unfolding field_texts digits_of
field_line = refl

silent_summary : display_summary true (λ bytes. codes "1.00") initial_ctx (codes "{}") ≡ codes "{}"
unfolding display_summary log_msgs field_set_create
silent_summary = refl

-- The help text begins with the usage.
usage : (rest : Bytes) × ((display_help []).1 ≡ codes "Usage: jpipe run [options]\n" ++ rest)
unfolding log_infos
usage = (_, refl)

-- A key comes twice.
abbrev pairs : List Pair
pairs = (codes "env", codes "dev") ∷ (codes "app", codes "jpipe") ∷ (codes "env", codes "prod") ∷ []

collect_cli_args-fields_example :
    let r = collect_cli_args strtoull (map field_option pairs) false initial_ctx in
    (r.0 ≡ Errno.ok)
    × (r.1 ≡ record initial_ctx { fields = r.1.fields })
    × ((k : Bytes) → lookup k r.1.fields.fields ≡ last_value k pairs)
    × (keys r.1.fields.fields ≡ new_keys [] pairs)
collect_cli_args-fields_example = collect_cli_args-fields strtoull pairs (omega arith) (omega arith)

two_keys :
    (last_value (codes "env") pairs ≡ some (codes "prod"))
    × (new_keys [] pairs ≡ codes "env" ∷ codes "app" ∷ [])
unfolding last_value has new_keys equal
two_keys = (refl, refl)
