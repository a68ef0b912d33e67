-- ===== src/Worker/Heap/Tests.antt =====
-- A run with two paths and a field that is replaced, and the theorem at it.
use jpipe.Common.{
  ℕ, ◌≡◌, refl, Bool, true, false, List, [], ◌∷◌, Option, none, some, Bytes, codes, equal,
}
use jpipe.Command.{cmd_count, count_loop}
use jpipe.Errno.{Errno}
use jpipe.Field.{
  field_set_create, field_set_add, store_field, replace_field, crete_field_from_kv, field_at,
  strchr, create_field, is_valid_field_key,
}
use jpipe.Memory.Heap.{Run, fault, done, Heap, ◌>>=◌, ◌>>◌, alloc, free, free_all, Ends}
use jpipe.Queue.{queue_create}
use jpipe.Queue.Objects.{queue_create_mem}
use jpipe.Worker.{CliOption, Number, apply_option, set_out_dir, set_field}
use jpipe.Worker.Directory.{
  Files, strip_slashes, make_parents, normalize, create_and_normalize_out_dir,
}
use jpipe.Worker.Run.{Library, create_queue, wrk_exec}
use jpipe.Worker.Heap.{
  set_out_dir_mem, same_slot, field_set_add_mem, set_field_mem, create_dir_mem, create_queue_mem,
  apply_option_mem, collect_cli_args_mem, clean_up_mem, wrk_exec_mem,
}
use jpipe.Worker.Heap.Balance.{wrk_exec_mem-Ends}

abbrev strtoull : Bytes → Number
strtoull arg = record { param = 0; end_ptr = arg; bad = false }

abbrev getopt : List Bytes → List CliOption × Bool
getopt argv = (
  record { option = b'o'; optarg = some (codes "a") }
      ∷ record { option = b'f'; optarg = some (codes "k=1") }
      ∷ record { option = b'f'; optarg = some (codes "k=2") }
      ∷ record { option = b'o'; optarg = some (codes "b") }
      ∷ record { option = b'n'; optarg = none }
      ∷ [],
  false,
)

abbrev files : Files
files = record {
  mkdir = λ path. true;
  is_dir = λ path. true;
  writable = λ path. true;
  realpath = λ path. some (b'/' ∷ path);
}

abbrev library : ℕ → Library
library status = record {
  lock = 0;
  not_empty = status;
  not_full = 0;
  threads = record {
    consumer_status = 0;
    producer_status = 0;
    watcher_status = 0;
    consumer_result = record { status = 0; value = some Errno.ok };
    producer_result = record { status = 0; value = none };
  };
}

abbrev argv : List Bytes
argv = codes "run" ∷ []

abbrev empty_heap : Heap
empty_heap = record { next = 0; live = λ p. 0 }

-- What a run returns, and how many objects it has allocated.
abbrev outcome : {A : Type 0} → Run A → Option (A × ℕ)
outcome fault = none
outcome (done result h) = some (result, h.next)

-- The set, two paths, two fields, the path of the operating system and the four objects of the queue.
ten_objects :
    outcome (wrk_exec_mem strtoull getopt files (library 0) argv empty_heap) ≡ some (Errno.ok, 10)
unfolding wrk_exec_mem collect_cli_args_mem apply_option_mem set_out_dir_mem set_field_mem
    field_set_add_mem same_slot create_dir_mem create_queue_mem queue_create_mem clean_up_mem alloc
    free free_all cmd_count count_loop set_out_dir set_field field_set_create field_set_add
    store_field replace_field crete_field_from_kv field_at strchr create_field is_valid_field_key
    create_and_normalize_out_dir normalize make_parents strip_slashes create_queue queue_create
    equal apply_option
ten_objects = refl

-- The same where a condition variable cannot be made.
no_queue :
    outcome (wrk_exec_mem strtoull getopt files (library 12) argv empty_heap)
    ≡ some (Errno.esys_err, 8)
unfolding wrk_exec_mem collect_cli_args_mem apply_option_mem set_out_dir_mem set_field_mem
    field_set_add_mem same_slot create_dir_mem create_queue_mem queue_create_mem clean_up_mem alloc
    free free_all cmd_count count_loop set_out_dir set_field field_set_create field_set_add
    store_field replace_field crete_field_from_kv field_at strchr create_field is_valid_field_key
    create_and_normalize_out_dir normalize make_parents strip_slashes create_queue queue_create
    equal apply_option
no_queue = refl

twice_freed : (alloc >>= λ p. free p >> free p) empty_heap ≡ fault
unfolding alloc free
twice_freed = refl

wrk_exec_mem-Ends_example :
    Ends
      (λ err h.
        (err ≡ (wrk_exec strtoull getopt files (library 12) argv).0) × ((p : ℕ) → h.live p ≡ 0))
      (wrk_exec_mem strtoull getopt files (library 12) argv empty_heap)
wrk_exec_mem-Ends_example =
    wrk_exec_mem-Ends strtoull getopt files (library 12) argv empty_heap (λ p. refl)
