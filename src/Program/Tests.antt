-- ===== src/Program/Tests.antt =====
-- A name that is no command, and the theorem at a dry run.
use jpipe.Common.{◌≡◌, refl, true, false, [], ◌∷◌, none, some, codes, equal}
use jpipe.Command.{main_exec, cmd_exec, dispatch, exec_loop}
use jpipe.Errno.{Errno}
use jpipe.Program.{World, main_out}
use jpipe.Program.Outcome.{Outcome}

-- Every directory may be written to, and the only option is `-n`.
abbrev world : World
world = record {
  strtoull = λ arg. record { param = 0; end_ptr = arg; bad = false };
  getopt = λ argv. (record { option = b'n'; optarg = none } ∷ [], false);
  files = record {
    mkdir = λ path. true;
    is_dir = λ path. true;
    writable = λ path. true;
    realpath = λ path. some (b'/' ∷ path);
  };
  library = record {
    lock = 0;
    not_empty = 0;
    not_full = 0;
    threads = record {
      consumer_status = 0;
      producer_status = 0;
      watcher_status = 0;
      consumer_result = record { status = 0; value = some Errno.ok };
      producer_result = record { status = 0; value = none };
    };
  };
  megabytes = λ bytes. codes "1.00";
  conf_version = codes "0.1.0";
}

version_fails : main_out world true none (codes "jpipe" ∷ codes "version" ∷ []) ≡ (1, [])
unfolding main_exec cmd_exec dispatch exec_loop equal
version_fails = refl
