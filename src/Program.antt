-- ===== src/Program.antt =====
-- src/main.c with the handlers of its table: the exit status, and what the main thread prints to the standard
-- output. The records that the writer prints, and the error that goes to the standard error, are left out.
pub mod Outcome
mod Tests
use jpipe.Common.{
  ℕ, Bool, true, false, List, [], ◌∷◌, Option, none, some, if◌then◌else◌, ltb, Bytes, codes,
}
use jpipe.Command.{
  cmd_count, Conf, Ran, handled, refused, init_global_flags, conf_initialize, conf_default,
  main_exec,
}
use jpipe.Command.Texts.{cmd_help, cmd_version}
use jpipe.Errno.{Errno, is_ok}
use jpipe.Worker.{WorkerCtx, CliOption, Number, collect_cli_args, initial_ctx, verify}
use jpipe.Worker.Directory.{Files}
use jpipe.Worker.Run.{Library, finalize_worker_args, wrk_exec}
use jpipe.Worker.Texts.{display_help, display_summary}

-- `err ? EXIT_FAILURE : EXIT_SUCCESS`.
abbrev pub status_of : Errno → ℕ
status_of err = if is_ok err then 0 else 1

-- The end of `main`.
abbrev pub exit_with : Ran (Errno × Bytes) → ℕ × Bytes
exit_with (handled (err, out)) = (status_of err, out)
exit_with (refused err) = (status_of err, [])

-- What comes from the C library, the operating system and the build: `strtoull`, `getopt_long`, the files, the
-- threads, the text that `%.2f` makes of a number of bytes in units of 2^20, and the version.
pub record World : Type 0 where
  pub strtoull : Bytes → Number
  pub getopt : List Bytes → List CliOption × Bool
  pub files : Files
  pub library : Library
  pub megabytes : ℕ → Bytes
  pub conf_version : Bytes

abbrev pub asks_help : List Bytes → Bool
asks_help argv = ltb 0 (cmd_count argv (codes "-h") (codes "--help"))

-- The context behind `finalize_worker_args`.
abbrev pub prepared_ctx : World → List Bytes → Errno × WorkerCtx
prepared_ctx w argv =
    let (options, surplus) = w.getopt argv in
    verify (collect_cli_args w.strtoull options surplus initial_ctx)
      (finalize_worker_args w.files w.library)

-- `display_summary`, where it is reached.
abbrev pub summary_of : Bool → World → Errno × WorkerCtx → Bytes
summary_of silent w (err, ctx) = if is_ok err then display_summary silent w.megabytes ctx [] else []

-- `jp_wrk_exec` with what it prints.
abbrev pub wrk_exec_out : Bool → World → List Bytes → Errno × Bytes
wrk_exec_out silent w argv = if asks_help argv then display_help [] else (
  (wrk_exec w.strtoull w.getopt w.files w.library argv).0,
  summary_of silent w (prepared_ctx w argv),
)

-- `jp_config` behind `init_global_flags`.
abbrev pub conf_of : Bool → Option Bytes → List Bytes → Conf
conf_of tty env argv = init_global_flags argv (conf_initialize tty env conf_default)

-- `main`.
abbrev pub main_out : World → Bool → Option Bytes → List Bytes → ℕ × Bytes
main_out w tty env argv =
    exit_with
      (main_exec (wrk_exec_out (conf_of tty env argv).silent w) (λ args. cmd_help [])
        (λ args. cmd_version w.conf_version []) tty env argv).1
