-- ===== src/Command.antt =====
-- src/command.c and src/main.c: the search for a command and the counting of a flag.
pub mod Count
pub mod Dispatch
pub mod Texts
mod Tests
use jpipe.Common.{
  ℕ, ◌+◌, ◌%◌, Bool, true, false, ◌||◌, List, [], ◌∷◌, Option, none, some, if◌then◌else◌, ltb,
  length, drop, take, Bytes, codes, equal,
}
use jpipe.Errno.{Errno}

-- `strcmp` tells whether an argument is one of the two spellings.
abbrev pub is_flag : Bytes → Bytes → Bytes → Bool
is_flag cmd_short cmd_long arg = equal arg cmd_short || equal arg cmd_long

-- The loop of `jp_cmd_count`: `count` is a `uint8_t`.
unfoldable pub count_loop : Bytes → Bytes → List Bytes → ℕ → ℕ
count_loop cmd_short cmd_long [] count = count
count_loop cmd_short cmd_long (arg ∷ argv) count =
    count_loop cmd_short cmd_long argv
      (if is_flag cmd_short cmd_long arg then (count + 1) % 256 else count)

-- `jp_cmd_count`; `argc` is the length of `argv`.
unfoldable pub cmd_count : List Bytes → Bytes → Bytes → ℕ
cmd_count argv cmd_short cmd_long = count_loop cmd_short cmd_long argv 0

-- The flags of `jp_conf_t`.
pub record Conf : Type 0 where
  pub silent : Bool
  pub no_color : Bool

-- `init_global_flags`.
unfoldable pub init_global_flags : List Bytes → Conf → Conf
init_global_flags argv conf = record {
  silent = if ltb 0 (cmd_count argv (codes "-q") (codes "--quiet")) then true else conf.silent;
  no_color =
      if ltb 0 (cmd_count argv (codes "-C") (codes "--no-color")) then true else conf.no_color;
}

-- `jp_cmd_t`, with the handlers as functions of the arguments behind the program's name.
pub record Cmd (R : Type 0) : Type 0 where
  pub code : Bytes
  pub name : Bytes
  pub handler : List Bytes → R

-- What `jp_cmd_exec` comes to: a handler's result, or an error of its own.
pub data Ran (R : Type 0) : Type 0 where
  handled : R → Ran R
  refused : Errno → Ran R

-- The loop of `jp_cmd_exec`, with `name` for `argv[1]` and `rest` for `argv + 1`.
unfoldable pub exec_loop : {R : Type 0} → List (Cmd R) → Bytes → List Bytes → Ran R
exec_loop [] name rest = refused Errno.eunknown_cmd
exec_loop (cmd ∷ cmds) name rest =
    let later = exec_loop cmds name rest in
    if equal name cmd.code || equal name cmd.name then handled (cmd.handler rest) else later

-- The part of `jp_cmd_exec` behind the flags. `cmdc` counts the commands that are looked at.
unfoldable pub dispatch : {R : Type 0} → ℕ → List (Cmd R) → List Bytes → Ran R
dispatch cmdc cmds [] = refused Errno.emissing_cmd
dispatch cmdc cmds (program ∷ []) = refused Errno.emissing_cmd
dispatch cmdc cmds (program ∷ name ∷ args) = exec_loop (take cmdc cmds) name (name ∷ args)

-- `jp_cmd_exec`.
unfoldable pub cmd_exec : {R : Type 0} → ℕ → List (Cmd R) → List Bytes → Conf → Conf × Ran R
cmd_exec cmdc cmds argv conf = (init_global_flags argv conf, dispatch cmdc cmds argv)

-- The table of `main`, on the handlers of the three commands.
abbrev pub commands :
    {R : Type 0} → (List Bytes → R) → (List Bytes → R) → (List Bytes → R) → List (Cmd R)
commands wrk_exec cmd_help cmd_version =
    record { code = codes "run"; name = codes "run"; handler = wrk_exec }
    ∷ record { code = codes "help"; name = codes "help"; handler = cmd_help }
    ∷ record { code = codes "version"; name = codes "version"; handler = cmd_version }
    ∷ []

-- `jp_conf_initialize` of src/config.c, on what `isatty` and `getenv` return.
unfoldable pub conf_initialize : Bool → Option Bytes → Conf → Conf
conf_initialize false env conf = record conf { no_color = true }
conf_initialize true none conf = record conf { no_color = false }
conf_initialize true (some []) conf = record conf { no_color = false }
conf_initialize true (some (c ∷ cs)) conf = record conf { no_color = true }

abbrev pub conf_default : Conf
conf_default = record { silent = false; no_color = false }

-- What `main` runs: it passes 2 for the number of commands.
unfoldable pub main_exec :
    {R : Type 0}
    → (wrk_exec cmd_help cmd_version : List Bytes → R) → Bool
    → Option Bytes
    → List Bytes
    → Conf × Ran R
main_exec wrk_exec cmd_help cmd_version tty env argv =
    cmd_exec 2 (commands wrk_exec cmd_help cmd_version) argv (conf_initialize tty env conf_default)
