-- ===== src/Command/Dispatch.antt =====
-- Which command `main` runs.
use jpipe.Common.{◌≡◌, ◌≢◌, ◌⊎◌, Bool, Option, List, ◌∷◌, arith, Bytes, codes, equal_iff}
use jpipe.Errno.{Errno}
use jpipe.Command.{Ran, handled, refused, exec_loop, dispatch, cmd_exec, main_exec}

-- What `main` does with a name and the arguments behind it: `run` and `help` are handled with the
-- arguments from the name on, and every other name is refused, `version` too.
abbrev pub Dispatched :
    {R : Type 0} → (wrk_exec cmd_help : List Bytes → R) → Bytes → List Bytes → Ran R → Type 0
Dispatched wrk_exec cmd_help name args ran =
    ((name ≡ codes "run") × (ran ≡ handled (wrk_exec (name ∷ args))))
    ⊎ (((name ≡ codes "help") × (ran ≡ handled (cmd_help (name ∷ args))))
        ⊎ ((name ≢ codes "run") × (name ≢ codes "help") × (ran ≡ refused Errno.eunknown_cmd)))

-- main hands the arguments to the handler of run or of help if the first is one of these names,
-- and reports an unknown command for every other name, version included.
pub main_exec-Dispatched :
    {R : Type 0} (wrk_exec cmd_help cmd_version : List Bytes → R) (tty : Bool) (env : Option Bytes)
    (program name : Bytes) (args : List Bytes)
    → Dispatched wrk_exec cmd_help name args
        (main_exec wrk_exec cmd_help cmd_version tty env (program ∷ name ∷ args)).1
unfolding main_exec cmd_exec dispatch exec_loop
main_exec-Dispatched wrk_exec cmd_help cmd_version tty env program name args =
    ground (arith, equal_iff name (codes "run"), equal_iff name (codes "help"))
