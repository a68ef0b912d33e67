-- ===== src/Command/Tests.antt =====
-- The commands on small argument lists.
use jpipe.Common.{◌≡◌, refl, none, List, [], ◌∷◌, ℕ, true, Bytes, codes, length, equal}
use jpipe.Errno.{Errno}
use jpipe.Command.{refused, main_exec, cmd_exec, dispatch, exec_loop}
use jpipe.Command.Texts.{cmd_version}

-- Each handler tells its name and how many arguments it got.
abbrev ran : Bytes → List Bytes → Bytes × ℕ
ran name args = (name, length args)

version_unknown :
    (main_exec
      (ran (codes "r"))
      (ran (codes "h"))
      (ran (codes "v"))
      true
      none
      (codes "jpipe" ∷ codes "version" ∷ [])).1
    ≡ refused Errno.eunknown_cmd
unfolding main_exec cmd_exec dispatch exec_loop equal
version_unknown = refl

version_text : cmd_version (codes "0.1.0") [] ≡ (Errno.ok, codes "v0.1.0\n")
unfolding cmd_version
version_text = refl
