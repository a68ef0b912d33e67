-- ===== src/Program/Outcome.antt =====
-- What a run of the program comes to.
use jpipe.Common.{
  ℕ, ◌≡◌, ◌≢◌, ◌⊎◌, Bool, true, false, List, [], ◌∷◌, if◌then◌else◌, ltb, Bytes, codes,
}
use jpipe.Command.{cmd_count}
use jpipe.Command.Texts.{help_texts}
use jpipe.Errno.{Errno}
use jpipe.Log.{log_infos}
use jpipe.Worker.Run.{wrk_exec}
use jpipe.Worker.Texts.{help_lines}
use jpipe.Program.{status_of, World, asks_help, prepared_ctx, summary_of}

abbrev pub asks_quiet : List Bytes → Bool
asks_quiet argv = ltb 0 (cmd_count argv (codes "-q") (codes "--quiet"))

-- The exit status and the output for the arguments behind the program's name.
abbrev pub Outcome : World → Bytes → Bytes → List Bytes → ℕ × Bytes → Type 0
Outcome w program name args result =
    ((name ≡ codes "run")
      × (asks_help (name ∷ args) ≡ true)
      × (result ≡ (0, log_infos help_lines [])))
    ⊎ (((name ≡ codes "run")
          × (asks_help (name ∷ args) ≡ false)
          × (result ≡ (
            status_of (wrk_exec w.strtoull w.getopt w.files w.library (name ∷ args)).0,
            (if asks_quiet (program ∷ name ∷ args)
                then []
                else summary_of false w (prepared_ctx w (name ∷ args))),
          )))
        ⊎ (((name ≡ codes "help") × (result ≡ (0, log_infos help_texts [])))
            ⊎ ((name ≢ codes "run") × (name ≢ codes "help") × (result ≡ (1, [])))))
