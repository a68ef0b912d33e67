-- ===== src/Command/Texts.antt =====
-- What the commands `help` and `version` print.
use jpipe.Common.{List, [], ◌∷◌, ◌++◌, take, Bytes, codes}
use jpipe.Errno.{Errno}
use jpipe.Log.{log_info, log_infos}

abbrev pub help_texts : List Bytes
help_texts =
    codes "Usage: jpipe <command> [options]"
    ∷ codes
        "\nA lightweight C pipe-to-JSON logger designed for high-performance stream capture and extensible metadata injection."
    ∷ codes "\nCommands:"
    ∷ codes "  run                Process data with configurable options."
    ∷ codes "  version            Display version information."
    ∷ codes "  help               Show this help message."
    ∷ codes "\nGlobal Options:"
    ∷ codes "  -q, --quiet        Display less output (suppress non-critical logs)."
    ∷ codes "  -C, --no-color     Disable colored output."
    ∷ codes "\nEnvironment Variables:"
    ∷ codes "  NO_COLOR           If set (to any value), disables colored output."
    ∷ codes "                     See https://no-color.org/ for details."
    ∷ codes "\nUse 'jpipe <command> --help' for more information on a specific command."
    ∷ codes "\nExamples:"
    ∷ codes "  # Capture stream with 1MB chunks to a specific directory"
    ∷ codes "  cat data.log | jpipe run -c 1mb -o /tmp/output"
    ∷ codes "\n  # High-throughput capture with a larger buffer"
    ∷ codes "  tail -f /var/log/syslog | jpipe run -b 128 -c 64kb"
    ∷ codes "\nDocumentation & Issues:"
    ∷ codes "  https://github.com/scoekmen/jpipe"
    ∷ []

-- `jp_cmd_help`, on the standard output so far.
abbrev pub cmd_help : Bytes → Errno × Bytes
cmd_help out = (Errno.ok, log_infos help_texts out)

-- `jp_cmd_version`; the version comes from the build.
unfoldable pub cmd_version : Bytes → Bytes → Errno × Bytes
cmd_version conf_version out = (Errno.ok, log_info (codes "v" ++ take 16 conf_version) out)
