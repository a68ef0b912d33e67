-- ===== src/Command/Count.antt =====
-- How often `jp_cmd_count` finds a flag: modulo 256.
use jpipe.Common.{
  ℕ, ◌+◌, ◌%◌, ◌<◌, ◌≡◌, ◌∙◌, List, [], ◌∷◌, arith, inl, inr, Bool-cases, if◌then◌else◌, Bytes,
}
use jpipe.Command.{is_flag, count_loop, cmd_count}

-- The number of arguments that are one of the two spellings.
occurrences : Bytes → Bytes → List Bytes → ℕ
occurrences cmd_short cmd_long [] = 0
occurrences cmd_short cmd_long (arg ∷ argv) =
    (if is_flag cmd_short cmd_long arg then 1 else 0) + occurrences cmd_short cmd_long argv

count_loop-occurrences :
    (cmd_short cmd_long : Bytes) (argv : List Bytes) (count : ℕ)
    → count < 256
    → count_loop cmd_short cmd_long argv count ≡ (count + occurrences cmd_short cmd_long argv) % 256
unfolding count_loop occurrences
count_loop-occurrences cmd_short cmd_long [] count lt = omega arith
count_loop-occurrences cmd_short cmd_long (arg ∷ argv) count lt =
    elim (Bool-cases (is_flag cmd_short cmd_long arg)) [
      | inl found ↦ rw found (
          count_loop-occurrences cmd_short cmd_long argv ((count + 1) % 256) (omega arith)
          ∙ omega arith)
      | inr other ↦ rw other (count_loop-occurrences cmd_short cmd_long argv count lt ∙ omega arith)
    ]

-- jp_cmd_count returns the number of arguments that are one of the two spellings, modulo 256.
cmd_count-occurrences :
    (argv : List Bytes) (cmd_short cmd_long : Bytes)
    → cmd_count argv cmd_short cmd_long ≡ occurrences cmd_short cmd_long argv % 256
unfolding cmd_count
cmd_count-occurrences argv cmd_short cmd_long =
    count_loop-occurrences cmd_short cmd_long argv 0 (omega arith) ∙ omega arith
