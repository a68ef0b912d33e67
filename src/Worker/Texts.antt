-- ===== src/Worker/Texts.antt =====
-- What `jpipe run` prints itself: its help text and the summary of its parameters.
use jpipe.Common.{
  ℕ, suc, ◌-◌, ◌*◌, ◌/◌, Bool, List, [], ◌∷◌, ◌++◌, Option, none, some, if◌then◌else◌, ltb, length,
  take, replicate, Bytes, codes,
}
use jpipe.Config.{bytes_in_kb}
use jpipe.Errno.{Errno}
use jpipe.Errno.Print.{digits_of}
use jpipe.Field.{Field}
use jpipe.Log.{log_infos, log_msgs}
use jpipe.Queue.{Policy}
use jpipe.Worker.{WorkerCtx}

abbrev pub help_lines : List Bytes
help_lines =
    codes "Usage: jpipe run [options]"
    ∷ codes "\nExecute the data processing engine with the following configurations:"
    ∷ codes "\nOptions:"
    ∷ codes
        "  -c, --chunk-size  <size>     Chunk size (e.g., 16kb, 64kb). Range: 1kb-128kb  (default: 16kb)."
    ∷ codes "  -b, --buffer-size <count>    Max pending operations. Range: 1-1024 (default: 64)."
    ∷ codes "  -p, --policy      <type>     Overflow policy: 'wait' or 'drop' (default: wait)."
    ∷ codes "  -o, --output      <path>     Output directory (default: current dir)."
    ∷ codes
        "  -f, --field       key=value  Additional field to the JSON output. Can be used multiple times."
    ∷ codes "  -n, --dry-run                Dry run."
    ∷ codes "  -h, --help                   Show this help message."
    ∷ codes "\nField Options:"
    ∷ codes "  -f, --field \"key=value\"   Add a field to the JSON output."
    ∷ codes "\n  Key Rules:"
    ∷ codes "    - Must contain only: 'a-z', 'A-Z', '0-9', '_' and '-'."
    ∷ codes "    - Maximum length: 64 characters."
    ∷ codes "\n  Value Type Inference:"
    ∷ codes "    - key=123        -> Number  (no quotes in JSON)."
    ∷ codes "    - key=1e+10      -> Number  (no quotes in JSON)."
    ∷ codes "    - key=true|false -> Boolean (no quotes in JSON)."
    ∷ codes "    - key=string     -> String."
    ∷ codes "    - key=\"123\"      -> Forced string."
    ∷ codes "    - key=\"true\"     -> Forced string."
    ∷ codes "\n  Example:"
    ∷ codes "    Input : jpipe -f \"id=101\" -f \"name=app\" -f \"active=true\" -f \"ver=1.2.0\""
    ∷ codes "    Output: {\"id\": 101, \"name\": \"app\", \"active\": true, \"ver\": \"1.2.0\"}"
    ∷ []

-- `display_help`, on the standard output so far.
abbrev pub display_help : Bytes → Errno × Bytes
display_help out = (Errno.ok, log_infos help_lines out)

-- A bullet and a space, in UTF-8.
abbrev bullet : Bytes
bullet = 226 ∷ 128 ∷ 162 ∷ 32 ∷ []

-- `%zu`.
abbrev size_text : ℕ → Bytes
size_text n = digits_of 20 n

-- `%-32.*s`.
abbrev padded : ℕ → Bytes → Bytes
padded len text = take len text ++ replicate (32 - length (take len text)) b' '

abbrev pub policy_text : Policy → Bytes
policy_text Policy.wait = codes "WAIT"
policy_text Policy.drop = codes "DROP"

-- `%s`; the path is not NULL here.
abbrev pub out_dir_text : Option Bytes → Bytes
out_dir_text none = []
out_dir_text (some path) = path

-- The loop over the fields from the field of index `i` on.
unfoldable pub field_texts : ℕ → List Field → List Bytes
field_texts i [] = []
field_texts i (field ∷ fields) =
    (codes "     "
      ++ size_text (suc i)
      ++ codes ". "
      ++ padded field.key_len field.key
      ++ codes "= "
      ++ padded field.val_len field.val)
    ∷ field_texts (suc i) fields

abbrev fields_part : ℕ → List Field → List Bytes
fields_part len fields =
    if ltb 0 len then (bullet ++ codes "Fields       (-f) :") ∷ field_texts 0 fields else []

-- `display_summary`, with the flag of `jp_config` and the text that `%.2f` makes of a number of bytes, in
-- units of 2^20.
unfoldable pub display_summary : Bool → (ℕ → Bytes) → WorkerCtx → Bytes → Bytes
display_summary silent megabytes ctx out =
    log_msgs silent
      ((codes "Application is starting...\n"
          ∷ codes "[Runtime Parameters]"
          ∷ (bullet
              ++ codes "Chunk Size   (-c) : "
              ++ size_text (ctx.chunk_size / bytes_in_kb)
              ++ codes " KB")
          ∷ (bullet ++ codes "Buffer Size  (-b) : " ++ size_text ctx.buffer_size)
          ∷ (bullet ++ codes "Output Dir   (-o) : " ++ out_dir_text ctx.out_dir)
          ∷ (bullet ++ codes "Policy       (-p) : " ++ policy_text ctx.policy)
          ∷ [])
        ++ fields_part ctx.fields.len ctx.fields.fields
        ++ (codes "\n[Resource Utilization]"
            ∷ (bullet
                ++ codes "Memory Usage      :  ~"
                ++ megabytes (ctx.chunk_size * ctx.buffer_size)
                ++ codes " MB")
            ∷ codes "\n* These values are based on user-provided parameters."
            ∷ codes
                "* Memory usage is an approximation;operating system overhead and thread stack allocations are not included.\n"
            ∷ []))
      out
