-- ===== src/Log.antt =====
-- The macros of include/jp_common.h that print to the standard output; the formatted text is their argument.
use jpipe.Common.{Bool, List, [], ◌∷◌, ◌++◌, Bytes, if◌then◌else◌}

-- `JP_LOG_INFO`.
abbrev pub log_info : Bytes → Bytes → Bytes
log_info text out = out ++ (text ++ b'\n' ∷ [])

-- `JP_LOG_MSG`, with the flag of `jp_config`.
abbrev pub log_msg : Bool → Bytes → Bytes → Bytes
log_msg silent text out = if silent then out else out ++ (text ++ b'\n' ∷ [])

-- Calls behind one another.
unfoldable pub log_infos : List Bytes → Bytes → Bytes
log_infos [] out = out
log_infos (text ∷ texts) out = log_infos texts (log_info text out)

unfoldable pub log_msgs : Bool → List Bytes → Bytes → Bytes
log_msgs silent [] out = out
log_msgs silent (text ∷ texts) out = log_msgs silent texts (log_msg silent text out)
