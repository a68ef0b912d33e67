-- ===== src/Json/Literal.antt =====
-- `is_json_numeric_literal` and `is_json_string_literal` of src/json.c: which field values are
-- written without quotes.
pub mod Grammar
pub mod Quoting
use jpipe.Common.{
  ℕ, Bool, true, false, not, ◌&&◌, ◌||◌, List, [], ◌∷◌, Option, none, some, ◌==◌, leb,
  if◌then◌else◌, length, Bytes, equal, codes,
}

-- `json_number_state_t`.
pub data State : Type 0 where
  start minus zero digit dot fraction exp exp_sign exp_digit : State

abbrev pub is_digit : ℕ → Bool
is_digit ch = leb b'0' ch && leb ch b'9'

-- One round of the loop; `none` is `return false`.
unfoldable pub step : State → ℕ → Option State
step start ch =
    if ch == b'-'
    then some minus
    else if ch == b'0'
    then some zero
    else if is_digit ch
    then some digit
    else none
step minus ch = if ch == b'0' then some zero else if is_digit ch then some digit else none
step zero ch = if ch == b'.' then some dot else if ch == b'e' || ch == b'E' then some exp else none
step digit ch =
    if is_digit ch
    then some digit
    else if ch == b'.'
    then some dot
    else if ch == b'e' || ch == b'E'
    then some exp
    else none
step dot ch = if is_digit ch then some fraction else none
step fraction ch =
    if is_digit ch then some fraction else if ch == b'e' || ch == b'E' then some exp else none
step exp ch =
    if ch == b'+' || ch == b'-' then some exp_sign else if is_digit ch then some exp_digit else none
step exp_sign ch = if is_digit ch then some exp_digit else none
step exp_digit ch = if is_digit ch then some exp_digit else none

-- The test behind the loop.
unfoldable pub is_final : State → Bool
is_final zero = true
is_final digit = true
is_final fraction = true
is_final exp_digit = true
is_final _ = false

unfoldable pub accepts : State → Bytes → Bool
accepts state [] = is_final state
accepts state (ch ∷ str) = elim (step state ch) [ none ↦ false | some state' ↦ accepts state' str ]

-- The bytes are `str[0..len)`.
unfoldable pub is_json_numeric_literal : Bytes → Bool
is_json_numeric_literal str = accepts start str

-- The tests of `is_json_string_literal` behind the one for an empty value. `memcmp` is non-zero
-- where the ranges differ.
unfoldable pub is_json_string_literal : Bytes → Bool
is_json_string_literal [] = true
is_json_string_literal (ch ∷ rest) =
    let str = ch ∷ rest in
    let len = length str in
    if ch == b't' && len == 4
    then not (equal str (codes "true"))
    else if ch == b'f' && len == 5
    then not (equal str (codes "false"))
    else if ch == b'n' && len == 4
    then not (equal str (codes "null"))
    else if ch == b'-' || is_digit ch
    then not (is_json_numeric_literal str)
    else true
