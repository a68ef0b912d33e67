-- ===== src/Errno/Print.antt =====
-- `jp_errno_ctx_print` of src/errno.c: the row that it puts together in a buffer of its own.
use jpipe.Common.{
  ℕ, zero, suc, ◌+◌, ◌-◌, ◌/◌, ◌%◌, ◌^◌, Bool, true, false, ◌&&◌, [], ◌∷◌, ◌++◌, Option, none, some,
  ltb, if◌then◌else◌, length, take, Bytes, codes, add_size,
}
use jpipe.Errno.{is_ok}
use jpipe.Errno.Context.{Source, Ctx, error_row_max_len, explain_error}

-- `%.128s`.
abbrev pub at_most : Bytes → Bytes
at_most text = take 128 text

-- `%d` of an `int` that is not negative: at most ten digits.
unfoldable pub digits_of : ℕ → ℕ → Bytes
digits_of zero n = []
digits_of (suc fuel) n =
    let front = digits_of fuel (n / 10) in
    if ltb n 10 then (48 + n) ∷ [] else front ++ (48 + n % 10) ∷ []

abbrev pub decimal : ℕ → Bytes
decimal n = digits_of 10 n

-- The text in the buffer, and `offset`.
pub record Row : Type 0 where
  pub stack : Bytes
  pub offset : ℕ

-- `offset += snprintf(stack + offset, size - offset, …)`: as much of the text as fits with its NUL is
-- written, and the length of all of it is added.
abbrev pub append : Row → Bytes → Row
append r text =
    let room = (error_row_max_len + 2 ^ 64 - r.offset) % 2 ^ 64 in
    record { stack = r.stack ++ take (room - 1) text; offset = add_size r.offset (length text) }

abbrev pub append_if : Bool → Row → Bytes → Row
append_if test r text = if test then append r text else r

abbrev pub is_some_text : Bytes → Bool
is_some_text [] = false
is_some_text (c ∷ s) = true

abbrev pub is_posix : Source → Bool
is_posix Source.posix = true
is_posix src = false

abbrev pub is_mach : Source → Bool
is_mach Source.mach = true
is_mach src = false

abbrev pub is_source : Source → Bool
is_source Source.none = false
is_source src = true

abbrev pub tty_red : Bool → Bytes
tty_red no_color = if no_color then [] else 27 ∷ codes "[31m"

abbrev pub tty_rst : Bool → Bytes
tty_rst no_color = if no_color then [] else 27 ∷ codes "[0m"

-- The pieces of the row.
unfoldable pub error_piece : Bool → Ctx → Bytes
error_piece no_color ctx =
    tty_red no_color
    ++ (codes "[ERROR]" ++ (tty_rst no_color ++ (codes ": " ++ at_most (explain_error ctx.err))))

unfoldable pub stack_piece : Ctx → Bytes
stack_piece ctx = codes " | " ++ at_most ctx.stack

unfoldable pub system_piece : (ℕ → Bytes) → Ctx → Bytes
system_piece message ctx =
    codes " | (E" ++ (decimal ctx.sys_err ++ (codes ") " ++ at_most (message ctx.sys_err)))

unfoldable pub file_piece : Ctx → Bytes
file_piece ctx =
    codes " | [" ++ (at_most ctx.file ++ (codes "@" ++ (decimal ctx.line ++ codes "]")))

-- `strerror` and, where the program is built for it, `mach_error_string`.
pub record Messages : Type 0 where
  pub strerror : ℕ → Bytes
  pub mach_error_string : Option (ℕ → Bytes)

abbrev pub append_mach : Option (ℕ → Bytes) → Ctx → Row → Row
append_mach none ctx r = r
append_mach (some message) ctx r =
    append_if (ltb 0 ctx.sys_err && is_mach ctx.src) r (system_piece message ctx)

-- The row in front of its newline.
unfoldable pub row_of : Messages → Bool → Ctx → Row
row_of messages no_color ctx =
    let r0 = append (record { stack = []; offset = 0 }) (error_piece no_color ctx) in
    let r1 = append_if (is_some_text ctx.stack) r0 (stack_piece ctx) in
    let r2 =
      append_if (ltb 0 ctx.sys_err && is_posix ctx.src) r1 (system_piece messages.strerror ctx) in
    let r3 = append_mach messages.mach_error_string ctx r2 in
    append_if (is_source ctx.src) r3 (file_piece ctx)

-- The newline and the NUL go to `stack[offset]` and to the byte behind it.
abbrev pub end_row : Row → Row
end_row r = record { stack = r.stack ++ b'\n' ∷ []; offset = add_size r.offset 1 }

-- `jp_errno_ctx_print`: what is written to `stderr`, if anything is.
unfoldable pub ctx_print : Messages → Bool → Ctx → Option Row
ctx_print messages no_color ctx =
    if is_ok ctx.err then none else some (end_row (row_of messages no_color ctx))
