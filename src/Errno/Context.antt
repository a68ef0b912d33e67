-- ===== src/Errno/Context.antt =====
-- The error context of src/errno.c, which each thread has one of, and what its codes say.
use jpipe.Common.{ℕ, ◌-◌, ◌<◌, [], arith, length, length-take, take, Bytes, codes}
use jpipe.Errno.{Errno}

-- `jp_errno_src_t`.
pub data Source : Type 0 where
  none posix mach : Source

-- `global_errno_ctx_t`. The callers pass `errno` and statuses of the thread library for `sys_err`.
pub record Ctx : Type 0 where
  pub line : ℕ
  pub sys_err : ℕ
  pub file : Bytes
  pub err : Errno
  pub src : Source
  pub stack : Bytes

abbrev pub error_msg_max_len : ℕ
error_msg_max_len = 128

abbrev pub error_row_max_len : ℕ
error_row_max_len = 640

abbrev pub initial_ctx : Ctx
initial_ctx = record {
  line = 0;
  sys_err = 0;
  file = [];
  err = Errno.ok;
  src = Source.none;
  stack = [];
}

-- `explain_error`.
unfoldable pub explain_error : Errno → Bytes
explain_error Errno.emissing_cmd =
    codes "Missing command. Please use 'jpipe --help' to see available commands."
explain_error Errno.eunknown_cmd =
    codes "Unknown command. Please use 'jpipe --help' to see available commands."
explain_error Errno.eunknown_run_cmd =
    codes "Unknown [run] argument. Please use 'jpipe run --help' to see available options."
explain_error Errno.echunk_size =
    codes "Chunk size must be between 1kb (1024B) and 128kb (131072B), default (16kb)."
explain_error Errno.ebuffer_size = codes "Buffer size must be between 1 and 1024, (default: 64)"
explain_error Errno.eoverflow_policy =
    codes "Overflow policy must be 'wait' or 'drop', (default: wait)."
explain_error Errno.eout_dir = codes "Output directory is invalid, inaccessible or path too long."
explain_error Errno.etoo_many_field = codes "Too many fields. Maximum allowed field number is 32."
explain_error Errno.einv_field_key =
    codes "Invalid field key. The key must be at most 64 character (allowed: a-z, A-Z, 0-9, _, -)."
explain_error Errno.einv_field_val = codes "Invalid field value. The key must be at most 512 byte."
explain_error Errno.eshutting_down = codes "The application is shutting down."
explain_error Errno.emsg_should_drop = codes "Message was dropped."
explain_error Errno.etryagain = codes "Try again later."
explain_error Errno.erun_failed = codes "An error occurred. Cannot run the application."
explain_error Errno.enomemory = codes "Could not allocate memory."
explain_error Errno.eread_failed = codes "Cannot read the incoming stream."
explain_error Errno.ewrite_failed = codes "Cannot write the stream."
explain_error Errno.esys_err = codes "System error occurred."
explain_error Errno.ok = codes "unknown error"

-- `jp_errno_ctx_set`.
unfoldable pub ctx_set : Errno → Source → ℕ → Bytes → ℕ → Ctx → Errno × Ctx
ctx_set err src sys_err file line ctx =
    (err, record { line = line; sys_err = sys_err; file = file; err = err; src = src; stack = [] })

-- `jp_errno_ctx_setf`, with `text` for what the format makes of its arguments: `vsnprintf` keeps as much
-- of it as fits with the NUL.
unfoldable pub ctx_setf : Errno → Source → ℕ → Bytes → ℕ → Bytes → Ctx → Errno × Ctx
ctx_setf err src sys_err file line text ctx =
    let (e, ctx') = ctx_set err src sys_err file line ctx in
    (e, record ctx' { stack = take (error_msg_max_len - 1) text })

-- The stack is a string in its array.
abbrev pub IsCtx : Ctx → Type 0
IsCtx ctx = length ctx.stack < 128

pub ctx_set-IsCtx :
    (err : Errno) (src : Source) (sys_err : ℕ) (file : Bytes) (line : ℕ) (ctx : Ctx)
    → IsCtx (ctx_set err src sys_err file line ctx).1
unfolding ctx_set
ctx_set-IsCtx err src sys_err file line ctx = omega arith

pub ctx_setf-IsCtx :
    (err : Errno) (src : Source) (sys_err : ℕ) (file : Bytes) (line : ℕ) (text : Bytes) (ctx : Ctx)
    → IsCtx (ctx_setf err src sys_err file line text ctx).1
unfolding ctx_setf ctx_set
ctx_setf-IsCtx err src sys_err file line text ctx = omega (arith, length-take 127 text)
