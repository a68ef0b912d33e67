-- ===== src/Errno/Tests.antt =====
-- The row that an error prints, and the theorem at it.
use jpipe.Common.{◌+◌, ◌<◌, ◌≡◌, refl, true, none, some, codes, length}
use jpipe.Errno.{Errno}
use jpipe.Errno.Context.{Source, Ctx, explain_error, initial_ctx, ctx_set, ctx_setf}
use jpipe.Errno.Print.{
  digits_of, error_piece, stack_piece, system_piece, file_piece, Messages, row_of, ctx_print,
}
use jpipe.Errno.Fits.{row_text, whole_row, ctx_print-row_text}

abbrev messages : Messages
messages = record {
  strerror = (λ code. codes "No such file or directory");
  mach_error_string = none;
}

-- A read error that `reader.c` raises with a message of its own.
abbrev read_ctx : Ctx
read_ctx = record {
  line = 57;
  sys_err = 2;
  file = codes "reader.c";
  err = Errno.eread_failed;
  src = Source.posix;
  stack = codes "fd 3";
}

raised :
    ctx_setf Errno.eread_failed Source.posix 2 (codes "reader.c") 57 (codes "fd 3") initial_ctx
    ≡ (Errno.eread_failed, read_ctx)
unfolding ctx_setf ctx_set
raised = refl

printed :
    ctx_print messages true read_ctx
    ≡ some (
        whole_row (
          codes
            "[ERROR]: Cannot read the incoming stream. | fd 3 | (E2) No such file or directory | [reader.c@57]"))
unfolding ctx_print row_of error_piece stack_piece system_piece file_piece digits_of explain_error
printed = refl

nothing_printed : ctx_print messages true initial_ctx ≡ none
unfolding ctx_print
nothing_printed = refl

ctx_print-row_text_example :
    (ctx_print messages true read_ctx ≡ some (whole_row (row_text messages true read_ctx)))
    × (length (row_text messages true read_ctx) + 1 < 640)
ctx_print-row_text_example = ctx_print-row_text messages true read_ctx refl
