-- ===== src/Memory/Tests.antt =====
-- An allocation that fails, and a copy of a string.
use jpipe.Common.{◌≡◌, refl, true, [], ◌∷◌, ◌++◌, none, some, codes}
use jpipe.Errno.Context.{initial_ctx, ctx_set, explain_error}
use jpipe.Errno.Print.{
  Messages, ctx_print, row_of, error_piece, system_piece, file_piece, digits_of,
}
use jpipe.Errno.Fits.{whole_row}
use jpipe.Poller.{done, failed}
use jpipe.Memory.{allocated, aborted, mem_malloc, mem_strdup}

abbrev messages : Messages
messages = record { strerror = λ code. codes "Cannot allocate memory"; mach_error_string = none }

out_of_memory :
    mem_malloc messages true initial_ctx (λ size. failed 12) 64
    ≡ aborted (
        some (
          whole_row (
            codes
              "[ERROR]: Could not allocate memory. | (E12) Cannot allocate memory | [memory.c@11]")))
unfolding mem_malloc ctx_set ctx_print row_of error_piece system_piece file_piece digits_of
    explain_error
out_of_memory = refl

copied :
    mem_strdup messages true initial_ctx (λ size. done size) (codes "logs")
    ≡ (allocated 5, codes "logs" ++ 0 ∷ [])
unfolding mem_strdup mem_malloc
copied = refl
