-- ===== src/Errno/Lengths.antt =====
-- How long the pieces of an error row are at most.
use jpipe.Common.{
  ℕ, zero, suc, ◌+◌, ◌/◌, ◌%◌, ◌≤◌, Bool, true, false, [], ◌∷◌, ◌++◌, arith, length, length-append,
  length-take, Bytes, codes,
}
use jpipe.Errno.Context.{Ctx, explain_error}
use jpipe.Errno.Print.{
  at_most, digits_of, decimal, error_piece, stack_piece, system_piece, file_piece,
}

length-digits_of : (fuel n : ℕ) → length (digits_of fuel n) ≤ fuel
unfolding digits_of
length-digits_of zero n = omega arith
length-digits_of (suc fuel) n = ground (
  arith,
  length-digits_of fuel (n / 10),
  length-append (digits_of fuel (n / 10)) ((48 + n % 10) ∷ []),
)

length-at_most : (text : Bytes) → length (at_most text) ≤ 128
length-at_most text = omega (arith, length-take 128 text)

pub length-error_piece : (no_color : Bool) (ctx : Ctx) → length (error_piece no_color ctx) ≤ 146
unfolding error_piece
length-error_piece true ctx = omega (arith, length-at_most (explain_error ctx.err))
length-error_piece false ctx = omega (arith, length-at_most (explain_error ctx.err))

pub length-stack_piece : (ctx : Ctx) → length (stack_piece ctx) ≤ 131
unfolding stack_piece
length-stack_piece ctx = omega (arith, length-at_most ctx.stack)

pub length-system_piece :
    (message : ℕ → Bytes) (ctx : Ctx) → length (system_piece message ctx) ≤ 145
unfolding system_piece
length-system_piece message ctx = omega (
  arith,
  length-at_most (message ctx.sys_err),
  length-append (decimal ctx.sys_err) (codes ") " ++ at_most (message ctx.sys_err)),
  length-digits_of 10 ctx.sys_err,
)

pub length-file_piece : (ctx : Ctx) → length (file_piece ctx) ≤ 144
unfolding file_piece
length-file_piece ctx = omega (
  arith,
  length-at_most ctx.file,
  length-append (at_most ctx.file) (codes "@" ++ (decimal ctx.line ++ codes "]")),
  length-append (decimal ctx.line) (codes "]"),
  length-digits_of 10 ctx.line,
)
