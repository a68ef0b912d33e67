-- ===== src/Memory.antt =====
-- src/memory.c: allocations that do not fail but end the program.
pub mod Heap
mod Tests
use jpipe.Common.{
  ℕ, ◌+◌, ◌*◌, ◌≡◌, ◌∙◌, refl, ap, Bool, [], ◌∷◌, ◌++◌, Option, some, length, Bytes, codes,
  add_size,
}
use jpipe.Errno.{Errno}
use jpipe.Errno.Context.{Ctx}
use jpipe.Errno.Print.{Messages, Row, ctx_print}
use jpipe.Errno.Fits.{row_text, whole_row, ctx_print-row_text}
use jpipe.Errno.Context.{ctx_set}
use jpipe.Poller.{Called, done, failed, raise_posix}

-- How an allocation ends: with an address, or with `abort`, and the row that is printed before it.
pub data Allocation : Type 0 where
  allocated : ℕ → Allocation
  aborted : Option Row → Allocation

-- The test behind `malloc` and `calloc`.
abbrev pub or_abort : Messages → Bool → ℕ → Ctx → Called ℕ → Allocation
or_abort messages no_color line ctx (done p) = allocated p
or_abort messages no_color line ctx (failed errno) =
    aborted (
      ctx_print messages no_color (raise_posix Errno.enomemory errno (codes "memory.c") line ctx).1)

module _ (messages : Messages) (no_color : Bool) (ctx : Ctx) where
  -- `jp_mem_malloc`, with `malloc`.
  unfoldable pub mem_malloc : (ℕ → Called ℕ) → ℕ → Allocation
  mem_malloc malloc size = or_abort messages no_color 11 ctx (malloc size)

  -- `jp_mem_calloc`, with `calloc`.
  unfoldable pub mem_calloc : (ℕ → ℕ → Called ℕ) → ℕ → ℕ → Allocation
  mem_calloc calloc count size = or_abort messages no_color 24 ctx (calloc count size)

  -- `jp_mem_strdup`: the allocation, and what it holds then.
  unfoldable pub mem_strdup : (ℕ → Called ℕ) → Bytes → Allocation × Bytes
  mem_strdup malloc src = (mem_malloc malloc (add_size (length src) 1), src ++ 0 ∷ [])

  -- An allocation that fails prints the whole row of its error before the program ends.
  pub mem_malloc-row_text :
      (malloc : ℕ → Called ℕ) (size errno : ℕ)
      → malloc size ≡ failed errno
      → mem_malloc malloc size
        ≡ aborted (
            some (
              whole_row (
                row_text messages no_color
                  (raise_posix Errno.enomemory errno (codes "memory.c") 11 ctx).1)))
  unfolding mem_malloc ctx_set
  mem_malloc-row_text malloc size errno e =
      ap (or_abort messages no_color 11 ctx) e
      ∙ ap aborted
          (ctx_print-row_text messages no_color
            (raise_posix Errno.enomemory errno (codes "memory.c") 11 ctx).1 refl).0
