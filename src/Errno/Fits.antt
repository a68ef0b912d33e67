-- ===== src/Errno/Fits.antt =====
-- The row of `jp_errno_ctx_print` of src/errno.c fits its buffer: every `snprintf` has room for all of
-- its text.
use jpipe.Common.{
  ℕ, zero, suc, ◌+◌, ◌-◌, ◌%◌, ◌^◌, ◌≤◌, ◌<◌, ◌≡◌, ◌⊎◌, refl, ap, Bool, true, false, ◌&&◌, [], ◌∷◌,
  inl, inr, ◌++◌, append-nil, Option, none, some, arith, ltb, if◌then◌else◌, length, length-append,
  take, Bytes, add_size,
}
use jpipe.Errno.{is_ok}
use jpipe.Errno.Context.{Source, Ctx}
use jpipe.Errno.Print.{
  Row, append, append_if, is_some_text, is_posix, is_mach, is_source, error_piece, stack_piece,
  system_piece, file_piece, Messages, append_mach, row_of, end_row, ctx_print,
}
use jpipe.Errno.Lengths.{
  length-error_piece, length-stack_piece, length-system_piece, length-file_piece,
}

-- A text that is there when its test holds.
abbrev pub if_text : Bool → Bytes → Bytes
if_text test text = if test then text else []

abbrev pub mach_text : Option (ℕ → Bytes) → Ctx → Bytes
mach_text none ctx = []
mach_text (some message) ctx =
    if_text (ltb 0 ctx.sys_err && is_mach ctx.src) (system_piece message ctx)

-- The text that the row is meant to show.
unfoldable pub row_text : Messages → Bool → Ctx → Bytes
row_text messages no_color ctx =
    (((error_piece no_color ctx ++ if_text (is_some_text ctx.stack) (stack_piece ctx))
        ++ if_text (ltb 0 ctx.sys_err && is_posix ctx.src) (system_piece messages.strerror ctx))
      ++ mach_text messages.mach_error_string ctx)
    ++ if_text (is_source ctx.src) (file_piece ctx)

-- A row of `text` and its newline.
abbrev pub whole_row : Bytes → Row
whole_row text = record { stack = text ++ b'\n' ∷ []; offset = length text + 1 }

-- The row holds all of `text`, which is at most `n` bytes.
record Shows (r : Row) (text : Bytes) (n : ℕ) : Type 0 where
  stack_eq : r.stack ≡ text
  offset_eq : r.offset ≡ length text
  short : length text ≤ n

take_enough : (n : ℕ) (xs : Bytes) → length xs ≤ n → take n xs ≡ xs
take_enough zero [] h = refl
take_enough zero (x ∷ xs) h = absurd (omega arith)
take_enough (suc n) [] h = refl
take_enough (suc n) (x ∷ xs) h = ap (λ t. x ∷ t) (take_enough n xs (omega arith))

-- What `size - offset` leaves for a text that fits.
left_lem : (offset n : ℕ) → offset + n < 640 → n ≤ (640 + 2 ^ 64 - offset) % 2 ^ 64 - 1
left_lem offset n h = omega arith

append-Shows :
    (r : Row) (text piece : Bytes) (n k : ℕ)
    → Shows r text n
    → length piece ≤ k
    → n + k < 640
    → Shows (append r piece) (text ++ piece) (n + k)
append-Shows r text piece n k s small room = record {
  stack_eq = rw (s.stack_eq) (
      ap (λ t. text ++ t)
        (take_enough ((640 + 2 ^ 64 - r.offset) % 2 ^ 64 - 1) piece
          (left_lem r.offset (length piece) (omega arith))));
  offset_eq = omega (arith, s.offset_eq, length-append text piece);
  short = omega (arith, length-append text piece);
}

append_not-Shows : (r : Row) (text : Bytes) (n : ℕ) → Shows r text n → Shows r (text ++ []) n
append_not-Shows r text n s = record {
  stack_eq = rw (append-nil text) s.stack_eq;
  offset_eq = rw (append-nil text) s.offset_eq;
  short = rw (append-nil text) s.short;
}

more-Shows : (r : Row) (text : Bytes) (n k : ℕ) → Shows r text n → Shows r text (n + k)
more-Shows r text n k s = record {
  stack_eq = s.stack_eq;
  offset_eq = s.offset_eq;
  short = omega (arith, s.short);
}

append_if-Shows :
    (test : Bool) (r : Row) (text piece : Bytes) (n k : ℕ)
    → Shows r text n
    → length piece ≤ k
    → n + k < 640
    → Shows (append_if test r piece) (text ++ if_text test piece) (n + k)
append_if-Shows true r text piece n k s small room = append-Shows r text piece n k s small room
append_if-Shows false r text piece n k s small room =
    more-Shows r (text ++ []) n k (append_not-Shows r text n s)

append_unless-Shows :
    (test : Bool) (r : Row) (text piece : Bytes) (n : ℕ)
    → test ≡ false
    → Shows r text n
    → Shows (append_if test r piece) (text ++ if_text test piece) n
append_unless-Shows true r text piece n e s = absurd (ground arith)
append_unless-Shows false r text piece n e s = append_not-Shows r text n s

-- The context has one source at most, so one system message at most.
one_source :
    (test : Bool) (src : Source) → (test && is_posix src ≡ false) ⊎ (test && is_mach src ≡ false)
one_source true Source.none = inl refl
one_source true Source.posix = inr refl
one_source true Source.mach = inl refl
one_source false src = inl refl

append_mach-Shows :
    (message : Option (ℕ → Bytes)) (ctx : Ctx) (r : Row) (text : Bytes) (n : ℕ)
    → Shows r text n
    → n + 145 < 640
    → Shows (append_mach message ctx r) (text ++ mach_text message ctx) (n + 145)
append_mach-Shows none ctx r text n s room =
    more-Shows r (text ++ []) n 145 (append_not-Shows r text n s)
append_mach-Shows (some message) ctx r text n s room =
    append_if-Shows (ltb 0 ctx.sys_err && is_mach ctx.src) r text (system_piece message ctx) n 145 s
      (length-system_piece message ctx) room

append_no_mach-Shows :
    (message : Option (ℕ → Bytes)) (ctx : Ctx) (r : Row) (text : Bytes) (n : ℕ)
    → ltb 0 ctx.sys_err && is_mach ctx.src ≡ false
    → Shows r text n
    → Shows (append_mach message ctx r) (text ++ mach_text message ctx) n
append_no_mach-Shows none ctx r text n e s = append_not-Shows r text n s
append_no_mach-Shows (some message) ctx r text n e s =
    append_unless-Shows (ltb 0 ctx.sys_err && is_mach ctx.src) r text (system_piece message ctx) n e
      s

module _ (messages : Messages) (ctx : Ctx) where
  posix_text : Bytes
  posix_text = if_text (ltb 0 ctx.sys_err && is_posix ctx.src) (system_piece messages.strerror ctx)

  system-Shows :
      (r : Row) (text : Bytes) (n : ℕ)
      → Shows r text n
      → n + 145 < 640
      → Shows
          (append_mach messages.mach_error_string ctx (
            append_if
              (ltb 0 ctx.sys_err && is_posix ctx.src)
              r
              (system_piece messages.strerror ctx)))
          ((text ++ posix_text) ++ mach_text messages.mach_error_string ctx)
          (n + 145)
  unfolding posix_text
  system-Shows r text n s room = elim (one_source (ltb 0 ctx.sys_err) ctx.src) [
    | inl no_posix ↦
        append_mach-Shows messages.mach_error_string ctx _ (text ++ posix_text) n
          (append_unless-Shows (ltb 0 ctx.sys_err && is_posix ctx.src) r text
            (system_piece messages.strerror ctx) n no_posix s)
          room
    | inr no_mach ↦
        append_no_mach-Shows messages.mach_error_string ctx _ (text ++ posix_text) (n + 145) no_mach
          (append_if-Shows (ltb 0 ctx.sys_err && is_posix ctx.src) r text
            (system_piece messages.strerror ctx) n 145 s (length-system_piece messages.strerror ctx)
            room)
  ]

  row_of-Shows :
      (no_color : Bool) → Shows (row_of messages no_color ctx) (row_text messages no_color ctx) 566
  unfolding posix_text row_of row_text
  row_of-Shows no_color =
      append_if-Shows (is_source ctx.src) _ _ (file_piece ctx) 422 144
        (system-Shows _ _ 277
          (append_if-Shows (is_some_text ctx.stack) _ _ (stack_piece ctx) 146 131
            (append-Shows (record { stack = []; offset = 0 }) [] (error_piece no_color ctx) 0 146
              (record { stack_eq = refl; offset_eq = refl; short = omega arith })
              (length-error_piece no_color ctx) (omega arith))
            (length-stack_piece ctx) (omega arith))
          (omega arith))
        (length-file_piece ctx) (omega arith)

shown :
    (r : Row) (text : Bytes) (n : ℕ)
    → Shows r text n
    → n < 639
    → (some (end_row r) ≡ some (whole_row text)) × (length text + 1 < 640)
shown r text n s room = (ap some (row_eq (rw s.stack_eq refl) offset_eq), omega (arith, s.short))
  where
    offset_eq : add_size r.offset 1 ≡ length text + 1
    offset_eq = omega (arith, s.offset_eq, s.short)

    row_eq :
        (p : (end_row r).stack ≡ (whole_row text).stack)
        → (end_row r).offset ≡ (whole_row text).offset
        → end_row r ≡ whole_row text
    row_eq p q = λ i. record { stack = p i; offset = q i }

-- For a context with an error, whatever its texts and numbers are, jp_errno_ctx_print writes the
-- row of all its pieces, none cut short by the buffer, and a newline, and the newline and the NUL
-- stand inside the 640 bytes.
pub ctx_print-row_text :
    (messages : Messages) (no_color : Bool) (ctx : Ctx)
    → is_ok ctx.err ≡ false
    → (ctx_print messages no_color ctx ≡ some (whole_row (row_text messages no_color ctx)))
      × (length (row_text messages no_color ctx) + 1 < 640)
unfolding ctx_print
ctx_print-row_text messages no_color ctx err =
    rw err (shown _ _ 566 (row_of-Shows messages ctx no_color) (omega arith))
