-- ===== src/Writer/Stream.antt =====
-- Where every line is shorter than a chunk, the blocks' ends do not show in the output: the records are
-- those of the complete lines of the input.
use jpipe.Common.{
  take_all, joined, ℕ, zero, suc, ◌+◌, ◌^◌, ◌<◌, ◌≤◌, ◌≡◌, ◌≢◌, refl, sym, subst, ap, ◌∙◌, inl, inr,
  false, List, [], ◌∷◌, ◌++◌, Option, none, some, arith, ◌==◌, ==_iff, ltb, Bool-cases, length,
  length-append, length-take, take, drop, Bytes, All,
}
use jpipe.Errno.{Errno}
use jpipe.Writer.{
  memchr, Cursor, Sink, remaining_len, copy_len, round_copied, round_overflow, round_fresh, round,
  writer_produce,
}
use jpipe.Writer.Split.{Search, memchr-Search, measure, RoundSpec, round-RoundSpec}
use jpipe.Writer.Lines.{Cut, with_line, cut_block, send}
use jpipe.Writer.Produce.{cut_blocks, BlocksFit, returned, produce_loop-cut_blocks}
use jpipe.Writer.Text.{cut_text, lines_of, ShortCut, cut_text-none, cut_text-some, cut_text-append}

-- One round on a cursor whose lines are short: up to the next newline, if there is one.
abbrev round_cut : Cursor → Option ℕ → Option Bytes × Cursor
round_cut c none = (none, record { start = []; overflow = c.overflow ++ c.start })
round_cut c (some i) =
    (some (c.overflow ++ take i c.start), record { start = drop (suc i) c.start; overflow = [] })

pub drop_all : (n : ℕ) (s : Bytes) → n ≡ length s → drop n s ≡ []
drop_all zero [] e = refl
drop_all zero (x ∷ s) e = absurd (omega arith)
drop_all (suc n) [] e = refl
drop_all (suc n) (x ∷ s) e = drop_all n s (omega arith)

empty_of_length : (s : Bytes) → length s ≡ 0 → s ≡ []
empty_of_length [] e = refl
empty_of_length (x ∷ s) e = absurd (omega arith)

module _ (chunk_size : ℕ) (c : Cursor) (small : chunk_size < 2 ^ 63) where
  copied-short :
      (d : Option ℕ)
      → Search c.start d
      → length c.overflow + remaining_len d c.start < chunk_size
      → round_copied chunk_size d (remaining_len d c.start) c ≡ round_cut c d
  unfolding round_copied
  copied-short none h short =
      let whole = take_all c.start (length c.start) refl in
      let open_line : (length (c.overflow ++ take (length c.start) c.start) == chunk_size) ≡ false =
        rw whole (not_equal (length-append c.overflow c.start) short) in
      rw open_line (rw (whole, drop_all (length c.start) c.start refl))
    where
      not_equal : {a b n : ℕ} → a ≡ b → b < n → (a == n) ≡ false
      not_equal e lt = ground arith
  copied-short (some i) h short = rw ((==_iff i i).1 refl) (rw h.at)

  fresh-short : (d : Option ℕ) → length c.overflow ≡ 0 → round_fresh d c ≡ round_cut c d
  unfolding round_fresh
  fresh-short none e = rw (empty_of_length c.overflow e)
  fresh-short (some i) e = rw (empty_of_length c.overflow e)

  round-short :
      length c.overflow + remaining_len (memchr c.start b'\n') c.start < chunk_size
      → round chunk_size c ≡ round_cut c (memchr c.start b'\n')
  unfolding round round_overflow
  round-short short =
      let d = memchr c.start b'\n' in
      let room : copy_len chunk_size d c ≡ remaining_len d c.start = omega arith in
      elim (Bool-cases (ltb 0 (length c.overflow))) [
        | inl more ↦ rw more (
            ap (λ n. round_copied chunk_size d n c) room
            ∙ copied-short d (memchr-Search c.start) short)
        | inr empty ↦ rw empty (fresh-short d (ground arith))
      ]

-- A text is cut as the round cuts it, and then the rest.
cut_text-RoundCut :
    (c : Cursor) (d : Option ℕ)
    → Search c.start d
    → cut_text c.overflow c.start
      ≡ with_line (round_cut c d).0 (cut_text (round_cut c d).1.overflow (round_cut c d).1.start)
cut_text-RoundCut c none h = cut_text-none c.overflow c.start h ∙ unfold cut_text in refl
cut_text-RoundCut c (some i) h = cut_text-some c.overflow c.start i h

ShortCut-later :
    (n : ℕ) (o : Option Bytes) (cut : Cut) → ShortCut n (with_line o cut) → ShortCut n cut
ShortCut-later n none cut h = h
ShortCut-later n (some line) cut h = (h.0.1, h.1)

ShortCut-round :
    (n : ℕ) (c : Cursor) (d : Option ℕ)
    → Search c.start d
    → ShortCut n
        (with_line (round_cut c d).0 (cut_text (round_cut c d).1.overflow (round_cut c d).1.start))
    → length c.overflow + remaining_len d c.start < n
unfolding cut_text
ShortCut-round n c none h short = omega (arith, short.1, length-append c.overflow c.start)
ShortCut-round n c (some i) h short =
    omega
      (arith, short.0.0, h.inside, length-append c.overflow (take i c.start), length-take i c.start)

cut_block-cut_text :
    (chunk_size fuel : ℕ) (start overflow : Bytes)
    → chunk_size < 2 ^ 63
    → measure (record { start = start; overflow = overflow }) < fuel
    → length start ≤ chunk_size
    → length overflow ≤ chunk_size
    → ShortCut chunk_size (cut_text overflow start)
    → cut_block chunk_size fuel (record { start = start; overflow = overflow })
      ≡ cut_text overflow start
unfolding cut_block
cut_block-cut_text chunk_size zero start overflow small m b o short = absurd (omega arith)
cut_block-cut_text chunk_size (suc fuel) [] overflow small m b o short = unfold cut_text in refl
cut_block-cut_text chunk_size (suc fuel) (x ∷ xs) overflow small m b o short =
    let c : Cursor = record { start = x ∷ xs; overflow = overflow } in
    let d = memchr c.start b'\n' in
    let found = memchr-Search c.start in
    let text = cut_text-RoundCut c d found in
    let short' = subst (ShortCut chunk_size) text short in
    let e = round-short chunk_size c small (ShortCut-round chunk_size c d found short') in
    let spec =
      subst (λ r. RoundSpec chunk_size c r.0 r.1) e
        (round-RoundSpec chunk_size c small (omega arith) b o) in
    let next = (round_cut c d).1 in
    ap (λ r. with_line r.0 (cut_block chunk_size fuel r.1)) e
    ∙ ap (with_line (round_cut c d).0) (
        cut_block-cut_text chunk_size fuel next.start next.overflow small
          (omega (arith, spec.nearer)) (omega (arith, spec.shorter)) spec.within
          (ShortCut-later chunk_size (round_cut c d).0 _ short'))
    ∙ sym text

All_front {ℓ κ} :
    {A : Type ℓ} (P : A → Type κ) (xs ys : List A) → All P (xs ++ ys) → All P xs × All P ys
All_front P [] ys h = (tt, h)
All_front P (x ∷ xs) ys h = let (a, b) = All_front P xs ys h.1 in ((h.0, a), b)

-- The part in front of a text is no longer than the line that it begins.
ShortCut-part : (n : ℕ) (part s : Bytes) → ShortCut n (cut_text part s) → length part < n
unfolding cut_text
ShortCut-part n part [] h = h.1
ShortCut-part n part (c ∷ s) h = elim (Bool-cases (c == b'\n')) [
  | inl newline ↦ (rw newline at h).0.0
  | inr byte ↦
      omega (arith, ShortCut-part n (part ++ c ∷ []) s (rw byte at h), length-append part (c ∷ []))
]

cut_blocks-cut_text :
    (chunk_size : ℕ) (blocks : List Bytes) (overflow : Bytes)
    → chunk_size < 2 ^ 63
    → BlocksFit chunk_size blocks
    → ShortCut chunk_size (cut_text overflow (joined blocks))
    → cut_blocks chunk_size blocks overflow ≡ cut_text overflow (joined blocks)
unfolding cut_blocks joined
cut_blocks-cut_text chunk_size [] overflow small b short = unfold cut_text in refl
cut_blocks-cut_text chunk_size (block ∷ blocks) overflow small b short =
    let fuel = length block + length block + 2 in
    let first = cut_text overflow block in
    let whole = cut_text-append overflow block (joined blocks) in
    let later = subst (ShortCut chunk_size) whole short in
    let (lines, lines') = All_front (λ line. length line < chunk_size) first.0 _ later.0 in
    let rest : ShortCut chunk_size (cut_text first.1 (joined blocks)) = (lines', later.1) in
    let here =
      cut_block-cut_text chunk_size fuel block overflow small (omega arith) b.0
        (omega (arith, ShortCut-part chunk_size overflow (block ++ joined blocks) short))
        (lines, ShortCut-part chunk_size first.1 (joined blocks) rest) in
    ap
      (λ cut.
        (cut.0 ++ (cut_blocks chunk_size blocks cut.1).0, (cut_blocks chunk_size blocks cut.1).1))
      here
    ∙ ap (λ cut. (first.0 ++ cut.0, cut.1))
        (cut_blocks-cut_text chunk_size blocks first.1 small b.1 rest)
    ∙ sym whole

-- Where chunk_size is below 2^63, every line and the part behind the last newline are shorter than
-- chunk_size and no block is longer, jp_writer_produce writes one record for each complete line of
-- the input, in order and up to the first failed write, wherever the input was cut into blocks;
-- what stands behind the last newline is not written.
pub writer_produce-lines_of :
    {W : Type 0} (sink : Sink W) (chunk_size : ℕ) (blocks : List Bytes) (w : W)
    → chunk_size < 2 ^ 63
    → BlocksFit chunk_size blocks
    → ShortCut chunk_size (cut_text [] (joined blocks))
    → writer_produce sink chunk_size blocks w
      ≡ some (returned (send sink (lines_of (joined blocks)) w))
unfolding writer_produce
writer_produce-lines_of sink chunk_size blocks w small b short =
    produce_loop-cut_blocks sink chunk_size blocks [] w small b (omega arith)
    ∙ ap (λ cut. some (returned (send sink cut.0 w)))
        (cut_blocks-cut_text chunk_size blocks [] small b short)

-- For a chunk_size below 2^63 and blocks of at most that size, an input shorter than chunk_size
-- that holds no newline is not written at all: jp_writer_produce returns JP_OK and leaves the sink
-- as it was.
writer_produce_unterminated :
    {W : Type 0} (sink : Sink W) (chunk_size : ℕ) (blocks : List Bytes) (w : W)
    → chunk_size < 2 ^ 63
    → BlocksFit chunk_size blocks
    → All (λ c. c ≢ b'\n') (joined blocks)
    → length (joined blocks) < chunk_size
    → writer_produce sink chunk_size blocks w ≡ some (Errno.ok, w)
writer_produce_unterminated sink chunk_size blocks w small b h lt =
    let cut = cut_text-none [] (joined blocks) h in
    writer_produce-lines_of sink chunk_size blocks w small b
      (subst (ShortCut chunk_size) (sym cut) (tt, lt))
    ∙ ap (λ c. some (returned (send sink c.0 w))) cut
    ∙ unfold send in refl
