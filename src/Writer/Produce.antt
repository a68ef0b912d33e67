-- ===== src/Writer/Produce.antt =====
-- `jp_writer_produce` over all blocks up to the shutdown, for any input.
use jpipe.Common.{
  joined, joined-append, ℕ, ◌+◌, ◌^◌, ◌<◌, ◌≤◌, ◌≡◌, refl, sym, ap, ◌∙◌, inl, inr, List, [], ◌∷◌,
  ◌++◌, append-nil, append_assoc, Option, some, arith, if◌then◌else◌, Bool-cases, length, Bytes,
  All, All-append,
}
use jpipe.Errno.{Errno, is_ok}
use jpipe.Writer.{Cursor, Sink, final_err, after_block, produce_loop, writer_produce}
use jpipe.Writer.Newlines.{HasNoNewline, CleanCut, cut_block-CleanCut, strip-CleanCut}
use jpipe.Writer.Split.{strip, strip-append}
use jpipe.Writer.Lines.{
  Cut, cut_block, send, outcome, block_loop-cut_block, LinesFit, CutSpec, cut_block-CutSpec,
}

-- The lines that are cut from a sequence of blocks, and what the overflow holds behind the last.
unfoldable pub cut_blocks : ℕ → List Bytes → Bytes → Cut
cut_blocks chunk_size [] overflow = ([], overflow)
cut_blocks chunk_size (block ∷ blocks) overflow =
    let cut =
      cut_block chunk_size (length block + length block + 2)
        (record { start = block; overflow = overflow }) in
    let later = cut_blocks chunk_size blocks cut.1 in (cut.0 ++ later.0, later.1)

abbrev pub BlocksFit : ℕ → List Bytes → Type 0
BlocksFit chunk_size blocks = All (λ block. length block ≤ chunk_size) blocks

abbrev pub returned : {W : Type 0} → Errno × W → Errno × W
returned (err, w) = (final_err err, w)

module _ {W : Type 0} (sink : Sink W) where
  send-append :
      (xs ys : List Bytes) (w : W)
      → send sink (xs ++ ys) w
        ≡ (if is_ok (send sink xs w).0 then send sink ys (send sink xs w).1 else send sink xs w)
  unfolding send
  send-append [] ys w = refl
  send-append (x ∷ xs) ys w = elim (Bool-cases (is_ok (sink.write x w).0)) [
    | inl ok ↦ rw ok (send-append xs ys (sink.write x w).1)
    | inr err ↦ rw err (rw err)
  ]

  -- How the outer loop goes on, given how it does behind the block.
  continued :
      (chunk_size : ℕ) (overflow : Bytes) (s : Errno × W) (next : Bytes → W → Option (Errno × W))
      (later : List Bytes)
      → ((w : W) → next overflow w ≡ some (returned (send sink later w)))
      → after_block sink chunk_size next (some (outcome sink overflow s))
        ≡ some (returned (if is_ok s.0 then send sink later s.1 else s))
  continued chunk_size overflow (Errno.ok, w) next later ih = ih w
  continued chunk_size overflow (_, w) next later ih = refl

  pub produce_loop-cut_blocks :
      (chunk_size : ℕ) (blocks : List Bytes) (overflow : Bytes) (w : W)
      → chunk_size < 2 ^ 63
      → BlocksFit chunk_size blocks
      → length overflow ≤ chunk_size
      → produce_loop sink chunk_size blocks overflow w
        ≡ some (returned (send sink (cut_blocks chunk_size blocks overflow).0 w))
  unfolding produce_loop cut_blocks
  produce_loop-cut_blocks chunk_size [] overflow w small b o = unfold send in refl
  produce_loop-cut_blocks chunk_size (block ∷ blocks) overflow w small b o =
      let fuel = length block + length block + 2 in
      let cut = cut_block chunk_size fuel (record { start = block; overflow = overflow }) in
      let spec = cut_block-CutSpec chunk_size fuel block overflow small (omega arith) b.0 o in
      let later = (cut_blocks chunk_size blocks cut.1).0 in
      ap (after_block sink chunk_size (produce_loop sink chunk_size blocks))
        (block_loop-cut_block sink chunk_size fuel block overflow w small (omega arith) b.0 o)
      ∙ continued chunk_size cut.1 (send sink cut.0 w) (produce_loop sink chunk_size blocks) later
          (λ w'. produce_loop-cut_blocks chunk_size blocks cut.1 w' small b.1 spec.within)
      ∙ ap (λ s. some (returned s)) (sym (send-append cut.0 later w))

cut_blocks-CutSpec :
    (chunk_size : ℕ) (blocks : List Bytes) (overflow : Bytes)
    → chunk_size < 2 ^ 63
    → BlocksFit chunk_size blocks
    → length overflow ≤ chunk_size
    → CutSpec chunk_size (joined blocks) overflow (cut_blocks chunk_size blocks overflow)
unfolding cut_blocks joined
cut_blocks-CutSpec chunk_size [] overflow small b o = record {
  fit = tt;
  within = o;
  kept = unfold strip joined in append-nil (strip overflow);
}
cut_blocks-CutSpec chunk_size (block ∷ blocks) overflow small b o =
    let fuel = length block + length block + 2 in
    let cut = cut_block chunk_size fuel (record { start = block; overflow = overflow }) in
    let here = cut_block-CutSpec chunk_size fuel block overflow small (omega arith) b.0 o in
    let later = cut_blocks-CutSpec chunk_size blocks cut.1 small b.1 here.within in
    record {
      fit = All-append (λ line. length line ≤ chunk_size) cut.0 _ here.fit later.fit;
      within = later.within;
      kept = joined_kept overflow block (joined blocks) cut.0 cut.1 _ _ here.kept later.kept;
    }
  where
    joined_kept :
        (o b bs : Bytes) (ls : List Bytes) (o' : Bytes) (ls' : List Bytes) (o'' : Bytes)
        → strip o ++ strip b ≡ strip (joined ls) ++ strip o'
        → strip o' ++ strip bs ≡ strip (joined ls') ++ strip o''
        → strip o ++ strip (b ++ bs) ≡ strip (joined (ls ++ ls')) ++ strip o''
    joined_kept o b bs ls o' ls' o'' h k =
        rw (strip-append b bs, joined-append ls ls', strip-append (joined ls) (joined ls'))
          (sym (append_assoc (strip o) (strip b) (strip bs))
            ∙ ap (λ t. t ++ strip bs) h
            ∙ append_assoc (strip (joined ls)) (strip o') (strip bs)
            ∙ ap (λ t. strip (joined ls) ++ t) k
            ∙ sym (append_assoc (strip (joined ls)) (strip (joined ls')) (strip o'')))

cut_blocks-CleanCut :
    (chunk_size : ℕ) (blocks : List Bytes) (overflow : Bytes)
    → HasNoNewline overflow
    → CleanCut (cut_blocks chunk_size blocks overflow)
unfolding cut_blocks
cut_blocks-CleanCut chunk_size [] overflow clean = record { lines = tt; rest = clean }
cut_blocks-CleanCut chunk_size (block ∷ blocks) overflow clean =
    let c : Cursor = record { start = block; overflow = overflow } in
    let here = cut_block-CleanCut chunk_size (length block + length block + 2) c clean in
    let later = cut_blocks-CleanCut chunk_size blocks _ here.rest in
    record { lines = All-append HasNoNewline _ _ here.lines later.lines; rest = later.rest }

-- What `jp_writer_produce` makes of the blocks, whatever writes the records: the records of some lines
-- in turn, up to the first failure.
pub record Written {W : Type 0} (sink : Sink W) (chunk_size : ℕ) (blocks : List Bytes) (w : W)
    : Type 0 where
  pub lines : List Bytes
  pub rest : Bytes
  pub result : writer_produce sink chunk_size blocks w ≡ some (returned (send sink lines w))
  pub fit : LinesFit chunk_size lines
  pub rest_fits : length rest ≤ chunk_size
  pub lines_clean : All HasNoNewline lines
  pub rest_clean : HasNoNewline rest
  pub kept : strip (joined blocks) ≡ joined lines ++ rest

-- For a chunk_size from 1 to below 2^63 and blocks of at most chunk_size bytes jp_writer_produce
-- ends, and writes the records of lines of at most chunk_size bytes up to the first write that
-- fails; neither those lines nor what stays in the overflow has a newline, and one behind the
-- other they are the input without its newlines.
pub writer_produce-Written :
    {W : Type 0} (sink : Sink W) (chunk_size : ℕ) (blocks : List Bytes) (w : W)
    → 0 < chunk_size
    → chunk_size < 2 ^ 63
    → BlocksFit chunk_size blocks
    → Written sink chunk_size blocks w
unfolding writer_produce
writer_produce-Written sink chunk_size blocks w _ small b =
    let cut = cut_blocks chunk_size blocks [] in
    let spec = cut_blocks-CutSpec chunk_size blocks [] small b (omega arith) in
    let clean = cut_blocks-CleanCut chunk_size blocks [] tt in
    let same : strip (joined blocks) ≡ strip (joined cut.0) ++ strip cut.1 =
      unfold strip in spec.kept in
    record {
      lines = cut.0;
      rest = cut.1;
      result = produce_loop-cut_blocks sink chunk_size blocks [] w small b (omega arith);
      fit = spec.fit;
      rest_fits = spec.within;
      lines_clean = clean.lines;
      rest_clean = clean.rest;
      kept = same ∙ strip-CleanCut cut clean;
    }
