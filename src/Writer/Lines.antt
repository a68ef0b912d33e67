-- ===== src/Writer/Lines.antt =====
-- The inner loop on a whole block: it ends, and what it writes is a list of lines that depends on the
-- bytes only.
use jpipe.Common.{
  joined, ℕ, zero, suc, ◌^◌, ◌<◌, ◌≤◌, ◌≡◌, refl, sym, ap, ◌∙◌, inl, inr, false, List, [], ◌∷◌,
  ◌++◌, append-nil, append_assoc, Option, none, some, arith, if◌then◌else◌, Bool-cases, length,
  Bytes, All,
}
use jpipe.Errno.{Errno, is_ok}
use jpipe.Writer.{Cursor, round, Sink, Outcome, went_on, failed, after_round, block_loop}
use jpipe.Writer.Split.{strip, strip-append, measure, RoundSpec, round-RoundSpec}

-- Lines that are written, and what stays in the overflow.
abbrev pub Cut : Type 0
Cut = List Bytes × Bytes

abbrev pub with_line : Option Bytes → Cut → Cut
with_line none cut = cut
with_line (some line) (lines, rest) = (line ∷ lines, rest)

-- The rounds of the inner loop without the writing.
unfoldable pub cut_block : ℕ → ℕ → Cursor → Cut
cut_block chunk_size zero c = ([], c.overflow)
cut_block chunk_size (suc fuel) c = elim c.start [
  | [] ↦ ([], c.overflow)
  | b ∷ bs ↦ let r = round chunk_size c in with_line r.0 (cut_block chunk_size fuel r.1)
]

module _ {W : Type 0} (sink : Sink W) where
  -- The lines one behind the other, up to the first write that fails.
  unfoldable pub send : List Bytes → W → Errno × W
  send [] w = (Errno.ok, w)
  send (line ∷ lines) w =
      let (err, w') = sink.write line w in
      let rest = send lines w' in if is_ok err then rest else (err, w')

  abbrev pub outcome : Bytes → Errno × W → Outcome W
  outcome overflow (Errno.ok, w) = went_on overflow w
  outcome overflow (err, w) = failed err w

  outcome_failed :
      (overflow : Bytes) (err : Errno) (w : W)
      → is_ok err ≡ false
      → outcome overflow (err, w) ≡ failed err w
  outcome_failed overflow Errno.ok w h = absurd (cc)
  outcome_failed overflow _ w h = refl

  -- Both sides of one round, given the same for the rounds behind it.
  after_round-with_line :
      (chunk_size : ℕ) (next : Cursor → W → Option (Outcome W)) (o : Option Bytes) (c : Cursor)
      (cut : Cut) (w : W)
      → ((w' : W) → next c w' ≡ some (outcome cut.1 (send cut.0 w')))
      → after_round sink chunk_size next (o, c) w
        ≡ some (outcome (with_line o cut).1 (send (with_line o cut).0 w))
  unfolding send
  after_round-with_line chunk_size next none c cut w ih = ih w
  after_round-with_line chunk_size next (some line) c cut w ih =
      elim (Bool-cases (is_ok (sink.write line w).0)) [
        | inl ok ↦ rw ok (ih (sink.write line w).1)
        | inr err ↦ rw err (ap some (sym (outcome_failed cut.1 _ _ err)))
      ]

  -- With more fuel than the measure of the cursor the loop ends, having sent the lines of `cut_block`.
  pub block_loop-cut_block :
      (chunk_size fuel : ℕ) (start overflow : Bytes) (w : W)
      → chunk_size < 2 ^ 63
      → measure (record { start = start; overflow = overflow }) < fuel
      → length start ≤ chunk_size
      → length overflow ≤ chunk_size
      → let cut = cut_block chunk_size fuel (record { start = start; overflow = overflow }) in
        block_loop sink chunk_size fuel (record { start = start; overflow = overflow }) w
        ≡ some (outcome cut.1 (send cut.0 w))
  unfolding block_loop cut_block
  block_loop-cut_block chunk_size zero start overflow w small m b o = absurd (omega arith)
  block_loop-cut_block chunk_size (suc fuel) [] overflow w small m b o = unfold send in refl
  block_loop-cut_block chunk_size (suc fuel) (x ∷ xs) overflow w small m b o =
      let c : Cursor = record { start = x ∷ xs; overflow = overflow } in
      let r = round chunk_size c in
      let spec = round-RoundSpec chunk_size c small (omega arith) b o in
      after_round-with_line chunk_size (block_loop sink chunk_size fuel) r.0 r.1
        (cut_block chunk_size fuel r.1) w
        (λ w'.
          block_loop-cut_block chunk_size fuel r.1.start r.1.overflow w' small
            (omega (arith, spec.nearer)) (omega (arith, spec.shorter)) spec.within)

abbrev pub LinesFit : ℕ → List Bytes → Type 0
LinesFit n lines = All (λ line. length line ≤ n) lines

pub record CutSpec (chunk_size : ℕ) (start overflow : Bytes) (cut : Cut) : Type 0 where
  pub fit : LinesFit chunk_size cut.0
  pub within : length cut.1 ≤ chunk_size
  pub kept : strip overflow ++ strip start ≡ strip (joined cut.0) ++ strip cut.1

with_line-CutSpec :
    (chunk_size : ℕ) (start overflow : Bytes) (o : Option Bytes) (c : Cursor) (cut : Cut)
    → RoundSpec chunk_size (record { start = start; overflow = overflow }) o c
    → CutSpec chunk_size c.start c.overflow cut
    → CutSpec chunk_size start overflow (with_line o cut)
unfolding strip joined
with_line-CutSpec chunk_size start overflow none c cut r s = record {
  fit = s.fit;
  within = s.within;
  kept = r.kept ∙ s.kept;
}
with_line-CutSpec chunk_size start overflow (some line) c cut r s = record {
  fit = (r.line_fits, s.fit);
  within = s.within;
  kept =
      r.kept
      ∙ ap (λ t. strip line ++ t) s.kept
      ∙ sym (append_assoc (strip line) (strip (joined cut.0)) (strip cut.1))
      ∙ ap (λ t. t ++ strip cut.1) (sym (strip-append line (joined cut.0)));
}

pub cut_block-CutSpec :
    (chunk_size fuel : ℕ) (start overflow : Bytes)
    → chunk_size < 2 ^ 63
    → measure (record { start = start; overflow = overflow }) < fuel
    → length start ≤ chunk_size
    → length overflow ≤ chunk_size
    → CutSpec chunk_size start overflow
        (cut_block chunk_size fuel (record { start = start; overflow = overflow }))
unfolding cut_block
cut_block-CutSpec chunk_size zero start overflow small m b o = absurd (omega arith)
cut_block-CutSpec chunk_size (suc fuel) [] overflow small m b o = record {
  fit = tt;
  within = o;
  kept = unfold strip joined in append-nil (strip overflow);
}
cut_block-CutSpec chunk_size (suc fuel) (x ∷ xs) overflow small m b o =
    let c : Cursor = record { start = x ∷ xs; overflow = overflow } in
    let r = round chunk_size c in
    let spec = round-RoundSpec chunk_size c small (omega arith) b o in
    with_line-CutSpec chunk_size (x ∷ xs) overflow r.0 r.1 _ spec (
      cut_block-CutSpec chunk_size fuel r.1.start r.1.overflow small (omega (arith, spec.nearer))
        (omega (arith, spec.shorter)) spec.within)
