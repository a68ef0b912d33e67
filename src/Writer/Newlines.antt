-- ===== src/Writer/Newlines.antt =====
-- `jp_writer_produce` writes no newline and keeps none in the overflow, block by block.
use jpipe.Common.{
  ℕ, zero, suc, ◌≤◌, ◌≡◌, ◌≢◌, refl, ap, ◌∙◌, inl, inr, List, [], ◌∷◌, ◌++◌, Option, none, some,
  arith, ◌==◌, ==_iff, ltb, Bool-cases, length, take, Bytes, All, All-append, joined,
}
use jpipe.Writer.{
  memchr, Cursor, remaining_len, copy_len, round_copied, round_overflow, round_fresh, round,
}
use jpipe.Writer.Split.{Search, memchr-Search, strip, given}
use jpipe.Writer.Lines.{Cut, with_line, cut_block}

abbrev pub HasNoNewline : Bytes → Type 0
HasNoNewline s = All (λ c. c ≢ b'\n') s

-- A list of lines, and the overflow behind them.
pub record CleanCut (cut : Cut) : Type 0 where
  pub lines : All HasNoNewline cut.0
  pub rest : HasNoNewline cut.1

strip_clean : (s : Bytes) → HasNoNewline s → strip s ≡ s
unfolding strip
strip_clean [] h = refl
strip_clean (c ∷ s) h = elim (Bool-cases (c == b'\n')) [
  | inl newline ↦ absurd (h.0 ((==_iff c b'\n').0 newline))
  | inr other ↦ rw other (ap (λ t. c ∷ t) (strip_clean s h.1))
]

joined_clean : (lines : List Bytes) → All HasNoNewline lines → HasNoNewline (joined lines)
unfolding joined
joined_clean [] h = tt
joined_clean (line ∷ lines) h =
    All-append (λ c. c ≢ b'\n') line (joined lines) h.0 (joined_clean lines h.1)

-- Nothing is stripped from such a cut.
pub strip-CleanCut :
    (cut : Cut) → CleanCut cut → strip (joined cut.0) ++ strip cut.1 ≡ joined cut.0 ++ cut.1
strip-CleanCut cut h =
    ap (λ s. s ++ strip cut.1) (strip_clean (joined cut.0) (joined_clean cut.0 h.lines))
    ∙ ap (λ s. joined cut.0 ++ s) (strip_clean cut.1 h.rest)

take_clean : (n : ℕ) (s : Bytes) → HasNoNewline s → HasNoNewline (take n s)
take_clean zero s h = tt
take_clean (suc n) [] h = tt
take_clean (suc n) (c ∷ s) h = (h.0, take_clean n s h.1)

take_shorter : (n i : ℕ) (s : Bytes) → n ≤ i → HasNoNewline (take i s) → HasNoNewline (take n s)
take_shorter zero i s le h = tt
take_shorter (suc n) zero s le h = absurd (omega arith)
take_shorter (suc n) (suc i) [] le h = tt
take_shorter (suc n) (suc i) (c ∷ s) le h = (h.0, take_shorter n i s (omega arith) h.1)

-- Up to the newline that `memchr` finds there is none.
take-Search :
    (n : ℕ) (d : Option ℕ) (s : Bytes)
    → Search s d
    → n ≤ remaining_len d s
    → HasNoNewline (take n s)
take-Search n none s h le = take_clean n s h
take-Search n (some i) s h le = take_shorter n i s le h.before

-- What a round writes and keeps.
record CleanRound (o : Option Bytes) (c : Cursor) : Type 0 where
  line : HasNoNewline (given o)
  overflow : HasNoNewline c.overflow

module _ (chunk_size : ℕ) (c : Cursor) (clean : HasNoNewline c.overflow) where
  copied-CleanRound :
      (d : Option ℕ) (n : ℕ)
      → HasNoNewline (c.overflow ++ take n c.start)
      → CleanRound (round_copied chunk_size d n c).0 (round_copied chunk_size d n c).1
  unfolding round_copied
  copied-CleanRound none n h =
      elim (Bool-cases (length (c.overflow ++ take n c.start) == chunk_size)) [
        | inl filled ↦ rw filled (record { line = h; overflow = tt })
        | inr open_line ↦ rw open_line (record { line = tt; overflow = h })
      ]
  copied-CleanRound (some i) n h = record { line = h; overflow = tt }

  fresh-CleanRound :
      (d : Option ℕ) → Search c.start d → CleanRound (round_fresh d c).0 (round_fresh d c).1
  unfolding round_fresh
  fresh-CleanRound none h = record { line = tt; overflow = h }
  fresh-CleanRound (some i) h = record { line = h.before; overflow = clean }

  round-CleanRound : CleanRound (round chunk_size c).0 (round chunk_size c).1
  unfolding round round_overflow
  round-CleanRound =
      let d = memchr c.start b'\n' in
      let found = memchr-Search c.start in
      let n = copy_len chunk_size d c in
      elim (Bool-cases (ltb 0 (length c.overflow))) [
        | inl more ↦ rw more (
            copied-CleanRound d n (
              All-append (λ b. b ≢ b'\n') c.overflow (take n c.start) clean
                (take-Search n d c.start found (omega arith))))
        | inr empty ↦ rw empty (fresh-CleanRound d found)
      ]

with_line-CleanCut :
    (o : Option Bytes) (c : Cursor) (cut : Cut)
    → CleanRound o c
    → CleanCut cut
    → CleanCut (with_line o cut)
with_line-CleanCut none c cut r h = h
with_line-CleanCut (some line) c cut r h = record { lines = (r.line, h.lines); rest = h.rest }

pub cut_block-CleanCut :
    (chunk_size fuel : ℕ) (c : Cursor)
    → HasNoNewline c.overflow
    → CleanCut (cut_block chunk_size fuel c)
unfolding cut_block
cut_block-CleanCut chunk_size zero c clean = record { lines = tt; rest = clean }
cut_block-CleanCut chunk_size (suc fuel) c clean =
    let r = round chunk_size c in
    let spec = round-CleanRound chunk_size c clean in
    started c.start r.0 r.1 spec (cut_block-CleanCut chunk_size fuel r.1 spec.overflow)
  where
    started :
        (start : Bytes) (o : Option Bytes) (next : Cursor)
        → CleanRound o next
        → CleanCut (cut_block chunk_size fuel next)
        → CleanCut (elim start [
          | [] ↦ ([], c.overflow)
          | b ∷ bs ↦ with_line o (cut_block chunk_size fuel next)
        ])
    started [] o next s later = record { lines = tt; rest = clean }
    started (b ∷ bs) o next s later = with_line-CleanCut o next _ s later
