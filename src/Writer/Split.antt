-- ===== src/Writer/Split.antt =====
-- One round of the inner loop: it comes nearer to the end of the block, stays within the buffers and
-- loses no byte but newlines.
use mathlib.Core.Option
use jpipe.Common.{
  ℕ, suc, ◌+◌, ◌-◌, ◌^◌, ◌<◌, ◌≤◌, ◌≡◌, ◌≢◌, refl, sym, ap, ap₂, ◌∙◌, ◌⊎◌, inl, inr, false, [], ◌∷◌,
  ◌++◌, append-nil, append_assoc, Option, none, some, arith, ◌==◌, ltb, ==_iff, ltb→lt,
  if◌then◌else◌, Bool-cases, length, length-append, take, drop, length-take, length-drop,
  take-append-drop, min, Bytes, All,
}
use jpipe.Writer.{
  memchr, Cursor, remaining_len, copy_len, round_copied, round_overflow, round_fresh, round,
}

-- What `memchr` finds.
pub record Found (s : Bytes) (i : ℕ) : Type 0 where
  pub inside : i < length s
  pub before : All (λ c. c ≢ b'\n') (take i s)
  pub at : drop i s ≡ b'\n' ∷ drop (suc i) s

abbrev pub Search : Bytes → Option ℕ → Type 0
Search s none = All (λ c. c ≢ b'\n') s
Search s (some i) = Found s i

pub memchr-Search : (s : Bytes) → Search s (memchr s b'\n')
unfolding memchr
memchr-Search [] = tt
memchr-Search (b ∷ bs) = elim (Bool-cases (b == b'\n')) [
  | inl here ↦ rw here (record {
    inside = omega arith;
    before = tt;
    at = ap (λ c. c ∷ bs) ((==_iff b b'\n').0 here);
  })
  | inr later ↦
      rw later (next (λ e. cc (later, (==_iff b b'\n').1 e)) (memchr bs b'\n') (memchr-Search bs))
]
  where
    next : b ≢ b'\n' → (o : Option ℕ) → Search bs o → Search (b ∷ bs) (Option.map suc o)
    next ne none h = (ne, h)
    next ne (some i) h = record {
      inside = omega (arith, h.inside);
      before = (ne, h.before);
      at = h.at;
    }

-- The bytes of a range that are no newlines.
unfoldable pub strip : Bytes → Bytes
strip [] = []
strip (c ∷ s) = if c == b'\n' then strip s else c ∷ strip s

pub strip-append : (s t : Bytes) → strip (s ++ t) ≡ strip s ++ strip t
unfolding strip
strip-append [] t = refl
strip-append (c ∷ s) t = ground (arith, strip-append s t)

strip_empty : (s : Bytes) → length s ≡ 0 → strip s ≡ []
strip_empty [] e = unfold strip in refl
strip_empty (c ∷ s) e = absurd (omega arith)

strip_split : (n : ℕ) (s : Bytes) → strip s ≡ strip (take n s) ++ strip (drop n s)
strip_split n s = ap strip (sym (take-append-drop n s)) ∙ strip-append (take n s) (drop n s)

strip-Found : (s : Bytes) (i : ℕ) → Found s i → strip s ≡ strip (take i s) ++ strip (drop (suc i) s)
strip-Found s i h =
    strip_split i s ∙ ap (λ t. strip (take i s) ++ t) (ap strip h.at ∙ unfold strip in refl)

strip-drop_newline : (s t : Bytes) → s ≡ b'\n' ∷ t → strip s ≡ strip (drop 1 s)
unfolding strip
strip-drop_newline s t e = rw e

not_filled : {a b : ℕ} → a ≡ b → (a == b) ≡ false → ⊥
not_filled e h = ground arith

-- What is left to do: each round lowers it.
abbrev pub measure : Cursor → ℕ
measure c = length c.start + length c.start + min (length c.overflow) 1

-- The bytes that a round gives to a record.
abbrev pub given : Option Bytes → Bytes
given none = []
given (some line) = line

pub record RoundSpec (chunk_size : ℕ) (c : Cursor) (o : Option Bytes) (c' : Cursor) : Type 0 where
  pub nearer : measure c' < measure c
  pub within : length c'.overflow ≤ chunk_size
  pub shorter : length c'.start ≤ length c.start
  pub line_fits : length (given o) ≤ chunk_size
  pub kept :
      strip c.overflow ++ strip c.start ≡ strip (given o) ++ (strip c'.overflow ++ strip c'.start)

module _ (chunk_size : ℕ) (c : Cursor) (small : chunk_size < 2 ^ 63)
    (some_left : 0 < length c.start) (block : length c.start ≤ chunk_size)
    (within : length c.overflow ≤ chunk_size) where
  fresh-RoundSpec :
      (d : Option ℕ)
      → Search c.start d
      → length c.overflow ≡ 0
      → RoundSpec chunk_size c (round_fresh d c).0 (round_fresh d c).1
  unfolding round_fresh strip
  fresh-RoundSpec none h e = record {
    nearer = omega arith;
    within = block;
    shorter = omega arith;
    line_fits = omega arith;
    kept =
        ap (λ t. t ++ strip c.start) (strip_empty c.overflow e) ∙ sym (append-nil (strip c.start));
  }
  fresh-RoundSpec (some i) h e = record {
    nearer = omega (arith, length-drop (suc i) c.start);
    within = within;
    shorter = omega (arith, length-drop (suc i) c.start);
    line_fits = omega (arith, length-take i c.start);
    kept =
        ap₂ ◌++◌ (strip_empty c.overflow e) (strip-Found c.start i h)
        ∙ ap (λ t. strip (take i c.start) ++ (t ++ strip (drop (suc i) c.start)))
            (sym (strip_empty c.overflow e));
  }

  copied-kept :
      (n : ℕ) (rest : Bytes)
      → strip (drop n c.start) ≡ strip rest
      → strip c.overflow ++ strip c.start ≡ strip (c.overflow ++ take n c.start) ++ strip rest
  copied-kept n rest e =
      ap (λ t. strip c.overflow ++ t)
        (strip_split n c.start ∙ ap (λ t. strip (take n c.start) ++ t) e)
      ∙ sym (append_assoc (strip c.overflow) (strip (take n c.start)) (strip rest))
      ∙ ap (λ t. t ++ strip rest) (sym (strip-append c.overflow (take n c.start)))

  module _ (pos : 0 < length c.overflow) (n : ℕ) (room : length c.overflow + n ≤ chunk_size) where
    length-copied :
        n ≤ length c.start → length (c.overflow ++ take n c.start) ≡ length c.overflow + n
    length-copied le =
        omega (arith, length-append c.overflow (take n c.start), length-take n c.start)

    -- The copied bytes are written; `rest` is what the cursor is set on.
    written-RoundSpec :
        (rest : Bytes)
        → n ≤ length c.start
        → length rest ≤ length c.start - n
        → strip (drop n c.start) ≡ strip rest
        → RoundSpec chunk_size c
            (some (c.overflow ++ take n c.start))
            (record { start = rest; overflow = [] })
    unfolding strip
    written-RoundSpec rest le shorter e = record {
      nearer = omega arith;
      within = omega arith;
      shorter = omega arith;
      line_fits = omega (arith, length-copied le);
      kept = copied-kept n rest e;
    }

    copied-RoundSpec :
        (d : Option ℕ)
        → Search c.start d
        → n ≤ remaining_len d c.start
        → (n ≡ remaining_len d c.start) ⊎ (length c.overflow + n ≡ chunk_size)
        → RoundSpec chunk_size c (round_copied chunk_size d n c).0 (round_copied chunk_size d n c).1
    unfolding round_copied strip
    copied-RoundSpec none h le full =
        elim (Bool-cases (length (c.overflow ++ take n c.start) == chunk_size)) [
          | inl filled ↦
              rw filled
                (written-RoundSpec (drop n c.start) le (omega (arith, length-drop n c.start)) refl)
          | inr open_line ↦ rw open_line (
              let all : n ≡ length c.start = elim full [
                | inl all ↦ all
                | inr filled ↦ absurd (not_filled (length-copied le ∙ filled) open_line)
              ] in
              record {
                nearer = omega (arith, length-copied le, length-drop n c.start);
                within = omega (arith, length-copied le);
                shorter = omega (arith, length-drop n c.start);
                line_fits = omega arith;
                kept = copied-kept n (drop n c.start) refl;
              })
        ]
    copied-RoundSpec (some i) h le full = elim (Bool-cases (n == i)) [
      | inl at ↦ rw at (
          let next = ap (λ m. drop m c.start) ((==_iff n i).0 at) ∙ h.at in
          written-RoundSpec (drop 1 (drop n c.start)) (omega (arith, h.inside))
            (omega (arith, length-drop 1 (drop n c.start), length-drop n c.start))
            (strip-drop_newline (drop n c.start) (drop (suc i) c.start) next))
      | inr short ↦ rw short (
          written-RoundSpec (drop n c.start) (omega (arith, h.inside))
            (omega (arith, length-drop n c.start)) refl)
    ]

-- One round from a cursor that a call can reach with some of the block left.
pub round-RoundSpec :
    (chunk_size : ℕ) (c : Cursor)
    → chunk_size < 2 ^ 63
    → 0 < length c.start
    → length c.start ≤ chunk_size
    → length c.overflow ≤ chunk_size
    → RoundSpec chunk_size c (round chunk_size c).0 (round chunk_size c).1
unfolding round round_overflow
round-RoundSpec chunk_size c small some_left block within =
    let d = memchr c.start b'\n' in
    let found = memchr-Search c.start in
    elim (Bool-cases (ltb 0 (length c.overflow))) [
      | inl more ↦ rw more (
          copied-RoundSpec chunk_size c small some_left block within (ltb→lt 0 _ more)
            (copy_len chunk_size d c) (omega arith) d found (omega arith) (omega arith))
      | inr empty ↦
          rw empty
            (fresh-RoundSpec chunk_size c small some_left block within d found (ground arith))
    ]
