-- ===== src/Writer/Text.antt =====
-- The lines of a text, whatever pieces it comes in.
use jpipe.Common.{
  ℕ, suc, ◌<◌, ◌≡◌, ◌≢◌, refl, sym, ap, ◌∙◌, inl, inr, false, List, [], ◌∷◌, ◌++◌, append-nil,
  append_assoc, some, arith, ◌==◌, if◌then◌else◌, Bool-cases, length, take, drop, take-append-drop,
  Bytes, All,
}
use jpipe.Writer.Split.{Found}
use jpipe.Writer.Lines.{Cut, with_line}

-- The complete lines of a text behind a part of a line, and the part of a line at its end.
unfoldable pub cut_text : Bytes → Bytes → Cut
cut_text part [] = ([], part)
cut_text part (c ∷ s) =
    if c == b'\n' then with_line (some part) (cut_text [] s) else cut_text (part ++ c ∷ []) s

-- The complete lines of a text, without their newlines, and what stands behind the last newline.
abbrev pub lines_of : Bytes → List Bytes
lines_of text = (cut_text [] text).0

abbrev pub last_part : Bytes → Bytes
last_part text = (cut_text [] text).1

-- Lines and part are shorter than `n`.
abbrev pub ShortCut : ℕ → Cut → Type 0
ShortCut n cut = All (λ line. length line < n) cut.0 × (length cut.1 < n)

pub cut_text-byte :
    (part s : Bytes) (c : ℕ) → c ≢ b'\n' → cut_text part (c ∷ s) ≡ cut_text (part ++ c ∷ []) s
unfolding cut_text
cut_text-byte part s c ne = rw (ne-false c b'\n' ne)
  where
    ne-false : (a b : ℕ) → a ≢ b → (a == b) ≡ false
    ne-false a b h = ground arith

-- Bytes that are no newlines go to the part.
pub cut_text-part :
    (part xs ys : Bytes)
    → All (λ c. c ≢ b'\n') xs
    → cut_text part (xs ++ ys) ≡ cut_text (part ++ xs) ys
cut_text-part part [] ys h = ap (λ p. cut_text p ys) (sym (append-nil part))
cut_text-part part (c ∷ xs) ys h =
    cut_text-byte part (xs ++ ys) c h.0
    ∙ cut_text-part (part ++ c ∷ []) xs ys h.1
    ∙ ap (λ p. cut_text p ys) (append_assoc part (c ∷ []) xs)

pub cut_text-none : (part s : Bytes) → All (λ c. c ≢ b'\n') s → cut_text part s ≡ ([], part ++ s)
cut_text-none part s h =
    ap (cut_text part) (sym (append-nil s)) ∙ cut_text-part part s [] h ∙ unfold cut_text in refl

pub cut_text-some :
    (part s : Bytes) (i : ℕ)
    → Found s i
    → cut_text part s ≡ with_line (some (part ++ take i s)) (cut_text [] (drop (suc i) s))
cut_text-some part s i h =
    ap (cut_text part) (sym (take-append-drop i s) ∙ ap (λ t. take i s ++ t) h.at)
    ∙ cut_text-part part (take i s) (b'\n' ∷ drop (suc i) s) h.before
    ∙ unfold cut_text in refl

-- A text cut in two goes on from the part that the first piece leaves.
pub cut_text-append :
    (part s t : Bytes)
    → cut_text part (s ++ t) ≡ (
      (cut_text part s).0 ++ (cut_text (cut_text part s).1 t).0,
      (cut_text (cut_text part s).1 t).1,
    )
unfolding cut_text
cut_text-append part [] t = refl
cut_text-append part (c ∷ s) t = elim (Bool-cases (c == b'\n')) [
  | inl newline ↦ rw newline (ap (with_line (some part)) (cut_text-append [] s t))
  | inr byte ↦ rw byte (cut_text-append (part ++ c ∷ []) s t)
]
