-- ===== src/Json/Escape/RoundTrip.antt =====
-- Reading back what `jp_json_value_encoder` writes gives the input, and what it writes can stand
-- between two quotes on one line.
use jpipe.Common.{
  ℕ, ◌*◌, ◌≤◌, ◌<◌, ◌≡◌, refl, sym, ap, Bool, true, false, ◌&&◌, [], ◌∷◌, ◌++◌, append_assoc,
  Option, none, some, arith, ◌==◌, leb, ltb, length, Bytes, IsByte, All, All-append, all_below,
  all_below_sound,
}
use jpipe.Json.Escape.{esc_len, json_short_lookup, hex_chars, json_escape_mul, json_value_encoder}
use jpipe.Json.Escape.Bounds.{escaped, escape_all, IsBufferSize, json_value_encoder_all}
use jpipe.Json.Escape.Decode.{Mode, plain, step, prepend, run, unescape}

prepend-append :
    (xs ys : Bytes) (r : Option (Mode × Bytes)) → prepend (xs ++ ys) r ≡ prepend xs (prepend ys r)
prepend-append xs ys none = refl
prepend-append xs ys (some (m, out)) = ap (λ t. some (m, t)) (append_assoc xs ys out)

-- Reading on from where a first piece ended.
abbrev resume : Option (Mode × Bytes) → Bytes → Option (Mode × Bytes)
resume none ys = none
resume (some (m, out)) ys = prepend out (run m ys)

resume-prepend :
    (out : Bytes) (r : Option (Mode × Bytes)) (ys : Bytes)
    → resume (prepend out r) ys ≡ prepend out (resume r ys)
resume-prepend out none ys = refl
resume-prepend out (some (m, rest)) ys = prepend-append out rest (run m ys)

prepend-nil : (r : Option (Mode × Bytes)) → prepend [] r ≡ r
prepend-nil none = refl
prepend-nil (some (m, out)) = refl

run-append : (m : Mode) (xs ys : Bytes) → run m (xs ++ ys) ≡ resume (run m xs) ys
unfolding run
run-append m [] ys = sym (prepend-nil (run m ys))
run-append m (c ∷ xs) ys = after (step m c) (λ m'. run-append m' xs ys)
  where
    after :
        (s : Option (Mode × Bytes))
        → ((m' : Mode) → run m' (xs ++ ys) ≡ resume (run m' xs) ys)
        → elim s [ none ↦ none | some (m', out) ↦ prepend out (run m' (xs ++ ys)) ]
          ≡ resume (elim s [ none ↦ none | some (m', out) ↦ prepend out (run m' xs) ]) ys
    after none ih = refl
    after (some (m', out)) ih = rw (ih m') (sym (resume-prepend out (run m' xs) ys))

-- Whether a reading ends between characters, with exactly the byte `c` read.
abbrev reads_byte : ℕ → Option (Mode × Bytes) → Bool
reads_byte c (some (plain, b ∷ [])) = b == c
reads_byte c _ = false

reads_byte-eq :
    (c : ℕ) (r : Option (Mode × Bytes)) → reads_byte c r ≡ true → r ≡ some (plain, c ∷ [])
reads_byte-eq c (some (plain, b ∷ [])) h = ground arith
reads_byte-eq c _ h = cc

escape_table : all_below 256 (λ c. reads_byte c (run plain (escaped c))) ≡ true
unfolding all_below escaped esc_len json_short_lookup hex_chars run step
escape_table = refl

read_escaped : (c : ℕ) → IsByte c → run plain (escaped c) ≡ some (plain, c ∷ [])
read_escaped c h =
    reads_byte-eq c _
      (all_below_sound 256 (λ x. reads_byte x (run plain (escaped x))) c escape_table h)

run-escape_all : (src : Bytes) → All IsByte src → run plain (escape_all src) ≡ some (plain, src)
unfolding escape_all
run-escape_all [] h = unfold run in refl
run-escape_all (c ∷ src) h =
    rw (run-append plain (escaped c) (escape_all src), read_escaped c h.0, run-escape_all src h.1)

-- For byte input and a buffer of a size that an object can have, with six bytes for each byte of
-- the input, a reader of JSON strings reads back exactly the input from what jp_json_value_encoder
-- writes.
pub unescape-json_value_encoder :
    (src : Bytes) (dst_len : ℕ)
    → All IsByte src
    → IsBufferSize dst_len
    → length src * json_escape_mul ≤ dst_len
    → unescape (json_value_encoder src dst_len).dst ≡ some src
unfolding unescape
unescape-json_value_encoder src dst_len h k room =
    rw ((json_value_encoder_all src dst_len h k room).0, run-escape_all src h)

-- Bytes that may stand inside a JSON string with no escape: no control byte, and so no newline.
abbrev pub IsTextByte : ℕ → Type 0
IsTextByte c = (32 ≤ c) × (c < 256)

all_text : Bytes → Bool
all_text [] = true
all_text (c ∷ cs) = leb 32 c && ltb c 256 && all_text cs

all_text-All : (xs : Bytes) → all_text xs ≡ true → All IsTextByte xs
unfolding all_text
all_text-All [] h = tt
all_text-All (c ∷ cs) h = (ground arith, all_text-All cs (ground arith))

text_table : all_below 256 (λ c. all_text (escaped c)) ≡ true
unfolding all_below all_text escaped esc_len json_short_lookup hex_chars
text_table = refl

pub escape_all-IsTextByte : (src : Bytes) → All IsByte src → All IsTextByte (escape_all src)
unfolding escape_all
escape_all-IsTextByte [] h = tt
escape_all-IsTextByte (c ∷ src) h =
    All-append IsTextByte (escaped c) (escape_all src)
      (all_text-All _ (all_below_sound 256 (λ x. all_text (escaped x)) c text_table h.0))
      (escape_all-IsTextByte src h.1)
