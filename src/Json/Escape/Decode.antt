-- ===== src/Json/Escape/Decode.antt =====
-- The text inside a JSON string, read back as RFC 8259 says: the specification that the encoder of
-- src/json.c is held to. Bytes from 0x80 on stand for themselves; `\u` is read up to U+007F, which
-- one byte holds.
use jpipe.Common.{
  ℕ, ◌+◌, ◌*◌, ◌-◌, ◌≡◌, refl, ◌&&◌, [], ◌∷◌, ◌++◌, Option, none, some, ◌||◌, ◌==◌, leb, ltb,
  if◌then◌else◌, Bytes, codes,
}

-- Where the reader stands: between characters, behind a backslash, or in the digits of a `\u` with
-- `left` digits to come and the value of those that it has read.
pub data Mode : Type 0 where
  plain escape : Mode
  hex : (left acc : ℕ) → Mode

hex_value : ℕ → Option ℕ
hex_value c =
    if leb b'0' c && leb c b'9'
    then some (c - b'0')
    else if leb b'a' c && leb c b'f'
    then some (c - b'a' + 10)
    else if leb b'A' c && leb c b'F'
    then some (c - b'A' + 10)
    else none

-- The next mode and the bytes that are complete; `none` is an error.
step_plain : ℕ → Option (Mode × Bytes)
step_plain c =
    if c == b'\\'
    then some (escape, [])
    else if c == b'"' || ltb c 32
    then none
    else some (plain, c ∷ [])

step_escape : ℕ → Option (Mode × Bytes)
step_escape c =
    if c == b'"' || c == b'\\' || c == b'/'
    then some (plain, c ∷ [])
    else if c == b'b'
    then some (plain, 8 ∷ [])
    else if c == b'f'
    then some (plain, 12 ∷ [])
    else if c == b'n'
    then some (plain, 10 ∷ [])
    else if c == b'r'
    then some (plain, 13 ∷ [])
    else if c == b't'
    then some (plain, 9 ∷ [])
    else if c == b'u'
    then some (hex 4 0, [])
    else none

step_hex : ℕ → ℕ → ℕ → Option (Mode × Bytes)
step_hex left acc digit =
    let value = acc * 16 + digit in
    if left == 1
    then if ltb value 128 then some (plain, value ∷ []) else none
    else some (hex (left - 1) value, [])

unfoldable pub step : Mode → ℕ → Option (Mode × Bytes)
unfolding hex_value step_plain step_escape step_hex
step plain c = step_plain c
step escape c = step_escape c
step (hex left acc) c = elim (hex_value c) [ none ↦ none | some digit ↦ step_hex left acc digit ]

abbrev pub prepend : Bytes → Option (Mode × Bytes) → Option (Mode × Bytes)
prepend out none = none
prepend out (some (m, rest)) = some (m, out ++ rest)

unfoldable pub run : Mode → Bytes → Option (Mode × Bytes)
run m [] = some (m, [])
run m (c ∷ cs) = elim (step m c) [ none ↦ none | some (m', out) ↦ prepend out (run m' cs) ]

abbrev pub finished : Option (Mode × Bytes) → Option Bytes
finished none = none
finished (some (plain, out)) = some out
finished (some (escape, out)) = none
finished (some (hex _ _, out)) = none

-- The bytes that the text between two quotes stands for.
unfoldable pub unescape : Bytes → Option Bytes
unfolding run step
unescape text = finished (run plain text)

read_back : unescape (codes "a\\n\\u0007\\\"") ≡ some (b'a' ∷ 10 ∷ 7 ∷ b'"' ∷ [])
unfolding unescape
read_back = refl
