-- ===== src/Json/Literal/Quoting.antt =====
-- Which values `is_json_string_literal` leaves without quotes.
use jpipe.Common.{
  ℕ, ◌≡◌, ◌↔◌, ◌⊎◌, inl, inr, true, false, ◌||◌, [], ◌∷◌, arith, ◌==◌, Bytes, codes, equal,
  equal_iff,
}
use jpipe.Json.Literal.{is_digit, is_json_string_literal}
use jpipe.Json.Literal.Grammar.{
  IsNumber, positive, negative, zero_first, digit_first, is_json_numeric_literal_iff,
}

-- A JSON value that is no string, array or object.
abbrev pub IsBareValue : Bytes → Type 0
IsBareValue s = (s ≡ codes "true") ⊎ ((s ≡ codes "false") ⊎ ((s ≡ codes "null") ⊎ IsNumber s))

-- A number begins with a minus sign or a digit.
number_head : (c : ℕ) (s : Bytes) → IsNumber (c ∷ s) → (c == b'-' || is_digit c) ≡ true
number_head c s (positive (zero_first e r)) = ground arith
number_head c s (positive (digit_first d ne r)) = ground arith
number_head c s (negative e u) = ground arith

no_empty-IsNumber : ¬ IsNumber []
no_empty-IsNumber (positive u) = elim u [ ]

bare_of_false : (s : Bytes) → is_json_string_literal s ≡ false → IsBareValue s
unfolding is_json_string_literal
bare_of_false [] h = absurd (cc)
bare_of_false (c ∷ s) h = ground (
  arith,
  equal_iff (c ∷ s) (codes "true"),
  equal_iff (c ∷ s) (codes "false"),
  equal_iff (c ∷ s) (codes "null"),
  is_json_numeric_literal_iff (c ∷ s),
)

false_of_number : (s : Bytes) → IsNumber s → is_json_string_literal s ≡ false
unfolding is_json_string_literal
false_of_number [] n = absurd (no_empty-IsNumber n)
false_of_number (c ∷ s) n = ground (arith, number_head c s n, is_json_numeric_literal_iff (c ∷ s))

false_of_bare : (s : Bytes) → IsBareValue s → is_json_string_literal s ≡ false
unfolding is_json_string_literal equal
false_of_bare s (inl e) = rw e
false_of_bare s (inr (inl e)) = rw e
false_of_bare s (inr (inr (inl e))) = rw e
false_of_bare s (inr (inr (inr n))) = false_of_number s n

-- is_json_string_literal returns false exactly on true, false, null and the numbers of the JSON
-- grammar.
pub is_json_string_literal_iff : (s : Bytes) → (is_json_string_literal s ≡ false) ↔ IsBareValue s
is_json_string_literal_iff s = (bare_of_false s, false_of_bare s)
