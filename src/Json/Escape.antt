-- ===== src/Json/Escape.antt =====
-- `jp_json_value_encoder` of src/json.c. `dst` is the list of the bytes written so far, the first
-- `dst_ptr` bytes of the caller's buffer; a write at `dst[dst_ptr++]` appends.
pub mod Bounds
pub mod Decode
pub mod RoundTrip
use jpipe.Common.{
  ℕ, ◌+◌, ◌/◌, ◌%◌, List, [], ◌∷◌, ◌++◌, ◌==◌, ltb, if◌then◌else◌, get_or, Bytes, add_size, codes,
}

abbrev pub json_escape_mul : ℕ
json_escape_mul = 6

-- `json_size_lut`, row by row.
json_size_lut : List ℕ
json_size_lut =
    6 ∷ 6 ∷ 6 ∷ 6 ∷ 6 ∷ 6 ∷ 6 ∷ 6 ∷ 2 ∷ 2 ∷ 2 ∷ 6 ∷ 2 ∷ 2 ∷ 6 ∷ 6 ∷ 6 ∷ 6 ∷ 6 ∷ 6 ∷ 6 ∷ 6 ∷ 6 ∷ 6
    ∷ 6 ∷ 6 ∷ 6 ∷ 6 ∷ 6 ∷ 6 ∷ 6 ∷ 6 ∷ 1 ∷ 1 ∷ 2 ∷ 1 ∷ 1 ∷ 1 ∷ 1 ∷ 1 ∷ 1 ∷ 1 ∷ 1 ∷ 1 ∷ 1 ∷ 1 ∷ 1 ∷ 1
    ∷ 1 ∷ 1 ∷ 1 ∷ 1 ∷ 1 ∷ 1 ∷ 1 ∷ 1 ∷ 1 ∷ 1 ∷ 1 ∷ 1 ∷ 1 ∷ 1 ∷ 1 ∷ 1 ∷ 1 ∷ 1 ∷ 1 ∷ 1 ∷ 1 ∷ 1 ∷ 1 ∷ 1
    ∷ 1 ∷ 1 ∷ 1 ∷ 1 ∷ 1 ∷ 1 ∷ 1 ∷ 1 ∷ 1 ∷ 1 ∷ 1 ∷ 1 ∷ 1 ∷ 1 ∷ 1 ∷ 1 ∷ 1 ∷ 1 ∷ 1 ∷ 1 ∷ 2 ∷ 1 ∷ 1 ∷ 1
    ∷ 1 ∷ 1 ∷ 1 ∷ 1 ∷ 1 ∷ 1 ∷ 1 ∷ 1 ∷ 1 ∷ 1 ∷ 1 ∷ 1 ∷ 1 ∷ 1 ∷ 1 ∷ 1 ∷ 1 ∷ 1 ∷ 1 ∷ 1 ∷ 1 ∷ 1 ∷ 1 ∷ 1
    ∷ 1 ∷ 1 ∷ 1 ∷ 1 ∷ 1 ∷ 1 ∷ 1 ∷ 6 ∷ 1 ∷ 1 ∷ 1 ∷ 1 ∷ 1 ∷ 1 ∷ 1 ∷ 1 ∷ 1 ∷ 1 ∷ 1 ∷ 1 ∷ 1 ∷ 1 ∷ 1 ∷ 1
    ∷ 1 ∷ 1 ∷ 1 ∷ 1 ∷ 1 ∷ 1 ∷ 1 ∷ 1 ∷ 1 ∷ 1 ∷ 1 ∷ 1 ∷ 1 ∷ 1 ∷ 1 ∷ 1 ∷ 1 ∷ 1 ∷ 1 ∷ 1 ∷ 1 ∷ 1 ∷ 1 ∷ 1
    ∷ 1 ∷ 1 ∷ 1 ∷ 1 ∷ 1 ∷ 1 ∷ 1 ∷ 1 ∷ 1 ∷ 1 ∷ 1 ∷ 1 ∷ 1 ∷ 1 ∷ 1 ∷ 1 ∷ 1 ∷ 1 ∷ 1 ∷ 1 ∷ 1 ∷ 1 ∷ 1 ∷ 1
    ∷ 1 ∷ 1 ∷ 1 ∷ 1 ∷ 1 ∷ 1 ∷ 1 ∷ 1 ∷ 1 ∷ 1 ∷ 1 ∷ 1 ∷ 1 ∷ 1 ∷ 1 ∷ 1 ∷ 1 ∷ 1 ∷ 1 ∷ 1 ∷ 1 ∷ 1 ∷ 1 ∷ 1
    ∷ 1 ∷ 1 ∷ 1 ∷ 1 ∷ 1 ∷ 1 ∷ 1 ∷ 1 ∷ 1 ∷ 1 ∷ 1 ∷ 1 ∷ 1 ∷ 1 ∷ 1 ∷ 1 ∷ 1 ∷ 1 ∷ 1 ∷ 1 ∷ 1 ∷ 1 ∷ 1 ∷ 1
    ∷ 1 ∷ 1 ∷ 1 ∷ 1 ∷ 1 ∷ 1 ∷ 1 ∷ 1 ∷ 1 ∷ 1 ∷ 1 ∷ 1 ∷ 1 ∷ 1 ∷ 1 ∷ 1 ∷ []

unfoldable pub json_short_lookup : ℕ → ℕ
json_short_lookup c =
    if c == b'\n'
    then b'n'
    else if c == b'\r'
    then b'r'
    else if c == b'\t'
    then b't'
    else if c == 8
    then b'b'
    else if c == 12
    then b'f'
    else if c == b'"'
    then b'"'
    else if c == b'\\'
    then b'\\'
    else 0

unfoldable pub hex_chars : List ℕ
hex_chars = codes "0123456789abcdef"

-- The loop's state.
pub record Output : Type 0 where
  pub dst : Bytes
  pub dst_ptr : ℕ

-- `dst[dst_ptr++] = c`.
abbrev pub put : Output → ℕ → Output
put o c = record { dst = o.dst ++ c ∷ []; dst_ptr = add_size o.dst_ptr 1 }

unfoldable pub esc_len : ℕ → ℕ
unfolding json_size_lut
esc_len ch = get_or json_size_lut ch 0

-- One round of the loop, behind the test for room. `ch >> 4` is `ch / 16`, `ch & 0x0F` is `ch % 16`.
unfoldable pub put_char : Output → ℕ → Output
put_char o ch =
    if esc_len ch == 1
    then put o ch
    else if esc_len ch == 2
    then put (put o b'\\') (json_short_lookup ch)
    else put (put (put (put (put (put o b'\\') b'u') b'0') b'0') (get_or hex_chars (ch / 16) 0))
        (get_or hex_chars (ch % 16) 0)

-- The loop, on the bytes of `src` from `src_ptr` on.
unfoldable pub encode_loop : Bytes → ℕ → Output → Output
encode_loop [] dst_len o = o
encode_loop (ch ∷ src) dst_len o =
    let rest = encode_loop src dst_len (put_char o ch) in
    if ltb dst_len (add_size o.dst_ptr (esc_len ch)) then o else rest

abbrev pub start : Output
start = record { dst = []; dst_ptr = 0 }

-- `jp_json_value_encoder`: `src` holds `src_len` bytes; the result is what the buffer holds, with
-- the length that the function returns.
unfoldable pub json_value_encoder : Bytes → ℕ → Output
json_value_encoder src dst_len = encode_loop src dst_len start
