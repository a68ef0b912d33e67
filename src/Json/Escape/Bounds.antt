-- ===== src/Json/Escape/Bounds.antt =====
-- What the loop of `jp_json_value_encoder` writes: the escapes of whole bytes, never past `dst_len`.
use jpipe.Common.{
  take_all, ℕ, zero, suc, ◌+◌, ◌-◌, ◌*◌, ◌/◌, ◌%◌, ◌^◌, ◌≤◌, ◌<◌, ◌≡◌, refl, sym, ap, ◌∙◌, ◌⊎◌, inl,
  inr, true, ◌||◌, [], ◌∷◌, ◌++◌, append-nil, append_assoc, arith, ◌==◌, ltb, if◌then◌else◌,
  Bool-cases, length, length-append, take, get_or, Bytes, IsByte, All, add_size, all_below,
  all_below_sound,
}
use jpipe.Json.Escape.{
  json_short_lookup, hex_chars, Output, esc_len, put_char, encode_loop, start, json_value_encoder,
  json_escape_mul,
}

-- The bytes that one round writes.
unfoldable pub escaped : ℕ → Bytes
escaped ch =
    if esc_len ch == 1
    then ch ∷ []
    else if esc_len ch == 2
    then b'\\' ∷ json_short_lookup ch ∷ []
    else b'\\'
      ∷ b'u'
      ∷ b'0'
      ∷ b'0'
      ∷ get_or hex_chars (ch / 16) 0
      ∷ get_or hex_chars (ch % 16) 0
      ∷ []

-- The escapes of all bytes of a range, one behind the other.
unfoldable pub escape_all : Bytes → Bytes
escape_all [] = []
escape_all (ch ∷ src) = escaped ch ++ escape_all src

esc_len_table : all_below 256 (λ c. esc_len c == 1 || esc_len c == 2 || esc_len c == 6) ≡ true
unfolding all_below esc_len
esc_len_table = refl

pub esc_len_cases : (c : ℕ) → IsByte c → (esc_len c ≡ 1) ⊎ ((esc_len c ≡ 2) ⊎ (esc_len c ≡ 6))
esc_len_cases c h = ground (
  arith,
  all_below_sound 256 (λ x. esc_len x == 1 || esc_len x == 2 || esc_len x == 6) c esc_len_table,
)

pub esc_len-le : (c : ℕ) → IsByte c → (1 ≤ esc_len c) × (esc_len c ≤ 6)
esc_len-le c h = omega (arith, esc_len_cases c h)

pub length-escaped : (c : ℕ) → IsByte c → length (escaped c) ≡ esc_len c
unfolding escaped
length-escaped c h = ground (arith, esc_len_cases c h)

-- A state of the loop that a call can reach with room for `dst_len` bytes.
pub record IsOutput (dst_len : ℕ) (o : Output) : Type 0 where
  pub counted : o.dst_ptr ≡ length o.dst
  pub within : o.dst_ptr ≤ dst_len

-- A buffer that an object of the program can have, with room left for one more escape in `size_t`.
abbrev pub IsBufferSize : ℕ → Type 0
IsBufferSize dst_len = dst_len + 6 < 2 ^ 64

dst-put_char : (o : Output) (c : ℕ) → (put_char o c).dst ≡ o.dst ++ escaped c
unfolding put_char escaped
dst-put_char o c = elim (Bool-cases (esc_len c == 1)) [
  | inl one ↦ rw one
  | inr other ↦ elim (Bool-cases (esc_len c == 2)) [
    | inl two ↦ rw (other, two) (simp append_assoc)
    | inr six ↦ rw (other, six) (simp append_assoc)
  ]
]

dst_ptr-put_char :
    (o : Output) (c : ℕ)
    → IsByte c
    → o.dst_ptr + 6 < 2 ^ 64
    → (put_char o c).dst_ptr ≡ o.dst_ptr + esc_len c
unfolding put_char
dst_ptr-put_char o c h k = ground (arith, esc_len_cases c h)

put_char-IsOutput :
    (dst_len : ℕ) (o : Output) (c : ℕ)
    → IsByte c
    → IsBufferSize dst_len
    → IsOutput dst_len o
    → o.dst_ptr + esc_len c ≤ dst_len
    → IsOutput dst_len (put_char o c)
put_char-IsOutput dst_len o c h k v room = record {
  counted =
      dst_ptr-put_char o c h (omega (arith, v.within))
      ∙ omega (arith, v.counted, length-append o.dst (escaped c), length-escaped c h)
      ∙ ap length (sym (dst-put_char o c));
  within = omega (arith, dst_ptr-put_char o c h (omega (arith, v.within)));
}

-- What a call leaves of `src` when it stops: the escapes of the first `n` bytes are written, and
-- either those are all or the next escape does not fit.
pub record Encodes (src : Bytes) (dst_len : ℕ) (before : Bytes) (o : Output) : Type 0 where
  pub taken : ℕ
  pub at_most : taken ≤ length src
  pub bytes : o.dst ≡ before ++ escape_all (take taken src)
  pub output : IsOutput dst_len o
  pub full : (taken ≡ length src) ⊎ (dst_len < o.dst_ptr + esc_len (get_or src taken 0))

encode_loop-Encodes :
    (src : Bytes) (dst_len : ℕ) (o : Output)
    → All IsByte src
    → IsBufferSize dst_len
    → IsOutput dst_len o
    → Encodes src dst_len o.dst (encode_loop src dst_len o)
unfolding encode_loop escape_all
encode_loop-Encodes [] dst_len o h k v = record {
  taken = 0;
  at_most = omega arith;
  bytes = sym (append-nil o.dst);
  output = v;
  full = inl refl;
}
encode_loop-Encodes (c ∷ src) dst_len o h k v =
    elim (Bool-cases (ltb dst_len (add_size o.dst_ptr (esc_len c)))) [
      | inl stop ↦ rw stop (record {
        taken = 0;
        at_most = omega arith;
        bytes = sym (append-nil o.dst);
        output = v;
        full = inr (ground (arith, v.within, esc_len_cases c h.0));
      })
      | inr go ↦
          let room : o.dst_ptr + esc_len c ≤ dst_len =
            ground (arith, v.within, esc_len_cases c h.0) in
          let ih =
            encode_loop-Encodes src dst_len (put_char o c) h.1 k
              (put_char-IsOutput dst_len o c h.0 k v room) in
          rw go (record {
            taken = suc ih.taken;
            at_most = omega (arith, ih.at_most);
            bytes =
                ih.bytes
                ∙ ap (λ d. d ++ escape_all (take ih.taken src)) (dst-put_char o c)
                ∙ append_assoc o.dst (escaped c) _;
            output = ih.output;
            full = elim ih.full [ inl e ↦ inl (omega arith) | inr f ↦ inr f ];
          })
    ]

-- For byte input and a buffer of a size that an object can have, jp_json_value_encoder returns the
-- number of bytes it has written, at most dst_len; they are the whole escapes of a prefix of the
-- input, which is all of it unless the next escape does not fit.
pub json_value_encoder-Encodes :
    (src : Bytes) (dst_len : ℕ)
    → All IsByte src
    → IsBufferSize dst_len
    → Encodes src dst_len [] (json_value_encoder src dst_len)
unfolding json_value_encoder
json_value_encoder-Encodes src dst_len h k =
    encode_loop-Encodes src dst_len start h k (record { counted = refl; within = omega arith })

pub length-escape_all : (src : Bytes) → All IsByte src → length (escape_all src) ≤ length src * 6
unfolding escape_all
length-escape_all [] h = omega arith
length-escape_all (c ∷ src) h = omega (
  arith,
  length-append (escaped c) (escape_all src),
  length-escaped c h.0,
  esc_len-le c h.0,
  length-escape_all src h.1,
)

escape_all-take :
    (src : Bytes) (n : ℕ)
    → All IsByte src
    → n < length src
    → length (escape_all (take n src)) + esc_len (get_or src n 0) + 6 * (length src - n - 1)
      ≤ length src * 6
unfolding escape_all
escape_all-take [] n h lt = absurd (omega arith)
escape_all-take (c ∷ src) zero h lt = omega (arith, esc_len-le c h.0)
escape_all-take (c ∷ src) (suc n) h lt = omega (
  arith,
  length-append (escaped c) (escape_all (take n src)),
  length-escaped c h.0,
  esc_len-le c h.0,
  escape_all-take src n h.1 (omega arith),
)

cannot_stop :
    (src : Bytes) (dst_len : ℕ) (o : Output)
    → All IsByte src
    → length src * 6 ≤ dst_len
    → (e : Encodes src dst_len [] o) → ¬ (e.taken < length src)
cannot_stop src dst_len o h room e lt = elim e.full [
  | inl all ↦ absurd (omega arith)
  | inr stop ↦ omega (arith, e.output.counted, ap length e.bytes, escape_all-take src e.taken h lt)
]

-- Nothing is cut off where the buffer has `json_escape_mul` bytes for each byte of the input.
pub json_value_encoder_all :
    (src : Bytes) (dst_len : ℕ)
    → All IsByte src
    → IsBufferSize dst_len
    → length src * json_escape_mul ≤ dst_len
    → ((json_value_encoder src dst_len).dst ≡ escape_all src)
      × ((json_value_encoder src dst_len).dst_ptr ≡ length (escape_all src))
json_value_encoder_all src dst_len h k room =
    let e = json_value_encoder-Encodes src dst_len h k in
    let all : e.taken ≡ length src = omega (arith, e.at_most, cannot_stop src dst_len _ h room e) in
    let bytes = e.bytes ∙ ap escape_all (take_all src e.taken all) in
    (bytes, e.output.counted ∙ ap length bytes)
