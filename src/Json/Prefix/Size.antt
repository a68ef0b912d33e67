-- ===== src/Json/Prefix/Size.antt =====
-- The prefix fits the memory that `jp_json_prefix_encoder` asks for.
use jpipe.Common.{
  take_all, ℕ, ◌+◌, ◌*◌, ◌^◌, ◌≤◌, ◌<◌, ◌≡◌, refl, sym, ap, ap₂, ◌∙◌, inl, inr, List, [], ◌∷◌, ◌++◌,
  append-nil, append_assoc, arith, if◌then◌else◌, Bool-cases, length, length-append, take, Bytes,
  All,
}
use jpipe.Field.{Field, FieldSet}
use jpipe.Field.Parse.{IsField}
use jpipe.Field.Set.{IsFieldSet}
use jpipe.Json.Escape.{Output, put, start, json_value_encoder}
use jpipe.Json.Escape.Bounds.{escape_all, length-escape_all, json_value_encoder_all}
use jpipe.Json.Literal.{is_json_string_literal}
use jpipe.Json.Prefix.{
  prefix_size_loop, prefix_size, put_range, put_output, put_quote, put_field, put_fields, msg_key,
  json_prefix_encoder,
}

-- The member that a field becomes: its key in quotes, and its value escaped, in quotes unless it is
-- a bare JSON value.
unfoldable pub quote : Field → Bytes
quote f = if is_json_string_literal f.val then b'"' ∷ [] else []

unfoldable pub member : Field → Bytes
member f =
    b'"' ∷ (f.key ++ (b'"' ∷ b':' ∷ (quote f ++ (escape_all f.val ++ (quote f ++ (b',' ∷ []))))))

unfoldable pub members : List Field → Bytes
members [] = []
members (f ∷ fs) = member f ++ members fs

unfoldable pub prefix_text : List Field → Bytes
prefix_text fs = b'{' ∷ (members fs ++ msg_key)

-- What a field may need, as the first loop counts it.
pub need : Field → ℕ
need f = f.key_len + f.val_len * 6 + 6

pub total_need : List Field → ℕ
total_need [] = 0
total_need (f ∷ fs) = need f + total_need fs

need-le : (f : Field) → IsField f → need f ≤ 3110
unfolding need
need-le f v = omega arith

pub total_need-le : (fs : List Field) → All IsField fs → total_need fs ≤ length fs * 3110
unfolding total_need
total_need-le [] h = omega arith
total_need-le (f ∷ fs) h = omega (arith, need-le f h.0, total_need-le fs h.1)

-- The buffer holds `xs`, `n` bytes of it.
pub record At (o : Output) (xs : Bytes) (n : ℕ) : Type 0 where
  pub bytes : o.dst ≡ xs
  pub written : o.dst_ptr ≡ n
  pub counted : length xs ≡ n

module _ {o : Output} {xs : Bytes} {n : ℕ} (a : At o xs n) where
  At-eq : {ys : Bytes} → xs ≡ ys → At o ys n
  At-eq e = record {
    bytes = a.bytes ∙ e;
    written = a.written;
    counted = ap length (sym e) ∙ a.counted;
  }

  put-At : (c : ℕ) → n + 1 < 2 ^ 64 → At (put o c) (xs ++ c ∷ []) (n + 1)
  put-At c h = record {
    bytes = ap (λ t. t ++ c ∷ []) a.bytes;
    written = omega (arith, a.written);
    counted = omega (arith, a.counted, length-append xs (c ∷ []));
  }

  put_range-At :
      (ys : Bytes) (k : ℕ)
      → k ≡ length ys
      → n + k < 2 ^ 64
      → At (put_range o ys k) (xs ++ ys) (n + k)
  put_range-At ys k e h = record {
    bytes = ap₂ ◌++◌ a.bytes (take_all ys k e);
    written = omega (arith, a.written);
    counted = omega (arith, a.counted, length-append xs ys);
  }

  put_output-At :
      {v : Output} {ys : Bytes} {k : ℕ}
      → At v ys k
      → n + k < 2 ^ 64
      → At (put_output o v) (xs ++ ys) (n + k)
  put_output-At {v} {ys} b h = record {
    bytes = ap₂ ◌++◌ a.bytes b.bytes;
    written = omega (arith, a.written, b.written);
    counted = omega (arith, a.counted, b.counted, length-append xs ys);
  }

  put_quote-At :
      (f : Field) → n + 1 < 2 ^ 64 → At (put_quote o f) (xs ++ quote f) (n + length (quote f))
  unfolding quote
  put_quote-At f h = elim (Bool-cases (is_json_string_literal f.val)) [
    | inl text ↦ rw text (put-At b'"' h)
    | inr bare ↦ rw bare (record {
      bytes = a.bytes ∙ sym (append-nil xs);
      written = omega (arith, a.written);
      counted = omega (arith, a.counted, ap length (append-nil xs));
    })
  ]

length-quote : (f : Field) → length (quote f) ≤ 1
unfolding quote
length-quote f = ground arith

value-At :
    (f : Field)
    → IsField f
    → At
        (json_value_encoder (take f.val_len f.val) (f.val_len * 6))
        (escape_all f.val)
        (length (escape_all f.val))
value-At f v =
    let e = json_value_encoder_all f.val (f.val_len * 6) v.val_bytes (omega arith) (omega arith) in
    rw (take_all f.val f.val_len v.val_counted)
      (record { bytes = e.0; written = e.1; counted = refl })

put_field-At :
    {o : Output} {xs : Bytes} {n : ℕ} (f : Field)
    → At o xs n
    → IsField f
    → n + need f < 2 ^ 64
    → (m : ℕ) × At (put_field o f) (xs ++ member f) m × (m ≤ n + need f)
unfolding put_field member need
put_field-At {o} {xs} {n} f a v h =
    let room : length (escape_all f.val) ≤ f.val_len * 6 =
      omega (arith, length-escape_all f.val v.val_bytes) in
    let q = length-quote f in
    let k1 = put-At a b'"' (omega arith) in
    let k2 = put_range-At k1 f.key f.key_len v.key_counted (omega arith) in
    let k3 = put-At k2 b'"' (omega arith) in
    let k4 = put-At k3 b':' (omega arith) in
    let k5 = put_quote-At k4 f (omega arith) in
    let k6 = put_output-At k5 (value-At f v) (omega arith) in
    let k7 = put_quote-At k6 f (omega arith) in
    let k8 = put-At k7 b',' (omega arith) in (_, At-eq k8 (simp append_assoc), omega arith)

put_fields-At :
    (fs : List Field) {o : Output} {xs : Bytes} {n : ℕ}
    → At o xs n
    → All IsField fs
    → n + total_need fs < 2 ^ 64
    → (m : ℕ) × At (put_fields o fs) (xs ++ members fs) m × (m ≤ n + total_need fs)
unfolding put_fields members total_need
put_fields-At [] {n} a v h = (n, At-eq a (sym (append-nil _)), omega arith)
put_fields-At (f ∷ fs) a v h =
    let (k, b, le) = put_field-At f a v.0 (omega arith) in
    let (m, c, le') = put_fields-At fs b v.1 (omega arith) in
    (m, At-eq c (append_assoc _ (member f) (members fs)), omega arith)

prefix_size_loop-total_need :
    (fs : List Field) (size : ℕ)
    → All IsField fs
    → size + total_need fs < 2 ^ 64
    → prefix_size_loop fs size ≡ size + total_need fs
unfolding prefix_size_loop total_need need
prefix_size_loop-total_need [] size v h = omega arith
prefix_size_loop-total_need (f ∷ fs) size v h =
    prefix_size_loop-total_need fs _ v.1 (omega (arith, v.0)) ∙ omega (arith, v.0)

-- For a well-formed set of at most 32 fields, jp_json_prefix_encoder writes an opening brace, the
-- members in the order of the set and the key of the message; *dst_len is the length of that, and
-- with the closing NUL it fits the allocated size.
pub json_prefix_encoder_fits :
    (set : FieldSet)
    → IsFieldSet set
    → set.len ≤ 32
    → ((json_prefix_encoder set).dst ≡ prefix_text set.fields)
      × ((json_prefix_encoder set).dst_ptr ≡ length (prefix_text set.fields))
      × ((json_prefix_encoder set).dst_ptr + 1 ≤ prefix_size set)
unfolding json_prefix_encoder prefix_size prefix_text
json_prefix_encoder_fits set v h =
    let few = total_need-le set.fields v.fields in
    let size = prefix_size_loop-total_need set.fields 64 v.fields (omega (arith, v.counted)) in
    let brace : At (put start b'{') (b'{' ∷ []) 1 = record {
      bytes = refl;
      written = refl;
      counted = refl;
    } in
    let (m, a, le) = put_fields-At set.fields brace v.fields (omega (arith, v.counted)) in
    let k = put_range-At a msg_key 6 refl (omega (arith, v.counted)) in
    (k.bytes, k.written ∙ sym k.counted, omega (arith, k.written))
