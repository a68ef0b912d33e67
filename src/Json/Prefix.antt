-- ===== src/Json/Prefix.antt =====
-- `jp_json_prefix_encoder` and `jp_json_postfix_encoder` of src/json.c: what stands in front of every
-- message and behind it. `metadata` is written from its beginning, so it is an `Output` of Escape.
pub mod Size
pub mod Scan
pub mod Quotes
use jpipe.Common.{
  ℕ, ◌+◌, ◌*◌, List, [], ◌∷◌, ◌++◌, if◌then◌else◌, length, take, Bytes, add_size, codes,
}
use jpipe.Field.{Field, FieldSet}
use jpipe.Json.Escape.{json_escape_mul, Output, put, start, json_value_encoder}
use jpipe.Json.Literal.{is_json_string_literal}

-- The first loop: `prefix_size` grows by what each field may need.
unfoldable pub prefix_size_loop : List Field → ℕ → ℕ
prefix_size_loop [] size = size
prefix_size_loop (field ∷ fields) size =
    prefix_size_loop fields
      (add_size size (add_size (field.key_len + field.val_len * json_escape_mul) 6))

unfoldable pub prefix_size : FieldSet → ℕ
prefix_size field_set = prefix_size_loop field_set.fields 64

-- `memcpy(metadata + json_ptr, bytes, n)` and `json_ptr += n`, where `bytes` holds `n` bytes.
abbrev pub put_range : Output → Bytes → ℕ → Output
put_range o bytes n = record { dst = o.dst ++ take n bytes; dst_ptr = add_size o.dst_ptr n }

-- `jp_json_value_encoder` at `metadata + json_ptr`, and `json_ptr += esc_size`.
abbrev pub put_output : Output → Output → Output
put_output o value = record { dst = o.dst ++ value.dst; dst_ptr = add_size o.dst_ptr value.dst_ptr }

abbrev pub put_quote : Output → Field → Output
put_quote o field = if is_json_string_literal field.val then put o b'"' else o

-- One round of the second loop.
unfoldable pub put_field : Output → Field → Output
put_field o field =
    let key = put (put (put_range (put o b'"') field.key field.key_len) b'"') b':' in
    let value = json_value_encoder (take field.val_len field.val) (field.val_len * 6) in
    put (put_quote (put_output (put_quote key field) value) field) b','

unfoldable pub put_fields : Output → List Field → Output
put_fields o [] = o
put_fields o (field ∷ fields) = put_fields (put_field o field) fields

abbrev pub msg_key : Bytes
msg_key = codes "\"msg\":"

-- The bytes in front of the NUL, and `*dst_len`.
unfoldable pub json_prefix_encoder : FieldSet → Output
json_prefix_encoder field_set = put_range (put_fields (put start b'{') field_set.fields) msg_key 6

unfoldable pub json_postfix_encoder : FieldSet → Output
json_postfix_encoder field_set = record { dst = codes "\"}\n"; dst_ptr = 3 }
