-- ===== src/Json/Tests.antt =====
-- The encoder on the inputs of test/unit/jp_json_test.c, and the theorems at concrete inputs.
use jpipe.Common.{◌+◌, ◌≤◌, ◌≡◌, refl, ◌↔◌, true, false, [], ◌∷◌, ◌++◌, some, arith, length, codes}
use jpipe.Field.{FieldSet}
use jpipe.Field.Parse.{field_of, IsField}
use jpipe.Field.Set.{IsFieldSet}
use jpipe.Json.Escape.{
  esc_len, json_short_lookup, hex_chars, put_char, encode_loop, json_value_encoder,
}
use jpipe.Json.Escape.Bounds.{Encodes, json_value_encoder-Encodes}
use jpipe.Json.Escape.Decode.{unescape}
use jpipe.Json.Escape.RoundTrip.{unescape-json_value_encoder}
use jpipe.Json.Literal.{step, is_final, accepts, is_json_numeric_literal, is_json_string_literal}
use jpipe.Json.Literal.Grammar.{IsNumber, is_json_numeric_literal_iff}
use jpipe.Json.Literal.Quoting.{IsBareValue, is_json_string_literal_iff}
use jpipe.Json.Prefix.{put_field, put_fields, prefix_size, json_prefix_encoder}
use jpipe.Json.Prefix.Size.{prefix_text, json_prefix_encoder_fits}
use jpipe.Json.Prefix.Scan.{IsWellQuoted}
use jpipe.Json.Prefix.Quotes.{record_text, record_text-not-IsWellQuoted}

-- The eleven bytes before the control byte fit, and its six do not.
cut_off :
    json_value_encoder (codes "01234567012" ++ 7 ∷ []) 16
    ≡ record { dst = codes "01234567012"; dst_ptr = 11 }
unfolding json_value_encoder encode_loop put_char esc_len json_short_lookup hex_chars
cut_off = refl

numbers :
    (is_json_numeric_literal (codes "-0.34E12") ≡ true)
    × (is_json_numeric_literal (codes "12.22E+12") ≡ true)
    × (is_json_numeric_literal (codes ".4") ≡ false)
    × (is_json_numeric_literal (codes "123.") ≡ false)
unfolding is_json_numeric_literal accepts step is_final
numbers = (refl, refl, refl, refl)

abbrev fields : FieldSet
fields = record {
  len = 2;
  cap = 32;
  fields = field_of (codes "env") (codes "prod") ∷ field_of (codes "n") (codes "1e3") ∷ [];
}

env-IsField : IsField (field_of (codes "env") (codes "prod"))
env-IsField = record {
  key_counted = refl;
  val_counted = refl;
  key_some = omega arith;
  key_short = omega arith;
  val_some = omega arith;
  val_short = omega arith;
  key_bytes = omega arith;
  val_bytes = omega arith;
}

n-IsField : IsField (field_of (codes "n") (codes "1e3"))
n-IsField = record {
  key_counted = refl;
  val_counted = refl;
  key_some = omega arith;
  key_short = omega arith;
  val_some = omega arith;
  val_short = omega arith;
  key_bytes = omega arith;
  val_bytes = omega arith;
}

fields-IsFieldSet : IsFieldSet fields
fields-IsFieldSet = record {
  counted = refl;
  within = omega arith;
  fields = (env-IsField, (n-IsField, tt));
  distinct = (((λ e. cc e), tt), (tt, tt));
}

prefix_of_fields : (json_prefix_encoder fields).dst ≡ codes "{\"env\":\"prod\",\"n\":1e3,\"msg\":"
unfolding json_prefix_encoder put_fields put_field json_value_encoder encode_loop put_char esc_len
    json_short_lookup hex_chars is_json_string_literal is_json_numeric_literal accepts step is_final
prefix_of_fields = refl

json_value_encoder-Encodes_example :
    Encodes (codes "a\nb") 4 [] (json_value_encoder (codes "a\nb") 4)
json_value_encoder-Encodes_example =
    json_value_encoder-Encodes (codes "a\nb") 4 (omega arith) (omega arith)

unescape-json_value_encoder_example :
    unescape (json_value_encoder (codes "a\"\nb") 24).dst ≡ some (codes "a\"\nb")
unescape-json_value_encoder_example =
    unescape-json_value_encoder (codes "a\"\nb") 24 (omega arith) (omega arith) (omega arith)

is_json_numeric_literal_iff_example :
    (is_json_numeric_literal (codes "-0.34E12") ≡ true) ↔ IsNumber (codes "-0.34E12")
is_json_numeric_literal_iff_example = is_json_numeric_literal_iff (codes "-0.34E12")

is_json_string_literal_iff_example :
    (is_json_string_literal (codes "1e3") ≡ false) ↔ IsBareValue (codes "1e3")
is_json_string_literal_iff_example = is_json_string_literal_iff (codes "1e3")

json_prefix_encoder_fits_example :
    ((json_prefix_encoder fields).dst ≡ prefix_text fields.fields)
    × ((json_prefix_encoder fields).dst_ptr ≡ length (prefix_text fields.fields))
    × ((json_prefix_encoder fields).dst_ptr + 1 ≤ prefix_size fields)
json_prefix_encoder_fits_example = json_prefix_encoder_fits fields fields-IsFieldSet (omega arith)

record_text-not-IsWellQuoted_example : ¬ IsWellQuoted (record_text fields (codes "hi") 48)
record_text-not-IsWellQuoted_example =
    record_text-not-IsWellQuoted fields (codes "hi") 48 fields-IsFieldSet (omega arith)
      (omega arith) (omega arith) (omega arith)
