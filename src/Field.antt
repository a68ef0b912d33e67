-- ===== src/Field.antt =====
-- src/field.c: the `key=value` fields of the command line and the set that keeps them.
pub mod Parse
pub mod Set
pub mod Keys
mod Tests
use mathlib.Core.Option
use jpipe.Common.{
  ℕ, ◌+◌, ◌-◌, Bool, true, false, ◌&&◌, ◌||◌, List, [], ◌∷◌, ◌++◌, Option, none, some, ◌==◌, leb,
  ltb, if◌then◌else◌, length, take, drop, Bytes, equal,
}
use jpipe.Config.{conf_field_max_key, conf_field_max_val}
use jpipe.Errno.{Errno}

-- `jp_field_t`: `key` and `val` are the ranges that the pointers of the same names begin.
pub record Field : Type 0 where
  pub key_len : ℕ
  pub val_len : ℕ
  pub key : Bytes
  pub val : Bytes

-- `jp_field_set_t`: `fields` holds the first `len` slots of the array.
pub record FieldSet : Type 0 where
  pub len : ℕ
  pub cap : ℕ
  pub fields : List Field

-- The test of `is_valid_field_key` on one byte.
abbrev pub is_key_byte : ℕ → Bool
is_key_byte c =
    leb 97 c && leb c 122 || leb 65 c && leb c 90 || leb 48 c && leb c 57 || c == 45 || c == 95

-- The list is the range from `start` to `end`.
unfoldable pub is_valid_field_key : Bytes → Bool
is_valid_field_key [] = true
is_valid_field_key (c ∷ cs) = if is_key_byte c then is_valid_field_key cs else false

-- `strchr`, as an index.
unfoldable pub strchr : Bytes → ℕ → Option ℕ
strchr [] c = none
strchr (b ∷ bs) c = if b == c then some 0 else Option.map (λ i. i + 1) (strchr bs c)

unfoldable pub create_field : Bytes → ℕ → ℕ → Field
create_field kv key_len val_len = record {
  key_len = key_len;
  val_len = val_len;
  key = take key_len kv;
  val = take val_len (drop (key_len + 1) kv);
}

-- The part of `crete_field_from_kv` behind the first test, with `eq` the index of the '='.
unfoldable pub field_at : Bytes → ℕ → Errno × Option Field
field_at kv eq =
    let val_len = length kv - eq - 1 in
    if eq == 0
    then (Errno.einv_field_key, none)
    else if eq == 0 || ltb conf_field_max_key eq
    then (Errno.einv_field_key, none)
    else if val_len == 0 || ltb conf_field_max_val val_len
    then (Errno.einv_field_val, none)
    else if is_valid_field_key (take eq kv)
    then (Errno.ok, some (create_field kv eq val_len))
    else (Errno.einv_field_key, none)

-- The part behind `strchr`, on what it returns.
abbrev pub field_behind : Bytes → Option ℕ → Errno × Option Field
field_behind kv none = (Errno.einv_field_key, none)
field_behind kv (some eq) = field_at kv eq

unfoldable pub crete_field_from_kv : Bytes → Errno × Option Field
crete_field_from_kv kv = field_behind kv (strchr kv b'=')

unfoldable pub field_set_create : ℕ → FieldSet
field_set_create cap = record { len = 0; cap = cap; fields = [] }

abbrev pub same_key : Field → Field → Bool
same_key field new_field = field.key_len == new_field.key_len && equal field.key new_field.key

-- The loop of `jp_field_set_add`: the slots with the field of the new field's key replaced, or `none`.
unfoldable pub replace_field : Field → List Field → Option (List Field)
replace_field new_field [] = none
replace_field new_field (field ∷ fields) =
    if same_key field new_field
    then some (new_field ∷ fields)
    else Option.map (λ rest. field ∷ rest) (replace_field new_field fields)

-- What `jp_field_set_add` does behind the loop, with the loop's result.
abbrev pub store_outcome : FieldSet → Field → Option (List Field) → FieldSet
store_outcome set new_field (some fields) = record set { fields = fields }
store_outcome set new_field none = record set {
  fields = set.fields ++ new_field ∷ [];
  len = set.len + 1;
}

unfoldable pub store_field : FieldSet → Field → FieldSet
store_field set new_field = store_outcome set new_field (replace_field new_field set.fields)

abbrev pub add_created : FieldSet → Errno × Option Field → Errno × FieldSet
add_created set (err, none) = (err, set)
add_created set (err, some new_field) = (Errno.ok, store_field set new_field)

-- `jp_field_set_add`.
unfoldable pub field_set_add : FieldSet → Bytes → Errno × FieldSet
field_set_add set kv =
    if set.len == set.cap
    then (Errno.etoo_many_field, set)
    else add_created set (crete_field_from_kv kv)
