-- ===== src/Field/Tests.antt =====
-- Runs of the field parser on the inputs of test/unit/jp_field_test.c.
use jpipe.Common.{◌≡◌, refl, ◌++◌, arith, [], ◌∷◌, none, some, codes}
use jpipe.Errno.{Errno}
use jpipe.Field.Parse.{field_of, crete_field_from_kv-IsPair}
use jpipe.Field.Set.{IsFieldSet, AddResult, field_set_add-AddResult}
use jpipe.Field.{
  Field, FieldSet, crete_field_from_kv, strchr, field_at, is_valid_field_key, create_field,
  field_set_add,
}

abbrev key_1 : Field
key_1 = record { key_len = 5; val_len = 7; key = codes "key-1"; val = codes "value-1" }

field_of_kv : crete_field_from_kv (codes "key-1=value-1") ≡ (Errno.ok, some key_1)
unfolding crete_field_from_kv strchr field_at is_valid_field_key create_field
field_of_kv = refl

rejected :
    (crete_field_from_kv (codes "") ≡ (Errno.einv_field_key, none))
    × (crete_field_from_kv (codes "=value") ≡ (Errno.einv_field_key, none))
    × (crete_field_from_kv (codes ".=value") ≡ (Errno.einv_field_key, none))
    × (crete_field_from_kv (codes "k=") ≡ (Errno.einv_field_val, none))
unfolding crete_field_from_kv strchr field_at is_valid_field_key create_field
rejected = (refl, refl, refl, refl)

crete_field_from_kv-IsPair_example :
    crete_field_from_kv (codes "env" ++ b'=' ∷ codes "a=b")
    ≡ (Errno.ok, some (field_of (codes "env") (codes "a=b")))
crete_field_from_kv-IsPair_example =
    crete_field_from_kv-IsPair (codes "env") (codes "a=b") (omega arith)

abbrev one_field : FieldSet
one_field = record { len = 1; cap = 2; fields = field_of (codes "k") (codes "v") ∷ [] }

one_field-IsFieldSet : IsFieldSet one_field
one_field-IsFieldSet = record {
  counted = refl;
  within = omega arith;
  fields = (omega arith, tt);
  distinct = (tt, tt);
}

field_set_add-AddResult_example :
    AddResult one_field (codes "k=w") (field_set_add one_field (codes "k=w"))
field_set_add-AddResult_example =
    field_set_add-AddResult one_field (codes "k=w") one_field-IsFieldSet (omega arith)
