-- ===== src/Field/Parse.antt =====
-- What `crete_field_from_kv` accepts: exactly the texts `key=value` with a key and a value within the
-- limits.
use jpipe.Common.{
  ℕ, zero, suc, ◌+◌, ◌-◌, ◌≤◌, ◌<◌, ◌≡◌, refl, sym, ap, ◌∙◌, ◌⊎◌, inl, true, [], ◌∷◌, ◌++◌, Option,
  none, some, arith, length, length-append, take, drop, length-take, length-drop, Bytes, IsByte,
  All,
}
use native.Mathlib.Numerals.{add-one}
use jpipe.Errno.{Errno}
use jpipe.Field.{
  Field, is_valid_field_key, strchr, create_field, field_at, field_behind, crete_field_from_kv,
}

-- a-z, A-Z, 0-9, '-' and '_'.
abbrev pub IsKeyByte : ℕ → Type 0
IsKeyByte c =
    ((b'a' ≤ c) × (c ≤ b'z'))
    ⊎ (((b'A' ≤ c) × (c ≤ b'Z')) ⊎ (((b'0' ≤ c) × (c ≤ b'9')) ⊎ ((c ≡ b'-') ⊎ (c ≡ b'_'))))

-- A field that the program can hold.
pub record IsField (f : Field) : Type 0 where
  pub key_counted : f.key_len ≡ length f.key
  pub val_counted : f.val_len ≡ length f.val
  pub key_some : 1 ≤ f.key_len
  pub key_short : f.key_len ≤ 32
  pub val_some : 1 ≤ f.val_len
  pub val_short : f.val_len ≤ 512
  pub key_bytes : All IsKeyByte f.key
  pub val_bytes : All IsByte f.val

-- A key and a value within the limits.
pub record IsPair (key val : Bytes) : Type 0 where
  pub key_some : 1 ≤ length key
  pub key_short : length key ≤ 32
  pub val_some : 1 ≤ length val
  pub val_short : length val ≤ 512
  pub key_bytes : All IsKeyByte key

is_valid_field_key-All : (s : Bytes) → is_valid_field_key s ≡ true → All IsKeyByte s
unfolding is_valid_field_key
is_valid_field_key-All [] h = tt
is_valid_field_key-All (c ∷ s) h = (ground arith, is_valid_field_key-All s (ground arith))

All-is_valid_field_key : (s : Bytes) → All IsKeyByte s → is_valid_field_key s ≡ true
unfolding is_valid_field_key
All-is_valid_field_key [] h = refl
All-is_valid_field_key (c ∷ s) h = ground (arith, h.0, All-is_valid_field_key s h.1)

strchr-split :
    (s : Bytes) (c i : ℕ)
    → strchr s c ≡ some i
    → (s ≡ take i s ++ c ∷ drop (suc i) s) × (i < length s)
unfolding strchr
strchr-split [] c i h = absurd (cc)
strchr-split (b ∷ s) c zero h = ground arith
strchr-split (b ∷ s) c (suc i) h =
    let ih = strchr-split s c i (ground arith) in (ap (λ t. b ∷ t) ih.0, omega (arith, ih.1))

strchr-append :
    (key val : Bytes) → All IsKeyByte key → strchr (key ++ b'=' ∷ val) b'=' ≡ some (length key)
unfolding strchr
strchr-append [] val h = ground arith
strchr-append (c ∷ key) val h = ground (arith, h.0, strchr-append key val h.1)

drop-append : (xs ys : Bytes) (y : ℕ) → drop (length xs + 1) (xs ++ y ∷ ys) ≡ ys
drop-append [] ys y = refl
drop-append (x ∷ xs) ys y = rw add-one (drop-suc (x ∷ xs) ys y)
  where
    drop-suc : (xs ys : Bytes) (y : ℕ) → drop (suc (length xs)) (xs ++ y ∷ ys) ≡ ys
    drop-suc [] ys y = refl
    drop-suc (x ∷ xs) ys y = drop-suc xs ys y

take-append : (xs ys : Bytes) → take (length xs) (xs ++ ys) ≡ xs
take-append [] ys = refl
take-append (x ∷ xs) ys = ap (λ t. x ∷ t) (take-append xs ys)

take_whole : (xs : Bytes) (n : ℕ) → n ≡ length xs → take n xs ≡ xs
take_whole [] zero e = refl
take_whole [] (suc n) e = refl
take_whole (x ∷ xs) zero e = absurd (omega arith)
take_whole (x ∷ xs) (suc n) e = ap (λ t. x ∷ t) (take_whole xs n (omega arith))

All-drop : (n : ℕ) (xs : Bytes) → All IsByte xs → All IsByte (drop n xs)
All-drop zero xs h = h
All-drop (suc n) [] h = tt
All-drop (suc n) (x ∷ xs) h = All-drop n xs h.1

abbrev pub field_of : Bytes → Bytes → Field
field_of key val = record { key_len = length key; val_len = length val; key = key; val = val }

create_field-field_of :
    (key val : Bytes)
    → create_field (key ++ b'=' ∷ val) (length key) (length val) ≡ field_of key val
unfolding create_field
create_field-field_of key val =
    rw (take-append key (b'=' ∷ val), drop-append key val b'=', take_whole val (length val) refl)

field_at_accepts :
    (kv : Bytes) (eq n : ℕ)
    → length kv - eq - 1 ≡ n
    → (1 ≤ eq) × (eq ≤ 32) × (1 ≤ n) × (n ≤ 512)
    → is_valid_field_key (take eq kv) ≡ true
    → field_at kv eq ≡ (Errno.ok, some (create_field kv eq n))
unfolding field_at
field_at_accepts kv eq n e b v = ground arith

-- Every key and value within the limits, joined by a =, is read as that field.
pub crete_field_from_kv-IsPair :
    (key val : Bytes)
    → IsPair key val
    → crete_field_from_kv (key ++ b'=' ∷ val) ≡ (Errno.ok, some (field_of key val))
unfolding crete_field_from_kv
crete_field_from_kv-IsPair key val p =
    let kv = key ++ b'=' ∷ val in
    let valid : is_valid_field_key (take (length key) kv) ≡ true =
      rw (take-append key (b'=' ∷ val)) (All-is_valid_field_key key p.key_bytes) in
    let at =
      field_at_accepts kv (length key) (length val) (omega (arith, length-append key (b'=' ∷ val)))
        (p.key_some, p.key_short, p.val_some, p.val_short) valid in
    rw (strchr-append key val p.key_bytes, crete_field_from_kv, at, create_field-field_of key val)

field_at_sound :
    (kv : Bytes) (eq : ℕ) (e : Errno) (f : Field)
    → field_at kv eq ≡ (e, some f)
    → (e ≡ Errno.ok)
      × (f ≡ create_field kv eq (length kv - eq - 1))
      × ((1 ≤ eq) × (eq ≤ 32))
      × ((1 ≤ length kv - eq - 1) × (length kv - eq - 1 ≤ 512))
      × (is_valid_field_key (take eq kv) ≡ true)
unfolding field_at
field_at_sound kv eq e f h = ground arith

-- What a call that returns a field says of its text.
pub record Reads (kv : Bytes) (err : Errno) (f : Field) : Type 0 where
  pub no_error : err ≡ Errno.ok
  pub field : IsField f
  pub text : kv ≡ f.key ++ b'=' ∷ f.val

val-create_field :
    (kv : Bytes) (eq : ℕ)
    → eq < length kv
    → take (length kv - eq - 1) (drop (eq + 1) kv) ≡ drop (suc eq) kv
val-create_field kv eq lt =
    rw add-one (take_whole (drop (suc eq) kv) _ (omega (arith, length-drop (suc eq) kv)))

create_field-Reads :
    (kv : Bytes) (eq : ℕ)
    → All IsByte kv
    → strchr kv b'=' ≡ some eq
    → (1 ≤ eq) × (eq ≤ 32)
    → (1 ≤ length kv - eq - 1) × (length kv - eq - 1 ≤ 512)
    → is_valid_field_key (take eq kv) ≡ true
    → Reads kv Errno.ok (create_field kv eq (length kv - eq - 1))
unfolding create_field
create_field-Reads kv eq h s k v valid =
    let split = strchr-split kv b'=' eq s in
    let val = val-create_field kv eq split.1 in
    record {
      no_error = refl;
      field = record {
        key_counted = omega (arith, length-take eq kv, split.1);
        val_counted = rw val (omega (arith, length-drop (suc eq) kv));
        key_some = k.0;
        key_short = k.1;
        val_some = v.0;
        val_short = v.1;
        key_bytes = is_valid_field_key-All _ valid;
        val_bytes = rw val (All-drop (suc eq) kv h);
      };
      text = split.0 ∙ ap (λ t. take eq kv ++ b'=' ∷ t) (sym val);
    }

-- A call of crete_field_from_kv on a text of bytes that returns a field returns no error, the
-- field is within the limits, and the text is its key and its value joined by a =.
pub crete_field_from_kv-Reads :
    (kv : Bytes) (err : Errno) (f : Field)
    → All IsByte kv
    → crete_field_from_kv kv ≡ (err, some f)
    → Reads kv err f
unfolding crete_field_from_kv
crete_field_from_kv-Reads kv err f h e = at (strchr kv b'=') refl e
  where
    at : (o : Option ℕ) → strchr kv b'=' ≡ o → field_behind kv o ≡ (err, some f) → Reads kv err f
    at none s k = absurd (cc)
    at (some eq) s k =
        let r = field_at_sound kv eq err f k in
        rw (r.0, r.1) (create_field-Reads kv eq h s r.2 r.3 r.4)

field_at_error :
    (kv : Bytes) (eq : ℕ) (e : Errno)
    → field_at kv eq ≡ (e, none)
    → (e ≡ Errno.einv_field_key) ⊎ (e ≡ Errno.einv_field_val)
unfolding field_at
field_at_error kv eq e h = ground arith

-- A call that returns no field returns one of the two codes for a bad field.
pub crete_field_from_kv_error :
    (kv : Bytes) (e : Errno)
    → crete_field_from_kv kv ≡ (e, none)
    → (e ≡ Errno.einv_field_key) ⊎ (e ≡ Errno.einv_field_val)
unfolding crete_field_from_kv
crete_field_from_kv_error kv e h = at (strchr kv b'=') h
  where
    at :
        (o : Option ℕ)
        → field_behind kv o ≡ (e, none)
        → (e ≡ Errno.einv_field_key) ⊎ (e ≡ Errno.einv_field_val)
    at none k = inl (cc)
    at (some eq) k = field_at_error kv eq e k
