-- ===== src/Field/Set.antt =====
-- `jp_field_set_add` as an operation on a finite map from keys to values, kept in the order in which
-- the keys first came.
use jpipe.Common.{
  suc, ◌≤◌, ◌≡◌, refl, sym, ap, ◌∙◌, ◌≢◌, ◌↔◌, ◌⊎◌, inl, inr, true, List, [], ◌∷◌, ◌++◌, Option,
  none, some, arith, ◌==◌, if◌then◌else◌, Bool-cases, length, length-append, Bytes, IsByte, All,
  All-append, equal, equal_iff,
}
use mathlib.Core.Option
use jpipe.Errno.{Errno}
use jpipe.Field.{
  Field, FieldSet, crete_field_from_kv, same_key, replace_field, store_field, store_outcome,
  add_created, field_set_add,
}
use jpipe.Field.Parse.{IsField, Reads, crete_field_from_kv-Reads, crete_field_from_kv_error}

-- The value of a key.
abbrev pub lookup : Bytes → List Field → Option Bytes
lookup k [] = none
lookup k (f ∷ fs) = if equal f.key k then some f.val else lookup k fs

abbrev pub keys : List Field → List Bytes
keys [] = []
keys (f ∷ fs) = f.key ∷ keys fs

abbrev pub Distinct : List Bytes → Type 0
Distinct [] = Unit
Distinct (k ∷ ks) = All (λ j. k ≢ j) ks × Distinct ks

pub record IsFieldSet (set : FieldSet) : Type 0 where
  pub counted : set.len ≡ length set.fields
  pub within : set.len ≤ set.cap
  pub fields : All IsField set.fields
  pub distinct : Distinct (keys set.fields)

same_key_iff : (f g : Field) → IsField f → IsField g → (same_key f g ≡ true) ↔ (f.key ≡ g.key)
same_key_iff f g p q = (
  λ h. (equal_iff f.key g.key).0 (ground arith),
  λ e. ground (arith, ap length e, equal_iff f.key g.key),
)

-- What `replace_field` returns for a set that has the key.
record Replaced (g : Field) (fs fs' : List Field) : Type 0 where
  fields : All IsField fs'
  same_keys : keys fs' ≡ keys fs
  same_length : length fs' ≡ length fs
  known : (k : Bytes) → lookup k fs' ≡ (if equal g.key k then some g.val else lookup k fs)

module _ (g : Field) (ok : IsField g) where
  Replaced-here :
      (f : Field) (fs : List Field)
      → IsField f
      → All IsField fs
      → f.key ≡ g.key
      → Replaced g (f ∷ fs) (g ∷ fs)
  Replaced-here f fs p h e = record {
    fields = (ok, h);
    same_keys = ap (λ k. k ∷ keys fs) (sym e);
    same_length = refl;
    known = λ k. ground (arith, ap (λ j. equal j k) e);
  }

  Replaced-later :
      (f : Field) {fs fs' : List Field}
      → IsField f
      → f.key ≢ g.key
      → Replaced g fs fs'
      → Replaced g (f ∷ fs) (f ∷ fs')
  Replaced-later f p ne r = record {
    fields = (p, r.fields);
    same_keys = ap (λ ks. f.key ∷ ks) r.same_keys;
    same_length = ap suc r.same_length;
    known = λ k. ground (arith, r.known k, equal_iff f.key k, equal_iff g.key k, ne);
  }

  -- Either the set lacks the key, or its value is replaced.
  abbrev Outcome : List Field → Option (List Field) → Type 0
  Outcome fs none = All (λ k. k ≢ g.key) (keys fs)
  Outcome fs (some fs') = Replaced g fs fs'

  Outcome-later :
      (f : Field) (fs : List Field) (o : Option (List Field))
      → IsField f
      → f.key ≢ g.key
      → Outcome fs o
      → Outcome (f ∷ fs) (Option.map (λ rest. f ∷ rest) o)
  Outcome-later f fs none p ne r = (ne, r)
  Outcome-later f fs (some fs') p ne r = Replaced-later f p ne r

  replace_field-Outcome : (fs : List Field) → All IsField fs → Outcome fs (replace_field g fs)
  unfolding replace_field
  replace_field-Outcome [] h = tt
  replace_field-Outcome (f ∷ fs) h = elim (Bool-cases (same_key f g)) [
    | inl same ↦ rw same (Replaced-here f fs h.0 h.1 ((same_key_iff f g h.0 ok).0 same))
    | inr other ↦ rw other (
        Outcome-later f fs (replace_field g fs) h.0 (λ e. cc (other, (same_key_iff f g h.0 ok).1 e))
          (replace_field-Outcome fs h.1))
  ]

keys-append : (fs gs : List Field) → keys (fs ++ gs) ≡ keys fs ++ keys gs
keys-append [] gs = refl
keys-append (f ∷ fs) gs = ap (λ ks. f.key ∷ ks) (keys-append fs gs)

Distinct-append :
    (ks : List Bytes) (j : Bytes) → Distinct ks → All (λ k. k ≢ j) ks → Distinct (ks ++ j ∷ [])
Distinct-append [] j h n = (tt, tt)
Distinct-append (k ∷ ks) j h n =
    (All-append (λ i. k ≢ i) ks (j ∷ []) h.0 (n.0, tt), Distinct-append ks j h.1 n.1)

lookup-append :
    (fs : List Field) (g : Field) (k : Bytes)
    → All (λ j. j ≢ g.key) (keys fs)
    → lookup k (fs ++ g ∷ []) ≡ (if equal g.key k then some g.val else lookup k fs)
lookup-append [] g k h = refl
lookup-append (f ∷ fs) g k h =
    ground (arith, lookup-append fs g k h.1, equal_iff f.key k, equal_iff g.key k, h.0)

-- What a successful call does: the set stays well formed, the key has the new value and the other
-- keys theirs, and the keys keep their order, a new one behind the others.
pub record Stored (set : FieldSet) (g : Field) (set' : FieldSet) : Type 0 where
  pub valid : IsFieldSet set'
  pub same_cap : set'.cap ≡ set.cap
  pub known :
      (k : Bytes)
      → lookup k set'.fields ≡ (if equal g.key k then some g.val else lookup k set.fields)
  pub order :
      (keys set'.fields ≡ keys set.fields) ⊎ (keys set'.fields ≡ keys set.fields ++ g.key ∷ [])

pub store_field-Stored :
    (set : FieldSet) (g : Field)
    → IsFieldSet set
    → set.len ≢ set.cap
    → IsField g
    → Stored set g (store_field set g)
unfolding store_field
store_field-Stored set g v room ok =
    stored (replace_field g set.fields) (replace_field-Outcome g ok set.fields v.fields)
  where
    stored :
        (o : Option (List Field)) → Outcome g ok set.fields o → Stored set g (store_outcome set g o)
    stored none new = record {
      valid = record {
        counted = omega (arith, v.counted, length-append set.fields (g ∷ []));
        within = omega (arith, v.within, room);
        fields = All-append IsField set.fields (g ∷ []) v.fields (ok, tt);
        distinct =
            rw (keys-append set.fields (g ∷ []))
              (Distinct-append (keys set.fields) g.key v.distinct new);
      };
      same_cap = refl;
      known = λ k. lookup-append set.fields g k new;
      order = inr (keys-append set.fields (g ∷ []));
    }
    stored (some fs') r = record {
      valid = record {
        counted = v.counted ∙ sym r.same_length;
        within = v.within;
        fields = r.fields;
        distinct = rw r.same_keys v.distinct;
      };
      same_cap = refl;
      known = r.known;
      order = inl r.same_keys;
    }

-- What `jp_field_set_add` may do: refuse and change nothing, or read a field and store it.
abbrev pub AddResult : FieldSet → Bytes → Errno × FieldSet → Type 0
AddResult set kv (err, set') =
    ((err ≢ Errno.ok) × (set' ≡ set))
    ⊎ ((err ≡ Errno.ok) × ((g : Field) × Reads kv Errno.ok g × Stored set g set'))

-- jp_field_set_add on a well-formed set and a text of bytes either reports an error and changes
-- nothing, or reads a field from the text and stores it: the set stays well formed, a lookup finds
-- the new value under its key and the old values under the other keys, and the keys keep their
-- order with a new key last.
pub field_set_add-AddResult :
    (set : FieldSet) (kv : Bytes)
    → IsFieldSet set
    → All IsByte kv
    → AddResult set kv (field_set_add set kv)
unfolding field_set_add
field_set_add-AddResult set kv v h = elim (Bool-cases (set.len == set.cap)) [
  | inl full ↦ rw full (inl ((λ e. cc e), refl))
  | inr room ↦ rw room (added (crete_field_from_kv kv) refl (ground arith))
]
  where
    added :
        (r : Errno × Option Field)
        → crete_field_from_kv kv ≡ r
        → set.len ≢ set.cap
        → AddResult set kv (add_created set r)
    added (err, none) e ne =
        inl ((λ k. elim (crete_field_from_kv_error kv err e) [ inl a ↦ cc | inr b ↦ cc ]), refl)
    added (err, some g) e ne =
        let r = crete_field_from_kv-Reads kv err g h e in
        inr (
          refl,
          (
            g,
            record { no_error = refl; field = r.field; text = r.text },
            store_field-Stored set g v ne r.field,
          ),
        )
