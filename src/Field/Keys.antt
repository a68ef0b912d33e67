-- ===== src/Field/Keys.antt =====
-- The keys that `jp_field_set_add` leaves, and how many.
use jpipe.Common.{
  suc, ◌+◌, ◌≤◌, ◌≡◌, ◌≢◌, refl, sym, ap, subst, ◌∙◌, inl, inr, Bool, false, ◌||◌, List, [], ◌∷◌,
  ◌++◌, none, arith, if◌then◌else◌, Bool-cases, length, length-append, Bytes, All, equal, equal_iff,
}
use jpipe.Field.{Field, FieldSet}
use jpipe.Field.Set.{lookup, keys, Distinct, IsFieldSet, Stored}

-- Whether a key is there.
unfoldable pub has : Bytes → List Bytes → Bool
has k [] = false
has k (j ∷ ks) = equal j k || has k ks

has_lacks : (k : Bytes) (ks : List Bytes) → All (λ j. j ≢ k) ks → has k ks ≡ false
unfolding has
has_lacks k [] h = refl
has_lacks k (j ∷ ks) h = ground (arith, has_lacks k ks h.1, equal_iff j k, h.0)

lacks_has : (k : Bytes) (ks : List Bytes) → has k ks ≡ false → All (λ j. j ≢ k) ks
unfolding has
lacks_has k [] h = tt
lacks_has k (j ∷ ks) h = ((λ e. ground (arith, equal_iff j k, e)), lacks_has k ks (ground arith))

lookup_lacks : (k : Bytes) (fs : List Field) → All (λ j. j ≢ k) (keys fs) → lookup k fs ≡ none
lookup_lacks k [] h = refl
lookup_lacks k (f ∷ fs) h = ground (arith, lookup_lacks k fs h.1, equal_iff f.key k, h.0)

All-last : (j k : Bytes) (ks : List Bytes) → All (λ i. j ≢ i) (ks ++ k ∷ []) → j ≢ k
All-last j k [] h = h.0
All-last j k (i ∷ ks) h = All-last j k ks h.1

Distinct-last : (ks : List Bytes) (k : Bytes) → Distinct (ks ++ k ∷ []) → All (λ j. j ≢ k) ks
Distinct-last [] k h = tt
Distinct-last (j ∷ ks) k h = (All-last j k ks h.0, Distinct-last ks k h.1)

length-keys : (fs : List Field) → length (keys fs) ≡ length fs
length-keys [] = refl
length-keys (f ∷ fs) = ap suc (length-keys fs)

-- Which keys a call leaves.
pub Stored-keys :
    (set : FieldSet) (g : Field) (set' : FieldSet)
    → Stored set g set'
    → keys set'.fields
      ≡ (if has g.key (keys set.fields) then keys set.fields else keys set.fields ++ g.key ∷ [])
Stored-keys set g set' s = elim (Bool-cases (has g.key (keys set.fields))) [
  | inl here ↦ rw here (elim s.order [
    | inl same ↦ same
    | inr longer ↦ absurd (
        cc (
          here,
          has_lacks g.key (keys set.fields)
              (Distinct-last (keys set.fields) g.key (subst Distinct longer s.valid.distinct)),
        ))
  ])
  | inr missing ↦ rw missing (elim s.order [
    | inl same ↦ absurd (
        ground (
          arith,
          s.known g.key,
          equal_iff g.key g.key,
          lookup_lacks g.key set'.fields
              (subst (All (λ j. j ≢ g.key)) (sym same) (lacks_has g.key (keys set.fields) missing)),
        ))
    | inr longer ↦ longer
  ])
]

-- A call adds one field at most.
pub Stored-len :
    (set : FieldSet) (g : Field) (set' : FieldSet)
    → IsFieldSet set
    → Stored set g set'
    → set'.len ≤ set.len + 1
Stored-len set g set' v s =
    let counted = (s.valid.counted ∙ sym (length-keys set'.fields)) in
    elim s.order [
      | inl same ↦ omega (arith, counted, ap length same, length-keys set.fields, v.counted)
      | inr longer ↦ omega (
        arith,
        counted,
        ap length longer,
        length-append (keys set.fields) (g.key ∷ []),
        length-keys set.fields,
        v.counted,
      )
    ]
