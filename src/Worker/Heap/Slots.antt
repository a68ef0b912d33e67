-- ===== src/Worker/Heap/Slots.antt =====
-- The objects of the fields: `jp_field_set_add` frees the one that it replaces.
use jpipe.Common.{
  ℕ, zero, suc, ◌+◌, ◌<◌, ◌≡◌, refl, sym, ap, subst, ◌∙◌, inl, inr, true, false, List, [], ◌∷◌,
  ◌++◌, Option, none, some, arith, ◌==◌, Bool-cases, length, length-append, length-set, set, get_or,
  Bytes,
}
use mathlib.Core.Option
use jpipe.Errno.{Errno}
use jpipe.Field.{
  Field, FieldSet, same_key, replace_field, store_outcome, store_field, add_created, field_set_add,
  crete_field_from_kv,
}
use jpipe.Memory.Heap.{
  Heap, pure, alloc, free, count, count-append, Owns, Ends, >>=-Ends, alloc-Owns, free-Owns,
}
use jpipe.Worker.{set_field}
use jpipe.Worker.Heap.{Owned, owned, same_slot, store_at, add_at, field_set_add_mem, set_field_mem}
use jpipe.Worker.Heap.Paths.{IsOwned, Leaves, count-owned}

count-set :
    (xs : List ℕ) (i v q : ℕ)
    → i < length xs
    → count q (set xs i v) + count q (get_or xs i 0 ∷ []) ≡ count q xs + count q (v ∷ [])
count-set [] i v q less = absurd (omega arith)
count-set (x ∷ xs) zero v q less = omega arith
count-set (x ∷ xs) (suc i) v q less = omega (arith, count-set xs i v q (omega arith))

-- The slot of a key is where `replace_field` replaces.
SlotOf : List Field → Option ℕ → Option (List Field) → Type 0
SlotOf fs none o = o ≡ none
SlotOf fs (some i) o =
    (i < length fs) × ((fs' : List Field) × (o ≡ some fs') × (length fs' ≡ length fs))

same_slot-SlotOf : (g : Field) (fs : List Field) → SlotOf fs (same_slot g fs) (replace_field g fs)
unfolding same_slot replace_field SlotOf
same_slot-SlotOf g [] = refl
same_slot-SlotOf g (f ∷ fs) = elim (Bool-cases (same_key f g)) [
  | inl same ↦ rw same (omega arith, (g ∷ fs, refl, refl))
  | inr other ↦ rw other (later (same_slot g fs) (replace_field g fs) (same_slot-SlotOf g fs))
]
  where
    later :
        (i : Option ℕ) (o : Option (List Field))
        → SlotOf fs i o
        → SlotOf (f ∷ fs) (Option.map suc i) (Option.map (λ rest. f ∷ rest) o)
    later none o h = ap (Option.map (λ rest. f ∷ rest)) h
    later (some i) o h =
        (omega (arith, h.0), (f ∷ h.1.0, ap (Option.map (λ rest. f ∷ rest)) h.1.1, ap suc h.1.2))

-- The fields of a set that has got a new field.
module _ (o : Owned) (new_field : Field) (new_at : ℕ) where
  abbrev stored : FieldSet
  stored = store_field o.ctx.fields new_field

  abbrev AtSlot : List ℕ → Heap → Type 0
  AtSlot ats h = Owns (owned (record o { field_ats = ats })) h × (length ats ≡ length stored.fields)

  store_at-AtSlot :
      (h : Heap)
      → Owns (new_at ∷ owned o) h
      → length o.field_ats ≡ length o.ctx.fields.fields
      → (i : Option ℕ) (fs : Option (List Field)) → SlotOf o.ctx.fields.fields i fs
      → store_field o.ctx.fields new_field ≡ store_outcome o.ctx.fields new_field fs
      → Ends AtSlot (store_at i new_at o.field_ats h)
  unfolding SlotOf
  store_at-AtSlot h owns slots none fs e out = (
    λ p. omega (
      arith,
      owns p,
      count-owned p o,
      count-owned p (record o { field_ats = o.field_ats ++ new_at ∷ [] }),
      count-append p o.field_ats (new_at ∷ []),
    ),
    omega (arith, slots, length-append o.field_ats (new_at ∷ []))
        ∙ sym (length-append o.ctx.fields.fields (new_field ∷ []))
        ∙ ap (λ t. length t.fields) (sym (out ∙ ap (store_outcome o.ctx.fields new_field) e)),
  )
  store_at-AtSlot h owns slots (some i) fs e out =
      let ats = set o.field_ats i new_at in
      let after = owned (record o { field_ats = ats }) in
      >>=-Ends (λ _ h'. Owns after h') AtSlot (free (get_or o.field_ats i 0)) (λ _. pure ats) h
        (free-Owns (get_or o.field_ats i 0) after (new_at ∷ owned o) h owns (λ q. omega (
          arith,
          count-owned q o,
          count-owned q (record o { field_ats = ats }),
          count-set o.field_ats i new_at q (omega (arith, slots, e.0)),
        )))
        (λ _ h' owns'. (
          owns',
          length-set o.field_ats i new_at
              ∙ slots
              ∙ sym e.1.2
              ∙ ap (λ t. length t.fields)
                  (sym (out ∙ ap (store_outcome o.ctx.fields new_field) e.1.1)),
        ))

field_set_add_full :
    (set : FieldSet) (arg : Bytes)
    → (set.len == set.cap) ≡ true
    → field_set_add set arg ≡ (Errno.etoo_many_field, set)
unfolding field_set_add
field_set_add_full set arg full = rw full refl

field_set_add_room :
    (set : FieldSet) (arg : Bytes)
    → (set.len == set.cap) ≡ false
    → field_set_add set arg ≡ add_created set (crete_field_from_kv arg)
unfolding field_set_add
field_set_add_room set arg room = rw room refl

-- `set_field`, on what `field_set_add` does.
module _ (arg : Bytes) (o : Owned) (h : Heap) (v : IsOwned o h) where
  abbrev after_add : FieldSet
  after_add = (field_set_add o.ctx.fields arg).1

  abbrev Added : List ℕ → Heap → Type 0
  Added ats h' =
      Owns (owned (record o { field_ats = ats })) h' × (length ats ≡ length after_add.fields)

  add_at-Added :
      (c : Errno × Option Field)
      → field_set_add o.ctx.fields arg ≡ add_created o.ctx.fields c
      → Ends Added (add_at c.1 o.ctx.fields.fields o.field_ats h)
  add_at-Added (err, none) e = (v.owns, v.slots ∙ ap (λ r. length r.1.fields) (sym e))
  add_at-Added (err, some g) e =
      >>=-Ends (λ new_at h'. Owns (new_at ∷ owned o) h') Added alloc
        (λ new_at. store_at (same_slot g o.ctx.fields.fields) new_at o.field_ats) h
        (alloc-Owns (owned o) h v.owns)
        (λ new_at h' owns.
          subst
            (λ fs.
              Ends
                (λ ats h''.
                  Owns (owned (record o { field_ats = ats })) h'' × (length ats ≡ length fs.fields))
                (store_at (same_slot g o.ctx.fields.fields) new_at o.field_ats h'))
            (sym (ap (λ r. r.1) e))
            (store_at-AtSlot o g new_at h' owns v.slots (same_slot g o.ctx.fields.fields)
              (replace_field g o.ctx.fields.fields) (same_slot-SlotOf g o.ctx.fields.fields)
              (unfold store_field in refl)))

  field_set_add_mem-Added : Ends Added (field_set_add_mem o.ctx.fields arg o.field_ats h)
  unfolding field_set_add_mem
  field_set_add_mem-Added = elim (Bool-cases (o.ctx.fields.len == o.ctx.fields.cap)) [
    | inl full ↦ rw full (
      v.owns,
      v.slots ∙ ap (λ r. length r.1.fields) (sym (field_set_add_full o.ctx.fields arg full)),
    )
    | inr room ↦
        rw room (add_at-Added (crete_field_from_kv arg) (field_set_add_room o.ctx.fields arg room))
  ]

pub set_field_mem-Leaves :
    (arg : Option Bytes) (o : Owned) (h : Heap)
    → IsOwned o h
    → Ends (Leaves o.queue_at (set_field arg o.ctx)) (set_field_mem arg o h)
unfolding set_field_mem set_field
set_field_mem-Leaves none o h v = record {
  is_owned = v;
  err_eq = refl;
  ctx_eq = refl;
  queue_eq = refl;
}
set_field_mem-Leaves (some arg) o h v =
    >>=-Ends (Added arg o h v) (Leaves o.queue_at (set_field (some arg) o.ctx))
      (field_set_add_mem o.ctx.fields arg o.field_ats) _ h (field_set_add_mem-Added arg o h v)
      (λ ats h' added. record {
        is_owned = record { owns = added.0; slots = added.1 };
        err_eq = refl;
        ctx_eq = refl;
        queue_eq = refl;
      })
