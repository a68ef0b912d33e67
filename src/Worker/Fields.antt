-- ===== src/Worker/Fields.antt =====
-- The fields that the options -f of `jpipe run` leave, when keys come more than once.
use jpipe.Common.{
  map, ◌+◌, ◌≤◌, ◌≡◌, ◌≢◌, refl, sym, ap, subst, ◌∙◌, inl, inr, false, List, [], ◌∷◌, ◌++◌,
  append-nil, append_assoc, Option, none, some, arith, ◌==◌, if◌then◌else◌, Bool-cases, length,
  Bytes, IsByte, All, equal,
}
use jpipe.Errno.{Errno}
use jpipe.Field.{field_set_create, add_created, store_field, field_set_add}
use jpipe.Field.Parse.{IsPair, IsField, field_of, crete_field_from_kv-IsPair}
use jpipe.Field.Keys.{has, Stored-keys, Stored-len}
use jpipe.Field.Set.{lookup, keys, IsFieldSet, Stored, store_field-Stored}
use jpipe.Worker.{
  WorkerCtx, CliOption, Number, verify, apply_option, set_field, collect_cli_args, initial_ctx,
}

abbrev pub Pair : Type 0
Pair = Bytes × Bytes

-- A key and a value that the parser accepts.
abbrev pub IsLegal : Pair → Type 0
IsLegal p = IsPair p.0 p.1 × All IsByte p.1

-- `-f key=val`.
abbrev pub field_option : Pair → CliOption
field_option (key, val) = record { option = b'f'; optarg = some (key ++ b'=' ∷ val) }

abbrev pub or_else : Option Bytes → Option Bytes → Option Bytes
or_else none before = before
or_else (some val) before = some val

-- The value that is given last.
unfoldable pub last_value : Bytes → List Pair → Option Bytes
last_value k [] = none
last_value k (p ∷ pairs) = or_else (last_value k pairs) (if equal p.0 k then some p.1 else none)

-- The keys that are not among `seen`, where they come first.
unfoldable pub new_keys : List Bytes → List Pair → List Bytes
new_keys seen [] = []
new_keys seen (p ∷ pairs) =
    let later = new_keys seen pairs in
    let behind = new_keys (seen ++ p.0 ∷ []) pairs in if has p.0 seen then later else p.0 ∷ behind

field_of-IsField : (p : Pair) → IsLegal p → IsField (field_of p.0 p.1)
field_of-IsField p h = record {
  key_counted = refl;
  val_counted = refl;
  key_some = h.0.key_some;
  key_short = h.0.key_short;
  val_some = h.0.val_some;
  val_short = h.0.val_short;
  key_bytes = h.0.key_bytes;
  val_bytes = h.1;
}

-- What the options leave of the context.
record Collected (pairs : List Pair) (ctx : WorkerCtx) (r : Errno × WorkerCtx) : Type 0 where
  no_error : r.0 ≡ Errno.ok
  others : r.1 ≡ record ctx { fields = r.1.fields }
  known :
      (k : Bytes)
      → lookup k r.1.fields.fields ≡ or_else (last_value k pairs) (lookup k ctx.fields.fields)
  order : keys r.1.fields.fields ≡ keys ctx.fields.fields ++ new_keys (keys ctx.fields.fields) pairs

module _ (strtoull : Bytes → Number) where
  field_option-field :
      (p : Pair) (ctx : WorkerCtx)
      → IsLegal p
      → ctx.fields.len ≢ ctx.fields.cap
      → apply_option strtoull (field_option p) ctx
        ≡ (Errno.ok, record ctx { fields = store_field ctx.fields (field_of p.0 p.1) })
  unfolding apply_option set_field field_set_add
  field_option-field p ctx legal room = elim (Bool-cases (ctx.fields.len == ctx.fields.cap)) [
    | inl full ↦ absurd (ground arith)
    | inr some_room ↦ rw some_room (
        ap
          (λ c.
            ((add_created ctx.fields c).0, record ctx { fields = (add_created ctx.fields c).1 }))
          (crete_field_from_kv-IsPair p.0 p.1 legal.0))
  ]

  next-Collected :
      (p : Pair) (pairs : List Pair) (ctx : WorkerCtx) (r : Errno × WorkerCtx)
      → let g = field_of p.0 p.1 in
        Stored ctx.fields g (store_field ctx.fields g)
        → Collected pairs (record ctx { fields = store_field ctx.fields g }) r
        → Collected (p ∷ pairs) ctx r
  unfolding last_value new_keys
  next-Collected p pairs ctx r s later =
      let ks = keys ctx.fields.fields in
      let g = field_of p.0 p.1 in
      record {
        no_error = later.no_error;
        others = later.others;
        known = λ k. ground (arith, later.known k, s.known k);
        order = elim (Bool-cases (has p.0 ks)) [
          | inl seen ↦ rw seen (
              later.order
              ∙ ap (λ js. js ++ new_keys js pairs)
                  (Stored-keys ctx.fields g (store_field ctx.fields g) s
                    ∙ ap (λ b. if b then ks else ks ++ p.0 ∷ []) seen))
          | inr new ↦ rw new (
              later.order
              ∙ ap (λ js. js ++ new_keys js pairs)
                  (Stored-keys ctx.fields g (store_field ctx.fields g) s
                    ∙ ap (λ b. if b then ks else ks ++ p.0 ∷ []) new)
              ∙ append_assoc ks (p.0 ∷ []) (new_keys (ks ++ p.0 ∷ []) pairs))
        ];
      }

  collect-Collected :
      (pairs : List Pair) (ctx : WorkerCtx)
      → All IsLegal pairs
      → IsFieldSet ctx.fields
      → ctx.fields.len + length pairs ≤ ctx.fields.cap
      → Collected pairs ctx (collect_cli_args strtoull (map field_option pairs) false ctx)
  unfolding collect_cli_args
  collect-Collected [] ctx legal v room = record {
    no_error = refl;
    others = refl;
    known = λ k. unfold last_value in refl;
    order = unfold new_keys in sym (append-nil (keys ctx.fields.fields));
  }
  collect-Collected (p ∷ pairs) ctx legal v room =
      let g = field_of p.0 p.1 in
      let set' = store_field ctx.fields g in
      let s : Stored ctx.fields g set' =
        store_field-Stored ctx.fields g v (λ full. omega arith) (field_of-IsField p legal.0) in
      let fits : set'.len + length pairs ≤ set'.cap =
        omega (arith, room, s.same_cap, Stored-len ctx.fields g set' v s) in
      next-Collected p pairs ctx _ s (
        subst
          (λ r.
            Collected pairs (record ctx { fields = set' })
              (verify r (collect_cli_args strtoull (map field_option pairs) false)))
          (sym (field_option-field p ctx legal.0 (λ full. omega arith)))
          (collect-Collected pairs (record ctx { fields = set' }) legal.1 s.valid fits))

  -- Where the command line has at most 32 options -f, each with a legal key=value, and nothing
  -- else, collect_cli_args returns JP_OK and changes only the fields: each key has the value that
  -- is given last, keys that are not given have none, and the keys stand in the order in which
  -- they come first, once each.
  pub collect_cli_args-fields :
      (pairs : List Pair)
      → All IsLegal pairs
      → length pairs ≤ 32
      → let r = collect_cli_args strtoull (map field_option pairs) false initial_ctx in
        (r.0 ≡ Errno.ok)
        × (r.1 ≡ record initial_ctx { fields = r.1.fields })
        × ((k : Bytes) → lookup k r.1.fields.fields ≡ last_value k pairs)
        × (keys r.1.fields.fields ≡ new_keys [] pairs)
  unfolding field_set_create
  collect_cli_args-fields pairs legal few =
      let all = collect-Collected pairs initial_ctx legal no_fields (omega arith) in
      (all.no_error, all.others, λ k. all.known k ∙ or_else_none (last_value k pairs), all.order)
    where
      no_fields : IsFieldSet initial_ctx.fields
      no_fields = record { counted = refl; within = omega arith; fields = tt; distinct = tt }

      or_else_none : (o : Option Bytes) → or_else o none ≡ o
      or_else_none none = refl
      or_else_none (some val) = refl
