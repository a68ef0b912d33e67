-- ===== src/Worker/Limits.antt =====
-- What the arguments of `jpipe run` may set the context to.
use jpipe.Common.{
  ℕ, ◌≤◌, ◌≡◌, refl, sym, ap, ◌∙◌, inl, inr, Bool, true, false, ◌||◌, List, [], ◌∷◌, Option, none,
  some, arith, ◌==◌, ltb, if◌then◌else◌, Bool-cases, length, Bytes, IsByte, All, equal, codes,
  subst,
}
use jpipe.Errno.{Errno}
use jpipe.Field.{FieldSet, field_set_create, field_set_add}
use jpipe.Field.Set.{IsFieldSet, AddResult, field_set_add-AddResult}
use jpipe.Worker.{
  WorkerCtx, CliOption, Number, set_out_dir, set_field, set_policy, set_chunk_size, set_buffer_size,
  apply_option, verify, collect_cli_args, initial_ctx,
}
use jpipe.Worker.Args.{set_chunk_size-IsChunkSize, set_buffer_size-IsBufferNumber}

-- No output directory, or a path of 1 to JP_PATH_MAX bytes.
abbrev pub IsOutDir : Option Bytes → Type 0
IsOutDir none = Unit
IsOutDir (some path) = (1 ≤ length path) × (length path ≤ 4096)

pub record IsWithin (chunk_size buffer_size : ℕ) (set : FieldSet) (path : Option Bytes)
    : Type 0 where
  pub chunk_some : 1024 ≤ chunk_size
  pub chunk_max : chunk_size ≤ 131072
  pub buffer_some : 1 ≤ buffer_size
  pub buffer_max : buffer_size ≤ 1024
  pub fields : IsFieldSet set
  pub few : set.cap ≡ 32
  pub out_dir : IsOutDir path

-- The context is within the limits.
abbrev pub IsWorkerCtx : WorkerCtx → Type 0
IsWorkerCtx ctx = IsWithin ctx.chunk_size ctx.buffer_size ctx.fields ctx.out_dir

-- The argument of an option is a C string.
abbrev pub IsArg : Option Bytes → Type 0
IsArg none = Unit
IsArg (some arg) = All IsByte arg

abbrev pub IsOption : CliOption → Type 0
IsOption o = IsArg o.optarg

initial_ctx-IsWorkerCtx : IsWorkerCtx initial_ctx
unfolding field_set_create
initial_ctx-IsWorkerCtx = record {
  chunk_some = omega arith;
  chunk_max = omega arith;
  buffer_some = omega arith;
  buffer_max = omega arith;
  fields = record { counted = refl; within = omega arith; fields = tt; distinct = tt };
  few = refl;
  out_dir = tt;
}

-- The same limits with another path, or with another set.
with_out_dir :
    (ctx : WorkerCtx) (path : Option Bytes)
    → IsWorkerCtx ctx
    → IsOutDir path
    → IsWorkerCtx (record ctx { out_dir = path })
with_out_dir ctx path v h = record {
  chunk_some = v.chunk_some;
  chunk_max = v.chunk_max;
  buffer_some = v.buffer_some;
  buffer_max = v.buffer_max;
  fields = v.fields;
  few = v.few;
  out_dir = h;
}

set_out_dir-IsWorkerCtx :
    (arg : Option Bytes) (ctx : WorkerCtx) → IsWorkerCtx ctx → IsWorkerCtx (set_out_dir arg ctx).1
unfolding set_out_dir
set_out_dir-IsWorkerCtx none ctx v = with_out_dir ctx none v tt
set_out_dir-IsWorkerCtx (some arg) ctx v = elim (Bool-cases (length arg == 0)) [
  | inl empty ↦ rw empty (with_out_dir ctx none v tt)
  | inr some_bytes ↦ rw some_bytes (elim (Bool-cases (ltb 4096 (length arg))) [
    | inl long ↦ rw long (with_out_dir ctx none v tt)
    | inr fits ↦ rw fits (with_out_dir ctx (some arg) v (ground arith))
  ])
]

set_policy-IsWorkerCtx :
    (arg : Option Bytes) (ctx : WorkerCtx) → IsWorkerCtx ctx → IsWorkerCtx (set_policy arg ctx).1
unfolding set_policy
set_policy-IsWorkerCtx none ctx v = v
set_policy-IsWorkerCtx (some arg) ctx v = elim (Bool-cases (equal arg (codes "wait"))) [
  | inl wait ↦ rw wait v
  | inr other ↦ rw other (elim (Bool-cases (equal arg (codes "drop"))) [
    | inl drop ↦ rw drop v
    | inr unknown ↦ rw unknown v
  ])
]

AddResult-fields :
    (set : FieldSet) (kv : Bytes) (r : Errno × FieldSet)
    → IsFieldSet set
    → AddResult set kv r
    → IsFieldSet r.1 × (r.1.cap ≡ set.cap)
AddResult-fields set kv r v (inl refused) =
    (subst IsFieldSet (sym refused.1) v, ap (λ s. s.cap) refused.1)
AddResult-fields set kv r v (inr added) = (added.1.2.valid, added.1.2.same_cap)

set_field-IsWorkerCtx :
    (arg : Option Bytes) (ctx : WorkerCtx)
    → IsArg arg
    → IsWorkerCtx ctx
    → IsWorkerCtx (set_field arg ctx).1
unfolding set_field
set_field-IsWorkerCtx none ctx a v = v
set_field-IsWorkerCtx (some arg) ctx a v =
    let r =
      AddResult-fields ctx.fields arg (field_set_add ctx.fields arg) v.fields
        (field_set_add-AddResult ctx.fields arg v.fields a) in
    record {
      chunk_some = v.chunk_some;
      chunk_max = v.chunk_max;
      buffer_some = v.buffer_some;
      buffer_max = v.buffer_max;
      fields = r.0;
      few = r.1 ∙ v.few;
      out_dir = v.out_dir;
    }

module _ (strtoull : Bytes → Number) where
  set_chunk_size-IsWorkerCtx :
      (arg : Option Bytes) (ctx : WorkerCtx)
      → IsWorkerCtx ctx
      → IsWorkerCtx (set_chunk_size strtoull arg ctx).1
  set_chunk_size-IsWorkerCtx none ctx v = unfold set_chunk_size in v
  set_chunk_size-IsWorkerCtx (some arg) ctx v = elim (set_chunk_size-IsChunkSize strtoull arg ctx) [
    | inl (h, e) ↦ rw e (record {
      chunk_some = omega arith;
      chunk_max = omega arith;
      buffer_some = v.buffer_some;
      buffer_max = v.buffer_max;
      fields = v.fields;
      few = v.few;
      out_dir = v.out_dir;
    })
    | inr (h, e) ↦ rw e v
  ]

  set_buffer_size-IsWorkerCtx :
      (arg : Option Bytes) (ctx : WorkerCtx)
      → IsWorkerCtx ctx
      → IsWorkerCtx (set_buffer_size strtoull arg ctx).1
  set_buffer_size-IsWorkerCtx none ctx v = unfold set_buffer_size in v
  set_buffer_size-IsWorkerCtx (some arg) ctx v =
      elim (set_buffer_size-IsBufferNumber strtoull arg ctx) [
        | inl (h, e) ↦ rw e (record {
          chunk_some = v.chunk_some;
          chunk_max = v.chunk_max;
          buffer_some = omega arith;
          buffer_max = omega arith;
          fields = v.fields;
          few = v.few;
          out_dir = v.out_dir;
        })
        | inr (h, e) ↦ rw e v
      ]

  apply_option-IsWorkerCtx :
      (o : CliOption) (ctx : WorkerCtx)
      → IsOption o
      → IsWorkerCtx ctx
      → IsWorkerCtx (apply_option strtoull o ctx).1
  unfolding apply_option
  apply_option-IsWorkerCtx o ctx a v =
      either (o.option == b'c') _ _ (set_chunk_size-IsWorkerCtx o.optarg ctx v) (
        either (o.option == b'b') _ _ (set_buffer_size-IsWorkerCtx o.optarg ctx v) (
          either (o.option == b'p') _ _ (set_policy-IsWorkerCtx o.optarg ctx v) (
            either (o.option == b'o') _ _ (set_out_dir-IsWorkerCtx o.optarg ctx v) (
              either (o.option == b'n') _ _ v (
                either (o.option == b'f') _ _ (set_field-IsWorkerCtx o.optarg ctx a v)
                  (either (o.option == b':' || o.option == b'?') _ _ v v))))))
    where
      either :
          (b : Bool) (r r' : Errno × WorkerCtx)
          → IsWorkerCtx r.1
          → IsWorkerCtx r'.1
          → IsWorkerCtx (if b then r else r').1
      either true r r' h h' = h
      either false r r' h h' = h'

  verify-IsWorkerCtx :
      (r : Errno × WorkerCtx) (next : WorkerCtx → Errno × WorkerCtx)
      → IsWorkerCtx r.1
      → ((ctx : WorkerCtx) → IsWorkerCtx ctx → IsWorkerCtx (next ctx).1)
      → IsWorkerCtx (verify r next).1
  verify-IsWorkerCtx (Errno.ok, ctx) next v h = h ctx v
  verify-IsWorkerCtx (_, ctx) next v h = v

  collect-IsWorkerCtx :
      (options : List CliOption) (surplus : Bool) (ctx : WorkerCtx)
      → All IsOption options
      → IsWorkerCtx ctx
      → IsWorkerCtx (collect_cli_args strtoull options surplus ctx).1
  unfolding collect_cli_args
  collect-IsWorkerCtx [] true ctx a v = v
  collect-IsWorkerCtx [] false ctx a v = v
  collect-IsWorkerCtx (o ∷ options) surplus ctx a v =
      verify-IsWorkerCtx (apply_option strtoull o ctx) (collect_cli_args strtoull options surplus)
        (apply_option-IsWorkerCtx o ctx a.0 v) (λ c w. collect-IsWorkerCtx options surplus c a.1 w)

  -- For options whose arguments are bytes, accepted or not, collect_cli_args leaves a context
  -- within the limits: a chunk of 1024 to 131072 bytes, 1 to 1024 blocks, a well-formed set of at
  -- most 32 fields, and no path or one of 1 to 4096 bytes.
  pub collect_cli_args-IsWorkerCtx :
      (options : List CliOption) (surplus : Bool)
      → All IsOption options
      → IsWorkerCtx (collect_cli_args strtoull options surplus initial_ctx).1
  collect_cli_args-IsWorkerCtx options surplus a =
      collect-IsWorkerCtx options surplus initial_ctx a initial_ctx-IsWorkerCtx
