-- ===== src/Worker/Heap/Options.antt =====
-- The objects behind `collect_cli_args`.
use jpipe.Common.{
  ◌≡◌, refl, ap, subst, ◌∙◌, inl, inr, Bool, true, false, ◌||◌, List, [], ◌∷◌, Option, none, some,
  arith, ◌==◌, if◌then◌else◌, Bool-cases, Bytes,
}
use jpipe.Errno.{Errno, is_ok}
use jpipe.Memory.Heap.{Heap, Mem, Ends, >>=-Ends}
use jpipe.Worker.{
  WorkerCtx, CliOption, Number, apply_option, set_chunk_size, set_buffer_size, set_policy,
  set_out_dir, set_field, collect_cli_args, verify,
}
use jpipe.Worker.Heap.{Owned, if_ok, apply_option_mem, collect_cli_args_mem}
use jpipe.Worker.Heap.Paths.{IsOwned, Leaves, set_out_dir-fields, set_out_dir_mem-Leaves}
use jpipe.Worker.Heap.Slots.{set_field_mem-Leaves}

set_chunk_size-fields :
    (strtoull : Bytes → Number) (arg : Option Bytes) (ctx : WorkerCtx)
    → (set_chunk_size strtoull arg ctx).1.fields ≡ ctx.fields
set_chunk_size-fields strtoull none ctx = unfold set_chunk_size in refl
set_chunk_size-fields strtoull (some arg) ctx = unfold set_chunk_size in ground arith

set_buffer_size-fields :
    (strtoull : Bytes → Number) (arg : Option Bytes) (ctx : WorkerCtx)
    → (set_buffer_size strtoull arg ctx).1.fields ≡ ctx.fields
set_buffer_size-fields strtoull none ctx = unfold set_buffer_size in refl
set_buffer_size-fields strtoull (some arg) ctx = unfold set_buffer_size in ground arith

set_policy-fields :
    (arg : Option Bytes) (ctx : WorkerCtx) → (set_policy arg ctx).1.fields ≡ ctx.fields
unfolding set_policy
set_policy-fields none ctx = refl
set_policy-fields (some arg) ctx = ground arith

apply_option-fields :
    (strtoull : Bytes → Number) (c : CliOption) (ctx : WorkerCtx)
    → (c.option == b'f') ≡ false
    → (apply_option strtoull c ctx).1.fields ≡ ctx.fields
unfolding apply_option
apply_option-fields strtoull c ctx other = rw other (
    either (c.option == b'c') _ _ (set_chunk_size-fields strtoull c.optarg ctx) (
      either (c.option == b'b') _ _ (set_buffer_size-fields strtoull c.optarg ctx) (
        either (c.option == b'p') _ _ (set_policy-fields c.optarg ctx) (
          either (c.option == b'o') _ _ (set_out_dir-fields c.optarg ctx) (
            either (c.option == b'n') _ _ refl
              (either (c.option == b':' || c.option == b'?') _ _ refl refl))))))
  where
    either :
        (b : Bool) (r r' : Errno × WorkerCtx)
        → r.1.fields ≡ ctx.fields
        → r'.1.fields ≡ ctx.fields
        → (if b then r else r').1.fields ≡ ctx.fields
    either true r r' h h' = h
    either false r r' h h' = h'

apply_option_out_dir :
    (strtoull : Bytes → Number) (c : CliOption) (ctx : WorkerCtx)
    → (c.option == b'o') ≡ true
    → apply_option strtoull c ctx ≡ set_out_dir c.optarg ctx
unfolding apply_option
apply_option_out_dir strtoull c ctx e = ground arith

apply_option_field :
    (strtoull : Bytes → Number) (c : CliOption) (ctx : WorkerCtx)
    → (c.option == b'f') ≡ true
    → apply_option strtoull c ctx ≡ set_field c.optarg ctx
unfolding apply_option
apply_option_field strtoull c ctx e = ground arith

pub apply_option_mem-Leaves :
    (strtoull : Bytes → Number) (c : CliOption) (o : Owned) (h : Heap)
    → IsOwned o h
    → Ends (Leaves o.queue_at (apply_option strtoull c o.ctx)) (apply_option_mem strtoull c o h)
unfolding apply_option_mem
apply_option_mem-Leaves strtoull c o h v = elim (Bool-cases (c.option == b'o')) [
  | inl out_dir ↦
      rw (out_dir, apply_option_out_dir strtoull c o.ctx out_dir)
        (set_out_dir_mem-Leaves c.optarg o h v)
  | inr other ↦ rw other (elim (Bool-cases (c.option == b'f')) [
    | inl field ↦
        rw field
          (rw (apply_option_field strtoull c o.ctx field) (set_field_mem-Leaves c.optarg o h v))
    | inr plain ↦ rw plain (record {
      is_owned = record {
        owns = v.owns;
        slots = rw (apply_option-fields strtoull c o.ctx plain) v.slots;
      };
      err_eq = refl;
      ctx_eq = refl;
      queue_eq = refl;
    })
  ])
]

-- `JP_VERIFY` in both.
pub if_ok-Ends :
    (Q : Errno × WorkerCtx → Errno × Owned → Heap → Type 0) (next : WorkerCtx → Errno × WorkerCtx)
    (next_mem : Owned → Mem (Errno × Owned)) (r : Errno × WorkerCtx) (e : Errno × Owned) (h : Heap)
    → e.0 ≡ r.0
    → e.1.ctx ≡ r.1
    → Q r e h
    → Ends (Q (next e.1.ctx)) (next_mem e.1 h)
    → Ends (Q (verify r next)) (if_ok next_mem e h)
if_ok-Ends Q next next_mem r e h err_eq ctx_eq before after = elim (Bool-cases (is_ok r.0)) [
  | inl ok ↦
      rw (ok, ap is_ok err_eq ∙ ok) (subst (λ c. Ends (Q (next c)) (next_mem e.1 h)) ctx_eq after)
  | inr failed ↦ rw (failed, ap is_ok err_eq ∙ failed) before
]

pub collect_cli_args_mem-Leaves :
    (strtoull : Bytes → Number) (options : List CliOption) (surplus : Bool) (o : Owned) (h : Heap)
    → IsOwned o h
    → Ends
        (Leaves o.queue_at (collect_cli_args strtoull options surplus o.ctx))
        (collect_cli_args_mem strtoull options surplus o h)
unfolding collect_cli_args collect_cli_args_mem
collect_cli_args_mem-Leaves strtoull [] true o h v = record {
  is_owned = v;
  err_eq = refl;
  ctx_eq = refl;
  queue_eq = refl;
}
collect_cli_args_mem-Leaves strtoull [] false o h v = record {
  is_owned = v;
  err_eq = refl;
  ctx_eq = refl;
  queue_eq = refl;
}
collect_cli_args_mem-Leaves strtoull (c ∷ options) surplus o h v =
    let after = collect_cli_args strtoull options surplus in
    >>=-Ends (Leaves o.queue_at (apply_option strtoull c o.ctx))
      (Leaves o.queue_at (verify (apply_option strtoull c o.ctx) after))
      (apply_option_mem strtoull c o) (if_ok (collect_cli_args_mem strtoull options surplus)) h
      (apply_option_mem-Leaves strtoull c o h v)
      (λ e h' l.
        if_ok-Ends (Leaves o.queue_at) after (collect_cli_args_mem strtoull options surplus)
          (apply_option strtoull c o.ctx) e h' l.err_eq l.ctx_eq l
          (subst
            (λ queue_at.
              Ends (Leaves queue_at (after e.1.ctx))
                (collect_cli_args_mem strtoull options surplus e.1 h'))
            l.queue_eq (collect_cli_args_mem-Leaves strtoull options surplus e.1 h' l.is_owned)))
