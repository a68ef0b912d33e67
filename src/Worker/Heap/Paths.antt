-- ===== src/Worker/Heap/Paths.antt =====
-- The path of the output directory: `set_out_dir` and `create_and_normalize_out_dir` free the old one.
use jpipe.Common.{
  ℕ, ◌+◌, ◌≡◌, refl, inl, inr, List, [], ◌∷◌, ◌++◌, Option, none, some, arith, Bool-cases, length,
  Bytes,
}
use jpipe.Errno.{Errno, is_ok}
use jpipe.Memory.Heap.{
  Heap, pure, ◌>>=◌, alloc, mem_free, held, count, count-append, Owns, Ends, >>=-Ends, alloc-Owns,
  mem_free-Owns,
}
use jpipe.Queue.Objects.{QueueAt, queue_objects}
use jpipe.Worker.{WorkerCtx, set_out_dir}
use jpipe.Worker.Directory.{
  Files, output_of, strip_slashes, create_and_normalize_out_dir, normalize,
}
use jpipe.Worker.Heap.{Owned, owned, set_out_dir_mem, create_dir_mem}

-- The allocated objects are those of the context, with one for each field.
pub record IsOwned (o : Owned) (h : Heap) : Type 0 where
  pub owns : Owns (owned o) h
  pub slots : length o.field_ats ≡ length o.ctx.fields.fields

-- What a function leaves: the result `r`, and a context that owns its objects.
pub record Leaves (queue_at : Option QueueAt) (r : Errno × WorkerCtx) (e : Errno × Owned) (h : Heap)
    : Type 0 where
  pub is_owned : IsOwned e.1 h
  pub err_eq : e.0 ≡ r.0
  pub ctx_eq : e.1.ctx ≡ r.1
  pub queue_eq : e.1.queue_at ≡ queue_at

pub set_out_dir-fields :
    (arg : Option Bytes) (ctx : WorkerCtx) → (set_out_dir arg ctx).1.fields ≡ ctx.fields
unfolding set_out_dir
set_out_dir-fields none ctx = refl
set_out_dir-fields (some arg) ctx = ground arith

pub count-owned :
    (p : ℕ) (o : Owned)
    → count p (owned o)
      ≡ count p (held o.out_dir_at)
        + (count p (o.set_at ∷ []) + (count p o.field_ats + count p (queue_objects o.queue_at)))
count-owned p o = omega (
  arith,
  count-append p (held o.out_dir_at) (o.set_at ∷ (o.field_ats ++ queue_objects o.queue_at)),
  count-append p o.field_ats (queue_objects o.queue_at),
)

-- The objects but the path.
abbrev others : Owned → List ℕ
others o = o.set_at ∷ (o.field_ats ++ queue_objects o.queue_at)

module _ (o : Owned) (r : Errno × WorkerCtx) (h : Heap)
    (slots : length o.field_ats ≡ length o.ctx.fields.fields) (same : r.1.fields ≡ o.ctx.fields)
    (owns : Owns (others o) h) where
  new_path-Leaves :
      Ends
        (Leaves o.queue_at r)
        ((alloc >>= λ p. pure (r.0, record o { ctx = r.1; out_dir_at = some p })) h)
  new_path-Leaves =
      >>=-Ends (λ p h'. Owns (p ∷ others o) h') (Leaves o.queue_at r) alloc
        (λ p. pure (r.0, record o { ctx = r.1; out_dir_at = some p })) h
        (alloc-Owns (others o) h owns)
        (λ p h' owns'. record {
          is_owned = record { owns = owns'; slots = rw same slots };
          err_eq = refl;
          ctx_eq = refl;
          queue_eq = refl;
        })

  no_path-Leaves :
      Ends (Leaves o.queue_at r) (pure (r.0, record o { ctx = r.1; out_dir_at = none }) h)
  no_path-Leaves = record {
    is_owned = record { owns = owns; slots = rw same slots };
    err_eq = refl;
    ctx_eq = refl;
    queue_eq = refl;
  }

pub set_out_dir_mem-Leaves :
    (arg : Option Bytes) (o : Owned) (h : Heap)
    → IsOwned o h
    → Ends (Leaves o.queue_at (set_out_dir arg o.ctx)) (set_out_dir_mem arg o h)
unfolding set_out_dir_mem
set_out_dir_mem-Leaves arg o h v =
    >>=-Ends (λ _ h'. Owns (others o) h') (Leaves o.queue_at (set_out_dir arg o.ctx))
      (mem_free o.out_dir_at) _ h
      (mem_free-Owns o.out_dir_at (others o) (owned o) h v.owns (λ q. refl))
      (λ _ h' freed. elim (Bool-cases (is_ok (set_out_dir arg o.ctx).0)) [
        | inl ok ↦ rw ok (
            new_path-Leaves o (set_out_dir arg o.ctx) h' v.slots (set_out_dir-fields arg o.ctx)
              freed)
        | inr failed ↦ rw failed (
            no_path-Leaves o (set_out_dir arg o.ctx) h' v.slots (set_out_dir-fields arg o.ctx)
              freed)
      ])

normalize-fields :
    (files : Files) (tmp : Bytes) (ctx : WorkerCtx)
    → (normalize files tmp ctx).0.1.fields ≡ ctx.fields
unfolding normalize
normalize-fields files tmp ctx = ground arith

create_and_normalize-fields :
    (files : Files) (ctx : WorkerCtx)
    → (create_and_normalize_out_dir files ctx).0.1.fields ≡ ctx.fields
unfolding create_and_normalize_out_dir
create_and_normalize-fields files ctx =
    normalize-fields files (strip_slashes (length (output_of ctx)) (output_of ctx)) ctx

pub create_dir_mem-Leaves :
    (files : Files) (o : Owned) (h : Heap)
    → IsOwned o h
    → Ends
        (Leaves o.queue_at (create_and_normalize_out_dir files o.ctx).0)
        (create_dir_mem files o h)
unfolding create_dir_mem
create_dir_mem-Leaves files o h v =
    let r = (create_and_normalize_out_dir files o.ctx).0 in
    let same = create_and_normalize-fields files o.ctx in
    elim (Bool-cases (is_ok r.0)) [
      | inl ok ↦ rw ok (
          >>=-Ends (λ _ h'. Owns (others o) h') (Leaves o.queue_at r) (mem_free o.out_dir_at) _ h
            (mem_free-Owns o.out_dir_at (others o) (owned o) h v.owns (λ q. refl))
            (λ _ h' freed. new_path-Leaves o r h' v.slots same freed))
      | inr failed ↦ rw failed (record {
        is_owned = record { owns = v.owns; slots = rw same v.slots };
        err_eq = refl;
        ctx_eq = refl;
        queue_eq = refl;
      })
    ]
