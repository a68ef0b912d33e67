-- ===== src/Worker/Directory.antt =====
-- `create_and_normalize_out_dir`, for a path shorter than JP_PATH_MAX, which fits `tmp` with its NUL.
use jpipe.Common.{
  ℕ, suc, ◌≡◌, Bool, true, false, not, ◌||◌, List, [], ◌∷◌, ◌++◌, Option, none, some, arith, ◌==◌,
  if◌then◌else◌, length, take, drop, get_or, Bytes,
}
use jpipe.Config.{conf_outdir_def}
use jpipe.Errno.{Errno}
use jpipe.Worker.{WorkerCtx}

-- The calls of the operating system, as what they return in one run: `mkdir` tells that the directory
-- was made or was there, `is_dir` and `writable` are the tests of `stat` and `access`. No path is
-- given to `mkdir` twice, since each is longer than the one before.
pub record Files : Type 0 where
  pub mkdir : Bytes → Bool
  pub is_dir : Bytes → Bool
  pub writable : Bytes → Bool
  pub realpath : Bytes → Option Bytes

-- The loop that takes slashes off the end of `tmp`, which has `path_len` bytes.
unfoldable pub strip_slashes : ℕ → Bytes → Bytes
strip_slashes (suc (suc n)) tmp =
    let shorter = strip_slashes (suc n) (take (suc n) tmp) in
    if get_or tmp (suc n) 0 == b'/' then shorter else tmp
strip_slashes _ tmp = tmp

-- The loop that makes the parents: `before` is the text in front of `p`. It returns the directories
-- that are there by then, made or found; nothing removes those where a later call fails.
unfoldable pub make_parents : Files → Bytes → Bytes → Bool × List Bytes
make_parents files before [] = (true, [])
make_parents files before (c ∷ rest) =
    let later = make_parents files (before ++ c ∷ []) rest in
    if c == b'/'
    then if files.mkdir before then (later.0, before ∷ later.1) else (false, [])
    else later

abbrev pub output_of : WorkerCtx → Bytes
output_of ctx = elim ctx.out_dir [ none ↦ conf_outdir_def | some path ↦ path ]

-- What the function returns, with the context and the directories that it leaves.
abbrev pub Placed : Type 0
Placed = (Errno × WorkerCtx) × List Bytes

-- The calls behind the loops.
unfoldable pub normalize : Files → Bytes → WorkerCtx → Placed
normalize files tmp ctx =
    let parents = make_parents files (take 1 tmp) (drop 1 tmp) in
    if not parents.0 || not (files.mkdir tmp)
    then ((Errno.eout_dir, ctx), parents.1)
    else if not (files.is_dir tmp) || not (files.writable tmp)
    then ((Errno.eout_dir, ctx), parents.1 ++ tmp ∷ [])
    else elim (files.realpath tmp) [
      | none ↦ ((Errno.eout_dir, ctx), parents.1 ++ tmp ∷ [])
      | some absolute_path ↦
          ((Errno.ok, record ctx { out_dir = some absolute_path }), parents.1 ++ tmp ∷ [])
    ]

-- For a path of less than JP_PATH_MAX bytes: `strncpy` leaves one of JP_PATH_MAX without its NUL.
unfoldable pub create_and_normalize_out_dir : Files → WorkerCtx → Placed
create_and_normalize_out_dir files ctx =
    let output = output_of ctx in normalize files (strip_slashes (length output) output) ctx

-- A path that is normalized changes nothing else.
normalize-sizes :
    (files : Files) (tmp : Bytes) (ctx : WorkerCtx)
    → ((normalize files tmp ctx).0.1.buffer_size ≡ ctx.buffer_size)
      × ((normalize files tmp ctx).0.1.chunk_size ≡ ctx.chunk_size)
      × ((normalize files tmp ctx).0.1.policy ≡ ctx.policy)
unfolding normalize
normalize-sizes files tmp ctx = ground arith

pub create_and_normalize_out_dir-sizes :
    (files : Files) (ctx : WorkerCtx)
    → ((create_and_normalize_out_dir files ctx).0.1.buffer_size ≡ ctx.buffer_size)
      × ((create_and_normalize_out_dir files ctx).0.1.chunk_size ≡ ctx.chunk_size)
      × ((create_and_normalize_out_dir files ctx).0.1.policy ≡ ctx.policy)
unfolding create_and_normalize_out_dir
create_and_normalize_out_dir-sizes files ctx =
    normalize-sizes files (strip_slashes (length (output_of ctx)) (output_of ctx)) ctx
