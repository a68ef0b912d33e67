-- ===== src/Worker/Start.antt =====
-- `orchestrate_threads`: the threads are started and joined.
use jpipe.Common.{
  ℕ, inl, inr, ap, Bool-cases, ==_iff, Option, none, some, ◌↔◌, ◌+◌, ◌≡◌, refl, ◌⊎◌, not, arith,
  ◌==◌, if◌then◌else◌,
}
use mathlib.Core.Option
use jpipe.Errno.{Errno, errno_code}
use jpipe.Queue.{finalize}
use jpipe.Worker.{WorkerCtx}

-- What `pthread_join` returns, and the value behind `thread_result`, if it is neither NULL nor
-- `PTHREAD_CANCELED`.
pub record Joined : Type 0 where
  pub status : ℕ
  pub value : Option Errno

-- `join_worker_thread`.
unfoldable pub join_worker_thread : Joined → Errno
join_worker_thread j =
    if not (j.status == 0)
    then Errno.esys_err
    else elim j.value [ none ↦ Errno.ok | some thread_value ↦ thread_value ]

-- What the calls of `pthread_create` return, and what the joins of two threads come to, if they are
-- joined.
pub record Threads : Type 0 where
  pub consumer_status : ℕ
  pub producer_status : ℕ
  pub watcher_status : ℕ
  pub consumer_result : Joined
  pub producer_result : Joined

-- `err` behind the joins.
pub joined_err : Threads → ℕ
joined_err t =
    if not (t.consumer_status == 0)
    then t.consumer_status
    else if not (t.producer_status == 0)
    then t.producer_status + errno_code (join_worker_thread t.consumer_result)
    else t.watcher_status
      + errno_code (join_worker_thread t.consumer_result)
      + errno_code (join_worker_thread t.producer_result)

pub orchestrate_threads : Threads → WorkerCtx → Errno × WorkerCtx
orchestrate_threads t ctx = (
  if joined_err t == 0 then Errno.ok else Errno.erun_failed,
  record ctx { queue = Option.map finalize ctx.queue },
)

-- The thread was joined, and was canceled or returned JP_OK.
abbrev pub IsWellJoined : Joined → Type 0
IsWellJoined j = (j.status ≡ 0) × ((j.value ≡ none) ⊎ (j.value ≡ some Errno.ok))

code-ok : (e : Errno) → errno_code e ≡ 0 → e ≡ Errno.ok
code-ok Errno.ok h = refl
code-ok _ h = absurd (omega arith)

join_worker_thread_iff : (j : Joined) → (join_worker_thread j ≡ Errno.ok) ↔ IsWellJoined j
unfolding join_worker_thread
join_worker_thread_iff j = elim (Bool-cases (j.status == 0)) [
  | inl joined ↦ rw joined (by_value j.value ((==_iff j.status 0).0 joined))
  | inr lost ↦ rw lost (λ e. absurd (cc), λ w. cc (lost, (==_iff j.status 0).1 w.0))
]
  where
    by_value :
        (value : Option Errno)
        → j.status ≡ 0
        → ((elim value as (λ _. Errno) [ none ↦ Errno.ok | some thread_value ↦ thread_value ])
            ≡ Errno.ok)
          ↔ ((j.status ≡ 0) × ((value ≡ none) ⊎ (value ≡ some Errno.ok)))
    by_value none joined = (λ e. (joined, inl refl), λ w. refl)
    by_value (some v) joined =
        (λ e. (joined, inr (ap some e)), λ w. elim w.1 [ inl a ↦ absurd (cc) | inr b ↦ cc ])

well : (j : Joined) → (errno_code (join_worker_thread j) ≡ 0) ↔ IsWellJoined j
well j = (
  λ e. (join_worker_thread_iff j).0 (code-ok (join_worker_thread j) e),
  λ w. ap errno_code ((join_worker_thread_iff j).1 w),
)

-- All three threads were started and the two that are joined returned JP_OK.
abbrev pub AllWell : Threads → Type 0
AllWell t =
    (t.consumer_status ≡ 0)
    × (t.producer_status ≡ 0)
    × (t.watcher_status ≡ 0)
    × IsWellJoined t.consumer_result
    × IsWellJoined t.producer_result

total_iff :
    (a b c x y : ℕ)
    → ((if not (a == 0) then a else if not (b == 0) then b + x else c + x + y) ≡ 0)
      ↔ ((a ≡ 0) × (b ≡ 0) × (c ≡ 0) × (x ≡ 0) × (y ≡ 0))
total_iff a b c x y = ground arith

joined_err_iff : (t : Threads) → (joined_err t ≡ 0) ↔ AllWell t
unfolding joined_err
joined_err_iff t =
    let total =
      total_iff t.consumer_status t.producer_status t.watcher_status
        (errno_code (join_worker_thread t.consumer_result))
        (errno_code (join_worker_thread t.producer_result)) in
    (
      λ e.
          let (a, b, c, x, y) = total.0 e in
          (a, b, c, (well t.consumer_result).0 x, (well t.producer_result).0 y),
      λ w. total.1 (w.0, w.1, w.2, (well t.consumer_result).1 w.3, (well t.producer_result).1 w.4),
    )

-- orchestrate_threads returns JP_OK exactly where every thread was started, the reader and the
-- writer were joined and each returned JP_OK or left no result, and JP_ERUN_FAILED otherwise; it
-- finalizes the queue in both cases.
pub orchestrate_threads-AllWell :
    (t : Threads) (ctx : WorkerCtx)
    → ((AllWell t × ((orchestrate_threads t ctx).0 ≡ Errno.ok))
        ⊎ ((¬ AllWell t) × ((orchestrate_threads t ctx).0 ≡ Errno.erun_failed)))
      × ((orchestrate_threads t ctx).1 ≡ record ctx { queue = Option.map finalize ctx.queue })
unfolding orchestrate_threads
orchestrate_threads-AllWell t ctx = elim (Bool-cases (joined_err t == 0)) [
  | inl zero_err ↦
      rw zero_err (inl ((joined_err_iff t).0 ((==_iff (joined_err t) 0).0 zero_err), refl), refl)
  | inr some_err ↦
      rw some_err (
        inr ((λ w. cc (some_err, (==_iff (joined_err t) 0).1 ((joined_err_iff t).1 w))), refl),
        refl,
      )
]
