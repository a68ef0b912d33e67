-- ===== src/Poller/Kqueue.antt =====
-- src/poller/kqueue.c.
use Prim.Native.Nat.{bit_and, bit_or}
use jpipe.Common.{
  ℕ, ◌*◌, ◌/◌, ◌%◌, Bool, true, not, Option, none, some, ◌==◌, ◌||◌, if◌then◌else◌, codes,
}
use jpipe.Errno.{Errno}
use jpipe.Errno.Context.{Ctx}
use jpipe.Poller.{Called, done, failed, Platform, errno_eagain, raise_posix}

-- `struct kevent`, as far as it is read: with the bit `EV_ERROR` in `flags`, `data` is a value of
-- `errno`.
pub record KqueueEvent : Type 0 where
  pub flags : ℕ
  pub data_ : ℕ

-- `struct timespec`.
pub record Timespec : Type 0 where
  pub tv_sec : ℕ
  pub tv_nsec : ℕ

-- `struct jp_poller`.
pub record KqueuePoller : Type 0 where
  pub fd : ℕ
  pub event : KqueueEvent
  pub ts : Timespec

-- The change that `EV_SET` writes for `EVFILT_READ`.
pub record Change : Type 0 where
  pub ident : ℕ
  pub ev_add : Bool
  pub ev_enable : Bool
  pub ev_clear : Bool

-- The calls of `jp_poller_poll`.
pub record Calls : Type 0 where
  pub fcntl_getfl : ℕ → Called ℕ
  pub fcntl_setfl : ℕ → ℕ → Called Unit
  pub kevent_change : ℕ → Change → Called Unit

-- `timeout` is in milliseconds.
abbrev pub timespec_of : ℕ → Timespec
timespec_of timeout = record { tv_sec = timeout / 1000; tv_nsec = timeout % 1000 * 1000000 }

-- `jp_poller_create`, with what `kqueue` comes to and the value of `*err`.
unfoldable pub kqueue_poller_create :
    Called ℕ → ℕ → Errno → Ctx → Option KqueuePoller × (Errno × Ctx)
kqueue_poller_create (failed errno) timeout err ctx =
    (none, raise_posix Errno.eread_failed errno (codes "kqueue.c") 19 ctx)
kqueue_poller_create (done fd) timeout err ctx = (
  some (record { fd = fd; event = record { flags = 0; data_ = 0 }; ts = timespec_of timeout }),
  (err, ctx),
)

-- `jp_poller_poll` from the call of `kevent` on.
abbrev pub add_filter : Calls → KqueuePoller → ℕ → Ctx → Errno × Ctx
add_filter calls poller fd ctx =
    let change : Change = record { ident = fd; ev_add = true; ev_enable = true; ev_clear = true } in
    elim (calls.kevent_change poller.fd change) [
      | failed errno ↦ raise_posix Errno.eread_failed errno (codes "kqueue.c") 42 ctx
      | done _ ↦ (Errno.ok, ctx)
    ]

unfoldable pub kqueue_poller_poll : Platform → Calls → KqueuePoller → ℕ → Ctx → Errno × Ctx
kqueue_poller_poll p calls poller fd ctx = elim (calls.fcntl_getfl fd) [
  | failed errno ↦ raise_posix Errno.eread_failed errno (codes "kqueue.c") 35 ctx
  | done flags ↦ elim (calls.fcntl_setfl fd (bit_or flags p.o_nonblock)) [
    | failed errno ↦ raise_posix Errno.eread_failed errno (codes "kqueue.c") 35 ctx
    | done _ ↦ add_filter calls poller fd ctx
  ]
]

-- `jp_poller_wait`, with what `kevent` comes to: it waits for one event at most.
unfoldable pub kqueue_poller_wait :
    Platform → Called (Option KqueueEvent) → KqueuePoller → Ctx → KqueuePoller × (Errno × Ctx)
kqueue_poller_wait p (done none) poller ctx = (poller, (Errno.etryagain, ctx))
kqueue_poller_wait p (done (some event)) poller ctx = (
  record poller { event = event },
  if not (bit_and event.flags p.ev_error == 0)
      then raise_posix Errno.eread_failed event.data_ (codes "kqueue.c") 59 ctx
      else (Errno.ok, ctx),
)
kqueue_poller_wait p (failed errno) poller ctx = (
  poller,
  if errno == p.eintr || errno_eagain p errno
      then (Errno.etryagain, ctx)
      else raise_posix Errno.eread_failed errno (codes "kqueue.c") 55 ctx,
)
