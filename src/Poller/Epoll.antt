-- ===== src/Poller/Epoll.antt =====
-- src/poller/epoll.c.
use jpipe.Common.{ℕ, Bool, true, Option, none, some, ◌==◌, ◌||◌, if◌then◌else◌, codes}
use jpipe.Errno.{Errno}
use jpipe.Errno.Context.{Ctx}
use jpipe.Poller.{Called, done, failed, Platform, errno_eagain, raise_posix}

-- `struct epoll_event`: the bits `EPOLLIN` and `EPOLLET` of `events`, and `data.fd`.
pub record EpollEvent : Type 0 where
  pub epollin : Bool
  pub epollet : Bool
  pub fd : ℕ

-- `struct jp_poller`.
pub record EpollPoller : Type 0 where
  pub fd : ℕ
  pub timeout : ℕ
  pub events : Option EpollEvent

-- `jp_poller_create`, with what `epoll_create1` comes to and the value of `*err`.
unfoldable pub epoll_poller_create : Called ℕ → ℕ → Errno → Ctx → Option EpollPoller × (Errno × Ctx)
epoll_poller_create (failed errno) timeout err ctx =
    (none, raise_posix Errno.eread_failed errno (codes "epoll.c") 19 ctx)
epoll_poller_create (done fd) timeout err ctx =
    (some (record { fd = fd; timeout = timeout; events = none }), (err, ctx))

-- `jp_poller_poll`, with `epoll_ctl (…, EPOLL_CTL_ADD, …)`.
unfoldable pub epoll_poller_poll :
    (ℕ → ℕ → EpollEvent → Called Unit) → EpollPoller → ℕ → Ctx → Errno × Ctx
epoll_poller_poll epoll_ctl poller fd ctx =
    elim (epoll_ctl poller.fd fd (record { epollin = true; epollet = true; fd = fd })) [
      | failed errno ↦ raise_posix Errno.eread_failed errno (codes "epoll.c") 34 ctx
      | done _ ↦ (Errno.ok, ctx)
    ]

-- `jp_poller_wait`, with what `epoll_wait` comes to: it waits for one event at most.
unfoldable pub epoll_poller_wait :
    Platform → Called (Option EpollEvent) → EpollPoller → Ctx → EpollPoller × (Errno × Ctx)
epoll_poller_wait p (done none) poller ctx = (poller, (Errno.etryagain, ctx))
epoll_poller_wait p (done (some event)) poller ctx =
    (record poller { events = some event }, (Errno.ok, ctx))
epoll_poller_wait p (failed errno) poller ctx = (
  poller,
  if errno == p.eintr || errno_eagain p errno
      then (Errno.etryagain, ctx)
      else raise_posix Errno.eread_failed errno (codes "epoll.c") 47 ctx,
)
