-- ===== src/Poller.antt =====
-- include/jp_poller.h: what the reader waits with. Epoll and Kqueue are its two back ends.
pub mod Epoll
pub mod Kqueue
pub mod Contract
pub mod Backends
pub mod Reading
mod Tests
use jpipe.Common.{ℕ, Bool, not, ◌&&◌, ◌||◌, ◌==◌, Bytes}
use jpipe.Errno.{Errno}
use jpipe.Errno.Context.{Source, Ctx, ctx_set}

-- What a call of the operating system comes to: a result, or -1 with a value of `errno`.
pub data Called (A : Type 0) : Type 0 where
  done : A → Called A
  failed : ℕ → Called A

-- The values of `errno` on the platform, and the bits `EV_ERROR` and `O_NONBLOCK`.
pub record Platform : Type 0 where
  pub eintr : ℕ
  pub eagain : ℕ
  pub ewouldblock : ℕ
  pub ev_error : ℕ
  pub o_nonblock : ℕ

-- `JP_ERRNO_EAGAIN`.
abbrev pub errno_eagain : Platform → ℕ → Bool
errno_eagain p err = err == p.eagain || (not (p.eagain == p.ewouldblock) && err == p.ewouldblock)

-- `JP_ERRNO_RAISE_POSIX`.
abbrev pub raise_posix : Errno → ℕ → Bytes → ℕ → Ctx → Errno × Ctx
raise_posix err sys_err file line ctx = ctx_set err Source.posix sys_err file line ctx
