-- ===== src/Poller/Backends.antt =====
-- Both back ends of the poller keep its contract.
use Prim.Native.Nat.{bit_and, bit_or}
use jpipe.Common.{ℕ, ◌≡◌, refl, true, Option, none, some, ◌==◌, if◌then◌else◌, codes}
use jpipe.Errno.{Errno}
use jpipe.Errno.Context.{Ctx, ctx_set}
use jpipe.Poller.{Called, done, failed, Platform, raise_posix}
use jpipe.Poller.Epoll.{
  EpollEvent, EpollPoller, epoll_poller_create, epoll_poller_poll, epoll_poller_wait,
}
use jpipe.Poller.Kqueue.{
  KqueueEvent, KqueuePoller, Calls, kqueue_poller_create, kqueue_poller_poll, kqueue_poller_wait,
  add_filter,
}
use jpipe.Poller.Contract.{
  Answer, ready, Answers, is_transient, wait_answer, transient_eq, first_failed, single,
  lost-Answers, event-Answers, call-Answers, Backend, is_made, is_done, Serves,
}

abbrev pub no_error : EpollEvent → Option ℕ
no_error event = none

abbrev pub event_error : Platform → KqueueEvent → Option ℕ
event_error p event = if bit_and event.flags p.ev_error == 0 then none else some event.data_

epoll_wait-Answers :
    (p : Platform) (call : Called (Option EpollEvent)) (poller : EpollPoller) (ctx : Ctx)
    → Answers (wait_answer p no_error call) ctx (epoll_poller_wait p call poller ctx).1
unfolding epoll_poller_wait wait_answer
epoll_wait-Answers p (done none) poller ctx = refl
epoll_wait-Answers p (done (some event)) poller ctx = refl
epoll_wait-Answers p (failed code) poller ctx =
    rw (transient_eq p code) (lost-Answers (is_transient p code) code (codes "epoll.c") 47 ctx)

kqueue_wait-Answers :
    (p : Platform) (call : Called (Option KqueueEvent)) (poller : KqueuePoller) (ctx : Ctx)
    → Answers (wait_answer p (event_error p) call) ctx (kqueue_poller_wait p call poller ctx).1
unfolding kqueue_poller_wait wait_answer
kqueue_wait-Answers p (done none) poller ctx = refl
kqueue_wait-Answers p (done (some event)) poller ctx =
    event-Answers (bit_and event.flags p.ev_error == 0) event.data_ (codes "kqueue.c") 59 ctx
kqueue_wait-Answers p (failed code) poller ctx =
    rw (transient_eq p code) (lost-Answers (is_transient p code) code (codes "kqueue.c") 55 ctx)

-- What the calls of `jp_poller_poll` come to.
abbrev pub epoll_poll_answer : (ℕ → ℕ → EpollEvent → Called Unit) → EpollPoller → ℕ → Answer
epoll_poll_answer epoll_ctl poller fd =
    single (epoll_ctl poller.fd fd (record { epollin = true; epollet = true; fd = fd }))

abbrev pub filter_answer : Calls → KqueuePoller → ℕ → Answer
filter_answer calls poller fd = single (
    calls.kevent_change poller.fd
      (record { ident = fd; ev_add = true; ev_enable = true; ev_clear = true }))

abbrev pub set_answer : Platform → Calls → KqueuePoller → ℕ → ℕ → Answer
set_answer p calls poller fd flags =
    first_failed (calls.fcntl_setfl fd (bit_or flags p.o_nonblock))
      (λ _. filter_answer calls poller fd)

abbrev pub kqueue_poll_answer : Platform → Calls → KqueuePoller → ℕ → Answer
kqueue_poll_answer p calls poller fd =
    first_failed (calls.fcntl_getfl fd) (set_answer p calls poller fd)

abbrev pub epoll : Platform → Backend EpollPoller EpollEvent (ℕ → ℕ → EpollEvent → Called Unit)
epoll p = record {
  create = epoll_poller_create;
  poll = epoll_poller_poll;
  wait = epoll_poller_wait p;
}

abbrev pub kqueue : Platform → Backend KqueuePoller KqueueEvent Calls
kqueue p = record {
  create = kqueue_poller_create;
  poll = kqueue_poller_poll p;
  wait = kqueue_poller_wait p;
}

epoll_create-Answers :
    (call : Called ℕ) (timeout : ℕ) (ctx : Ctx)
    → (is_made (epoll_poller_create call timeout Errno.ok ctx).0 ≡ is_done call)
      × Answers (single call) ctx (epoll_poller_create call timeout Errno.ok ctx).1
unfolding epoll_poller_create ctx_set
epoll_create-Answers (done fd) timeout ctx = (refl, refl)
epoll_create-Answers (failed code) timeout ctx = (refl, (refl, refl, refl, refl))

kqueue_create-Answers :
    (call : Called ℕ) (timeout : ℕ) (ctx : Ctx)
    → (is_made (kqueue_poller_create call timeout Errno.ok ctx).0 ≡ is_done call)
      × Answers (single call) ctx (kqueue_poller_create call timeout Errno.ok ctx).1
unfolding kqueue_poller_create ctx_set
kqueue_create-Answers (done fd) timeout ctx = (refl, refl)
kqueue_create-Answers (failed code) timeout ctx = (refl, (refl, refl, refl, refl))

epoll_poll-Answers :
    (epoll_ctl : ℕ → ℕ → EpollEvent → Called Unit) (poller : EpollPoller) (fd : ℕ) (ctx : Ctx)
    → Answers
        (epoll_poll_answer epoll_ctl poller fd)
        ctx
        (epoll_poller_poll epoll_ctl poller fd ctx)
unfolding epoll_poller_poll
epoll_poll-Answers epoll_ctl poller fd ctx =
    call-Answers (epoll_ctl poller.fd fd (record { epollin = true; epollet = true; fd = fd }))
      (λ _. ready) (λ _. (Errno.ok, ctx)) (codes "epoll.c") 34 ctx (λ _. refl)

add_filter-Answers :
    (calls : Calls) (poller : KqueuePoller) (fd : ℕ) (ctx : Ctx)
    → Answers (filter_answer calls poller fd) ctx (add_filter calls poller fd ctx)
add_filter-Answers calls poller fd ctx =
    call-Answers
      (calls.kevent_change poller.fd
        (record { ident = fd; ev_add = true; ev_enable = true; ev_clear = true }))
      (λ _. ready) (λ _. (Errno.ok, ctx)) (codes "kqueue.c") 42 ctx (λ _. refl)

kqueue_poll-Answers :
    (p : Platform) (calls : Calls) (poller : KqueuePoller) (fd : ℕ) (ctx : Ctx)
    → Answers (kqueue_poll_answer p calls poller fd) ctx (kqueue_poller_poll p calls poller fd ctx)
unfolding kqueue_poller_poll
kqueue_poll-Answers p calls poller fd ctx =
    call-Answers (calls.fcntl_getfl fd) (set_answer p calls poller fd) (set_body) (codes "kqueue.c")
      35 ctx
      (λ flags.
        call-Answers (calls.fcntl_setfl fd (bit_or flags p.o_nonblock))
          (λ _. filter_answer calls poller fd) (λ _. add_filter calls poller fd ctx)
          (codes "kqueue.c") 35 ctx (λ _. add_filter-Answers calls poller fd ctx))
  where
    set_body : ℕ → Errno × Ctx
    set_body flags = elim (calls.fcntl_setfl fd (bit_or flags p.o_nonblock)) [
      | failed errno ↦ raise_posix Errno.eread_failed errno (codes "kqueue.c") 35 ctx
      | done _ ↦ add_filter calls poller fd ctx
    ]

pub backends-Serve :
    (p : Platform)
    → Serves p (epoll p) epoll_poll_answer no_error
      × Serves p (kqueue p) (kqueue_poll_answer p) (event_error p)
backends-Serve p = (
  record {
    create-Answers = epoll_create-Answers;
    poll-Answers = epoll_poll-Answers;
    wait-Answers = epoll_wait-Answers p;
  },
  record {
    create-Answers = kqueue_create-Answers;
    poll-Answers = kqueue_poll-Answers p;
    wait-Answers = kqueue_wait-Answers p;
  },
)
