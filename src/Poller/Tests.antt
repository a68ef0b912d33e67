-- ===== src/Poller/Tests.antt =====
-- The back ends on the values of a platform, and the theorem at them.
use jpipe.Common.{List, [], ◌∷◌, ◌++◌, codes, ◌≡◌, refl, none, some}
use jpipe.Errno.{Errno}
use jpipe.Errno.Context.{initial_ctx, ctx_set}
use jpipe.Poller.{done, failed, Platform}
use jpipe.Poller.Epoll.{EpollPoller, epoll_poller_create, epoll_poller_poll, epoll_poller_wait}
use jpipe.Poller.Kqueue.{KqueuePoller, timespec_of, kqueue_poller_wait}
use jpipe.Poller.Contract.{broken, wait_answer}
use jpipe.Poller.Reading.{Waits, wake_of, polled, AllIdle, reader_consume-polled}
use jpipe.Reader.{
  Turn, Reader, got, again, drained, clean_up, Wake, read_turn, read_loop, consume_loop,
  reader_consume, new_reader,
}
use jpipe.Poller.Epoll.{EpollEvent}
use jpipe.Poller.Backends.{no_error, epoll, backends-Serve}

abbrev platform : Platform
platform = record { eintr = 4; eagain = 11; ewouldblock = 11; ev_error = 0x4000; o_nonblock = 2048 }

abbrev epoll_poller : EpollPoller
epoll_poller = record { fd = 3; timeout = 100; events = none }

abbrev kqueue_poller : KqueuePoller
kqueue_poller = record { fd = 3; event = record { flags = 0; data_ = 0 }; ts = timespec_of 1100 }

created :
    epoll_poller_create (done 3) 100 Errno.ok initial_ctx
    ≡ (some epoll_poller, (Errno.ok, initial_ctx))
unfolding epoll_poller_create
created = refl

waits : kqueue_poller.ts ≡ record { tv_sec = 1; tv_nsec = 100000000 }
waits = refl

bad_descriptor :
    (epoll_poller_poll (λ epfd fd event. failed 1) epoll_poller 0 initial_ctx).1.sys_err ≡ 1
unfolding epoll_poller_poll ctx_set
bad_descriptor = refl

interrupted :
    (epoll_poller_wait platform (failed 4) epoll_poller initial_ctx).1
    ≡ (Errno.etryagain, initial_ctx)
unfolding epoll_poller_wait
interrupted = refl

reported :
    (kqueue_poller_wait platform
      (done (some (record { flags = 0x4001; data_ = 9 })))
      kqueue_poller
      initial_ctx).1.1.sys_err
    ≡ 9
unfolding kqueue_poller_wait ctx_set
reported = refl

-- Two bytes are read, then the input has no more for now.
abbrev read_turns : List Turn
read_turns =
    record { push = Errno.ok; read = λ room. got (codes "ab") }
    ∷ record { push = Errno.ok; read = λ room. again }
    ∷ []

abbrev earlier : List Wake
earlier = wake_of Errno.ok read_turns ∷ []

abbrev reader : Reader
reader = record {
  block = none;
  queue_err = Errno.ok;
  committed = codes "ab" ∷ [];
  received = codes "ab";
  discarded = [];
}

waits_for_input : consume_loop 1024 earlier new_reader ≡ drained reader
unfolding consume_loop read_loop read_turn
waits_for_input = refl

-- A timeout and a signal.
abbrev quiet : Waits EpollEvent
quiet = (done none, []) ∷ (failed 4, []) ∷ []

quiet-AllIdle : AllIdle platform no_error quiet
unfolding wait_answer
quiet-AllIdle = (refl, (refl, tt))

lost : wait_answer platform no_error (failed 9) ≡ broken 9
unfolding wait_answer
lost = refl

reader_consume-polled_example :
    (reader_consume 1024 Errno.ok Errno.ok
        (earlier ++ (polled (epoll platform) quiet epoll_poller initial_ctx).0)
      ≡ drained reader)
    × ((polled (epoll platform) quiet epoll_poller initial_ctx).1.1 ≡ initial_ctx)
    × (reader_consume 1024 Errno.ok Errno.ok (
          earlier
          ++ (polled (epoll platform) (quiet ++ (failed 9, []) ∷ []) epoll_poller initial_ctx).0)
        ≡ clean_up Errno.eread_failed reader)
    × ((polled (epoll platform) (quiet ++ (failed 9, []) ∷ []) epoll_poller initial_ctx).1.1.sys_err
        ≡ 9)
reader_consume-polled_example =
    reader_consume-polled platform (epoll platform) (backends-Serve platform).0 1024 earlier quiet
      (failed 9) [] 9 epoll_poller initial_ctx reader waits_for_input quiet-AllIdle lost
