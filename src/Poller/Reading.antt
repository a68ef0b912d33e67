-- ===== src/Poller/Reading.antt =====
-- jp_reader_consume of src/reader.c on a back end of the poller, by the contract alone.
use jpipe.Common.{ℕ, ◌≡◌, refl, sym, subst, append-nil, ap, ◌∙◌, List, [], ◌∷◌, ◌++◌, Option, All}
use jpipe.Errno.{Errno}
use jpipe.Errno.Context.{Ctx}
use jpipe.Reader.{
  Turn, Reader, Next, reading, drained, clean_up, crashed, read_loop, Wake, after_wake, wake_up,
  consume_loop, new_reader, reader_consume,
}
use jpipe.Poller.{Called, Platform}
use jpipe.Poller.Contract.{Answer, idle, broken, Answers, wait_answer, Backend, Serves}

module _ (chunk_size : ℕ) where
  after_wake-drained :
      (f g : Reader → Next) (n : Next) (r : Reader) (m : Next)
      → after_wake f n ≡ drained r
      → ((s : Reader) → f s ≡ drained r → g s ≡ m)
      → after_wake g n ≡ m
  after_wake-drained f g (drained s) r m e h = h s e
  after_wake-drained f g (reading s) r m e h = absurd (cc)
  after_wake-drained f g (clean_up err s) r m e h = absurd (cc)
  after_wake-drained f g crashed r m e h = absurd (cc)

  wake_up-drained :
      (f g : Reader → Next) (waited : Errno) (turns : List Turn) (s r : Reader) (m : Next)
      → wake_up chunk_size f (record { waited = waited; turns = turns }) s ≡ drained r
      → ((t : Reader) → f t ≡ drained r → g t ≡ m)
      → wake_up chunk_size g (record { waited = waited; turns = turns }) s ≡ m
  wake_up-drained f g Errno.eread_failed turns s r m e h = absurd (cc)
  wake_up-drained f g Errno.etryagain turns s r m e h = h s e
  wake_up-drained f g _ turns s r m e h =
      after_wake-drained f g (read_loop chunk_size turns s) r m e h

  -- Rounds behind one another.
  consume_loop-append :
      (earlier wakes : List Wake) (s r : Reader)
      → consume_loop chunk_size earlier s ≡ drained r
      → consume_loop chunk_size (earlier ++ wakes) s ≡ consume_loop chunk_size wakes r
  unfolding consume_loop
  consume_loop-append [] wakes s r e = ap (after_wake (consume_loop chunk_size wakes)) e
  consume_loop-append (w ∷ earlier) wakes s r e =
      wake_up-drained (consume_loop chunk_size earlier) (consume_loop chunk_size (earlier ++ wakes))
        w.waited w.turns s r (consume_loop chunk_size wakes r) e
        (λ t. consume_loop-append earlier wakes t r)

-- A call of the poller's wait, and the rounds of the inner loop behind it.
abbrev pub Waits : Type 0 → Type 0
Waits Event = List (Called (Option Event) × List Turn)

abbrev pub wake_of : Errno → List Turn → Wake
wake_of waited turns = record { waited = waited; turns = turns }

abbrev pub AllIdle : {Event : Type 0} → Platform → (Event → Option ℕ) → Waits Event → Type 0
AllIdle p error_of waits = All (λ w. wait_answer p error_of w.0 ≡ idle) waits

module _ {Poller Event Kernel : Type 0} (b : Backend Poller Event Kernel) where
  -- The rounds that the reader sees, and the poller and the error context behind them.
  pub polled : Waits Event → Poller → Ctx → List Wake × (Poller × Ctx)
  polled [] poller ctx = ([], (poller, ctx))
  polled ((call, turns) ∷ waits) poller ctx =
      let (poller', (err, ctx')) = b.wait call poller ctx in
      let later = polled waits poller' ctx' in (wake_of err turns ∷ later.0, later.1)

module _ {Poller Event Kernel : Type 0} (p : Platform) (b : Backend Poller Event Kernel)
    {poll_answer : Kernel → Poller → ℕ → Answer} {error_of : Event → Option ℕ}
    (laws : Serves p b poll_answer error_of) where
  idle_wait :
      (call : Called (Option Event)) (poller : Poller) (ctx : Ctx)
      → wait_answer p error_of call ≡ idle
      → (b.wait call poller ctx).1 ≡ (Errno.etryagain, ctx)
  idle_wait call poller ctx e =
      subst (λ a. Answers a ctx (b.wait call poller ctx).1) e (laws.wait-Answers call poller ctx)

  broken_wait :
      (call : Called (Option Event)) (poller : Poller) (ctx : Ctx) (code : ℕ)
      → wait_answer p error_of call ≡ broken code
      → ((b.wait call poller ctx).1.0 ≡ Errno.eread_failed)
        × ((b.wait call poller ctx).1.1.sys_err ≡ code)
  broken_wait call poller ctx code e =
      let told =
        subst (λ a. Answers a ctx (b.wait call poller ctx).1) e
          (laws.wait-Answers call poller ctx) in
      (told.0, told.3)

  -- Idle waits leave the reader and the error context alone.
  idle_loop :
      (chunk_size : ℕ) (waits more : Waits Event) (poller : Poller) (ctx : Ctx) (r : Reader)
      → AllIdle p error_of waits
      → (poller' : Poller) × (consume_loop chunk_size (polled b (waits ++ more) poller ctx).0 r
          ≡ consume_loop chunk_size (polled b more poller' ctx).0 r)
        × ((polled b (waits ++ more) poller ctx).1.1 ≡ (polled b more poller' ctx).1.1)
  unfolding consume_loop polled
  idle_loop chunk_size [] more poller ctx r h = (poller, refl, refl)
  idle_loop chunk_size ((call, turns) ∷ waits) more poller ctx r h =
      let e = idle_wait call poller ctx h.0 in
      let later = idle_loop chunk_size waits more (b.wait call poller ctx).0 ctx r h.1 in
      (
        later.0,
        ap
              (λ told.
                consume_loop chunk_size
                  (wake_of told.0 turns
                    ∷ (polled b (waits ++ more) (b.wait call poller ctx).0 told.1).0)
                  r)
              e
            ∙ later.1,
        ap (λ told. (polled b (waits ++ more) (b.wait call poller ctx).0 told.1).1.1) e ∙ later.2,
      )

  -- On a poller that keeps the contract, where jp_reader_consume waits for input behind any
  -- rounds, waits that time out or are interrupted leave it waiting with what it has and leave the
  -- error context alone, whatever becomes of the queue; and a wait that is broken behind them ends
  -- it with JP_EREAD_FAILED, with what it has, and with the errno value of that wait in the
  -- context.
  pub reader_consume-polled :
      (chunk_size : ℕ) (earlier : List Wake) (waits : Waits Event) (call : Called (Option Event))
      (turns : List Turn) (code : ℕ) (poller : Poller) (ctx : Ctx) (r : Reader)
      → consume_loop chunk_size earlier new_reader ≡ drained r
      → AllIdle p error_of waits
      → wait_answer p error_of call ≡ broken code
      → let quiet = polled b waits poller ctx in
        let last = polled b (waits ++ (call, turns) ∷ []) poller ctx in
        (reader_consume chunk_size Errno.ok Errno.ok (earlier ++ quiet.0) ≡ drained r)
        × (quiet.1.1 ≡ ctx)
        × (reader_consume chunk_size Errno.ok Errno.ok (earlier ++ last.0)
            ≡ clean_up Errno.eread_failed r)
        × (last.1.1.sys_err ≡ code)
  unfolding reader_consume consume_loop polled
  reader_consume-polled chunk_size earlier waits call turns code poller ctx r e h lost =
      let alone = idle_loop chunk_size waits [] poller ctx r h in
      let ended = idle_loop chunk_size waits ((call, turns) ∷ []) poller ctx r h in
      let told = broken_wait call ended.0 ctx code lost in
      (
        consume_loop-append chunk_size earlier (polled b waits poller ctx).0 new_reader r e
            ∙ ap (λ w. consume_loop chunk_size (polled b w poller ctx).0 r) (sym (append-nil waits))
            ∙ alone.1,
        ap (λ w. (polled b w poller ctx).1.1) (sym (append-nil waits)) ∙ alone.2,
        consume_loop-append chunk_size earlier (polled b (waits ++ (call, turns) ∷ []) poller ctx).0
              new_reader r e
            ∙ ended.1
            ∙ ap (λ w. consume_loop chunk_size (wake_of w turns ∷ []) r) told.0,
        ap (λ c. c.sys_err) ended.2 ∙ told.1,
      )
