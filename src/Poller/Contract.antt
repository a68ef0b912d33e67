-- ===== src/Poller/Contract.antt =====
-- What the reader relies on in a poller.
use jpipe.Common.{
  ℕ, ◌≡◌, refl, Bool, true, false, not, ◌||◌, Option, none, some, ◌==◌, if◌then◌else◌, arith, Bytes,
}
use jpipe.Errno.{Errno}
use jpipe.Errno.Context.{Source, Ctx, ctx_set}
use jpipe.Poller.{Called, done, failed, Platform, errno_eagain, raise_posix}

-- How a call may end: well, with nothing to read yet, or broken with a value of `errno`.
pub data Answer : Type 0 where
  ready idle : Answer
  broken : ℕ → Answer

-- A broken call is told by JP_EREAD_FAILED, and the context says why; every other leaves it alone.
abbrev pub Answers : Answer → Ctx → Errno × Ctx → Type 0
Answers ready ctx r = r ≡ (Errno.ok, ctx)
Answers idle ctx r = r ≡ (Errno.etryagain, ctx)
Answers (broken code) ctx r =
    (r.0 ≡ Errno.eread_failed)
    × (r.1.err ≡ Errno.eread_failed)
    × (r.1.src ≡ Source.posix)
    × (r.1.sys_err ≡ code)

-- The values of `errno` after which the reader tries again.
abbrev pub is_transient : Platform → ℕ → Bool
is_transient p code = code == p.eintr || (code == p.eagain || code == p.ewouldblock)

abbrev pub reported : Option ℕ → Answer
reported none = ready
reported (some code) = broken code

-- How a wait ends, by what its call comes to; `error_of` is the error that an event reports.
unfoldable pub wait_answer :
    {Event : Type 0} → Platform → (Event → Option ℕ) → Called (Option Event) → Answer
wait_answer p error_of (done none) = idle
wait_answer p error_of (done (some event)) = reported (error_of event)
wait_answer p error_of (failed code) = if is_transient p code then idle else broken code

pub transient_eq :
    (p : Platform) (code : ℕ) → (code == p.eintr || errno_eagain p code) ≡ is_transient p code
transient_eq p code = ground arith

-- The end of both waits that fail, and of the one with an event.
pub lost-Answers :
    (again : Bool) (code : ℕ) (file : Bytes) (line : ℕ) (ctx : Ctx)
    → Answers (if again then idle else broken code) ctx (
        if again then (Errno.etryagain, ctx) else raise_posix Errno.eread_failed code file line ctx)
unfolding ctx_set
lost-Answers true code file line ctx = refl
lost-Answers false code file line ctx = (refl, refl, refl, refl)

pub event-Answers :
    (well : Bool) (code : ℕ) (file : Bytes) (line : ℕ) (ctx : Ctx)
    → Answers
        (reported (if well then none else some code))
        ctx
        (if not well then raise_posix Errno.eread_failed code file line ctx else (Errno.ok, ctx))
unfolding ctx_set
event-Answers true code file line ctx = refl
event-Answers false code file line ctx = (refl, refl, refl, refl)

-- The first of some calls that fails breaks the whole.
abbrev pub first_failed : {A : Type 0} → Called A → (A → Answer) → Answer
first_failed (done a) next = next a
first_failed (failed code) next = broken code

abbrev pub single : {A : Type 0} → Called A → Answer
single call = first_failed call (λ _. ready)

pub call-Answers :
    {A : Type 0} (call : Called A) (next : A → Answer) (body : A → Errno × Ctx) (file : Bytes)
    (line : ℕ) (ctx : Ctx)
    → ((a : A) → Answers (next a) ctx (body a))
    → Answers (first_failed call next) ctx (elim call [
      | failed errno ↦ raise_posix Errno.eread_failed errno file line ctx
      | done a ↦ body a
    ])
unfolding ctx_set
call-Answers (done a) next body file line ctx h = h a
call-Answers (failed code) next body file line ctx h = (refl, refl, refl, refl)

-- The operations of a back end, with the calls of its `jp_poller_poll`.
pub record Backend (Poller Event Kernel : Type 0) : Type 0 where
  pub create : Called ℕ → ℕ → Errno → Ctx → Option Poller × (Errno × Ctx)
  pub poll : Kernel → Poller → ℕ → Ctx → Errno × Ctx
  pub wait : Called (Option Event) → Poller → Ctx → Poller × (Errno × Ctx)

abbrev pub is_made : {A : Type 0} → Option A → Bool
is_made none = false
is_made (some a) = true

abbrev pub is_done : {A : Type 0} → Called A → Bool
is_done (done a) = true
is_done (failed code) = false

-- Every operation ends as its calls do, `jp_poller_create` for an `*err` of JP_OK, and it returns a
-- poller where its call returns a descriptor.
pub record Serves {Poller Event Kernel : Type 0} (p : Platform) (b : Backend Poller Event Kernel)
    (poll_answer : Kernel → Poller → ℕ → Answer) (error_of : Event → Option ℕ) : Type 0 where
  pub create-Answers :
      (call : Called ℕ) (timeout : ℕ) (ctx : Ctx)
      → (is_made (b.create call timeout Errno.ok ctx).0 ≡ is_done call)
        × Answers (single call) ctx (b.create call timeout Errno.ok ctx).1
  pub poll-Answers :
      (kernel : Kernel) (poller : Poller) (fd : ℕ) (ctx : Ctx)
      → Answers (poll_answer kernel poller fd) ctx (b.poll kernel poller fd ctx)
  pub wait-Answers :
      (call : Called (Option Event)) (poller : Poller) (ctx : Ctx)
      → Answers (wait_answer p error_of call) ctx (b.wait call poller ctx).1
