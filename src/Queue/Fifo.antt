-- ===== src/Queue/Fifo.antt =====
-- What the queue promises: a bounded first-in-first-out list of blocks that can be closed. `Runs` are
-- the sequences of calls, latest first, that such a list allows.
use jpipe.Common.{ℕ, ◌<◌, ◌≡◌, Bool, true, false, List, [], ◌∷◌, ◌++◌, length}
use jpipe.Errno.{Errno}
use jpipe.Queue.{Block}

pub record Fifo : Type 0 where
  pub items : List Block
  pub closed : Bool

-- What the threads see: a block that is committed, a block that is taken, a call of either side that
-- returns no block, and the closing.
pub data Event : Type 0 where
  enqueued dequeued : Block → Event
  push_refused pop_refused : Errno → Event
  closing : Event

-- A block may still be committed when the list is closed, by a reader that got it before.
abbrev pub Allows : ℕ → Fifo → Event → Fifo → Type 0
Allows capacity f (enqueued b) f' =
    (length f.items < capacity) × (f'.items ≡ f.items ++ b ∷ []) × (f'.closed ≡ f.closed)
Allows capacity f (dequeued b) f' = (f.items ≡ b ∷ f'.items) × (f'.closed ≡ f.closed)
Allows capacity f (push_refused Errno.eshutting_down) f' = (f.closed ≡ true) × (f' ≡ f)
Allows capacity f (push_refused Errno.emsg_should_drop) f' =
    (f.closed ≡ false) × (length f.items ≡ capacity) × (f' ≡ f)
Allows capacity f (push_refused _) f' = ⊥
Allows capacity f (pop_refused Errno.eshutting_down) f' =
    (f.closed ≡ true) × (f.items ≡ []) × (f' ≡ f)
Allows capacity f (pop_refused _) f' = ⊥
Allows capacity f closing f' = (f'.items ≡ f.items) × (f'.closed ≡ true)

abbrev pub new_fifo : Fifo
new_fifo = record { items = []; closed = false }

pub data Runs (capacity : ℕ) : List Event → Fifo → Type 0 where
  none_yet : Runs capacity [] new_fifo
  and_then :
      {events : List Event} {f : Fifo} (event : Event) (f' : Fifo)
      → Runs capacity events f
      → Allows capacity f event f'
      → Runs capacity (event ∷ events) f'
