-- ===== src/Reader/Round.antt =====
-- One round of the reader's inner loop keeps the text that was read.
use jpipe.Common.{
  ℕ, ◌-◌, ◌≤◌, ◌<◌, ◌≡◌, ◌≢◌, refl, sym, ap, ◌∙◌, ◌⊎◌, inl, inr, false, List, [], subst, ◌∷◌, ◌++◌,
  append_assoc, append-nil, Option, none, some, arith, ◌==◌, ltb, if◌then◌else◌, Bool-cases, length,
  length-append, Bytes, All, All-append, joined, joined-append,
}
use jpipe.Errno.{Errno, is_ok}
use jpipe.Reader.{
  ReadResult, got, end_of_input, interrupted, again, failed, Turn, Reader, Next, reading, drained,
  clean_up, crashed, commit_some, discard, extend, fill, read_turn, round, Wake,
}

-- `jp_queue_push_uncommitted` returns one of three codes.
abbrev pub IsPush : Errno → Type 0
IsPush Errno.ok = Unit
IsPush Errno.eshutting_down = Unit
IsPush Errno.emsg_should_drop = Unit
IsPush _ = ⊥

-- A `read` into a room of `n` bytes returns at least one byte and at most `n`, if it returns any.
abbrev pub IsReadOf : ℕ → ReadResult → Type 0
IsReadOf n (got bytes) = (0 < length bytes) × (length bytes ≤ n)
IsReadOf n _ = Unit

abbrev pub IsTurn : Turn → Type 0
IsTurn turn = IsPush turn.push × ((n : ℕ) → IsReadOf n (turn.read n))

abbrev pub IsWake : Wake → Type 0
IsWake wake = All IsTurn wake.turns

-- The bytes of the block that the reader holds.
abbrev pub held : Option Bytes → Bytes
held none = []
held (some block) = block

-- A block that is held came from a successful call and has room.
abbrev pub IsHeld : ℕ → Option Bytes → Errno → Type 0
IsHeld chunk_size none err = Unit
IsHeld chunk_size (some block) err = (length block < chunk_size) × (err ≡ Errno.ok)

abbrev pub IsFilled : ℕ → Bytes → Type 0
IsFilled chunk_size block = (0 < length block) × (length block ≤ chunk_size)

pub record IsReader (chunk_size : ℕ) (block : Option Bytes) (err : Errno) (committed : List Bytes)
    (received : Bytes) : Type 0 where
  pub text : received ≡ joined committed ++ held block
  pub filled : All (IsFilled chunk_size) committed
  pub room : IsHeld chunk_size block err

abbrev pub Inv : ℕ → Reader → Type 0
Inv chunk_size r = IsReader chunk_size r.block r.queue_err r.committed r.received

-- What is known of the reader behind a round or a call: what it has received is what it has committed
-- and the block that it holds, the committed blocks have 1 to `chunk_size` bytes, and where it
-- leaves with JP_OK, all that it has received is committed. It never uses a block that is NULL.
abbrev pub Delivered : ℕ → Next → Type 0
Delivered chunk_size (reading r) = Inv chunk_size r
Delivered chunk_size (drained r) = Inv chunk_size r
Delivered chunk_size (clean_up err r) =
    Inv chunk_size r × ((err ≢ Errno.ok) ⊎ (r.received ≡ joined r.committed))
Delivered chunk_size crashed = ⊥

module _ (chunk_size : ℕ) (pos : 0 < chunk_size) where
  -- Commits of a block that is not empty.
  committed_IsReader :
      (block : Bytes) (err : Errno) (committed : List Bytes) (received : Bytes)
      → received ≡ joined committed ++ block
      → All (IsFilled chunk_size) committed
      → IsFilled chunk_size block
      → IsReader chunk_size none err (committed ++ block ∷ []) received
  unfolding joined
  committed_IsReader block err committed received text filled h = record {
    text =
        text
        ∙ sym (append-nil (joined committed ++ block))
        ∙ ap (λ t. t ++ [])
            (ap (λ b. joined committed ++ b) (sym (append-nil block))
              ∙ sym (joined-append committed (block ∷ [])));
    filled = All-append (IsFilled chunk_size) committed (block ∷ []) filled (h, tt);
    room = tt;
  }

  discard-Delivered :
      (result : ReadResult) (r : Reader)
      → Inv chunk_size r
      → r.block ≡ none
      → Delivered chunk_size (discard result r)
  discard-Delivered (got bytes) r v e = v
  discard-Delivered end_of_input r v e =
      (v, inr (v.text ∙ ap (λ b. joined r.committed ++ held b) e ∙ append-nil (joined r.committed)))
  discard-Delivered interrupted r v e = v
  discard-Delivered again r v e = v
  discard-Delivered failed r v e = (v, inl (λ k. cc k))

  -- The bytes that are read extend the text of the block that is held.
  longer_text :
      (block bytes : Bytes) (committed : List Bytes) (received : Bytes)
      → received ≡ joined committed ++ block
      → received ++ bytes ≡ joined committed ++ (block ++ bytes)
  longer_text block bytes committed received e =
      ap (λ t. t ++ bytes) e ∙ append_assoc (joined committed) block bytes

  extend-Delivered :
      (block bytes : Bytes) (r : Reader)
      → IsReader chunk_size (some block) r.queue_err r.committed r.received
      → (0 < length bytes) × (length bytes ≤ chunk_size - length block)
      → Delivered chunk_size (extend chunk_size block bytes r)
  extend-Delivered block bytes r v h =
      let text = longer_text block bytes r.committed r.received v.text in
      let size = length-append block bytes in
      elim (Bool-cases (length (block ++ bytes) == chunk_size)) [
        | inl full ↦ rw full (
            committed_IsReader (block ++ bytes) r.queue_err r.committed (r.received ++ bytes) text
              v.filled (ground (arith, full, h, size)))
        | inr open_block ↦ rw open_block (record {
          text = text;
          filled = v.filled;
          room = (ground (arith, open_block, h, size, v.room), v.room.1);
        })
      ]

  -- Leaving a block behind that is empty, or committing it.
  released-IsReader :
      (block : Bytes) (r : Reader)
      → IsReader chunk_size (some block) r.queue_err r.committed r.received
      → 0 < length block
      → IsReader chunk_size none r.queue_err (r.committed ++ block ∷ []) r.received
  released-IsReader block r v some_bytes =
      committed_IsReader block r.queue_err r.committed r.received v.text v.filled
        (some_bytes, omega (arith, v.room.0))

  empty_block : (block : Bytes) → ltb 0 (length block) ≡ false → block ≡ []
  empty_block [] h = refl
  empty_block (c ∷ block) h = absurd (ground arith)

  ended-Delivered :
      (block : Bytes) (r : Reader)
      → IsReader chunk_size (some block) r.queue_err r.committed r.received
      → Delivered chunk_size (clean_up Errno.ok (commit_some block (record r { block = none })))
  ended-Delivered block r v = elim (Bool-cases (ltb 0 (length block))) [
    | inl some_bytes ↦ rw some_bytes (
        let w = released-IsReader block r v (ground arith) in
        (w, inr (w.text ∙ append-nil (joined (r.committed ++ block ∷ [])))))
    | inr nothing ↦ rw nothing (
        let text : r.received ≡ joined r.committed ++ [] =
          v.text ∙ ap (λ b. joined r.committed ++ b) (empty_block block nothing) in
        (
          record { text = text; filled = v.filled; room = tt },
          inr (text ∙ append-nil (joined r.committed)),
        ))
  ]

  fill-Delivered :
      (block : Bytes) (result : ReadResult) (r : Reader)
      → r.block ≡ some block
      → Inv chunk_size r
      → IsReader chunk_size (some block) r.queue_err r.committed r.received
      → IsReadOf (chunk_size - length block) result
      → Delivered chunk_size (fill chunk_size block result r)
  fill-Delivered block (got bytes) r e v w h = extend-Delivered block bytes r w h
  fill-Delivered block end_of_input r e v w h = ended-Delivered block r w
  fill-Delivered block interrupted r e v w h = v
  fill-Delivered block again r e v w h = elim (Bool-cases (ltb 0 (length block))) [
    | inl some_bytes ↦ rw some_bytes (released-IsReader block r w (ground arith))
    | inr nothing ↦ rw nothing v
  ]
  fill-Delivered block failed r e v w h = (v, inl (λ k. cc k))

  -- A round that begins with no block.
  started-Delivered :
      (push : Errno) (read : ℕ → ReadResult) (r : Reader)
      → IsPush push
      → ((n : ℕ) → IsReadOf n (read n))
      → IsReader chunk_size none r.queue_err r.committed r.received
      → Delivered chunk_size (
          read_turn chunk_size read
            (record r { queue_err = push; block = if is_ok push then some [] else none }))
  unfolding read_turn
  started-Delivered Errno.ok read r p h v =
      let w : IsReader chunk_size (some []) Errno.ok r.committed r.received = record {
        text = v.text;
        filled = v.filled;
        room = (pos, refl);
      } in
      fill-Delivered [] (read (chunk_size - 0)) (record r { queue_err = Errno.ok; block = some [] })
        refl w w (h (chunk_size - 0))
  started-Delivered Errno.eshutting_down read r p h v = (
    record { text = v.text; filled = v.filled; room = tt },
    inr (v.text ∙ append-nil (joined r.committed)),
  )
  started-Delivered Errno.emsg_should_drop read r p h v =
      discard-Delivered (read chunk_size)
        (record r { queue_err = Errno.emsg_should_drop; block = none })
        (record { text = v.text; filled = v.filled; room = tt }) refl
  started-Delivered _ read r p h v = absurd p

  -- A round that begins with a block.
  going_on-Delivered :
      (block : Bytes) (read : ℕ → ReadResult) (r : Reader)
      → ((n : ℕ) → IsReadOf n (read n))
      → IsReader chunk_size (some block) r.queue_err r.committed r.received
      → Delivered chunk_size (read_turn chunk_size read (record r { block = some block }))
  unfolding read_turn
  going_on-Delivered block read r h v =
      let room = chunk_size - length block in
      rw (v.room.1)
        (fill-Delivered block (read room) (record r { block = some block }) refl v v (h room))

  pub round-Delivered :
      (turn : Turn) (r : Reader)
      → IsTurn turn
      → Inv chunk_size r
      → Delivered chunk_size (round chunk_size turn r)
  round-Delivered turn r t v = at r.block refl
    where
      at : (b : Option Bytes) → r.block ≡ b → Delivered chunk_size (round chunk_size turn r)
      at none e = rw e (
          started-Delivered turn.push turn.read (record r { block = none }) t.0 t.1
            (subst (λ b. IsReader chunk_size b r.queue_err r.committed r.received) e v))
      at (some block) e = rw e (
          going_on-Delivered block turn.read r t.1
            (subst (λ b. IsReader chunk_size b r.queue_err r.committed r.received) e v))
