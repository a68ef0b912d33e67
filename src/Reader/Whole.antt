-- ===== src/Reader/Whole.antt =====
-- One round of the inner loop where `read` waits for bytes: only whole blocks are committed before the end.
use jpipe.Common.{
  ℕ, ◌-◌, if◌then◌else◌, ◌≤◌, ◌≡◌, refl, sym, inl, inr, List, [], ◌∷◌, ◌++◌, append-nil, arith,
  ◌==◌, ltb, Bool-cases, length, Option, none, some, Bytes, All, All-append,
}
use jpipe.Errno.{Errno, is_ok}
use jpipe.Reader.{
  ReadResult, got, end_of_input, interrupted, again, failed, Turn, Reader, Next, reading, drained,
  clean_up, crashed, discard, extend, fill, read_turn, round, Wake,
}

-- `read` does not return with EAGAIN.
abbrev pub IsBlocking : ReadResult → Type 0
IsBlocking again = ⊥
IsBlocking _ = Unit

abbrev pub BlocksIn : Wake → Type 0
BlocksIn wake = All (λ turn. (n : ℕ) → IsBlocking (turn.read n)) wake.turns

module _ (chunk_size : ℕ) where
  abbrev pub IsWhole : Bytes → Type 0
  IsWhole block = length block ≡ chunk_size

  -- Whole blocks with one other block at most behind them.
  pub record Ended (committed : List Bytes) : Type 0 where
    pub whole : List Bytes
    pub rest : List Bytes
    pub same : committed ≡ whole ++ rest
    pub all_whole : All IsWhole whole
    pub one_other : length rest ≤ 1

  -- All committed blocks are whole while the reader goes on.
  abbrev pub Whole : Next → Type 0
  Whole (reading r) = All IsWhole r.committed
  Whole (drained r) = All IsWhole r.committed
  Whole (clean_up err r) = Ended r.committed
  Whole crashed = Unit

  pub ended_here : (committed : List Bytes) → All IsWhole committed → Ended committed
  ended_here committed h = record {
    whole = committed;
    rest = [];
    same = sym (append-nil committed);
    all_whole = h;
    one_other = omega arith;
  }

  discard-Whole :
      (result : ReadResult) (r : Reader)
      → IsBlocking result
      → All IsWhole r.committed
      → Whole (discard result r)
  discard-Whole (got bytes) r b h = h
  discard-Whole end_of_input r b h = ended_here r.committed h
  discard-Whole interrupted r b h = h
  discard-Whole again r b h = absurd b
  discard-Whole failed r b h = ended_here r.committed h

  extend-Whole :
      (block bytes : Bytes) (r : Reader)
      → All IsWhole r.committed
      → Whole (extend chunk_size block bytes r)
  extend-Whole block bytes r h = elim (Bool-cases (length (block ++ bytes) == chunk_size)) [
    | inl full ↦
        rw full (All-append IsWhole r.committed ((block ++ bytes) ∷ []) h (ground arith, tt))
    | inr some_room ↦ rw some_room h
  ]

  fill-Whole :
      (block : Bytes) (result : ReadResult) (r : Reader)
      → IsBlocking result
      → All IsWhole r.committed
      → Whole (fill chunk_size block result r)
  fill-Whole block (got bytes) r b h = extend-Whole block bytes r h
  fill-Whole block end_of_input r b h = elim (Bool-cases (ltb 0 (length block))) [
    | inl some_bytes ↦ rw some_bytes (record {
      whole = r.committed;
      rest = block ∷ [];
      same = refl;
      all_whole = h;
      one_other = omega arith;
    })
    | inr nothing ↦ rw nothing (ended_here r.committed h)
  ]
  fill-Whole block interrupted r b h = h
  fill-Whole block again r b h = absurd b
  fill-Whole block failed r b h = ended_here r.committed h

  read_turn-Whole :
      (read : ℕ → ReadResult) (block : Option Bytes) (err : Errno) (r : Reader)
      → ((n : ℕ) → IsBlocking (read n))
      → All IsWhole r.committed
      → Whole (read_turn chunk_size read (record r { block = block; queue_err = err }))
  unfolding read_turn
  read_turn-Whole read none Errno.eshutting_down r b h = ended_here r.committed h
  read_turn-Whole read none Errno.emsg_should_drop r b h =
      discard-Whole (read chunk_size)
        (record r { block = none; queue_err = Errno.emsg_should_drop }) (b chunk_size) h
  read_turn-Whole read none _ r b h = tt
  read_turn-Whole read (some block) Errno.emsg_should_drop r b h =
      discard-Whole (read chunk_size)
        (record r { block = some block; queue_err = Errno.emsg_should_drop }) (b chunk_size) h
  read_turn-Whole read (some block) err r b h =
      fill-Whole block (read (chunk_size - length block))
        (record r { block = some block; queue_err = err }) (b (chunk_size - length block)) h

  pub round-Whole :
      (turn : Turn) (r : Reader)
      → ((n : ℕ) → IsBlocking (turn.read n))
      → All IsWhole r.committed
      → Whole (round chunk_size turn r)
  round-Whole turn r b h = starts r.block refl
    where
      starts : (block : Option Bytes) → r.block ≡ block → Whole (round chunk_size turn r)
      starts none e =
          rw e
            (read_turn-Whole turn.read (if is_ok turn.push then some [] else none) turn.push r b h)
      starts (some block) e = rw e (read_turn-Whole turn.read (some block) r.queue_err r b h)
