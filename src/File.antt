-- ===== src/File.antt =====
-- `jp_file_writev` of src/file.c: some byte ranges are written to the standard output, in as many calls
-- of `writev` as it takes.
pub mod Progress
pub mod Caller
pub mod Whole
mod Tests
use jpipe.Common.{
  ℕ, ◌-◌, Bool, true, false, List, [], ◌∷◌, ◌++◌, Option, none, some, leb, ltb, if◌then◌else◌,
  length, take, drop, Bytes, joined,
}
use jpipe.Errno.{Errno}

-- What one call of `writev` comes to: it writes that many bytes of the ranges, or fails with `EINTR`
-- or with another error.
pub data Status : Type 0 where
  wrote : ℕ → Status
  interrupted failed : Status

-- The array of the caller, cut where `iov` points: the ranges behind it and the `count` ranges to
-- come; and what the output has received.
pub record Vector : Type 0 where
  pub passed : List Bytes
  pub iov : List Bytes
  pub output : Bytes

-- The test behind the inner loop, where the loop ends at a range.
abbrev pub shorten : List Bytes → Bytes → List Bytes → ℕ → List Bytes × List Bytes
shorten passed range iov status =
    if ltb 0 status then (passed, drop status range ∷ iov) else (passed, range ∷ iov)

-- The inner loop, and the test behind it: `status` bytes of the ranges `iov` are done with.
pub skip : List Bytes → List Bytes → ℕ → List Bytes × List Bytes
skip passed [] status = (passed, [])
skip passed (range ∷ iov) status =
    let rest = skip (passed ++ range ∷ []) iov (status - length range) in
    if leb (length range) status then rest else shorten passed range iov status

-- A call that wrote `status` bytes.
pub accept : ℕ → Vector → Vector
accept status v =
    let (passed, iov) = skip v.passed v.iov status in
    record { passed = passed; iov = iov; output = v.output ++ take status (joined v.iov) }

-- The round of the outer loop for one call of `writev`, and the rounds behind it.
abbrev pub after_call : (Vector → Option Errno × Vector) → Status → Vector → Option Errno × Vector
after_call next interrupted v = next v
after_call next failed v = (some Errno.ewrite_failed, v)
after_call next (wrote status) v =
    let rest = next (accept status v) in
    if ltb 0 status then rest else (some Errno.ewrite_failed, v)

-- `while (count > 0)`, with what the rounds from here on come to.
abbrev pub while_ranges : Vector → Option Errno × Vector → List Bytes → Option Errno × Vector
while_ranges v rounds [] = (some Errno.ok, v)
while_ranges v rounds (range ∷ iov) = rounds

-- `jp_file_writev`, on what its calls of `writev` come to; `none` is that the loop goes on behind them.
pub writev_loop : List Status → Vector → Option Errno × Vector
writev_loop [] v = while_ranges v (none, v) v.iov
writev_loop (status ∷ statuses) v =
    while_ranges v (after_call (writev_loop statuses) status v) v.iov

pub file_writev : List Status → List Bytes → Bytes → Option Errno × Vector
file_writev statuses iov output =
    writev_loop statuses (record { passed = []; iov = iov; output = output })
