-- ===== src/File/Caller.antt =====
-- What `jp_file_writev` leaves in the array of its caller, who passes it again for the next record.
use jpipe.Common.{
  ℕ, ◌+◌, ◌≤◌, ◌<◌, ◌≡◌, List, [], ◌∷◌, ◌++◌, arith, length, length-drop, drop, Bytes,
}
use jpipe.File.{wrote, Vector, skip, accept, writev_loop, file_writev}

-- The ranges of the array behind the call.
abbrev pub caller_ranges : Vector → List Bytes
caller_ranges v = v.passed ++ v.iov

-- Where the first call of writev ends inside the first of three ranges and the second writes the
-- rest, the array that jp_file_writev leaves to its caller begins with the rest of the first
-- range.
pub file_writev-caller_ranges :
    (prefix value postfix output : Bytes) (n m : ℕ)
    → 0 < n
    → n < length prefix
    → length prefix + length value + length postfix ≤ n + m
    → caller_ranges (file_writev (wrote n ∷ wrote m ∷ []) (prefix ∷ value ∷ postfix ∷ []) output).1
      ≡ drop n prefix ∷ value ∷ postfix ∷ []
unfolding file_writev writev_loop accept skip
file_writev-caller_ranges prefix value postfix output n m pos short enough =
    ground (arith, length-drop n prefix)
