-- ===== src/File/Tests.antt =====
-- Three ranges written in parts, and the theorems at them.
use jpipe.Common.{◌≡◌, refl, [], ◌∷◌, List, some, arith, Bytes, codes, joined}
use jpipe.Errno.{Errno}
use jpipe.File.{wrote, interrupted, failed, skip, accept, writev_loop, file_writev}
use jpipe.File.Progress.{WriteResult, file_writev-WriteResult, file_writev_ends}
use jpipe.File.Caller.{caller_ranges, file_writev-caller_ranges}

abbrev ranges : List Bytes
ranges = codes "{" ∷ codes "ab" ∷ codes "}" ∷ []

in_parts : file_writev (wrote 2 ∷ interrupted ∷ wrote 2 ∷ []) ranges [] ≡ (
  some Errno.ok,
  record { passed = codes "{" ∷ codes "b" ∷ codes "}" ∷ []; iov = []; output = codes "{ab}" },
)
unfolding file_writev writev_loop accept skip joined
in_parts = refl

failed_later : file_writev (wrote 2 ∷ failed ∷ []) ranges [] ≡ (
  some Errno.ewrite_failed,
  record { passed = codes "{" ∷ []; iov = codes "b" ∷ codes "}" ∷ []; output = codes "{a" },
)
unfolding file_writev writev_loop accept skip joined
failed_later = refl

file_writev-WriteResult_example :
    WriteResult
      (record { passed = []; iov = ranges; output = [] })
      (file_writev (wrote 2 ∷ interrupted ∷ wrote 2 ∷ []) ranges [])
file_writev-WriteResult_example =
    file_writev-WriteResult (wrote 2 ∷ interrupted ∷ wrote 2 ∷ []) ranges []

file_writev_ends_example :
    (file_writev (wrote 1 ∷ wrote 1 ∷ wrote 1 ∷ wrote 1 ∷ []) ranges []).0 ≡ some Errno.ok
unfolding joined
file_writev_ends_example =
    file_writev_ends (wrote 1 ∷ wrote 1 ∷ wrote 1 ∷ wrote 1 ∷ []) ranges [] (omega arith)
      (omega arith) (omega arith)

file_writev-caller_ranges_example :
    caller_ranges
      (file_writev (wrote 1 ∷ wrote 3 ∷ []) (codes "{a" ∷ codes "b" ∷ codes "}" ∷ []) []).1
    ≡ codes "a" ∷ codes "b" ∷ codes "}" ∷ []
file_writev-caller_ranges_example =
    file_writev-caller_ranges (codes "{a") (codes "b") (codes "}") [] 1 3 (omega arith)
      (omega arith) (omega arith)
