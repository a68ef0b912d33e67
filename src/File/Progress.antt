-- ===== src/File/Progress.antt =====
-- Whatever parts the operating system takes, `jp_file_writev` writes the bytes of the ranges in order.
use jpipe.Common.{
  ℕ, zero, suc, ◌-◌, ◌≤◌, ◌<◌, ◌≡◌, refl, sym, ap, ◌∙◌, ◌⊎◌, inl, inr, true, false, List, [], ◌∷◌,
  ◌++◌, append_assoc, append-nil, Option, none, some, arith, leb, ltb, leb→le, lt→ltb, Bool-cases,
  length, length-append, length-drop, take, drop, take-append-drop, Bytes, All, joined,
}
use jpipe.Errno.{Errno}
use jpipe.File.{
  Status, wrote, interrupted, failed, Vector, shorten, skip, accept, after_call, while_ranges,
  writev_loop, file_writev,
}

drop-append_long : (r s : Bytes) (n : ℕ) → length r ≤ n → drop n (r ++ s) ≡ drop (n - length r) s
drop-append_long [] s n h = ap (λ k. drop k s) (omega arith)
drop-append_long (x ∷ r) s zero h = absurd (omega arith)
drop-append_long (x ∷ r) s (suc n) h =
    drop-append_long r s n (omega arith) ∙ ap (λ k. drop k s) (omega arith)

drop-append_short : (r s : Bytes) (n : ℕ) → n < length r → drop n (r ++ s) ≡ drop n r ++ s
drop-append_short [] s n h = absurd (omega arith)
drop-append_short (x ∷ r) s zero h = refl
drop-append_short (x ∷ r) s (suc n) h = drop-append_short r s n (omega arith)

skip-drop : (passed iov : List Bytes) (n : ℕ) → joined (skip passed iov n).1 ≡ drop n (joined iov)
unfolding skip joined
skip-drop passed [] zero = refl
skip-drop passed [] (suc n) = refl
skip-drop passed (range ∷ iov) n = elim (Bool-cases (leb (length range) n)) [
  | inl whole ↦ rw whole (
      skip-drop (passed ++ range ∷ []) iov (n - length range)
      ∙ sym (drop-append_long range (joined iov) n (leb→le (length range) n whole)))
  | inr part ↦ rw part (rest (Bool-cases (ltb 0 n)) (ground arith))
]
  where
    rest :
        (ltb 0 n ≡ true) ⊎ (ltb 0 n ≡ false)
        → n < length range
        → joined (shorten passed range iov n).1 ≡ drop n (range ++ joined iov)
    rest (inl some_bytes) lt = rw some_bytes (sym (drop-append_short range (joined iov) n lt))
    rest (inr no_bytes) lt =
        let zero_bytes : n ≡ 0 = ground arith in
        rw no_bytes (ap (λ k. drop k (range ++ joined iov)) (sym zero_bytes))

-- The first range to come is not empty.
abbrev pub IsReady : List Bytes → Type 0
IsReady [] = Unit
IsReady (range ∷ iov) = 0 < length range

skip-IsReady : (passed iov : List Bytes) (n : ℕ) → IsReady (skip passed iov n).1
unfolding skip
skip-IsReady passed [] n = tt
skip-IsReady passed (range ∷ iov) n = elim (Bool-cases (leb (length range) n)) [
  | inl whole ↦ rw whole (skip-IsReady (passed ++ range ∷ []) iov (n - length range))
  | inr part ↦ rw part (rest (Bool-cases (ltb 0 n)) (ground arith))
]
  where
    rest :
        (ltb 0 n ≡ true) ⊎ (ltb 0 n ≡ false)
        → n < length range
        → IsReady (shorten passed range iov n).1
    rest (inl some_bytes) lt = rw some_bytes (omega (arith, length-drop n range))
    rest (inr no_bytes) lt = rw no_bytes (omega arith)

-- No byte is lost, changed or moved: what is written and what is to come stay the same text.
abbrev pub Kept : Vector → Vector → Type 0
Kept v v' = v'.output ++ joined v'.iov ≡ v.output ++ joined v.iov

accept-Kept : (n : ℕ) (v : Vector) → Kept v (accept n v)
unfolding accept
accept-Kept n v =
    ap (λ t. (v.output ++ take n (joined v.iov)) ++ t) (skip-drop v.passed v.iov n)
    ∙ append_assoc v.output (take n (joined v.iov)) (drop n (joined v.iov))
    ∙ ap (λ t. v.output ++ t) (take-append-drop n (joined v.iov))

-- What a call returns, or where it stands.
abbrev pub WriteResult : Vector → Option Errno × Vector → Type 0
WriteResult v (some Errno.ok, v') = (v'.iov ≡ []) × (v'.output ≡ v.output ++ joined v.iov)
WriteResult v (some e, v') = (e ≡ Errno.ewrite_failed) × Kept v v'
WriteResult v (none, v') = Kept v v'

WriteResult-later :
    (v v' : Vector) → Kept v v' → (r : Option Errno × Vector) → WriteResult v' r → WriteResult v r
WriteResult-later v v' k (none, w) h = h ∙ k
WriteResult-later v v' k (some Errno.ok, w) h = (h.0, h.1 ∙ k)
WriteResult-later v v' k (some _, w) h = (h.0, h.1 ∙ k)

while_ranges-WriteResult :
    (v : Vector) (rounds : Option Errno × Vector) (iov : List Bytes)
    → v.iov ≡ iov
    → WriteResult v rounds
    → WriteResult v (while_ranges v rounds iov)
unfolding joined
while_ranges-WriteResult v rounds [] e h =
    (e, sym (append-nil v.output) ∙ ap (λ iov. v.output ++ joined iov) (sym e))
while_ranges-WriteResult v rounds (range ∷ iov) e h = h

after_call-WriteResult :
    (next : Vector → Option Errno × Vector)
    → ((v : Vector) → WriteResult v (next v))
    → (status : Status) (v : Vector) → WriteResult v (after_call next status v)
after_call-WriteResult next ih interrupted v = ih v
after_call-WriteResult next ih failed v = (refl, refl)
after_call-WriteResult next ih (wrote n) v = elim (Bool-cases (ltb 0 n)) [
  | inl some_bytes ↦
      rw some_bytes
        (WriteResult-later v (accept n v) (accept-Kept n v) (next (accept n v)) (ih (accept n v)))
  | inr no_bytes ↦ rw no_bytes (refl, refl)
]

writev_loop-WriteResult :
    (statuses : List Status) (v : Vector) → WriteResult v (writev_loop statuses v)
unfolding writev_loop
writev_loop-WriteResult [] v = while_ranges-WriteResult v (none, v) v.iov refl refl
writev_loop-WriteResult (status ∷ statuses) v =
    while_ranges-WriteResult v (after_call (writev_loop statuses) status v) v.iov refl
      (after_call-WriteResult (writev_loop statuses) (writev_loop-WriteResult statuses) status v)

-- Whatever the calls of writev come to, jp_file_writev returns JP_OK only when the output has
-- received all the ranges in order, its only error is JP_EWRITE_FAILED, and at any time what the
-- output has received and what the array still holds are the text of the ranges.
pub file_writev-WriteResult :
    (statuses : List Status) (iov : List Bytes) (output : Bytes)
    → WriteResult
        (record { passed = []; iov = iov; output = output })
        (file_writev statuses iov output)
unfolding file_writev
file_writev-WriteResult statuses iov output = writev_loop-WriteResult statuses _

-- A call that writes at least one byte.
abbrev pub IsWrite : Status → Type 0
IsWrite (wrote n) = 0 < n
IsWrite _ = ⊥

ready_empty : (iov : List Bytes) → IsReady iov → length (joined iov) ≡ 0 → iov ≡ []
unfolding joined
ready_empty [] r e = refl
ready_empty (range ∷ iov) r e = absurd (omega (arith, length-append range (joined iov)))

accept-length : (n : ℕ) (v : Vector) → length (joined (accept n v).iov) ≡ length (joined v.iov) - n
unfolding accept
accept-length n v = ap length (skip-drop v.passed v.iov n) ∙ length-drop n (joined v.iov)

accept-IsReady : (n : ℕ) (v : Vector) → IsReady (accept n v).iov
unfolding accept
accept-IsReady n v = skip-IsReady v.passed v.iov n

while_ranges_ends :
    (v : Vector) (rounds : Option Errno × Vector) (iov : List Bytes)
    → rounds.0 ≡ some Errno.ok
    → (while_ranges v rounds iov).0 ≡ some Errno.ok
while_ranges_ends v rounds [] h = refl
while_ranges_ends v rounds (range ∷ iov) h = h

writev_loop_ends :
    (statuses : List Status) (v : Vector)
    → All IsWrite statuses
    → IsReady v.iov
    → length (joined v.iov) ≤ length statuses
    → (writev_loop statuses v).0 ≡ some Errno.ok
unfolding writev_loop
writev_loop_ends [] v w r enough = rw (ready_empty v.iov r (omega arith)) refl
writev_loop_ends (wrote n ∷ statuses) v w r enough = while_ranges_ends v _ v.iov (
    rw (lt→ltb 0 n w.0) (
      writev_loop_ends statuses (accept n v) w.1 (accept-IsReady n v)
        (omega (arith, accept-length n v, w.0))))
writev_loop_ends (_ ∷ statuses) v w r enough = absurd (w.0)

-- Where the first range is not empty, no call fails or is interrupted and each writes a byte at
-- least, as many calls as there are bytes are enough for jp_file_writev to return JP_OK.
pub file_writev_ends :
    (statuses : List Status) (iov : List Bytes) (output : Bytes)
    → All IsWrite statuses
    → IsReady iov
    → length (joined iov) ≤ length statuses
    → (file_writev statuses iov output).0 ≡ some Errno.ok
unfolding file_writev
file_writev_ends statuses iov output w r enough = writev_loop_ends statuses _ w r enough
