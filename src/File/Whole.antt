-- ===== src/File/Whole.antt =====
-- A record that one call of `writev` takes whole leaves the array as it was.
use jpipe.Common.{
  take_all, ℕ, ◌+◌, ◌-◌, ◌<◌, ◌≡◌, refl, sym, ap, ◌∙◌, true, List, [], ◌∷◌, ◌++◌, append-nil,
  append_assoc, some, arith, leb, ltb, length, length-append, take, Bytes, joined,
}
use jpipe.Errno.{Errno}
use jpipe.File.{wrote, skip, accept, writev_loop, file_writev}

skip-whole :
    (passed iov : List Bytes) (n : ℕ)
    → n ≡ length (joined iov)
    → skip passed iov n ≡ (passed ++ iov, [])
unfolding joined skip
skip-whole passed [] n e = ap (λ p. (p, [])) (sym (append-nil passed))
skip-whole passed (range ∷ iov) n e =
    let size = length-append range (joined iov) in
    let whole : leb (length range) n ≡ true = ground (arith, e, size) in
    rw whole (
      skip-whole (passed ++ range ∷ []) iov (n - length range) (omega (arith, e, size))
      ∙ ap (λ p. (p, [])) (append_assoc passed (range ∷ []) iov))

-- One call that writes all the ranges.
pub file_writev-whole :
    (range : Bytes) (iov : List Bytes) (output : Bytes)
    → 0 < length range
    → file_writev (wrote (length (joined (range ∷ iov))) ∷ []) (range ∷ iov) output ≡ (
      some Errno.ok,
      record { passed = range ∷ iov; iov = []; output = output ++ joined (range ∷ iov) },
    )
unfolding file_writev writev_loop accept
file_writev-whole range iov output h =
    let n = length (joined (range ∷ iov)) in
    let size : n ≡ length range + length (joined iov) =
      unfold joined in length-append range (joined iov) in
    let some_bytes : ltb 0 n ≡ true = ground (arith, h, size) in
    let all : take n (joined (range ∷ iov)) ≡ joined (range ∷ iov) =
      take_all (joined (range ∷ iov)) n refl in
    rw (some_bytes, skip-whole [] (range ∷ iov) n refl, all) refl
