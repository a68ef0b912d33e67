-- ===== src/Queue/Pending.antt =====
-- The committed blocks of a queue, oldest first: those at `head`, `head + 1`, … round the ring.
use native.Mathlib.Nat.{mod-add-mod, mod-eq_of_lt, mod-eq-sub-mod, add-zero}
use native.Mathlib.Decide.{dec_lt}
use jpipe.Common.{
  ℕ, zero, suc, ◌+◌, ◌-◌, ◌%◌, ◌<◌, ◌≡◌, refl, sym, ap, ap₂, ◌∙◌, ◌≢◌, List, [], ◌∷◌, ◌++◌, arith,
  get_or, set, get_or-set_ne,
}
use jpipe.Queue.{Block, empty_block}

abbrev pub block_at : List Block → ℕ → Block
block_at blocks i = get_or blocks i empty_block

abbrev pub pending : List Block → ℕ → ℕ → ℕ → List Block
pending blocks capacity h zero = []
pending blocks capacity h (suc n) =
    block_at blocks h ∷ pending blocks capacity ((h + 1) % capacity) n

pub mod-next : (capacity h n : ℕ) → ((h + 1) % capacity + n) % capacity ≡ (h + suc n) % capacity
mod-next capacity h n = mod-add-mod (h + 1) capacity n ∙ ap (λ k. k % capacity) (omega arith)

round_start : (capacity h : ℕ) → h < capacity → h ≡ (h + 0) % capacity
round_start capacity h lt = rw add-zero (sym (mod-eq_of_lt lt))

-- One block more is the block behind the last.
pub pending-suc :
    (blocks : List Block) (capacity h n : ℕ)
    → h < capacity
    → pending blocks capacity h (suc n)
      ≡ pending blocks capacity h n ++ block_at blocks ((h + n) % capacity) ∷ []
pending-suc blocks capacity h zero lt = ap (λ i. block_at blocks i ∷ []) (round_start capacity h lt)
pending-suc blocks capacity h (suc n) lt =
    ap (λ bs. block_at blocks h ∷ bs)
      (pending-suc blocks capacity ((h + 1) % capacity) n (omega arith)
        ∙ ap (λ i. pending blocks capacity ((h + 1) % capacity) n ++ block_at blocks i ∷ [])
            (mod-next capacity h n))

-- A step of less than a whole round does not end where it began.
pub round-ne : (capacity h k : ℕ) → h < capacity → 0 < k → k < capacity → (h + k) % capacity ≢ h
round-ne capacity h k lt pos less = elim (dec_lt (h + k) capacity) [
  | yes short ↦ omega (arith, mod-eq_of_lt short)
  | no long ↦ omega (
    arith,
    mod-eq-sub-mod {n = h + k} {m = capacity} (omega arith),
    mod-eq_of_lt {n = h + k - capacity} {m = capacity} (omega arith),
  )
]

-- Writing the block behind the last changes none of them.
pub pending-set :
    (blocks : List Block) (capacity h n i : ℕ) (b : Block)
    → h < capacity
    → n < capacity
    → i ≡ (h + n) % capacity
    → pending (set blocks i b) capacity h n ≡ pending blocks capacity h n
pending-set blocks capacity h zero i b lt less e = refl
pending-set blocks capacity h (suc n) i b lt less e =
    ap₂ ◌∷◌
      (get_or-set_ne blocks b empty_block
        (λ k. round-ne capacity h (suc n) lt (omega arith) less (sym e ∙ k)))
      (pending-set blocks capacity ((h + 1) % capacity) n i b (omega arith) (omega arith)
        (e ∙ sym (mod-next capacity h n)))
