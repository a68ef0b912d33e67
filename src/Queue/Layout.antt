-- ===== src/Queue/Layout.antt =====
-- Where `jp_queue_create` puts the blocks' ranges in the one object that it allocates.
use jpipe.Common.{ℕ, ◌+◌, ◌*◌, ◌^◌, ◌≤◌, ◌<◌, arith, add_size}

mul_le : (a b c d : ℕ) → a ≤ b → c ≤ d → a * c ≤ b * d
mul_le a b c d h k = grind arith

-- `sizeof(jp_queue_t)` and `sizeof(jp_block_t)` are the compiler's.
module _ (queue_bytes block_bytes : ℕ) where
  pub area_offset : ℕ → ℕ
  area_offset capacity = add_size queue_bytes (capacity * block_bytes)

  pub total_size : ℕ → ℕ → ℕ
  total_size capacity chunk_size = add_size (area_offset capacity) (capacity * chunk_size)

  -- `queue->blocks[i].data`, as an offset from the queue.
  pub data_offset : ℕ → ℕ → ℕ → ℕ
  data_offset capacity chunk_size i = add_size (area_offset capacity) (i * chunk_size)

  -- With the limits of the command line and types of at most 2^16 bytes, the range of each block
  -- of jp_queue_create lies behind the array of blocks and inside the allocated object, and the
  -- ranges of two blocks do not overlap.
  pub data_offset_bounds :
      (capacity chunk_size i j : ℕ)
      → queue_bytes ≤ 2 ^ 16
      → block_bytes ≤ 2 ^ 16
      → capacity ≤ 1024
      → chunk_size ≤ 131072
      → i < capacity
      → j < i
      → (queue_bytes + capacity * block_bytes ≤ data_offset capacity chunk_size i)
        × (data_offset capacity chunk_size i + chunk_size ≤ total_size capacity chunk_size)
        × (data_offset capacity chunk_size j + chunk_size ≤ data_offset capacity chunk_size i)
  unfolding data_offset total_size area_offset
  data_offset_bounds capacity chunk_size i j hq hb hc hs lt lt' =
      let array = mul_le capacity 1024 block_bytes (2 ^ 16) hc hb in
      let area = mul_le capacity 1024 chunk_size 131072 hc hs in
      let after_i = mul_le (i + 1) capacity chunk_size chunk_size (omega arith) (omega arith) in
      let after_j = mul_le (j + 1) i chunk_size chunk_size (omega arith) (omega arith) in
      omega arith
