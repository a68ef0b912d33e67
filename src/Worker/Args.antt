-- ===== src/Worker/Args.antt =====
-- Which sizes `jpipe run` accepts.
use jpipe.Common.{◌*◌, ◌≤◌, ◌≡◌, ◌≢◌, ◌⊎◌, false, some, arith, length, Bytes, equal_iff, codes}
use jpipe.Errno.{Errno}
use jpipe.Worker.{WorkerCtx, Number, chunk_size_of, set_chunk_size, set_buffer_size}

-- `strtoull` has read a number that fits.
abbrev pub IsRead : Number → Bytes → Type 0
IsRead number arg = (number.bad ≡ false) × (length number.end_ptr ≢ length arg)

-- A number from 1 to 128, and then `kb`.
abbrev pub IsChunkSize : Number → Bytes → Type 0
IsChunkSize number arg =
    IsRead number arg × (number.end_ptr ≡ codes "kb") × (1 ≤ number.param) × (number.param ≤ 128)

-- A number from 1 to 1024, and nothing behind it.
abbrev pub IsBufferNumber : Number → Bytes → Type 0
IsBufferNumber number arg =
    IsRead number arg × (length number.end_ptr ≡ 0) × (1 ≤ number.param) × (number.param ≤ 1024)

module _ (strtoull : Bytes → Number) (arg : Bytes) (ctx : WorkerCtx) where
  -- set_chunk_size accepts an argument exactly where strtoull reads a number from 1 to 128 in
  -- front of kb, and sets the chunk size to so many times 1024; every other argument is an error
  -- that changes nothing.
  pub set_chunk_size-IsChunkSize :
      (IsChunkSize (strtoull arg) arg
        × (set_chunk_size strtoull (some arg) ctx
            ≡ (Errno.ok, record ctx { chunk_size = (strtoull arg).param * 1024 })))
      ⊎ ((¬ IsChunkSize (strtoull arg) arg)
          × (set_chunk_size strtoull (some arg) ctx ≡ (Errno.echunk_size, ctx)))
  unfolding set_chunk_size chunk_size_of
  set_chunk_size-IsChunkSize = ground (arith, equal_iff (strtoull arg).end_ptr (codes "kb"))

  -- set_buffer_size accepts an argument exactly where strtoull reads a number from 1 to 1024 with
  -- nothing behind it, and sets the buffer size to it; every other argument is an error that
  -- changes nothing.
  pub set_buffer_size-IsBufferNumber :
      (IsBufferNumber (strtoull arg) arg
        × (set_buffer_size strtoull (some arg) ctx
            ≡ (Errno.ok, record ctx { buffer_size = (strtoull arg).param })))
      ⊎ ((¬ IsBufferNumber (strtoull arg) arg)
          × (set_buffer_size strtoull (some arg) ctx ≡ (Errno.ebuffer_size, ctx)))
  unfolding set_buffer_size
  set_buffer_size-IsBufferNumber = ground arith

  -- set_chunk_size accepts an argument exactly where strtoull reads a number from 1 to 128 in
  -- front of kb, and sets the chunk size to so many times 1024; set_buffer_size accepts one
  -- exactly where strtoull reads a number from 1 to 1024 with nothing behind it, and sets the
  -- buffer size to it; every other argument is an error that changes nothing.
  pub size_arguments :
      ((IsChunkSize (strtoull arg) arg
          × (set_chunk_size strtoull (some arg) ctx
              ≡ (Errno.ok, record ctx { chunk_size = (strtoull arg).param * 1024 })))
        ⊎ ((¬ IsChunkSize (strtoull arg) arg)
            × (set_chunk_size strtoull (some arg) ctx ≡ (Errno.echunk_size, ctx))))
      × ((IsBufferNumber (strtoull arg) arg
            × (set_buffer_size strtoull (some arg) ctx
                ≡ (Errno.ok, record ctx { buffer_size = (strtoull arg).param })))
          ⊎ ((¬ IsBufferNumber (strtoull arg) arg)
              × (set_buffer_size strtoull (some arg) ctx ≡ (Errno.ebuffer_size, ctx))))
  size_arguments = (set_chunk_size-IsChunkSize, set_buffer_size-IsBufferNumber)
