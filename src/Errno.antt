-- ===== src/Errno.antt =====
-- include/jp_errno.h: the error codes. A function of the source that returns `jp_errno_t` returns an
-- `Errno` here; JP_OK is `ok`.
pub mod Context
pub mod Lengths
pub mod Fits
pub mod Print
mod Tests
use jpipe.Common.{ℕ, Bool, true, false}

pub data Errno : Type 0 where
  ok : Errno
  emissing_cmd eunknown_cmd eunknown_run_cmd : Errno
  echunk_size ebuffer_size eoverflow_policy eout_dir : Errno
  etoo_many_field einv_field_key einv_field_val : Errno
  eshutting_down emsg_should_drop etryagain : Errno
  erun_failed enomemory eread_failed ewrite_failed esys_err : Errno

-- `err == 0`.
abbrev pub is_ok : Errno → Bool
is_ok Errno.ok = true
is_ok e = false

-- The value of the enumeration.
abbrev pub errno_code : Errno → ℕ
errno_code Errno.ok = 0
errno_code Errno.emissing_cmd = 1
errno_code Errno.eunknown_cmd = 2
errno_code Errno.eunknown_run_cmd = 3
errno_code Errno.echunk_size = 4
errno_code Errno.ebuffer_size = 5
errno_code Errno.eoverflow_policy = 6
errno_code Errno.eout_dir = 7
errno_code Errno.etoo_many_field = 8
errno_code Errno.einv_field_key = 9
errno_code Errno.einv_field_val = 10
errno_code Errno.eshutting_down = 11
errno_code Errno.emsg_should_drop = 12
errno_code Errno.etryagain = 13
errno_code Errno.erun_failed = 14
errno_code Errno.enomemory = 15
errno_code Errno.eread_failed = 16
errno_code Errno.ewrite_failed = 17
errno_code Errno.esys_err = 18
