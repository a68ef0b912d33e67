-- ===== src/Writer/Output.antt =====
-- What `jp_writer_produce` does with a line: it is encoded into `encoded_value`, and the three ranges of
-- `iov` are written.
pub mod Records
use mathlib.Core.Option
use jpipe.Common.{
  ℕ, ◌+◌, ◌-◌, ◌*◌, ◌%◌, ◌^◌, List, [], ◌∷◌, ◌++◌, Option, none, some, length, take, drop, Bytes,
  joined,
}
use jpipe.Errno.{Errno}
use jpipe.Field.{FieldSet}
use jpipe.File.{Status, wrote, Vector, file_writev}
use jpipe.File.Caller.{caller_ranges}
use jpipe.Json.Escape.{json_escape_mul, json_value_encoder}
use jpipe.Json.Prefix.{json_prefix_encoder, json_postfix_encoder}
use jpipe.Writer.{Sink}

-- `prefix` and `postfix` are the ranges of `iov[0]` and `iov[2]`, `skew` is how far `iov[1].iov_base`
-- stands behind `encoded_value`, which holds `encoded`. `calls` are the calls of `writev` for the
-- records to come that do not write all that is left; behind them one call writes the rest.
pub record Target : Type 0 where
  pub prefix : Bytes
  pub postfix : Bytes
  pub skew : ℕ
  pub encoded : Bytes
  pub output : Bytes
  pub calls : List (List Status)

abbrev pub next_calls : List (List Status) → List Status
next_calls [] = []
next_calls (statuses ∷ calls) = statuses

abbrev pub later_calls : List (List Status) → List (List Status)
later_calls [] = []
later_calls (statuses ∷ calls) = calls

-- Behind a call that writes the rest there is a result.
abbrev pub settled : Option Errno → Errno
settled none = Errno.ok
settled (some err) = err

-- The ranges as `jp_file_writev` leaves them; the second had `len` bytes.
abbrev pub moved : Target → ℕ → List Bytes → Target
moved t len (prefix ∷ value ∷ postfix ∷ []) = record t {
  prefix = prefix;
  postfix = postfix;
  skew = t.skew + (len - length value);
}
moved t len ranges = t

-- The call of the value encoder, and `iov[1].iov_len`.
unfoldable pub iov_of : ℕ → Bytes → Target → List Bytes
iov_of buf_len line t =
    let value = json_value_encoder line buf_len in
    let encoded = value.dst ++ drop value.dst_ptr t.encoded in
    t.prefix ∷ take value.dst_ptr (drop t.skew encoded) ∷ t.postfix ∷ []

-- What is left behind `jp_file_writev`.
abbrev pub after_write : Target → ℕ → Option Errno × Vector → Errno × Target
after_write t len (err, v) = (
  settled err,
  moved (record t { output = v.output; calls = later_calls t.calls }) len (caller_ranges v),
)

unfoldable pub write_record : ℕ → Bytes → Target → Errno × Target
write_record buf_len line t =
    let value = json_value_encoder line buf_len in
    let encoded = value.dst ++ drop value.dst_ptr t.encoded in
    let iov = iov_of buf_len line t in
    let statuses = next_calls t.calls ++ wrote (length (joined iov)) ∷ [] in
    after_write (record t { encoded = encoded }) value.dst_ptr (file_writev statuses iov t.output)

abbrev pub buf_len_of : ℕ → ℕ
buf_len_of chunk_size = chunk_size * json_escape_mul % 2 ^ 64

abbrev pub json_sink : ℕ → Sink Target
json_sink chunk_size = record { write = write_record (buf_len_of chunk_size) }

-- What `jp_writer_produce` sets up in front of its loop.
abbrev pub new_target : FieldSet → Bytes → List (List Status) → Target
new_target set output calls = record {
  prefix = (json_prefix_encoder set).dst;
  postfix = (json_postfix_encoder set).dst;
  skew = 0;
  encoded = [];
  output = output;
  calls = calls;
}
