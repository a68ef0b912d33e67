-- ===== src/Json/Prefix/Quotes.antt =====
-- Whether the quotes of a whole record pair up. A record is the prefix, the escaped message and the
-- postfix, in that order.
use jpipe.Common.{
  ℕ, ◌*◌, ◌≤◌, ◌≡◌, refl, ap, ◌∙◌, inl, inr, [], ◌∷◌, ◌++◌, none, some, length, Bytes, IsByte, All,
  codes,
}
use jpipe.Field.{FieldSet}
use jpipe.Field.Set.{IsFieldSet}
use jpipe.Json.Escape.{json_escape_mul, json_value_encoder}
use jpipe.Json.Escape.Bounds.{escape_all, IsBufferSize, json_value_encoder_all}
use jpipe.Json.Prefix.{json_prefix_encoder, json_postfix_encoder}
use jpipe.Json.Prefix.Size.{json_prefix_encoder_fits}
use jpipe.Json.Prefix.Scan.{
  outside, inside, next, scan, IsWellQuoted, resume, scan-append, scan_then, scan_inside,
  scan-prefix_text, scan_unquoted,
}

-- What the encoder gives the writer for one message: the three ranges that are written as one record.
abbrev pub record_text : FieldSet → Bytes → ℕ → Bytes
record_text set msg buf_len =
    (json_prefix_encoder set).dst
    ++ ((json_value_encoder msg buf_len).dst ++ (json_postfix_encoder set).dst)

-- The same with the opening quote of the message put in.
abbrev pub quoted_text : FieldSet → Bytes → ℕ → Bytes
quoted_text set msg buf_len =
    (json_prefix_encoder set).dst
    ++ (b'"' ∷ ((json_value_encoder msg buf_len).dst ++ (json_postfix_encoder set).dst))

module _ (set : FieldSet) (msg : Bytes) (buf_len : ℕ) (valid : IsFieldSet set) (few : set.len ≤ 32)
    (bytes : All IsByte msg) (size : IsBufferSize buf_len)
    (room : length msg * json_escape_mul ≤ buf_len) where
  scan_prefix : scan outside (json_prefix_encoder set).dst ≡ some outside
  scan_prefix =
      rw ((json_prefix_encoder_fits set valid few).0) (scan-prefix_text set.fields valid.fields)

  value : (json_value_encoder msg buf_len).dst ≡ escape_all msg
  value = (json_value_encoder_all msg buf_len bytes size room).0

  -- For a well-formed set of at most 32 fields, a message of bytes and a buffer of six bytes for
  -- each, the quotes of the record made of the prefix, the escaped message and the postfix do not
  -- pair up.
  pub record_text-not-IsWellQuoted : ¬ IsWellQuoted (record_text set msg buf_len)
  unfolding json_postfix_encoder
  record_text-not-IsWellQuoted w =
      let rest = escape_all msg ++ codes "\"}\n" in
      let e : scan outside (record_text set msg buf_len) ≡ scan outside rest =
        scan_then outside outside (json_prefix_encoder set).dst _ scan_prefix
        ∙ ap (λ v. scan outside (v ++ codes "\"}\n")) value in
      let stuck : scan outside rest ≡ none = elim (scan_unquoted msg bytes) [
        | inl k ↦
            scan-append outside (escape_all msg) (codes "\"}\n")
            ∙ ap (λ o. resume o (codes "\"}\n")) k
        | inr k ↦
            scan_then outside outside (escape_all msg) (codes "\"}\n") k ∙ unfold scan next in refl
      ] in
      cc (e, stuck, w)

  -- For a well-formed set of at most 32 fields, a message of bytes and a buffer of six bytes for
  -- each, the quotes of the record pair up if one quote more is put between the prefix and the
  -- escaped message.
  pub quoted_text-IsWellQuoted : IsWellQuoted (quoted_text set msg buf_len)
  unfolding json_postfix_encoder
  quoted_text-IsWellQuoted =
      scan_then outside outside (json_prefix_encoder set).dst _ scan_prefix
      ∙ scan_then outside inside (b'"' ∷ []) _ (unfold scan next in refl)
      ∙ ap (λ v. scan inside (v ++ codes "\"}\n")) value
      ∙ scan_then inside inside (escape_all msg) (codes "\"}\n") (scan_inside msg bytes)
      ∙ unfold scan next in refl
