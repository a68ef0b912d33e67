-- ===== src/Writer/Output/Records.antt =====
-- Where no call of `writev` is short, the output is the records of the lines.
use jpipe.Common.{
  ℕ, zero, suc, ◌*◌, ◌<◌, ◌≤◌, ◌≡◌, refl, sym, ap, ap₂, ◌∙◌, List, [], ◌∷◌, ◌++◌, map, append-nil,
  append_assoc, some, arith, Bool-cases, inl, inr, length, length-append, take, drop, Bytes, IsByte,
  All, joined, ◌==◌, All-append,
}
use jpipe.Errno.{Errno}
use jpipe.Field.{FieldSet}
use jpipe.File.{wrote, file_writev}
use jpipe.Json.Escape.{json_value_encoder}
use jpipe.Json.Escape.Bounds.{IsBufferSize, json_value_encoder-Encodes}
use jpipe.Json.Escape.{put, start}
use jpipe.Json.Prefix.{msg_key, put_fields, json_prefix_encoder, json_postfix_encoder}
use jpipe.File.Whole.{file_writev-whole}
use jpipe.Json.Prefix.Quotes.{record_text}
use jpipe.Writer.{writer_produce}
use jpipe.Writer.Lines.{send}
use jpipe.Writer.Text.{cut_text, lines_of, ShortCut}
use jpipe.Writer.Produce.{BlocksFit, returned}
use jpipe.Writer.Stream.{writer_produce-lines_of}
use jpipe.Writer.Output.{
  Target, iov_of, after_write, write_record, buf_len_of, json_sink, new_target,
}

take-append_exact : (s t : Bytes) (n : ℕ) → n ≡ length s → take n (s ++ t) ≡ s
take-append_exact [] t zero e = refl
take-append_exact [] t (suc n) e = absurd (omega arith)
take-append_exact (x ∷ s) t zero e = absurd (omega arith)
take-append_exact (x ∷ s) t (suc n) e = ap (λ u. x ∷ u) (take-append_exact s t n (omega arith))

three : (a b c : Bytes) → joined (a ∷ b ∷ c ∷ []) ≡ a ++ (b ++ c)
unfolding joined
three a b c = ap (λ t. a ++ (b ++ t)) (append-nil c)

-- The state between records where no call is short: the array is as it was set up.
abbrev pub settled_target : FieldSet → Bytes → Bytes → Target
settled_target set encoded output = record {
  prefix = (json_prefix_encoder set).dst;
  postfix = (json_postfix_encoder set).dst;
  skew = 0;
  encoded = encoded;
  output = output;
  calls = [];
}

prefix_some : (set : FieldSet) → 0 < length (json_prefix_encoder set).dst
unfolding json_prefix_encoder
prefix_some set =
    omega (arith, length-append (put_fields (put start b'{') set.fields).dst (take 6 msg_key))

module _ (set : FieldSet) (buf_len : ℕ) (size : IsBufferSize buf_len) where
  -- The second range is what the encoder has written.
  iov_of-whole :
      (line encoded output : Bytes)
      → All IsByte line
      → iov_of buf_len line (settled_target set encoded output)
        ≡ (json_prefix_encoder set).dst
          ∷ (json_value_encoder line buf_len).dst
          ∷ (json_postfix_encoder set).dst
          ∷ []
  unfolding iov_of
  iov_of-whole line encoded output h =
      let value = json_value_encoder line buf_len in
      let counted = (json_value_encoder-Encodes line buf_len h size).output.counted in
      ap (λ v. (json_prefix_encoder set).dst ∷ v ∷ (json_postfix_encoder set).dst ∷ [])
        (take-append_exact value.dst (drop value.dst_ptr encoded) value.dst_ptr counted)

  write_record-whole :
      (line encoded output : Bytes)
      → All IsByte line
      → (encoded' : Bytes) × (write_record buf_len line (settled_target set encoded output)
          ≡ (Errno.ok, settled_target set encoded' (output ++ record_text set line buf_len)))
  unfolding write_record
  write_record-whole line encoded output h =
      let value = json_value_encoder line buf_len in
      let encoded' = value.dst ++ drop value.dst_ptr encoded in
      let t = record (settled_target set encoded output) { encoded = encoded' } in
      let counted = (json_value_encoder-Encodes line buf_len h size).output.counted in
      let prefix = (json_prefix_encoder set).dst in
      let postfix = (json_postfix_encoder set).dst in
      (
        encoded',
        ap
              (λ iov.
                after_write t value.dst_ptr
                  (file_writev (wrote (length (joined iov)) ∷ []) iov output))
              (iov_of-whole line encoded output h)
            ∙ ap (after_write t value.dst_ptr)
                (file_writev-whole prefix (value.dst ∷ postfix ∷ []) output (prefix_some set))
            ∙ ap₂ (λ skew text. (Errno.ok, record t { skew = skew; output = output ++ text }))
                (omega (arith, counted)) (three prefix value.dst postfix),
      )

  send-records :
      (lines : List Bytes) (encoded output : Bytes)
      → All (λ line. All IsByte line) lines
      → (encoded' : Bytes) × (send
            (record { write = write_record buf_len })
            lines
            (settled_target set encoded output)
          ≡ (
            Errno.ok,
            settled_target set encoded'
                (output ++ joined (map (λ line. record_text set line buf_len) lines)),
          ))
  unfolding send joined
  send-records [] encoded output h =
      (encoded, ap (λ o. (Errno.ok, settled_target set encoded o)) (sym (append-nil output)))
  send-records (line ∷ lines) encoded output h =
      let (e1, first) = write_record-whole line encoded output h.0 in
      let text = record_text set line buf_len in
      let (e2, rest) = send-records lines e1 (output ++ text) h.1 in
      (
        e2,
        rw first
            (rest ∙ ap (λ o. (Errno.ok, settled_target set e2 o)) (append_assoc output text _)),
      )

-- The lines of a text of bytes are bytes.
cut_text-IsByte :
    (part s : Bytes)
    → All IsByte part
    → All IsByte s
    → All (λ line. All IsByte line) (cut_text part s).0
unfolding cut_text
cut_text-IsByte part [] p h = tt
cut_text-IsByte part (c ∷ s) p h = elim (Bool-cases (c == b'\n')) [
  | inl newline ↦ rw newline (p, cut_text-IsByte [] s tt h.1)
  | inr byte ↦
      rw byte (cut_text-IsByte (part ++ c ∷ []) s (All-append IsByte part (c ∷ []) p (h.0, tt)) h.1)
]

-- Where chunk_size is at most 131072, the blocks are bytes and no longer than that, every line and
-- what stands behind the last newline are shorter than chunk_size and no call of writev is short,
-- jp_writer_produce with the JSON encoder returns JP_OK and the output grows by the records of the
-- complete lines, one behind the other.
pub writer_produce-records :
    (set : FieldSet) (chunk_size : ℕ) (blocks : List Bytes) (output : Bytes)
    → chunk_size ≤ 131072
    → BlocksFit chunk_size blocks
    → All IsByte (joined blocks)
    → ShortCut chunk_size (cut_text [] (joined blocks))
    → (t : Target) × (writer_produce
          (json_sink chunk_size)
          chunk_size
          blocks
          (new_target set output [])
        ≡ some (Errno.ok, t))
      × (t.output
          ≡ output
            ++ joined
                (map (λ line. record_text set line (chunk_size * 6)) (lines_of (joined blocks))))
writer_produce-records set chunk_size blocks output small b h short =
    let lines = lines_of (joined blocks) in
    let exact : buf_len_of chunk_size ≡ chunk_size * 6 = omega arith in
    let (encoded, sent) =
      send-records set (chunk_size * 6) (omega arith) lines [] output
        (cut_text-IsByte [] (joined blocks) tt h) in
    (
      settled_target set encoded
          (output ++ joined (map (λ line. record_text set line (chunk_size * 6)) lines)),
      writer_produce-lines_of (json_sink chunk_size) chunk_size blocks (new_target set output [])
            (omega arith) b short
          ∙ ap
              (λ n. some (
                returned
                  (send (record { write = write_record n }) lines (new_target set output []))))
              exact
          ∙ ap (λ r. some (returned r)) sent,
      refl,
    )
