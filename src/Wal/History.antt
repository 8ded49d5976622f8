-- ===== src/Wal/History.antt =====
-- internal/wal/wal.go: what the store relies on in encoding/json, and how the line of one event is read.
use grael.Prelude.{
  ℕ, ◌≤◌, ◌<◌, ◌≡◌, refl, ◌⊎◌, inl, inr, true, false, none, some, [], ◌∷◌, nat_eq, leb, Bool-cases,
  Option-cases, arith,
}
use grael.Prelude.Lists.{all, length}
use grael.Runtime.{
  Event, Payload, cancellation_requested, cancellation_completed, compensation_started,
  compensation_completed, workflow_failed, workflow_completed,
}
use grael.Wal.{Bytes, DiskRecord, Format, is_null, event_type, decode_payload, checksum}
use grael.Wal.Scan.{
  event_of, whole, corrupt_tail, max_scan_token_size, split_lines, read_line, scan_lines,
}
use grael.Wal.Store.{take, line_of, disk_record}
use grael.Wal.Lines.{is_plain, drop_cr-plain, split_lines-rest, length-take-le, take-plain}

-- What the log relies on in encoding/json: a record and a payload are read back as they were, the
-- encoding of a struct is an object on one line, and no shorter part of an object is JSON.
pub record IsFaithful (format : Format) : Type 0 where
  pub record_back :
      (p : Payload) (r : DiskRecord) {line : Bytes}
      → format.marshal_payload p ≡ some r.payload
      → format.marshal_record r ≡ some line
      → format.unmarshal_record line ≡ some r
  pub payload_back :
      (p : Payload) {raw : Bytes}
      → format.marshal_payload p ≡ some raw
      → format.unmarshal_payload (event_type p) raw ≡ some p
  pub payload_object :
      (p : Payload) {raw : Bytes} → format.marshal_payload p ≡ some raw → is_null raw ≡ false
  pub line_plain :
      (r : DiskRecord) {line : Bytes}
      → format.marshal_record r ≡ some line
      → all is_plain line ≡ true
  pub line_text :
      (r : DiskRecord) {line : Bytes}
      → format.marshal_record r ≡ some line
      → format.is_blank line ≡ false
  pub line_prefix :
      (r : DiskRecord) {line : Bytes} (n : ℕ)
      → format.marshal_record r ≡ some line
      → n < length line
      → format.unmarshal_record (take n line) ≡ none

-- A line is the record of an event whose payload can be marshalled.
pub line_of-some :
    (format : Format) (event : Event) {line : Bytes}
    → line_of format event ≡ some line
    → (raw : Bytes) × (format.marshal_payload event.payload ≡ some raw)
      × (format.marshal_record (disk_record format event raw) ≡ some line)
unfolding line_of
line_of-some format event {line} made = elim (Option-cases (format.marshal_payload event.payload)) [
  | inl none_made ↦ absurd (ground (arith, (rw (none_made, line_of) at made)))
  | inr (raw, packed) ↦ (raw, packed, (rw (packed, line_of) at made))
]

module _ (format : Format) (faithful : IsFaithful format) where
  decode_payload-marshal :
      (p : Payload) {raw : Bytes}
      → format.marshal_payload p ≡ some raw
      → decode_payload format (event_type p) raw ≡ some p
  unfolding decode_payload event_type
  decode_payload-marshal cancellation_requested made = refl
  decode_payload-marshal cancellation_completed made = refl
  decode_payload-marshal compensation_started made = refl
  decode_payload-marshal compensation_completed made = refl
  decode_payload-marshal workflow_completed made = refl
  decode_payload-marshal (workflow_failed reason) made =
      let object = faithful.payload_object (workflow_failed reason) made in
      let back = faithful.payload_back (workflow_failed reason) made in
      rw (decode_payload, object) back
  decode_payload-marshal p made = faithful.payload_back p made

  event_of-disk_record :
      (event : Event) {raw : Bytes}
      → format.marshal_payload event.payload ≡ some raw
      → event_of format (disk_record format event raw) ≡ some event
  unfolding event_of disk_record checksum
  event_of-disk_record event {raw} packed =
      let signed = checksum format (disk_record format event raw) in
      let same : nat_eq signed signed ≡ true = ground arith in
      rw (same, decode_payload-marshal event.payload packed)

  read_line-line_of :
      (event : Event) {line : Bytes}
      → line_of format event ≡ some line
      → read_line format line ≡ some event
  unfolding read_line disk_record line_of-some
  read_line-line_of event made =
      let (raw, packed, signed) = line_of-some format event made in
      let back = faithful.record_back event.payload (disk_record format event raw) packed signed in
      rw (read_line, back) (event_of-disk_record event packed)

  -- What a line that `Append` wrote in full adds to a scan.
  pub scan_lines-line :
      (event : Event) {line : Bytes}
      → line_of format event ≡ some line
      → length line < max_scan_token_size
      → scan_lines format (line ∷ []) ≡ whole (event ∷ [])
  unfolding scan_lines
  scan_lines-line event {line} made short =
      let (raw, packed, signed) = line_of-some format event made in
      let plain = drop_cr-plain line (faithful.line_plain _ signed) in
      let fits : leb max_scan_token_size (length line) ≡ false = ground arith in
      rw (fits, plain, faithful.line_text _ signed, read_line-line_of event made)

  -- What a part of a line adds: nothing, or a corrupt line.
  pub scan_lines-part :
      (event : Event) {line : Bytes} (n : ℕ)
      → line_of format event ≡ some line
      → length line < max_scan_token_size
      → n < length line
      → (scan_lines format (split_lines (take n line)) ≡ whole [])
        ⊎ (scan_lines format (split_lines (take n line)) ≡ corrupt_tail [])
  unfolding scan_lines read_line split_lines
  scan_lines-part event {line} n made short part =
      let (raw, packed, signed) = line_of-some format event made in
      let line_is_plain = faithful.line_plain _ signed in
      let lost = faithful.line_prefix _ n signed part in
      let fits = length-take-le n line in
      go (take n line) (take-plain n line line_is_plain) lost fits
    where
      go :
          (bytes : Bytes)
          → all is_plain bytes ≡ true
          → format.unmarshal_record bytes ≡ none
          → length bytes ≤ length line
          → (scan_lines format (split_lines bytes) ≡ whole [])
            ⊎ (scan_lines format (split_lines bytes) ≡ corrupt_tail [])
      go [] plain lost fits = inl refl
      go (b ∷ bs) plain lost fits =
          let within : leb max_scan_token_size (length (b ∷ bs)) ≡ false = ground arith in
          elim (Bool-cases (format.is_blank (b ∷ bs))) [
            | inl blank ↦
                inl (rw (split_lines-rest b bs plain, within, drop_cr-plain (b ∷ bs) plain, blank))
            | inr text ↦
                let one = split_lines-rest b bs plain in
                inr (rw (one, within, drop_cr-plain (b ∷ bs) plain, text, lost))
          ]

  -- What a line without its newline adds.
  pub scan_lines-unended :
      (event : Event) {line : Bytes}
      → line_of format event ≡ some line
      → length line < max_scan_token_size
      → (scan_lines format (split_lines line) ≡ whole [])
        ⊎ (scan_lines format (split_lines line) ≡ whole (event ∷ []))
  unfolding scan_lines split_lines
  scan_lines-unended event {line = []} made short = inl refl
  scan_lines-unended event {line = b ∷ bs} made short =
      let (raw, packed, signed) = line_of-some format event made in
      let one = split_lines-rest b bs (faithful.line_plain _ signed) in
      inr (rw one (scan_lines-line event made short))
