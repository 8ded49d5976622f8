-- ===== src/Wal/Append.antt =====
-- internal/wal/wal.go: what `List` answers after an `Append`.
use grael.Prelude.{
  ◌≤◌, ◌<◌, ◌≡◌, refl, sym, ap, ◌∙◌, ◌⊎◌, inl, inr, Bool, true, false, Option, none, some, List, [],
  ◌∷◌, ◌++◌, leb, ltb, Bool-cases, arith,
}
use grael.Prelude.Lists.{length, length-append}
use grael.Result.{ok, err, open_failed, append_failed}
use grael.Runtime.{Event}
use grael.Wal.{Bytes, Format}
use grael.Wal.Scan.{
  Scanned, whole, corrupt_tail, unreadable, max_scan_token_size, split_lines, scan_lines, scan,
}
use grael.Wal.Store.{
  Store, Disk, take, broadcast, content, number, line_of, write_line, append_numbered, append,
  listed, list,
}
use grael.Wal.Lines.{
  ends_line, ends_line-append, split_lines-append, split_lines-line, scan_lines-append, then_scan,
  then_scan-whole, take-append,
}
use grael.Wal.History.{IsFaithful, line_of-some, scan_lines-line}

pub listed-whole :
    (answer : Scanned) {events : List Event}
    → listed answer ≡ (events, none)
    → answer ≡ whole events
listed-whole (whole events) h = ap (λ pair. whole pair.0) h
listed-whole (corrupt_tail events) h = absurd (cc (ap (λ pair. pair.1) h))
listed-whole (unreadable e) h = absurd (cc (ap (λ pair. pair.1) h))

module _ (format : Format) where
  -- The file ends with a line, and all of it is read, as these events.
  abbrev pub IsWhole : Store → List Event → Type 0
  IsWhole store events =
      (ends_line (content store.file) ≡ true) × (list format true store ≡ (events, none))

  pub scan-content :
      (file : Option Bytes) → scan format true file ≡ scan_lines format (split_lines (content file))
  unfolding scan split_lines scan_lines
  scan-content none = refl
  scan-content (some bytes) = refl

  -- A scan of a file that something is added to.
  pub scan-append :
      (store : Store) {events : List Event} (more : Bytes)
      → IsWhole store events
      → scan format true (some (content store.file ++ more))
        ≡ then_scan (whole events) (scan_lines format (split_lines more))
  unfolding list
  scan-append store {events} more (ends, read) =
      let before = sym (scan-content store.file) ∙ listed-whole _ read in
      rw (
        scan-content (some (content store.file ++ more)),
        split_lines-append (content store.file) more ends,
        scan_lines-append format (split_lines (content store.file)) (split_lines more),
        before,
      )

  -- The line of an event, written in full.
  pub list-line :
      (faithful : IsFaithful format) (store : Store) {events : List Event} (event : Event)
      {line : Bytes}
      → IsWhole store events
      → line_of format event ≡ some line
      → length line < max_scan_token_size
      → scan format true (some (content store.file ++ (line ++ 10 ∷ [])))
        ≡ whole (events ++ event ∷ [])
  list-line faithful store {events} event {line} is_whole made short =
      let (raw, packed, signed) = line_of-some format event made in
      rw (
        scan-append store (line ++ 10 ∷ []) is_whole,
        split_lines-line line (faithful.line_plain _ signed),
        scan_lines-line format faithful event made short,
        then_scan-whole events (event ∷ []),
      )

  pub scan-either :
      (can_open : Bool) (file : Option Bytes)
      → (scan format can_open file ≡ scan format true file)
        ⊎ (scan format can_open file ≡ unreadable open_failed)
  unfolding scan
  scan-either can_open none = inl refl
  scan-either true (some bytes) = inl refl
  scan-either false (some bytes) = inr refl

  -- `Append` of an event that follows these, at each answer of the disk.
  pub append_numbered-eq :
      (disk : Disk) (event : Event) (store : Store) {events : List Event}
      → disk.make_dir ≡ true
      → scan format disk.open_scan store.file ≡ whole events
      → append format disk event store
        ≡ append_numbered format disk (number disk.now events event) store
  unfolding append
  append_numbered-eq disk event store made read = rw (made, read)

  -- The line of the event is one that the scanner can take.
  abbrev pub Fits : Disk → List Event → Event → Type 0
  Fits disk events event =
      (line : Bytes)
      → line_of format (number disk.now events event) ≡ some line
      → length line < max_scan_token_size

  -- The write of a line, with room for all of it.
  pub write_line-full :
      (disk : Disk) (event : Event) (line : Bytes) (store : Store)
      → disk.open_append ≡ true
      → length line < disk.written
      → write_line disk event line store ≡ (
        ok event,
        record store {
          file = some (content store.file ++ (line ++ 10 ∷ []));
          subscribers = broadcast event store.subscribers;
        },
      )
  unfolding write_line
  write_line-full disk event line store can_append room =
      let complete : ltb disk.written (length (line ++ 10 ∷ [])) ≡ false =
        rw (length-append line (10 ∷ [])) (ground arith) in
      rw (can_append, complete)

  -- The write of a line that fails leaves the file, or adds a part of the line.
  pub write_line-failed :
      (disk : Disk) (event : Event) (line : Bytes) (store : Store)
      → (write_line disk event line store ≡ (err open_failed, store))
        ⊎ (disk.written ≤ length line)
          × (write_line disk event line store ≡ (
            err append_failed,
            record store { file = some (content store.file ++ take disk.written line) },
          ))
        ⊎ ((disk.open_append ≡ true) × (length line < disk.written))
  unfolding write_line
  write_line-failed disk event line store = elim (Bool-cases disk.open_append) [
    | inr closed ↦ inl (rw closed)
    | inl can_append ↦ elim (Bool-cases (leb disk.written (length line))) [
      | inr room ↦ inr (inr (can_append, ground arith))
      | inl part ↦
          let within : disk.written ≤ length line = ground arith in
          let torn : ltb disk.written (length (line ++ 10 ∷ [])) ≡ true =
            rw (length-append line (10 ∷ [])) (ground arith) in
          inr (inl (within, rw (can_append, torn, take-append disk.written line 10 within)))
    ]
  ]

  pub append_numbered-line :
      (disk : Disk) (event : Event) (store : Store) {line : Bytes}
      → line_of format event ≡ some line
      → append_numbered format disk event store ≡ write_line disk event line store
  unfolding append_numbered
  append_numbered-line disk event store made = rw (made, append_numbered)

  -- On a file that is read in full, an `Append` whose calls of the file system all succeed, of an event whose
  -- line is shorter than the buffer of the scanner, returns the event with the next number, and `List`
  -- returns it behind the other events, exactly as it was, from a file that is again read in full.
  pub append-list :
      (faithful : IsFaithful format) (disk : Disk) (event : Event) (store : Store)
      {events : List Event} {line : Bytes}
      → IsWhole store events
      → line_of format (number disk.now events event) ≡ some line
      → length line < max_scan_token_size
      → disk.make_dir ≡ true
      → disk.open_scan ≡ true
      → disk.open_append ≡ true
      → length line < disk.written
      → ((append format disk event store).0 ≡ ok (number disk.now events event))
        × IsWhole (append format disk event store).1 (events ++ number disk.now events event ∷ [])
  unfolding list
  append-list faithful disk event store {events} {line} is_whole made short can_make can_scan
        can_append room =
      let (ends, read) = is_whole in
      let added = number disk.now events event in
      let scanned : scan format disk.open_scan store.file ≡ whole events =
        rw can_scan (listed-whole _ read) in
      let step =
        append_numbered-eq disk event store can_make scanned
        ∙ append_numbered-line disk added store made
        ∙ write_line-full disk added line store can_append room in
      let text = list-line faithful store added is_whole made short in
      rw step (refl, (ends_line-append (content store.file) line, rw text))
