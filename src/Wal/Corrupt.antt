-- ===== src/Wal/Corrupt.antt =====
-- internal/wal/wal.go: `Append` goes on after `ErrCorruptTail`, behind the corrupt line.
use grael.Prelude.{◌<◌, ◌≡◌, refl, sym, ◌∙◌, true, some, List, ◌∷◌, [], ◌++◌}
use grael.Prelude.Lists.{length}
use grael.Result.{ok, corrupt_tail_found}
use grael.Runtime.{Event}
use grael.Wal.{Bytes, Format}
use grael.Wal.Scan.{corrupt_tail, split_lines, scan}
use grael.Wal.Store.{Store, Disk, content, number, line_of, append_numbered, append, list}
use grael.Wal.Lines.{ends_line, ends_line-append, split_lines-append, scan_lines-append}
use grael.Wal.Append.{scan-content, append_numbered-line, write_line-full}

module _ (format : Format) where
  -- The file ends with a line, and is read up to a corrupt line, as these events.
  abbrev pub IsCorrupt : Store → List Event → Type 0
  IsCorrupt store events =
      (ends_line (content store.file) ≡ true) × (scan format true store.file ≡ corrupt_tail events)

  append_numbered-corrupt :
      (disk : Disk) (event : Event) (store : Store) {events : List Event}
      → disk.make_dir ≡ true
      → scan format disk.open_scan store.file ≡ corrupt_tail events
      → append format disk event store
        ≡ append_numbered format disk (number disk.now events event) store
  unfolding append
  append_numbered-corrupt disk event store made read = rw (made, read)

  scan-corrupt :
      (store : Store) {events : List Event} (more : Bytes)
      → IsCorrupt store events
      → scan format true (some (content store.file ++ more)) ≡ corrupt_tail events
  scan-corrupt store {events} more (ends, read) = rw (
    scan-content format (some (content store.file ++ more)),
    split_lines-append (content store.file) more ends,
    scan_lines-append format (split_lines (content store.file)) (split_lines more),
    sym (scan-content format store.file) ∙ read,
  )

  -- Behind a corrupt line, an `Append` whose calls of the file system all succeed reports the
  -- number that follows the events in front of that line, but `List` returns these events alone,
  -- with `ErrCorruptTail`, and the store is again one with these events in front of a corrupt
  -- line.
  pub append-IsCorrupt :
      (disk : Disk) (event : Event) (store : Store) {events : List Event} {line : Bytes}
      → IsCorrupt store events
      → line_of format (number disk.now events event) ≡ some line
      → disk.make_dir ≡ true
      → disk.open_scan ≡ true
      → disk.open_append ≡ true
      → length line < disk.written
      → ((append format disk event store).0 ≡ ok (number disk.now events event))
        × IsCorrupt (append format disk event store).1 events
        × (list format true (append format disk event store).1 ≡ (events, some corrupt_tail_found))
  unfolding list
  append-IsCorrupt disk event store {events} {line} (ends, read) made can_make can_scan can_append
        room =
      let added = number disk.now events event in
      let scanned : scan format disk.open_scan store.file ≡ corrupt_tail events =
        rw can_scan read in
      let step =
        append_numbered-corrupt disk event store can_make scanned
        ∙ append_numbered-line format disk added store made
        ∙ write_line-full format disk added line store can_append room in
      let text = scan-corrupt store (line ++ 10 ∷ []) (ends, read) in
      rw step (refl, (ends_line-append (content store.file) line, text), rw text)
