-- ===== src/Wal/TooLong.antt =====
-- internal/wal/wal.go: `Append` writes a line of any length, and `scanLocked` reads with the buffer that
-- `bufio.NewScanner` gives.
use grael.Prelude.{◌≤◌, ◌<◌, ◌≡◌, refl, ◌∙◌, true, some, List, ◌∷◌, [], ◌++◌, leb, arith}
use grael.Prelude.Lists.{length, all}
use grael.Result.{ok, err, line_too_long}
use grael.Runtime.{Event}
use grael.Wal.{Bytes, Format}
use grael.Wal.Scan.{whole, unreadable, max_scan_token_size, scan_lines, scan}
use grael.Wal.Store.{Store, Disk, content, number, line_of, append, list}
use grael.Wal.Lines.{is_plain, split_lines-line, then_scan}
use grael.Wal.Append.{
  IsWhole, listed-whole, scan-append, append_numbered-eq, append_numbered-line, write_line-full,
}
use grael.Wal.Branches.{append_closed}

then_scan-unreadable :
    (events : List Event)
    → then_scan (whole events) (unreadable line_too_long) ≡ unreadable line_too_long
then_scan-unreadable [] = refl
then_scan-unreadable (event ∷ events) = rw (then_scan-unreadable events)

module _ (format : Format) where
  scan_lines-long :
      (line : Bytes)
      → max_scan_token_size ≤ length line
      → scan_lines format (line ∷ []) ≡ unreadable line_too_long
  unfolding scan_lines
  scan_lines-long line long =
      let over : leb max_scan_token_size (length line) ≡ true = ground arith in rw over

  -- An `Append` whose calls of the file system all succeed reports success for an event whose line, without a
  -- newline, is at least as long as the buffer of the scanner, but from then on `List` returns
  -- no event and an error, and every `Append` to the run that can read the file is refused with that error.
  pub append_too_long :
      (disk : Disk) (event : Event) (store : Store) {events : List Event} {line : Bytes}
      (later : Disk) (other : Event)
      → IsWhole format store events
      → line_of format (number disk.now events event) ≡ some line
      → all is_plain line ≡ true
      → max_scan_token_size ≤ length line
      → disk.make_dir ≡ true
      → disk.open_scan ≡ true
      → disk.open_append ≡ true
      → length line < disk.written
      → later.make_dir ≡ true
      → later.open_scan ≡ true
      → ((append format disk event store).0 ≡ ok (number disk.now events event))
        × (list format true (append format disk event store).1 ≡ ([], some line_too_long))
        × (append format later other (append format disk event store).1
            ≡ (err line_too_long, (append format disk event store).1))
  unfolding list
  append_too_long disk event store {events} {line} later other is_whole made plain long can_make
        can_scan can_append room later_make later_scan =
      let added = number disk.now events event in
      let scanned : scan format disk.open_scan store.file ≡ whole events =
        rw can_scan (listed-whole _ is_whole.1) in
      let step =
        append_numbered-eq format disk event store can_make scanned
        ∙ append_numbered-line format disk added store made
        ∙ write_line-full format disk added line store can_append room in
      let text : scan format true (some (content store.file ++ (line ++ 10 ∷ [])))
          ≡ unreadable line_too_long =
        rw (
          scan-append format store (line ++ 10 ∷ []) is_whole,
          split_lines-line line plain,
          scan_lines-long line long,
          then_scan-unreadable events,
        ) in
      rw step (refl, rw text, append_closed format later other _ later_make (rw (later_scan, text)))
