-- ===== src/Wal/Scan.antt =====
-- internal/wal/wal.go: `scanLocked`, with the lines that a `bufio.Scanner` makes of a file.
use grael.Prelude.{ℕ, Bool, Option, none, some, List, [], ◌∷◌, if◌then◌else◌, nat_eq, leb}
use grael.Prelude.Lists.{length}
use grael.Result.{Error, open_failed, line_too_long}
use grael.Runtime.{Event}
use grael.Wal.{Bytes, DiskRecord, Format, checksum, decode_payload}

-- A byte in front of the first line.
abbrev pub push : ℕ → List Bytes → List Bytes
push b [] = (b ∷ []) ∷ []
push b (line ∷ lines) = (b ∷ line) ∷ lines

-- The lines of a file; what follows the last newline is a line if it is not empty.
unfoldable pub split_lines : Bytes → List Bytes
split_lines [] = []
split_lines (b ∷ bs) = let rest = split_lines bs in if nat_eq b 10 then [] ∷ rest else push b rest

-- The scanner drops a carriage return at the end of a line.
unfoldable pub drop_cr : Bytes → Bytes
drop_cr [] = []
drop_cr (b ∷ []) = if nat_eq b 13 then [] else b ∷ []
drop_cr (b ∷ c ∷ bs) = b ∷ drop_cr (c ∷ bs)

-- `bufio.MaxScanTokenSize`: the buffer of the scanner, which a line and its newline have to fit.
abbrev pub max_scan_token_size : ℕ
max_scan_token_size = 65536

-- The answers of `scanLocked`: all events, the ones before a corrupt line, or an error alone.
pub data Scanned : Type 0 where
  whole : List Event → Scanned
  corrupt_tail : List Event → Scanned
  unreadable : Error → Scanned

abbrev pub prepend : Event → Scanned → Scanned
prepend event (whole events) = whole (event ∷ events)
prepend event (corrupt_tail events) = corrupt_tail (event ∷ events)
prepend event (unreadable e) = unreadable e

module _ (format : Format) where
  -- The event of a record whose checksum is right and whose payload can be decoded.
  unfoldable pub event_of : DiskRecord → Option Event
  event_of r =
      if nat_eq (checksum format r) r.crc32
      then elim (decode_payload format r.type_of r.payload) [
        | none ↦ none
        | some payload ↦
            some (record {
              seq = r.seq;
              run_id = r.run_id;
              timestamp = r.timestamp;
              payload = payload;
            })
      ]
      else none

  unfoldable pub read_line : Bytes → Option Event
  unfolding event_of
  read_line line = elim (format.unmarshal_record line) [ none ↦ none | some r ↦ event_of r ]

  -- The loop over the lines, which stops at the first one that is too long or corrupt.
  unfoldable pub scan_lines : List Bytes → Scanned
  unfolding read_line drop_cr
  scan_lines [] = whole []
  scan_lines (line ∷ lines) =
      let rest = scan_lines lines in
      if leb max_scan_token_size (length line)
      then unreadable line_too_long
      else if format.is_blank (drop_cr line)
      then rest
      else elim (read_line (drop_cr line)) [
        | none ↦ corrupt_tail []
        | some event ↦ prepend event rest
      ]

  -- `scanLocked`, at whether the file can be opened, and at the file if there is one.
  unfoldable pub scan : Bool → Option Bytes → Scanned
  unfolding scan_lines split_lines
  scan can_open none = whole []
  scan can_open (some bytes) =
      if can_open then scan_lines (split_lines bytes) else unreadable open_failed
