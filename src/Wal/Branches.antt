-- ===== src/Wal/Branches.antt =====
-- internal/wal/wal.go: `Append` at every answer of the disk, and behind a corrupt line.
use grael.Prelude.{
  ℕ, ◌≤◌, ◌<◌, ◌≡◌, refl, ap, subst, ◌∙◌, ◌⊎◌, inl, inr, true, false, none, some, List, [], ◌∷◌,
  ◌++◌, append-nil, ltb, Bool-cases, Option-cases, arith,
}
use grael.Prelude.Lists.{length}
use grael.Result.{
  Error, Result, ok, err, make_dir_failed, marshal_failed, open_failed, append_failed,
}
use grael.Runtime.{Event}
use grael.Wal.{Bytes, Format}
use grael.Wal.Scan.{unreadable, max_scan_token_size, scan}
use grael.Wal.Store.{
  Store, Disk, take, content, number, line_of, write_line, append_numbered, append, listed, list,
}
use grael.Wal.Lines.{ends_line-append, then_scan-whole, then_scan-corrupt, take-length}
use grael.Wal.History.{IsFaithful, scan_lines-part, scan_lines-unended}
use grael.Wal.Append.{
  IsWhole, Fits, listed-whole, scan-append, scan-either, list-line, append_numbered-eq,
  append_numbered-line, write_line-full, write_line-failed,
}

-- These events, or these and one more.
abbrev pub Kept : List Event → Event → List Event → Type 0
Kept events added read = (read ≡ events) ⊎ (read ≡ events ++ added ∷ [])

-- What an `Append` of this event can come to: it is read behind the others, or there is an error, the
-- subscribers are not told, and `List` has the old events and at most this one.
abbrev pub Outcome : Format → List Event → Event → Store → Result Event × Store → Type 0
Outcome format events added before (answer, after) =
    ((answer ≡ ok added) × IsWhole format after (events ++ added ∷ []))
    ⊎ (e : Error) × (answer ≡ err e)
      × (after.subscribers ≡ before.subscribers)
      × Kept events added (list format true after).0

module _ (format : Format) where
  -- The part of a line that a failed write leaves.
  list-part :
      (faithful : IsFaithful format) (store : Store) {events : List Event} (event : Event)
      {line : Bytes} (n : ℕ)
      → IsWhole format store events
      → line_of format event ≡ some line
      → length line < max_scan_token_size
      → n ≤ length line
      → Kept events event (listed (scan format true (some (content store.file ++ take n line)))).0
  list-part faithful store {events} event {line} n is_whole made short within =
      elim (Bool-cases (ltb n (length line))) [
        | inl part ↦ elim (scan_lines-part format faithful event n made short (ground arith)) [
          | inl nothing ↦ inl (
              rw
                (
                  scan-append format store (take n line) is_whole,
                  nothing,
                  then_scan-whole events [],
                )
                (append-nil events))
          | inr torn ↦ inl (
              rw (scan-append format store (take n line) is_whole, torn, then_scan-corrupt events)
                refl)
        ]
        | inr all ↦
            let same : take n line ≡ line =
              let reached : length line ≡ n = ground arith in
              subst (λ k. take k line ≡ line) reached (take-length line) in
            elim (scan_lines-unended format faithful event made short) [
              | inl nothing ↦
                  let text = scan-append format store line is_whole in
                  inl (rw (same, text, nothing, then_scan-whole events []) (append-nil events))
              | inr unended ↦
                  let text = scan-append format store line is_whole in
                  inr (rw (same, text, unended, then_scan-whole events (event ∷ [])))
            ]
      ]

  refused :
      (added : Event) (store : Store) {events : List Event} (e : Error)
      (result : Result Event × Store)
      → IsWhole format store events
      → result ≡ (err e, store)
      → Outcome format events added store result
  refused added store e result (ends, read) same =
      rw same (inr (e, refl, refl, inl (ap (λ pair. pair.0) read)))

  write_line-Outcome :
      (faithful : IsFaithful format) (disk : Disk) (event : Event) (store : Store)
      {events : List Event} {line : Bytes}
      → IsWhole format store events
      → line_of format event ≡ some line
      → length line < max_scan_token_size
      → Outcome format events event store (write_line disk event line store)
  unfolding list
  write_line-Outcome faithful disk event store {events} {line} is_whole made short =
      elim (write_line-failed format disk event line store) [
        | inl closed ↦ refused event store open_failed _ is_whole closed
        | inr (inl (within, torn)) ↦
            let kept = list-part faithful store event disk.written is_whole made short within in
            rw torn (inr (append_failed, refl, refl, kept))
        | inr (inr (can_append, room)) ↦
            let text = list-line format faithful store event is_whole made short in
            rw (write_line-full format disk event line store can_append room)
              (inl (refl, (ends_line-append (content store.file) line, rw text)))
      ]

  append_no_dir :
      (disk : Disk) (event : Event) (store : Store)
      → disk.make_dir ≡ false
      → append format disk event store ≡ (err make_dir_failed, store)
  unfolding append
  append_no_dir disk event store failed = rw failed

  pub append_closed :
      (disk : Disk) (event : Event) (store : Store) {e : Error}
      → disk.make_dir ≡ true
      → scan format disk.open_scan store.file ≡ unreadable e
      → append format disk event store ≡ (err e, store)
  unfolding append
  append_closed disk event store made closed = rw (made, closed)

  append_numbered-none :
      (disk : Disk) (event : Event) (store : Store)
      → line_of format event ≡ none
      → append_numbered format disk event store ≡ (err marshal_failed, store)
  unfolding append_numbered
  append_numbered-none disk event store no_line = rw (no_line, append_numbered)

  -- On a file that is read in full, an `Append` of an event whose line the scanner can take is, at every
  -- answer of the disk, either read back behind the other events, or an error of which the subscribers are
  -- not told, after which `List` has the old events and at most this one.
  pub append-Outcome :
      (faithful : IsFaithful format) (disk : Disk) (event : Event) (store : Store)
      {events : List Event}
      → IsWhole format store events
      → Fits format disk events event
      → Outcome format events (number disk.now events event) store (append format disk event store)
  unfolding list
  append-Outcome faithful disk event store {events} is_whole fits =
      let added = number disk.now events event in
      let read = listed-whole (scan format true store.file) is_whole.1 in
      elim (Bool-cases disk.make_dir) [
        | inr failed ↦
            refused added store make_dir_failed _ is_whole (append_no_dir disk event store failed)
        | inl made ↦ elim (scan-either format disk.open_scan store.file) [
          | inr closed ↦
              refused added store open_failed _ is_whole
                (append_closed disk event store made closed)
          | inl opened ↦
              let step = append_numbered-eq format disk event store made (opened ∙ read) in
              elim (Option-cases (line_of format added)) [
                | inl no_line ↦
                    let stopped = step ∙ append_numbered-none disk added store no_line in
                    refused added store marshal_failed _ is_whole stopped
                | inr (line, text) ↦
                    rw (step, append_numbered-line format disk added store text)
                      (write_line-Outcome faithful disk added store is_whole text (fits line text))
              ]
        ]
      ]
