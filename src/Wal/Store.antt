-- ===== src/Wal/Store.antt =====
-- internal/wal/wal.go: `Append`, `List`, `Subscribe` and `removeSubscriber` of the store, at one run.
use grael.Prelude.{
  ℕ, zero, suc, ◌+◌, Bool, not, Option, none, some, List, [], ◌∷◌, ◌++◌, if◌then◌else◌, nat_eq, leb,
  ltb,
}
use grael.Prelude.Lists.{length}
use grael.Result.{
  Error, Result, ok, err, Action, make_dir_failed, open_failed, corrupt_tail_found, marshal_failed,
  append_failed, no_such_run,
}
use grael.Runtime.{Time, Event}
use grael.Wal.{Bytes, DiskRecord, Format, checksum, event_type}
use grael.Wal.Scan.{Scanned, whole, corrupt_tail, unreadable, scan}
use grael.Wal.Subscriber.{Subscriber, new_subscriber, enqueue}

-- The file of the run and its subscribers.
pub record Store : Type 0 where
  pub file : Option Bytes
  pub subscribers : List Subscriber
  pub next_sub_id : ℕ

-- How the file system answers the calls of one `Append`. A write that fails may have written a part:
-- `written` is how many bytes of the line reach the file.
pub record Disk : Type 0 where
  pub make_dir : Bool
  pub open_scan : Bool
  pub open_append : Bool
  pub written : ℕ
  pub now : Time

abbrev pub take : ℕ → Bytes → Bytes
take zero bytes = []
take (suc n) [] = []
take (suc n) (b ∷ bs) = b ∷ take n bs

abbrev pub content : Option Bytes → Bytes
content none = []
content (some bytes) = bytes

-- `broadcastLocked`
unfoldable pub broadcast : Event → List Subscriber → List Subscriber
broadcast event [] = []
broadcast event (sub ∷ subs) = enqueue event sub ∷ broadcast event subs

-- `removeSubscriber`
unfoldable pub remove_subscriber : ℕ → List Subscriber → List Subscriber
remove_subscriber id [] = []
remove_subscriber id (sub ∷ subs) =
    let rest = remove_subscriber id subs in if nat_eq sub.id id then rest else sub ∷ rest

-- The events after a sequence number.
unfoldable pub newer : ℕ → List Event → List Event
newer after [] = []
newer after (event ∷ events) =
    let rest = newer after events in if leb event.seq after then rest else event ∷ rest

-- The event that `Append` records: the next number, and the time if it has none.
unfoldable pub number : Time → List Event → Event → Event
number now events event = record event {
  seq = length events + 1;
  timestamp = if nat_eq event.timestamp 0 then now else event.timestamp;
}

-- The events of a scan that `Append` and `Subscribe` go on with.
abbrev pub valid_prefix : Scanned → Result (List Event)
valid_prefix (whole events) = ok events
valid_prefix (corrupt_tail events) = ok events
valid_prefix (unreadable e) = err e

-- What `List` returns of a scan.
abbrev pub listed : Scanned → List Event × Option Error
listed (whole events) = (events, none)
listed (corrupt_tail events) = (events, some corrupt_tail_found)
listed (unreadable e) = ([], some e)

-- The end of `Append`: the line is written, and the subscribers are told.
unfoldable pub write_line : Disk → Event → Bytes → Action Store Event
unfolding broadcast
write_line disk event line store =
    let text = line ++ 10 ∷ [] in
    if not disk.open_append
    then (err open_failed, store)
    else if ltb disk.written (length text)
    then (
      err append_failed,
      record store { file = some (content store.file ++ take disk.written text) },
    )
    else (
      ok event,
      record store {
        file = some (content store.file ++ text);
        subscribers = broadcast event store.subscribers;
      },
    )

module _ (format : Format) where
  -- The record of an event, with its checksum.
  unfoldable pub disk_record : Event → Bytes → DiskRecord
  unfolding event_type checksum
  disk_record event raw =
      let unsigned : DiskRecord = record {
        seq = event.seq;
        run_id = event.run_id;
        type_of = event_type event.payload;
        timestamp = event.timestamp;
        payload = raw;
        crc32 = 0;
      } in
      record unsigned { crc32 = checksum format unsigned }

  -- The line of an event, if it can be marshalled.
  unfoldable pub line_of : Event → Option Bytes
  unfolding disk_record
  line_of event = elim (format.marshal_payload event.payload) [
    | none ↦ none
    | some raw ↦ format.marshal_record (disk_record event raw)
  ]

  unfoldable pub append_numbered : Disk → Event → Action Store Event
  unfolding line_of write_line
  append_numbered disk event store = elim (line_of event) [
    | none ↦ (err marshal_failed, store)
    | some line ↦ write_line disk event line store
  ]

  -- `Append`
  unfoldable pub append : Disk → Event → Action Store Event
  unfolding append_numbered number scan
  append disk event store =
      if not disk.make_dir
      then (err make_dir_failed, store)
      else elim (valid_prefix (scan format disk.open_scan store.file)) [
        | err e ↦ (err e, store)
        | ok events ↦ append_numbered disk (number disk.now events event) store
      ]

  -- `List`: the events, and an error beside them.
  unfoldable pub list : Bool → Store → List Event × Option Error
  unfolding scan
  list can_open store = listed (scan format can_open store.file)

  -- `Subscribe`, with the id of the subscriber.
  unfoldable pub subscribe : Bool → ℕ → Action Store ℕ
  unfolding scan newer
  subscribe can_open after store = elim (valid_prefix (scan format can_open store.file)) [
    | err e ↦ (err e, store)
    | ok [] ↦ (err no_such_run, store)
    | ok (event ∷ events) ↦ (
      ok (suc store.next_sub_id),
      record store {
        subscribers =
            store.subscribers
            ++ new_subscriber (suc store.next_sub_id) (newer after (event ∷ events)) ∷ [];
        next_sub_id = suc store.next_sub_id;
      },
    )
  ]
