-- ===== src/Tests/Log.antt =====
-- Runs of the log store on a small file.
use grael.Prelude.{
  ℕ, zero, suc, ◌+◌, ◌<◌, ◌≡◌, ◌⊎◌, refl, subst, true, false, none, some, [], ◌∷◌, ◌++◌, arith,
}
use grael.Prelude.Lists.{length, all}
use grael.Result.{ok, err, corrupt_tail_found, line_too_long}
use grael.Runtime.{Event, heartbeat_recorded}
use grael.Wal.{Bytes, Format, decode_payload, checksum}
use grael.Wal.Scan.{scan, max_scan_token_size}
use grael.Wal.Store.{Store, Disk, number, line_of, append, list, subscribe, newer}
use grael.Wal.Append.{IsWhole, append-list}
use grael.Wal.Lines.{ends_line, is_plain}
use grael.Wal.TooLong.{append_too_long}
use grael.Wal.Branches.{Outcome, append-Outcome}
use grael.Wal.Corrupt.{IsCorrupt, append-IsCorrupt}
use grael.Wal.Subscriber.{Subscriber, new_subscriber, enqueue, next, send}
use grael.Wal.Delivery.{Serves, stays, told, takes, sends, held, IsPrefix, subscribe-IsPrefix}
use grael.Server.Stream.{IsStreamed, stream_events, stream_events-IsPrefix}
use grael.Tests.Server.{proto}
use grael.Tests.ShortFormat.{byte, total, short_format, short_format-IsFaithful}

some_same : {a b : Bytes} → some a ≡ some b → a ≡ b
some_same h = cc

abbrev beat : ℕ → Event
beat attempt = record {
  seq = 0;
  run_id = "r";
  timestamp = 0;
  payload = heartbeat_recorded "a" "w" attempt;
}

abbrev disk : ℕ → Disk
disk written = record {
  make_dir = true;
  open_scan = true;
  open_append = true;
  written = written;
  now = 7;
}

abbrev no_file : Store
no_file = record { file = none; subscribers = []; next_sub_id = 0 }

abbrev written : ℕ → ℕ → Event
written seq attempt = record {
  seq = seq;
  run_id = "r";
  timestamp = 7;
  payload = heartbeat_recorded "a" "w" attempt;
}

-- The four bytes of that event: its number, its time, its attempt, and their sum and 14.
abbrev line : ℕ → ℕ → Bytes
line seq attempt =
    byte seq ∷ 21 ∷ byte attempt ∷ byte (byte seq + (21 + (byte attempt + (14 + 0)))) ∷ []

abbrev one_event : Store
one_event = record { file = some (line 1 1 ++ 10 ∷ []); subscribers = []; next_sub_id = 0 }

abbrev bad_line : Store
bad_line = record {
  file = some ((line 1 1 ++ 10 ∷ []) ++ 1 ∷ 10 ∷ []);
  subscribers = [];
  next_sub_id = 0;
}

first_append : append short_format (disk 5) (beat 1) no_file ≡ (ok (written 1 1), one_event)
unfolding append
first_append = refl

torn_append :
    (append short_format (disk 2) (beat 2) one_event).1.file
    ≡ some ((line 1 1 ++ 10 ∷ []) ++ 16 ∷ 21 ∷ [])
unfolding append decode_payload
torn_append = refl

append-list_example :
    ((append short_format (disk 5) (beat 2) one_event).0 ≡ ok (written 2 2))
    × IsWhole short_format
        (append short_format (disk 5) (beat 2) one_event).1
        (written 1 1 ∷ written 2 2 ∷ [])
unfolding append list line_of ends_line decode_payload
append-list_example =
    append-list short_format short_format-IsFaithful (disk 5) (beat 2) one_event
      {events = written 1 1 ∷ []} {line = line 2 2} (refl, refl) refl (omega arith) refl refl refl
      (omega arith)

append-Outcome_example :
    Outcome short_format
      (written 1 1 ∷ [])
      (written 2 2)
      one_event
      (append short_format (disk 2) (beat 2) one_event)
unfolding append list line_of ends_line decode_payload
append-Outcome_example =
    append-Outcome short_format short_format-IsFaithful (disk 2) (beat 2) one_event
      {events = written 1 1 ∷ []} (refl, refl)
      (λ l made. subst (λ bytes. length bytes < 65536) (some_same made) (omega arith))

append-IsCorrupt_example :
    ((append short_format (disk 5) (beat 2) bad_line).0 ≡ ok (written 2 2))
    × IsCorrupt short_format (append short_format (disk 5) (beat 2) bad_line).1 (written 1 1 ∷ [])
    × (list short_format true (append short_format (disk 5) (beat 2) bad_line).1
        ≡ (written 1 1 ∷ [], some corrupt_tail_found))
unfolding append list line_of ends_line decode_payload
append-IsCorrupt_example =
    append-IsCorrupt short_format (disk 5) (beat 2) bad_line {events = written 1 1 ∷ []}
      {line = line 2 2} (refl, refl) refl refl refl refl (omega arith)

-- The subscriber of the events after 0, once it is told of a second one and has sent the first.
abbrev served : Subscriber
served = record {
  id = 1;
  pending = written 2 2 ∷ [];
  closed = false;
  in_hand = none;
  sent = written 1 1 ∷ [];
  finished = false;
}

abbrev joined : Store
joined = record {
  file = some (line 1 1 ++ 10 ∷ []);
  subscribers = new_subscriber 1 (written 1 1 ∷ []) ∷ [];
  next_sub_id = 1;
}

served_moves : Serves (new_subscriber 1 (written 1 1 ∷ [])) (written 2 2 ∷ []) served
unfolding enqueue next send
served_moves = sends (written 1 1) (takes (told (written 2 2) stays) refl refl refl) refl refl

subscribe-IsPrefix_example :
    (joined.subscribers ≡ [] ++ new_subscriber 1 (written 1 1 ∷ []) ∷ [])
    × IsPrefix served.sent (written 1 1 ∷ written 2 2 ∷ [])
    × ((served.closed ≡ true)
        ⊎ (served.finished ≡ false)
          × (served.sent ++ (held served.in_hand ++ served.pending)
              ≡ written 1 1 ∷ written 2 2 ∷ []))
unfolding subscribe newer scan checksum decode_payload
subscribe-IsPrefix_example =
    subscribe-IsPrefix short_format true 0 one_event joined {id = 1} {listed = written 1 1 ∷ []}
      {appended = written 2 2 ∷ []} {sub = served} refl refl served_moves

-- The server streams the same events, and the third `Send` would fail.
stream_events-IsPrefix_example :
    IsPrefix (written 1 1 ∷ []) (written 1 1 ∷ written 2 2 ∷ [])
    × IsStreamed proto 2 (written 1 1 ∷ []) (stream_events proto 2 (written 1 1 ∷ []))
unfolding subscribe newer scan checksum decode_payload
stream_events-IsPrefix_example =
    stream_events-IsPrefix proto 2 short_format true [] (written 1 1 ∷ []) one_event joined
      (written 1 1 ∷ []) {id = 1} {appended = written 2 2 ∷ []} {sub = served} refl (refl, tt) refl
      served_moves ([], refl)

-- A format whose lines are all as long as the buffer of the scanner.
blanks : ℕ → Bytes
blanks zero = []
blanks (suc n) = 20 ∷ blanks n

length-blanks : (n : ℕ) → length (blanks n) ≡ n
unfolding blanks
length-blanks zero = refl
length-blanks (suc n) = omega (arith, length-blanks n)

blanks-plain : (n : ℕ) → all is_plain (blanks n) ≡ true
unfolding blanks
blanks-plain zero = refl
blanks-plain (suc n) = blanks-plain n

abbrev long_format : Format
long_format = record {
  marshal_payload = λ _. some [];
  marshal_record = λ _. some (blanks max_scan_token_size);
  unmarshal_record = λ _. none;
  unmarshal_payload = λ _ _. none;
  checksum_ieee = total;
  is_blank = λ _. false;
}

append_too_long_example :
    ((append long_format (disk 65537) (beat 1) no_file).0 ≡ ok (written 1 1))
    × (list long_format true (append long_format (disk 65537) (beat 1) no_file).1
        ≡ ([], some line_too_long))
    × (append long_format (disk 5) (beat 2) (append long_format (disk 65537) (beat 1) no_file).1
        ≡ (err line_too_long, (append long_format (disk 65537) (beat 1) no_file).1))
unfolding number list scan line_of ends_line
append_too_long_example =
    append_too_long long_format (disk 65537) (beat 1) no_file {events = []}
      {line = blanks max_scan_token_size} (disk 5) (beat 2) (refl, refl) refl
      (blanks-plain max_scan_token_size) (omega (arith, length-blanks max_scan_token_size)) refl
      refl refl (omega (arith, length-blanks max_scan_token_size)) refl refl
