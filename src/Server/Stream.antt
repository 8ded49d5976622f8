-- ===== src/Server/Stream.antt =====
-- internal/grpcserver/server.go: `StreamEvents`, and `SubscribeEvents` of internal/engine/engine.go, which
-- passes on what a subscriber of the log is sent, until its context ends.
use grael.Prelude.{
  ℕ, zero, suc, ◌+◌, ◌<◌, Bool, ◌≡◌, refl, sym, ap, subst, ◌∙◌, List, [], ◌∷◌, ◌++◌, append_assoc,
  inl, inr, arith,
}
use grael.Prelude.Lists.{length}
use grael.Result.{Error, Result, ok, err, no_such_run, run_not_found, Result-cases}
use grael.Runtime.{Event}
use grael.Engine.Runs.Durable.{NumberedFrom}
use grael.Wal.{Format}
use grael.Wal.Scan.{scan}
use grael.Wal.Store.{Store, newer, valid_prefix, subscribe}
use grael.Wal.Subscriber.{Subscriber, new_subscriber}
use grael.Wal.Delivery.{Serves, IsPrefix, subscribe-IsPrefix}
use grael.Server.{Protobuf, ProtoEvent}
use grael.Server.Convert.{event_to_proto, events_to_proto}
use grael.Server.Status.{Status, Code, map_error}
use grael.Server.Handlers.{Reply, replied, failed}

-- The answer of `SubscribeEvents`: a run that is not there has an error of the engine's.
unfoldable pub subscribe_events : {A : Type 0} → Result A × Store → Reply A × Store
unfolding map_error
subscribe_events (ok id, store) = (replied id, store)
subscribe_events (err no_such_run, store) = (failed (map_error run_not_found), store)
subscribe_events (err e, store) = (failed (map_error e), store)

-- How a stream ends: the channel is closed, `Send` fails, or an event cannot be converted.
pub data StreamEnd : Type 0 where
  closed send_failed : StreamEnd
  refused : Status → StreamEnd

-- The loop of `StreamEvents` over the events that come out of the channel; the first `sends` calls of
-- `Send` succeed.
unfoldable pub stream_events : Protobuf → (sends : ℕ) → List Event → List ProtoEvent × StreamEnd
unfolding event_to_proto
stream_events proto sends [] = ([], closed)
stream_events proto zero (event ∷ events) = elim (event_to_proto proto event) [
  | err x ↦ ([], refused (record { code = Code.internal; cause = x }))
  | ok mapped ↦ ([], send_failed)
]
stream_events proto (suc sends) (event ∷ events) =
    let rest = stream_events proto sends events in
    elim (event_to_proto proto event) [
      | err x ↦ ([], refused (record { code = Code.internal; cause = x }))
      | ok mapped ↦ (mapped ∷ rest.0, rest.1)
    ]

IsPrefix-trans :
    (first second all : List Event)
    → IsPrefix first second
    → IsPrefix second all
    → IsPrefix first all
IsPrefix-trans first second all (more, e) (rest, f) =
    (more ++ rest, sym (append_assoc first more rest) ∙ ap (λ es. es ++ rest) e ∙ f)

-- How far the stream has come with the events that come out of the channel: the ones that are passed on,
-- the messages of these, the ones that are left, and why it ended there.
pub data Ended (proto : Protobuf) (sends : ℕ) (messages : List ProtoEvent) (missed : List Event)
    : StreamEnd → Type 0 where
  all_sent : missed ≡ [] → Ended proto sends messages missed closed
  send_fails :
      (event : Event) (more : List Event) (mapped : ProtoEvent)
      → missed ≡ event ∷ more
      → event_to_proto proto event ≡ ok mapped
      → length messages ≡ sends
      → Ended proto sends messages missed send_failed
  no_message :
      (event : Event) (more : List Event) (x : Error)
      → missed ≡ event ∷ more
      → event_to_proto proto event ≡ err x
      → Ended proto sends messages missed (refused (record { code = Code.internal; cause = x }))

pub record IsStreamed (proto : Protobuf) (sends : ℕ) (received : List Event)
    (answer : List ProtoEvent × StreamEnd) : Type 0 where
  pub passed : List Event
  pub missed : List Event
  pub parts : passed ++ missed ≡ received
  pub messages : events_to_proto proto passed ≡ ok answer.0
  pub ended : Ended proto sends answer.0 missed answer.1

Ended-suc :
    (proto : Protobuf) (sends : ℕ) (message : ProtoEvent) (messages : List ProtoEvent)
    (missed : List Event) (end_ : StreamEnd)
    → Ended proto sends messages missed end_
    → Ended proto (suc sends) (message ∷ messages) missed end_
Ended-suc proto sends message messages missed closed (all_sent none_left) = all_sent none_left
Ended-suc proto sends message messages missed send_failed (send_fails event more mapped is fits n) =
    send_fails event more mapped is fits (omega (arith, n))
Ended-suc proto sends message messages missed (refused _) (no_message event more x is fails) =
    no_message event more x is fails

stream_events-IsStreamed :
    (proto : Protobuf) (sends : ℕ) (events : List Event)
    → IsStreamed proto sends events (stream_events proto sends events)
unfolding stream_events events_to_proto
stream_events-IsStreamed proto sends [] = record {
  passed = [];
  missed = [];
  parts = refl;
  messages = refl;
  ended = all_sent refl;
}
stream_events-IsStreamed proto zero (event ∷ events) =
    elim (Result-cases (event_to_proto proto event)) [
      | inl (mapped, fits) ↦
          rw (stream_events, fits)
            (record {
              passed = [];
              missed = event ∷ events;
              parts = refl;
              messages = refl;
              ended = send_fails event events mapped refl fits refl;
            })
      | inr (x, fails) ↦
          rw (stream_events, fails)
            (record {
              passed = [];
              missed = event ∷ events;
              parts = refl;
              messages = refl;
              ended = no_message event events x refl fails;
            })
    ]
stream_events-IsStreamed proto (suc sends) (event ∷ events) =
    let rest = stream_events-IsStreamed proto sends events in
    elim (Result-cases (event_to_proto proto event)) [
      | inl (mapped, fits) ↦
          rw (stream_events, fits)
            (record {
              passed = event ∷ rest.passed;
              missed = rest.missed;
              parts = ap (λ es. event ∷ es) rest.parts;
              messages = rw (events_to_proto, fits, rest.messages) refl;
              ended = Ended-suc proto sends mapped _ rest.missed _ rest.ended;
            })
      | inr (x, fails) ↦
          rw (stream_events, fails)
            (record {
              passed = [];
              missed = event ∷ events;
              parts = refl;
              messages = refl;
              ended = no_message event events x refl fails;
            })
    ]

newer-all :
    (after n : ℕ) (events : List Event)
    → NumberedFrom n events
    → after < n
    → newer after events ≡ events
unfolding newer
newer-all after n [] numbered below = refl
newer-all after n (event ∷ events) (first, rest) below =
    let others = newer-all after (suc n) events rest (omega (arith, below)) in
    ground (arith, others, first, below)

newer-skip :
    (after n : ℕ) (old new : List Event)
    → NumberedFrom n (old ++ new)
    → n + length old ≡ suc after
    → newer after (old ++ new) ≡ new
unfolding newer
newer-skip after n [] new numbered at = newer-all after n new numbered (omega (arith, at))
newer-skip after n (event ∷ old) new (first, rest) at =
    let others = newer-skip after (suc n) old new rest (omega (arith, at)) in
    ground (arith, others, first, at)

-- Where the events of the log are numbered from 1 and `Subscribe` succeeds for a client that has seen the
-- first ones, `old`, in any order of the appends that follow, the steps of the subscriber and its closing,
-- and wherever the channel ends: what comes out of the channel is a prefix of the other events of the log
-- followed by the appended ones. Of that the client is sent the messages of the first events, and the
-- stream ends where all have been sent, where the first event left has a message but so many have been
-- sent as calls of `Send` succeed, or where the first event left cannot be converted.
pub stream_events-IsPrefix :
    (proto : Protobuf) (sends : ℕ) (format : Format) (can_open : Bool) (old new : List Event)
    (store joined : Store) (received : List Event) {id : ℕ} {appended : List Event}
    {sub : Subscriber}
    → valid_prefix (scan format can_open store.file) ≡ ok (old ++ new)
    → NumberedFrom 1 (old ++ new)
    → subscribe format can_open (length old) store ≡ (ok id, joined)
    → Serves (new_subscriber id new) appended sub
    → IsPrefix received sub.sent
    → IsPrefix received (new ++ appended)
      × IsStreamed proto sends received (stream_events proto sends received)
stream_events-IsPrefix proto sends format can_open old new store joined received {id} {appended}
      {sub} read numbered h moves part =
    let skip = newer-skip (length old) 1 old new numbered (omega arith) in
    let from = subst (λ es. Serves (new_subscriber id es) appended sub) (sym skip) moves in
    let (_, all, _) = subscribe-IsPrefix format can_open (length old) store joined read h from in
    let sent = IsPrefix-trans received sub.sent _ part all in
    (
      subst (λ es. IsPrefix received (es ++ appended)) skip sent,
      stream_events-IsStreamed proto sends received,
    )
