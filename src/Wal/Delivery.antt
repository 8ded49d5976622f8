-- ===== src/Wal/Delivery.antt =====
-- internal/wal/wal.go: what a subscriber sends on its channel, in any order of the appends, the steps
-- of its goroutine, and its closing.
use grael.Prelude.{
  ℕ, suc, ◌≡◌, ◌⊎◌, inl, inr, refl, sym, subst, ap, Bool, true, false, Option, none, some, List, [],
  ◌∷◌, ◌++◌, append_assoc, append-nil, arith,
}
use grael.Runtime.{Event}
use grael.Result.{ok}
use grael.Wal.{Format}
use grael.Wal.Scan.{scan}
use grael.Wal.Store.{Store, valid_prefix, newer, subscribe}
use grael.Wal.Subscriber.{Subscriber, new_subscriber, enqueue, close, next, send, give_up}

-- The subscriber that is there after these appends, and after steps of its own.
pub data Serves (start : Subscriber) : List Event → Subscriber → Type 0 where
  stays : Serves start [] start
  told :
      {events : List Event} {sub : Subscriber} (event : Event)
      → Serves start events sub
      → Serves start (events ++ event ∷ []) (enqueue event sub)
  closes :
      {events : List Event} {sub : Subscriber}
      → Serves start events sub
      → Serves start events (close sub)
  takes :
      {events : List Event} {sub after : Subscriber}
      → Serves start events sub
      → sub.finished ≡ false
      → sub.in_hand ≡ none
      → next sub ≡ some after
      → Serves start events after
  sends :
      {events : List Event} {sub : Subscriber} (event : Event)
      → Serves start events sub
      → sub.finished ≡ false
      → sub.in_hand ≡ some event
      → Serves start events (send event sub)
  gives_up :
      {events : List Event} {sub after : Subscriber} (event : Event)
      → Serves start events sub
      → sub.finished ≡ false
      → sub.in_hand ≡ some event
      → give_up sub ≡ some after
      → Serves start events after

abbrev pub held : Option Event → List Event
held none = []
held (some event) = event ∷ []

-- Where the events are that the subscriber is to send, by how far it has come.
data Phase (sub : Subscriber) (all : List Event) : Type 0 where
  listening :
      sub.closed ≡ false
      → sub.finished ≡ false
      → sub.sent ++ (held sub.in_hand ++ sub.pending) ≡ all
      → Phase sub all
  closing :
      sub.closed ≡ true
      → sub.finished ≡ false
      → (missed : List Event) → sub.sent ++ (held sub.in_hand ++ (sub.pending ++ missed)) ≡ all
      → Phase sub all
  over :
      sub.closed ≡ true
      → sub.finished ≡ true
      → (missed : List Event) → sub.sent ++ missed ≡ all
      → Phase sub all

Phase-enqueue :
    (event : Event) (sub : Subscriber) (all : List Event)
    → Phase sub all
    → Phase (enqueue event sub) (all ++ event ∷ [])
unfolding enqueue
Phase-enqueue event sub all (listening c f e) =
    simp (c, enqueue, ← e) (listening refl f (simp append_assoc))
Phase-enqueue event sub all (closing c f missed e) =
    simp (c, enqueue, ← e) (closing c f (missed ++ event ∷ []) (simp append_assoc))
Phase-enqueue event sub all (over c f missed e) =
    simp (c, enqueue, ← e) (over c f (missed ++ event ∷ []) (simp append_assoc))

Phase-close : (sub : Subscriber) (all : List Event) → Phase sub all → Phase (close sub) all
unfolding close
Phase-close sub all (listening c f e) = closing refl f [] (rw append-nil e)
Phase-close sub all (closing c f missed e) = closing refl f missed e
Phase-close sub all (over c f missed e) = over refl f missed e

Phase-send :
    (event : Event) (sub : Subscriber) (all : List Event)
    → sub.finished ≡ false
    → sub.in_hand ≡ some event
    → Phase sub all
    → Phase (send event sub) all
unfolding send
Phase-send event sub all going hand (listening c f e) =
    listening c f (simp append_assoc (rw hand at e))
Phase-send event sub all going hand (closing c f missed e) =
    closing c f missed (simp append_assoc (rw hand at e))
Phase-send event sub all going hand (over c f missed e) = absurd (cc)

some_injective : {a b : Subscriber} → some a ≡ some b → a ≡ b
some_injective h = cc

Phase-give_up :
    (event : Event) (sub : Subscriber) {after : Subscriber} (all : List Event)
    → sub.finished ≡ false
    → sub.in_hand ≡ some event
    → give_up sub ≡ some after
    → Phase sub all
    → Phase after all
unfolding give_up
Phase-give_up event sub all going hand gone (listening c f e) =
    absurd (ground (arith, (simp (c, give_up) at gone)))
Phase-give_up event sub {after} all going hand gone (closing c f missed e) =
    let same : record sub { closed = true; in_hand = none; finished = true } ≡ after =
      some_injective (simp (c, give_up) at gone) in
    subst (λ s. Phase s all) same (over refl refl (event ∷ sub.pending ++ missed) (rw hand at e))
Phase-give_up event sub all going hand gone (over c f missed e) = absurd (cc)

Phase-next :
    (sub : Subscriber) {after : Subscriber} (all : List Event)
    → sub.finished ≡ false
    → sub.in_hand ≡ none
    → next sub ≡ some after
    → Phase sub all
    → Phase after all
unfolding next
Phase-next sub all going hand taken (over c f missed e) = absurd (cc)
Phase-next sub {after} all going hand taken (listening c f e) = go sub.pending refl
  where
    go : (events : List Event) → sub.pending ≡ events → Phase after all
    go [] p = absurd (ground (arith, (simp (p, c, next) at taken)))
    go (event ∷ events) p =
        let same : record sub { pending = events; in_hand = some event } ≡ after =
          some_injective (simp (p, next) at taken) in
        subst (λ s. Phase s all) same (listening c f (rw (hand, p) at e))
Phase-next sub {after} all going hand taken (closing c f missed e) = go sub.pending refl
  where
    go : (events : List Event) → sub.pending ≡ events → Phase after all
    go [] p =
        let same : record sub { pending = []; closed = true; finished = true } ≡ after =
          some_injective (simp (p, c, next) at taken) in
        subst (λ s. Phase s all) same (over refl refl missed (rw (hand, p) at e))
    go (event ∷ events) p =
        let same : record sub { pending = events; in_hand = some event } ≡ after =
          some_injective (simp (p, next) at taken) in
        subst (λ s. Phase s all) same (closing c f missed (rw (hand, p) at e))

Serves-Phase :
    {start sub : Subscriber} {events : List Event} (all : List Event)
    → Phase start all
    → Serves start events sub
    → Phase sub (all ++ events)
Serves-Phase all begun stays = rw append-nil begun
Serves-Phase all begun (told {events} {sub} event moves) =
    rw⁻¹ append_assoc (Phase-enqueue event sub _ (Serves-Phase all begun moves))
Serves-Phase all begun (closes {events} {sub} moves) =
    Phase-close sub _ (Serves-Phase all begun moves)
Serves-Phase all begun (takes {events} {sub} moves going hand taken) =
    Phase-next sub _ going hand taken (Serves-Phase all begun moves)
Serves-Phase all begun (sends {events} {sub} event moves going hand) =
    Phase-send event sub _ going hand (Serves-Phase all begun moves)
Serves-Phase all begun (gives_up {events} {sub} event moves going hand gone) =
    Phase-give_up event sub _ going hand gone (Serves-Phase all begun moves)

-- These events come first in that list.
abbrev pub IsPrefix : List Event → List Event → Type 0
IsPrefix first all = (rest : List Event) × (first ++ rest ≡ all)

Phase-IsPrefix : (sub : Subscriber) (all : List Event) → Phase sub all → IsPrefix sub.sent all
Phase-IsPrefix sub all (listening c f e) = (held sub.in_hand ++ sub.pending, e)
Phase-IsPrefix sub all (closing c f missed e) = (held sub.in_hand ++ (sub.pending ++ missed), e)
Phase-IsPrefix sub all (over c f missed e) = (missed, e)

Phase-rest :
    (sub : Subscriber) (all : List Event)
    → Phase sub all
    → (sub.closed ≡ true)
      ⊎ (sub.finished ≡ false) × (sub.sent ++ (held sub.in_hand ++ sub.pending) ≡ all)
Phase-rest sub all (listening c f e) = inr (f, e)
Phase-rest sub all (closing c f missed e) = inl c
Phase-rest sub all (over c f missed e) = inl c

ok_injective : {a b : ℕ} → ok a ≡ ok b → a ≡ b
ok_injective h = cc

-- What `Subscribe` adds to the store.
subscribe-joined :
    (format : Format) (can_open : Bool) (after : ℕ) (store joined : Store) {id : ℕ}
    {events : List Event}
    → valid_prefix (scan format can_open store.file) ≡ ok events
    → subscribe format can_open after store ≡ (ok id, joined)
    → joined.subscribers ≡ store.subscribers ++ new_subscriber id (newer after events) ∷ []
unfolding subscribe
subscribe-joined format can_open after store joined {id} {events} read h = go events read
  where
    go :
        (events : List Event)
        → valid_prefix (scan format can_open store.file) ≡ ok events
        → joined.subscribers ≡ store.subscribers ++ new_subscriber id (newer after events) ∷ []
    go [] p = absurd (ground (arith, (rw (p, subscribe) at h)))
    go (event ∷ events) p =
        let done = (rw (p, subscribe) at h) in
        let same_id : suc store.next_sub_id ≡ id = ok_injective (ap (λ pair. pair.0) done) in
        let same = ap (λ pair. pair.1.subscribers) done in rw⁻¹ same_id (sym same)

-- `Subscribe`, where it succeeds, adds a subscriber, and in any order of the appends that follow,
-- the steps of its goroutine and its closing, what it has sent is a prefix of the events of the
-- log after the given number, followed by the appended ones; and it is closed, or its goroutine
-- goes on and all of these events are the sent ones, the one in its hand and those in its queue,
-- in this order.
pub subscribe-IsPrefix :
    (format : Format) (can_open : Bool) (after : ℕ) (store joined : Store) {id : ℕ}
    {listed appended : List Event} {sub : Subscriber}
    → valid_prefix (scan format can_open store.file) ≡ ok listed
    → subscribe format can_open after store ≡ (ok id, joined)
    → Serves (new_subscriber id (newer after listed)) appended sub
    → (joined.subscribers ≡ store.subscribers ++ new_subscriber id (newer after listed) ∷ [])
      × IsPrefix sub.sent (newer after listed ++ appended)
      × ((sub.closed ≡ true)
          ⊎ (sub.finished ≡ false)
            × (sub.sent ++ (held sub.in_hand ++ sub.pending) ≡ newer after listed ++ appended))
subscribe-IsPrefix format can_open after store joined {listed} {appended} {sub} read h moves =
    let phase = Serves-Phase (newer after listed) (listening refl refl refl) moves in
    (
      subscribe-joined format can_open after store joined read h,
      Phase-IsPrefix sub _ phase,
      Phase-rest sub _ phase,
    )
