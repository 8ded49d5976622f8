-- ===== src/Demo/Frames.antt =====
-- demo/adapter/adapter.go: the replay of a run, and what a client that polls is told.
use grael.Prelude.{
  ℕ, suc, ◌≡◌, refl, sym, ◌∙◌, ap, subst, arith, inl, inr, String, List, [], ◌∷◌, ◌++◌,
  append_assoc, append-nil,
}
use grael.Prelude.Lists.{length, length-append}
use grael.Result.{ok, Result-cases}
use grael.Runtime.{Event}
use grael.State.{ExecutionState, new}
use grael.State.Apply.{apply, replay, rehydrate}
use grael.State.View.{view}
use grael.Demo.Graph.{Snapshot, ReplayFrame, frame, frames_loop, build_replay_frames, snapshot_of}

-- The events of a log that `replay` accepts are each accepted on the way.
replay-step :
    (event : Event) (events : List Event) (s : ExecutionState) {st : ExecutionState}
    → replay (event ∷ events) s ≡ ok st
    → ((apply event s).0 ≡ ok tt) × (replay events (apply event s).1 ≡ ok st)
unfolding replay
replay-step event events s h = elim (Result-cases (apply event s).0) [
  | inl (_, accepted) ↦ (accepted, (rw (accepted, replay) at h))
  | inr (x, refused) ↦ absurd (ground (arith, refused, h))
]

replay-cons :
    (event : Event) (events : List Event) (s : ExecutionState)
    → (apply event s).0 ≡ ok tt
    → replay (event ∷ events) s ≡ replay events (apply event s).1
unfolding replay
replay-cons event events s accepted = rw (replay, accepted) refl

module _ (decimal : ℕ → String) where
  frames_loop-cons :
      (old : List Event) (event : Event) (events : List Event) (s : ExecutionState)
      → (apply event s).0 ≡ ok tt
      → frames_loop decimal old s (event ∷ events)
        ≡ frame decimal (apply event s).1 (old ++ event ∷ []) event
          ∷ frames_loop decimal (old ++ event ∷ []) (apply event s).1 events
  unfolding frames_loop
  frames_loop-cons old event events s accepted = rw (frames_loop, accepted) refl

  length-frames_loop :
      (old : List Event) (s : ExecutionState) (events more : List Event) {st : ExecutionState}
      → replay (events ++ more) s ≡ ok st
      → length (frames_loop decimal old s events) ≡ length events
  unfolding frames_loop
  length-frames_loop old s [] more h = refl
  length-frames_loop old s (event ∷ events) more h =
      let (accepted, rest) = replay-step event (events ++ more) s h in
      rw (frames_loop-cons old event events s accepted)
        (ap suc (length-frames_loop (old ++ event ∷ []) (apply event s).1 events more rest))

  -- The frame of `event` in the replay of `before ++ event ∷ more`, after the events `old`.
  abbrev FrameAt :
      (old : List Event) (s : ExecutionState) (before : List Event) (event : Event)
      (more : List Event)
      → Type 0
  FrameAt old s before event more =
      (shown : ExecutionState) × (later : List ReplayFrame) × (replay (before ++ event ∷ []) s
        ≡ ok shown)
      × (frames_loop decimal old s (before ++ event ∷ more)
          ≡ frames_loop decimal old s before
            ++ frame decimal shown ((old ++ before) ++ event ∷ []) event ∷ later)

  frames_loop-FrameAt :
      (old : List Event) (s : ExecutionState) (before : List Event) (event : Event)
      (more : List Event) {st : ExecutionState}
      → replay (before ++ event ∷ more) s ≡ ok st
      → FrameAt old s before event more
  unfolding replay frames_loop
  frames_loop-FrameAt old s [] event more h =
      let (accepted, rest) = replay-step event more s h in
      (
        (apply event s).1,
        frames_loop decimal (old ++ event ∷ []) (apply event s).1 more,
        replay-cons event [] s accepted,
        rw (append-nil old) (frames_loop-cons old event more s accepted),
      )
  frames_loop-FrameAt old s (first ∷ before) event more h =
      let (accepted, rest) = replay-step first (before ++ event ∷ more) s h in
      let (shown, later, made, split) =
        frames_loop-FrameAt (old ++ first ∷ []) (apply first s).1 before event more rest in
      (
        shown,
        later,
        replay-cons first (before ++ event ∷ []) s accepted ∙ made,
        rw
            (
              frames_loop-cons old first (before ++ event ∷ more) s accepted,
              frames_loop-cons old first before s accepted,
              ← append_assoc old (first ∷ []) before,
            )
            (ap (λ fs. frame decimal (apply first s).1 (old ++ first ∷ []) first ∷ fs) split),
      )

-- A frame shows the run as a snapshot does.
abbrev pub IsPicture : ReplayFrame → Snapshot → Type 0
IsPicture f snapshot =
    (f.graph ≡ snapshot.graph)
    × (f.phases ≡ snapshot.phases)
    × (f.timeline ≡ snapshot.timeline)
    × (f.run_state ≡ snapshot.run.state)

module _ (decimal : ℕ → String) where
  -- Where `Rehydrate` accepts a log, each event of it has one frame in the replay, behind as many
  -- frames as there are events before it; the frame has its number and shows what `Snapshot` makes of
  -- the log up to that event and of the state that `Rehydrate` gives for it.
  pub build_replay_frames-IsPicture :
      (before : List Event) (event : Event) (more : List Event) (after_seq : ℕ)
      {st : ExecutionState}
      → rehydrate (before ++ event ∷ more) ≡ ok st
      → (shown : ExecutionState) × (f : ReplayFrame) × (earlier later : List ReplayFrame)
        × (rehydrate (before ++ event ∷ []) ≡ ok shown)
        × (build_replay_frames decimal (before ++ event ∷ more) ≡ earlier ++ f ∷ later)
        × (length earlier ≡ length before)
        × (length later ≡ length more)
        × (f.seq ≡ event.seq)
        × IsPicture f (snapshot_of decimal (view shown) (before ++ event ∷ []) after_seq)
  unfolding rehydrate build_replay_frames frame snapshot_of
  build_replay_frames-IsPicture before event more after_seq {st} h =
      let (shown, later, made, split) = frames_loop-FrameAt decimal [] new before event more h in
      let count = length-frames_loop decimal [] new before (event ∷ more) h in
      let all =
        length-frames_loop decimal [] new (before ++ event ∷ more) []
          (subst (λ l. replay l new ≡ ok st) (sym (append-nil (before ++ event ∷ more))) h) in
      (
        shown,
        frame decimal shown (before ++ event ∷ []) event,
        frames_loop decimal [] new before,
        later,
        made,
        split,
        count,
        omega (
          arith,
          ap length split,
          length-append (frames_loop decimal [] new before)
              (frame decimal shown (before ++ event ∷ []) event ∷ later),
          length-append before (event ∷ more),
          all,
          count,
        ),
        refl,
        (refl, refl, refl, refl),
      )
