-- ===== src/Snapshot/Laws.antt =====
-- internal/snapshot/store.go: what a `Save` leaves for the next `Load`, at every answer of the system.
use grael.Prelude.{
  ℕ, ◌<◌, ◌≡◌, refl, sym, subst, ◌⊎◌, inl, inr, Bool-cases, Option-cases, arith, true, false,
  Option, none, some, ltb,
}
use grael.Prelude.Lists.{length}
use grael.Result.{
  Error, Result, ok, err, make_dir_failed, marshal_state_failed, marshal_snapshot_failed,
  open_failed, write_failed, decode_failed,
}
use grael.Runtime.{Time}
use grael.State.{ExecutionState}
use grael.Wal.{Bytes}
use grael.Wal.Store.{take}
use grael.Engine.Load.{found, unreadable}
use grael.Snapshot.{
  Codec, DiskSnapshot, SaveCalls, snapshot_checksum, disk_snapshot, write_file, save_file,
  read_snapshot, loaded_state, load_file, info,
}

-- What the store relies on: a state and a snapshot are decoded to what was encoded, and a part of the text
-- of an object is no text of JSON, since its last bracket is missing.
pub record IsSound (codec : Codec) (st : ExecutionState) : Type 0 where
  pub state_back :
      {bytes : Bytes} → codec.marshal_state st ≡ some bytes → codec.unmarshal_state bytes ≡ some st
  pub snapshot_back :
      (snap : DiskSnapshot) {bytes : Bytes}
      → codec.marshal_snapshot snap ≡ some bytes
      → codec.unmarshal_snapshot bytes ≡ some snap
  pub snapshot_prefix :
      (snap : DiskSnapshot) {bytes : Bytes} (n : ℕ)
      → codec.marshal_snapshot snap ≡ some bytes
      → n < length bytes
      → codec.unmarshal_snapshot (take n bytes) ≡ none

module _ (codec : Codec) where
  -- The file holds the state, as `Load` and `Info` tell.
  abbrev pub IsSaved : Option Bytes → ExecutionState → Time → Type 0
  IsSaved file st now =
      (load_file codec true file ≡ found st)
      × (info codec true st.run_id file
          ≡ ok (record { run_id = st.run_id; seq = st.last_seq; created_at = now; exists = true }))

  -- A call of a `Save` that fails, or has no answer.
  abbrev pub Fails : SaveCalls → ExecutionState → Type 0
  Fails calls st =
      (calls.make_dir ≡ false)
      ⊎ (calls.open_file ≡ false)
      ⊎ (calls.close_file ≡ false)
      ⊎ (codec.marshal_state st ≡ none)
      ⊎ (state_bytes : Bytes) × (codec.marshal_state st ≡ some state_bytes)
        × ((codec.marshal_snapshot (disk_snapshot codec calls.now st state_bytes) ≡ none)
            ⊎ (payload : Bytes) × (codec.marshal_snapshot
                  (disk_snapshot codec calls.now st state_bytes)
                ≡ some payload)
              × (calls.written < length payload))

  -- What a `Save` of a state may leave of the file.
  abbrev pub SaveOutcome :
      SaveCalls → ExecutionState → Option Bytes → Result (Unit {0}) × Option Bytes → Type 0
  SaveOutcome calls st file r =
      (r.0 ≡ ok tt) × IsSaved r.1 st calls.now
      ⊎ (e : Error) × (r.0 ≡ err e)
        × Fails calls st
        × ((r.1 ≡ file)
            ⊎ IsSaved r.1 st calls.now
            ⊎ (load_file codec true r.1 ≡ unreadable decode_failed))

  module _ (st : ExecutionState) (sound : IsSound codec st) where
    read_snapshot-saved :
        (now : Time) (state_bytes : Bytes) {payload : Bytes}
        → codec.marshal_snapshot (disk_snapshot codec now st state_bytes) ≡ some payload
        → read_snapshot codec payload ≡ ok (disk_snapshot codec now st state_bytes)
    unfolding read_snapshot disk_snapshot snapshot_checksum
    read_snapshot-saved now state_bytes packed =
        let back = sound.snapshot_back (disk_snapshot codec now st state_bytes) packed in
        rw (read_snapshot, back) (ground arith)

    encoded-IsSaved :
        (now : Time) (state_bytes : Bytes) {payload : Bytes}
        → codec.marshal_state st ≡ some state_bytes
        → codec.marshal_snapshot (disk_snapshot codec now st state_bytes) ≡ some payload
        → IsSaved (some payload) st now
    unfolding load_file info loaded_state disk_snapshot
    encoded-IsSaved now state_bytes made packed =
        let read = read_snapshot-saved now state_bytes packed in
        let back = sound.state_back made in
        (rw (load_file, read, loaded_state, back) refl, rw (info, read) refl)

    torn-unreadable :
        (now : Time) (state_bytes : Bytes) (n : ℕ) {payload : Bytes}
        → codec.marshal_snapshot (disk_snapshot codec now st state_bytes) ≡ some payload
        → n < length payload
        → load_file codec true (some (take n payload)) ≡ unreadable decode_failed
    unfolding load_file read_snapshot loaded_state
    torn-unreadable now state_bytes n packed part =
        rw
          (
            load_file,
            read_snapshot,
            sound.snapshot_prefix (disk_snapshot codec now st state_bytes) n packed part,
          )
          refl

    SaveOutcome-err :
        (calls : SaveCalls) (file left : Option Bytes) (e : Error)
        (r : Result (Unit {0}) × Option Bytes)
        → r ≡ (err e, left)
        → Fails calls st
        → (left ≡ file)
          ⊎ IsSaved left st calls.now
          ⊎ (load_file codec true left ≡ unreadable decode_failed)
        → SaveOutcome calls st file r
    SaveOutcome-err calls file left e r is fails rest =
        subst (SaveOutcome calls st file) (sym is) (inr (e, refl, fails, rest))

    write_file-Outcome :
        (calls : SaveCalls) (file : Option Bytes) (state_bytes payload : Bytes)
        → codec.marshal_state st ≡ some state_bytes
        → codec.marshal_snapshot (disk_snapshot codec calls.now st state_bytes) ≡ some payload
        → SaveOutcome calls st file (write_file calls payload file)
    unfolding write_file
    write_file-Outcome calls file state_bytes payload made packed =
        let saved = encoded-IsSaved calls.now state_bytes made packed in
        let r = write_file calls payload file in
        elim (Bool-cases calls.open_file) [
          | inr shut ↦
              SaveOutcome-err calls file file open_failed r (rw (write_file, shut) refl)
                (inr (inl shut)) (inl refl)
          | inl opened ↦ elim (Bool-cases (ltb calls.written (length payload))) [
            | inl part ↦
                let short : calls.written < length payload = ground (arith, part) in
                SaveOutcome-err calls file (some (take calls.written payload)) write_failed r
                  (rw (write_file, opened, part) refl)
                  (inr (inr (inr (inr (state_bytes, made, inr (payload, packed, short))))))
                  (inr (inr (torn-unreadable calls.now state_bytes calls.written packed short)))
            | inr all ↦ elim (Bool-cases calls.close_file) [
              | inl closed ↦ rw (write_file, opened, all, closed) (inl (refl, saved))
              | inr late ↦
                  SaveOutcome-err calls file (some payload) write_failed r
                    (rw (write_file, opened, all, late) refl) (inr (inr (inl late)))
                    (inr (inl saved))
            ]
          ]
        ]

    -- At every answer of the system, where encoding/json gives back what it has encoded and takes no
    -- part of a text, a `Save` reports no error and leaves a file of which `Load` gives the state
    -- and `Info` its number, or one of its calls fails, and it reports an error and leaves such a
    -- file, or the file as it was, or one that `Load` refuses as text that cannot be decoded.
    pub save_file-Outcome :
        (calls : SaveCalls) (file : Option Bytes)
        → SaveOutcome calls st file (save_file codec calls st file)
    unfolding save_file
    save_file-Outcome calls file =
        let r = save_file codec calls st file in
        elim (Bool-cases calls.make_dir) [
          | inr shut ↦
              SaveOutcome-err calls file file make_dir_failed r (rw (save_file, shut) refl)
                (inl shut) (inl refl)
          | inl made_dir ↦ elim (Option-cases (codec.marshal_state st)) [
            | inl failed ↦
                SaveOutcome-err calls file file marshal_state_failed r
                  (rw (save_file, made_dir, failed) refl) (inr (inr (inr (inl failed)))) (inl refl)
            | inr (state_bytes, made) ↦
                elim (Option-cases
                  (codec.marshal_snapshot (disk_snapshot codec calls.now st state_bytes))) [
                    | inl failed ↦
                        SaveOutcome-err calls file file marshal_snapshot_failed r
                          (rw (save_file, made_dir, made, failed) refl)
                          (inr (inr (inr (inr (state_bytes, made, inl failed))))) (inl refl)
                    | inr (payload, packed) ↦
                        let same : r ≡ write_file calls payload file =
                          rw (save_file, made_dir, made, packed) refl in
                        subst (SaveOutcome calls st file) (sym same)
                          (write_file-Outcome calls file state_bytes payload made packed)
                  ]
          ]
        ]
