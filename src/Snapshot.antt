-- ===== src/Snapshot.antt =====
-- internal/snapshot/store.go: the snapshot file of one run, as bytes. The lock of the store makes each
-- method one step.
pub mod Laws
use grael.Prelude.{
  ℕ, String, Bool, true, false, not, Option, none, some, List, [], ◌∷◌, nat_eq, ltb, if◌then◌else◌,
}
use grael.Prelude.Lists.{length}
use grael.Result.{
  Error, Result, ok, err, Action, make_dir_failed, marshal_state_failed, marshal_snapshot_failed,
  open_failed, write_failed, read_failed, decode_failed, decode_state_failed, corrupt_snapshot,
}
use grael.Runtime.{Time}
use grael.State.{ExecutionState}
use grael.Wal.{Bytes}
use grael.Wal.Store.{take}
use grael.Engine.Load.{Loaded, missing, corrupt, unreadable, found}

pub record Info : Type 0 where
  pub run_id : String
  pub seq : ℕ
  pub created_at : Time
  pub exists : Bool

pub record DiskSnapshot : Type 0 where
  pub run_id : String
  pub seq : ℕ
  pub created_at : Time
  pub state : Bytes
  pub crc32 : ℕ

-- What the store calls of encoding/json and hash/crc32.
pub record Codec : Type 0 where
  pub marshal_state : ExecutionState → Option Bytes
  pub unmarshal_state : Bytes → Option ExecutionState
  pub marshal_snapshot : DiskSnapshot → Option Bytes
  pub unmarshal_snapshot : Bytes → Option DiskSnapshot
  pub checksum_ieee : Bytes → ℕ

-- How the system answers the calls of one `Save`. `os.WriteFile` empties the file as it opens it, then
-- `written` bytes of the text reach it, and it reports an error of the closing too.
pub record SaveCalls : Type 0 where
  pub make_dir : Bool
  pub open_file : Bool
  pub written : ℕ
  pub close_file : Bool
  pub now : Time

-- `os.WriteFile` on the file of the run.
unfoldable pub write_file : SaveCalls → Bytes → Action (Option Bytes) (Unit {0})
write_file calls text file =
    if not calls.open_file
    then (err open_failed, file)
    else if ltb calls.written (length text)
    then (err write_failed, some (take calls.written text))
    else if calls.close_file
    then (ok tt, some text)
    else (err write_failed, some text)

module _ (codec : Codec) where
  -- `checksum`. The error of the marshalling is dropped, which leaves no bytes.
  unfoldable pub snapshot_checksum : DiskSnapshot → ℕ
  snapshot_checksum snap = elim (codec.marshal_snapshot (record snap { crc32 = 0 })) [
    | none ↦ codec.checksum_ieee []
    | some payload ↦ codec.checksum_ieee payload
  ]

  -- The snapshot of a state, with its checksum.
  unfoldable pub disk_snapshot : Time → ExecutionState → Bytes → DiskSnapshot
  unfolding snapshot_checksum
  disk_snapshot now st state_bytes =
      let unsigned : DiskSnapshot = record {
        run_id = st.run_id;
        seq = st.last_seq;
        created_at = now;
        state = state_bytes;
        crc32 = 0;
      } in
      record unsigned { crc32 = snapshot_checksum unsigned }

  -- `Save`
  unfoldable pub save_file : SaveCalls → ExecutionState → Action (Option Bytes) (Unit {0})
  unfolding disk_snapshot write_file
  save_file calls st file =
      if not calls.make_dir then (err make_dir_failed, file) else elim (codec.marshal_state st) [
        | none ↦ (err marshal_state_failed, file)
        | some state_bytes ↦
            elim (codec.marshal_snapshot (disk_snapshot calls.now st state_bytes)) [
              | none ↦ (err marshal_snapshot_failed, file)
              | some payload ↦ write_file calls payload file
            ]
      ]

  -- What `Load` and `Info` read: the snapshot in the file, if its checksum is right.
  unfoldable pub read_snapshot : Bytes → Result DiskSnapshot
  unfolding snapshot_checksum
  read_snapshot content = elim (codec.unmarshal_snapshot content) [
    | none ↦ err decode_failed
    | some snap ↦
        if nat_eq (snapshot_checksum snap) snap.crc32 then ok snap else err corrupt_snapshot
  ]

  -- The answer of `Load` for what it has read.
  unfoldable pub loaded_state : Result DiskSnapshot → Loaded
  loaded_state (err corrupt_snapshot) = corrupt
  loaded_state (err e) = unreadable e
  loaded_state (ok snap) = elim (codec.unmarshal_state snap.state) [
    | none ↦ unreadable decode_state_failed
    | some st ↦ found st
  ]

  -- `Load`; `can_read` is that the reading of a file that is there succeeds.
  unfoldable pub load_file : (can_read : Bool) → Option Bytes → Loaded
  unfolding read_snapshot loaded_state
  load_file can_read none = missing
  load_file can_read (some content) =
      if can_read then loaded_state (read_snapshot content) else unreadable read_failed

  -- `Info`
  unfoldable pub info : (can_read : Bool) → (run_id : String) → Option Bytes → Result Info
  unfolding read_snapshot
  info can_read run_id none =
      ok (record { run_id = run_id; seq = 0; created_at = 0; exists = false })
  info can_read run_id (some content) =
      if not can_read then err read_failed else elim (read_snapshot content) [
        | err e ↦ err e
        | ok snap ↦ ok (record {
          run_id = snap.run_id;
          seq = snap.seq;
          created_at = snap.created_at;
          exists = true;
        })
      ]
