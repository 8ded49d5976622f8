-- ===== src/Tests/Snapshot.antt =====
-- A `Save` that is cut short, in a format of four bytes for each snapshot of one run.
use grael.Prelude.{
  ℕ, zero, suc, ◌+◌, ◌<◌, ◌≡◌, refl, subst, arith, true, String, Option, none, some, [], ◌∷◌, ◌==◌,
  eq_iff, if◌then◌else◌,
}
use grael.Prelude.Lists.{length}
use grael.Result.{err, write_failed}
use grael.State.{ExecutionState, new}
use grael.Wal.{Bytes}
use grael.Wal.Store.{take}
use grael.Engine.Load.{found}
use grael.Snapshot.{Codec, DiskSnapshot, SaveCalls, save_file, load_file}
use grael.Snapshot.Laws.{IsSound, SaveOutcome, save_file-Outcome}

abbrev saved_state : ExecutionState
saved_state = record new { run_id = "r"; last_seq = 3 }

abbrev sum : Bytes → ℕ
sum [] = 0
sum (b ∷ bs) = b + sum bs

abbrev unpack : Bytes → Option DiskSnapshot
unpack (seq ∷ created ∷ b ∷ crc ∷ []) =
    some (record { run_id = "r"; seq = seq; created_at = created; state = b ∷ []; crc32 = crc })
unpack _ = none

abbrev pack_parts : String → Bytes → (seq created crc : ℕ) → Option Bytes
pack_parts run_id (b ∷ []) seq created crc =
    if run_id == "r" then some (seq ∷ created ∷ b ∷ crc ∷ []) else none
pack_parts run_id _ seq created crc = none

abbrev unpack_state : Bytes → Option ExecutionState
unpack_state (seq ∷ []) = some (record saved_state { last_seq = seq })
unpack_state _ = none

abbrev short_codec : Codec
short_codec = record {
  marshal_state = λ st. some (st.last_seq ∷ []);
  unmarshal_state = unpack_state;
  marshal_snapshot = λ snap. pack_parts snap.run_id snap.state snap.seq snap.created_at snap.crc32;
  unmarshal_snapshot = unpack;
  checksum_ieee = sum;
}

-- The text of a snapshot has its four bytes.
pack_parts-some :
    (run_id : String) (state : Bytes) (seq created crc : ℕ) {bytes : Bytes}
    → pack_parts run_id state seq created crc ≡ some bytes
    → (b : ℕ) × (run_id ≡ "r") × (state ≡ b ∷ []) × (bytes ≡ seq ∷ created ∷ b ∷ crc ∷ [])
pack_parts-some run_id [] seq created crc h = absurd (cc)
pack_parts-some run_id (b ∷ []) seq created crc h =
    (b, ground (arith, eq_iff run_id "r"), refl, ground arith)
pack_parts-some run_id (b ∷ c ∷ bs) seq created crc h = absurd (cc)

unpack-short : (n a b c d : ℕ) → n < 4 → unpack (take n (a ∷ b ∷ c ∷ d ∷ [])) ≡ none
unpack-short zero a b c d part = refl
unpack-short (suc zero) a b c d part = refl
unpack-short (suc (suc zero)) a b c d part = refl
unpack-short (suc (suc (suc zero))) a b c d part = refl
unpack-short (suc (suc (suc (suc n)))) a b c d part = absurd (omega arith)

unpack-fields :
    (run_id : String) (state : Bytes) (seq created b crc : ℕ)
    → run_id ≡ "r"
    → state ≡ b ∷ []
    → unpack (seq ∷ created ∷ b ∷ crc ∷ [])
      ≡ some
          (record { run_id = run_id; seq = seq; created_at = created; state = state; crc32 = crc })
unpack-fields run_id state seq created b crc run_is state_is = rw (run_is, state_is) refl

short_codec-IsSound : IsSound short_codec saved_state
short_codec-IsSound = record {
  state_back = λ made. ground arith;
  snapshot_back = λ snap packed.
      let (b, run_is, state_is, text_is) =
        pack_parts-some snap.run_id snap.state snap.seq snap.created_at snap.crc32 packed in
      rw text_is (unpack-fields _ _ snap.seq snap.created_at b snap.crc32 run_is state_is);
  snapshot_prefix = λ snap n packed part.
      let (b, run_is, state_is, text_is) =
        pack_parts-some snap.run_id snap.state snap.seq snap.created_at snap.crc32 packed in
      rw text_is (unpack-short n _ _ _ _ (subst (λ l. n < length l) text_is part));
}

-- Two of the four bytes are written.
abbrev cut_short : SaveCalls
cut_short = record { make_dir = true; open_file = true; written = 2; close_file = true; now = 7 }

cut_save : save_file short_codec cut_short saved_state none ≡ (err write_failed, some (3 ∷ 7 ∷ []))
unfolding save_file
cut_save = refl

whole_save :
    load_file short_codec true
      (save_file short_codec (record cut_short { written = 4 }) saved_state none).1
    ≡ found saved_state
unfolding save_file load_file
whole_save = refl

save_file-Outcome_example :
    SaveOutcome short_codec cut_short saved_state
      (some (1 ∷ []))
      (save_file short_codec cut_short saved_state (some (1 ∷ [])))
save_file-Outcome_example =
    save_file-Outcome short_codec saved_state short_codec-IsSound cut_short (some (1 ∷ []))
