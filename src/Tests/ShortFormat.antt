-- ===== src/Tests/ShortFormat.antt =====
-- A format of the log with four bytes for each heartbeat of one node, at which the runs of the store
-- are computed.
use grael.Prelude.{
  ℕ, zero, suc, ◌+◌, ◌-◌, ◌<◌, ◌≡◌, refl, subst, subst₂, sym, true, ◌&&◌, ◌==◌, Option, none, some,
  [], ◌∷◌, String, eq_iff, ap, ◌∙◌, if◌then◌else◌, nat_eq, leb, arith,
}
use grael.Prelude.Lists.{length}
use grael.Runtime.{Payload, heartbeat_recorded}
use grael.Wal.{Bytes, DiskRecord, EventType, event_heartbeat_recorded, Format, is_null, event_type}
use grael.Wal.Store.{take}
use grael.Wal.History.{IsFaithful}

-- A number as a byte that is neither a newline nor a carriage return.
abbrev pub byte : ℕ → ℕ
byte n = n + 14

abbrev pack : Payload → Option Bytes
pack (heartbeat_recorded id worker attempt) =
    if (id == "a") && (worker == "w") then some (byte attempt ∷ []) else none
pack _ = none

abbrev unpack : EventType → Bytes → Option Payload
unpack event_heartbeat_recorded (b ∷ []) = some (heartbeat_recorded "a" "w" (b - 14))
unpack _ _ = none

abbrev pack_fields : EventType → Bytes → String → ℕ → ℕ → ℕ → Option Bytes
pack_fields event_heartbeat_recorded (b ∷ []) run_id seq time crc =
    if (run_id == "r") && leb 14 b then some (byte seq ∷ byte time ∷ b ∷ byte crc ∷ []) else none
pack_fields _ _ run_id seq time crc = none

abbrev pack_record : DiskRecord → Option Bytes
pack_record r = pack_fields r.type_of r.payload r.run_id r.seq r.timestamp r.crc32

abbrev unpack_record : Bytes → Option DiskRecord
unpack_record (s ∷ t ∷ b ∷ c ∷ []) = some (record {
  seq = s - 14;
  run_id = "r";
  type_of = event_heartbeat_recorded;
  timestamp = t - 14;
  payload = b ∷ [];
  crc32 = c - 14;
})
unpack_record _ = none

abbrev pub total : Bytes → ℕ
total [] = 0
total (b ∷ bs) = b + total bs

abbrev pub short_format : Format
short_format = record {
  marshal_payload = pack;
  marshal_record = pack_record;
  unmarshal_record = unpack_record;
  unmarshal_payload = unpack;
  checksum_ieee = total;
  is_blank = λ bytes. nat_eq (length bytes) 0;
}

pack-some :
    (p : Payload) {raw : Bytes}
    → pack p ≡ some raw
    → (n : ℕ) × (p ≡ heartbeat_recorded "a" "w" n) × (raw ≡ byte n ∷ [])
pack-some (heartbeat_recorded id worker n) {raw} h =
    let same_id : id ≡ "a" = ground (arith, eq_iff id "a") in
    let same_worker : worker ≡ "w" = ground (arith, eq_iff worker "w") in
    (
      n,
      ap (λ i. heartbeat_recorded i worker n) same_id
          ∙ ap (λ w. heartbeat_recorded "a" w n) same_worker,
      ground arith,
    )
pack-some p h = absurd (cc)

record IsPacked (r : DiskRecord) (line : Bytes) : Type 0 where
  byte_of : ℕ
  type_is : r.type_of ≡ event_heartbeat_recorded
  payload_is : r.payload ≡ byte_of ∷ []
  run_is : r.run_id ≡ "r"
  high : leb 14 byte_of ≡ true
  line_is : line ≡ byte r.seq ∷ byte r.timestamp ∷ byte_of ∷ byte r.crc32 ∷ []

pack_fields-IsPacked :
    (type_of : EventType) (payload : Bytes) (run_id : String) (seq time crc : ℕ) {line : Bytes}
    → pack_fields type_of payload run_id seq time crc ≡ some line
    → IsPacked
        (record {
          seq = seq;
          run_id = run_id;
          type_of = type_of;
          timestamp = time;
          payload = payload;
          crc32 = crc;
        })
        line
pack_fields-IsPacked event_heartbeat_recorded (b ∷ []) run_id seq time crc h = record {
  byte_of = b;
  type_is = refl;
  payload_is = refl;
  run_is = ground (arith, eq_iff run_id "r");
  high = ground arith;
  line_is = ground arith;
}
pack_fields-IsPacked type_of payload run_id seq time crc h = absurd (cc)

pack_record-IsPacked : (r : DiskRecord) {line : Bytes} → pack_record r ≡ some line → IsPacked r line
pack_record-IsPacked r h =
    pack_fields-IsPacked r.type_of r.payload r.run_id r.seq r.timestamp r.crc32 h

byte_back : (n : ℕ) → n + 14 - 14 ≡ n
byte_back n = omega arith

-- Fewer than four bytes are no record.
prefix_none : (n a b c d : ℕ) → n < 4 → unpack_record (take n (a ∷ b ∷ c ∷ d ∷ [])) ≡ none
prefix_none zero a b c d part = refl
prefix_none (suc zero) a b c d part = refl
prefix_none (suc (suc zero)) a b c d part = refl
prefix_none (suc (suc (suc zero))) a b c d part = refl
prefix_none (suc (suc (suc (suc n)))) a b c d part = absurd (omega arith)

unpack_fields :
    (seq time crc b : ℕ) (type_of : EventType) (payload : Bytes) (run_id : String)
    → type_of ≡ event_heartbeat_recorded
    → payload ≡ b ∷ []
    → run_id ≡ "r"
    → unpack_record (byte seq ∷ byte time ∷ b ∷ byte crc ∷ [])
      ≡ some (record {
        seq = seq;
        run_id = run_id;
        type_of = type_of;
        timestamp = time;
        payload = payload;
        crc32 = crc;
      })
unpack_fields seq time crc b type_of payload run_id type_is payload_is run_is =
    rw (type_is, payload_is, run_is, byte_back seq, byte_back time, byte_back crc)

pub short_format-IsFaithful : IsFaithful short_format
unfolding is_null event_type
short_format-IsFaithful = record {
  record_back = λ p r packed signed.
      let f = pack_record-IsPacked r signed in
      rw f.line_is
        (unpack_fields r.seq r.timestamp r.crc32 f.byte_of _ _ _ f.type_is f.payload_is f.run_is);
  payload_back = λ p packed.
      let (n, p_is, raw_is) = pack-some p packed in
      subst₂ (λ q bytes. unpack (event_type q) bytes ≡ some q) (sym p_is) (sym raw_is)
        (rw byte_back);
  payload_object = λ p packed. let (n, p_is, raw_is) = pack-some p packed in rw raw_is refl;
  line_plain =
      λ r signed. let f = pack_record-IsPacked r signed in rw f.line_is (ground (arith, f.high));
  line_text = λ r signed. rw (pack_record-IsPacked r signed).line_is refl;
  line_prefix = λ r n signed part.
      let f = pack_record-IsPacked r signed in
      rw f.line_is (prefix_none n _ _ _ _ (subst (λ l. n < length l) f.line_is part));
}
