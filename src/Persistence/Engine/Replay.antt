-- ===== src/Persistence/Engine/Replay.antt =====
-- The replay of src/persistence/engine.cpp, on the records of durable commands.
use distributed_data_store.Prelude.{
  ℕ, suc, ◌+◌, ◌%◌, ◌^◌, ◌≤◌, ◌<◌, ◌≡◌, refl, true, false, none, some, List, [], ◌∷◌, ◌++◌,
  append_assoc, append-nil, Bytes, length, leb, arith, All, ℤ, IsInt64, ◌∙◌, ap,
}
use distributed_data_store.Store.{Store, Platform, Reading}
use distributed_data_store.Store.Update.{clear}
use distributed_data_store.Persistence.Result.{ok}
use distributed_data_store.Persistence.Binary.{
  append_u8, append_i64, append_bytes, read_u8, read_i64,
}
use distributed_data_store.Persistence.Binary.RoundTrip.{
  read_u8-append, read_u32-append, read_i64-append, read_bytes-append,
}
use distributed_data_store.Persistence.Wal.{
  WalOpcode, set, del, expire, WalRecord, opcode_value, opcode_of,
}
use distributed_data_store.Persistence.Wal.Payload.{
  encode_set_payload, encode_expiry, encode_keys, encode_del_payload, encode_expire_payload,
}
use distributed_data_store.Persistence.Wal.Recovery.{IsRecord}
use distributed_data_store.Persistence.Wal.Torn.{
  log_file, Increasing, open_and_recover-log_file, reopened_at,
}
use distributed_data_store.Persistence.Snapshot.{from_unix_ms, read_items, read_deadline}
use distributed_data_store.Persistence.Engine.{
  Engine, Change, set_change, del_change, expire_change, read_set, read_del, read_expire,
  read_change, apply_change, apply_record, replay, import_entries, loaded, snapshot_offset_of,
  entries_of, recover_into,
}

-- A durable command as it is logged: SET without a deadline, DEL, and EXPIRE with its deadline in
-- milliseconds.
pub data Command : Type 0 where
  set_command : Bytes → Bytes → Command
  del_command : List Bytes → Command
  expire_command : Bytes → ℤ → Command

unfoldable pub opcode_for : Command → WalOpcode
opcode_for (set_command key value) = set
opcode_for (del_command keys) = del
opcode_for (expire_command key ms) = expire

unfoldable pub payload_for : Command → Bytes
payload_for (set_command key value) = encode_set_payload key value none
payload_for (del_command keys) = encode_del_payload keys
payload_for (expire_command key ms) = encode_expire_payload key ms

abbrev pub change_for : Command → Change
change_for (set_command key value) = set_change key value none
change_for (del_command keys) = del_change keys
change_for (expire_command key ms) = expire_change key (from_unix_ms ms)

abbrev AreShort : List Bytes → Type 0
AreShort = All (λ key. length key < 2 ^ 32)

-- Every length fits its 32-bit field, and the deadline its 64-bit one.
abbrev pub FitsFields : Command → Type 0
FitsFields (set_command key value) = (length key < 2 ^ 32) × (length value < 2 ^ 32)
FitsFields (del_command keys) = (length keys < 2 ^ 32) × AreShort keys
FitsFields (expire_command key ms) = (length key < 2 ^ 32) × IsInt64 ms

pub read_items-encode_keys :
    (keys : List Bytes) (rest : Bytes)
    → AreShort keys
    → read_items (length keys) (encode_keys keys ++ rest) ≡ ok (keys, rest)
unfolding read_items encode_keys
read_items-encode_keys [] rest short = refl
read_items-encode_keys (key ∷ keys) rest short = rw (
  append_assoc (append_bytes key) (encode_keys keys) rest,
  read_bytes-append key (encode_keys keys ++ rest) short.0,
  read_items-encode_keys keys rest short.1,
)

read_i64-append_end : (z : ℤ) → IsInt64 z → read_i64 (append_i64 z) ≡ ok (z, [])
read_i64-append_end z h = let whole = read_i64-append z [] h in rw append-nil at whole

read_items-encode_keys_end :
    (keys : List Bytes)
    → AreShort keys
    → read_items (length keys) (encode_keys keys) ≡ ok (keys, [])
read_items-encode_keys_end keys short =
    let whole = read_items-encode_keys keys [] short in rw append-nil at whole

read_u8-append_end : (v : ℕ) → v < 2 ^ 8 → read_u8 (append_u8 v) ≡ ok (v, [])
read_u8-append_end v h = let whole = read_u8-append v [] h in rw append-nil at whole

-- The payload of a durable command, as the engine writes it, is read back as that command with
-- nothing left over, when its lengths fit 32 bits and its deadline 64.
pub read_change-payload :
    (c : Command)
    → FitsFields c
    → read_change (opcode_for c) (payload_for c) ≡ ok (change_for c, [])
unfolding read_change opcode_for payload_for read_set read_del read_expire encode_set_payload
    encode_del_payload encode_expire_payload encode_expiry read_deadline
read_change-payload (set_command key value) fits = rw (
  read_bytes-append key (append_bytes value ++ append_u8 0) fits.0,
  read_bytes-append value (append_u8 0) fits.1,
  read_u8-append_end 0 (omega arith),
)
read_change-payload (del_command keys) fits =
    let small : length keys % 2 ^ 32 ≡ length keys = omega arith in
    rw (
      small,
      read_u32-append (length keys) (encode_keys keys) fits.0,
      read_items-encode_keys_end keys fits.1,
    )
read_change-payload (expire_command key ms) fits =
    rw (read_bytes-append key (append_i64 ms) fits.0, read_i64-append_end ms fits.1)

-- The records that a log holds after the commands, the first with the offset `start + 1`.
abbrev pub records_from : ℕ → List Command → List WalRecord
records_from start [] = []
records_from start (c ∷ cs) =
    record { offset = start + 1; opcode = opcode_for c; payload = payload_for c }
    ∷ records_from (start + 1) cs

-- The record fits the format too.
abbrev pub IsSmall : Command → Type 0
IsSmall c = FitsFields c × (length (payload_for c) + 18 < 2 ^ 32)

small-FitsFields : (cs : List Command) → All IsSmall cs → All FitsFields cs
small-FitsFields [] small = tt
small-FitsFields (c ∷ cs) small = (small.0.0, small-FitsFields cs small.1)

pub IsSmall-drop : (old new : List Command) → All IsSmall (old ++ new) → All IsSmall new
IsSmall-drop [] new small = small
IsSmall-drop (c ∷ old) new small = IsSmall-drop old new small.1

opcode_for-fits : (c : Command) → opcode_value (opcode_for c) < 2 ^ 16
unfolding opcode_for opcode_value
opcode_for-fits (set_command key value) = omega arith
opcode_for-fits (del_command keys) = omega arith
opcode_for-fits (expire_command key ms) = omega arith

opcode_for-known : (c : Command) → opcode_of (opcode_value (opcode_for c)) ≡ opcode_for c
unfolding opcode_for opcode_value opcode_of
opcode_for-known (set_command key value) = refl
opcode_for-known (del_command keys) = refl
opcode_for-known (expire_command key ms) = refl

pub records_from-IsRecord :
    (start : ℕ) (cs : List Command)
    → All IsSmall cs
    → start + length cs < 2 ^ 64
    → All IsRecord (records_from start cs)
records_from-IsRecord start [] small few = tt
records_from-IsRecord start (c ∷ cs) small few = (
  record {
    offset_fits = omega arith;
    opcode_fits = opcode_for-fits c;
    opcode_known = opcode_for-known c;
    payload_fits = small.0.1;
  },
  records_from-IsRecord (start + 1) cs small.1 (omega arith),
)

records_from-Increasing : (start : ℕ) (cs : List Command) → Increasing start (records_from start cs)
records_from-Increasing start [] = tt
records_from-Increasing start (c ∷ cs) = (omega arith, records_from-Increasing (start + 1) cs)

module _ (platform : Platform) where
  -- The commands one after the other on the store, each with its own readings of the clock.
  unfoldable pub run_all : (ℕ → Reading × Reading) → ℕ → List Command → Store → Store
  run_all clock t [] s = s
  run_all clock t (c ∷ cs) s =
      run_all clock (suc t) cs (apply_change platform (clock t).0 (clock t).1 (change_for c) s)

  replay-records_from :
      (clock : ℕ → Reading × Reading) (t start skip : ℕ) (cs : List Command) (s : Store)
      → All FitsFields cs
      → skip ≤ start
      → replay platform clock t skip (records_from start cs) s ≡ ok (run_all clock t cs s)
  unfolding replay apply_record run_all
  replay-records_from clock t start skip [] s fit after = refl
  replay-records_from clock t start skip (c ∷ cs) s fit after =
      let above : leb (start + 1) skip ≡ false = ground arith in
      rw (
        above,
        read_change-payload c fit.0,
        replay-records_from clock (suc t) (start + 1) skip cs
            (apply_change platform (clock t).0 (clock t).1 (change_for c) s) fit.1 (omega arith),
      )

  replay-skipped :
      (clock : ℕ → Reading × Reading) (t start skip : ℕ) (cs : List Command) (s : Store)
      → start + length cs ≤ skip
      → replay platform clock t skip (records_from start cs) s ≡ ok s
  unfolding replay
  replay-skipped clock t start skip [] s below = refl
  replay-skipped clock t start skip (c ∷ cs) s below =
      let passed : leb (start + 1) skip ≡ true = ground arith in
      rw (passed, replay-skipped clock (suc t) (start + 1) skip cs s (omega arith))

  replay-append :
      (clock : ℕ → Reading × Reading) (t start skip : ℕ) (old new : List Command) (s : Store)
      → All FitsFields new
      → start + length old ≡ skip
      → replay platform clock t skip (records_from start (old ++ new)) s
        ≡ ok (run_all clock (t + length old) new s)
  unfolding replay
  replay-append clock t start skip [] new s fit at =
      replay-records_from clock t start skip new s fit (omega arith)
      ∙ ap (λ (n : ℕ). ok (run_all clock n new s)) (omega arith)
  replay-append clock t start skip (c ∷ old) new s fit at =
      let passed : leb (start + 1) skip ≡ true = ground arith in
      rw (passed, replay-append clock (suc t) (start + 1) skip old new s fit (omega arith))
        (ap (λ (n : ℕ). ok (run_all clock n new s)) (omega arith))

  replay-append_first :
      (clock : ℕ → Reading × Reading) (skip : ℕ) (old new : List Command) (s : Store)
      → All FitsFields new
      → skip ≡ length old
      → replay platform clock 0 skip (records_from 0 (old ++ new)) s
        ≡ ok (run_all clock (length old) new s)
  replay-append_first clock skip old new s fit at =
      replay-append clock 0 0 skip old new s fit (omega arith)
      ∙ ap (λ (n : ℕ). ok (run_all clock n new s)) (omega arith)

  -- The store that the snapshot holds.
  abbrev pub from_snapshot : (ℕ → Reading) → Engine → Store → Store
  from_snapshot clock e s =
      import_entries platform clock 0 (entries_of (loaded e.snapshot)) (clear s)

  -- The recovery in terms of the replay's own step.
  pub recover_into-run_all :
      (import_clock : ℕ → Reading) (clock : ℕ → Reading × Reading) (old new : List Command)
      (e : Engine) (s : Store)
      → All IsSmall (old ++ new)
      → length (old ++ new) < 2 ^ 64
      → snapshot_offset_of (loaded e.snapshot) ≡ length old
      → recover_into platform import_clock clock (log_file (records_from 0 (old ++ new))) e s
        ≡ ok (
          run_all clock (length old) new (from_snapshot import_clock e s),
          record e {
            wal = some (
                reopened_at
                  (log_file (records_from 0 (old ++ new)))
                  []
                  (records_from 0 (old ++ new)));
          },
        )
  unfolding recover_into
  recover_into-run_all import_clock clock old new e s small few at = rw (
    open_and_recover-log_file (records_from 0 (old ++ new))
        (records_from-IsRecord 0 (old ++ new) small (omega arith))
        (records_from-Increasing 0 (old ++ new)),
    replay-append_first clock (snapshot_offset_of (loaded e.snapshot)) old new
        (from_snapshot import_clock e s) (small-FitsFields new (IsSmall-drop old new small)) at,
  )

  -- Every command whose offset the snapshot's covers is passed over.
  pub recover_into-skipped :
      (import_clock : ℕ → Reading) (clock : ℕ → Reading × Reading) (cs : List Command) (e : Engine)
      (s : Store)
      → All IsSmall cs
      → length cs < 2 ^ 64
      → length cs ≤ snapshot_offset_of (loaded e.snapshot)
      → recover_into platform import_clock clock (log_file (records_from 0 cs)) e s
        ≡ ok (
          from_snapshot import_clock e s,
          record e {
            wal = some (reopened_at (log_file (records_from 0 cs)) [] (records_from 0 cs));
          },
        )
  unfolding recover_into
  recover_into-skipped import_clock clock cs e s small few below = rw (
    open_and_recover-log_file (records_from 0 cs) (records_from-IsRecord 0 cs small (omega arith))
        (records_from-Increasing 0 cs),
    replay-skipped clock 0 0 (snapshot_offset_of (loaded e.snapshot)) cs
        (from_snapshot import_clock e s) (omega arith),
  )
