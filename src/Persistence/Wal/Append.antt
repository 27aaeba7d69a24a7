-- ===== src/Persistence/Wal/Append.antt =====
-- `append` of src/persistence/wal.cpp, the file that it leaves, and a recovery from it.
use Prim.Native.Nat.add
use native.Mathlib.Nat.{add-zero}
use distributed_data_store.Prelude.{
  ℕ, zero, suc, ◌+◌, ◌^◌, ◌<◌, ◌≡◌, refl, true, [], ◌∷◌, ◌++◌, List, append_assoc, append-nil,
  arith, Bytes, length, take, drop, length-drop, take-append-drop, All, ap, sym, Option, some, none,
}
use distributed_data_store.Persistence.Result.{Result, ok, err}
use distributed_data_store.Persistence.Wal.{
  WalRecord, WalWriter, encode_record, open_and_recover, write_all, append, finish_append,
  WriteResult, wrote, interrupted, failed, WriteStatus, written, os_error, short_write, waiting,
  AppendResult, appended, WalOpcode, next_record,
}
use distributed_data_store.Persistence.Wal.Recovery.{IsRecord}
use distributed_data_store.Persistence.Wal.Torn.{
  encode_all, Increasing, final_offset, log_file, open_and_recover-log_file, open_and_recover-torn,
}

take-append-take {ℓ} :
    {A : Type ℓ} (n k : ℕ) (xs : List A) → take n xs ++ take k (drop n xs) ≡ take (n + k) xs
take-append-take zero k xs = ap (λ (m : ℕ). take m xs) (omega arith)
take-append-take (suc n) zero [] = rw add-zero
take-append-take (suc n) (suc k) [] = rw add.suc
take-append-take (suc n) k (x ∷ xs) =
    let e : suc n + k ≡ suc (n + k) = omega arith in rw (e, take-append-take n k xs)

-- What `out` is, of the bytes that write_all was given.
abbrev pub Outcome : WriteStatus → Bytes → Bytes → Type 0
Outcome written out bytes = out ≡ bytes
Outcome _ out bytes = (n : ℕ) × (n < length bytes) × (out ≡ take n bytes)

Outcome-cut :
    (n : ℕ) (b : ℕ) (bytes rest : Bytes)
    → (k : ℕ) × (k < length (drop n bytes)) × (rest ≡ take k (drop n bytes))
    → (k : ℕ) × (k < length (b ∷ bytes)) × (b ∷ (take n bytes ++ rest) ≡ take k (b ∷ bytes))
Outcome-cut n b bytes rest (k, lt, e) =
    (suc (n + k), omega (arith, length-drop n bytes), rw (e, take-append-take n k bytes))

Outcome-step :
    (status : WriteStatus) (n : ℕ) (b : ℕ) (bytes rest : Bytes)
    → Outcome status rest (drop n bytes)
    → Outcome status (b ∷ (take n bytes ++ rest)) (b ∷ bytes)
Outcome-step written n b bytes rest h = rw (h, take-append-drop n bytes)
Outcome-step os_error n b bytes rest h = Outcome-cut n b bytes rest h
Outcome-step short_write n b bytes rest h = Outcome-cut n b bytes rest h
Outcome-step waiting n b bytes rest h = Outcome-cut n b bytes rest h

-- Whatever `::write` answers, write_all writes a prefix of its bytes: all of them if it returns,
-- and fewer if it throws or has not returned.
pub write_all-Outcome :
    (answers : List WriteResult) (bytes : Bytes)
    → Outcome (write_all answers bytes).0 (write_all answers bytes).1 bytes
unfolding write_all
write_all-Outcome answers [] = refl
write_all-Outcome [] (b ∷ bytes) = (0, omega arith, refl)
write_all-Outcome (interrupted ∷ answers) (b ∷ bytes) = write_all-Outcome answers (b ∷ bytes)
write_all-Outcome (failed ∷ answers) (b ∷ bytes) = (0, omega arith, refl)
write_all-Outcome (wrote zero ∷ answers) (b ∷ bytes) = (0, omega arith, refl)
write_all-Outcome (wrote (suc n) ∷ answers) (b ∷ bytes) =
    Outcome-step (write_all answers (drop n bytes)).0 n b bytes (write_all answers (drop n bytes)).1
      (write_all-Outcome answers (drop n bytes))

-- The writer stands behind a log of these records.
pub record IsLog (wal : WalWriter) (rs : List WalRecord) : Type 0 where
  pub opened : wal.is_open ≡ true
  pub content : wal.file ≡ log_file rs
  pub offsets : wal.last_offset ≡ final_offset 0 rs
  pub fits : All IsRecord rs
  pub increasing : Increasing 0 rs

encode_all-append :
    (rs : List WalRecord) (r : WalRecord)
    → encode_all (rs ++ r ∷ []) ≡ encode_all rs ++ encode_record r
encode_all-append [] r = append-nil (encode_record r)
encode_all-append (q ∷ rs) r = simp (encode_all-append rs r, append_assoc)

Increasing-append :
    (rs : List WalRecord) (r : WalRecord) (last : ℕ)
    → Increasing last rs
    → final_offset last rs < r.offset
    → Increasing last (rs ++ r ∷ [])
Increasing-append [] r last up h = (h, tt)
Increasing-append (q ∷ rs) r last up h = (up.0, Increasing-append rs r q.offset up.1 h)

final_offset-append :
    (rs : List WalRecord) (r : WalRecord) (last : ℕ) → final_offset last (rs ++ r ∷ []) ≡ r.offset
final_offset-append [] r last = refl
final_offset-append (q ∷ rs) r last = final_offset-append rs r q.offset

All-append_one :
    (rs : List WalRecord) (r : WalRecord)
    → All IsRecord rs
    → IsRecord r
    → All IsRecord (rs ++ r ∷ [])
All-append_one [] r all h = (h, tt)
All-append_one (q ∷ rs) r all h = (all.0, All-append_one rs r all.1 h)

-- The records that a recovery finds after a call of `append`.
abbrev pub surviving : AppendResult → List WalRecord → WalRecord → List WalRecord
surviving (appended offset) rs r = rs ++ r ∷ []
surviving _ rs r = rs

abbrev pub recovered : Result (List WalRecord × WalWriter) → Option (List WalRecord)
recovered (ok (rs, wal)) = some rs
recovered (err e) = none

module _ (wal : WalWriter) (rs : List WalRecord) (opcode : WalOpcode) (payload : Bytes)
    (log : IsLog wal rs) (room : wal.last_offset + 1 < 2 ^ 64)
    (fits : IsRecord (next_record wal opcode payload)) where
  abbrev new_record : WalRecord
  new_record = next_record wal opcode payload

  above : final_offset 0 rs < new_record.offset
  above = omega (arith, log.offsets)

  -- A successful append extends the log by its record.
  extended :
      IsLog
        (finish_append wal new_record.offset (written, encode_record new_record)).1
        (rs ++ new_record ∷ [])
  unfolding finish_append
  extended = record {
    opened = log.opened;
    content = rw (log.content, encode_all-append rs new_record, append_assoc);
    offsets = sym (final_offset-append rs new_record 0);
    fits = All-append_one rs new_record log.fits fits;
    increasing = Increasing-append rs new_record 0 log.increasing above;
  }

  finish-IsLog :
      (status : WriteStatus) (bytes : Bytes) (offset : ℕ)
      → Outcome status bytes (encode_record new_record)
      → (finish_append wal new_record.offset (status, bytes)).0 ≡ appended offset
      → IsLog (finish_append wal new_record.offset (status, bytes)).1 (rs ++ new_record ∷ [])
  unfolding finish_append
  finish-IsLog written bytes offset e h = rw e extended
  finish-IsLog os_error bytes offset e h = cc
  finish-IsLog short_write bytes offset e h = cc
  finish-IsLog waiting bytes offset e h = cc

  -- For a writer behind a log of well-formed records, with an offset below 2^64 - 1 and a record
  -- that fits the format, an append that returns leaves the writer behind the log with that record
  -- at its end.
  pub append-IsLog :
      (answers : List WriteResult) (offset : ℕ)
      → (append answers wal opcode payload).0 ≡ appended offset
      → IsLog (append answers wal opcode payload).1 (rs ++ new_record ∷ [])
  unfolding append
  append-IsLog answers offset h = simp log.opened (
      finish-IsLog (write_all answers (encode_record new_record)).0
        (write_all answers (encode_record new_record)).1 offset
        (write_all-Outcome answers (encode_record new_record)) (simp log.opened at h))

  recovered-cut :
      (n : ℕ)
      → n < length (encode_record new_record)
      → recovered (open_and_recover (wal.file ++ take n (encode_record new_record))) ≡ some rs
  recovered-cut zero lt =
      rw (append-nil, log.content, open_and_recover-log_file rs log.fits log.increasing)
  recovered-cut (suc n) lt = rw (
    log.content,
    open_and_recover-torn rs new_record (suc n) log.fits log.increasing fits (omega arith) lt,
  )

  recovered-finish :
      (status : WriteStatus) (bytes : Bytes)
      → Outcome status bytes (encode_record new_record)
      → recovered (open_and_recover (finish_append wal new_record.offset (status, bytes)).1.file)
        ≡ some (surviving (finish_append wal new_record.offset (status, bytes)).0 rs new_record)
  unfolding finish_append
  recovered-finish written bytes e = rw (
    e,
    extended.content,
    open_and_recover-log_file (rs ++ new_record ∷ []) extended.fits extended.increasing,
  )
  recovered-finish os_error bytes (k, lt, e) = rw (e, recovered-cut k lt)
  recovered-finish short_write bytes (k, lt, e) = rw (e, recovered-cut k lt)
  recovered-finish waiting bytes (k, lt, e) = rw (e, recovered-cut k lt)

  -- Crash safety of one append, for a writer that stands behind a log of well-formed records, with
  -- an offset below 2^64 and a record that fits the format: whatever `::write` answers and
  -- wherever it stops, opening the file afterwards recovers the records before it, and the new one
  -- exactly if `append` returned its offset.
  pub append_crash_safe :
      (answers : List WriteResult)
      → recovered (open_and_recover (append answers wal opcode payload).1.file)
        ≡ some (surviving (append answers wal opcode payload).0 rs new_record)
  unfolding append
  append_crash_safe answers = simp log.opened (
      recovered-finish (write_all answers (encode_record new_record)).0
        (write_all answers (encode_record new_record)).1
        (write_all-Outcome answers (encode_record new_record)))
