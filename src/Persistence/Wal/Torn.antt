-- ===== src/Persistence/Wal/Torn.antt =====
-- open_and_recover of src/persistence/wal.cpp, on logs with a torn or damaged tail.
use distributed_data_store.Prelude.{
  ℕ, zero, suc, ◌+◌, ◌-◌, ◌^◌, ◌≤◌, ◌<◌, ◌≡◌, refl, true, [], ◌∷◌, ◌++◌, List, append_assoc,
  append-nil, arith, Bytes, length, take, drop, length-append, length-take, take-length-append,
  drop-length-append, All, ap, ◌∙◌,
}
use distributed_data_store.Persistence.Result.{ok, err, Error, undefined, bind}
use distributed_data_store.Persistence.Binary.{append_u32, append_le, read_u32, read_le}
use distributed_data_store.Persistence.Wal.{
  WalRecord, WalWriter, encode_record, examine, stop, throw, take_record, Scan, scan, header,
  open_and_recover, recover_versioned, finish_open, push_front,
}
use distributed_data_store.Persistence.Wal.Recovery.{
  IsRecord, examine-record, examine-torn, examine-wrapped, length-encode_record,
}

-- The bytes of a log of records.
abbrev pub encode_all : List WalRecord → Bytes
encode_all [] = []
encode_all (r ∷ rs) = encode_record r ++ encode_all rs

-- Each offset is above the one before it.
abbrev pub Increasing : ℕ → List WalRecord → Type 0
Increasing last [] = Unit
Increasing last (r ∷ rs) = (last < r.offset) × Increasing r.offset rs

abbrev pub final_offset : ℕ → List WalRecord → ℕ
final_offset last [] = last
final_offset last (r ∷ rs) = final_offset r.offset rs

abbrev pub scanned : List WalRecord → ℕ → ℕ → Scan
scanned rs valid_end last = record { records = rs; valid_end = valid_end; last_offset = last }

scan-stop :
    (fuel : ℕ) (cursor : Bytes) (valid_end last : ℕ)
    → examine cursor last ≡ stop
    → scan fuel cursor valid_end last ≡ ok (scanned [] valid_end last)
unfolding scan
scan-stop zero cursor valid_end last h = refl
scan-stop (suc fuel) cursor valid_end last h = rw (h, scan)

scan-take_record :
    (fuel : ℕ) (cursor : Bytes) (valid_end last : ℕ) (r : WalRecord) (consumed : ℕ)
    → examine cursor last ≡ take_record r consumed
    → scan (suc fuel) cursor valid_end last
      ≡ bind
          (scan fuel (drop consumed cursor) (valid_end + consumed) r.offset)
          (λ s. ok (push_front r s))
unfolding scan
scan-take_record fuel cursor valid_end last r consumed h = rw (h, scan)

scan-encode_all :
    (rs : List WalRecord) (tail : Bytes) (fuel valid_end last : ℕ)
    → All IsRecord rs
    → Increasing last rs
    → length (encode_all rs ++ tail) ≤ fuel
    → ((l : ℕ) → examine tail l ≡ stop)
    → scan fuel (encode_all rs ++ tail) valid_end last
      ≡ ok (scanned rs (valid_end + length (encode_all rs)) (final_offset last rs))
scan-encode_all [] tail fuel valid_end last fit up enough stops =
    rw (scan-stop fuel tail valid_end last (stops last)) (ground arith)
scan-encode_all (r ∷ rs) tail zero valid_end last fit up enough stops = absurd (
    omega (
      arith,
      length-append (encode_record r ++ encode_all rs) tail,
      length-append (encode_record r) (encode_all rs),
      length-encode_record r,
    ))
scan-encode_all (r ∷ rs) tail (suc fuel) valid_end last fit up enough stops =
    let split = length-append (encode_record r) (encode_all rs ++ tail) in
    let split' = length-append (encode_record r) (encode_all rs) in
    let assoc = append_assoc (encode_record r) (encode_all rs) tail in
    let size = length-encode_record r in
    let first = examine-record (encode_all rs ++ tail) last fit.0 up.0 in
    rw
      (
        assoc,
        scan-take_record fuel (encode_record r ++ (encode_all rs ++ tail)) valid_end last r
            (length (encode_record r)) first,
        drop-length-append (encode_record r) (encode_all rs ++ tail),
        scan-encode_all rs tail fuel (valid_end + length (encode_record r)) r.offset fit.1 up.1
            (omega (arith, ap length assoc)) stops,
      )
      (ground arith)

-- The content of a log file.
abbrev pub log_file : List WalRecord → Bytes
log_file rs = header ++ encode_all rs

length-header : length header ≡ 16
unfolding header append_u32 append_le
length-header = refl

scan-whole :
    (rs : List WalRecord) (tail : Bytes) (s : Scan)
    → scan (length (encode_all rs ++ tail)) (encode_all rs ++ tail) 16 0 ≡ ok s
    → open_and_recover (log_file rs ++ tail) ≡ finish_open (log_file rs ++ tail) s
unfolding open_and_recover recover_versioned header append_u32 append_le read_u32 read_le
scan-whole rs tail s h = rw h (ground arith)

abbrev pub reopened_at : Bytes → Bytes → List WalRecord → WalWriter
reopened_at file durable rs = record {
  is_open = true;
  file = file;
  durable = durable;
  last_offset = final_offset 0 rs;
}

open-stopped :
    (rs : List WalRecord) (tail : Bytes)
    → All IsRecord rs
    → Increasing 0 rs
    → ((l : ℕ) → examine tail l ≡ stop)
    → open_and_recover (log_file rs ++ tail)
      ≡ finish_open
          (log_file rs ++ tail)
          (scanned rs (16 + length (encode_all rs)) (final_offset 0 rs))
open-stopped rs tail fit up stops =
    scan-whole rs tail (scanned rs (16 + length (encode_all rs)) (final_offset 0 rs))
      (scan-encode_all rs tail (length (encode_all rs ++ tail)) 16 0 fit up (omega arith) stops)

examine-empty : (l : ℕ) → examine [] l ≡ stop
unfolding examine
examine-empty l = refl

length-log_file : (rs : List WalRecord) → length (log_file rs) ≡ 16 + length (encode_all rs)
length-log_file rs = omega (arith, length-append header (encode_all rs), length-header)

-- A log of well-formed records with increasing offsets is recovered whole: the records in their
-- order, the file as it was, and the last offset.
pub open_and_recover-log_file :
    (rs : List WalRecord)
    → All IsRecord rs
    → Increasing 0 rs
    → open_and_recover (log_file rs) ≡ ok (rs, reopened_at (log_file rs) [] rs)
unfolding finish_open
open_and_recover-log_file rs fit up =
    let opened = open-stopped rs [] fit up examine-empty in
    rw append-nil at opened ∙ rw (length-log_file rs) (ground arith)

-- A log of well-formed records with increasing offsets that breaks off inside a further well-
-- formed record, after one byte of it or more, is recovered to the records before it: the torn
-- bytes are cut off and the cut is durable.
pub open_and_recover-torn :
    (rs : List WalRecord) (r : WalRecord) (n : ℕ)
    → All IsRecord rs
    → Increasing 0 rs
    → IsRecord r
    → 0 < n
    → n < length (encode_record r)
    → open_and_recover (log_file rs ++ take n (encode_record r))
      ≡ ok (rs, reopened_at (log_file rs) (log_file rs) rs)
unfolding finish_open
open_and_recover-torn rs r n fit up fit' some_bytes cut =
    open-stopped rs (take n (encode_record r)) fit up (λ l. examine-torn n l fit' cut)
    ∙ rw (← length-log_file rs, take-length-append (log_file rs) (take n (encode_record r)))
        (ground (
          arith,
          length-append (log_file rs) (take n (encode_record r)),
          length-take n (encode_record r),
        ))

scan-throw :
    (rs : List WalRecord) (tail : Bytes) (fuel valid_end last : ℕ) (e : Error)
    → All IsRecord rs
    → Increasing last rs
    → length (encode_all rs ++ tail) ≤ fuel
    → 0 < length tail
    → ((l : ℕ) → examine tail l ≡ throw e)
    → scan fuel (encode_all rs ++ tail) valid_end last ≡ err e
unfolding scan
scan-throw [] tail zero valid_end last e fit up enough some_bytes throws = absurd (omega arith)
scan-throw [] tail (suc fuel) valid_end last e fit up enough some_bytes throws =
    rw (throws last, scan)
scan-throw (r ∷ rs) tail zero valid_end last e fit up enough some_bytes throws =
    absurd (omega (arith, length-append (encode_record r ++ encode_all rs) tail))
scan-throw (r ∷ rs) tail (suc fuel) valid_end last e fit up enough some_bytes throws =
    let split = length-append (encode_record r) (encode_all rs ++ tail) in
    let assoc = append_assoc (encode_record r) (encode_all rs) tail in
    let size = length-encode_record r in
    let first = examine-record (encode_all rs ++ tail) last fit.0 up.0 in
    rw (
      assoc,
      scan-take_record fuel (encode_record r ++ (encode_all rs ++ tail)) valid_end last r
          (length (encode_record r)) first,
      drop-length-append (encode_record r) (encode_all rs ++ tail),
      scan-throw rs tail fuel (valid_end + length (encode_record r)) r.offset e fit.1 up.1
          (omega (arith, ap length assoc)) some_bytes throws,
    )

-- Behind any log of well-formed records with increasing offsets, a length field of 2^32 - 4 or
-- more with three further bytes or more, but fewer than it says, makes recovery move its view past
-- the end of the file: the sum `length + 4U` wraps.
pub open_and_recover-wrapped :
    (rs : List WalRecord) (len : ℕ) (junk : Bytes)
    → All IsRecord rs
    → Increasing 0 rs
    → 2 ^ 32 - 4 ≤ len
    → len < 2 ^ 32
    → 3 ≤ length junk
    → length junk < len
    → open_and_recover (log_file rs ++ (append_u32 len ++ junk)) ≡ err undefined
unfolding open_and_recover recover_versioned header append_u32 append_le read_u32 read_le
open_and_recover-wrapped rs len junk fit up lo hi some_bytes short =
    rw
      (scan-throw rs (append_u32 len ++ junk) (length (encode_all rs ++ (append_u32 len ++ junk)))
        16 0 undefined fit up (omega arith) (omega arith)
        (λ l. examine-wrapped len l junk lo hi some_bytes short))
      (ground arith)
