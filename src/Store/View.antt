-- ===== src/Store/View.antt =====
-- What clients can see of a store at a time: its entries that have not expired.
pub mod Reads
pub mod Writes
pub mod Shards
pub mod Export
use distributed_data_store.Prelude.{
  ℕ, ◌≡◌, refl, sym, ◌∙◌, Bool, true, false, Option, none, some, Bytes, eqb, eqb_iff, length,
  length-set, if◌then◌else◌, arith, ℤ, ◌≤ℤ◌, ap, Bool-cases, inl, inr,
}
use distributed_data_store.Store.{
  Entry, Store, Platform, is_expired, shard_index, shard_for, find_entry, with_shard, erase_entry,
  count_expired, erase_expired_locked,
}
use distributed_data_store.Store.Lookup.{HasShards, find-erase_entry, find-count_expired}

unfoldable pub alive : ℤ → Option Entry → Option Entry
alive now none = none
alive now (some entry) = if is_expired entry now then none else some entry

-- An expired entry stays expired.
pub is_expired_later :
    (entry : Entry) (now later : ℤ)
    → now ≤ℤ later
    → is_expired entry now ≡ true
    → is_expired entry later ≡ true
unfolding is_expired
is_expired_later entry now later h e = ground arith

module _ (platform : Platform) where
  unfoldable pub live : ℤ → Bytes → Store → Option Entry
  live now key s = alive now (find_entry platform key s)

  -- From `now` on nobody can tell the two stores apart by their keys.
  pub record SameLive (now : ℤ) (s t : Store) : Type 0 where
    pub live_eq : (later : ℤ) → now ≤ℤ later → (key : Bytes) → live later key t ≡ live later key s
    pub shard_count_eq : length t.shards ≡ length s.shards

  pub SameLive-refl : (now : ℤ) (s : Store) → SameLive now s s
  SameLive-refl now s = record { live_eq = λ later h key. refl; shard_count_eq = refl }

  pub SameLive-trans :
      {now : ℤ} {s t u : Store} → SameLive now s t → SameLive now t u → SameLive now s u
  SameLive-trans p q = record {
    live_eq = λ later h key. q.live_eq later h key ∙ p.live_eq later h key;
    shard_count_eq = q.shard_count_eq ∙ p.shard_count_eq;
  }

  pub length-erase_entry :
      (key : Bytes) (entry : Entry) (s : Store)
      → length (erase_entry platform key entry s).shards ≡ length s.shards
  unfolding erase_entry with_shard
  length-erase_entry key entry s = length-set s.shards _ _

  -- Erasing an entry that has expired cannot be seen.
  pub erase-SameLive :
      (now : ℤ) (key : Bytes) (entry : Entry) (s : Store)
      → HasShards s
      → find_entry platform key s ≡ some entry
      → is_expired entry now ≡ true
      → SameLive now s (count_expired (erase_entry platform key entry s))
  unfolding live alive count_expired
  erase-SameLive now key entry s h found dead = record {
    live_eq = λ later after j.
        erased_live later after j (find-erase_entry platform key j entry s h) (eqb_iff key j).0;
    shard_count_eq = length-erase_entry key entry s;
  }
    where
      erased_live :
          (later : ℤ)
          → now ≤ℤ later
          → (j : Bytes)
          → find_entry platform j (erase_entry platform key entry s)
            ≡ (if eqb key j then none else find_entry platform j s)
          → (eqb key j ≡ true → key ≡ j)
          → alive later (find_entry platform j (count_expired (erase_entry platform key entry s)))
            ≡ alive later (find_entry platform j s)
      erased_live later after j e same = elim (Bool-cases (eqb key j)) [
        | inl hit ↦
            let gone = is_expired_later entry now later after dead in
            rw (find-count_expired platform, e, hit, ← same hit, found, gone)
        | inr miss ↦ rw (find-count_expired platform, e, miss)
      ]
