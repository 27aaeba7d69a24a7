-- ===== src/Store/Map.antt =====
-- std::unordered_map with string keys: its entries in the order in which it iterates. Each key has
-- one entry; `erase` removes what an iterator of that key points at.
use distributed_data_store.Prelude.{
  ◌≡◌, refl, Option, none, some, List, [], ◌∷◌, arith, Bytes, eqb, eqb_iff, if◌then◌else◌,
}

abbrev pub Map {ℓ} : Type ℓ → Type ℓ
Map V = List (Bytes × V)

module _ {ℓ} {V : Type ℓ} where
  unfoldable pub find : Bytes → Map V → Option V
  find k [] = none
  find k ((j, v) ∷ m) = if eqb j k then some v else find k m

  unfoldable pub erase : Bytes → Map V → Map V
  erase k [] = []
  erase k ((j, v) ∷ m) = let rest = erase k m in if eqb j k then rest else (j, v) ∷ rest

  -- Assignment through an iterator if the key is there, `emplace` if it is not.
  unfoldable pub put : Bytes → V → Map V → Map V
  put k v [] = (k, v) ∷ []
  put k v ((j, w) ∷ m) = let rest = put k v m in if eqb j k then (k, v) ∷ m else (j, w) ∷ rest

  pub find-erase :
      (k j : Bytes) (m : Map V) → find j (erase k m) ≡ (if eqb k j then none else find j m)
  unfolding find erase
  find-erase k j [] = ground arith
  find-erase k j ((i, v) ∷ m) =
      ground (arith, find-erase k j m, eqb_iff i k, eqb_iff i j, eqb_iff k j)

  pub find-put :
      (k j : Bytes) (v : V) (m : Map V)
      → find j (put k v m) ≡ (if eqb k j then some v else find j m)
  unfolding find put
  find-put k j v [] = refl
  find-put k j v ((i, w) ∷ m) =
      ground (arith, find-put k j v m, eqb_iff i k, eqb_iff i j, eqb_iff k j)
