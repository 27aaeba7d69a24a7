-- ===== src/Store/Sweep/Sort.antt =====
-- std::ranges::sort on strings, whose order compares bytes from the front.
use Prim.Native.Nat.{compare, Ordering}
use distributed_data_store.Prelude.{Bool, true, false, List, [], ◌∷◌, Bytes, if◌then◌else◌}

-- operator<= on strings
unfoldable pub le_bytes : Bytes → Bytes → Bool
le_bytes [] ys = true
le_bytes (x ∷ xs) [] = false
le_bytes (x ∷ xs) (y ∷ ys) =
    let rest = le_bytes xs ys in
    elim (compare x y) [ Ordering.lt ↦ true | Ordering.gt ↦ false | Ordering.eq ↦ rest ]

unfoldable pub insert : Bytes → List Bytes → List Bytes
insert x [] = x ∷ []
insert x (y ∷ ys) = let rest = insert x ys in if le_bytes x y then x ∷ y ∷ ys else y ∷ rest

unfoldable pub sort : List Bytes → List Bytes
sort [] = []
sort (x ∷ xs) = insert x (sort xs)
