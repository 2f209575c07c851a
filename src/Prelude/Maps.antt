-- ===== src/Prelude/Maps.antt =====
-- `std::map` and `std::unordered_map` as association lists, one entry for a key, in the order of
-- insertion. The order in which the source walks a map is not modelled.
use distributed_data_science.Prelude.{
  suc, ◌≤◌, ◌<◌, ◌≡◌, refl, Bool, true, false, Option, none, some, List, [], ◌∷◌, arith,
  if◌then◌else◌, Key, ◌=?◌, =?_iff, =?_refl, length,
}

module _ {ℓ κ} {K : Type ℓ} {V : Type κ} ⦃key : Key K⦄ where
  unfoldable pub lookup : K → List (K × V) → Option V
  lookup k [] = none
  lookup k ((j, v) ∷ m) = if j =? k then some v else lookup k m

  -- `m[k] = v`.
  unfoldable pub insert : K → V → List (K × V) → List (K × V)
  insert k v [] = (k, v) ∷ []
  insert k v ((j, w) ∷ m) = if j =? k then (k, v) ∷ m else (j, w) ∷ insert k v m

  unfoldable pub erase : K → List (K × V) → List (K × V)
  erase k [] = []
  erase k ((j, w) ∷ m) = let rest = erase k m in if j =? k then rest else (j, w) ∷ rest

  -- `m.find(k) != m.end()`.
  unfoldable pub has : K → List (K × V) → Bool
  has k [] = false
  has k ((j, w) ∷ m) = if j =? k then true else has k m

  -- `m[k]` read with the value-initialised default where the key is missing.
  unfoldable pub lookup_or : V → K → List (K × V) → V
  unfolding lookup
  lookup_or d k m = elim (lookup k m) [ none ↦ d | some v ↦ v ]

  pub lookup-insert :
      (k j : K) (v : V) (m : List (K × V))
      → lookup j (insert k v m) ≡ (if k =? j then some v else lookup j m)
  unfolding lookup insert
  lookup-insert k j v [] = refl
  lookup-insert k j v ((i, w) ∷ m) =
      ground (arith, =?_iff k j, =?_iff i k, =?_iff i j, lookup-insert k j v m)

  pub lookup-erase :
      (k j : K) (m : List (K × V)) → lookup j (erase k m) ≡ (if k =? j then none else lookup j m)
  unfolding lookup erase
  lookup-erase k j [] = ground arith
  lookup-erase k j ((i, w) ∷ m) =
      ground (arith, =?_iff k j, =?_iff i k, =?_iff i j, lookup-erase k j m)

  pub lookup-insert_self : (k : K) (v : V) (m : List (K × V)) → lookup k (insert k v m) ≡ some v
  lookup-insert_self k v m = ground (arith, lookup-insert k k v m, =?_refl k)

  -- The later write of a key counts.
  pub insert-insert :
      (k : K) (v w : V) (m : List (K × V)) → insert k v (insert k w m) ≡ insert k v m
  unfolding insert
  insert-insert k v w [] = ground (arith, =?_refl k)
  insert-insert k v w ((j, u) ∷ m) = ground (arith, =?_refl k, insert-insert k v w m)

  pub lookup-erase_self : (k : K) (m : List (K × V)) → lookup k (erase k m) ≡ none
  lookup-erase_self k m = ground (arith, lookup-erase k k m, =?_refl k)

  pub has-lookup :
      (k : K) (m : List (K × V)) → has k m ≡ elim (lookup k m) [ none ↦ false | some _ ↦ true ]
  unfolding has lookup
  has-lookup k [] = refl
  has-lookup k ((j, w) ∷ m) = ground (arith, has-lookup k m)

  pub length-insert :
      (k : K) (v : V) (m : List (K × V))
      → length (insert k v m) ≡ (if has k m then length m else suc (length m))
  unfolding insert has
  length-insert k v [] = refl
  length-insert k v ((j, w) ∷ m) = ground (arith, length-insert k v m)

  pub length-erase-le : (k : K) (m : List (K × V)) → length (erase k m) ≤ length m
  unfolding erase
  length-erase-le k [] = omega arith
  length-erase-le k ((j, w) ∷ m) = ground (arith, length-erase-le k m)

  pub length-erase-lt : (k : K) (m : List (K × V)) → has k m ≡ true → length (erase k m) < length m
  unfolding erase has
  length-erase-lt k [] h = ground arith
  length-erase-lt k ((j, w) ∷ m) h = ground (arith, length-erase-lt k m, length-erase-le k m)

  -- No key stands twice.
  abbrev pub Distinct : List (K × V) → Type 0
  Distinct [] = Unit
  Distinct ((j, w) ∷ m) = (has j m ≡ false) × Distinct m

  pub has-insert :
      (k j : K) (v : V) (m : List (K × V))
      → has j (insert k v m) ≡ (if k =? j then true else has j m)
  unfolding insert has
  has-insert k j v [] = refl
  has-insert k j v ((i, w) ∷ m) =
      ground (arith, =?_iff k j, =?_iff i k, =?_iff i j, has-insert k j v m)

  pub has-erase :
      (k j : K) (m : List (K × V)) → has j (erase k m) ≡ (if k =? j then false else has j m)
  unfolding erase has
  has-erase k j [] = ground arith
  has-erase k j ((i, w) ∷ m) = ground (arith, =?_iff k j, =?_iff i k, =?_iff i j, has-erase k j m)

  pub insert-Distinct : (k : K) (v : V) (m : List (K × V)) → Distinct m → Distinct (insert k v m)
  unfolding insert has
  insert-Distinct k v [] d = (refl, tt)
  insert-Distinct k v ((j, w) ∷ m) d =
      ground (arith, =?_iff j k, =?_iff k j, has-insert k j v m, insert-Distinct k v m d.1)

  pub erase-Distinct : (k : K) (m : List (K × V)) → Distinct m → Distinct (erase k m)
  unfolding erase has
  erase-Distinct k [] d = tt
  erase-Distinct k ((j, w) ∷ m) d =
      ground (arith, =?_iff k j, has-erase k j m, erase-Distinct k m d.1)

  pub lookup_or-insert :
      (d : V) (k j : K) (v : V) (m : List (K × V))
      → lookup_or d j (insert k v m) ≡ (if k =? j then v else lookup_or d j m)
  unfolding lookup_or
  lookup_or-insert d k j v m = ground (arith, lookup-insert k j v m)

  pub lookup_or-erase :
      (d : V) (k j : K) (m : List (K × V))
      → lookup_or d j (erase k m) ≡ (if k =? j then d else lookup_or d j m)
  unfolding lookup_or
  lookup_or-erase d k j m = ground (arith, lookup-erase k j m)

  -- `for (auto& pair : m) pair.second = f(pair.first, pair.second);`
  unfoldable pub map_values : (K → V → V) → List (K × V) → List (K × V)
  map_values f [] = []
  map_values f ((j, v) ∷ m) = (j, f j v) ∷ map_values f m

  pub lookup_or-map_values :
      (f : K → V → V) (d : V) (k : K) (m : List (K × V))
      → lookup_or d k (map_values f m) ≡ (if has k m then f k (lookup_or d k m) else d)
  unfolding lookup_or lookup map_values has
  lookup_or-map_values f d k [] = refl
  lookup_or-map_values f d k ((j, v) ∷ m) = ground (arith, =?_iff j k, lookup_or-map_values f d k m)

  pub has-map_values : (f : K → V → V) (k : K) (m : List (K × V)) → has k (map_values f m) ≡ has k m
  unfolding map_values has
  has-map_values f k [] = refl
  has-map_values f k ((j, v) ∷ m) = ground (arith, has-map_values f k m)

  pub map_values-Distinct :
      (f : K → V → V) (m : List (K × V)) → Distinct m → Distinct (map_values f m)
  unfolding map_values has
  map_values-Distinct f [] d = tt
  map_values-Distinct f ((j, v) ∷ m) d =
      ground (arith, has-map_values f j m, map_values-Distinct f m d.1)

  pub lookup_or_missing : (d : V) (k : K) (m : List (K × V)) → has k m ≡ false → lookup_or d k m ≡ d
  unfolding lookup_or lookup has
  lookup_or_missing d k [] h = refl
  lookup_or_missing d k ((j, v) ∷ m) h = ground (arith, lookup_or_missing d k m)

  -- `length` of an erased map, with one entry for a key.
  pub length-erase :
      (k : K) (m : List (K × V))
      → Distinct m
      → length m ≡ (if has k m then suc (length (erase k m)) else length (erase k m))
  unfolding erase has
  length-erase k [] d = refl
  length-erase k ((j, w) ∷ m) d = ground (arith, =?_iff j k, length-erase k m d.1)
