-- ===== src/Resources/Capacity.antt =====
-- The resources of the pool under every sequence of calls (src/resources/resource_pool.cpp).
use distributed_data_science.Prelude.{
  ℕ, suc, ◌≡◌, refl, subst, Bool, true, false, not, ◌&&◌, Option, none, some, String, List, [], ◌∷◌,
  arith, inl, inr, ltb, ◌==◌, ◌=?◌, string_key, nat_key, All, All-set, Bool-cases, Option-cases,
}
use distributed_data_science.Prelude.Maps.{lookup, lookup_or, insert, map_values}
use distributed_data_science.Resources.Pool.{
  ℤ, pos, negsuc, ltb_ℤ, total_score, Doubles, type_value, is_available, Resource, ResourceRequest,
  Pool, Env, Place, meets_requirements, consider, best_from, find_best_resource, write,
}
use distributed_data_science.Resources.Calls.{
  taken, grant, grant_or_refuse, push, after_wait, take_or_wait,
}
use distributed_data_science.Resources.Releases.{freed, free}

unfoldable pub is_zero : ℤ → Bool
is_zero (pos n) = n == 0
is_zero (negsuc n) = false

module _ {D : Doubles} where
  open D use {greater}

  -- What is used is nothing or no more than there is; of an available resource it is nothing, and it
  -- has no lease.
  abbrev pub IsSound : Resource D → Type 0
  IsSound r =
      ((not (is_zero r.used_capacity) && ltb_ℤ r.capacity r.used_capacity) ≡ false)
      × ((is_available r.state && not (is_zero r.used_capacity)) ≡ false)
      × ((is_available r.state && not (r.expires_at == 0)) ≡ false)

  abbrev pub AreSound : List (ℕ × List (Resource D)) → Type 0
  AreSound pools = All (λ entry. All IsSound entry.1) pools

  abbrev pub IsPoolSound : Pool D → Type 0
  IsPoolSound p = AreSound p.resource_pools

  -- What the other threads do during a wait keeps it.
  abbrev pub IsFair : Env D → Type 0
  IsFair e = (p : Pool D) → IsPoolSound p → IsPoolSound (e.wait_until p).1

  pub lookup_or-AreSound :
      (k : ℕ) (pools : List (ℕ × List (Resource D)))
      → AreSound pools
      → All IsSound (lookup_or [] k pools)
  unfolding lookup_or lookup
  lookup_or-AreSound k [] h = tt
  lookup_or-AreSound k ((j, rs) ∷ pools) h = elim (Bool-cases (j =? k)) [
    | inl same ↦ rw (same, lookup_or, lookup) h.0
    | inr other ↦ rw (other, lookup_or, lookup) (lookup_or-AreSound k pools h.1)
  ]

  pub insert-AreSound :
      (k : ℕ) (rs : List (Resource D)) (pools : List (ℕ × List (Resource D)))
      → All IsSound rs
      → AreSound pools
      → AreSound (insert k rs pools)
  unfolding insert
  insert-AreSound k rs [] v h = (v, tt)
  insert-AreSound k rs ((j, ss) ∷ pools) v h = elim (Bool-cases (j =? k)) [
    | inl same ↦ rw (same, insert) (v, h.1)
    | inr other ↦ rw (other, insert) (h.0, insert-AreSound k rs pools v h.1)
  ]

  pub map_values-AreSound :
      (f : ℕ → List (Resource D) → List (Resource D)) (pools : List (ℕ × List (Resource D)))
      → ((k : ℕ) (rs : List (Resource D)) → All IsSound rs → All IsSound (f k rs))
      → AreSound pools
      → AreSound (map_values f pools)
  unfolding map_values
  map_values-AreSound f [] kept h = tt
  map_values-AreSound f ((k, rs) ∷ pools) kept h =
      (kept k rs h.0, map_values-AreSound f pools kept h.1)

  write-IsPoolSound :
      (place : Place D) (r : Resource D) (p : Pool D)
      → IsSound r
      → IsPoolSound p
      → IsPoolSound (write place r p)
  unfolding write
  write-IsPoolSound place r p v h =
      insert-AreSound place.pool _ p.resource_pools
        (All-set _ _ place.index r (lookup_or-AreSound place.pool p.resource_pools h) v) h

  freed-IsSound : (r : Resource D) → IsSound (freed r)
  unfolding freed is_available is_zero
  freed-IsSound r = (refl, refl, refl)

  pub free-IsPoolSound :
      (id : String) (place : Place D) (p : Pool D) → IsPoolSound p → IsPoolSound (free id place p)
  unfolding free
  free-IsPoolSound id place p h = write-IsPoolSound place _ p (freed-IsSound place.resource) h

  -- What is chosen is large enough.
  abbrev Fits : ResourceRequest → Option (Place D) → Type 0
  Fits q none = Unit
  Fits q (some place) = ltb_ℤ place.resource.capacity q.required_capacity ≡ false

  meets_requirements-le :
      (q : ResourceRequest) (r : Resource D)
      → meets_requirements r q ≡ true
      → ltb_ℤ r.capacity q.required_capacity ≡ false
  unfolding meets_requirements
  meets_requirements-le q r h = ground arith

  consider-Fits :
      (q : ResourceRequest) (k i : ℕ) (r : Resource D) (x : Option (Place D) × D.Double)
      → Fits q x.0
      → Fits q (consider q k i r x).0
  unfolding consider
  consider-Fits q k i r x v = elim (Bool-cases (is_available r.state)) [
    | inr a ↦ rw (a, consider) v
    | inl a ↦ elim (Bool-cases (meets_requirements r q)) [
      | inr m ↦ rw (a, m, consider) v
      | inl m ↦ elim (Bool-cases (greater (total_score r q) x.1)) [
        | inl g ↦ rw (a, m, g, consider) (meets_requirements-le q r m)
        | inr g ↦ rw (a, m, g, consider) v
      ]
    ]
  ]

  best_from-Fits :
      (q : ResourceRequest) (k i : ℕ) (x : Option (Place D) × D.Double) (rs : List (Resource D))
      → Fits q x.0
      → Fits q (best_from q k i x rs).0
  unfolding best_from
  best_from-Fits q k i x [] v = v
  best_from-Fits q k i x (r ∷ rs) v =
      best_from-Fits q k (suc i) (consider q k i r x) rs (consider-Fits q k i r x v)

  find_best_resource-Fits : (q : ResourceRequest) (p : Pool D) → Fits q (find_best_resource q p)
  unfolding find_best_resource
  find_best_resource-Fits q p =
      elim (Option-cases (lookup (type_value q.resource_type) p.resource_pools)) [
        | inl nothing ↦ rw (nothing, find_best_resource) tt
        | inr (pool, found) ↦
            rw (found, find_best_resource)
              (best_from-Fits q (type_value q.resource_type) 0 (none, D.minus_one) pool tt)
      ]

  grant-IsPoolSound :
      (q : ResourceRequest) (e : Env D) (place : Place D) (p : Pool D)
      → ltb_ℤ place.resource.capacity q.required_capacity ≡ false
      → IsPoolSound p
      → IsPoolSound (grant q e place p).1
  unfolding grant taken is_available
  grant-IsPoolSound q e place p v h =
      write-IsPoolSound place (taken q e place.resource) p (ground arith, refl, refl) h

  grant_or_refuse-IsPoolSound :
      (q : ResourceRequest) (e : Env D) (o : Option (Place D)) (p : Pool D)
      → Fits q o
      → IsPoolSound p
      → IsPoolSound (grant_or_refuse q e o p).1
  unfolding grant_or_refuse
  grant_or_refuse-IsPoolSound q e none p v h = h
  grant_or_refuse-IsPoolSound q e (some place) p v h = grant-IsPoolSound q e place p v h

  after_wait-IsPoolSound :
      (q : ResourceRequest) (e : Env D) (x : Bool × Pool D)
      → IsPoolSound x.1
      → IsPoolSound (after_wait q e x).1
  unfolding after_wait
  after_wait-IsPoolSound q e (true, p) h =
      grant_or_refuse-IsPoolSound q e (find_best_resource q p) p (find_best_resource-Fits q p) h
  after_wait-IsPoolSound q e (false, p) h = h

  pub push-IsPoolSound : (q : ResourceRequest) (p : Pool D) → IsPoolSound p → IsPoolSound (push q p)
  unfolding push
  push-IsPoolSound q p h = h

  pub take_or_wait-IsPoolSound :
      (q : ResourceRequest) (e : Env D) (p : Pool D)
      → IsFair e
      → IsPoolSound p
      → IsPoolSound (take_or_wait q e p).1
  unfolding take_or_wait
  take_or_wait-IsPoolSound q e p fair h = elim (Option-cases (find_best_resource q p)) [
    | inr (place, found) ↦
        rw (found, take_or_wait)
          (grant_or_refuse-IsPoolSound q e (some place) p
            (subst (Fits q) found (find_best_resource-Fits q p)) h)
    | inl nothing ↦ elim (Bool-cases (ltb 0 q.max_wait_time)) [
      | inl waits ↦
          rw (nothing, waits, take_or_wait)
            (after_wait-IsPoolSound q e (e.wait_until (push q p))
              (fair (push q p) (push-IsPoolSound q p h)))
      | inr now ↦ rw (nothing, now, take_or_wait) (grant_or_refuse-IsPoolSound q e none p tt h)
    ]
  ]
