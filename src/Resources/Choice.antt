-- ===== src/Resources/Choice.antt =====
-- What `find_best_resource` chooses (src/resources/resource_pool.cpp).
use distributed_data_science.Prelude.{
  ℕ, suc, ◌≡◌, refl, sym, subst, Bool, true, false, ◌&&◌, Option, none, some, List, [], ◌∷◌, ◌++◌,
  arith, inl, inr, nat_key, length, get_elem?, All, All-append, All-map, get_elem?-append,
  get_elem?_last, append-assoc_one, length-append, Bool-cases,
}
use mathlib.Core.List.{append-nil}
use distributed_data_science.Prelude.Maps.{lookup}
use distributed_data_science.Resources.Pool.{
  Doubles, type_value, is_available, Resource, ResourceRequest, Pool, Place, meets_requirements,
  total_score, consider, best_from, find_best_resource,
}

module _ {D : Doubles} where
  open D use {Double, minus_one, greater}

  -- What the loop does not skip.
  unfoldable pub is_suitable : ResourceRequest → Resource D → Bool
  is_suitable q r = is_available r.state && meets_requirements r q

  -- No suitable one has a greater score.
  abbrev pub AreBelow : ResourceRequest → Double → List (Resource D) → Type 0
  AreBelow q score seen =
      All (λ r. (is_suitable q r && greater (total_score r q) score) ≡ false) seen

  abbrev pub IsBest : ResourceRequest → ℕ → List (Resource D) → Option (Place D) × Double → Type 0
  IsBest q k seen (none, score) = (score ≡ minus_one) × AreBelow q score seen
  IsBest q k seen (some place, score) =
      (score ≡ total_score place.resource q)
      × (greater score minus_one ≡ true)
      × (place.pool ≡ k)
      × (get_elem? seen place.index ≡ some place.resource)
      × (is_suitable q place.resource ≡ true)
      × AreBelow q score seen

  abbrev pub Chosen : ResourceRequest → ℕ → List (Resource D) → Option (Place D) → Type 0
  Chosen q k pool none = AreBelow q minus_one pool
  Chosen q k pool (some place) =
      (greater (total_score place.resource q) minus_one ≡ true)
      × (place.pool ≡ k)
      × (get_elem? pool place.index ≡ some place.resource)
      × (is_suitable q place.resource ≡ true)
      × AreBelow q (total_score place.resource q) pool

  module _ (irreflexive : (x : Double) → greater x x ≡ false)
      (transitive : (x y z : Double)
        → greater x y ≡ true
        → greater y z ≡ true
        → greater x z ≡ true) where
    AreBelow-raise :
        (q : ResourceRequest) (low high : Double) (seen : List (Resource D))
        → greater high low ≡ true
        → AreBelow q low seen
        → AreBelow q high seen
    AreBelow-raise q low high seen g =
        All-map _ _ seen (λ r h. ground (arith, h, transitive (total_score r q) high low))

    -- The resource that is looked at is not taken.
    keeps-IsBest :
        (q : ResourceRequest) (k : ℕ) (seen : List (Resource D)) (r : Resource D)
        (x : Option (Place D) × Double)
        → (is_suitable q r && greater (total_score r q) x.1) ≡ false
        → IsBest q k seen x
        → IsBest q k (seen ++ r ∷ []) x
    keeps-IsBest q k seen r (none, score) h b = (b.0, All-append _ seen (r ∷ []) b.1 (h, tt))
    keeps-IsBest q k seen r (some place, score) h b = (
      b.0,
      b.1,
      b.2,
      get_elem?-append seen (r ∷ []) place.index place.resource b.3,
      b.4,
      All-append _ seen (r ∷ []) b.5 (h, tt),
    )

    below :
        (q : ResourceRequest) (k : ℕ) (seen : List (Resource D)) (x : Option (Place D) × Double)
        → IsBest q k seen x
        → AreBelow q x.1 seen
    below q k seen (none, score) b = b.1
    below q k seen (some place, score) b = b.5

    above_floor :
        (q : ResourceRequest) (k : ℕ) (seen : List (Resource D)) (high : Double)
        (x : Option (Place D) × Double)
        → greater high x.1 ≡ true
        → IsBest q k seen x
        → greater high minus_one ≡ true
    above_floor q k seen high (none, score) g b = subst (λ low. greater high low ≡ true) b.0 g
    above_floor q k seen high (some place, score) g b = transitive high score minus_one g b.1

    takes-IsBest :
        (q : ResourceRequest) (k : ℕ) (seen : List (Resource D)) (r : Resource D)
        (x : Option (Place D) × Double)
        → is_suitable q r ≡ true
        → greater (total_score r q) x.1 ≡ true
        → IsBest q k seen x
        → IsBest q k
            (seen ++ r ∷ [])
            (some (record { pool = k; index = length seen; resource = r }), total_score r q)
    takes-IsBest q k seen r x s g b = (
      refl,
      above_floor q k seen (total_score r q) x g b,
      refl,
      get_elem?_last seen r,
      s,
      All-append _ seen (r ∷ [])
          (AreBelow-raise q x.1 (total_score r q) seen g (below q k seen x b))
          (ground (arith, irreflexive (total_score r q)), tt),
    )

    consider-IsBest :
        (q : ResourceRequest) (k : ℕ) (seen : List (Resource D)) (r : Resource D)
        (x : Option (Place D) × Double)
        → IsBest q k seen x
        → IsBest q k (seen ++ r ∷ []) (consider q k (length seen) r x)
    unfolding consider is_suitable
    consider-IsBest q k seen r x b = elim (Bool-cases (is_available r.state)) [
      | inl a ↦ elim (Bool-cases (meets_requirements r q)) [
        | inl m ↦ elim (Bool-cases (greater (total_score r q) x.1)) [
          | inl g ↦ rw (a, m, g, consider) (takes-IsBest q k seen r x (rw (a, m) refl) g b)
          | inr g ↦ rw (a, m, g, consider) (keeps-IsBest q k seen r x (ground arith) b)
        ]
        | inr m ↦ rw (a, m, consider) (keeps-IsBest q k seen r x (ground arith) b)
      ]
      | inr a ↦ rw (a, consider) (keeps-IsBest q k seen r x (ground arith) b)
    ]

    best_from-IsBest :
        (q : ResourceRequest) (k : ℕ) (seen : List (Resource D)) (x : Option (Place D) × Double)
        (rs : List (Resource D))
        → IsBest q k seen x
        → IsBest q k (seen ++ rs) (best_from q k (length seen) x rs)
    unfolding best_from
    best_from-IsBest q k seen x [] b = subst (λ all. IsBest q k all x) (sym (append-nil seen)) b
    best_from-IsBest q k seen x (r ∷ rs) b =
        let rest =
          best_from-IsBest q k (seen ++ r ∷ []) (consider q k (length seen) r x) rs
            (consider-IsBest q k seen r x b) in
        subst
          (λ all.
            IsBest q k all (best_from q k (suc (length seen)) (consider q k (length seen) r x) rs))
          (append-assoc_one seen r rs)
          (subst
            (λ n.
              IsBest q k ((seen ++ r ∷ []) ++ rs)
                (best_from q k n (consider q k (length seen) r x) rs))
            (omega (arith, length-append seen (r ∷ []))) rest)

    IsBest→Chosen :
        (q : ResourceRequest) (k : ℕ) (pool : List (Resource D)) (x : Option (Place D) × Double)
        → IsBest q k pool x
        → Chosen q k pool x.0
    IsBest→Chosen q k pool (none, score) b = subst (λ low. AreBelow q low pool) b.0 b.1
    IsBest→Chosen q k pool (some place, score) b = (
      subst (λ top. greater top minus_one ≡ true) b.0 b.1,
      b.2,
      b.3,
      b.4,
      subst (λ top. AreBelow q top pool) b.0 b.5,
    )

    -- What is chosen of a pool, if `>` is irreflexive and transitive: nothing exactly if no suitable
    -- resource scores more than -1; else an element of the pool, at its place, that is available, meets
    -- the requirements and scores more than -1, and no such resource of the pool scores more.
    pub find_best_resource-Chosen :
        (q : ResourceRequest) (p : Pool D) (pool : List (Resource D))
        → lookup (type_value q.resource_type) p.resource_pools ≡ some pool
        → Chosen q (type_value q.resource_type) pool (find_best_resource q p)
    unfolding find_best_resource
    find_best_resource-Chosen q p pool h =
        rw (h, find_best_resource)
          (IsBest→Chosen q (type_value q.resource_type) pool
            (best_from q (type_value q.resource_type) 0 (none, minus_one) pool)
            (best_from-IsBest q (type_value q.resource_type) [] (none, minus_one) pool (refl, tt)))
