-- ===== src/Resources/Kept.antt =====
-- Each method of `ResourcePool` and the resources of the pool (src/resources/resource_pool.cpp).
use distributed_data_science.Prelude.{
  ℕ, suc, ◌+◌, refl, subst, sym, Bool, true, false, String, List, [], ◌∷◌, inl, inr, ltb,
  string_key, nat_key, All, All-append, Bool-cases, Option-cases, List-cases, is_empty,
}
use distributed_data_science.Prelude.Maps.{lookup, lookup_or}
use distributed_data_science.Prelude.Mutex.{Outcome, returns, deadlock}
use distributed_data_science.Resources.Pool.{
  ℤ, Doubles, ResourceType, type_value, is_available, is_allocated, Resource, ResourceRequest, Pool,
  Env,
}
use distributed_data_science.Resources.Calls.{
  register_resource, check_user_quota, allocate, allocate_resource, put_back,
  process_pending_requests,
}
use distributed_data_science.Resources.Releases.{
  free, forget, owned_place, release_resource, expired_resources, cleanup_expired_allocations,
  free_each, release_all, update_from,
}
use distributed_data_science.Resources.Waiting.{cleanup_expired_allocations-outcome}
use distributed_data_science.Resources.Capacity.{
  is_zero, IsSound, IsPoolSound, IsFair, lookup_or-AreSound, insert-AreSound, free-IsPoolSound,
  take_or_wait-IsPoolSound, push-IsPoolSound,
}

module _ {D : Doubles} where
  -- Of the pool that is left, if there is one.
  abbrev pub LeavesSound {ℓ} : {A : Type ℓ} → Outcome (A × Pool D) → Type 0
  LeavesSound deadlock = Unit
  LeavesSound (returns (a, p)) = IsPoolSound p

  pub put_back-IsPoolSound :
      (q : ResourceRequest) (e : Env D) (p : Pool D) → IsPoolSound p → IsPoolSound (put_back q e p)
  unfolding put_back
  put_back-IsPoolSound q e p h =
      elim (Bool-cases (ltb e.checked (q.requested_at + q.max_wait_time))) [
        | inl early ↦ rw (early, put_back) (push-IsPoolSound q p h)
        | inr late ↦ rw (late, put_back) h
      ]

  -- The answer of a call is replaced.
  pub answer-LeavesSound :
      {A B : Type 0} (b : B) (o : Outcome (A × Pool D))
      → LeavesSound o
      → LeavesSound (elim o as (λ _. Outcome (B × Pool D)) [
        | returns (a, q) ↦ returns (b, q)
        | deadlock ↦ deadlock
      ])
  answer-LeavesSound b (returns (a, q)) h = h
  answer-LeavesSound b deadlock h = tt

  pub free_each-IsPoolSound :
      (user : String) (ids : List String) (x : Bool × Pool D)
      → IsPoolSound x.1
      → IsPoolSound (free_each user ids x).1
  unfolding free_each
  free_each-IsPoolSound user [] x h = h
  free_each-IsPoolSound user (id ∷ ids) (ok, p) h = elim (Option-cases (owned_place id user p)) [
    | inl nothing ↦ rw (nothing, free_each) (free_each-IsPoolSound user ids (false, p) h)
    | inr (place, found) ↦
        rw (found, free_each)
          (free_each-IsPoolSound user ids (ok, free id place p) (free-IsPoolSound id place p h))
  ]

  pub release_all-IsPoolSound :
      (user : String) (p : Pool D) → IsPoolSound p → IsPoolSound (release_all user p).1
  unfolding release_all
  release_all-IsPoolSound user p h = elim (Option-cases (lookup user p.user_allocations)) [
    | inl nothing ↦ rw (nothing, release_all) h
    | inr (ids, found) ↦ rw (found, release_all) (free_each-IsPoolSound user ids (true, p) h)
  ]

  pub update_from-IsSound :
      (draw : ℕ → D.Double) (i : ℕ) (rs : List (Resource D))
      → All IsSound rs
      → All IsSound (update_from draw i rs)
  unfolding update_from
  update_from-IsSound draw i [] h = tt
  update_from-IsSound draw i (r ∷ rs) h = elim (Bool-cases (is_allocated r.state)) [
    | inl e ↦ (rw e h.0, update_from-IsSound draw (suc i) rs h.1)
    | inr e ↦ (rw e h.0, update_from-IsSound draw (suc i) rs h.1)
  ]

  pub register-IsPoolSound :
      (type : ResourceType) (id : String) (capacity : ℤ) (properties : List (String × String))
      (p : Pool D)
      → IsPoolSound p
      → LeavesSound (register_resource type id capacity properties false p)
  unfolding register_resource is_available is_zero
  register-IsPoolSound type id capacity properties p h =
      insert-AreSound (type_value type) _ p.resource_pools
        (All-append _ (lookup_or [] (type_value type) p.resource_pools) (_ ∷ [])
          (lookup_or-AreSound (type_value type) p.resource_pools h) ((refl, refl, refl), tt))
        h

module _ {D : Doubles} (count : Pool D → String → ℕ) where
  pub allocate-IsPoolSound :
      (q : ResourceRequest) (e : Env D) (p : Pool D)
      → IsFair e
      → IsPoolSound p
      → IsPoolSound (allocate count q e p).1
  unfolding allocate
  allocate-IsPoolSound q e p fair h = elim (Bool-cases (check_user_quota count q.requester_id p)) [
    | inl quota ↦ rw (quota, allocate) (take_or_wait-IsPoolSound q e p fair h)
    | inr over ↦ rw (over, allocate) h
  ]

  pub process-LeavesSound :
      (es : List (Env D)) (held : Bool) (p : Pool D)
      → All IsFair es
      → IsPoolSound p
      → LeavesSound (process_pending_requests count es held p)
  unfolding process_pending_requests allocate_resource
  process-LeavesSound [] held p fair h = h
  process-LeavesSound (e ∷ es) true p fair h = elim (List-cases p.pending_requests) [
    | inl empty ↦ rw (empty, process_pending_requests, LeavesSound) h
    | inr (q, rest, waiting) ↦ rw (waiting, process_pending_requests, LeavesSound) tt
  ]
  process-LeavesSound (e ∷ es) false p fair h = elim (List-cases p.pending_requests) [
    | inl empty ↦ rw (empty, process_pending_requests, LeavesSound) h
    | inr (q, rest, waiting) ↦
        let p1 : Pool D = record p { pending_requests = rest } in
        let next = allocate-IsPoolSound q e p1 fair.0 h in
        elim (Bool-cases (allocate count q e p1).0.success) [
          | inl ok ↦
              rw (waiting, process_pending_requests, ok)
                (process-LeavesSound es false (allocate count q e p1).1 fair.1 next)
          | inr fails ↦
              rw (waiting, process_pending_requests, fails, LeavesSound)
                (put_back-IsPoolSound q e (allocate count q e p1).1 next)
        ]
  ]

  pub release-LeavesSound :
      (id user : String) (es : List (Env D)) (held : Bool) (p : Pool D)
      → All IsFair es
      → IsPoolSound p
      → LeavesSound (release_resource count id user es held p)
  unfolding release_resource forget
  release-LeavesSound id user es true p fair h = tt
  release-LeavesSound id user es false p fair h = elim (Option-cases (owned_place id user p)) [
    | inl nothing ↦ rw (nothing, release_resource, LeavesSound) h
    | inr (place, found) ↦
        let p1 = forget user id (free id place p) in
        let next = process-LeavesSound es true p1 fair (free-IsPoolSound id place p h) in
        rw (found, release_resource, LeavesSound)
          (answer-LeavesSound true (process_pending_requests count es true p1) next)
  ]

  pub cleanup-LeavesSound :
      (now : ℕ) (es : List (Env D)) (p : Pool D)
      → IsPoolSound p
      → LeavesSound (cleanup_expired_allocations count now es false p)
  cleanup-LeavesSound now es p h =
      subst (λ o. LeavesSound o) (sym (cleanup_expired_allocations-outcome count now es p))
        (elim (Bool-cases (is_empty (expired_resources now p.resource_pools))) [
          | inl e ↦ rw e h
          | inr e ↦ rw e tt
        ])
