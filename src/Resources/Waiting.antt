-- ===== src/Resources/Waiting.antt =====
-- The queue of requests and `pool_mutex_` (src/resources/resource_pool.cpp): which calls lock it
-- twice, when the loop over the queue ends, and what becomes of a request that has waited.
use distributed_data_science.Prelude.{
  ℕ, suc, not, set, nat_key, ◌<◌, ◌≡◌, refl, Bool, true, false, none, some, String, List, [], ◌∷◌,
  map, arith, inl, inr, if◌then◌else◌, ◌=?◌, string_key, =?_iff, length, keep, All, is_empty,
  Bool-cases, Option-cases, List-cases, append-cons,
}
use distributed_data_science.Prelude.Maps.{lookup_or, insert, erase}
use distributed_data_science.Prelude.Mutex.{Outcome, returns, deadlock}
use distributed_data_science.Resources.Pool.{
  pos, available, write, Doubles, Resource, ResourceRequest, Pool, Env, Place, find_best_resource,
  get_resource, find_in, find_in_pools,
}
use distributed_data_science.Resources.Calls.{
  refused, grant, grant_or_refuse, push, after_wait, take_or_wait, check_user_quota, allocate,
  allocate_resource, process_pending_requests,
}
use distributed_data_science.Resources.Releases.{
  freed, free, forget, owned_place, release_resource, is_expired, expired_resources, release_each,
  cleanup_expired_allocations,
}

-- The call comes back, and the loop has ended.
abbrev pub finishes {ℓ} : {S : Type ℓ} → Outcome (Bool × S) → Bool
finishes deadlock = false
finishes (returns (done, s)) = done

module _ {D : Doubles} where
  -- The pool without the lease of a resource at a place.
  unfoldable pub without_lease : String → String → Place D → Pool D → Pool D
  unfolding insert lookup_or erase
  without_lease id user place p =
      let r = place.resource in
      let others = lookup_or [] place.pool p.resource_pools in
      record p {
        resource_pools =
            insert place.pool
              (set others place.index (record {
                resource_id = r.resource_id;
                kind = r.kind;
                state = available;
                owner_id = "";
                allocated_at = r.allocated_at;
                expires_at = 0;
                properties = r.properties;
                utilization = D.zero_point;
                capacity = r.capacity;
                used_capacity = pos 0;
              }))
              p.resource_pools;
        active_allocations = erase id p.active_allocations;
        user_allocations =
            insert user (keep (λ x. not (x =? id)) (lookup_or [] user p.user_allocations))
              p.user_allocations;
      }

  -- Every wait ends by its timeout.
  abbrev pub AreQuiet : List (Env D) → Type 0
  AreQuiet es = All (λ e. (p : Pool D) → (e.wait_until p).0 ≡ false) es

  module _ (count : Pool D → String → ℕ) where
    -- `release_resource`, called with the mutex free: without effect if no resource has that identifier or
    -- its owner is another; for the owner, if no request is pending, the resource becomes available with
    -- no owner, no use and no lease, and its allocation and its entry with the user are gone; and else
    -- it never returns, because it calls `allocate_resource` while it holds the mutex.
    pub release_resource-outcome :
        (id user : String) (e : Env D) (es : List (Env D)) (p : Pool D)
        → release_resource count id user (e ∷ es) false p ≡ (elim (get_resource id p) [
          | none ↦ returns (false, p)
          | some place ↦
              if not (place.resource.owner_id =? user)
              then returns (false, p)
              else if is_empty p.pending_requests
              then returns (true, without_lease id user place p)
              else deadlock
        ])
    unfolding release_resource process_pending_requests allocate_resource owned_place forget free
        freed write without_lease
    release_resource-outcome id user e es p = ground arith

    -- An expired lease is that of a resource that is found.
    find_in_expired :
        (now : ℕ) (id : String) (ids : List String) (k i : ℕ) (rs : List (Resource D))
        → map (λ r. r.resource_id) (keep (is_expired now) rs) ≡ id ∷ ids
        → (place : Place D) × (find_in id k i rs ≡ some place)
    unfolding find_in
    find_in_expired now id ids k i [] h = absurd (ground arith)
    find_in_expired now id ids k i (r ∷ rs) h = elim (Bool-cases (is_expired now r)) [
      | inl over ↦
          (record { pool = k; index = i; resource = r }, ground (arith, =?_iff r.resource_id id))
      | inr other ↦
          let (place, found) = find_in_expired now id ids k (suc i) rs (ground arith) in
          elim (Bool-cases (r.resource_id =? id)) [
            | inl same ↦ (record { pool = k; index = i; resource = r }, rw same refl)
            | inr differs ↦ (place, rw differs found)
          ]
    ]

    -- A quota refusal, a timeout or a failure ends the loop; a request that is granted at once
    -- leaves the queue.
    allocate-shrinks :
        (q : ResourceRequest) (e : Env D) (p : Pool D)
        → ((p' : Pool D) → (e.wait_until p').0 ≡ false)
        → (allocate count q e p).0.success ≡ true
        → (allocate count q e p).1.pending_requests ≡ p.pending_requests
    unfolding allocate take_or_wait after_wait grant_or_refuse grant refused
    allocate-shrinks q e p quiet h = ground (arith, quiet (push q p))

    expired-found :
        (now : ℕ) (id : String) (ids : List String) (pools : List (ℕ × List (Resource D)))
        → expired_resources now pools ≡ id ∷ ids
        → (place : Place D) × (find_in_pools id pools ≡ some place)
    unfolding find_in_pools expired_resources
    expired-found now id ids [] h = absurd (ground arith)
    expired-found now id ids ((k, rs) ∷ pools) h =
        let first = map (λ (r : Resource D). r.resource_id) (keep (is_expired now) rs) in
        elim (append-cons first (expired_resources now pools) id ids h) [
          | inr (zs, here) ↦
              let (place, found) = find_in_expired now id zs k 0 rs here in
              (place, rw (found, find_in_pools) refl)
          | inl (_, later) ↦
              let (place, found) = expired-found now id ids pools later in
              elim (Option-cases (find_in id k 0 rs)) [
                | inl nothing ↦ (place, rw (nothing, find_in_pools) found)
                | inr (other, before) ↦ (other, rw (before, find_in_pools) refl)
              ]
        ]

    release_each_held :
        (ids : List String) (es : List (Env D)) (p : Pool D)
        → ((id : String) (rest : List String)
            → ids ≡ id ∷ rest
            → (place : Place D) × (find_in_pools id p.resource_pools ≡ some place))
        → release_each count ids es true p ≡ (if is_empty ids then returns (tt, p) else deadlock)
    unfolding release_each release_resource get_resource
    release_each_held [] es p f = refl
    release_each_held (id ∷ ids) es p f = let (place, found) = f id ids refl in ground arith

    -- `cleanup_expired_allocations`, called with the mutex free, changes nothing if no lease is over
    -- and else never returns: it calls `release_resource` while it holds the mutex.
    pub cleanup_expired_allocations-outcome :
        (now : ℕ) (es : List (Env D)) (p : Pool D)
        → cleanup_expired_allocations count now es false p ≡ (
            if is_empty (expired_resources now p.resource_pools) then returns (tt, p) else deadlock)
    unfolding cleanup_expired_allocations release_each release_resource get_resource
    cleanup_expired_allocations-outcome now es p =
        release_each_held (expired_resources now p.resource_pools) es p
          (λ id rest e. expired-found now id rest p.resource_pools e)

    -- `process_pending_requests`, called with the mutex free, ends after at most one turn for each
    -- pending request and one more, if every wait ends by its timeout.
    pub process_pending_requests-finishes :
        (es : List (Env D)) (p : Pool D)
        → AreQuiet es
        → length p.pending_requests < length es
        → finishes (process_pending_requests count es false p) ≡ true
    unfolding process_pending_requests allocate_resource
    process_pending_requests-finishes [] p quiet enough = absurd (omega arith)
    process_pending_requests-finishes (e ∷ es) p quiet enough =
        elim (List-cases p.pending_requests) [
          | inl empty ↦ rw (empty, process_pending_requests) refl
          | inr (q, rest, waiting) ↦
              let p1 : Pool D = record p { pending_requests = rest } in
              elim (Bool-cases (allocate count q e p1).0.success) [
                | inl ok ↦
                    rw (waiting, process_pending_requests, ok)
                      (process_pending_requests-finishes es (allocate count q e p1).1 quiet.1
                        (ground (arith, allocate-shrinks q e p1 quiet.0 ok, waiting)))
                | inr fails ↦ rw (waiting, process_pending_requests, fails) refl
              ]
        ]

    -- A request that is granted after a wait has been put into the queue, and is left there.
    allocate-pending :
        (q : ResourceRequest) (e : Env D) (p p' : Pool D) (place : Place D)
        → check_user_quota count q.requester_id p ≡ true
        → find_best_resource q p ≡ none
        → 0 < q.max_wait_time
        → e.wait_until (push q p) ≡ (true, p')
        → find_best_resource q p' ≡ some place
        → ((allocate count q e p).0.success ≡ true)
          × ((allocate count q e p).1.pending_requests ≡ p'.pending_requests)
    unfolding allocate take_or_wait after_wait grant_or_refuse grant
    allocate-pending q e p p' place quota busy waits notified found = ground arith
