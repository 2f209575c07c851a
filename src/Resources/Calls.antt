-- ===== src/Resources/Calls.antt =====
-- The methods of `ResourcePool` that change it (src/resources/resource_pool.cpp), in the monad of
-- `pool_mutex_`. `process_pending_requests` takes an `Env` for each turn of its loop and answers
-- whether the loop ended before these were used up.
use distributed_data_science.Prelude.{
  ℕ, ◌+◌, Bool, true, false, not, ◌&&◌, Option, none, some, String, List, [], ◌∷◌, ◌++◌, ltb,
  if◌then◌else◌, ◌=?◌, string_key, nat_key, keep, is_empty,
}
use distributed_data_science.Prelude.Maps.{lookup_or, insert, map_values}
use distributed_data_science.Prelude.Mutex.{
  returns, deadlock, M, ◌>>=◌, ◌>>◌, pure, get, put, locked,
}
use distributed_data_science.Resources.Pool.{
  ℤ, pos, Doubles, ResourceType, type_value, available, allocated, Resource, ResourceRequest,
  AllocationResult, Pool, Env, Place, find_best_resource, write,
}

module _ {D : Doubles} where
  open D use {Double, one, zero_point, from_int, times, over, greater}

  unfoldable pub register_resource :
      ResourceType → String → ℤ → List (String × String) → M (Pool D) (Unit {0})
  unfolding insert lookup_or type_value
  register_resource type id capacity properties = locked (
      get >>= λ p. put (record p {
        resource_pools =
            insert (type_value type)
              (lookup_or [] (type_value type) p.resource_pools
                ++ (record {
                  resource_id = id;
                  kind = type;
                  state = available;
                  owner_id = "";
                  allocated_at = 0;
                  expires_at = 0;
                  properties = properties;
                  utilization = zero_point;
                  capacity = capacity;
                  used_capacity = pos 0;
                })
                  ∷ [])
              p.resource_pools;
      }))

  unfoldable pub unregister_resource : String → M (Pool D) (Unit {0})
  unfolding map_values
  unregister_resource id = locked (
      get >>= λ p. put (record p {
        resource_pools =
            map_values (λ k rs. keep (λ r. not (r.resource_id =? id)) rs) p.resource_pools;
      }))

  -- The resource and the result when a resource is found.
  unfoldable pub taken : ResourceRequest → Env D → Resource D → Resource D
  taken q e r = record r {
    state = allocated;
    owner_id = q.requester_id;
    allocated_at = e.granted;
    used_capacity = q.required_capacity;
    utilization = over (from_int q.required_capacity) (from_int r.capacity);
    expires_at =
        if q.auto_release && ltb 0 q.lease_duration
        then e.granted + q.lease_duration
        else r.expires_at;
  }

  unfoldable pub accepted : ResourceRequest → Env D → Resource D → AllocationResult
  unfolding taken
  accepted q e r = record {
    request_id = q.request_id;
    success = true;
    allocated_resources = r.resource_id ∷ [];
    error_message = "";
    allocated_at = e.started;
    expires_at = (taken q e r).expires_at;
  }

  unfoldable pub refused : ResourceRequest → Env D → String → AllocationResult
  refused q e message = record {
    request_id = q.request_id;
    success = false;
    allocated_resources = [];
    error_message = message;
    allocated_at = e.started;
    expires_at = 0;
  }

  unfoldable pub grant : ResourceRequest → Env D → Place D → Pool D → AllocationResult × Pool D
  unfolding taken accepted write insert lookup_or type_value
  grant q e place p = (
    accepted q e place.resource,
    record (write place (taken q e place.resource) p) {
      active_allocations =
          insert place.resource.resource_id (accepted q e place.resource) p.active_allocations;
      user_allocations =
          insert q.requester_id
            (lookup_or [] q.requester_id p.user_allocations ++ place.resource.resource_id ∷ [])
            p.user_allocations;
      allocation_counts =
          insert (type_value q.resource_type)
            (lookup_or 0 (type_value q.resource_type) p.allocation_counts + 1) p.allocation_counts;
      user_allocation_counts =
          insert q.requester_id (lookup_or 0 q.requester_id p.user_allocation_counts + 1)
            p.user_allocation_counts;
    },
  )

  unfoldable pub grant_or_refuse :
      ResourceRequest → Env D → Option (Place D) → Pool D → AllocationResult × Pool D
  unfolding grant refused
  grant_or_refuse q e none p = (refused q e "No suitable resource available", p)
  grant_or_refuse q e (some place) p = grant q e place p

  -- `pending_requests_.push(request)`.
  unfoldable pub push : ResourceRequest → Pool D → Pool D
  push q p = record p { pending_requests = p.pending_requests ++ q ∷ [] }

  unfoldable pub after_wait : ResourceRequest → Env D → Bool × Pool D → AllocationResult × Pool D
  unfolding refused grant_or_refuse
  after_wait q e (notified, p) =
      if not notified
      then (refused q e "Allocation timeout", p)
      else grant_or_refuse q e (find_best_resource q p) p

  unfoldable pub take_or_wait : ResourceRequest → Env D → Pool D → AllocationResult × Pool D
  unfolding grant_or_refuse after_wait push
  take_or_wait q e p = elim (find_best_resource q p) [
    | some place ↦ grant_or_refuse q e (some place) p
    | none ↦
        if ltb 0 q.max_wait_time
        then after_wait q e (e.wait_until (push q p))
        else grant_or_refuse q e none p
  ]

  -- After a failure, in time, the request goes back into the queue.
  unfoldable pub put_back : ResourceRequest → Env D → Pool D → Pool D
  unfolding push
  put_back q e p = if ltb e.checked (q.requested_at + q.max_wait_time) then push q p else p

  module _ (get_user_allocation_count : Pool D → String → ℕ) where
    unfoldable pub check_user_quota : String → Pool D → Bool
    check_user_quota user p = ltb (get_user_allocation_count p user) 10

    -- The method's body, under the lock.
    unfoldable pub allocate : ResourceRequest → Env D → Pool D → AllocationResult × Pool D
    unfolding refused take_or_wait check_user_quota
    allocate q e p =
        if not (check_user_quota q.requester_id p)
        then (refused q e "User quota exceeded", p)
        else take_or_wait q e p

    unfoldable pub allocate_resource : ResourceRequest → Env D → M (Pool D) AllocationResult
    unfolding allocate
    allocate_resource q e = locked (get >>= λ p. put (allocate q e p).1 >> pure (allocate q e p).0)

    unfoldable pub process_pending_requests : List (Env D) → M (Pool D) Bool
    unfolding allocate_resource put_back
    process_pending_requests [] held p = returns (is_empty p.pending_requests, p)
    process_pending_requests (e ∷ es) held p = elim p.pending_requests [
      | [] ↦ returns (true, p)
      | q ∷ rest ↦ elim (allocate_resource q e held (record p { pending_requests = rest })) [
        | deadlock ↦ deadlock
        | returns (result, p') ↦
            let on = process_pending_requests es held p' in
            if result.success then on else returns (true, put_back q e p')
      ]
    ]
