-- ===== src/Resources/Releases.antt =====
-- The methods of `ResourcePool` that give resources back (src/resources/resource_pool.cpp):
-- `release_resource`, `release_all_user_resources`, `cleanup_expired_allocations`; and its queries.
use distributed_data_science.Prelude.{
  ℕ, suc, Bool, true, false, not, ◌&&◌, Option, none, some, String, List, [], ◌∷◌, ◌++◌, map, ltb,
  if◌then◌else◌, ◌=?◌, string_key, nat_key, length, keep, count_if, ◌==◌,
}
use distributed_data_science.Prelude.Maps.{lookup, lookup_or, insert, erase, map_values}
use distributed_data_science.Prelude.Mutex.{M, ◌>>=◌, ◌>>◌, pure, get, put, locked}
use distributed_data_science.Resources.Pool.{
  pos, Doubles, ResourceType, type_value, available, is_available, is_allocated, Resource, Pool,
  Env, Place, write, get_resource,
}
use distributed_data_science.Resources.Calls.{process_pending_requests}

module _ {D : Doubles} where
  open D use {Double, one, zero_point, times, greater}

  unfoldable pub freed : Resource D → Resource D
  freed r = record r {
    state = available;
    owner_id = "";
    used_capacity = pos 0;
    utilization = zero_point;
    expires_at = 0;
  }

  -- The assignments of a release, and the erased allocation.
  unfoldable pub free : String → Place D → Pool D → Pool D
  unfolding freed write erase
  free id place p = record (write place (freed place.resource) p) {
    active_allocations = erase id p.active_allocations;
  }

  -- `user_resources.erase(std::remove(...))`.
  unfoldable pub forget : String → String → Pool D → Pool D
  unfolding insert lookup_or
  forget user id p = record p {
    user_allocations =
        insert user (keep (λ x. not (x =? id)) (lookup_or [] user p.user_allocations))
          p.user_allocations;
  }

  unfoldable pub owned_place : String → String → Pool D → Option (Place D)
  unfolding get_resource
  owned_place id user p = elim (get_resource id p) [
    | none ↦ none
    | some place ↦ if place.resource.owner_id =? user then some place else none
  ]

  -- The ids of the resources whose lease is over.
  unfoldable pub is_expired : ℕ → Resource D → Bool
  unfolding is_allocated
  is_expired now r = is_allocated r.state && not (r.expires_at == 0) && ltb r.expires_at now

  unfoldable pub expired_resources : ℕ → List (ℕ × List (Resource D)) → List String
  unfolding is_expired
  expired_resources now [] = []
  expired_resources now ((k, rs) ∷ pools) =
      map (λ r. r.resource_id) (keep (is_expired now) rs) ++ expired_resources now pools

  module _ (get_user_allocation_count : Pool D → String → ℕ) where
    unfoldable pub release_resource : String → String → List (Env D) → M (Pool D) Bool
    unfolding owned_place free forget process_pending_requests
    release_resource id user es = locked (
        get >>= λ p. elim (owned_place id user p) [
          | none ↦ pure false
          | some place ↦
              put (forget user id (free id place p))
              >> process_pending_requests get_user_allocation_count es
              >>= λ _. pure true
        ])

    unfoldable pub release_each : List String → List (Env D) → M (Pool D) (Unit {0})
    unfolding get_resource release_resource
    release_each [] es = pure tt
    release_each (id ∷ ids) es = get >>= λ p. elim (get_resource id p) [
      | none ↦ release_each ids es
      | some place ↦ release_resource id place.resource.owner_id es >>= λ _. release_each ids es
    ]

    unfoldable pub cleanup_expired_allocations : ℕ → List (Env D) → M (Pool D) (Unit {0})
    unfolding expired_resources release_each
    cleanup_expired_allocations now es =
        locked (get >>= λ p. release_each (expired_resources now p.resource_pools) es)

  -- The loop of `release_all_user_resources`.
  unfoldable pub free_each : String → List String → Bool × Pool D → Bool × Pool D
  unfolding owned_place free
  free_each user [] so_far = so_far
  free_each user (id ∷ ids) (all_released, p) = elim (owned_place id user p) [
    | none ↦ free_each user ids (false, p)
    | some place ↦ free_each user ids (all_released, free id place p)
  ]

  unfoldable pub release_all : String → Pool D → Bool × Pool D
  unfolding lookup free_each insert
  release_all user p = elim (lookup user p.user_allocations) [
    | none ↦ (true, p)
    | some ids ↦
        let (all_released, p') = free_each user ids (true, p) in
        (all_released, record p' { user_allocations = insert user [] p'.user_allocations })
  ]

  unfoldable pub release_all_user_resources : String → M (Pool D) Bool
  unfolding release_all
  release_all_user_resources user =
      locked (get >>= λ p. put (release_all user p).1 >> pure (release_all user p).0)

  -- The queries.
  unfoldable pub get_available_resources : ResourceType → Pool D → List (Resource D)
  unfolding lookup_or type_value is_available
  get_available_resources type p =
      keep (λ r. is_available r.state) (lookup_or [] (type_value type) p.resource_pools)

  unfoldable pub get_available_count : ResourceType → Pool D → ℕ
  unfolding get_available_resources
  get_available_count type p = length (get_available_resources type p)

  unfoldable pub get_allocated_count : ResourceType → Pool D → ℕ
  unfolding lookup_or type_value is_allocated
  get_allocated_count type p =
      count_if (λ r. is_allocated r.state) (lookup_or [] (type_value type) p.resource_pools)

  -- `update_resource_utilization` over one pool; the draws of the generator are given by index.
  unfoldable pub update_from : (ℕ → Double) → ℕ → List (Resource D) → List (Resource D)
  unfolding is_allocated
  update_from draw i [] = []
  update_from draw i (r ∷ rs) =
      let u = times r.utilization (draw i) in
      (if is_allocated r.state
        then record r { utilization = if greater one u then u else one }
        else r)
      ∷ update_from draw (suc i) rs

  unfoldable pub update_resource_utilization : (ℕ → ℕ → Double) → Pool D → Pool D
  unfolding map_values update_from
  update_resource_utilization draw p = record p {
    resource_pools = map_values (λ k rs. update_from (draw k) 0 rs) p.resource_pools;
  }
