-- ===== src/Resources/Pool.antt =====
-- `ResourcePool` (src/resources/resource_pool.cpp): registration, the choice of a resource, allocation,
-- release, expiry and the queue of the requests that wait.
-- A resource is shared by pointers, here a place: the key of its pool and its index there. A time is
-- a number and `time_point{}` is 0; a capacity is an integer, which only is compared. `Env` is what a call of
-- `allocate_resource` meets: the clock, and what the other threads do while it waits.
-- `get_user_allocation_count` has no definition in the repository and is a parameter.
use distributed_data_science.Prelude.{
  ℕ, suc, Bool, true, false, not, Option, none, some, String, List, [], ◌∷◌, ltb, if◌then◌else◌,
  ◌=?◌, string_key, nat_key, set, all_of,
}
use distributed_data_science.Prelude.Maps.{lookup, lookup_or, insert}

-- `int64_t`; `negsuc n` is -(n + 1). It is only copied, compared and converted.
pub data ℤ : Type 0 where
  pos : ℕ → ℤ
  negsuc : ℕ → ℤ

unfoldable pub ltb_ℤ : ℤ → ℤ → Bool
ltb_ℤ (pos m) (pos n) = ltb m n
ltb_ℤ (pos m) (negsuc n) = false
ltb_ℤ (negsuc m) (pos n) = true
ltb_ℤ (negsuc m) (negsuc n) = ltb n m

-- `double`, with the operations that are used of it.
pub record Doubles : Type 1 where
  pub Double : Type 0
  pub zero_point : Double
  pub minus_one : Double
  pub one : Double
  pub seven_tenths : Double
  pub three_tenths : Double
  pub from_int : ℤ → Double
  pub plus : Double → Double → Double
  pub minus : Double → Double → Double
  pub times : Double → Double → Double
  pub over : Double → Double → Double
  pub greater : Double → Double → Bool

pub data ResourceType : Type 0 where
  cpu_core gpu_device memory_block storage_space network_bandwidth database_connection :
      ResourceType
  thread_worker : ResourceType

-- The enumerator's value, which is the key of `resource_pools_`.
unfoldable pub type_value : ResourceType → ℕ
type_value cpu_core = 0
type_value gpu_device = 1
type_value memory_block = 2
type_value storage_space = 3
type_value network_bandwidth = 4
type_value database_connection = 5
type_value thread_worker = 6

unfoldable pub resource_type_to_string : ResourceType → String
resource_type_to_string cpu_core = "CPU_CORE"
resource_type_to_string gpu_device = "GPU_DEVICE"
resource_type_to_string memory_block = "MEMORY_BLOCK"
resource_type_to_string storage_space = "STORAGE_SPACE"
resource_type_to_string network_bandwidth = "NETWORK_BANDWIDTH"
resource_type_to_string database_connection = "DATABASE_CONNECTION"
resource_type_to_string thread_worker = "THREAD_WORKER"

pub data ResourceState : Type 0 where
  available allocated reserved maintenance failed : ResourceState

-- `state == ResourceState::AVAILABLE` and `state == ResourceState::ALLOCATED`.
unfoldable pub is_available : ResourceState → Bool
is_available available = true
is_available _ = false

unfoldable pub is_allocated : ResourceState → Bool
is_allocated allocated = true
is_allocated _ = false

pub record Resource (D : Doubles) : Type 0 where
  pub resource_id : String
  pub kind : ResourceType
  pub state : ResourceState
  pub owner_id : String
  pub allocated_at : ℕ
  pub expires_at : ℕ
  pub properties : List (String × String)
  pub utilization : D.Double
  pub capacity : ℤ
  pub used_capacity : ℤ

pub data AllocationPriority : Type 0 where
  low normal high critical : AllocationPriority

pub record ResourceRequest : Type 0 where
  pub request_id : String
  pub requester_id : String
  pub resource_type : ResourceType
  pub priority : AllocationPriority
  pub required_capacity : ℤ
  pub max_wait_time : ℕ
  pub requirements : List (String × String)
  pub requested_at : ℕ
  pub auto_release : Bool
  pub lease_duration : ℕ

pub record AllocationResult : Type 0 where
  pub request_id : String
  pub success : Bool
  pub allocated_resources : List String
  pub error_message : String
  pub allocated_at : ℕ
  pub expires_at : ℕ

pub record Pool (D : Doubles) : Type 0 where
  pub resource_pools : List (ℕ × List (Resource D))
  pub pending_requests : List ResourceRequest
  pub active_allocations : List (String × AllocationResult)
  pub user_allocations : List (String × List String)
  pub allocation_counts : List (ℕ × ℕ)
  pub user_allocation_counts : List (String × ℕ)

-- The clock at the head of the call, when a resource is taken, and after a failure; and
-- `wait_until`: whether a notification came in time, and the pool that it leaves.
pub record Env (D : Doubles) : Type 0 where
  pub started : ℕ
  pub granted : ℕ
  pub checked : ℕ
  pub wait_until : Pool D → Bool × Pool D

-- A resource and where it is.
pub record Place (D : Doubles) : Type 0 where
  pub pool : ℕ
  pub index : ℕ
  pub resource : Resource D

-- `meets_requirements`: the loop over the required properties.
unfoldable pub has_property : List (String × String) → String × String → Bool
unfolding lookup
has_property properties (name, value) = elim (lookup name properties) [
  | none ↦ false
  | some found ↦ found =? value
]

module _ {D : Doubles} where
  open D use {
    Double, minus_one, one, zero_point, seven_tenths, three_tenths, from_int, plus, minus, times,
    over, greater,
  }

  unfoldable pub meets_requirements : Resource D → ResourceRequest → Bool
  unfolding has_property ltb_ℤ
  meets_requirements r q =
      if ltb_ℤ r.capacity q.required_capacity
      then false
      else all_of (has_property r.properties) q.requirements

  unfoldable pub total_score : Resource D → ResourceRequest → Double
  total_score r q =
      plus (times (over (from_int q.required_capacity) (from_int r.capacity)) seven_tenths)
        (times (minus one r.utilization) three_tenths)

  -- The loop's body: the best one so far and its score.
  unfoldable pub consider :
      ResourceRequest → ℕ → ℕ → Resource D → Option (Place D) × Double → Option (Place D) × Double
  unfolding is_available meets_requirements total_score
  consider q k i r (best, score) =
      if not (is_available r.state)
      then (best, score)
      else if not (meets_requirements r q)
      then (best, score)
      else if greater (total_score r q) score
      then (some (record { pool = k; index = i; resource = r }), total_score r q)
      else (best, score)

  unfoldable pub best_from :
      ResourceRequest
      → ℕ
      → ℕ
      → Option (Place D) × Double
      → List (Resource D)
      → Option (Place D) × Double
  unfolding consider
  best_from q k i so_far [] = so_far
  best_from q k i so_far (r ∷ rs) = best_from q k (suc i) (consider q k i r so_far) rs

  unfoldable pub find_best_resource : ResourceRequest → Pool D → Option (Place D)
  unfolding best_from lookup type_value
  find_best_resource q p = elim (lookup (type_value q.resource_type) p.resource_pools) [
    | none ↦ none
    | some resources ↦ (best_from q (type_value q.resource_type) 0 (none, minus_one) resources).0
  ]

  -- An assignment through the pointer.
  unfoldable pub write : Place D → Resource D → Pool D → Pool D
  unfolding lookup_or insert
  write place r p = record p {
    resource_pools =
        insert place.pool (set (lookup_or [] place.pool p.resource_pools) place.index r)
          p.resource_pools;
  }

  unfoldable pub find_in : String → ℕ → ℕ → List (Resource D) → Option (Place D)
  find_in id k i [] = none
  find_in id k i (r ∷ rs) =
      let rest = find_in id k (suc i) rs in
      if r.resource_id =? id then some (record { pool = k; index = i; resource = r }) else rest

  unfoldable pub find_in_pools : String → List (ℕ × List (Resource D)) → Option (Place D)
  unfolding find_in
  find_in_pools id [] = none
  find_in_pools id ((k, rs) ∷ pools) =
      let rest = find_in_pools id pools in
      elim (find_in id k 0 rs) [ some place ↦ some place | none ↦ rest ]

  unfoldable pub get_resource : String → Pool D → Option (Place D)
  unfolding find_in_pools
  get_resource id p = find_in_pools id p.resource_pools
