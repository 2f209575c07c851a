-- ===== src/Tests/Pools.antt =====
-- A pool of two processors.
use distributed_data_science.Prelude.{
  ℕ, ◌+◌, ◌-◌, ◌*◌, ◌/◌, ◌≡◌, refl, true, false, none, some, String, List, [], ◌∷◌, arith, ltb,
}
use distributed_data_science.Prelude.Maps.{lookup}
use distributed_data_science.Prelude.Mutex.{returns, deadlock}
use distributed_data_science.Resources.Pool.{
  ℤ, pos, negsuc, type_value, Doubles, ResourceState, available, allocated, cpu_core, normal,
  Resource, ResourceRequest, Pool, Env, find_best_resource, get_resource, find_in_pools,
}
use distributed_data_science.Resources.Calls.{process_pending_requests}
use distributed_data_science.Resources.Releases.{release_resource}
use distributed_data_science.Resources.Choice.{Chosen, find_best_resource-Chosen}
use distributed_data_science.Resources.Waiting.{
  finishes, release_resource-outcome, process_pending_requests-finishes,
}
use distributed_data_science.Resources.Runs.{
  Call, registers, allocates, releases, run, run-IsPoolSound,
}
use distributed_data_science.Resources.Capacity.{is_zero, IsPoolSound}

abbrev thousands : ℤ → ℕ
thousands (pos n) = n * 1000 + 1000
thousands (negsuc n) = 0

-- Thousandths, above -1.
abbrev thousandths : Doubles
thousandths = record {
  Double = ℕ;
  zero_point = 1000;
  minus_one = 0;
  one = 2000;
  seven_tenths = 1700;
  three_tenths = 1300;
  from_int = thousands;
  plus = λ x y. x + y - 1000;
  minus = λ x y. x - y + 1000;
  times = λ x y. (x - 1000) * (y - 1000) / 1000 + 1000;
  over = λ x y. (x - 1000) * 1000 / (y - 1000) + 1000;
  greater = λ x y. ltb y x;
}

abbrev core : String → ℕ → ResourceState → String → ℕ → Resource thousandths
core id capacity state owner expires = record {
  resource_id = id;
  kind = cpu_core;
  state = state;
  owner_id = owner;
  allocated_at = 0;
  expires_at = expires;
  properties = [];
  utilization = 1000;
  capacity = pos capacity;
  used_capacity = pos 0;
}

abbrev request : ResourceRequest
request = record {
  request_id = "r";
  requester_id = "ann";
  resource_type = cpu_core;
  priority = normal;
  required_capacity = pos 2;
  max_wait_time = 5;
  requirements = [];
  requested_at = 10;
  auto_release = true;
  lease_duration = 60;
}

abbrev pool_with : List (Resource thousandths) → List ResourceRequest → Pool thousandths
pool_with cores pending = record {
  resource_pools = (0, cores) ∷ [];
  pending_requests = pending;
  active_allocations = [];
  user_allocations = [];
  allocation_counts = [];
  user_allocation_counts = [];
}

abbrev two_cores : Pool thousandths
two_cores = pool_with (core "a" 8 available "" 0 ∷ core "b" 4 available "" 0 ∷ []) []

abbrev taken_core : Resource thousandths
taken_core = core "a" 8 allocated "ann" 70

abbrev busy : Pool thousandths
busy = pool_with (taken_core ∷ []) []

-- Nothing happens during a wait, and it times out; and one during which `a` is given back.
abbrev quiet : Env thousandths
quiet = record { started = 10; granted = 10; checked = 20; wait_until = λ p. (false, p) }

abbrev notified : Env thousandths
notified = record {
  started = 10;
  granted = 12;
  checked = 20;
  wait_until = λ p. (true, pool_with (core "a" 8 available "" 0 ∷ []) p.pending_requests);
}

abbrev no_quota : Pool thousandths → String → ℕ
no_quota p user = 0

find_best_resource-Chosen_example :
    Chosen request 0
      (core "a" 8 available "" 0 ∷ core "b" 4 available "" 0 ∷ [])
      (find_best_resource request two_cores)
unfolding lookup type_value
find_best_resource-Chosen_example =
    find_best_resource-Chosen {D = thousandths} (λ x. ground arith) (λ x y z g h. ground arith)
      request two_cores (core "a" 8 available "" 0 ∷ core "b" 4 available "" 0 ∷ []) refl

chosen :
    elim (find_best_resource request two_cores) as (λ _. String) [
      | none ↦ ""
      | some place ↦ place.resource.resource_id
    ]
    ≡ "b"
unfolding find_best_resource
chosen = refl

release_resource-outcome_example :
    release_resource no_quota "a" "ann"
      (quiet ∷ [])
      false
      (pool_with (taken_core ∷ []) (request ∷ []))
    ≡ deadlock
unfolding get_resource find_in_pools
release_resource-outcome_example =
    release_resource-outcome no_quota "a" "ann" quiet []
      (pool_with (taken_core ∷ []) (request ∷ []))

process_pending_requests-finishes_example :
    finishes (
      process_pending_requests no_quota
        (quiet ∷ quiet ∷ [])
        false
        (pool_with (taken_core ∷ []) (request ∷ [])))
    ≡ true
process_pending_requests-finishes_example =
    process_pending_requests-finishes no_quota (quiet ∷ quiet ∷ [])
      (pool_with (taken_core ∷ []) (request ∷ [])) (λ p. refl, (λ p. refl, tt)) (omega arith)

abbrev calls : List (Call thousandths)
calls = registers cpu_core "a" (pos 8) [] ∷ allocates request quiet ∷ releases "a" "ann" [] ∷ []

abbrev left : Pool thousandths
unfolding run
left = elim (run no_quota calls (pool_with [] [])) [ returns p ↦ p | deadlock ↦ pool_with [] [] ]

run-IsPoolSound_example : IsPoolSound left
unfolding run find_best_resource is_zero
run-IsPoolSound_example =
    run-IsPoolSound no_quota calls (pool_with [] []) left (tt, (λ p h. h, (tt, tt))) (tt, tt) refl
