-- ===== src/Resources/Runs.antt =====
-- Sequences of calls of `ResourcePool` (src/resources/resource_pool.cpp), each made with the mutex free.
use distributed_data_science.Prelude.{
  ℕ, ◌≡◌, refl, subst, false, String, List, [], ◌∷◌, arith, inl, inr, ◌⊎◌, string_key, nat_key, All,
  All-keep,
}
use distributed_data_science.Prelude.Mutex.{Outcome, returns, deadlock}
use distributed_data_science.Resources.Pool.{ℤ, Doubles, ResourceType, ResourceRequest, Pool, Env}
use distributed_data_science.Resources.Calls.{
  register_resource, unregister_resource, allocate_resource, process_pending_requests,
}
use distributed_data_science.Resources.Releases.{
  release_resource, cleanup_expired_allocations, release_all_user_resources,
  update_resource_utilization,
}
use distributed_data_science.Resources.Kept.{
  LeavesSound, allocate-IsPoolSound, cleanup-LeavesSound, process-LeavesSound, register-IsPoolSound,
  release-LeavesSound, release_all-IsPoolSound, update_from-IsSound,
}
use distributed_data_science.Resources.Capacity.{IsPoolSound, IsFair, map_values-AreSound}

pub data Call (D : Doubles) : Type 0 where
  registers : ResourceType → String → ℤ → List (String × String) → Call D
  unregisters : String → Call D
  allocates : ResourceRequest → Env D → Call D
  releases : String → String → List (Env D) → Call D
  releases_all : String → Call D
  cleans : ℕ → List (Env D) → Call D
  processes : List (Env D) → Call D
  updates : (ℕ → ℕ → D.Double) → Call D

-- The pool that a call leaves.
unfoldable pub pool_of {ℓ κ} : {A : Type ℓ} {S : Type κ} → Outcome (A × S) → Outcome S
pool_of (returns (a, s)) = returns s
pool_of deadlock = deadlock

Outcome-cases {ℓ} : {A : Type ℓ} (o : Outcome A) → (o ≡ deadlock) ⊎ ((a : A) × (o ≡ returns a))
Outcome-cases deadlock = inl refl
Outcome-cases (returns a) = inr (a, refl)

module _ {D : Doubles} where
  -- The waits of the call keep the pool sound.
  abbrev pub HasFairWaits : Call D → Type 0
  HasFairWaits (allocates q e) = IsFair e
  HasFairWaits (releases id user es) = All IsFair es
  HasFairWaits (processes es) = All IsFair es
  HasFairWaits _ = Unit

module _ {D : Doubles} (count : Pool D → String → ℕ) where
  unfoldable pub step : Call D → Pool D → Outcome (Pool D)
  unfolding pool_of register_resource unregister_resource allocate_resource release_resource
      release_all_user_resources cleanup_expired_allocations process_pending_requests
      update_resource_utilization
  step (registers type id capacity properties) p =
      pool_of (register_resource type id capacity properties false p)
  step (unregisters id) p = pool_of (unregister_resource id false p)
  step (allocates q e) p = pool_of (allocate_resource count q e false p)
  step (releases id user es) p = pool_of (release_resource count id user es false p)
  step (releases_all user) p = pool_of (release_all_user_resources user false p)
  step (cleans now es) p = pool_of (cleanup_expired_allocations count now es false p)
  step (processes es) p = pool_of (process_pending_requests count es false p)
  step (updates draw) p = returns (update_resource_utilization draw p)

  -- A call that never returns ends the sequence.
  unfoldable pub run : List (Call D) → Pool D → Outcome (Pool D)
  unfolding step
  run [] p = returns p
  run (c ∷ cs) p = elim (step c p) [ deadlock ↦ deadlock | returns p' ↦ run cs p' ]

  pool_of-IsPoolSound :
      {A : Type 0} (o : Outcome (A × Pool D)) (p' : Pool D)
      → LeavesSound o
      → pool_of o ≡ returns p'
      → IsPoolSound p'
  unfolding pool_of
  pool_of-IsPoolSound (returns (a, q)) p' h e =
      let same : q ≡ p' = cc in subst (λ p. IsPoolSound p) same h
  pool_of-IsPoolSound deadlock p' h e = absurd cc

  step-IsPoolSound :
      (c : Call D) (p p' : Pool D)
      → HasFairWaits c
      → IsPoolSound p
      → step c p ≡ returns p'
      → IsPoolSound p'
  unfolding step
  step-IsPoolSound (registers type id capacity properties) p p' fair h e =
      pool_of-IsPoolSound (register_resource type id capacity properties false p) p'
        (register-IsPoolSound type id capacity properties p h) e
  step-IsPoolSound (unregisters id) p p' fair h e =
      pool_of-IsPoolSound (unregister_resource id false p) p'
        (map_values-AreSound _ p.resource_pools (λ k rs v. All-keep _ _ rs v) h) e
  step-IsPoolSound (allocates q d) p p' fair h e =
      pool_of-IsPoolSound (allocate_resource count q d false p) p'
        (allocate-IsPoolSound count q d p fair h) e
  step-IsPoolSound (releases id user es) p p' fair h e =
      pool_of-IsPoolSound (release_resource count id user es false p) p'
        (release-LeavesSound count id user es false p fair h) e
  step-IsPoolSound (releases_all user) p p' fair h e =
      pool_of-IsPoolSound (release_all_user_resources user false p) p'
        (release_all-IsPoolSound user p h) e
  step-IsPoolSound (cleans now es) p p' fair h e =
      pool_of-IsPoolSound (cleanup_expired_allocations count now es false p) p'
        (cleanup-LeavesSound count now es p h) e
  step-IsPoolSound (processes es) p p' fair h e =
      pool_of-IsPoolSound (process_pending_requests count es false p) p'
        (process-LeavesSound count es false p fair h) e
  step-IsPoolSound (updates draw) p p' fair h e =
      pool_of-IsPoolSound (returns (tt {0}, update_resource_utilization draw p)) p'
        (map_values-AreSound _ p.resource_pools (λ k rs v. update_from-IsSound (draw k) 0 rs v) h) e

  -- After every sequence of calls that returns, if what the other threads do during a wait keeps it
  -- too: no resource of the pool that uses something uses more than its capacity, and one that is
  -- available uses nothing and has no lease. A capacity may be negative, of what is registered and of
  -- what is asked for.
  pub run-IsPoolSound :
      (cs : List (Call D)) (p p' : Pool D)
      → All HasFairWaits cs
      → IsPoolSound p
      → run cs p ≡ returns p'
      → IsPoolSound p'
  unfolding run
  run-IsPoolSound [] p p' fair h e = let same : p ≡ p' = cc in subst (λ q. IsPoolSound q) same h
  run-IsPoolSound (c ∷ cs) p p' fair h e = elim (Outcome-cases (step c p)) [
    | inl blocks ↦ absurd (ground arith)
    | inr (p1, comes) ↦
        run-IsPoolSound cs p1 p' fair.1 (step-IsPoolSound c p p1 fair.0 h comes) (ground arith)
  ]
