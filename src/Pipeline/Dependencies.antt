-- ===== src/Pipeline/Dependencies.antt =====
-- A task runs only once all that it depends on is completed.
use distributed_data_science.Prelude.{
  ℕ, zero, suc, ◌≡◌, refl, sym, subst, ◌∙◌, true, false, Option, none, some, String, List, [], ◌∷◌,
  arith, ◌=?◌, =?_iff, string_key, Bool-cases, inl, inr, All, All-of→All, All-map,
}
use distributed_data_science.Prelude.Maps.{lookup, insert, lookup-insert, lookup-insert_self}
use distributed_data_science.Pipeline.Task.{
  TaskStatus, pending, completed, Host, PipelineTask, is_pending, is_completed, after_run, execute,
  can_execute,
}
use distributed_data_science.Pipeline.Orchestrator.{
  Statuses, Progress, all_settled, run_task, visit, pass, rounds,
}

-- No task of the list has the id.
abbrev pub Absent : {W : Type 0} → String → List (PipelineTask W) → Type 0
Absent id [] = Unit
Absent id (t ∷ ts) = ((t.task_id =? id) ≡ false) × Absent id ts

abbrev pub DistinctIds : {W : Type 0} → List (PipelineTask W) → Type 0
DistinctIds [] = Unit
DistinctIds (t ∷ ts) = Absent t.task_id ts × DistinctIds ts

-- Completed entries stay completed.
abbrev pub Grows : Statuses → Statuses → Type 0
Grows a b = (id : String) → lookup id a ≡ some completed → lookup id b ≡ some completed

-- The dictionary knows the status of the task.
abbrev pub Synced : {W : Type 0} → Statuses → PipelineTask W → Type 0
Synced local t = lookup t.task_id local ≡ some t.status

abbrev pub AllDone : Statuses → List String → Type 0
AllDone local deps = All (λ dep. lookup dep local ≡ some completed) deps

-- If the task is not pending, then all that it depends on is completed.
abbrev pub IsGrounded : {W : Type 0} → Statuses → PipelineTask W → Type 0
IsGrounded local t = is_pending t.status ≡ false → AllDone local t.dependencies

AllDone-Grows : (a b : Statuses) (deps : List String) → Grows a b → AllDone a deps → AllDone b deps
AllDone-Grows a b deps g = All-map _ _ deps (λ dep. g dep)

is_completed→some : (o : Option TaskStatus) → is_completed o ≡ true → o ≡ some completed
unfolding is_completed
is_completed→some none h = ground arith
is_completed→some (some completed) h = refl
is_completed→some (some pending) h = ground arith
is_completed→some (some _) h = ground arith

can_execute→AllDone :
    {W : Type 0} (t : PipelineTask W) (local : Statuses)
    → can_execute t local ≡ true
    → (is_pending t.status ≡ true) × AllDone local t.dependencies
unfolding can_execute
can_execute→AllDone t local h = (
  ground arith,
  All-map _ _ t.dependencies (λ dep. is_completed→some (lookup dep local))
      (All-of→All (λ dep. is_completed (lookup dep local)) t.dependencies (ground arith)),
)

module _ {W : Type 0} (host : Host W) (id : String) (parameters : List (String × String)) where
  pub run_task_lem :
      (t : PipelineTask W) (s : Progress W)
      → let (t', s') = run_task host id parameters t s in
        (t'.task_id ≡ t.task_id)
        × (t'.dependencies ≡ t.dependencies)
        × (s'.local ≡ insert t.task_id t'.status s.local)
  unfolding run_task execute after_run
  run_task_lem t s = ground arith

  -- What a step of the `for` keeps.
  record Kept (t : PipelineTask W) (s : Progress W) (t' : PipelineTask W) (s' : Progress W)
      : Type 0 where
    id_same : t'.task_id ≡ t.task_id
    pub synced : Synced s'.local t'
    pub grows : Grows s.local s'.local
    pub others : (k : String) → (t.task_id =? k) ≡ false → lookup k s'.local ≡ lookup k s.local
    pub grounded : IsGrounded s.local t → IsGrounded s'.local t'

  ran-Kept :
      (t t' : PipelineTask W) (s s' : Progress W)
      → t'.task_id ≡ t.task_id
      → t'.dependencies ≡ t.dependencies
      → s'.local ≡ insert t.task_id t'.status s.local
      → is_pending t.status ≡ true
      → AllDone s.local t.dependencies
      → Synced s.local t
      → Kept t s t' s'
  unfolding is_pending
  ran-Kept t t' s s' e d l p deps sync = record {
    id_same = e;
    synced = rw (e, l) (lookup-insert_self t.task_id t'.status s.local);
    grows = grows;
    others = λ k h. ground (arith, lookup-insert t.task_id k t'.status s.local);
    grounded = λ _ _. rw d (AllDone-Grows s.local s'.local t.dependencies grows deps);
  }
    where
      grows : Grows s.local s'.local
      grows k h = ground (arith, =?_iff t.task_id k, lookup-insert t.task_id k t'.status s.local)

  visit-Kept :
      (t : PipelineTask W) (s : Progress W)
      → Synced s.local t
      → let (t', s', _) = visit host id parameters t s in Kept t s t' s'
  unfolding visit
  visit-Kept t s sync = elim (Bool-cases (can_execute t s.local)) [
    | inl yes_run ↦
        let (t', s') = run_task host id parameters t s in
        let (e, d, l) = run_task_lem t s in
        let (p, deps) = can_execute→AllDone t s.local yes_run in
        rw (yes_run, visit) (ran-Kept t t' s s' e d l p deps sync)
    | inr skip ↦
        rw (skip, visit)
          (record {
            id_same = refl;
            synced = sync;
            grows = λ k h. h;
            others = λ k h. refl;
            grounded = λ g. g;
          })
  ]

  -- What a round keeps, and any number of them.
  pub record Passed (ts : List (PipelineTask W)) (s : Progress W) (us : List (PipelineTask W))
      (s' : Progress W) : Type 0 where
    pub distinct : DistinctIds us
    pub absent : (k : String) → Absent k ts → Absent k us
    pub synced : All (Synced s'.local) us
    pub grows : Grows s.local s'.local
    pub others : (k : String) → Absent k ts → lookup k s'.local ≡ lookup k s.local
    pub grounded : All (IsGrounded s.local) ts → All (IsGrounded s'.local) us

  cons-Passed :
      (t t' : PipelineTask W) (ts us : List (PipelineTask W)) (s s' s'' : Progress W)
      → Absent t.task_id ts
      → Kept t s t' s'
      → Passed ts s' us s''
      → Passed (t ∷ ts) s (t' ∷ us) s''
  cons-Passed t t' ts us s s' s'' a k p = record {
    distinct = (subst (λ id. Absent id us) (sym k.id_same) (p.absent t.task_id a), p.distinct);
    absent = λ id h. (rw (k.id_same) (h.0), p.absent id h.1);
    synced = (rw (kept_out) k.synced, p.synced);
    grows = λ id h. p.grows id (k.grows id h);
    others = λ id h. p.others id h.1 ∙ k.others id h.0;
    grounded = λ g. (
      λ e. AllDone-Grows s'.local s''.local t'.dependencies p.grows (k.grounded g.0 e),
      p.grounded (
          All-map _ _ ts (λ u gu e. AllDone-Grows s.local s'.local u.dependencies k.grows (gu e))
            g.1),
    );
  }
    where
      kept_out : lookup t'.task_id s''.local ≡ lookup t'.task_id s'.local
      kept_out = p.others t'.task_id (subst (λ id. Absent id ts) (sym k.id_same) a)

  Synced-after :
      (t t' : PipelineTask W) (s s' : Progress W) (ts : List (PipelineTask W))
      → Absent t.task_id ts
      → Kept t s t' s'
      → All (Synced s.local) ts
      → All (Synced s'.local) ts
  Synced-after t t' s s' [] a k h = tt
  Synced-after t t' s s' (u ∷ ts) a k h = (
    rw
        (k.others u.task_id
          (ground (arith, a.0, =?_iff u.task_id t.task_id, =?_iff t.task_id u.task_id)))
        h.0,
    Synced-after t t' s s' ts a.1 k h.1,
  )

  pass-Passed :
      (ts : List (PipelineTask W)) (s : Progress W)
      → DistinctIds ts
      → All (Synced s.local) ts
      → let (us, s', _) = pass host id parameters ts s in Passed ts s us s'
  unfolding pass
  pass-Passed [] s d h = record {
    distinct = tt;
    absent = λ k a. tt;
    synced = tt;
    grows = λ k e. e;
    others = λ k a. refl;
    grounded = λ g. tt;
  }
  pass-Passed (t ∷ ts) s d h =
      let (t', s', _) = visit host id parameters t s in
      let kept = visit-Kept t s h.0 in
      cons-Passed t t' ts _ s s' _ d.0 kept
        (pass-Passed ts s' d.1 (Synced-after t t' s s' ts d.0 kept h.1))

  Passed-trans :
      (ts us vs : List (PipelineTask W)) (s s' s'' : Progress W)
      → Passed ts s us s'
      → Passed us s' vs s''
      → Passed ts s vs s''
  Passed-trans ts us vs s s' s'' p q = record {
    distinct = q.distinct;
    absent = λ k a. q.absent k (p.absent k a);
    synced = q.synced;
    grows = λ k e. q.grows k (p.grows k e);
    others = λ k a. q.others k (p.absent k a) ∙ p.others k a;
    grounded = λ g. q.grounded (p.grounded g);
  }

  pub rounds-Passed :
      (left : ℕ) (ts : List (PipelineTask W)) (s : Progress W)
      → DistinctIds ts
      → All (Synced s.local) ts
      → let (us, s') = rounds host id parameters left ts s in Passed ts s us s'
  unfolding rounds
  rounds-Passed zero ts s d h = record {
    distinct = d;
    absent = λ k a. a;
    synced = h;
    grows = λ k e. e;
    others = λ k a. refl;
    grounded = λ g. g;
  }
  rounds-Passed (suc left) ts s d h =
      let (us, s', progress) = pass host id parameters ts s in
      let p = pass-Passed ts s d h in
      let more = rounds-Passed left us s' p.distinct p.synced in
      elim (Bool-cases (all_settled s'.local)) [
        | inl done ↦ rw (done, rounds) p
        | inr undone ↦ elim (Bool-cases progress) [
          | inl moved ↦ rw (undone, moved, rounds) (Passed-trans ts us _ s s' _ p more)
          | inr stuck ↦
              rw (undone, stuck, rounds)
                (record {
                  distinct = p.distinct;
                  absent = p.absent;
                  synced = p.synced;
                  grows = p.grows;
                  others = p.others;
                  grounded = p.grounded;
                })
        ]
      ]
