-- ===== src/Web/Routing/Middleware.antt =====
-- A stack of middleware runs to its end (src/web/web_server.cpp, `execute_middleware_stack`).
use distributed_data_science.Prelude.{
  ℕ, zero, suc, ◌+◌, ◌≤◌, ◌<◌, ◌≡◌, refl, Option, none, some, List, [], ◌∷◌, map, arith, get_elem?,
  length, inl, inr, Option-cases, ◌++◌, append-assoc_one, length-append,
}
use mathlib.Core.List.{append-nil}
use distributed_data_science.Web.Routing.{
  Behaviour, finishes, calls_next, run_behaviour, next, execute_middleware_stack, through,
}

get_elem?-lt : {A : Type 0} (xs : List A) (i : ℕ) (x : A) → get_elem? xs i ≡ some x → i < length xs
get_elem?-lt [] i x h = cc
get_elem?-lt (y ∷ xs) zero x h = omega arith
get_elem?-lt (y ∷ xs) (suc i) x h = omega (arith, get_elem?-lt xs i x h)

get_elem?-middle :
    {A : Type 0} (xs : List A) (x : A) (ys : List A) → get_elem? (xs ++ x ∷ ys) (length xs) ≡ some x
get_elem?-middle [] x ys = refl
get_elem?-middle (y ∷ xs) x ys = get_elem?-middle xs x ys

get_elem?-past : {A : Type 0} (xs : List A) → get_elem? xs (length xs) ≡ none
get_elem?-past [] = refl
get_elem?-past (x ∷ xs) = get_elem?-past xs

length-map : {A B : Type 0} (f : A → B) (xs : List A) → length (map f xs) ≡ length xs
length-map f [] = refl
length-map f (x ∷ xs) = omega (arith, length-map f xs)

-- What a list of changes makes of a response, the first one first.
apply_each : {Res : Type 0} → List (Res → Res) → Res → Res
apply_each [] res = res
apply_each (change ∷ changes) res = apply_each changes (change res)

-- A response, and a place from `low` to `top`.
abbrev Ends : {Res : Type 0} → ℕ → ℕ → Option (Res × ℕ) → Type 0
Ends {Res} low top result = (res : Res) × (j : ℕ) × (result ≡ some (res, j)) × (low ≤ j) × (j ≤ top)

module _ {Req Res : Type 0} where
  abbrev Runs : ℕ → ℕ → (ℕ → Req → Res → Option (Res × ℕ)) → Type 0
  Runs low top f = (i : ℕ) (req : Req) (res : Res) → low ≤ i → i ≤ top → Ends i top (f i req res)

  run_behaviour-Ends :
      (f : ℕ → Req → Res → Option (Res × ℕ)) (low top i : ℕ) (b : Behaviour Req Res)
      → Runs low top f
      → low ≤ i
      → i ≤ top
      → Ends i top (run_behaviour f b i)
  unfolding run_behaviour
  run_behaviour-Ends f low top i (finishes res) h le up = (res, i, refl, omega arith, up)
  run_behaviour-Ends f low top i (calls_next req res go_on) h le up =
      let (res', j, e, more, less) = h i req res le up in
      let (res'', k, e', more', less') =
        run_behaviour-Ends f low top j (go_on res') h (omega arith) less in
      (res'', k, rw (e, run_behaviour) e', omega arith, less')

  module _ (stack : List (Req → Res → Behaviour Req Res)) (handler : Req → Res → Res) where
    next-Ends :
        (fuel i : ℕ) (req : Req) (res : Res)
        → i ≤ length stack
        → length stack < fuel + i
        → Ends i (length stack) (next stack handler fuel i req res)
    unfolding next
    next-Ends zero i req res up h = absurd (omega arith)
    next-Ends (suc fuel) i req res up h = elim (Option-cases (get_elem? stack i)) [
      | inl e ↦ (handler req res, i, rw (e, next) refl, omega arith, up)
      | inr (middleware, e) ↦
          let inside : i < length stack = get_elem?-lt stack i middleware e in
          let (res', j, run, more, less) =
            run_behaviour-Ends (next stack handler fuel) (suc i) (length stack) (suc i)
              (middleware req res)
              (λ k req' res' le le'. next-Ends fuel k req' res' le' (omega arith)) (omega arith)
              (omega arith) in
          (res', j, rw (e, next) run, omega arith, less)
    ]

    -- Whatever the middleware does with `next`, also if it calls it several times or not at all, the
    -- stack gives a response: the depth that the fuel allows is enough.
    pub execute_middleware_stack-finishes :
        (req : Req) (res : Res)
        → (res' : Res) × (execute_middleware_stack stack handler req res ≡ some res')
    unfolding execute_middleware_stack
    execute_middleware_stack-finishes req res =
        let (res', j, e, more, less) =
          next-Ends (suc (length stack)) 0 req res (omega arith) (omega arith) in
        (res', rw (e, execute_middleware_stack) refl)

  next-through :
      (before : List (Req → Res → Behaviour Req Res)) (changes : List (Res → Res))
      (handler : Req → Res → Res) (req : Req) (res : Res)
      → next (before ++ map through changes) handler (suc (length changes)) (length before) req res
        ≡ some (handler req (apply_each changes res), length before + length changes)
  unfolding next run_behaviour apply_each
  next-through before [] handler req res = ground (arith, append-nil before, get_elem?-past before)
  next-through before (change ∷ changes) handler req res = ground (
    arith,
    get_elem?-middle before (through change) (map through changes),
    append-assoc_one before (through change) (map through changes),
    length-append before (through change ∷ []),
    next-through (before ++ through change ∷ []) changes handler req (change res),
  )

  -- If each middleware changes the response, calls `next` once with it and is done, the handler gets
  -- the response with all the changes, the first middleware's first, and what the handler makes of
  -- that is the result.
  execute_middleware_stack-through :
      (changes : List (Res → Res)) (handler : Req → Res → Res) (req : Req) (res : Res)
      → execute_middleware_stack (map through changes) handler req res
        ≡ some (handler req (apply_each changes res))
  unfolding execute_middleware_stack
  execute_middleware_stack-through changes handler req res =
      let all : length (map (through {Req = Req}) changes) ≡ length changes =
        length-map through changes in
      ground (arith, all, next-through [] changes handler req res)
