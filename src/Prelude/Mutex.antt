-- ===== src/Prelude/Mutex.antt =====
-- A `std::mutex` locked by `std::lock_guard` at the head of a method, for one thread. The mutex is
-- not recursive: a method that locks it while its caller holds it never returns (the C++ standard
-- leaves the behaviour undefined; the implementations in use block for ever).
use distributed_data_science.Prelude.{Bool, true, false}

pub data Outcome {ℓ} (A : Type ℓ) : Type ℓ where
  returns : A → Outcome A
  deadlock : Outcome A

-- Code that runs with the mutex free (`false`) or held by this thread (`true`).
abbrev pub M {ℓ κ} : Type ℓ → Type κ → Type (ℓ ⊔ κ)
M S A = Bool → S → Outcome (A × S)

infixl 5 ◌>>=◌ ◌>>◌
abbrev pub ◌>>=◌ {ℓ κ ι} : {S : Type ℓ} {A : Type κ} {B : Type ι} → M S A → (A → M S B) → M S B
◌>>=◌ m f held s = elim (m held s) [ returns (a, t) ↦ f a held t | deadlock ↦ deadlock ]

abbrev pub ◌>>◌ {ℓ κ} : {S : Type ℓ} {B : Type κ} → M S (Unit {0}) → M S B → M S B
m >> k = m >>= λ _. k

abbrev pub pure {ℓ κ} : {S : Type ℓ} {A : Type κ} → A → M S A
pure a held s = returns (a, s)

abbrev pub get {ℓ} : {S : Type ℓ} → M S S
get held s = returns (s, s)

abbrev pub put {ℓ} : {S : Type ℓ} → S → M S (Unit {0})
put t held s = returns (tt, t)

-- `std::lock_guard<std::mutex> lock(mutex_)` and the rest of the method.
abbrev pub locked {ℓ κ} : {S : Type ℓ} {A : Type κ} → M S A → M S A
locked body true s = deadlock
locked body false s = body true s
