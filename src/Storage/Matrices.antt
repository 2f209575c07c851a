-- ===== src/Storage/Matrices.antt =====
-- `Eigen::Matrix` of the repository's stub (include/utils/eigen_stub.h): what the store uses of it.
-- A vector is a matrix of one column.
use distributed_data_science.Prelude.{
  ℕ, zero, suc, ◌*◌, Option, none, some, List, [], ◌∷◌, ◌==◌, if◌then◌else◌,
}

-- `int`; `negsuc n` is -(n + 1).
pub data ℤ : Type 0 where
  pos negsuc : ℕ → ℤ

-- How often a loop `for (int i = 0; i < z; ++i)` runs.
abbrev pub pos_part : ℤ → ℕ
pos_part (pos n) = n
pos_part (negsuc n) = 0

pub record Matrix {ℓ} (A : Type ℓ) : Type ℓ where
  pub rows : ℤ
  pub cols : ℤ
  pub elems : List A

-- `rows * cols`, or nothing if the product is negative.
unfoldable pub area : ℤ → ℤ → Option ℕ
area (pos r) (pos c) = some (r * c)
area (negsuc r) (negsuc c) = some (suc r * suc c)
area (pos r) (negsuc c) = if r == 0 then some 0 else none
area (negsuc r) (pos c) = if c == 0 then some 0 else none

module _ {ℓ} {A : Type ℓ} where
  -- `std::vector::resize`, with `zero_value` for new elements.
  unfoldable pub resize_list : A → ℕ → List A → List A
  resize_list d zero xs = []
  resize_list d (suc n) [] = d ∷ resize_list d n []
  resize_list d (suc n) (x ∷ xs) = x ∷ resize_list d n xs

  -- A negative size is a huge `size_t`: `std::length_error`, no matrix.
  unfoldable pub resize : A → ℤ → ℤ → Matrix A → Option (Matrix A)
  unfolding area resize_list
  resize d r c m = elim (area r c) [
    | none ↦ none
    | some n ↦ some (record { rows = r; cols = c; elems = resize_list d n m.elems })
  ]

  -- `data_[k]`, in range.
  abbrev pub get_or : A → List A → ℕ → A
  get_or d [] k = d
  get_or d (x ∷ xs) zero = x
  get_or d (x ∷ xs) (suc k) = get_or d xs k
