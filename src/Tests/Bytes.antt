-- ===== src/Tests/Bytes.antt =====
-- Matrices of numbers that are their own first byte.
use distributed_data_science.Prelude.{ℕ, ◌≡◌, refl, List, [], ◌∷◌, ◌++◌, arith}
use distributed_data_science.Utils.Types.{index_bytes, value, serialize_matrix, deserialize_matrix}
use distributed_data_science.Utils.Types.RoundTrip.{deserialize-serialize}

abbrev eight_bytes : ℕ → List ℕ
eight_bytes n = n ∷ 0 ∷ 0 ∷ 0 ∷ 0 ∷ 0 ∷ 0 ∷ 0 ∷ []

abbrev first_byte : List ℕ → ℕ
first_byte [] = 0
first_byte (b ∷ bytes) = b

deserialize-serialize_example :
    deserialize_matrix first_byte
      (serialize_matrix eight_bytes (record { rows = 2; cols = 1; elems = 5 ∷ 7 ∷ [] }))
    ≡ value (record { rows = 2; cols = 1; elems = 5 ∷ 7 ∷ [] })
deserialize-serialize_example =
    deserialize-serialize eight_bytes first_byte (λ x. refl) (λ x. refl) 2 1 (5 ∷ 7 ∷ [])
      (omega arith) (omega arith) refl (omega arith)

-- 2^32 rows and columns and no data: the sizes wrap around to 0 and the matrix is accepted.
wrapped :
    deserialize_matrix first_byte (index_bytes 8 4294967296 ++ index_bytes 8 4294967296)
    ≡ value (record { rows = 4294967296; cols = 4294967296; elems = [] })
unfolding deserialize_matrix index_bytes
wrapped = refl
