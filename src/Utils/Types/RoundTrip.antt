-- ===== src/Utils/Types/RoundTrip.antt =====
-- Matrices and names of jobs that are read back (src/utils/types.cpp).
use distributed_data_science.Prelude.{
  ℕ, zero, suc, ◌+◌, ◌*◌, ◌/◌, ◌%◌, ◌^◌, ◌<◌, ◌≡◌, refl, ap, sym, subst, ◌∙◌, false, String, List,
  [], ◌∷◌, ◌++◌, arith, ltb, leb, if◌then◌else◌, length, take, drop, length-append, take-append,
  drop-append,
}
use mathlib.Core.List.{append_assoc}
use distributed_data_science.Utils.Types.{
  JobType, linear_regression, logistic_regression, kmeans_clustering, dbscan_clustering, unknown,
  job_type_to_string, string_to_job_type, index_bytes, index_of, value, runtime_error,
  scalars_bytes, scalars_of, serialize_matrix, read_data, deserialize_matrix,
}

-- The name of every type of job is read back.
pub string_to_job_type-job_type_to_string :
    (t : JobType) → string_to_job_type (job_type_to_string t) ≡ t
unfolding string_to_job_type job_type_to_string
string_to_job_type-job_type_to_string linear_regression = refl
string_to_job_type-job_type_to_string logistic_regression = refl
string_to_job_type-job_type_to_string kmeans_clustering = refl
string_to_job_type-job_type_to_string dbscan_clustering = refl
string_to_job_type-job_type_to_string unknown = refl

-- How many numbers fit into `k` bytes.
range : ℕ → ℕ
range zero = 1
range (suc k) = 256 * range k

range_eight : range 8 ≡ 2 ^ 64
unfolding range
range_eight = refl

index_of-index_bytes : (k n : ℕ) → n < range k → index_of (index_bytes k n) ≡ n
unfolding index_of index_bytes range
index_of-index_bytes zero n h = omega arith
index_of-index_bytes (suc k) n h = omega (arith, index_of-index_bytes k (n / 256) (omega arith))

length-index_bytes : (k n : ℕ) → length (index_bytes k n) ≡ k
unfolding index_bytes
length-index_bytes zero n = refl
length-index_bytes (suc k) n = omega (arith, length-index_bytes k (n / 256))

take_first : (n : ℕ) (xs ys : List ℕ) → length xs ≡ n → take n (xs ++ ys) ≡ xs
take_first n xs ys h = subst (λ k. take k (xs ++ ys) ≡ xs) h (take-append xs ys)

drop_first : (n : ℕ) (xs ys : List ℕ) → length xs ≡ n → drop n (xs ++ ys) ≡ ys
drop_first n xs ys h = subst (λ k. drop k (xs ++ ys) ≡ ys) h (drop-append xs ys)

module _ {ℓ} {Scalar : Type ℓ} (to_bytes : Scalar → List ℕ) (from_bytes : List ℕ → Scalar)
    (eight : (x : Scalar) → length (to_bytes x) ≡ 8)
    (back : (x : Scalar) → from_bytes (to_bytes x) ≡ x) where
  scalars_of-scalars_bytes :
      (xs : List Scalar) → scalars_of from_bytes (length xs) (scalars_bytes to_bytes xs) ≡ xs
  unfolding scalars_of scalars_bytes
  scalars_of-scalars_bytes [] = refl
  scalars_of-scalars_bytes (x ∷ xs) =
      let rest = scalars_bytes to_bytes xs in
      rw
        (take_first 8 (to_bytes x) rest (eight x), drop_first 8 (to_bytes x) rest (eight x), back x)
        (ap (◌∷◌ x) (scalars_of-scalars_bytes xs))

  length-scalars_bytes : (xs : List Scalar) → length (scalars_bytes to_bytes xs) ≡ 8 * length xs
  unfolding scalars_bytes
  length-scalars_bytes [] = omega arith
  length-scalars_bytes (x ∷ xs) = omega (
    arith,
    length-append (to_bytes x) (scalars_bytes to_bytes xs),
    eight x,
    length-scalars_bytes xs,
  )

  module _ (r c : ℕ) (xs : List Scalar) (size : length xs ≡ r * c) (fits : r * c < 2 ^ 60) where
    abbrev body : List ℕ
    body = scalars_bytes to_bytes xs

    abbrev whole : List ℕ
    whole = index_bytes 8 r ++ (index_bytes 8 c ++ body)

    length-whole : length whole ≡ 16 + 8 * (r * c)
    length-whole = omega (
      arith,
      length-append (index_bytes 8 r) (index_bytes 8 c ++ body),
      length-append (index_bytes 8 c) body,
      length-index_bytes 8 r,
      length-index_bytes 8 c,
      length-scalars_bytes xs,
      size,
    )

    drop-whole : drop 16 whole ≡ body
    drop-whole =
        ap (drop 16) (sym (append_assoc (index_bytes 8 r) (index_bytes 8 c) body))
        ∙ drop_first 16 (index_bytes 8 r ++ index_bytes 8 c) body (
            omega (
              arith,
              length-append (index_bytes 8 r) (index_bytes 8 c),
              length-index_bytes 8 r,
              length-index_bytes 8 c,
            ))

    read_data-whole :
        (message : String)
        → read_data from_bytes r c whole 16 message
          ≡ value (record { rows = r; cols = c; elems = xs })
    unfolding read_data
    read_data-whole message =
        let few : leb (2 ^ 60) ((r * c) % 2 ^ 64) ≡ false = ground arith in
        let enough : ltb (length whole) ((16 + (8 * (r * c)) % 2 ^ 64) % 2 ^ 64) ≡ false =
          ground (arith, length-whole) in
        let all : (r * c) % 2 ^ 64 ≡ length xs = omega (arith, size) in
        rw (few, enough, read_data)
          (ap (λ ys. value (record { rows = r; cols = c; elems = ys }))
            (rw (drop-whole, all) (scalars_of-scalars_bytes xs)))

  -- A matrix of less than 2^60 elements is read back from its bytes, if the bytes of a scalar are
  -- eight and give it back.
  pub deserialize-serialize :
      (r c : ℕ) (xs : List Scalar)
      → r < 2 ^ 64
      → c < 2 ^ 64
      → length xs ≡ r * c
      → r * c < 2 ^ 60
      → deserialize_matrix from_bytes
          (serialize_matrix to_bytes (record { rows = r; cols = c; elems = xs }))
        ≡ value (record { rows = r; cols = c; elems = xs })
  unfolding serialize_matrix deserialize_matrix
  deserialize-serialize r c xs hr hc size fits =
      let bytes = whole r c xs size fits in
      let tail = index_bytes 8 c ++ scalars_bytes to_bytes xs in
      let long : ltb (length bytes) 16 ≡ false = ground (arith, length-whole r c xs size fits) in
      let first : index_of (take 8 bytes) ≡ r =
        ap index_of (take_first 8 (index_bytes 8 r) tail (length-index_bytes 8 r))
        ∙ index_of-index_bytes 8 r (subst (λ n. r < n) (sym range_eight) hr) in
      let second : index_of (take 8 (drop 8 bytes)) ≡ c =
        ap (λ ys. index_of (take 8 ys))
          (drop_first 8 (index_bytes 8 r) tail (length-index_bytes 8 r))
        ∙ ap index_of
            (take_first 8 (index_bytes 8 c) (scalars_bytes to_bytes xs) (length-index_bytes 8 c))
        ∙ index_of-index_bytes 8 c (subst (λ n. c < n) (sym range_eight) hc) in
      let short : String = "Invalid matrix data: insufficient header size" in
      let message : String = "Invalid matrix data: insufficient data size" in
      ap
        (λ b.
          if b
          then runtime_error short
          else read_data from_bytes (index_of (take 8 bytes)) (index_of (take 8 (drop 8 bytes)))
              bytes 16 message)
        long
      ∙ ap (λ a. read_data from_bytes a (index_of (take 8 (drop 8 bytes))) bytes 16 message) first
      ∙ ap (λ b. read_data from_bytes r b bytes 16 message) second
      ∙ read_data-whole r c xs size fits message
