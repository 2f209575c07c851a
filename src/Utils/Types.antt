-- ===== src/Utils/Types.antt =====
-- The names of jobs and the bytes of matrices (src/utils/types.cpp). A text and a `std::vector<char>` are
-- lists of bytes. An `Index` is the bit pattern of its eight bytes, the lowest first; a `Scalar` is of
-- any type with its eight bytes.
use distributed_data_science.Prelude.{
  ℕ, zero, suc, ◌+◌, ◌-◌, ◌*◌, ◌/◌, ◌%◌, ◌^◌, Bool, true, false, ◌&&◌, ◌||◌, String, List, [], ◌∷◌,
  ◌++◌, map, ltb, leb, if◌then◌else◌, codes, same_text, length, take, drop,
}
pub mod RoundTrip

pub data JobType : Type 0 where
  linear_regression logistic_regression kmeans_clustering dbscan_clustering unknown : JobType

unfoldable pub job_type_to_string : JobType → List ℕ
job_type_to_string linear_regression = codes "linear_regression"
job_type_to_string logistic_regression = codes "logistic_regression"
job_type_to_string kmeans_clustering = codes "kmeans_clustering"
job_type_to_string dbscan_clustering = codes "dbscan_clustering"
job_type_to_string unknown = codes "unknown"

-- `::tolower` in the "C" locale.
unfoldable pub to_lower : ℕ → ℕ
to_lower c = if leb 65 c && leb c 90 then c + 32 else c

unfoldable pub string_to_job_type : List ℕ → JobType
unfolding to_lower
string_to_job_type text =
    let lower = map to_lower text in
    if same_text lower (codes "linear_regression") || same_text lower (codes "linear")
    then linear_regression
    else if same_text lower (codes "logistic_regression") || same_text lower (codes "logistic")
    then logistic_regression
    else if same_text lower (codes "kmeans_clustering") || same_text lower (codes "kmeans")
    then kmeans_clustering
    else if same_text lower (codes "dbscan_clustering") || same_text lower (codes "dbscan")
    then dbscan_clustering
    else unknown

pub data JobStatus : Type 0 where
  pending running completed failed cancelled : JobStatus

unfoldable pub job_status_to_string : JobStatus → String
job_status_to_string pending = "pending"
job_status_to_string running = "running"
job_status_to_string completed = "completed"
job_status_to_string failed = "failed"
job_status_to_string cancelled = "cancelled"

pub data NodeStatus : Type 0 where
  idle busy offline failed : NodeStatus

unfoldable pub node_status_to_string : NodeStatus → String
node_status_to_string idle = "idle"
node_status_to_string busy = "busy"
node_status_to_string offline = "offline"
node_status_to_string failed = "failed"

pub data PartitionStrategy : Type 0 where
  row_based column_based block_based round_robin : PartitionStrategy

unfoldable pub partition_strategy_to_string : PartitionStrategy → String
partition_strategy_to_string row_based = "row_based"
partition_strategy_to_string column_based = "column_based"
partition_strategy_to_string block_based = "block_based"
partition_strategy_to_string round_robin = "round_robin"

-- `memcpy` of an `Index`, of as many bytes as are given, and back.
unfoldable pub index_bytes : ℕ → ℕ → List ℕ
index_bytes zero n = []
index_bytes (suc k) n = n % 256 ∷ index_bytes k (n / 256)

unfoldable pub index_of : List ℕ → ℕ
index_of [] = 0
index_of (b ∷ bytes) = b + 256 * index_of bytes

-- A value, or the exception.
pub data Result {ℓ} (A : Type ℓ) : Type ℓ where
  value : A → Result A
  runtime_error : String → Result A
  length_error : Result A

pub record Dense {ℓ} (Scalar : Type ℓ) : Type ℓ where
  pub rows : ℕ
  pub cols : ℕ
  pub elems : List Scalar

module _ {ℓ} {Scalar : Type ℓ} where
  unfoldable pub scalars_bytes : (Scalar → List ℕ) → List Scalar → List ℕ
  scalars_bytes to_bytes [] = []
  scalars_bytes to_bytes (x ∷ xs) = to_bytes x ++ scalars_bytes to_bytes xs

  unfoldable pub scalars_of : (List ℕ → Scalar) → ℕ → List ℕ → List Scalar
  scalars_of from_bytes zero bytes = []
  scalars_of from_bytes (suc n) bytes =
      from_bytes (take 8 bytes) ∷ scalars_of from_bytes n (drop 8 bytes)

  unfoldable pub serialize_matrix : (Scalar → List ℕ) → Dense Scalar → List ℕ
  unfolding index_bytes scalars_bytes
  serialize_matrix to_bytes m =
      index_bytes 8 m.rows ++ (index_bytes 8 m.cols ++ scalars_bytes to_bytes m.elems)

  -- The size of `data_` and the bytes that are copied are computed in 64 bits; a vector has at most
  -- 2^60 - 1 elements of eight bytes.
  unfoldable pub read_data : (List ℕ → Scalar) → ℕ → ℕ → List ℕ → ℕ → String → Result (Dense Scalar)
  unfolding scalars_of
  read_data from_bytes rows cols bytes header message =
      if leb (2 ^ 60) ((rows * cols) % 2 ^ 64)
      then length_error
      else if ltb (length bytes) ((header + (8 * (rows * cols)) % 2 ^ 64) % 2 ^ 64)
      then runtime_error message
      else value (record {
        rows = rows;
        cols = cols;
        elems = scalars_of from_bytes ((rows * cols) % 2 ^ 64) (drop header bytes);
      })

  unfoldable pub deserialize_matrix : (List ℕ → Scalar) → List ℕ → Result (Dense Scalar)
  unfolding index_of read_data
  deserialize_matrix from_bytes bytes =
      if ltb (length bytes) 16
      then runtime_error "Invalid matrix data: insufficient header size"
      else read_data from_bytes (index_of (take 8 bytes)) (index_of (take 8 (drop 8 bytes))) bytes
          16 "Invalid matrix data: insufficient data size"

  -- A vector is a matrix of one column.
  unfoldable pub serialize_vector : (Scalar → List ℕ) → Dense Scalar → List ℕ
  unfolding index_bytes scalars_bytes
  serialize_vector to_bytes v = index_bytes 8 v.rows ++ scalars_bytes to_bytes v.elems

  unfoldable pub deserialize_vector : (List ℕ → Scalar) → List ℕ → Result (Dense Scalar)
  unfolding index_of read_data
  deserialize_vector from_bytes bytes =
      if ltb (length bytes) 8
      then runtime_error "Invalid vector data: insufficient header size"
      else read_data from_bytes (index_of (take 8 bytes)) 1 bytes 8
          "Invalid vector data: insufficient data size"
