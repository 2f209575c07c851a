-- ===== src/Storage/Hadoop.antt =====
-- `HadoopStorage` and `HadoopJobManager` (src/storage/hadoop_storage.cpp): the state of the connection,
-- and the operations on files, which the class keeps in a directory of the local file system.
-- `Host` is what `std::filesystem` and the streams meet there: what throws, which files can be
-- opened, and the directories above a path. What throws does so before any effect. What is printed is left out, and `file_exists` is
-- taken not to throw. The two overloads of `create_file` and of `read_file` differ only in
-- the type of the text.
use distributed_data_science.Prelude.{
  same_text, ℕ, Bool, true, false, not, Option, none, some, String, List, [], ◌∷◌, if◌then◌else◌,
  string_key, concat, length,
}
use distributed_data_science.Prelude.Maps.{lookup, insert, erase, has}
use distributed_data_science.Storage.Streams.{Text, Format, Stream, extract_word}
use distributed_data_science.Storage.Matrices.{ℤ, Matrix}
use distributed_data_science.Storage.Format.{
  serialize_matrix, deserialize_matrix, serialize_vector, deserialize_vector, dataset_text,
  dataset_header, read_dataset,
}
pub mod Files

pub record HadoopConfig : Type 0 where
  pub namenode_host : String
  pub namenode_port : ℕ
  pub hdfs_url : String
  pub hadoop_home : String
  pub replication_factor : ℕ
  pub block_size : String
  pub username : String
  pub yarn_resourcemanager_host : String
  pub yarn_resourcemanager_port : ℕ
  pub yarn_memory : String
  pub yarn_cores : ℕ
  pub enable_kerberos : Bool
  pub keytab_file : String
  pub principal : String

pub record HdfsConnection : Type 0 where
  pub host : String
  pub port : ℕ
  pub connected : Bool
  pub last_error : String

pub data Entry : Type 0 where
  file : Text → Entry
  directory : Entry

-- The fields of the class, and the files, by their paths.
pub record HadoopStorage : Type 0 where
  pub config : HadoopConfig
  pub connection : HdfsConnection
  pub initialized : Bool
  pub files : List (String × Entry)

pub record Host : Type 0 where
  pub throws : String → List (String × Entry) → Option String
  pub opens : String → List (String × Entry) → Bool
  pub up_to : String → List String
  pub parent : String → String

unfoldable pub new_storage : HadoopConfig → List (String × Entry) → HadoopStorage
new_storage config files = record {
  config = config;
  connection = record { host = ""; port = 0; connected = false; last_error = "" };
  initialized = false;
  files = files;
}

unfoldable pub set_error : String → HadoopStorage → HadoopStorage
set_error message w = record w { connection = record (w.connection) { last_error = message } }

unfoldable pub initialize : HadoopStorage → HadoopStorage
initialize w = if w.initialized then w else record w {
  connection = record (w.connection) {
    host = w.config.namenode_host;
    port = w.config.namenode_port;
  };
  initialized = true;
}

unfoldable pub connect : HadoopStorage → Bool × HadoopStorage
unfolding initialize
connect w =
    let w' = initialize w in
    (true, record w' { connection = record (w'.connection) { connected = true; last_error = "" } })

unfoldable pub disconnect : HadoopStorage → HadoopStorage
disconnect w = record w { connection = record (w.connection) { connected = false } }

unfoldable pub is_connected : HadoopStorage → Bool
is_connected w = w.connection.connected

unfoldable pub get_last_error : HadoopStorage → String
get_last_error w = w.connection.last_error

unfoldable pub clear_error : HadoopStorage → HadoopStorage
unfolding set_error
clear_error w = set_error "" w

unfoldable pub ensure_connected : HadoopStorage → Bool × HadoopStorage
unfolding set_error
ensure_connected w =
    if not w.connection.connected then (false, set_error "Not connected to HDFS" w) else (true, w)

-- An operation that answers `refused` if there is no connection.
unfoldable pub when_connected {ℓ} :
    {A : Type ℓ} → A → (HadoopStorage → A × HadoopStorage) → HadoopStorage → A × HadoopStorage
unfolding ensure_connected
when_connected refused body w =
    let (ok, w') = ensure_connected w in if not ok then (refused, w') else body w'

unfoldable pub local_path : String → String
local_path path = concat "hdfs_stub/" path

-- `std::filesystem::create_directories`.
unfoldable pub create_directories : List String → List (String × Entry) → List (String × Entry)
unfolding has insert
create_directories [] files = files
create_directories (d ∷ ds) files =
    create_directories ds (if has d files then files else insert d directory files)

-- What is read of an entry: of a directory, nothing.
unfoldable pub content_of : Option Entry → Text
content_of none = []
content_of (some directory) = []
content_of (some (file text)) = text

module _ (h : Host) where
  unfoldable pub file_exists : String → HadoopStorage → Bool × HadoopStorage
  unfolding when_connected local_path has
  file_exists path = when_connected false (λ w. (has (local_path path) w.files, w))

  -- `try` and `catch`.
  unfoldable pub attempt {ℓ} :
      {A : Type ℓ}
      → String
      → A
      → String
      → (HadoopStorage → A × HadoopStorage)
      → HadoopStorage
      → A × HadoopStorage
  unfolding set_error
  attempt doing failed path body w = elim (h.throws path w.files) [
    | none ↦ body w
    | some what ↦ (failed, set_error (concat doing what) w)
  ]

  -- After `create_directories`.
  unfoldable pub write_file : String → Text → HadoopStorage → Bool × HadoopStorage
  unfolding set_error insert local_path
  write_file path text w =
      if not (h.opens (local_path path) w.files)
      then (false, set_error (concat "Failed to create file: " path) w)
      else (true, record w { files = insert (local_path path) (file text) w.files })

  unfoldable pub create_file : String → Text → HadoopStorage → Bool × HadoopStorage
  unfolding when_connected attempt local_path create_directories write_file
  create_file path text = when_connected false (
      attempt "Exception creating file: " false (local_path path) (λ w.
        write_file path text
          (record w { files = create_directories (h.up_to (h.parent (local_path path))) w.files })))

  unfoldable pub open_file : String → HadoopStorage → (Bool × Text) × HadoopStorage
  unfolding set_error lookup has content_of local_path
  open_file path w =
      if not (has (local_path path) w.files)
      then ((false, []), set_error (concat "File not found: " path) w)
      else if not (h.opens (local_path path) w.files)
      then ((false, []), set_error (concat "Failed to open file: " path) w)
      else ((true, content_of (lookup (local_path path) w.files)), w)

  -- The answer, and the text if it is `true`.
  unfoldable pub read_file : String → HadoopStorage → (Bool × Text) × HadoopStorage
  unfolding when_connected attempt local_path open_file
  read_file path =
      when_connected (false, [])
        (attempt "Exception reading file: " (false, []) (local_path path) (open_file path))

  unfoldable pub delete_file : String → HadoopStorage → Bool × HadoopStorage
  unfolding when_connected attempt local_path set_error has erase
  delete_file path = when_connected false (
      attempt "Exception deleting file: " false (local_path path) (λ w.
        if not (has (local_path path) w.files)
        then (false, set_error (concat "File not found: " path) w)
        else (true, record w { files = erase (local_path path) w.files })))

  unfoldable pub create_directory : String → HadoopStorage → Bool × HadoopStorage
  unfolding when_connected attempt local_path create_directories
  create_directory path = when_connected false (
      attempt "Exception creating directory: " false (local_path path)
        (λ w. (true, record w { files = create_directories (h.up_to (local_path path)) w.files })))

  unfoldable pub get_file_size : String → HadoopStorage → ℕ × HadoopStorage
  unfolding when_connected attempt local_path has lookup content_of
  get_file_size path = when_connected 0 (
      attempt "Exception getting file size: " 0 (local_path path) (λ w. (
        (if has (local_path path) w.files
            then length (content_of (lookup (local_path path) w.files))
            else 0),
        w,
      )))
