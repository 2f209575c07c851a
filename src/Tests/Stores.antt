-- ===== src/Tests/Stores.antt =====
-- A store of numbers that are written as one character, without their last digit.
use distributed_data_science.Prelude.{
  ℕ, ◌+◌, ◌-◌, ◌*◌, ◌/◌, ◌≡◌, refl, true, false, none, some, [], ◌∷◌, ◌++◌, arith, string_key,
}
use distributed_data_science.Storage.Streams.{Text, is_space, Scan, value, broken, Format}
use distributed_data_science.Storage.Streams.Reading.{Readable}
use distributed_data_science.Storage.Matrices.{ℤ, pos, negsuc, Matrix}
use distributed_data_science.Storage.Hadoop.{
  HadoopConfig, HadoopStorage, Host, new_storage, connect,
}
use distributed_data_science.Storage.Saved.{save_matrix, load_matrix}
use distributed_data_science.Storage.Saved.RoundTrip.{save_matrix-load_matrix}

abbrev scan_tens : Text → Scan ℕ
scan_tens [] = broken 0 []
scan_tens (c ∷ cs) = value ((c - 33) * 10) cs

abbrev tens : Format ℕ
tens = record { print = λ n. (n / 10 + 33) ∷ []; scan = scan_tens }

abbrev scan_size : Text → Scan ℤ
scan_size [] = broken (pos 0) []
scan_size (c ∷ cs) = value (pos (c - 33)) cs

abbrev print_size : ℤ → Text
print_size (pos n) = (n + 33) ∷ []
print_size (negsuc n) = []

abbrev sizes : Format ℤ
sizes = record { print = print_size; scan = scan_size }

abbrev Any : ℕ → Type 0
Any n = Unit

abbrev IsWhole : ℤ → Type 0
IsWhole (pos n) = Unit
IsWhole (negsuc n) = ⊥

solid : (n : ℕ) → is_space (n + 33) ≡ false
unfolding is_space
solid n = ground arith

tens_laws : Readable tens Any (λ n. n / 10 * 10)
tens_laws = record {
  starts = λ n g. (n / 10 + 33, [], refl, solid (n / 10));
  reads = λ n c rest g e. ground arith;
}

size_starts :
    (z : ℤ) → IsWhole z → (c : ℕ) × (cs : Text) × (print_size z ≡ c ∷ cs) × (is_space c ≡ false)
size_starts (pos n) g = (n + 33, [], refl, solid n)
size_starts (negsuc n) g = absurd g

size_reads :
    (z : ℤ) (c : ℕ) (rest : Text)
    → IsWhole z
    → is_space c ≡ true
    → scan_size (print_size z ++ c ∷ rest) ≡ value z (c ∷ rest)
size_reads (pos n) c rest g e = ground arith
size_reads (negsuc n) c rest g e = absurd g

size_laws : Readable sizes IsWhole (λ z. z)
size_laws = record { starts = size_starts; reads = size_reads }

abbrev local : Host
local = record {
  throws = λ path files. none;
  opens = λ path files. true;
  up_to = λ path. path ∷ [];
  parent = λ path. "hdfs_stub";
}

abbrev config : HadoopConfig
config = record {
  namenode_host = "localhost";
  namenode_port = 9000;
  hdfs_url = "hdfs://localhost:9000";
  hadoop_home = "/usr/local/hadoop";
  replication_factor = 3;
  block_size = "128MB";
  username = "hdfs";
  yarn_resourcemanager_host = "localhost";
  yarn_resourcemanager_port = 8032;
  yarn_memory = "4GB";
  yarn_cores = 4;
  enable_kerberos = false;
  keytab_file = "";
  principal = "";
}

abbrev offline : HadoopStorage
unfolding new_storage
offline = new_storage config []

abbrev online : HadoopStorage
unfolding new_storage connect
online = (connect offline).1

abbrev column : Matrix ℕ
column = record { rows = pos 2; cols = pos 1; elems = 12 ∷ 35 ∷ [] }

abbrev saved : HadoopStorage
unfolding new_storage connect save_matrix
saved = (save_matrix 0 tens sizes local "m" column online).1

save_matrix-load_matrix_example :
    load_matrix 0 tens sizes local "m" (pos 7, negsuc 7) column saved
    ≡ (some (true, record { rows = pos 2; cols = pos 1; elems = 10 ∷ 30 ∷ [] }), saved)
unfolding new_storage connect save_matrix
save_matrix-load_matrix_example =
    save_matrix-load_matrix local 0 tens sizes Any (λ n. n / 10 * 10) IsWhole tens_laws size_laws
      "m" (pos 7, negsuc 7) 2 1 (12 ∷ 35 ∷ []) column online saved tt tt tt (tt, (tt, tt)) refl refl
      refl refl
