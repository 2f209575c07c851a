-- ===== src/Storage/Hadoop/Files.antt =====
-- Files that are written and read again (src/storage/hadoop_storage.cpp).
use distributed_data_science.Prelude.{
  ◌≡◌, refl, ◌∙◌, true, false, none, some, String, [], arith, string_key,
}
use distributed_data_science.Prelude.Maps.{lookup, has, lookup-insert_self, has-lookup}
use distributed_data_science.Storage.Streams.{Text}
use distributed_data_science.Storage.Hadoop.{
  HadoopStorage, Host, file, is_connected, set_error, local_path, content_of, create_directories,
  write_file, open_file, file_exists, create_file, read_file, delete_file, create_directory,
  get_file_size,
}

module _ (h : Host) where
  -- Without a connection every operation on files refuses, changes no file, and says so as its
  -- error.
  disconnected_refuses :
      (path : String) (text : Text) (w : HadoopStorage)
      → is_connected w ≡ false
      → let w' = set_error "Not connected to HDFS" w in
        (file_exists h path w ≡ (false, w'))
        × (create_file h path text w ≡ (false, w'))
        × (read_file h path w ≡ ((false, []), w'))
        × (delete_file h path w ≡ (false, w'))
        × (create_directory h path w ≡ (false, w'))
        × (get_file_size h path w ≡ (0, w'))
        × (w'.files ≡ w.files)
  unfolding is_connected file_exists create_file read_file delete_file create_directory
      get_file_size
  disconnected_refuses path text w off = (
    rw (off, file_exists) refl,
    rw (off, create_file) refl,
    rw (off, read_file) refl,
    rw (off, delete_file) refl,
    rw (off, create_directory) refl,
    rw (off, get_file_size) refl,
    refl,
  )

  create_file-lookup :
      (path : String) (text : Text) (w w' : HadoopStorage)
      → create_file h path text w ≡ (true, w')
      → (is_connected w' ≡ true) × (lookup (local_path path) w'.files ≡ some (file text))
  unfolding create_file write_file is_connected
  create_file-lookup path text w w' made = ground (
    arith,
    lookup-insert_self (local_path path) (file text)
        (create_directories (h.up_to (h.parent (local_path path))) w.files),
  )

  read_file-lookup :
      (path : String) (text : Text) (w : HadoopStorage)
      → is_connected w ≡ true
      → h.throws (local_path path) w.files ≡ none
      → h.opens (local_path path) w.files ≡ true
      → lookup (local_path path) w.files ≡ some (file text)
      → read_file h path w ≡ ((true, text), w)
  unfolding read_file open_file is_connected content_of
  read_file-lookup path text w on quiet opens found =
      let there : has (local_path path) w.files ≡ true =
        has-lookup (local_path path) w.files ∙ rw found refl in
      ground (arith, there)

  -- A file that has been created is read back, if reading throws nothing and the file can be opened.
  pub create_file-read_file :
      (path : String) (text : Text) (w w' : HadoopStorage)
      → create_file h path text w ≡ (true, w')
      → h.throws (local_path path) w'.files ≡ none
      → h.opens (local_path path) w'.files ≡ true
      → read_file h path w' ≡ ((true, text), w')
  create_file-read_file path text w w' made quiet opens =
      let (on, found) = create_file-lookup path text w w' made in
      read_file-lookup path text w' on quiet opens found
