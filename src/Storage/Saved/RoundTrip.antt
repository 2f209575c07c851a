-- ===== src/Storage/Saved/RoundTrip.antt =====
-- Matrices that are saved and loaded again (src/storage/hadoop_storage.cpp).
use distributed_data_science.Prelude.{
  ℕ, ◌*◌, ◌≡◌, ap, ◌∙◌, true, none, some, String, List, map, string_key, All, length,
}
use distributed_data_science.Storage.Streams.{Format}
use distributed_data_science.Storage.Streams.Reading.{Readable}
use distributed_data_science.Storage.Matrices.{ℤ, pos, Matrix}
use distributed_data_science.Storage.Format.{serialize_matrix}
use distributed_data_science.Storage.Format.RoundTrip.{deserialize_matrix-serialize_matrix}
use distributed_data_science.Storage.Hadoop.{HadoopStorage, Host, local_path}
use distributed_data_science.Storage.Saved.{save_matrix, load_text, load_matrix}
use distributed_data_science.Storage.Hadoop.Files.{create_file-read_file}

module _ (h : Host) where
  -- A matrix that has been saved is loaded again, if reading throws nothing and the file can be
  -- opened, with every element as `>>` reads what `<<` printed of it. `laws` and `int_laws` are
  -- what is relied on of `<<` and `>>`: for finite elements and sizes that are `Small`.
  pub save_matrix-load_matrix {ℓ} :
      {Double : Type ℓ} (zero_value : Double) (doubles : Format Double) (ints : Format ℤ)
      (Finite : Double → Type 0) (rounded : Double → Double) (Small : ℤ → Type 0)
      → Readable doubles Finite rounded
      → Readable ints Small (λ z. z)
      → (path : String) (junk : ℤ × ℤ) (r c : ℕ) (xs : List Double) (old : Matrix Double)
        (w w' : HadoopStorage)
      → Small (pos r)
      → Small (pos c)
      → Finite zero_value
      → All Finite xs
      → length xs ≡ r * c
      → save_matrix zero_value doubles ints h path
          (record { rows = pos r; cols = pos c; elems = xs })
          w
        ≡ (true, w')
      → h.throws (local_path path) w'.files ≡ none
      → h.opens (local_path path) w'.files ≡ true
      → load_matrix zero_value doubles ints h path junk old w'
        ≡ (some (true, record { rows = pos r; cols = pos c; elems = map rounded xs }), w')
  unfolding save_matrix load_matrix
  save_matrix-load_matrix zero_value doubles ints Finite rounded Small laws int_laws path junk r c
        xs old w w' small_r small_c z finite e saved quiet opens =
      let m : Matrix _ = record { rows = pos r; cols = pos c; elems = xs } in
      let read =
        create_file-read_file h path (serialize_matrix zero_value doubles ints m) w w' saved quiet
          opens in
      let parsed =
        deserialize_matrix-serialize_matrix zero_value ints doubles Finite rounded laws Small
          int_laws junk r c xs old small_r small_c z finite e in
      ap (load_text zero_value doubles ints junk old) read ∙ ap (λ o. (o, w')) parsed
