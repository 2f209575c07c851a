-- ===== src/Storage/Saved.antt =====
-- `save_matrix` to `load_dataset` of `HadoopStorage` (src/storage/hadoop_storage.cpp).
use distributed_data_science.Prelude.{
  same_text, not, if◌then◌else◌, Bool, true, false, Option, none, some, String,
}
use distributed_data_science.Storage.Streams.{Text, Format, Stream, extract_word}
use distributed_data_science.Storage.Matrices.{ℤ, Matrix}
use distributed_data_science.Storage.Format.{
  serialize_matrix, deserialize_matrix, serialize_vector, deserialize_vector, dataset_text,
  dataset_header, read_dataset,
}
use distributed_data_science.Storage.Hadoop.{HadoopStorage, Host, set_error, create_file, read_file}
pub mod RoundTrip

module _ {ℓ} {Double : Type ℓ} (zero_value : Double) (doubles : Format Double)
    (ints : Format ℤ) where
  -- What follows `read_file` in `load_matrix`; nothing if `std::length_error` leaves the method.
  unfoldable pub load_text :
      ℤ × ℤ
      → Matrix Double
      → (Bool × Text) × HadoopStorage
      → Option (Bool × Matrix Double) × HadoopStorage
  unfolding deserialize_matrix
  load_text junk m ((ok, text), w) =
      if not ok
      then (some (false, m), w)
      else (deserialize_matrix zero_value doubles ints junk text m, w)

  module _ (h : Host) where
    unfoldable pub save_matrix : String → Matrix Double → HadoopStorage → Bool × HadoopStorage
    unfolding create_file serialize_matrix
    save_matrix path m = create_file h path (serialize_matrix zero_value doubles ints m)

    unfoldable pub load_matrix :
        String
        → ℤ × ℤ
        → Matrix Double
        → HadoopStorage
        → Option (Bool × Matrix Double) × HadoopStorage
    unfolding read_file load_text
    load_matrix path junk m w = load_text junk m (read_file h path w)

    unfoldable pub save_vector : String → Matrix Double → HadoopStorage → Bool × HadoopStorage
    unfolding create_file serialize_vector
    save_vector path v = create_file h path (serialize_vector zero_value doubles ints v)

    unfoldable pub load_vector :
        String → ℤ → Matrix Double → HadoopStorage → Option (Bool × Matrix Double) × HadoopStorage
    unfolding read_file deserialize_vector
    load_vector path junk v w =
        let ((ok, text), w') = read_file h path w in
        if not ok
        then (some (false, v), w')
        else (deserialize_vector zero_value doubles ints junk text v, w')

    unfoldable pub save_dataset :
        String → Matrix Double → Matrix Double → HadoopStorage → Bool × HadoopStorage
    unfolding create_file dataset_text
    save_dataset path features labels =
        create_file h path (dataset_text zero_value doubles ints features labels)

    unfoldable pub load_dataset :
        String
        → ℤ × ℤ
        → Matrix Double
        → Matrix Double
        → HadoopStorage
        → Option (Bool × Matrix Double × Matrix Double) × HadoopStorage
    unfolding read_file extract_word read_dataset set_error
    load_dataset path junk features labels w =
        let ((ok, text), w') = read_file h path w in
        if not ok
        then (some (false, features, labels), w')
        else (let (header, s) = extract_word (record { text = text; good = true }) in
            if not (same_text header dataset_header)
            then (some (false, features, labels), set_error "Invalid dataset format" w')
            else elim (read_dataset zero_value doubles ints junk s features labels) [
              | none ↦ (none, w')
              | some (f, l) ↦ (some (true, f, l), w')
            ])
