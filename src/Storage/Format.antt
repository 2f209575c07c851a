-- ===== src/Storage/Format.antt =====
-- The texts of matrices, vectors and data sets: `serialize_matrix` to `deserialize_vector`, and the
-- texts of `save_dataset` and `load_dataset` (src/storage/hadoop_storage.cpp). The variables
-- that are declared without a value hold `junk`.
use distributed_data_science.Prelude.{
  same_text, codes, ℕ, zero, suc, ◌+◌, ◌-◌, ◌*◌, Bool, true, false, not, Option, none, some, String,
  List, [], ◌∷◌, ◌++◌, ltb, ◌==◌, if◌then◌else◌, set,
}
use distributed_data_science.Storage.Streams.{Text, Stream, Format, extract, extract_word}
use distributed_data_science.Storage.Matrices.{ℤ, pos, pos_part, Matrix, resize, get_or}
pub mod Fill
pub mod RoundTrip

-- The headers.
abbrev pub matrix_header : Text
matrix_header = codes "MATRIX"

abbrev pub vector_header : Text
vector_header = codes "VECTOR"

abbrev pub dataset_header : Text
dataset_header = codes "DATASET"

module _ {ℓ} {Double : Type ℓ} (zero_value : Double) (doubles : Format Double) where
  -- `for (j...) { ss << matrix(i, j); if (j < cols - 1) ss << " "; }`, from column `j`, with `n`
  -- columns left.
  unfoldable pub print_columns : ℕ → ℕ → ℕ → ℕ → List Double → Text
  print_columns zero i j cols elems = []
  print_columns (suc n) i j cols elems =
      doubles.print (get_or zero_value elems (i * cols + j))
      ++ ((if ltb j (cols - 1) then codes " " else []) ++ print_columns n i (suc j) cols elems)

  unfoldable pub print_rows : ℕ → ℕ → ℕ → List Double → Text
  unfolding print_columns
  print_rows zero i cols elems = []
  print_rows (suc n) i cols elems =
      print_columns cols i 0 cols elems ++ (codes "\n" ++ print_rows n (suc i) cols elems)

  -- `for (i...) { ss << vector[i]; if (i < size - 1) ss << " "; }`; `vector[i]` is `(i, 0)`.
  unfoldable pub print_entries : ℕ → ℕ → ℕ → List Double → Text
  print_entries zero i size elems = []
  print_entries (suc n) i size elems =
      doubles.print (get_or zero_value elems (i * 1 + 0))
      ++ (if ltb i (size - 1) then codes " " else [])
      ++ print_entries n (suc i) size elems

  -- `for (j...) ss >> matrix(i, j);`
  unfoldable pub read_columns : ℕ → ℕ → ℕ → ℕ → List Double × Stream → List Double × Stream
  unfolding extract
  read_columns zero i j cols (elems, s) = (elems, s)
  read_columns (suc n) i j cols (elems, s) =
      let (v, s') = extract doubles (get_or zero_value elems (i * cols + j)) s in
      read_columns n i (suc j) cols (set elems (i * cols + j) v, s')

  unfoldable pub read_rows : ℕ → ℕ → ℕ → List Double × Stream → List Double × Stream
  unfolding read_columns
  read_rows zero i cols x = x
  read_rows (suc n) i cols x = read_rows n (suc i) cols (read_columns cols i 0 cols x)

  unfoldable pub read_entries : ℕ → ℕ → List Double × Stream → List Double × Stream
  unfolding extract
  read_entries zero i (elems, s) = (elems, s)
  read_entries (suc n) i (elems, s) =
      let (v, s') = extract doubles (get_or zero_value elems (i * 1 + 0)) s in
      read_entries n (suc i) (set elems (i * 1 + 0) v, s')

  -- From `resize` on; nothing if it throws.
  unfoldable pub read_sized : ℤ → ℤ → Stream → Matrix Double → Option (Matrix Double × Stream)
  unfolding resize read_rows
  read_sized rows cols s m = elim (resize zero_value rows cols m) [
    | none ↦ none
    | some sized ↦
        let (elems, rest) = read_rows (pos_part rows) 0 (pos_part cols) (sized.elems, s) in
        some (record sized { elems = elems }, rest)
  ]

  module _ (ints : Format ℤ) where
    unfoldable pub print_matrix : Matrix Double → Text
    unfolding print_rows
    print_matrix m =
        ints.print m.rows
        ++ (codes " "
            ++ (ints.print m.cols
                ++ (codes "\n" ++ print_rows (pos_part m.rows) 0 (pos_part m.cols) m.elems)))

    unfoldable pub serialize_matrix : Matrix Double → Text
    unfolding print_matrix
    serialize_matrix m = codes "MATRIX\n" ++ print_matrix m

    unfoldable pub serialize_vector : Matrix Double → Text
    unfolding print_entries
    serialize_vector v =
        codes "VECTOR\n"
        ++ ints.print v.rows
        ++ codes "\n"
        ++ print_entries (pos_part v.rows) 0 (pos_part v.rows) v.elems
        ++ codes "\n"

    unfoldable pub dataset_text : Matrix Double → Matrix Double → Text
    unfolding print_matrix print_entries
    dataset_text features labels =
        codes "DATASET\n"
        ++ print_matrix features
        ++ print_entries (pos_part labels.rows) 0 (pos_part labels.rows) labels.elems
        ++ codes "\n"

    -- From `ss >> rows >> cols` on.
    unfoldable pub read_matrix : ℤ × ℤ → Stream → Matrix Double → Option (Matrix Double × Stream)
    unfolding extract read_sized
    read_matrix junk s m =
        let (rows, s1) = extract ints junk.0 s in
        let (cols, s2) = extract ints junk.1 s1 in read_sized rows cols s2 m

    unfoldable pub deserialize_matrix : ℤ × ℤ → Text → Matrix Double → Option (Bool × Matrix Double)
    unfolding extract_word read_matrix
    deserialize_matrix junk text m =
        let (header, s) = extract_word (record { text = text; good = true }) in
        if not (same_text header matrix_header)
        then some (false, m)
        else elim (read_matrix junk s m) [ none ↦ none | some (m', _) ↦ some (true, m') ]

    unfoldable pub deserialize_vector : ℤ → Text → Matrix Double → Option (Bool × Matrix Double)
    unfolding extract_word extract resize read_entries
    deserialize_vector junk text v =
        let (header, s) = extract_word (record { text = text; good = true }) in
        if not (same_text header vector_header)
        then some (false, v)
        else (let (size, s1) = extract ints junk s in
            elim (resize zero_value size (pos 1) v) [
              | none ↦ none
              | some sized ↦
                  let (elems, _) = read_entries (pos_part size) 0 (sized.elems, s1) in
                  some (true, record sized { elems = elems })
            ])

    -- `load_dataset` after the header: features and labels.
    unfoldable pub read_dataset :
        ℤ × ℤ → Stream → Matrix Double → Matrix Double → Option (Matrix Double × Matrix Double)
    unfolding extract resize read_rows read_entries
    read_dataset junk s features labels =
        let (rows, s1) = extract ints junk.0 s in
        let (cols, s2) = extract ints junk.1 s1 in
        elim (resize zero_value rows cols features) [
          | none ↦ none
          | some sized ↦ elim (resize zero_value rows (pos 1) labels) [
            | none ↦ none
            | some sized_labels ↦
                let (elems, s3) = read_rows (pos_part rows) 0 (pos_part cols) (sized.elems, s2) in
                let (entries, _) = read_entries (pos_part rows) 0 (sized_labels.elems, s3) in
                some (record sized { elems = elems }, record sized_labels { elems = entries })
          ]
        ]
