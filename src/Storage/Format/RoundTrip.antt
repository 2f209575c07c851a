-- ===== src/Storage/Format/RoundTrip.antt =====
-- Reading a matrix from the text that was written of it (src/storage/hadoop_storage.cpp).
use distributed_data_science.Prelude.{
  codes, ℕ, zero, suc, ◌+◌, ◌-◌, ◌*◌, ◌≡◌, refl, ap, sym, subst, ◌∙◌, Bool, true, false, Option,
  none, some, List, [], ◌∷◌, ◌++◌, map, arith, ltb, if◌then◌else◌, length, set, All, All-append,
  append-assoc_one,
}
use mathlib.Core.List.{append_assoc, append-nil}
use distributed_data_science.Storage.Streams.{Text, is_space, Stream, Format, extract}
use distributed_data_science.Storage.Streams.Reading.{Readable, AreSpaces, extract-print}
use distributed_data_science.Storage.Matrices.{ℤ, pos, Matrix, area, resize_list, resize, get_or}
use distributed_data_science.Storage.Format.Fill.{fill, fill-add, fill_all, length-resize_list}
use distributed_data_science.Storage.Format.{
  print_columns, print_rows, print_matrix, serialize_matrix, read_columns, read_rows, read_sized,
  read_matrix, deserialize_matrix,
}

-- A stream at the spaces before the next number.
abbrev At : Text → Text → Stream
At spaces rest = record { text = spaces ++ rest; good = true }

newline : is_space 10 ≡ true
unfolding is_space
newline = refl

blank : is_space 32 ≡ true
unfolding is_space
blank = refl

module _ {ℓ} {Double : Type ℓ} (zero_value : Double) (ints : Format ℤ) (doubles : Format Double)
    (Finite : Double → Type 0) (rounded : Double → Double)
    (laws : Readable doubles Finite rounded) where
  -- The elements that a loop reads are numbers.
  abbrev AreFinite : List Double → Type 0
  AreFinite xs = (k : ℕ) → Finite (get_or zero_value xs k)

  All→AreFinite : (xs : List Double) → Finite zero_value → All Finite xs → AreFinite xs
  All→AreFinite [] z h k = z
  All→AreFinite (x ∷ xs) z h zero = h.0
  All→AreFinite (x ∷ xs) z h (suc k) = All→AreFinite xs z h.1 k

  read_columns-print :
      (n i j cols : ℕ) (xs ys : List Double) (spaces rest : Text)
      → AreFinite xs
      → AreSpaces spaces
      → n + j ≡ cols
      → (left : Text) × AreSpaces left
        × (read_columns zero_value doubles n i j cols
              (ys, At spaces (print_columns zero_value doubles n i j cols xs ++ 10 ∷ rest))
            ≡ (fill zero_value rounded n (i * cols + j) xs ys, At left (10 ∷ rest)))
  unfolding read_columns print_columns fill
  read_columns-print zero i j cols xs ys spaces rest finite white e = (spaces, white, refl)
  read_columns-print (suc zero) i j cols xs ys spaces rest finite white e =
      let k = i * cols + j in
      let a = get_or zero_value xs k in
      let last : ltb j (cols - 1) ≡ false = ground arith in
      let text : (doubles.print a ++ ((if ltb j (cols - 1) then codes " " else []) ++ []))
            ++ 10 ∷ rest
          ≡ doubles.print a ++ 10 ∷ rest =
        rw last (ap (λ t. t ++ 10 ∷ rest) (append-nil (doubles.print a))) in
      let read =
        extract-print laws a (get_or zero_value ys k) spaces 10 rest (finite k) white newline in
      (
        [],
        tt,
        ap (λ t. read_columns zero_value doubles 1 i j cols (ys, At spaces t)) text
            ∙ ap (λ (r : Double × Stream). (set ys k r.0, r.1)) read,
      )
  read_columns-print (suc (suc n)) i j cols xs ys spaces rest finite white e =
      let k = i * cols + j in
      let a = get_or zero_value xs k in
      let more : ltb j (cols - 1) ≡ true = ground arith in
      let after = print_columns zero_value doubles (suc n) i (suc j) cols xs in
      let text : (doubles.print a ++ ((if ltb j (cols - 1) then codes " " else []) ++ after))
            ++ 10 ∷ rest
          ≡ doubles.print a ++ 32 ∷ (after ++ 10 ∷ rest) =
        rw more (append_assoc (doubles.print a) (32 ∷ after) (10 ∷ rest)) in
      let read =
        extract-print laws a (get_or zero_value ys k) spaces 32 (after ++ 10 ∷ rest) (finite k)
          white blank in
      let (left, white', others) =
        read_columns-print (suc n) i (suc j) cols xs (set ys k (rounded a)) (32 ∷ []) rest finite
          (blank, tt) (omega arith) in
      let next : i * cols + suc j ≡ suc k = omega arith in
      (
        left,
        white',
        ap
              (λ (r : Double × Stream).
                read_columns zero_value doubles (suc n) i (suc j) cols (set ys k r.0, r.1))
              (ap (λ t. extract doubles (get_or zero_value ys k) (At spaces t)) text ∙ read)
            ∙ subst
                (λ m.
                  read_columns zero_value doubles (suc n) i (suc j) cols
                    (set ys k (rounded a), At (32 ∷ []) (after ++ 10 ∷ rest))
                  ≡ (
                    fill zero_value rounded (suc n) m xs (set ys k (rounded a)),
                    At left (10 ∷ rest),
                  ))
                next others,
      )

  read_rows-print :
      (n i cols : ℕ) (xs ys : List Double) (spaces : Text)
      → AreFinite xs
      → AreSpaces spaces
      → (left : Text) × AreSpaces left
        × (read_rows zero_value doubles n i cols
              (ys, At spaces (print_rows zero_value doubles n i cols xs))
            ≡ (fill zero_value rounded (n * cols) (i * cols) xs ys, At left []))
  unfolding read_rows print_rows fill
  read_rows-print zero i cols xs ys spaces finite white =
      let nothing : 0 * cols ≡ 0 = omega arith in (spaces, white, rw (nothing, fill) refl)
  read_rows-print (suc n) i cols xs ys spaces finite white =
      let below = print_rows zero_value doubles n (suc i) cols xs in
      let (left, white', row) =
        read_columns-print cols i 0 cols xs ys spaces below finite white (omega arith) in
      let filled = fill zero_value rounded cols (i * cols) xs ys in
      let start : i * cols + 0 ≡ i * cols = omega arith in
      let (left', white'', rows) =
        read_rows-print n (suc i) cols xs filled (left ++ 10 ∷ []) finite
          (All-append _ left (10 ∷ []) white' (newline, tt)) in
      let split = fill-add zero_value rounded cols (n * cols) (i * cols) xs ys in
      let next : suc i * cols ≡ i * cols + cols = grind arith in
      let whole : suc n * cols ≡ cols + n * cols = grind arith in
      (
        left',
        white'',
        ap (read_rows zero_value doubles n (suc i) cols)
              (row ∙ rw (start, append-assoc_one left 10 below) refl)
            ∙ rows
            ∙ rw (next, whole, split) refl,
      )

  module _ (Small : ℤ → Type 0) (int_laws : Readable ints Small (λ z. z)) where
    -- The matrix from its rows and columns on.
    read_matrix-print :
        (junk : ℤ × ℤ) (r c : ℕ) (xs : List Double) (old : Matrix Double) (spaces : Text)
        → Small (pos r)
        → Small (pos c)
        → AreFinite xs
        → AreSpaces spaces
        → length xs ≡ r * c
        → (left : Text) × AreSpaces left
          × (read_matrix zero_value doubles ints junk
                (At spaces (
                  print_matrix zero_value doubles ints
                    (record { rows = pos r; cols = pos c; elems = xs })))
                old
              ≡ some (record { rows = pos r; cols = pos c; elems = map rounded xs }, At left []))
    unfolding read_matrix print_matrix resize area
    read_matrix-print junk r c xs old spaces small_r small_c finite white e =
        let sized = resize_list zero_value (r * c) old.elems in
        let rows_text = print_rows zero_value doubles r 0 c xs in
        let first =
          extract-print int_laws (pos r) junk.0 spaces 32 (ints.print (pos c) ++ 10 ∷ rows_text)
            small_r white blank in
        let second =
          extract-print int_laws (pos c) junk.1 (32 ∷ []) 10 rows_text small_c (blank, tt)
            newline in
        let (left, white', cells) = read_rows-print r 0 c xs sized (10 ∷ []) finite (newline, tt) in
        let start : 0 * c ≡ 0 = omega arith in
        let all : fill zero_value rounded (r * c) (0 * c) xs sized ≡ map rounded xs =
          rw (start, ← e)
            (fill_all zero_value rounded xs (resize_list zero_value (length xs) old.elems)
              (sym (length-resize_list zero_value (length xs) old.elems))) in
        (
          left,
          white',
          ap
                (λ (x : ℤ × Stream).
                  let y = extract ints junk.1 x.1 in read_sized zero_value doubles x.0 y.0 y.1 old)
                first
              ∙ ap (λ (y : ℤ × Stream). read_sized zero_value doubles (pos r) y.0 y.1 old) second
              ∙ ap
                  (λ (z : List Double × Stream).
                    some (record { rows = pos r; cols = pos c; elems = z.0 }, z.1))
                  (cells ∙ ap (λ zs. (zs, At left [])) all),
        )

    -- What `deserialize_matrix` reads of the text that `serialize_matrix` writes of a matrix, whatever
    -- the variables held before: every element as its printed form reads, in its place.
    pub deserialize_matrix-serialize_matrix :
        (junk : ℤ × ℤ) (r c : ℕ) (xs : List Double) (old : Matrix Double)
        → Small (pos r)
        → Small (pos c)
        → Finite zero_value
        → All Finite xs
        → length xs ≡ r * c
        → deserialize_matrix zero_value doubles ints junk
            (serialize_matrix zero_value doubles ints
              (record { rows = pos r; cols = pos c; elems = xs }))
            old
          ≡ some (true, record { rows = pos r; cols = pos c; elems = map rounded xs })
    unfolding deserialize_matrix serialize_matrix
    deserialize_matrix-serialize_matrix junk r c xs old small_r small_c zero_finite finite e =
        let (left, white, read) =
          read_matrix-print junk r c xs old (10 ∷ []) small_r small_c
            (All→AreFinite xs zero_finite finite) (newline, tt) e in
        ap
          (λ o. elim o as (λ _. Option (Bool × Matrix Double)) [
            | none ↦ none
            | some x ↦ some (true, x.0)
          ])
          read
