-- ===== src/Storage/Streams.antt =====
-- `std::stringstream` as src/storage/hadoop_storage.cpp uses it. A text is the list of its bytes.
use distributed_data_science.Prelude.{
  ℕ, Bool, true, false, String, List, [], ◌∷◌, ◌++◌, leb, ◌==◌, ◌&&◌, ◌||◌, if◌then◌else◌,
}
pub mod Reading

abbrev pub Text : Type 0
Text = List ℕ

-- `std::isspace` in the "C" locale.
unfoldable pub is_space : ℕ → Bool
is_space c = c == 32 || (leb 9 c && leb c 13)

unfoldable pub skip_spaces : Text → Text
unfolding is_space
skip_spaces [] = []
skip_spaces (c ∷ cs) = let rest = skip_spaces cs in if is_space c then rest else c ∷ cs

-- The characters up to the next space, and what follows.
unfoldable pub take_word : Text → Text × Text
unfolding is_space
take_word [] = ([], [])
take_word (c ∷ cs) =
    let (word, rest) = take_word cs in if is_space c then ([], c ∷ cs) else (c ∷ word, rest)

-- What is still to be read, and that no read has failed.
pub record Stream : Type 0 where
  pub text : Text
  pub good : Bool

-- What the text of a number says: the number, or the value that is stored in its place.
pub data Scan {ℓ} (A : Type ℓ) : Type ℓ where
  value broken : A → Text → Scan A

-- `<<` and `>>` of a type of numbers; `scan` gets a text that does not begin with a space.
pub record Format {ℓ} (A : Type ℓ) : Type ℓ where
  pub print : A → Text
  pub scan : Text → Scan A

-- `ss >> x` with `old` in `x`: at the end of the text, or after a failure, `x` keeps its value.
unfoldable pub extract {ℓ} : {A : Type ℓ} → Format A → A → Stream → A × Stream
unfolding skip_spaces
extract f old s =
    if s.good
    then elim (skip_spaces s.text) [
      | [] ↦ (old, record { text = []; good = false })
      | c ∷ cs ↦ elim (f.scan (c ∷ cs)) [
        | value v rest ↦ (v, record { text = rest; good = true })
        | broken v rest ↦ (v, record { text = rest; good = false })
      ]
    ]
    else (old, s)

-- `ss >> header` with an empty string in `header`.
unfoldable pub extract_word : Stream → Text × Stream
unfolding skip_spaces take_word
extract_word s =
    if s.good
    then elim (skip_spaces s.text) [
      | [] ↦ ([], record { text = []; good = false })
      | c ∷ cs ↦
          let (word, rest) = take_word (c ∷ cs) in (word, record { text = rest; good = true })
    ]
    else ([], s)
