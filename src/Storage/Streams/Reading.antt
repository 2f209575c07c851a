-- ===== src/Storage/Streams/Reading.antt =====
-- What `>>` reads of a text that `<<` wrote (src/storage/hadoop_storage.cpp).
use distributed_data_science.Prelude.{
  ℕ, ◌≡◌, refl, subst, ◌∙◌, true, false, [], ◌∷◌, ◌++◌, arith, All,
}
use distributed_data_science.Storage.Streams.{Text, is_space, skip_spaces, value, Format, extract}

-- What is relied on of a type of numbers: for one that is `Good`, the text begins with no space, and
-- `>>` reads `kept a` of it and stops at the space after it.
pub record Readable {ℓ} {A : Type ℓ} (f : Format A) (Good : A → Type 0) (kept : A → A)
    : Type ℓ where
  pub starts :
      (a : A) → Good a → (c : ℕ) × (cs : Text) × (f.print a ≡ c ∷ cs) × (is_space c ≡ false)
  pub reads :
      (a : A) (c : ℕ) (rest : Text)
      → Good a
      → is_space c ≡ true
      → f.scan (f.print a ++ c ∷ rest) ≡ value (kept a) (c ∷ rest)

abbrev pub AreSpaces : Text → Type 0
AreSpaces = All (λ c. is_space c ≡ true)

skip_spaces-append :
    (spaces text : Text) → AreSpaces spaces → skip_spaces (spaces ++ text) ≡ skip_spaces text
unfolding skip_spaces
skip_spaces-append [] text h = refl
skip_spaces-append (c ∷ cs) text (h, hs) = ground (arith, skip_spaces-append cs text hs)

pub extract-print {ℓ} :
    {A : Type ℓ} {f : Format A} {Good : A → Type 0} {kept : A → A}
    → Readable f Good kept
    → (a old : A) (spaces : Text) (c : ℕ) (rest : Text) → Good a
    → AreSpaces spaces
    → is_space c ≡ true
    → extract f old (record { text = spaces ++ (f.print a ++ c ∷ rest); good = true })
      ≡ (kept a, record { text = c ∷ rest; good = true })
unfolding extract skip_spaces
extract-print {f = f} {kept = kept} laws a old spaces c rest g h e =
    let (d, ds, begins, solid) = laws.starts a g in
    let read = laws.reads a c rest g e in
    let skipped = skip_spaces-append spaces (f.print a ++ c ∷ rest) h in
    let first : skip_spaces (f.print a ++ c ∷ rest) ≡ d ∷ (ds ++ c ∷ rest) =
      rw (begins, skip_spaces) (rw (solid, skip_spaces) refl) in
    let read' : f.scan (d ∷ (ds ++ c ∷ rest)) ≡ value (kept a) (c ∷ rest) =
      subst (λ t. f.scan (t ++ c ∷ rest) ≡ value (kept a) (c ∷ rest)) begins read in
    rw (skipped ∙ first, read', extract) refl
