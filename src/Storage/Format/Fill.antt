-- ===== src/Storage/Format/Fill.antt =====
-- The elements that the loops of src/storage/hadoop_storage.cpp store into a matrix, one after another.
use distributed_data_science.Prelude.{
  ℕ, zero, suc, ◌+◌, ◌≡◌, refl, ap, List, [], ◌∷◌, ◌++◌, map, arith, length, set, append-assoc_one,
  length-append,
}
use distributed_data_science.Storage.Matrices.{get_or, resize_list}

-- `n` elements of `xs`, from the `k`-th on, are stored into `ys`.
unfoldable pub fill {ℓ} : {A : Type ℓ} → A → (A → A) → ℕ → ℕ → List A → List A → List A
fill d f zero k xs ys = ys
fill d f (suc n) k xs ys = fill d f n (suc k) xs (set ys k (f (get_or d xs k)))

module _ {ℓ} {A : Type ℓ} (d : A) (f : A → A) where
  pub fill-add :
      (n m k : ℕ) (xs ys : List A)
      → fill d f (n + m) k xs ys ≡ fill d f m (k + n) xs (fill d f n k xs ys)
  unfolding fill
  fill-add zero m k xs ys =
      let first : 0 + m ≡ m = omega arith in
      let start : k + 0 ≡ k = omega arith in rw (first, start) refl
  fill-add (suc n) m k xs ys =
      let more : suc n + m ≡ suc (n + m) = omega arith in
      let start : k + suc n ≡ suc k + n = omega arith in
      rw (more, start) (fill-add n m (suc k) xs (set ys k (f (get_or d xs k))))

  get_or-append : (ps qs : List A) (q : A) → get_or d (ps ++ q ∷ qs) (length ps) ≡ q
  get_or-append [] qs q = refl
  get_or-append (p ∷ ps) qs q = get_or-append ps qs q

  set-append : (os ss : List A) (s v : A) → set (os ++ s ∷ ss) (length os) v ≡ os ++ v ∷ ss
  set-append [] ss s v = refl
  set-append (o ∷ os) ss s v = ap (◌∷◌ o) (set-append os ss s v)

  fill-append :
      (ps os qs ss : List A)
      → length ps ≡ length os
      → length qs ≡ length ss
      → fill d f (length qs) (length ps) (ps ++ qs) (os ++ ss) ≡ os ++ map f qs
  unfolding fill
  fill-append ps os [] [] h g = refl
  fill-append ps os (q ∷ qs) [] h g = absurd (omega arith)
  fill-append ps os [] (s ∷ ss) h g = absurd (omega arith)
  fill-append ps os (q ∷ qs) (s ∷ ss) h g =
      let rest =
        fill-append (ps ++ q ∷ []) (os ++ f q ∷ []) qs ss
          (omega (arith, length-append ps (q ∷ []), length-append os (f q ∷ []))) (omega arith) in
      let read = get_or-append ps qs q in
      let stored : set (os ++ s ∷ ss) (length ps) (f q) ≡ os ++ f q ∷ ss =
        rw h (set-append os ss s (f q)) in
      let longer : length (ps ++ q ∷ []) ≡ suc (length ps) =
        omega (arith, length-append ps (q ∷ [])) in
      let goal : fill d f (length qs) (suc (length ps)) (ps ++ q ∷ qs)
            (set (os ++ s ∷ ss) (length ps) (f (get_or d (ps ++ q ∷ qs) (length ps))))
          ≡ os ++ f q ∷ map f qs =
        rw
          (
            read,
            stored,
            ← append-assoc_one ps q qs,
            ← append-assoc_one os (f q) ss,
            ← append-assoc_one os (f q) (map f qs),
            ← longer,
          )
          rest in
      goal

  -- All of them.
  pub fill_all : (xs ys : List A) → length xs ≡ length ys → fill d f (length xs) 0 xs ys ≡ map f xs
  fill_all xs ys h = fill-append [] [] xs ys refl h

pub length-resize_list {ℓ} :
    {A : Type ℓ} (d : A) (n : ℕ) (xs : List A) → length (resize_list d n xs) ≡ n
unfolding resize_list
length-resize_list d zero xs = refl
length-resize_list d (suc n) [] = omega (arith, length-resize_list d n [])
length-resize_list d (suc n) (x ∷ xs) = omega (arith, length-resize_list d n xs)
