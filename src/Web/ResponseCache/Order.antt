-- ===== src/Web/ResponseCache/Order.antt =====
-- The order of use: `remove_first` and `move_to_back` on a list without repetitions.
use distributed_data_science.Prelude.{
  suc, ◌≡◌, refl, false, not, ◌&&◌, ◌||◌, String, List, [], ◌∷◌, ◌++◌, arith, if◌then◌else◌, ◌=?◌,
  =?_iff, =?_refl, string_key, length, length-append,
}
use distributed_data_science.Web.ResponseCache.{remove_first, contains, move_to_back}

-- No key stands twice.
abbrev pub AllOnce : List String → Type 0
AllOnce [] = Unit
AllOnce (k ∷ l) = (contains k l ≡ false) × AllOnce l

pub contains-append :
    (k : String) (l r : List String) → contains k (l ++ r) ≡ contains k l || contains k r
unfolding contains
contains-append k [] r = refl
contains-append k (j ∷ l) r = ground (arith, contains-append k l r)

remove_first_missing : (k : String) (l : List String) → contains k l ≡ false → remove_first k l ≡ l
unfolding contains remove_first
remove_first_missing k [] h = refl
remove_first_missing k (j ∷ l) h = ground (arith, remove_first_missing k l)

pub contains-remove_first :
    (k j : String) (l : List String)
    → AllOnce l
    → contains j (remove_first k l) ≡ not (k =? j) && contains j l
unfolding contains remove_first
contains-remove_first k j [] d = ground arith
contains-remove_first k j (i ∷ l) d =
    ground (arith, contains-remove_first k j l d.1, =?_iff i k, =?_iff i j, =?_iff k j)

pub length-remove_first :
    (k : String) (l : List String)
    → length l
      ≡ (if contains k l then suc (length (remove_first k l)) else length (remove_first k l))
unfolding contains remove_first
length-remove_first k [] = refl
length-remove_first k (j ∷ l) = ground (arith, length-remove_first k l)

pub remove_first-AllOnce : (k : String) (l : List String) → AllOnce l → AllOnce (remove_first k l)
unfolding contains remove_first
remove_first-AllOnce k [] d = tt
remove_first-AllOnce k (j ∷ l) d =
    ground (arith, remove_first-AllOnce k l d.1, contains-remove_first k j l d.1, =?_iff j k)

pub append-AllOnce :
    (k : String) (l : List String) → contains k l ≡ false → AllOnce l → AllOnce (l ++ k ∷ [])
unfolding contains
append-AllOnce k [] h d = (refl, tt)
append-AllOnce k (j ∷ l) h d =
    ground (arith, append-AllOnce k l, d, contains-append j l (k ∷ []), =?_iff j k, =?_iff k j)

pub contains-move_to_back :
    (k j : String) (l : List String) → AllOnce l → contains j (move_to_back k l) ≡ contains j l
unfolding move_to_back contains
contains-move_to_back k j l d = ground (
  arith,
  contains-append j (remove_first k l) (k ∷ []),
  contains-remove_first k j l d,
  =?_iff k j,
)

pub length-move_to_back : (k : String) (l : List String) → length (move_to_back k l) ≡ length l
unfolding move_to_back
length-move_to_back k l =
    ground (arith, length-append (remove_first k l) (k ∷ []), length-remove_first k l)

pub move_to_back-AllOnce : (k : String) (l : List String) → AllOnce l → AllOnce (move_to_back k l)
unfolding move_to_back
move_to_back-AllOnce k l d = ground (
  arith,
  append-AllOnce k (remove_first k l),
  remove_first-AllOnce k l d,
  contains-remove_first k k l d,
  =?_refl k,
)
