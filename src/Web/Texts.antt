-- ===== src/Web/Texts.antt =====
-- `std::string` as src/web/web_server.cpp walks it: `find` with a position, `substr`, and its own
-- `split_string`. Positions count bytes. A text is the native `String`.
use Prim.Native.Char.{Char, code}
use Prim.Native.String
use Prim.Native.String.{len, slice, find}
use distributed_data_science.Prelude.{
  ℕ, ◌+◌, Bool, true, false, Option, none, some, String, List, [], ◌∷◌, ltb, ◌==◌, if◌then◌else◌,
  ◌=?◌, string_key, concat,
}
pub mod Laws

-- `s.substr(pos, n)`. A position past the end, where C++ throws, gives the empty text here.
unfoldable pub substr : String → ℕ → ℕ → String
substr s pos n = slice s pos (pos + n)

-- `s.substr(pos)`.
unfoldable pub rest_from : String → ℕ → String
rest_from s pos = slice s pos (len s)

-- `s.find(t, pos)`, with `npos` as `none`. The library's `find` gives `len + 1` for a miss.
unfoldable pub find_from : String → String → ℕ → Option ℕ
unfolding rest_from
find_from s t pos =
    let found = find (rest_from s pos) t in
    if ltb (len (rest_from s pos)) found then none else some (pos + found)

unfoldable pub push : String → Char → String
push s c = concat s (String.◌∷◌ c String.[])

-- The loop of `std::getline`: the token so far, and the text not yet read. There is no token behind
-- a delimiter at the end.
unfoldable pub tokens : ℕ → String → String → List String
unfolding push
tokens delimiter token String.[] = if token =? "" then [] else token ∷ []
tokens delimiter token (String.◌∷◌ c s) = elim (code c == delimiter) [
  | true ↦ token ∷ tokens delimiter "" s
  | false ↦ tokens delimiter (push token c) s
]

unfoldable pub split_string : String → ℕ → List String
unfolding tokens
split_string s delimiter = tokens delimiter "" s
