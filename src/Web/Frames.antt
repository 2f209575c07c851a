-- ===== src/Web/Frames.antt =====
-- The frames of the web socket (src/web/web_server.cpp): `encode_websocket_frame` to
-- `get_websocket_payload`. A `std::string` is the list of its bytes, and a length is a `size_t`.
use distributed_data_science.Prelude.{
  ℕ, zero, suc, ◌+◌, ◌*◌, ◌/◌, ◌%◌, ◌^◌, Bool, true, false, Option, none, some, List, [], ◌∷◌, ◌++◌,
  ltb, leb, ◌==◌, if◌then◌else◌, length, take, drop,
}
pub mod RoundTrip
pub mod Overflow

-- `0x80 | opcode` on a byte.
unfoldable pub first_byte : ℕ → ℕ
first_byte opcode = if ltb opcode 128 then 128 + opcode else opcode

-- The bytes that `for (int i = 7; i >= 0; --i) push_back((n >> (i * 8)) & 0xFF)` appends, with as many
-- rounds as are given.
unfoldable pub length_bytes : ℕ → ℕ → List ℕ
length_bytes zero n = []
length_bytes (suc i) n = (n / 2 ^ (i * 8)) % 256 ∷ length_bytes i n

unfoldable pub encode_websocket_frame : List ℕ → ℕ → List ℕ
unfolding first_byte length_bytes
encode_websocket_frame payload opcode =
    let n = length payload in
    first_byte opcode
    ∷ (if ltb n 126
        then n ∷ payload
        else if ltb n 65536
        then 126 ∷ (n / 2 ^ 8) % 256 ∷ n % 256 ∷ payload
        else 127 ∷ (length_bytes 8 n ++ payload))

-- The loop `n = (n << 8) | byte`.
unfoldable pub read_length : ℕ → List ℕ → ℕ → ℕ
read_length zero bytes n = n
read_length (suc i) [] n = n
read_length (suc i) (x ∷ bytes) n = read_length i bytes ((n * 256) % 2 ^ 64 + x)

unfoldable pub short_header : List ℕ → Option (ℕ × ℕ)
short_header (x ∷ y ∷ _) = some (x * 256 + y, 4)
short_header _ = none

unfoldable pub long_header : List ℕ → Option (ℕ × ℕ)
unfolding read_length
long_header rest = if ltb (length rest) 8 then none else some (read_length 8 rest 0, 10)

-- The length of the payload and of the header, by the part that `decode_websocket_frame` and
-- `is_websocket_frame_complete` share.
unfoldable pub read_header : List ℕ → Option (ℕ × ℕ)
unfolding short_header long_header
read_header [] = none
read_header (_ ∷ []) = none
read_header (_ ∷ second ∷ rest) =
    let n = second % 128 in
    if n == 126 then short_header rest else if n == 127 then long_header rest else some (n, 2)

-- `frame.length() >= header_length + payload_length`, a sum of `size_t`.
unfoldable pub has_payload : List ℕ → ℕ → ℕ → Bool
has_payload frame n header = leb ((header + n) % 2 ^ 64) (length frame)

unfoldable pub decode_websocket_frame : List ℕ → List ℕ
unfolding read_header has_payload
decode_websocket_frame frame = elim (read_header frame) [
  | none ↦ []
  | some (n, header) ↦ if has_payload frame n header then take n (drop header frame) else []
]

unfoldable pub is_websocket_frame_complete : List ℕ → Bool
unfolding read_header has_payload
is_websocket_frame_complete frame = elim (read_header frame) [
  | none ↦ false
  | some (n, header) ↦ has_payload frame n header
]

unfoldable pub get_websocket_opcode : List ℕ → ℕ
get_websocket_opcode [] = 0
get_websocket_opcode (first ∷ _) = first % 16

unfoldable pub get_websocket_payload : List ℕ → List ℕ
unfolding decode_websocket_frame
get_websocket_payload frame = decode_websocket_frame frame
