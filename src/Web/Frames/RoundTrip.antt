-- ===== src/Web/Frames/RoundTrip.antt =====
-- A frame that was encoded is complete and decodes to its payload.
use distributed_data_science.Prelude.{
  ℕ, zero, suc, ◌+◌, ◌*◌, ◌/◌, ◌%◌, ◌^◌, ◌≤◌, ◌<◌, ◌≡◌, refl, sym, ap, ◌∙◌, true, false, some, List,
  [], ◌∷◌, ◌++◌, arith, inl, inr, subst, ltb→lt, ltb-false, ltb, length, take, drop, length-append,
  drop-append, Bool-cases,
}
use distributed_data_science.Web.Frames.{
  first_byte, length_bytes, encode_websocket_frame, read_length, short_header, long_header,
  read_header, has_payload, decode_websocket_frame, is_websocket_frame_complete,
  get_websocket_opcode,
}

pub length-length_bytes : (i n : ℕ) → length (length_bytes i n) ≡ i
unfolding length_bytes
length-length_bytes zero n = refl
length-length_bytes (suc i) n = ap suc (length-length_bytes i n)

-- The eight bytes of a length are read back.
pub read_length-length_bytes :
    (n : ℕ) (rest : List ℕ) → n < 2 ^ 64 → read_length 8 (length_bytes 8 n ++ rest) 0 ≡ n
unfolding read_length length_bytes
read_length-length_bytes n rest b =
    let s7 : (0 * 256) % 2 ^ 64 + (n / 2 ^ 56) % 256 ≡ n / 2 ^ 56 = omega (arith, b) in
    let s6 : (n / 2 ^ 56 * 256) % 2 ^ 64 + (n / 2 ^ 48) % 256 ≡ n / 2 ^ 48 = omega (arith, b) in
    let s5 : (n / 2 ^ 48 * 256) % 2 ^ 64 + (n / 2 ^ 40) % 256 ≡ n / 2 ^ 40 = omega (arith, b) in
    let s4 : (n / 2 ^ 40 * 256) % 2 ^ 64 + (n / 2 ^ 32) % 256 ≡ n / 2 ^ 32 = omega (arith, b) in
    let s3 : (n / 2 ^ 32 * 256) % 2 ^ 64 + (n / 2 ^ 24) % 256 ≡ n / 2 ^ 24 = omega (arith, b) in
    let s2 : (n / 2 ^ 24 * 256) % 2 ^ 64 + (n / 2 ^ 16) % 256 ≡ n / 2 ^ 16 = omega (arith, b) in
    let s1 : (n / 2 ^ 16 * 256) % 2 ^ 64 + (n / 2 ^ 8) % 256 ≡ n / 2 ^ 8 = omega (arith, b) in
    let s0 : (n / 2 ^ 8 * 256) % 2 ^ 64 + (n / 1) % 256 ≡ n = omega (arith, b) in
    rw (s7, s6, s5, s4, s3, s2, s1) s0

encode_tiny :
    (payload : List ℕ) (opcode : ℕ)
    → ltb (length payload) 126 ≡ true
    → encode_websocket_frame payload opcode ≡ first_byte opcode ∷ length payload ∷ payload
unfolding encode_websocket_frame
encode_tiny payload opcode e = rw (e, encode_websocket_frame) refl

encode_middle :
    (payload : List ℕ) (opcode : ℕ)
    → ltb (length payload) 126 ≡ false
    → ltb (length payload) 65536 ≡ true
    → encode_websocket_frame payload opcode
      ≡ first_byte opcode ∷ 126 ∷ (length payload / 2 ^ 8) % 256 ∷ length payload % 256 ∷ payload
unfolding encode_websocket_frame
encode_middle payload opcode e f = rw (e, f, encode_websocket_frame) refl

encode_large :
    (payload : List ℕ) (opcode : ℕ)
    → ltb (length payload) 126 ≡ false
    → ltb (length payload) 65536 ≡ false
    → encode_websocket_frame payload opcode
      ≡ first_byte opcode ∷ 127 ∷ (length_bytes 8 (length payload) ++ payload)
unfolding encode_websocket_frame
encode_large payload opcode e f = rw (e, f, encode_websocket_frame) refl

header_tiny : (a n : ℕ) (rest : List ℕ) → n < 126 → read_header (a ∷ n ∷ rest) ≡ some (n, 2)
unfolding read_header
header_tiny a n rest b = ground arith

header_middle :
    (a n : ℕ) (rest : List ℕ)
    → n < 65536
    → read_header (a ∷ 126 ∷ (n / 2 ^ 8) % 256 ∷ n % 256 ∷ rest) ≡ some (n, 4)
unfolding read_header short_header
header_middle a n rest b = ap (λ m. some (m, 4)) (omega (arith, b))

pub header_large :
    (a : ℕ) (rest : List ℕ)
    → 8 ≤ length rest
    → read_header (a ∷ 127 ∷ rest) ≡ some (read_length 8 rest 0, 10)
unfolding read_header long_header
header_large a rest b = rw (ltb-false (length rest) 8 b, long_header) refl

-- What the encoder writes, as the decoder reads it.
IsEncoded : List ℕ → List ℕ → Type 0
IsEncoded payload frame =
    (header : ℕ) × ((read_header frame ≡ some (length payload, header))
      × ((drop header frame ≡ payload)
          × ((length frame ≡ header + length payload) × (header ≤ 10))))

encode-IsEncoded :
    (payload : List ℕ) (opcode : ℕ)
    → length payload < 2 ^ 64
    → IsEncoded payload (encode_websocket_frame payload opcode)
unfolding IsEncoded
encode-IsEncoded payload opcode small =
    let n = length payload in
    let first = first_byte opcode in
    elim (Bool-cases (ltb n 126)) [
      | inl tiny ↦
          subst (IsEncoded payload) (sym (encode_tiny payload opcode tiny)) (
            2,
            (header_tiny first n payload (ltb→lt n 126 tiny), (refl, (omega arith, omega arith))),
          )
      | inr more ↦ elim (Bool-cases (ltb n 65536)) [
        | inl middle ↦ subst (IsEncoded payload) (sym (encode_middle payload opcode more middle)) (
          4,
          (
            header_middle first n payload (ltb→lt n 65536 middle),
            (refl, (omega arith, omega arith)),
          ),
        )
        | inr large ↦
            let bytes = length_bytes 8 n in
            let eight = length-length_bytes 8 n in
            let whole = length-append bytes payload in
            subst (IsEncoded payload) (sym (encode_large payload opcode more large)) (
              10,
              (
                header_large first (bytes ++ payload) (omega (arith, eight, whole))
                    ∙ ap (λ m. some (m, 10)) (read_length-length_bytes n payload small),
                (
                  ap (λ k. drop k (bytes ++ payload)) (sym eight) ∙ drop-append bytes payload,
                  (omega (arith, eight, whole), omega arith),
                ),
              ),
            )
      ]
    ]

take_all : (xs : List ℕ) → take (length xs) xs ≡ xs
take_all [] = refl
take_all (x ∷ xs) = ap (λ l. x ∷ l) (take_all xs)

pub frame_read :
    (frame : List ℕ) (n header : ℕ)
    → read_header frame ≡ some (n, header)
    → has_payload frame n header ≡ true
    → (decode_websocket_frame frame ≡ take n (drop header frame))
      × (is_websocket_frame_complete frame ≡ true)
unfolding decode_websocket_frame is_websocket_frame_complete
frame_read frame n header e h =
    rw (e, h, decode_websocket_frame, is_websocket_frame_complete) (refl, refl)

encode_opcode :
    (payload : List ℕ) (opcode : ℕ)
    → opcode < 16
    → get_websocket_opcode (encode_websocket_frame payload opcode) ≡ opcode
unfolding get_websocket_opcode encode_websocket_frame first_byte
encode_opcode payload opcode o = ground arith

-- A payload whose frame a `size_t` can measure comes back from its frame, which is complete and keeps
-- the opcode.
pub decode-encode :
    (payload : List ℕ) (opcode : ℕ)
    → length payload + 10 < 2 ^ 64
    → opcode < 16
    → let frame = encode_websocket_frame payload opcode in
      (decode_websocket_frame frame ≡ payload)
      × (is_websocket_frame_complete frame ≡ true)
      × (get_websocket_opcode frame ≡ opcode)
unfolding IsEncoded
decode-encode payload opcode small o =
    let frame = encode_websocket_frame payload opcode in
    let (header, (e, (d, (n, le)))) = encode-IsEncoded payload opcode (omega arith) in
    let fits : has_payload frame (length payload) header ≡ true =
      unfold has_payload in ground (arith, n, le) in
    let (decoded, complete) = frame_read frame (length payload) header e fits in
    (
      decoded ∙ ap (take (length payload)) d ∙ take_all payload,
      complete,
      encode_opcode payload opcode o,
    )
