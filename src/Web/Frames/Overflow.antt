-- ===== src/Web/Frames/Overflow.antt =====
-- A frame that announces more bytes than it has.
use distributed_data_science.Prelude.{
  ℕ, zero, suc, ◌+◌, ◌^◌, ◌≤◌, ◌<◌, ◌≡◌, refl, sym, ap, ◌∙◌, true, false, some, List, [], ◌∷◌, ◌++◌,
  arith, length, take, drop, length-append, drop-append,
}
use distributed_data_science.Web.Frames.{
  length_bytes, read_header, has_payload, decode_websocket_frame, is_websocket_frame_complete,
}
use distributed_data_science.Web.Frames.RoundTrip.{
  length-length_bytes, read_length-length_bytes, header_large, frame_read,
}

take_more : (n : ℕ) (xs : List ℕ) → length xs ≤ n → take n xs ≡ xs
take_more zero [] h = refl
take_more zero (x ∷ xs) h = ground (arith, h)
take_more (suc n) [] h = refl
take_more (suc n) (x ∷ xs) h = ap (λ l. x ∷ l) (take_more n xs (omega (arith, h)))

frame_unread :
    (frame : List ℕ) (n header : ℕ)
    → read_header frame ≡ some (n, header)
    → has_payload frame n header ≡ false
    → (decode_websocket_frame frame ≡ []) × (is_websocket_frame_complete frame ≡ false)
unfolding decode_websocket_frame is_websocket_frame_complete
frame_unread frame n header e h =
    rw (e, h, decode_websocket_frame, is_websocket_frame_complete) (refl, refl)

-- A frame with a long header that has fewer bytes than it announces is incomplete and decodes to
-- nothing, unless it announces at least 2^64 - 10 bytes: the length of the whole frame then wraps around
-- to one below 10, and the frame counts as complete, with the bytes that are there for its payload.
pub truncated :
    (first n : ℕ) (rest : List ℕ)
    → n < 2 ^ 64
    → length rest < n
    → let frame = first ∷ 127 ∷ (length_bytes 8 n ++ rest) in
      (n + 10 < 2 ^ 64
        → (is_websocket_frame_complete frame ≡ false) × (decode_websocket_frame frame ≡ []))
      × (2 ^ 64 ≤ n + 10
          → (is_websocket_frame_complete frame ≡ true) × (decode_websocket_frame frame ≡ rest))
unfolding has_payload
truncated first n rest small short =
    let bytes = length_bytes 8 n in
    let frame = first ∷ 127 ∷ (bytes ++ rest) in
    let eight = length-length_bytes 8 n in
    let whole = length-append bytes rest in
    let size : length frame ≡ 10 + length rest = omega (arith, eight, whole) in
    let e : read_header frame ≡ some (n, 10) =
      header_large first (bytes ++ rest) (omega (arith, eight, whole))
      ∙ ap (λ m. some (m, 10)) (read_length-length_bytes n rest small) in
    let payload : drop 10 frame ≡ rest =
      ap (λ k. drop k (bytes ++ rest)) (sym eight) ∙ drop-append bytes rest in
    (
      (λ honest.
          let (decoded, complete) = frame_unread frame n 10 e (ground (arith, size)) in
          (complete, decoded)),
      (λ wraps.
          let (decoded, complete) = frame_read frame n 10 e (ground (arith, size)) in
          (complete, decoded ∙ ap (take n) payload ∙ take_more n rest (omega arith))),
    )
