-- ===== src/Web/Errors/Outcomes.antt =====
-- What becomes of a thread that reports an error (src/web/web_server.cpp).
use distributed_data_science.Prelude.{
  ℕ, zero, suc, ap, ◌∙◌, ◌%◌, ◌^◌, string_key, codes, Bool-cases, inl, inr, ◌+◌, ◌≤◌, ◌<◌, ◌≡◌, ltb,
  drop, if◌then◌else◌, refl, Bool, true, false, String, List, [], ◌∷◌, ◌++◌, arith, length,
  length-append, length-drop,
}
use distributed_data_science.Prelude.Words.{increment}
use distributed_data_science.Prelude.Maps.{lookup_or, insert}
use distributed_data_science.Prelude.Mutex.{M, deadlock, returns}
use distributed_data_science.Web.Errors.{
  Errors, HttpResponse, Moment, log_entry, append_entry, note_error, log_error, handle_client_error,
  handle_server_error,
}

drop-append_one :
    {A : Type 0} (k : ℕ) (xs : List A) (x : A)
    → k ≤ length xs
    → drop k (xs ++ x ∷ []) ≡ drop k xs ++ x ∷ []
drop-append_one zero xs x h = refl
drop-append_one (suc k) [] x h = absurd (omega arith)
drop-append_one (suc k) (y ∷ xs) x h = drop-append_one k xs x (omega arith)

-- The text of an error in the log.
unfoldable pub line_of : Moment → String → List ℕ → List ℕ → List ℕ
line_of m error_type message [] =
    codes "[" ++ m.timestamp ++ codes "] " ++ codes error_type ++ codes ": " ++ message
line_of m error_type message (c ∷ details) =
    (codes "[" ++ m.timestamp ++ codes "] " ++ codes error_type ++ codes ": " ++ message)
    ++ codes " | "
    ++ (c ∷ details)

log_entry-line_of :
    (m : Moment) (error_type : String) (message details : List ℕ)
    → log_entry m error_type message details ≡ line_of m error_type message details
unfolding log_entry line_of
log_entry-line_of m error_type message [] = refl
log_entry-line_of m error_type message (c ∷ details) = refl

-- What is left of a log before one more line: all of it, or all but the five hundred oldest.
unfoldable pub room_for_one : List (List ℕ) → List (List ℕ)
room_for_one log = if ltb (length log) 1000 then log else drop 500 log

append_entry-room_for_one :
    (entry : List ℕ) (log : List (List ℕ)) → append_entry entry log ≡ room_for_one log ++ entry ∷ []
unfolding append_entry room_for_one
append_entry-room_for_one entry log = elim (Bool-cases (ltb (length log) 1000)) [
  | inl few ↦
      let fits : ltb 1000 (length (log ++ entry ∷ [])) ≡ false =
        ground (arith, length-append log (entry ∷ [])) in
      rw (few, fits) refl
  | inr many ↦
      let over : ltb 1000 (length (log ++ entry ∷ [])) ≡ true =
        ground (arith, length-append log (entry ∷ [])) in
      rw (many, over) (drop-append_one 500 log entry (ground arith))
]

shortened :
    (limit gone : ℕ) (log : List (List ℕ))
    → 0 < limit
    → 0 < gone
    → length log ≤ limit
    → length (if ltb (length log) limit then log else drop gone log) < limit
shortened limit gone log some_room some_gone h = ground (arith, length-drop gone log)

room_for_one-le : (log : List (List ℕ)) → length log ≤ 1000 → length (room_for_one log) < 1000
unfolding room_for_one
room_for_one-le log h = shortened 1000 500 log (omega arith) (omega arith) h

-- What `log_error` does if the mutex is free and the log has at most a thousand lines: the line of the
-- error, with its time, type, message and details, is put at the end of the log, which loses its five hundred
-- oldest lines if it is full, so that it has at most a thousand again, and the errors of the type are
-- one more, modulo 2^64. But `handle_client_error` and `handle_server_error` never return, whatever
-- the state and the recovery are: they hold `error_mutex_` when they call `log_error`.
pub errors_outcome :
    (m : Moment) (recover : M Errors (Unit {0})) (error_type : String) (message details : List ℕ)
    (code : ℕ) (res : HttpResponse) (held : Bool) (e : Errors)
    → length e.error_log ≤ 1000
    → (log_error m error_type message details false e
        ≡ returns (
          tt,
          record e {
            error_log = room_for_one e.error_log ++ line_of m error_type message details ∷ [];
            error_counts =
                insert error_type
                  ((lookup_or 0 error_type e.error_counts + 1) % 2 ^ 64)
                  e.error_counts;
          },
        ))
      × (length (room_for_one e.error_log ++ line_of m error_type message details ∷ []) ≤ 1000)
      × (handle_client_error m code message res held e ≡ deadlock)
      × (handle_server_error m recover message res held e ≡ deadlock)
unfolding log_error handle_client_error handle_server_error note_error increment
errors_outcome m recover error_type message details code res held e h =
    let entry = log_entry-line_of m error_type message details in
    let line = line_of m error_type message details in
    (
      ap
          (λ log. returns (
            tt,
            record e {
              error_log = log;
              error_counts =
                  insert error_type ((lookup_or 0 error_type e.error_counts + 1) % 2 ^ 64)
                    e.error_counts;
            },
          ))
          (ap (λ l. append_entry l e.error_log) entry ∙ append_entry-room_for_one line e.error_log),
      omega (
        arith,
        length-append (room_for_one e.error_log) (line ∷ []),
        room_for_one-le e.error_log h,
      ),
      stuck_client held,
      stuck_server held,
    )
  where
    stuck_client : (b : Bool) → handle_client_error m code message res b e ≡ deadlock
    stuck_client true = refl
    stuck_client false = refl

    stuck_server : (b : Bool) → handle_server_error m recover message res b e ≡ deadlock
    stuck_server true = refl
    stuck_server false = refl
