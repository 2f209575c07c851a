-- ===== src/Tests/Notices.antt =====
-- A centre with one user who was notified and one who was not.
use distributed_data_science.Prelude.{ℕ, refl, false, List, [], ◌∷◌, string_key}
use distributed_data_science.Notifications.{
  Notification, NotificationCenter, info, Call, sends, broadcasts, marks, empty, run,
}
use distributed_data_science.Notifications.Unread.{IsCounted, run-IsCounted}

abbrev notice : Notification
notice = record {
  id = "n1";
  type = info;
  title = "Job";
  message = "done";
  recipient = "ann";
  timestamp = 5;
  read = false;
  channel = "web";
  metadata = [];
}

abbrev calls : List (Call ℕ)
calls = sends notice ∷ broadcasts notice ∷ marks "n1" "ann" ∷ []

abbrev centre : NotificationCenter ℕ
centre = record {
  notifications = notice ∷ [];
  user_inbox = ("ann", notice ∷ []) ∷ [];
  unread_counts = ("ann", 1) ∷ [];
  listeners = [];
}

run-IsCounted_example : IsCounted (run (empty, 0) calls).0
run-IsCounted_example = run-IsCounted 0 calls (refl, (refl, (tt, tt)))
