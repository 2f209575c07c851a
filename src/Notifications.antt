-- ===== src/Notifications.antt =====
-- src/notifications/notification_center.cpp and include/notifications/notification_center.h.
-- `user_inbox_` and `unread_counts_` are dictionaries by user. A listener is code of the caller, a
-- function on the state of the world. Printing is left out but for what `print_summary` prints.
-- The counts are `int`s that are taken not to pass 2^31.
pub mod Unread
pub mod Summary
use distributed_data_science.Prelude.{
  ℕ, suc, ◌+◌, ◌-◌, Bool, true, false, not, ◌&&◌, ◌||◌, Option, none, some, String, List, [], ◌∷◌,
  ◌++◌, if◌then◌else◌, ◌==◌, ◌=?◌, string_key, length, keep,
}
use distributed_data_science.Prelude.Maps.{lookup, insert, has, lookup_or, map_values}

pub data NotificationType : Type 0 where
  info warning error success alert system user_type : NotificationType

pub record Notification : Type 0 where
  pub id : String
  pub type : NotificationType
  pub title : String
  pub message : String
  pub recipient : String
  pub timestamp : ℕ
  pub read : Bool
  pub channel : String
  pub metadata : List (String × String)

pub record NotificationCenter (W : Type 0) : Type 0 where
  pub notifications : List Notification
  pub user_inbox : List (String × List Notification)
  pub unread_counts : List (String × ℕ)
  pub listeners : List (Notification → W → W)

-- `for (auto& pair : user_inbox_) unread_counts_[pair.first]++;`
pub bump_each : List (String × List Notification) → List (String × ℕ) → List (String × ℕ)
bump_each [] counts = counts
bump_each ((user, ns) ∷ m) counts = bump_each m (insert user (lookup_or 0 user counts + 1) counts)

-- The loop of `mark_as_read`: the inbox, and how often `unread_counts_[user]--` is run.
pub mark_each : String → List Notification → List Notification × ℕ
mark_each id [] = ([], 0)
mark_each id (n ∷ ns) =
    let (ns', k) = mark_each id ns in
    if n.id =? id && not n.read then (record n { read = true } ∷ ns', suc k) else (n ∷ ns', k)

-- The lines of the loop: user, size of the inbox, unread. `unread_counts_.at` throws where the
-- user has no count (`none`).
pub summary_lines :
    List (String × ℕ) → List (String × List Notification) → Option (List (String × ℕ × ℕ))
summary_lines counts [] = some []
summary_lines counts ((user, ns) ∷ m) = elim (lookup user counts) [
  | none ↦ none
  | some k ↦ elim (summary_lines counts m) [
    | none ↦ none
    | some rest ↦ some ((user, length ns, k) ∷ rest)
  ]
]

pub data Call (W : Type 0) : Type 0 where
  sends broadcasts : Notification → Call W
  marks : String → String → Call W
  lists : String → Bool → Call W
  gets_count : String → Call W
  listens : (Notification → W → W) → Call W
  clears : String → Call W

module _ {W : Type 0} where
  pub empty : NotificationCenter W
  empty = record { notifications = []; user_inbox = []; unread_counts = []; listeners = [] }

  -- `user_inbox_[user]` and `unread_counts_[user]`, as values.
  pub inbox : NotificationCenter W → String → List Notification
  inbox c user = lookup_or [] user c.user_inbox

  pub unread : NotificationCenter W → String → ℕ
  unread c user = lookup_or 0 user c.unread_counts

  pub tell : List (Notification → W → W) → Notification → W → W
  tell [] n w = w
  tell (f ∷ fs) n w = tell fs n (f n w)

  pub send_notification : NotificationCenter W → Notification → W → NotificationCenter W × W
  unfolding inbox unread tell
  send_notification c n w = (
    record c {
      notifications = c.notifications ++ n ∷ [];
      user_inbox = insert n.recipient (inbox c n.recipient ++ n ∷ []) c.user_inbox;
      unread_counts = insert n.recipient (unread c n.recipient + 1) c.unread_counts;
    },
    tell c.listeners n w,
  )

  pub broadcast : NotificationCenter W → Notification → W → NotificationCenter W × W
  unfolding bump_each tell
  broadcast c n w = (
    record c {
      notifications = c.notifications ++ n ∷ [];
      user_inbox = map_values (λ user ns. ns ++ record n { recipient = user } ∷ []) c.user_inbox;
      unread_counts = bump_each c.user_inbox c.unread_counts;
    },
    tell c.listeners n w,
  )

  pub mark_as_read : NotificationCenter W → String → String → NotificationCenter W
  unfolding inbox unread mark_each
  mark_as_read c id user =
      let (ns, k) = mark_each id (inbox c user) in
      record c {
        user_inbox = insert user ns c.user_inbox;
        unread_counts =
            if k == 0 then c.unread_counts else insert user (unread c user - k) c.unread_counts;
      }

  -- Reading an inbox by `user_inbox_[user]` creates it.
  pub get_user_notifications :
      NotificationCenter W → String → Bool → NotificationCenter W × List Notification
  unfolding inbox
  get_user_notifications c user unread_only = (
    record c { user_inbox = insert user (inbox c user) c.user_inbox },
    keep (λ n. not unread_only || not n.read) (inbox c user),
  )

  pub get_unread_count : NotificationCenter W → String → NotificationCenter W × ℕ
  unfolding unread
  get_unread_count c user =
      (record c { unread_counts = insert user (unread c user) c.unread_counts }, unread c user)

  pub add_listener : NotificationCenter W → (Notification → W → W) → NotificationCenter W
  add_listener c f = record c { listeners = c.listeners ++ f ∷ [] }

  pub clear_user_notifications : NotificationCenter W → String → NotificationCenter W
  clear_user_notifications c user = record c {
    user_inbox = insert user [] c.user_inbox;
    unread_counts = insert user 0 c.unread_counts;
  }

  pub print_summary : NotificationCenter W → Option (ℕ × List (String × ℕ × ℕ))
  unfolding summary_lines
  print_summary c = elim (summary_lines c.unread_counts c.user_inbox) [
    | none ↦ none
    | some lines ↦ some (length c.notifications, lines)
  ]

  pub step : NotificationCenter W × W → Call W → NotificationCenter W × W
  step (c, w) (sends n) = send_notification c n w
  step (c, w) (broadcasts n) = broadcast c n w
  step (c, w) (marks id user) = (mark_as_read c id user, w)
  step (c, w) (lists user unread_only) = ((get_user_notifications c user unread_only).0, w)
  step (c, w) (gets_count user) = ((get_unread_count c user).0, w)
  step (c, w) (listens f) = (add_listener c f, w)
  step (c, w) (clears user) = (clear_user_notifications c user, w)

  pub run : NotificationCenter W × W → List (Call W) → NotificationCenter W × W
  run s [] = s
  run s (c ∷ cs) = run (step s c) cs
