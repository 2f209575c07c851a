-- ===== src/Notifications/Summary.antt =====
-- When `print_summary` throws: a user with an inbox has no unread count.
use distributed_data_science.Prelude.{
  ℕ, ◌+◌, ◌≡◌, refl, inl, inr, Bool, true, false, none, some, String, List, [], ◌∷◌, ◌++◌, arith,
  if◌then◌else◌, =?_iff, =?_refl, string_key, Option-cases, All, length,
}
use distributed_data_science.Prelude.Maps.{
  lookup, insert, has, lookup_or, has-lookup, has-insert, has-map_values,
}
use distributed_data_science.Notifications.{
  Notification, NotificationCenter, Call, sends, broadcasts, marks, lists, gets_count, listens,
  clears, bump_each, empty, inbox, unread, send_notification, broadcast, get_user_notifications,
  get_unread_count, add_listener, clear_user_notifications, summary_lines, print_summary, step, run,
}

abbrev Inboxes : Type 0
Inboxes = List (String × List Notification)

lines_missing :
    (user : String) (counts : List (String × ℕ)) (m : Inboxes)
    → has user m ≡ true
    → has user counts ≡ false
    → summary_lines counts m ≡ none
unfolding summary_lines has
lines_missing user counts [] h e = ground arith
lines_missing user counts ((j, ns) ∷ m) h e =
    ground (arith, =?_iff j user, has-lookup j counts, lines_missing user counts m)

lines_total :
    (counts : List (String × ℕ)) (m : Inboxes)
    → ((user : String) → has user m ≡ true → has user counts ≡ true)
    → (lines : List (String × ℕ × ℕ)) × (summary_lines counts m ≡ some lines)
unfolding summary_lines has
lines_total counts [] h = ([], refl)
lines_total counts ((j, ns) ∷ m) h =
    let (rest, e) = lines_total counts m (λ user here. h user (ground arith)) in
    elim (Option-cases (lookup j counts)) [
      | inl gone ↦ absurd (ground (arith, h j, =?_refl j, has-lookup j counts))
      | inr (k, found) ↦ ((j, length ns, k) ∷ rest, rw (found, e, summary_lines))
    ]

-- Each user who has an inbox has a count.
abbrev IsKnown : {W : Type 0} → NotificationCenter W → Type 0
IsKnown c = (user : String) → has user c.user_inbox ≡ true → has user c.unread_counts ≡ true

bump_each-has :
    (m : Inboxes) (counts : List (String × ℕ)) (user : String)
    → has user (bump_each m counts) ≡ (if has user m then true else has user counts)
unfolding bump_each has
bump_each-has [] counts user = refl
bump_each-has ((j, ns) ∷ m) counts user = ground (
  arith,
  has-insert j user (lookup_or 0 j counts + 1) counts,
  bump_each-has m (insert j (lookup_or 0 j counts + 1) counts) user,
)

-- Not a call that reads an inbox by `user_inbox_[user]`.
abbrev pub IsWriting : {W : Type 0} → Call W → Type 0
IsWriting (marks id user) = ⊥
IsWriting (lists user unread_only) = ⊥
IsWriting _ = Unit {0}

module _ {W : Type 0} where
  step-IsKnown :
      (c : NotificationCenter W) (w : W) (call : Call W)
      → IsWriting call
      → IsKnown c
      → IsKnown (step (c, w) call).0
  unfolding step send_notification broadcast get_unread_count add_listener clear_user_notifications
      inbox unread
  step-IsKnown c w (sends n) p v user here = ground (
    arith,
    v user,
    has-insert n.recipient user (lookup_or [] n.recipient c.user_inbox ++ n ∷ []) c.user_inbox,
    has-insert n.recipient user (lookup_or 0 n.recipient c.unread_counts + 1) c.unread_counts,
  )
  step-IsKnown c w (broadcasts n) p v user here = ground (
    arith,
    v user,
    has-map_values (λ j ns. ns ++ record n { recipient = j } ∷ []) user c.user_inbox,
    bump_each-has c.user_inbox c.unread_counts user,
  )
  step-IsKnown c w (marks id who) p v user here = absurd p
  step-IsKnown c w (lists who unread_only) p v user here = absurd p
  step-IsKnown c w (gets_count who) p v user here =
      ground
        (arith, v user here, has-insert who user (lookup_or 0 who c.unread_counts) c.unread_counts)
  step-IsKnown c w (listens f) p v user here = v user here
  step-IsKnown c w (clears who) p v user here =
      ground
        (arith, v user, has-insert who user [] c.user_inbox, has-insert who user 0 c.unread_counts)

  run-IsKnown :
      (c : NotificationCenter W) (w : W) (calls : List (Call W))
      → All IsWriting calls
      → IsKnown c
      → IsKnown (run (c, w) calls).0
  unfolding run
  run-IsKnown c w [] p v = v
  run-IsKnown c w (call ∷ calls) p v =
      let (c', w') = step (c, w) call in run-IsKnown c' w' calls p.1 (step-IsKnown c w call p.0 v)

  -- If no inbox was read through `mark_as_read` or `get_user_notifications`, then after any calls
  -- on a new centre the summary is printed, and says how many notifications there were.
  pub print_summary_prints :
      (w : W) (calls : List (Call W))
      → All IsWriting calls
      → let c = (run (empty, w) calls).0 in
        (lines : List (String × ℕ × ℕ)) × (print_summary c ≡ some (length c.notifications, lines))
  unfolding print_summary
  print_summary_prints w calls p =
      let known : IsKnown (run (empty, w) calls).0 =
        run-IsKnown empty w calls p (unfold empty has in λ user here. ground arith) in
      let (lines, e) = lines_total _ _ known in (lines, rw (e, print_summary))

  -- But listing the notifications of a user who has no count (never notified, say) creates an empty
  -- inbox with no count, and from then on `print_summary` throws.
  pub print_summary_throws :
      (c : NotificationCenter W) (user : String) (unread_only : Bool)
      → has user c.unread_counts ≡ false
      → print_summary (get_user_notifications c user unread_only).0 ≡ none
  unfolding print_summary get_user_notifications
  print_summary_throws c user unread_only h =
      let missing =
        lines_missing user c.unread_counts (insert user (inbox c user) c.user_inbox)
          (ground (arith, has-insert user user (inbox c user) c.user_inbox, =?_refl user)) h in
      rw (missing, print_summary)
