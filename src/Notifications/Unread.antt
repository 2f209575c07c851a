-- ===== src/Notifications/Unread.antt =====
-- The unread counts against the inboxes.
use distributed_data_science.Prelude.{
  ℕ, ◌+◌, ◌-◌, ◌≤◌, ◌≡◌, refl, Bool, false, not, ◌&&◌, String, List, [], ◌∷◌, ◌++◌, arith,
  if◌then◌else◌, ◌=?◌, =?_iff, string_key, count_if, count_if-append, All,
}
use distributed_data_science.Prelude.Maps.{
  lookup, insert, has, lookup_or, Distinct, lookup_or-insert, insert-Distinct, lookup_or-map_values,
  map_values-Distinct, lookup_or_missing,
}
use distributed_data_science.Notifications.{
  Notification, NotificationCenter, Call, sends, broadcasts, marks, lists, gets_count, listens,
  clears, bump_each, mark_each, empty, inbox, unread, send_notification, broadcast, mark_as_read,
  get_user_notifications, get_unread_count, add_listener, clear_user_notifications, step, run,
}

abbrev pub is_unread : Notification → Bool
is_unread n = not n.read

pub mark_each-count :
    (id : String) (ns : List Notification)
    → count_if is_unread ns ≡ count_if is_unread (mark_each id ns).0 + (mark_each id ns).1
unfolding mark_each
mark_each-count id [] = omega arith
mark_each-count id (n ∷ ns) = ground (arith, mark_each-count id ns)

bump_each-lookup :
    (m : List (String × List Notification)) (counts : List (String × ℕ)) (user : String)
    → Distinct m
    → lookup_or 0 user (bump_each m counts)
      ≡ (if has user m then lookup_or 0 user counts + 1 else lookup_or 0 user counts)
unfolding bump_each has
bump_each-lookup [] counts user d = refl
bump_each-lookup ((j, ns) ∷ m) counts user d = ground (
  arith,
  =?_iff j user,
  lookup_or-insert 0 j user (lookup_or 0 j counts + 1) counts,
  bump_each-lookup m (insert j (lookup_or 0 j counts + 1) counts) user d.1,
)

module _ {W : Type 0} where
  -- Each user has one inbox, and the count of unread notifications covers it.
  pub record IsCovered (c : NotificationCenter W) : Type 0 where
    pub distinct : Distinct c.user_inbox
    pub covered : (user : String) → count_if is_unread (inbox c user) ≤ unread c user

  -- The count of each user is the number of unread notifications in the inbox.
  pub record IsCounted (c : NotificationCenter W) : Type 0 where
    pub distinct : Distinct c.user_inbox
    pub counted : (user : String) → unread c user ≡ count_if is_unread (inbox c user)

  -- A notification that is sent is not marked as read beforehand.
  abbrev pub IsFresh : Call W → Type 0
  IsFresh (sends n) = n.read ≡ false
  IsFresh (broadcasts n) = n.read ≡ false
  IsFresh _ = Unit {0}

  send-counts :
      (c : NotificationCenter W) (n : Notification) (w : W) (user : String)
      → let d = (send_notification c n w).0 in
        let hit = n.recipient =? user in
        (count_if is_unread (inbox d user)
          ≡ count_if is_unread (inbox c user) + (if hit && is_unread n then 1 else 0))
        × (unread d user ≡ unread c user + (if hit then 1 else 0))
  unfolding send_notification inbox unread
  send-counts c n w user = ground (
    arith,
    =?_iff n.recipient user,
    lookup_or-insert [] n.recipient user (inbox c n.recipient ++ n ∷ []) c.user_inbox,
    lookup_or-insert 0 n.recipient user (unread c n.recipient + 1) c.unread_counts,
    count_if-append is_unread (inbox c n.recipient) (n ∷ []),
  )

  broadcast-counts :
      (c : NotificationCenter W) (n : Notification) (w : W) (user : String)
      → Distinct c.user_inbox
      → let d = (broadcast c n w).0 in
        let hit = has user c.user_inbox in
        (count_if is_unread (inbox d user)
          ≡ count_if is_unread (inbox c user) + (if hit && is_unread n then 1 else 0))
        × (unread d user ≡ unread c user + (if hit then 1 else 0))
  unfolding broadcast inbox unread
  broadcast-counts c n w user d = ground (
    arith,
    lookup_or-map_values (λ j ns. ns ++ record n { recipient = j } ∷ []) [] user c.user_inbox,
    lookup_or_missing [] user c.user_inbox,
    bump_each-lookup c.user_inbox c.unread_counts user d,
    count_if-append is_unread (inbox c user) (record n { recipient = user } ∷ []),
  )

  mark-counts :
      (c : NotificationCenter W) (id user other : String)
      → let d = mark_as_read c id user in
        let marked = (mark_each id (inbox c user)).1 in
        (count_if is_unread (inbox c other)
          ≡ count_if is_unread (inbox d other) + (if user =? other then marked else 0))
        × (unread d other ≡ unread c other - (if user =? other then marked else 0))
  unfolding mark_as_read inbox unread
  mark-counts c id user other = ground (
    arith,
    =?_iff user other,
    mark_each-count id (inbox c user),
    lookup_or-insert [] user other (mark_each id (inbox c user)).0 c.user_inbox,
    lookup_or-insert 0 user other (unread c user - (mark_each id (inbox c user)).1) c.unread_counts,
  )

  list-counts :
      (c : NotificationCenter W) (user other : String) (unread_only : Bool)
      → inbox (get_user_notifications c user unread_only).0 other ≡ inbox c other
  unfolding get_user_notifications inbox
  list-counts c user other unread_only =
      ground (arith, =?_iff user other, lookup_or-insert [] user other (inbox c user) c.user_inbox)

  get-counts :
      (c : NotificationCenter W) (user other : String)
      → unread (get_unread_count c user).0 other ≡ unread c other
  unfolding get_unread_count unread
  get-counts c user other =
      ground
        (arith, =?_iff user other, lookup_or-insert 0 user other (unread c user) c.unread_counts)

  clear-counts :
      (c : NotificationCenter W) (user other : String)
      → let d = clear_user_notifications c user in
        (inbox d other ≡ (if user =? other then [] else inbox c other))
        × (unread d other ≡ (if user =? other then 0 else unread c other))
  unfolding clear_user_notifications inbox unread
  clear-counts c user other = (
    lookup_or-insert [] user other [] c.user_inbox,
    lookup_or-insert 0 user other 0 c.unread_counts,
  )

  step-Distinct :
      (c : NotificationCenter W) (w : W) (call : Call W)
      → Distinct c.user_inbox
      → Distinct (step (c, w) call).0.user_inbox
  unfolding step send_notification broadcast mark_as_read get_user_notifications get_unread_count
      add_listener clear_user_notifications
  step-Distinct c w (sends n) d = insert-Distinct n.recipient _ c.user_inbox d
  step-Distinct c w (broadcasts n) d = map_values-Distinct _ c.user_inbox d
  step-Distinct c w (marks id user) d = insert-Distinct user _ c.user_inbox d
  step-Distinct c w (lists user unread_only) d = insert-Distinct user _ c.user_inbox d
  step-Distinct c w (gets_count user) d = d
  step-Distinct c w (listens f) d = d
  step-Distinct c w (clears user) d = insert-Distinct user [] c.user_inbox d

  listen-counts :
      (c : NotificationCenter W) (f : Notification → W → W) (user : String)
      → (inbox (add_listener c f) user ≡ inbox c user)
        × (unread (add_listener c f) user ≡ unread c user)
  unfolding add_listener inbox unread
  listen-counts c f user = (refl, refl)

  list-keeps_counts :
      (c : NotificationCenter W) (user other : String) (unread_only : Bool)
      → unread (get_user_notifications c user unread_only).0 other ≡ unread c other
  unfolding get_user_notifications unread
  list-keeps_counts c user other unread_only = refl

  get-keeps_inbox :
      (c : NotificationCenter W) (user other : String)
      → inbox (get_unread_count c user).0 other ≡ inbox c other
  unfolding get_unread_count inbox
  get-keeps_inbox c user other = refl

  step-covered :
      (c : NotificationCenter W) (w : W) (call : Call W) (user : String)
      → Distinct c.user_inbox
      → count_if is_unread (inbox c user) ≤ unread c user
      → count_if is_unread (inbox (step (c, w) call).0 user) ≤ unread (step (c, w) call).0 user
  unfolding step
  step-covered c w (sends n) user d h = ground (arith, send-counts c n w user)
  step-covered c w (broadcasts n) user d h = ground (arith, broadcast-counts c n w user d)
  step-covered c w (marks id who) user d h = ground (arith, mark-counts c id who user)
  step-covered c w (lists who unread_only) user d h =
      rw (list-counts c who user unread_only, list-keeps_counts c who user unread_only) h
  step-covered c w (gets_count who) user d h =
      rw (get-keeps_inbox c who user, get-counts c who user) h
  step-covered c w (listens f) user d h =
      rw ((listen-counts c f user).0, (listen-counts c f user).1) h
  step-covered c w (clears who) user d h = ground (arith, clear-counts c who user)

  run-IsCovered_from :
      (c : NotificationCenter W) (w : W) (calls : List (Call W))
      → IsCovered c
      → IsCovered (run (c, w) calls).0
  unfolding run
  run-IsCovered_from c w [] v = v
  run-IsCovered_from c w (call ∷ calls) v =
      let (c', w') = step (c, w) call in
      run-IsCovered_from c' w' calls (record {
        distinct = step-Distinct c w call v.distinct;
        covered = λ user. step-covered c w call user v.distinct (v.covered user);
      })

  -- After any calls on a new centre each user has at most one inbox, and a count that is at least
  -- the number of unread notifications in it; so no `unread_counts_[user]--` goes below zero.
  run-IsCovered : (w : W) (calls : List (Call W)) → IsCovered (run (empty, w) calls).0
  unfolding empty inbox unread lookup_or lookup
  run-IsCovered w calls =
      run-IsCovered_from empty w calls (record { distinct = tt; covered = λ user. omega arith })

  step-counted :
      (c : NotificationCenter W) (w : W) (call : Call W) (user : String)
      → Distinct c.user_inbox
      → IsFresh call
      → unread c user ≡ count_if is_unread (inbox c user)
      → unread (step (c, w) call).0 user ≡ count_if is_unread (inbox (step (c, w) call).0 user)
  unfolding step
  step-counted c w (sends n) user d r h = ground (arith, send-counts c n w user)
  step-counted c w (broadcasts n) user d r h = ground (arith, broadcast-counts c n w user d)
  step-counted c w (marks id who) user d r h = ground (arith, mark-counts c id who user)
  step-counted c w (lists who unread_only) user d r h =
      rw (list-counts c who user unread_only, list-keeps_counts c who user unread_only) h
  step-counted c w (gets_count who) user d r h =
      rw (get-keeps_inbox c who user, get-counts c who user) h
  step-counted c w (listens f) user d r h =
      rw ((listen-counts c f user).0, (listen-counts c f user).1) h
  step-counted c w (clears who) user d r h = ground (arith, clear-counts c who user)

  run-IsCounted_from :
      (c : NotificationCenter W) (w : W) (calls : List (Call W))
      → All IsFresh calls
      → IsCounted c
      → IsCounted (run (c, w) calls).0
  unfolding run
  run-IsCounted_from c w [] f v = v
  run-IsCounted_from c w (call ∷ calls) f v =
      let (c', w') = step (c, w) call in
      run-IsCounted_from c' w' calls f.1 (record {
        distinct = step-Distinct c w call v.distinct;
        counted = λ user. step-counted c w call user v.distinct f.0 (v.counted user);
      })

  -- If no notification is sent or broadcast already marked as read, then after any calls on a new
  -- centre the count of every user is the number of unread notifications in the inbox.
  pub run-IsCounted :
      (w : W) (calls : List (Call W)) → All IsFresh calls → IsCounted (run (empty, w) calls).0
  unfolding empty inbox unread lookup_or lookup
  run-IsCounted w calls f =
      run-IsCounted_from empty w calls f (record { distinct = tt; counted = λ user. refl })
