-- ===== src/Web/Accounts/Roles.antt =====
-- What a role may do, and who has the role.
use distributed_data_science.Prelude.{
  ◌≡◌, refl, ◌∙◌, not, ◌&&◌, ◌||◌, String, List, [], ◌∷◌, ◌++◌, arith, inl, inr, string_key, ◌=?◌,
  =?_iff, =?_refl, Option-cases, keep,
}
use distributed_data_science.Prelude.Maps.{lookup, insert, lookup_or, lookup_or-insert}
use distributed_data_science.Web.Accounts.{
  Accounts, contains, any_grants, has_permission, get_user_roles, add_role_permission,
  remove_role_permission,
}

contains-append :
    (p : String) (l r : List String) → contains p (l ++ r) ≡ contains p l || contains p r
unfolding contains
contains-append p [] r = refl
contains-append p (q ∷ l) r = ground (arith, contains-append p l r)

contains-keep :
    (p q : String) (l : List String)
    → contains q (keep (λ x. not (x =? p)) l) ≡ not (p =? q) && contains q l
unfolding contains
contains-keep p q [] = ground arith
contains-keep p q (x ∷ l) = ground (arith, contains-keep p q l, =?_iff x p, =?_iff x q, =?_iff p q)

permission_roles :
    (user p : String) (a : Accounts)
    → has_permission user p a ≡ any_grants a.role_permissions p (get_user_roles user a)
unfolding has_permission get_user_roles any_grants lookup_or
permission_roles user p a = elim (Option-cases (lookup user a.user_roles)) [
  | inl e ↦ rw (e, has_permission, get_user_roles, lookup_or) refl
  | inr (roles, e) ↦ rw (e, has_permission, get_user_roles, lookup_or) refl
]

-- Two tables of permissions that differ in what one role grants.
any_grants-insert :
    (role p : String) (perms : List String) (table : List (String × List String))
    → (roles : List String)
    → any_grants (insert role perms table) p roles
      ≡ any_grants table p (keep (λ r. not (r =? role)) roles)
        || (contains role roles && contains p perms)
unfolding any_grants contains
any_grants-insert role p perms table [] = refl
any_grants-insert role p perms table (r ∷ roles) = ground (
  arith,
  any_grants-insert role p perms table roles,
  lookup_or-insert [] role r perms table,
  =?_iff r role,
  =?_iff role r,
)

any_grants_split :
    (role p : String) (table : List (String × List String)) (roles : List String)
    → any_grants table p roles
      ≡ any_grants table p (keep (λ r. not (r =? role)) roles)
        || (contains role roles && contains p (lookup_or [] role table))
unfolding any_grants contains
any_grants_split role p table [] = refl
any_grants_split role p table (r ∷ roles) =
    ground (arith, any_grants_split role p table roles, =?_iff r role)

contains_one : (p q : String) → contains p (q ∷ []) ≡ (q =? p)
unfolding contains
contains_one p q = ground arith

-- Adding a permission to a role gives it to exactly the users with that role, and takes none away.
add_role_permission-has_permission :
    (user role p q : String) (a : Accounts)
    → has_permission user p (add_role_permission role q a)
      ≡ has_permission user p a || ((q =? p) && contains role (get_user_roles user a))
unfolding add_role_permission get_user_roles
add_role_permission-has_permission user role p q a =
    let roles = get_user_roles user a in
    let table = a.role_permissions in
    let old = lookup_or [] role table in
    permission_roles user p (add_role_permission role q a)
    ∙ any_grants-insert role p (old ++ q ∷ []) table roles
    ∙ ground (
      arith,
      permission_roles user p a,
      any_grants_split role p table roles,
      contains-append p old (q ∷ []),
      contains_one p q,
    )

removed :
    (user role p q : String) (a : Accounts)
    → has_permission user p (remove_role_permission role q a)
      ≡ any_grants a.role_permissions p (keep (λ r. not (r =? role)) (get_user_roles user a))
        || (contains role (get_user_roles user a)
            && (not (q =? p) && contains p (lookup_or [] role a.role_permissions)))
unfolding remove_role_permission get_user_roles
removed user role p q a =
    let roles = get_user_roles user a in
    let table = a.role_permissions in
    permission_roles user p (remove_role_permission role q a)
    ∙ elim (Option-cases (lookup role table)) [
      | inl e ↦
          rw (e, remove_role_permission)
            (any_grants_split role p table roles
              ∙ unfold lookup_or in unfold contains in ground (arith, e))
      | inr (old, e) ↦
          rw (e, remove_role_permission)
            (any_grants-insert role p (keep (λ x. not (x =? q)) old) table roles
              ∙ unfold lookup_or in ground (arith, e, contains-keep q p old))
    ]

-- Removing a permission from a role leaves a user that permission only through the other roles, and
-- every other permission as it was.
pub remove_role_permission-has_permission :
    (user role p q : String) (a : Accounts)
    → (has_permission user q (remove_role_permission role q a)
        ≡ any_grants a.role_permissions q (keep (λ r. not (r =? role)) (get_user_roles user a)))
      × (¬ (q ≡ p)
          → has_permission user p (remove_role_permission role q a) ≡ has_permission user p a)
remove_role_permission-has_permission user role p q a = (
  removed user role q q a ∙ ground (arith, =?_refl q),
  λ different.
      removed user role p q a
      ∙ ground (
        arith,
        =?_iff q p,
        permission_roles user p a,
        any_grants_split role p a.role_permissions (get_user_roles user a),
      ),
)
