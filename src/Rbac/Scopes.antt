-- ===== src/Rbac/Scopes.antt =====
-- The agencies that the scope of a user administers are those of the user's groups.
use rpsd_config.Common.{
  String, ◌≡◌, ◌↔◌, refl, ap, Bool, true, false, Option, none, some, List, [], ◌∷◌, In, str_eq,
  eq_iff, arith, Bool-cases, inl, inr, ◌⊎◌,
}
use rpsd_config.Models.{AgencyRole, agency_admin, agency_editor, agency_reader}
use rpsd_config.Rbac.{
  User, AgencyScope, contains, match_group, add_assignment, scope_of_groups, user_groups,
  resolve_user_agency_scope,
}

-- Some group of the list gives the role of an administrator in the agency.
abbrev pub HasAdminGroup : String → String → List String → Type 0
HasAdminGroup root key groups =
    (group : String) × In group groups × (match_group root group ≡ some (key, agency_admin))

add_assignment-other :
    (o : Option (String × AgencyRole)) (scope : AgencyScope) (key : String)
    → contains key (add_assignment o scope).admin_agency_keys ≡ true
    → (contains key scope.admin_agency_keys ≡ true) ⊎ (o ≡ some (key, agency_admin))
unfolding contains
add_assignment-other none scope key h = inl h
add_assignment-other (some (k, agency_admin)) scope key h = elim (Bool-cases (str_eq k key)) [
  | inl e ↦ inr (ap (λ (j : String). some (j, agency_admin)) ((eq_iff k key).0 e))
  | inr e ↦ inl (ground (arith, e))
]
add_assignment-other (some (k, agency_editor)) scope key h = inl h
add_assignment-other (some (k, agency_reader)) scope key h = inl h

add_assignment-keeps :
    (o : Option (String × AgencyRole)) (scope : AgencyScope) (key : String)
    → contains key scope.admin_agency_keys ≡ true
    → contains key (add_assignment o scope).admin_agency_keys ≡ true
unfolding contains
add_assignment-keeps none scope key h = h
add_assignment-keeps (some (k, agency_admin)) scope key h = ground (arith, h)
add_assignment-keeps (some (k, agency_editor)) scope key h = h
add_assignment-keeps (some (k, agency_reader)) scope key h = h

add_assignment-adds :
    (scope : AgencyScope) (key : String)
    → contains key (add_assignment (some (key, agency_admin)) scope).admin_agency_keys ≡ true
unfolding contains
add_assignment-adds scope key =
    let same : str_eq key key ≡ true = (eq_iff key key).1 refl in ground (arith, same)

scope-HasAdminGroup :
    (root key : String) (platform_admin : Bool) (groups : List String)
    → contains key (scope_of_groups root platform_admin groups).admin_agency_keys ≡ true
    → HasAdminGroup root key groups
unfolding scope_of_groups contains
scope-HasAdminGroup root key b [] h = absurd (ground arith)
scope-HasAdminGroup root key b (group ∷ groups) h =
    elim (add_assignment-other (match_group root group) (scope_of_groups root b groups) key h) [
      | inl rest ↦ let (g, m, e) = scope-HasAdminGroup root key b groups rest in (g, inr m, e)
      | inr e ↦ (group, inl refl, e)
    ]

HasAdminGroup-scope :
    (root key : String) (platform_admin : Bool) (groups : List String)
    → HasAdminGroup root key groups
    → contains key (scope_of_groups root platform_admin groups).admin_agency_keys ≡ true
unfolding scope_of_groups
HasAdminGroup-scope root key b [] (g, m, e) = absurd m
HasAdminGroup-scope root key b (group ∷ groups) (g, m, e) = elim m [
  | inl same ↦
      let read : match_group root group ≡ some (key, agency_admin) = rw (← same) e in
      rw (read, scope_of_groups) (add_assignment-adds (scope_of_groups root b groups) key)
  | inr r ↦
      add_assignment-keeps (match_group root group) (scope_of_groups root b groups) key
        (HasAdminGroup-scope root key b groups (g, r, e))
]

-- The scope of a user who is no superuser administers an agency exactly when one of the user's
-- groups is read as its administrator group.
pub admin_agency_keys_lem :
    (root key : String) (user : User)
    → user.is_superuser ≡ false
    → (contains key (resolve_user_agency_scope root user).admin_agency_keys ≡ true)
      ↔ HasAdminGroup root key (user_groups user)
unfolding resolve_user_agency_scope
admin_agency_keys_lem root key user e = (
  λ h. scope-HasAdminGroup root key _ (user_groups user) (rw (e, resolve_user_agency_scope) at h),
  λ h. rw (e, resolve_user_agency_scope) (HasAdminGroup-scope root key _ (user_groups user) h),
)
