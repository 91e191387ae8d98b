-- ===== src/Memberships/Writes.antt =====
-- What an enrolment and the writes of `Memberships.Stored` do to the table of roles, and what they store.
use rpsd_config.Common.{
  List, Result, raise_if, update_rows, find-update_rows, find-eq-none, exists_row-In, ℕ, ◌≡◌, refl,
  String, Bool, true, false, Option, none, some, ok, err, >>=-post, exists_row, find, find-In,
  In-exists_row, arith, ltb, Bool-cases, Option-cases, inl, inr, ◌⊎◌,
}
use rpsd_config.Texts.{is_empty}
use rpsd_config.Models.{Agency, AgencyRole, role_rank, AgencyMembership}
use rpsd_config.Memberships.{of_user}
use rpsd_config.Memberships.Provider.{
  KeycloakAdminService, World, MembershipError, permission_denied, unsupported_role, no_email,
  row_is_gone, provisioning_failed, removal_failed, failed, called,
}
use rpsd_config.Rbac.{User}
use rpsd_config.Memberships.Enrolment.{
  ensure_actor_can_manage_agency, role_of_text, validate_role, DirectoryUser,
  keycloak_user_id_for_user, enroll,
}
use rpsd_config.Memberships.Stored.{
  effective_role, Grant, first_assigned, assigned, update_or_create, save_fields,
}
use rpsd_config.Memberships.Calls.{Call, floor, IsHighest, HasSameRoles, Implements}
use rpsd_config.Memberships.Changes.{check_actor, permission, AssignmentRequest}
use rpsd_config.Memberships.Roles.{role_of, holds, put_role, update-put_role, append-put_role}

pub effective-IsHighest :
    (preserve : Bool) (existing : Option AgencyMembership) (role : AgencyRole)
    → IsHighest role (floor preserve existing) (effective_role preserve existing role)
unfolding effective_role
effective-IsHighest true none role = record {
  above_requested = omega arith;
  above_preserved = omega arith;
  is_either = inl refl;
}
effective-IsHighest false none role = record {
  above_requested = omega arith;
  above_preserved = omega arith;
  is_either = inl refl;
}
effective-IsHighest false (some m) role = record {
  above_requested = omega arith;
  above_preserved = omega arith;
  is_either = inl refl;
}
effective-IsHighest true (some m) role =
    elim (Bool-cases (ltb (role_rank role) (role_rank m.role))) [
      | inl e ↦ rw e (record {
        above_requested = ground arith;
        above_preserved = omega arith;
        is_either = inr refl;
      })
      | inr e ↦ rw e (record {
        above_requested = omega arith;
        above_preserved = ground arith;
        is_either = inl refl;
      })
    ]

-- An error of what comes before the removal from an old group.
abbrev pub IsEarly : MembershipError → Type 0
IsEarly (removal_failed message) = ⊥
IsEarly permission_denied = Unit
IsEarly unsupported_role = Unit
IsEarly no_email = Unit
IsEarly row_is_gone = Unit
IsEarly (provisioning_failed message) = Unit

abbrev pub RaisesEarly : {A : Type 0} → Result MembershipError A → Type 0
RaisesEarly (ok a) = Unit
RaisesEarly (err e) = IsEarly e

-- Such an error has to leave the roles.
pub early-Implements :
    (c : Call) (before : List AgencyMembership) (e : MembershipError)
    (after : List AgencyMembership)
    → IsEarly e
    → HasSameRoles before after
    → Implements c before (err e) after
early-Implements c before permission_denied after p h = h
early-Implements c before unsupported_role after p h = h
early-Implements c before no_email after p h = h
early-Implements c before row_is_gone after p h = h
early-Implements c before (provisioning_failed message) after p h = h
early-Implements c before (removal_failed message) after p h = absurd p

pub failed-RaisesEarly : {A : Type 0} (r : Result String A) → RaisesEarly (failed r)
failed-RaisesEarly (ok a) = tt
failed-RaisesEarly (err message) = tt

raise_if-RaisesEarly : (b : Bool) (e : MembershipError) → IsEarly e → RaisesEarly (raise_if b e)
raise_if-RaisesEarly true e p = p
raise_if-RaisesEarly false e p = tt

pub ensure-RaisesEarly :
    (root : String) (actor : User) (agency : Agency)
    → RaisesEarly (ensure_actor_can_manage_agency root actor agency)
unfolding ensure_actor_can_manage_agency
ensure-RaisesEarly root actor agency = raise_if-RaisesEarly _ permission_denied tt

check_actor-RaisesEarly :
    (root : String) (actor : Option User) (agency : Agency)
    → RaisesEarly (check_actor root actor agency)
check_actor-RaisesEarly root none agency = tt
check_actor-RaisesEarly root (some actor) agency = ensure-RaisesEarly root actor agency

pub permission-RaisesEarly :
    (root : String) (a : AssignmentRequest) → RaisesEarly (permission root a)
permission-RaisesEarly root a = elim (Bool-cases a.enforce_actor_permission) [
  | inl e ↦ rw e (check_actor-RaisesEarly root a.actor a.agency)
  | inr e ↦ rw e tt
]

pub validate_role-RaisesEarly : (role : String) → RaisesEarly (validate_role role)
validate_role-RaisesEarly role = elim (Option-cases (role_of_text role)) [
  | inl e ↦ rw e tt
  | inr (r, e) ↦ rw e tt
]

module _ {K : Type 0} (kc : KeycloakAdminService K) (social_uid : ℕ → String) where
  pub user_id-keeps :
      (user : DirectoryUser) (w : World K)
      → (keycloak_user_id_for_user kc social_uid user w).1.memberships ≡ w.memberships
  unfolding keycloak_user_id_for_user
  user_id-keeps user w = elim (Bool-cases (is_empty (social_uid user.pk))) [
    | inr e ↦ rw e refl
    | inl e ↦ elim (Bool-cases (is_empty user.email)) [
      | inl p ↦ rw e (rw p refl)
      | inr p ↦ rw e (rw p refl)
    ]
  ]

  pub user_id-RaisesEarly :
      (user : DirectoryUser) (w : World K)
      → RaisesEarly (keycloak_user_id_for_user kc social_uid user w).0
  unfolding keycloak_user_id_for_user
  user_id-RaisesEarly user w = elim (Bool-cases (is_empty (social_uid user.pk))) [
    | inr e ↦ rw e tt
    | inl e ↦ elim (Bool-cases (is_empty user.email)) [
      | inl p ↦ rw e (rw p tt)
      | inr p ↦ rw e (rw p (failed-RaisesEarly _))
    ]
  ]

  -- An enrolment writes no row, and its errors are early.
  pub enroll-keeps :
      (agency : Agency) (user : DirectoryUser) (role : AgencyRole) (w : World K)
      → RaisesEarly (enroll kc social_uid agency user role w).0
        × ((enroll kc social_uid agency user role w).1.memberships ≡ w.memberships)
  unfolding enroll
  enroll-keeps agency user role w =
      let looked_up = called (kc.ensure_agency_groups agency.agency_key) in
      let known = keycloak_user_id_for_user kc social_uid user in
      >>=-post _ (λ r w'. RaisesEarly r × (w'.memberships ≡ w.memberships)) looked_up w
        (λ e h. (
          rw h at (failed-RaisesEarly (kc.ensure_agency_groups agency.agency_key w.provider).0),
          refl,
        ))
        (λ groups h.
          >>=-post _ (λ r w'. RaisesEarly r × (w'.memberships ≡ w.memberships)) known
            (looked_up w).1
            (λ e h'. (
              rw h' at (user_id-RaisesEarly user (looked_up w).1),
              user_id-keeps user (looked_up w).1,
            ))
            (λ user_id h'.
              let added = kc.assign_user_to_group user_id (groups role).id in
              let w' = (known (looked_up w).1).1 in
              >>=-post _ (λ r w'. RaisesEarly r × (w'.memberships ≡ w.memberships)) (called added)
                w'
                (λ e h''. (
                  rw h'' at (failed-RaisesEarly (added w'.provider).0),
                  user_id-keeps user (looked_up w).1,
                ))
                (λ done h''. (tt, user_id-keeps user (looked_up w).1))))

-- What is stored is an active membership with the role.
pub update_or_create-put_role :
    {K : Type 0} (g : Grant) (agency_id user_id : ℕ) (w : World K)
    → (m : AgencyMembership) × ((update_or_create g agency_id user_id w).0 ≡ ok m)
      × (role_of (some m) ≡ some g.role)
      × ((a u : ℕ)
          → holds (update_or_create g agency_id user_id w).1.memberships a u
            ≡ put_role agency_id user_id (some g.role) (holds w.memberships) a u)
unfolding update_or_create first_assigned assigned
update_or_create-put_role g agency_id user_id w =
    elim (Option-cases (find (of_user agency_id user_id) w.memberships)) [
      | inl e ↦
          rw (e, update_or_create)
            (
              first_assigned g agency_id user_id,
              refl,
              refl,
              append-put_role agency_id user_id (first_assigned g agency_id user_id) w.memberships
                  refl refl e,
            )
      | inr (m, e) ↦
          let (mx, p) = find-In (of_user agency_id user_id) w.memberships e in
          rw (e, update_or_create)
            (
              assigned g m,
              refl,
              refl,
              update-put_role agency_id user_id (assigned g) (some g.role) w.memberships (λ y. refl)
                  (λ y. refl) (λ y. refl)
                  (In-exists_row (of_user agency_id user_id) w.memberships m mx p),
            )
    ]

-- The row of a user and an agency is found updated.
find-updated :
    (agency_id user_id : ℕ) (f : AgencyMembership → AgencyMembership) (rows : List AgencyMembership)
    → ((y : AgencyMembership) → (f y).agency_id ≡ y.agency_id)
    → ((y : AgencyMembership) → (f y).user_id ≡ y.user_id)
    → exists_row (of_user agency_id user_id) rows ≡ true
    → (y : AgencyMembership) × (find
          (of_user agency_id user_id)
          (update_rows (of_user agency_id user_id) f rows)
        ≡ some (f y))
find-updated agency_id user_id f rows fa fu e =
    let key = of_user agency_id user_id in
    elim (Option-cases (find key rows)) [
      | inl n ↦
          let (x, m, p) = exists_row-In key rows e in
          let q = find-eq-none key rows x n m in absurd (cc)
      | inr (y, h) ↦ (y, find-update_rows key f rows y (λ z p. rw (fa z) (rw (fu z) p)) h)
    ]

-- A save sets the role that its fields give and stores them, or raises before it.
pub save_fields-put_role :
    {K : Type 0} (f : AgencyMembership → AgencyMembership) (m : AgencyMembership)
    (given : Option AgencyRole) (w : World K)
    → ((y : AgencyMembership) → (f y).agency_id ≡ y.agency_id)
    → ((y : AgencyMembership) → (f y).user_id ≡ y.user_id)
    → ((y : AgencyMembership) → role_of (some (f y)) ≡ given)
    → (save_fields f m w ≡ (err row_is_gone, w))
      ⊎ (((save_fields f m w).0 ≡ ok (f m))
          × ((a u : ℕ)
              → holds (save_fields f m w).1.memberships a u
                ≡ put_role m.agency_id m.user_id given (holds w.memberships) a u)
          × ((y : AgencyMembership) × (find
                  (of_user m.agency_id m.user_id)
                  (save_fields f m w).1.memberships
                ≡ some (f y))))
unfolding save_fields
save_fields-put_role f m given w fa fu fr =
    elim (Bool-cases (exists_row (of_user m.agency_id m.user_id) w.memberships)) [
      | inr e ↦ inl (rw e refl)
      | inl e ↦ inr (
          rw e (
            refl,
            update-put_role m.agency_id m.user_id f given w.memberships fa fu fr e,
            find-updated m.agency_id m.user_id f w.memberships fa fu e,
          ))
    ]

-- A write does not touch the provider.
pub update_or_create-stored :
    {K : Type 0} (g : Grant) (agency_id user_id : ℕ) (w : World K)
    → (m : AgencyMembership) × ((update_or_create g agency_id user_id w).0 ≡ ok m)
      × (m.keycloak_group_path ≡ g.enrolled.group.path)
      × (m.keycloak_user_id ≡ g.enrolled.user_id)
      × (m.role ≡ g.role)
      × ((update_or_create g agency_id user_id w).1.provider ≡ w.provider)
unfolding update_or_create first_assigned assigned
update_or_create-stored g agency_id user_id w =
    elim (Option-cases (find (of_user agency_id user_id) w.memberships)) [
      | inl e ↦
          rw (e, update_or_create)
            (first_assigned g agency_id user_id, refl, refl, refl, refl, refl)
      | inr (m, e) ↦ rw (e, update_or_create) (assigned g m, refl, refl, refl, refl, refl)
    ]

pub save_fields-stored :
    {K : Type 0} (f : AgencyMembership → AgencyMembership) (m : AgencyMembership) (w : World K)
    → (save_fields f m w ≡ (err row_is_gone, w))
      ⊎ (((save_fields f m w).0 ≡ ok (f m)) × ((save_fields f m w).1.provider ≡ w.provider))
unfolding save_fields
save_fields-stored f m w =
    elim (Bool-cases (exists_row (of_user m.agency_id m.user_id) w.memberships)) [
      | inr e ↦ inl (rw (e, save_fields) refl)
      | inl e ↦ inr (rw (e, save_fields) (refl, refl))
    ]
