-- ===== src/Memberships/Provisioned.antt =====
-- What the calls of `Memberships.Changes` that return leave in the identity provider.
use rpsd_config.Common.{
  ℕ, ◌≡◌, ◌≢◌, refl, sym, ap, ◌∙◌, String, Bool, true, false, Option, none, some, Result, ok, err,
  str_eq, eq_iff, Bool-cases, Result-cases, inl, inr, ◌⊎◌,
}
use rpsd_config.Models.{Agency, AgencyRole, AgencyMembership}
use mathlib.Core.Path.{subst}
use rpsd_config.Texts.{is_empty}
use rpsd_config.Memberships.Provider.{
  GroupRef, KeycloakAdminService, IsProvider, World, MembershipError, called, attempted,
}
use rpsd_config.Memberships.Writes.{update_or_create-stored, save_fields-stored}
use rpsd_config.Memberships.Calls.{Call, assignment, role_change, revocation, run}
use rpsd_config.Rbac.{agency_role_to_group_path}
use rpsd_config.Memberships.Enrolment.{
  ensure_actor_can_manage_agency, validate_role, keycloak_user_id_for_user, DirectoryUser, Enrolled,
  enroll,
}
use rpsd_config.Memberships.Stored.{
  effective_role, existing_membership, as_sync_error, Grant, with_role, as_revoked_by,
}
use rpsd_config.Memberships.Changes.{
  permission, pk_of_actor, AssignmentRequest, after_removal, known_user_id, group_path, Subject,
  leave_old_group, remove_from, assign_agency_membership, change_agency_membership_role,
  revoke_agency_membership,
}

module _ {K : Type 0} (kc : KeycloakAdminService K) (is_member : K → String → String → Bool) where
  -- The user of the provider is that of the social account, if there is one.
  abbrev pub IsOf : (ℕ → String) → DirectoryUser → String → Type 0
  IsOf social_uid user user_id =
      (is_empty (social_uid user.pk) ≡ true) ⊎ (user_id ≡ social_uid user.pk)

  -- What the provider answered to the call that makes sure of the groups of an agency.
  abbrev pub AreGroups : K → Agency → (AgencyRole → GroupRef) → Type 0
  AreGroups start agency groups = (kc.ensure_agency_groups agency.agency_key start).0 ≡ ok groups

  -- The user is in the group of the role.
  abbrev IsEnrolled :
      (ℕ → String)
      → K
      → Agency
      → DirectoryUser
      → AgencyRole
      → Result MembershipError Enrolled
      → K
      → Type 0
  IsEnrolled social_uid start agency user role (ok e) k =
      (groups : AgencyRole → GroupRef) × AreGroups start agency groups
      × (e.group ≡ groups role)
      × IsOf social_uid user e.user_id
      × (is_member k e.user_id e.group.id ≡ true)
  IsEnrolled social_uid start agency user role (err e) k = Unit

  -- The stored membership names the group of its role in the agency, and the user is in it.
  abbrev pub IsIn :
      (ℕ → String) → DirectoryUser → AgencyMembership → (AgencyRole → GroupRef) → K → Type 0
  IsIn social_uid user m groups k =
      (m.keycloak_group_path ≡ (groups m.role).path)
      × IsOf social_uid user m.keycloak_user_id
      × (is_member k m.keycloak_user_id (groups m.role).id ≡ true)

  abbrev pub IsOut : String → Option GroupRef → K → Type 0
  IsOut user_id none k = Unit
  IsOut user_id (some g) k = is_member k user_id g.id ≡ false

  abbrev pub IsOutOrStays : String → GroupRef → Option GroupRef → K → Type 0
  IsOutOrStays user_id group none k = Unit
  IsOutOrStays user_id group (some g) k = (g.id ≡ group.id) ⊎ (is_member k user_id g.id ≡ false)

  -- `found` is what the provider answered, in the state `asked`, when it was asked for the path.
  abbrev pub LooksUp : String → K → Option GroupRef → Type 0
  LooksUp path asked found = (kc.get_group_by_path path asked).0 ≡ ok found

  -- A call that returns leaves the user in the group of the stored role, and not in the group of the
  -- role that was lost, which is looked up after the enrolment of a change, or first by a revocation.
  abbrev pub IsProvisioned :
      (ℕ → String) → String → Call → World K → Result MembershipError AgencyMembership → K → Type 0
  IsProvisioned social_uid root c w (err e) k = Unit
  IsProvisioned social_uid root (assignment now a) w (ok m) k =
      (groups : AgencyRole → GroupRef) × AreGroups w.provider a.agency groups
      × IsIn social_uid a.user m groups k
  IsProvisioned social_uid root (role_change now s text) w (ok m) k =
      (groups : AgencyRole → GroupRef) × (old : Option GroupRef) × AreGroups w.provider s.agency
        groups
      × IsIn social_uid s.user m groups k
      × LooksUp (agency_role_to_group_path root s.agency.agency_key s.membership.role)
          (enroll kc social_uid s.agency s.user m.role w).1.provider old
      × IsOutOrStays m.keycloak_user_id (groups m.role) old k
  IsProvisioned social_uid root (revocation now s) w (ok m) k =
      (old : Option GroupRef) × LooksUp (group_path root s) w.provider old
      × ((is_empty s.membership.keycloak_user_id ≡ true)
          ⊎ (m.keycloak_user_id ≡ s.membership.keycloak_user_id))
      × IsOut m.keycloak_user_id old k

  -- What leaves the group of the old role, but for the new group.
  abbrev Leaves : String → Enrolled → K → Result String (Unit {0}) → K → Type 0
  Leaves path enrolled start (err e) k = Unit
  Leaves path enrolled start (ok done) k =
      (old : Option GroupRef) × (is_member k enrolled.user_id enrolled.group.id ≡ true)
      × LooksUp path start old
      × IsOutOrStays enrolled.user_id enrolled.group old k

  module _ (laws : IsProvider kc is_member) (social_uid : ℕ → String) (root : String) where
    user_id-IsOf :
        (user : DirectoryUser) (w : World K) (user_id : String)
        → (keycloak_user_id_for_user kc social_uid user w).0 ≡ ok user_id
        → IsOf social_uid user user_id
    unfolding keycloak_user_id_for_user
    user_id-IsOf user w user_id h = elim (Bool-cases (is_empty (social_uid user.pk))) [
      | inl e ↦ inl e
      | inr e ↦ let h' = rw e at h in inr (cc)
    ]

    enroll-IsEnrolled :
        (agency : Agency) (user : DirectoryUser) (role : AgencyRole) (w : World K)
        → IsEnrolled social_uid w.provider agency user role
            (enroll kc social_uid agency user role w).0
            (enroll kc social_uid agency user role w).1.provider
    unfolding enroll
    enroll-IsEnrolled agency user role w =
        let looked_up = called (kc.ensure_agency_groups agency.agency_key) w in
        let known = keycloak_user_id_for_user kc social_uid user looked_up.1 in
        elim (Result-cases (kc.ensure_agency_groups agency.agency_key w.provider).0) [
          | inr (e, p) ↦ rw (p, enroll) tt
          | inl (groups, p) ↦ elim (Result-cases known.0) [
            | inr (e, q) ↦ rw (p, enroll) (rw q tt)
            | inl (user_id, q) ↦
                let added = kc.assign_user_to_group user_id (groups role).id known.1.provider in
                elim (Result-cases added.0) [
                  | inr (e, r) ↦ rw (p, enroll) (rw q (rw r tt))
                  | inl (tt, r) ↦
                      let member = laws.added user_id (groups role).id known.1.provider r in
                      rw (p, enroll)
                        (rw q
                          (rw r (groups, p, refl, user_id-IsOf user looked_up.1 user_id q, member)))
                ]
          ]
        ]

    leave-Leaves :
        (path : String) (enrolled : Enrolled) (k : K)
        → is_member k enrolled.user_id enrolled.group.id ≡ true
        → Leaves path enrolled k
            (leave_old_group kc path enrolled k).0
            (leave_old_group kc path enrolled k).1
    unfolding leave_old_group
    leave-Leaves path enrolled k member =
        let looked_up = kc.get_group_by_path path k in
        let still = laws.looked_up path k enrolled.user_id enrolled.group.id ∙ member in
        elim (Result-cases looked_up.0) [
          | inr (e, p) ↦ rw (p, leave_old_group) tt
          | inl (none, p) ↦ rw (p, leave_old_group) (none, still, p, tt)
          | inl (some g, p) ↦ elim (Bool-cases (str_eq g.id enrolled.group.id)) [
            | inl q ↦
                rw (p, leave_old_group)
                  (rw q (some g, still, p, inl ((eq_iff g.id enrolled.group.id).0 q)))
            | inr q ↦
                let other : enrolled.group.id ≢ g.id =
                  λ e. let t = (eq_iff g.id enrolled.group.id).1 (sym e) in cc in
                elim (Result-cases
                  (kc.remove_user_from_group enrolled.user_id g.id looked_up.1).0) [
                    | inr (e, r) ↦ rw (p, leave_old_group) (rw q (rw r tt))
                    | inl (tt, r) ↦
                        rw (p, leave_old_group)
                          (rw q (
                            rw r (
                              some g,
                              laws.removed_only enrolled.user_id g.id looked_up.1 enrolled.user_id
                                    enrolled.group.id (inr other)
                                  ∙ still,
                              p,
                              inr (laws.removed enrolled.user_id g.id looked_up.1 r),
                            )))
                  ]
          ]
        ]

    enrolled_at :
        (agency : Agency) (user : DirectoryUser) (role : AgencyRole) (w : World K)
        (enrolled : Enrolled)
        → (enroll kc social_uid agency user role w).0 ≡ ok enrolled
        → IsEnrolled social_uid w.provider agency user role
            (ok enrolled)
            (enroll kc social_uid agency user role w).1.provider
    enrolled_at agency user role w enrolled c = rw c at (enroll-IsEnrolled agency user role w)

    assign-IsProvisioned :
        (now : ℕ) (a : AssignmentRequest) (w : World K)
        → IsProvisioned social_uid root
            (assignment now a)
            w
            (assign_agency_membership kc social_uid root now a w).0
            (assign_agency_membership kc social_uid root now a w).1.provider
    unfolding assign_agency_membership
    assign-IsProvisioned now a w = elim (Result-cases (permission root a)) [
      | inr (e, p) ↦ rw (p, assign_agency_membership) tt
      | inl (done, p) ↦ elim (Result-cases (validate_role a.role)) [
        | inr (e, q) ↦ rw (p, assign_agency_membership) (rw q tt)
        | inl (role, q) ↦
            let effective =
              effective_role a.preserve_higher_local_role
                (existing_membership a.agency.pk a.user.pk w) role in
            let after = enroll kc social_uid a.agency a.user effective w in
            elim (Result-cases after.0) [
              | inr (e, c) ↦ rw (p, assign_agency_membership) (rw q (rw c tt))
              | inl (enrolled, c) ↦
                  let given : Grant = record {
                    now = now;
                    actor_id = pk_of_actor a.actor;
                    role = effective;
                    source = a.source;
                    enrolled = enrolled;
                  } in
                  let (m, e, path, user_id, role_is, same) =
                    update_or_create-stored given a.agency.pk a.user.pk after.1 in
                  let (groups, answered, group_is, of_user, member) =
                    enrolled_at a.agency a.user effective w enrolled c in
                  rw (p, assign_agency_membership)
                    (rw q (
                      rw c (
                        rw e (
                          rw same (
                            groups,
                            answered,
                            (
                              rw role_is (path ∙ ap (λ (g : GroupRef). g.path) group_is),
                              rw user_id of_user,
                              rw role_is (rw user_id (rw (← group_is) member)),
                            ),
                          )))))
            ]
      ]
    ]

    removal-IsProvisioned :
        (now : ℕ) (s : Subject) (text : String) (role : AgencyRole) (enrolled : Enrolled)
        (removed : Result String (Unit {0})) (first w : World K) (groups : AgencyRole → GroupRef)
        → AreGroups first.provider s.agency groups
        → enrolled.group ≡ groups role
        → IsOf social_uid s.user enrolled.user_id
        → Leaves
            (agency_role_to_group_path root s.agency.agency_key s.membership.role)
            enrolled
            (enroll kc social_uid s.agency s.user role first).1.provider
            removed
            w.provider
        → IsProvisioned social_uid root
            (role_change now s text)
            first
            (after_removal now s role enrolled removed w).0
            (after_removal now s role enrolled removed w).1.provider
    unfolding with_role as_sync_error
    removal-IsProvisioned now s text role enrolled (ok done) first w groups answered group_is
          of_user (old, member, asked, out) =
        elim (save_fields-stored (with_role now s.actor.pk role enrolled) s.membership w) [
          | inl e ↦ rw e tt
          | inr (e, same) ↦ rw e (
              rw same (
                groups,
                old,
                answered,
                (ap (λ (g : GroupRef). g.path) group_is, of_user, rw (← group_is) member),
                asked,
                subst (λ (g : GroupRef). IsOutOrStays enrolled.user_id g old w.provider) group_is
                    out,
              ))
        ]
    removal-IsProvisioned now s text role enrolled (err message) first w groups answered group_is
          of_user left =
        elim (save_fields-stored (as_sync_error now s.actor.pk enrolled message) s.membership w) [
          | inl e ↦ rw e tt
          | inr (e, same) ↦ rw e tt
        ]

    change-IsProvisioned :
        (now : ℕ) (s : Subject) (text : String) (w : World K)
        → IsProvisioned social_uid root
            (role_change now s text)
            w
            (change_agency_membership_role kc social_uid root now s text w).0
            (change_agency_membership_role kc social_uid root now s text w).1.provider
    unfolding change_agency_membership_role
    change-IsProvisioned now s text w =
        elim (Result-cases (ensure_actor_can_manage_agency root s.actor s.agency)) [
          | inr (e, p) ↦ rw (p, change_agency_membership_role) tt
          | inl (done, p) ↦ elim (Result-cases (validate_role text)) [
            | inr (e, q) ↦ rw (p, change_agency_membership_role) (rw q tt)
            | inl (role, q) ↦
                let after = enroll kc social_uid s.agency s.user role w in
                elim (Result-cases after.0) [
                  | inr (e, c) ↦ rw (p, change_agency_membership_role) (rw q (rw c tt))
                  | inl (enrolled, c) ↦
                      let (groups, answered, group_is, of_user, member) =
                        enrolled_at s.agency s.user role w enrolled c in
                      let path =
                        agency_role_to_group_path root s.agency.agency_key s.membership.role in
                      rw (p, change_agency_membership_role)
                        (rw q (
                          rw c (
                            removal-IsProvisioned now s text role enrolled
                              (leave_old_group kc path enrolled after.1.provider).0 w
                              (attempted (leave_old_group kc path enrolled) after.1).1 groups
                              answered group_is of_user
                              (leave-Leaves path enrolled after.1.provider member))))
                ]
          ]
        ]

    remove_from-IsOut :
        (user_id : String) (old : Option GroupRef) (k : K) (done : Unit {0})
        → (remove_from kc user_id old k).0 ≡ ok done
        → IsOut user_id old (remove_from kc user_id old k).1
    remove_from-IsOut user_id none k done h = tt
    remove_from-IsOut user_id (some g) k tt h = laws.removed user_id g.id k h

    known_user_id-own :
        (s : Subject) (w : World K) (user_id : String)
        → (known_user_id kc social_uid root s w).0 ≡ ok user_id
        → (is_empty s.membership.keycloak_user_id ≡ true)
          ⊎ (user_id ≡ s.membership.keycloak_user_id)
    known_user_id-own s w user_id h = elim (Bool-cases (is_empty s.membership.keycloak_user_id)) [
      | inl e ↦ inl e
      | inr e ↦ let h' = rw e at h in inr (cc)
    ]

    revoke-IsProvisioned :
        (now : ℕ) (s : Subject) (w : World K)
        → IsProvisioned social_uid root
            (revocation now s)
            w
            (revoke_agency_membership kc social_uid root now s w).0
            (revoke_agency_membership kc social_uid root now s w).1.provider
    unfolding revoke_agency_membership as_revoked_by
    revoke-IsProvisioned now s w =
        let asked = kc.get_group_by_path (group_path root s) w.provider in
        let looked_up = called (kc.get_group_by_path (group_path root s)) w in
        let known = known_user_id kc social_uid root s looked_up.1 in
        elim (Result-cases (ensure_actor_can_manage_agency root s.actor s.agency)) [
          | inr (e, p) ↦ rw (p, revoke_agency_membership) tt
          | inl (done, p) ↦ elim (Result-cases asked.0) [
            | inr (e, q) ↦ rw (p, revoke_agency_membership) (rw q tt)
            | inl (group, q) ↦ elim (Result-cases known.0) [
              | inr (e, c) ↦ rw (p, revoke_agency_membership) (rw q (rw c tt))
              | inl (user_id, c) ↦
                  let removed = remove_from kc user_id group known.1.provider in
                  let left = called (remove_from kc user_id group) known.1 in
                  elim (Result-cases removed.0) [
                    | inr (e, d) ↦ rw (p, revoke_agency_membership) (rw q (rw c (rw d tt)))
                    | inl (done', d) ↦
                        elim (save_fields-stored (as_revoked_by now s.actor.pk user_id) s.membership
                          left.1) [
                            | inl e ↦
                                rw (p, revoke_agency_membership) (rw q (rw c (rw d (rw e tt))))
                            | inr (e, same) ↦
                                rw (p, revoke_agency_membership)
                                  (rw q (
                                    rw c (
                                      rw d (
                                        rw e (
                                          rw same (
                                            group,
                                            q,
                                            known_user_id-own s looked_up.1 user_id c,
                                            remove_from-IsOut user_id group known.1.provider done'
                                                d,
                                          ))))))
                          ]
                  ]
            ]
          ]
        ]

    -- Whatever assignment, change or revocation returns, with an identity provider that keeps what it
    -- documents: after an assignment or a change, the membership names the group that the provider
    -- answered for the stored role in the agency, and the user, who is that of the social account if
    -- there is one, is in it. After a change or a revocation, the user is not in the group that the
    -- provider found for the old path when the call asked for it, unless that is the new group.
    pub run-IsProvisioned :
        (c : Call) (w : World K)
        → IsProvisioned social_uid root c w
            (run kc social_uid root c w).0
            (run kc social_uid root c w).1.provider
    unfolding run
    run-IsProvisioned (assignment now a) w = assign-IsProvisioned now a w
    run-IsProvisioned (role_change now s text) w = change-IsProvisioned now s text w
    run-IsProvisioned (revocation now s) w = revoke-IsProvisioned now s w
