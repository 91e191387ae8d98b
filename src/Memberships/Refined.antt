-- ===== src/Memberships/Refined.antt =====
-- The calls of `Memberships.Changes` implement updates of the abstract table of roles.
use rpsd_config.Common.{
  ℕ, ◌≡◌, refl, ap, ◌∙◌, String, none, some, List, Result, ok, err, Result-cases, or_raise-eq-ok,
  Bool-cases, inl, inr,
}
use rpsd_config.Texts.{is_empty}
use rpsd_config.Models.{AgencyRole, AgencyMembership}
use rpsd_config.Rbac.{agency_role_to_group_path}
use rpsd_config.Memberships.Provider.{
  KeycloakAdminService, World, unsupported_role, called, attempted,
}
use rpsd_config.Memberships.Enrolment.{
  ensure_actor_can_manage_agency, role_of_text, validate_role, Enrolled, enroll,
}
use rpsd_config.Memberships.Stored.{
  effective_role, Grant, existing_membership, as_sync_error, with_role, as_revoked_by,
}
use rpsd_config.Memberships.Changes.{
  permission, pk_of_actor, AssignmentRequest, Subject, leave_old_group, after_removal, group_path,
  remove_from, assign_agency_membership, change_agency_membership_role, known_user_id,
  revoke_agency_membership,
}
use rpsd_config.Memberships.Writes.{
  RaisesEarly, early-Implements, failed-RaisesEarly, ensure-RaisesEarly, permission-RaisesEarly,
  validate_role-RaisesEarly, user_id-RaisesEarly, effective-IsHighest, user_id-keeps, enroll-keeps,
  update_or_create-put_role, save_fields-put_role,
}
use rpsd_config.Memberships.Calls.{
  Call, assignment, role_change, revocation, run, HasSameRoles, Implements,
}
use rpsd_config.Memberships.Roles.{holds, put_role}

module _ {K : Type 0} (kc : KeycloakAdminService K) (social_uid : ℕ → String) (root : String) where
  pub assign-Implements :
      (now : ℕ) (a : AssignmentRequest) (w : World K)
      → Implements
          (assignment now a)
          w.memberships
          (assign_agency_membership kc social_uid root now a w).0
          (assign_agency_membership kc social_uid root now a w).1.memberships
  unfolding assign_agency_membership
  assign-Implements now a w = elim (Result-cases (permission root a)) [
    | inr (e, p) ↦
        let early = rw p at (permission-RaisesEarly root a) in
        rw (p, assign_agency_membership)
          (early-Implements (assignment now a) w.memberships e w.memberships early (λ b u. refl))
    | inl (done, p) ↦ elim (Result-cases (validate_role a.role)) [
      | inr (e, q) ↦
          let early = rw q at (validate_role-RaisesEarly a.role) in
          rw (p, assign_agency_membership)
            (rw q (
              early-Implements (assignment now a) w.memberships e w.memberships early
                (λ b u. refl)))
      | inl (role, q) ↦
          let effective =
            effective_role a.preserve_higher_local_role
              (existing_membership a.agency.pk a.user.pk w) role in
          let (early, keeps) = enroll-keeps kc social_uid a.agency a.user effective w in
          elim (Result-cases (enroll kc social_uid a.agency a.user effective w).0) [
            | inr (e, c) ↦
                rw (p, assign_agency_membership)
                  (rw q (
                    rw c (
                      early-Implements (assignment now a) w.memberships e
                        (enroll kc social_uid a.agency a.user effective w).1.memberships
                        (rw c at early) (λ b u. ap (λ rows. holds rows b u) keeps))))
            | inl (enrolled, c) ↦
                let given : Grant = record {
                  now = now;
                  actor_id = pk_of_actor a.actor;
                  role = effective;
                  source = a.source;
                  enrolled = enrolled;
                } in
                let (m, e, active, puts) =
                  update_or_create-put_role given a.agency.pk a.user.pk
                    (enroll kc social_uid a.agency a.user effective w).1 in
                rw (p, assign_agency_membership)
                  (rw q (
                    rw c (
                      rw e (
                        some effective,
                        (
                          role,
                          effective,
                          or_raise-eq-ok (role_of_text a.role) unsupported_role q,
                          refl,
                          effective-IsHighest a.preserve_higher_local_role
                              (existing_membership a.agency.pk a.user.pk w) role,
                        ),
                        active,
                        λ b u.
                            puts b u
                            ∙ ap
                                (λ rows.
                                  put_role a.agency.pk a.user.pk (some effective) (holds rows) b u)
                                keeps,
                      ))))
          ]
    ]
  ]

  -- After the removal from the old group: the new role, or none with the error.
  removal-Implements :
      (now : ℕ) (s : Subject) (text : String) (role : AgencyRole) (enrolled : Enrolled)
      (removed : Result String (Unit {0})) (rows : List AgencyMembership) (w : World K)
      → role_of_text text ≡ some role
      → w.memberships ≡ rows
      → Implements
          (role_change now s text)
          rows
          (after_removal now s role enrolled removed w).0
          (after_removal now s role enrolled removed w).1.memberships
  unfolding with_role as_sync_error
  removal-Implements now s text role enrolled (ok done) rows w named keeps =
      let key = s.membership in
      elim (save_fields-put_role (with_role now s.actor.pk role enrolled) key (some role) w
        (λ y. refl) (λ y. refl) (λ y. refl)) [
          | inl e ↦ rw e (λ b u. ap (λ rows. holds rows b u) keeps)
          | inr (e, puts, found) ↦ rw e (
            some role,
            (role, named, refl),
            refl,
            λ b u.
                puts b u
                ∙ ap (λ rows. put_role key.agency_id key.user_id (some role) (holds rows) b u)
                    keeps,
          )
        ]
  removal-Implements now s text role enrolled (err message) rows w named keeps =
      let key = s.membership in
      elim (save_fields-put_role (as_sync_error now s.actor.pk enrolled message) key none w
        (λ y. refl) (λ y. refl) (λ y. refl)) [
          | inl e ↦ rw e (λ b u. ap (λ rows. holds rows b u) keeps)
          | inr (e, puts, (y, found)) ↦ rw e (
            tt,
            (as_sync_error now s.actor.pk enrolled message y, found, refl, refl),
            λ b u.
                puts b u
                ∙ ap (λ rows. put_role key.agency_id key.user_id none (holds rows) b u) keeps,
          )
        ]

  change-Implements :
      (now : ℕ) (s : Subject) (text : String) (w : World K)
      → Implements
          (role_change now s text)
          w.memberships
          (change_agency_membership_role kc social_uid root now s text w).0
          (change_agency_membership_role kc social_uid root now s text w).1.memberships
  unfolding change_agency_membership_role
  change-Implements now s text w =
      elim (Result-cases (ensure_actor_can_manage_agency root s.actor s.agency)) [
        | inr (e, p) ↦
            let early = rw p at (ensure-RaisesEarly root s.actor s.agency) in
            rw (p, change_agency_membership_role)
              (early-Implements (role_change now s text) w.memberships e w.memberships early
                (λ b u. refl))
        | inl (done, p) ↦ elim (Result-cases (validate_role text)) [
          | inr (e, q) ↦
              let early = rw q at (validate_role-RaisesEarly text) in
              rw (p, change_agency_membership_role)
                (rw q (
                  early-Implements (role_change now s text) w.memberships e w.memberships early
                    (λ b u. refl)))
          | inl (role, q) ↦
              let (early, keeps) = enroll-keeps kc social_uid s.agency s.user role w in
              elim (Result-cases (enroll kc social_uid s.agency s.user role w).0) [
                | inr (e, c) ↦
                    rw (p, change_agency_membership_role)
                      (rw q (
                        rw c (
                          early-Implements (role_change now s text) w.memberships e
                            (enroll kc social_uid s.agency s.user role w).1.memberships
                            (rw c at early) (λ b u. ap (λ rows. holds rows b u) keeps))))
                | inl (enrolled, c) ↦
                    let w' = (enroll kc social_uid s.agency s.user role w).1 in
                    let old =
                      leave_old_group kc
                        (agency_role_to_group_path root s.agency.agency_key s.membership.role)
                        enrolled in
                    rw (p, change_agency_membership_role)
                      (rw q (
                        rw c (
                          removal-Implements now s text role enrolled (old w'.provider).0
                            w.memberships (attempted old w').1
                            (or_raise-eq-ok (role_of_text text) unsupported_role q) keeps)))
              ]
        ]
      ]

  known-keeps :
      (s : Subject) (w : World K)
      → RaisesEarly (known_user_id kc social_uid root s w).0
        × ((known_user_id kc social_uid root s w).1.memberships ≡ w.memberships)
  known-keeps s w = elim (Bool-cases (is_empty s.membership.keycloak_user_id)) [
    | inl e ↦
        rw e (user_id-RaisesEarly kc social_uid s.user w, user_id-keeps kc social_uid s.user w)
    | inr e ↦ rw e (tt, refl)
  ]

  revoke-Implements :
      (now : ℕ) (s : Subject) (w : World K)
      → Implements
          (revocation now s)
          w.memberships
          (revoke_agency_membership kc social_uid root now s w).0
          (revoke_agency_membership kc social_uid root now s w).1.memberships
  unfolding revoke_agency_membership as_revoked_by
  revoke-Implements now s w =
      let key = s.membership in
      let looked_up = called (kc.get_group_by_path (group_path root s)) w in
      let known = known_user_id kc social_uid root s looked_up.1 in
      let (early_id, keeps) = known-keeps s looked_up.1 in
      let same : HasSameRoles w.memberships known.1.memberships =
        λ b u. ap (λ rows. holds rows b u) keeps in
      elim (Result-cases (ensure_actor_can_manage_agency root s.actor s.agency)) [
        | inr (e, p) ↦
            let early = rw p at (ensure-RaisesEarly root s.actor s.agency) in
            rw (p, revoke_agency_membership)
              (early-Implements (revocation now s) w.memberships e w.memberships early
                (λ b u. refl))
        | inl (done, p) ↦ elim (Result-cases looked_up.0) [
          | inr (e, q) ↦
              let early =
                rw q at
                  (failed-RaisesEarly (kc.get_group_by_path (group_path root s) w.provider).0) in
              rw (p, revoke_agency_membership)
                (rw q (
                  early-Implements (revocation now s) w.memberships e w.memberships early
                    (λ b u. refl)))
          | inl (group, q) ↦ elim (Result-cases known.0) [
            | inr (e, c) ↦
                rw (p, revoke_agency_membership)
                  (rw q (
                    rw c (
                      early-Implements (revocation now s) w.memberships e known.1.memberships
                        (rw c at early_id) same)))
            | inl (user_id, c) ↦
                let left = called (remove_from kc user_id group) known.1 in
                elim (Result-cases left.0) [
                  | inr (e, d) ↦
                      let early =
                        rw d at
                          (failed-RaisesEarly (remove_from kc user_id group known.1.provider).0) in
                      rw (p, revoke_agency_membership)
                        (rw q (
                          rw c (
                            rw d (
                              early-Implements (revocation now s) w.memberships e
                                known.1.memberships early same))))
                  | inl (done', d) ↦
                      elim (save_fields-put_role (as_revoked_by now s.actor.pk user_id) key none
                        left.1 (λ y. refl) (λ y. refl) (λ y. refl)) [
                          | inl e ↦
                              rw (p, revoke_agency_membership) (rw q (rw c (rw d (rw e same))))
                          | inr (e, puts, found) ↦
                              rw (p, revoke_agency_membership)
                                (rw q (
                                  rw c (
                                    rw d (
                                      rw e (
                                        none,
                                        refl,
                                        refl,
                                        λ b u.
                                            puts b u
                                            ∙ ap
                                                (λ rows.
                                                  put_role key.agency_id key.user_id none
                                                    (holds rows) b u)
                                                keeps,
                                      )))))
                        ]
                ]
          ]
        ]
      ]

  -- Whatever assignment, change or revocation is called, whatever the identity provider does: a call
  -- that returns sets the role of its user in its agency in the table of roles, to the higher one of
  -- the requested and the preserved role, the requested role or none. A call that raises changes no
  -- role, except that a change whose error is the failed removal from the old group takes the role away
  -- and stores the membership as out of sync with the message.
  pub run-Implements :
      (c : Call) (w : World K)
      → Implements c w.memberships
          (run kc social_uid root c w).0
          (run kc social_uid root c w).1.memberships
  unfolding run
  run-Implements (assignment now a) w = assign-Implements now a w
  run-Implements (role_change now s text) w = change-Implements now s text w
  run-Implements (revocation now s) w = revoke-Implements now s w
