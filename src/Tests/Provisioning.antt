-- ===== src/Tests/Provisioning.antt =====
-- Changes of memberships with a provider that holds its members as a function, and with one that fails.
use rpsd_config.Common.{
  ℕ, String, ◌≡◌, ◌≢◌, refl, Bool, true, false, not, ◌&&◌, ◌||◌, none, some, [], ◌∷◌, ok, err,
  str_eq, eq_iff, Bool-cases, inl, inr, ◌⊎◌,
}
use rpsd_config.Models.{
  AgencyRole, AgencyMembership, agency_admin, agency_reader, active, invitation,
}
use rpsd_config.Models.Memberships.{admin_action, revoked}
use rpsd_config.Rbac.{agency_role_to_group_path}
use rpsd_config.Memberships.Provider.{
  KeycloakAdminService, IsProvider, GroupRef, World, removal_failed,
}
use rpsd_config.Memberships.Enrolment.{DirectoryUser}
use rpsd_config.Memberships.Changes.{Subject}
use rpsd_config.Memberships.Roles.{holds}
use rpsd_config.Memberships.Calls.{Call, assignment, role_change, run, Implements}
use rpsd_config.Memberships.Refined.{run-Implements}
use rpsd_config.Memberships.Provisioned.{IsProvisioned, run-IsProvisioned}
use rpsd_config.Tests.Samples.{agency, user}

abbrev pub Members : Type 0
Members = String → String → Bool

abbrev is_member : Members → String → String → Bool
is_member k = k

abbrev group_at : String → GroupRef
group_at path = record { id = path; path = path }

abbrev is_pair : String → String → String → String → Bool
is_pair user group other other_group = str_eq other user && str_eq other_group group

abbrev pub kc : KeycloakAdminService Members
kc = record {
  ensure_agency_groups =
      λ key k. (ok (λ role. group_at (agency_role_to_group_path "/rpsd" key role)), k);
  get_group_by_path = λ path k. (ok (some (group_at path)), k);
  ensure_user = λ username email k. (ok username, k);
  assign_user_to_group = λ user group k. (ok tt, λ u g. is_pair user group u g || k u g);
  remove_user_from_group = λ user group k. (ok tt, λ u g. not (is_pair user group u g) && k u g);
}

is_pair_self : (user group : String) → is_pair user group user group ≡ true
is_pair_self user group = rw ((eq_iff user user).1 refl) ((eq_iff group group).1 refl)

is_pair_other :
    (user group other other_group : String)
    → (other ≢ user) ⊎ (other_group ≢ group)
    → is_pair user group other other_group ≡ false
is_pair_other user group other other_group ne = elim (Bool-cases (str_eq other user)) [
  | inr e ↦ rw e refl
  | inl e ↦ elim (Bool-cases (str_eq other_group group)) [
    | inr e' ↦ rw e e'
    | inl e' ↦ elim ne [
      | inl n ↦ absurd (n ((eq_iff other user).0 e))
      | inr n ↦ absurd (n ((eq_iff other_group group).0 e'))
    ]
  ]
]

kc-IsProvider : IsProvider kc is_member
kc-IsProvider = record {
  added = λ user group k h. rw (is_pair_self user group) refl;
  removed = λ user group k h. rw (is_pair_self user group) refl;
  removed_only =
      λ user group k other other_group ne. rw (is_pair_other user group other other_group ne) refl;
  looked_up = λ path k user group. refl;
}

-- A provider that lets no user leave a group.
abbrev failing : KeycloakAdminService Members
failing = record kc { remove_user_from_group = λ user group k. (err "503", k) }

abbrev pub uid : ℕ → String
uid k = "kc"

abbrev pub reader : AgencyMembership
reader = record {
  agency_id = 1;
  user_id = 5;
  role = agency_reader;
  status = active;
  source = invitation;
  keycloak_group_path = "/rpsd/tpl/reader";
  keycloak_user_id = "kc";
  last_synced_at = none;
  last_sync_error = "";
  created_by_id = some 2;
  updated_by_id = none;
  revoked_by_id = none;
  revoked_at = none;
  updated_at = 1;
}

abbrev pub colleague : DirectoryUser
colleague = record { pk = 5; username = "colleague"; email = "c@tpl.it" }

abbrev subject : Subject
subject = record { actor = user; agency = agency; user = colleague; membership = reader }

abbrev world : World Members
world = record { provider = λ u g. is_pair "kc" "/rpsd/tpl/reader" u g; memberships = reader ∷ [] }

abbrev promoted : AgencyMembership
promoted = record reader {
  role = agency_admin;
  source = admin_action;
  keycloak_group_path = "/rpsd/tpl/admin";
  last_synced_at = some 1000;
  updated_by_id = some 9;
  updated_at = 1000;
}

abbrev promotion : Call
promotion = role_change 1000 subject "agency_admin"

promotes : (run kc uid "/rpsd" promotion world).0 ≡ ok promoted
unfolding run rpsd_config.Memberships.Enrolment.ensure_actor_can_manage_agency
    rpsd_config.Rbac.can_manage_agency rpsd_config.Rbac.resolve_user_agency_scope
    rpsd_config.Rbac.match_group rpsd_config.Memberships.Enrolment.role_of_text
    agency_role_to_group_path rpsd_config.Memberships.Stored.with_role
promotes = refl

-- The user is in both groups, and the membership gives no role.
stuck :
    (run failing uid "/rpsd" promotion world).0 ≡ err (removal_failed "503")
    × (holds (run failing uid "/rpsd" promotion world).1.memberships 1 5 ≡ none)
unfolding run rpsd_config.Memberships.Enrolment.ensure_actor_can_manage_agency
    rpsd_config.Rbac.can_manage_agency rpsd_config.Rbac.resolve_user_agency_scope
    rpsd_config.Rbac.match_group rpsd_config.Memberships.Enrolment.role_of_text
    agency_role_to_group_path holds rpsd_config.Memberships.Stored.as_sync_error
stuck = (refl, refl)

-- An administrator whose membership was revoked, who accepts an invitation as a reader.
abbrev revoked_admin : AgencyMembership
revoked_admin = record reader { role = agency_admin; status = revoked }

abbrev invited_again : Call
invited_again = assignment 1000 (record {
  actor = some user;
  agency = agency;
  user = colleague;
  role = "agency_reader";
  source = invitation;
  enforce_actor_permission = false;
  preserve_higher_local_role = true;
})

restored :
    holds
      (run kc uid "/rpsd" invited_again
        (record world { memberships = revoked_admin ∷ [] })).1.memberships
      1
      5
    ≡ some agency_admin
unfolding run holds rpsd_config.Memberships.Enrolment.role_of_text agency_role_to_group_path
    rpsd_config.Models.role_rank rpsd_config.Memberships.Stored.assigned
restored = refl

run-Implements_example :
    Implements promotion
      (reader ∷ [])
      (ok promoted)
      (run kc uid "/rpsd" promotion world).1.memberships
unfolding run rpsd_config.Memberships.Enrolment.ensure_actor_can_manage_agency
    rpsd_config.Rbac.can_manage_agency rpsd_config.Rbac.resolve_user_agency_scope
    rpsd_config.Rbac.match_group rpsd_config.Memberships.Enrolment.role_of_text
    agency_role_to_group_path rpsd_config.Memberships.Stored.with_role
run-Implements_example = run-Implements kc uid "/rpsd" promotion world

run-IsProvisioned_example :
    IsProvisioned kc is_member uid "/rpsd" promotion world
      (ok promoted)
      (run kc uid "/rpsd" promotion world).1.provider
unfolding run rpsd_config.Memberships.Enrolment.ensure_actor_can_manage_agency
    rpsd_config.Rbac.can_manage_agency rpsd_config.Rbac.resolve_user_agency_scope
    rpsd_config.Rbac.match_group rpsd_config.Memberships.Enrolment.role_of_text
    agency_role_to_group_path rpsd_config.Memberships.Stored.with_role
run-IsProvisioned_example = run-IsProvisioned kc is_member kc-IsProvider uid "/rpsd" promotion world
