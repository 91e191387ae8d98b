-- ===== src/Memberships/Stored.antt =====
-- The writes of exchange_agreement/services/agency_memberships.py to the row of a membership.
use rpsd_config.Common.{
  ℕ, String, Bool, ◌&&◌, Option, none, some, [], ◌∷◌, ◌++◌, ok, err, Action, exists_row, find,
  update_rows, ltb, if◌then◌else◌,
}
use rpsd_config.Models.{AgencyRole, role_rank, AgencyMembership, active, revoked, MembershipSource}
use rpsd_config.Models.Memberships.{sync_error, admin_action}
use rpsd_config.Memberships.{of_user}
use rpsd_config.Memberships.Provider.{World, MembershipError, row_is_gone}
use rpsd_config.Memberships.Enrolment.{Enrolled}

-- The role that is stored: a higher one that is there may be preserved.
unfoldable pub effective_role : Bool → Option AgencyMembership → AgencyRole → AgencyRole
effective_role preserve none role = role
effective_role preserve (some m) role =
    if preserve && ltb (role_rank role) (role_rank m.role) then m.role else role

-- What an assignment stores, and when.
pub record Grant : Type 0 where
  pub now : ℕ
  pub actor_id : Option ℕ
  pub role : AgencyRole
  pub source : MembershipSource
  pub enrolled : Enrolled

abbrev pub or_actor : Option ℕ → Option ℕ → Option ℕ
or_actor none actor_id = actor_id
or_actor (some k) actor_id = some k

unfoldable pub first_assigned : Grant → ℕ → ℕ → AgencyMembership
first_assigned g agency_id user_id = record {
  agency_id = agency_id;
  user_id = user_id;
  role = g.role;
  status = active;
  source = g.source;
  keycloak_group_path = g.enrolled.group.path;
  keycloak_user_id = g.enrolled.user_id;
  last_synced_at = some g.now;
  last_sync_error = "";
  created_by_id = g.actor_id;
  updated_by_id = g.actor_id;
  revoked_by_id = none;
  revoked_at = none;
  updated_at = g.now;
}

unfoldable pub assigned : Grant → AgencyMembership → AgencyMembership
assigned g m = record m {
  role = g.role;
  status = active;
  source = g.source;
  keycloak_group_path = g.enrolled.group.path;
  keycloak_user_id = g.enrolled.user_id;
  last_synced_at = some g.now;
  last_sync_error = "";
  created_by_id = or_actor m.created_by_id g.actor_id;
  updated_by_id = g.actor_id;
  revoked_by_id = none;
  revoked_at = none;
  updated_at = g.now;
}

-- `update_or_create`, and the author of a row that has none.
unfoldable pub update_or_create :
    {K : Type 0} → Grant → ℕ → ℕ → Action MembershipError (World K) AgencyMembership
unfolding first_assigned assigned
update_or_create g agency_id user_id w = elim (find (of_user agency_id user_id) w.memberships) [
  | none ↦ (
    ok (first_assigned g agency_id user_id),
    record w { memberships = w.memberships ++ first_assigned g agency_id user_id ∷ [] },
  )
  | some m ↦ (
    ok (assigned g m),
    record w { memberships = update_rows (of_user agency_id user_id) (assigned g) w.memberships },
  )
]

abbrev pub existing_membership : {K : Type 0} → ℕ → ℕ → World K → Option AgencyMembership
existing_membership agency_id user_id w = find (of_user agency_id user_id) w.memberships

-- `membership.save(update_fields=…)`, which raises when the row is gone. The fields are set on the
-- object that was passed, and in the row.
unfoldable pub save_fields :
    {K : Type 0}
    → (AgencyMembership → AgencyMembership)
    → AgencyMembership
    → Action MembershipError (World K) AgencyMembership
save_fields f m w =
    if exists_row (of_user m.agency_id m.user_id) w.memberships
    then (
      ok (f m),
      record w { memberships = update_rows (of_user m.agency_id m.user_id) f w.memberships },
    )
    else (err row_is_gone, w)

unfoldable pub as_sync_error : ℕ → ℕ → Enrolled → String → AgencyMembership → AgencyMembership
as_sync_error now actor_id enrolled message m = record m {
  status = sync_error;
  source = admin_action;
  keycloak_group_path = enrolled.group.path;
  keycloak_user_id = enrolled.user_id;
  last_sync_error = message;
  updated_by_id = some actor_id;
  updated_at = now;
}

unfoldable pub with_role : ℕ → ℕ → AgencyRole → Enrolled → AgencyMembership → AgencyMembership
with_role now actor_id role enrolled m = record m {
  role = role;
  status = active;
  source = admin_action;
  keycloak_group_path = enrolled.group.path;
  keycloak_user_id = enrolled.user_id;
  last_synced_at = some now;
  last_sync_error = "";
  updated_by_id = some actor_id;
  revoked_by_id = none;
  revoked_at = none;
  updated_at = now;
}

unfoldable pub as_revoked_by : ℕ → ℕ → String → AgencyMembership → AgencyMembership
as_revoked_by now actor_id user_id m = record m {
  status = revoked;
  source = admin_action;
  keycloak_user_id = user_id;
  last_synced_at = some now;
  last_sync_error = "";
  updated_by_id = some actor_id;
  revoked_by_id = some actor_id;
  revoked_at = some now;
  updated_at = now;
}
