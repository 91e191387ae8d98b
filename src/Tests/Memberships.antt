-- ===== src/Tests/Memberships.antt =====
-- A synchronisation of the sample user, who administers `tpl`, with a membership of a user in another agency.
use rpsd_config.Common.{ℕ, String, ◌≡◌, refl, true, none, some, List, [], ◌∷◌, In, inl, inr, arith}
use rpsd_config.Models.{AgencyMembership, agency_admin, agency_reader, invitation}
use rpsd_config.Models.Memberships.{active, revoked, keycloak_sync}
use rpsd_config.Rbac
use rpsd_config.Memberships.{Sync, sync_agency_memberships_from_groups}
use rpsd_config.Memberships.Synced.{IsVouchedFor, authoritative-IsVouchedFor}
use rpsd_config.Memberships.Others.{sync-keeps_others}
use rpsd_config.Tests.Samples.{agency}

abbrev sync : Sync
sync = record { now = 1000; user_id = 9; keycloak_user_id = "kc"; source = keycloak_sync }

abbrev of : ℕ → ℕ → AgencyMembership
of agency_id user_id = record {
  agency_id = agency_id;
  user_id = user_id;
  role = agency_reader;
  status = active;
  source = invitation;
  keycloak_group_path = "";
  keycloak_user_id = "";
  last_synced_at = none;
  last_sync_error = "";
  created_by_id = none;
  updated_by_id = none;
  revoked_by_id = none;
  revoked_at = none;
  updated_at = 1;
}

abbrev groups : List String
groups = "/rpsd/tpl/reader" ∷ "/rpsd/tpl/admin" ∷ "/rpsd/unknown/admin" ∷ []

abbrev touched : AgencyMembership
touched = record (of 1 9) {
  role = agency_admin;
  source = keycloak_sync;
  keycloak_group_path = "/rpsd/tpl/admin";
  keycloak_user_id = "kc";
  last_synced_at = some 1000;
  updated_at = 1000;
}

abbrev gone : AgencyMembership
gone = record (of 2 9) {
  status = revoked;
  source = keycloak_sync;
  revoked_at = some 1000;
  last_synced_at = some 1000;
  updated_at = 1000;
}

-- The highest role is taken, and the membership without a group is revoked.
synced :
    sync_agency_memberships_from_groups "/rpsd" true sync
      (agency ∷ [])
      groups
      (of 2 9 ∷ of 2 5 ∷ of 1 9 ∷ [])
    ≡ gone ∷ of 2 5 ∷ touched ∷ []
unfolding sync_agency_memberships_from_groups Rbac.iter_agency_group_assignments Rbac.match_group
    Rbac.key_and_role Rbac.key_tail Rbac.segment Rbac.suffix_role Rbac.after Rbac.is_agency_key
    rpsd_config.Memberships.keep_highest rpsd_config.Memberships.grouped_by_agency
    rpsd_config.Models.Memberships.role_rank
synced = refl

authoritative-IsVouchedFor_example : IsVouchedFor "/rpsd" (agency ∷ []) groups touched
unfolding sync_agency_memberships_from_groups Rbac.iter_agency_group_assignments Rbac.match_group
    Rbac.key_and_role Rbac.key_tail Rbac.segment Rbac.suffix_role Rbac.after Rbac.is_agency_key
    rpsd_config.Memberships.keep_highest rpsd_config.Memberships.grouped_by_agency
    rpsd_config.Models.Memberships.role_rank
authoritative-IsVouchedFor_example =
    authoritative-IsVouchedFor "/rpsd" sync (agency ∷ []) groups (of 2 9 ∷ of 2 5 ∷ of 1 9 ∷ [])
      touched (inr (inr (inl refl))) refl refl

sync-keeps_others_example : In (of 2 5) (
    sync_agency_memberships_from_groups "/rpsd" true sync
      (agency ∷ [])
      groups
      (of 2 9 ∷ of 2 5 ∷ of 1 9 ∷ []))
sync-keeps_others_example =
    sync-keeps_others "/rpsd" true sync (agency ∷ []) groups (of 2 9 ∷ of 2 5 ∷ of 1 9 ∷ [])
      (of 2 5) (omega arith) (inr (inl refl))
