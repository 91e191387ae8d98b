-- ===== src/Memberships.antt =====
-- `sync_agency_memberships_from_groups` of exchange_agreement/services/agency_memberships.py: the
-- memberships of a user follow the groups of the identity provider. `groups` is a set in the source;
-- here it is the list in which it is read.
pub mod Synced
pub mod Others
pub mod Provider
pub mod Enrolment
pub mod Stored
pub mod Changes
pub mod Roles
pub mod Calls
pub mod Writes
pub mod Refined
pub mod Provisioned
use rpsd_config.Common.{
  ℕ, ◌+◌, String, Bool, true, false, not, ◌&&◌, ◌||◌, Option, none, some, List, [], ◌∷◌, ◌++◌,
  exists_row, find, count, update_rows, ltb, ◌==◌, str_eq, if◌then◌else◌,
}
use rpsd_config.Models.{
  Agency, AgencyRole, role_rank, AgencyMembership, MembershipStatus, active, revoked,
  is_active_membership, MembershipSource,
}
use rpsd_config.Models.Memberships
use rpsd_config.Rbac.{Assignment, iter_agency_group_assignments}

-- The highest role of every agency, in the order in which the agencies are first met.
unfoldable pub keep_highest : Assignment → List Assignment → List Assignment
keep_highest a [] = a ∷ []
keep_highest a (b ∷ bs) =
    let rest = keep_highest a bs in
    if str_eq b.agency_key a.agency_key
    then (if ltb (role_rank b.role) (role_rank a.role) then a else b) ∷ bs
    else b ∷ rest

unfoldable pub grouped_by_agency : List Assignment → List Assignment → List Assignment
grouped_by_agency [] grouped = grouped
grouped_by_agency (a ∷ assignments) grouped = grouped_by_agency assignments (keep_highest a grouped)

-- What a call is given, besides the tables: the user and the identifier in the identity provider.
pub record Sync : Type 0 where
  pub now : ℕ
  pub user_id : ℕ
  pub keycloak_user_id : String
  pub source : MembershipSource

abbrev pub of_user : ℕ → ℕ → AgencyMembership → Bool
of_user agency_id user_id m = m.agency_id == agency_id && m.user_id == user_id

unfoldable pub new_membership : Sync → ℕ → Assignment → AgencyMembership
new_membership sync agency_id a = record {
  agency_id = agency_id;
  user_id = sync.user_id;
  role = a.role;
  status = active;
  source = sync.source;
  keycloak_group_path = a.group_path;
  keycloak_user_id = sync.keycloak_user_id;
  last_synced_at = some sync.now;
  last_sync_error = "";
  created_by_id = none;
  updated_by_id = none;
  revoked_by_id = none;
  revoked_at = none;
  updated_at = sync.now;
}

-- The updates of a membership that is there. (The time of the synchronisation differs from the last
-- one, so the row is saved.)
abbrev pub updated : Sync → Assignment → AgencyMembership → AgencyMembership
updated sync a m = record m {
  role = a.role;
  status = active;
  source = sync.source;
  keycloak_group_path = a.group_path;
  keycloak_user_id = sync.keycloak_user_id;
  last_synced_at = some sync.now;
  last_sync_error = "";
  revoked_by_id = none;
  revoked_at = none;
  updated_at = sync.now;
}

-- `get_or_create` and the updates, for one agency.
unfoldable pub touch : Sync → ℕ → Assignment → List AgencyMembership → List AgencyMembership
unfolding new_membership
touch sync agency_id a rows =
    if exists_row (of_user agency_id sync.user_id) rows
    then update_rows (of_user agency_id sync.user_id) (updated sync a) rows
    else rows ++ new_membership sync agency_id a ∷ []

abbrev pub agency_of : List Agency → Assignment → Option Agency
agency_of agencies a = find (λ g. str_eq g.agency_key a.agency_key) agencies

-- The loop over the agencies: the rows, and the agencies that were seen.
unfoldable pub touch_all :
    Sync
    → List Agency
    → List Assignment
    → List AgencyMembership
    → List ℕ
    → List AgencyMembership × List ℕ
unfolding touch
touch_all sync agencies [] rows seen = (rows, seen)
touch_all sync agencies (a ∷ grouped) rows seen = elim (agency_of agencies a) [
  | none ↦ touch_all sync agencies grouped rows seen
  | some g ↦ touch_all sync agencies grouped (touch sync g.pk a rows) (g.pk ∷ seen)
]

-- Active memberships of the user in agencies that were not seen.
unfoldable pub is_stale : ℕ → List ℕ → AgencyMembership → Bool
is_stale user_id seen m =
    m.user_id == user_id
    && (is_active_membership m.status && not (exists_row (λ k. k == m.agency_id) seen))

abbrev pub as_revoked : Sync → AgencyMembership → AgencyMembership
as_revoked sync m = record m {
  status = revoked;
  source = sync.source;
  revoked_at = some sync.now;
  last_synced_at = some sync.now;
  updated_at = sync.now;
}

unfoldable pub revoke_stale : Bool → Sync → List AgencyMembership × List ℕ → List AgencyMembership
unfolding is_stale
revoke_stale authoritative sync (rows, seen) =
    if authoritative then update_rows (is_stale sync.user_id seen) (as_revoked sync) rows else rows

-- The rows after the call.
unfoldable pub sync_agency_memberships_from_groups :
    String → Bool → Sync → List Agency → List String → List AgencyMembership → List AgencyMembership
unfolding grouped_by_agency touch_all revoke_stale
sync_agency_memberships_from_groups root authoritative sync agencies groups rows =
    revoke_stale authoritative sync (
      touch_all sync agencies (grouped_by_agency (iter_agency_group_assignments root groups) [])
        rows [])
