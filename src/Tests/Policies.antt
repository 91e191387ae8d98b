-- ===== src/Tests/Policies.antt =====
-- The validation of a draft, the permissions of the sample user, and a dependency that would close
-- a cycle.
use rpsd_config.Common.{◌≡◌, ◌↔◌, refl, Bool, true, false, Option, none, some, List, [], ◌∷◌}
use rpsd_config.Json.{Json}
use rpsd_config.Permissions.{can_approve_contract_revision}
use rpsd_config.Approval.{validate_revision_for_approval}
use rpsd_config.Approval.Complete.{IsApprovable, validate_revision_for_approval_lem}
use rpsd_config.Dependencies.Graph.{Dependency, Reaches, without}
use rpsd_config.Dependencies.Cycle.{search_loop, would_create_cycle, would_create_cycle_lem}
use rpsd_config.Tests.Samples.{second, user, db, contract, snapshot}

allowed : can_approve_contract_revision "/rpsd" db user contract ≡ true
unfolding can_approve_contract_revision rpsd_config.Rbac.match_group rpsd_config.Rbac.after
    rpsd_config.Rbac.contains rpsd_config.Rbac.is_agency_key rpsd_config.Rbac.key_and_role
    rpsd_config.Rbac.key_tail rpsd_config.Rbac.platform_admin_group_path
    rpsd_config.Rbac.resolve_user_agency_scope rpsd_config.Rbac.scope_of_groups
    rpsd_config.Rbac.segment rpsd_config.Rbac.suffix_role
allowed = refl

abbrev build : rpsd_config.Models.Revision → Option Json
build _ = some snapshot

validate_revision_for_approval_example :
    (validate_revision_for_approval build second ≡ [])
    ↔ (IsApprovable second × (v : Json) × (build second ≡ some v))
validate_revision_for_approval_example = validate_revision_for_approval_lem build second

-- 1 needs 2, and 2 needs 3.
abbrev rows : List Dependency
rows =
    record { pk = 1; dependent_id = 1; prerequisite_id = 2 }
    ∷ record { pk = 2; dependent_id = 2; prerequisite_id = 3 }
    ∷ []

-- 3 cannot need 1, and 1 can need 3.
cycles :
    (would_create_cycle rows 3 1 none ≡ some true) × (would_create_cycle rows 1 3 none ≡ some false)
unfolding would_create_cycle search_loop
cycles = (refl, refl)

would_create_cycle_example :
    (b : Bool) × (would_create_cycle rows 3 1 none ≡ some b)
    × ((b ≡ true) ↔ Reaches (without none rows) 1 3)
would_create_cycle_example = would_create_cycle_lem rows 3 1 none
