-- ===== src/Tests/Groups.antt =====
-- The groups of the sample user.
use rpsd_config.Common.{◌≡◌, ◌↔◌, refl, true, some}
use rpsd_config.Models.{agency_editor}
use rpsd_config.Rbac
use rpsd_config.Rbac.{
  match_group, agency_role_to_group_path, contains, resolve_user_agency_scope, user_groups,
  is_agency_key,
}
use rpsd_config.Rbac.Paths.{match_group-path}
use rpsd_config.Rbac.Scopes.{HasAdminGroup, admin_agency_keys_lem}
use rpsd_config.Tests.Samples.{user}

valid_key : is_agency_key "atpl-milano" ≡ true
unfolding is_agency_key Rbac.key_tail
valid_key = refl

match_group-path_example :
    match_group "/rpsd" (agency_role_to_group_path "/rpsd" "atpl-milano" agency_editor)
    ≡ some ("atpl-milano", agency_editor)
match_group-path_example = match_group-path "/rpsd" "atpl-milano" agency_editor valid_key

admin_agency_keys_lem_example :
    (contains "tpl" (resolve_user_agency_scope "/rpsd" user).admin_agency_keys ≡ true)
    ↔ HasAdminGroup "/rpsd" "tpl" (user_groups user)
admin_agency_keys_lem_example = admin_agency_keys_lem "/rpsd" "tpl" user refl
