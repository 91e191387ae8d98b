-- ===== src/Rbac.antt =====
-- exchange_agreement/rbac.py: agency groups of the identity provider and the scope that they give.
-- A group path is read by the regular expression
-- `^{root}/([a-z0-9](?:[a-z0-9-]{1,38}[a-z0-9]))/(admin|editor|reader)$`; no `/` can stand in the
-- key, so the key ends at the next one. Python's `$` also matches before a final line feed.
pub mod Paths
pub mod Scopes
use Prim.Native.Char.{code}
use Prim.Native.String.{◌++◌}
use rpsd_config.Common.{
  ℕ, ◌+◌, String, Bool, false, ◌&&◌, ◌||◌, Option, none, some, List, exists_row, ◌∷◌, [], true,
  str_eq, if◌then◌else◌, leb, ◌==◌,
}
use rpsd_config.Models.{AgencyRole, agency_admin, agency_editor, agency_reader}

-- The user of a request; `groups` is what `extract_user_groups` returns for a saved user.
pub record User : Type 0 where
  pub pk : ℕ
  pub is_authenticated : Bool
  pub is_superuser : Bool
  pub groups : List String

pub record AgencyScope : Type 0 where
  pub is_platform_admin : Bool
  pub admin_agency_keys : List String
  pub editor_agency_keys : List String
  pub reader_agency_keys : List String

-- `key in keys`
unfoldable pub contains : String → List String → Bool
contains k keys = exists_row (λ j. str_eq j k) keys

unfoldable pub can_manage_agency : AgencyScope → String → Bool
unfolding contains
can_manage_agency scope key = scope.is_platform_admin || contains key scope.admin_agency_keys

-- [a-z0-9]
abbrev pub is_alnum : ℕ → Bool
is_alnum c = leb b'a' c && leb c b'z' || leb b'0' c && leb c b'9'

-- The text after a literal prefix.
unfoldable pub after : String → String → Option String
after String.[] s = some s
after (String.◌∷◌ p ps) String.[] = none
after (String.◌∷◌ p ps) (String.◌∷◌ c s) = if code p == code c then after ps s else none

-- The text before the first `/`, and the text behind it.
unfoldable pub segment : String → Option (String × String)
segment String.[] = none
segment (String.◌∷◌ c s) =
    let rest = segment s in
    if code c == b'/'
    then some ("", s)
    else elim rest [ none ↦ none | some (seg, tail) ↦ some (String.◌∷◌ c seg, tail) ]

-- `[a-z0-9-]{1,38}[a-z0-9]`, with `n` characters read so far and the last of them `last`
unfoldable pub key_tail : ℕ → ℕ → String → Bool
key_tail n last String.[] = leb 3 n && leb n 40 && is_alnum last
key_tail n last (String.◌∷◌ c s) =
    let rest = key_tail (n + 1) (code c) s in (is_alnum (code c) || code c == b'-') && rest

unfoldable pub is_agency_key : String → Bool
unfolding key_tail
is_agency_key String.[] = false
is_agency_key (String.◌∷◌ c s) = is_alnum (code c) && key_tail 1 (code c) s

unfoldable pub agency_role_to_group_suffix : AgencyRole → String
agency_role_to_group_suffix agency_admin = "admin"
agency_role_to_group_suffix agency_editor = "editor"
agency_role_to_group_suffix agency_reader = "reader"

-- `(admin|editor|reader)$`, and the role of the suffix
unfoldable pub suffix_role : String → Option AgencyRole
suffix_role s =
    if str_eq s "admin" || str_eq s "admin\n"
    then some agency_admin
    else if str_eq s "editor" || str_eq s "editor\n"
    then some agency_editor
    else if str_eq s "reader" || str_eq s "reader\n"
    then some agency_reader
    else none

abbrev pub with_role : String → Option AgencyRole → Option (String × AgencyRole)
with_role key none = none
with_role key (some role) = some (key, role)

-- What is left of a group path behind the root: `/key/suffix`.
unfoldable pub key_and_role : String → Option (String × AgencyRole)
unfolding segment is_agency_key suffix_role
key_and_role String.[] = none
key_and_role (String.◌∷◌ c s) =
    if code c == b'/'
    then elim (segment s) [
      | none ↦ none
      | some (key, suffix) ↦ if is_agency_key key then with_role key (suffix_role suffix) else none
    ]
    else none

-- `_agency_group_regex().match(group)`, as the key and the role of the match. `root` is the value
-- of `group_root_path()`.
unfoldable pub match_group : String → String → Option (String × AgencyRole)
unfolding after key_and_role
match_group root group = elim (after root group) [ none ↦ none | some s ↦ key_and_role s ]

abbrev pub add_assignment : Option (String × AgencyRole) → AgencyScope → AgencyScope
add_assignment none scope = scope
add_assignment (some (key, agency_admin)) scope = record scope {
  admin_agency_keys = key ∷ scope.admin_agency_keys;
}
add_assignment (some (key, agency_editor)) scope = record scope {
  editor_agency_keys = key ∷ scope.editor_agency_keys;
}
add_assignment (some (key, agency_reader)) scope = record scope {
  reader_agency_keys = key ∷ scope.reader_agency_keys;
}

-- The loop over the groups.
unfoldable pub scope_of_groups : String → Bool → List String → AgencyScope
scope_of_groups root platform_admin [] = record {
  is_platform_admin = platform_admin;
  admin_agency_keys = [];
  editor_agency_keys = [];
  reader_agency_keys = [];
}
scope_of_groups root platform_admin (group ∷ groups) =
    add_assignment (match_group root group) (scope_of_groups root platform_admin groups)

unfoldable pub platform_admin_group_path : String → String
platform_admin_group_path root = root ++ "/admin"

-- `extract_user_groups`
abbrev pub user_groups : User → List String
user_groups user = if user.is_authenticated then user.groups else []

unfoldable pub resolve_user_agency_scope : String → User → AgencyScope
unfolding scope_of_groups contains platform_admin_group_path
resolve_user_agency_scope root user =
    if user.is_superuser
    then scope_of_groups root true []
    else let groups = user_groups user in
      scope_of_groups root (contains (platform_admin_group_path root) groups) groups

unfoldable pub agency_role_to_group_path : String → String → AgencyRole → String
unfolding agency_role_to_group_suffix
agency_role_to_group_path root key role =
    root ++ "/" ++ key ++ "/" ++ agency_role_to_group_suffix role

-- `iter_agency_group_assignments`
pub record Assignment : Type 0 where
  pub group_path : String
  pub agency_key : String
  pub role : AgencyRole

abbrev add_match : String → Option (String × AgencyRole) → List Assignment → List Assignment
add_match group none rest = rest
add_match group (some (key, role)) rest =
    record { group_path = group; agency_key = key; role = role } ∷ rest

unfoldable pub iter_agency_group_assignments : String → List String → List Assignment
iter_agency_group_assignments root [] = []
iter_agency_group_assignments root (group ∷ groups) =
    add_match group (match_group root group) (iter_agency_group_assignments root groups)
