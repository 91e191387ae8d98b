-- ===== src/Rbac/Paths.antt =====
-- The group of a role in an agency is read back as that agency and role.
use Prim.Native.Char.{Char, code}
use Prim.Native.String.{◌++◌, char_at}
use Prim.Native.String.append
use rpsd_config.Common.{ℕ, ◌+◌, String, ◌≡◌, refl, ◌∙◌, ap, true, false, some, ◌==◌, arith}
use rpsd_config.Models.{AgencyRole, agency_admin, agency_editor, agency_reader}
use rpsd_config.Rbac.{
  after, segment, key_tail, is_agency_key, agency_role_to_group_suffix, suffix_role, key_and_role,
  match_group, agency_role_to_group_path,
}

append_nil : (t : String) → ("" ++ t) ≡ t
append_nil t = λ i. append.nil t i

append_cons : (c : Char) (s t : String) → (String.◌∷◌ c s ++ t) ≡ String.◌∷◌ c (s ++ t)
append_cons c s t = λ i. append.cons c s t i

after-append : (root s : String) → after root (root ++ s) ≡ some s
unfolding after
after-append String.[] s = ap some (append_nil s)
after-append (String.◌∷◌ c root) s =
    let rest = after-append root s in rw (append_cons c root s) (ground (arith, rest))

-- No character is a slash.
abbrev HasNoSlash : String → Type 0
HasNoSlash String.[] = Unit
HasNoSlash (String.◌∷◌ c s) = ((code c == b'/') ≡ false) × HasNoSlash s

key_tail-HasNoSlash : (n last : ℕ) (s : String) → key_tail n last s ≡ true → HasNoSlash s
unfolding key_tail
key_tail-HasNoSlash n last String.[] h = tt
key_tail-HasNoSlash n last (String.◌∷◌ c s) h =
    (ground arith, key_tail-HasNoSlash (n + 1) (code c) s (ground arith))

is_agency_key-HasNoSlash : (key : String) → is_agency_key key ≡ true → HasNoSlash key
unfolding is_agency_key
is_agency_key-HasNoSlash String.[] h = tt
is_agency_key-HasNoSlash (String.◌∷◌ c s) h =
    (ground arith, key_tail-HasNoSlash 1 (code c) s (ground arith))

abbrev slash : Char
slash = char_at "/" 0

slash-append : (t : String) → ("/" ++ t) ≡ String.◌∷◌ slash t
slash-append t = append_cons slash "" t ∙ ap (String.◌∷◌ slash) (append_nil t)

segment-append : (key s : String) → HasNoSlash key → segment (key ++ "/" ++ s) ≡ some (key, s)
unfolding segment
segment-append String.[] s h = rw (append_nil ("/" ++ s)) (rw (slash-append s) refl)
segment-append (String.◌∷◌ c key) s h =
    let rest = segment-append key s h.1 in
    rw (append_cons c key ("/" ++ s)) (ground (arith, rest, h.0))

suffix_role-suffix :
    (role : AgencyRole) → suffix_role (agency_role_to_group_suffix role) ≡ some role
unfolding suffix_role agency_role_to_group_suffix
suffix_role-suffix agency_admin = refl
suffix_role-suffix agency_editor = refl
suffix_role-suffix agency_reader = refl

key_and_role-append :
    (key suffix : String) (role : AgencyRole)
    → is_agency_key key ≡ true
    → suffix_role suffix ≡ some role
    → key_and_role ("/" ++ key ++ "/" ++ suffix) ≡ some (key, role)
unfolding key_and_role
key_and_role-append key suffix role valid e =
    let split = segment-append key suffix (is_agency_key-HasNoSlash key valid) in
    rw (slash-append (key ++ "/" ++ suffix)) (ground (arith, split, valid, e))

-- The group path that a role in an agency is given is read back as the key and the role, for every
-- valid agency key.
pub match_group-path :
    (root key : String) (role : AgencyRole)
    → is_agency_key key ≡ true
    → match_group root (agency_role_to_group_path root key role) ≡ some (key, role)
unfolding match_group agency_role_to_group_path
match_group-path root key role valid =
    let rest = "/" ++ key ++ "/" ++ agency_role_to_group_suffix role in
    let found = after-append root rest in
    let read =
      key_and_role-append key (agency_role_to_group_suffix role) role valid
        (suffix_role-suffix role) in
    rw (found, match_group) read
