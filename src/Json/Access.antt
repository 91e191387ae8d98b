-- ===== src/Json/Access.antt =====
-- Reading of a JSON object: `value.get(name)`, and tests of the type of what is read.
use rpsd_config.Common.{String, Option, none, some, str_eq, if◌then◌else◌}
use rpsd_config.Json.{Json, str, obj, Fields, end, field, text_key, other_key}

-- The keys of a dict are distinct, so the first match is the value.
unfoldable pub field_of : String → Fields → Option Json
field_of name end = none
field_of name (field (text_key k) v fs) = if str_eq k name then some v else field_of name fs
field_of name (field other_key v fs) = field_of name fs

-- `value.get(name)` of a dict; `none` for a missing key and for what is no dict
unfoldable pub get : String → Json → Option Json
unfolding field_of
get name (obj fs) = field_of name fs
get name _ = none

abbrev pub as_text : Option Json → Option String
as_text (some (str s)) = some s
as_text _ = none
