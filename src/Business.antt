-- ===== src/Business.antt =====
-- exchange_agreement/services/revision_registry.py: the business JSON of a revision, free of floats
-- and of execution scheduling.
pub mod Accepted
pub mod Freezes
use rpsd_config.Common.{String, Bool, true, false, ◌||◌, Result, ok, err, if◌then◌else◌}
use rpsd_config.Json.{
  Json, null, bool, int, str, decimal, iso_date, float, arr, obj, unsupported, Items, nil, cons,
  Fields, end, field, Key, text_key, other_key, FloatKind, finite, not_finite,
}
use rpsd_config.Texts.{strip, lower_is}

pub data BusinessError : Type 0 where
  must_be_object not_finite_number float_number keys_must_be_strings : BusinessError
  scheduling_not_allowed unsupported_value : BusinessError

-- `key.strip().lower() in FORBIDDEN_SCHEDULING_KEYS`
unfoldable pub is_scheduling_key : String → Bool
unfolding strip lower_is
is_scheduling_key key =
    let k = strip key in
    lower_is k "cron"
    || (lower_is k "frequency"
        || (lower_is k "interval"
            || (lower_is k "schedule"
                || (lower_is k "scheduled_at"
                    || (lower_is k "trigger" || lower_is k "trigger_mode")))))

abbrev pub as_array : Result BusinessError Items → Result BusinessError Json
as_array (ok xs) = ok (arr xs)
as_array (err e) = err e

abbrev pub as_object : Result BusinessError Fields → Result BusinessError Json
as_object (ok fs) = ok (obj fs)
as_object (err e) = err e

-- The element is normalized before the rest of the list.
abbrev pub add_item :
    Result BusinessError Json → Result BusinessError Items → Result BusinessError Items
add_item (err e) rest = err e
add_item (ok v) (err e) = err e
add_item (ok v) (ok xs) = ok (cons v xs)

abbrev pub put_field :
    String → Result BusinessError Json → Result BusinessError Fields → Result BusinessError Fields
put_field k (err e) rest = err e
put_field k (ok v) (err e) = err e
put_field k (ok v) (ok fs) = ok (field (text_key k) v fs)

-- One round of the loop over the items of a dict.
abbrev pub add_field :
    Key → Result BusinessError Json → Result BusinessError Fields → Result BusinessError Fields
add_field other_key v rest = err keys_must_be_strings
add_field (text_key k) v rest =
    if is_scheduling_key k then err scheduling_not_allowed else put_field k v rest

unfoldable mutual
  pub normalize_json_value : Json → Result BusinessError Json
  normalize_json_value null = ok null
  normalize_json_value (bool b) = ok (bool b)
  normalize_json_value (int n) = ok (int n)
  normalize_json_value (str s) = ok (str s)
  normalize_json_value (decimal s) = ok (str s)
  normalize_json_value (iso_date s) = err unsupported_value
  normalize_json_value (float finite) = err float_number
  normalize_json_value (float not_finite) = err not_finite_number
  normalize_json_value (arr xs) = as_array (normalize_items xs)
  normalize_json_value (obj fs) = as_object (normalize_fields fs)
  normalize_json_value unsupported = err unsupported_value

  pub normalize_items : Items → Result BusinessError Items
  normalize_items nil = ok nil
  normalize_items (cons x xs) = add_item (normalize_json_value x) (normalize_items xs)

  pub normalize_fields : Fields → Result BusinessError Fields
  normalize_fields end = ok end
  normalize_fields (field k v fs) = add_field k (normalize_json_value v) (normalize_fields fs)

-- The value that is stored. (The source changes the value in place and returns it.)
unfoldable pub validate_business_configuration : Json → Result BusinessError Json
unfolding normalize_json_value
validate_business_configuration (obj fs) = normalize_json_value (obj fs)
validate_business_configuration _ = err must_be_object
