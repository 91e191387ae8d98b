-- ===== src/Tests/Values.antt =====
-- Canonical values, checksums and business configurations of sample JSON.
use rpsd_config.Common.{◌≡◌, refl, ok}
use rpsd_config.Json.{
  Json, str, decimal, int, pos, arr, cons, nil, obj, field, text_key, end, Fields,
}
use rpsd_config.Json.Canonical.{
  canonical_value, collect, all_text_keys, insert_entry, sort_entries, text_lt,
}
use rpsd_config.Json.Canonical.Idempotent.{canonical_value_idem}
use rpsd_config.Business.{validate_business_configuration, normalize_json_value, is_scheduling_key}
use rpsd_config.Business.Accepted.{IsBusiness, validate-IsBusiness}

-- {"b": [Decimal("1.50")], "a": 3}
abbrev payload : Json
payload = obj (
    field (text_key "b") (arr (cons (decimal "1.50") nil)) (field (text_key "a") (int (pos 3)) end))

abbrev normalized : Json
normalized =
    obj
      (field (text_key "b") (arr (cons (str "1.50") nil)) (field (text_key "a") (int (pos 3)) end))

abbrev sorted : Json
sorted =
    obj
      (field (text_key "a") (int (pos 3)) (field (text_key "b") (arr (cons (str "1.50") nil)) end))

canonical_payload : canonical_value payload ≡ ok sorted
unfolding canonical_value all_text_keys collect insert_entry sort_entries text_lt
canonical_payload = refl

business_payload : validate_business_configuration payload ≡ ok normalized
unfolding validate_business_configuration normalize_json_value is_scheduling_key
    rpsd_config.Texts.strip rpsd_config.Texts.strip_left rpsd_config.Texts.strip_right
    rpsd_config.Texts.lower_is
business_payload = refl

canonical_value_idem_example : canonical_value sorted ≡ ok sorted
canonical_value_idem_example = canonical_value_idem payload sorted canonical_payload

validate-IsBusiness_example : IsBusiness normalized × (fs : Fields) × (normalized ≡ obj fs)
validate-IsBusiness_example = validate-IsBusiness payload normalized business_payload
