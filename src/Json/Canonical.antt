-- ===== src/Json/Canonical.antt =====
-- `_canonical_value`, `canonical_json_bytes` and `canonical_snapshot_checksum` of
-- exchange_agreement/services/contract_revisions.py.
pub mod Order
pub mod Idempotent
use Prim.Native.Char.{code}
use rpsd_config.Common.{
  String, Bool, true, false, ◌&&◌, List, [], ◌∷◌, Result, ok, err, if◌then◌else◌, ltb, ◌==◌,
}
use rpsd_config.Json.{
  Json, null, bool, int, str, decimal, iso_date, float, arr, obj, unsupported, Items, nil, cons,
  Fields, end, field, Key, text_key, other_key, finite, not_finite,
}

-- The messages of `ContractRevisionError` that the function raises.
pub data CanonicalError : Type 0 where
  forbids_nan forbids_floats keys_must_be_strings unsupported_type : CanonicalError

-- A dict whose keys are texts, with what became of each value.
abbrev pub Entries : Type 0
Entries = List (String × Result CanonicalError Json)

-- Texts are ordered by their code points.
unfoldable pub text_lt : String → String → Bool
text_lt s String.[] = false
text_lt String.[] (String.◌∷◌ d t) = true
text_lt (String.◌∷◌ c s) (String.◌∷◌ d t) =
    if ltb (code c) (code d) then true else if code c == code d then text_lt s t else false

-- `sorted(value)` over the keys, which is stable.
unfoldable pub insert_entry : String → Result CanonicalError Json → Entries → Entries
insert_entry k r [] = (k, r) ∷ []
insert_entry k r ((j, q) ∷ rest) =
    if text_lt j k then (j, q) ∷ insert_entry k r rest else (k, r) ∷ (j, q) ∷ rest

unfoldable pub sort_entries : Entries → Entries
unfolding insert_entry
sort_entries [] = []
sort_entries ((k, r) ∷ rest) = insert_entry k r (sort_entries rest)

abbrev pub add_field :
    String
    → Result CanonicalError Json
    → Result CanonicalError Fields
    → Result CanonicalError Fields
add_field k (err e) rest = err e
add_field k (ok v) (err e) = err e
add_field k (ok v) (ok fs) = ok (field (text_key k) v fs)

-- The comprehension over the sorted keys: the first value that raises ends it.
unfoldable pub collect : Entries → Result CanonicalError Fields
collect [] = ok end
collect ((k, r) ∷ rest) = add_field k r (collect rest)

abbrev pub as_object : Result CanonicalError Fields → Result CanonicalError Json
as_object (ok fs) = ok (obj fs)
as_object (err e) = err e

abbrev pub as_array : Result CanonicalError Items → Result CanonicalError Json
as_array (ok xs) = ok (arr xs)
as_array (err e) = err e

abbrev pub add_item :
    Result CanonicalError Json → Result CanonicalError Items → Result CanonicalError Items
add_item (err e) rest = err e
add_item (ok v) (err e) = err e
add_item (ok v) (ok xs) = ok (cons v xs)

abbrev pub is_text_key : Key → Bool
is_text_key (text_key k) = true
is_text_key other_key = false

-- `all(isinstance(key, str) for key in value)`
unfoldable pub all_text_keys : Fields → Bool
all_text_keys end = true
all_text_keys (field k v fs) = is_text_key k && all_text_keys fs

abbrev pub entry : Key → Result CanonicalError Json → Entries → Entries
entry (text_key k) r rest = (k, r) ∷ rest
entry other_key r rest = rest

unfoldable mutual
  unfolding all_text_keys sort_entries collect

  pub canonical_value : Json → Result CanonicalError Json
  canonical_value null = ok null
  canonical_value (bool b) = ok (bool b)
  canonical_value (int n) = ok (int n)
  canonical_value (str s) = ok (str s)
  canonical_value (decimal s) = ok (str s)
  canonical_value (iso_date s) = ok (str s)
  canonical_value (float finite) = err forbids_floats
  canonical_value (float not_finite) = err forbids_nan
  canonical_value (arr xs) = as_array (canonical_items xs)
  canonical_value (obj fs) =
      let entries = canonical_entries fs in
      if all_text_keys fs
      then as_object (collect (sort_entries entries))
      else err keys_must_be_strings
  canonical_value unsupported = err unsupported_type

  pub canonical_items : Items → Result CanonicalError Items
  canonical_items nil = ok nil
  canonical_items (cons x xs) = add_item (canonical_value x) (canonical_items xs)

  pub canonical_entries : Fields → Entries
  canonical_entries end = []
  canonical_entries (field k v fs) = entry k (canonical_value v) (canonical_entries fs)
