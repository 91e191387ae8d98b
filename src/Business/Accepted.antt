-- ===== src/Business/Accepted.antt =====
-- What an accepted configuration holds, and that it can be frozen in a snapshot.
use rpsd_config.Common.{String, ◌≡◌, refl, false, Result, ok, err, Bool-cases, inl, inr}
use rpsd_config.Json.{
  Json, null, bool, int, str, decimal, iso_date, float, arr, obj, unsupported, Items, nil, cons,
  Fields, end, field, Key, text_key, other_key, finite, not_finite,
}
use rpsd_config.Business.{
  BusinessError, scheduling_not_allowed, is_scheduling_key, as_array, as_object, add_item,
  put_field, add_field, normalize_json_value, normalize_items, normalize_fields,
  validate_business_configuration,
}

-- No float and no value of another type at any depth; every key is a text, and none a scheduling key.
unfoldable mutual
  pub IsBusiness : Json → Type 0
  IsBusiness null = Unit
  IsBusiness (bool b) = Unit
  IsBusiness (int n) = Unit
  IsBusiness (str s) = Unit
  IsBusiness (arr xs) = IsBusinessItems xs
  IsBusiness (obj fs) = IsBusinessFields fs
  IsBusiness _ = ⊥

  pub IsBusinessItems : Items → Type 0
  IsBusinessItems nil = Unit
  IsBusinessItems (cons x xs) = IsBusiness x × IsBusinessItems xs

  pub IsBusinessFields : Fields → Type 0
  IsBusinessFields end = Unit
  IsBusinessFields (field (text_key k) v fs) =
      (is_scheduling_key k ≡ false) × IsBusiness v × IsBusinessFields fs
  IsBusinessFields (field other_key v fs) = ⊥

add_item-eq-ok :
    (r : Result BusinessError Json) (q : Result BusinessError Items) {ys : Items}
    → add_item r q ≡ ok ys
    → (v : Json) × (rest : Items) × (r ≡ ok v) × (q ≡ ok rest) × (ys ≡ cons v rest)
add_item-eq-ok (ok v) (ok rest) e = (v, rest, refl, refl, cc)
add_item-eq-ok (ok v) (err x) e = cc
add_item-eq-ok (err x) q e = cc

put_field-eq-ok :
    (k : String) (r : Result BusinessError Json) (q : Result BusinessError Fields) {fs : Fields}
    → put_field k r q ≡ ok fs
    → (v : Json) × (rest : Fields) × (r ≡ ok v) × (q ≡ ok rest) × (fs ≡ field (text_key k) v rest)
put_field-eq-ok k (ok v) (ok rest) e = (v, rest, refl, refl, cc)
put_field-eq-ok k (ok v) (err x) e = cc
put_field-eq-ok k (err x) q e = cc

add_field-eq-ok :
    (k : Key) (r : Result BusinessError Json) (q : Result BusinessError Fields) {fs : Fields}
    → add_field k r q ≡ ok fs
    → (t : String) × (v : Json) × (rest : Fields) × (is_scheduling_key t ≡ false)
      × (r ≡ ok v)
      × (q ≡ ok rest)
      × (fs ≡ field (text_key t) v rest)
add_field-eq-ok other_key r q e = cc
add_field-eq-ok (text_key k) r q {fs} e = elim (Bool-cases (is_scheduling_key k)) [
  | inl s ↦ let refused : err scheduling_not_allowed ≡ ok fs = rw s at e in cc
  | inr s ↦
      let put : put_field k r q ≡ ok fs = rw s at e in
      let (v, rest, p, m, w) = put_field-eq-ok k r q put in (k, v, rest, s, p, m, w)
]

as_array-eq-ok :
    (q : Result BusinessError Items) {w : Json}
    → as_array q ≡ ok w
    → (xs : Items) × (q ≡ ok xs) × (w ≡ arr xs)
as_array-eq-ok (ok xs) e = (xs, refl, cc)
as_array-eq-ok (err x) e = cc

as_object-eq-ok :
    (q : Result BusinessError Fields) {w : Json}
    → as_object q ≡ ok w
    → (fs : Fields) × (q ≡ ok fs) × (w ≡ obj fs)
as_object-eq-ok (ok fs) e = (fs, refl, cc)
as_object-eq-ok (err x) e = cc

mutual
  unfolding normalize_json_value IsBusiness

  accepted : (v w : Json) → normalize_json_value v ≡ ok w → IsBusiness w
  accepted null w e = let q : null ≡ w = cc in rw (← q) tt
  accepted (bool b) w e = let q : bool b ≡ w = cc in rw (← q) tt
  accepted (int n) w e = let q : int n ≡ w = cc in rw (← q) tt
  accepted (str s) w e = let q : str s ≡ w = cc in rw (← q) tt
  accepted (decimal s) w e = let q : str s ≡ w = cc in rw (← q) tt
  accepted (iso_date s) w e = cc
  accepted (float finite) w e = cc
  accepted (float not_finite) w e = cc
  accepted (arr xs) w e =
      let (ys, s, q) = as_array-eq-ok (normalize_items xs) e in rw q (accepted_items xs ys s)
  accepted (obj fs) w e =
      let (gs, s, q) = as_object-eq-ok (normalize_fields fs) e in rw q (accepted_fields fs gs s)
  accepted unsupported w e = cc

  accepted_items : (xs ys : Items) → normalize_items xs ≡ ok ys → IsBusinessItems ys
  accepted_items nil ys e = let q : nil ≡ ys = cc in rw (← q) tt
  accepted_items (cons x xs) ys e =
      let (v, rest, p, s, q) = add_item-eq-ok (normalize_json_value x) (normalize_items xs) e in
      rw q (accepted x v p, accepted_items xs rest s)

  accepted_fields : (fs gs : Fields) → normalize_fields fs ≡ ok gs → IsBusinessFields gs
  accepted_fields end gs e = let q : end ≡ gs = cc in rw (← q) tt
  accepted_fields (field k v fs) gs e =
      let (t, w, rest, free, p, s, q) =
        add_field-eq-ok k (normalize_json_value v) (normalize_fields fs) e in
      rw q (free, accepted v w p, accepted_fields fs rest s)

-- An accepted configuration is an object, and at no depth does it hold a float, a value of an
-- unsupported type, a key that is no text or a scheduling key.
pub validate-IsBusiness :
    (v w : Json)
    → validate_business_configuration v ≡ ok w
    → IsBusiness w × (fs : Fields) × (w ≡ obj fs)
unfolding validate_business_configuration
validate-IsBusiness (obj fs) w e =
    let (gs, s, q) = as_object-eq-ok (normalize_fields fs) (unfold normalize_json_value in e) in
    (accepted (obj fs) w e, gs, q)
validate-IsBusiness _ w e = cc
