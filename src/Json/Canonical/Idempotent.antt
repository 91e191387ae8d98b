-- ===== src/Json/Canonical/Idempotent.antt =====
-- A canonical value is canonical: freezing a frozen snapshot again changes nothing.
use rpsd_config.Common.{
  String, ◌≡◌, refl, true, false, [], ◌∷◌, Result, ok, err, Bool-cases, inl, inr,
}
use rpsd_config.Json.{
  Json, null, bool, int, str, decimal, iso_date, float, arr, obj, unsupported, Items, nil, cons,
  Fields, end, field, Key, text_key, other_key, finite, not_finite,
}
use rpsd_config.Json.Canonical.{
  CanonicalError, keys_must_be_strings, Entries, text_lt, insert_entry, sort_entries, collect,
  all_text_keys, canonical_value, canonical_items, canonical_entries, add_field, add_item, as_array,
  as_object, entry,
}
use rpsd_config.Json.Canonical.Order.{
  HeadNotBefore, IsSorted, sort_entries-IsSorted, sort_entries-eq_self,
}

-- The first key, if there is one, is a text that does not come before `k`.
abbrev pub FirstNotBefore : String → Fields → Type 0
FirstNotBefore k end = Unit
FirstNotBefore k (field (text_key j) v fs) = text_lt j k ≡ false
FirstNotBefore k (field other_key v fs) = ⊥

-- Only plain values, and objects with sorted text keys.
unfoldable mutual
  pub IsCanonical : Json → Type 0
  IsCanonical null = Unit
  IsCanonical (bool b) = Unit
  IsCanonical (int n) = Unit
  IsCanonical (str s) = Unit
  IsCanonical (arr xs) = IsCanonicalItems xs
  IsCanonical (obj fs) = IsCanonicalFields fs
  IsCanonical _ = ⊥

  pub IsCanonicalItems : Items → Type 0
  IsCanonicalItems nil = Unit
  IsCanonicalItems (cons x xs) = IsCanonical x × IsCanonicalItems xs

  pub IsCanonicalFields : Fields → Type 0
  IsCanonicalFields end = Unit
  IsCanonicalFields (field (text_key k) v fs) =
      IsCanonical v × FirstNotBefore k fs × IsCanonicalFields fs
  IsCanonicalFields (field other_key v fs) = ⊥

-- Every value of the entries that did not raise is canonical.
abbrev AllCanonical : Entries → Type 0
AllCanonical [] = Unit
AllCanonical ((k, ok v) ∷ rest) = IsCanonical v × AllCanonical rest
AllCanonical ((k, err e) ∷ rest) = AllCanonical rest

insert_entry-AllCanonical :
    (k : String) (r : Result CanonicalError Json) (rest : Entries)
    → AllCanonical ((k, r) ∷ rest)
    → AllCanonical (insert_entry k r rest)
unfolding insert_entry
insert_entry-AllCanonical k r [] h = h
insert_entry-AllCanonical k (ok v) ((j, ok w) ∷ rest) h = elim (Bool-cases (text_lt j k)) [
  | inl e ↦ rw e (h.1.0, insert_entry-AllCanonical k (ok v) rest (h.0, h.1.1))
  | inr e ↦ rw e h
]
insert_entry-AllCanonical k (ok v) ((j, err q) ∷ rest) h = elim (Bool-cases (text_lt j k)) [
  | inl e ↦ rw e (insert_entry-AllCanonical k (ok v) rest h)
  | inr e ↦ rw e h
]
insert_entry-AllCanonical k (err x) ((j, ok w) ∷ rest) h = elim (Bool-cases (text_lt j k)) [
  | inl e ↦ rw e (h.0, insert_entry-AllCanonical k (err x) rest h.1)
  | inr e ↦ rw e h
]
insert_entry-AllCanonical k (err x) ((j, err q) ∷ rest) h = elim (Bool-cases (text_lt j k)) [
  | inl e ↦ rw e (insert_entry-AllCanonical k (err x) rest h)
  | inr e ↦ rw e h
]

AllCanonical-cons :
    (k : String) (r : Result CanonicalError Json) (xs ys : Entries)
    → AllCanonical ((k, r) ∷ xs)
    → (AllCanonical xs → AllCanonical ys)
    → AllCanonical ((k, r) ∷ ys)
AllCanonical-cons k (ok v) xs ys h f = (h.0, f h.1)
AllCanonical-cons k (err e) xs ys h f = f h

sort_entries-AllCanonical : (xs : Entries) → AllCanonical xs → AllCanonical (sort_entries xs)
unfolding sort_entries
sort_entries-AllCanonical [] h = tt
sort_entries-AllCanonical ((k, r) ∷ xs) h =
    insert_entry-AllCanonical k r (sort_entries xs)
      (AllCanonical-cons k r xs (sort_entries xs) h (sort_entries-AllCanonical xs))

-- What a collected dict is made of.
add_field-eq-ok :
    (k : String) (r : Result CanonicalError Json) (q : Result CanonicalError Fields) {fs : Fields}
    → add_field k r q ≡ ok fs
    → (v : Json) × (rest : Fields) × (r ≡ ok v) × (q ≡ ok rest) × (fs ≡ field (text_key k) v rest)
add_field-eq-ok k (ok v) (ok rest) e = (v, rest, refl, refl, cc)
add_field-eq-ok k (ok v) (err x) e = cc
add_field-eq-ok k (err x) q e = cc

add_item-eq-ok :
    (r : Result CanonicalError Json) (q : Result CanonicalError Items) {xs : Items}
    → add_item r q ≡ ok xs
    → (v : Json) × (rest : Items) × (r ≡ ok v) × (q ≡ ok rest) × (xs ≡ cons v rest)
add_item-eq-ok (ok v) (ok rest) e = (v, rest, refl, refl, cc)
add_item-eq-ok (ok v) (err x) e = cc
add_item-eq-ok (err x) q e = cc

as_array-eq-ok :
    (q : Result CanonicalError Items) {w : Json}
    → as_array q ≡ ok w
    → (xs : Items) × (q ≡ ok xs) × (w ≡ arr xs)
as_array-eq-ok (ok xs) e = (xs, refl, cc)
as_array-eq-ok (err x) e = cc

as_object-eq-ok :
    (q : Result CanonicalError Fields) {w : Json}
    → as_object q ≡ ok w
    → (fs : Fields) × (q ≡ ok fs) × (w ≡ obj fs)
as_object-eq-ok (ok fs) e = (fs, refl, cc)
as_object-eq-ok (err x) e = cc

first_of_collect :
    (k : String) (xs : Entries) {fs : Fields}
    → HeadNotBefore k xs
    → collect xs ≡ ok fs
    → FirstNotBefore k fs
unfolding collect
first_of_collect k [] {fs} h e = let q : end ≡ fs = cc in rw (← q) tt
first_of_collect k ((j, r) ∷ xs) h e =
    let (v, rest, _, _, q) = add_field-eq-ok j r (collect xs) e in rw q h

collect-IsCanonical :
    (xs : Entries) {fs : Fields}
    → IsSorted xs
    → AllCanonical xs
    → collect xs ≡ ok fs
    → IsCanonicalFields fs
unfolding collect IsCanonical
collect-IsCanonical [] {fs} h c e = let q : end ≡ fs = cc in rw (← q) tt
collect-IsCanonical ((j, ok w) ∷ xs) h c e =
    let (v, rest, p, s, q) = add_field-eq-ok j (ok w) (collect xs) e in
    let same : w ≡ v = cc in
    rw q (rw (← same) c.0, first_of_collect j xs h.0 s, collect-IsCanonical xs h.1 c.1 s)
collect-IsCanonical ((j, err x) ∷ xs) h c e = cc

object-IsCanonical :
    (fs : Fields) {w : Json}
    → AllCanonical (canonical_entries fs)
    → canonical_value (obj fs) ≡ ok w
    → IsCanonical w
unfolding canonical_value IsCanonical
object-IsCanonical fs {w} c e = elim (Bool-cases (all_text_keys fs)) [
  | inl t ↦
      let collected : as_object (collect (sort_entries (canonical_entries fs))) ≡ ok w =
        rw t at e in
      let (gs, s, q) = as_object-eq-ok _ collected in
      rw q (
        collect-IsCanonical (sort_entries (canonical_entries fs))
          (sort_entries-IsSorted (canonical_entries fs))
          (sort_entries-AllCanonical (canonical_entries fs) c) s)
  | inr t ↦ let refused : err keys_must_be_strings ≡ ok w = rw t at e in cc
]

entry-AllCanonical :
    (k : Key) (r : Result CanonicalError Json) (rest : Entries)
    → ((v : Json) → r ≡ ok v → IsCanonical v)
    → AllCanonical rest
    → AllCanonical (entry k r rest)
entry-AllCanonical (text_key k) (ok v) rest h c = (h v refl, c)
entry-AllCanonical (text_key k) (err e) rest h c = c
entry-AllCanonical other_key r rest h c = c

mutual
  unfolding canonical_value IsCanonical

  canonical : (v w : Json) → canonical_value v ≡ ok w → IsCanonical w
  canonical null w e = let q : null ≡ w = cc in rw (← q) tt
  canonical (bool b) w e = let q : bool b ≡ w = cc in rw (← q) tt
  canonical (int n) w e = let q : int n ≡ w = cc in rw (← q) tt
  canonical (str s) w e = let q : str s ≡ w = cc in rw (← q) tt
  canonical (decimal s) w e = let q : str s ≡ w = cc in rw (← q) tt
  canonical (iso_date s) w e = let q : str s ≡ w = cc in rw (← q) tt
  canonical (float finite) w e = cc
  canonical (float not_finite) w e = cc
  canonical (arr xs) w e =
      let (ys, s, q) = as_array-eq-ok (canonical_items xs) e in rw q (canonical_all xs ys s)
  canonical (obj fs) w e = object-IsCanonical fs (canonical_each fs) e
  canonical unsupported w e = cc

  canonical_all : (xs ys : Items) → canonical_items xs ≡ ok ys → IsCanonicalItems ys
  canonical_all nil ys e = let q : nil ≡ ys = cc in rw (← q) tt
  canonical_all (cons x xs) ys e =
      let (v, rest, p, s, q) = add_item-eq-ok (canonical_value x) (canonical_items xs) e in
      rw q (canonical x v p, canonical_all xs rest s)

  canonical_each : (fs : Fields) → AllCanonical (canonical_entries fs)
  canonical_each end = tt
  canonical_each (field k v fs) =
      entry-AllCanonical k (canonical_value v) (canonical_entries fs) (canonical v)
        (canonical_each fs)

collect-eq_self :
    (fs : Fields) (k : String) (v : Json) (xs : Entries)
    → collect xs ≡ ok fs
    → collect ((k, ok v) ∷ xs) ≡ ok (field (text_key k) v fs)
unfolding collect
collect-eq_self fs k v xs e = rw e

all_text_keys-IsCanonical : (fs : Fields) → IsCanonicalFields fs → all_text_keys fs ≡ true
unfolding all_text_keys IsCanonical
all_text_keys-IsCanonical end h = refl
all_text_keys-IsCanonical (field (text_key k) v fs) h = all_text_keys-IsCanonical fs h.2
all_text_keys-IsCanonical (field other_key v fs) h = absurd h

head_of_entries :
    (k : String) (fs : Fields) → FirstNotBefore k fs → HeadNotBefore k (canonical_entries fs)
unfolding canonical_value
head_of_entries k end h = tt
head_of_entries k (field (text_key j) v fs) h = h
head_of_entries k (field other_key v fs) h = absurd h

entries-IsSorted : (fs : Fields) → IsCanonicalFields fs → IsSorted (canonical_entries fs)
unfolding canonical_value IsCanonical
entries-IsSorted end h = tt
entries-IsSorted (field (text_key k) v fs) h = (head_of_entries k fs h.1, entries-IsSorted fs h.2)
entries-IsSorted (field other_key v fs) h = absurd h

mutual
  unfolding canonical_value IsCanonical

  fixed : (v : Json) → IsCanonical v → canonical_value v ≡ ok v
  fixed null h = refl
  fixed (bool b) h = refl
  fixed (int n) h = refl
  fixed (str s) h = refl
  fixed (decimal s) h = absurd h
  fixed (iso_date s) h = absurd h
  fixed (float k) h = absurd h
  fixed (arr xs) h = rw (fixed_items xs h)
  fixed (obj fs) h = rw (all_text_keys-IsCanonical fs h) (
      rw (sort_entries-eq_self (canonical_entries fs) (entries-IsSorted fs h))
        (rw (fixed_fields fs h)))
  fixed unsupported h = absurd h

  fixed_items : (xs : Items) → IsCanonicalItems xs → canonical_items xs ≡ ok xs
  fixed_items nil h = refl
  fixed_items (cons x xs) h = rw (fixed x h.0) (rw (fixed_items xs h.1))

  fixed_fields : (fs : Fields) → IsCanonicalFields fs → collect (canonical_entries fs) ≡ ok fs
  fixed_fields end h = refl
  fixed_fields (field (text_key k) v fs) h = rw (fixed v h.0) (rw (fixed_fields fs h.2))
  fixed_fields (field other_key v fs) h = absurd h

-- A value that `_canonical_value` returns is returned by it unchanged.
pub canonical_value_idem : (v w : Json) → canonical_value v ≡ ok w → canonical_value w ≡ ok w
canonical_value_idem v w e = fixed w (canonical v w e)
