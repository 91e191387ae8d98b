-- ===== src/Business/Freezes.antt =====
-- An accepted configuration never makes the snapshot's canonical form raise.
use rpsd_config.Common.{String, ◌≡◌, refl, true, [], ◌∷◌, ok, err, Bool-cases, inl, inr}
use rpsd_config.Json.{
  Json, null, bool, int, str, decimal, iso_date, float, arr, obj, unsupported, Items, nil, cons,
  Fields, end, field, text_key, other_key,
}
use rpsd_config.Json.Canonical.{
  Entries, text_lt, insert_entry, sort_entries, collect, all_text_keys, canonical_value,
  canonical_items, canonical_entries,
}
use rpsd_config.Business.{validate_business_configuration}
use rpsd_config.Business.Accepted.{
  IsBusiness, IsBusinessItems, IsBusinessFields, validate-IsBusiness,
}

-- The value was computed: nothing raised.
abbrev Returned : Entries → Type 0
Returned [] = Unit
Returned ((k, ok v) ∷ rest) = Returned rest
Returned ((k, err e) ∷ rest) = ⊥

insert_entry-Returned :
    (k : String) (v : Json) (rest : Entries) → Returned rest → Returned (insert_entry k (ok v) rest)
unfolding insert_entry
insert_entry-Returned k v [] h = tt
insert_entry-Returned k v ((j, ok w) ∷ rest) h = elim (Bool-cases (text_lt j k)) [
  | inl e ↦ rw e (insert_entry-Returned k v rest h)
  | inr e ↦ rw e h
]
insert_entry-Returned k v ((j, err x) ∷ rest) h = absurd h

sort_entries-Returned : (xs : Entries) → Returned xs → Returned (sort_entries xs)
unfolding sort_entries
sort_entries-Returned [] h = tt
sort_entries-Returned ((k, ok v) ∷ xs) h =
    insert_entry-Returned k v (sort_entries xs) (sort_entries-Returned xs h)
sort_entries-Returned ((k, err x) ∷ xs) h = absurd h

collect-Returned : (xs : Entries) → Returned xs → (fs : Fields) × (collect xs ≡ ok fs)
unfolding collect
collect-Returned [] h = (end, refl)
collect-Returned ((k, ok v) ∷ xs) h =
    let (fs, e) = collect-Returned xs h in (field (text_key k) v fs, rw e)
collect-Returned ((k, err x) ∷ xs) h = absurd h

all_text_keys-IsBusiness : (fs : Fields) → IsBusinessFields fs → all_text_keys fs ≡ true
unfolding all_text_keys IsBusiness
all_text_keys-IsBusiness end h = refl
all_text_keys-IsBusiness (field (text_key k) v fs) h = all_text_keys-IsBusiness fs h.2
all_text_keys-IsBusiness (field other_key v fs) h = absurd h

mutual
  unfolding canonical_value IsBusiness

  returns : (v : Json) → IsBusiness v → (w : Json) × (canonical_value v ≡ ok w)
  returns null h = (null, refl)
  returns (bool b) h = (bool b, refl)
  returns (int n) h = (int n, refl)
  returns (str s) h = (str s, refl)
  returns (decimal s) h = absurd h
  returns (iso_date s) h = absurd h
  returns (float k) h = absurd h
  returns (arr xs) h = let (ys, e) = returns_items xs h in (arr ys, rw e)
  returns (obj fs) h =
      let (gs, e) =
        collect-Returned (sort_entries (canonical_entries fs))
          (sort_entries-Returned (canonical_entries fs) (returns_fields fs h)) in
      (obj gs, rw (all_text_keys-IsBusiness fs h) (rw e))
  returns unsupported h = absurd h

  returns_items : (xs : Items) → IsBusinessItems xs → (ys : Items) × (canonical_items xs ≡ ok ys)
  returns_items nil h = (nil, refl)
  returns_items (cons x xs) h =
      let (v, e) = returns x h.0 in let (ys, p) = returns_items xs h.1 in (cons v ys, rw e (rw p))

  returns_fields : (fs : Fields) → IsBusinessFields fs → Returned (canonical_entries fs)
  returns_fields end h = tt
  returns_fields (field (text_key k) v fs) h =
      let (w, e) = returns v h.1 in rw e (returns_fields fs h.2)
  returns_fields (field other_key v fs) h = absurd h

-- What the validation of business JSON accepts has a canonical value.
pub validate-canonical_value :
    (v w : Json)
    → validate_business_configuration v ≡ ok w
    → (u : Json) × (canonical_value w ≡ ok u)
validate-canonical_value v w e = returns w (validate-IsBusiness v w e).0
