-- ===== src/Json/Canonical/Order.antt =====
-- The order of the keys, and that inserting and sorting keep it.
use rpsd_config.Common.{
  String, ◌≡◌, refl, true, false, [], ◌∷◌, Result, arith, Bool-cases, inl, inr,
}
use rpsd_config.Json.{Json}
use rpsd_config.Json.Canonical.{CanonicalError, Entries, text_lt, insert_entry, sort_entries}

pub text_lt_asymm : (s t : String) → text_lt s t ≡ true → text_lt t s ≡ false
unfolding text_lt
text_lt_asymm s String.[] h = cc
text_lt_asymm String.[] (String.◌∷◌ d t) h = refl
text_lt_asymm (String.◌∷◌ c s) (String.◌∷◌ d t) h = ground (arith, text_lt_asymm s t)

-- The first entry, if there is one, does not come before the key.
abbrev pub HeadNotBefore : String → Entries → Type 0
HeadNotBefore k [] = Unit
HeadNotBefore k ((j, q) ∷ rest) = text_lt j k ≡ false

abbrev pub IsSorted : Entries → Type 0
IsSorted [] = Unit
IsSorted ((k, r) ∷ rest) = HeadNotBefore k rest × IsSorted rest

HeadNotBefore-insert_entry :
    (k j : String) (r : Result CanonicalError Json) (rest : Entries)
    → text_lt j k ≡ true
    → HeadNotBefore j rest
    → HeadNotBefore j (insert_entry k r rest)
unfolding insert_entry
HeadNotBefore-insert_entry k j r [] h p = text_lt_asymm j k h
HeadNotBefore-insert_entry k j r ((i, q) ∷ rest) h p = elim (Bool-cases (text_lt i k)) [
  | inl e ↦ rw e p
  | inr e ↦ rw e (text_lt_asymm j k h)
]

pub insert_entry-IsSorted :
    (k : String) (r : Result CanonicalError Json) (rest : Entries)
    → IsSorted rest
    → IsSorted (insert_entry k r rest)
unfolding insert_entry
insert_entry-IsSorted k r [] h = (tt, tt)
insert_entry-IsSorted k r ((j, q) ∷ rest) h = elim (Bool-cases (text_lt j k)) [
  | inl e ↦ rw e (HeadNotBefore-insert_entry k j r rest e h.0, insert_entry-IsSorted k r rest h.1)
  | inr e ↦ rw e (e, h)
]

pub sort_entries-IsSorted : (entries : Entries) → IsSorted (sort_entries entries)
unfolding sort_entries
sort_entries-IsSorted [] = tt
sort_entries-IsSorted ((k, r) ∷ rest) =
    insert_entry-IsSorted k r (sort_entries rest) (sort_entries-IsSorted rest)

insert_entry-first :
    (k : String) (r : Result CanonicalError Json) (rest : Entries)
    → HeadNotBefore k rest
    → insert_entry k r rest ≡ (k, r) ∷ rest
unfolding insert_entry
insert_entry-first k r [] h = refl
insert_entry-first k r ((j, q) ∷ rest) h = rw h

-- Sorting changes nothing in an order that is there already.
pub sort_entries-eq_self : (entries : Entries) → IsSorted entries → sort_entries entries ≡ entries
unfolding sort_entries
sort_entries-eq_self [] h = refl
sort_entries-eq_self ((k, r) ∷ rest) h =
    rw (sort_entries-eq_self rest h.1) (insert_entry-first k r rest h.0)
