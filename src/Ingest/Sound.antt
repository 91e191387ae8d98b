-- ===== src/Ingest/Sound.antt =====
-- The integrity checks of the ingest resolution pass on a consistent database.
use rpsd_config.Common.{
  suc, ℕ, String, ◌≡◌, refl, sym, ◌∙◌, ap, Bool, true, false, some, List, [], ◌∷◌, ok, In, count,
  arith, Bool-cases, Option-cases, inl, inr,
}
use rpsd_config.Json.{Json}
use rpsd_config.Json.Checksum.{canonical_snapshot_checksum}
use rpsd_config.Models.{Contract, Revision}
use rpsd_config.Revisions.{candidate, resolve_current_contract_revision}
use rpsd_config.Revisions.Current.{IsCurrent, current_revision-IsCurrent, candidate-date}
use rpsd_config.Revisions.Periods.{HasUniqueDates, resolve-eq-ok}
use rpsd_config.Lifecycle.Invariant.{IsConsistent}
use rpsd_config.Ingest.{on_same_day, current_row}

-- No row is listed twice.
abbrev pub AreDistinct : {A : Type 0} → List A → Type 0
AreDistinct [] = Unit
AreDistinct (x ∷ xs) = (In x xs → ⊥) × AreDistinct xs

count-eq-zero :
    {A : Type 0} (p : A → Bool) (xs : List A) → ((y : A) → In y xs → p y ≡ false) → count p xs ≡ 0
count-eq-zero p [] h = refl
count-eq-zero p (x ∷ xs) h = ground (arith, h x (inl refl), count-eq-zero p xs (λ y m. h y (inr m)))

-- The only row that passes a test is counted once.
count-eq-one :
    {A : Type 0} (p : A → Bool) (xs : List A) (x : A)
    → AreDistinct xs
    → In x xs
    → p x ≡ true
    → ((y : A) → In y xs → p y ≡ true → y ≡ x)
    → count p xs ≡ 1
count-eq-one p [] x d m q only = absurd m
count-eq-one p (z ∷ xs) x d m q only = elim m [
  | inl e ↦
      let rest = count-eq-zero p xs (λ y my. elim (Bool-cases (p y)) [
        | inl h ↦ absurd (d.0 (rw (← e) (rw (← only y (inr my) h) my)))
        | inr h ↦ h
      ]) in
      let hit : p z ≡ true = rw (← e) q in rw hit (ap suc rest)
  | inr r ↦ elim (Bool-cases (p z)) [
    | inl h ↦ absurd (d.0 (rw (only z (inl refl) h) r))
    | inr h ↦ rw h (count-eq-one p xs x d.1 r q (λ y my. only y (inr my)))
  ]
]

same_day_unique :
    (today : ℕ) (rows : List Revision) (id : ℕ) (r y : Revision)
    → HasUniqueDates rows
    → IsCurrent id today rows r
    → In y rows
    → on_same_day id today r y ≡ true
    → y ≡ r
unfolding on_same_day candidate
same_day_unique today rows id r y unique current my h =
    let (d, date, by, own, appr) = candidate-date id today r current.fits in
    elim (Option-cases y.valid_from) [
      | inl e ↦ absurd (ground (arith, date, e))
      | inr (f, e) ↦
          let same : f ≡ d = ground (arith, date, e) in
          unique y r my current.stored (ground arith) appr (ground (arith, own))
            (e ∙ (ap some same ∙ sym date))
    ]

-- In a consistent database, whatever revision is resolved for a contract passes the check that it
-- is the only one of its day, and its stored checksum is that of its stored snapshot.
pub resolve-current_row :
    (hexdigest : Json → String) (today : ℕ) (rows : List Revision) (c : Contract) (r : Revision)
    → IsConsistent hexdigest rows
    → AreDistinct rows
    → resolve_current_contract_revision today rows c ≡ ok r
    → (current_row today rows c ≡ ok r)
      × (canonical_snapshot_checksum hexdigest r.configuration_snapshot ≡ ok r.snapshot_checksum)
unfolding current_row on_same_day
resolve-current_row hexdigest today rows c r consistent distinct h =
    let (effective, found) = resolve-eq-ok today rows c r h in
    let current = current_revision-IsCurrent c.pk today rows r found in
    let (d, date, by, own, appr) = candidate-date c.pk today r current.fits in
    let alone : count (on_same_day c.pk today r) rows ≡ 1 =
      count-eq-one (on_same_day c.pk today r) rows r distinct current.stored
        (ground (arith, date, current.fits))
        (λ y my q. same_day_unique today rows c.pk r y consistent.unique_dates current my q) in
    (rw effective (rw found (rw alone refl)), (consistent.sound r current.stored appr).checksum)
